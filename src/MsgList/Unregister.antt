-- ===== src/MsgList/Unregister.antt =====
-- msg_list_manager.c: what unreg_entry returns, and the list after it.
use cvr_video.Base.{
  ℕ, suc, ◌<◌, ◌≡◌, ◌≢◌, refl, List, ◌∷◌, true, not, ◌==◌, if◌then◌else◌, Option, none, some, ◌>>=◌,
  length, arith, Bool-cases, inl, inr,
}
use cvr_video.MsgList.{
  Heap, Memory, free, set_next, find_from, before_from, delete_node, unreg_entry,
}
use cvr_video.MsgList.Chain.{Cell, head_of, IsMsgList}
use cvr_video.MsgList.Remove.{
  found, before, after, without, is_there, find_from-found, before_from-before,
}
use cvr_video.MsgList.Detach.{
  unlinked, unlinked-IsChain, unlinked-at, detached, found-at, before-at, before-ne-found,
  not_there,
}

unlink_bind :
    (node pre next : ℕ) (cb : Option ℕ) (s : Memory) (fuel : ℕ) (g : Heap)
    → node ≢ 0
    → before_from fuel node 0 s.list_head s.heap ≡ some pre
    → s.heap node ≡ some (record { callback = cb; next = next })
    → (set_next pre next s.heap >>= λ h. free node h) ≡ some g
    → delete_node fuel node s ≡ some (1, record s { heap = g })
unfolding delete_node
unlink_bind node pre next cb s fuel g nz b at_node d = ground (arith, nz, b, at_node, d)

delete_node-unlinked :
    (fuel f : ℕ) (s : Memory) (d : ℕ) (cells : List Cell)
    → IsMsgList s d cells
    → is_there f cells ≡ true
    → length cells < fuel
    → delete_node fuel (found f cells) s
      ≡ some (1, record s { heap = unlinked f (d, none) cells s.heap })
delete_node-unlinked fuel f s d cells v t lt =
    let (nz, (cb, at_node)) = found-at f s.heap cells t v.chain.3 in
    let (n, at_pre) = before-at f s.heap (d, none) cells v.chain in
    unlink_bind (found f cells) (before f (d, none) cells).0 (head_of (after f cells)) cb s fuel _
      nz (rw v.first (before_from-before fuel f 0 s.heap (d, none) cells v.chain t lt)) at_node
      (detached (found f cells) (before f (d, none) cells).0 (head_of (after f cells)) _ cb n s.heap
        (before-ne-found f s.heap (d, none) cells t v.chain) at_node at_pre)

delete_node_null : (fuel : ℕ) (s : Memory) → delete_node fuel 0 s ≡ some (0, s)
unfolding delete_node
delete_node_null fuel s = refl

-- What each address has after unreg_entry: the node found is freed, the one before it leads to the
-- one behind it, and nothing else changes.
abbrev pub heap_without : ℕ → Cell → List Cell → Heap → Heap
heap_without f c cells h b =
    if not (is_there f cells)
    then h b
    else if found f cells == b
    then none
    else if (before f c cells).0 == b
    then some (record { callback = (before f c cells).1; next = head_of (after f cells) })
    else h b

-- unreg_entry takes the first node with the callback out of the list, frees it and returns 1: its
-- address is not allocated any more, the node before it leads to the one behind it, and every other
-- address has what it had. The list and the heap are as they were, and it returns 0, if no node has
-- the callback.
pub unreg_entry-IsMsgList :
    (fuel f : ℕ) (s : Memory) (d : ℕ) (cells : List Cell)
    → IsMsgList s d cells
    → suc (length cells) < fuel
    → (s' : Memory) × (unreg_entry fuel (some f) s ≡ some (if is_there f cells then 1 else 0, s'))
      × IsMsgList s' d (without f cells)
      × ((b : ℕ) → s'.heap b ≡ heap_without f (d, none) cells s.heap b)
unfolding unreg_entry
unreg_entry-IsMsgList fuel f s d cells v lt =
    let seen : find_from fuel (some f) s.list_head s.heap ≡ some (found f cells) =
      rw v.first (find_from-found fuel f s.heap ((d, none) ∷ cells) v.chain lt) in
    elim (Bool-cases (is_there f cells)) [
      | inl e ↦ (
        record s { heap = unlinked f (d, none) cells s.heap },
        rw (e, seen) (delete_node-unlinked fuel f s d cells v e (omega arith)),
        record { first = v.first; chain = unlinked-IsChain f s.heap (d, none) cells e v.chain },
        λ b. rw e (unlinked-at f s.heap (d, none) cells b),
      )
      | inr e ↦ (
        s,
        rw (e, seen, (not_there f cells e).0) (delete_node_null fuel s),
        rw (not_there f cells e).1 v,
        λ b. rw e refl,
      )
    ]

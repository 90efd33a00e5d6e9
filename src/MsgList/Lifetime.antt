-- ===== src/MsgList/Lifetime.antt =====
-- msg_list_manager.c: deinit_list gives back the memory of the list.
use cvr_video.Base.{
  ℕ, zero, suc, ◌<◌, ◌≡◌, ◌≢◌, refl, List, [], ◌∷◌, Bool, false, ◌==◌, ◌||◌, if◌then◌else◌, none,
  some, All, length, arith,
}
use cvr_video.MsgList.{Heap, Memory, released, destroy_from, deinit_list}
use cvr_video.MsgList.Chain.{Cell, head_of, IsChain, IsMsgList, IsChain-agree}

-- A cell has the address.
abbrev pub is_node : ℕ → List Cell → Bool
is_node b [] = false
is_node b ((a, cb) ∷ cells) = a == b || is_node b cells

-- The heap without the cells.
abbrev pub cleared : List Cell → Heap → Heap
cleared [] h = h
cleared ((a, cb) ∷ cells) h = cleared cells (released a h)

released_others :
    (h : Heap) (a : ℕ) (cells : List Cell)
    → All (λ (c : Cell). c.0 ≢ a) cells
    → All (λ (c : Cell). released a h c.0 ≡ h c.0) cells
released_others h a [] v = tt
released_others h a ((b, cb) ∷ cells) (v, vs) = (ground (arith, v), released_others h a cells vs)

cleared-at :
    (cells : List Cell) (h : Heap) (b : ℕ)
    → cleared cells h b ≡ (if is_node b cells then none else h b)
cleared-at [] h b = refl
cleared-at ((a, cb) ∷ cells) h b = ground (arith, cleared-at cells (released a h) b)

destroy_from-cleared :
    (fuel : ℕ) (h : Heap) (cells : List Cell)
    → IsChain h cells
    → length cells < fuel
    → destroy_from fuel (head_of cells) h ≡ some (cleared cells h)
unfolding destroy_from
destroy_from-cleared zero h cells v lt = absurd (omega arith)
destroy_from-cleared (suc fuel) h [] v lt = refl
destroy_from-cleared (suc fuel) h ((a, cb) ∷ cells) (n, at_a, fresh, rest) lt = ground (
  arith,
  n,
  at_a,
  destroy_from-cleared fuel (released a h) cells
      (IsChain-agree (released a h) h cells (released_others h a cells fresh) rest) (omega arith),
)

-- deinit_list frees the nodes of the list, each once, and nothing else; the head is NULL then.
pub deinit_list_frees :
    (fuel : ℕ) (s : Memory) (d : ℕ) (cells : List Cell)
    → IsMsgList s d cells
    → suc (length cells) < fuel
    → (h : Heap) × (deinit_list fuel s ≡ some (record { list_head = 0; heap = h }))
      × ((b : ℕ) → h b ≡ (if is_node b ((d, none) ∷ cells) then none else s.heap b))
unfolding deinit_list
deinit_list_frees fuel s d cells v lt = (
  cleared ((d, none) ∷ cells) s.heap,
  ground (arith, v.first, v.chain, destroy_from-cleared fuel s.heap ((d, none) ∷ cells) v.chain lt),
  cleared-at ((d, none) ∷ cells) s.heap,
)

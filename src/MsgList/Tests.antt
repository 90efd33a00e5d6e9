-- ===== src/MsgList/Tests.antt =====
-- Runs of the message list on small lists.
use cvr_video.Base.{
  ℕ, zero, suc, ◌≡◌, ◌≢◌, refl, List, [], ◌∷◌, Option, none, some, if◌then◌else◌, arith,
}
use cvr_video.MsgList.{
  Node, Heap, Memory, init_list, reg_entry, unreg_entry, deinit_list, dispatch_msg,
}
use cvr_video.MsgList.Chain.{IsMsgList}
use cvr_video.MsgList.Register.{reg_entry-IsMsgList}
use cvr_video.MsgList.Unregister.{heap_without, unreg_entry-IsMsgList}
use cvr_video.MsgList.Lifetime.{is_node, deinit_list_frees}
use cvr_video.MsgList.History.{
  Request, registers, unregisters, serve_all, in_force, dispatch_msg-in_force,
}

-- Two callbacks, 70 and 80, behind the first node at 1.
abbrev two_nodes : Heap
two_nodes (suc zero) = some (record { callback = none; next = 2 })
two_nodes (suc (suc zero)) = some (record { callback = some 70; next = 3 })
two_nodes (suc (suc (suc zero))) = some (record { callback = some 80; next = 0 })
two_nodes _ = none

abbrev two_callbacks : Memory
two_callbacks = record { list_head = 1; heap = two_nodes }

two_callbacks-IsMsgList : IsMsgList two_callbacks 1 ((2, some 70) ∷ (3, some 80) ∷ [])
two_callbacks-IsMsgList = record {
  first = refl;
  chain = (
    (λ e. omega (arith, e)),
    refl,
    ((λ e. omega (arith, e)), ((λ e. omega (arith, e)), tt)),
    (
      (λ e. omega (arith, e)),
      refl,
      ((λ e. omega (arith, e)), tt),
      ((λ e. omega (arith, e)), refl, tt, tt),
    ),
  );
}

reg_entry-IsMsgList_example :
    (s' : Memory) × (reg_entry 3 (some 90) 4 two_callbacks ≡ some (4, s'))
    × IsMsgList s' 1 ((2, some 70) ∷ (3, some 80) ∷ (4, some 90) ∷ [])
reg_entry-IsMsgList_example =
    reg_entry-IsMsgList 3 (some 90) 4 two_callbacks 1 ((2, some 70) ∷ (3, some 80) ∷ [])
      two_callbacks-IsMsgList (λ e. omega (arith, e)) refl (omega arith)

unreg_entry-IsMsgList_example :
    (s' : Memory) × (unreg_entry 4 (some 70) two_callbacks ≡ some (1, s'))
    × IsMsgList s' 1 ((3, some 80) ∷ [])
    × ((b : ℕ)
        → s'.heap b ≡ heap_without 70 (1, none) ((2, some 70) ∷ (3, some 80) ∷ []) two_nodes b)
unreg_entry-IsMsgList_example =
    unreg_entry-IsMsgList 4 70 two_callbacks 1 ((2, some 70) ∷ (3, some 80) ∷ [])
      two_callbacks-IsMsgList (omega arith)

deinit_list_frees_example :
    (h : Heap) × (deinit_list 4 two_callbacks ≡ some (record { list_head = 0; heap = h }))
    × ((b : ℕ)
        → h b ≡ (
            if is_node b ((1, none) ∷ (2, some 70) ∷ (3, some 80) ∷ []) then none else two_nodes b))
deinit_list_frees_example =
    deinit_list_frees 4 two_callbacks 1 ((2, some 70) ∷ (3, some 80) ∷ []) two_callbacks-IsMsgList
      (omega arith)

-- The highest free address below or at `n`.
abbrev first_free : ℕ → Heap → ℕ
first_free zero h = 0
first_free (suc n) h = elim (h (suc n)) [ none ↦ suc n | some m ↦ first_free n h ]

first_free_lem : (n : ℕ) (h : Heap) → first_free n h ≢ 0 → h (first_free n h) ≡ none
first_free_lem zero h ne = absurd (ne refl)
first_free_lem (suc n) h ne = go (h (suc n)) refl (first_free_lem n h)
  where
    go :
        (o : Option Node)
        → h (suc n) ≡ o
        → (first_free n h ≢ 0 → h (first_free n h) ≡ none)
        → h (first_free (suc n) h) ≡ none
    go none e rest = ground (arith, e)
    go (some m) e rest = ground (arith, e, ne, rest)

abbrev three_requests : List Request
three_requests = registers 70 ∷ registers 80 ∷ unregisters 70 ∷ []

dispatch_msg-in_force_example :
    (os : List ℕ) × ((s' : Memory) × (serve_all
          (first_free 9)
          5
          three_requests
          (init_list 3 (record { list_head = 0; heap = λ a. none })).1
        ≡ some (os, s'))
      × (dispatch_msg 5 s' ≡ some (in_force three_requests os [])))
dispatch_msg-in_force_example =
    dispatch_msg-in_force (first_free 9) (first_free_lem 9) 5 3 three_requests
      (record { list_head = 0; heap = λ a. none }) (λ e. omega (arith, e)) (omega arith)

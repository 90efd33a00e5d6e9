-- ===== src/MsgList/Chain.antt =====
-- msg_list_manager.c: what a linked list on the heap stands for.
use cvr_video.Base.{
  ℕ, zero, suc, ◌<◌, ◌≡◌, ◌≢◌, refl, ◌∙◌, List, [], ◌∷◌, Option, none, some, All, length, arith,
}
use cvr_video.MsgList.{Heap, Memory, dispatch_from, dispatch_msg}

-- A node's address and its callback.
abbrev pub Cell : Type 0
Cell = ℕ × Option ℕ

abbrev pub head_of : List Cell → ℕ
head_of [] = 0
head_of ((a, cb) ∷ cells) = a

-- The nodes on the heap from the first cell on, no address twice.
abbrev pub IsChain : Heap → List Cell → Type 0
IsChain h [] = Unit {0}
IsChain h ((a, cb) ∷ cells) =
    (a ≢ 0)
    × (h a ≡ some (record { callback = cb; next = head_of cells }))
    × All (λ (c : Cell). c.0 ≢ a) cells
    × IsChain h cells

-- The list has the callbacks of the cells behind its first node.
pub record IsMsgList (s : Memory) (d : ℕ) (cells : List Cell) : Type 0 where
  pub first : s.list_head ≡ d
  pub chain : IsChain s.heap ((d, none) ∷ cells)

abbrev pub functions : List Cell → List ℕ
functions [] = []
functions ((a, none) ∷ cells) = functions cells
functions ((a, some f) ∷ cells) = f ∷ functions cells

-- Two heaps that agree on the cells.
pub IsChain-agree :
    (g h : Heap) (cells : List Cell)
    → All (λ (c : Cell). g c.0 ≡ h c.0) cells
    → IsChain h cells
    → IsChain g cells
IsChain-agree g h [] e v = tt
IsChain-agree g h ((a, cb) ∷ cells) (e, es) (n, at_a, fresh, rest) =
    (n, e ∙ at_a, fresh, IsChain-agree g h cells es rest)

pub IsChain-free :
    (h : Heap) (cells : List Cell) (a : ℕ)
    → h a ≡ none
    → IsChain h cells
    → All (λ (c : Cell). c.0 ≢ a) cells
IsChain-free h [] a e v = tt
IsChain-free h ((b, cb) ∷ cells) a e (n, at_b, fresh, rest) =
    ((λ s. ground (arith, s, e, at_b)), IsChain-free h cells a e rest)

dispatch_from-functions :
    (fuel : ℕ) (h : Heap) (c : Cell) (cells : List Cell)
    → IsChain h (c ∷ cells)
    → length cells < fuel
    → dispatch_from fuel c.0 h ≡ some (functions (c ∷ cells))
unfolding dispatch_from
dispatch_from-functions zero h c cells v lt = absurd (omega arith)
dispatch_from-functions (suc fuel) h (a, none) [] (n, at_a, fresh, rest) lt = rw at_a refl
dispatch_from-functions (suc fuel) h (a, some f) [] (n, at_a, fresh, rest) lt = rw at_a refl
dispatch_from-functions (suc fuel) h (a, none) (c ∷ cells) (n, at_a, fresh, rest) lt =
    rw at_a (ground (arith, rest, dispatch_from-functions fuel h c cells rest (omega arith)))
dispatch_from-functions (suc fuel) h (a, some f) (c ∷ cells) (n, at_a, fresh, rest) lt =
    rw at_a (ground (arith, rest, dispatch_from-functions fuel h c cells rest (omega arith)))

-- A message goes to the callbacks of the list in the order of the cells.
pub dispatch_msg-functions :
    (fuel : ℕ) (s : Memory) (d : ℕ) (cells : List Cell)
    → IsMsgList s d cells
    → length cells < fuel
    → dispatch_msg fuel s ≡ some (functions cells)
unfolding dispatch_msg
dispatch_msg-functions fuel s d cells v lt =
    ground (arith, v.first, v.chain, dispatch_from-functions fuel s.heap (d, none) cells v.chain lt)

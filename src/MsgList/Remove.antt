-- ===== src/MsgList/Remove.antt =====
-- msg_list_manager.c: the loops of unreg_entry and deleteNode find the first node with the callback
-- and the node before it.
use cvr_video.Base.{
  ℕ, zero, suc, ◌<◌, ◌≡◌, ◌≢◌, refl, ◌∙◌, List, [], ◌∷◌, Bool, true, false, ◌==◌, ◌||◌,
  if◌then◌else◌, some, All, length, arith, Bool-cases, inl, inr,
}
use cvr_video.MsgList.{Node, Heap, same_callback, find_from, before_from}
use cvr_video.MsgList.Chain.{Cell, head_of, IsChain}

abbrev pub has_callback : ℕ → Cell → Bool
has_callback f (a, cb) = same_callback cb (some f)

-- The cells less the first one with the callback.
abbrev pub without : ℕ → List Cell → List Cell
without f [] = []
without f (c ∷ cells) = if has_callback f c then cells else c ∷ without f cells

-- The address of the first cell with the callback, 0 if there is none, and of the cell before it.
abbrev pub found : ℕ → List Cell → ℕ
found f [] = 0
found f (c ∷ cells) = if has_callback f c then c.0 else found f cells

abbrev pub is_there : ℕ → List Cell → Bool
is_there f [] = false
is_there f (c ∷ cells) = has_callback f c || is_there f cells

abbrev pub before : ℕ → Cell → List Cell → Cell
before f c [] = c
before f c (b ∷ cells) = if has_callback f b then c else before f b cells

-- What follows the first cell with the callback.
abbrev pub after : ℕ → List Cell → List Cell
after f [] = []
after f (c ∷ cells) = if has_callback f c then cells else after f cells

pub find_from-found :
    (fuel f : ℕ) (h : Heap) (cells : List Cell)
    → IsChain h cells
    → length cells < fuel
    → find_from fuel (some f) (head_of cells) h ≡ some (found f cells)
unfolding find_from
find_from-found zero f h cells v lt = absurd (omega arith)
find_from-found (suc fuel) f h [] v lt = refl
find_from-found (suc fuel) f h ((a, cb) ∷ cells) (n, at_a, fresh, rest) lt =
    ground (arith, n, at_a, find_from-found fuel f h cells rest (omega arith))

pub found-ne :
    (f a : ℕ) (cells : List Cell)
    → is_there f cells ≡ true
    → All (λ (c : Cell). c.0 ≢ a) cells
    → found f cells ≢ a
found-ne f a [] t v = absurd (ground arith)
found-ne f a (c ∷ cells) t (v, vs) = elim (Bool-cases (has_callback f c)) [
  | inl e ↦ rw e v
  | inr e ↦ rw e (found-ne f a cells (ground (arith, t, e)) vs)
]

pub before-ne :
    (f a : ℕ) (c : Cell) (cells : List Cell)
    → All (λ (b : Cell). b.0 ≢ a) (c ∷ cells)
    → (before f c cells).0 ≢ a
before-ne f a c [] (v, vs) = v
before-ne f a c (b ∷ cells) (v, vs) = elim (Bool-cases (has_callback f b)) [
  | inl e ↦ rw e v
  | inr e ↦ rw e (before-ne f a b cells vs)
]

pub All-without :
    (P : Cell → Type 0) (f : ℕ) (cells : List Cell) → All P cells → All P (without f cells)
All-without P f [] v = tt
All-without P f (c ∷ cells) (v, vs) = elim (Bool-cases (has_callback f c)) [
  | inl e ↦ rw e vs
  | inr e ↦ rw e (v, All-without P f cells vs)
]

ne_test : (a b : ℕ) → b ≢ a → (a == b) ≡ false
ne_test a b h = ground (arith, h)

pub found_here :
    (f : ℕ) (b : Cell) (cells : List Cell) → has_callback f b ≡ true → found f (b ∷ cells) ≡ b.0
found_here f b cells e = rw e

pub found_later :
    (f : ℕ) (b : Cell) (cells : List Cell)
    → has_callback f b ≡ false
    → found f (b ∷ cells) ≡ found f cells
found_later f b cells e = rw e

pub before_here :
    (f : ℕ) (c b : Cell) (cells : List Cell) → has_callback f b ≡ true → before f c (b ∷ cells) ≡ c
before_here f c b cells e = rw e

pub before_later :
    (f : ℕ) (c b : Cell) (cells : List Cell)
    → has_callback f b ≡ false
    → before f c (b ∷ cells) ≡ before f b cells
before_later f c b cells e = rw e

before_from-hit : (fuel node pre : ℕ) (h : Heap) → before_from (suc fuel) node pre node h ≡ some pre
unfolding before_from
before_from-hit fuel node pre h = ground arith

before_from-step :
    (fuel node pre a : ℕ) (n : Node) (h : Heap)
    → node ≢ a
    → h a ≡ some n
    → before_from (suc fuel) node pre a h ≡ before_from fuel node a n.next h
unfolding before_from
before_from-step fuel node pre a n h ne e = ground (arith, ne, e)

pub before_from-before :
    (fuel f pre : ℕ) (h : Heap) (c : Cell) (cells : List Cell)
    → IsChain h (c ∷ cells)
    → is_there f cells ≡ true
    → length cells < fuel
    → before_from fuel (found f cells) pre c.0 h ≡ some (before f c cells).0
before_from-before fuel f pre h c [] v t lt = absurd (ground arith)
before_from-before zero f pre h c (b ∷ cells) v t lt = absurd (omega arith)
before_from-before (suc zero) f pre h c (b ∷ cells) v t lt = absurd (omega arith)
before_from-before (suc (suc fuel)) f pre h (a, cb) (b ∷ cells) (n, at_a, fresh, rest) t lt =
    before_from-step (suc fuel) (found f (b ∷ cells)) pre a _ h (found-ne f a (b ∷ cells) t fresh)
      at_a
    ∙ elim (Bool-cases (has_callback f b)) [
      | inl e ↦
          rw (found_here f b cells e, before_here f (a, cb) b cells e)
            (before_from-hit fuel b.0 a h)
      | inr e ↦
          rw (found_later f b cells e, before_later f (a, cb) b cells e)
            (before_from-before (suc fuel) f a h b cells rest (ground (arith, t, e)) (omega arith))
    ]

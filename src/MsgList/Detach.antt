-- ===== src/MsgList/Detach.antt =====
-- msg_list_manager.c: the heap after deleteNode has unlinked and freed a node.
use cvr_video.Base.{
  ℕ, ◌≡◌, ◌≢◌, refl, sym, ◌∙◌, List, [], ◌∷◌, true, false, ◌==◌, if◌then◌else◌, Option, none, some,
  ◌>>=◌, All, arith, Bool-cases, inl, inr,
}
use mathlib.Core.Path.{subst}
use cvr_video.MsgList.{Heap, write, released, free, set_next}
use cvr_video.MsgList.Chain.{Cell, head_of, IsChain, IsChain-agree}
use cvr_video.MsgList.Remove.{
  has_callback, without, found, is_there, before, after, found-ne, before-ne, All-without,
}

-- The heap in which the node `a` is freed and the cell before it leads to `next`.
pub detach : ℕ → Cell → ℕ → Heap → Heap
detach a (b, cb) next h = released a (write b (record { callback = cb; next = next }) h)

-- The heap after the removal.
abbrev pub unlinked : ℕ → Cell → List Cell → Heap → Heap
unlinked f c cells h = detach (found f cells) (before f c cells) (head_of (after f cells)) h

tail_fresh :
    (h : Heap) (c : Cell) (cells : List Cell)
    → IsChain h (c ∷ cells)
    → All (λ (b : Cell). b.0 ≢ c.0) cells
tail_fresh h (a, cb) cells v = v.2

tail-IsChain : (h : Heap) (c : Cell) (cells : List Cell) → IsChain h (c ∷ cells) → IsChain h cells
tail-IsChain h (a, cb) cells v = v.3

detach-All :
    (h : Heap) (a b : ℕ) (cb : Option ℕ) (next : ℕ) (cells : List Cell)
    → All (λ (c : Cell). c.0 ≢ a) cells
    → All (λ (c : Cell). c.0 ≢ b) cells
    → All (λ (c : Cell). detach b (a, cb) next h c.0 ≡ h c.0) cells
unfolding detach
detach-All h a b cb next [] v w = tt
detach-All h a b cb next (c ∷ cells) (v, vs) (w, ws) =
    (ground (arith, v, w), detach-All h a b cb next cells vs ws)

detach_before :
    (a b : ℕ) (cb : Option ℕ) (next : ℕ) (h : Heap)
    → a ≢ b
    → detach a (b, cb) next h b ≡ some (record { callback = cb; next = next })
unfolding detach
detach_before a b cb next h ne = ground (arith, ne)

detach_other :
    (a : ℕ) (c : Cell) (next : ℕ) (h : Heap) (b : ℕ) → a ≢ b → c.0 ≢ b → detach a c next h b ≡ h b
unfolding detach
detach_other a (c, cb) next h b ne ne' = ground (arith, ne, ne')

unlinked_here :
    (f : ℕ) (h : Heap) (c b : Cell) (cells : List Cell)
    → has_callback f b ≡ true
    → unlinked f c (b ∷ cells) h ≡ detach b.0 c (head_of cells) h
unlinked_here f h c b cells e = rw e

unlinked_later :
    (f : ℕ) (h : Heap) (c b : Cell) (cells : List Cell)
    → has_callback f b ≡ false
    → unlinked f c (b ∷ cells) h ≡ unlinked f b cells h
unlinked_later f h c b cells e = rw e

pub unlinked-IsChain :
    (f : ℕ) (h : Heap) (c : Cell) (cells : List Cell)
    → is_there f cells ≡ true
    → IsChain h (c ∷ cells)
    → IsChain (unlinked f c cells h) (c ∷ without f cells)
unlinked-IsChain f h c [] t v = absurd (ground arith)
unlinked-IsChain f h (a, cb) (b ∷ cells) t (n, at_a, fresh, rest) =
    elim (Bool-cases (has_callback f b)) [
      | inl e ↦
          let here : IsChain (detach b.0 (a, cb) (head_of cells) h) ((a, cb) ∷ cells) = (
            n,
            detach_before b.0 a cb (head_of cells) h fresh.0,
            fresh.1,
            IsChain-agree (detach b.0 (a, cb) (head_of cells) h) h cells
                (detach-All h a b.0 cb (head_of cells) cells fresh.1 (tail_fresh h b cells rest))
                (tail-IsChain h b cells rest),
          ) in
          subst (λ g. IsChain g ((a, cb) ∷ without f (b ∷ cells)))
            (sym (unlinked_here f h (a, cb) b cells e)) (rw e here)
      | inr e ↦
          let t' : is_there f cells ≡ true = ground (arith, t, e) in
          let later : IsChain (unlinked f b cells h) ((a, cb) ∷ b ∷ without f cells) = (
            n,
            detach_other (found f cells) (before f b cells) (head_of (after f cells)) h a
                  (found-ne f a cells t' fresh.1) (before-ne f a b cells fresh)
                ∙ at_a,
            (fresh.0, All-without _ f cells fresh.1),
            unlinked-IsChain f h b cells t' rest,
          ) in
          subst (λ g. IsChain g ((a, cb) ∷ without f (b ∷ cells)))
            (sym (unlinked_later f h (a, cb) b cells e)) (rw e later)
    ]

-- The node found has what the cell says, and the node before it too.
pub found-at :
    (f : ℕ) (h : Heap) (cells : List Cell)
    → is_there f cells ≡ true
    → IsChain h cells
    → (found f cells ≢ 0)
      × ((cb : Option ℕ) × (h (found f cells)
            ≡ some (record { callback = cb; next = head_of (after f cells) })))
found-at f h [] t v = absurd (ground arith)
found-at f h ((a, cb) ∷ cells) t (n, at_a, fresh, rest) =
    elim (Bool-cases (has_callback f (a, cb))) [
      | inl e ↦ rw e (n, (cb, at_a))
      | inr e ↦ rw e (found-at f h cells (ground (arith, t, e)) rest)
    ]

pub before-at :
    (f : ℕ) (h : Heap) (c : Cell) (cells : List Cell)
    → IsChain h (c ∷ cells)
    → (next : ℕ) × (h (before f c cells).0
        ≡ some (record { callback = (before f c cells).1; next = next }))
before-at f h (a, cb) [] (n, at_a, fresh, rest) = (0, at_a)
before-at f h (a, cb) (b ∷ cells) (n, at_a, fresh, rest) = elim (Bool-cases (has_callback f b)) [
  | inl e ↦ rw e (b.0, at_a)
  | inr e ↦ rw e (before-at f h b cells rest)
]

pub before-ne-found :
    (f : ℕ) (h : Heap) (c : Cell) (cells : List Cell)
    → is_there f cells ≡ true
    → IsChain h (c ∷ cells)
    → found f cells ≢ (before f c cells).0
before-ne-found f h c [] t v = absurd (ground arith)
before-ne-found f h (a, cb) (b ∷ cells) t (n, at_a, fresh, rest) =
    elim (Bool-cases (has_callback f b)) [
      | inl e ↦ rw e fresh.0
      | inr e ↦ rw e (before-ne-found f h b cells (ground (arith, t, e)) rest)
    ]

pub not_there :
    (f : ℕ) (cells : List Cell)
    → is_there f cells ≡ false
    → (found f cells ≡ 0) × (without f cells ≡ cells)
not_there f [] e = (refl, refl)
not_there f (c ∷ cells) e =
    let (z, w) = not_there f cells (ground (arith, e)) in ground (arith, e, z, w)

pub detached :
    (a b next : ℕ) (cb cb' : Option ℕ) (n : ℕ) (h : Heap)
    → a ≢ b
    → h a ≡ some (record { callback = cb'; next = next })
    → h b ≡ some (record { callback = cb; next = n })
    → (set_next b next h >>= λ g. free a g) ≡ some (detach a (b, cb) next h)
unfolding detach
detached a b next cb cb' n h ne at_a at_b =
    let kept : write b (record { callback = cb; next = next }) h a
        ≡ some (record { callback = cb'; next = next }) =
      ground (arith, ne, at_a) in
    rw (at_b, kept) refl

detach-at :
    (a : ℕ) (c : Cell) (next : ℕ) (h : Heap) (b : ℕ)
    → detach a c next h b ≡ (
        if a == b
        then none
        else if c.0 == b
        then some (record { callback = c.1; next = next })
        else h b)
unfolding detach
detach-at a (p, cb) next h b = refl

-- What each address has in the heap after the removal.
pub unlinked-at :
    (f : ℕ) (h : Heap) (c : Cell) (cells : List Cell) (b : ℕ)
    → unlinked f c cells h b ≡ (
        if found f cells == b
        then none
        else if (before f c cells).0 == b
        then some (record { callback = (before f c cells).1; next = head_of (after f cells) })
        else h b)
unlinked-at f h c cells b =
    detach-at (found f cells) (before f c cells) (head_of (after f cells)) h b

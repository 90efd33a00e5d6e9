-- ===== src/MsgList/History.antt =====
-- msg_list_manager.c: the module as its callers see it, after any sequence of registrations and
-- removals.
use cvr_video.Base.{
  ℕ, zero, suc, ◌+◌, ◌≤◌, ◌<◌, ◌≡◌, ◌≢◌, refl, sym, ap, ◌∙◌, List, [], ◌∷◌, ◌++◌, ◌==◌,
  if◌then◌else◌, Option, none, some, ◌>>=◌, length, arith, Bool-cases, inl, inr, ◌⊎◌,
}
use cvr_video.MsgList.{Heap, Memory, init_list, reg_entry, unreg_entry, dispatch_msg}
use cvr_video.MsgList.Chain.{Cell, IsMsgList, functions, dispatch_msg-functions}
use cvr_video.MsgList.Register.{init_list-IsMsgList, reg_entry-IsMsgList, reg_entry_refused}
use cvr_video.MsgList.Remove.{has_callback, without}
use cvr_video.MsgList.Unregister.{unreg_entry-IsMsgList}

-- A call of reg_entry or of unreg_entry with a callback.
pub data Request : Type 0 where
  registers : ℕ → Request
  unregisters : ℕ → Request

abbrev pub serve : (Heap → ℕ) → ℕ → Request → Memory → Option (ℕ × Memory)
serve malloc fuel (registers f) s = reg_entry fuel (some f) (malloc s.heap) s
serve malloc fuel (unregisters f) s = unreg_entry fuel (some f) s

-- What the calls return, and the memory after them.
abbrev pub serve_all : (Heap → ℕ) → ℕ → List Request → Memory → Option (List ℕ × Memory)
serve_all malloc fuel [] s = some ([], s)
serve_all malloc fuel (r ∷ rs) s =
    serve malloc fuel r s >>= λ o. serve_all malloc fuel rs o.1 >>= λ os. some (o.0 ∷ os.0, os.1)

-- The list less the first occurrence of the callback.
abbrev pub remove : ℕ → List ℕ → List ℕ
remove f [] = []
remove f (g ∷ l) = if g == f then l else g ∷ remove f l

-- The callbacks in force after a call with that result.
abbrev pub one_more : Request → ℕ → List ℕ → List ℕ
one_more (registers f) zero l = l
one_more (registers f) (suc a) l = l ++ f ∷ []
one_more (unregisters f) o l = remove f l

abbrev pub in_force : List Request → List ℕ → List ℕ → List ℕ
in_force (r ∷ rs) (o ∷ os) l = in_force rs os (one_more r o l)
in_force _ _ l = l

functions-append :
    (cells : List Cell) (a f : ℕ)
    → functions (cells ++ (a, some f) ∷ []) ≡ functions cells ++ f ∷ []
functions-append [] a f = refl
functions-append ((b, none) ∷ cells) a f = functions-append cells a f
functions-append ((b, some g) ∷ cells) a f = ap (λ l. g ∷ l) (functions-append cells a f)

functions-without :
    (f : ℕ) (cells : List Cell) → functions (without f cells) ≡ remove f (functions cells)
functions-without f [] = refl
functions-without f ((a, none) ∷ cells) = functions-without f cells
functions-without f ((a, some g) ∷ cells) = elim (Bool-cases (g == f)) [
  | inl e ↦ rw e refl
  | inr e ↦ rw e (ap (λ l. g ∷ l) (functions-without f cells))
]

length-append_one : (cells : List Cell) (c : Cell) → length (cells ++ c ∷ []) ≡ suc (length cells)
length-append_one [] c = refl
length-append_one (b ∷ cells) c = ap suc (length-append_one cells c)

length-without : (f : ℕ) (cells : List Cell) → length (without f cells) ≤ length cells
length-without f [] = omega arith
length-without f (c ∷ cells) = elim (Bool-cases (has_callback f c)) [
  | inl e ↦ rw e (omega arith)
  | inr e ↦ rw e (let ih = length-without f cells in omega arith)
]

zero_or_not : (a : ℕ) → (a ≡ 0) ⊎ (a ≢ 0)
zero_or_not zero = inl refl
zero_or_not (suc a) = inr (λ e. omega arith)

one_more_granted : (f a : ℕ) (l : List ℕ) → a ≢ 0 → one_more (registers f) a l ≡ l ++ f ∷ []
one_more_granted f zero l ne = absurd (ne refl)
one_more_granted f (suc a) l ne = refl

-- A list with these callbacks, of at most `n` nodes behind the first one.
pub record Holds (s : Memory) (d : ℕ) (l : List ℕ) (n : ℕ) : Type 0 where
  pub cells : List Cell
  pub valid : IsMsgList s d cells
  pub same : functions cells ≡ l
  pub few : length cells ≤ n

module _ (malloc : Heap → ℕ) (fresh : (h : Heap) → malloc h ≢ 0 → h (malloc h) ≡ none) where
  serve-Holds :
      (fuel n : ℕ) (r : Request) (s : Memory) (d : ℕ) (l : List ℕ)
      → Holds s d l n
      → suc n < fuel
      → (o : ℕ) × ((s' : Memory) × (serve malloc fuel r s ≡ some (o, s'))
          × Holds s' d (one_more r o l) (suc n))
  serve-Holds fuel n (unregisters f) s d l v lt =
      let (s', e, v', _) =
        unreg_entry-IsMsgList fuel f s d v.cells v.valid (let b = v.few in omega arith) in
      (
        _,
        (
          s',
          e,
          record {
            cells = without f v.cells;
            valid = v';
            same = functions-without f v.cells ∙ ap (remove f) v.same;
            few = let b = v.few in let b' = length-without f v.cells in omega arith;
          },
        ),
      )
  serve-Holds fuel n (registers f) s d l v lt = elim (zero_or_not (malloc s.heap)) [
    | inl e ↦ (
      0,
      (
        s,
        reg_entry_refused fuel (some f) (malloc s.heap) s (ground (arith, e)),
        record {
          cells = v.cells;
          valid = v.valid;
          same = v.same;
          few = let b = v.few in omega arith;
        },
      ),
    )
    | inr ne ↦
        let (s', e, v') =
          reg_entry-IsMsgList fuel (some f) (malloc s.heap) s d v.cells v.valid ne (fresh s.heap ne)
            (let b = v.few in omega arith) in
        (
          malloc s.heap,
          (
            s',
            e,
            record {
              cells = v.cells ++ (malloc s.heap, some f) ∷ [];
              valid = v';
              same =
                  functions-append v.cells (malloc s.heap) f
                  ∙ ap (λ k. k ++ f ∷ []) v.same
                  ∙ sym (one_more_granted f (malloc s.heap) l ne);
              few =
                  rw (length-append_one v.cells (malloc s.heap, some f))
                    (let b = v.few in omega arith);
            },
          ),
        )
  ]

  served :
      (fuel n : ℕ) (rs : List Request) (s : Memory) (d : ℕ) (l : List ℕ)
      → Holds s d l n
      → suc n + length rs < fuel
      → (os : List ℕ) × ((s' : Memory) × (serve_all malloc fuel rs s ≡ some (os, s'))
          × Holds s' d (in_force rs os l) (n + length rs))
  served fuel n [] s d l v lt = (
    [],
    (
      s,
      refl,
      record {
        cells = v.cells;
        valid = v.valid;
        same = v.same;
        few = let b = v.few in omega arith;
      },
    ),
  )
  served fuel n (r ∷ rs) s d l v lt =
      let (o, (s₁, e₁, v₁)) = serve-Holds fuel n r s d l v (omega arith) in
      let (os, (s₂, e₂, v₂)) = served fuel (suc n) rs s₁ d (one_more r o l) v₁ (omega arith) in
      (
        o ∷ os,
        (
          s₂,
          rw (e₁, e₂) refl,
          record {
            cells = v₂.cells;
            valid = v₂.valid;
            same = v₂.same;
            few = let b = v₂.few in omega arith;
          },
        ),
      )

  -- After init_list with memory for its node, any sequence of reg_entry and unreg_entry with
  -- callbacks ends without a fault, and then a message goes to the callbacks in force, in the order
  -- of their registrations: a registration counts unless it returned NULL, and a removal takes the
  -- first occurrence. Here malloc gives memory that is not in use or NULL, and the fuel is above
  -- the number of requests and one.
  pub dispatch_msg-in_force :
      (fuel d : ℕ) (rs : List Request) (s : Memory)
      → d ≢ 0
      → suc (length rs) < fuel
      → (os : List ℕ) × ((s' : Memory) × (serve_all malloc fuel rs (init_list d s).1
            ≡ some (os, s'))
          × (dispatch_msg fuel s' ≡ some (in_force rs os [])))
  dispatch_msg-in_force fuel d rs s nd lt =
      let start : Holds (init_list d s).1 d [] 0 = record {
        cells = [];
        valid = (init_list-IsMsgList d s nd).1;
        same = refl;
        few = omega arith;
      } in
      let (os, (s', e, v)) = served fuel 0 rs (init_list d s).1 d [] start (omega arith) in
      (
        os,
        (
          s',
          e,
          dispatch_msg-functions fuel s' d v.cells v.valid (let b = v.few in omega arith)
              ∙ ap some v.same,
        ),
      )

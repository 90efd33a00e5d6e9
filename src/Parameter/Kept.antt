-- ===== src/Parameter/Kept.antt =====
-- parameter.c: what the storage has after any sequence of calls.
use cvr_video.Base.{
  ℕ, ◌≡◌, refl, ◌∙◌, List, [], ◌∷◌, ◌&&◌, if◌then◌else◌, Option, none, some, ◌>>=◌, Bool-cases, inl,
  inr, arith,
}
use mathlib.Core.Path.{subst}
use cvr_video.Base.Int.{ℤ, pos, eq_ℤ}
use cvr_video.Parameter.{SysParam, Settings}
use cvr_video.Parameter.Vendor.{
  Vendor, Keeps, parameter_vendor_write, parameter_param_write, parameter_save,
}
use cvr_video.Parameter.Requests.{Request, is_saved, serve}
use cvr_video.Parameter.Effects.{fault, saved, unsaved, serve-Effect}

module _ {ℓ} {V : Type ℓ} (vendor : Vendor V) where
  -- The calls in order; `none` is a fault.
  abbrev pub serve_all : List Request → Settings V → Option (Settings V)
  serve_all [] s = some s
  serve_all (r ∷ rs) s = serve vendor r s >>= λ o. serve_all rs o.1

  -- The settings of the last call that saves and answers 0; `p` if there is none.
  abbrev pub last_saved : List Request → Settings V → SysParam → SysParam
  last_saved [] s p = p
  last_saved (r ∷ rs) s p = elim (serve vendor r s) [
    | none ↦ p
    | some o ↦ last_saved rs o.1 (if is_saved r && eq_ℤ o.0 (pos 0) then o.1.parameter else p)
  ]

  pub save-parameter : (s : Settings V) → (parameter_save vendor s).1.parameter ≡ s.parameter
  unfolding parameter_save parameter_param_write
  save-parameter s = ground arith

  module _ (keeps : Keeps vendor) where
    pub save-read :
        (s : Settings V) (p : SysParam)
        → vendor.read_param s.storage ≡ some p
        → vendor.read_param (parameter_save vendor s).1.storage
          ≡ some (if eq_ℤ (parameter_save vendor s).0 (pos 0) then s.parameter else p)
    unfolding parameter_save parameter_param_write parameter_vendor_write
    save-read s p e =
        ground
          (arith, e, keeps.written s.parameter s.storage, keeps.unwritten s.parameter s.storage)

    one_saved :
        (r : Request) (s : Settings V) (p : SysParam) (o : ℤ × Settings V)
        → vendor.read_param s.storage ≡ some p
        → serve vendor r s ≡ some o
        → vendor.read_param o.1.storage
          ≡ some (if is_saved r && eq_ℤ o.0 (pos 0) then o.1.parameter else p)
    one_saved r s p o e h = elim (serve-Effect vendor r s) [
      | fault e' ↦ absurd (ground (arith, h, e'))
      | saved q e' v t ↦
          let same : parameter_save vendor (record s { parameter = q }) ≡ o =
            ground (arith, h, e') in
          subst
            (λ w.
              vendor.read_param w.1.storage
              ≡ some (if is_saved r && eq_ℤ w.0 (pos 0) then w.1.parameter else p))
            same
            (rw (t, save-parameter (record s { parameter = q }))
              (save-read (record s { parameter = q }) p e))
      | unsaved t e' k v f ↦
          let same : (pos 0, t) ≡ o = ground (arith, h, e') in
          subst
            (λ (w : ℤ × Settings V).
              vendor.read_param w.1.storage
              ≡ some (if is_saved r && eq_ℤ w.0 (pos 0) then w.1.parameter else p))
            same (rw (f, k) e)
    ]

    pub serve_all-read :
        (rs : List Request) (s : Settings V) (p : SysParam) (s' : Settings V)
        → vendor.read_param s.storage ≡ some p
        → serve_all rs s ≡ some s'
        → vendor.read_param s'.storage ≡ some (last_saved rs s p)
    serve_all-read [] s p s' e h = ground (arith, e, h)
    serve_all-read (r ∷ rs) s p s' e h = go (serve vendor r s) refl h (λ o. serve_all-read rs o.1)
      where
        go :
            (o : Option (ℤ × Settings V))
            → serve vendor r s ≡ o
            → (o >>= λ w. serve_all rs w.1) ≡ some s'
            → ((w : ℤ × Settings V) (q : SysParam) (t : Settings V)
                → vendor.read_param w.1.storage ≡ some q
                → serve_all rs w.1 ≡ some t
                → vendor.read_param t.storage ≡ some (last_saved rs w.1 q))
            → vendor.read_param s'.storage
              ≡ some (elim o as (λ _. SysParam) [
                | none ↦ p
                | some w ↦
                    last_saved rs w.1 (if is_saved r && eq_ℤ w.0 (pos 0) then w.1.parameter else p)
              ])
        go none k h rest = absurd (cc)
        go (some w) k h rest = rest w _ s' (one_saved r s p w e k) h

  one_version :
      (r : Request) (s : Settings V) (o : ℤ × Settings V)
      → serve vendor r s ≡ some o
      → o.1.parameter.pararater_version ≡ s.parameter.pararater_version
  one_version r s o h = elim (serve-Effect vendor r s) [
    | fault e' ↦ absurd (ground (arith, h, e'))
    | saved q e' v t ↦
        let same : parameter_save vendor (record s { parameter = q }) ≡ o = ground (arith, h, e') in
        subst (λ w. w.1.parameter.pararater_version ≡ s.parameter.pararater_version) same
          (rw (save-parameter (record s { parameter = q })) v)
    | unsaved t e' k v f ↦
        let same : (pos 0, t) ≡ o = ground (arith, h, e') in
        subst
          (λ (w : ℤ × Settings V). w.1.parameter.pararater_version ≡ s.parameter.pararater_version)
          same v
  ]

  pub last_saved-version :
      (w : List ℕ) (rs : List Request) (s : Settings V) (p : SysParam)
      → s.parameter.pararater_version ≡ w
      → p.pararater_version ≡ w
      → (last_saved rs s p).pararater_version ≡ w
  last_saved-version w [] s p e e' = e'
  last_saved-version w (r ∷ rs) s p e e' =
      go (serve vendor r s) refl (λ o. last_saved-version w rs o.1)
    where
      go :
          (o : Option (ℤ × Settings V))
          → serve vendor r s ≡ o
          → ((u : ℤ × Settings V) (q : SysParam)
              → u.1.parameter.pararater_version ≡ w
              → q.pararater_version ≡ w
              → (last_saved rs u.1 q).pararater_version ≡ w)
          → (elim o as (λ _. SysParam) [
            | none ↦ p
            | some u ↦
                last_saved rs u.1 (if is_saved r && eq_ℤ u.0 (pos 0) then u.1.parameter else p)
          ]).pararater_version
            ≡ w
      go none k rest = e'
      go (some u) k rest =
          let here = one_version r s u k ∙ e in
          rest u _ here (elim (Bool-cases (is_saved r && eq_ℤ u.0 (pos 0))) [
            | inl b ↦ rw b here
            | inr b ↦ rw b e'
          ])

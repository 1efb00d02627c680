-- ===== src/Strings/Trim.antt =====
-- Trimming white space.
use mathlib.Core.List.{reverse-reverse, reverse-append}
use arupa.Base.{ℕ, zero, suc, ◌≡◌, refl, sym, ap, ◌∙◌, [], ◌∷◌, ◌++◌, reverse, arith}
use arupa.Base.{GoString, ℕ-cases, inl, inr}
use arupa.Strings.{space_width, end_width, strip, trim_space}

-- `strip` leaves no white space in front, and drops a front part.
strip-done :
    (width : GoString → ℕ) (skip : ℕ) (s : GoString) → width [] ≡ 0 → width (strip width skip s) ≡ 0
unfolding strip
strip-done width zero [] h = h
strip-done width (suc skip) [] h = h
strip-done width (suc skip) (a ∷ s) h = strip-done width skip s h
strip-done width zero (a ∷ s) h = elim (ℕ-cases (width (a ∷ s))) [
  | inl done ↦ rw (done, strip) done
  | inr (skip, more) ↦ rw (more, strip) (strip-done width skip s h)
]

strip-eq_of_done : (width : GoString → ℕ) (s : GoString) → width s ≡ 0 → strip width 0 s ≡ s
unfolding strip
strip-eq_of_done width [] h = refl
strip-eq_of_done width (a ∷ s) h = rw (h, strip)

strip-suffix :
    (width : GoString → ℕ) (skip : ℕ) (s : GoString)
    → (p : GoString) × (p ++ strip width skip s ≡ s)
unfolding strip
strip-suffix width zero [] = ([], refl)
strip-suffix width (suc skip) [] = ([], refl)
strip-suffix width (suc skip) (a ∷ s) =
    let (p, e) = strip-suffix width skip s in (a ∷ p, ap (λ t. a ∷ t) e)
strip-suffix width zero (a ∷ s) = elim (ℕ-cases (width (a ∷ s))) [
  | inl done ↦ ([], rw (done, strip) refl)
  | inr (skip, more) ↦
      let (p, e) = strip-suffix width skip s in (a ∷ p, rw (more, strip) (ap (λ t. a ∷ t) e))
]

-- What begins with no white space has no front part that does.
space_width-append : (p q : GoString) → space_width (p ++ q) ≡ 0 → space_width p ≡ 0
unfolding space_width
space_width-append [] q h = refl
space_width-append (a ∷ []) [] h = ground arith
space_width-append (a ∷ []) (b ∷ []) h = ground arith
space_width-append (a ∷ []) (b ∷ c ∷ q) h = ground arith
space_width-append (a ∷ b ∷ []) [] h = ground arith
space_width-append (a ∷ b ∷ []) (c ∷ q) h = ground arith
space_width-append (a ∷ b ∷ c ∷ p) q h = ground arith

trimmed-front :
    (t : GoString) → space_width t ≡ 0 → space_width (reverse (strip end_width 0 (reverse t))) ≡ 0
trimmed-front t h =
    let (p, e) = strip-suffix end_width 0 (reverse t) in
    let r = strip end_width 0 (reverse t) in
    let split : reverse r ++ reverse p ≡ t =
      sym (reverse-append p r) ∙ ap reverse e ∙ reverse-reverse t in
    space_width-append (reverse r) (reverse p) (rw split h)

-- Trimming a trimmed string changes nothing.
pub trim_space_idem : (s : GoString) → trim_space (trim_space s) ≡ trim_space s
unfolding trim_space
trim_space_idem s =
    let t = strip space_width 0 s in
    let r = strip end_width 0 (reverse t) in
    let front : strip space_width 0 (reverse r) ≡ reverse r =
      strip-eq_of_done space_width (reverse r)
        (trimmed-front t (strip-done space_width 0 s refl)) in
    let back : strip end_width 0 r ≡ r =
      strip-eq_of_done end_width r (strip-done end_width 0 (reverse t) refl) in
    rw (front, reverse-reverse, back)

-- ===== src/Strings/Laws.antt =====
-- Prefixes, cuts and letter case.
use mathlib.Core.List.{reverse-reverse, reverse-append}
use arupa.Base.{ℕ, ◌≡◌, refl, sym, ap, ◌∙◌, true, [], ◌∷◌}
use arupa.Base.{◌++◌, reverse, some, arith, ◌≢◌, GoString}
use arupa.Base.{nat_eqb, All, Bool-cases, Option-cases, inl, inr}
use arupa.Strings.{has_prefix, has_suffix, cut, upper_byte, to_upper}

pub has_prefix-append : (p r : GoString) → has_prefix (p ++ r) p ≡ true
unfolding has_prefix
has_prefix-append [] [] = refl
has_prefix-append [] (a ∷ r) = refl
has_prefix-append (a ∷ p) r = ground (arith, has_prefix-append p r)

pub has_prefix_self : (p : GoString) → has_prefix p p ≡ true
unfolding has_prefix
has_prefix_self [] = refl
has_prefix_self (a ∷ p) = ground (arith, has_prefix_self p)

pub has_prefix-split : (s p : GoString) → has_prefix s p ≡ true → (r : GoString) × (s ≡ p ++ r)
unfolding has_prefix
has_prefix-split s [] h = (s, refl)
has_prefix-split [] (b ∷ p) h = cc
has_prefix-split (a ∷ s) (b ∷ p) h =
    let (r, e) = has_prefix-split s p (ground arith) in (r, ground arith)

pub has_suffix-append : (r p : GoString) → has_suffix (r ++ p) p ≡ true
unfolding has_suffix
has_suffix-append r p = rw (reverse-append r p) (has_prefix-append (reverse p) (reverse r))

pub has_suffix-split : (s p : GoString) → has_suffix s p ≡ true → (r : GoString) × (s ≡ r ++ p)
unfolding has_suffix
has_suffix-split s p h =
    let (r, e) = has_prefix-split (reverse s) (reverse p) h in
    (
      reverse r,
      sym (reverse-reverse s)
          ∙ ap reverse e
          ∙ reverse-append (reverse p) r
          ∙ ap (λ t. reverse r ++ t) (reverse-reverse p),
    )

-- A cut succeeds exactly at the first separator.
pub cut-append :
    (before after : GoString) (sep : ℕ)
    → All (λ b. b ≢ sep) before
    → cut (before ++ sep ∷ after) sep ≡ some (before, after)
unfolding cut
cut-append [] after sep h = ground arith
cut-append (a ∷ before) after sep (n, h) = ground (arith, cut-append before after sep h)

pub cut-join :
    (s : GoString) (sep : ℕ) (before after : GoString)
    → cut s sep ≡ some (before, after)
    → (s ≡ before ++ sep ∷ after) × All (λ b. b ≢ sep) before
unfolding cut
cut-join [] sep before after h = cc
cut-join (a ∷ s) sep before after h = elim (Bool-cases (nat_eqb a sep)) [
  | inl here ↦ ground arith
  | inr later ↦ elim (Option-cases (cut s sep)) [
    | inl missed ↦ ground arith
    | inr ((front, back), found) ↦ ground (arith, cut-join s sep front back found)
  ]
]

upper_byte_idem : (c : ℕ) → upper_byte (upper_byte c) ≡ upper_byte c
unfolding upper_byte
upper_byte_idem c = ground arith

pub to_upper_idem : (s : GoString) → to_upper (to_upper s) ≡ to_upper s
unfolding to_upper
to_upper_idem [] = refl
to_upper_idem (c ∷ s) = cc (upper_byte_idem c, to_upper_idem s)

-- ===== src/Strings/Case.antt =====
-- Trimming and letter case together.
use mathlib.Core.List.{reverse-cons, map-append}
use arupa.Base.{ℕ, zero, suc, ◌≡◌, refl, sym, ap, ◌∙◌, ◌≤◌, [], ◌∷◌, map, reverse, arith, ◌++◌}
use arupa.Base.{GoString, nat_eqb, leb, ◌&&◌, ℕ-cases, inl, inr}
use arupa.Strings.{upper_byte, to_upper, ascii_space, space2, space3, space_width, end_width}
use arupa.Strings.{strip, trim_space}
use arupa.Strings.Trim.{trim_space_idem}
use arupa.Strings.Laws.{to_upper_idem}

ascii_space-upper : (a : ℕ) → ascii_space (upper_byte a) ≡ ascii_space a
unfolding upper_byte
ascii_space-upper a = ground arith

high_eqb-upper : (a k : ℕ) → 0x80 ≤ k → nat_eqb (upper_byte a) k ≡ nat_eqb a k
unfolding upper_byte
high_eqb-upper a k h = ground arith

high_range-upper :
    (a : ℕ) → (leb 0x80 (upper_byte a) && leb (upper_byte a) 0x8A) ≡ (leb 0x80 a && leb a 0x8A)
unfolding upper_byte
high_range-upper a = ground arith

space2-upper : (a b : ℕ) → space2 (upper_byte a) (upper_byte b) ≡ space2 a b
space2-upper a b = rw (
  high_eqb-upper a 0xC2 (omega arith),
  high_eqb-upper b 0x85 (omega arith),
  high_eqb-upper b 0xA0 (omega arith),
)

space3-upper : (a b c : ℕ) → space3 (upper_byte a) (upper_byte b) (upper_byte c) ≡ space3 a b c
space3-upper a b c = rw (
  high_eqb-upper a 0xE1 (omega arith),
  high_eqb-upper a 0xE2 (omega arith),
  high_eqb-upper a 0xE3 (omega arith),
  high_eqb-upper b 0x9A (omega arith),
  high_eqb-upper b 0x80 (omega arith),
  high_eqb-upper b 0x81 (omega arith),
  high_eqb-upper c 0x80 (omega arith),
  high_eqb-upper c 0xA8 (omega arith),
  high_eqb-upper c 0xA9 (omega arith),
  high_eqb-upper c 0xAF (omega arith),
  high_eqb-upper c 0x9F (omega arith),
  high_range-upper c,
)

space_width-upper : (s : GoString) → space_width (map upper_byte s) ≡ space_width s
unfolding space_width
space_width-upper [] = refl
space_width-upper (a ∷ []) = rw (ascii_space-upper a)
space_width-upper (a ∷ b ∷ []) = rw (ascii_space-upper a, space2-upper a b)
space_width-upper (a ∷ b ∷ c ∷ s) = rw (ascii_space-upper a, space2-upper a b, space3-upper a b c)

end_width-upper : (s : GoString) → end_width (map upper_byte s) ≡ end_width s
unfolding end_width
end_width-upper [] = refl
end_width-upper (a ∷ []) = rw (ascii_space-upper a)
end_width-upper (b ∷ a ∷ []) = rw (ascii_space-upper b, space2-upper a b)
end_width-upper (c ∷ b ∷ a ∷ s) = rw (ascii_space-upper c, space2-upper b c, space3-upper a b c)

strip-map :
    (width : GoString → ℕ)
    → ((s : GoString) → width (map upper_byte s) ≡ width s)
    → (skip : ℕ) (s : GoString)
    → strip width skip (map upper_byte s) ≡ map upper_byte (strip width skip s)
unfolding strip
strip-map width keep zero [] = refl
strip-map width keep (suc skip) [] = refl
strip-map width keep (suc skip) (a ∷ s) = strip-map width keep skip s
strip-map width keep zero (a ∷ s) = elim (ℕ-cases (width (a ∷ s))) [
  | inl done ↦ rw (keep (a ∷ s) ∙ done, done, strip)
  | inr (skip, more) ↦ rw (keep (a ∷ s) ∙ more, more, strip) (strip-map width keep skip s)
]

map-reverse : (f : ℕ → ℕ) (s : GoString) → map f (reverse s) ≡ reverse (map f s)
map-reverse f [] = refl
map-reverse f (a ∷ s) =
    ap (map f) (reverse-cons a s)
    ∙ map-append f (reverse s) (a ∷ [])
    ∙ ap (λ t. t ++ (f a ∷ [])) (map-reverse f s)
    ∙ sym (reverse-cons (f a) (map f s))

pub trim_space-to_upper : (s : GoString) → trim_space (to_upper s) ≡ to_upper (trim_space s)
unfolding trim_space to_upper
trim_space-to_upper s = rw (
  strip-map space_width space_width-upper 0 s,
  ← map-reverse upper_byte (strip space_width 0 s),
  strip-map end_width end_width-upper 0 (reverse (strip space_width 0 s)),
  ← map-reverse upper_byte (strip end_width 0 (reverse (strip space_width 0 s))),
)

pub to_upper-trim_space_idem :
    (s : GoString) → to_upper (trim_space (to_upper (trim_space s))) ≡ to_upper (trim_space s)
to_upper-trim_space_idem s =
    rw (trim_space-to_upper (trim_space s), trim_space_idem s) (to_upper_idem (trim_space s))

-- ===== src/Conf/Services/EqualFold.antt =====
-- strings.EqualFold against "sha256".
use arupa.Base.{ℕ, ◌≡◌, ◌≢◌, ◌↔◌, ◌⊎◌, ◌≤◌, inl, inr, refl, sym, ap, ◌∙◌, subst, Bool, true, false}
use arupa.Base.{[], ◌∷◌, ◌++◌, GoString, string_eq, ◌==◌, ==-cases, ==_self, All, arith}
use arupa.Base.{nat_eqb, nat_eqb_iff, Bool-cases, ◌&&◌}
use arupa.Strings.{bytes, to_lower, lower_byte}
use arupa.Strings.Spelling.{
  Spells, LowerOf, IsSmall, lower_byte-LowerOf, lower_byte-small, lower_byte-capital,
}
use arupa.Conf.Services.{equal_fold, fold_long_s}
use arupa.Conf.Services.Digest.{and-true}

-- A letter in either case, where an s may be the long s (0xC5, 0xBF in UTF-8).
abbrev pub FoldOf : GoString → ℕ → Type 0
FoldOf x d = LowerOf x d ⊎ ((x ≡ 0xC5 ∷ 0xBF ∷ []) × (d ≡ b's'))

fold-Spells : (s : GoString) → Spells FoldOf s (to_lower (fold_long_s s))
unfolding to_lower fold_long_s
fold-Spells [] = refl
fold-Spells (a ∷ []) = (a ∷ [], [], refl, inl (lower_byte-LowerOf a), refl)
fold-Spells (a ∷ b ∷ s) = elim (Bool-cases (nat_eqb a 0xC5 && nat_eqb b 0xBF)) [
  | inl t ↦ rw (fold_long_s, t) (a ∷ b ∷ [], s, refl, inr (long a b t, ground arith), fold-Spells s)
  | inr f ↦
      rw (fold_long_s, f) (a ∷ [], b ∷ s, refl, inl (lower_byte-LowerOf a), fold-Spells (b ∷ s))
]
  where
    long :
        (a b : ℕ)
        → (nat_eqb a 0xC5 && nat_eqb b 0xBF) ≡ true
        → ◌≡◌ {A = GoString} (a ∷ b ∷ []) (0xC5 ∷ 0xBF ∷ [])
    long a b t =
        let (x, y) = and-true (nat_eqb a 0xC5) (nat_eqb b 0xBF) t in
        ap (λ c. c ∷ b ∷ []) ((nat_eqb_iff a 0xC5).0 x)
        ∙ ap (λ c. 0xC5 ∷ c ∷ []) ((nat_eqb_iff b 0xBF).0 y)

fold-plain : (a : ℕ) (s : GoString) → a ≢ 0xC5 → fold_long_s (a ∷ s) ≡ a ∷ fold_long_s s
unfolding fold_long_s
fold-plain a [] n = refl
fold-plain a (b ∷ s) n = let f : nat_eqb a 0xC5 ≡ false = ground arith in rw (fold_long_s, f) refl

small-not_long : (d : ℕ) → IsSmall d → d ≢ 0xC5
small-not_long d h = ground arith

capital-not_long : (c : ℕ) → c ≤ b'Z' → c ≢ 0xC5
capital-not_long c h = ground arith

fold-nil : fold_long_s [] ≡ []
unfolding fold_long_s
fold-nil = refl

fold-long : (s : GoString) → fold_long_s (0xC5 ∷ 0xBF ∷ s) ≡ b's' ∷ fold_long_s s
unfolding fold_long_s
fold-long s = refl

-- One letter more.
fold-letter :
    (c d : ℕ) (rest word : GoString)
    → c ≢ 0xC5
    → lower_byte c ≡ d
    → to_lower (fold_long_s rest) ≡ word
    → to_lower (fold_long_s (c ∷ rest)) ≡ d ∷ word
unfolding to_lower
fold-letter c d rest word n e later =
    ap (λ t. to_lower t) (fold-plain c rest n)
    ∙ ap (λ b. b ∷ to_lower (fold_long_s rest)) e
    ∙ ap (λ t. d ∷ t) later

Spells-fold :
    (s word : GoString) → All IsSmall word → Spells FoldOf s word → to_lower (fold_long_s s) ≡ word
unfolding to_lower
Spells-fold s [] small e = ap (λ t. to_lower (fold_long_s t)) e ∙ ap (λ t. to_lower t) fold-nil
Spells-fold s (d ∷ word) (small, smalls) (x, rest, e, writes, spells) =
    let later = Spells-fold rest word smalls spells in
    ap (λ t. to_lower (fold_long_s t)) e ∙ elim writes [
      | inl (inl q) ↦
          ap (λ t. to_lower (fold_long_s (t ++ rest))) q
          ∙ fold-letter d d rest word (small-not_long d small) (lower_byte-small d small) later
      | inl (inr (c, q, l, u, k)) ↦
          ap (λ t. to_lower (fold_long_s (t ++ rest))) q
          ∙ fold-letter c d rest word (capital-not_long c u) (lower_byte-capital c d l u k) later
      | inr (q, k) ↦
          ap (λ t. to_lower (fold_long_s (t ++ rest))) q
          ∙ ap (λ t. to_lower t) (fold-long rest)
          ∙ ap (λ b. b ∷ to_lower (fold_long_s rest))
              (lower_byte-small b's' (inl (omega arith, omega arith)))
          ∙ ap (λ t. b's' ∷ t) later
          ∙ ap (λ b. b ∷ word) (sym k)
    ]

sha256-IsSmall : All IsSmall (bytes "sha256")
sha256-IsSmall = (
  inl (omega arith, omega arith),
  (
    inl (omega arith, omega arith),
    (
      inl (omega arith, omega arith),
      (
        inr (omega arith, omega arith),
        (inr (omega arith, omega arith), (inr (omega arith, omega arith), tt)),
      ),
    ),
  ),
)

pub equal_fold_iff :
    (s : GoString) → (equal_fold s (bytes "sha256") ≡ true) ↔ Spells FoldOf s (bytes "sha256")
unfolding equal_fold
equal_fold_iff s = (
  λ h. elim (==-cases (to_lower (fold_long_s s)) (bytes "sha256")) [
    | inl (_, e) ↦ subst (λ w. Spells FoldOf s w) e (fold-Spells s)
    | inr (f, _) ↦ absurd (clash (sym f ∙ h))
  ],
  λ spells.
      ap (λ t. t == bytes "sha256") (Spells-fold s (bytes "sha256") sha256-IsSmall spells)
      ∙ ==_self (bytes "sha256"),
)
  where
    clash : ◌≢◌ {A = Bool} false true
    clash q = cc

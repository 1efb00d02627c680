-- ===== src/Strings/Spelling.antt =====
-- Texts that spell a word in letters of either case.
use arupa.Base.{ℕ, ◌≡◌, ◌⊎◌, ◌≤◌, ◌+◌, inl, inr, refl, ap, ◌∙◌}
use arupa.Base.{[], ◌∷◌, ◌++◌, GoString, All, leb, ◌&&◌, Bool-cases, arith}
use arupa.Strings.{to_lower, lower_byte, upper_byte}

-- The text is one writing after the other of the letters of the word.
abbrev pub Spells : (GoString → ℕ → Type 0) → GoString → GoString → Type 0
Spells Writes s [] = s ≡ []
Spells Writes s (d ∷ word) =
    (x : GoString) × (rest : GoString) × (s ≡ x ++ rest) × Writes x d × Spells Writes rest word

-- A byte in lower case, or the capital of that letter.
abbrev pub LowerOf : GoString → ℕ → Type 0
LowerOf x d = (x ≡ d ∷ []) ⊎ ((c : ℕ) × (x ≡ c ∷ []) × (b'A' ≤ c) × (c ≤ b'Z') × (d ≡ c + 32))

-- A byte in upper case, or the small letter.
abbrev pub UpperOf : GoString → ℕ → Type 0
UpperOf x d = (x ≡ d ∷ []) ⊎ ((c : ℕ) × (x ≡ c ∷ []) × (b'a' ≤ c) × (c ≤ b'z') × (c ≡ d + 32))

pub lower_byte-LowerOf : (c : ℕ) → LowerOf (c ∷ []) (lower_byte c)
unfolding lower_byte
lower_byte-LowerOf c = elim (Bool-cases (leb b'A' c && leb c b'Z')) [
  | inl t ↦ rw (lower_byte, t) (inr (c, refl, ground arith, ground arith, refl))
  | inr f ↦ rw (lower_byte, f) (inl refl)
]

pub upper_byte-UpperOf : (c : ℕ) → UpperOf (c ∷ []) (upper_byte c)
unfolding upper_byte
upper_byte-UpperOf c = elim (Bool-cases (leb b'a' c && leb c b'z')) [
  | inl t ↦ rw (upper_byte, t) (inr (c, refl, ground arith, ground arith, ground arith))
  | inr f ↦ rw (upper_byte, f) (inl refl)
]

-- A small letter or a digit; a capital.
abbrev pub IsSmall : ℕ → Type 0
IsSmall d = ((b'a' ≤ d) × (d ≤ b'z')) ⊎ ((b'0' ≤ d) × (d ≤ b'9'))

abbrev pub IsCapital : ℕ → Type 0
IsCapital d = (b'A' ≤ d) × (d ≤ b'Z')

pub lower_byte-small : (d : ℕ) → IsSmall d → lower_byte d ≡ d
unfolding lower_byte
lower_byte-small d h = ground arith

pub lower_byte-capital : (c d : ℕ) → b'A' ≤ c → c ≤ b'Z' → d ≡ c + 32 → lower_byte c ≡ d
unfolding lower_byte
lower_byte-capital c d h k e = ground arith

pub upper_byte-capital : (d : ℕ) → IsCapital d → upper_byte d ≡ d
unfolding upper_byte
upper_byte-capital d h = ground arith

pub upper_byte-small : (c d : ℕ) → b'a' ≤ c → c ≤ b'z' → c ≡ d + 32 → upper_byte c ≡ d
unfolding upper_byte
upper_byte-small c d h k e = ground arith

pub to_lower-Spells : (s : GoString) → Spells LowerOf s (to_lower s)
unfolding to_lower
to_lower-Spells [] = refl
to_lower-Spells (c ∷ s) = (c ∷ [], s, refl, lower_byte-LowerOf c, to_lower-Spells s)

pub Spells-to_lower :
    (s word : GoString) → All IsSmall word → Spells LowerOf s word → to_lower s ≡ word
unfolding to_lower
Spells-to_lower s [] small e = ap (λ t. to_lower t) e
Spells-to_lower s (d ∷ word) (small, smalls) (x, rest, e, writes, spells) =
    ap (λ t. to_lower t) e ∙ elim writes [
      | inl q ↦
          ap (λ t. to_lower (t ++ rest)) q
          ∙ ap (λ b. b ∷ to_lower rest) (lower_byte-small d small)
          ∙ ap (λ t. d ∷ t) (Spells-to_lower rest word smalls spells)
      | inr (c, q, l, u, k) ↦
          ap (λ t. to_lower (t ++ rest)) q
          ∙ ap (λ b. b ∷ to_lower rest) (lower_byte-capital c d l u k)
          ∙ ap (λ t. d ∷ t) (Spells-to_lower rest word smalls spells)
    ]

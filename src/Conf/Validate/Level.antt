-- ===== src/Conf/Validate/Level.antt =====
-- The log formats and levels that are accepted.
use arupa.Base.{
  ℕ, ◌≡◌, ◌≢◌, ◌↔◌, ◌⊎◌, ◌≤◌, ◌+◌, ◌-◌, ◌*◌, inl, inr, refl, sym, ap, ◌∙◌, subst, Bool, true, false,
}
use arupa.Base.{[], ◌∷◌, ◌++◌, GoString, string_eq, ◌==◌, ==-cases, ==_self, All, arith}
use arupa.Base.{nat_eqb, nat_eqb_iff, Bool-cases, ◌&&◌, ◌||◌}
use arupa.Strings.{bytes, to_lower, to_upper, upper_byte, trim_space}
use arupa.Strings.Spelling.{
  Spells, LowerOf, UpperOf, IsSmall, IsCapital, to_lower-Spells, Spells-to_lower,
  upper_byte-UpperOf, upper_byte-capital, upper_byte-small,
}
use arupa.Conf.Services.Digest.{and-true}
use arupa.Conf.Validate.{is_format, upper_dotless}

-- "json" or "text", in any case.
abbrev pub IsFormat : GoString → Type 0
IsFormat s =
    Spells LowerOf (trim_space s) (bytes "json") ⊎ Spells LowerOf (trim_space s) (bytes "text")

-- A letter in either case, where an I may be the small dotless i (0xC4, 0xB1 in UTF-8).
abbrev pub DotlessOf : GoString → ℕ → Type 0
DotlessOf x d = UpperOf x d ⊎ ((x ≡ 0xC4 ∷ 0xB1 ∷ []) × (d ≡ b'I'))

abbrev pub IsLevelName : GoString → Type 0
IsLevelName s =
    Spells DotlessOf s (bytes "DEBUG")
    ⊎ (Spells DotlessOf s (bytes "INFO")
        ⊎ (Spells DotlessOf s (bytes "WARN") ⊎ Spells DotlessOf s (bytes "ERROR")))

abbrev pub IsDigit : ℕ → Type 0
IsDigit c = (b'0' ≤ c) × (c ≤ b'9')

-- The number that digits stand for, behind others.
unfoldable pub value : ℕ → GoString → ℕ
value n [] = n
value n (c ∷ s) = value (10 * n + (c - b'0')) s

abbrev pub IsSign : ℕ → Type 0
IsSign c = (c ≡ b'+') ⊎ (c ≡ b'-')

-- Digits within 64 bits with a sign.
abbrev pub IsOffset : ℕ → GoString → Type 0
IsOffset sign digits =
    (digits ≢ [])
    × All IsDigit digits
    × ((value 0 digits ≤ 9223372036854775807)
        ⊎ ((sign ≡ b'-') × (value 0 digits ≤ 9223372036854775808)))

abbrev pub NoSign : GoString → Type 0
NoSign s = All (λ c. (c ≢ b'+') × (c ≢ b'-')) s

-- "debug", "info", "warn" or "error" in any case, with a number behind a sign or without.
abbrev pub IsLevel : GoString → Type 0
IsLevel s =
    (NoSign s × IsLevelName s)
    ⊎ ((name : GoString) × (sign : ℕ) × (digits : GoString) × (s ≡ name ++ sign ∷ digits)
        × NoSign name
        × IsSign sign
        × IsLevelName name
        × IsOffset sign digits)

pub or-true : (a b : Bool) → ((a || b) ≡ true) ↔ ((a ≡ true) ⊎ (b ≡ true))
or-true true b = (λ h. inl refl, λ x. refl)
or-true false b = (λ h. inr h, λ x. elim x [ inl h ↦ absurd (clash h) | inr h ↦ h ])
  where
    clash : ◌≢◌ {A = Bool} false true
    clash q = cc

pub ==-true : (s t : GoString) → ((s == t) ≡ true) ↔ (s ≡ t)
==-true s t = (
  λ h. elim (==-cases s t) [ inl (_, e) ↦ e | inr (f, _) ↦ absurd (clash (sym f ∙ h)) ],
  λ e. ap (λ u. u == t) e ∙ ==_self t,
)
  where
    clash : ◌≢◌ {A = Bool} false true
    clash q = cc

to_lower_iff :
    (s word : GoString) → All IsSmall word → ((to_lower s == word) ≡ true) ↔ Spells LowerOf s word
to_lower_iff s word small = (
  λ h. subst (λ w. Spells LowerOf s w) ((==-true (to_lower s) word).0 h) (to_lower-Spells s),
  λ spells. (==-true (to_lower s) word).1 (Spells-to_lower s word small spells),
)

json-IsSmall : All IsSmall (bytes "json")
json-IsSmall = ground arith

text-IsSmall : All IsSmall (bytes "text")
text-IsSmall = ground arith

-- A log format is accepted exactly if it is "json" or "text" in any case, white space around it
-- aside.
pub is_format_iff : (s : GoString) → (is_format s ≡ true) ↔ IsFormat s
unfolding is_format
is_format_iff s =
    let j = to_lower_iff (trim_space s) (bytes "json") json-IsSmall in
    let t = to_lower_iff (trim_space s) (bytes "text") text-IsSmall in
    let o =
      or-true (to_lower (trim_space s) == bytes "json") (to_lower (trim_space s) == bytes "text") in
    (
      λ h. elim (o.0 h) [ inl x ↦ inl (j.0 x) | inr x ↦ inr (t.0 x) ],
      λ f. o.1 (elim f [ inl x ↦ inl (j.1 x) | inr x ↦ inr (t.1 x) ]),
    )

pub dotless-Spells : (s : GoString) → Spells DotlessOf s (to_upper (upper_dotless s))
unfolding to_upper upper_dotless
dotless-Spells [] = refl
dotless-Spells (a ∷ []) = (a ∷ [], [], refl, inl (upper_byte-UpperOf a), refl)
dotless-Spells (a ∷ b ∷ s) = elim (Bool-cases (nat_eqb a 0xC4 && nat_eqb b 0xB1)) [
  | inl t ↦
      rw (upper_dotless, t)
        (
          a ∷ b ∷ [],
          s,
          refl,
          inr (dotless a b t, upper_byte-capital b'I' (omega arith, omega arith)),
          dotless-Spells s,
        )
  | inr f ↦
      rw (upper_dotless, f)
        (a ∷ [], b ∷ s, refl, inl (upper_byte-UpperOf a), dotless-Spells (b ∷ s))
]
  where
    dotless :
        (a b : ℕ)
        → (nat_eqb a 0xC4 && nat_eqb b 0xB1) ≡ true
        → ◌≡◌ {A = GoString} (a ∷ b ∷ []) (0xC4 ∷ 0xB1 ∷ [])
    dotless a b t =
        let (x, y) = and-true (nat_eqb a 0xC4) (nat_eqb b 0xB1) t in
        ap (λ c. c ∷ b ∷ []) ((nat_eqb_iff a 0xC4).0 x)
        ∙ ap (λ c. 0xC4 ∷ c ∷ []) ((nat_eqb_iff b 0xB1).0 y)

upper-plain : (a : ℕ) (s : GoString) → a ≢ 0xC4 → upper_dotless (a ∷ s) ≡ a ∷ upper_dotless s
unfolding upper_dotless
upper-plain a [] n = refl
upper-plain a (b ∷ s) n =
    let f : nat_eqb a 0xC4 ≡ false = ground arith in rw (upper_dotless, f) refl

upper-nil : upper_dotless [] ≡ []
unfolding upper_dotless
upper-nil = refl

upper-long : (s : GoString) → upper_dotless (0xC4 ∷ 0xB1 ∷ s) ≡ b'I' ∷ upper_dotless s
unfolding upper_dotless
upper-long s = refl

-- One letter more.
upper-letter :
    (c d : ℕ) (rest word : GoString)
    → c ≢ 0xC4
    → upper_byte c ≡ d
    → to_upper (upper_dotless rest) ≡ word
    → to_upper (upper_dotless (c ∷ rest)) ≡ d ∷ word
unfolding to_upper
upper-letter c d rest word n e later =
    ap (λ t. to_upper t) (upper-plain c rest n)
    ∙ ap (λ b. b ∷ to_upper (upper_dotless rest)) e
    ∙ ap (λ t. d ∷ t) later

capital-plain : (d : ℕ) → IsCapital d → d ≢ 0xC4
capital-plain d h = ground arith

small-plain : (c : ℕ) → c ≤ b'z' → c ≢ 0xC4
small-plain c h = ground arith

pub Spells-dotless :
    (s word : GoString)
    → All IsCapital word
    → Spells DotlessOf s word
    → to_upper (upper_dotless s) ≡ word
unfolding to_upper
Spells-dotless s [] capital e =
    ap (λ t. to_upper (upper_dotless t)) e ∙ ap (λ t. to_upper t) upper-nil
Spells-dotless s (d ∷ word) (capital, capitals) (x, rest, e, writes, spells) =
    let later = Spells-dotless rest word capitals spells in
    ap (λ t. to_upper (upper_dotless t)) e ∙ elim writes [
      | inl (inl q) ↦
          ap (λ t. to_upper (upper_dotless (t ++ rest))) q
          ∙ upper-letter d d rest word (capital-plain d capital) (upper_byte-capital d capital)
              later
      | inl (inr (c, q, l, u, k)) ↦
          ap (λ t. to_upper (upper_dotless (t ++ rest))) q
          ∙ upper-letter c d rest word (small-plain c u) (upper_byte-small c d l u k) later
      | inr (q, k) ↦
          ap (λ t. to_upper (upper_dotless (t ++ rest))) q
          ∙ ap (λ t. to_upper t) (upper-long rest)
          ∙ ap (λ b. b ∷ to_upper (upper_dotless rest))
              (upper_byte-capital b'I' (omega arith, omega arith))
          ∙ ap (λ t. b'I' ∷ t) later
          ∙ ap (λ b. b ∷ word) (sym k)
    ]

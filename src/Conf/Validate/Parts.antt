-- ===== src/Conf/Validate/Parts.antt =====
-- The name of a log level and the number behind it.
use arupa.Base.{
  ℕ, ◌≡◌, ◌≢◌, ◌↔◌, ◌⊎◌, ◌≤◌, ◌+◌, ◌-◌, ◌*◌, inl, inr, refl, sym, ap, ◌∙◌, subst, Bool, true, false,
}
use arupa.Base.{[], ◌∷◌, ◌++◌, GoString, string_eq, ◌==◌, All, arith, leb, if◌then◌else◌}
use arupa.Base.{Option, none, some, nat_eqb, nat_eqb_iff, Bool-cases, Option-cases, ◌&&◌, ◌||◌}
use arupa.Strings.{bytes, to_upper}
use arupa.Strings.Spelling.{Spells, IsCapital}
use arupa.Conf.Services.Digest.{and-true}
use arupa.Conf.Validate.{is_level, is_level_name, is_offset, decimal, level_parts, upper_dotless}
use arupa.Conf.Validate.Level.{
  DotlessOf, IsLevelName, IsDigit, value, IsSign, IsOffset, NoSign, IsLevel, ==-true,
  dotless-Spells, Spells-dotless,
}

upper_iff :
    (s word : GoString)
    → All IsCapital word
    → ((to_upper (upper_dotless s) == word) ≡ true) ↔ Spells DotlessOf s word
upper_iff s word capital = (
  λ h.
      subst (λ w. Spells DotlessOf s w) ((==-true (to_upper (upper_dotless s)) word).0 h)
        (dotless-Spells s),
  λ spells. (==-true (to_upper (upper_dotless s)) word).1 (Spells-dotless s word capital spells),
)

debug-IsCapital : All IsCapital (bytes "DEBUG")
debug-IsCapital = ground arith

info-IsCapital : All IsCapital (bytes "INFO")
info-IsCapital = ground arith

warn-IsCapital : All IsCapital (bytes "WARN")
warn-IsCapital = ground arith

error-IsCapital : All IsCapital (bytes "ERROR")
error-IsCapital = ground arith

or4-true :
    (a b c d : Bool)
    → ((a || b || c || d) ≡ true) ↔ ((a ≡ true) ⊎ ((b ≡ true) ⊎ ((c ≡ true) ⊎ (d ≡ true))))
or4-true true b c d = (λ h. inl refl, λ x. refl)
or4-true false true c d = (λ h. inr (inl refl), λ x. refl)
or4-true false false true d = (λ h. inr (inr (inl refl)), λ x. refl)
or4-true false false false true = (λ h. inr (inr (inr refl)), λ x. refl)
or4-true false false false false = (
  λ h. absurd (clash h),
  λ x. elim x [ inl h ↦ h | inr (inl h) ↦ h | inr (inr (inl h)) ↦ h | inr (inr (inr h)) ↦ h ],
)
  where
    clash : ◌≢◌ {A = Bool} false true
    clash q = cc

is_level_name_iff : (s : GoString) → (is_level_name s ≡ true) ↔ IsLevelName s
unfolding is_level_name
is_level_name_iff s =
    let u = to_upper (upper_dotless s) in
    let o =
      or4-true (u == bytes "DEBUG") (u == bytes "INFO") (u == bytes "WARN") (u == bytes "ERROR") in
    let d = upper_iff s (bytes "DEBUG") debug-IsCapital in
    let i = upper_iff s (bytes "INFO") info-IsCapital in
    let w = upper_iff s (bytes "WARN") warn-IsCapital in
    let e = upper_iff s (bytes "ERROR") error-IsCapital in
    (
      λ h. elim (o.0 h) [
        | inl x ↦ inl (d.0 x)
        | inr (inl x) ↦ inr (inl (i.0 x))
        | inr (inr (inl x)) ↦ inr (inr (inl (w.0 x)))
        | inr (inr (inr x)) ↦ inr (inr (inr (e.0 x)))
      ],
      λ n. o.1 (elim n [
        | inl x ↦ inl (d.1 x)
        | inr (inl x) ↦ inr (inl (i.1 x))
        | inr (inr (inl x)) ↦ inr (inr (inl (w.1 x)))
        | inr (inr (inr x)) ↦ inr (inr (inr (e.1 x)))
      ]),
    )

inner : {a b : ℕ} → ◌≡◌ {A = Option ℕ} (some a) (some b) → a ≡ b
inner q = cc

decimal_iff : (s : GoString) (n m : ℕ) → (decimal s n ≡ some m) ↔ (All IsDigit s × (value n s ≡ m))
unfolding decimal value
decimal_iff [] n m = (λ h. (tt, inner h), λ (_, e). ap (λ k. some k) e)
decimal_iff (c ∷ s) n m = elim (Bool-cases (leb b'0' c && leb c b'9')) [
  | inl t ↦
      let (d, e) = (decimal_iff s (10 * n + (c - b'0')) m) in
      let digit : IsDigit c = ground arith in
      (
        λ h. let (ds, v) = d (rw (decimal, t) at h) in ((digit, ds), v),
        λ ((_, ds), v). rw (decimal, t) (e (ds, v)),
      )
  | inr f ↦ (
    λ h. absurd (missed (rw (decimal, f) at h)),
    λ (ds, _). let (l, u) = ds.0 in absurd (ground arith),
  )
]
  where
    missed : ◌≢◌ {A = Option ℕ} none (some m)
    missed q = cc

-- The bound by the sign.
bound_iff :
    (sign m : ℕ)
    → IsSign sign
    → (leb m (if nat_eqb sign b'-' then 9223372036854775808 else 9223372036854775807) ≡ true)
      ↔ ((m ≤ 9223372036854775807) ⊎ ((sign ≡ b'-') × (m ≤ 9223372036854775808)))
bound_iff sign m g = elim (Bool-cases (nat_eqb sign b'-')) [
  | inl t ↦ rw t (λ h. inr ((nat_eqb_iff sign b'-').0 t, ground arith), λ x. ground arith)
  | inr f ↦ rw f (λ h. inl (ground arith), λ x. ground arith)
]

false-ne-true : ◌≢◌ {A = Bool} false true
false-ne-true q = cc

is_offset_iff :
    (sign : ℕ) (digits : GoString)
    → IsSign sign
    → (is_offset sign digits ≡ true) ↔ IsOffset sign digits
unfolding is_offset
is_offset_iff sign [] g = (λ h. absurd (false-ne-true h), λ (n, _, _). absurd (n refl))
is_offset_iff sign (c ∷ s) g = elim (Option-cases (decimal (c ∷ s) 0)) [
  | inl q ↦ (
    λ h. absurd (false-ne-true (rw (is_offset, q) at h)),
    λ (_, ds, _).
        absurd (missed _ (sym q ∙ (decimal_iff (c ∷ s) 0 (value 0 (c ∷ s))).1 (ds, refl))),
  )
  | inr (m, q) ↦
      let (ds, v) = (decimal_iff (c ∷ s) 0 m).0 q in
      let b = bound_iff sign m g in
      (
        λ h. (cons c s, ds, rw v (b.0 (rw (is_offset, q) at h))),
        λ (_, _, x). rw (is_offset, q) (b.1 (rw v at x)),
      )
]
  where
    missed : (m : ℕ) → ◌≢◌ {A = Option ℕ} none (some m)
    missed m q = cc

    cons : (c : ℕ) (s : GoString) → c ∷ s ≢ []
    cons c s q = cc

-- Without a sign the name is all there is; otherwise the first sign ends it.
level_parts-plain : (s : GoString) → NoSign s → level_parts s ≡ (s, none)
unfolding level_parts
level_parts-plain [] n = refl
level_parts-plain (c ∷ s) ((p, m), n) =
    let f : (nat_eqb c b'+' || nat_eqb c b'-') ≡ false = ground arith in
    rw (level_parts, f, level_parts-plain s n) refl

level_parts-sign :
    (name : GoString) (sign : ℕ) (digits : GoString)
    → NoSign name
    → IsSign sign
    → level_parts (name ++ sign ∷ digits) ≡ (name, some (sign, digits))
unfolding level_parts
level_parts-sign [] sign digits n g =
    let t : (nat_eqb sign b'+' || nat_eqb sign b'-') ≡ true = ground arith in
    rw (level_parts, t) refl
level_parts-sign (c ∷ name) sign digits ((p, m), n) g =
    let f : (nat_eqb c b'+' || nat_eqb c b'-') ≡ false = ground arith in
    rw (level_parts, f, level_parts-sign name sign digits n g) refl

IsSign-cases :
    (s : GoString)
    → NoSign s
      ⊎ ((name : GoString) × (sign : ℕ) × (digits : GoString) × (s ≡ name ++ sign ∷ digits)
          × NoSign name
          × IsSign sign)
IsSign-cases [] = inl tt
IsSign-cases (c ∷ s) = elim (Bool-cases (nat_eqb c b'+' || nat_eqb c b'-')) [
  | inl t ↦ inr ([], c, s, refl, tt, ground arith)
  | inr f ↦
      let plain : (c ≢ b'+') × (c ≢ b'-') = ground arith in
      elim (IsSign-cases s) [
        | inl n ↦ inl (plain, n)
        | inr (name, sign, digits, e, n, g) ↦
            inr (c ∷ name, sign, digits, ap (λ t. c ∷ t) e, (plain, n), g)
      ]
]

is_level-plain : (s : GoString) → NoSign s → is_level s ≡ is_level_name s
unfolding is_level
is_level-plain s n = rw (is_level, level_parts-plain s n) (by (is_level_name s))
  where
    by : (b : Bool) → (b && true) ≡ b
    by true = refl
    by false = refl

is_level-sign :
    (name : GoString) (sign : ℕ) (digits : GoString)
    → NoSign name
    → IsSign sign
    → is_level (name ++ sign ∷ digits) ≡ (is_level_name name && is_offset sign digits)
unfolding is_level
is_level-sign name sign digits n g = rw (is_level, level_parts-sign name sign digits n g) refl

-- A log level is accepted exactly if it is "debug", "info", "warn" or "error" in any case, with a
-- number of 64 bits behind a sign or without.
pub is_level_iff : (s : GoString) → (is_level s ≡ true) ↔ IsLevel s
is_level_iff s = (read, written)
  where
    read : is_level s ≡ true → IsLevel s
    read h = elim (IsSign-cases s) [
      | inl n ↦ inl (n, (is_level_name_iff s).0 (sym (is_level-plain s n) ∙ h))
      | inr (name, sign, digits, e, n, g) ↦
          let (a, b) =
            and-true (is_level_name name) (is_offset sign digits)
              (sym (is_level-sign name sign digits n g) ∙ ap (λ t. is_level t) (sym e) ∙ h) in
          inr (
            name,
            sign,
            digits,
            e,
            n,
            g,
            (is_level_name_iff name).0 a,
            (is_offset_iff sign digits g).0 b,
          )
    ]

    written : IsLevel s → is_level s ≡ true
    written (inl (n, l)) = is_level-plain s n ∙ (is_level_name_iff s).1 l
    written (inr (name, sign, digits, e, n, g, l, o)) =
        ap (λ t. is_level t) e
        ∙ is_level-sign name sign digits n g
        ∙ ap (λ b. b && is_offset sign digits) ((is_level_name_iff name).1 l)
        ∙ (is_offset_iff sign digits g).1 o

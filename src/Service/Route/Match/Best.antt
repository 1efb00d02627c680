-- ===== src/Service/Route/Match/Best.antt =====
-- The pattern that a request is matched with.
use arupa.Base.{ℕ, ◌≡◌, ◌⊎◌, ◌≤◌, inl, inr, refl, sym, ap, ◌∙◌, subst, Bool, true, false}
use arupa.Base.{GoString, string_eq, [], ◌∷◌, arith, In, length, ltb, Bool-cases}
use arupa.Base.{if◌then◌else◌}
use arupa.Base.{◌&&◌}
use arupa.Base.Dict.{Dict}
use arupa.Netx.Path.{match_path_pattern}
use arupa.Netx.Path.Matching.{match_path_pattern-injective, match_path_pattern-nil}
use arupa.Service.Route.Register.{Bound}
use arupa.Service.Route.Match.{root_mode, best_from}

-- Whether the pattern of an entry matches, as its transport reads the root.
abbrev pub covers : GoString → GoString → Bound → Bool
covers path pattern current = match_path_pattern path pattern (root_mode current.transport)

-- No entry whose pattern matches has a longer one.
abbrev pub IsLongest : GoString → Dict (GoString × GoString) Bound → GoString → Type 0
IsLongest path http best =
    (p m : GoString) (b : Bound)
    → In ((p, m), b) http
    → covers path p b ≡ true
    → length p ≤ length best

-- The longest pattern among the entries that match.
pub record IsBest (path : GoString) (http : Dict (GoString × GoString) Bound) (best : GoString)
    : Type 0 where
  pub method : GoString
  pub entry : Bound
  pub listed : In ((best, method), entry) http
  pub matches : covers path best entry ≡ true
  pub longest : IsLongest path http best

-- One round of the loop.
abbrev better : GoString → GoString → GoString → Bound → GoString
better path best p b = if covers path p b && ltb (length best) (length p) then p else best

better-cases :
    (path best p : GoString) (b : Bound)
    → ((better path best p b ≡ p) × (covers path p b ≡ true) × (length best ≤ length p))
      ⊎ ((better path best p b ≡ best) × (covers path p b ≡ true → length p ≤ length best))
better-cases path best p b = elim (Bool-cases (covers path p b)) [
  | inl t ↦ elim (Bool-cases (ltb (length best) (length p))) [
    | inl l ↦ inl (rw (t, l) refl, t, ground arith)
    | inr g ↦ inr (rw (t, g) refl, λ _. ground arith)
  ]
  | inr f ↦ inr (rw f refl, λ t. absurd (ground arith))
]

-- The loop gives its start or the pattern of an entry that matches.
best_from-cases :
    (path best : GoString) (http : Dict (GoString × GoString) Bound)
    → (best_from path best http ≡ best)
      ⊎ ((m : GoString) × (b : Bound) × In ((best_from path best http, m), b) http
          × (covers path (best_from path best http) b ≡ true))
unfolding best_from
best_from-cases path best [] = inl refl
best_from-cases path best (((p, m), b) ∷ http) =
    let r : GoString = best_from path (better path best p b) http in
    elim (best_from-cases path (better path best p b) http) [
      | inr (n, c, l, k) ↦ inr (n, c, inr l, k)
      | inl q ↦ elim (better-cases path best p b) [
        | inl (e, t, _) ↦ inr (
          m,
          b,
          inl (ap (λ x. ((x, m), b)) (sym (q ∙ e))),
          subst (λ x. covers path x b ≡ true) (sym (q ∙ e)) t,
        )
        | inr (e, _) ↦ inl (q ∙ e)
      ]
    ]

better_long :
    (path best p : GoString) (b : Bound)
    → (length best ≤ length (better path best p b))
      × (covers path p b ≡ true → length p ≤ length (better path best p b))
better_long path best p b = elim (better-cases path best p b) [
  | inl (e, _, l) ↦ (
    subst (λ x. length best ≤ length x) (sym e) l,
    λ _. subst (λ x. length p ≤ length x) (sym e) (omega arith),
  )
  | inr (e, l) ↦ (
    subst (λ x. length best ≤ length x) (sym e) (omega arith),
    λ t. subst (λ x. length p ≤ length x) (sym e) (l t),
  )
]

-- The loop only lengthens the pattern, and ends with none shorter than one that matches.
best_from-IsLongest :
    (path best : GoString) (http : Dict (GoString × GoString) Bound)
    → (length best ≤ length (best_from path best http))
      × IsLongest path http (best_from path best http)
unfolding best_from
best_from-IsLongest path best [] = (omega arith, λ p m b l. absurd l)
best_from-IsLongest path best (((p, m), b) ∷ http) =
    let (grown, longest) = best_from-IsLongest path (better path best p b) http in
    let (at_least, reached) = better_long path best p b in
    (
      le_trans at_least grown,
      λ q n c l k. elim l [
        | inl e ↦
            le_trans
              (subst (λ x. length x ≤ length (better path best p b))
                (ap (λ (x : (GoString × GoString) × Bound). x.0.0) e)
                (reached (
                  subst (λ (x : (GoString × GoString) × Bound). covers path x.0.0 x.1 ≡ true)
                    (sym e) k)))
              grown
        | inr l' ↦ longest q n c l' k
      ],
    )
  where
    le_trans : {a b c : ℕ} → a ≤ b → b ≤ c → a ≤ c
    le_trans h k = omega arith

-- What the loop gives from the empty pattern: nothing if nothing matches, else the best pattern.
pub best_from-IsBest :
    (path : GoString) (http : Dict (GoString × GoString) Bound)
    → ((best_from path [] http ≡ [])
        × ((p m : GoString) (b : Bound) → In ((p, m), b) http → covers path p b ≡ false))
      ⊎ IsBest path http (best_from path [] http)
best_from-IsBest path http = elim (best_from-cases path [] http) [
  | inr (m, b, l, k) ↦ inr (record {
    method = m;
    entry = b;
    listed = l;
    matches = k;
    longest = (best_from-IsLongest path [] http).1;
  })
  | inl e ↦ inl (
    e,
    λ p m b l. elim (Bool-cases (covers path p b)) [
      | inl t ↦ absurd (
          nothing p b t
            (subst (λ x. length p ≤ length x) e ((best_from-IsLongest path [] http).1 p m b l t)))
      | inr f ↦ f
    ],
  )
]
  where
    nothing : (p : GoString) (b : Bound) → covers path p b ≡ true → length p ≤ length {A = ℕ} [] → ⊥
    nothing [] b t h = differ (sym (match_path_pattern-nil path _) ∙ t)
      where
        differ : ◌≡◌ {A = Bool} false true → ⊥
        differ e = cc
    nothing (x ∷ p) b t h = absurd (omega arith)

-- There is one best pattern.
pub IsBest-unique :
    (path : GoString) (http : Dict (GoString × GoString) Bound) (best other : GoString)
    → IsBest path http best
    → IsBest path http other
    → best ≡ other
IsBest-unique path http best other b c =
    match_path_pattern-injective path best other _ _ b.matches c.matches (
      omega (
        arith,
        b.longest other c.method c.entry c.listed c.matches,
        c.longest best b.method b.entry b.listed b.matches,
      ))

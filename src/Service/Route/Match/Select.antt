-- ===== src/Service/Route/Match/Select.antt =====
-- Which route of the best pattern a request gets.
use arupa.Base.{◌≡◌, ◌≢◌, ◌⊎◌, inl, inr, refl, sym, ap, ◌∙◌, subst, Bool, true, false}
use arupa.Base.{GoString, string_eq, key_eq, is_empty, [], ◌∷◌, arith, In, Bool-cases, ==-cases}
use arupa.Base.{Option, none, some, ◌==◌, is_empty_iff, Option-cases}
use arupa.Base.Dict.{Dict}
use arupa.Service.Route.Register.{Bound}
use arupa.Service.Route.Match.{add_method, Seen, Matched, found, not_found, select_method}

-- A route for the method, or for all methods.
abbrev pub Accepts : GoString → GoString → Type 0
Accepts m method = (m ≡ method) ⊎ (m ≡ [])

pub select_method_sound :
    (best method : GoString) (seen : Seen) (http : Dict (GoString × GoString) Bound) (b : Bound)
    → select_method best method seen http ≡ found b
    → ((m : GoString) × In ((best, m), b) http × Accepts m method) ⊎ (seen.wildcard ≡ some b)
unfolding select_method
select_method_sound best method seen [] b h =
    inr (elim (Option-cases seen.wildcard) [ inl n ↦ ground arith | inr (c, e) ↦ ground arith ])
select_method_sound best method seen (((p, m), c) ∷ http) b h = elim (==-cases p best) [
  | inr (f, _) ↦ later (select_method_sound best method seen http b (rw (f, select_method) at h))
  | inl (t, e) ↦ elim (==-cases m method) [
    | inl (u, accepted) ↦
        inl (m, inl (here e (found-injective (rw (t, u, select_method) at h))), inl accepted)
    | inr (n, _) ↦ elim (Bool-cases (is_empty m)) [
      | inl z ↦
          elim (select_method_sound best method (record seen { wildcard = some c }) http b
            (rw (t, n, z, select_method) at h)) [
              | inl (k, l, a) ↦ inl (k, inr l, a)
              | inr q ↦ inl (m, inl (here e (some-injective q)), inr ((is_empty_iff m).0 z))
            ]
      | inr w ↦ later (select_method_sound best method _ http b (rw (t, n, w, select_method) at h))
    ]
  ]
]
  where
    found-injective : {x y : Bound} → found x ≡ found y → x ≡ y
    found-injective q = cc

    some-injective : {x y : Bound} → ◌≡◌ {A = Option Bound} (some x) (some y) → x ≡ y
    some-injective q = cc

    here : p ≡ best → c ≡ b → ◌≡◌ {A = (GoString × GoString) × Bound} ((p, m), c) ((best, m), b)
    here e q = λ i. ((e i, m), q i)

    later :
        ((k : GoString) × In ((best, k), b) http × Accepts k method) ⊎ (seen.wildcard ≡ some b)
        → ((k : GoString) × In ((best, k), b) (((p, m), c) ∷ http) × Accepts k method)
          ⊎ (seen.wildcard ≡ some b)
    later (inl (k, l, a)) = inl (k, inr l, a)
    later (inr q) = inr q

-- If all routes of the pattern that accept the method are one, and there is one, it is found.
pub select_method_complete :
    (best method : GoString) (seen : Seen) (http : Dict (GoString × GoString) Bound) (b : Bound)
    → ((m : GoString) (c : Bound) → In ((best, m), c) http → Accepts m method → c ≡ b)
    → ((m : GoString) × In ((best, m), b) http × Accepts m method) ⊎ (seen.wildcard ≡ some b)
    → (seen.wildcard ≡ none) ⊎ (seen.wildcard ≡ some b)
    → select_method best method seen http ≡ found b
unfolding select_method
select_method_complete best method seen [] b only (inl (m, l, a)) w = absurd l
select_method_complete best method seen [] b only (inr q) w = rw (q, select_method) refl
select_method_complete best method seen (((p, m), c) ∷ http) b only l w = elim (==-cases p best) [
  | inr (f, differ) ↦
      rw (f, select_method)
        (select_method_complete best method seen http b later
          (skip l (λ k e _. differ (ap (λ (x : (GoString × GoString) × Bound). x.0.0) e))) w)
  | inl (t, e) ↦ elim (==-cases m method) [
    | inl (u, accepted) ↦
        rw (t, u, select_method) (ap found (only m c (inl (here e)) (inl accepted)))
    | inr (n, differ) ↦ elim (Bool-cases (is_empty m)) [
      | inl z ↦
          let same : c ≡ b = only m c (inl (here e)) (inr ((is_empty_iff m).0 z)) in
          rw (t, n, z, select_method)
            (select_method_complete best method (record seen { wildcard = some c }) http b later
              (inr (ap some same)) (inr (ap some same)))
      | inr w' ↦
          rw (t, n, w', select_method)
            (select_method_complete best method _ http b later
              (skip l (λ k q a. refuse differ w' (
                subst (λ x. Accepts x method)
                  (sym (ap (λ (x : (GoString × GoString) × Bound). x.0.1) q)) a)))
              w)
    ]
  ]
]
  where
    here : p ≡ best → ◌≡◌ {A = (GoString × GoString) × Bound} ((p, m), c) ((best, m), c)
    here e = λ i. ((e i, m), c)

    later : (k : GoString) (d : Bound) → In ((best, k), d) http → Accepts k method → d ≡ b
    later k d l a = only k d (inr l) a

    refuse : m ≢ method → is_empty m ≡ false → Accepts m method → ⊥
    refuse differ f (inl e) = differ e
    refuse differ f (inr e) = nonempty (sym f ∙ (is_empty_iff m).1 e)
      where
        nonempty : ◌≢◌ {A = Bool} false true
        nonempty e = cc

    skip :
        ((k : GoString) × In ((best, k), b) (((p, m), c) ∷ http) × Accepts k method)
          ⊎ (seen.wildcard ≡ some b)
        → ((k : GoString)
            → ◌≡◌ {A = (GoString × GoString) × Bound} ((p, m), c) ((best, k), b)
            → Accepts k method
            → ⊥)
        → ((k : GoString) × In ((best, k), b) http × Accepts k method) ⊎ (seen.wildcard ≡ some b)
    skip (inr q) never = inr q
    skip (inl (k, inl e, a)) never = absurd (never k e a)
    skip (inl (k, inr l, a)) never = inl (k, l, a)

-- A pattern that matches always gives an answer.
pub select_method-answers :
    (best method : GoString) (seen : Seen) (http : Dict (GoString × GoString) Bound)
    → ◌≢◌ {A = Matched} (select_method best method seen http) not_found
unfolding select_method
select_method-answers best method seen [] h = elim (Option-cases seen.wildcard) [
  | inl n ↦ ground arith
  | inr (c, e) ↦ ground arith
]
select_method-answers best method seen (((p, m), c) ∷ http) h = elim (Bool-cases (p == best)) [
  | inr f ↦ select_method-answers best method seen http (rw (f, select_method) at h)
  | inl t ↦ elim (Bool-cases (m == method)) [
    | inl u ↦ absurd (clash (rw (t, u, select_method) at h))
    | inr n ↦ elim (Bool-cases (is_empty m)) [
      | inl z ↦
          select_method-answers best method (record seen { wildcard = some c }) http
            (rw (t, n, z, select_method) at h)
      | inr w ↦
          select_method-answers best method (record seen { allowed = add_method m seen.allowed })
            http (rw (t, n, w, select_method) at h)
    ]
  ]
]
  where
    clash : ◌≢◌ {A = Matched} (found c) not_found
    clash q = cc

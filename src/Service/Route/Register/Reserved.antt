-- ===== src/Service/Route/Register/Reserved.antt =====
-- The checks of Reserve against the paths of routes.
use arupa.Base.{◌≡◌, ◌≢◌, inl, inr, ap, subst, Bool, true, false, some}
use arupa.Base.{List, GoString, string_eq, key_eq, ==-cases, In, [], ◌∷◌, arith}
use arupa.Base.Dict.{Dict, lookup, lookup-In}
use arupa.Base.Result.{ok}
use arupa.Service.Route.Register.{Bound, Registry, check_reserve, path_in_use}

path_in_use-In :
    (p : GoString) (http : Dict (GoString × GoString) Bound)
    → path_in_use p http ≡ false
    → (m : GoString) (b : Bound) → In ((p, m), b) http
    → ⊥
unfolding path_in_use
path_in_use-In p [] h m b l = l
path_in_use-In p (((q, n), c) ∷ http) h m b l = elim (==-cases q p) [
  | inl (t, _) ↦ absurd (clash (rw t at h))
  | inr (f, n) ↦ elim l [
    | inl e ↦ n (ap (λ (x : (GoString × GoString) × Bound). x.0.0) e)
    | inr l' ↦ path_in_use-In p http (rw f at h) m b l'
  ]
]
  where
    clash : ◌≡◌ {A = Bool} true false → ⊥
    clash e = cc

check_reserve-cons :
    {S : Type 0} (owner q : GoString) (patterns : List GoString) (r : Registry S)
    → check_reserve owner (q ∷ patterns) r ≡ ok tt
    → (path_in_use q r.http ≡ false) × (check_reserve owner patterns r ≡ ok tt)
unfolding check_reserve
check_reserve-cons owner q patterns r h = ground arith

pub check_reserve-free :
    {S : Type 0} (owner : GoString) (patterns : List GoString) (r : Registry S)
    → check_reserve owner patterns r ≡ ok tt
    → (p : GoString) → In p patterns
    → (m : GoString) (b : Bound) → lookup (p, m) r.http ≢ some b
check_reserve-free owner [] r h p i m b l = absurd i
check_reserve-free owner (q ∷ patterns) r h p i m b l =
    let (unused, later) = check_reserve-cons owner q patterns r h in
    elim i [
      | inl e ↦
          path_in_use-In p r.http (subst (λ t. path_in_use t r.http ≡ false) e unused) m b
            (lookup-In (p, m) b r.http l)
      | inr i' ↦ check_reserve-free owner patterns r later p i' m b l
    ]

-- ===== src/Service/Route/Register/Checks.antt =====
-- What a route that passed the checks satisfies.
use arupa.Base.{◌≡◌, ap, subst, inl, inr, refl, sym, Bool, true, false, not, Option, some, none}
use arupa.Base.{[], ◌∷◌, GoString, string_eq, key_eq, ==-cases, Bool-cases, In}
use arupa.Base.{arith}
use arupa.Base.Dict.{Dict, lookup, lookup-In}
use arupa.Base.Result.{Result, ok, err, Unit-bind-ok, reject-ok, ok-injective}
use arupa.Strings.Case.{to_upper-trim_space_idem}
use arupa.Netx.Path.{PathError, validate_path_pattern}
use arupa.Service.Spec.{HttpRoute}
use arupa.Service.Route.Register.{
  Bound, Registry, RouteError, normalize_method, methods_conflict, is_static, entry_conflict,
  find_conflict, check_http, check_static, pattern_ok, not_reserved, no_conflict, serves_http,
  bad_rewrite,
}

-- No conflict with an entry at the same path.
pub record Agrees (prepared : Bound) (method m : GoString) (b : Bound) : Type 0 where
  pub same_owner : b.owner ≡ prepared.owner
  pub old_plain : is_static b.transport.declared.kind ≡ false
  pub new_plain : is_static prepared.transport.declared.kind ≡ false
  pub methods : methods_conflict m method ≡ false

entry_conflict-none :
    (prepared : Bound) (d : HttpRoute) (m : GoString) (b : Bound)
    → entry_conflict prepared d m b ≡ none
    → Agrees prepared d.method m b
unfolding entry_conflict
entry_conflict-none prepared d m b h = elim (==-cases b.owner prepared.owner) [
  | inr (f, _) ↦ absurd (clash (rw (f, entry_conflict) at h))
  | inl (t, same) ↦ elim (Bool-cases (is_static b.transport.declared.kind)) [
    | inl s ↦ absurd (clash (rw (t, s, entry_conflict) at h))
    | inr f ↦ elim (Bool-cases (is_static prepared.transport.declared.kind)) [
      | inl s ↦ absurd (clash (rw (t, f, s, entry_conflict) at h))
      | inr g ↦ elim (Bool-cases (methods_conflict m d.method)) [
        | inl c ↦ absurd (clash (rw (t, f, g, c, entry_conflict) at h))
        | inr n ↦ record { same_owner = same; old_plain = f; new_plain = g; methods = n }
      ]
    ]
  ]
]
  where
    clash : {e : RouteError} → ◌≡◌ {A = Option RouteError} (some e) none → ⊥
    clash q = cc

find_conflict-cons :
    (prepared : Bound) (d : HttpRoute) (p n : GoString) (c : Bound)
    (http : Dict (GoString × GoString) Bound)
    → find_conflict prepared d (((p, n), c) ∷ http) ≡ none
    → (find_conflict prepared d http ≡ none)
      × (p ≡ d.pattern → entry_conflict prepared d n c ≡ none)
unfolding find_conflict
find_conflict-cons prepared d p n c http h = ground arith

find_conflict-In :
    (prepared : Bound) (d : HttpRoute) (http : Dict (GoString × GoString) Bound)
    → find_conflict prepared d http ≡ none
    → (m : GoString) (b : Bound) → In ((d.pattern, m), b) http
    → Agrees prepared d.method m b
find_conflict-In prepared d [] h m b l = absurd l
find_conflict-In prepared d (((p, n), c) ∷ http) h m b l =
    let (later, here) = find_conflict-cons prepared d p n c http h in
    elim l [
      | inl e ↦
          let q : p ≡ d.pattern = ap (λ (t : (GoString × GoString) × Bound). t.0.0) e in
          subst (λ (t : (GoString × GoString) × Bound). Agrees prepared d.method t.0.1 t.1) e
            (entry_conflict-none prepared d n c (here q))
      | inr l' ↦ find_conflict-In prepared d http later m b l'
    ]

pub normalize_method_idem :
    (m : GoString) → normalize_method (normalize_method m) ≡ normalize_method m
unfolding normalize_method
normalize_method_idem m = to_upper-trim_space_idem m

-- What the checks of an HTTP route establish.
pub record Passed {S : Type 0} (prepared : Bound) (d : HttpRoute) (r : Registry S) (out : HttpRoute)
    : Type 0 where
  pub stored : out ≡ record d { method = normalize_method d.method }
  pub valid : validate_path_pattern d.pattern ≡ ok tt
  pub unreserved : lookup d.pattern r.reserved ≡ none
  pub served : serves_http prepared.transport.declared.kind ≡ true
  pub agrees :
      (m : GoString) (b : Bound)
      → lookup (d.pattern, m) r.http ≡ some b
      → Agrees prepared (normalize_method d.method) m b

pub check_http-Passed :
    {S : Type 0} (prepared : Bound) (d : HttpRoute) (r : Registry S) (out : HttpRoute)
    → check_http prepared d r ≡ ok out
    → Passed prepared d r out
unfolding check_http
check_http-Passed prepared d r out h =
    let (valid, h₁) = Unit-bind-ok (pattern_ok (validate_path_pattern d.pattern)) _ h in
    let (served, h₂) =
      reject-ok (not (serves_http prepared.transport.declared.kind)) RouteError.wrong_transport _
        h₁ in
    let (_, h₃) = reject-ok (bad_rewrite d.rewrite) RouteError.location_without_prefix _ h₂ in
    let (unreserved, h₄) = Unit-bind-ok (not_reserved (lookup d.pattern r.reserved)) _ h₃ in
    let d' : HttpRoute = record d { method = normalize_method d.method } in
    let (_, h₅) = Unit-bind-ok (check_static prepared.transport d') _ h₄ in
    let (free, h₆) = Unit-bind-ok (no_conflict (find_conflict prepared d' r.http)) _ h₅ in
    record {
      stored = sym (ok-injective h₆);
      valid = pattern_ok-inv _ valid;
      unreserved = not_reserved-inv _ unreserved;
      served = not-false _ served;
      agrees = λ m b l.
          find_conflict-In prepared d' r.http (no_conflict-inv _ free) m b (lookup-In _ _ _ l);
    }
  where
    pattern_ok-inv : (x : Result PathError (Unit {0})) → pattern_ok x ≡ ok tt → x ≡ ok tt
    pattern_ok-inv (ok tt) h = refl
    pattern_ok-inv (err e) h = cc

    not_reserved-inv : (x : Option GoString) → not_reserved x ≡ ok tt → x ≡ none
    not_reserved-inv none h = refl
    not_reserved-inv (some a) h = cc

    no_conflict-inv : (x : Option RouteError) → no_conflict x ≡ ok tt → x ≡ none
    no_conflict-inv none h = refl
    no_conflict-inv (some a) h = cc

    not-false : (b : Bool) → not b ≡ false → b ≡ true
    not-false b h = ground arith

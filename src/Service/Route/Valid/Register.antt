-- ===== src/Service/Route/Valid/Register.antt =====
-- The table of routes behind registerHTTPLocked.
use arupa.Base.{◌≡◌, ◌≢◌, inl, inr, refl, sym, ap, ◌∙◌, subst, true, false, Option}
use arupa.Base.{some, none, GoString, string_eq, key_eq, bool_eq, ==_self, ==-cases, arith}
use arupa.Base.{Option-cases}
use arupa.Base.Dict.{
  lookup, insert, insert-NodupKeys, insert-cases, lookup-insert_self, lookup-insert_ne,
}
use arupa.Base.Result.{ok}
use arupa.Netx.Path.{validate_path_pattern}
use arupa.Service.Spec.{HttpRoute}
use arupa.Service.Route.Register.{
  Bound, Registry, normalize_method, methods_conflict, is_static, with_http,
}
use arupa.Service.Route.Register.Checks.{Agrees, Passed, normalize_method_idem}
use arupa.Service.Route.Valid.{IsValid, IsStored}

methods_conflict_self : (m : GoString) → methods_conflict m m ≡ true
unfolding methods_conflict
methods_conflict_self m = rw (==_self m)

methods_conflict_comm :
    (m n : GoString) → methods_conflict m n ≡ false → methods_conflict n m ≡ false
unfolding methods_conflict
methods_conflict_comm m n h = ground (arith, ==-cases m n, ==-cases n m)

-- The table with a new HTTP route, of which the checks hold.
module _ {S : Type 0} (r : Registry S) (v : IsValid r) (prepared : Bound) (d : HttpRoute)
    (fresh : lookup (prepared.owner, prepared.route.id) r.by_id ≡ none)
    (passed : Passed prepared d r (record d { method = normalize_method d.method })) where
  abbrev pub stored_route : HttpRoute
  stored_route = record d { method = normalize_method d.method }

  abbrev pub bound : Bound
  bound = with_http prepared stored_route

  abbrev pub added : Registry S
  added = record r {
    http = insert (stored_route.pattern, stored_route.method) bound r.http;
    by_id = insert (prepared.owner, prepared.route.id) bound r.by_id;
  }

  -- The path is free for the method.
  free : lookup (d.pattern, normalize_method d.method) r.http ≡ none
  free = elim (Option-cases (lookup (d.pattern, normalize_method d.method) r.http)) [
    | inl e ↦ e
    | inr (b, found) ↦ absurd (
        clash (
          sym (methods_conflict_self (normalize_method d.method))
          ∙ (passed.agrees (normalize_method d.method) b found).methods))
  ]
    where
      clash : true ≢ false
      clash e = cc

  not_fresh :
      (b : Bound)
      → lookup (b.owner, b.route.id) r.by_id ≡ some b
      → ◌≢◌ {A = GoString × GoString} (prepared.owner, prepared.route.id) (b.owner, b.route.id)
  not_fresh b h e = clash (sym fresh ∙ ap (λ (k : GoString × GoString). lookup k r.by_id) e ∙ h)
    where
      clash : ◌≢◌ {A = Option Bound} none (some b)
      clash e = cc

  pair_eq : {a b c d : GoString} → ◌≡◌ {A = GoString × GoString} (a, b) (c, d) → (a ≡ c) × (b ≡ d)
  pair_eq e = (ap (λ (k : GoString × GoString). k.0) e, ap (λ (k : GoString × GoString). k.1) e)

  added-keyed :
      (o i : GoString) (b : Bound)
      → lookup (o, i) added.by_id ≡ some b
      → (b.owner ≡ o) × (b.route.id ≡ i)
  added-keyed o i b h = elim (insert-cases (o, i) _ bound r.by_id h) [
    | inl (k, e) ↦
        let (p, q) = pair_eq k in subst (λ (c : Bound). (c.owner ≡ o) × (c.route.id ≡ i)) e (p, q)
    | inr (_, old) ↦ v.keyed o i b old
  ]

  added-listed :
      (p m : GoString) (b : Bound)
      → lookup (p, m) added.http ≡ some b
      → lookup (b.owner, b.route.id) added.by_id ≡ some b
  added-listed p m b h = elim (insert-cases (p, m) _ bound r.http h) [
    | inl (_, e) ↦
        subst (λ (c : Bound). lookup (c.owner, c.route.id) added.by_id ≡ some c) e
          (lookup-insert_self _ bound r.by_id)
    | inr (_, old) ↦
        let l = v.listed p m b old in lookup-insert_ne bound r.by_id (not_fresh b l) ∙ l
  ]

  added-IsStored : (p m : GoString) (b : Bound) → lookup (p, m) added.http ≡ some b → IsStored p m b
  added-IsStored p m b h = elim (insert-cases (p, m) _ bound r.http h) [
    | inl (k, e) ↦
        let (q, s) = pair_eq k in
        subst (λ c. IsStored p m c) e
          (record {
            declared = stored_route;
            holds = refl;
            same_pattern = q;
            same_method = s;
            normal = subst (λ n. normalize_method n ≡ n) s (normalize_method_idem d.method);
            valid = subst (λ t. validate_path_pattern t ≡ ok tt) q passed.valid;
          })
    | inr (_, old) ↦ v.stored p m b old
  ]

  added-entered :
      (o i : GoString) (b : Bound) (f : HttpRoute)
      → lookup (o, i) added.by_id ≡ some b
      → b.route.http ≡ some f
      → lookup (f.pattern, f.method) added.http ≡ some b
  added-entered o i b f h g = elim (insert-cases (o, i) _ bound r.by_id h) [
    | inl (_, e) ↦
        let same : stored_route ≡ f =
          some-inj (subst (λ (c : Bound). c.route.http ≡ some f) (sym e) g) in
        subst (λ (x : HttpRoute). lookup (x.pattern, x.method) added.http ≡ some b) same
          (lookup-insert_self _ bound r.http ∙ ap some e)
    | inr (_, old) ↦
        let l = v.entered o i b f old g in lookup-insert_ne bound r.http (occupied b f l) ∙ l
  ]
    where
      some-inj : {x y : HttpRoute} → ◌≡◌ {A = Option HttpRoute} (some x) (some y) → x ≡ y
      some-inj q = cc

      occupied :
          (b : Bound) (f : HttpRoute)
          → lookup (f.pattern, f.method) r.http ≡ some b
          → ◌≢◌ {A = GoString × GoString}
              (d.pattern, normalize_method d.method)
              (f.pattern, f.method)
      occupied b f l e =
          clash b (sym free ∙ ap (λ (k : GoString × GoString). lookup k r.http) e ∙ l)
        where
          clash : (b : Bound) → ◌≢◌ {A = Option Bound} none (some b)
          clash b e = cc

  -- An old entry at the new path.
  old_at :
      (p m : GoString) (b : Bound)
      → d.pattern ≡ p
      → lookup (p, m) r.http ≡ some b
      → Agrees prepared (normalize_method d.method) m b
  old_at p m b e l = passed.agrees m b (ap (λ t. lookup (t, m) r.http) e ∙ l)

  added-one_owner :
      (p m n : GoString) (b c : Bound)
      → lookup (p, m) added.http ≡ some b
      → lookup (p, n) added.http ≡ some c
      → b.owner ≡ c.owner
  added-one_owner p m n b c h k = elim (insert-cases (p, m) _ bound r.http h) [
    | inl (x, e) ↦ elim (insert-cases (p, n) _ bound r.http k) [
      | inl (y, f) ↦ ap (λ (t : Bound). t.owner) (sym e ∙ f)
      | inr (_, old) ↦
          sym ((old_at p n c (pair_eq x).0 old).same_owner ∙ ap (λ (t : Bound). t.owner) e)
    ]
    | inr (_, old) ↦ elim (insert-cases (p, n) _ bound r.http k) [
      | inl (y, f) ↦ (old_at p m b (pair_eq y).0 old).same_owner ∙ ap (λ (t : Bound). t.owner) f
      | inr (_, old') ↦ v.one_owner p m n b c old old'
    ]
  ]

  added-no_overlap :
      (p m n : GoString) (b c : Bound)
      → lookup (p, m) added.http ≡ some b
      → lookup (p, n) added.http ≡ some c
      → m ≢ n
      → (methods_conflict m n ≡ false) × (is_static b.transport.declared.kind ≡ false)
  added-no_overlap p m n b c h k d' = elim (insert-cases (p, m) _ bound r.http h) [
    | inl (x, e) ↦ elim (insert-cases (p, n) _ bound r.http k) [
      | inl (y, f) ↦ absurd (d' (sym (pair_eq x).1 ∙ (pair_eq y).1))
      | inr (_, old) ↦
          let a = old_at p n c (pair_eq x).0 old in
          (
            subst (λ t. methods_conflict t n ≡ false) (pair_eq x).1
                (methods_conflict_comm _ _ a.methods),
            subst (λ (t : Bound). is_static t.transport.declared.kind ≡ false) e a.new_plain,
          )
    ]
    | inr (_, old) ↦ elim (insert-cases (p, n) _ bound r.http k) [
      | inl (y, f) ↦
          let a = old_at p m b (pair_eq y).0 old in
          (subst (λ t. methods_conflict m t ≡ false) (pair_eq y).1 a.methods, a.old_plain)
      | inr (_, old') ↦ v.no_overlap p m n b c old old' d'
    ]
  ]

  added-unreserved :
      (p m : GoString) (b : Bound) → lookup (p, m) added.http ≡ some b → lookup p r.reserved ≡ none
  added-unreserved p m b h = elim (insert-cases (p, m) _ bound r.http h) [
    | inl (x, _) ↦ subst (λ t. lookup t r.reserved ≡ none) (pair_eq x).0 passed.unreserved
    | inr (_, old) ↦ v.unreserved p m b old
  ]

  pub added-IsValid : IsValid added
  added-IsValid = record {
    distinct_ids = insert-NodupKeys _ bound r.by_id v.distinct_ids;
    distinct_paths = insert-NodupKeys _ bound r.http v.distinct_paths;
    keyed = added-keyed;
    listed = added-listed;
    stored = added-IsStored;
    entered = added-entered;
    one_owner = added-one_owner;
    no_overlap = added-no_overlap;
    unreserved = added-unreserved;
  }

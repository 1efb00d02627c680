-- ===== src/Conf/Editor/Services/Fields.antt =====
-- The fields of a service and the memory that was there before.
use arupa.Base.{◌≡◌, ◌≢◌, inl, inr, refl, sym, ap, ◌∙◌, subst, Bool, true, false, List, [], ◌∷◌}
use arupa.Base.{ℕ}
use arupa.Base.{none, some, Option, GoString, string_eq, ◌==◌, Bool-cases}
use arupa.Base.{is_empty, ◌&&◌, if◌then◌else◌}
use arupa.Base.Dict.{lookup, insert, lookup-insert_ne, insert-cases}
use arupa.Base.Result.{Result, ok, err, ok-injective}
use arupa.Strings.{bytes}
use arupa.Conf.Types.{Slice}
use arupa.Conf.Heap.{Ref, Heap, ServiceCell, zero_service}
use arupa.Conf.Heap.Extends.{Fresh, write_ref-Extends}
use arupa.Conf.Editor.Request.{Operation, EditError, as_string_map, as_text}
use arupa.Conf.Editor.Maps.{Field, is_none, is_remove, apply_map}
use arupa.Conf.Editor.Maps.Safe.{IsSafe, apply_map-IsSafe, apply_map-owned}
use arupa.Conf.Editor.{Editor, Edited}
use arupa.Conf.Editor.Safe.{Framed, Safe, Leaves}
use arupa.Conf.Editor.Services.{
  services_now, services_field, owns_params, ensure_services, apply_services, apply_service_field,
  change_field, apply_params, params_field, with_params, changed_text, changed_slice, Changed,
  service_at, stored, apply_service,
}
use arupa.Conf.Editor.Services.Safe.{
  ensure_services-Safe, extend-Framed, apply_all_services-Leaves, apply_service-Leaves,
  lookup-written,
}

-- What the change of a field of a service gives, next to the editor before.
record IsChange (base : Heap) (e : Editor) (name : GoString) (x : Changed) : Type 0 where
  framed : Framed base x.0
  map_owned : x.0.services_owned ≡ true
  same_ref : x.0.next.services ≡ e.next.services
  same_cells : x.0.heap.services ≡ e.heap.services
  same_owner :
      (other : GoString)
      → name ≢ other
      → lookup other x.0.params_owned ≡ lookup other e.params_owned
  own_params :
      (service : ServiceCell)
      → x.1 ≡ ok service
      → owns_params name x.0 ≡ true
      → Fresh base.strings service.params

module _ (base : Heap) (e : Editor) (s : Safe base e) (owned : e.services_owned ≡ true)
    (name : GoString) where
  -- The service before: its parameters are its own, or do not count as copied.
  service_at-Fresh : owns_params name e ≡ true → Fresh base.strings (service_at name e).params
  service_at-Fresh o = by (lookup name (services_now e)) refl
    where
      by :
          (x : Option ServiceCell)
          → lookup name (services_now e) ≡ x
          → Fresh base.strings
              (elim x as (λ _. ServiceCell) [ none ↦ zero_service | some c ↦ c ]).params
      by none q = λ a h. absurd (clash a h)
        where
          clash : (a : ℕ) → ◌≢◌ {A = Ref} none (some a)
          clash a h = cc
      by (some c) q = s.1 name c o q

  -- A service whose parameters are as before.
  keep-IsChange :
      (r : Result EditError ServiceCell)
      → ((c : ServiceCell) → r ≡ ok c → c.params ≡ (service_at name e).params)
      → IsChange base e name (e, r)
  keep-IsChange r same = record {
    framed = s.0;
    map_owned = owned;
    same_ref = refl;
    same_cells = refl;
    same_owner = λ other n. refl;
    own_params = λ c q o a h. service_at-Fresh o a (sym (same c q) ∙ h);
  }

  text-IsChange :
      (f : GoString → ServiceCell) (r : Result EditError GoString)
      → ((t : GoString) → (f t).params ≡ (service_at name e).params)
      → IsChange base e name (changed_text e f r)
  text-IsChange f (ok t) same =
      keep-IsChange _ (λ c q. ap (λ (x : ServiceCell). x.params) (sym (ok-injective q)) ∙ same t)
  text-IsChange f (err x) same = keep-IsChange _ (λ c q. absurd (clash q))
    where
      clash : {c : ServiceCell} → ◌≢◌ {A = Result EditError ServiceCell} (err x) (ok c)
      clash q = cc

  slice-IsChange :
      (f : Slice → ServiceCell) (r : Result EditError Slice)
      → ((t : Slice) → (f t).params ≡ (service_at name e).params)
      → IsChange base e name (changed_slice e f r)
  slice-IsChange f (ok t) same =
      keep-IsChange _ (λ c q. ap (λ (x : ServiceCell). x.params) (sym (ok-injective q)) ∙ same t)
  slice-IsChange f (err x) same = keep-IsChange _ (λ c q. absurd (clash q))
    where
      clash : {c : ServiceCell} → ◌≢◌ {A = Result EditError ServiceCell} (err x) (ok c)
      clash q = cc

  edited-IsChange :
      (service : ServiceCell) (m : Field GoString) (r : Result EditError (Unit {0}))
      → IsSafe base.strings m
      → (owns_params name e ≡ true → m.owned ≡ true)
      → IsChange base e name (with_params name service e (m, r))
  edited-IsChange service m r safe kept = record {
    framed = extend-Framed base e s m.cells (services_field e) safe.extends s.0.services_safe;
    map_owned = owned;
    same_ref = refl;
    same_cells = refl;
    same_owner = λ other n. owner m.owned other n;
    own_params = λ c q o.
        subst (λ (ref : Ref). Fresh base.strings ref) (params r c q)
          (safe.fresh (owns m.owned refl o));
  }
    where
      owner :
          (b : Bool) (other : GoString)
          → name ≢ other
          → lookup other (if b then insert name true e.params_owned else e.params_owned)
            ≡ lookup other e.params_owned
      owner true other n = lookup-insert_ne true e.params_owned n
      owner false other n = refl

      params :
          (r : Result EditError (Unit {0})) (c : ServiceCell)
          → ◌≡◌ {A = Result EditError ServiceCell}
              (elim r as (λ _. Result EditError ServiceCell) [
                | err x ↦ err x
                | ok _ ↦ ok (record service { params = m.ref })
              ])
              (ok c)
          → m.ref ≡ c.params
      params (ok _) c q = ap (λ (x : ServiceCell). x.params) (ok-injective q)
      params (err x) c q = absurd (clash q)
        where
          clash : ◌≢◌ {A = Result EditError ServiceCell} (err x) (ok c)
          clash q = cc

      owns :
          (b : Bool)
          → m.owned ≡ b
          → (elim (lookup name (if b then insert name true e.params_owned else e.params_owned))
              as (λ _. Bool) [ none ↦ false | some x ↦ x ])
            ≡ true
          → m.owned ≡ true
      owns true q o = q
      owns false q o = kept o

  params-IsChange :
      (op : Operation) (segments : List GoString)
      → IsChange base e name (apply_params op segments name (service_at name e) e)
  unfolding apply_params
  params-IsChange op segments =
      let field = params_field name (service_at name e) e in
      let x = apply_map as_string_map as_text op segments field in
      edited-IsChange (service_at name e) x.0 x.1
        (apply_map-IsSafe base.strings as_string_map as_text op segments field
          (record { extends = s.0.users_safe.extends; fresh = λ o. service_at-Fresh o }))
        (apply_map-owned as_string_map as_text op segments field)

  change_field-IsChange :
      (op : Operation) (field : GoString) (rest : List GoString)
      → IsChange base e name (change_field op field rest name (service_at name e) e)
  unfolding change_field
  change_field-IsChange op field rest =
      choose (field == bytes "Restart") (text-IsChange _ _ (λ t. refl)) (
        choose (field == bytes "RunAsUser") (text-IsChange _ _ (λ t. refl)) (
          choose (field == bytes "Checksum") (text-IsChange _ _ (λ t. refl)) (
            choose (field == bytes "Allow") (slice-IsChange _ _ (λ t. refl)) (
              choose (field == bytes "Params") (params-IsChange op rest)
                (keep-IsChange _ (λ c q. absurd (clash q)))))))
    where
      choose :
          (b : Bool) {x y : Changed}
          → IsChange base e name x
          → IsChange base e name y
          → IsChange base e name (if b then x else y)
      choose true p q = p
      choose false p q = q

      clash :
          {x : EditError} {c : ServiceCell} → ◌≢◌ {A = Result EditError ServiceCell} (err x) (ok c)
      clash q = cc

  stored-Leaves : (x : Changed) → IsChange base e name x → Leaves base (stored name x)
  stored-Leaves (e', err y) c = (c.framed, λ q. absurd (clash q))
    where
      clash : ◌≢◌ {A = Result EditError (Unit {0})} (err y) (ok tt)
      clash q = cc
  stored-Leaves (e', ok service) c =
      let f = c.framed in
      let m = f.services_safe in
      (
        record {
          users_safe = f.users_safe;
          pages_safe = f.pages_safe;
          groups_safe = f.groups_safe;
          routes_safe = f.routes_safe;
          services_safe = record {
            extends =
                write_ref-Extends base.services e'.heap.services e'.next.services
                  (insert name service) m.extends (m.fresh c.map_owned);
            fresh = m.fresh;
          };
        },
        λ _ other svc o h.
            elim (insert-cases other name service (services_now e')
              (lookup-written (insert name service) e'.next.services e'.heap.services other h)) [
                | inl (p, q) ↦
                    subst (λ (x : ServiceCell). Fresh base.strings x.params) q
                      (c.own_params service refl (ap (λ n. owns_params n e') p ∙ o))
                | inr (n, old) ↦
                    s.1 other svc (ap (λ b. opened b) (sym (c.same_owner other n)) ∙ o)
                      (before e' c other old)
              ],
      )
    where
      opened : Option Bool → Bool
      opened x = elim x as (λ _. Bool) [ none ↦ false | some b ↦ b ]

      before :
          (e' : Editor)
          → IsChange base e name (e', ok service)
          → (other : GoString) {svc : ServiceCell} → lookup other (services_now e') ≡ some svc
          → lookup other (services_now e) ≡ some svc
      before e' c other h = rw (c.same_ref, c.same_cells) at h

pub apply_service_field-Leaves :
    (base : Heap) (e : Editor)
    → Safe base e
    → (op : Operation) (field : GoString) (rest : List GoString) (name : GoString)
    → Leaves base (apply_service_field op field rest name e)
unfolding apply_service_field
apply_service_field-Leaves base e s op field rest name =
    elim (Bool-cases (is_remove op.kind && is_none (lookup name (services_now e)))) [
      | inl t ↦ rw (t, apply_service_field) (s.0, λ _. s.1)
      | inr f ↦
          let (s', owned, _) = ensure_services-Safe base e s in
          let e' = ensure_services e in
          rw (f, apply_service_field)
            (stored-Leaves base e' s' owned name _
              (change_field-IsChange base e' s' owned name op field rest))
    ]

pub apply_services-Leaves :
    (base : Heap) (e : Editor)
    → Safe base e
    → (op : Operation) (segments : List GoString) → Leaves base (apply_services op segments e)
unfolding apply_services
apply_services-Leaves base e s op [] = apply_all_services-Leaves base e s op.kind op.value
apply_services-Leaves base e s op (name ∷ segments) = elim (Bool-cases (is_empty name)) [
  | inl t ↦ rw (t, apply_services) (s.0, λ _. s.1)
  | inr f ↦ rw (f, apply_services) (by segments)
]
  where
    by :
        (segments : List GoString)
        → Leaves base (elim segments as (λ _. Edited) [
          | [] ↦ apply_service op.kind op.value name e
          | field ∷ rest ↦ apply_service_field op field rest name e
        ])
    by [] = apply_service-Leaves base e s op.kind op.value name
    by (field ∷ rest) = apply_service_field-Leaves base e s op field rest name

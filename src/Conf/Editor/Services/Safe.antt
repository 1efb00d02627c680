-- ===== src/Conf/Editor/Services/Safe.antt =====
-- The services of the editor and the memory that was there before: the map as a whole, and its
-- services.
use arupa.Base.{◌≡◌, ◌≢◌, inl, inr, sym, ap, ◌∙◌, subst, Bool, true, false, [], ◌∷◌}
use arupa.Base.{ℕ, length, ◌++◌, arith}
use arupa.Base.{none, some, Option, GoString, string_eq, Bool-cases, ==-cases, Option-cases}
use arupa.Base.Dict.{
  Dict, lookup, insert, erase, insert-cases, erase-cases, lookup-insert_ne, lookup-erase_ne,
  lookup-nil,
}
use arupa.Conf.Heap.{
  read_cell, Ref, Cells, Heap, ServiceCell, read_ref, write_ref, clone_map, clone_service,
  clone_entries,
}
use arupa.Conf.Heap.Extends.{
  Extends, Fresh, alloc-Extends, length-Extends, write_ref-Extends, clone_map-Extends,
  read_cell-alloc, read_ref-write_ref,
}
use arupa.Conf.Editor.Request.{Value, OperationType, as_service_map, as_service}
use arupa.Conf.Editor.Maps.{Field, is_none}
use arupa.Conf.Editor.Maps.Safe.{IsSafe, ensure-IsSafe, read_ref-ensure}
use arupa.Conf.Editor.{Editor, users_field, pages_field, groups_field, route_field}
use arupa.Conf.Editor.Services.{
  services_now, services_field, with_services, ensure_services, write_services, replace_services,
  apply_all_services, put_service, drop_service, apply_service,
}
use arupa.Conf.Editor.Safe.{IsFramed, Framed, Safe, Leaves}

-- An entry that is read behind a write was written.
pub lookup-written :
    {V : Type 0} (f : Dict GoString V → Dict GoString V) (ref : Ref) (cells : Cells V)
    (name : GoString) {v : V}
    → lookup name (read_ref ref (write_ref ref f cells)) ≡ some v
    → lookup name (f (read_ref ref cells)) ≡ some v
lookup-written f ref cells name {v} h = elim (read_ref-write_ref ref f cells) [
  | inl e ↦ ap (λ d. lookup name d) (sym e) ∙ h
  | inr e ↦ absurd (clash (sym (lookup-nil name) ∙ ap (λ d. lookup name d) (sym e) ∙ h))
]
  where
    clash : ◌≢◌ none (some v)
    clash q = cc

-- The copies of services have parameters of their own.
clone_entries-Extends :
    (base cells : Cells GoString) (services : Dict GoString ServiceCell)
    → Extends base cells
    → Extends base (clone_entries services cells).1
      × ((name : GoString) (service : ServiceCell)
          → lookup name (clone_entries services cells).0 ≡ some service
          → Fresh base service.params)
unfolding clone_entries lookup
clone_entries-Extends base cells [] x = (x, λ name service h. cc)
clone_entries-Extends base cells ((n, s) ∷ services) x =
    let (y, fresh) = clone_map-Extends base cells s.params x in
    let (z, later) = clone_entries-Extends base (clone_map s.params cells).1 services y in
    (
      z,
      λ name service h. elim (==-cases n name) [
        | inl (t, _) ↦
            let e : (clone_service s cells).0 ≡ service = some-injective (rw (t, lookup) at h) in
            subst (λ (c : ServiceCell). Fresh base c.params) e fresh
        | inr (f, _) ↦ later name service (rw (f, lookup) at h)
      ],
    )
  where
    some-injective : {a b : ServiceCell} → ◌≡◌ {A = Option ServiceCell} (some a) (some b) → a ≡ b
    some-injective q = cc

abbrev opened : Option Bool → Bool
opened none = false
opened (some b) = b

abbrev owns_in : GoString → Dict GoString Bool → Bool
owns_in name owns = opened (lookup name owns)

module _ (base : Heap) (e : Editor) (s : Safe base e) where
  with_services-Framed :
      (m : Field ServiceCell) → IsSafe base.services m → Framed base (with_services e m)
  with_services-Framed m safe =
      let f = s.0 in
      record {
        users_safe = f.users_safe;
        pages_safe = f.pages_safe;
        groups_safe = f.groups_safe;
        routes_safe = f.routes_safe;
        services_safe = safe;
      }

  pub ensure_services-Safe :
      Safe base (ensure_services e)
      × ((ensure_services e).services_owned ≡ true)
      × (services_now (ensure_services e) ≡ services_now e)
  unfolding ensure_services
  ensure_services-Safe =
      let (safe, owned) = ensure-IsSafe base.services (services_field e) s.0.services_safe in
      let same = read_ref-ensure (services_field e) in
      (
        (
          with_services-Framed _ safe,
          λ name service o h. s.1 name service o (ap (λ d. lookup name d) (sym same) ∙ h),
        ),
        owned,
        same,
      )

  -- More maps of texts, and another field of services.
  pub extend-Framed :
      (cells : Cells GoString) (m : Field ServiceCell)
      → Extends base.strings cells
      → IsSafe base.services m
      → IsFramed base
          (record { ref = e.next.users; owned = e.users_owned; cells = cells })
          (record { ref = e.next.pages; owned = e.pages_owned; cells = cells })
          (groups_field e)
          (route_field e)
          m
  extend-Framed cells m x safe =
      let f = s.0 in
      record {
        users_safe = record { extends = x; fresh = f.users_safe.fresh };
        pages_safe = record { extends = x; fresh = f.pages_safe.fresh };
        groups_safe = f.groups_safe;
        routes_safe = f.routes_safe;
        services_safe = safe;
      }

  no_services : IsSafe base.services (record { ref = none; owned = true; cells = e.heap.services })
  no_services = record { extends = s.0.services_safe.extends; fresh = λ _ a q. absurd (clash a q) }
    where
      clash : (a : ℕ) → ◌≢◌ {A = Ref} none (some a)
      clash a q = cc

  emptied-Framed :
      IsFramed base
        (users_field e)
        (pages_field e)
        (groups_field e)
        (route_field e)
        (record { ref = none; owned = true; cells = e.heap.services })
  emptied-Framed = extend-Framed e.heap.strings _ s.0.users_safe.extends no_services

  no_entry :
      (name : GoString) (service : ServiceCell)
      → lookup name [] ≡ some service
      → Fresh base.strings service.params
  unfolding lookup
  no_entry name service h = cc

  copied-Framed :
      (a : ℕ)
      → (let copied = clone_entries (read_cell a e.heap.services) e.heap.strings in
          IsFramed base
            (record { ref = e.next.users; owned = e.users_owned; cells = copied.1 })
            (record { ref = e.next.pages; owned = e.pages_owned; cells = copied.1 })
            (groups_field e)
            (route_field e)
            (record {
              ref = some (length e.heap.services);
              owned = true;
              cells = e.heap.services ++ (copied.0 ∷ []);
            }))
  copied-Framed a =
      let x = s.0.services_safe.extends in
      extend-Framed _ _
        (clone_entries-Extends base.strings e.heap.strings (read_cell a e.heap.services)
          s.0.users_safe.extends).0
        (record {
          extends = alloc-Extends base.services e.heap.services _ x;
          fresh = λ _ b q.
              let eq : length e.heap.services ≡ b = cc in
              omega (arith, length-Extends base.services e.heap.services x);
        })

  pub apply_all_services-Leaves :
      (kind : OperationType) (value : Value) → Leaves base (apply_all_services kind value e)
  unfolding apply_all_services replace_services
  apply_all_services-Leaves (OperationType.unknown n) value = (s.0, λ _. s.1)
  apply_all_services-Leaves OperationType.remove value =
      (emptied-Framed, λ _ name service _ h. no_entry name service h)
  apply_all_services-Leaves OperationType.set value = elim (Option-cases (as_service_map value)) [
    | inl q ↦ rw (q, apply_all_services) (s.0, λ _. s.1)
    | inr (none, q) ↦
        rw (q, apply_all_services) (emptied-Framed, λ _ name service _ h. no_entry name service h)
    | inr (some a, q) ↦
        rw (q, apply_all_services)
          (
            copied-Framed a,
            λ _ name service _ h.
                (clone_entries-Extends base.strings e.heap.strings (read_cell a e.heap.services)
                    s.0.users_safe.extends).1
                  name service
                  (ap (λ d. lookup name d) (sym (read_cell-alloc e.heap.services _)) ∙ h),
          )
  ]

-- Another service in the editor's own map.
module _ (base : Heap) (e : Editor) (s : Safe base e) (owned : e.services_owned ≡ true) where
  write_services-IsSafe :
      (f : Dict GoString ServiceCell → Dict GoString ServiceCell)
      → IsSafe base.services (record {
        ref = e.next.services;
        owned = e.services_owned;
        cells = write_ref e.next.services f e.heap.services;
      })
  write_services-IsSafe f =
      let m = s.0.services_safe in
      record {
        extends =
            write_ref-Extends base.services e.heap.services e.next.services f m.extends
              (m.fresh owned);
        fresh = m.fresh;
      }

  -- A service that is written: its parameters are its own, or do not count as copied.
  pub written-Leaves :
      (name : GoString) (service : ServiceCell) (cells : Cells GoString) (owns : Dict GoString Bool)
      → Extends base.strings cells
      → (owns_in name owns ≡ true → Fresh base.strings service.params)
      → ((other : GoString) → name ≢ other → lookup other owns ≡ lookup other e.params_owned)
      → (let heap = e.heap in
          Safe base (record e {
            heap = record heap {
              strings = cells;
              services = write_ref e.next.services (insert name service) e.heap.services;
            };
            params_owned = owns;
          }))
  written-Leaves name service cells owns x fresh same = (
    extend-Framed base e s cells _ x (write_services-IsSafe (insert name service)),
    λ other svc o h.
        elim (insert-cases other name service (services_now e)
          (lookup-written (insert name service) e.next.services e.heap.services other h)) [
            | inl (p, q) ↦
                subst (λ (c : ServiceCell). Fresh base.strings c.params) q
                  (fresh (ap (λ n. owns_in n owns) p ∙ o))
            | inr (n, old) ↦ s.1 other svc (ap (λ b. opened b) (sym (same other n)) ∙ o) old
          ],
  )

  pub dropped-Leaves : (name : GoString) → Safe base (drop_service name e)
  unfolding drop_service write_services
  dropped-Leaves name = (
    extend-Framed base e s e.heap.strings _ s.0.users_safe.extends
        (write_services-IsSafe (erase name)),
    λ other svc o h.
        let (n, old) =
          erase-cases other name (services_now e)
            (lookup-written (erase name) e.next.services e.heap.services other h) in
        s.1 other svc (ap (λ b. opened b) (sym (lookup-erase_ne e.params_owned n)) ∙ o) old,
  )

  pub put_service-Safe :
      (name : GoString) (service : ServiceCell) → Safe base (put_service name service e)
  unfolding put_service write_services
  put_service-Safe name service =
      let (x, fresh) =
        clone_map-Extends base.strings e.heap.strings service.params s.0.users_safe.extends in
      written-Leaves name _ _ (insert name true e.params_owned) x (λ _. fresh)
        (λ other n. lookup-insert_ne true e.params_owned n)

pub apply_service-Leaves :
    (base : Heap) (e : Editor)
    → Safe base e
    → (kind : OperationType) (value : Value) (name : GoString)
    → Leaves base (apply_service kind value name e)
unfolding apply_service
apply_service-Leaves base e s (OperationType.unknown n) value name =
    let ((f, p), _, _) = ensure_services-Safe base e s in (f, λ _. p)
apply_service-Leaves base e s OperationType.remove value name =
    elim (Bool-cases (is_none (lookup name (services_now e)))) [
      | inl t ↦ rw (t, apply_service) (s.0, λ _. s.1)
      | inr f ↦
          let (s', owned, _) = ensure_services-Safe base e s in
          let after = dropped-Leaves base (ensure_services e) s' owned name in
          rw (f, apply_service) (after.0, λ _. after.1)
    ]
apply_service-Leaves base e s OperationType.set value name =
    let (s', owned, _) = ensure_services-Safe base e s in
    elim (Option-cases (as_service value)) [
      | inl q ↦ rw (q, apply_service) (s'.0, λ _. s'.1)
      | inr (service, q) ↦
          let after = put_service-Safe base (ensure_services e) s' owned name service in
          rw (q, apply_service) (after.0, λ _. after.1)
    ]

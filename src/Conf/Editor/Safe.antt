-- ===== src/Conf/Editor/Safe.antt =====
-- The editor and the configuration that it started from: the shared maps.
use arupa.Base.{◌≡◌, inl, inr, true, false, List, [], ◌∷◌}
use arupa.Base.{some, GoString, string_eq, ◌==◌, Bool-cases}
use arupa.Base.Dict.{lookup}
use arupa.Base.Result.{Result, ok}
use arupa.Strings.{bytes}
use arupa.Conf.Types.{Slice}
use arupa.Conf.Heap.{Ref, Cells, Heap, ServiceCell}
use arupa.Conf.Heap.Extends.{Fresh, Extends-refl}
use arupa.Conf.Editor.Request.{Operation, EditError}
use arupa.Conf.Editor.Maps.{Field}
use arupa.Conf.Editor.Maps.Safe.{IsSafe, apply_map-IsSafe, apply_whole-IsSafe}
use arupa.Conf.Editor.{
  Editor, ConfigCell, Edited, new_editor, apply_users, apply_groups, apply_pages, apply_route,
  users_field, groups_field, pages_field, route_field, with_users, with_groups, with_pages,
  with_route,
}
use arupa.Conf.Editor.Services.{services_now, services_field, owns_params}

-- The memory of the base is as it was, and what counts as copied is not of the base.
pub record IsFramed (base : Heap) (users pages : Field GoString) (groups routes : Field Slice)
    (services : Field ServiceCell) : Type 0 where
  pub users_safe : IsSafe base.strings users
  pub pages_safe : IsSafe base.strings pages
  pub groups_safe : IsSafe base.slices groups
  pub routes_safe : IsSafe base.slices routes
  pub services_safe : IsSafe base.services services

abbrev pub Framed : Heap → Editor → Type 0
Framed base e =
    IsFramed base (users_field e) (pages_field e) (groups_field e) (route_field e)
      (services_field e)

-- Parameters that count as copied are not of the base.
abbrev pub OwnParams : Heap → Editor → Type 0
OwnParams base e =
    (name : GoString) (service : ServiceCell)
    → owns_params name e ≡ true
    → lookup name (services_now e) ≡ some service
    → Fresh base.strings service.params

abbrev pub Safe : Heap → Editor → Type 0
Safe base e = Framed base e × OwnParams base e

-- An operation leaves the base alone, and if it succeeds the next one will too.
abbrev pub Leaves : Heap → Edited → Type 0
Leaves base x = Framed base x.0 × (x.1 ≡ ok tt → OwnParams base x.0)

pub new_editor-Safe : (current : ConfigCell) (heap : Heap) → Safe heap (new_editor current heap)
unfolding new_editor lookup
new_editor-Safe current heap = (
  record {
    users_safe = plain current.users heap.strings;
    pages_safe = plain current.pages heap.strings;
    groups_safe = plain current.groups heap.slices;
    routes_safe = plain current.route_allow heap.slices;
    services_safe = plain current.services heap.services;
  },
  λ name service o. cc,
)
  where
    plain :
        {V : Type 0} (ref : Ref) (cells : Cells V)
        → IsSafe cells (record { ref = ref; owned = false; cells = cells })
    plain ref cells = record { extends = Extends-refl cells; fresh = λ o. cc }

module _ (base : Heap) (e : Editor) (s : Safe base e) where
  pub users-Leaves :
      (x : Field GoString × Result EditError (Unit {0}))
      → IsSafe base.strings x.0
      → Leaves base (with_users e x)
  users-Leaves x m =
      let f = s.0 in
      (
        record {
          users_safe = m;
          pages_safe = record { extends = m.extends; fresh = f.pages_safe.fresh };
          groups_safe = f.groups_safe;
          routes_safe = f.routes_safe;
          services_safe = f.services_safe;
        },
        λ _. s.1,
      )

  pub pages-Leaves :
      (x : Field GoString × Result EditError (Unit {0}))
      → IsSafe base.strings x.0
      → Leaves base (with_pages e x)
  pages-Leaves x m =
      let f = s.0 in
      (
        record {
          users_safe = record { extends = m.extends; fresh = f.users_safe.fresh };
          pages_safe = m;
          groups_safe = f.groups_safe;
          routes_safe = f.routes_safe;
          services_safe = f.services_safe;
        },
        λ _. s.1,
      )

  pub groups-Leaves :
      (x : Field Slice × Result EditError (Unit {0}))
      → IsSafe base.slices x.0
      → Leaves base (with_groups e x)
  groups-Leaves x m =
      let f = s.0 in
      (
        record {
          users_safe = f.users_safe;
          pages_safe = f.pages_safe;
          groups_safe = m;
          routes_safe = record { extends = m.extends; fresh = f.routes_safe.fresh };
          services_safe = f.services_safe;
        },
        λ _. s.1,
      )

  pub route-Leaves :
      (x : Field Slice × Result EditError (Unit {0}))
      → IsSafe base.slices x.0
      → Leaves base (with_route e x)
  route-Leaves x m =
      let f = s.0 in
      (
        record {
          users_safe = f.users_safe;
          pages_safe = f.pages_safe;
          groups_safe = record { extends = m.extends; fresh = f.groups_safe.fresh };
          routes_safe = m;
          services_safe = f.services_safe;
        },
        λ _. s.1,
      )

  pub apply_users-Leaves :
      (op : Operation) (segments : List GoString) → Leaves base (apply_users op segments e)
  unfolding apply_users
  apply_users-Leaves op segments =
      users-Leaves _ (apply_map-IsSafe base.strings _ _ op segments (users_field e) s.0.users_safe)

  pub apply_pages-Leaves :
      (op : Operation) (segments : List GoString) → Leaves base (apply_pages op segments e)
  unfolding apply_pages
  apply_pages-Leaves op segments =
      pages-Leaves _ (apply_map-IsSafe base.strings _ _ op segments (pages_field e) s.0.pages_safe)

  pub apply_groups-Leaves :
      (op : Operation) (segments : List GoString) → Leaves base (apply_groups op segments e)
  unfolding apply_groups
  apply_groups-Leaves op segments =
      groups-Leaves _
        (apply_map-IsSafe base.slices _ _ op segments (groups_field e) s.0.groups_safe)

  pub apply_route-Leaves :
      (op : Operation) (segments : List GoString) → Leaves base (apply_route op segments e)
  unfolding apply_route
  apply_route-Leaves op [] =
      route-Leaves _
        (apply_whole-IsSafe base.slices _ op.kind op.value (route_field e) s.0.routes_safe)
  apply_route-Leaves op (field ∷ segments) = elim (Bool-cases (field == bytes "Allow")) [
    | inl t ↦
        rw (t, apply_route)
          (route-Leaves _
            (apply_map-IsSafe base.slices _ _ op segments (route_field e) s.0.routes_safe))
    | inr f ↦ rw (f, apply_route) (s.0, λ _. s.1)
  ]

  -- A field that is no map, whatever the change gives.
  pub unchanged-Leaves : (r : Result EditError (Unit {0})) → Leaves base (e, r)
  unchanged-Leaves r = (s.0, λ _. s.1)

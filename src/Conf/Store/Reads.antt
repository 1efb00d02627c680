-- ===== src/Conf/Store/Reads.antt =====
-- What is placed in the memory of the configuration, read back.
use arupa.Base.{◌≡◌, refl, ap, ◌∙◌, [], ◌∷◌, ◌++◌}
use arupa.Base.{none, some, GoString, length, length-append, arith}
use arupa.Base.Dict.{Dict}
use arupa.Conf.Types.{Config, GoMap, Service, entries}
use arupa.Conf.Heap.{Cells, Heap, ServiceCell, read_cell}
use arupa.Conf.Heap.Extends.{Extends, Extends-refl, read_cell-alloc}
use arupa.Conf.Editor.Apply.Safe.{read_cell-Extends}
use arupa.Conf.Store.Memory.{Extends-trans, place_map-Extends, place_services-Extends}
use arupa.Conf.Store.Place.{
  place_map, place_services, placed, place, map_at, services_at, config_at,
}

map_at-place_map :
    {V : Type 0} (m : GoMap V) (cells cells' : Cells V)
    → Extends (place_map m cells).1 cells'
    → map_at (place_map m cells).0 cells' ≡ m
map_at-place_map none cells cells' x = refl
map_at-place_map (some d) cells cells' x =
    ap (λ d. some d)
      (read_cell-Extends (cells ++ (d ∷ [])) cells' (length cells) x
          (omega (arith, length-append cells (d ∷ [])))
        ∙ read_cell-alloc cells d)

services_at-place_services :
    (services : Dict GoString Service) (cells cells' : Cells GoString)
    → Extends (place_services services cells).1 cells'
    → services_at (place_services services cells).0 cells' ≡ services
unfolding place_services services_at
services_at-place_services [] cells cells' x = refl
services_at-place_services ((name, s) ∷ services) cells cells' x =
    let after = (place_map s.params cells).1 in
    let rest = services_at-place_services services after cells' x in
    let params = map_at-place_map s.params cells cells' (
      Extends-trans after (place_services services after).1 cells'
        (place_services-Extends after after services (Extends-refl after)) x) in
    λ i. (name, record s { params = params i }) ∷ rest i

-- A configuration that is placed in memory reads as itself.
pub config_at-place : (c : Config) (heap : Heap) → config_at (place c heap).0 (place c heap).1 ≡ c
unfolding config_at place
config_at-place c heap =
    let users = place_map c.users heap.strings in
    let pages = place_map c.pages users.1 in
    let groups = place_map c.groups heap.slices in
    let route = place_map c.route_allow groups.1 in
    let services = place_services (entries c.services) pages.1 in
    let last = place_services-Extends pages.1 pages.1 (entries c.services) (Extends-refl pages.1) in
    let u = map_at-place_map c.users heap.strings services.1 (
      place_services-Extends users.1 pages.1 (entries c.services)
        (place_map-Extends users.1 users.1 c.pages (Extends-refl users.1))) in
    let p = map_at-place_map c.pages users.1 services.1 last in
    let g =
      map_at-place_map c.groups heap.slices route.1
        (place_map-Extends groups.1 groups.1 c.route_allow (Extends-refl groups.1)) in
    let r = map_at-place_map c.route_allow groups.1 route.1 (Extends-refl route.1) in
    let s = table c.services pages.1 heap.services in
    λ i. record {
      listen = c.listen;
      tls = c.tls;
      log = c.log;
      api = c.api;
      users = u i;
      groups = g i;
      route_allow = r i;
      service_dir = c.service_dir;
      service_temp_dir = c.service_temp_dir;
      services = s i;
      pages = p i;
    }
  where
    table :
        (m : GoMap Service) (strings : Cells GoString) (cells : Cells ServiceCell)
        → (let services = place_services (entries m) strings in
            let x = place_map (placed m services.0) cells in
            ◌≡◌ {A = GoMap Service}
              (elim x.0 as (λ _. GoMap Service) [
                | none ↦ none
                | some a ↦ some (services_at (read_cell a x.1) services.1)
              ])
              m)
    table none strings cells = refl
    table (some d) strings cells =
        ap (λ d. some d)
          (ap (λ t. services_at t (place_services d strings).1) (read_cell-alloc cells _)
            ∙ services_at-place_services d strings (place_services d strings).1
                (Extends-refl (place_services d strings).1))

pub groups-place :
    (c : Config) (heap : Heap) → map_at (place c heap).0.groups (place c heap).1.slices ≡ c.groups
unfolding config_at
groups-place c heap = ap (λ (c : Config). c.groups) (config_at-place c heap)

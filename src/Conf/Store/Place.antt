-- ===== src/Conf/Store/Place.antt =====
-- Configurations as values and in memory: what a decoder puts there, and what a reader sees.
use arupa.Base.{[], ◌∷◌, none, some, GoString}
use arupa.Base.Dict.{Dict}
use arupa.Conf.Types.{Config, GoMap, Service, entries}
use arupa.Conf.Heap.{Ref, Cells, Heap, ServiceCell, read_cell, alloc}
use arupa.Conf.Editor.{ConfigCell}

-- The maps that the decoder makes.
abbrev pub place_map : {V : Type 0} → GoMap V → Cells V → Ref × Cells V
place_map none cells = (none, cells)
place_map (some d) cells = alloc d cells

unfoldable pub place_services :
    Dict GoString Service → Cells GoString → Dict GoString ServiceCell × Cells GoString
place_services [] cells = ([], cells)
place_services ((name, s) ∷ services) cells =
    let (params, cells') = place_map s.params cells in
    let (rest, cells'') = place_services services cells' in
    (
      (
        name,
        record {
          restart = s.restart;
          run_as_user = s.run_as_user;
          checksum = s.checksum;
          allow = s.allow;
          params = params;
        },
      )
          ∷ rest,
      cells'',
    )

-- The map of services, nil where it is nil.
abbrev pub placed : GoMap Service → Dict GoString ServiceCell → GoMap ServiceCell
placed none cells = none
placed (some _) cells = some cells

unfoldable pub place : Config → Heap → ConfigCell × Heap
unfolding place_services
place c heap =
    let users = place_map c.users heap.strings in
    let pages = place_map c.pages users.1 in
    let groups = place_map c.groups heap.slices in
    let route = place_map c.route_allow groups.1 in
    let services = place_services (entries c.services) pages.1 in
    let table = place_map (placed c.services services.0) heap.services in
    (
      record {
        listen = c.listen;
        tls = c.tls;
        log = c.log;
        api = c.api;
        users = users.0;
        groups = groups.0;
        route_allow = route.0;
        service_dir = c.service_dir;
        service_temp_dir = c.service_temp_dir;
        services = table.0;
        pages = pages.0;
      },
      record { strings = services.1; slices = route.1; services = table.1 },
    )

-- A configuration in memory as a value.
abbrev pub map_at : {V : Type 0} → Ref → Cells V → GoMap V
map_at none cells = none
map_at (some a) cells = some (read_cell a cells)

unfoldable pub services_at : Dict GoString ServiceCell → Cells GoString → Dict GoString Service
services_at [] cells = []
services_at ((name, s) ∷ services) cells =
    (
      name,
      record {
        restart = s.restart;
        run_as_user = s.run_as_user;
        checksum = s.checksum;
        allow = s.allow;
        params = map_at s.params cells;
      },
    )
    ∷ services_at services cells

unfoldable pub config_at : ConfigCell → Heap → Config
unfolding services_at
config_at c heap = record {
  listen = c.listen;
  tls = c.tls;
  log = c.log;
  api = c.api;
  users = map_at c.users heap.strings;
  groups = map_at c.groups heap.slices;
  route_allow = map_at c.route_allow heap.slices;
  service_dir = c.service_dir;
  service_temp_dir = c.service_temp_dir;
  services = elim c.services [
    | none ↦ none
    | some a ↦ some (services_at (read_cell a heap.services) heap.strings)
  ];
  pages = map_at c.pages heap.strings;
}

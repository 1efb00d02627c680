-- ===== src/Conf/Editor.antt =====
-- internal/conf/update.go: the editor, which shares maps with the configuration that it edits
-- until it changes them.
pub mod Request
pub mod Maps
pub mod Services
pub mod Apply
pub mod Safe
use arupa.Base.{
  Bool, true, false, not, ◌&&◌, List, [], ◌∷◌, Option, none, some, GoString, string_eq,
}
use arupa.Base.{◌==◌, if◌then◌else◌, is_empty}
use arupa.Base.Dict.{Dict, lookup, insert, erase}
use arupa.Base.Result.{Result, ok, err}
use arupa.Strings.{bytes}
use arupa.Conf.Types.{ApiConfig, LogConfig, no_api, no_log, Slice}
use arupa.Conf.Heap.{
  Ref, Cells, Heap, ServiceCell, zero_service, read_ref, write_ref, alloc, clone_map, clone_service,
  clone_entries, mark_all,
}
use arupa.Conf.Editor.Request.{
  Value, OperationType, Operation, EditError, root_update, unknown_field, scalar_field,
  not_a_container, key_required, whole_array, wrong_type, field_required, unknown_operation,
  as_text, as_boolean, as_api, as_log, as_string_map, as_slice_map, as_service_map, as_slice,
  as_route, as_service,
}
use arupa.Conf.Editor.Maps.{Field, is_none, is_remove, apply_whole, apply_map, ensure}

-- The struct `Config` with the addresses of its maps.
pub record ConfigCell : Type 0 where
  pub listen : GoString
  pub tls : Bool
  pub log : LogConfig
  pub api : ApiConfig
  pub users : Ref
  pub groups : Ref
  pub route_allow : Ref
  pub service_dir : GoString
  pub service_temp_dir : GoString
  pub services : Ref
  pub pages : Ref

-- `configEditor`, and the memory.
pub record Editor : Type 0 where
  pub next : ConfigCell
  pub users_owned : Bool
  pub groups_owned : Bool
  pub route_allow_owned : Bool
  pub services_owned : Bool
  pub pages_owned : Bool
  pub params_owned : Dict GoString Bool
  pub heap : Heap

unfoldable pub new_editor : ConfigCell → Heap → Editor
new_editor current heap = record {
  next = current;
  users_owned = false;
  groups_owned = false;
  route_allow_owned = false;
  services_owned = false;
  pages_owned = false;
  params_owned = [];
  heap = heap;
}

-- An operation on the editor may fail when it has already copied a map.
abbrev pub Edited : Type 0
Edited = Editor × Result EditError (Unit {0})

-- A field that is assigned as a whole: its new value.
unfoldable pub apply_scalar :
    {A : Type 0} → (Value → Option A) → A → OperationType → Value → Result EditError A
apply_scalar as_value zero_value OperationType.set value = elim (as_value value) [
  | none ↦ err wrong_type
  | some a ↦ ok a
]
apply_scalar as_value zero_value OperationType.remove value = ok zero_value
apply_scalar as_value zero_value (OperationType.unknown n) value = err (unknown_operation n)

-- `applyString` and `applyBool`, whose path has one segment.
unfoldable pub apply_string : Operation → List GoString → Result EditError GoString
unfolding apply_scalar
apply_string op (_ ∷ []) = apply_scalar as_text [] op.kind op.value
apply_string op _ = err scalar_field

unfoldable pub apply_bool : Operation → List GoString → Result EditError Bool
unfolding apply_scalar
apply_bool op (_ ∷ []) = apply_scalar as_boolean false op.kind op.value
apply_bool op _ = err scalar_field

-- A new value is stored in the configuration.
abbrev pub store : {A : Type 0} → (A → ConfigCell) → Editor → Result EditError A → Edited
store f e (ok a) = (record e { next = f a }, ok tt)
store f e (err x) = (e, err x)

-- The field of a capability.
unfoldable pub set_api : GoString → Bool → ApiConfig → Option ApiConfig
set_api field b api =
    if field == bytes "User"
    then some (record api { user = b })
    else if field == bytes "Group"
    then some (record api { group = b })
    else if field == bytes "Pages"
    then some (record api { pages = b })
    else if field == bytes "Access"
    then some (record api { access = b })
    else if field == bytes "Service"
    then some (record api { service = b })
    else if field == bytes "Log"
    then some (record api { log = b })
    else if field == bytes "Network"
    then some (record api { network = b })
    else none

-- An unknown field is refused before the operation is looked at.
api_field : GoString → Operation → ApiConfig → Result EditError ApiConfig
unfolding apply_bool set_api
api_field field op api = elim (set_api field false api) [
  | none ↦ err unknown_field
  | some _ ↦ elim (apply_bool op (field ∷ [])) [
    | err x ↦ err x
    | ok b ↦ elim (set_api field b api) [ none ↦ err unknown_field | some api' ↦ ok api' ]
  ]
]

unfoldable pub apply_api : Operation → List GoString → Editor → Edited
unfolding apply_scalar api_field
apply_api op segments e =
    let next = e.next in
    store (λ api. record next { api = api }) e
      (elim segments [
        | [] ↦ apply_scalar as_api no_api op.kind op.value
        | field ∷ [] ↦ api_field field op e.next.api
        | _ ∷ _ ∷ _ ↦ err not_a_container
      ])

log_field : GoString → Operation → LogConfig → Result EditError LogConfig
unfolding apply_string
log_field field op log =
    let format = apply_string op (field ∷ []) in
    if field == bytes "Format"
    then (elim format [ err x ↦ err x | ok s ↦ ok (record log { format = s }) ])
    else if field == bytes "Level"
    then (elim format [ err x ↦ err x | ok s ↦ ok (record log { level = s }) ])
    else err unknown_field

unfoldable pub apply_log : Operation → List GoString → Editor → Edited
unfolding apply_scalar log_field
apply_log op segments e =
    let next = e.next in
    store (λ log. record next { log = log }) e
      (elim segments [
        | [] ↦ apply_scalar as_log no_log op.kind op.value
        | field ∷ [] ↦ log_field field op e.next.log
        | _ ∷ _ ∷ _ ↦ err not_a_container
      ])

-- The five maps of the editor as fields, and their change.
abbrev pub users_field : Editor → Field GoString
users_field e = record { ref = e.next.users; owned = e.users_owned; cells = e.heap.strings }

abbrev pub with_users : Editor → Field GoString × Result EditError (Unit {0}) → Edited
with_users e (m, r) =
    let next = e.next in
    let heap = e.heap in
    (
      record e {
        next = record next { users = m.ref };
        users_owned = m.owned;
        heap = record heap { strings = m.cells };
      },
      r,
    )

abbrev pub pages_field : Editor → Field GoString
pages_field e = record { ref = e.next.pages; owned = e.pages_owned; cells = e.heap.strings }

abbrev pub with_pages : Editor → Field GoString × Result EditError (Unit {0}) → Edited
with_pages e (m, r) =
    let next = e.next in
    let heap = e.heap in
    (
      record e {
        next = record next { pages = m.ref };
        pages_owned = m.owned;
        heap = record heap { strings = m.cells };
      },
      r,
    )

abbrev pub groups_field : Editor → Field Slice
groups_field e = record { ref = e.next.groups; owned = e.groups_owned; cells = e.heap.slices }

abbrev pub with_groups : Editor → Field Slice × Result EditError (Unit {0}) → Edited
with_groups e (m, r) =
    let next = e.next in
    let heap = e.heap in
    (
      record e {
        next = record next { groups = m.ref };
        groups_owned = m.owned;
        heap = record heap { slices = m.cells };
      },
      r,
    )

abbrev pub route_field : Editor → Field Slice
route_field e = record {
  ref = e.next.route_allow;
  owned = e.route_allow_owned;
  cells = e.heap.slices;
}

abbrev pub with_route : Editor → Field Slice × Result EditError (Unit {0}) → Edited
with_route e (m, r) =
    let next = e.next in
    let heap = e.heap in
    (
      record e {
        next = record next { route_allow = m.ref };
        route_allow_owned = m.owned;
        heap = record heap { slices = m.cells };
      },
      r,
    )

unfoldable pub apply_users : Operation → List GoString → Editor → Edited
unfolding apply_map
apply_users op segments e =
    with_users e (apply_map as_string_map as_text op segments (users_field e))

unfoldable pub apply_groups : Operation → List GoString → Editor → Edited
unfolding apply_map
apply_groups op segments e =
    with_groups e (apply_map as_slice_map as_slice op segments (groups_field e))

unfoldable pub apply_pages : Operation → List GoString → Editor → Edited
unfolding apply_map
apply_pages op segments e =
    with_pages e (apply_map as_string_map as_text op segments (pages_field e))

unfoldable pub apply_route : Operation → List GoString → Editor → Edited
unfolding apply_map apply_whole
apply_route op [] e = with_route e (apply_whole as_route op.kind op.value (route_field e))
apply_route op (field ∷ segments) e =
    if not (field == bytes "Allow")
    then (e, err unknown_field)
    else with_route e (apply_map as_slice_map as_slice op segments (route_field e))

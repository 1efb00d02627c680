-- ===== src/Conf/Editor/Services.antt =====
-- applyServices, applyServiceField and applyParams.
pub mod Safe
pub mod Fields
use arupa.Base.{
  Bool, true, false, not, ◌&&◌, List, [], ◌∷◌, Option, none, some, GoString, string_eq,
}
use arupa.Base.{◌==◌, if◌then◌else◌, is_empty}
use arupa.Base.Dict.{Dict, lookup, insert, erase}
use arupa.Base.Result.{Result, ok, err}
use arupa.Strings.{bytes}
use arupa.Conf.Types.{Slice}
use arupa.Conf.Heap.{
  Ref, Cells, Heap, ServiceCell, zero_service, read_ref, write_ref, alloc, clone_map, clone_service,
  clone_entries, mark_all,
}
use arupa.Conf.Editor.Request.{
  Value, OperationType, Operation, EditError, unknown_field, scalar_field, key_required,
  whole_array, wrong_type, unknown_operation, as_text, as_string_map, as_service_map, as_slice,
  as_service,
}
use arupa.Conf.Editor.Maps.{Field, is_none, is_remove, ensure, apply_map}
use arupa.Conf.Editor.{Editor, ConfigCell, Edited, apply_scalar, apply_string}

-- The services as the editor has them now.
abbrev pub services_now : Editor → Dict GoString ServiceCell
services_now e = read_ref e.next.services e.heap.services

abbrev pub services_field : Editor → Field ServiceCell
services_field e = record {
  ref = e.next.services;
  owned = e.services_owned;
  cells = e.heap.services;
}

abbrev pub with_services : Editor → Field ServiceCell → Editor
with_services e m =
    let next = e.next in
    let heap = e.heap in
    record e {
      next = record next { services = m.ref };
      services_owned = m.owned;
      heap = record heap { services = m.cells };
    }

-- `ensureServices`: the map is copied, its services and their parameters are shared.
unfoldable pub ensure_services : Editor → Editor
unfolding ensure
ensure_services e = with_services e (ensure (services_field e))

-- A change of the services' map, in place.
unfoldable pub write_services :
    (Dict GoString ServiceCell → Dict GoString ServiceCell) → Editor → Editor
write_services f e =
    let heap = e.heap in
    record e { heap = record heap { services = write_ref e.next.services f e.heap.services } }

-- The map is replaced by a deep copy of another.
unfoldable pub replace_services : Ref → Editor → Editor
replace_services source e =
    let heap = e.heap in
    let next = e.next in
    elim source [
      | none ↦ record e {
        next = record next { services = none };
        services_owned = true;
        params_owned = [];
      }
      | some a ↦
          let copied = clone_entries (read_ref (some a) e.heap.services) e.heap.strings in
          let (ref, cells) = alloc copied.0 e.heap.services in
          record e {
            next = record next { services = ref };
            services_owned = true;
            params_owned = mark_all copied.0;
            heap = record heap { strings = copied.1; services = cells };
          }
    ]

unfoldable pub apply_all_services : OperationType → Value → Editor → Edited
unfolding replace_services clone_entries mark_all
apply_all_services OperationType.set value e = elim (as_service_map value) [
  | none ↦ (e, err wrong_type)
  | some source ↦ (replace_services source e, ok tt)
]
apply_all_services OperationType.remove value e =
    let next = e.next in
    (
      record e { next = record next { services = none }; services_owned = true; params_owned = [] },
      ok tt,
    )
apply_all_services (OperationType.unknown n) value e = (e, err (unknown_operation n))

-- A service with parameters of its own, in the editor's map.
unfoldable pub put_service : GoString → ServiceCell → Editor → Editor
unfolding write_services
put_service name service e =
    let heap = e.heap in
    let (copy, cells) = clone_service service e.heap.strings in
    let after = write_services (insert name copy) e in
    let heap = after.heap in
    record after {
      heap = record heap { strings = cells };
      params_owned = insert name true e.params_owned;
    }

unfoldable pub drop_service : GoString → Editor → Editor
unfolding write_services
drop_service name e =
    let after = write_services (erase name) e in
    record after { params_owned = erase name e.params_owned }

unfoldable pub apply_service : OperationType → Value → GoString → Editor → Edited
unfolding put_service drop_service ensure_services
apply_service OperationType.set value name e = elim (as_service value) [
  | none ↦ (ensure_services e, err wrong_type)
  | some service ↦ (put_service name service (ensure_services e), ok tt)
]
apply_service OperationType.remove value name e =
    if is_none (lookup name (services_now e))
    then (e, ok tt)
    else (drop_service name (ensure_services e), ok tt)
apply_service (OperationType.unknown n) value name e =
    (ensure_services e, err (unknown_operation n))

-- `paramsOwned[name]`
abbrev pub owns_params : GoString → Editor → Bool
owns_params name e = elim (lookup name e.params_owned) [ none ↦ false | some b ↦ b ]

abbrev pub params_field : GoString → ServiceCell → Editor → Field GoString
params_field name service e = record {
  ref = service.params;
  owned = owns_params name e;
  cells = e.heap.strings;
}

-- What the change of a field gives: the editor, and the service unless it failed.
abbrev pub Changed : Type 0
Changed = Editor × Result EditError ServiceCell

-- `applyParams`: a removal of a key that is missing leaves `paramsOwned` alone.
abbrev pub with_params :
    GoString → ServiceCell → Editor → Field GoString × Result EditError (Unit {0}) → Changed
with_params name service e (m, r) =
    let heap = e.heap in
    (
      record e {
        heap = record heap { strings = m.cells };
        params_owned = if m.owned then insert name true e.params_owned else e.params_owned;
      },
      elim r [ err x ↦ err x | ok _ ↦ ok (record service { params = m.ref }) ],
    )

unfoldable pub apply_params : Operation → List GoString → GoString → ServiceCell → Editor → Changed
unfolding apply_map
apply_params op segments name service e =
    with_params name service e
      (apply_map as_string_map as_text op segments (params_field name service e))

-- `Allow`, which is replaced as a whole.
unfoldable pub apply_allow : Operation → List GoString → Result EditError Slice
unfolding apply_scalar
apply_allow op (_ ∷ []) = apply_scalar as_slice none op.kind op.value
apply_allow op _ = err whole_array

abbrev pub changed_text : Editor → (GoString → ServiceCell) → Result EditError GoString → Changed
changed_text e f (ok s) = (e, ok (f s))
changed_text e f (err x) = (e, err x)

abbrev pub changed_slice : Editor → (Slice → ServiceCell) → Result EditError Slice → Changed
changed_slice e f (ok s) = (e, ok (f s))
changed_slice e f (err x) = (e, err x)

-- The switch over the field; its path begins with the field's name.
unfoldable pub change_field :
    Operation → GoString → List GoString → GoString → ServiceCell → Editor → Changed
unfolding apply_string apply_params apply_allow
change_field op field rest name service e =
    if field == bytes "Restart"
    then changed_text e (λ s. record service { restart = s }) (apply_string op (field ∷ rest))
    else if field == bytes "RunAsUser"
    then changed_text e (λ s. record service { run_as_user = s }) (apply_string op (field ∷ rest))
    else if field == bytes "Checksum"
    then changed_text e (λ s. record service { checksum = s }) (apply_string op (field ∷ rest))
    else if field == bytes "Allow"
    then changed_slice e (λ s. record service { allow = s }) (apply_allow op (field ∷ rest))
    else if field == bytes "Params"
    then apply_params op rest name service e
    else (e, err unknown_field)

-- The service that is to be changed, zero where there is none.
abbrev pub service_at : GoString → Editor → ServiceCell
service_at name e = elim (lookup name (services_now e)) [ none ↦ zero_service | some s ↦ s ]

abbrev pub stored : GoString → Changed → Edited
stored name (e, ok service) =
    let heap = e.heap in
    (
      record e {
        heap = record heap {
          services = write_ref e.next.services (insert name service) e.heap.services;
        };
      },
      ok tt,
    )
stored name (e, err x) = (e, err x)

unfoldable pub apply_service_field :
    Operation → GoString → List GoString → GoString → Editor → Edited
unfolding change_field ensure_services
apply_service_field op field rest name e =
    if is_remove op.kind && is_none (lookup name (services_now e))
    then (e, ok tt)
    else stored name
        (change_field op field rest name (service_at name (ensure_services e)) (ensure_services e))

unfoldable pub apply_services : Operation → List GoString → Editor → Edited
unfolding apply_all_services apply_service apply_service_field
apply_services op [] e = apply_all_services op.kind op.value e
apply_services op (name ∷ segments) e =
    if is_empty name then (e, err key_required) else elim segments [
      | [] ↦ apply_service op.kind op.value name e
      | field ∷ rest ↦ apply_service_field op field rest name e
    ]

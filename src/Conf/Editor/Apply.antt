-- ===== src/Conf/Editor/Apply.antt =====
-- The dispatch over the first segment of a path, and the loop over the operations.
pub mod Safe
use arupa.Base.{Bool, true, false, ◌&&◌, List, [], ◌∷◌, Option, none, some, GoString, string_eq}
use arupa.Base.{◌==◌, if◌then◌else◌, is_empty}
use arupa.Base.Result.{Result, ok, err}
use arupa.Strings.{bytes}
use arupa.Conf.Pointer.{PointerError, parse_pointer}
use arupa.Conf.Editor.Request.{
  Value, Operation, OperationType, EditError, root_update, unknown_field, is_nil,
}
use arupa.Conf.Editor.{
  Editor, Edited, store, apply_string, apply_bool, apply_api, apply_log, apply_users, apply_groups,
  apply_route, apply_pages,
}
use arupa.Conf.Editor.Services.{apply_services}

unfoldable pub apply_field : GoString → Operation → List GoString → Editor → Edited
unfolding apply_string apply_bool apply_api apply_log apply_users apply_groups apply_route
    apply_services apply_pages
apply_field field op rest e =
    let next = e.next in
    if field == bytes "Listen"
    then store (λ s. record next { listen = s }) e (apply_string op (field ∷ rest))
    else if field == bytes "TLS"
    then store (λ b. record next { tls = b }) e (apply_bool op (field ∷ rest))
    else if field == bytes "Log"
    then apply_log op rest e
    else if field == bytes "API"
    then apply_api op rest e
    else if field == bytes "Users"
    then apply_users op rest e
    else if field == bytes "Groups"
    then apply_groups op rest e
    else if field == bytes "Route"
    then apply_route op rest e
    else if field == bytes "ServiceDir"
    then store (λ s. record next { service_dir = s }) e (apply_string op (field ∷ rest))
    else if field == bytes "ServiceTempDir"
    then store (λ s. record next { service_temp_dir = s }) e (apply_string op (field ∷ rest))
    else if field == bytes "Services"
    then apply_services op rest e
    else if field == bytes "Pages"
    then apply_pages op rest e
    else (e, err unknown_field)

unfoldable pub apply : Operation → List GoString → Editor → Edited
unfolding apply_field
apply op [] e = (e, err root_update)
apply op (field ∷ rest) e =
    if is_empty field then (e, err root_update) else apply_field field op rest e

abbrev is_set : OperationType → Bool
is_set OperationType.set = true
is_set _ = false

pub data UpdateError : Type 0 where
  nil_value document_failed : UpdateError
  bad_path : PointerError → UpdateError
  edit_failed : EditError → UpdateError

-- `operation.Type == OperationSet && isNil(operation.Value)`
set_to_nil : Operation → Bool
set_to_nil op = is_set op.kind && is_nil op.value

-- The loop of `Update`; `edit_document` is what it does to the document of the file beside.
unfoldable pub apply_operations :
    {D : Type 0}
    → (Operation → List GoString → D → Option D)
    → List Operation
    → D
    → Editor
    → Editor × Result UpdateError D
unfolding apply set_to_nil
apply_operations edit_document [] document e = (e, ok document)
apply_operations edit_document (op ∷ operations) document e = elim (set_to_nil op) [
  | true ↦ (e, err nil_value)
  | false ↦ elim (parse_pointer op.path) [
    | err x ↦ (e, err (bad_path x))
    | ok segments ↦ elim (apply op segments e).1 [
      | err x ↦ ((apply op segments e).0, err (edit_failed x))
      | ok _ ↦ elim (edit_document op segments document) [
        | none ↦ ((apply op segments e).0, err document_failed)
        | some document' ↦
            apply_operations edit_document operations document' (apply op segments e).0
      ]
    ]
  ]
]

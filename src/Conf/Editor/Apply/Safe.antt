-- ===== src/Conf/Editor/Apply/Safe.antt =====
-- Whole operations and lists of them, and the memory that was there before.
use arupa.Base.{ℕ, ◌≡◌, ◌<◌, inl, inr, refl, ap, ◌∙◌, Bool, true, false, List, [], ◌∷◌}
use arupa.Base.{
  zero, suc, none, some, Option, GoString, string_eq, ◌==◌, Bool-cases, ◌++◌, length, arith,
}
use arupa.Base.{is_empty, if◌then◌else◌}
use arupa.Base.Result.{Result, ok, err}
use arupa.Strings.{bytes}
use arupa.Conf.Pointer.{PointerError, parse_pointer}
use arupa.Conf.Heap.{Cells, Heap, read_cell}
use arupa.Conf.Heap.Extends.{Extends}
use arupa.Conf.Editor.Request.{Operation, EditError, unknown_field}
use arupa.Conf.Editor.{
  ConfigCell, Editor, Edited, new_editor, store, apply_string, apply_bool, apply_api, apply_log,
  apply_users, apply_groups, apply_route, apply_pages,
}
use arupa.Conf.Editor.Safe.{
  Framed, Safe, Leaves, new_editor-Safe, apply_users-Leaves, apply_groups-Leaves,
  apply_pages-Leaves, apply_route-Leaves, unchanged-Leaves,
}
use arupa.Conf.Editor.Services.{apply_services, apply_service, apply_service_field}
use arupa.Conf.Editor.Services.Safe.{apply_all_services-Leaves, apply_service-Leaves}
use arupa.Conf.Editor.Services.Fields.{apply_service_field-Leaves}
use arupa.Conf.Editor.Apply.{apply_field, apply, UpdateError, set_to_nil, apply_operations}

-- What holds of each field's operation holds of the dispatch.
choose : (P : Edited → Type 0) (b : Bool) (x y : Edited) → P x → P y → P (if b then x else y)
choose P true x y p q = p
choose P false x y p q = q

apply_field-elim :
    (P : Edited → Type 0) (field : GoString) (op : Operation) (rest : List GoString) (e : Editor)
    → (let next = e.next in
        let r = apply_string op (field ∷ rest) in
        P (store (λ s. record next { listen = s }) e r)
        → P (store (λ b. record next { tls = b }) e (apply_bool op (field ∷ rest)))
        → P (apply_log op rest e)
        → P (apply_api op rest e)
        → P (apply_users op rest e)
        → P (apply_groups op rest e)
        → P (apply_route op rest e)
        → P (store (λ s. record next { service_dir = s }) e r)
        → P (store (λ s. record next { service_temp_dir = s }) e r)
        → P (apply_services op rest e)
        → P (apply_pages op rest e)
        → P (e, err unknown_field)
        → P (apply_field field op rest e))
unfolding apply_field
apply_field-elim P field op rest e listen tls log api users groups route dir temp services pages
      other =
    choose P (field == bytes "Listen") _ _ listen (
      choose P (field == bytes "TLS") _ _ tls (
        choose P (field == bytes "Log") _ _ log (
          choose P (field == bytes "API") _ _ api (
            choose P (field == bytes "Users") _ _ users (
              choose P (field == bytes "Groups") _ _ groups (
                choose P (field == bytes "Route") _ _ route (
                  choose P (field == bytes "ServiceDir") _ _ dir (
                    choose P (field == bytes "ServiceTempDir") _ _ temp (
                      choose P (field == bytes "Services") _ _ services
                        (choose P (field == bytes "Pages") _ _ pages other))))))))))

module _ (base : Heap) (e : Editor) (s : Safe base e) where
  -- A new value in a field that is no map.
  store-Leaves :
      {A : Type 0} (f : A → ConfigCell)
      → ((a : A) → Leaves base (record e { next = f a }, ok tt))
      → (r : Result EditError A) → Leaves base (store f e r)
  store-Leaves f same (ok a) = same a
  store-Leaves f same (err x) = unchanged-Leaves base e s (err x)

  apply_services-Leaves :
      (op : Operation) (segments : List GoString) → Leaves base (apply_services op segments e)
  unfolding apply_services
  apply_services-Leaves op [] = apply_all_services-Leaves base e s op.kind op.value
  apply_services-Leaves op (name ∷ segments) = elim (Bool-cases (is_empty name)) [
    | inl t ↦ rw (t, apply_services) (unchanged-Leaves base e s _)
    | inr f ↦ rw (f, apply_services) (inner segments)
  ]
    where
      inner :
          (segments : List GoString)
          → Leaves base (elim segments as (λ _. Edited) [
            | [] ↦ apply_service op.kind op.value name e
            | field ∷ rest ↦ apply_service_field op field rest name e
          ])
      inner [] = apply_service-Leaves base e s op.kind op.value name
      inner (field ∷ rest) = apply_service_field-Leaves base e s op field rest name

  apply_log-Leaves :
      (op : Operation) (segments : List GoString) → Leaves base (apply_log op segments e)
  unfolding apply_log
  apply_log-Leaves op segments = store-Leaves _ (λ a. (s.0, λ _. s.1)) _

  apply_api-Leaves :
      (op : Operation) (segments : List GoString) → Leaves base (apply_api op segments e)
  unfolding apply_api
  apply_api-Leaves op segments = store-Leaves _ (λ a. (s.0, λ _. s.1)) _

  apply_field-Leaves :
      (field : GoString) (op : Operation) (rest : List GoString)
      → Leaves base (apply_field field op rest e)
  apply_field-Leaves field op rest =
      apply_field-elim (Leaves base) field op rest e (store-Leaves _ (λ a. (s.0, λ _. s.1)) _)
        (store-Leaves _ (λ a. (s.0, λ _. s.1)) _) (apply_log-Leaves op rest)
        (apply_api-Leaves op rest) (apply_users-Leaves base e s op rest)
        (apply_groups-Leaves base e s op rest) (apply_route-Leaves base e s op rest)
        (store-Leaves _ (λ a. (s.0, λ _. s.1)) _) (store-Leaves _ (λ a. (s.0, λ _. s.1)) _)
        (apply_services-Leaves op rest) (apply_pages-Leaves base e s op rest)
        (unchanged-Leaves base e s _)

  apply-Leaves : (op : Operation) (segments : List GoString) → Leaves base (apply op segments e)
  unfolding apply
  apply-Leaves op [] = unchanged-Leaves base e s _
  apply-Leaves op (field ∷ rest) = elim (Bool-cases (is_empty field)) [
    | inl t ↦ rw (t, apply) (unchanged-Leaves base e s _)
    | inr f ↦ rw (f, apply) (apply_field-Leaves field op rest)
  ]

module _ (base : Heap) {D : Type 0} (edit_document : Operation → List GoString → D → Option D) where
  abbrev Outcome : Type 0
  Outcome = Editor × Result UpdateError D

  module _ (op : Operation) (later : D → Editor → Outcome) (document : D)
      (keeps : (d : D) (e : Editor) → Safe base e → Framed base (later d e).0) where
    by_document :
        (x : Option D) (e : Editor)
        → Safe base e
        → Framed base
            (elim x as (λ _. Outcome) [
              | none ↦ (e, err UpdateError.document_failed)
              | some document' ↦ later document' e
            ]).0
    by_document none e s = s.0
    by_document (some d) e s = keeps d e s

    by_edit :
        (segments : List GoString) (x : Edited)
        → Leaves base x
        → Framed base
            (elim x.1 as (λ _. Outcome) [
              | err y ↦ (x.0, err (UpdateError.edit_failed y))
              | ok _ ↦ elim (edit_document op segments document) as (λ _. Outcome) [
                | none ↦ (x.0, err UpdateError.document_failed)
                | some document' ↦ later document' x.0
              ]
            ]).0
    by_edit segments (e, err y) l = l.0
    by_edit segments (e, ok _) l = by_document _ e (l.0, l.1 refl)

    by_path :
        (x : Result PointerError (List GoString)) (e : Editor)
        → Safe base e
        → Framed base
            (elim x as (λ _. Outcome) [
              | err y ↦ (e, err (UpdateError.bad_path y))
              | ok segments ↦ elim (apply op segments e).1 as (λ _. Outcome) [
                | err y ↦ ((apply op segments e).0, err (UpdateError.edit_failed y))
                | ok _ ↦ elim (edit_document op segments document) as (λ _. Outcome) [
                  | none ↦ ((apply op segments e).0, err UpdateError.document_failed)
                  | some document' ↦ later document' (apply op segments e).0
                ]
              ]
            ]).0
    by_path (err y) e s = s.0
    by_path (ok segments) e s =
        by_edit segments (apply op segments e) (apply-Leaves base e s op segments)

  pub apply_operations-Framed :
      (operations : List Operation) (document : D) (e : Editor)
      → Safe base e
      → Framed base (apply_operations edit_document operations document e).0
  unfolding apply_operations
  apply_operations-Framed [] document e s = s.0
  apply_operations-Framed (op ∷ operations) document e s = elim (Bool-cases (set_to_nil op)) [
    | inl t ↦ rw (t, apply_operations) s.0
    | inr f ↦
        rw (f, apply_operations)
          (by_path op (apply_operations edit_document operations) document
            (apply_operations-Framed operations) (parse_pointer op.path) e s)
  ]

read_cell-append :
    {V : Type 0} (base added : Cells V) (a : ℕ)
    → a < length base
    → read_cell a (base ++ added) ≡ read_cell a base
unfolding read_cell
read_cell-append [] added a h = absurd (omega arith)
read_cell-append (d ∷ base) added zero h = refl
read_cell-append (d ∷ base) added (suc a) h = read_cell-append base added a (omega arith)

pub read_cell-Extends :
    {V : Type 0} (base cells : Cells V) (a : ℕ)
    → Extends base cells
    → a < length base
    → read_cell a cells ≡ read_cell a base
read_cell-Extends base cells a (added, q) h =
    ap (λ c. read_cell a c) q ∙ read_cell-append base added a h

-- A map that was in memory before an update is read as before after it, whatever the operations
-- are, however many there are, and also if one of them fails, whatever the document gives.
pub apply_operations-shared :
    {D : Type 0} (edit_document : Operation → List GoString → D → Option D)
    (operations : List Operation) (document : D) (current : ConfigCell) (heap : Heap)
    → (let after =
          (apply_operations edit_document operations document (new_editor current heap)).0.heap in
        ((a : ℕ) → a < length heap.strings → read_cell a after.strings ≡ read_cell a heap.strings)
        × ((a : ℕ) → a < length heap.slices → read_cell a after.slices ≡ read_cell a heap.slices)
        × ((a : ℕ)
            → a < length heap.services
            → read_cell a after.services ≡ read_cell a heap.services))
apply_operations-shared edit_document operations document current heap =
    let f =
      apply_operations-Framed heap edit_document operations document (new_editor current heap)
        (new_editor-Safe current heap) in
    (
      λ a h. read_cell-Extends heap.strings _ a f.users_safe.extends h,
      λ a h. read_cell-Extends heap.slices _ a f.groups_safe.extends h,
      λ a h. read_cell-Extends heap.services _ a f.services_safe.extends h,
    )

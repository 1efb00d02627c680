-- ===== src/Conf/Store/Memory.antt =====
-- The maps in memory during an update: readers of the published configuration keep what they see.
use mathlib.Core.List.{append_assoc}
use arupa.Base.{
  ℕ, ◌≡◌, ◌<◌, inl, inr, refl, sym, ap, ◌∙◌, subst, Bool, true, false, List, [], ◌∷◌, ◌++◌,
}
use arupa.Base.{
  none, some, GoString, string_eq, ◌==◌, if◌then◌else◌, Bool-cases, Option-cases, length,
}
use arupa.Base.Dict.{Dict}
use arupa.Base.Result.{Result-cases}
use arupa.Conf.Types.{Config, GoMap, Service, entries}
use arupa.Conf.Validate.{validate_config}
use arupa.Conf.Heap.{Cells, Heap, read_cell}
use arupa.Conf.Heap.Extends.{Extends, Extends-refl, alloc-Extends}
use arupa.Conf.Editor.{ConfigCell, new_editor}
use arupa.Conf.Editor.Safe.{new_editor-Safe}
use arupa.Conf.Editor.Request.{Operation}
use arupa.Conf.Editor.Apply.{apply_operations}
use arupa.Conf.Editor.Apply.Safe.{apply_operations-Framed, read_cell-Extends}
use arupa.Conf.Store.Equal.{deep_equal}
use arupa.Conf.Store.{
  Disk, Library, ConfigState, publish, read_config, decode_config, commit, base_of, edit_and_commit,
  update,
}
use arupa.Conf.Store.Place.{config_at, place_map, place_services, place}

-- All maps of a memory are in another, as they were.
abbrev pub Grows : Heap → Heap → Type 0
Grows old new =
    Extends old.strings new.strings
    × Extends old.slices new.slices
    × Extends old.services new.services

pub Extends-trans : {V : Type 0} (a b c : Cells V) → Extends a b → Extends b c → Extends a c
Extends-trans a b c (x, p) (y, q) = (x ++ y, q ∙ ap (λ d. d ++ y) p ∙ append_assoc a x y)

Grows-trans : (a b c : Heap) → Grows a b → Grows b c → Grows a c
Grows-trans a b c (s, l, t) (s', l', t') = (
  Extends-trans a.strings b.strings c.strings s s',
  Extends-trans a.slices b.slices c.slices l l',
  Extends-trans a.services b.services c.services t t',
)

pub Grows-refl : (a : Heap) → Grows a a
Grows-refl a = (Extends-refl a.strings, Extends-refl a.slices, Extends-refl a.services)

pub place_map-Extends :
    {V : Type 0} (base cells : Cells V) (m : GoMap V)
    → Extends base cells
    → Extends base (place_map m cells).1
place_map-Extends base cells none x = x
place_map-Extends base cells (some d) x = alloc-Extends base cells d x

pub place_services-Extends :
    (base cells : Cells GoString) (services : Dict GoString Service)
    → Extends base cells
    → Extends base (place_services services cells).1
unfolding place_services
place_services-Extends base cells [] x = x
place_services-Extends base cells ((name, s) ∷ services) x =
    place_services-Extends base (place_map s.params cells).1 services
      (place_map-Extends base cells s.params x)

place-Grows : (c : Config) (heap : Heap) → Grows heap (place c heap).1
unfolding place
place-Grows c heap =
    let users = place_map-Extends heap.strings heap.strings c.users (Extends-refl heap.strings) in
    let pages = place_map-Extends heap.strings (place_map c.users heap.strings).1 c.pages users in
    let groups = place_map-Extends heap.slices heap.slices c.groups (Extends-refl heap.slices) in
    (
      place_services-Extends heap.strings _ (entries c.services) pages,
      place_map-Extends heap.slices (place_map c.groups heap.slices).1 c.route_allow groups,
      place_map-Extends heap.services heap.services _ (Extends-refl heap.services),
    )

module _ {D : Type 0} (lib : Library D) where
  commit-heap :
      (source : GoString) (next : ConfigCell) (document : D) (disk : Disk) (s : ConfigState)
      → (commit lib source next document disk s).0.heap ≡ s.heap
  unfolding commit publish
  commit-heap source next document disk s =
      elim (Result-cases (validate_config (config_at next s.heap))) [
        | inl (e, q) ↦ rw (commit, q) refl
        | inr (_, q) ↦ elim (Result-cases (decode_config lib (lib.document_bytes document))) [
          | inl (e, d) ↦ rw (commit, q, d) refl
          | inr (decoded, d) ↦ elim (Bool-cases (deep_equal (config_at next s.heap) decoded)) [
            | inr f ↦ rw (commit, q, d, f) refl
            | inl t ↦ elim (Bool-cases (source == lib.document_bytes document)) [
              | inl b ↦ rw (commit, q, d, t, b) (published _)
              | inr b ↦
                  elim (Option-cases (lib.replace_file s.path (lib.document_bytes document) disk)) [
                    | inl w ↦ rw (commit, q, d, t, b, w) refl
                    | inr (disk', w) ↦ rw (commit, q, d, t, b, w) (published _)
                  ]
            ]
          ]
        ]
      ]
    where
      published : (b : Bool) → (if b then s else publish next s).heap ≡ s.heap
      published true = refl
      published false = refl

  edit_and_commit-Grows :
      (source : GoString) (disk_config : Config) (document : D) (operations : List Operation)
      (disk : Disk) (s : ConfigState)
      → Grows s.heap (edit_and_commit lib source disk_config document operations disk s).0.heap
  unfolding edit_and_commit base_of
  edit_and_commit-Grows source disk_config document operations disk s =
      let base = base_of lib disk_config s in
      let x = apply_operations lib.edit_document operations document (new_editor base.0 base.1) in
      let f =
        apply_operations-Framed base.1 lib.edit_document operations document
          (new_editor base.0 base.1) (new_editor-Safe base.0 base.1) in
      let grows : Grows s.heap x.0.heap =
        Grows-trans s.heap base.1 x.0.heap (place-Grows disk_config s.heap)
          (f.users_safe.extends, f.groups_safe.extends, f.services_safe.extends) in
      elim (Result-cases x.1) [
        | inl (e, q) ↦ rw (edit_and_commit, q) grows
        | inr (document', q) ↦
            rw (edit_and_commit, q)
              (subst (λ h. Grows s.heap h)
                (sym (commit-heap source x.0.next document' disk (record s { heap = x.0.heap })))
                grows)
      ]

  update-Grows :
      (operations : List Operation) (disk : Disk) (s : ConfigState)
      → Grows s.heap (update lib operations disk s).0.heap
  unfolding update
  update-Grows operations disk s = elim (Result-cases (read_config s.path disk)) [
    | inl (e, q) ↦ rw (update, q) (Grows-refl s.heap)
    | inr (source, q) ↦ elim (Result-cases (decode_config lib source)) [
      | inl (e, d) ↦ rw (update, q, d) (Grows-refl s.heap)
      | inr (disk_config, d) ↦ elim (Option-cases (lib.parse_document source)) [
        | inl p ↦ rw (update, q, d, p) (Grows-refl s.heap)
        | inr (document, p) ↦
            rw (update, q, d, p)
              (edit_and_commit-Grows source disk_config document operations disk s)
      ]
    ]
  ]

  -- A map that was in memory before an update, and so everything that is read of the configuration
  -- that was published before it, reads the same after the update, whether it succeeds or fails.
  pub update-memory :
      (operations : List Operation) (disk : Disk) (s : ConfigState)
      → (let after = (update lib operations disk s).0.heap in
          ((a : ℕ)
            → a < length s.heap.strings
            → read_cell a after.strings ≡ read_cell a s.heap.strings)
          × ((a : ℕ)
              → a < length s.heap.slices
              → read_cell a after.slices ≡ read_cell a s.heap.slices)
          × ((a : ℕ)
              → a < length s.heap.services
              → read_cell a after.services ≡ read_cell a s.heap.services))
  update-memory operations disk s =
      let (strings, slices, services) = update-Grows operations disk s in
      (
        λ a h. read_cell-Extends s.heap.strings _ a strings h,
        λ a h. read_cell-Extends s.heap.slices _ a slices h,
        λ a h. read_cell-Extends s.heap.services _ a services h,
      )

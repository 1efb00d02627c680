-- ===== src/Conf/Store.antt =====
-- internal/conf/conf.go and update.go: the configuration file, the configuration that is published
-- in memory, and the transaction of Update over both.
pub mod Equal
pub mod Place
pub mod Atomic
pub mod Memory
pub mod Load
pub mod Reads
use arupa.Base.{
  Bool, true, false, not, ◌&&◌, List, [], ◌∷◌, ◌++◌, Option, none, some, GoString, string_eq,
}
use arupa.Base.{◌==◌, if◌then◌else◌, is_empty, length}
use arupa.Base.Dict.{Dict}
use arupa.Base.Result.{Result, ok, err, ◌>>=◌}
use arupa.Strings.{trim_space}
use arupa.Conf.Types.{Config, no_config, GoMap, Slice, Service, entries}
use arupa.Conf.Keys.{validate_toml_keys}
use arupa.Conf.Validate.{ConfigError, validate_config}
use arupa.Conf.Groups.{index_groups_by_user}
use arupa.Conf.Heap.{Ref, Cells, Heap, ServiceCell, read_cell, alloc}
use arupa.Conf.Editor.{ConfigCell, Editor, new_editor}
use arupa.Conf.Editor.Request.{Operation}
use arupa.Conf.Editor.Apply.{UpdateError, apply_operations}
use arupa.Conf.Store.Equal.{deep_equal}
use arupa.Conf.Store.Place.{place, map_at, config_at}

-- What the path of a file leads to.
pub data File : Type 0 where
  missing unreadable : File
  content : GoString → File

abbrev pub Disk : Type 0
Disk = GoString → File

-- What the TOML decoder gives beside an error: the configuration, all keys, and those that it has
-- no field for.
pub record Decoded : Type 0 where
  pub config : Config
  pub keys : List (List GoString)
  pub undecoded : List (List GoString)

-- What an attempt to create a file gives: the new file, closed or not, a file that someone else
-- has created meanwhile, or nothing.
pub data Creation : Type 0 where
  created unclosed raced : Disk → Creation
  uncreated : Creation

-- The TOML decoder, the document that is edited (toml_document.go) and what is done with files.
pub record Library (D : Type 0) : Type 0 where
  pub decode : GoString → Option Decoded
  pub parse_document : GoString → Option D
  pub edit_document : Operation → List GoString → D → Option D
  pub document_bytes : D → GoString
  pub stat_fails : (path : GoString) → Disk → Bool  -- other than for a missing file
  pub create_file : (path : GoString) → Disk → Creation
  pub replace_file : (path source : GoString) → Disk → Option Disk

pub data StoreError : Type 0 where
  path_not_set file_missing file_unreadable bad_document unknown_field : StoreError
  mismatch not_replaced not_created not_closed no_stat : StoreError
  invalid : ConfigError → StoreError
  edit : UpdateError → StoreError

-- `configState`, and the memory.
pub record ConfigState : Type 0 where
  pub path : GoString
  pub current : ConfigCell
  pub groups_by_user : Dict GoString (List GoString)
  pub heap : Heap

-- `publishLocked`
unfoldable pub publish : ConfigCell → ConfigState → ConfigState
unfolding index_groups_by_user
publish next s = record s {
  current = next;
  groups_by_user = index_groups_by_user (map_at next.groups s.heap.slices);
}

-- `readConfigLocked`
unfoldable pub read_config : GoString → Disk → Result StoreError GoString
read_config path disk =
    if is_empty (trim_space path) then err StoreError.path_not_set else elim (disk path) [
      | File.missing ↦ err StoreError.file_missing
      | File.unreadable ↦ err StoreError.file_unreadable
      | File.content source ↦ ok source
    ]

module _ {D : Type 0} (lib : Library D) where
  unfoldable pub decode_config : GoString → Result StoreError Config
  decode_config source = elim (lib.decode source) [
    | none ↦ err StoreError.bad_document
    | some d ↦
        if not (validate_toml_keys d.keys)
        then err StoreError.unknown_field
        else if not (is_empty d.undecoded)
        then err StoreError.unknown_field
        else elim (validate_config d.config) [
          | err e ↦ err (StoreError.invalid e)
          | ok _ ↦ ok d.config
        ]
  ]

  -- `reloadLocked`
  unfoldable pub reload : Disk → ConfigState → ConfigState × Result StoreError (Unit {0})
  unfolding read_config decode_config publish place
  reload disk s = elim (read_config s.path disk >>= λ source. decode_config source) [
    | err e ↦ (s, err e)
    | ok next ↦
        let (cell, heap) = place next s.heap in (publish cell (record s { heap = heap }), ok tt)
  ]

  -- A reload from another path, which is kept if it succeeds.
  unfoldable pub reload_from :
      GoString → Disk → ConfigState → ConfigState × Disk × Result StoreError (Unit {0})
  unfolding reload
  reload_from path disk s =
      let (s', r) = reload disk (record s { path = path }) in
      elim r [ ok _ ↦ (s', disk, ok tt) | err e ↦ (record s' { path = s.path }, disk, err e) ]

  -- `LoadConfig`
  unfoldable pub load_config :
      GoString → Disk → ConfigState → ConfigState × Disk × Result StoreError (Unit {0})
  unfolding reload_from publish place
  load_config path disk s =
      if lib.stat_fails path disk then (s, disk, err StoreError.no_stat) else elim (disk path) [
        | File.missing ↦ elim (lib.create_file path disk) [
          | Creation.uncreated ↦ (s, disk, err StoreError.not_created)
          | Creation.raced disk' ↦ reload_from path disk' s
          | Creation.unclosed disk' ↦ (s, disk', err StoreError.not_closed)
          | Creation.created disk' ↦
              let (cell, heap) = place no_config s.heap in
              (publish cell (record s { path = path; heap = heap }), disk', ok tt)
        ]
        | File.unreadable ↦ reload_from path disk s
        | File.content _ ↦ reload_from path disk s
      ]

  -- The edited configuration is checked, written and published; `s` has the editor's memory.
  unfoldable pub commit :
      GoString
      → ConfigCell
      → D
      → Disk
      → ConfigState
      → ConfigState × Disk × Result StoreError (Unit {0})
  unfolding decode_config publish config_at
  commit source next document disk s =
      let persisted = lib.document_bytes document in
      let published =
        if deep_equal (config_at s.current s.heap) (config_at next s.heap)
        then s
        else publish next s in
      elim (validate_config (config_at next s.heap)) [
        | err e ↦ (s, disk, err (StoreError.invalid e))
        | ok _ ↦ elim (decode_config persisted) [
          | err e ↦ (s, disk, err e)
          | ok decoded ↦
              if not (deep_equal (config_at next s.heap) decoded)
              then (s, disk, err StoreError.mismatch)
              else if source == persisted
              then (published, disk, ok tt)
              else elim (lib.replace_file s.path persisted disk) [
                | none ↦ (s, disk, err StoreError.not_replaced)
                | some disk' ↦ (published, disk', ok tt)
              ]
        ]
      ]

  -- The configuration that is edited: the published one, where the file holds the same.
  unfoldable pub base_of : Config → ConfigState → ConfigCell × Heap
  unfolding place config_at
  base_of disk_config s =
      let (cell, heap) = place disk_config s.heap in
      (if deep_equal (config_at s.current s.heap) disk_config then s.current else cell, heap)

  unfoldable pub edit_and_commit :
      GoString
      → Config
      → D
      → List Operation
      → Disk
      → ConfigState
      → ConfigState × Disk × Result StoreError (Unit {0})
  unfolding commit base_of
  edit_and_commit source disk_config document operations disk s =
      let (base, heap) = base_of disk_config s in
      let (e, r) = apply_operations lib.edit_document operations document (new_editor base heap) in
      elim r [
        | err x ↦ (record s { heap = e.heap }, disk, err (StoreError.edit x))
        | ok document' ↦ commit source e.next document' disk (record s { heap = e.heap })
      ]

  unfoldable pub update :
      List Operation → Disk → ConfigState → ConfigState × Disk × Result StoreError (Unit {0})
  unfolding read_config decode_config edit_and_commit
  update operations disk s = elim (read_config s.path disk) [
    | err e ↦ (s, disk, err e)
    | ok source ↦ elim (decode_config source) [
      | err e ↦ (s, disk, err e)
      | ok disk_config ↦ elim (lib.parse_document source) [
        | none ↦ (s, disk, err StoreError.bad_document)
        | some document ↦ edit_and_commit source disk_config document operations disk s
      ]
    ]
  ]

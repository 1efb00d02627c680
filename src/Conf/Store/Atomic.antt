-- ===== src/Conf/Store/Atomic.antt =====
-- Every update as one transaction over the file and the published configuration.
use arupa.Base.{◌≡◌, ◌≢◌, ◌⊎◌, inl, inr, refl, ap, ◌∙◌, true, List, some}
use arupa.Base.{GoString, string_eq, if◌then◌else◌, Bool-cases, ==-cases, Option-cases, is_empty}
use arupa.Base.Result.{Result, ok, err, ok-injective, Result-cases}
use arupa.Strings.{trim_space}
use arupa.Conf.Types.{Config}
use arupa.Conf.Groups.{index_groups_by_user}
use arupa.Conf.Validate.{validate_config}
use arupa.Conf.Heap.{Heap}
use arupa.Conf.Editor.{ConfigCell, new_editor}
use arupa.Conf.Editor.Request.{Operation}
use arupa.Conf.Editor.Apply.{apply_operations}
use arupa.Conf.Store.Equal.{deep_equal}
use arupa.Conf.Store.{
  File, Disk, Library, StoreError, ConfigState, publish, read_config, decode_config, commit,
  base_of, edit_and_commit, update,
}
use arupa.Conf.Store.Place.{config_at, map_at}

-- What is published is as before, and so are the files.
pub record Unchanged (s : ConfigState) (disk : Disk) (s' : ConfigState) (disk' : Disk)
    : Type 0 where
  pub same_path : s'.path ≡ s.path
  pub same_current : s'.current ≡ s.current
  pub same_groups : s'.groups_by_user ≡ s.groups_by_user
  pub same_disk : disk' ≡ disk

-- A configuration is published, with the index of its groups; or the one before is, which is equal.
abbrev pub Publishes : ConfigState → ConfigCell → ConfigState → Type 0
Publishes s next s' =
    ((s'.current ≡ next)
      × (s'.groups_by_user ≡ index_groups_by_user (map_at next.groups s'.heap.slices)))
    ⊎ ((s'.current ≡ s.current)
        × (s'.groups_by_user ≡ s.groups_by_user)
        × (deep_equal (config_at s.current s'.heap) (config_at next s'.heap) ≡ true))

-- The file holds a document that is read as the configuration that is published, and both are valid.
pub record Committed {D : Type 0} (lib : Library D) (s s' : ConfigState) (disk' : Disk)
    : Type 0 where
  pub next : ConfigCell
  pub source : GoString
  pub decoded : Config
  pub same_path : s'.path ≡ s.path
  pub stored : disk' s.path ≡ File.content source
  pub decodes : decode_config lib source ≡ ok decoded
  pub agrees : deep_equal (config_at next s'.heap) decoded ≡ true
  pub valid : validate_config (config_at next s'.heap) ≡ ok tt
  pub publishes : Publishes s next s'

abbrev pub Outcome :
    {D : Type 0}
    → Library D
    → ConfigState
    → Disk
    → ConfigState × Disk × Result StoreError (Unit {0})
    → Type 0
Outcome lib s disk (s', disk', err e) = Unchanged s disk s' disk'
Outcome lib s disk (s', disk', ok _) = Committed lib s s' disk'

pub read_config-content :
    (path : GoString) (disk : Disk) (source : GoString)
    → read_config path disk ≡ ok source
    → disk path ≡ File.content source
unfolding read_config
read_config-content path disk source h = elim (Bool-cases (is_empty (trim_space path))) [
  | inl t ↦ absurd (clash (rw (read_config, t) at h))
  | inr f ↦ by (disk path) (rw (read_config, f) at h)
]
  where
    clash : {e : StoreError} → ◌≢◌ {A = Result StoreError GoString} (err e) (ok source)
    clash q = cc

    by :
        (x : File)
        → ◌≡◌ {A = Result StoreError GoString}
            (elim x as (λ _. Result StoreError GoString) [
              | File.missing ↦ err StoreError.file_missing
              | File.unreadable ↦ err StoreError.file_unreadable
              | File.content s ↦ ok s
            ])
            (ok source)
        → x ≡ File.content source
    by File.missing q = absurd (clash q)
    by File.unreadable q = absurd (clash q)
    by (File.content s) q = ap (λ c. File.content c) (ok-injective q)

module _ {D : Type 0} (lib : Library D)
    (replaces : (path source : GoString) (disk disk' : Disk)
      → lib.replace_file path source disk ≡ some disk'
      → disk' path ≡ File.content source) where
  -- The published configuration after the edit, in the editor's memory.
  published : ConfigCell → ConfigState → ConfigState
  published next s =
      if deep_equal (config_at s.current s.heap) (config_at next s.heap) then s else publish next s

  published-Committed :
      (s : ConfigState) (next : ConfigCell) (source : GoString) (decoded : Config) (disk' : Disk)
      → disk' s.path ≡ File.content source
      → decode_config lib source ≡ ok decoded
      → deep_equal (config_at next s.heap) decoded ≡ true
      → validate_config (config_at next s.heap) ≡ ok tt
      → Committed lib s (published next s) disk'
  unfolding published publish
  published-Committed s next source decoded disk' stored decodes agrees valid =
      elim (Bool-cases (deep_equal (config_at s.current s.heap) (config_at next s.heap))) [
        | inl t ↦
            rw (published, t)
              (record {
                next = next;
                source = source;
                decoded = decoded;
                same_path = refl;
                stored = stored;
                decodes = decodes;
                agrees = agrees;
                valid = valid;
                publishes = inr (refl, refl, t);
              })
        | inr f ↦
            rw (published, f)
              (record {
                next = next;
                source = source;
                decoded = decoded;
                same_path = refl;
                stored = stored;
                decodes = decodes;
                agrees = agrees;
                valid = valid;
                publishes = inl (refl, refl);
              })
      ]

  same : (s : ConfigState) (disk : Disk) → Unchanged s disk s disk
  same s disk = record {
    same_path = refl;
    same_current = refl;
    same_groups = refl;
    same_disk = refl;
  }

  commit-Outcome :
      (source : GoString) (next : ConfigCell) (document : D) (disk : Disk) (s : ConfigState)
      → disk s.path ≡ File.content source
      → Outcome lib s disk (commit lib source next document disk s)
  unfolding commit published
  commit-Outcome source next document disk s stored =
      elim (Result-cases (validate_config (config_at next s.heap))) [
        | inl (e, q) ↦ rw (commit, q) (same s disk)
        | inr (_, q) ↦ elim (Result-cases (decode_config lib (lib.document_bytes document))) [
          | inl (e, d) ↦ rw (commit, q, d) (same s disk)
          | inr (decoded, d) ↦ elim (Bool-cases (deep_equal (config_at next s.heap) decoded)) [
            | inr f ↦ rw (commit, q, d, f) (same s disk)
            | inl t ↦ elim (==-cases source (lib.document_bytes document)) [
              | inl (b, e) ↦
                  rw (commit, q, d, t, b)
                    (published-Committed s next source decoded disk stored
                      (ap (λ w. decode_config lib w) e ∙ d) t q)
              | inr (b, _) ↦
                  elim (Option-cases (lib.replace_file s.path (lib.document_bytes document) disk)) [
                    | inl w ↦ rw (commit, q, d, t, b, w) (same s disk)
                    | inr (disk', w) ↦
                        rw (commit, q, d, t, b, w)
                          (published-Committed s next (lib.document_bytes document) decoded disk'
                            (replaces s.path (lib.document_bytes document) disk disk' w) d t q)
                  ]
            ]
          ]
        ]
      ]

  -- The memory counts in neither.
  grown :
      (s : ConfigState) (heap : Heap) (disk : Disk)
      (x : ConfigState × Disk × Result StoreError (Unit {0}))
      → Outcome lib (record s { heap = heap }) disk x
      → Outcome lib s disk x
  grown s heap disk (s', disk', err e) u = record {
    same_path = u.same_path;
    same_current = u.same_current;
    same_groups = u.same_groups;
    same_disk = u.same_disk;
  }
  grown s heap disk (s', disk', ok _) c = record {
    next = c.next;
    source = c.source;
    decoded = c.decoded;
    same_path = c.same_path;
    stored = c.stored;
    decodes = c.decodes;
    agrees = c.agrees;
    valid = c.valid;
    publishes = c.publishes;
  }

  edit_and_commit-Outcome :
      (source : GoString) (disk_config : Config) (document : D) (operations : List Operation)
      (disk : Disk) (s : ConfigState)
      → disk s.path ≡ File.content source
      → Outcome lib s disk (edit_and_commit lib source disk_config document operations disk s)
  unfolding edit_and_commit
  edit_and_commit-Outcome source disk_config document operations disk s stored =
      let base = base_of lib disk_config s in
      let x = apply_operations lib.edit_document operations document (new_editor base.0 base.1) in
      elim (Result-cases x.1) [
        | inl (e, q) ↦
            rw (edit_and_commit, q)
              (record {
                same_path = refl;
                same_current = refl;
                same_groups = refl;
                same_disk = refl;
              })
        | inr (document', q) ↦
            rw (edit_and_commit, q)
              (grown s x.0.heap disk _ (
                commit-Outcome source x.0.next document' disk (record s { heap = x.0.heap })
                  stored))
      ]

  -- An update either fails, and then the published configuration, its index of groups and the files
  -- are as before; or it succeeds, and then the file holds a document that is read as a valid
  -- configuration, and that configuration is published along with the index of its groups, or is
  -- equal to the published one; where a replaced file holds what it was replaced with.
  pub update-Outcome :
      (operations : List Operation) (disk : Disk) (s : ConfigState)
      → Outcome lib s disk (update lib operations disk s)
  unfolding update
  update-Outcome operations disk s = elim (Result-cases (read_config s.path disk)) [
    | inl (e, q) ↦ rw (update, q) (same s disk)
    | inr (source, q) ↦ elim (Result-cases (decode_config lib source)) [
      | inl (e, d) ↦ rw (update, q, d) (same s disk)
      | inr (disk_config, d) ↦ elim (Option-cases (lib.parse_document source)) [
        | inl p ↦ rw (update, q, d, p) (same s disk)
        | inr (document, p) ↦
            rw (update, q, d, p)
              (edit_and_commit-Outcome source disk_config document operations disk s
                (read_config-content s.path disk source q))
      ]
    ]
  ]

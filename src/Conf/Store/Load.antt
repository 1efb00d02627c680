-- ===== src/Conf/Store/Load.antt =====
-- internal/conf/conf.go: LoadConfig, and what a reload publishes.
use arupa.Base.{◌≢◌, true, false}
use arupa.Base.{◌≡◌, ◌⊎◌, inl, inr, refl, sym, ap, ◌∙◌}
use arupa.Base.{GoString, Bool-cases}
use arupa.Base.Result.{Result, ok, err, ◌>>=◌, bind-ok, Result-cases}
use arupa.Conf.Types.{Config, no_config}
use arupa.Conf.Groups.{index_groups_by_user}
use arupa.Conf.Store.Atomic.{read_config-content}
use arupa.Conf.Store.{
  File, Disk, Library, StoreError, ConfigState, publish, read_config, decode_config, reload,
  reload_from, load_config, Creation,
}
use arupa.Conf.Store.Place.{place, config_at}
use arupa.Conf.Store.Reads.{config_at-place, groups-place}

-- The configuration that a file holds is published, exactly, along with the index of its groups.
abbrev pub Loaded : {D : Type 0} → Library D → Disk → ConfigState → Type 0
Loaded lib disk s =
    (source : GoString) × (next : Config) × (disk s.path ≡ File.content source)
    × (decode_config lib source ≡ ok next)
    × (config_at s.current s.heap ≡ next)
    × (s.groups_by_user ≡ index_groups_by_user next.groups)

-- The empty configuration is published.
abbrev pub Emptied : ConfigState → Type 0
Emptied s =
    (config_at s.current s.heap ≡ no_config)
    × (s.groups_by_user ≡ index_groups_by_user no_config.groups)

-- The file at a path cannot be read as a configuration.
abbrev pub Unloadable : {D : Type 0} → Library D → GoString → Disk → StoreError → Type 0
Unloadable lib path disk e = (read_config path disk >>= λ source. decode_config lib source) ≡ err e

abbrev ReloadOutcome :
    {D : Type 0}
    → Library D
    → Disk
    → ConfigState
    → ConfigState × Result StoreError (Unit {0})
    → Type 0
ReloadOutcome lib disk s (s', err e) = (s' ≡ s) × Unloadable lib s.path disk e
ReloadOutcome lib disk s (s', ok _) = Loaded lib disk s' × (s'.path ≡ s.path)

reload-Outcome :
    {D : Type 0} (lib : Library D) (disk : Disk) (s : ConfigState)
    → ReloadOutcome lib disk s (reload lib disk s)
unfolding reload publish
reload-Outcome lib disk s =
    elim (Result-cases (read_config s.path disk >>= λ source. decode_config lib source)) [
      | inl (e, q) ↦ rw (reload, q) (refl, q)
      | inr (next, q) ↦
          let (source, h, d) = bind-ok (read_config s.path disk) _ q in
          rw (reload, q)
            (
              (
                source,
                next,
                read_config-content s.path disk source h,
                d,
                config_at-place next s.heap,
                ap (λ g. index_groups_by_user g) (groups-place next s.heap),
              ),
              refl,
            )
    ]

-- The files that are read: those before, or those of someone else who has created the missing file
-- meanwhile.
abbrev pub IsRead : {D : Type 0} → Library D → GoString → Disk → Disk → Type 0
IsRead lib path disk disk' =
    ((disk' ≡ disk) × (disk path ≢ File.missing))
    ⊎ ((disk path ≡ File.missing) × (lib.create_file path disk ≡ Creation.raced disk'))

-- Why a load fails, and the files then.
abbrev pub Failed : {D : Type 0} → Library D → GoString → Disk → Disk → StoreError → Type 0
Failed lib path disk disk' e =
    ((e ≡ StoreError.no_stat) × (disk' ≡ disk) × (lib.stat_fails path disk ≡ true))
    ⊎ (((e ≡ StoreError.not_created)
          × (disk' ≡ disk)
          × (disk path ≡ File.missing)
          × (lib.create_file path disk ≡ Creation.uncreated))
        ⊎ (((e ≡ StoreError.not_closed)
              × (disk path ≡ File.missing)
              × (lib.create_file path disk ≡ Creation.unclosed disk'))
            ⊎ (IsRead lib path disk disk' × Unloadable lib path disk' e)))

abbrev pub LoadOutcome :
    {D : Type 0}
    → Library D
    → GoString
    → Disk
    → ConfigState
    → ConfigState × Disk × Result StoreError (Unit {0})
    → Type 0
LoadOutcome lib path disk s (s', disk', err e) = (s' ≡ s) × Failed lib path disk disk' e
LoadOutcome lib path disk s (s', disk', ok _) =
    (s'.path ≡ path)
    × (lib.stat_fails path disk ≡ false)
    × ((IsRead lib path disk disk' × Loaded lib disk' s')
        ⊎ ((disk path ≡ File.missing)
            × (lib.create_file path disk ≡ Creation.created disk')
            × Emptied s'))

module _ {D : Type 0} (lib : Library D) (path : GoString) (disk : Disk) (s : ConfigState)
    (found : lib.stat_fails path disk ≡ false) where
  reload_from-Outcome :
      (disk' : Disk)
      → IsRead lib path disk disk'
      → LoadOutcome lib path disk s (reload_from lib path disk' s)
  unfolding reload_from
  reload_from-Outcome disk' read =
      by (reload lib disk' (record s { path = path }))
        (reload-Outcome lib disk' (record s { path = path }))
    where
      by :
          (x : ConfigState × Result StoreError (Unit {0}))
          → ReloadOutcome lib disk' (record s { path = path }) x
          → LoadOutcome lib path disk s
              (elim x.1 as (λ _. ConfigState × Disk × Result StoreError (Unit {0})) [
                | ok _ ↦ (x.0, disk', ok tt)
                | err e ↦ (record (x.0) { path = s.path }, disk', err e)
              ])
      by (s', ok _) (loaded, q) = (q, found, inl (read, loaded))
      by (s', err e) (q, u) =
          (ap (λ (t : ConfigState). record t { path = s.path }) q, inr (inr (inr (read, u))))

  create-Outcome :
      (x : Creation)
      → disk path ≡ File.missing
      → lib.create_file path disk ≡ x
      → LoadOutcome lib path disk s
          (elim x as (λ _. ConfigState × Disk × Result StoreError (Unit {0})) [
            | Creation.uncreated ↦ (s, disk, err StoreError.not_created)
            | Creation.raced disk' ↦ reload_from lib path disk' s
            | Creation.unclosed disk' ↦ (s, disk', err StoreError.not_closed)
            | Creation.created disk' ↦
                let (cell, heap) = place no_config s.heap in
                (publish cell (record s { path = path; heap = heap }), disk', ok tt)
          ])
  unfolding publish
  create-Outcome Creation.uncreated m c = (refl, inr (inl (refl, refl, m, c)))
  create-Outcome (Creation.raced disk') m c = reload_from-Outcome disk' (inr (m, c))
  create-Outcome (Creation.unclosed disk') m c = (refl, inr (inr (inl (refl, m, c))))
  create-Outcome (Creation.created disk') m c = (
    refl,
    found,
    inr (
      m,
      c,
      (
        config_at-place no_config s.heap,
        ap (λ g. index_groups_by_user g) (groups-place no_config s.heap),
      ),
    ),
  )

  open-Outcome :
      (x : File)
      → disk path ≡ x
      → LoadOutcome lib path disk s
          (elim x as (λ _. ConfigState × Disk × Result StoreError (Unit {0})) [
            | File.missing ↦ elim (lib.create_file path disk) [
              | Creation.uncreated ↦ (s, disk, err StoreError.not_created)
              | Creation.raced disk' ↦ reload_from lib path disk' s
              | Creation.unclosed disk' ↦ (s, disk', err StoreError.not_closed)
              | Creation.created disk' ↦
                  let (cell, heap) = place no_config s.heap in
                  (publish cell (record s { path = path; heap = heap }), disk', ok tt)
            ]
            | File.unreadable ↦ reload_from lib path disk s
            | File.content _ ↦ reload_from lib path disk s
          ])
  open-Outcome File.missing m = create-Outcome (lib.create_file path disk) m refl
  open-Outcome File.unreadable m = reload_from-Outcome disk (inl (refl, λ q. clash (sym m ∙ q)))
    where
      clash : ◌≢◌ {A = File} File.unreadable File.missing
      clash q = cc
  open-Outcome (File.content source) m =
      reload_from-Outcome disk (inl (refl, λ q. clash (sym m ∙ q)))
    where
      clash : ◌≢◌ {A = File} (File.content source) File.missing
      clash q = cc

-- Loading a configuration file either fails, and then the path and all that is published are as
-- before, and it is for one of four reasons: the file cannot be examined, it was missing and cannot
-- be created, it was missing and the new file cannot be closed, or it does not read as a
-- configuration. Or it succeeds, and then the new path is kept, and what is published, with the
-- index of its groups, is exactly the configuration that the file there holds, where the file was
-- there or someone else has created it meanwhile, or the empty one, where the file was missing and
-- has been created.
pub load_config-Outcome :
    {D : Type 0} (lib : Library D) (path : GoString) (disk : Disk) (s : ConfigState)
    → LoadOutcome lib path disk s (load_config lib path disk s)
unfolding load_config
load_config-Outcome lib path disk s = elim (Bool-cases (lib.stat_fails path disk)) [
  | inl t ↦ rw (load_config, t) (refl, inl (refl, refl, t))
  | inr f ↦ rw (load_config, f) (open-Outcome lib path disk s f (disk path) refl)
]

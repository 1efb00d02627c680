-- ===== src/Conf/Heap.antt =====
-- Go maps in memory: a map is known by its address, and those who hold the address share it.
pub mod Extends
use arupa.Base.{
  ℕ, zero, suc, ◌+◌, Bool, true, List, [], ◌∷◌, ◌++◌, Option, none, some, GoString, length,
}
use arupa.Base.{string_eq}
use arupa.Base.Dict.{Dict, insert}
use arupa.Conf.Types.{Slice}

-- The address of a map, or nil.
abbrev pub Ref : Type 0
Ref = Option ℕ

-- The maps of one Go type, by address; a new map gets the next one.
abbrev pub Cells : Type 0 → Type 0
Cells V = List (Dict GoString V)

module _ {V : Type 0} where
  unfoldable pub read_cell : ℕ → Cells V → Dict GoString V
  read_cell a [] = []
  read_cell zero (d ∷ cells) = d
  read_cell (suc a) (d ∷ cells) = read_cell a cells

  unfoldable pub write_cell : ℕ → (Dict GoString V → Dict GoString V) → Cells V → Cells V
  write_cell a f [] = []
  write_cell zero f (d ∷ cells) = f d ∷ cells
  write_cell (suc a) f (d ∷ cells) = d ∷ write_cell a f cells

  -- A nil map reads as an empty one.
  abbrev pub read_ref : Ref → Cells V → Dict GoString V
  read_ref none cells = []
  read_ref (some a) cells = read_cell a cells

  abbrev pub write_ref : Ref → (Dict GoString V → Dict GoString V) → Cells V → Cells V
  write_ref none f cells = cells
  write_ref (some a) f cells = write_cell a f cells

  abbrev pub alloc : Dict GoString V → Cells V → Ref × Cells V
  alloc d cells = (some (length cells), cells ++ (d ∷ []))

  -- `cloneStrings`, `cloneStringSlices`, `cloneServicesShallow`: nil for nil, else a new map with
  -- the same entries. The slices that are values are not written to by anyone.
  abbrev pub clone_map : Ref → Cells V → Ref × Cells V
  clone_map none cells = (none, cells)
  clone_map (some a) cells = alloc (read_cell a cells) cells

-- A service as it lies in a map: its parameters are a map of their own.
pub record ServiceCell : Type 0 where
  pub restart : GoString
  pub run_as_user : GoString
  pub checksum : GoString
  pub allow : Slice
  pub params : Ref

-- `Service{}`
abbrev pub zero_service : ServiceCell
zero_service = record { restart = []; run_as_user = []; checksum = []; allow = none; params = none }

pub record Heap : Type 0 where
  pub strings : Cells GoString
  pub slices : Cells Slice
  pub services : Cells ServiceCell

-- `cloneService`
abbrev pub clone_service : ServiceCell → Cells GoString → ServiceCell × Cells GoString
clone_service service cells = (
  record service { params = (clone_map service.params cells).0 },
  (clone_map service.params cells).1,
)

-- The loop of `cloneServices`.
unfoldable pub clone_entries :
    Dict GoString ServiceCell → Cells GoString → Dict GoString ServiceCell × Cells GoString
clone_entries [] cells = ([], cells)
clone_entries ((name, service) ∷ services) cells =
    let (rest, cells') = clone_entries services (clone_service service cells).1 in
    ((name, (clone_service service cells).0) ∷ rest, cells')

-- The names of a map, all marked.
unfoldable pub mark_all : Dict GoString ServiceCell → Dict GoString Bool
mark_all [] = []
mark_all ((name, _) ∷ services) = insert name true (mark_all services)

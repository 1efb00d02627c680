-- ===== src/Conf/Editor/Maps.antt =====
-- What applyUsers, applyGroups, applyRoute and applyPages share: a map that is copied before its
-- first edit.
pub mod Safe
pub mod Reads
use arupa.Base.{
  Bool, true, false, not, ◌&&◌, List, [], ◌∷◌, Option, none, some, GoString, string_eq,
}
use arupa.Base.{if◌then◌else◌, is_empty}
use arupa.Base.Dict.{Dict, lookup, insert, erase}
use arupa.Base.Result.{Result, ok, err}
use arupa.Conf.Heap.{Ref, Cells, read_ref, write_ref, alloc, clone_map}
use arupa.Conf.Editor.Request.{
  Value, OperationType, Operation, EditError, wrong_type, key_required, unknown_operation,
}

-- A map of the edited configuration: its address, whether the editor has copied it, and the maps
-- of its type.
pub record Field (V : Type 0) : Type 0 where
  pub ref : Ref
  pub owned : Bool
  pub cells : Cells V

abbrev pub is_none {ℓ} : {A : Type ℓ} → Option A → Bool
is_none none = true
is_none (some a) = false

abbrev pub is_remove : OperationType → Bool
is_remove OperationType.remove = true
is_remove _ = false

module _ {V : Type 0} where
  abbrev pub replace : Ref × Cells V → Field V
  replace (ref, cells) = record { ref = ref; owned = true; cells = cells }

  abbrev pub if_nil : Field V → Field V
  if_nil m = elim m.ref [ none ↦ replace (alloc [] m.cells) | some a ↦ m ]

  -- `ensureUsers` and its like.
  unfoldable pub ensure : Field V → Field V
  ensure m = if_nil (if m.owned then m else replace (clone_map m.ref m.cells))

  abbrev pub write : (Dict GoString V → Dict GoString V) → Field V → Field V
  write f m = record m { cells = write_ref m.ref f m.cells }

  -- The whole map is replaced.
  unfoldable pub apply_whole :
      (Value → Option Ref) → OperationType → Value → Field V → Field V × Result EditError (Unit {0})
  apply_whole as_map OperationType.set value m = elim (as_map value) [
    | none ↦ (m, err wrong_type)
    | some source ↦ (replace (clone_map source m.cells), ok tt)
  ]
  apply_whole as_map OperationType.remove value m = (record m { ref = none; owned = true }, ok tt)
  apply_whole as_map (OperationType.unknown n) value m = (m, err (unknown_operation n))

  -- One entry, on the copy.
  unfoldable pub apply_entry :
      (Value → Option V)
      → OperationType
      → Value
      → GoString
      → Field V
      → Field V × Result EditError (Unit {0})
  apply_entry as_item OperationType.set value key m = elim (as_item value) [
    | none ↦ (m, err wrong_type)
    | some item ↦ (write (insert key item) m, ok tt)
  ]
  apply_entry as_item OperationType.remove value key m = (write (erase key) m, ok tt)
  apply_entry as_item (OperationType.unknown n) value key m = (m, err (unknown_operation n))

  unfoldable pub apply_key :
      (Value → Option V)
      → OperationType
      → Value
      → GoString
      → Field V
      → Field V × Result EditError (Unit {0})
  unfolding ensure apply_entry
  apply_key as_item kind value key m =
      if is_empty key
      then (m, err key_required)
      else if is_remove kind && is_none (lookup key (read_ref m.ref m.cells))
      then (m, ok tt)
      else apply_entry as_item kind value key (ensure m)

  unfoldable pub apply_map :
      (Value → Option Ref)
      → (Value → Option V)
      → Operation
      → List GoString
      → Field V
      → Field V × Result EditError (Unit {0})
  unfolding apply_whole apply_key
  apply_map as_map as_item op [] m = apply_whole as_map op.kind op.value m
  apply_map as_map as_item op (key ∷ []) m = apply_key as_item op.kind op.value key m
  apply_map as_map as_item op (key ∷ _ ∷ _) m = (m, err key_required)

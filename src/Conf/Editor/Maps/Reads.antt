-- ===== src/Conf/Editor/Maps/Reads.antt =====
-- What a map of the configuration reads as after an operation on it.
use arupa.Base.{
  ℕ, zero, suc, ◌≡◌, ◌≢◌, ◌<◌, inl, inr, refl, sym, ap, ◌∙◌, Bool, true, false, List, [],
}
use arupa.Base.{◌∷◌, Option, none, some, GoString, string_eq, length, length-append, if◌then◌else◌}
use arupa.Base.{is_empty, Bool-cases, Option-cases, arith}
use arupa.Base.Dict.{Dict, lookup, insert, erase}
use arupa.Base.Result.{Result, ok, err}
use arupa.Conf.Heap.{Ref, Cells, read_cell, write_cell, read_ref, clone_map}
use arupa.Conf.Heap.Extends.{read_ref-clone_map}
use arupa.Conf.Editor.Request.{
  Value, OperationType, Operation, EditError, wrong_type, key_required, unknown_operation,
}
use arupa.Conf.Editor.Maps.{
  Field, replace, if_nil, write, is_none, ensure, apply_whole, apply_entry, apply_key, apply_map,
}
use arupa.Conf.Editor.Maps.Safe.{read_ref-ensure}

-- The operations on a plain map, `source` giving the maps that a value holds.
abbrev pub Changes : Type 0 → Type 0
Changes V = Dict GoString V × Result EditError (Unit {0})

module _ {V : Type 0} where
  -- A map that is not nil is in memory.
  abbrev pub IsAllocated : Field V → Type 0
  IsAllocated m = (a : ℕ) → m.ref ≡ some a → a < length m.cells

  abbrev pub reads : Field V → Dict GoString V
  reads m = read_ref m.ref m.cells

  -- The map that a value holds, by its entries.
  abbrev pub held : (Value → Option Ref) → Cells V → Value → Option (Dict GoString V)
  held as_map cells value = elim (as_map value) [ none ↦ none | some r ↦ some (read_ref r cells) ]

  abbrev whole :
      (Value → Option (Dict GoString V)) → OperationType → Value → Dict GoString V → Changes V
  whole source OperationType.set value d = elim (source value) [
    | none ↦ (d, err wrong_type)
    | some d' ↦ (d', ok tt)
  ]
  whole source OperationType.remove value d = ([], ok tt)
  whole source (OperationType.unknown n) value d = (d, err (unknown_operation n))

  abbrev entry : (Value → Option V) → OperationType → Value → GoString → Dict GoString V → Changes V
  entry as_item OperationType.set value key d = elim (as_item value) [
    | none ↦ (d, err wrong_type)
    | some item ↦ (insert key item d, ok tt)
  ]
  entry as_item OperationType.remove value key d =
      if is_none (lookup key d) then (d, ok tt) else (erase key d, ok tt)
  entry as_item (OperationType.unknown n) value key d = (d, err (unknown_operation n))

  unfoldable pub plain :
      (Value → Option (Dict GoString V))
      → (Value → Option V)
      → Operation
      → List GoString
      → Dict GoString V
      → Changes V
  plain source as_item op [] d = whole source op.kind op.value d
  plain source as_item op (key ∷ []) d =
      if is_empty key then (d, err key_required) else entry as_item op.kind op.value key d
  plain source as_item op (key ∷ _ ∷ _) d = (d, err key_required)

  read_cell-write_cell :
      (a : ℕ) (f : Dict GoString V → Dict GoString V) (cells : Cells V)
      → a < length cells
      → read_cell a (write_cell a f cells) ≡ f (read_cell a cells)
  unfolding read_cell write_cell
  read_cell-write_cell a f [] h = absurd (omega arith)
  read_cell-write_cell zero f (d ∷ cells) h = refl
  read_cell-write_cell (suc a) f (d ∷ cells) h = read_cell-write_cell a f cells (omega arith)

  -- The editor's own map is in memory.
  ensured :
      (m : Field V)
      → IsAllocated m
      → (a : ℕ) × ((ensure m).ref ≡ some a) × a < length (ensure m).cells
  unfolding ensure
  ensured m h = by m.owned
    where
      nil :
          (ref : Ref) (owned : Bool) (cells : Cells V)
          → ((a : ℕ) → ref ≡ some a → a < length cells)
          → (let m' = if_nil (record { ref = ref; owned = owned; cells = cells }) in
              (a : ℕ) × (m'.ref ≡ some a) × a < length m'.cells)
      nil none owned cells h = (length cells, refl, omega (arith, length-append cells ([] ∷ [])))
      nil (some a) owned cells h = (a, refl, h a refl)

      cloned :
          (ref : Ref) (cells : Cells V) (a : ℕ)
          → (clone_map ref cells).0 ≡ some a
          → a < length (clone_map ref cells).1
      cloned none cells a q = absurd (clash a q)
        where
          clash : (a : ℕ) → ◌≢◌ {A = Ref} none (some a)
          clash a q = cc
      cloned (some b) cells a q =
          let e : length cells ≡ a = cc in
          omega (arith, length-append cells (read_cell b cells ∷ []))

      by :
          (o : Bool)
          → (let m' = if_nil (if o then m else replace (clone_map m.ref m.cells)) in
              (a : ℕ) × (m'.ref ≡ some a) × a < length m'.cells)
      by true = nil m.ref m.owned m.cells h
      by false =
          nil (clone_map m.ref m.cells).0 true (clone_map m.ref m.cells).1 (cloned m.ref m.cells)

  -- A change of the editor's own map is a change of what was read.
  write-ensure :
      (m : Field V) (f : Dict GoString V → Dict GoString V)
      → IsAllocated m
      → reads (write f (ensure m)) ≡ f (reads m)
  write-ensure m f h =
      let (a, q, l) = ensured m h in at_ref (ensure m) a q l ∙ ap f (read_ref-ensure m)
    where
      at_ref :
          (m' : Field V) (a : ℕ)
          → m'.ref ≡ some a
          → a < length m'.cells
          → reads (write f m') ≡ f (reads m')
      at_ref m' a q l = rw q (read_cell-write_cell a f m'.cells l)

  apply_whole-plain :
      (as_map : Value → Option Ref) (kind : OperationType) (value : Value) (m : Field V)
      → (let x = apply_whole as_map kind value m in
          ◌≡◌ {A = Changes V} (reads x.0, x.1) (whole (held as_map m.cells) kind value (reads m)))
  unfolding apply_whole
  apply_whole-plain as_map OperationType.set value m = elim (Option-cases (as_map value)) [
    | inl q ↦ rw (apply_whole, whole, held, q) refl
    | inr (r, q) ↦
        rw (apply_whole, whole, held, q) (ap (λ d. (d, ok tt)) (read_ref-clone_map r m.cells))
  ]
  apply_whole-plain as_map OperationType.remove value m = refl
  apply_whole-plain as_map (OperationType.unknown n) value m = refl

  apply_key-plain :
      (as_item : Value → Option V) (kind : OperationType) (value : Value) (key : GoString)
      (m : Field V)
      → IsAllocated m
      → is_empty key ≡ false
      → (let x = apply_key as_item kind value key m in
          ◌≡◌ {A = Changes V} (reads x.0, x.1) (entry as_item kind value key (reads m)))
  unfolding apply_key apply_entry
  apply_key-plain as_item OperationType.set value key m h n = elim (Option-cases (as_item value)) [
    | inl q ↦
        rw (apply_key, n, apply_entry, entry, q) (ap (λ d. (d, err wrong_type)) (read_ref-ensure m))
    | inr (item, q) ↦
        rw (apply_key, n, apply_entry, entry, q)
          (ap (λ d. (d, ok tt)) (write-ensure m (insert key item) h))
  ]
  apply_key-plain as_item OperationType.remove value key m h n =
      elim (Bool-cases (is_none (lookup key (reads m)))) [
        | inl t ↦ rw (apply_key, n, entry, t) refl
        | inr f ↦ rw (apply_key, n, entry, f) (ap (λ d. (d, ok tt)) (write-ensure m (erase key) h))
      ]
  apply_key-plain as_item (OperationType.unknown k) value key m h n =
      rw (apply_key, n) (ap (λ d. (d, err (unknown_operation k))) (read_ref-ensure m))

  -- An operation on a map of the configuration that is in memory, or nil, does to what the map
  -- reads as just what the operation does to a plain map, and gives the same error, whether or not
  -- the editor has copied the map before.
  pub apply_map-plain :
      (as_map : Value → Option Ref) (as_item : Value → Option V) (op : Operation)
      (segments : List GoString) (m : Field V)
      → IsAllocated m
      → (let x = apply_map as_map as_item op segments m in
          ◌≡◌ {A = Changes V}
            (reads x.0, x.1)
            (plain (held as_map m.cells) as_item op segments (reads m)))
  unfolding apply_map plain
  apply_map-plain as_map as_item op [] m h = apply_whole-plain as_map op.kind op.value m
  apply_map-plain as_map as_item op (key ∷ []) m h = elim (Bool-cases (is_empty key)) [
    | inl t ↦ rw t refl
    | inr f ↦
        apply_key-plain as_item op.kind op.value key m h f
        ∙ sym (
            ap
              (λ b.
                if b
                then (reads m, err key_required)
                else entry as_item op.kind op.value key (reads m))
              f)
  ]
  apply_map-plain as_map as_item op (key ∷ _ ∷ _) m h = refl

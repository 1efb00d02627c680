-- ===== src/Conf/Editor/Maps/Safe.antt =====
-- The edit of a map and the memory that was there before.
use arupa.Base.{◌≡◌, inl, inr, refl, ◌∙◌, Bool, true, false, ◌&&◌, List, [], ◌∷◌, Option}
use arupa.Base.{
  none, some, GoString, string_eq, Bool-cases, Option-cases, is_empty, length, ℕ, arith,
}
use arupa.Base.{if◌then◌else◌}
use arupa.Base.Dict.{Dict, lookup, insert, erase}
use arupa.Conf.Heap.{Ref, Cells, read_ref, clone_map}
use arupa.Conf.Heap.Extends.{
  Extends, Fresh, alloc-Extends, length-Extends, write_ref-Extends, clone_map-Extends,
  read_ref-clone_map, read_cell-alloc,
}
use arupa.Conf.Editor.Request.{Value, OperationType, Operation}
use arupa.Conf.Editor.Maps.{
  Field, ensure, apply_whole, apply_entry, apply_key, apply_map, replace, is_remove, is_none,
  if_nil, write,
}

module _ {V : Type 0} where
  -- The memory of the base is as it was, and a map that counts as copied is not of the base.
  pub record IsSafe (base : Cells V) (m : Field V) : Type 0 where
    pub extends : Extends base m.cells
    pub fresh : m.owned ≡ true → Fresh base m.ref

  clone-IsSafe :
      (base cells : Cells V) (ref : Ref)
      → Extends base cells
      → IsSafe base (replace (clone_map ref cells))
  clone-IsSafe base cells ref x =
      let (y, f) = clone_map-Extends base cells ref x in record { extends = y; fresh = λ _. f }

  if_nil-IsSafe :
      (base cells : Cells V) (ref : Ref) (owned : Bool)
      → IsSafe base (record { ref = ref; owned = owned; cells = cells })
      → owned ≡ true
      → IsSafe base (if_nil (record { ref = ref; owned = owned; cells = cells }))
        × ((if_nil (record { ref = ref; owned = owned; cells = cells })).owned ≡ true)
  if_nil-IsSafe base cells none owned s o = (
    record {
      extends = alloc-Extends base cells [] s.extends;
      fresh = λ _ a q.
          let e : length cells ≡ a = cc in omega (arith, length-Extends base cells s.extends);
    },
    refl,
  )
  if_nil-IsSafe base cells (some a) owned s o = (s, o)

  pub ensure-IsSafe :
      (base : Cells V) (m : Field V)
      → IsSafe base m
      → IsSafe base (ensure m) × ((ensure m).owned ≡ true)
  unfolding ensure
  ensure-IsSafe base m s = by m.owned refl
    where
      by :
          (o : Bool)
          → m.owned ≡ o
          → IsSafe base (if_nil (if o then m else replace (clone_map m.ref m.cells)))
            × ((if_nil (if o then m else replace (clone_map m.ref m.cells))).owned ≡ true)
      by true e = if_nil-IsSafe base m.cells m.ref m.owned s e
      by false e =
          let copy = clone_map m.ref m.cells in
          if_nil-IsSafe base copy.1 copy.0 true (clone-IsSafe base m.cells m.ref s.extends) refl

  write-IsSafe :
      (base : Cells V) (f : Dict GoString V → Dict GoString V) (m : Field V)
      → IsSafe base m
      → m.owned ≡ true
      → IsSafe base (write f m)
  write-IsSafe base f m s o = record {
    extends = write_ref-Extends base m.cells m.ref f s.extends (s.fresh o);
    fresh = s.fresh;
  }

  pub apply_whole-IsSafe :
      (base : Cells V) (as_map : Value → Option Ref) (kind : OperationType) (value : Value)
      (m : Field V)
      → IsSafe base m
      → IsSafe base (apply_whole as_map kind value m).0
  unfolding apply_whole
  apply_whole-IsSafe base as_map OperationType.set value m s = elim (Option-cases (as_map value)) [
    | inl e ↦ rw (e, apply_whole) s
    | inr (source, e) ↦ rw (e, apply_whole) (clone-IsSafe base m.cells source s.extends)
  ]
  apply_whole-IsSafe base as_map OperationType.remove value m s = record {
    extends = s.extends;
    fresh = λ _ a e. absurd (clash a e);
  }
    where
      clash : (a : ℕ) → ◌≡◌ {A = Ref} none (some a) → ⊥
      clash a e = cc
  apply_whole-IsSafe base as_map (OperationType.unknown n) value m s = s

  apply_entry-IsSafe :
      (base : Cells V) (as_item : Value → Option V) (kind : OperationType) (value : Value)
      (key : GoString) (m : Field V)
      → IsSafe base m
      → m.owned ≡ true
      → IsSafe base (apply_entry as_item kind value key m).0
  unfolding apply_entry
  apply_entry-IsSafe base as_item OperationType.set value key m s o =
      elim (Option-cases (as_item value)) [
        | inl e ↦ rw (e, apply_entry) s
        | inr (item, e) ↦ rw (e, apply_entry) (write-IsSafe base (insert key item) m s o)
      ]
  apply_entry-IsSafe base as_item OperationType.remove value key m s o =
      write-IsSafe base (erase key) m s o
  apply_entry-IsSafe base as_item (OperationType.unknown n) value key m s o = s

  apply_key-IsSafe :
      (base : Cells V) (as_item : Value → Option V) (kind : OperationType) (value : Value)
      (key : GoString) (m : Field V)
      → IsSafe base m
      → IsSafe base (apply_key as_item kind value key m).0
  unfolding apply_key
  apply_key-IsSafe base as_item kind value key m s = elim (Bool-cases (is_empty key)) [
    | inl t ↦ rw (t, apply_key) s
    | inr f ↦ elim (Bool-cases (is_remove kind && is_none (lookup key (read_ref m.ref m.cells)))) [
      | inl t ↦ rw (f, apply_key, t) s
      | inr g ↦
          let (s', o) = ensure-IsSafe base m s in
          rw (f, apply_key, g) (apply_entry-IsSafe base as_item kind value key (ensure m) s' o)
    ]
  ]

  pub apply_map-IsSafe :
      (base : Cells V) (as_map : Value → Option Ref) (as_item : Value → Option V) (op : Operation)
      (segments : List GoString) (m : Field V)
      → IsSafe base m
      → IsSafe base (apply_map as_map as_item op segments m).0
  unfolding apply_map
  apply_map-IsSafe base as_map as_item op [] m s =
      apply_whole-IsSafe base as_map op.kind op.value m s
  apply_map-IsSafe base as_map as_item op (key ∷ []) m s =
      apply_key-IsSafe base as_item op.kind op.value key m s
  apply_map-IsSafe base as_map as_item op (key ∷ _ ∷ _) m s = s

module _ {V : Type 0} where
  -- A map that was copied stays so.
  pub apply_map-owned :
      (as_map : Value → Option Ref) (as_item : Value → Option V) (op : Operation)
      (segments : List GoString) (m : Field V)
      → m.owned ≡ true
      → (apply_map as_map as_item op segments m).0.owned ≡ true
  unfolding apply_map apply_entry apply_key
  apply_map-owned as_map as_item op [] m o = whole op.kind
    where
      whole : (kind : OperationType) → (apply_whole as_map kind op.value m).0.owned ≡ true
      whole OperationType.set = ground arith
      whole OperationType.remove = refl
      whole (OperationType.unknown n) = o
  apply_map-owned as_map as_item op (key ∷ []) m o = elim (Bool-cases (is_empty key)) [
    | inl t ↦ rw (t, apply_key) o
    | inr f ↦
        elim (Bool-cases (is_remove op.kind && is_none (lookup key (read_ref m.ref m.cells)))) [
          | inl t ↦ rw (f, apply_key, t) o
          | inr g ↦ rw (f, apply_key, g) (entry op.kind)
        ]
  ]
    where
      copied : (ensure m).owned ≡ true
      copied =
          (ensure-IsSafe [] m
            (record { extends = (m.cells, refl); fresh = λ _ a e. omega arith })).1

      entry :
          (kind : OperationType) → (apply_entry as_item kind op.value key (ensure m)).0.owned ≡ true
      entry OperationType.set = elim (Option-cases (as_item op.value)) [
        | inl e ↦ rw (e, apply_entry) copied
        | inr (item, e) ↦ rw (e, apply_entry) copied
      ]
      entry OperationType.remove = copied
      entry (OperationType.unknown n) = copied
  apply_map-owned as_map as_item op (key ∷ _ ∷ _) m o = o

  pub read_ref-ensure :
      (m : Field V) → read_ref (ensure m).ref (ensure m).cells ≡ read_ref m.ref m.cells
  unfolding ensure
  read_ref-ensure m = by m.owned
    where
      nil :
          (ref : Ref) (owned : Bool) (cells : Cells V)
          → (let m' = if_nil (record { ref = ref; owned = owned; cells = cells }) in
              read_ref m'.ref m'.cells)
            ≡ read_ref ref cells
      nil none owned cells = read_cell-alloc cells []
      nil (some a) owned cells = refl

      by :
          (o : Bool)
          → (let m' = if_nil (if o then m else replace (clone_map m.ref m.cells)) in
              read_ref m'.ref m'.cells)
            ≡ read_ref m.ref m.cells
      by true = nil m.ref m.owned m.cells
      by false =
          let copy = clone_map m.ref m.cells in
          nil copy.0 true copy.1 ∙ read_ref-clone_map m.ref m.cells

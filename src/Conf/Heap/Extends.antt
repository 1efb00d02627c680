-- ===== src/Conf/Heap/Extends.antt =====
-- Memory that has grown and kept what it held.
use mathlib.Core.List.{append-nil, append_assoc}
use arupa.Base.{ℕ, zero, suc, ◌≡◌, ◌⊎◌, inl, inr, refl, sym, ap, ◌∙◌, ◌≤◌, [], ◌∷◌, ◌++◌}
use arupa.Base.{none, some, GoString, string_eq, length, length-append, arith}
use arupa.Base.Dict.{Dict}
use arupa.Conf.Heap.{Ref, Cells, read_cell, write_cell, read_ref, write_ref, clone_map}

module _ {V : Type 0} where
  abbrev pub Extends : Cells V → Cells V → Type 0
  Extends base cells = (added : Cells V) × (cells ≡ base ++ added)

  -- The address, if there is one, is not of the base.
  abbrev pub Fresh : Cells V → Ref → Type 0
  Fresh base ref = (a : ℕ) → ref ≡ some a → length base ≤ a

  pub Extends-refl : (base : Cells V) → Extends base base
  Extends-refl base = ([], sym (append-nil base))

  pub alloc-Extends :
      (base cells : Cells V) (d : Dict GoString V)
      → Extends base cells
      → Extends base (cells ++ (d ∷ []))
  alloc-Extends base cells d (added, e) =
      (added ++ (d ∷ []), ap (λ c. c ++ (d ∷ [])) e ∙ append_assoc base added (d ∷ []))

  pub length-Extends : (base cells : Cells V) → Extends base cells → length base ≤ length cells
  length-Extends base cells (added, e) =
      omega (arith, ap (λ (c : Cells V). length c) e, length-append base added)

  write_cell-append :
      (base added : Cells V) (a : ℕ) (f : Dict GoString V → Dict GoString V)
      → length base ≤ a
      → Extends base (write_cell a f (base ++ added))
  unfolding write_cell
  write_cell-append [] added a f h = (write_cell a f added, refl)
  write_cell-append (d ∷ base) added zero f h = absurd (omega arith)
  write_cell-append (d ∷ base) added (suc a) f h =
      let (rest, e) = write_cell-append base added a f (omega arith) in (rest, ap (λ c. d ∷ c) e)

  -- A write to an address behind the base leaves the base.
  pub write_ref-Extends :
      (base cells : Cells V) (ref : Ref) (f : Dict GoString V → Dict GoString V)
      → Extends base cells
      → Fresh base ref
      → Extends base (write_ref ref f cells)
  write_ref-Extends base cells none f x fresh = x
  write_ref-Extends base cells (some a) f (added, e) fresh =
      let (rest, q) = write_cell-append base added a f (fresh a refl) in
      (rest, ap (λ c. write_cell a f c) e ∙ q)

  pub clone_map-Extends :
      (base cells : Cells V) (ref : Ref)
      → Extends base cells
      → Extends base (clone_map ref cells).1 × Fresh base (clone_map ref cells).0
  clone_map-Extends base cells none x = (x, λ a e. absurd (clash a e))
    where
      clash : (a : ℕ) → ◌≡◌ {A = Ref} none (some a) → ⊥
      clash a e = cc
  clone_map-Extends base cells (some b) x = (
    alloc-Extends base cells (read_cell b cells) x,
    λ a e. let q : length cells ≡ a = cc in omega (arith, length-Extends base cells x),
  )

  pub read_cell-alloc :
      (cells : Cells V) (d : Dict GoString V) → read_cell (length cells) (cells ++ (d ∷ [])) ≡ d
  unfolding read_cell
  read_cell-alloc [] d = refl
  read_cell-alloc (c ∷ cells) d = read_cell-alloc cells d

  -- A copy reads like the original.
  pub read_ref-clone_map :
      (ref : Ref) (cells : Cells V)
      → read_ref (clone_map ref cells).0 (clone_map ref cells).1 ≡ read_ref ref cells
  read_ref-clone_map none cells = refl
  read_ref-clone_map (some a) cells = read_cell-alloc cells (read_cell a cells)

  read_cell-write_cell :
      (a : ℕ) (f : Dict GoString V → Dict GoString V) (cells : Cells V)
      → (read_cell a (write_cell a f cells) ≡ f (read_cell a cells))
        ⊎ (read_cell a (write_cell a f cells) ≡ [])
  unfolding read_cell write_cell
  read_cell-write_cell a f [] = inr refl
  read_cell-write_cell zero f (d ∷ cells) = inl refl
  read_cell-write_cell (suc a) f (d ∷ cells) = read_cell-write_cell a f cells

  -- A write is seen at its address, if there is a map.
  pub read_ref-write_ref :
      (ref : Ref) (f : Dict GoString V → Dict GoString V) (cells : Cells V)
      → (read_ref ref (write_ref ref f cells) ≡ f (read_ref ref cells))
        ⊎ (read_ref ref (write_ref ref f cells) ≡ [])
  read_ref-write_ref none f cells = inr refl
  read_ref-write_ref (some a) f cells = read_cell-write_cell a f cells

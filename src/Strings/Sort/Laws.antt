-- ===== src/Strings/Sort/Laws.antt =====
-- A sorted list of texts.
use arupa.Base.{◌≡◌, ◌↔◌, ◌⊎◌, inl, inr, refl, true, false, List, [], ◌∷◌, GoString}
use arupa.Base.{In, Bool-cases, arith}
use arupa.Strings.Sort.{string_leb, insert_sorted, sort_strings}

In-insert_sorted :
    (x y : GoString) (ys : List GoString) → In x (insert_sorted y ys) ↔ ((y ≡ x) ⊎ In x ys)
unfolding insert_sorted
In-insert_sorted x y [] = (λ h. h, λ h. h)
In-insert_sorted x y (z ∷ ys) = ground (arith, In-insert_sorted x y ys)

pub In-sort_strings : (x : GoString) (xs : List GoString) → In x (sort_strings xs) ↔ In x xs
unfolding sort_strings
In-sort_strings x [] = (λ h. h, λ h. h)
In-sort_strings x (y ∷ ys) =
    ground (arith, In-sort_strings x ys, In-insert_sorted x y (sort_strings ys))

-- No text is before the one ahead of it.
abbrev pub IsSorted : List GoString → Type 0
IsSorted [] = Unit
IsSorted (x ∷ []) = Unit
IsSorted (x ∷ y ∷ xs) = (string_leb x y ≡ true) × IsSorted (y ∷ xs)

string_leb_total : (s t : GoString) → string_leb s t ≡ false → string_leb t s ≡ true
unfolding string_leb
string_leb_total [] t h = ground arith
string_leb_total (a ∷ s) [] h = refl
string_leb_total (a ∷ s) (b ∷ t) h = ground (arith, string_leb_total s t)

insert_sorted-IsSorted :
    (x : GoString) (ys : List GoString) → IsSorted ys → IsSorted (insert_sorted x ys)
unfolding insert_sorted
insert_sorted-IsSorted x [] h = tt
insert_sorted-IsSorted x (y ∷ []) h = elim (Bool-cases (string_leb x y)) [
  | inl t ↦ rw t (t, h)
  | inr f ↦ rw f (string_leb_total x y f, tt)
]
insert_sorted-IsSorted x (y ∷ z ∷ ys) (l, h) =
    let rest = insert_sorted-IsSorted x (z ∷ ys) h in
    elim (Bool-cases (string_leb x y)) [
      | inl t ↦ rw t (t, (l, h))
      | inr f ↦ rw f (elim (Bool-cases (string_leb x z)) [
        | inl t ↦ rw t (string_leb_total x y f, (t, h))
        | inr g ↦ rw g (l, rw (g, insert_sorted) at rest)
      ])
    ]

pub sort_strings-IsSorted : (xs : List GoString) → IsSorted (sort_strings xs)
unfolding sort_strings
sort_strings-IsSorted [] = tt
sort_strings-IsSorted (x ∷ xs) = insert_sorted-IsSorted x _ (sort_strings-IsSorted xs)

-- ===== src/Base/Dict.antt =====
-- Go maps: association lists, in the order in which `range` happens to meet the keys. Proofs
-- elsewhere go by the laws; only tests unfold the operations.
use mathlib.Core.Path.{◌≡◌, refl}
use mathlib.Core.Bool.{Bool, false}
use mathlib.Core.Logic.{◌≢◌, ◌⊎◌}
use mathlib.Core.Option.{Option, none, some}
use mathlib.Core.List.{List, [], ◌∷◌}
use native.Mathlib.Omega.{arith}
use arupa.Base.Lists.{In}
use arupa.Base.Equality.{Eq, ◌==◌, ==_self}
use arupa.Base.Tests.{if◌then◌else◌}

abbrev pub Dict : Type 0 → Type 0 → Type 0
Dict K V = List (K × V)

module _ {K : Type 0} {V : Type 0} where
  -- `for k, v := range m { if p(k, v) { delete(m, k) } }` keeps the entries that fail the test.
  unfoldable pub remove_where : (K → V → Bool) → Dict K V → Dict K V
  remove_where p [] = []
  remove_where p ((k, v) ∷ d) = let rest = remove_where p d in if p k v then rest else (k, v) ∷ rest

  pub In-remove_where :
      (p : K → V → Bool) (k : K) (v : V) (d : Dict K V)
      → In (k, v) (remove_where p d)
      → In (k, v) d × (p k v ≡ false)
  unfolding remove_where
  In-remove_where p k v [] h = absurd h
  In-remove_where p k v ((j, w) ∷ d) h = ground (arith, In-remove_where p k v d)

module _ {K : Type 0} {V : Type 0} ⦃e : Eq K⦄ where
  -- `v, ok := m[k]`
  unfoldable pub lookup : K → Dict K V → Option V
  lookup k [] = none
  lookup k ((j, w) ∷ d) = if j == k then some w else lookup k d

  -- `m[k] = v`
  unfoldable pub insert : K → V → Dict K V → Dict K V
  insert k v [] = (k, v) ∷ []
  insert k v ((j, w) ∷ d) = if j == k then (k, v) ∷ d else (j, w) ∷ insert k v d

  -- `delete(m, k)`
  unfoldable pub erase : K → Dict K V → Dict K V
  erase k [] = []
  erase k ((j, w) ∷ d) = let rest = erase k d in if j == k then rest else (j, w) ∷ rest

  -- The keys of a Go map are distinct.
  abbrev pub NodupKeys : Dict K V → Type 0
  NodupKeys [] = Unit
  NodupKeys ((k, _) ∷ d) = (lookup k d ≡ none) × NodupKeys d

  pub lookup-nil : (k : K) → lookup k [] ≡ none
  unfolding lookup
  lookup-nil k = refl

  pub lookup-insert :
      (j k : K) (v : V) (d : Dict K V)
      → lookup j (insert k v d) ≡ (if k == j then some v else lookup j d)
  unfolding insert lookup
  lookup-insert j k v [] = refl
  lookup-insert j k v ((i, w) ∷ d) = ground (arith, lookup-insert j k v d)

  pub lookup-erase :
      (j k : K) (d : Dict K V) → lookup j (erase k d) ≡ (if k == j then none else lookup j d)
  unfolding erase lookup
  lookup-erase j k [] = ground arith
  lookup-erase j k ((i, w) ∷ d) = ground (arith, lookup-erase j k d)

  pub lookup-remove_where :
      (p : K → V → Bool) (k : K) (d : Dict K V)
      → NodupKeys d
      → lookup k (remove_where p d)
        ≡ elim (lookup k d) [ none ↦ none | some v ↦ if p k v then none else some v ]
  unfolding remove_where lookup
  lookup-remove_where p k [] _ = refl
  lookup-remove_where p k ((j, w) ∷ d) (fresh, u) = ground (arith, lookup-remove_where p k d u)

  pub insert-NodupKeys : (k : K) (v : V) (d : Dict K V) → NodupKeys d → NodupKeys (insert k v d)
  unfolding insert
  insert-NodupKeys k v [] _ = (lookup-nil k, tt)
  insert-NodupKeys k v ((j, _) ∷ d) (fresh, u) =
      ground (arith, insert-NodupKeys k v d u, lookup-insert j k v d)

  pub erase-NodupKeys : (k : K) (d : Dict K V) → NodupKeys d → NodupKeys (erase k d)
  unfolding erase
  erase-NodupKeys k [] _ = tt
  erase-NodupKeys k ((j, _) ∷ d) (fresh, u) =
      ground (arith, erase-NodupKeys k d u, lookup-erase j k d)

  pub remove_where-NodupKeys :
      (p : K → V → Bool) (d : Dict K V) → NodupKeys d → NodupKeys (remove_where p d)
  unfolding remove_where
  remove_where-NodupKeys p [] _ = tt
  remove_where-NodupKeys p ((j, w) ∷ d) (fresh, u) =
      ground (arith, remove_where-NodupKeys p d u, lookup-remove_where p j d u)

  -- The entries that `range` meets are the ones that a lookup finds.
  pub lookup-In : (k : K) (v : V) (d : Dict K V) → lookup k d ≡ some v → In (k, v) d
  unfolding lookup
  lookup-In k v [] h = cc
  lookup-In k v ((j, w) ∷ d) h = ground (arith, lookup-In k v d)

  pub In-lookup : (k : K) (v : V) (d : Dict K V) → NodupKeys d → In (k, v) d → lookup k d ≡ some v
  unfolding lookup
  In-lookup k v [] _ h = absurd h
  In-lookup k v ((j, w) ∷ d) (fresh, u) h = ground (arith, In-lookup k v d u)

  pub lookup-insert_self : (k : K) (v : V) (d : Dict K V) → lookup k (insert k v d) ≡ some v
  lookup-insert_self k v d = rw (lookup-insert k k v d, ==_self k)

  pub lookup-insert_ne :
      {j k : K} (v : V) (d : Dict K V) → k ≢ j → lookup j (insert k v d) ≡ lookup j d
  lookup-insert_ne {j} {k} v d n = ground (arith, lookup-insert j k v d)

  pub lookup-erase_ne : {j k : K} (d : Dict K V) → k ≢ j → lookup j (erase k d) ≡ lookup j d
  lookup-erase_ne {j} {k} d n = ground (arith, lookup-erase j k d)

  -- What a lookup behind a write finds: what was written, or what was there.
  pub insert-cases :
      (j k : K) (v : V) (d : Dict K V) {w : V}
      → lookup j (insert k v d) ≡ some w
      → ((k ≡ j) × (v ≡ w)) ⊎ ((k ≢ j) × (lookup j d ≡ some w))
  insert-cases j k v d h = ground (arith, lookup-insert j k v d)

  pub erase-cases :
      (j k : K) (d : Dict K V) {w : V}
      → lookup j (erase k d) ≡ some w
      → (k ≢ j) × (lookup j d ≡ some w)
  erase-cases j k d h = ground (arith, lookup-erase j k d)

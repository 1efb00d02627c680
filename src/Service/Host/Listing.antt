-- ===== src/Service/Host/Listing.antt =====
-- What the store lists.
use arupa.Base.{◌≡◌, ◌≢◌, ◌↔◌, inl, inr, refl, [], ◌∷◌, Option}
use arupa.Base.{none, some, GoString, string_eq, In, is_empty_of_ne}
use arupa.Base.{==-cases}
use arupa.Base.Dict.{Dict, lookup}
use arupa.Strings.Sort.Laws.{IsSorted, In-sort_strings, sort_strings-IsSorted}
use arupa.Service.Host.{Store, get, values_of, keys, list}
use arupa.Service.Host.Access.{get-values_of}

In-keys_iff :
    {V : Type 0} (k : GoString) (d : Dict GoString V)
    → In k (keys d) ↔ ((v : V) × (lookup k d ≡ some v))
unfolding keys lookup
In-keys_iff {V} k [] = (λ h. absurd h, λ (v, h). absurd (clash h))
  where
    clash : {v : V} → ◌≢◌ {A = Option V} none (some v)
    clash h = cc
In-keys_iff k ((j, w) ∷ d) = elim (==-cases j k) [
  | inl (t, e) ↦ rw t (λ _. (w, refl), λ _. inl e)
  | inr (f, n) ↦ rw f (
    λ h. elim h [ inl e ↦ absurd (n e) | inr i ↦ (In-keys_iff k d).0 i ],
    λ x. inr ((In-keys_iff k d).1 x),
  )
]

-- The keys that a namespace with a name lists are sorted, and they are those that have a value.
pub list_iff :
    (namespace : GoString) (s : Store)
    → namespace ≢ []
    → IsSorted (list namespace s)
      × ((k : GoString) → In k (list namespace s) ↔ ((v : GoString) × (get namespace k s ≡ some v)))
unfolding list
list_iff namespace s n =
    let f = is_empty_of_ne namespace n in
    let d = values_of namespace s in
    rw (list, f)
      (
        sort_strings-IsSorted (keys d),
        λ k. rw (get-values_of namespace k s) (
          λ h. (In-keys_iff k d).0 ((In-sort_strings k (keys d)).0 h),
          λ h. (In-sort_strings k (keys d)).1 ((In-keys_iff k d).1 h),
        ),
      )

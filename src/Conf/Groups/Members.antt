-- ===== src/Conf/Groups/Members.antt =====
-- What the reverse index holds of a user.
use mathlib.Core.List.{append_assoc, append-nil}
use arupa.Base.{◌≡◌, ◌≢◌, ◌↔◌, inl, inr, refl, sym, ap, ◌∙◌, subst, Bool, true, false, List, []}
use arupa.Base.{◌∷◌, ◌++◌, some, GoString, string_eq, ◌==◌, if◌then◌else◌, contains, In}
use arupa.Base.{arith, not, ◌&&◌, Bool-cases, ==-cases}
use arupa.Base.Dict.{Dict, NodupKeys, lookup, insert, lookup-insert, lookup-In, In-lookup}
use arupa.Auth.Policy.{contains-In, In-contains}
use arupa.Strings.Sort.{sort_strings}
use arupa.Strings.Sort.Laws.{In-sort_strings}
use arupa.Conf.Types.{Slice, elements, GoMap, entries}
use arupa.Conf.Groups.{at, index_users, index_all, sort_values, index_groups_by_user}

-- The groups that list the user, in the order of the map.
unfoldable pub groups_of : GoString → Dict GoString Slice → List GoString
groups_of username [] = []
groups_of username ((group, users) ∷ groups) =
    let rest = groups_of username groups in
    if contains (elements users) username then group ∷ rest else rest

at-insert :
    (u v : GoString) (gs : List GoString) (index : Dict GoString (List GoString))
    → at u (insert v gs index) ≡ (if v == u then gs else at u index)
unfolding at
at-insert u v gs index = ground (arith, lookup-insert u v gs index)

at-index_users :
    (u g : GoString) (seen users : List GoString) (index : Dict GoString (List GoString))
    → at u (index_users g seen users index)
      ≡ (if contains users u && not (contains seen u) then at u index ++ (g ∷ []) else at u index)
unfolding index_users
at-index_users u g seen [] index = refl
at-index_users u g seen (v ∷ users) index = elim (Bool-cases (contains seen v)) [
  | inl t ↦ elim (==-cases u v) [
    | inl (e, q) ↦
        let c : contains seen u ≡ true = ap (λ x. contains seen x) q ∙ t in
        rw t (at-index_users u g seen users index ∙ rw (c, e) (ground arith))
    | inr (f, _) ↦ rw (t, f) (at-index_users u g seen users index)
  ]
  | inr n ↦ elim (==-cases u v) [
    | inl (e, q) ↦
        let c : contains seen u ≡ false = ap (λ x. contains seen x) q ∙ n in
        rw n (
          at-index_users u g (v ∷ seen) users (insert v (at v index ++ (g ∷ [])) index)
          ∙ rw (e, c)
              (ground
                (arith, at-insert u v (at v index ++ (g ∷ [])) index, ap (λ x. at x index) q)))
    | inr (f, d) ↦ rw n (
        at-index_users u g (v ∷ seen) users (insert v (at v index ++ (g ∷ [])) index)
        ∙ rw f (ground (arith, at-insert u v (at v index ++ (g ∷ [])) index)))
  ]
]

at-index_all :
    (u : GoString) (groups : Dict GoString Slice) (index : Dict GoString (List GoString))
    → at u (index_all groups index) ≡ at u index ++ groups_of u groups
unfolding index_all groups_of
at-index_all u [] index = sym (append-nil (at u index))
at-index_all u ((g, users) ∷ groups) index =
    at-index_all u groups (index_users g [] (elements users) index)
    ∙ elim (Bool-cases (contains (elements users) u)) [
      | inl t ↦
          let e : at u (index_users g [] (elements users) index) ≡ at u index ++ (g ∷ []) =
            at-index_users u g [] (elements users) index ∙ rw t refl in
          rw (e, t) (append_assoc (at u index) (g ∷ []) (groups_of u groups))
      | inr f ↦
          let e : at u (index_users g [] (elements users) index) ≡ at u index =
            at-index_users u g [] (elements users) index ∙ rw f refl in
          rw (e, f) refl
    ]

at-sort_values :
    (u : GoString) (index : Dict GoString (List GoString))
    → at u (sort_values index) ≡ sort_strings (at u index)
unfolding at sort_values lookup sort_strings
at-sort_values u [] = refl
at-sort_values u ((v, gs) ∷ index) = elim (==-cases v u) [
  | inl (t, _) ↦ rw (at, t, lookup) refl
  | inr (f, _) ↦ rw (at, f, lookup) (at-sort_values u index)
]

-- The groups of a user are read off the configured groups: those that list the user, sorted.
pub at-index_groups_by_user :
    (u : GoString) (groups : GoMap Slice)
    → at u (index_groups_by_user groups) ≡ sort_strings (groups_of u (entries groups))
unfolding index_groups_by_user groups_of lookup at sort_strings
at-index_groups_by_user u groups = by (entries groups)
  where
    by :
        (d : Dict GoString Slice)
        → at u (elim d [ [] ↦ [] | entry ∷ rest ↦ sort_values (index_all (entry ∷ rest) []) ])
          ≡ sort_strings (groups_of u d)
    by [] = refl
    by (entry ∷ rest) =
        at-sort_values u (index_all (entry ∷ rest) [])
        ∙ ap (λ gs. sort_strings gs) (at-index_all u (entry ∷ rest) [])

groups_of_iff :
    (u g : GoString) (groups : Dict GoString Slice)
    → In g (groups_of u groups) ↔ ((users : Slice) × In (g, users) groups × In u (elements users))
unfolding groups_of
groups_of_iff u g [] = (λ h. absurd h, λ (_, h, _). absurd h)
groups_of_iff u g ((k, users) ∷ groups) = elim (Bool-cases (contains (elements users) u)) [
  | inr f ↦ rw f (
    λ h. let (us, l, m) = (groups_of_iff u g groups).0 h in (us, inr l, m),
    λ (us, l, m). elim l [
      | inr l' ↦ (groups_of_iff u g groups).1 (us, l', m)
      | inl e ↦ absurd (
          clash (
            sym f
            ∙ In-contains (elements users) u
                (subst (λ x. In u (elements x)) (sym (ap (λ (x : GoString × Slice). x.1) e)) m)))
    ],
  )
  | inl t ↦ rw t (
    λ h. elim h [
      | inl e ↦ (users, inl (λ i. (e i, users)), contains-In (elements users) u t)
      | inr h' ↦ let (us, l, m) = (groups_of_iff u g groups).0 h' in (us, inr l, m)
    ],
    λ (us, l, m). elim l [
      | inl e ↦ inl (ap (λ (x : GoString × Slice). x.0) e)
      | inr l' ↦ inr ((groups_of_iff u g groups).1 (us, l', m))
    ],
  )
]
  where
    clash : ◌≢◌ {A = Bool} false true
    clash q = cc

-- The groups that the index gives for a user are those whose configured members include the user,
-- where the group names are distinct.
pub In-index_groups_by_user_iff :
    (u g : GoString) (groups : GoMap Slice)
    → NodupKeys (entries groups)
    → In g (at u (index_groups_by_user groups))
      ↔ ((users : Slice) × (lookup g (entries groups) ≡ some users) × In u (elements users))
In-index_groups_by_user_iff u g groups n = (
  λ h.
      let (us, l, m) =
        (groups_of_iff u g (entries groups)).0
          ((In-sort_strings g _).0 (subst (λ gs. In g gs) (at-index_groups_by_user u groups) h)) in
      (us, In-lookup g us (entries groups) n l, m),
  λ (us, l, m).
      subst (λ gs. In g gs) (sym (at-index_groups_by_user u groups))
        ((In-sort_strings g _).1
          ((groups_of_iff u g (entries groups)).1 (us, lookup-In g us (entries groups) l, m))),
)

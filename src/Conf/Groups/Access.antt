-- ===== src/Conf/Groups/Access.antt =====
-- Access policies over the configured groups.
use arupa.Base.{◌≡◌, ◌≢◌, ◌↔◌, ◌⊎◌, inl, inr, refl, true, List, []}
use arupa.Base.{some, GoString, string_eq, In, is_empty_of_ne}
use arupa.Base.Dict.{NodupKeys, lookup}
use arupa.Auth.Policy.{User, AccessPolicy, AccessDecision, check, check_iff, user_for_username}
use arupa.Conf.Types.{Slice, elements, GoMap, entries}
use arupa.Conf.Groups.{at, index_groups_by_user}
use arupa.Conf.Groups.Members.{In-index_groups_by_user_iff}

-- `UserForUsername` over the configuration's groups.
abbrev pub configured_user : GoMap Slice → GoString → User
configured_user groups username =
    user_for_username (λ u. at u (index_groups_by_user groups)) username

-- The configuration lists the user in a group of the policy.
abbrev pub IsMember : GoMap Slice → GoString → List GoString → Type 0
IsMember groups username wanted =
    (group : GoString) × (users : Slice) × (lookup group (entries groups) ≡ some users)
    × In username (elements users)
    × In group wanted

module _ (groups : GoMap Slice) (distinct : NodupKeys (entries groups)) (username : GoString)
    (named : username ≢ []) where
  configured_user_lem : configured_user groups username ≡ record {
    username = username;
    groups = at username (index_groups_by_user groups);
    authenticated = true;
  }
  unfolding user_for_username
  configured_user_lem = rw (is_empty_of_ne username named) refl

  -- A policy allows a user with a name exactly if it names no group or the configuration lists the
  -- user in one of its groups, where the group names of the configuration are distinct.
  pub check-configured_iff :
      (p : AccessPolicy)
      → (check p (configured_user groups username) ≡ AccessDecision.access_allowed)
        ↔ ((p.groups ≡ []) ⊎ IsMember groups username p.groups)
  check-configured_iff p = rw configured_user_lem (
    λ h. elim ((check_iff p known).0.0 h) [
      | inl (_, e) ↦ inl e
      | inr (_, inl e) ↦ inl e
      | inr (_, inr (g, owned, wanted)) ↦
          let (users, l, m) = (In-index_groups_by_user_iff username g groups distinct).0 owned in
          inr (g, users, l, m, wanted)
    ],
    λ x. (check_iff p known).0.1 (
        inr (
          refl,
          elim x [
            | inl e ↦ inl e
            | inr (g, users, l, m, wanted) ↦ inr (
              g,
              (In-index_groups_by_user_iff username g groups distinct).1 (users, l, m),
              wanted,
            )
          ],
        )),
  )
    where
      known : User
      known = record {
        username = username;
        groups = at username (index_groups_by_user groups);
        authenticated = true;
      }

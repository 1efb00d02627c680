-- ===== src/Auth/RouteAccess/Unordered.antt =====
-- matchRouteAccess and the order in which the map of rules is walked.
use arupa.Base.{
  ◌≡◌, ◌↔◌, ◌⊎◌, [], true, false, if◌then◌else◌, inl, inr, refl, sym, ap, ◌∙◌, List, Option, some,
  none, GoString,
}
use arupa.Base.{string_eq, Option-cases, In, pos, length, subst}
use arupa.Base.Dict.{Dict, NodupKeys, In-lookup}
use arupa.Base.Result.{ok}
use arupa.Netx.Path.{parse_method_path_pattern, method_match_rank, root_path_exact}
use arupa.Netx.Path.Matching.{match_path_pattern-injective}
use arupa.Netx.Path.Rank.{method_match_rank-injective}
use arupa.Netx.Path.Keys.{parse_key-injective}
use mathlib.Core.Path.{ap₂}
use arupa.Auth.Policy.{User, AccessPolicy, AccessDecision, access_allowed, check, check_iff, Share}
use arupa.Auth.Policy.{access_authentication_required, access_forbidden, IsPublic}
use arupa.Auth.RouteAccess.{route_access, next, rejected, is_rejection}
use arupa.Auth.RouteAccess.{Score, rule_score, match_route_access}
use arupa.Auth.RouteAccess.Order.{not_better_antisym}
use arupa.Auth.RouteAccess.Winner.{Governs, rule_score-inv, match_route_access-Governs}
use arupa.Auth.RouteAccess.Winner.{match_route_access-none}

-- Two walks over one map.
abbrev pub SameEntries : Dict GoString (List GoString) → Dict GoString (List GoString) → Type 0
SameEntries a b = (k : GoString) (v : List GoString) → In (k, v) a ↔ In (k, v) b

module _ (method path : GoString) where
  -- Rules that apply and are equally specific are one rule.
  rule_score-injective :
      (key other : GoString) (s t : Score)
      → rule_score method path key ≡ some s
      → rule_score method path other ≡ some t
      → s.path_length ≡ t.path_length
      → s.method_rank ≡ t.method_rank
      → key ≡ other
  rule_score-injective key other s t h k e f =
      let (rule, parsed, m, p, s_is) = rule_score-inv method path key s h in
      let (rule', parsed', m', p', t_is) = rule_score-inv method path other t k in
      let lengths : pos (length rule.path) ≡ pos (length rule'.path) =
        sym (ap (λ (x : Score). x.path_length) s_is) ∙ e ∙ ap (λ (x : Score). x.path_length) t_is in
      let ranks : method_match_rank method rule.method ≡ method_match_rank method rule'.method =
        sym (ap (λ (x : Score). x.method_rank) s_is) ∙ f ∙ ap (λ (x : Score). x.method_rank) t_is in
      let paths : rule.path ≡ rule'.path =
        match_path_pattern-injective path rule.path rule'.path root_path_exact root_path_exact p p'
          (pos-injective lengths) in
      let methods : rule.method ≡ rule'.method =
        method_match_rank-injective method rule.method rule'.method m m' ranks in
      let same : rule' ≡ rule = λ i. record { method = sym methods i; path = sym paths i } in
      parse_key-injective key other rule parsed
        (subst (λ r. parse_method_path_pattern other ≡ ok r) same parsed')
    where
      pos-injective : {a b : _} → pos a ≡ pos b → a ≡ b
      pos-injective h = cc

  Governs-unique :
      (allow other : Dict GoString (List GoString)) (key key' : GoString)
      (groups groups' : List GoString)
      → SameEntries allow other
      → NodupKeys allow
      → Governs method path allow key groups
      → Governs method path other key' groups'
      → (key ≡ key') × (groups ≡ groups')
  Governs-unique allow other key key' groups groups' same distinct g g' =
      let listed' = (same key' groups').1 g'.listed in
      let le = g'.most_specific key groups g.score ((same key groups).0 g.listed) g.applies in
      let ge = g.most_specific key' groups' g'.score listed' g'.applies in
      let (e, f) = not_better_antisym g.score g'.score le ge in
      let keys = rule_score-injective key key' g.score g'.score g.applies g'.applies e f in
      let found = In-lookup key groups allow distinct g.listed in
      let found' = In-lookup key' groups' allow distinct listed' in (keys, cc)

  -- A rule that governs is the one that is found.
  Governs-found :
      (allow other : Dict GoString (List GoString)) (key : GoString) (groups : List GoString)
      → SameEntries allow other
      → NodupKeys allow
      → Governs method path allow key groups
      → match_route_access method path other ≡ some (key, groups)
  Governs-found allow other key groups same distinct g =
      elim (Option-cases (match_route_access method path other)) [
        | inl missed ↦
            let unscored =
              match_route_access-none method path other missed key groups
                ((same key groups).0 g.listed) in
            absurd (clash (sym unscored ∙ g.applies))
        | inr ((key', groups'), found) ↦
            let g' = match_route_access-Governs method path other key' groups' found in
            let (e, f) = Governs-unique allow other key key' groups groups' same distinct g g' in
            found ∙ ap₂ (λ k gs. some (k, gs)) (sym e) (sym f)
      ]
    where
      clash : {s : Score} → ◌≡◌ {A = Option Score} none (some s) → ⊥
      clash q = cc

  -- Walking the map of rules in another order chooses the same rule.
  pub match_route_access-unordered :
      (allow other : Dict GoString (List GoString))
      → SameEntries allow other
      → NodupKeys allow
      → match_route_access method path allow ≡ match_route_access method path other
  match_route_access-unordered allow other same distinct =
      elim (Option-cases (match_route_access method path allow)) [
        | inl missed ↦ elim (Option-cases (match_route_access method path other)) [
          | inl missed' ↦ missed ∙ sym missed'
          | inr ((key, groups), found) ↦
              let g = match_route_access-Governs method path other key groups found in
              let unscored =
                match_route_access-none method path allow missed key groups
                  ((same key groups).1 g.listed) in
              absurd (clash (sym unscored ∙ g.applies))
        ]
        | inr ((key, groups), found) ↦
            found
            ∙ sym (
                Governs-found allow other key groups same distinct
                  (match_route_access-Governs method path allow key groups found))
      ]
    where
      clash : {s : Score} → ◌≡◌ {A = Option Score} none (some s) → ⊥
      clash q = cc

  -- Where a rule governs the request, the middleware lets it pass exactly if the rule names no
  -- group or the user is authenticated and in one of its groups.
  pub route_access_iff :
      (allow : Dict GoString (List GoString)) (key : GoString) (groups : List GoString) (u : User)
      → NodupKeys allow
      → Governs method path allow key groups
      → (route_access method path allow u ≡ next)
        ↔ ((groups ≡ []) ⊎ ((u.authenticated ≡ true) × Share u.groups groups))
  unfolding route_access
  route_access_iff allow key groups u distinct g =
      let found = Governs-found allow allow key groups (λ k v. (λ h. h, λ h. h)) distinct g in
      let policy : AccessPolicy = record { require_auth = false; groups = groups } in
      let (to, from) = (check_iff policy u).0 in
      (
        λ h. simplify (to (passed (check policy u) (rw (found, route_access) at h))),
        λ c. rw (found, route_access, from (restore c)),
      )
    where
      passed :
          (d : AccessDecision)
          → (if is_rejection d then rejected d else next) ≡ next
          → d ≡ access_allowed
      passed access_allowed h = refl
      passed access_authentication_required h = cc
      passed access_forbidden h = cc

      simplify :
          IsPublic (record { require_auth = false; groups = groups })
            ⊎ ((u.authenticated ≡ true) × ((groups ≡ []) ⊎ Share u.groups groups))
          → (groups ≡ []) ⊎ ((u.authenticated ≡ true) × Share u.groups groups)
      simplify (inl (_, e)) = inl e
      simplify (inr (t, inl e)) = inl e
      simplify (inr (t, inr s)) = inr (t, s)

      restore :
          (groups ≡ []) ⊎ ((u.authenticated ≡ true) × Share u.groups groups)
          → IsPublic (record { require_auth = false; groups = groups })
            ⊎ ((u.authenticated ≡ true) × ((groups ≡ []) ⊎ Share u.groups groups))
      restore (inl e) = inl (refl, e)
      restore (inr (t, s)) = inr (t, inr s)

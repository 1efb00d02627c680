-- ===== src/Auth/Examples.antt =====
-- Runs of internal/auth, and its theorems at concrete users, policies and rules.
mod Sessions
use arupa.Base.{◌≡◌, refl, ◌↔◌, ◌⊎◌, inl, inr, true, false, [], ◌∷◌, GoString, List, some}
use arupa.Base.{string_eq, In}
use arupa.Base.Dict.{Dict, NodupKeys, lookup}
use arupa.Strings.{bytes, has_prefix, has_suffix, cut, to_upper}
use arupa.Netx.Path.{
  parse_method_path_pattern, validate_path_pattern, valid_http_token, is_token_byte,
  match_method_path_pattern, match_path_pattern, method_matches, method_match_rank,
}
use arupa.Auth.Policy.{
  User, AccessPolicy, access_allowed, access_authentication_required, check, has_any_group,
  IsPublic, Share, check_iff,
}
use arupa.Auth.RouteAccess.{
  match_route_access, route_access, next, rule_score, not_better, consider,
}
use arupa.Auth.RouteAccess.Winner.{Governs, match_route_access-Governs}
use arupa.Auth.RouteAccess.Unordered.{SameEntries, match_route_access-unordered, route_access_iff}

abbrev alice : User
alice = record { username = bytes "alice"; groups = bytes "ops" ∷ []; authenticated = true }

abbrev staff_only : AccessPolicy
staff_only = record { require_auth = false; groups = bytes "staff" ∷ bytes "ops" ∷ [] }

alice_allowed : check staff_only alice ≡ access_allowed
unfolding check has_any_group string_eq
alice_allowed = refl

check_iff_example :
    ((check staff_only alice ≡ access_allowed) ↔ (
      IsPublic staff_only
      ⊎ ((alice.authenticated ≡ true)
          × ((staff_only.groups ≡ []) ⊎ Share alice.groups staff_only.groups))))
    × ((check staff_only alice ≡ access_authentication_required)
        ↔ ((¬ IsPublic staff_only) × (alice.authenticated ≡ false)))
check_iff_example = check_iff staff_only alice

abbrev rules : Dict GoString (List GoString)
rules =
    (bytes "/api/", bytes "staff" ∷ [])
    ∷ (bytes "PUT:/api/", bytes "ops" ∷ [])
    ∷ (bytes "/", [])
    ∷ []

abbrev turned : Dict GoString (List GoString)
turned =
    (bytes "/", [])
    ∷ (bytes "PUT:/api/", bytes "ops" ∷ [])
    ∷ (bytes "/api/", bytes "staff" ∷ [])
    ∷ []

put_rule :
    match_route_access (bytes "PUT") (bytes "/api/x") rules
    ≡ some (bytes "PUT:/api/", bytes "ops" ∷ [])
unfolding match_route_access consider rule_score not_better parse_method_path_pattern
    validate_path_pattern valid_http_token is_token_byte match_method_path_pattern
    match_path_pattern method_matches method_match_rank has_prefix has_suffix cut to_upper string_eq
put_rule = refl

rules_distinct : NodupKeys rules
unfolding lookup string_eq
rules_distinct = (refl, (refl, (refl, tt)))

turn : {A : Type 0} (x a b c : A) → In x (a ∷ b ∷ c ∷ []) → In x (c ∷ b ∷ a ∷ [])
turn x a b c (inl p) = inr (inr (inl p))
turn x a b c (inr (inl q)) = inr (inl q)
turn x a b c (inr (inr (inl r))) = inl r
turn x a b c (inr (inr (inr h))) = absurd h

same_rules : SameEntries rules turned
same_rules k v = (turn (k, v) _ _ _, turn (k, v) _ _ _)

match_route_access-unordered_example :
    match_route_access (bytes "PUT") (bytes "/api/x") rules
    ≡ match_route_access (bytes "PUT") (bytes "/api/x") turned
match_route_access-unordered_example =
    match_route_access-unordered (bytes "PUT") (bytes "/api/x") rules turned same_rules
      rules_distinct

put-Governs : Governs (bytes "PUT") (bytes "/api/x") rules (bytes "PUT:/api/") (bytes "ops" ∷ [])
put-Governs =
    match_route_access-Governs (bytes "PUT") (bytes "/api/x") rules (bytes "PUT:/api/")
      (bytes "ops" ∷ []) put_rule

route_access_iff_example : (route_access (bytes "PUT") (bytes "/api/x") rules alice ≡ next) ↔ (
    (bytes "ops" ∷ [] ≡ [])
    ⊎ ((alice.authenticated ≡ true) × Share alice.groups (bytes "ops" ∷ [])))
route_access_iff_example =
    route_access_iff (bytes "PUT") (bytes "/api/x") rules (bytes "PUT:/api/") (bytes "ops" ∷ [])
      alice rules_distinct put-Governs

-- ===== src/Auth/RouteAccess.antt =====
-- internal/auth/middleware.go: the host's access rules, which apply before any handler runs.
pub mod Order
pub mod Winner
pub mod Unordered
use arupa.Base.{Bool, true, false, not, ◌&&◌, ◌||◌, List, [], ◌∷◌, Option, none, some, GoString}
use arupa.Base.{if◌then◌else◌, is_empty, length, ℤ, pos, negsuc, ltbℤ, lebℤ, eqbℤ}
use arupa.Base.Dict.{Dict}
use arupa.Base.Result.{Result, ok, err}
use arupa.Netx.Path.{MethodPathPattern, PathError, parse_method_path_pattern, method_match_rank}
use arupa.Netx.Path.{match_method_path_pattern, root_path_exact}
use arupa.Auth.Policy.{User, AccessDecision, access_allowed, check}

-- How specific a rule is for a request: the length of its path, then the rank of its method.
pub record Score : Type 0 where
  pub path_length : ℤ
  pub method_rank : ℤ

-- The local variables of the loop: the key and the groups chosen so far, with their score.
pub record Choice : Type 0 where
  pub best : GoString
  pub score : Score
  pub groups : List GoString

abbrev pub no_choice : Choice
no_choice = record {
  best = [];
  score = record { path_length = negsuc 0; method_rank = negsuc 0 };
  groups = [];
}

-- The score of a rule that applies to the request; `none` where the loop continues.
parsed_score : GoString → GoString → Result PathError MethodPathPattern → Option Score
parsed_score method path (err e) = none
parsed_score method path (ok pattern) =
    if not (match_method_path_pattern method path pattern root_path_exact)
    then none
    else some (record {
      path_length = pos (length pattern.path);
      method_rank = method_match_rank method pattern.method;
    })

unfoldable pub rule_score : GoString → GoString → GoString → Option Score
unfolding parsed_score
rule_score method path key = parsed_score method path (parse_method_path_pattern key)

-- `pathLength < bestPathLength || (pathLength == bestPathLength && methodRank <= bestMethodRank)`
unfoldable pub not_better : Score → Score → Bool
not_better a b =
    ltbℤ a.path_length b.path_length
    || (eqbℤ a.path_length b.path_length && lebℤ a.method_rank b.method_rank)

-- One round of the loop.
unfoldable pub consider : GoString → GoString → Choice → GoString → List GoString → Choice
consider method path chosen key groups = elim (rule_score method path key) [
  | none ↦ chosen
  | some score ↦
      if not_better score chosen.score
      then chosen
      else record { best = key; score = score; groups = groups }
]

unfoldable pub match_from : GoString → GoString → Choice → Dict GoString (List GoString) → Choice
match_from method path chosen [] = chosen
match_from method path chosen ((key, groups) ∷ allow) =
    match_from method path (consider method path chosen key groups) allow

-- The return values: the last one, `best != ""`, says whether there is a rule.
abbrev pub returned : Choice → Option (GoString × List GoString)
returned chosen = if is_empty chosen.best then none else some (chosen.best, chosen.groups)

-- `matchRouteAccess`: the key that was chosen and its groups, or `none` if no rule applies.
unfoldable pub match_route_access :
    GoString → GoString → Dict GoString (List GoString) → Option (GoString × List GoString)
unfolding match_from
match_route_access method path allow = returned (match_from method path no_choice allow)

-- What the middleware does with a request: pass it to the next handler, or answer it.
pub data RouteOutcome : Type 0 where
  next : RouteOutcome
  rejected : AccessDecision → RouteOutcome

abbrev is_rejection : AccessDecision → Bool
is_rejection AccessDecision.access_allowed = false
is_rejection _ = true

-- `RouteAccess`, at the rules that the configuration holds when the request arrives.
unfoldable pub route_access :
    GoString → GoString → Dict GoString (List GoString) → User → RouteOutcome
route_access method path allow user = elim (match_route_access method path allow) [
  | none ↦ next
  | some (_, groups) ↦
      let decision = check (record { require_auth = false; groups = groups }) user in
      if is_rejection decision then rejected decision else next
]

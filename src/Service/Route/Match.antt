-- ===== src/Service/Route/Match.antt =====
-- Finding the route of a request.
pub mod Best
pub mod Select
pub mod Decides
use arupa.Base.{Bool, true, false, not, ◌&&◌, ◌||◌, List, [], ◌∷◌, Option, none, some, GoString}
use arupa.Base.{string_eq, ◌==◌, if◌then◌else◌, is_empty, contains, length, ltb}
use arupa.Base.Dict.{Dict}
use arupa.Strings.Sort.{sort_strings}
use arupa.Netx.Path.{match_path_pattern, RootPathMatchMode, root_path_exact, root_path_subtree}
use arupa.Service.Spec.{TransportType}
use arupa.Service.Transport.Prepare.{Binding}
use arupa.Service.Route.Register.{Bound, normalize_method, is_static}

abbrev is_proxy : TransportType → Bool
is_proxy TransportType.proxy = true
is_proxy _ = false

-- How the transport of a route reads the root pattern.
unfoldable pub root_mode : Binding → RootPathMatchMode
root_mode transport =
    if is_proxy transport.declared.kind
      || (is_static transport.declared.kind && transport.static_dir)
    then root_path_subtree
    else root_path_exact

-- The first loop: the longest pattern of an entry that matches.
unfoldable pub best_from : GoString → GoString → Dict (GoString × GoString) Bound → GoString
unfolding root_mode
best_from path best [] = best
best_from path best (((pattern, _), current) ∷ http) =
    best_from path
      (if match_path_pattern path pattern (root_mode current.transport)
          && ltb (length best) (length pattern)
        then pattern
        else best)
      http

-- The local variables of the second loop: the route without a method, and the set of methods.
pub record Seen : Type 0 where
  pub wildcard : Option Bound
  pub allowed : List GoString

-- `allowedSet[method] = struct{}{}`
abbrev pub add_method : GoString → List GoString → List GoString
add_method method allowed = if contains allowed method then allowed else method ∷ allowed

pub data Matched : Type 0 where
  found : Bound → Matched
  method_not_allowed : List GoString → Matched
  not_found : Matched

-- The second loop: the entries at the best pattern.
unfoldable pub select_method :
    GoString → GoString → Seen → Dict (GoString × GoString) Bound → Matched
select_method best method seen [] = elim seen.wildcard [
  | some current ↦ found current
  | none ↦ method_not_allowed (sort_strings seen.allowed)
]
select_method best method seen (((pattern, m), current) ∷ http) =
    let skipped = select_method best method seen http in
    let any_method = select_method best method (record seen { wildcard = some current }) http in
    let other =
      select_method best method (record seen { allowed = add_method m seen.allowed }) http in
    if not (pattern == best)
    then skipped
    else if m == method
    then found current
    else if is_empty m
    then any_method
    else other

unfoldable pub match_http : GoString → GoString → Dict (GoString × GoString) Bound → Matched
unfolding best_from select_method
match_http method path http =
    let best = best_from path [] http in
    if is_empty best
    then not_found
    else select_method best (normalize_method method) (record { wildcard = none; allowed = [] })
        http

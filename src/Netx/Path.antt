-- ===== src/Netx/Path.antt =====
-- internal/netx/path.go: the path patterns of access rules and of service routes.
pub mod Rank
pub mod Matching
pub mod Keys
use arupa.Base.{ℕ, ◌++◌, Bool, true, false, not, ◌&&◌, ◌||◌, List, [], ◌∷◌, Option, none, some}
use arupa.Base.{GoString, string_eq, ◌==◌, if◌then◌else◌, nat_eqb, leb, is_empty, all, contains}
use arupa.Base.{ℤ, pos, negsuc, lebℤ}
use arupa.Base.Result.{Result, ok, err, ◌>>=◌, ◌>>◌, reject_if}
use arupa.Strings.{bytes, has_prefix, has_suffix, cut, to_upper, trim_space}

pub data PathError : Type 0 where
  pattern_required no_leading_slash star_suffix bad_form bad_method method_in_path : PathError

abbrev pub slash : GoString
slash = bytes "/"

-- `MethodPathPattern`: the parsed form of a Route.Allow key; an empty method matches every method.
pub record MethodPathPattern : Type 0 where
  pub method : GoString
  pub path : GoString

unfoldable pub validate_path_pattern : GoString → Result PathError (Unit {0})
validate_path_pattern pattern = do
  reject_if (is_empty pattern) pattern_required
  reject_if (not (has_prefix pattern slash)) no_leading_slash
  reject_if (has_suffix pattern (bytes "/*")) star_suffix
  ok tt

-- `strings.ContainsRune("!#$%&'*+-.^_`|~", b)`
abbrev pub is_token_mark : ℕ → Bool
is_token_mark b =
    nat_eqb b b'!'
    || nat_eqb b b'#'
    || nat_eqb b b'$'
    || nat_eqb b b'%'
    || nat_eqb b b'&'
    || nat_eqb b 39
    || nat_eqb b b'*'
    || nat_eqb b b'+'
    || nat_eqb b b'-'
    || nat_eqb b b'.'
    || nat_eqb b b'^'
    || nat_eqb b b'_'
    || nat_eqb b b'`'
    || nat_eqb b b'|'
    || nat_eqb b b'~'

unfoldable pub is_token_byte : ℕ → Bool
is_token_byte b = (leb b'A' b && leb b b'Z') || (leb b'0' b && leb b b'9') || is_token_mark b

unfoldable pub valid_http_token : GoString → Bool
valid_http_token value = not (is_empty value) && all is_token_byte value

-- The part of the parser behind `strings.Cut(pattern, ":")`.
parse_qualified : Option (GoString × GoString) → Result PathError MethodPathPattern
parse_qualified none = err bad_form
parse_qualified (some (method, path)) = do
  reject_if (is_empty method || not (has_prefix path slash)) bad_form
  reject_if (not (method == to_upper method) || not (valid_http_token method)) bad_method
  validate_path_pattern path
  ok (record { method = method; path = path })

unfoldable pub parse_method_path_pattern : GoString → Result PathError MethodPathPattern
unfolding parse_qualified
parse_method_path_pattern pattern =
    if has_prefix pattern slash
    then (do validate_path_pattern pattern; ok (record { method = []; path = pattern }))
    else parse_qualified (cut pattern b':')

-- A key with its method written in front.
abbrev pub join_key : GoString → GoString → GoString
join_key method path = method ++ (b':' ∷ path)

format_plain : GoString → Result PathError GoString
format_plain path = do
  parsed ← parse_method_path_pattern path
  reject_if (not (is_empty parsed.method)) method_in_path
  ok parsed.path

format_qualified : GoString → GoString → Result PathError GoString
format_qualified method path = do
  parsed ← parse_method_path_pattern (join_key method path)
  ok (join_key method path)

unfoldable pub format_method_path_pattern : GoString → GoString → Result PathError GoString
unfolding format_plain format_qualified
format_method_path_pattern method path =
    let trimmed = trim_space method in
    if is_empty trimmed then format_plain path else format_qualified trimmed path

abbrev pub method_get : GoString
method_get = bytes "GET"

abbrev pub method_head : GoString
method_head = bytes "HEAD"

-- An exact method beats GET's cover of HEAD, which beats a rule without a method.
unfoldable pub method_match_rank : GoString → GoString → ℤ
method_match_rank request_method rule_method =
    if rule_method == request_method
    then pos 2
    else if request_method == method_head && rule_method == method_get
    then pos 1
    else if is_empty rule_method
    then pos 0
    else negsuc 0

unfoldable pub method_matches : GoString → GoString → Bool
method_matches request_method rule_method =
    lebℤ (pos 0) (method_match_rank request_method rule_method)

-- `RootPathMatchMode`: whether the pattern "/" is the root alone or every absolute path.
pub data RootPathMatchMode : Type 0 where
  root_path_exact root_path_subtree : RootPathMatchMode

abbrev pub is_subtree : RootPathMatchMode → Bool
is_subtree root_path_exact = false
is_subtree root_path_subtree = true

unfoldable pub match_path_pattern : GoString → GoString → RootPathMatchMode → Bool
match_path_pattern path pattern root_mode =
    if is_empty path || is_empty pattern
    then false
    else if pattern == slash
    then (is_subtree root_mode && has_prefix path slash) || path == slash
    else if has_suffix pattern slash
    then has_prefix path pattern
    else path == pattern

unfoldable pub match_method_path_pattern :
    GoString → GoString → MethodPathPattern → RootPathMatchMode → Bool
match_method_path_pattern method path pattern root_mode =
    if not (method_matches method pattern.method)
    then false
    else match_path_pattern path pattern.path root_mode

-- ===== src/Netx/Examples.antt =====
-- Runs of internal/netx/path.go, and its theorems at concrete patterns.
use arupa.Base.{◌≡◌, refl, ◌↔◌, inr, true, GoString, string_eq}
use arupa.Base.Result.{ok, err}
use arupa.Strings.{bytes, trim_space, has_prefix, has_suffix, cut, to_upper}
use arupa.Netx.Path.{
  MethodPathPattern, root_path_exact, bad_form, bad_method, star_suffix, validate_path_pattern,
  valid_http_token, is_token_byte, match_path_pattern, parse_method_path_pattern,
  format_method_path_pattern, method_matches,
}
use arupa.Netx.Path.Matching.{CoversPath, match_path_pattern_iff}
use arupa.Netx.Path.Rank.{CoversMethod, method_matches_iff}
use arupa.Netx.Path.Keys.{
  IsRule, key_of, parse_key_iff, format_key_round_trip, format_method_with_colon,
}

abbrev app : GoString
app = bytes "/app/"

abbrev users : GoString
users = bytes "/app/users"

abbrev patch_users : MethodPathPattern
patch_users = record { method = bytes "PATCH"; path = bytes "/api/user/" }

parse_patch : parse_method_path_pattern (bytes "PATCH:/api/user/") ≡ ok patch_users
unfolding parse_method_path_pattern validate_path_pattern valid_http_token is_token_byte has_prefix
    has_suffix cut to_upper string_eq
parse_patch = refl

parse_refusals :
    (parse_method_path_pattern (bytes "PATCH") ≡ err bad_form)
    × (parse_method_path_pattern (bytes "patch:/a") ≡ err bad_method)
    × (parse_method_path_pattern (bytes "/a/*") ≡ err star_suffix)
unfolding parse_method_path_pattern validate_path_pattern valid_http_token is_token_byte has_prefix
    has_suffix cut to_upper string_eq
parse_refusals = (refl, refl, refl)

app_matches : match_path_pattern users app root_path_exact ≡ true
unfolding match_path_pattern has_prefix has_suffix string_eq
app_matches = refl

match_path_pattern_iff_example :
    (match_path_pattern users app root_path_exact ≡ true) ↔ CoversPath root_path_exact users app
match_path_pattern_iff_example = match_path_pattern_iff users app root_path_exact

method_matches_iff_example :
    (method_matches (bytes "HEAD") (bytes "GET") ≡ true) ↔ CoversMethod (bytes "HEAD") (bytes "GET")
method_matches_iff_example = method_matches_iff (bytes "HEAD") (bytes "GET")

parse_key_iff_example :
    (parse_method_path_pattern (bytes "PATCH:/api/user/") ≡ ok patch_users)
    ↔ ((bytes "PATCH:/api/user/" ≡ key_of patch_users.method patch_users.path) × IsRule patch_users)
parse_key_iff_example = parse_key_iff (bytes "PATCH:/api/user/") patch_users

format_key_round_trip_example :
    (key : GoString) × (format_method_path_pattern (bytes " PUT ") app ≡ ok key)
    × (parse_method_path_pattern key
        ≡ ok (record { method = trim_space (bytes " PUT "); path = app }))
unfolding validate_path_pattern valid_http_token is_token_byte has_prefix has_suffix trim_space
format_key_round_trip_example = format_key_round_trip (bytes " PUT ") app refl (inr refl)

-- The method "GET:/x" and the path "/p" give the key of a rule on GET for "/x:/p".
format_method_with_colon_example :
    (key : GoString) × (format_method_path_pattern (bytes "GET:/x") (bytes "/p") ≡ ok key)
    × (parse_method_path_pattern key ≡ ok (record { method = bytes "GET"; path = bytes "/x:/p" }))
unfolding validate_path_pattern valid_http_token is_token_byte has_prefix has_suffix trim_space
format_method_with_colon_example =
    format_method_with_colon (bytes "GET") (bytes "/x") (bytes "/p") refl refl refl

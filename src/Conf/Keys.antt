-- ===== src/Conf/Keys.antt =====
-- internal/conf/conf.go: validTOMLKey, which keeps the case of every field.
pub mod Schema
use arupa.Base.{Bool, true, false, ◌&&◌, ◌||◌, List, [], ◌∷◌, GoString, string_eq, ◌==◌}
use arupa.Base.{if◌then◌else◌, is_empty, all}
use arupa.Strings.{bytes}

-- The keys below a field, `key[1:]`.
valid_log_key : List GoString → Bool
valid_log_key [] = true
valid_log_key (field ∷ rest) = is_empty rest && (field == bytes "Format" || field == bytes "Level")

valid_api_key : List GoString → Bool
valid_api_key [] = true
valid_api_key (field ∷ rest) =
    if is_empty rest
    then field == bytes "User"
      || field == bytes "Group"
      || field == bytes "Pages"
      || field == bytes "Access"
      || field == bytes "Service"
      || field == bytes "Log"
      || field == bytes "Network"
    else false

valid_map_key : List GoString → Bool
valid_map_key [] = true
valid_map_key (name ∷ rest) = is_empty rest

valid_route_key : List GoString → Bool
unfolding valid_map_key
valid_route_key [] = true
valid_route_key (field ∷ rest) = field == bytes "Allow" && valid_map_key rest

valid_service_key : List GoString → Bool
unfolding valid_map_key
valid_service_key [] = true
valid_service_key (name ∷ []) = true
valid_service_key (name ∷ field ∷ rest) =
    if field == bytes "Restart"
      || field == bytes "RunAsUser"
      || field == bytes "Checksum"
      || field == bytes "Allow"
    then is_empty rest
    else if field == bytes "Params"
    then valid_map_key rest
    else false

unfoldable pub valid_toml_key : List GoString → Bool
unfolding valid_log_key valid_api_key valid_map_key valid_route_key valid_service_key
valid_toml_key [] = true
valid_toml_key (field ∷ rest) =
    if field == bytes "Listen"
      || field == bytes "TLS"
      || field == bytes "ServiceDir"
      || field == bytes "ServiceTempDir"
    then is_empty rest
    else if field == bytes "Log"
    then valid_log_key rest
    else if field == bytes "API"
    then valid_api_key rest
    else if field == bytes "Users" || field == bytes "Groups" || field == bytes "Pages"
    then valid_map_key rest
    else if field == bytes "Route"
    then valid_route_key rest
    else if field == bytes "Services"
    then valid_service_key rest
    else false

-- `validateTOMLKeys`
unfoldable pub validate_toml_keys : List (List GoString) → Bool
unfolding valid_toml_key
validate_toml_keys keys = all (λ key. valid_toml_key key) keys

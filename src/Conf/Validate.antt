-- ===== src/Conf/Validate.antt =====
-- internal/conf/conf.go: the checks of a configuration.
pub mod Level
pub mod Parts
pub mod Accepts
use arupa.Base.{
  ℕ, ◌+◌, ◌-◌, ◌*◌, Bool, true, false, not, ◌&&◌, ◌||◌, List, [], ◌∷◌, Option, none, some,
}
use arupa.Base.{GoString, string_eq, ◌==◌, if◌then◌else◌, is_empty, nat_eqb, ltb, leb}
use arupa.Base.Dict.{Dict}
use arupa.Base.Result.{Result, ok, err, ◌>>=◌, ◌>>◌, reject_if}
use arupa.Strings.{bytes, trim_space, to_lower, to_upper}
use arupa.Netx.Path.{PathError, parse_method_path_pattern}
use arupa.Conf.Types.{Config, LogConfig, Service, Slice, GoMap, entries}
use arupa.Conf.Services.{ServiceError, sha256_checksum}

pub data ConfigError : Type 0 where
  bad_route : PathError → ConfigError
  bad_format bad_level : ConfigError
  bad_service : GoString → ServiceError → ConfigError

-- `defaults.Log`
abbrev default_log : LogConfig
default_log = record { format = bytes "json"; level = bytes "info" }

unfoldable pub resolve_log : LogConfig → LogConfig
resolve_log current = record {
  format = if is_empty (trim_space current.format) then default_log.format else current.format;
  level = if is_empty (trim_space current.level) then default_log.level else current.level;
}

-- `validateRouteAllow`, in the order in which the loop meets the patterns.
unfoldable pub validate_patterns : Dict GoString Slice → Result ConfigError (Unit {0})
validate_patterns [] = ok tt
validate_patterns ((pattern, _) ∷ allow) = elim (parse_method_path_pattern pattern) [
  | err e ↦ err (ConfigError.bad_route e)
  | ok _ ↦ validate_patterns allow
]

-- `strconv.Atoi` of a sign and digits: the digits' number, and the bounds of 64 bits.
unfoldable pub decimal : GoString → ℕ → Option ℕ
decimal [] n = some n
decimal (c ∷ s) n = elim (leb b'0' c && leb c b'9') [
  | true ↦ decimal s (10 * n + (c - b'0'))
  | false ↦ none
]

unfoldable pub is_offset : (sign : ℕ) → GoString → Bool
unfolding decimal
is_offset sign [] = false
is_offset sign (c ∷ s) = elim (decimal (c ∷ s) 0) [
  | none ↦ false
  | some n ↦ leb n (if nat_eqb sign b'-' then 9223372036854775808 else 9223372036854775807)
]

-- What stands before the first sign, and the offset behind it, if there is one.
unfoldable pub level_parts : GoString → GoString × Option (ℕ × GoString)
level_parts [] = ([], none)
level_parts (c ∷ s) =
    let (name, offset) = level_parts s in
    if nat_eqb c b'+' || nat_eqb c b'-' then ([], some (c, s)) else (c ∷ name, offset)

-- Upper case, in which a dotless i (0xC4, 0xB1 in UTF-8) becomes an I as well.
unfoldable pub upper_dotless : GoString → GoString
upper_dotless [] = []
upper_dotless (a ∷ []) = a ∷ []
upper_dotless (a ∷ b ∷ s) = elim (nat_eqb a 0xC4 && nat_eqb b 0xB1) [
  | true ↦ b'I' ∷ upper_dotless s
  | false ↦ a ∷ upper_dotless (b ∷ s)
]

unfoldable pub is_level_name : GoString → Bool
unfolding upper_dotless
is_level_name name =
    let upper = to_upper (upper_dotless name) in
    upper == bytes "DEBUG"
    || upper == bytes "INFO"
    || upper == bytes "WARN"
    || upper == bytes "ERROR"

-- `level.UnmarshalText` of package log/slog succeeds.
unfoldable pub is_level : GoString → Bool
unfolding level_parts is_level_name is_offset
is_level s =
    let (name, offset) = level_parts s in
    is_level_name name
    && (elim offset [ none ↦ true | some (sign, digits) ↦ is_offset sign digits ])

unfoldable pub is_format : GoString → Bool
is_format s = let lower = to_lower (trim_space s) in lower == bytes "json" || lower == bytes "text"

unfoldable pub validate_log : LogConfig → Result ConfigError (Unit {0})
unfolding is_format is_level
validate_log log = do
  reject_if (not (is_format log.format)) ConfigError.bad_format
  reject_if (not (is_level (trim_space log.level))) ConfigError.bad_level
  ok tt

unfoldable pub validate_service_checksums : Dict GoString Service → Result ConfigError (Unit {0})
validate_service_checksums [] = ok tt
validate_service_checksums ((name, service) ∷ services) = elim (sha256_checksum service) [
  | err e ↦ err (ConfigError.bad_service name e)
  | ok _ ↦ validate_service_checksums services
]

unfoldable pub validate_config : Config → Result ConfigError (Unit {0})
unfolding validate_patterns validate_log resolve_log validate_service_checksums
validate_config cfg = do
  validate_patterns (entries cfg.route_allow)
  validate_log (resolve_log cfg.log)
  validate_service_checksums (entries cfg.services)

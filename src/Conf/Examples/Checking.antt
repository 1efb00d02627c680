-- ===== src/Conf/Examples/Checking.antt =====
-- Runs of internal/conf/services.go and of the checks of a configuration, and their theorems at
-- concrete services and configurations.
use arupa.Base.{◌≡◌, ◌↔◌, refl, true, [], ◌∷◌, Option, none, some, GoString}
use arupa.Base.{string_eq, All, all, length, if◌then◌else◌, ◌==◌}
use arupa.Base.Dict.{Dict, NodupKeys, lookup, insert}
use arupa.Base.Result.{ok}
use arupa.Strings.{
  bytes, trim_space, has_prefix, has_suffix, trim_prefix, trim_suffix, cut, to_lower, to_upper,
  lower_byte, upper_byte,
}
use arupa.Conf.Types.{Service, Config, no_config, entries}
use arupa.Conf.Services.{
  ParamReference, parse_env_param_reference, resolve_params, sha256_checksum, equal_fold,
  decodes_to_digest,
}
use arupa.Conf.Services.Resolving.{Resolves}
use arupa.Conf.Services.Params.{Resolved, resolve_params_iff}
use arupa.Conf.Services.References.{IsWritten, parse_env_param_reference_iff}
use arupa.Conf.Services.Digest.{is_lower_hex, sha256_checksum-digest}
use arupa.Conf.Services.Checksum.{IsChecksum}
use arupa.Conf.Validate.{validate_config, is_level}
use arupa.Conf.Validate.Accepts.{IsKey, IsLog, validate_config_iff}

abbrev lookup_env : GoString → Option GoString
lookup_env name = if name == bytes "HOME" then some (bytes "/root") else none

-- A plain parameter, a variable that is set and one that may be unset.
abbrev service : Service
service = record {
  restart = bytes " Always ";
  run_as_user = [];
  checksum = bytes " SHA256:00112233445566778899AABBCCDDEEFF00112233445566778899aabbccddeeff";
  allow = none;
  params = some (
      (bytes "a", bytes "plain")
      ∷ (bytes "b", bytes "env://HOME")
      ∷ (bytes "c", bytes "env://X?")
      ∷ []);
}

service-NodupKeys : NodupKeys (entries service.params)
unfolding lookup string_eq
service-NodupKeys = (refl, (refl, (refl, tt)))

resolve_params_test :
    resolve_params (some lookup_env) service
    ≡ ok ((bytes "a", bytes "plain") ∷ (bytes "b", bytes "/root") ∷ (bytes "c", []) ∷ [])
unfolding resolve_params parse_env_param_reference has_prefix has_suffix trim_prefix trim_suffix
    trim_space insert string_eq
resolve_params_test = refl

resolve_params_iff_example :
    ((resolved : Dict GoString GoString)
      → resolve_params (some lookup_env) service ≡ ok resolved
      → Resolved lookup_env (entries service.params) resolved)
    × (((resolved : Dict GoString GoString) × (resolve_params (some lookup_env) service
            ≡ ok resolved))
        ↔ ((key raw : GoString)
            → lookup key (entries service.params) ≡ some raw
            → (value : GoString) × Resolves lookup_env raw value))
resolve_params_iff_example = resolve_params_iff lookup_env service service-NodupKeys

parse_env_param_reference_iff_example :
    (parse_env_param_reference (bytes "env://X?") ≡ ok (ParamReference.variable (bytes "X") true))
    ↔ IsWritten (bytes "env://X?") (ParamReference.variable (bytes "X") true)
parse_env_param_reference_iff_example =
    parse_env_param_reference_iff (bytes "env://X?") (ParamReference.variable (bytes "X") true)

abbrev digest : GoString
digest = bytes "00112233445566778899aabbccddeeff00112233445566778899aabbccddeeff"

sha256_checksum_test : sha256_checksum service ≡ ok (some digest)
unfolding sha256_checksum decodes_to_digest equal_fold to_lower lower_byte trim_space cut string_eq
sha256_checksum_test = refl

sha256_checksum-digest_example : (length digest ≡ 64) × (all is_lower_hex digest ≡ true)
sha256_checksum-digest_example = sha256_checksum-digest service digest sha256_checksum_test

abbrev config : Config
config = record no_config {
  route_allow = some ((bytes "GET:/api/", some (bytes "staff" ∷ [])) ∷ []);
  log = record { format = bytes "TEXT"; level = bytes "warn+1" };
}

is_level_test : is_level (bytes "warn+1") ≡ true
unfolding is_level to_upper upper_byte string_eq
is_level_test = refl

validate_config_iff_example : (validate_config config ≡ ok tt) ↔ (
    All (λ (key, _). IsKey key) (entries config.route_allow)
    × IsLog config.log
    × All (λ (_, service). IsChecksum service.checksum) (entries config.services))
validate_config_iff_example = validate_config_iff config

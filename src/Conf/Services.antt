-- ===== src/Conf/Services.antt =====
-- internal/conf/services.go: restart policies, checksums and parameters from the environment.
pub mod Params
pub mod Digest
pub mod EqualFold
pub mod Checksum
pub mod References
pub mod Resolving
use arupa.Base.{ℕ, ◌*◌, Bool, true, false, not, ◌&&◌, ◌||◌, [], ◌∷◌, Option}
use arupa.Base.{none, some, GoString, string_eq, ◌==◌, if◌then◌else◌, is_empty, nat_eqb, leb, all}
use arupa.Base.{length, contains}
use arupa.Base.Dict.{Dict, insert}
use arupa.Base.Result.{Result, ok, err, ◌>>◌, reject_if}
use arupa.Strings.{
  bytes, has_prefix, has_suffix, trim_prefix, trim_suffix, cut, to_lower, trim_space,
}
use arupa.Conf.Types.{Service, entries}

pub data ServiceError : Type 0 where
  bad_checksum lookup_required empty_name spaced_name : ServiceError
  bad_param : GoString → ServiceError → ServiceError
  variable_not_set : GoString → ServiceError

-- `parseRestart`
unfoldable pub parse_restart : GoString → Bool
parse_restart v =
    contains
      (bytes "always"
        ∷ bytes "yes"
        ∷ bytes "true"
        ∷ bytes "on"
        ∷ bytes "enable"
        ∷ bytes "enabled"
        ∷ bytes "1"
        ∷ [])
      (to_lower (trim_space v))

unfoldable pub auto_start : Service → Bool
unfolding parse_restart
auto_start p = parse_restart p.restart

-- `strings.EqualFold` against a lower-case ASCII text with no k: outside ASCII only the long s
-- (0xC5, 0xBF in UTF-8) folds to one of its letters.
fold_long_s : GoString → GoString
fold_long_s [] = []
fold_long_s (a ∷ []) = a ∷ []
fold_long_s (a ∷ b ∷ s) = elim (nat_eqb a 0xC5 && nat_eqb b 0xBF) [
  | true ↦ b's' ∷ fold_long_s s
  | false ↦ a ∷ fold_long_s (b ∷ s)
]

unfoldable pub equal_fold : GoString → GoString → Bool
unfolding fold_long_s
equal_fold s lower = to_lower (fold_long_s s) == lower

abbrev pub is_hex_digit : ℕ → Bool
is_hex_digit c =
    (leb b'0' c && leb c b'9') || (leb b'a' c && leb c b'f') || (leb b'A' c && leb c b'F')

abbrev pub evenb : GoString → Bool
evenb [] = true
evenb (a ∷ []) = false
evenb (a ∷ b ∷ s) = evenb s

-- `hex.DecodeString` succeeds and gives 32 bytes.
unfoldable pub decodes_to_digest : GoString → Bool
decodes_to_digest digest =
    all is_hex_digit digest && evenb digest && nat_eqb (length digest) (2 * 32)

checksum_parts : Option (GoString × GoString) → Result ServiceError (Option GoString)
checksum_parts none = err ServiceError.bad_checksum
checksum_parts (some (algorithm, digest)) = do
  reject_if (not (equal_fold algorithm (bytes "sha256"))) ServiceError.bad_checksum
  reject_if (not (decodes_to_digest digest)) ServiceError.bad_checksum
  ok (some (to_lower digest))

-- `SHA256Checksum`: the digest where it is enabled.
unfoldable pub sha256_checksum : Service → Result ServiceError (Option GoString)
unfolding checksum_parts
sha256_checksum p =
    let raw = trim_space p.checksum in
    if is_empty raw then ok none else checksum_parts (cut raw b':')

-- What `parseEnvParamReference` returns beside an error.
pub data ParamReference : Type 0 where
  literal : ParamReference
  variable : (name : GoString) → (optional : Bool) → ParamReference

abbrev env_param_prefix : GoString
env_param_prefix = bytes "env://"

abbrev env_param_optional : GoString
env_param_optional = bytes "?"

unfoldable pub parse_env_param_reference : GoString → Result ServiceError ParamReference
parse_env_param_reference raw =
    if not (has_prefix raw env_param_prefix) then ok ParamReference.literal else do
      let rest = trim_prefix raw env_param_prefix
      let optional = has_suffix rest env_param_optional
      let name = if optional then trim_suffix rest env_param_optional else rest
      reject_if (is_empty name) ServiceError.empty_name
      reject_if (not (trim_space name == name)) ServiceError.spaced_name
      ok (ParamReference.variable name optional)

-- The value of one parameter.
resolve_reference :
    (GoString → Option GoString) → GoString → ParamReference → Result ServiceError GoString
resolve_reference lookup_env raw ParamReference.literal = ok raw
resolve_reference lookup_env raw (ParamReference.variable name optional) = elim (lookup_env name) [
  | some value ↦ ok value
  | none ↦ if optional then ok [] else err (ServiceError.variable_not_set name)
]

unfoldable pub resolve_param :
    (GoString → Option GoString) → GoString → GoString → Result ServiceError GoString
unfolding resolve_reference parse_env_param_reference
resolve_param lookup_env key raw = elim (parse_env_param_reference raw) [
  | err e ↦ err (ServiceError.bad_param key e)
  | ok reference ↦ resolve_reference lookup_env raw reference
]

-- The loop over the parameters, in the order in which it meets them.
unfoldable pub resolve_all :
    (GoString → Option GoString)
    → Dict GoString GoString
    → Dict GoString GoString
    → Result ServiceError (Dict GoString GoString)
unfolding resolve_param
resolve_all lookup_env resolved [] = ok resolved
resolve_all lookup_env resolved ((key, raw) ∷ params) = elim (resolve_param lookup_env key raw) [
  | err e ↦ err e
  | ok value ↦ resolve_all lookup_env (insert key value resolved) params
]

-- `ResolveParams`; the environment may be a nil function.
unfoldable pub resolve_params :
    Option (GoString → Option GoString) → Service → Result ServiceError (Dict GoString GoString)
unfolding resolve_all
resolve_params none p = err ServiceError.lookup_required
resolve_params (some lookup_env) p = resolve_all lookup_env [] (entries p.params)

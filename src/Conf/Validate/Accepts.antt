-- ===== src/Conf/Validate/Accepts.antt =====
-- The configurations that the checks accept.
use arupa.Base.{◌≡◌, ◌≢◌, ◌↔◌, inl, inr, refl, sym, ◌∙◌, Bool, true, false, not, [], ◌∷◌, Option}
use arupa.Base.{GoString, string_eq, All, ◌⊎◌, Bool-cases, is_empty, is_empty_iff}
use arupa.Base.Dict.{Dict}
use arupa.Base.Result.{Result-cases, Result, ok, err, reject-ok, Unit-bind-ok}
use arupa.Strings.{bytes, trim_space, to_lower, to_upper, lower_byte, upper_byte}
use arupa.Netx.Path.{MethodPathPattern, PathError, parse_method_path_pattern}
use arupa.Netx.Path.Keys.{IsRule, key_of, parse_key_iff}
use arupa.Conf.Types.{Config, LogConfig, Service, Slice, entries}
use arupa.Conf.Services.{ServiceError, sha256_checksum}
use arupa.Conf.Services.Checksum.{IsChecksum, sha256_checksum_iff}
use arupa.Conf.Validate.Level.{IsFormat, IsLevel, is_format_iff}
use arupa.Conf.Validate.Parts.{is_level_iff}
use arupa.Conf.Validate.{
  ConfigError, resolve_log, validate_patterns, validate_log, validate_service_checksums,
  validate_config, is_format, is_level,
}

-- The text is the key of a rule that is well formed.
abbrev pub IsKey : GoString → Type 0
IsKey key = (rule : MethodPathPattern) × (key ≡ key_of rule.method rule.path) × IsRule rule

err-ne-ok : {e : ConfigError} → ◌≢◌ {A = Result ConfigError (Unit {0})} (err e) (ok tt)
err-ne-ok q = cc

patterns_iff :
    (allow : Dict GoString Slice)
    → (validate_patterns allow ≡ ok tt) ↔ All (λ (key, _). IsKey key) allow
unfolding validate_patterns
patterns_iff [] = (λ _. tt, λ _. refl)
patterns_iff ((key, groups) ∷ allow) = elim (Result-cases (parse_method_path_pattern key)) [
  | inl (e, q) ↦ (
    λ h. absurd (err-ne-ok (rw (validate_patterns, q) at h)),
    λ ((rule, k, v), _). absurd (clash (sym q ∙ (parse_key_iff key rule).1 (k, v))),
  )
  | inr (rule, q) ↦ (
    λ h.
        let (k, v) = (parse_key_iff key rule).0 q in
        ((rule, k, v), (patterns_iff allow).0 (rw (validate_patterns, q) at h)),
    λ (_, rest). rw (validate_patterns, q) ((patterns_iff allow).1 rest),
  )
]
  where
    clash :
        {e : PathError} {rule : MethodPathPattern}
        → ◌≢◌ {A = Result PathError MethodPathPattern} (err e) (ok rule)
    clash q = cc

log_iff :
    (log : LogConfig)
    → (validate_log log ≡ ok tt)
      ↔ ((is_format log.format ≡ true) × (is_level (trim_space log.level) ≡ true))
unfolding validate_log
log_iff log = (
  λ h.
      let (f, h1) = reject-ok (not (is_format log.format)) _ _ h in
      let (l, _) = reject-ok (not (is_level (trim_space log.level))) _ _ h1 in
      (not-false (is_format log.format) f, not-false (is_level (trim_space log.level)) l),
  λ (f, l). rw (validate_log, f, l) refl,
)
  where
    not-false : (b : Bool) → not b ≡ false → b ≡ true
    not-false true h = refl
    not-false false h = absurd (clash h)
      where
        clash : ◌≢◌ {A = Bool} true false
        clash q = cc

json-accepted : is_format (bytes "json") ≡ true
unfolding is_format trim_space to_lower lower_byte string_eq
json-accepted = refl

info-accepted : is_level (trim_space (bytes "info")) ≡ true
unfolding is_level trim_space to_upper upper_byte string_eq
info-accepted = refl

-- A log format and a log level that are blank or known.
abbrev pub IsLog : LogConfig → Type 0
IsLog log =
    ((trim_space log.format ≡ []) ⊎ IsFormat log.format)
    × ((trim_space log.level ≡ []) ⊎ IsLevel (trim_space log.level))

format_iff :
    (log : LogConfig)
    → (is_format (resolve_log log).format ≡ true)
      ↔ ((trim_space log.format ≡ []) ⊎ IsFormat log.format)
unfolding resolve_log
format_iff log = elim (Bool-cases (is_empty (trim_space log.format))) [
  | inl t ↦
      rw (resolve_log, t)
        (λ _. inl ((is_empty_iff (trim_space log.format)).0 t), λ _. json-accepted)
  | inr f ↦
      rw (resolve_log, f)
        (
          λ h. inr ((is_format_iff log.format).0 h),
          λ x. elim x [
            | inl e ↦ absurd (clash (sym f ∙ (is_empty_iff (trim_space log.format)).1 e))
            | inr k ↦ (is_format_iff log.format).1 k
          ],
        )
]
  where
    clash : ◌≢◌ {A = Bool} false true
    clash q = cc

level_iff :
    (log : LogConfig)
    → (is_level (trim_space (resolve_log log).level) ≡ true)
      ↔ ((trim_space log.level ≡ []) ⊎ IsLevel (trim_space log.level))
unfolding resolve_log
level_iff log = elim (Bool-cases (is_empty (trim_space log.level))) [
  | inl t ↦
      rw (resolve_log, t) (λ _. inl ((is_empty_iff (trim_space log.level)).0 t), λ _. info-accepted)
  | inr f ↦
      rw (resolve_log, f)
        (
          λ h. inr ((is_level_iff (trim_space log.level)).0 h),
          λ x. elim x [
            | inl e ↦ absurd (clash (sym f ∙ (is_empty_iff (trim_space log.level)).1 e))
            | inr k ↦ (is_level_iff (trim_space log.level)).1 k
          ],
        )
]
  where
    clash : ◌≢◌ {A = Bool} false true
    clash q = cc

services_iff :
    (services : Dict GoString Service)
    → (validate_service_checksums services ≡ ok tt)
      ↔ All (λ (_, service). IsChecksum service.checksum) services
unfolding validate_service_checksums
services_iff [] = (λ _. tt, λ _. refl)
services_iff ((name, service) ∷ services) = elim (Result-cases (sha256_checksum service)) [
  | inl (e, q) ↦ (
    λ h. absurd (err-ne-ok (rw (validate_service_checksums, q) at h)),
    λ (c, _). let (digest, k) = (sha256_checksum_iff service).1 c in absurd (clash (sym q ∙ k)),
  )
  | inr (digest, q) ↦ (
    λ h. (
      (sha256_checksum_iff service).0 (digest, q),
      (services_iff services).0 (rw (validate_service_checksums, q) at h),
    ),
    λ (_, rest). rw (validate_service_checksums, q) ((services_iff services).1 rest),
  )
]
  where
    clash :
        {e : ServiceError} {digest : Option GoString}
        → ◌≢◌ {A = Result ServiceError (Option GoString)} (err e) (ok digest)
    clash q = cc

-- A configuration is accepted exactly if every key of its access rules is the key of a well
-- formed rule; its log format is blank, "json" or "text", in any case; its log level is blank,
-- or "debug", "info", "warn" or "error" in any case, where the i may be the dotless i of
-- Unicode, with a number of 64 bits behind a sign or without; and the checksum of every service
-- is empty, or "sha256" in any case, where the s may be the long s, a colon and 64 hexadecimal
-- digits; where white space around a format, a level and a checksum does not count.
pub validate_config_iff :
    (cfg : Config)
    → (validate_config cfg ≡ ok tt) ↔ (
        All (λ (key, _). IsKey key) (entries cfg.route_allow)
        × IsLog cfg.log
        × All (λ (_, service). IsChecksum service.checksum) (entries cfg.services))
unfolding validate_config
validate_config_iff cfg = (
  λ h.
      let (p, h1) = Unit-bind-ok (validate_patterns (entries cfg.route_allow)) _ h in
      let (l, s) = Unit-bind-ok (validate_log (resolve_log cfg.log)) _ h1 in
      let (format, level) = (log_iff (resolve_log cfg.log)).0 l in
      (
        (patterns_iff (entries cfg.route_allow)).0 p,
        ((format_iff cfg.log).0 format, (level_iff cfg.log).0 level),
        (services_iff (entries cfg.services)).0 s,
      ),
  λ (p, (format, level), s).
      rw
        (
          validate_config,
          (patterns_iff (entries cfg.route_allow)).1 p,
          (log_iff (resolve_log cfg.log)).1
              ((format_iff cfg.log).1 format, (level_iff cfg.log).1 level),
          (services_iff (entries cfg.services)).1 s,
        )
        refl,
)

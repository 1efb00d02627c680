-- ===== src/Conf/Services/References.antt =====
-- References to the environment in the parameters of a service.
use mathlib.Core.List.{reverse-append, reverse-reverse}
use arupa.Base.{◌≡◌, ◌≢◌, ◌↔◌, inl, inr, refl, sym, ap, ◌∙◌, subst, Bool, true, false, not, []}
use arupa.Base.{◌∷◌, ◌++◌, GoString, string_eq, ◌==◌, ==_self, ==-cases, if◌then◌else◌, is_empty}
use arupa.Base.{is_empty_iff, is_empty_of_ne, Bool-cases, drop, length, reverse}
use arupa.Base.Result.{Result, ok, ◌>>◌, reject_if, reject-ok, ok-injective}
use arupa.Strings.{bytes, has_prefix, has_suffix, trim_prefix, trim_suffix, trim_space}
use arupa.Strings.Laws.{has_prefix-append, has_prefix-split, has_suffix-append, has_suffix-split}
use arupa.Conf.Services.{ServiceError, ParamReference, parse_env_param_reference}

-- The name of a variable: not empty, and without white space around it.
abbrev pub IsName : GoString → Type 0
IsName name = (name ≢ []) × (trim_space name ≡ name)

-- How a reference is written: "env://NAME", or "env://NAME?" when the variable may be unset.
abbrev pub IsWritten : GoString → ParamReference → Type 0
IsWritten raw ParamReference.literal = has_prefix raw (bytes "env://") ≡ false
IsWritten raw (ParamReference.variable name true) =
    IsName name × (raw ≡ bytes "env://" ++ (name ++ bytes "?"))
IsWritten raw (ParamReference.variable name false) =
    IsName name × (raw ≡ bytes "env://" ++ name) × (has_suffix name (bytes "?") ≡ false)

named : Bool → GoString → Result ServiceError ParamReference
named optional name = do
  reject_if (is_empty name) ServiceError.empty_name
  reject_if (not (trim_space name == name)) ServiceError.spaced_name
  ok (ParamReference.variable name optional)

drop-append : (p r : GoString) → drop (length p) (p ++ r) ≡ r
drop-append [] r = refl
drop-append (a ∷ p) r = drop-append p r

trim_prefix-append : (p r : GoString) → trim_prefix (p ++ r) p ≡ r
unfolding trim_prefix
trim_prefix-append p r = rw (trim_prefix, has_prefix-append p r) (drop-append p r)

trim_optional : (r : GoString) → trim_suffix (r ++ bytes "?") (bytes "?") ≡ r
unfolding trim_suffix
trim_optional r =
    rw (trim_suffix, has_suffix-append r (bytes "?"))
      (ap (λ t. reverse (drop 1 t)) (reverse-append r (bytes "?")) ∙ reverse-reverse r)

parse-variable :
    (rest : GoString)
    → parse_env_param_reference (bytes "env://" ++ rest)
      ≡ named
          (has_suffix rest (bytes "?"))
          (if has_suffix rest (bytes "?") then trim_suffix rest (bytes "?") else rest)
unfolding parse_env_param_reference named
parse-variable rest =
    rw
      (
        parse_env_param_reference,
        has_prefix-append (bytes "env://") rest,
        trim_prefix-append (bytes "env://") rest,
      )
      refl

named_iff :
    (optional : Bool) (name : GoString) (reference : ParamReference)
    → (named optional name ≡ ok reference)
      ↔ (IsName name × (ParamReference.variable name optional ≡ reference))
unfolding named
named_iff optional name reference = (read, written)
  where
    read :
        named optional name ≡ ok reference
        → IsName name × (ParamReference.variable name optional ≡ reference)
    read h =
        let (n, h1) = reject-ok (is_empty name) _ _ h in
        let (t, h2) = reject-ok (not (trim_space name == name)) _ _ h1 in
        ((λ e. true-ne-false (sym ((is_empty_iff name).1 e) ∙ n), trimmed t), ok-injective h2)
      where
        true-ne-false : ◌≢◌ {A = Bool} true false
        true-ne-false q = cc

        trimmed : not (trim_space name == name) ≡ false → trim_space name ≡ name
        trimmed t = elim (==-cases (trim_space name) name) [
          | inl (_, e) ↦ e
          | inr (f, _) ↦ absurd (true-ne-false (ap not (sym f) ∙ t))
        ]

    written :
        IsName name × (ParamReference.variable name optional ≡ reference)
        → named optional name ≡ ok reference
    written ((n, t), e) = rw (named, is_empty_of_ne name n, t, ==_self name) (ap (λ r. ok r) e)

parse-literal :
    (raw : GoString)
    → has_prefix raw (bytes "env://") ≡ false
    → parse_env_param_reference raw ≡ ok ParamReference.literal
unfolding parse_env_param_reference
parse-literal raw f = rw (parse_env_param_reference, f) refl

-- What stands behind the prefix.
rest-IsWritten :
    (rest : GoString) (reference : ParamReference)
    → (let optional = has_suffix rest (bytes "?") in
        named optional (if optional then trim_suffix rest (bytes "?") else rest) ≡ ok reference)
    → IsWritten (bytes "env://" ++ rest) reference
rest-IsWritten rest reference h = elim (Bool-cases (has_suffix rest (bytes "?"))) [
  | inl t ↦
      let (name, e) = has_suffix-split rest (bytes "?") t in
      let trimmed : trim_suffix rest (bytes "?") ≡ name =
        ap (λ r. trim_suffix r (bytes "?")) e ∙ trim_optional name in
      let (n, q) =
        (named_iff true name reference).0 (ap (λ m. named true m) (sym trimmed) ∙ (rw t at h)) in
      subst (λ r. IsWritten (bytes "env://" ++ rest) r) q (n, ap (λ r. bytes "env://" ++ r) e)
  | inr f ↦
      let (n, q) = (named_iff false rest reference).0 (rw f at h) in
      subst (λ r. IsWritten (bytes "env://" ++ rest) r) q (n, refl, f)
]

-- A parameter is read as a reference, or as no reference, exactly if it is written as one.
pub parse_env_param_reference_iff :
    (raw : GoString) (reference : ParamReference)
    → (parse_env_param_reference raw ≡ ok reference) ↔ IsWritten raw reference
parse_env_param_reference_iff raw reference = (read, written reference)
  where
    read : parse_env_param_reference raw ≡ ok reference → IsWritten raw reference
    read h = elim (Bool-cases (has_prefix raw (bytes "env://"))) [
      | inr f ↦ subst (λ r. IsWritten raw r) (ok-injective (sym (parse-literal raw f) ∙ h)) f
      | inl t ↦
          let (rest, e) = has_prefix-split raw (bytes "env://") t in
          subst (λ w. IsWritten w reference) (sym e)
            (rest-IsWritten rest reference
              (sym (parse-variable rest) ∙ ap (λ w. parse_env_param_reference w) (sym e) ∙ h))
    ]

    written :
        (reference : ParamReference)
        → IsWritten raw reference
        → parse_env_param_reference raw ≡ ok reference
    written ParamReference.literal f = parse-literal raw f
    written (ParamReference.variable name true) (n, e) =
        ap (λ w. parse_env_param_reference w) e
        ∙ parse-variable (name ++ bytes "?")
        ∙ rw (has_suffix-append name (bytes "?"), trim_optional name)
            ((named_iff true name _).1 (n, refl))
    written (ParamReference.variable name false) (n, e, f) =
        ap (λ w. parse_env_param_reference w) e
        ∙ parse-variable name
        ∙ rw f ((named_iff false name _).1 (n, refl))

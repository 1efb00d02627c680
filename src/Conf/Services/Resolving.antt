-- ===== src/Conf/Services/Resolving.antt =====
-- What one parameter of a service resolves to.
use arupa.Base.{◌≡◌, ◌≢◌, ◌⊎◌, ◌↔◌, inl, inr, refl, sym, ap, ◌∙◌, Bool, true, false, []}
use arupa.Base.{Option, none, some, Option-cases, GoString}
use arupa.Base.Result.{Result, ok, err, Result-cases, ok-injective}
use arupa.Conf.Services.{
  ServiceError, ParamReference, parse_env_param_reference, resolve_reference, resolve_param,
}
use arupa.Conf.Services.References.{IsWritten, parse_env_param_reference_iff}

-- The value of what is no reference is what is written; that of a variable is what the environment
-- holds under its name, or empty where it holds nothing and the variable may be unset.
abbrev pub Gives : (GoString → Option GoString) → GoString → ParamReference → GoString → Type 0
Gives lookup_env raw ParamReference.literal value = raw ≡ value
Gives lookup_env raw (ParamReference.variable name optional) value =
    (lookup_env name ≡ some value) ⊎ ((lookup_env name ≡ none) × (optional ≡ true) × (value ≡ []))

-- A parameter resolves to a value.
abbrev pub Resolves : (GoString → Option GoString) → GoString → GoString → Type 0
Resolves lookup_env raw value =
    (reference : ParamReference) × IsWritten raw reference × Gives lookup_env raw reference value

none-ne-some : {value : GoString} → ◌≢◌ {A = Option GoString} none (some value)
none-ne-some q = cc

module _ (lookup_env : GoString → Option GoString) where
  unset :
      (raw name value : GoString) (optional : Bool)
      → lookup_env name ≡ none
      → (resolve_reference lookup_env raw (ParamReference.variable name optional) ≡ ok value)
        ↔ Gives lookup_env raw (ParamReference.variable name optional) value
  unfolding resolve_reference
  unset raw name value true n = (
    λ h. inr (n, refl, sym (ok-injective (rw (resolve_reference, n) at h))),
    λ given. elim given [
      | inl s ↦ absurd (none-ne-some (sym n ∙ s))
      | inr (_, _, e) ↦ rw (resolve_reference, n) (ap (λ v. ok v) (sym e))
    ],
  )
  unset raw name value false n = (
    λ h. absurd (failed (rw (resolve_reference, n) at h)),
    λ given. elim given [
      | inl s ↦ absurd (none-ne-some (sym n ∙ s))
      | inr (_, t, _) ↦ absurd (required t)
    ],
  )
    where
      failed :
          ◌≢◌ {A = Result ServiceError GoString}
            (err (ServiceError.variable_not_set name))
            (ok value)
      failed q = cc

      required : ◌≢◌ {A = Bool} false true
      required q = cc

  resolve_reference_iff :
      (raw value : GoString) (reference : ParamReference)
      → (resolve_reference lookup_env raw reference ≡ ok value)
        ↔ Gives lookup_env raw reference value
  unfolding resolve_reference
  resolve_reference_iff raw value ParamReference.literal =
      (λ h. ok-injective h, λ e. ap (λ v. ok v) e)
  resolve_reference_iff raw value (ParamReference.variable name optional) =
      elim (Option-cases (lookup_env name)) [
        | inl n ↦ unset raw name value optional n
        | inr (held, s) ↦ (
          λ h. inl (s ∙ ap (λ v. some v) (ok-injective (rw (resolve_reference, s) at h))),
          λ given. elim given [
            | inl q ↦ rw (resolve_reference, q) refl
            | inr (n, _, _) ↦ absurd (none-ne-some (sym n ∙ s))
          ],
        )
      ]

  -- The code gives a parameter the value that it resolves to, whatever its key.
  pub resolve_param_iff :
      (key raw value : GoString)
      → (resolve_param lookup_env key raw ≡ ok value) ↔ Resolves lookup_env raw value
  unfolding resolve_param
  resolve_param_iff key raw value = (read, given)
    where
      clash : (e : ServiceError) → ◌≢◌ {A = Result ServiceError GoString} (err e) (ok value)
      clash e q = cc

      read : resolve_param lookup_env key raw ≡ ok value → Resolves lookup_env raw value
      read h = elim (Result-cases (parse_env_param_reference raw)) [
        | inl (e, q) ↦ absurd (clash (ServiceError.bad_param key e) (rw (resolve_param, q) at h))
        | inr (reference, q) ↦ (
          reference,
          (parse_env_param_reference_iff raw reference).0 q,
          (resolve_reference_iff raw value reference).0 (rw (resolve_param, q) at h),
        )
      ]

      given : Resolves lookup_env raw value → resolve_param lookup_env key raw ≡ ok value
      given (reference, written, g) =
          rw (resolve_param, (parse_env_param_reference_iff raw reference).1 written)
            ((resolve_reference_iff raw value reference).1 g)

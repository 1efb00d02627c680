-- ===== src/Conf/Services/Params.antt =====
-- The parameters that a service is given.
use arupa.Base.{◌≡◌, ◌≢◌, ◌↔◌, inl, inr, refl, sym, ap, ◌∙◌, [], ◌∷◌, Option}
use arupa.Base.{none, some, GoString, string_eq, ==-cases, ==_self}
use arupa.Base.Dict.{
  Dict, NodupKeys, lookup, insert, lookup-insert_self, lookup-insert_ne, lookup-nil,
}
use arupa.Base.Result.{Result-cases, Result, ok, err, ok-injective}
use arupa.Conf.Types.{Service, entries}
use arupa.Conf.Services.{ServiceError, resolve_param, resolve_all, resolve_params}
use arupa.Conf.Services.Resolving.{Resolves, resolve_param_iff}

-- The resolved parameters are those that are configured, each with a value that it resolves to.
abbrev pub Resolved :
    (GoString → Option GoString) → Dict GoString GoString → Dict GoString GoString → Type 0
Resolved lookup_env params resolved =
    (key : GoString)
    → (lookup key params ≡ none → lookup key resolved ≡ none)
      × ((raw : GoString)
          → lookup key params ≡ some raw
          → (value : GoString) × Resolves lookup_env raw value × (lookup key resolved ≡ some value))

none-ne-some : {raw : GoString} → ◌≢◌ {A = Option GoString} none (some raw)
none-ne-some q = cc

some-injective : {a b : GoString} → ◌≡◌ {A = Option GoString} (some a) (some b) → a ≡ b
some-injective q = cc

here : (k w : GoString) (params : Dict GoString GoString) → lookup k ((k, w) ∷ params) ≡ some w
unfolding lookup
here k w params = rw (lookup, ==_self k) refl

lookup-behind :
    (k w : GoString) (params : Dict GoString GoString) (key raw : GoString)
    → lookup k params ≡ none
    → lookup key params ≡ some raw
    → lookup key ((k, w) ∷ params) ≡ some raw
unfolding lookup
lookup-behind k w params key raw m h = elim (==-cases k key) [
  | inl (_, e) ↦ absurd (none-ne-some (sym m ∙ ap (λ n. lookup n params) e ∙ h))
  | inr (f, _) ↦ rw (lookup, f) h
]

module _ (lookup_env : GoString → Option GoString) where
  -- What the loop gives: the parameters on its way, and what was there before elsewhere.
  abbrev Kept : Dict GoString GoString → Dict GoString GoString → Dict GoString GoString → Type 0
  Kept before params resolved =
      (key : GoString)
      → (lookup key params ≡ none → lookup key resolved ≡ lookup key before)
        × ((raw : GoString)
            → lookup key params ≡ some raw
            → (value : GoString) × (resolve_param lookup_env key raw ≡ ok value)
              × (lookup key resolved ≡ some value))

  step-Kept :
      (k w value : GoString) (params before resolved : Dict GoString GoString)
      → lookup k params ≡ none
      → resolve_param lookup_env k w ≡ ok value
      → Kept (insert k value before) params resolved
      → Kept before ((k, w) ∷ params) resolved
  unfolding lookup
  step-Kept k w value params before resolved m q later key = elim (==-cases k key) [
    | inl (t, e) ↦ (
      λ h. absurd (none-ne-some {raw = w} (sym h ∙ rw (lookup, t) refl)),
      λ raw h.
          let same : w ≡ raw = some-injective (rw (lookup, t) at h) in
          (
            value,
            ap (λ n. resolve_param lookup_env n raw) (sym e)
                ∙ ap (λ r. resolve_param lookup_env k r) (sym same)
                ∙ q,
            (later key).0 (ap (λ n. lookup n params) (sym e) ∙ m)
                ∙ ap (λ n. lookup n (insert k value before)) (sym e)
                ∙ lookup-insert_self k value before,
          ),
    )
    | inr (f, d) ↦ (
      λ h. (later key).0 (rw (lookup, f) at h) ∙ lookup-insert_ne value before d,
      λ raw h. (later key).1 raw (rw (lookup, f) at h),
    )
  ]

  resolve_all-Kept :
      (params before resolved : Dict GoString GoString)
      → NodupKeys params
      → resolve_all lookup_env before params ≡ ok resolved
      → Kept before params resolved
  unfolding resolve_all
  resolve_all-Kept [] before resolved n h = λ key. (
    λ _. ap (λ d. lookup key d) (sym (ok-injective h)),
    λ raw q. absurd (none-ne-some (sym (lookup-nil key) ∙ q)),
  )
  resolve_all-Kept ((k, w) ∷ params) before resolved (m, n) h =
      elim (Result-cases (resolve_param lookup_env k w)) [
        | inl (e, q) ↦ absurd (clash e (rw (resolve_all, q) at h))
        | inr (value, q) ↦
            step-Kept k w value params before resolved m q (
              resolve_all-Kept params (insert k value before) resolved n (rw (resolve_all, q) at h))
      ]
    where
      clash :
          (e : ServiceError)
          → ◌≢◌ {A = Result ServiceError (Dict GoString GoString)} (err e) (ok resolved)
      clash e q = cc

  resolve_all-ok :
      (params before : Dict GoString GoString)
      → NodupKeys params
      → ((key raw : GoString)
          → lookup key params ≡ some raw
          → (value : GoString) × (resolve_param lookup_env key raw ≡ ok value))
      → (resolved : Dict GoString GoString) × (resolve_all lookup_env before params ≡ ok resolved)
  unfolding resolve_all
  resolve_all-ok [] before n all = (before, refl)
  resolve_all-ok ((k, w) ∷ params) before (m, n) all =
      let (value, q) = all k w (here k w params) in
      let (resolved, h) =
        resolve_all-ok params (insert k value before) n
          (λ key raw h. all key raw (behind key raw h)) in
      (resolved, rw (resolve_all, q) h)
    where
      behind :
          (key raw : GoString)
          → lookup key params ≡ some raw
          → lookup key ((k, w) ∷ params) ≡ some raw
      behind key raw h = lookup-behind k w params key raw m h

  -- A service whose parameter names are distinct is given exactly the parameters that it is
  -- configured with, each with the value that it resolves to, and it is given them exactly if every
  -- one of them resolves: what does not begin with env:// is its own value, and a well-written
  -- reference gives what the environment holds under its name, or the empty value where the
  -- environment holds nothing and the reference ends in a question mark.
  pub resolve_params_iff :
      (p : Service)
      → NodupKeys (entries p.params)
      → ((resolved : Dict GoString GoString)
          → resolve_params (some lookup_env) p ≡ ok resolved
          → Resolved lookup_env (entries p.params) resolved)
        × (((resolved : Dict GoString GoString) × (resolve_params (some lookup_env) p
                ≡ ok resolved))
            ↔ ((key raw : GoString)
                → lookup key (entries p.params) ≡ some raw
                → (value : GoString) × Resolves lookup_env raw value))
  unfolding resolve_params
  resolve_params_iff p n = (
    resolved,
    (
      λ (d, h) key raw q. let (value, e, _) = (resolved d h key).1 raw q in (value, e),
      λ all. resolve_all-ok (entries p.params) [] n (λ key raw q.
          let (value, e) = all key raw q in
          (value, (resolve_param_iff lookup_env key raw value).1 e)),
    ),
  )
    where
      resolved :
          (d : Dict GoString GoString)
          → resolve_params (some lookup_env) p ≡ ok d
          → Resolved lookup_env (entries p.params) d
      resolved d h key =
          let kept = resolve_all-Kept (entries p.params) [] d n h key in
          (
            λ q. kept.0 q ∙ lookup-nil key,
            λ raw q.
                let (value, e, l) = kept.1 raw q in
                (value, (resolve_param_iff lookup_env key raw value).0 e, l),
          )

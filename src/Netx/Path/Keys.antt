-- ===== src/Netx/Path/Keys.antt =====
-- Reading and writing the keys of access rules.
use mathlib.Core.List.{append_assoc}
use arupa.Base.{◌≡◌, refl, sym, ap, ◌∙◌, ◌≢◌, ◌↔◌, ◌⊎◌, inl, inr, Bool, true, false, [], ◌∷◌, arith}
use arupa.Base.{GoString, ◌==◌, ==_iff, Bool-cases, Option-cases, string_eq}
use arupa.Base.{is_empty, ℕ, All, all, some, none, nat_eqb, not, ◌||◌}
use arupa.Base.{if◌then◌else◌, is_empty_of_ne, subst}
use arupa.Base.Result.{reject-ok, Unit-bind-ok, ok-injective, ok, ◌>>◌}
use arupa.Strings.{has_prefix, cut, to_upper, upper_byte, trim_space}
use arupa.Strings.Laws.{cut-join, cut-append}
use arupa.Netx.Path.{
  MethodPathPattern, PathError, bad_form, bad_method, slash, join_key, is_token_byte,
  valid_http_token,
}
use arupa.Netx.Path.{validate_path_pattern, parse_qualified, parse_method_path_pattern}
use arupa.Netx.Path.{format_method_path_pattern, format_plain, format_qualified}

-- A rule that can be written as a key: its path is a pattern, its method is absent or a token.
pub record IsRule (rule : MethodPathPattern) : Type 0 where
  pub path_valid : validate_path_pattern rule.path ≡ ok tt
  pub method_valid : (rule.method ≡ []) ⊎ (valid_http_token rule.method ≡ true)

-- The key of a rule.
abbrev pub key_of : GoString → GoString → GoString
key_of [] path = path
key_of (b ∷ method) path = join_key (b ∷ method) path

valid_path-slash :
    (path : GoString) → validate_path_pattern path ≡ ok tt → has_prefix path slash ≡ true
unfolding validate_path_pattern
valid_path-slash path h = ground arith

token_byte_facts :
    (b : ℕ) → is_token_byte b ≡ true → (b ≢ b':') × (upper_byte b ≡ b) × (nat_eqb b b'/' ≡ false)
unfolding is_token_byte upper_byte
token_byte_facts b h = ground arith

tokens-to_upper : (m : GoString) → all is_token_byte m ≡ true → to_upper m ≡ m
unfolding to_upper
tokens-to_upper [] h = refl
tokens-to_upper (b ∷ m) h = ground (arith, token_byte_facts b, tokens-to_upper m)

tokens-no_colon : (m : GoString) → all is_token_byte m ≡ true → All (λ b. b ≢ b':') m
tokens-no_colon [] h = tt
tokens-no_colon (b ∷ m) h =
    ((token_byte_facts b (ground arith)).0, tokens-no_colon m (ground arith))

no_slash_first :
    (m path : GoString) → valid_http_token m ≡ true → has_prefix (join_key m path) slash ≡ false
unfolding valid_http_token has_prefix
no_slash_first [] path h = cc
no_slash_first (b ∷ m) path h = ground (arith, token_byte_facts b)

or-false : (a b : Bool) → (a || b) ≡ false → (a ≡ false) × (b ≡ false)
or-false a b h = ground arith

not-false : (b : Bool) → not b ≡ false → b ≡ true
not-false b h = ground arith

parse_qualified-key :
    (method path : GoString) (rule : MethodPathPattern)
    → parse_qualified (some (method, path)) ≡ ok rule
    → (record { method = method; path = path } ≡ rule) × IsRule rule
unfolding parse_qualified
parse_qualified-key method path rule h =
    let (_, h₁) = reject-ok (is_empty method || not (has_prefix path slash)) bad_form _ h in
    let (token, h₂) =
      reject-ok (not (method == to_upper method) || not (valid_http_token method)) bad_method _
        h₁ in
    let (checked, h₃) = Unit-bind-ok (validate_path_pattern path) _ h₂ in
    let e = ok-injective h₃ in
    (
      e,
      subst IsRule e (record {
        path_valid = checked;
        method_valid = inr (not-false _ (or-false _ _ token).1);
      }),
    )

key_of-nonempty : (m path : GoString) → m ≢ [] → key_of m path ≡ join_key m path
key_of-nonempty [] path n = absurd (n refl)
key_of-nonempty (b ∷ m) path n = refl

valid_token-bytes : (m : GoString) → valid_http_token m ≡ true → all is_token_byte m ≡ true
unfolding valid_http_token
valid_token-bytes [] h = refl
valid_token-bytes (b ∷ m) h = h

valid_token-ne-nil : (m : GoString) → valid_http_token m ≡ true → m ≢ []
unfolding valid_http_token
valid_token-ne-nil [] h = cc
valid_token-ne-nil (b ∷ m) h = λ e. cc

parse_qualified-method :
    (method path : GoString) (rule : MethodPathPattern)
    → parse_qualified (some (method, path)) ≡ ok rule
    → method ≢ []
unfolding parse_qualified
parse_qualified-method [] path rule h = cc
parse_qualified-method (b ∷ m) path rule h = λ e. cc

parse_plain :
    (key : GoString) (rule : MethodPathPattern)
    → (validate_path_pattern key >> ok (record { method = []; path = key })) ≡ ok rule
    → (key ≡ key_of rule.method rule.path) × IsRule rule
parse_plain key rule h =
    let (checked, h₁) = Unit-bind-ok {E = PathError} (validate_path_pattern key) _ h in
    subst (λ (r : MethodPathPattern). (key ≡ key_of r.method r.path) × IsRule r) (ok-injective h₁)
      (refl, record { path_valid = checked; method_valid = inl refl })

parse_key_sound :
    (key : GoString) (rule : MethodPathPattern)
    → parse_method_path_pattern key ≡ ok rule
    → (key ≡ key_of rule.method rule.path) × IsRule rule
unfolding parse_method_path_pattern
parse_key_sound key rule h = elim (Bool-cases (has_prefix key slash)) [
  | inl plain ↦ parse_plain key rule (rw plain at h)
  | inr named ↦ elim (Option-cases (cut key b':')) [
    | inl missed ↦ absurd (bad_form-ne (rw (named, missed) at h))
    | inr ((method, path), found) ↦
        let h' : parse_qualified (some (method, path)) ≡ ok rule = rw (named, found) at h in
        let (e, valid) = parse_qualified-key method path rule h' in
        let n = parse_qualified-method method path rule h' in
        (
          (cut-join key b':' method path found).0
              ∙ sym (key_of-nonempty method path n)
              ∙ ap (λ (r : MethodPathPattern). key_of r.method r.path) e,
          valid,
        )
  ]
]
  where
    bad_form-ne : parse_qualified none ≡ ok rule → ⊥
    bad_form-ne q = cc

parse-plain_path :
    (path : GoString)
    → validate_path_pattern path ≡ ok tt
    → parse_method_path_pattern path ≡ ok (record { method = []; path = path })
unfolding parse_method_path_pattern
parse-plain_path path h = rw (valid_path-slash path h, h)

parse_qualified-token :
    (m path : GoString)
    → valid_http_token m ≡ true
    → validate_path_pattern path ≡ ok tt
    → parse_qualified (some (m, path)) ≡ ok (record { method = m; path = path })
unfolding parse_qualified
parse_qualified-token m path t h =
    let upper : (m == to_upper m) ≡ true =
      (==_iff _ _).1 (sym (tokens-to_upper m (valid_token-bytes m t))) in
    rw (is_empty_of_ne m (valid_token-ne-nil m t), valid_path-slash path h, upper, t, h)

parse-token_path :
    (m path : GoString)
    → valid_http_token m ≡ true
    → validate_path_pattern path ≡ ok tt
    → parse_method_path_pattern (join_key m path) ≡ ok (record { method = m; path = path })
unfolding parse_method_path_pattern
parse-token_path m path t h =
    rw (no_slash_first m path t, cut-append m path b':' (tokens-no_colon m (valid_token-bytes m t)))
      (parse_qualified-token m path t h)

parse-key_of :
    (m path : GoString)
    → validate_path_pattern path ≡ ok tt
    → (m ≡ []) ⊎ (valid_http_token m ≡ true)
    → parse_method_path_pattern (key_of m path) ≡ ok (record { method = m; path = path })
parse-key_of [] path h c = parse-plain_path path h
parse-key_of (b ∷ m) path h (inl e) = cc
parse-key_of (b ∷ m) path h (inr t) = parse-token_path (b ∷ m) path t h

-- A key is read as a rule exactly when it is the key of that rule and the rule is well formed.
pub parse_key_iff :
    (key : GoString) (rule : MethodPathPattern)
    → (parse_method_path_pattern key ≡ ok rule)
      ↔ ((key ≡ key_of rule.method rule.path) × IsRule rule)
parse_key_iff key rule = (
  parse_key_sound key rule,
  λ (e, v). rw e (parse-key_of rule.method rule.path v.path_valid v.method_valid),
)

-- Two keys that are read as one rule are equal.
pub parse_key-injective :
    (key other : GoString) (rule : MethodPathPattern)
    → parse_method_path_pattern key ≡ ok rule
    → parse_method_path_pattern other ≡ ok rule
    → key ≡ other
parse_key-injective key other rule h k =
    (parse_key_sound key rule h).0 ∙ sym (parse_key_sound other rule k).0

-- Formatting a well formed rule writes its key, and reading that key gives the rule again. White
-- space around the method is dropped.
pub format_key_round_trip :
    (method path : GoString)
    → validate_path_pattern path ≡ ok tt
    → (trim_space method ≡ []) ⊎ (valid_http_token (trim_space method) ≡ true)
    → (key : GoString) × (format_method_path_pattern method path ≡ ok key)
      × (parse_method_path_pattern key ≡ ok (record { method = trim_space method; path = path }))
unfolding format_method_path_pattern
format_key_round_trip method path h c = (
  key_of (trim_space method) path,
  formats (trim_space method) c,
  parse-key_of (trim_space method) path h c,
)
  where
    formats :
        (m : GoString)
        → (m ≡ []) ⊎ (valid_http_token m ≡ true)
        → (if is_empty m then format_plain path else format_qualified m path) ≡ ok (key_of m path)
    formats [] c = rw (parse-plain_path path h)
    formats (b ∷ m) (inl e) = cc
    formats (b ∷ m) (inr t) = rw (parse-token_path (b ∷ m) path t h)

join_key-ne-nil : (m path : GoString) → join_key m path ≢ []
join_key-ne-nil [] path = λ e. cc
join_key-ne-nil (b ∷ m) path = λ e. cc

-- A method that holds a colon is not refused where its front part is a token, the method has no
-- white space around it, and what stands behind its first colon, joined to the path by a colon,
-- is a valid pattern, and so begins with a slash: the key that comes back is read as another
-- rule than the one asked for.
pub format_method_with_colon :
    (m inner path : GoString)
    → valid_http_token m ≡ true
    → trim_space (join_key m inner) ≡ join_key m inner
    → validate_path_pattern (join_key inner path) ≡ ok tt
    → (key : GoString) × (format_method_path_pattern (join_key m inner) path ≡ ok key)
      × (parse_method_path_pattern key ≡ ok (record { method = m; path = join_key inner path }))
unfolding format_method_path_pattern
format_method_with_colon m inner path t same h =
    let whole : join_key (join_key m inner) path ≡ join_key m (join_key inner path) =
      append_assoc m (b':' ∷ inner) (b':' ∷ path) in
    let parsed = parse-token_path m (join_key inner path) t h in
    let filled : is_empty (join_key m inner) ≡ false = is_empty_of_ne _ (join_key-ne-nil m inner) in
    (join_key m (join_key inner path), rw (same, filled, whole, parsed), parsed)

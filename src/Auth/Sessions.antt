-- ===== src/Auth/Sessions.antt =====
-- internal/auth/manager.go: the sessions of users. A time is its nanoseconds, given by the caller
-- at each call of the clock, and so is what the random source yields.
pub mod Lifetime
use arupa.Base.{
  ℕ, ◌+◌, ◌/◌, ◌%◌, Bool, true, false, ◌&&◌, List, [], ◌∷◌, Option, none, some, GoString,
}
use arupa.Base.{string_eq, ltb, ◌==◌, if◌then◌else◌, is_empty, length, drop}
use arupa.Base.Dict.{Dict, lookup, insert, erase}
use arupa.Strings.{bytes, has_prefix}
use arupa.Auth.Policy.{User, no_user, user_for_username}

-- `24 * time.Hour`
abbrev pub cookie_lifespan : ℕ
cookie_lifespan = 86400000000000

pub record SessionData : Type 0 where
  pub username : GoString
  pub created_at : ℕ
  pub expires_at : ℕ

-- The map of `SessionStore`.
abbrev pub SessionStore : Type 0
SessionStore = Dict GoString SessionData

-- `hex.EncodeToString`
abbrev hex_digit : ℕ → ℕ
hex_digit n = if ltb n 10 then n + b'0' else n + 87

unfoldable pub hex : List ℕ → GoString
hex [] = []
hex (b ∷ bs) = hex_digit (b / 16) ∷ hex_digit (b % 16) ∷ hex bs

-- `GenerateToken`, by the 32 bytes that the random source gives, if it does.
unfoldable pub generate_token : Option (List ℕ) → Option GoString
unfolding hex
generate_token none = none
generate_token (some random) = some (hex random)

-- `CreateSession`, which reads the clock twice.
unfoldable pub create_session :
    Option (List ℕ) → (now later : ℕ) → GoString → SessionStore → SessionStore × Option GoString
unfolding generate_token
create_session random now later username sessions = elim (generate_token random) [
  | none ↦ (sessions, none)
  | some token ↦ (
    insert token
        (record { username = username; created_at = later; expires_at = now + cookie_lifespan })
        sessions,
    some token,
  )
]

-- `ValidateSession`, which removes a session that has expired.
unfoldable pub validate_session : GoString → ℕ → SessionStore → SessionStore × Option GoString
validate_session token now sessions = elim (lookup token sessions) [
  | none ↦ (sessions, none)
  | some session ↦
      if ltb session.expires_at now
      then (erase token sessions, none)
      else (sessions, some session.username)
]

unfoldable pub delete_session : GoString → SessionStore → SessionStore
delete_session token sessions = erase token sessions

-- What a request carries: the session's cookie, and the header `Authorization`.
pub record Request : Type 0 where
  pub cookie : Option GoString
  pub authorization : GoString

-- `GetTokenFromHeader`
unfoldable pub get_token_from_header : Request → Option GoString
unfolding has_prefix
get_token_from_header r =
    if is_empty r.authorization
    then none
    else if ltb 7 (length r.authorization) && has_prefix r.authorization (bytes "Bearer ")
    then some (drop 7 r.authorization)
    else some r.authorization

-- The token of a request: the cookie's, if there is one.
unfoldable pub request_token : Request → Option GoString
unfolding get_token_from_header
request_token r = elim r.cookie [ some token ↦ some token | none ↦ get_token_from_header r ]

-- `AuthenticateRequest`, with the reverse index of the configured groups.
unfoldable pub authenticate_request :
    (GoString → List GoString) → Request → ℕ → SessionStore → SessionStore × User
unfolding request_token validate_session user_for_username
authenticate_request groups_for_user r now sessions = elim (request_token r) [
  | none ↦ (sessions, no_user)
  | some token ↦
      let x = validate_session token now sessions in
      (
        x.0,
        elim x.1 [ none ↦ no_user | some username ↦ user_for_username groups_for_user username ],
      )
]

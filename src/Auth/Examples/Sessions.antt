-- ===== src/Auth/Examples/Sessions.antt =====
-- Runs of internal/auth/manager.go, and its theorems at concrete sessions.
use arupa.Base.{ℕ, ◌≡◌, ◌≢◌, refl, List, [], ◌∷◌, Option, none, some, GoString, string_eq}
use arupa.Base.{◌+◌, ltb, if◌then◌else◌, arith}
use arupa.Strings.{bytes, has_prefix}
use arupa.Auth.Policy.{no_user}
use arupa.Auth.Sessions.{
  cookie_lifespan, hex, generate_token, create_session, validate_session, delete_session, Request,
  request_token, get_token_from_header, authenticate_request,
}
use arupa.Auth.Sessions.Lifetime.{
  Call, perform_all, create_session-lifetime, delete_session-authenticate,
}

-- A short random source.
abbrev random : Option (List ℕ)
random = some (1 ∷ 171 ∷ [])

abbrev token : GoString
token = bytes "01ab"

generate_token_test : generate_token random ≡ some token
unfolding generate_token hex
generate_token_test = refl

-- Another session is created and removed, and the first one is validated too early and in time.
abbrev calls : List Call
calls =
    Call.create (some (2 ∷ [])) 5 6 (bytes "bob")
    ∷ Call.validate token 7
    ∷ Call.delete (bytes "02")
    ∷ []

other-token : generate_token (some (2 ∷ [])) ≢ some token
unfolding generate_token hex
other-token q = absurd (clash q)
  where
    clash : ◌≢◌ {A = Option GoString} (some (bytes "02")) (some (bytes "01ab"))
    clash q = cc

other-id : bytes "02" ≢ token
other-id q = cc

create_session-lifetime_example :
    (validate_session token 100
      (perform_all calls (create_session random 3 4 (bytes "ann") []).0)).1
    ≡ (if ltb (3 + cookie_lifespan) 100 then none else some (bytes "ann"))
create_session-lifetime_example =
    create_session-lifetime random 3 4 (bytes "ann") token calls 100 [] generate_token_test
      (other-token, (omega arith, (other-id, tt)))

-- A request with the token in its header.
abbrev request : Request
request = record { cookie = none; authorization = bytes "Bearer 01ab" }

request_token_test : request_token request ≡ some token
unfolding request_token get_token_from_header has_prefix
request_token_test = refl

delete_session-authenticate_example :
    (authenticate_request
      (λ _. [])
      request
      9
      (perform_all calls (delete_session token (create_session random 3 4 (bytes "ann") []).0))).1
    ≡ no_user
delete_session-authenticate_example =
    delete_session-authenticate token calls 9 (create_session random 3 4 (bytes "ann") []).0
      (λ _. []) request (other-token, (tt, (tt, tt))) request_token_test

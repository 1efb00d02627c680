-- ===== src/Auth/Sessions/Lifetime.antt =====
-- Sequences of calls on the sessions, and the life of one session among them.
use arupa.Base.{ℕ, ◌≡◌, ◌≢◌, ◌≤◌, ◌<◌, ◌+◌, ◌⊎◌, inl, inr, refl, sym, ap, ◌∙◌, true, List, []}
use arupa.Base.{◌∷◌, Option, none, some, GoString, string_eq, ltb, ltb→lt, if◌then◌else◌, All}
use arupa.Base.{Bool-cases, ==-cases, ==_self, Option-cases, arith}
use arupa.Base.Dict.{lookup, lookup-insert_ne, lookup-erase_ne, lookup-erase, lookup-insert_self}
use arupa.Auth.Policy.{no_user}
use arupa.Auth.Sessions.{
  SessionData, SessionStore, generate_token, create_session, validate_session, delete_session,
  Request, request_token, authenticate_request, cookie_lifespan,
}

-- A call on the sessions, with what the clock and the random source give.
pub data Call : Type 0 where
  create : (random : Option (List ℕ)) (now later : ℕ) (username : GoString) → Call
  validate : (token : GoString) (now : ℕ) → Call
  delete : (token : GoString) → Call

unfoldable pub perform : Call → SessionStore → SessionStore
unfolding create_session validate_session delete_session
perform (Call.create random now later username) sessions =
    (create_session random now later username sessions).0
perform (Call.validate token now) sessions = (validate_session token now sessions).0
perform (Call.delete token) sessions = delete_session token sessions

unfoldable pub perform_all : List Call → SessionStore → SessionStore
unfolding perform
perform_all [] sessions = sessions
perform_all (c ∷ calls) sessions = perform_all calls (perform c sessions)

-- A call that neither gives out the token nor removes it, made at the time or before.
abbrev pub Spares : GoString → ℕ → Call → Type 0
Spares token now (Call.create random _ _ _) = generate_token random ≢ some token
Spares token now (Call.validate _ earlier) = earlier ≤ now
Spares token now (Call.delete other) = other ≢ token

-- A call that does not give out the token.
abbrev pub Withholds : GoString → Call → Type 0
Withholds token (Call.create random _ _ _) = generate_token random ≢ some token
Withholds token _ = Unit

-- The session is there, or it has been removed since it expired.
abbrev Lives : GoString → SessionData → ℕ → SessionStore → Type 0
Lives token d now sessions =
    (lookup token sessions ≡ some d) ⊎ ((lookup token sessions ≡ none) × d.expires_at < now)

lookup-create :
    (token : GoString) (random : Option (List ℕ)) (now later : ℕ) (username : GoString)
    (sessions : SessionStore)
    → generate_token random ≢ some token
    → lookup token (create_session random now later username sessions).0 ≡ lookup token sessions
unfolding create_session
lookup-create token random now later username sessions n =
    elim (Option-cases (generate_token random)) [
      | inl q ↦ rw (create_session, q) refl
      | inr (t, q) ↦
          rw (create_session, q) (lookup-insert_ne _ sessions (λ e. n (q ∙ ap (λ x. some x) e)))
    ]

-- A validation removes at most the session that it asks for, and that one when it has expired.
validate-cases :
    (token other : GoString) (now : ℕ) (sessions : SessionStore)
    → let after = (validate_session other now sessions).0 in
      (lookup token after ≡ lookup token sessions)
      ⊎ ((lookup token after ≡ none)
          × ((d : SessionData) → lookup token sessions ≡ some d → d.expires_at < now))
unfolding validate_session
validate-cases token other now sessions = elim (Option-cases (lookup other sessions)) [
  | inl q ↦ rw (validate_session, q) (inl refl)
  | inr (s, q) ↦ elim (Bool-cases (ltb s.expires_at now)) [
    | inr f ↦ rw (validate_session, q, f) (inl refl)
    | inl t ↦ elim (==-cases other token) [
      | inr (_, d) ↦ rw (validate_session, q, t) (inl (lookup-erase_ne sessions d))
      | inl (b, e) ↦
          rw (validate_session, q, t)
            (inr (
              lookup-erase token other sessions ∙ rw b refl,
              λ d h. expired s d t (sym q ∙ ap (λ k. lookup k sessions) e ∙ h),
            ))
    ]
  ]
]
  where
    expired :
        (s d : SessionData)
        → ltb s.expires_at now ≡ true
        → ◌≡◌ {A = Option SessionData} (some s) (some d)
        → d.expires_at < now
    expired s d t h =
        let e : s.expires_at ≡ d.expires_at = ap (λ (x : SessionData). x.expires_at) (same h) in
        omega (arith, ltb→lt s.expires_at now t)
      where
        same : {a b : SessionData} → ◌≡◌ {A = Option SessionData} (some a) (some b) → a ≡ b
        same h = cc

-- A call that spares the session of the token lets it live on.
perform-Lives :
    (token : GoString) (d : SessionData) (now : ℕ) (c : Call) (sessions : SessionStore)
    → Spares token now c
    → Lives token d now sessions
    → Lives token d now (perform c sessions)
unfolding perform delete_session
perform-Lives token d now (Call.create random n later username) sessions spares (inl h) =
    inl (lookup-create token random n later username sessions spares ∙ h)
perform-Lives token d now (Call.create random n later username) sessions spares (inr (h, x)) =
    inr (lookup-create token random n later username sessions spares ∙ h, x)
perform-Lives token d now (Call.delete other) sessions spares (inl h) =
    inl (lookup-erase_ne sessions spares ∙ h)
perform-Lives token d now (Call.delete other) sessions spares (inr (h, x)) =
    inr (lookup-erase_ne sessions spares ∙ h, x)
perform-Lives token d now (Call.validate other earlier) sessions spares (inl h) =
    elim (validate-cases token other earlier sessions) [
      | inl same ↦ inl (same ∙ h)
      | inr (gone, x) ↦ inr (gone, omega (arith, x d h))
    ]
perform-Lives token d now (Call.validate other earlier) sessions spares (inr (h, x)) =
    elim (validate-cases token other earlier sessions) [
      | inl same ↦ inr (same ∙ h, x)
      | inr (gone, _) ↦ inr (gone, x)
    ]

perform_all-Lives :
    (token : GoString) (d : SessionData) (now : ℕ) (calls : List Call) (sessions : SessionStore)
    → All (Spares token now) calls
    → Lives token d now sessions
    → Lives token d now (perform_all calls sessions)
unfolding perform_all
perform_all-Lives token d now [] sessions _ x = x
perform_all-Lives token d now (c ∷ calls) sessions (a, rest) x =
    perform_all-Lives token d now calls (perform c sessions) rest
      (perform-Lives token d now c sessions a x)

validate_session-Lives :
    (token : GoString) (d : SessionData) (now : ℕ) (sessions : SessionStore)
    → Lives token d now sessions
    → (validate_session token now sessions).1
      ≡ (if ltb d.expires_at now then none else some d.username)
unfolding validate_session
validate_session-Lives token d now sessions (inl h) = elim (Bool-cases (ltb d.expires_at now)) [
  | inl t ↦ rw (validate_session, h, t) refl
  | inr f ↦ rw (validate_session, h, f) refl
]
validate_session-Lives token d now sessions (inr (h, x)) =
    let t : ltb d.expires_at now ≡ true = ground arith in rw (validate_session, h, t) refl

-- A session that is created now, whatever was there before, names its user until its time is
-- over and nobody afterwards: also when other sessions are created, when any session is validated
-- and when other sessions are removed in between, where no new session is given the token and no
-- validation in between reads a later time than this one.
pub create_session-lifetime :
    (random : Option (List ℕ)) (start later : ℕ) (username token : GoString) (calls : List Call)
    (now : ℕ) (sessions : SessionStore)
    → generate_token random ≡ some token
    → All (Spares token now) calls
    → (validate_session token now
        (perform_all calls (create_session random start later username sessions).0)).1
      ≡ (if ltb (start + cookie_lifespan) now then none else some username)
unfolding create_session
create_session-lifetime random start later username token calls now sessions q spares =
    let d : SessionData = record {
      username = username;
      created_at = later;
      expires_at = start + cookie_lifespan;
    } in
    validate_session-Lives token d now _ (
      perform_all-Lives token d now calls _ spares
        (inl (rw (create_session, q) (lookup-insert_self token d sessions))))

lookup-withheld :
    (token : GoString) (calls : List Call) (sessions : SessionStore)
    → All (Withholds token) calls
    → lookup token sessions ≡ none
    → lookup token (perform_all calls sessions) ≡ none
unfolding perform_all perform delete_session
lookup-withheld token [] sessions _ h = h
lookup-withheld token (Call.create random n later username ∷ calls) sessions (w, rest) h =
    lookup-withheld token calls _ rest (lookup-create token random n later username sessions w ∙ h)
lookup-withheld token (Call.delete other ∷ calls) sessions (w, rest) h =
    lookup-withheld token calls _ rest (ground (arith, lookup-erase token other sessions))
lookup-withheld token (Call.validate other now ∷ calls) sessions (w, rest) h =
    lookup-withheld token calls _ rest (elim (validate-cases token other now sessions) [
      | inl same ↦ same ∙ h
      | inr (gone, _) ↦ gone
    ])

lookup-delete :
    (token : GoString) (sessions : SessionStore)
    → lookup token (delete_session token sessions) ≡ none
unfolding delete_session
lookup-delete token sessions = rw (lookup-erase token token sessions, ==_self token) refl

-- After a logout the token authenticates no request, at any time, until a new session is given
-- the token: a request that carries it is anonymous.
pub delete_session-authenticate :
    (token : GoString) (calls : List Call) (now : ℕ) (sessions : SessionStore)
    (groups_for_user : GoString → List GoString) (r : Request)
    → All (Withholds token) calls
    → request_token r ≡ some token
    → (authenticate_request groups_for_user r now
        (perform_all calls (delete_session token sessions))).1
      ≡ no_user
unfolding authenticate_request validate_session
delete_session-authenticate token calls now sessions groups_for_user r withheld q =
    let gone : lookup token (delete_session token sessions) ≡ none = lookup-delete token sessions in
    rw
      (
        authenticate_request,
        q,
        validate_session,
        lookup-withheld token calls (delete_session token sessions) withheld gone,
      )
      refl

-- ===== src/Auth/Policy.antt =====
-- internal/auth/policy.go: who may use a resource.
use arupa.Base.{◌≡◌, ◌≢◌, ◌↔◌, ◌⊎◌, inl, inr, Bool, true, false, not, ◌&&◌, List, [], ◌∷◌, arith}
use arupa.Base.{GoString, string_eq, if◌then◌else◌, is_empty, any, contains, In, refl}
use arupa.Base.{Bool-cases, sym, ◌∙◌, is_empty_iff, is_empty_of_ne}
use mathlib.Core.Bool.{false≢true}

pub record User : Type 0 where
  pub username : GoString
  pub groups : List GoString
  pub authenticated : Bool

-- `User{}`
abbrev pub no_user : User
no_user = record { username = []; groups = []; authenticated = false }

pub record AccessPolicy : Type 0 where
  pub require_auth : Bool
  pub groups : List GoString

pub data AccessDecision : Type 0 where
  access_allowed access_authentication_required access_forbidden : AccessDecision

-- The map `owned` is a set that is only asked for membership: the list of the user's groups.
unfoldable pub has_any_group : User → List GoString → Bool
has_any_group u groups =
    if not u.authenticated then false else any (λ group. contains u.groups group) groups

unfoldable pub check : AccessPolicy → User → AccessDecision
check p user =
    if not p.require_auth && is_empty p.groups
    then access_allowed
    else if not user.authenticated
    then access_authentication_required
    else if is_empty p.groups
    then access_allowed
    else if has_any_group user p.groups
    then access_allowed
    else access_forbidden

-- `UserForUsername`, with the reverse index of the configured groups.
unfoldable pub user_for_username : (GoString → List GoString) → GoString → User
user_for_username groups_for_user username =
    if is_empty username
    then no_user
    else record { username = username; groups = groups_for_user username; authenticated = true }

-- A policy that asks for nothing.
abbrev pub IsPublic : AccessPolicy → Type 0
IsPublic p = (p.require_auth ≡ false) × (p.groups ≡ [])

-- Two lists of groups that have a group in common.
abbrev pub Share : List GoString → List GoString → Type 0
Share owned groups = (group : GoString) × In group owned × In group groups

pub contains-In : (gs : List GoString) (g : GoString) → contains gs g ≡ true → In g gs
contains-In [] g h = cc
contains-In (x ∷ gs) g h = ground (arith, contains-In gs g)

pub In-contains : (gs : List GoString) (g : GoString) → In g gs → contains gs g ≡ true
In-contains [] g h = absurd h
In-contains (x ∷ gs) g h = ground (arith, In-contains gs g)

any-Share :
    (owned groups : List GoString) → any (λ g. contains owned g) groups ≡ true → Share owned groups
any-Share owned [] h = cc
any-Share owned (g ∷ gs) h = elim (Bool-cases (contains owned g)) [
  | inl t ↦ (g, contains-In owned g t, inl refl)
  | inr f ↦ let (x, p, q) = any-Share owned gs (rw f at h) in (x, p, inr q)
]

Share-any :
    (owned groups : List GoString) (g : GoString)
    → In g owned
    → In g groups
    → any (λ g. contains owned g) groups ≡ true
Share-any owned [] g p q = absurd q
Share-any owned (x ∷ gs) g p q =
    ground (arith, In-contains owned x, In-contains owned g p, Share-any owned gs g p)

has_any_group_iff :
    (u : User) (groups : List GoString)
    → (has_any_group u groups ≡ true) ↔ ((u.authenticated ≡ true) × Share u.groups groups)
unfolding has_any_group
has_any_group_iff u groups = elim (Bool-cases u.authenticated) [
  | inl t ↦ (
    λ h. (t, any-Share u.groups groups (rw t at h)),
    λ (_, (g, p, q)). rw t (Share-any u.groups groups g p q),
  )
  | inr f ↦ (λ h. absurd (false≢true (rw f at h)), λ (t, _). absurd (false≢true (sym f ∙ t)))
]

-- The decision on a policy that is not public, by its three tests.
abbrev decision : Bool → Bool → Bool → AccessDecision
decision authenticated any_user member =
    if not authenticated
    then access_authentication_required
    else if any_user
    then access_allowed
    else if member
    then access_allowed
    else access_forbidden

decision-allowed :
    (a e h : Bool) → (decision a e h ≡ access_allowed) ↔ ((a ≡ true) × ((e ≡ true) ⊎ (h ≡ true)))
decision-allowed a e h = ground arith

decision-login : (a e h : Bool) → (decision a e h ≡ access_authentication_required) ↔ (a ≡ false)
decision-login a e h = ground arith

allowed-ne-login : access_allowed ≢ access_authentication_required
allowed-ne-login e = cc

groups_ok :
    (p : AccessPolicy) (u : User)
    → (is_empty p.groups ≡ true) ⊎ (has_any_group u p.groups ≡ true)
    → (p.groups ≡ []) ⊎ Share u.groups p.groups
groups_ok p u (inl e) = inl ((is_empty_iff p.groups).0 e)
groups_ok p u (inr h) = inr ((has_any_group_iff u p.groups).0 h).1

entitled :
    (p : AccessPolicy) (u : User)
    → ¬ IsPublic p
    → IsPublic p ⊎ ((u.authenticated ≡ true) × ((p.groups ≡ []) ⊎ Share u.groups p.groups))
    → (u.authenticated ≡ true) × ((is_empty p.groups ≡ true) ⊎ (has_any_group u p.groups ≡ true))
entitled p u n (inl public) = absurd (n public)
entitled p u n (inr (t, inl e)) = (t, inl ((is_empty_iff p.groups).1 e))
entitled p u n (inr (t, inr h)) = (t, inr ((has_any_group_iff u p.groups).1 (t, h)))

-- The decision when the policy is not public.
check-guarded :
    (p : AccessPolicy) (u : User)
    → ¬ IsPublic p
    → check p u ≡ decision u.authenticated (is_empty p.groups) (has_any_group u p.groups)
unfolding check
check-guarded p u n = elim (Bool-cases p.require_auth) [
  | inl t ↦ rw t
  | inr f ↦ rw (f, is_empty_of_ne p.groups (λ e. n (f, e)))
]

check-public : (p : AccessPolicy) (u : User) → IsPublic p → check p u ≡ access_allowed
unfolding check
check-public p u (f, e) = rw (f, (is_empty_iff p.groups).1 e)

IsPublic-dec : (p : AccessPolicy) → IsPublic p ⊎ (¬ IsPublic p)
IsPublic-dec p = elim (Bool-cases p.require_auth) [
  | inl t ↦ inr (λ (f, _). false≢true (sym f ∙ t))
  | inr f ↦ elim (Bool-cases (is_empty p.groups)) [
    | inl e ↦ inl (f, (is_empty_iff p.groups).0 e)
    | inr n ↦ inr (λ (_, e). false≢true (sym n ∙ (is_empty_iff p.groups).1 e))
  ]
]

-- A user may pass exactly if the policy is public, or the user is authenticated and the policy
-- names no group or one of the user's; a policy that is not public asks exactly the users that
-- are not authenticated to log in.
pub check_iff :
    (p : AccessPolicy) (u : User)
    → ((check p u ≡ access_allowed)
        ↔ (IsPublic p ⊎ ((u.authenticated ≡ true) × ((p.groups ≡ []) ⊎ Share u.groups p.groups))))
      × ((check p u ≡ access_authentication_required)
          ↔ ((¬ IsPublic p) × (u.authenticated ≡ false)))
check_iff p u = elim (IsPublic-dec p) [
  | inl public ↦
      let e = check-public p u public in
      (
        (λ _. inl public, λ _. e),
        (λ h. absurd (allowed-ne-login (sym e ∙ h)), λ (n, _). absurd (n public)),
      )
  | inr guarded ↦
      let e = check-guarded p u guarded in
      (
        (
          λ h. let (t, c) = (decision-allowed _ _ _).0 (sym e ∙ h) in inr (t, groups_ok p u c),
          λ c. e ∙ (decision-allowed _ _ _).1 (entitled p u guarded c),
        ),
        (
          λ h. (guarded, (decision-login _ _ _).0 (sym e ∙ h)),
          λ (_, f). e ∙ (decision-login _ _ _).1 f,
        ),
      )
]

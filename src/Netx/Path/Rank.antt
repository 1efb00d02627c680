-- ===== src/Netx/Path/Rank.antt =====
-- The order of access rules by their method.
use arupa.Base.{◌≡◌, refl, ◌↔◌, ◌⊎◌, inl, inr, Bool, true, [], ◌∷◌, arith, GoString}
use arupa.Base.{ℤ, pos, negsuc, ◌==◌, string_eq, ==_iff, ◌∙◌, is_empty, lebℤ}
use arupa.Base.{if◌then◌else◌, ◌&&◌}
use arupa.Netx.Path.{method_match_rank, method_matches, method_get, method_head}

-- The methods that a rule covers.
pub data CoversMethod (request rule : GoString) : Type 0 where
  same : rule ≡ request → CoversMethod request rule
  head_by_get : request ≡ method_head → rule ≡ method_get → CoversMethod request rule
  any_method : rule ≡ [] → CoversMethod request rule

-- The rank as a function of the four tests.
rank_of : Bool → Bool → Bool → Bool → ℤ
rank_of exact head get any =
    if exact then pos 2 else if head && get then pos 1 else if any then pos 0 else negsuc 0

rank-rank_of :
    (request rule : GoString)
    → method_match_rank request rule
      ≡ rank_of (rule == request) (request == method_head) (rule == method_get) (is_empty rule)
unfolding method_match_rank rank_of
rank-rank_of request rule = refl

is_empty→nil : (s : GoString) → is_empty s ≡ true → s ≡ []
is_empty→nil [] h = refl
is_empty→nil (a ∷ s) h = cc

to_eq : (a b : GoString) → (a == b) ≡ true → a ≡ b
to_eq a b = (==_iff a b).0

rank_of-cases :
    (exact head get any : Bool)
    → lebℤ (pos 0) (rank_of exact head get any) ≡ true
    → ((exact ≡ true) × (rank_of exact head get any ≡ pos 2))
      ⊎ (((head ≡ true) × (get ≡ true) × (rank_of exact head get any ≡ pos 1))
          ⊎ ((any ≡ true) × (rank_of exact head get any ≡ pos 0)))
unfolding rank_of
rank_of-cases exact head get any h = ground arith

-- The rank of a rule that applies, with the reason.
pub rank-cases :
    (request rule : GoString)
    → method_matches request rule ≡ true
    → ((rule ≡ request) × (method_match_rank request rule ≡ pos 2))
      ⊎ (((request ≡ method_head) × (rule ≡ method_get) × (method_match_rank request rule ≡ pos 1))
          ⊎ ((rule ≡ []) × (method_match_rank request rule ≡ pos 0)))
unfolding method_matches
rank-cases request rule h =
    let e = rank-rank_of request rule in
    elim (rank_of-cases _ _ _ _ (rw e at h)) [
      | inl (t, r) ↦ inl (to_eq _ _ t, e ∙ r)
      | inr (inl (t, u, r)) ↦ inr (inl (to_eq _ _ t, to_eq _ _ u, e ∙ r))
      | inr (inr (t, r)) ↦ inr (inr (is_empty→nil rule t, e ∙ r))
    ]

method_matches_sound :
    (request rule : GoString) → method_matches request rule ≡ true → CoversMethod request rule
method_matches_sound request rule h = elim (rank-cases request rule h) [
  | inl (e, _) ↦ same e
  | inr (inl (e, f, _)) ↦ head_by_get e f
  | inr (inr (e, _)) ↦ any_method e
]

rank_of-pos :
    (exact head get any : Bool)
    → (exact ≡ true) ⊎ (((head ≡ true) × (get ≡ true)) ⊎ (any ≡ true))
    → lebℤ (pos 0) (rank_of exact head get any) ≡ true
unfolding rank_of
rank_of-pos exact head get any h = ground arith

method_matches_complete :
    (request rule : GoString) → CoversMethod request rule → method_matches request rule ≡ true
unfolding method_matches
method_matches_complete request rule c =
    rw (rank-rank_of request rule) (rank_of-pos _ _ _ _ (why c))
  where
    why :
        CoversMethod request rule
        → ((rule == request) ≡ true)
          ⊎ ((((request == method_head) ≡ true) × ((rule == method_get) ≡ true))
              ⊎ (is_empty rule ≡ true))
    why (same e) = inl ((==_iff _ _).1 e)
    why (head_by_get e f) = inr (inl ((==_iff _ _).1 e, (==_iff _ _).1 f))
    why (any_method e) = inr (inr (rw e))

-- A rule applies to a request exactly when it has the request's method, has no method, or is for
-- GET while the request is HEAD.
pub method_matches_iff :
    (request rule : GoString) → (method_matches request rule ≡ true) ↔ CoversMethod request rule
method_matches_iff request rule =
    (method_matches_sound request rule, method_matches_complete request rule)

-- The rank tells the rule's method: two rules of one rank that apply have one method.
pub method_match_rank-injective :
    (request rule other : GoString)
    → method_matches request rule ≡ true
    → method_matches request other ≡ true
    → method_match_rank request rule ≡ method_match_rank request other
    → rule ≡ other
method_match_rank-injective request rule other h k e =
    ground (arith, rank-cases request rule h, rank-cases request other k)

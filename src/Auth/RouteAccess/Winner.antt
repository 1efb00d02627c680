-- ===== src/Auth/RouteAccess/Winner.antt =====
-- The rule that governs a request: the most specific one that applies, whatever the order in
-- which the map of rules is walked.
use mathlib.Core.Bool.{false≢true}
use arupa.Base.{◌≡◌, ◌≢◌, ◌⊎◌, inl, inr, refl, sym, ◌∙◌, true, false, arith}
use arupa.Base.{List, [], ◌∷◌, Option, some, none, GoString, string_eq, Bool-cases, Option-cases}
use arupa.Base.{In, pos, length, is_empty, is_empty_iff, subst}
use arupa.Base.Dict.{Dict}
use arupa.Base.Result.{Result, ok, err}
use arupa.Netx.Path.{MethodPathPattern, PathError, parse_method_path_pattern, method_match_rank}
use arupa.Netx.Path.{match_method_path_pattern, match_path_pattern, method_matches, root_path_exact}
use arupa.Strings.{has_prefix, cut}
use arupa.Auth.RouteAccess.{Score, Choice, no_choice, rule_score, not_better}
use arupa.Auth.RouteAccess.{consider, match_from, returned, match_route_access}
use arupa.Auth.RouteAccess.Order.{not_better_refl, not_better_trans}
use arupa.Auth.RouteAccess.Order.{better-not_better}

module _ (method path : GoString) where
  -- A rule of the map governs the request if it applies to it and no rule that applies is more
  -- specific.
  pub record Governs (allow : Dict GoString (List GoString)) (key : GoString)
      (groups : List GoString) : Type 0 where
    pub listed : In (key, groups) allow
    pub score : Score
    pub applies : rule_score method path key ≡ some score
    pub most_specific :
        (k : GoString) (gs : List GoString) (s : Score)
        → In (k, gs) allow
        → rule_score method path k ≡ some s
        → not_better s score ≡ true

  -- The choice comes from a rule in the list, with its score.
  abbrev Comes : Dict GoString (List GoString) → Choice → Type 0
  Comes allow c = In (c.best, c.groups) allow × (rule_score method path c.best ≡ some c.score)

  consider-cases :
      (c : Choice) (key : GoString) (groups : List GoString)
      → ((consider method path c key groups ≡ c)
          × ((s : Score) → rule_score method path key ≡ some s → not_better s c.score ≡ true))
        ⊎ ((s : Score) × (rule_score method path key ≡ some s)
            × (consider method path c key groups
                ≡ record { best = key; score = s; groups = groups })
            × (not_better c.score s ≡ true))
  unfolding consider
  consider-cases c key groups = elim (Option-cases (rule_score method path key)) [
    | inl missed ↦ inl (rw (missed, consider), λ s h. cc)
    | inr (s, found) ↦ elim (Bool-cases (not_better s c.score)) [
      | inl t ↦
          inl (rw (found, t, consider), λ s' h. subst (λ x. not_better x c.score ≡ true) (cc) t)
      | inr f ↦ inr (s, found, rw (found, f, consider), better-not_better s c.score f)
    ]
  ]

  -- What a walk over the rules finds, from any choice made before.
  record Walk (allow : Dict GoString (List GoString)) (start final : Choice) : Type 0 where
    origin : (final ≡ start) ⊎ Comes allow final
    improves : not_better start.score final.score ≡ true
    beats :
        (k : GoString) (gs : List GoString) (s : Score)
        → In (k, gs) allow
        → rule_score method path k ≡ some s
        → not_better s final.score ≡ true

  Walk-kept :
      (key : GoString) (groups : List GoString) (allow : Dict GoString (List GoString))
      (c f : Choice)
      → ((s : Score) → rule_score method path key ≡ some s → not_better s c.score ≡ true)
      → Walk allow c f
      → Walk ((key, groups) ∷ allow) c f
  Walk-kept key groups allow c f bound w = record {
    origin = elim w.origin [ inl e ↦ inl e | inr (l, r) ↦ inr (inr l, r) ];
    improves = w.improves;
    beats = λ k gs s l h. at k gs s h l;
  }
    where
      at :
          (k : GoString) (gs : List GoString) (s : Score)
          → rule_score method path k ≡ some s
          → In (k, gs) ((key, groups) ∷ allow)
          → not_better s f.score ≡ true
      at k gs s h (inl e) =
          let same : rule_score method path key ≡ some s = cc in
          not_better_trans s c.score f.score (bound s same) w.improves
      at k gs s h (inr l) = w.beats k gs s l h

  Walk-taken :
      (key : GoString) (groups : List GoString) (allow : Dict GoString (List GoString))
      (c f : Choice) (s : Score)
      → rule_score method path key ≡ some s
      → not_better c.score s ≡ true
      → Walk allow (record { best = key; score = s; groups = groups }) f
      → Walk ((key, groups) ∷ allow) c f
  Walk-taken key groups allow c f s found better w = record {
    origin = inr (elim w.origin [
      | inl e ↦ subst (λ g. Comes ((key, groups) ∷ allow) g) (sym e) (inl refl, found)
      | inr (l, r) ↦ (inr l, r)
    ]);
    improves = not_better_trans c.score s f.score better w.improves;
    beats = λ k gs t l h. at k gs t h l;
  }
    where
      at :
          (k : GoString) (gs : List GoString) (t : Score)
          → rule_score method path k ≡ some t
          → In (k, gs) ((key, groups) ∷ allow)
          → not_better t f.score ≡ true
      at k gs t h (inl e) =
          let same : s ≡ t = cc in subst (λ x. not_better x f.score ≡ true) same w.improves
      at k gs t h (inr l) = w.beats k gs t l h

  match_from-Walk :
      (allow : Dict GoString (List GoString)) (c : Choice)
      → Walk allow c (match_from method path c allow)
  unfolding match_from
  match_from-Walk [] c = record {
    origin = inl refl;
    improves = not_better_refl c.score;
    beats = λ k gs s h. absurd h;
  }
  match_from-Walk ((key, groups) ∷ allow) c = elim (consider-cases c key groups) [
    | inl (e, bound) ↦ rw e (Walk-kept key groups allow c _ bound (match_from-Walk allow c))
    | inr (s, found, e, better) ↦
        rw e (Walk-taken key groups allow c _ s found better (match_from-Walk allow _))
  ]

  -- Why a rule has a score.
  pub rule_score-inv :
      (key : GoString) (s : Score)
      → rule_score method path key ≡ some s
      → (rule : MethodPathPattern) × (parse_method_path_pattern key ≡ ok rule)
        × (method_matches method rule.method ≡ true)
        × (match_path_pattern path rule.path root_path_exact ≡ true)
        × (s ≡ record {
          path_length = pos (length rule.path);
          method_rank = method_match_rank method rule.method;
        })
  unfolding rule_score match_method_path_pattern
  rule_score-inv key s h = parsed (parse_method_path_pattern key) refl
    where
      parsed :
          (r : Result PathError MethodPathPattern)
          → parse_method_path_pattern key ≡ r
          → (rule : MethodPathPattern) × (parse_method_path_pattern key ≡ ok rule)
            × (method_matches method rule.method ≡ true)
            × (match_path_pattern path rule.path root_path_exact ≡ true)
            × (s ≡ record {
              path_length = pos (length rule.path);
              method_rank = method_match_rank method rule.method;
            })
      parsed (err x) e = ground arith
      parsed (ok rule) e = (rule, e, ground arith, ground arith, ground arith)

  some_score-nonempty : (s : Score) → rule_score method path [] ≢ some s
  unfolding rule_score parse_method_path_pattern has_prefix cut
  some_score-nonempty s h = cc

  no_choice-lowest :
      (k : GoString) (s : Score)
      → rule_score method path k ≡ some s
      → not_better s no_choice.score ≡ false
  unfolding not_better
  no_choice-lowest k s h = let (rule, _, _, _, e) = rule_score-inv k s h in rw e

  chosen-Governs :
      (allow : Dict GoString (List GoString)) (c : Choice) (key : GoString) (groups : List GoString)
      → Walk allow no_choice c
      → returned c ≡ some (key, groups)
      → Governs allow key groups
  chosen-Governs allow c key groups w h = elim w.origin [
    | inl e ↦ absurd (nothing (subst (λ (d : Choice). returned d ≡ some (key, groups)) e h))
    | inr (l, r) ↦ elim (Bool-cases (is_empty c.best)) [
      | inl t ↦ absurd (nothing (rw t at h))
      | inr f ↦
          let h' : ◌≡◌ {A = Option (GoString × List GoString)} (some (c.best, c.groups))
              (some (key, groups)) =
            rw f at h in
          let e : c.best ≡ key = cc in
          record {
            listed = subst (λ (x : GoString × List GoString). In x allow) (cc) l;
            score = c.score;
            applies = subst (λ x. rule_score method path x ≡ some c.score) e r;
            most_specific = w.beats;
          }
    ]
  ]
    where
      nothing : ◌≡◌ {A = Option (GoString × List GoString)} none (some (key, groups)) → ⊥
      nothing q = cc

  -- The rule that is found governs the request.
  pub match_route_access-Governs :
      (allow : Dict GoString (List GoString)) (key : GoString) (groups : List GoString)
      → match_route_access method path allow ≡ some (key, groups)
      → Governs allow key groups
  unfolding match_route_access
  match_route_access-Governs allow key groups h =
      chosen-Governs allow (match_from method path no_choice allow) key groups
        (match_from-Walk allow no_choice) h

  -- If none is found, none applies.
  pub match_route_access-none :
      (allow : Dict GoString (List GoString))
      → match_route_access method path allow ≡ none
      → (k : GoString) (gs : List GoString) → In (k, gs) allow
      → rule_score method path k ≡ none
  unfolding match_route_access
  match_route_access-none allow h k gs l = elim (Option-cases (rule_score method path k)) [
    | inl e ↦ e
    | inr (s, found) ↦ absurd (
        contradiction (match_from method path no_choice allow) (match_from-Walk allow no_choice) h s
          found)
  ]
    where
      contradiction :
          (c : Choice)
          → Walk allow no_choice c
          → returned c ≡ none
          → (s : Score) → rule_score method path k ≡ some s
          → ⊥
      contradiction c w h s found = elim w.origin [
        | inl e ↦
            let low = w.beats k gs s l found in
            false≢true (
              sym (no_choice-lowest k s found)
              ∙ subst (λ (d : Choice). not_better s d.score ≡ true) e low)
        | inr (_, r) ↦ elim (Bool-cases (is_empty c.best)) [
          | inl t ↦
              some_score-nonempty c.score
                (subst (λ x. rule_score method path x ≡ some c.score) ((is_empty_iff c.best).0 t) r)
          | inr f ↦ filled c (rw f at h)
        ]
      ]
        where
          filled :
              (c : Choice)
              → ◌≡◌ {A = Option (GoString × List GoString)} (some (c.best, c.groups)) none
              → ⊥
          filled c q = cc

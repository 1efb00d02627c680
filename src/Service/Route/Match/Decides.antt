-- ===== src/Service/Route/Match/Decides.antt =====
-- What matchHTTP decides on a valid table.
use arupa.Base.{◌≡◌, ◌≢◌, ◌↔◌, inl, inr, refl, sym, ap, ◌∙◌, subst, Bool, true, false}
use arupa.Base.{GoString, string_eq, key_eq, is_empty, [], In, ==-cases}
use arupa.Base.{Option, none, some, ◌==◌, ◌||◌, is_empty_of_ne}
use arupa.Base.Dict.{Dict, lookup, lookup-In, In-lookup}
use arupa.Netx.Path.Matching.{match_path_pattern-nil}
use arupa.Service.Route.Register.{Bound, Registry, normalize_method, methods_conflict}
use arupa.Service.Route.Valid.{IsValid}
use arupa.Service.Route.Match.{
  Seen, Matched, found, not_found, best_from, select_method, match_http,
}
use arupa.Service.Route.Match.Best.{covers, IsBest, best_from-IsBest, IsBest-unique}
use arupa.Service.Route.Match.Select.{
  Accepts, select_method_sound, select_method_complete, select_method-answers,
}

-- The route has the longest pattern that matches the path, and accepts the method.
pub record Serves {S : Type 0} (r : Registry S) (method path : GoString) (b : Bound) : Type 0 where
  pub pattern : GoString
  pub declared_method : GoString
  pub listed : lookup (pattern, declared_method) r.http ≡ some b
  pub best : IsBest path r.http pattern
  pub accepts : Accepts declared_method (normalize_method method)

methods_conflict-Accepts :
    (m n method : GoString) → Accepts m method → Accepts n method → methods_conflict m n ≡ true
unfolding methods_conflict
methods_conflict-Accepts m n method a b = elim (==-cases m n) [
  | inl (t, _) ↦ rw (t, methods_conflict) refl
  | inr (f, differ) ↦ elim a [
    | inr e ↦ rw (e, methods_conflict) (either ([] == n))
    | inl e ↦ elim b [
      | inr e' ↦ rw (e', methods_conflict) (last (m == []) (is_empty m))
      | inl e' ↦ absurd (differ (e ∙ sym e'))
    ]
  ]
]
  where
    either : (x : Bool) → (x || true || is_empty n) ≡ true
    either true = refl
    either false = refl

    last : (x y : Bool) → (x || y || true) ≡ true
    last true y = refl
    last false true = refl
    last false false = refl

module _ {S : Type 0} (r : Registry S) (v : IsValid r) (method : GoString) where
  -- At one path, one route at most accepts a method.
  accepting_unique :
      (p m n : GoString) (b c : Bound)
      → lookup (p, m) r.http ≡ some b
      → lookup (p, n) r.http ≡ some c
      → Accepts m method
      → Accepts n method
      → c ≡ b
  accepting_unique p m n b c h k a d = elim (==-cases m n) [
    | inl (_, e) ↦ some-injective (sym k ∙ ap (λ x. lookup (p, x) r.http) (sym e) ∙ h)
    | inr (_, differ) ↦ absurd (
        clash (sym (v.no_overlap p m n b c h k differ).0 ∙ methods_conflict-Accepts m n method a d))
  ]
    where
      some-injective : ◌≡◌ {A = Option Bound} (some c) (some b) → c ≡ b
      some-injective q = cc

      clash : ◌≢◌ {A = Bool} false true
      clash q = cc

IsBest-nonempty :
    (path best : GoString) (http : Dict (GoString × GoString) Bound)
    → IsBest path http best
    → is_empty best ≡ false
IsBest-nonempty path best http b = is_empty_of_ne best (λ e.
    clash
      (sym (match_path_pattern-nil path _) ∙ subst (λ x. covers path x b.entry ≡ true) e b.matches))
  where
    clash : ◌≢◌ {A = Bool} false true
    clash q = cc

no_seen : Seen
no_seen = record { wildcard = none; allowed = [] }

module _ (method path : GoString) (http : Dict (GoString × GoString) Bound) where
  match_http-nothing : best_from path [] http ≡ [] → match_http method path http ≡ not_found
  unfolding match_http
  match_http-nothing e = rw (e, match_http) refl

  match_http-select :
      IsBest path http (best_from path [] http)
      → match_http method path http
        ≡ select_method (best_from path [] http) (normalize_method method) no_seen http
  unfolding match_http no_seen
  match_http-select b = rw (IsBest-nonempty path _ http b, match_http) refl

module _ {S : Type 0} (r : Registry S) (v : IsValid r) (method path : GoString) where
  found-Serves : (b : Bound) → match_http method path r.http ≡ found b → Serves r method path b
  unfolding no_seen
  found-Serves b h = elim (best_from-IsBest path r.http) [
    | inl (e, _) ↦ absurd (clash (sym (match_http-nothing method path r.http e) ∙ h))
    | inr best ↦
        elim (select_method_sound _ (normalize_method method) no_seen r.http b
          (sym (match_http-select method path r.http best) ∙ h)) [
            | inl (m, l, a) ↦ record {
              pattern = best_from path [] r.http;
              declared_method = m;
              listed = In-lookup _ b r.http v.distinct_paths l;
              best = best;
              accepts = a;
            }
            | inr q ↦ absurd (none_some q)
          ]
  ]
    where
      clash : ◌≢◌ {A = Matched} not_found (found b)
      clash q = cc

      none_some : ◌≢◌ {A = Option Bound} none (some b)
      none_some q = cc

  Serves-found : (b : Bound) → Serves r method path b → match_http method path r.http ≡ found b
  unfolding no_seen
  Serves-found b s = elim (best_from-IsBest path r.http) [
    | inl (_, nothing) ↦
        absurd (
          clash (sym (nothing s.pattern s.best.method s.best.entry s.best.listed) ∙ s.best.matches))
    | inr best ↦
        let same : s.pattern ≡ best_from path [] r.http =
          IsBest-unique path r.http _ _ s.best best in
        let listed : lookup (best_from path [] r.http, s.declared_method) r.http ≡ some b =
          ap (λ x. lookup (x, s.declared_method) r.http) (sym same) ∙ s.listed in
        match_http-select method path r.http best
        ∙ select_method_complete _ (normalize_method method) no_seen r.http b
            (λ m c l a.
              accepting_unique r v (normalize_method method) _ s.declared_method m b c listed
                (In-lookup _ c r.http v.distinct_paths l) s.accepts a)
            (inl (s.declared_method, lookup-In _ b r.http listed, s.accepts)) (inl refl)
  ]
    where
      clash : ◌≢◌ {A = Bool} false true
      clash q = cc

  -- A request finds a route of a valid table exactly if the route's pattern is the longest of
  -- those that match the path and the route accepts the request's method.
  pub match_http-found_iff :
      (b : Bound) → (match_http method path r.http ≡ found b) ↔ Serves r method path b
  match_http-found_iff b = (found-Serves b, Serves-found b)

-- A request finds no pattern exactly if no route's pattern matches its path; the tables need not
-- be valid.
pub match_http-not_found_iff :
    (method path : GoString) (http : Dict (GoString × GoString) Bound)
    → (match_http method path http ≡ not_found)
      ↔ ((p m : GoString) (b : Bound) → In ((p, m), b) http → covers path p b ≡ false)
match_http-not_found_iff method path http = elim (best_from-IsBest path http) [
  | inl (e, nothing) ↦ (λ _. nothing, λ _. match_http-nothing method path http e)
  | inr best ↦ (
    λ h.
        absurd
          (select_method-answers _ _ _ http (sym (match_http-select method path http best) ∙ h)),
    λ none_covers.
        absurd (clash (sym (none_covers _ best.method best.entry best.listed) ∙ best.matches)),
  )
]
  where
    clash : ◌≢◌ {A = Bool} false true
    clash q = cc

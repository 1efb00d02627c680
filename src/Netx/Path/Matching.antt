-- ===== src/Netx/Path/Matching.antt =====
-- Which paths a pattern covers.
use mathlib.Core.List.{append-nil}
use arupa.Base.{ap, ◌≡◌, refl, sym, ◌∙◌, ◌≢◌, ◌↔◌, inl, inr, Bool, true, false, [], ◌∷◌, arith}
use arupa.Base.{◌++◌, GoString, ◌==◌, ==_iff, ==-cases, Bool-cases, string_eq}
use arupa.Base.{length, append_cancel, ◌&&◌, ◌||◌, if◌then◌else◌, is_empty_of_ne, ==_self}
use arupa.Strings.{has_prefix, has_suffix}
use arupa.Strings.Laws.{
  has_prefix-split, has_prefix-append, has_prefix_self, has_suffix-split, has_suffix-append,
}
use arupa.Netx.Path.{slash, match_path_pattern, RootPathMatchMode, root_path_exact}
use arupa.Netx.Path.{root_path_subtree, is_subtree}

exact-ne-subtree : root_path_exact ≢ root_path_subtree
exact-ne-subtree e = cc

-- A pattern covers its own path; one that ends in a slash covers all below it, except that the
-- root does so only in the mode for it.
pub data CoversPath (mode : RootPathMatchMode) (path pattern : GoString) : Type 0 where
  exact : pattern ≢ [] → path ≡ pattern → CoversPath mode path pattern
  below :
      (directory rest : GoString)
      → pattern ≡ directory ++ slash
      → pattern ≢ slash
      → path ≡ pattern ++ rest
      → CoversPath mode path pattern
  root :
      (rest : GoString)
      → mode ≡ root_path_subtree
      → pattern ≡ slash
      → path ≡ slash ++ rest
      → CoversPath mode path pattern

-- The two ways in which the root pattern matches.
at_root :
    (path pattern : GoString) (mode : RootPathMatchMode)
    → pattern ≡ slash
    → ((is_subtree mode && has_prefix path slash) || (path == slash)) ≡ true
    → CoversPath mode path pattern
at_root path pattern mode e h = elim (==-cases path slash) [
  | inl (t, p) ↦ exact (λ n. cc) (p ∙ sym e)
  | inr (f, n) ↦ deeper mode (rw f at h)
]
  where
    deeper :
        (m : RootPathMatchMode)
        → ((is_subtree m && has_prefix path slash) || false) ≡ true
        → CoversPath m path pattern
    deeper root_path_exact h = cc
    deeper root_path_subtree h =
        let covered : has_prefix path slash ≡ true = ground (arith) in
        let (rest, q) = has_prefix-split path slash covered in root rest refl e q

match_path_pattern_sound :
    (path pattern : GoString) (mode : RootPathMatchMode)
    → match_path_pattern path pattern mode ≡ true
    → CoversPath mode path pattern
unfolding match_path_pattern
match_path_pattern_sound [] pattern mode h = cc
match_path_pattern_sound (a ∷ path) [] mode h = cc
match_path_pattern_sound (a ∷ path) (b ∷ pattern) mode h = elim (==-cases (b ∷ pattern) slash) [
  | inl (t, e) ↦ at_root (a ∷ path) (b ∷ pattern) mode e (rw t at h)
  | inr (f, n) ↦ elim (Bool-cases (has_suffix (b ∷ pattern) slash)) [
    | inl dir ↦
        let (directory, e) = has_suffix-split (b ∷ pattern) slash dir in
        let covered : has_prefix (a ∷ path) (b ∷ pattern) ≡ true = rw (f, dir) at h in
        let (rest, e') = has_prefix-split (a ∷ path) (b ∷ pattern) covered in
        below directory rest e n e'
    | inr file ↦
        let same : (a ∷ path == b ∷ pattern) ≡ true = rw (f, file) at h in
        exact (λ e. cc) ((==_iff _ _).0 same)
  ]
]

-- The test for paths and patterns that are not empty.
match-nonempty :
    (path pattern : GoString) (mode : RootPathMatchMode)
    → path ≢ []
    → pattern ≢ []
    → match_path_pattern path pattern mode ≡ (
        if pattern == slash
        then (is_subtree mode && has_prefix path slash) || path == slash
        else if has_suffix pattern slash
        then has_prefix path pattern
        else path == pattern)
unfolding match_path_pattern
match-nonempty path pattern mode n m = rw (is_empty_of_ne path n, is_empty_of_ne pattern m)

or_true : (b : Bool) → (b || true) ≡ true
or_true true = refl
or_true false = refl

match_self :
    (pattern : GoString) (mode : RootPathMatchMode)
    → pattern ≢ []
    → match_path_pattern pattern pattern mode ≡ true
match_self pattern mode n =
    rw (match-nonempty pattern pattern mode n n) (elim (Bool-cases (pattern == slash)) [
      | inl t ↦ rw t (or_true _)
      | inr f ↦ rw (f, ==_self pattern, has_prefix_self pattern) (both (has_suffix pattern slash))
    ])
  where
    both : (b : Bool) → (if b then true else true) ≡ true
    both true = refl
    both false = refl

append-ne-nil : (s t : GoString) → t ≢ [] → s ++ t ≢ []
append-ne-nil [] t n = n
append-ne-nil (a ∷ s) t n = λ e. cc

match-below :
    (directory rest : GoString) (mode : RootPathMatchMode)
    → directory ++ slash ≢ slash
    → match_path_pattern ((directory ++ slash) ++ rest) (directory ++ slash) mode ≡ true
match-below directory rest mode n =
    let pattern = directory ++ slash in
    let filled : pattern ≢ [] = append-ne-nil directory slash (λ e. cc) in
    let path_filled : pattern ++ rest ≢ [] = front-ne-nil pattern rest filled in
    rw (
      match-nonempty (pattern ++ rest) pattern mode path_filled filled,
      other pattern n,
      has_suffix-append directory slash,
      has_prefix-append pattern rest,
    )
  where
    other : (s : GoString) → s ≢ slash → (s == slash) ≡ false
    other s n = elim (==-cases s slash) [ inl (t, e) ↦ absurd (n e) | inr (f, _) ↦ f ]

    front-ne-nil : (s t : GoString) → s ≢ [] → s ++ t ≢ []
    front-ne-nil [] t n = absurd (n refl)
    front-ne-nil (a ∷ s) t n = λ e. cc

match-root : (rest : GoString) → match_path_pattern (slash ++ rest) slash root_path_subtree ≡ true
match-root rest = rw (
  match-nonempty (slash ++ rest) slash root_path_subtree (λ e. cc) (λ e. cc),
  ==_self slash,
  has_prefix-append slash rest,
)

match_path_pattern_complete :
    (path pattern : GoString) (mode : RootPathMatchMode)
    → CoversPath mode path pattern
    → match_path_pattern path pattern mode ≡ true
match_path_pattern_complete path pattern mode (exact n e) = rw e (match_self pattern mode n)
match_path_pattern_complete path pattern mode (below directory rest e n f) =
    rw (f, e) (match-below directory rest mode (λ q. n (e ∙ q)))
match_path_pattern_complete path pattern mode (root rest m e f) = rw (f, e, m) (match-root rest)

-- A path matches a pattern exactly when the pattern covers it.
pub match_path_pattern_iff :
    (path pattern : GoString) (mode : RootPathMatchMode)
    → (match_path_pattern path pattern mode ≡ true) ↔ CoversPath mode path pattern
match_path_pattern_iff path pattern mode =
    (match_path_pattern_sound path pattern mode, match_path_pattern_complete path pattern mode)

-- A pattern is a front part of every path that it covers.
pub CoversPath-prefix :
    (mode : RootPathMatchMode) (path pattern : GoString)
    → CoversPath mode path pattern
    → (rest : GoString) × (path ≡ pattern ++ rest)
CoversPath-prefix mode path pattern (exact _ e) = ([], e ∙ sym (append-nil pattern))
CoversPath-prefix mode path pattern (below _ rest _ _ e) = (rest, e)
CoversPath-prefix mode path pattern (root rest _ p e) = (rest, e ∙ ap (λ x. x ++ rest) (sym p))

-- Of the patterns that cover a path, no two are equally long.
pub match_path_pattern-injective :
    (path pattern other : GoString) (mode mode' : RootPathMatchMode)
    → match_path_pattern path pattern mode ≡ true
    → match_path_pattern path other mode' ≡ true
    → length pattern ≡ length other
    → pattern ≡ other
match_path_pattern-injective path pattern other mode mode' h k e =
    let (r, p) = CoversPath-prefix mode path pattern (match_path_pattern_sound _ _ _ h) in
    let (s, q) = CoversPath-prefix mode' path other (match_path_pattern_sound _ _ _ k) in
    (append_cancel pattern other (sym p ∙ q) e).0

pub match_path_pattern-nil :
    (path : GoString) (mode : RootPathMatchMode) → match_path_pattern path [] mode ≡ false
unfolding match_path_pattern
match_path_pattern-nil path mode = ground arith

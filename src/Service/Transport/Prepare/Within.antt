-- ===== src/Service/Transport/Prepare/Within.antt =====
-- resolveStaticSource and the directory of the service.
use arupa.Base.{◌≡◌, ◌≢◌, ◌⊎◌, inl, inr, refl, sym, ap, ◌∙◌, subst, Bool, true, false, ◌||◌}
use arupa.Base.{List, [], ◌∷◌, ◌++◌, Option, none, some, GoString, string_eq, bool_eq, ◌==◌}
use arupa.Base.{==-cases, Bool-cases, is_empty}
use arupa.Base.Result.{Result, ok, err, reject-ok, ok-injective}
use arupa.Strings.{has_prefix, trim_space}
use arupa.Service.Filepath.{
  clean, clean_parts, is_abs, join, rel, dot, dot_dot, strip_common, climb, ups, join_slash,
}
use arupa.Service.Transport.Prepare.{
  World, TransportError, resolve_static_source, climbs_out, climbs_out_or_none, stat_source,
}

strip_common-rest : (bs ts rest : List GoString) → strip_common bs ts ≡ ([], rest) → ts ≡ bs ++ rest
unfolding strip_common
strip_common-rest [] ts rest h = ap (λ (x : List GoString × List GoString). x.1) h
strip_common-rest (b ∷ bs) [] rest h =
    absurd (nonempty (ap (λ (x : List GoString × List GoString). x.0) h))
  where
    nonempty : ◌≢◌ {A = List GoString} (b ∷ bs) []
    nonempty e = cc
strip_common-rest (b ∷ bs) (t ∷ ts) rest h = elim (==-cases b t) [
  | inl (q, e) ↦
      let later : ts ≡ bs ++ rest = strip_common-rest bs ts rest (rw (q, strip_common) at h) in cc
  | inr (f, _) ↦
      absurd
        (nonempty (ap (λ (x : List GoString × List GoString). x.0) (rw (f, strip_common) at h)))
]
  where
    nonempty : ◌≢◌ {A = List GoString} (b ∷ bs) []
    nonempty e = cc

climbs_out-ups : (parts : List GoString) → climbs_out (join_slash (dot_dot ∷ parts)) ≡ true
unfolding join_slash has_prefix string_eq
climbs_out-ups [] = refl
climbs_out-ups (p ∷ ps) = refl

-- A relative path that does not climb out comes from going down only.
climb-down :
    (x : List GoString × List GoString) (p : GoString)
    → climb x ≡ some p
    → climbs_out p ≡ false
    → (x.0 ≡ []) × (join_slash x.1 ≡ p)
climb-down ([], ts) p h k = (refl, cc)
climb-down (b ∷ bs, ts) p h k = elim (Bool-cases (b == dot_dot)) [
  | inl t ↦ absurd (clash (rw t at h))
  | inr f ↦ absurd (
      climbs (
        sym (climbs_out-ups (ups bs ts)) ∙ ap (λ t. climbs_out t) (some-injective (rw f at h)) ∙ k))
]
  where
    clash : ◌≢◌ {A = Option GoString} none (some p)
    clash q = cc

    climbs : ◌≢◌ {A = Bool} true false
    climbs q = cc

    some-injective : {x y : GoString} → ◌≡◌ {A = Option GoString} (some x) (some y) → x ≡ y
    some-injective q = cc

-- The path is the base or below it: its clean elements are those of the base and more, and what
-- is added does not go up.
pub record IsBelow (base path : GoString) : Type 0 where
  pub rest : List GoString
  pub same_kind : is_abs base ≡ is_abs path
  pub extends : clean_parts path ≡ clean_parts base ++ rest
  pub down : climbs_out (join_slash rest) ≡ false

abbrev pub IsWithin : GoString → GoString → Type 0
IsWithin base path = (clean base ≡ clean path) ⊎ IsBelow base path

rel-IsWithin :
    (base path : GoString) → climbs_out_or_none (rel base path) ≡ false → IsWithin base path
unfolding rel climbs_out_or_none
rel-IsWithin base path h = elim (==-cases (clean base) (clean path)) [
  | inl (_, e) ↦ inl e
  | inr (f, _) ↦ elim (==-cases (is_abs base) (is_abs path)) [
    | inr (g, _) ↦ absurd (clash (rw (f, g, climbs_out_or_none, rel) at h))
    | inl (t, kind) ↦ inr (below kind _ refl (rw (f, t, climbs_out_or_none, rel) at h))
  ]
]
  where
    clash : ◌≢◌ {A = Bool} true false
    clash q = cc

    below :
        is_abs base ≡ is_abs path
        → (x : Option GoString) → climb (strip_common (clean_parts base) (clean_parts path)) ≡ x
        → climbs_out_or_none x ≡ false
        → IsBelow base path
    below kind none e k = absurd (clash k)
    below kind (some p) e k =
        let (no_base, text) = climb-down _ p e k in
        record {
          rest = (strip_common (clean_parts base) (clean_parts path)).1;
          same_kind = kind;
          extends =
              strip_common-rest _ _ _
                (λ i. (no_base i, (strip_common (clean_parts base) (clean_parts path)).1));
          down = ap (λ t. climbs_out t) text ∙ k;
        }

stat_source_ok :
    (w : World) (path out : GoString) (dir : Bool)
    → stat_source w path ≡ ok (out, dir)
    → (path ≡ out) × (w.stat path ≡ some dir)
unfolding stat_source
stat_source_ok w path out dir h = by (w.stat path) refl
  where
    by : (x : Option Bool) → w.stat path ≡ x → (path ≡ out) × (w.stat path ≡ some dir)
    by none e = absurd (clash (rw (e, stat_source) at h))
      where
        clash :
            ◌≢◌ {A = Result TransportError (GoString × Bool)}
              (err TransportError.source_missing)
              (ok (out, dir))
        clash q = cc
    by (some d) e =
        let q = ok-injective (rw (e, stat_source) at h) in
        (ap (λ (x : GoString × Bool). x.0) q, e ∙ ap (λ (x : GoString × Bool). some x.1) q)

-- A static source that is accepted is the service's directory or lies below it, with nothing that
-- goes up, and is there: it is the directory or file that the file system tells.
pub resolve_static_source-IsWithin :
    (w : World) (root source path : GoString) (dir : Bool)
    → resolve_static_source w root source ≡ ok (path, dir)
    → IsWithin (clean root) path × (w.stat path ≡ some dir)
unfolding resolve_static_source
resolve_static_source-IsWithin w root source path dir h =
    let s : GoString = trim_space source in
    let joined : GoString = join (clean root) (clean s) in
    let (_, a) =
      reject-ok (clean root == dot || is_empty (clean root)) TransportError.no_root _ h in
    let (_, b) = reject-ok (is_empty s || is_abs s) TransportError.source_not_relative _ a in
    let (_, c) = reject-ok (climbs_out (clean s)) TransportError.source_escapes _ b in
    let (down, d) =
      reject-ok (climbs_out_or_none (rel (clean root) joined)) TransportError.source_escapes _ c in
    let (same, there) = stat_source_ok w joined path dir d in
    (
      subst (λ p. IsWithin (clean root) p) same (rel-IsWithin (clean root) joined down),
      subst (λ p. w.stat p ≡ some dir) same there,
    )

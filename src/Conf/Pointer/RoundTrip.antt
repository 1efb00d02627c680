-- ===== src/Conf/Pointer/RoundTrip.antt =====
-- Writing and reading JSON Pointers.
use mathlib.Core.List.{append-nil}
use arupa.Base.{nat_eqb_iff, subst}
use arupa.Base.{ℕ, ◌≡◌, ◌≢◌, ◌↔◌, inl, inr, refl, sym, ap, ◌∙◌, true, false, List}
use arupa.Base.{[], ◌∷◌, ◌++◌, GoString, nat_eqb, All, Bool-cases, arith, map}
use arupa.Base.Result.{ok, bind-ok, ok-injective}
use arupa.Service.Filepath.{split_slash, join_slash}
use arupa.Conf.Pointer.{
  replace_tilde, replace_slash, join_path, unescaped, unescape, unescape_all, parse_pointer,
}

abbrev escape : GoString → GoString
escape s = replace_slash (replace_tilde s)

abbrev NoSlash : GoString → Type 0
NoSlash s = All (λ c. c ≢ b'/') s

escape-NoSlash : (s : GoString) → NoSlash (escape s)
unfolding replace_tilde replace_slash
escape-NoSlash [] = tt
escape-NoSlash (c ∷ s) = ground (arith, escape-NoSlash s)

unescape-plain :
    (c : ℕ) (x : GoString) {s : GoString}
    → nat_eqb c b'~' ≡ false
    → unescape x ≡ ok s
    → unescape (c ∷ x) ≡ ok (c ∷ s)
unfolding unescape
unescape-plain c [] n h = ground arith
unescape-plain c (d ∷ x) n h = rw (n, unescape, h) refl

unescape-escape : (s : GoString) → unescape (escape s) ≡ ok s
unfolding replace_tilde replace_slash unescape
unescape-escape [] = refl
unescape-escape (c ∷ s) = elim (Bool-cases (nat_eqb c b'~')) [
  | inl t ↦ rw (t, unescape-escape s, replace_slash) (ground arith)
  | inr n ↦ elim (Bool-cases (nat_eqb c b'/')) [
    | inl t ↦ rw (n, replace_slash, t, unescape-escape s) (ground arith)
    | inr m ↦ rw (n, replace_slash, m) (unescape-plain c (escape s) n (unescape-escape s))
  ]
]

split_slash-plain : (x : GoString) → NoSlash x → split_slash x ≡ x ∷ []
unfolding split_slash
split_slash-plain [] h = refl
split_slash-plain (c ∷ x) (n, h) = rw (split_slash-plain x h) (ground arith)

split_slash-append :
    (x y : GoString) → NoSlash x → split_slash (x ++ (b'/' ∷ y)) ≡ x ∷ split_slash y
unfolding split_slash
split_slash-append [] y h = refl
split_slash-append (c ∷ x) y (n, h) = rw (split_slash-append x y h) (ground arith)

split_slash-join_path :
    (segment : GoString) (segments : List GoString)
    → split_slash (escape segment ++ join_path segments)
      ≡ escape segment ∷ map (λ s. escape s) segments
unfolding join_path
split_slash-join_path segment [] =
    rw (append-nil (escape segment)) (split_slash-plain (escape segment) (escape-NoSlash segment))
split_slash-join_path segment (next ∷ segments) =
    split_slash-append (escape segment) _ (escape-NoSlash segment)
    ∙ ap (λ t. escape segment ∷ t) (split_slash-join_path next segments)

unescape_all-escape :
    (segments : List GoString) → unescape_all (map (λ s. escape s) segments) ≡ ok segments
unfolding unescape_all
unescape_all-escape [] = refl
unescape_all-escape (segment ∷ segments) =
    rw (unescape-escape segment, unescape_all-escape segments) refl

-- A path that is written from decoded segments is read as those segments, whatever bytes they hold.
pub parse_pointer-join_path :
    (segment : GoString) (segments : List GoString)
    → parse_pointer (join_path (segment ∷ segments)) ≡ ok (segment ∷ segments)
unfolding parse_pointer join_path
parse_pointer-join_path segment segments =
    rw (split_slash-join_path segment segments) (unescape_all-escape (segment ∷ segments))

escape-nil : escape [] ≡ []
unfolding replace_tilde replace_slash
escape-nil = refl

escape-plain :
    (c : ℕ) (s : GoString) → nat_eqb c b'~' ≡ false → c ≢ b'/' → escape (c ∷ s) ≡ c ∷ escape s
unfolding replace_tilde replace_slash
escape-plain c s n m =
    let f : nat_eqb c b'/' ≡ false = ground arith in rw (n, replace_slash, f) refl

escape-escaped :
    (c d b : ℕ) (s : GoString)
    → nat_eqb c b'~' ≡ true
    → unescaped d ≡ ok b
    → escape (b ∷ s) ≡ c ∷ d ∷ escape s
unfolding replace_tilde replace_slash
escape-escaped c d b s t h = ground arith

-- An escape that is read is the one that is written.
escape-unescape : (x s : GoString) → NoSlash x → unescape x ≡ ok s → escape s ≡ x
unfolding unescape
escape-unescape [] s h e = ap (λ t. escape t) (sym (ok-injective e)) ∙ escape-nil
escape-unescape (c ∷ []) s (n, _) e = elim (Bool-cases (nat_eqb c b'~')) [
  | inl t ↦ absurd (ground arith)
  | inr f ↦
      let q : c ∷ [] ≡ s = ground arith in
      ap (λ t. escape t) (sym q) ∙ escape-plain c [] f n ∙ ap (λ t. c ∷ t) escape-nil
]
escape-unescape (c ∷ d ∷ x) s (n, h) e = elim (Bool-cases (nat_eqb c b'~')) [
  | inr f ↦
      let (rest, read, q) = bind-ok (unescape (d ∷ x)) _ (rw (f, unescape) at e) in
      ap (λ t. escape t) (sym (ok-injective q))
      ∙ escape-plain c rest f n
      ∙ ap (λ t. c ∷ t) (escape-unescape (d ∷ x) rest h read)
  | inl t ↦
      let (b, byte, e') = bind-ok (unescaped d) _ (rw (t, unescape) at e) in
      let (rest, read, q) = bind-ok (unescape x) _ e' in
      ap (λ t. escape t) (sym (ok-injective q))
      ∙ escape-escaped c d b rest t byte
      ∙ ap (λ t. c ∷ d ∷ t) (escape-unescape x rest h.1 read)
]

split_slash-cons :
    (path : GoString) → (p : GoString) × (ps : List GoString) × (split_slash path ≡ p ∷ ps)
unfolding split_slash
split_slash-cons [] = ([], [], refl)
split_slash-cons (c ∷ path) = elim (Bool-cases (nat_eqb c b'/')) [
  | inl t ↦ ([], split_slash path, rw t refl)
  | inr f ↦ let (p, ps, e) = split_slash-cons path in (c ∷ p, ps, rw (f, e) refl)
]

split_slash-NoSlash : (path : GoString) → All NoSlash (split_slash path)
unfolding split_slash
split_slash-NoSlash [] = (tt, tt)
split_slash-NoSlash (c ∷ path) = elim (Bool-cases (nat_eqb c b'/')) [
  | inl t ↦ rw t (tt, split_slash-NoSlash path)
  | inr f ↦
      let (p, ps, e) = split_slash-cons path in
      let h = subst (λ l. All NoSlash l) e (split_slash-NoSlash path) in
      let n : c ≢ b'/' = ground arith in rw (f, e) ((n, h.0), h.1)
]

join_slash-split_slash : (path : GoString) → join_slash (split_slash path) ≡ path
unfolding split_slash join_slash
join_slash-split_slash [] = refl
join_slash-split_slash (c ∷ path) =
    let (p, ps, e) = split_slash-cons path in
    let h : join_slash (p ∷ ps) ≡ path =
      ap (λ l. join_slash l) (sym e) ∙ join_slash-split_slash path in
    elim (Bool-cases (nat_eqb c b'/')) [
      | inl t ↦
          rw (t, e) (ap (λ x. b'/' ∷ x) h ∙ ap (λ x. x ∷ path) (sym ((nat_eqb_iff c b'/').0 t)))
      | inr f ↦ rw (f, e) (push c p ps ∙ ap (λ x. c ∷ x) h)
    ]
  where
    push :
        (c : ℕ) (p : GoString) (ps : List GoString)
        → join_slash ((c ∷ p) ∷ ps) ≡ c ∷ join_slash (p ∷ ps)
    push c p [] = refl
    push c p (q ∷ ps) = refl

unescape_all-join :
    (part : GoString) (parts : List GoString) (segments : List GoString)
    → All NoSlash (part ∷ parts)
    → unescape_all (part ∷ parts) ≡ ok segments
    → join_path segments ≡ b'/' ∷ join_slash (part ∷ parts)
unfolding join_path join_slash unescape_all
unescape_all-join part [] segments (n, _) h =
    let (s, read, h') = bind-ok (unescape part) _ h in
    ap (λ t. join_path t) (sym (ok-injective h'))
    ∙ ap (λ t. b'/' ∷ t) (append-nil (escape s) ∙ escape-unescape part s n read)
unescape_all-join part (next ∷ parts) segments (n, m) h =
    let (s, read, h') = bind-ok (unescape part) _ h in
    let (rest, reads, q) = bind-ok (unescape_all (next ∷ parts)) _ h' in
    ap (λ t. join_path t) (sym (ok-injective q))
    ∙ ap (λ t. b'/' ∷ (t ++ join_path rest)) (escape-unescape part s n read)
    ∙ ap (λ t. b'/' ∷ (part ++ t)) (unescape_all-join next parts rest m reads)

nonempty :
    (part : GoString) (parts segments : List GoString)
    → unescape_all (part ∷ parts) ≡ ok segments
    → segments ≢ []
unfolding unescape_all
nonempty part parts segments h e =
    let (s, _, h') = bind-ok (unescape part) _ h in
    let (rest, _, q) = bind-ok (unescape_all parts) _ h' in clash s rest (ok-injective q ∙ e)
  where
    clash : (x : GoString) (xs : List GoString) → ◌≢◌ {A = List GoString} (x ∷ xs) []
    clash x xs q = cc

-- A pointer is read as some segments exactly if it is the path that is written from them, and
-- there is one at least.
pub parse_pointer_iff :
    (path : GoString) (segments : List GoString)
    → (parse_pointer path ≡ ok segments) ↔ ((segments ≢ []) × (join_path segments ≡ path))
unfolding parse_pointer
parse_pointer_iff path segments = (read path, written segments)
  where
    read :
        (path : GoString)
        → parse_pointer path ≡ ok segments
        → (segments ≢ []) × (join_path segments ≡ path)
    read [] h = absurd (ground arith)
    read (c ∷ path) h = elim (Bool-cases (nat_eqb c b'/')) [
      | inr f ↦ absurd (ground arith)
      | inl t ↦
          let (p, ps, e) = split_slash-cons path in
          let h' : unescape_all (p ∷ ps) ≡ ok segments =
            ap (λ l. unescape_all l) (sym e) ∙ rw (t, parse_pointer) at h in
          (
            nonempty p ps segments h',
            unescape_all-join p ps segments
                  (subst (λ l. All NoSlash l) e (split_slash-NoSlash path)) h'
                ∙ ap (λ l. b'/' ∷ join_slash l) (sym e)
                ∙ ap (λ l. b'/' ∷ l) (join_slash-split_slash path)
                ∙ ap (λ x. x ∷ path) (sym ((nat_eqb_iff c b'/').0 t)),
          )
    ]

    written :
        (segments : List GoString)
        → (segments ≢ []) × (join_path segments ≡ path)
        → parse_pointer path ≡ ok segments
    written [] (n, _) = absurd (n refl)
    written (segment ∷ segments) (_, e) =
        ap (λ p. parse_pointer p) (sym e) ∙ parse_pointer-join_path segment segments

-- ===== src/Conf/Services/Digest.antt =====
-- The digest of a service's package.
use arupa.Base.{ℕ, ◌≡◌, ◌≢◌, refl, ap, ◌∙◌, Bool, true, false, not, ◌&&◌, ◌||◌, [], ◌∷◌}
use arupa.Base.{
  Option, none, some, GoString, length, leb, nat_eqb, nat_eqb_iff, all, is_empty, Bool-cases,
}
use arupa.Base.{arith, inl, inr, suc, subst}
use arupa.Base.Result.{Result, ok, err, reject-ok, ok-injective}
use arupa.Strings.{bytes, to_lower, lower_byte, trim_space, cut}
use arupa.Conf.Types.{Service}
use arupa.Conf.Services.{
  ServiceError, sha256_checksum, checksum_parts, decodes_to_digest, is_hex_digit, evenb, equal_fold,
}

-- A digit of a lower-case hexadecimal text.
abbrev pub is_lower_hex : ℕ → Bool
is_lower_hex c = (leb b'0' c && leb c b'9') || (leb b'a' c && leb c b'f')

lower_byte-is_lower_hex : (c : ℕ) → is_hex_digit c ≡ true → is_lower_hex (lower_byte c) ≡ true
unfolding lower_byte
lower_byte-is_lower_hex c h = ground arith

pub and-true : (a b : Bool) → (a && b) ≡ true → (a ≡ true) × (b ≡ true)
and-true true b h = (refl, h)
and-true false b h = absurd (clash h)
  where
    clash : ◌≢◌ {A = Bool} false true
    clash q = cc

to_lower-is_lower_hex :
    (s : GoString)
    → all is_hex_digit s ≡ true
    → (all is_lower_hex (to_lower s) ≡ true) × (length (to_lower s) ≡ length s)
unfolding to_lower
to_lower-is_lower_hex [] h = (refl, refl)
to_lower-is_lower_hex (c ∷ s) h =
    let (hc, hs) = and-true (is_hex_digit c) (all is_hex_digit s) h in
    let (later, l) = to_lower-is_lower_hex s hs in
    (rw (lower_byte-is_lower_hex c hc) later, ap (λ n. suc n) l)

pub decodes-not : (b : Bool) → not b ≡ false → b ≡ true
decodes-not true h = refl
decodes-not false h = absurd (clash h)
  where
    clash : ◌≢◌ {A = Bool} true false
    clash q = cc

checksum_parts-digest :
    (parts : Option (GoString × GoString)) (digest : GoString)
    → checksum_parts parts ≡ ok (some digest)
    → (length digest ≡ 64) × (all is_lower_hex digest ≡ true)
unfolding checksum_parts decodes_to_digest
checksum_parts-digest none digest h = absurd (clash h)
  where
    clash :
        ◌≢◌ {A = Result ServiceError (Option GoString)}
          (err ServiceError.bad_checksum)
          (ok (some digest))
    clash q = cc
checksum_parts-digest (some (algorithm, raw)) digest h =
    let (_, h1) = reject-ok (not (equal_fold algorithm (bytes "sha256"))) _ _ h in
    let (decodes, h2) = reject-ok (not (decodes_to_digest raw)) _ _ h1 in
    let (digits, l) =
      and-true (all is_hex_digit raw && evenb raw) (nat_eqb (length raw) 64)
        (decodes-not (decodes_to_digest raw) decodes) in
    let (hex, _) = and-true (all is_hex_digit raw) (evenb raw) digits in
    let (lower, same) = to_lower-is_lower_hex raw hex in
    let e : to_lower raw ≡ digest = inner (ok-injective h2) in
    subst (λ d. (length d ≡ 64) × (all is_lower_hex d ≡ true)) e
      (same ∙ (nat_eqb_iff (length raw) 64).0 l, lower)
  where
    inner : {a b : GoString} → ◌≡◌ {A = Option GoString} (some a) (some b) → a ≡ b
    inner q = cc

-- A checksum that is accepted and not empty gives a digest of 64 lower-case hexadecimal digits.
pub sha256_checksum-digest :
    (p : Service) (digest : GoString)
    → sha256_checksum p ≡ ok (some digest)
    → (length digest ≡ 64) × (all is_lower_hex digest ≡ true)
unfolding sha256_checksum
sha256_checksum-digest p digest h = elim (Bool-cases (is_empty (trim_space p.checksum))) [
  | inl t ↦ absurd (clash (rw (sha256_checksum, t) at h))
  | inr f ↦
      checksum_parts-digest (cut (trim_space p.checksum) b':') digest (rw (sha256_checksum, f) at h)
]
  where
    clash : ◌≢◌ {A = Result ServiceError (Option GoString)} (ok none) (ok (some digest))
    clash q = cc

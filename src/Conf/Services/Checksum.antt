-- ===== src/Conf/Services/Checksum.antt =====
-- The checksums of packages that are accepted.
use arupa.Base.{ℕ, ◌≡◌, ◌≢◌, ◌↔◌, ◌⊎◌, ◌≤◌, ◌*◌, inl, inr, refl, true, not}
use arupa.Base.{[], ◌∷◌, ◌++◌, GoString, string_eq, All, all, length, suc, zero, arith}
use arupa.Base.{
  Option, none, some, nat_eqb, nat_eqb_iff, is_empty, is_empty_iff, is_empty_of_ne, Bool-cases,
  Option-cases, ◌&&◌,
}
use arupa.Base.Result.{Result, ok, err, reject-ok}
use arupa.Strings.{bytes, to_lower, trim_space, cut}
use arupa.Strings.Laws.{cut-append, cut-join}
use arupa.Strings.Spelling.{Spells}
use arupa.Conf.Types.{Service}
use arupa.Conf.Services.{
  ServiceError, sha256_checksum, checksum_parts, decodes_to_digest, is_hex_digit, evenb, equal_fold,
}
use arupa.Conf.Services.Digest.{and-true, decodes-not}
use arupa.Conf.Services.EqualFold.{FoldOf, equal_fold_iff}

-- A hexadecimal digit.
abbrev pub IsHex : ℕ → Type 0
IsHex c = ((b'0' ≤ c) × (c ≤ b'9')) ⊎ ((b'a' ≤ c) × (c ≤ b'f')) ⊎ ((b'A' ≤ c) × (c ≤ b'F'))

-- The checksum is empty, or "sha256" in any case, where the s may be the long s, a colon and 64
-- hexadecimal digits, white space around it aside.
abbrev pub IsChecksum : GoString → Type 0
IsChecksum checksum =
    (trim_space checksum ≡ [])
    ⊎ ((algorithm : GoString) × (digest : GoString) × (trim_space checksum
          ≡ algorithm ++ b':' ∷ digest)
        × All (λ b. b ≢ b':') algorithm
        × Spells FoldOf algorithm (bytes "sha256")
        × (length digest ≡ 64)
        × All IsHex digest)

evenb-length : (k : ℕ) (s : GoString) → length s ≡ 2 * k → evenb s ≡ true
evenb-length k [] h = refl
evenb-length zero (a ∷ s) h = absurd (omega arith)
evenb-length (suc k) (a ∷ []) h = absurd (omega arith)
evenb-length (suc k) (a ∷ b ∷ s) h = evenb-length k s (omega arith)

is_hex_digit_iff : (c : ℕ) → (is_hex_digit c ≡ true) ↔ IsHex c
is_hex_digit_iff c = (λ h. ground arith, λ h. ground arith)

digits_iff : (digest : GoString) → (all is_hex_digit digest ≡ true) ↔ All IsHex digest
digits_iff [] = (λ _. tt, λ _. refl)
digits_iff (c ∷ digest) = (
  λ h.
      let (one, rest) = and-true (is_hex_digit c) (all is_hex_digit digest) h in
      ((is_hex_digit_iff c).0 one, (digits_iff digest).0 rest),
  λ (one, rest). rw ((is_hex_digit_iff c).1 one) ((digits_iff digest).1 rest),
)

decodes_to_digest_iff :
    (digest : GoString)
    → (decodes_to_digest digest ≡ true) ↔ ((length digest ≡ 64) × All IsHex digest)
unfolding decodes_to_digest
decodes_to_digest_iff digest = (
  λ h.
      let (digits, l) =
        and-true (all is_hex_digit digest && evenb digest) (nat_eqb (length digest) 64) h in
      let (hex, _) = and-true (all is_hex_digit digest) (evenb digest) digits in
      ((nat_eqb_iff (length digest) 64).0 l, (digits_iff digest).0 hex),
  λ (l, hex).
      rw
        (
          decodes_to_digest,
          (digits_iff digest).1 hex,
          evenb-length 32 digest l,
          (nat_eqb_iff (length digest) 64).1 l,
        )
        refl,
)

module _ (p : Service) where
  accepted : (found : Option GoString) → sha256_checksum p ≡ ok found → IsChecksum p.checksum
  unfolding sha256_checksum checksum_parts
  accepted found h = elim (Bool-cases (is_empty (trim_space p.checksum))) [
    | inl t ↦ inl ((is_empty_iff (trim_space p.checksum)).0 t)
    | inr f ↦ elim (Option-cases (cut (trim_space p.checksum) b':')) [
      | inl q ↦ absurd (clash (rw (sha256_checksum, f, q) at h))
      | inr ((algorithm, digest), q) ↦
          let h' : checksum_parts (some (algorithm, digest)) ≡ ok found =
            rw (sha256_checksum, f, q) at h in
          let (a, h1) = reject-ok (not (equal_fold algorithm (bytes "sha256"))) _ _ h' in
          let (d, _) = reject-ok (not (decodes_to_digest digest)) _ _ h1 in
          let (e, plain) = cut-join (trim_space p.checksum) b':' algorithm digest q in
          let (l, hex) =
            (decodes_to_digest_iff digest).0 (decodes-not (decodes_to_digest digest) d) in
          inr (
            algorithm,
            digest,
            e,
            plain,
            (equal_fold_iff algorithm).0 (decodes-not (equal_fold algorithm (bytes "sha256")) a),
            l,
            hex,
          )
    ]
  ]
    where
      clash :
          ◌≢◌ {A = Result ServiceError (Option GoString)} (err ServiceError.bad_checksum) (ok found)
      clash q = cc

  -- A checksum is accepted exactly if it is empty, or "sha256" in any case, a colon and 64
  -- hexadecimal digits, white space around it aside.
  pub sha256_checksum_iff :
      ((found : Option GoString) × (sha256_checksum p ≡ ok found)) ↔ IsChecksum p.checksum
  unfolding sha256_checksum checksum_parts
  sha256_checksum_iff = (
    λ (found, h). accepted found h,
    λ x. elim x [
      | inl e ↦ (none, rw (sha256_checksum, e) refl)
      | inr (algorithm, digest, e, plain, spells, l, hex) ↦ (
        some (to_lower digest),
        rw
            (
              sha256_checksum,
              e,
              is_empty_of_ne (algorithm ++ b':' ∷ digest) (filled algorithm digest),
              cut-append algorithm digest b':' plain,
              checksum_parts,
              (equal_fold_iff algorithm).1 spells,
              (decodes_to_digest_iff digest).1 (l, hex),
            )
            refl,
      )
    ],
  )
    where
      filled : (a d : GoString) → a ++ b':' ∷ d ≢ []
      filled [] d q = cc
      filled (b ∷ a) d q = cc

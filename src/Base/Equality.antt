-- ===== src/Base/Equality.antt =====
-- Go's `==` for every type whose equality can be decided.
use Prim.Native.Nat.{ℕ}
use mathlib.Core.Path.{◌≡◌, refl, ap, ap₂}
use mathlib.Core.Logic.{ite, dite, if_pos, if_neg, ◌⊎◌, inl, inr, ◌≢◌, ◌↔◌}
use mathlib.Core.Bool.{Bool, true, false, ◌&&◌, ◌||◌, Bool-discrete}
use mathlib.Core.List.{List, [], ◌∷◌}
use native.Mathlib.Omega.{arith}
use native.Mathlib.Decide.{ℕ_discrete}

pub record Eq {ℓ} (A : Type ℓ) : Type ℓ where
  pub dec : Discrete A

module _ {ℓ} {A : Type ℓ} ⦃e : Eq A⦄ where
  infix 50 ◌==◌
  abbrev pub ◌==◌ : A → A → Bool
  a == b = ite (e.dec a b) true false

  abbrev pub contains : List A → A → Bool
  contains [] a = false
  contains (x ∷ xs) a = a == x || contains xs a

-- A Go string: its bytes.
abbrev pub GoString : Type 0
GoString = List ℕ

-- Byte by byte.
pub bytes_eqb : GoString → GoString → Bool
bytes_eqb [] [] = true
bytes_eqb (a ∷ s) (b ∷ t) = ite (ℕ_discrete a b) true false && bytes_eqb s t
bytes_eqb _ _ = false

pub bytes_eqb_sound : (s t : GoString) → bytes_eqb s t ≡ true → s ≡ t
unfolding bytes_eqb
bytes_eqb_sound [] [] h = refl
bytes_eqb_sound (a ∷ s) (b ∷ t) h = ground (arith, bytes_eqb_sound s t)
bytes_eqb_sound [] (b ∷ t) h = cc
bytes_eqb_sound (a ∷ s) [] h = cc

pub bytes_eqb_self : (s : GoString) → bytes_eqb s s ≡ true
unfolding bytes_eqb
bytes_eqb_self [] = refl
bytes_eqb_self (a ∷ s) = ground (arith, bytes_eqb_self s)

bytes_dec : Discrete GoString
unfolding bytes_eqb ℕ_discrete
bytes_dec s t =
    dite (Bool-discrete (bytes_eqb s t) true) (λ same. yes (bytes_eqb_sound s t same))
      (λ differ. no (λ p. differ (cc (bytes_eqb_self s, p))))

-- Shut in proofs, where a split on `s == t` yields the equation or its negation.
instance unfoldable pub string_eq : Eq GoString
unfolding bytes_dec
string_eq = record { dec = bytes_dec }

-- To split on a test of equality and keep what it says.
pub ==-cases {ℓ} :
    {A : Type ℓ} ⦃e : Eq A⦄ (a b : A)
    → (((a == b) ≡ true) × (a ≡ b)) ⊎ (((a == b) ≡ false) × (a ≢ b))
==-cases ⦃e⦄ a b = elim (e.dec a b) [
  | yes p ↦ inl (if_pos (e.dec a b) p true false, p)
  | no p ↦ inr (if_neg (e.dec a b) p true false, p)
]

pub ==_self {ℓ} : {A : Type ℓ} ⦃e : Eq A⦄ (a : A) → (a == a) ≡ true
==_self ⦃e⦄ a = if_pos (e.dec a a) refl true false

pub ==_iff {ℓ} : {A : Type ℓ} ⦃e : Eq A⦄ (a b : A) → ((a == b) ≡ true) ↔ (a ≡ b)
==_iff a b = elim (==-cases a b) [
  | inl (t, p) ↦ (λ _. p, λ _. t)
  | inr (f, n) ↦ (λ t. cc (f, t), λ p. absurd (n p))
]

pair_dec : {A : Type 0} {B : Type 0} → Discrete A → Discrete B → Discrete (A × B)
pair_dec d f (a, b) (a', b') = elim (d a a') [
  | yes p ↦ elim (f b b') [
    | yes q ↦ yes (ap₂ (λ x y. (x, y)) p q)
    | no n ↦ no (λ e. n (ap (λ t. t.1) e))
  ]
  | no n ↦ no (λ e. n (ap (λ t. t.0) e))
]

bool_dec : Discrete Bool
bool_dec = Bool-discrete

instance unfoldable pub bool_eq : Eq Bool
unfolding bool_dec
bool_eq = record { dec = bool_dec }

-- A pair of texts: the key of a registry.
instance unfoldable pub key_eq : Eq (GoString × GoString)
unfolding pair_dec bytes_dec
key_eq = record { dec = pair_dec bytes_dec bytes_dec }

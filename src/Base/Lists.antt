-- ===== src/Base/Lists.antt =====
-- Lists measured by native numbers, and predicates on their elements.
use Prim.Native.Nat.{ℕ, zero, suc, ◌+◌}
use mathlib.Core.Path.{◌≡◌, refl}
use mathlib.Core.Logic.{◌⊎◌, ◌↔◌, ◌≢◌}
use mathlib.Core.Bool.{Bool, true, false, ◌&&◌, ◌||◌}
use mathlib.Core.List.{List, [], ◌∷◌, ◌++◌}
use native.Mathlib.Omega.{arith}

module _ {ℓ} {A : Type ℓ} where
  abbrev pub length : List A → ℕ
  length [] = 0
  length (x ∷ xs) = suc (length xs)

  abbrev pub drop : ℕ → List A → List A
  drop zero xs = xs
  drop (suc n) [] = []
  drop (suc n) (x ∷ xs) = drop n xs

  abbrev pub is_empty : List A → Bool
  is_empty [] = true
  is_empty (x ∷ xs) = false

  abbrev pub all : (A → Bool) → List A → Bool
  all p [] = true
  all p (x ∷ xs) = p x && all p xs

  abbrev pub any : (A → Bool) → List A → Bool
  any p [] = false
  any p (x ∷ xs) = p x || any p xs

  pub length-append : (xs ys : List A) → length (xs ++ ys) ≡ length xs + length ys
  length-append [] ys = omega arith
  length-append (x ∷ xs) ys = omega (arith, length-append xs ys)

module _ {ℓ} {A : Type ℓ} where
  -- Two front parts of one list that are as long are equal, and so are the rests.
  pub append_cancel :
      (xs ys : List A) {us vs : List A}
      → xs ++ us ≡ ys ++ vs
      → length xs ≡ length ys
      → (xs ≡ ys) × (us ≡ vs)
  append_cancel [] [] e h = (refl, e)
  append_cancel [] (y ∷ ys) e h = absurd (omega arith)
  append_cancel (x ∷ xs) [] e h = absurd (omega arith)
  append_cancel (x ∷ xs) (y ∷ ys) {us} {vs} e h =
      let tails : xs ++ us ≡ ys ++ vs = cc in
      let (p, q) = append_cancel xs ys tails (omega arith) in (cc, q)

  pub is_empty_iff : (xs : List A) → (is_empty xs ≡ true) ↔ (xs ≡ [])
  is_empty_iff [] = (λ _. refl, λ _. refl)
  is_empty_iff (x ∷ xs) = (λ h. cc, λ h. cc)

  pub is_empty_of_ne : (xs : List A) → xs ≢ [] → is_empty xs ≡ false
  is_empty_of_ne [] n = absurd (n refl)
  is_empty_of_ne (x ∷ xs) n = refl

-- Membership by recursion, which the tactics take apart.
abbrev pub In : {A : Type 0} → A → List A → Type 0
In a [] = ⊥
In a (x ∷ xs) = (x ≡ a) ⊎ In a xs

module _ {ℓ κ} {A : Type ℓ} (P : A → Type κ) where
  abbrev pub All : List A → Type κ
  All [] = Unit
  All (x ∷ xs) = P x × All xs

  pub All-append : (xs ys : List A) → All xs → All ys → All (xs ++ ys)
  All-append [] ys _ h = h
  All-append (x ∷ xs) ys (p, h) k = (p, All-append xs ys h k)

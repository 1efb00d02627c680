-- ===== src/Auth/RouteAccess/Order.antt =====
-- The order in which scores are compared.
use mathlib.Core.Bool.{false≢true}
use arupa.Base.{sym, ◌∙◌}
use arupa.Base.{
  ◌≡◌, ◌⊎◌, ◌↔◌, inl, inr, Bool, true, false, arith, ℤ, pos, negsuc, ltbℤ, lebℤ, eqbℤ, refl,
}
use arupa.Base.{◌||◌, ◌&&◌, ℕ, suc, ◌+◌, ◌<◌, ◌≤◌}
use arupa.Auth.RouteAccess.{Score, not_better}

abbrev pos_part : ℤ → ℕ
pos_part (pos n) = n
pos_part (negsuc n) = 0

abbrev neg_part : ℤ → ℕ
neg_part (pos n) = 0
neg_part (negsuc n) = suc n

-- The order of ℤ, with what is negative moved to the other side.
abbrev Lt : ℤ → ℤ → Type 0
Lt a b = pos_part a + neg_part b < pos_part b + neg_part a

abbrev Le : ℤ → ℤ → Type 0
Le a b = pos_part a + neg_part b ≤ pos_part b + neg_part a

ltbℤ_iff : (a b : ℤ) → (ltbℤ a b ≡ true) ↔ Lt a b
ltbℤ_iff (pos a) (pos b) = ground arith
ltbℤ_iff (pos a) (negsuc b) = ground arith
ltbℤ_iff (negsuc a) (pos b) = ground arith
ltbℤ_iff (negsuc a) (negsuc b) = ground arith

lebℤ_iff : (a b : ℤ) → (lebℤ a b ≡ true) ↔ Le a b
lebℤ_iff (pos a) (pos b) = ground arith
lebℤ_iff (pos a) (negsuc b) = ground arith
lebℤ_iff (negsuc a) (pos b) = ground arith
lebℤ_iff (negsuc a) (negsuc b) = ground arith

eqbℤ_iff : (a b : ℤ) → (eqbℤ a b ≡ true) ↔ (Le a b × Le b a)
eqbℤ_iff (pos a) (pos b) = ground arith
eqbℤ_iff (pos a) (negsuc b) = ground arith
eqbℤ_iff (negsuc a) (pos b) = ground arith
eqbℤ_iff (negsuc a) (negsuc b) = ground arith

pub ℤ_antisym : (a b : ℤ) → Le a b → Le b a → a ≡ b
ℤ_antisym (pos a) (pos b) h k = ground arith
ℤ_antisym (pos a) (negsuc b) h k = absurd (omega arith)
ℤ_antisym (negsuc a) (pos b) h k = absurd (omega arith)
ℤ_antisym (negsuc a) (negsuc b) h k = ground arith

abbrev ScoreLe : Score → Score → Type 0
ScoreLe a b =
    Lt a.path_length b.path_length
    ⊎ ((Le a.path_length b.path_length × Le b.path_length a.path_length)
        × Le a.method_rank b.method_rank)

or-cases : (a b : Bool) → (a || b) ≡ true → (a ≡ true) ⊎ (b ≡ true)
or-cases a b h = ground arith

and-cases : (a b : Bool) → (a && b) ≡ true → (a ≡ true) × (b ≡ true)
and-cases a b h = ground arith

not_better→ScoreLe : (a b : Score) → not_better a b ≡ true → ScoreLe a b
unfolding not_better
not_better→ScoreLe a b h =
    elim (or-cases (ltbℤ l m) (eqbℤ l m && lebℤ a.method_rank b.method_rank) h) [
      | inl t ↦ inl ((ltbℤ_iff l m).0 t)
      | inr e ↦
          let (p, q) = and-cases (eqbℤ l m) (lebℤ a.method_rank b.method_rank) e in
          inr ((eqbℤ_iff l m).0 p, (lebℤ_iff a.method_rank b.method_rank).0 q)
    ]
  where
    open a use {path_length as l}
    open b use {path_length as m}

ScoreLe→not_better : (a b : Score) → ScoreLe a b → not_better a b ≡ true
unfolding not_better
ScoreLe→not_better a b (inl l) = rw ((ltbℤ_iff _ _).1 l)
ScoreLe→not_better a b (inr (p, q)) = rw ((eqbℤ_iff _ _).1 p, (lebℤ_iff _ _).1 q) (or_true _)
  where
    or_true : (b : Bool) → (b || true) ≡ true
    or_true true = refl
    or_true false = refl

pub not_better_refl : (a : Score) → not_better a a ≡ true
not_better_refl a = ScoreLe→not_better a a (omega arith)

pub not_better_trans :
    (a b c : Score) → not_better a b ≡ true → not_better b c ≡ true → not_better a c ≡ true
not_better_trans a b c h k =
    ScoreLe→not_better a c (trans (not_better→ScoreLe a b h) (not_better→ScoreLe b c k))
  where
    trans : ScoreLe a b → ScoreLe b c → ScoreLe a c
    trans h k = omega arith

pub not_better_antisym :
    (a b : Score)
    → not_better a b ≡ true
    → not_better b a ≡ true
    → (a.path_length ≡ b.path_length) × (a.method_rank ≡ b.method_rank)
not_better_antisym a b h k = both (not_better→ScoreLe a b h) (not_better→ScoreLe b a k)
  where
    both :
        ScoreLe a b
        → ScoreLe b a
        → (a.path_length ≡ b.path_length) × (a.method_rank ≡ b.method_rank)
    both (inl p) (inl q) = absurd (omega arith)
    both (inl p) (inr q) = absurd (omega arith)
    both (inr p) (inl q) = absurd (omega arith)
    both (inr (p, q)) (inr (r, s)) = (ℤ_antisym _ _ p.0 p.1, ℤ_antisym _ _ q s)

four_numbers :
    (p q r s : ℕ) → (p < q ⊎ ((p ≤ q × q ≤ p) × r ≤ s)) ⊎ (q < p ⊎ ((q ≤ p × p ≤ q) × s ≤ r))
four_numbers p q r s = grind arith

ScoreLe-total : (a b : Score) → ScoreLe a b ⊎ ScoreLe b a
ScoreLe-total a b = four_numbers _ _ _ _

pub better-not_better : (a b : Score) → not_better a b ≡ false → not_better b a ≡ true
better-not_better a b h = elim (ScoreLe-total a b) [
  | inl l ↦ absurd (false≢true (sym h ∙ ScoreLe→not_better a b l))
  | inr l ↦ ScoreLe→not_better b a l
]

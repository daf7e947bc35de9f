-- ===== src/Common/Count.antt =====
-- How many numbers below a bound pass a Boolean test.
use Prim.Native.Nat.{ℕ, zero, suc, ◌+◌, ◌≤◌, ◌<◌}
use mathlib.Core.Path.{◌≡◌, refl}
use mathlib.Core.Bool.{Bool, true, false}
use mathlib.Core.Logic.{inl, inr}
use native.Mathlib.Omega.{arith}
use corefs.Common.Tests.{◌==◌, if◌then◌else◌, Bool-cases}

abbrev pub bool_to_ℕ : Bool → ℕ
bool_to_ℕ true = 1
bool_to_ℕ false = 0

abbrev pub count_below : ℕ → (ℕ → Bool) → ℕ
count_below zero p = 0
count_below (suc n) p = count_below n p + bool_to_ℕ (p n)

bool_to_ℕ-le : (b : Bool) → bool_to_ℕ b ≤ 1
bool_to_ℕ-le true = omega arith
bool_to_ℕ-le false = omega arith

pub count_below-le : (n : ℕ) (p : ℕ → Bool) → count_below n p ≤ n
count_below-le zero p = omega arith
count_below-le (suc n) p = omega (arith, count_below-le n p, bool_to_ℕ-le (p n))

-- The count is full exactly if every number passes.
pub count_below_full : (n : ℕ) (p : ℕ → Bool) → count_below n p ≡ n → (j : ℕ) → j < n → p j ≡ true
count_below_full zero p h j q = absurd (omega arith)
count_below_full (suc n) p h j q =
    let before : count_below n p ≡ n = omega (arith, count_below-le n p, bool_to_ℕ-le (p n)) in
    ground (arith, bool_to_ℕ-le (p n), count_below_full n p before j)

pub count_below_all : (n : ℕ) (p : ℕ → Bool) → ((j : ℕ) → j < n → p j ≡ true) → count_below n p ≡ n
count_below_all zero p h = refl
count_below_all (suc n) p h = ground (arith, h n, count_below_all n p (λ j q. h j (omega arith)))

pub count_below_ext :
    (n : ℕ) (p q : ℕ → Bool) → ((j : ℕ) → j < n → p j ≡ q j) → count_below n p ≡ count_below n q
count_below_ext zero p q h = refl
count_below_ext (suc n) p q h =
    ground (arith, h n, count_below_ext n p q (λ j r. h j (omega arith)))

-- A change at one place changes the count by what changes there.
pub count_below_update :
    (n : ℕ) (p q : ℕ → Bool) (i : ℕ) (c : Bool)
    → i < n
    → ((j : ℕ) → q j ≡ (if i == j then c else p j))
    → count_below n q + bool_to_ℕ (p i) ≡ count_below n p + bool_to_ℕ c
count_below_update zero p q i c r h = absurd (omega arith)
count_below_update (suc n) p q i c r h = elim (Bool-cases (i == n)) [
  | inl here ↦ ground (arith, h n, count_below_ext n q p (λ j s. ground (arith, h j)))
  | inr below ↦ ground (arith, h n, count_below_update n p q i c (ground arith) h)
]

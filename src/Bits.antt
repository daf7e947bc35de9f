-- ===== src/Bits.antt =====
-- Laws of `^` on unsigned words, from its recursion on binary digits.
use Prim.Native.Nat.{bit_xor, digits, bit_xor-bitwise, differ}
use native.Mathlib.Nat.{pow-suc}
use corefs.Common.{ℕ, zero, suc, ◌+◌, ◌*◌, ◌/◌, ◌%◌, ◌^◌, ◌≤◌, ◌<◌, ◌≡◌, refl, sym, ap, ◌∙◌, arith}

-- The recursion needs no more rounds than its first number.
digits_enough :
    (rounds more a b : ℕ)
    → a ≤ rounds
    → a ≤ more
    → digits (λ y. y) differ rounds a b ≡ digits (λ y. y) differ more a b
digits_enough zero zero a b p q = refl
digits_enough zero (suc more) zero b p q = refl
digits_enough zero (suc more) (suc a) b p q = absurd (omega arith)
digits_enough (suc rounds) zero zero b p q = refl
digits_enough (suc rounds) zero (suc a) b p q = absurd (omega arith)
digits_enough (suc rounds) (suc more) zero b p q = refl
digits_enough (suc rounds) (suc more) (suc a) b p q =
    rw (digits_enough rounds more (suc a / 2) (b / 2) (omega arith) (omega arith))

digit_sum : (x y : ℕ) → x < 2 → y < 2 → differ x y ≡ (x + y) % 2
digit_sum zero zero p q = refl
digit_sum zero (suc zero) p q = refl
digit_sum (suc zero) zero p q = refl
digit_sum (suc zero) (suc zero) p q = refl
digit_sum _ (suc (suc y)) p q = absurd (omega arith)
digit_sum (suc (suc x)) _ p q = absurd (omega arith)

-- The lowest digit is that of the sum, and the others are those of the halves.
xor_step : (a b : ℕ) → bit_xor a b ≡ 2 * bit_xor (a / 2) (b / 2) + (a + b) % 2
xor_step zero b = rw bit_xor-bitwise rw bit_xor-bitwise (omega arith)
xor_step (suc a) b = rw bit_xor-bitwise (
    rw bit_xor-bitwise (
      omega (
        arith,
        digits_enough a (suc a / 2) (suc a / 2) (b / 2) (omega arith) (omega arith),
        digit_sum (suc a % 2) (b % 2) (omega arith) (omega arith),
      )))

pub xor_half : (a b : ℕ) → bit_xor a b / 2 ≡ bit_xor (a / 2) (b / 2)
xor_half a b = omega (arith, xor_step a b)

pub xor_parity : (a b : ℕ) → bit_xor a b % 2 ≡ (a + b) % 2
xor_parity a b = omega (arith, xor_step a b)

xor_comm_below : (n a b : ℕ) → a + b ≤ n → bit_xor a b ≡ bit_xor b a
xor_comm_below zero a b h =
    let p : a ≡ 0 = omega arith in let q : b ≡ 0 = omega arith in rw p rw q refl
xor_comm_below (suc n) a b h =
    omega (arith, xor_step a b, xor_step b a, xor_comm_below n (a / 2) (b / 2) (omega arith))

pub xor_comm : (a b : ℕ) → bit_xor a b ≡ bit_xor b a
xor_comm a b = xor_comm_below (a + b) a b (omega arith)

xor_assoc_below : (n a b c : ℕ) → a + b + c ≤ n → bit_xor (bit_xor a b) c ≡ bit_xor a (bit_xor b c)
xor_assoc_below zero a b c h =
    let p : a ≡ 0 = omega arith in
    let q : b ≡ 0 = omega arith in let r : c ≡ 0 = omega arith in rw p rw q rw r refl
xor_assoc_below (suc n) a b c h =
    let left : bit_xor (bit_xor a b) c
        ≡ 2 * bit_xor (bit_xor (a / 2) (b / 2)) (c / 2) + (bit_xor a b + c) % 2 =
      rw (← xor_half a b) (xor_step (bit_xor a b) c) in
    let right : bit_xor a (bit_xor b c)
        ≡ 2 * bit_xor (a / 2) (bit_xor (b / 2) (c / 2)) + (a + bit_xor b c) % 2 =
      rw (← xor_half b c) (xor_step a (bit_xor b c)) in
    omega (
      arith,
      left,
      right,
      xor_parity a b,
      xor_parity b c,
      xor_assoc_below n (a / 2) (b / 2) (c / 2) (omega arith),
    )

pub xor_assoc : (a b c : ℕ) → bit_xor (bit_xor a b) c ≡ bit_xor a (bit_xor b c)
xor_assoc a b c = xor_assoc_below (a + b + c) a b c (omega arith)

xor_zero_below : (n a : ℕ) → a ≤ n → bit_xor a 0 ≡ a
xor_zero_below zero a h = let p : a ≡ 0 = omega arith in rw p refl
xor_zero_below (suc n) a h = omega (arith, xor_step a 0, xor_zero_below n (a / 2) (omega arith))

pub xor_zero : (a : ℕ) → bit_xor a 0 ≡ a
xor_zero a = xor_zero_below a a (omega arith)

-- Words of `k` digits stay words of `k` digits.
pub xor-lt : (k a b : ℕ) → a < 2 ^ k → b < 2 ^ k → bit_xor a b < 2 ^ k
xor-lt zero a b p q =
    let e : a ≡ 0 = omega arith in let f : b ≡ 0 = omega arith in rw e rw f (omega arith)
xor-lt (suc k) a b p q = omega (
  arith,
  pow-suc 2 k,
  xor_step a b,
  xor-lt k (a / 2) (b / 2) (omega (arith, pow-suc 2 k)) (omega (arith, pow-suc 2 k)),
)

pub xor_swap :
    (a b c d : ℕ) → bit_xor (bit_xor a b) (bit_xor c d) ≡ bit_xor (bit_xor a c) (bit_xor b d)
xor_swap a b c d =
    xor_assoc a b (bit_xor c d)
    ∙ ap (bit_xor a)
        (sym (xor_assoc b c d) ∙ ap (λ x. bit_xor x d) (xor_comm b c) ∙ xor_assoc c b d)
    ∙ sym (xor_assoc a c (bit_xor b d))

-- Fields that do not overlap: the upper one, shifted by a byte, and the lower one.
double_xor : (h l : ℕ) → bit_xor (2 * h) l ≡ 2 * bit_xor h (l / 2) + l % 2
double_xor h l = let e : 2 * h / 2 ≡ h = omega arith in rw xor_step rw e (omega arith)

pub xor_byte : (h l : ℕ) → l < 256 → bit_xor (256 * h) l ≡ 256 * h + l
xor_byte h l q =
    let e : (n : ℕ) → 256 * n ≡ 2 * (2 * (2 * (2 * (2 * (2 * (2 * (2 * n))))))) =
      λ n. omega arith in
    let z : l / 2 / 2 / 2 / 2 / 2 / 2 / 2 / 2 ≡ 0 = omega arith in
    rw e rw double_xor rw double_xor rw double_xor rw double_xor rw double_xor rw double_xor rw
      double_xor rw double_xor (rw z rw xor_zero (omega arith))

pub xor_shift : (a b : ℕ) → bit_xor a b / 256 ≡ bit_xor (a / 256) (b / 256)
xor_shift a b =
    let e : (n : ℕ) → n / 256 ≡ n / 2 / 2 / 2 / 2 / 2 / 2 / 2 / 2 = λ n. omega arith in
    rw (e (bit_xor a b)) rw (e a) rw (e b) rw xor_half rw xor_half rw xor_half rw xor_half rw
      xor_half rw xor_half rw xor_half rw xor_half refl

-- ===== src/Checksum/Linear.antt =====
-- Feeding a byte of zeros to the checksum is linear over `^`, and each table is it, repeated.
use Prim.Native.Nat.{bit_xor}
use corefs.Common.{
  ℕ, zero, suc, ◌+◌, ◌*◌, ◌/◌, ◌%◌, ◌^◌, ◌<◌, ◌≡◌, refl, sym, ap, ◌∙◌, inl, inr, Bool-cases, not,
  ◌==◌, if◌then◌else◌, arith,
}
use corefs.Bits.{xor_half, xor_parity, xor_zero, xor_swap, xor_byte, xor-lt}
use corefs.Checksum.{crc32c_poly, bit_rounds, tables}

-- One bit fed to the checksum.
bit_round : ℕ → ℕ
bit_round c = if not (c % 2 == 0) then bit_xor (c / 2) crc32c_poly else c / 2

masked_poly : ℕ → ℕ
masked_poly zero = 0
masked_poly (suc _) = crc32c_poly

bit_round_lem : (c : ℕ) → bit_round c ≡ bit_xor (c / 2) (masked_poly (c % 2))
unfolding bit_round masked_poly
bit_round_lem c = elim (Bool-cases (c % 2 == 0)) [
  | inl e ↦ let z : c % 2 ≡ 0 = ground arith in rw z (sym (xor_zero (c / 2)))
  | inr e ↦ let z : c % 2 ≡ 1 = ground arith in rw z refl
]

masked_poly-xor :
    (x y : ℕ) → x < 2 → y < 2 → masked_poly ((x + y) % 2) ≡ bit_xor (masked_poly x) (masked_poly y)
unfolding masked_poly
masked_poly-xor zero zero p q = refl
masked_poly-xor zero (suc zero) p q = refl
masked_poly-xor (suc zero) zero p q = refl
masked_poly-xor (suc zero) (suc zero) p q = refl
masked_poly-xor _ (suc (suc y)) p q = absurd (omega arith)
masked_poly-xor (suc (suc x)) _ p q = absurd (omega arith)

bit_round-xor : (a b : ℕ) → bit_round (bit_xor a b) ≡ bit_xor (bit_round a) (bit_round b)
bit_round-xor a b =
    let digit : bit_xor a b % 2 ≡ (a % 2 + b % 2) % 2 = omega (arith, xor_parity a b) in
    rw bit_round_lem rw (bit_round_lem a) rw (bit_round_lem b) rw xor_half rw digit (
      rw (masked_poly-xor (a % 2) (b % 2) (omega arith) (omega arith))
        (xor_swap (a / 2) (b / 2) (masked_poly (a % 2)) (masked_poly (b % 2))))

bit_rounds-xor :
    (n a b : ℕ) → bit_rounds n (bit_xor a b) ≡ bit_xor (bit_rounds n a) (bit_rounds n b)
unfolding bit_rounds bit_round
bit_rounds-xor zero a b = refl
bit_rounds-xor (suc n) a b =
    ap (bit_rounds n) (bit_round-xor a b) ∙ bit_rounds-xor n (bit_round a) (bit_round b)

-- Eight bits of zeros.
unfoldable pub advance : ℕ → ℕ
advance = bit_rounds 8

pub advance-xor : (a b : ℕ) → advance (bit_xor a b) ≡ bit_xor (advance a) (advance b)
unfolding advance
advance-xor a b = bit_rounds-xor 8 a b

bit_round_even : (c : ℕ) → bit_round (2 * c) ≡ c
unfolding bit_round
bit_round_even c = ground arith

-- Zeros in the low byte move the upper bytes down.
pub advance_shifted : (h : ℕ) → advance (256 * h) ≡ h
unfolding advance bit_rounds bit_round
advance_shifted h =
    let e : 256 * h ≡ 2 * (2 * (2 * (2 * (2 * (2 * (2 * (2 * h))))))) = omega arith in
    rw e rw bit_round_even rw bit_round_even rw bit_round_even rw bit_round_even
      (rw bit_round_even rw bit_round_even rw bit_round_even rw bit_round_even refl)

pub split_low : (x : ℕ) → bit_xor (256 * (x / 256)) (x % 256) ≡ x
split_low x = xor_byte (x / 256) (x % 256) (omega arith) ∙ omega arith

-- What the byte-wise code computes: the upper bytes, and the entry of the low one.
pub advance_lem : (x : ℕ) → advance x ≡ bit_xor (x / 256) (advance (x % 256))
advance_lem x =
    ap advance (sym (split_low x))
    ∙ advance-xor (256 * (x / 256)) (x % 256)
    ∙ ap (λ y. bit_xor y (advance (x % 256))) (advance_shifted (x / 256))

unfoldable pub advances : ℕ → ℕ → ℕ
advances zero x = x
advances (suc n) x = advance (advances n x)

pub tables-eq-advances : (slice b : ℕ) → tables slice b ≡ advances (suc slice) b
unfolding tables advances advance
tables-eq-advances zero b = refl
tables-eq-advances (suc slice) b =
    rw (tables-eq-advances slice b) (sym (advance_lem (advances (suc slice) b)))

-- Words of 32 digits stay so.
bit_round-lt : (c : ℕ) → c < 2 ^ 32 → bit_round c < 2 ^ 32
bit_round-lt c h =
    rw bit_round_lem
      (xor-lt 32 (c / 2) (masked_poly (c % 2)) (omega arith) (masked_poly-lt (c % 2)))
  where
    masked_poly-lt : (x : ℕ) → masked_poly x < 2 ^ 32
    masked_poly-lt zero = unfold masked_poly in omega arith
    masked_poly-lt (suc x) = unfold masked_poly in omega arith

bit_rounds-lt : (n c : ℕ) → c < 2 ^ 32 → bit_rounds n c < 2 ^ 32
unfolding bit_rounds bit_round
bit_rounds-lt zero c h = h
bit_rounds-lt (suc n) c h = bit_rounds-lt n (bit_round c) (bit_round-lt c h)

pub advance-lt : (c : ℕ) → c < 2 ^ 32 → advance c < 2 ^ 32
unfolding advance
advance-lt c h = bit_rounds-lt 8 c h

-- ===== src/Checksum.antt =====
-- corefs-core/src/storage/ondisk/checksum.rs: CRC32C over eight tables. `x & 0xFF` is `x % 256`, and
-- a table is the function from its index to its entry.
pub mod Linear
pub mod Bytewise
use Prim.Native.Nat.{bit_xor}
use corefs.Common.{
  ℕ, zero, suc, ◌+◌, ◌-◌, ◌*◌, ◌/◌, ◌%◌, ◌^◌, List, [], ◌∷◌, not, ◌==◌, if◌then◌else◌,
}

-- `CRC32C_POLY`
abbrev pub crc32c_poly : ℕ
crc32c_poly = 0x82f63b78

-- The loop over `k` of the classic table, for `n` rounds
unfoldable pub bit_rounds : ℕ → ℕ → ℕ
bit_rounds zero c = c
bit_rounds (suc n) c =
    bit_rounds n (if not (c % 2 == 0) then bit_xor (c / 2) crc32c_poly else c / 2)

-- `TABLES`, as `build_slicing_by_8_tables` fills it
unfoldable pub tables : ℕ → ℕ → ℕ
tables zero b = bit_rounds 8 b
tables (suc slice) b = let prev = tables slice b in bit_xor (prev / 256) (bit_rounds 8 (prev % 256))

-- `u32::from_le_bytes` of the first four bytes of a chunk
unfoldable pub low_word : ℕ → ℕ → ℕ → ℕ → ℕ
low_word a b c d = a + 256 * (b + 256 * (c + 256 * d))

-- One round over a chunk of eight bytes
unfoldable pub chunk_round : ℕ → ℕ → ℕ → ℕ → ℕ → ℕ → ℕ → ℕ → ℕ → ℕ
chunk_round crc a b c d e f g h =
    let lo = bit_xor crc (low_word a b c d) in
    bit_xor
      (bit_xor
        (bit_xor
          (bit_xor
            (bit_xor
              (bit_xor (bit_xor (tables 7 (lo % 256)) (tables 6 (lo / 256 % 256)))
                (tables 5 (lo / 65536 % 256)))
              (tables 4 (lo / 16777216 % 256)))
            (tables 3 e))
          (tables 2 f))
        (tables 1 g))
      (tables 0 h)

-- One round over a byte of the remainder
unfoldable pub byte_round : ℕ → ℕ → ℕ
byte_round crc byte = bit_xor (crc / 256) (tables 0 (bit_xor crc byte % 256))

-- The loop over the remainder
unfoldable pub remainder_loop : ℕ → List ℕ → ℕ
remainder_loop crc [] = crc
remainder_loop crc (byte ∷ rest) = remainder_loop (byte_round crc byte) rest

-- `Crc32c::update`
unfoldable pub update : ℕ → List ℕ → ℕ
update crc (a ∷ b ∷ c ∷ d ∷ e ∷ f ∷ g ∷ h ∷ rest) = update (chunk_round crc a b c d e f g h) rest
update crc rest = remainder_loop crc rest

-- `Crc32c::hash`, where `!x` is the largest word less `x`
unfoldable pub hash : List ℕ → ℕ
hash bytes = 2 ^ 32 - 1 - update (2 ^ 32 - 1) bytes

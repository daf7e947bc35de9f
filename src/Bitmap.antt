-- ===== src/Bitmap.antt =====
-- corefs-core/src/storage/ondisk/bitmap.rs: the allocation bitmaps. A bitmap is its bytes, each a
-- number below 256, and the count of units that it stands for.
pub mod Bytes
pub mod View
pub mod Run
pub mod Search
pub mod Count
pub mod Length
use corefs.Common.{
  ℕ, zero, suc, ◌+◌, ◌-◌, ◌*◌, ◌/◌, ◌%◌, ◌^◌, max, Bool, true, false, not, Option, none, some, List,
  ltb, leb, ◌==◌, ◌&&◌, if◌then◌else◌, CoreFsResult, ok, err, invalid_input, Method, ◌>>=◌, pure,
  length, get_or, set, replicate,
}
use corefs.Common.Word.{add64, saturating_add64, div_ceil}
use corefs.Layout.{block_size, bits_per_bitmap_block}
use Bytes.{test_bit, masked, with_bit, without_bit}

pub record Bitmap : Type 0 where
  pub bits : List ℕ
  pub capacity : ℕ

-- `Bitmap::new`
unfoldable pub new : ℕ → Bitmap
new capacity =
    let blocks = max (div_ceil capacity bits_per_bitmap_block) 1 in
    record { bits = replicate (blocks * block_size) 0; capacity = capacity }

-- `Bitmap::from_bytes`
unfoldable pub from_bytes : List ℕ → ℕ → CoreFsResult Bitmap
from_bytes bytes capacity =
    if not (length bytes % block_size == 0)
    then err invalid_input
    else if ltb (length bytes * 8) capacity
    then err invalid_input
    else ok (record { bits = bytes; capacity = capacity })

-- `Bitmap::block_count`
unfoldable pub block_count : Bitmap → ℕ
block_count bm = length bm.bits / block_size

-- The byte and the bit of `split`: `index / 8` and `index % 8`.
abbrev pub byte_of : Bitmap → ℕ → ℕ
byte_of bm index = get_or bm.bits (index / 8) 0

-- `Bitmap::is_set`; `check_index` is its first test.
pub is_set : Bitmap → ℕ → CoreFsResult Bool
is_set bm index =
    if leb bm.capacity index
    then err invalid_input
    else ok (test_bit (byte_of bm index) (index % 8))

-- `Bitmap::set`
pub set_bit : ℕ → Method Bitmap Bool
set_bit index bm = if leb bm.capacity index then (err invalid_input, bm) else (
  ok (not (masked (byte_of bm index) (index % 8))),
  record bm { bits = set bm.bits (index / 8) (with_bit (byte_of bm index) (index % 8)) },
)

-- `Bitmap::clear`
pub clear_bit : ℕ → Method Bitmap Bool
clear_bit index bm = if leb bm.capacity index then (err invalid_input, bm) else (
  ok (masked (byte_of bm index) (index % 8)),
  record bm { bits = set bm.bits (index / 8) (without_bit (byte_of bm index) (index % 8)) },
)

-- The callers' loop `for i in 0..n { bitmap.set(start + i)?; }`, from `i` on for `n` rounds.
pub set_run : ℕ → ℕ → ℕ → Method Bitmap (Unit {0})
set_run start zero i = pure tt
set_run start (suc n) i = do _ ← set_bit (add64 start i); set_run start n (i + 1)

-- The loop of `Bitmap::allocate_first`, on fuel: each round moves `i` on by one or by eight.
allocate_loop : ℕ → ℕ → Bitmap → Option ℕ × Bitmap
allocate_loop zero i bm = (none, bm)
allocate_loop (suc fuel) i bm =
    let b = byte_of bm i in
    let skip = allocate_loop fuel (saturating_add64 i 8) bm in
    let next = allocate_loop fuel (i + 1) bm in
    if ltb i bm.capacity
    then (if (b == 255) && (i % 8 == 0)
        then skip
        else if not (test_bit b (i % 8))
        then (some i, record bm { bits = set bm.bits (i / 8) (with_bit b (i % 8)) })
        else next)
    else (none, bm)

-- `Bitmap::allocate_first`. Fewer rounds than `capacity` are needed.
pub allocate_first : ℕ → Bitmap → Option ℕ × Bitmap
unfolding allocate_loop
allocate_first start bm = allocate_loop (suc bm.capacity) start bm

-- The loop of `Bitmap::popcount` over the first `n` bits.
abbrev popcount_to : ℕ → Bitmap → ℕ
popcount_to zero bm = 0
popcount_to (suc n) bm = popcount_to n bm + (if test_bit (byte_of bm n) (n % 8) then 1 else 0)

pub popcount : Bitmap → ℕ
popcount bm = popcount_to bm.capacity bm

-- ===== src/RefCount/Blocks.antt =====
-- The blocks that hold the counters.
use corefs.Common.{
  ℕ, zero, suc, ◌-◌, ◌*◌, min, List, [], ◌∷◌, ◌++◌, not, ◌==◌, if◌then◌else◌, CoreFsResult, ok, err,
  invalid_input, state, and_then, length,
}
use corefs.Bytes.{to_le, zeros, take, drop}
use corefs.Bytes.Reader.{number}
use corefs.Bytes.Records.{write_each, read_each}
use corefs.Sealed.{seal, padded, stored_crc, expected_crc}
use corefs.Layout.{block_size}
use corefs.RefCount.{RefCountTable, counts_per_block, blocks_needed}

-- A round of `encode`: the block of a chunk
unfoldable pub chunk_block : List ℕ → List ℕ
chunk_block chunk = seal 4092 (padded block_size (write_each (to_le 2) chunk))

-- The loop of `encode` over `counters.chunks(COUNTS_PER_BLOCK)`, for the blocks of its output. A block
-- without a chunk stays zero.
unfoldable pub encode_blocks : ℕ → List ℕ → List ℕ
encode_blocks zero counters = []
encode_blocks (suc n) [] = zeros block_size ++ encode_blocks n []
encode_blocks (suc n) (c ∷ cs) =
    chunk_block (take counts_per_block (c ∷ cs)) ++ encode_blocks n (drop counts_per_block (c ∷ cs))

-- `RefCountTable::encode`
unfoldable pub encode : RefCountTable → List ℕ
encode t = encode_blocks (blocks_needed t.capacity) t.counters

-- The loop of `decode`
unfoldable pub decode_blocks : ℕ → ℕ → List ℕ → CoreFsResult (List ℕ)
decode_blocks zero remaining bytes = ok []
decode_blocks (suc n) remaining bytes =
    let block = take block_size bytes in
    if not (expected_crc 4092 block == stored_crc 4092 block)
    then err state
    else and_then
        (decode_blocks n (remaining - min remaining counts_per_block) (drop block_size bytes))
        λ later. ok ((read_each (number 2) (min remaining counts_per_block) block).0 ++ later)

-- `RefCountTable::decode`
unfoldable pub decode : List ℕ → ℕ → CoreFsResult RefCountTable
decode bytes capacity =
    let blocks = blocks_needed capacity in
    if not (length bytes == blocks * block_size)
    then err invalid_input
    else and_then (decode_blocks blocks capacity bytes)
        λ counters. ok (record { counters = counters; capacity = capacity })

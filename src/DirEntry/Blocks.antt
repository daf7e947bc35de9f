-- ===== src/DirEntry/Blocks.antt =====
-- `DirBlock`: its two sides of the codec, and packing entries into blocks.
use corefs.Common.{
  ℕ, zero, suc, ◌+◌, ◌-◌, List, [], ◌∷◌, ◌++◌, ltb, leb, ◌==◌, not, if◌then◌else◌, CoreFsResult, ok,
  err, invalid_input, state, and_then, length,
}
use corefs.Bytes.{to_le, slice}
use corefs.Bytes.Reader.{number}
use corefs.Sealed.{seal, padded}
use corefs.Sealed.Decode.{decode_sealed}
use corefs.Layout.{block_size}
use corefs.DirEntry.{DirEntry, header_bytes, encoded_len, write_to, read_from}

abbrev pub dir_block_magic : ℕ
dir_block_magic = 0xd12ed12e

abbrev pub crc_offset : ℕ
crc_offset = 4092

-- `USABLE_BYTES`
abbrev pub usable_bytes : ℕ
usable_bytes = 4076

pub record DirBlock : Type 0 where
  pub next_dir_block : ℕ
  pub entries : List DirEntry

-- `DirBlock::empty`
unfoldable pub empty : DirBlock
empty = record { next_dir_block = 0; entries = [] }

-- The loop of `encoded_entries_bytes`
unfoldable pub entries_bytes_from : ℕ → List DirEntry → CoreFsResult ℕ
entries_bytes_from total [] = ok total
entries_bytes_from total (e ∷ es) =
    and_then (encoded_len e) λ rec_len. entries_bytes_from (total + rec_len) es

-- `DirBlock::encoded_entries_bytes`
unfoldable pub encoded_entries_bytes : DirBlock → CoreFsResult ℕ
encoded_entries_bytes blk = entries_bytes_from 0 blk.entries

-- The loop of `encode`: the bytes that it writes from `cursor` on
unfoldable pub write_entries : ℕ → List DirEntry → CoreFsResult (List ℕ)
write_entries cursor [] = ok []
write_entries cursor (e ∷ es) = and_then (encoded_len e) λ rec_len.
    if ltb crc_offset (cursor + rec_len)
    then err invalid_input
    else and_then (write_to e rec_len)
        λ bytes. and_then (write_entries (cursor + rec_len) es) λ later. ok (bytes ++ later)

-- The bytes of a block before its checksum, with those of the entries
unfoldable pub dir_bytes : DirBlock → List ℕ → List ℕ
dir_bytes blk bytes =
    to_le 4 dir_block_magic
    ++ (to_le 4 (length blk.entries) ++ (to_le 8 blk.next_dir_block ++ bytes))

-- `DirBlock::encode`
unfoldable pub encode : DirBlock → CoreFsResult (List ℕ)
encode blk =
    and_then (write_entries header_bytes blk.entries)
      λ bytes. ok (seal crc_offset (padded block_size (dir_bytes blk bytes)))

-- The loop of `decode`, with the number of entries to read
unfoldable pub read_entries : ℕ → ℕ → List ℕ → CoreFsResult (List DirEntry)
read_entries zero cursor block = ok []
read_entries (suc n) cursor block =
    if leb crc_offset cursor
    then err state
    else and_then (read_from (slice cursor (crc_offset - cursor) block)) λ read.
      let (e, rec_len) = read in
      and_then (read_entries n (cursor + rec_len) block) λ es. ok (e ∷ es)

-- The part of `decode` behind the checksum's test
unfoldable pub parse : List ℕ → CoreFsResult DirBlock
parse block =
    let (magic, block1) = number 4 block in
    let (count, block2) = number 4 block1 in
    let (next_dir_block, block3) = number 8 block2 in
    if not (magic == dir_block_magic)
    then err state
    else and_then (read_entries count header_bytes block)
        λ entries. ok (record { next_dir_block = next_dir_block; entries = entries })

-- `DirBlock::decode`
unfoldable pub decode : List ℕ → CoreFsResult DirBlock
decode = decode_sealed crc_offset block_size parse

-- The loop of `blocks_needed`
unfoldable pub blocks_needed_from : ℕ → ℕ → List DirEntry → CoreFsResult ℕ
blocks_needed_from blocks used [] = ok blocks
blocks_needed_from blocks used (e ∷ es) = and_then (encoded_len e) λ rec_len.
    let over = ltb usable_bytes (used + rec_len) in
    blocks_needed_from (if over then blocks + 1 else blocks) ((if over then 0 else used) + rec_len)
      es

-- `DirBlock::blocks_needed`
unfoldable pub blocks_needed : List DirEntry → CoreFsResult ℕ
blocks_needed entries = blocks_needed_from 1 0 entries

-- The loop of `pack`, with the push behind it: the finished blocks, the entries of the current one, and
-- their bytes
unfoldable pub pack_from :
    List DirBlock → List DirEntry → ℕ → List DirEntry → CoreFsResult (List DirBlock)
pack_from blocks current current_bytes [] =
    ok (blocks ++ record { next_dir_block = 0; entries = current } ∷ [])
pack_from blocks current current_bytes (e ∷ es) = and_then (encoded_len e) λ rec_len.
    let over = ltb usable_bytes (current_bytes + rec_len) in
    pack_from
      (if over then blocks ++ record { next_dir_block = 0; entries = current } ∷ [] else blocks)
      ((if over then [] else current) ++ e ∷ []) ((if over then 0 else current_bytes) + rec_len) es

-- `blocks[i].next_dir_block = reserve[i + 1]` for every block but the last one
unfoldable pub link_blocks : List DirBlock → List ℕ → List DirBlock
link_blocks [] later = []
link_blocks (b ∷ []) later = b ∷ []
link_blocks (b ∷ c ∷ bs) [] = b ∷ c ∷ bs
link_blocks (b ∷ c ∷ bs) (r ∷ later) = record b { next_dir_block = r } ∷ link_blocks (c ∷ bs) later

-- `DirBlock::pack`
unfoldable pub pack : List DirEntry → List ℕ → CoreFsResult (List DirBlock)
pack entries [] = err invalid_input
pack entries (r ∷ later) = and_then (pack_from [] [] 0 entries) λ blocks.
    if ltb (length (r ∷ later)) (length blocks)
    then err invalid_input
    else ok (link_blocks blocks later)

-- ===== src/Journal/Ops.antt =====
-- Operations and record kinds are read back as they were written.
use corefs.Common.{
  ℕ, ◌+◌, ◌^◌, ◌<◌, ◌≡◌, ◌↔◌, refl, ◌∙◌, true, false, List, ltb, ◌==◌, ok, length, arith,
}
use corefs.Common.Word.{as_u32}
use corefs.Bytes.{to_le, from_le, take, drop, from_le-to_le}
use corefs.Journal.{
  RecordKind, op, commit, abort, kind_to_u16, from_u16, Op, block_write, inode_update, encode_op,
  encode, decode_op, decode,
}

decode_op-encode_op :
    (make : ℕ → List ℕ → Op) (tag number : ℕ) (bytes : List ℕ)
    → number < 2 ^ 64
    → length bytes < 2 ^ 32
    → decode_op make (encode_op tag number bytes) ≡ ok (make number bytes)
unfolding decode_op encode_op to_le take drop
decode_op-encode_op make tag number bytes h w =
    let payload = encode_op tag number bytes in
    let number_back : from_le (to_le 8 number) ≡ number = from_le-to_le 8 number h in
    let len_back : from_le (to_le 4 (as_u32 (length bytes))) ≡ length bytes =
      from_le-to_le 4 (as_u32 (length bytes)) (omega arith) ∙ omega arith in
    let long : ltb (length payload) 13 ≡ false = ground arith in
    let whole : (length payload == 13 + length bytes) ≡ true = ground arith in
    rw long rw number_back rw len_back rw whole refl

-- What the operation carries fits in its fields.
unfoldable pub FitsOp : Op → Type 0
FitsOp (block_write block bytes) = (block < 2 ^ 64) × (length bytes < 2 ^ 32)
FitsOp (inode_update index bytes) = (index < 2 ^ 64) × (length bytes < 2 ^ 32)

-- An operation whose number is a 64-bit word and whose bytes are fewer than 2^32 is read back from
-- what `encode` wrote.
pub decode-encode : (o : Op) → FitsOp o → decode (encode o) ≡ ok o
unfolding decode encode FitsOp encode_op
decode-encode (block_write block bytes) (h, w) = decode_op-encode_op block_write 1 block bytes h w
decode-encode (inode_update index bytes) (h, w) = decode_op-encode_op inode_update 2 index bytes h w

-- `from_u16` reads exactly the numbers that record kinds are written as, each as its kind.
pub from_u16_iff : (v : ℕ) (kind : RecordKind) → (from_u16 v ≡ ok kind) ↔ (kind_to_u16 kind ≡ v)
unfolding from_u16 kind_to_u16
from_u16_iff v op = ground arith
from_u16_iff v commit = ground arith
from_u16_iff v abort = ground arith

-- ===== src/Tests/Records.antt =====
-- Operations of the journal, written and read.
use corefs.Common.{◌≡◌, refl, [], ◌∷◌, err, state, arith}
use corefs.Bytes.{to_le, from_le, take, drop}
use corefs.Journal.{Op, block_write, encode, encode_op, decode, decode_op}
use corefs.Journal.Ops.{FitsOp}

abbrev small_write : Op
small_write = block_write 258 (7 ∷ 9 ∷ [])

encode_runs : encode small_write ≡ 1 ∷ 2 ∷ 1 ∷ 0 ∷ 0 ∷ 0 ∷ 0 ∷ 0 ∷ 0 ∷ 2 ∷ 0 ∷ 0 ∷ 0 ∷ 7 ∷ 9 ∷ []
unfolding encode encode_op to_le
encode_runs = refl

-- A length field that is not the length is refused.
decode_refuses : decode (1 ∷ 2 ∷ 1 ∷ 0 ∷ 0 ∷ 0 ∷ 0 ∷ 0 ∷ 0 ∷ 3 ∷ 0 ∷ 0 ∷ 0 ∷ 7 ∷ 9 ∷ []) ≡ err state
unfolding decode decode_op from_le take drop
decode_refuses = refl

small_write-FitsOp : FitsOp small_write
unfolding FitsOp
small_write-FitsOp = (omega arith, omega arith)

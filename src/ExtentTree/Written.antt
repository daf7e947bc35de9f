-- ===== src/ExtentTree/Written.antt =====
-- What `write_chain` leaves on the device is a chain of the reserved blocks with the extents in it.
use mathlib.Core.Path.{subst}
use corefs.Common.{
  ℕ, zero, suc, ◌+◌, ◌*◌, ◌≤◌, ◌<◌, ◌≡◌, ◌≢◌, refl, sym, ap, ◌∙◌, true, false, List, [], ◌∷◌, ◌++◌,
  ltb, if◌then◌else◌, ok, Method, ◌>>=◌, ◌>>◌, pure, Returns, >>=-ok, and_then-ok, length, get_or,
  arith,
}
use corefs.Common.Word.{mul64}
use corefs.Bytes.{drop}
use corefs.Bytes.Records.{All, drop-past}
use corefs.Sealed.Decode.{decode_sealed-intact, Encoding-encodes}
use corefs.Extent.{Extent}
use corefs.Extent.Bytes.{FitsExtent}
use corefs.Device.{BlockDevice, DeviceGeometry}
use corefs.Device.Lawful.{Laws}
use corefs.Device.Blocks.{Inside, Usable, Written, block_at, read_block, write_block}
use corefs.ExtentTree.{encode, decode, parse}
use corefs.ExtentTree.Codec.{FitsIndex, encode-Encoding_index}
use corefs.ExtentTree.Chain.{index_block, read_index_block, write_chain_loop}
use corefs.ExtentTree.Chunks.{length-chunk, All-chunk, chunk-drop}
use corefs.ExtentTree.Walk.{IsChain}

-- The first `n` reserved blocks are blocks of the device, none of them block 0, and no two the same.
pub record Reserved (g : DeviceGeometry) (reserve : List ℕ) (n : ℕ) : Type 0 where
  pub nonzero : (i : ℕ) → i < n → get_or reserve i 0 ≢ 0
  pub inside : (i : ℕ) → i < n → Inside g (get_or reserve i 0)
  pub apart : (i j : ℕ) → i < j → j < n → get_or reserve i 0 ≢ get_or reserve j 0

-- The blocks from the `i`-th on
unfoldable pub blocks_from : List ℕ → ℕ → ℕ → List ℕ
blocks_from reserve zero i = []
blocks_from reserve (suc left) i = get_or reserve i 0 ∷ blocks_from reserve left (i + 1)

module _ (dev : BlockDevice) (IsValid : dev.Device → Type 0) (contents : dev.Device → List ℕ)
    (laws : Laws dev IsValid contents) (extents : List Extent) (reserve : List ℕ) (needed : ℕ)
    (v : All FitsExtent extents) (enough : length extents ≤ needed * 254) where
  -- The block of the round, or 0 behind the last one
  abbrev root : ℕ → ℕ
  root i = if ltb i needed then get_or reserve i 0 else 0

  -- `after` holds the chain from its `i`-th block on, and is otherwise `before`.
  pub record Chained (left i : ℕ) (before after : dev.Device) : Type 0 where
    pub usable : Usable dev IsValid contents laws after
    pub same_geometry : dev.geometry after ≡ dev.geometry before
    pub chain : IsChain dev after (root i) (blocks_from reserve left i) (drop (i * 254) extents)
    pub elsewhere :
        (c : ℕ)
        → ((j : ℕ) → i ≤ j → j < needed → c ≢ get_or reserve j 0)
        → Inside (dev.geometry before) c
        → block_at dev IsValid contents laws c after ≡ block_at dev IsValid contents laws c before

  module _ (d : dev.Device) (u : Usable dev IsValid contents laws d)
      (r : Reserved (dev.geometry d) reserve needed) where
    index_block-FitsIndex : (i : ℕ) → FitsIndex (index_block extents reserve needed i)
    unfolding index_block
    index_block-FitsIndex i = record {
      next_index_block = ground (arith, r.inside (i + 1), (laws.sized d u.valid).1);
      extents = All-chunk (i * 254) extents v;
    }

    -- The bytes of the block of a round.
    encoded_block :
        (i : ℕ)
        → (bytes : List ℕ) × (encode (index_block extents reserve needed i) ≡ ok bytes)
          × (decode bytes ≡ ok (index_block extents reserve needed i))
          × (length bytes ≡ 4096)
    unfolding decode
    encoded_block i =
        let blk = index_block extents reserve needed i in
        let (bytes, runs, reads) =
          Encoding-encodes (encode-Encoding_index blk (index_block-FitsIndex i))
            (unfold index_block in length-chunk (i * 254) extents) in
        (bytes, runs, reads, (decode_sealed-intact 4092 4096 parse bytes reads).0)

  module _ (left i : ℕ) (sum : i + suc left ≡ needed) (d d1 d2 : dev.Device) (bytes : List ℕ)
      (r : Reserved (dev.geometry d) reserve needed)
      (reads : decode bytes ≡ ok (index_block extents reserve needed i))
      (w : Written dev IsValid contents laws (get_or reserve i 0) bytes d d1)
      (rest : Chained left (i + 1) d1 d2) where
    there : Inside (dev.geometry d2) (get_or reserve i 0)
    there =
        subst (λ g. Inside g (get_or reserve i 0)) (sym (rest.same_geometry ∙ w.same_geometry))
          (r.inside i (omega (arith, sum)))

    still : block_at dev IsValid contents laws (get_or reserve i 0) d2 ≡ bytes
    still =
        rest.elsewhere (get_or reserve i 0) (λ j after below. r.apart i j (omega arith) below)
          (subst (λ g. Inside g (get_or reserve i 0)) (sym w.same_geometry)
            (r.inside i (omega (arith, sum))))
        ∙ w.here

    first_block :
        read_index_block dev (get_or reserve i 0) d2 ≡ ok (index_block extents reserve needed i)
    unfolding read_index_block
    first_block =
        and_then-ok (dev.read_at (mul64 (get_or reserve i 0) 4096) 4096 d2) decode
          (read_block dev IsValid contents laws d2 rest.usable (get_or reserve i 0) there)
          (ap decode still ∙ reads)

    pub Chained-next : Chained (suc left) i d d2
    unfolding blocks_from index_block
    Chained-next =
        let this : ltb i needed ≡ true = ground (arith, sum) in
        let on : i * 254 + 254 ≡ (i + 1) * 254 = omega arith in
        record {
          usable = rest.usable;
          same_geometry = rest.same_geometry ∙ w.same_geometry;
          chain = (
            rw this refl,
            index_block extents reserve needed i,
            drop ((i + 1) * 254) extents,
            first_block,
            sym (chunk-drop (i * 254) extents)
                ∙ ap (λ n. (index_block extents reserve needed i).extents ++ drop n extents) on,
            rest.chain,
          );
          elsewhere = λ c apart inside.
              rest.elsewhere c (λ j after below. apart j (omega arith) below)
                (subst (λ g. Inside g c) (sym w.same_geometry) inside)
              ∙ w.elsewhere c (apart i (omega arith) (omega (arith, sum))) inside;
        }

  pub write_chain_loop_lem :
      (left i : ℕ) (d : dev.Device)
      → i + left ≡ needed
      → Usable dev IsValid contents laws d
      → Reserved (dev.geometry d) reserve needed
      → Returns
          (write_chain_loop dev left i needed extents reserve)
          d
          λ used d'. (used ≡ blocks_from reserve left i) × Chained left i d d'
  unfolding write_chain_loop blocks_from
  write_chain_loop_lem zero i d sum u r =
      let last : ltb i needed ≡ false = ground (arith, sum) in
      (
        [],
        d,
        refl,
        (
          refl,
          record {
            usable = u;
            same_geometry = refl;
            chain = (rw last refl, drop-past (i * 254) extents (omega (arith, sum, enough)));
            elsewhere = λ c apart inside. refl;
          },
        ),
      )
  write_chain_loop_lem (suc left) i d sum u r =
      let (bytes, runs, reads, long) = encoded_block d u r i in
      let b = get_or reserve i 0 in
      let later : Method dev.Device (List ℕ) =
        write_chain_loop dev left (i + 1) needed extents reserve >>= λ used. pure (b ∷ used) in
      let store : List ℕ → Method dev.Device (List ℕ) =
        λ bytes. dev.write_at (mul64 b 4096) bytes >> later in
      let (d1, writes, w) =
        write_block dev IsValid contents laws d u b (r.inside i (omega (arith, sum))) bytes long in
      let (used, d2, goes_on, (same, rest)) =
        write_chain_loop_lem left (i + 1) d1 (omega (arith, sum)) w.usable
          (subst (λ g. Reserved g reserve needed) (sym w.same_geometry) r) in
      (
        b ∷ used,
        d2,
        >>=-ok (λ d. (encode (index_block extents reserve needed i), d)) store d (λ k. (runs k, d))
            ∙ >>=-ok (dev.write_at (mul64 b 4096) bytes) (λ _. later) d writes
            ∙ >>=-ok (write_chain_loop dev left (i + 1) needed extents reserve)
                (λ used. pure (b ∷ used)) d1 goes_on,
        (ap (λ bs. b ∷ bs) same, Chained-next left i sum d d1 d2 bytes r reads w rest),
      )

-- ===== src/Volume/Roundtrip.antt =====
-- A volume whose state was saved gives it back, and is a volume that can be saved to again.
use mathlib.Core.Path.{subst}
use corefs.Common.{
  ℕ, ◌+◌, ◌*◌, ◌≤◌, ◌<◌, ◌^◌, ◌≡◌, sym, ap, ◌∙◌, Option, some, List, ok, Method, ◌>>=◌, Returns,
  Returns->>=, Returns-after, arith, length,
}
use corefs.Common.Word.{add64}
use corefs.Layout.{LayoutGeometry}
use corefs.Layout.Plan.{IsOrdered, IsFitted}
use corefs.Superblock.{Superblock, geometry, check_fields}
use corefs.Superblock.Codec.{FitsFields}
use corefs.Device.{BlockDevice}
use corefs.Device.Lawful.{Laws}
use corefs.Device.Blocks.{Usable}
use corefs.Volume.Copies.{read_superblock_at, read_sb_with_fallbacks}
use corefs.Volume.InodeRecords.{read_inode_record}
use corefs.Volume.State.{
  SaveReport, with_trailer, save_payload, trim_old, or_state, save_state, load_state,
}
use corefs.Volume.Loaded.{length-with_trailer, load_state-Holds}
use corefs.Volume.Written.{Ready}
use corefs.Volume.Saved.{
  FitsSave, Stored, ReadyFor, blocks_of, reported, trim_old-Ready, save_payload-Stored,
}

module _ (dev : BlockDevice) (IsValid : dev.Device → Type 0) (contents : dev.Device → List ℕ)
    (laws : Laws dev IsValid contents) where
  module _ (sb : Superblock) (o : IsOrdered (geometry sb)) (fitted : IsFitted (geometry sb))
      (now : ℕ) (bytes : List ℕ) (f : FitsSave sb now bytes) {State : Type 0}
      (serialize : State → Option (List ℕ)) (deserialize : List ℕ → Option State) where
    save_state-Stored :
        (d : dev.Device) (s : State)
        → ReadyFor dev IsValid contents laws sb o fitted d
        → read_sb_with_fallbacks dev d ≡ ok sb
        → serialize s ≡ some bytes
        → Returns (save_state dev serialize deserialize s now) d λ report d'.
          (report ≡ reported dev IsValid contents laws sb o fitted now bytes f)
          × Stored dev IsValid contents laws sb o fitted now bytes f d'
    unfolding save_state or_state
    save_state-Stored d s r found is =
        let write : List ℕ → Method dev.Device SaveReport =
          λ b. save_payload dev (geometry sb) sb now (with_trailer b) in
        let fetch : Method dev.Device SaveReport = (λ d. (or_state (serialize s), d)) >>= write in
        let trim : Superblock → Method dev.Device (Unit {0}) =
          λ b d. trim_old dev (read_inode_record dev (geometry b) b.payload_inode d) d in
        Returns-after (λ d. (read_sb_with_fallbacks dev d, d))
          (λ b. trim b >>= λ _. (λ d. (or_state (serialize s), d)) >>= λ bytes.
            save_payload dev (geometry b) b now (with_trailer bytes))
          d (ap (λ x. (x, d)) found)
          (Returns->>= (trim sb) (λ _. fetch) d
            (trim_old-Ready dev IsValid contents laws sb o fitted
              (read_inode_record dev (geometry sb) sb.payload_inode d) d r)
            λ _ d' r'.
              Returns-after (λ d. (or_state (serialize s), d)) write d'
                (ap (λ x. (or_state x, d')) is)
                (save_payload-Stored dev IsValid contents laws sb o fitted now bytes f d' r'))

  -- The device holds a volume of geometry `g`, in its generation `n`, with all copies of the superblock.
  pub record IsFormatted (g : LayoutGeometry) (n : ℕ) (d : dev.Device) : Type 0 where
    pub usable : Usable dev IsValid contents laws d
    pub room : g.total_blocks * 4096 ≤ (dev.geometry d).capacity_bytes
    pub superblock : Superblock
    pub found : read_sb_with_fallbacks dev d ≡ ok superblock
    pub middle : read_superblock_at dev g.tertiary_superblock_block d ≡ ok superblock
    pub last : read_superblock_at dev g.secondary_superblock_block d ≡ ok superblock
    pub same_geometry : geometry superblock ≡ g
    pub fields : FitsFields superblock
    pub accepted : check_fields superblock ≡ ok superblock
    pub generation : superblock.generation ≡ n

  module _ {State : Type 0} (serialize : State → Option (List ℕ))
      (deserialize : List ℕ → Option State)
      (crate : (s : State) (bytes : List ℕ) → serialize s ≡ some bytes → deserialize bytes ≡ some s)
      (g : LayoutGeometry) (o : IsOrdered g) (fitted : IsFitted g) where
    -- What saving `s` leaves
    pub record Saved (n : ℕ) (s : State) (bytes : List ℕ) (report : SaveReport) (after : dev.Device)
        : Type 0 where
      pub formatted : IsFormatted g (add64 n 1) after
      pub loads : load_state dev serialize deserialize after ≡ ok s
      pub reports_generation : report.generation ≡ add64 n 1
      pub reports_bytes : report.payload_bytes ≡ length bytes + 4
      pub reports_blocks : report.payload_blocks ≡ blocks_of bytes

    -- On a writable device that holds a volume of an ordered geometry, and whose sectors divide blocks,
    -- `save_state` returns, if the crate reads back what it wrote, the time is a 64-bit word, and the
    -- bytes that the crate makes of the state end with their checksum before the middle of the volume
    -- and take fewer than 2^32 blocks: `load_state` then gives the state, the device holds a volume of
    -- the same geometry in its next generation, each of its three superblocks readable and the same,
    -- and the report says the generation, the bytes and the blocks.
    pub save_state-Saved :
        (d : dev.Device) (n : ℕ) (s : State) (bytes : List ℕ) (now : ℕ)
        → IsFormatted g n d
        → serialize s ≡ some bytes
        → now < 2 ^ 64
        → blocks_of bytes < 2 ^ 32
        → g.data_start + blocks_of bytes ≤ g.tertiary_superblock_block
        → Returns
            (save_state dev serialize deserialize s now)
            d
            λ report d'. Saved n s bytes report d'
    unfolding geometry or_state
    save_state-Saved d n s bytes now v is time small below =
        let sb = v.superblock in
        let same = v.same_geometry in
        let f : FitsSave sb now bytes = record {
          fields = v.fields;
          accepted = v.accepted;
          time = time;
          small = small;
          below_copy = omega (
            arith,
            below,
            ap (λ h. h.data_start) same,
            ap (λ h. h.tertiary_superblock_block) same,
          );
        } in
        let r : Ready dev IsValid contents laws (geometry sb) (subst IsOrdered (sym same) o) d =
          record {
            usable = v.usable;
            room = omega (arith, v.room, ap (λ h. h.total_blocks) same);
          } in
        let (report, after, e, (says, stored)) =
          save_state-Stored sb (subst IsOrdered (sym same) o) (subst IsFitted (sym same) fitted) now
            bytes f serialize deserialize d s r v.found is in
        (
          report,
          after,
          e,
          record {
            formatted = record {
              usable = stored.ready.usable;
              room = omega (arith, stored.ready.room, ap (λ h. h.total_blocks) same);
              superblock = stored.next;
              found = stored.holds.superblock;
              middle =
                  ap (λ h. read_superblock_at dev h.tertiary_superblock_block after) (sym same)
                  ∙ stored.middle;
              last =
                  ap (λ h. read_superblock_at dev h.secondary_superblock_block after) (sym same)
                  ∙ stored.last;
              same_geometry = stored.same_geometry ∙ same;
              fields = stored.fields;
              accepted = stored.accepted;
              generation = stored.generation ∙ ap (λ k. add64 k 1) v.generation;
            };
            loads =
                load_state-Holds dev IsValid contents laws serialize deserialize after stored.holds
                ∙ ap or_state (crate s bytes is);
            reports_generation = ap (λ x. x.generation) says ∙ ap (λ k. add64 k 1) v.generation;
            reports_bytes = ap (λ x. x.payload_bytes) says ∙ length-with_trailer bytes;
            reports_blocks = ap (λ x. x.payload_blocks) says;
          },
        )

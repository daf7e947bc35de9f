-- ===== src/Resize/Placed.antt =====
-- Where growing writes: the three copies of the superblock, behind the bitmap.
use corefs.Common.{
  ℕ, ◌+◌, ◌-◌, ◌*◌, ◌/◌, ◌%◌, ◌≤◌, ◌≡◌, ◌≢◌, refl, ap, ◌∙◌, List, [], ◌∷◌, length, arith, Returns,
  Returns-after, >>=-err, CoreFsError, err,
}
use corefs.Common.Word.{mul64}
use corefs.Bytes.{slice}
use corefs.Device.{BlockDevice}
use corefs.Device.Lawful.{Laws}
use corefs.Device.Blocks
use corefs.Device.Blocks.{Usable, block_at, Inside, Written}
use corefs.Resize.{Write, perform}

-- A block's write
abbrev pub put : ℕ → List ℕ → Write
put b image = record { offset = mul64 b 4096; bytes = image }

-- The writes of the three copies
abbrev pub copies : ℕ → List ℕ → List Write
copies n image = put 1 image ∷ put (n / 2) image ∷ put (n - 1) image ∷ []

module _ (dev : BlockDevice) (IsValid : dev.Device → Type 0) (contents : dev.Device → List ℕ)
    (laws : Laws dev IsValid contents) where
  -- A block is written, and the other writes follow.
  step :
      {Q : Unit {0} → dev.Device → Type 0} (b : ℕ) (image : List ℕ) (ws : List Write)
      (d : dev.Device)
      → Usable dev IsValid contents laws d
      → Inside (dev.geometry d) b
      → length image ≡ 4096
      → ((d' : dev.Device)
          → Written dev IsValid contents laws b image d d'
          → Returns (perform dev ws) d' Q)
      → Returns (perform dev (put b image ∷ ws)) d Q
  unfolding perform
  step b image ws d u inside long next =
      let (d', e, w) = Blocks.write_block dev IsValid contents laws d u b inside image long in
      Returns-after (dev.write_at (mul64 b 4096) image) (λ _. perform dev ws) d e (next d' w)

  -- The first write that fails ends it.
  pub perform-err :
      (w : Write) (ws : List Write) (d : dev.Device) {e : CoreFsError} {d' : dev.Device}
      → dev.write_at w.offset w.bytes d ≡ (err e, d')
      → perform dev (w ∷ ws) d ≡ (err e, d')
  unfolding perform
  perform-err w ws d = >>=-err (dev.write_at w.offset w.bytes) (λ _. perform dev ws) d

  no_writes :
      {P : dev.Device → Type 0} (d : dev.Device) → P d → Returns (perform dev []) d λ _ d'. P d'
  unfolding perform
  no_writes d p = (tt, d, refl, p)

  -- `after` is `before` with `image` in blocks 1, `n / 2` and `n - 1`.
  pub record Copies (n : ℕ) (image : List ℕ) (before after : dev.Device) : Type 0 where
    pub usable : Usable dev IsValid contents laws after
    pub same_geometry : dev.geometry after ≡ dev.geometry before
    pub first : block_at dev IsValid contents laws 1 after ≡ image
    pub middle : block_at dev IsValid contents laws (n / 2) after ≡ image
    pub last : block_at dev IsValid contents laws (n - 1) after ≡ image
    pub elsewhere :
        (c : ℕ)
        → c ≢ 1
        → c ≢ n / 2
        → c ≢ n - 1
        → Inside (dev.geometry before) c
        → block_at dev IsValid contents laws c after ≡ block_at dev IsValid contents laws c before
    pub between :
        (off len : ℕ)
        → 8192 ≤ off
        → off + len ≤ n / 2 * 4096
        → slice off len (contents after) ≡ slice off len (contents before)

  module _ (n : ℕ) (image : List ℕ) (big : 4 ≤ n) {d d1 d2 d3 : dev.Device}
      (room : n * 4096 ≤ (dev.geometry d).capacity_bytes)
      (w1 : Written dev IsValid contents laws 1 image d d1)
      (w2 : Written dev IsValid contents laws (n / 2) image d1 d2)
      (w3 : Written dev IsValid contents laws (n - 1) image d2 d3) where
    written-Copies : Copies n image d d3
    written-Copies =
        let capacity1 = ap (λ g. g.capacity_bytes) w1.same_geometry in
        let capacity2 = ap (λ g. g.capacity_bytes) w2.same_geometry in
        record {
          usable = w3.usable;
          same_geometry = w3.same_geometry ∙ w2.same_geometry ∙ w1.same_geometry;
          first =
              w3.elsewhere 1 (λ e. omega (arith, e, big))
                (omega (arith, room, big, capacity1, capacity2))
              ∙ w2.elsewhere 1 (λ e. omega (arith, e, big)) (omega (arith, room, big, capacity1))
              ∙ w1.here;
          middle =
              w3.elsewhere (n / 2) (λ e. omega (arith, e, big))
                (omega (arith, room, big, capacity1, capacity2))
              ∙ w2.here;
          last = w3.here;
          elsewhere = λ c a b e inside.
              w3.elsewhere c e (omega (arith, inside, capacity1, capacity2))
              ∙ w2.elsewhere c b (omega (arith, inside, capacity1))
              ∙ w1.elsewhere c a inside;
          between = λ off len far near.
              w3.as_blocks.in_front off len (omega (arith, near, big))
              ∙ w2.as_blocks.in_front off len near
              ∙ w1.as_blocks.behind off len (omega (arith, far)) (omega (arith, near, room));
        }

  pub put_copies :
      (n : ℕ) (image : List ℕ) (d : dev.Device)
      → 4 ≤ n
      → n * 4096 ≤ (dev.geometry d).capacity_bytes
      → length image ≡ 4096
      → Usable dev IsValid contents laws d
      → Returns (perform dev (copies n image)) d λ _ d'. Copies n image d d'
  put_copies n image d big room long u = step 1 image _ d u (omega (arith, room, big)) long λ d1 w1.
      let capacity1 = ap (λ g. g.capacity_bytes) w1.same_geometry in
      step (n / 2) image _ d1 w1.usable (omega (arith, room, big, capacity1)) long λ d2 w2.
        let capacity2 = ap (λ g. g.capacity_bytes) w2.same_geometry in
        step (n - 1) image [] d2 w2.usable (omega (arith, room, big, capacity1, capacity2)) long
          λ d3 w3. no_writes d3 (written-Copies n image big room w1 w2 w3)

  -- A sync keeps the copies in their places.
  pub sync-Copies :
      (n : ℕ) (image : List ℕ) (before d : dev.Device)
      → Copies n image before d
      → Returns dev.sync d λ _ d'. Copies n image before d'
  unfolding block_at
  sync-Copies n image before d c =
      let (d', e, valid, bytes, same) = laws.sync_lem d c.usable.valid in
      (
        tt,
        d',
        e,
        record {
          usable = record {
            valid = valid;
            writable = ap (λ g. g.read_only) same ∙ c.usable.writable;
            whole = ap (λ g. 4096 % g.sector_size) same ∙ c.usable.whole;
          };
          same_geometry = same ∙ c.same_geometry;
          first = ap (slice 4096 4096) bytes ∙ c.first;
          middle = ap (slice (n / 2 * 4096) 4096) bytes ∙ c.middle;
          last = ap (slice ((n - 1) * 4096) 4096) bytes ∙ c.last;
          elsewhere =
              λ b p q r inside. ap (slice (b * 4096) 4096) bytes ∙ c.elsewhere b p q r inside;
          between = λ off len far near. ap (slice off len) bytes ∙ c.between off len far near;
        },
      )

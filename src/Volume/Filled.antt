-- ===== src/Volume/Filled.antt =====
-- The inode table and the zeroed region of a volume that is formatted.
use corefs.Common.{
  ℕ, zero, suc, ◌+◌, ◌-◌, ◌*◌, ◌≤◌, ◌<◌, ◌≡◌, refl, sym, ap, ◌∙◌, Bool-cases, inl, inr, ltb, min,
  List, length, Returns, Returns->>=, pure, arith,
}
use corefs.Common.Word.{add64}
use corefs.Bytes.{slice, splice, zeros, length-zeros, length-splice, slice-splice}
use corefs.Layout.{LayoutGeometry}
use corefs.Layout.Plan.{IsOrdered}
use corefs.Device.{BlockDevice}
use corefs.Device.Lawful.{Laws}
use corefs.Volume.State.{write_blocks}
use corefs.Volume.Written.{Ready, Changed, write_blocks_lem}
use corefs.Volume.Format.{zero_fill_from, zero_fill_region, fill_slots, inode_table_bytes}

-- Filling slots keeps the size of the table.
length-fill_slots :
    (n i : ℕ) (slot table : List ℕ)
    → length slot ≡ 256
    → (i + n) * 256 ≤ length table
    → length (fill_slots n i slot table) ≡ length table
unfolding fill_slots
length-fill_slots zero i slot table long fit = refl
length-fill_slots (suc n) i slot table long fit =
    let same : length (splice (i * 256) slot table) ≡ length table =
      length-splice (i * 256) slot table (omega (arith, long, fit)) in
    length-fill_slots n (i + 1) slot (splice (i * 256) slot table) long (omega (arith, fit, same))
    ∙ same

-- The table of an ordered geometry has its size, and slot 0 in front.
pub inode_table_bytes_lem :
    (g : LayoutGeometry) (slot system : List ℕ)
    → 0 < g.inode_table_blocks
    → length slot ≡ 256
    → length system ≡ 256
    → (length (inode_table_bytes g slot system) ≡ g.inode_table_blocks * 4096)
      × (slice 0 256 (inode_table_bytes g slot system) ≡ system)
unfolding inode_table_bytes
inode_table_bytes_lem g slot system some_block long long' =
    let blank = zeros (g.inode_table_blocks * 4096) in
    let n = min g.inode_count (g.inode_table_blocks * 16) in
    let filled : length (fill_slots n 0 slot blank) ≡ g.inode_table_blocks * 4096 =
      length-fill_slots n 0 slot blank long
        (omega (arith, length-zeros (g.inode_table_blocks * 4096)))
      ∙ length-zeros (g.inode_table_blocks * 4096) in
    (
      length-splice 0 system (fill_slots n 0 slot blank) (omega (arith, filled, long', some_block))
          ∙ filled,
      ap (λ k. slice 0 k (splice 0 system (fill_slots n 0 slot blank))) (sym long')
          ∙ slice-splice 0 system (fill_slots n 0 slot blank) (omega arith),
    )

module _ (dev : BlockDevice) (IsValid : dev.Device → Type 0) (contents : dev.Device → List ℕ)
    (laws : Laws dev IsValid contents) (g : LayoutGeometry) (o : IsOrdered g) where
  abbrev pub ReadyDevice : dev.Device → Type 0
  ReadyDevice = Ready dev IsValid contents laws g o

  abbrev pub ChangedBlocks : ℕ → ℕ → dev.Device → dev.Device → Type 0
  ChangedBlocks = Changed dev IsValid contents laws g o

  pub Changed-trans :
      (lo hi a b : ℕ) (d d1 d2 : dev.Device)
      → ChangedBlocks a b d d1
      → ChangedBlocks lo hi d1 d2
      → lo ≤ a
      → b ≤ hi
      → ChangedBlocks lo hi d d2
  Changed-trans lo hi a b d d1 d2 first second h k = record {
    ready = second.ready;
    in_front = λ off len apart.
        second.in_front off len apart ∙ first.in_front off len (omega (arith, apart, h));
    behind = λ off len apart inside.
        second.behind off len apart inside ∙ first.behind off len (omega (arith, apart, k)) inside;
  }

  -- The loop writes all blocks of the region, whatever it has written before.
  pub zero_fill_from_lem :
      (fuel start written blocks : ℕ) (d : dev.Device)
      → written ≤ blocks
      → blocks ≤ written + fuel
      → start + blocks ≤ g.total_blocks
      → ReadyDevice d
      → Returns
          (zero_fill_from dev fuel start written blocks)
          d
          λ w d'. (w ≡ blocks) × ChangedBlocks start (start + blocks) d d'
  unfolding zero_fill_from
  zero_fill_from_lem zero start written blocks d low enough fit r = (
    written,
    d,
    refl,
    (
      omega (arith, low, enough),
      record { ready = r; in_front = λ off len _. refl; behind = λ off len _ _. refl },
    ),
  )
  zero_fill_from_lem (suc fuel) start written blocks d low enough fit r =
      elim (Bool-cases (ltb written blocks)) [
        | inr e ↦ rw e (
          written,
          d,
          refl,
          (
            ground (arith, low),
            record { ready = r; in_front = λ off len _. refl; behind = λ off len _ _. refl },
          ),
        )
        | inl e ↦
            let count = min (blocks - written) 64 in
            let more : written < blocks = ground arith in
            let place : add64 start written ≡ start + written = omega (arith, more, fit, o.small) in
            rw e rw place (
              Returns->>= (write_blocks dev (start + written) (zeros (count * 4096)))
                (λ _. zero_fill_from dev fuel start (written + count) blocks) d
                (write_blocks_lem dev IsValid contents laws g o (start + written) count
                  (zeros (count * 4096)) d (omega (arith, more)) (omega (arith, fit, more))
                  (length-zeros (count * 4096)) r)
                λ _ d1 (c1, _).
                  let (w, d2, e2, (done, c2)) =
                    zero_fill_from_lem fuel start (written + count) blocks d1 (omega (arith, more))
                      (omega (arith, more, enough)) fit c1.ready in
                  (
                    w,
                    d2,
                    e2,
                    (
                      done,
                      Changed-trans start (start + blocks) (start + written)
                          (start + written + count) d d1 d2 c1 c2 (omega arith)
                          (omega (arith, more)),
                    ),
                  ))
      ]

  pub zero_fill_region_lem :
      (start blocks : ℕ) (d : dev.Device)
      → start + blocks ≤ g.total_blocks
      → ReadyDevice d
      → Returns
          (zero_fill_region dev start blocks)
          d
          λ _ d'. ChangedBlocks start (start + blocks) d d'
  unfolding zero_fill_region
  zero_fill_region_lem start blocks d fit r =
      Returns->>= (zero_fill_from dev blocks start 0 blocks) (λ _. pure tt) d
        (zero_fill_from_lem blocks start 0 blocks d (omega arith) (omega arith) fit r)
        λ _ d' (_, c). (tt, d', refl, c)

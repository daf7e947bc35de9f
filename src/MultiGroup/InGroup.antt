-- ===== src/MultiGroup/InGroup.antt =====
-- One group: `try_in` takes the lowest run of free units that is long enough.
use mathlib.Core.Path.{subst}
use corefs.Common.{
  ℕ, zero, suc, ◌+◌, ◌-◌, ◌≤◌, ◌<◌, ◌^◌, ◌≡◌, sym, ap, ◌∙◌, inl, inr, true, false, Bool-cases, ltb,
  leb, Option, none, some, if◌then◌else◌, ok, err, invalid_input, arith,
}
use corefs.Common.Word.{add64, as_u32}
use corefs.Extent.{Extent}
use corefs.Bitmap.{Bitmap, set_bit}
use corefs.Bitmap.View.{IsValid, bit_at, is_set_lem, set_bit_lem}
use corefs.Bitmap.Run.{SetRun, SetRun-zero, SetRun-suc}
use corefs.BlockGroup.{BlockGroupDescriptor}
use corefs.MultiGroup.{in_use, first_used, scan_group, mark_each, try_in}

-- `count` free units from `s` on, below `blocks`
pub record FreeRun (bm : Bitmap) (blocks count s : ℕ) : Type 0 where
  pub inside : s + count ≤ blocks
  pub free : (j : ℕ) → s ≤ j → j < s + count → bit_at bm j ≡ false

in_use_lem : (bm : Bitmap) (i : ℕ) → i < bm.capacity → in_use bm i ≡ bit_at bm i
unfolding in_use
in_use_lem bm i h =
    let e : ltb i bm.capacity ≡ true = ground arith in
    ap (λ r. elim r [ ok b ↦ b | err _ ↦ true ])
      (is_set_lem bm i ∙ ap (λ c. if c then ok (bit_at bm i) else err invalid_input) e)

data Used (bm : Bitmap) (start n i : ℕ) : Option ℕ → Type 0 where
  none_used : ((j : ℕ) → i ≤ j → j < i + n → bit_at bm (start + j) ≡ false) → Used bm start n i none
  used_at : (k : ℕ) → i ≤ k → k < i + n → bit_at bm (start + k) ≡ true → Used bm start n i (some k)

Used-suc :
    (bm : Bitmap) (start n i : ℕ) {r : Option ℕ}
    → bit_at bm (start + i) ≡ false
    → Used bm start n (i + 1) r
    → Used bm start (suc n) i r
Used-suc bm start n i f (none_used h) = none_used λ j p q. elim (Bool-cases (leb (i + 1) j)) [
  | inl e ↦ h j (ground arith) (omega arith)
  | inr e ↦ let same : i ≡ j = ground arith in subst (λ k. bit_at bm (start + k) ≡ false) same f
]
Used-suc bm start n i f (used_at k p q u) = used_at k (omega arith) (omega arith) u

first_used-Used :
    (bm : Bitmap) (start n i : ℕ)
    → start + i + n ≤ bm.capacity
    → bm.capacity < 2 ^ 64
    → Used bm start n i (first_used bm start n i)
unfolding first_used
first_used-Used bm start zero i h w = none_used λ j p q. absurd (omega arith)
first_used-Used bm start (suc n) i h w =
    let here : add64 start i ≡ start + i = omega arith in
    let seen = in_use_lem bm (start + i) (omega arith) in
    rw here (elim (Bool-cases (in_use bm (start + i))) [
      | inl e ↦ rw e (used_at i (omega arith) (omega arith) (sym seen ∙ e))
      | inr e ↦ rw e (
          Used-suc bm start n i (sym seen ∙ e) (first_used-Used bm start n (i + 1) (omega arith) w))
    ])

-- The first start from `start` on whose `count` units are free.
data Scanned (bm : Bitmap) (blocks count start : ℕ) : Option ℕ → Type 0 where
  no_start :
      ((t : ℕ) → start ≤ t → ¬ FreeRun bm blocks count t) → Scanned bm blocks count start none
  start_at :
      (s : ℕ)
      → FreeRun bm blocks count s
      → ((t : ℕ) → start ≤ t → t < s → ¬ FreeRun bm blocks count t)
      → Scanned bm blocks count start (some s)

-- No run starts before a unit in use and reaches past it.
Scanned-skip :
    (bm : Bitmap) (blocks count start k : ℕ) {r : Option ℕ}
    → k < count
    → bit_at bm (start + k) ≡ true
    → Scanned bm blocks count (start + k + 1) r
    → Scanned bm blocks count start r
Scanned-skip bm blocks count start k q u (no_start never) = no_start λ t p w.
    elim (Bool-cases (leb (start + k + 1) t)) [
      | inl e ↦ never t (ground arith) w
      | inr e ↦ ground (arith, u, w.free (start + k) (ground arith) (omega arith))
    ]
Scanned-skip bm blocks count start k q u (start_at s w lower) = start_at s w λ t p l w'.
    elim (Bool-cases (leb (start + k + 1) t)) [
      | inl e ↦ lower t (ground arith) l w'
      | inr e ↦ ground (arith, u, w'.free (start + k) (ground arith) (omega arith))
    ]

module _ (bm : Bitmap) (blocks count : ℕ) (wide : blocks ≤ bm.capacity)
    (small : blocks + count < 2 ^ 64) (w : bm.capacity < 2 ^ 64) where
  scan_inside :
      (fuel start : ℕ) {r : Option ℕ}
      → 0 < count
      → start + count ≤ blocks
      → ((next : ℕ)
          → start < next
          → next ≤ blocks
          → Scanned bm blocks count next (scan_group bm blocks count fuel next))
      → Used bm start count 0 r
      → Scanned bm blocks count start (elim r [
        | none ↦ some start
        | some i ↦ scan_group bm blocks count fuel (add64 (add64 start i) 1)
      ])
  scan_inside fuel start pos inside rest (none_used h) =
      start_at start (record { inside = inside; free = λ j p q. free_at j p q })
        λ t p l. absurd (omega arith)
    where
      free_at : (j : ℕ) → start ≤ j → j < start + count → bit_at bm j ≡ false
      free_at j p q =
          let same : start + (j - start) ≡ j = omega arith in
          subst (λ k. bit_at bm k ≡ false) same (h (j - start) (omega arith) (omega arith))
  scan_inside fuel start pos inside rest (used_at k p q u) =
      let next : add64 (add64 start k) 1 ≡ start + k + 1 = omega arith in
      rw next (
        Scanned-skip bm blocks count start k (omega arith) u
          (rest (start + k + 1) (omega arith) (omega arith)))

  scan_group-Scanned :
      (fuel start : ℕ)
      → 0 < count
      → start ≤ blocks
      → blocks < start + fuel
      → Scanned bm blocks count start (scan_group bm blocks count fuel start)
  unfolding scan_group
  scan_group-Scanned zero start pos le lt = absurd (omega arith)
  scan_group-Scanned (suc fuel) start pos le lt =
      let sum : add64 start count ≡ start + count = omega arith in
      rw sum (elim (Bool-cases (leb (start + count) blocks)) [
        | inl e ↦ rw e (
            scan_inside fuel start pos (ground arith)
              (λ next p q. scan_group-Scanned fuel next pos q (omega arith))
              (first_used-Used bm start count 0 (ground arith) w))
        | inr e ↦ rw e (no_start λ t p f. ground (arith, f.inside))
      ])

-- `mark_each` sets the units of its run, and no other.
mark_each-SetRun :
    (bm : Bitmap) (p n i : ℕ) (mid : Bitmap)
    → p + i + n ≤ bm.capacity
    → SetRun bm p i true mid
    → SetRun bm p (i + n) true (mark_each p n i mid)
unfolding mark_each
mark_each-SetRun bm p zero i mid h m =
    let same : i ≡ i + 0 = omega arith in subst (λ k. SetRun bm p k true mid) same m
mark_each-SetRun bm p (suc n) i mid h m =
    let here : add64 p i ≡ p + i = omega (arith, m.valid.small, m.same_capacity) in
    let one = set_bit_lem mid m.valid (p + i) (omega (arith, m.same_capacity)) in
    let total : i + 1 + n ≡ i + suc n = omega arith in
    rw here (
      subst (λ k. SetRun bm p k true (mark_each p n (i + 1) (set_bit (p + i) mid).1)) total
        (mark_each-SetRun bm p n (i + 1) (set_bit (p + i) mid).1 (omega arith)
          (SetRun-suc bm p i true m one.1)))

-- What `try_in` makes of a group: nothing if no run fits, or the lowest run that does, marked.
pub data Tried (g : BlockGroupDescriptor) (count : ℕ) (bm : Bitmap)
    : Option Extent × Bitmap → Type 0 where
  no_room : ((s : ℕ) → ¬ FreeRun bm g.data_blocks count s) → Tried g count bm (none, bm)
  room_at :
      (s : ℕ) (out : Bitmap)
      → FreeRun bm g.data_blocks count s
      → ((t : ℕ) → t < s → ¬ FreeRun bm g.data_blocks count t)
      → SetRun bm s count true out
      → Tried g count bm (
        some (record {
          logical_block = 0;
          length_blocks = count;
          physical_block = g.data_start + s;
        }),
        out,
      )

-- What a group must be for `try_in`: its bitmap is valid and wide enough, and its blocks end in the
-- 64-bit range, with room for the request.
pub record Fits (g : BlockGroupDescriptor) (count : ℕ) (bm : Bitmap) : Type 0 where
  pub valid : IsValid bm
  pub wide : g.data_blocks ≤ bm.capacity
  pub in_word : g.data_start + g.data_blocks < 2 ^ 64
  pub request : g.data_blocks + count < 2 ^ 64

try_outcome :
    (g : BlockGroupDescriptor) (count : ℕ) (bm : Bitmap)
    → Fits g count bm
    → count < 2 ^ 32
    → {r : Option ℕ} → Scanned bm g.data_blocks count 0 r
    → Tried g count bm (elim r [
      | none ↦ (none, bm)
      | some start ↦ (
        some (record {
          logical_block = 0;
          length_blocks = as_u32 count;
          physical_block = add64 g.data_start start;
        }),
        mark_each start count 0 bm,
      )
    ])
try_outcome g count bm f w (no_start never) = no_room λ s. never s (omega arith)
try_outcome g count bm f w (start_at s run lower) =
    let place : add64 g.data_start s ≡ g.data_start + s = omega (arith, f.in_word, run.inside) in
    let size : as_u32 count ≡ count = omega arith in
    let all : 0 + count ≡ count = omega arith in
    rw place rw size (
      room_at s (mark_each s count 0 bm) run (λ t l. lower t (omega arith) l)
        (subst (λ k. SetRun bm s k true (mark_each s count 0 bm)) all
          (mark_each-SetRun bm s count 0 bm (omega (arith, run.inside, f.wide))
            (SetRun-zero bm s true f.valid))))

pub try_in-Tried :
    (g : BlockGroupDescriptor) (count : ℕ) (bm : Bitmap)
    → Fits g count bm
    → 0 < count
    → count < 2 ^ 32
    → Tried g count bm (try_in g count bm)
unfolding try_in
try_in-Tried g count bm f pos w =
    let wide : ltb bm.capacity g.data_blocks ≡ false = ground (arith, f.wide) in
    rw wide (
      try_outcome g count bm f w (
        scan_group-Scanned bm g.data_blocks count f.wide f.request f.valid.small (suc g.data_blocks)
          0 pos (omega arith) (omega arith)))

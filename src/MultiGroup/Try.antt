-- ===== src/MultiGroup/Try.antt =====
-- What trying one group does to the allocator.
use mathlib.Core.Path.{subst}
use corefs.Common.{
  ℕ, zero, suc, ◌+◌, ◌<◌, ◌^◌, ◌≡◌, refl, sym, ap, true, Option, none, some, List, [], ◌∷◌, length,
  get_elem?, set, arith,
}
use corefs.Extent.{Extent}
use corefs.Bitmap.{Bitmap}
use corefs.Bitmap.Run.{SetRun}
use corefs.BlockGroup.{BlockGroupDescriptor}
use corefs.MultiGroup.{MultiGroupAllocator, try_allocate_in_group}
use corefs.MultiGroup.InGroup.{FreeRun, Fits, Tried, no_room, room_at, try_in-Tried}

-- Group `g` of an allocator: its descriptor and its bitmap.
pub record GroupIs (a : MultiGroupAllocator) (g : ℕ) (d : BlockGroupDescriptor) (bm : Bitmap)
    : Type 0 where
  pub descriptor : get_elem? a.table.groups g ≡ some d
  pub bitmap : get_elem? a.group_bitmaps g ≡ some bm

-- As many bitmaps as groups, each valid and wide enough, with room in a word for the request.
pub record Ready (a : MultiGroupAllocator) (count : ℕ) : Type 0 where
  pub paired : length a.table.groups ≡ length a.group_bitmaps
  pub fits : (g : ℕ) (d : BlockGroupDescriptor) (bm : Bitmap) → GroupIs a g d bm → Fits d count bm

-- No run of group `g` fits.
pub record NoRoomIn (a : MultiGroupAllocator) (count g : ℕ) : Type 0 where
  pub d : BlockGroupDescriptor
  pub bm : Bitmap
  pub group : GroupIs a g d bm
  pub no_run : (s : ℕ) → ¬ FreeRun bm d.data_blocks count s

-- The lowest run of group `g` that fits, and the allocator with that run marked.
pub record TakenFrom (a : MultiGroupAllocator) (count g : ℕ) (ext : Extent)
    (b : MultiGroupAllocator) : Type 0 where
  pub d : BlockGroupDescriptor
  pub bm : Bitmap
  pub out : Bitmap
  pub s : ℕ
  pub group : GroupIs a g d bm
  pub run : FreeRun bm d.data_blocks count s
  pub lowest : (t : ℕ) → t < s → ¬ FreeRun bm d.data_blocks count t
  pub marked : SetRun bm s count true out
  pub extent :
      ext ≡ record { logical_block = 0; length_blocks = count; physical_block = d.data_start + s }
  pub after : b ≡ record a { group_bitmaps = set a.group_bitmaps g out }

module _ {ℓ} {A : Type ℓ} where
  set-same : (xs : List A) (i : ℕ) (x : A) → get_elem? xs i ≡ some x → set xs i x ≡ xs
  set-same [] i x e = refl
  set-same (y ∷ ys) zero x e = ap (λ o. elim o [ some z ↦ z ∷ ys | none ↦ ys ]) (sym e)
  set-same (y ∷ ys) (suc i) x e = ap (λ zs. y ∷ zs) (set-same ys i x e)

  get_elem?-some : (xs : List A) (i : ℕ) → i < length xs → (x : A) × (get_elem? xs i ≡ some x)
  get_elem?-some [] i h = absurd (omega arith)
  get_elem?-some (x ∷ xs) zero h = (x, refl)
  get_elem?-some (x ∷ xs) (suc i) h = get_elem?-some xs i (omega arith)

-- One group tried: it has no room and nothing changes, or its lowest run is taken.
pub data AfterTry (a : MultiGroupAllocator) (count g : ℕ)
    : Option Extent × MultiGroupAllocator → Type 0 where
  not_here : NoRoomIn a count g → AfterTry a count g (none, a)
  here_at :
      (ext : Extent) (b : MultiGroupAllocator)
      → TakenFrom a count g ext b
      → AfterTry a count g (some ext, b)

module _ (a : MultiGroupAllocator) (count : ℕ) (ready : Ready a count) (pos : 0 < count)
    (w : count < 2 ^ 32) where
  after_try :
      (g : ℕ) (d : BlockGroupDescriptor) (bm : Bitmap)
      → GroupIs a g d bm
      → {r : Option Extent × Bitmap} → Tried d count bm r
      → AfterTry a count g (r.0, record a { group_bitmaps = set a.group_bitmaps g r.1 })
  after_try g d bm is (no_room never) =
      subst (λ bms. AfterTry a count g (none, record a { group_bitmaps = bms }))
        (sym (set-same a.group_bitmaps g bm is.bitmap))
        (not_here (record { d = d; bm = bm; group = is; no_run = never }))
  after_try g d bm is (room_at s out run lowest marked) = here_at _ _ (record {
    d = d;
    bm = bm;
    out = out;
    s = s;
    group = is;
    run = run;
    lowest = lowest;
    marked = marked;
    extent = refl;
    after = refl;
  })

  pub try_group-AfterTry :
      (g : ℕ) → g < length a.group_bitmaps → AfterTry a count g (try_allocate_in_group g count a)
  unfolding try_allocate_in_group
  try_group-AfterTry g h =
      let (d, is_d) = get_elem?-some a.table.groups g (omega (arith, h, ready.paired)) in
      let (bm, is_bm) = get_elem?-some a.group_bitmaps g h in
      let is : GroupIs a g d bm = record { descriptor = is_d; bitmap = is_bm } in
      rw (is_d, try_allocate_in_group) rw (is_bm, try_allocate_in_group)
        (after_try g d bm is (try_in-Tried d count bm (ready.fits g d bm is) pos w))

-- ===== src/RefCount/Table.antt =====
-- The invariant of a counter table, and what one `acquire` or `release` does to every counter.
use corefs.Common.{
  ℕ, ◌+◌, ◌-◌, ◌≤◌, ◌<◌, ◌^◌, ◌≡◌, refl, leb, ◌==◌, Bool-cases, inl, inr, if◌then◌else◌,
  CoreFsResult, ok, err, invalid_input, policy_violation, state, length, get_or, length-set,
  get_or-set, list_ext, length-replicate, get_or-replicate, arith,
}
use corefs.RefCount.{RefCountTable, new, acquire, release, put, max_refcount}

-- The counter of a block.
abbrev pub count_at : RefCountTable → ℕ → ℕ
count_at t b = get_or t.counters b 0

-- One counter for each block, and every counter is 16 bits wide.
pub record IsValid (t : RefCountTable) : Type 0 where
  pub sized : length t.counters ≡ t.capacity
  pub bounded : (b : ℕ) → count_at t b ≤ max_refcount
  pub small : t.capacity < 2 ^ 64

pub new-IsValid : (n : ℕ) → n < 2 ^ 64 → IsValid (new n)
unfolding new
new-IsValid n h = record {
  sized = length-replicate n 0;
  bounded = λ b. rw get_or-replicate (omega arith);
  small = h;
}

-- `out` is `t` with the counter of one block changed.
pub record Put (t : RefCountTable) (block value : ℕ) (out : RefCountTable) : Type 0 where
  pub same_capacity : out.capacity ≡ t.capacity
  pub counts : (b : ℕ) → count_at out b ≡ (if block == b then value else count_at t b)
  pub valid : IsValid out

module _ (t : RefCountTable) (v : IsValid t) (block : ℕ) where
  put_lem :
      (value : ℕ)
      → block < t.capacity
      → value ≤ max_refcount
      → Put t block value (put t block value)
  put_lem value h w = record {
    same_capacity = refl;
    counts = counts_after;
    valid = record {
      sized = omega (arith, length-set t.counters block value, v.sized);
      bounded = λ b. ground (arith, counts_after b, v.bounded b);
      small = v.small;
    };
  }
    where
      counts_after :
          (b : ℕ) → count_at (put t block value) b ≡ (if block == b then value else count_at t b)
      counts_after b = get_or-set t.counters block b value 0 (omega (arith, v.sized))

-- What `acquire` answers and leaves, on each of its branches.
pub data AfterAcquire (t : RefCountTable) (block : ℕ)
    : CoreFsResult ℕ × RefCountTable → Type 0 where
  counted :
      (out : RefCountTable)
      → block < t.capacity
      → count_at t block < max_refcount
      → Put t block (count_at t block + 1) out
      → AfterAcquire t block (ok (count_at t block + 1), out)
  past_end : t.capacity ≤ block → AfterAcquire t block (err invalid_input, t)
  saturated :
      block < t.capacity
      → count_at t block ≡ max_refcount
      → AfterAcquire t block (err policy_violation, t)

-- What `release` answers and leaves, on each of its branches.
pub data AfterRelease (t : RefCountTable) (block : ℕ)
    : CoreFsResult ℕ × RefCountTable → Type 0 where
  dropped :
      (out : RefCountTable)
      → block < t.capacity
      → 0 < count_at t block
      → Put t block (count_at t block - 1) out
      → AfterRelease t block (ok (count_at t block - 1), out)
  outside : t.capacity ≤ block → AfterRelease t block (err invalid_input, t)
  unreferenced : block < t.capacity → count_at t block ≡ 0 → AfterRelease t block (err state, t)

module _ (t : RefCountTable) (v : IsValid t) (block : ℕ) where
  pub acquire_lem : AfterAcquire t block (acquire block t)
  unfolding acquire
  acquire_lem = elim (Bool-cases (leb t.capacity block)) [
    | inl past ↦ rw past (past_end (ground arith))
    | inr inside ↦ elim (Bool-cases (count_at t block == max_refcount)) [
      | inl top ↦ rw (inside, top) (saturated (ground arith) (ground arith))
      | inr below ↦
          rw (inside, below)
            (counted _ (ground arith) (ground (arith, v.bounded block))
              (put_lem t v block _ (ground arith) (ground (arith, v.bounded block))))
    ]
  ]

  pub release_lem : AfterRelease t block (release block t)
  unfolding release
  release_lem = elim (Bool-cases (leb t.capacity block)) [
    | inl past ↦ rw past (outside (ground arith))
    | inr inside ↦ elim (Bool-cases (count_at t block == 0)) [
      | inl free ↦ rw (inside, free) (unreferenced (ground arith) (ground arith))
      | inr held ↦
          rw (inside, held)
            (dropped _ (ground arith) (ground arith)
              (put_lem t v block _ (ground arith) (ground (arith, v.bounded block))))
    ]
  ]

-- Tables of one capacity with the same counters are equal.
pub table_ext :
    (s t : RefCountTable)
    → IsValid s
    → IsValid t
    → s.capacity ≡ t.capacity
    → ((b : ℕ) → count_at s b ≡ count_at t b)
    → s ≡ t
table_ext s t v w e h =
    let same = list_ext s.counters t.counters 0 (omega (arith, v.sized, w.sized)) h in
    λ i. record { counters = same i; capacity = e i }

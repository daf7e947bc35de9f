-- ===== src/Quota/Verdict.antt =====
-- What the quota service grants and refuses, against a description by sums on the integers.
use corefs.Common.{
  ℕ, ◌+◌, ◌≤◌, ◌<◌, ◌^◌, ◌≡◌, ◌≢◌, refl, ap, inl, inr, true, false, Bool-cases, ltb, leb, Option,
  none, some, List, [], ◌∷◌, CoreFsResult, ok, err, policy_violation, state, arith, ◌∙◌,
}
use corefs.Quota.{
  ℤ, pos, negsuc, QuotaPolicy, Inode, InodeKind, file, directory, symlink, counted, count_files,
  sum_sizes, report, apply_delta, exceeds, check_limits, check_stats, enforce_delta,
}

-- `current + delta` is `total`.
unfoldable pub SumIs : ℕ → ℤ → ℕ → Type 0
SumIs current (pos n) total = current + n ≡ total
SumIs current (negsuc n) total = total + (n + 1) ≡ current

-- `total` is the sum, and a machine word.
pub record Projects (current : ℕ) (delta : ℤ) (total : ℕ) : Type 0 where
  pub sum : SumIs current delta total
  pub fits : total < 2 ^ 64

unfoldable pub Within : Option ℕ → ℕ → Type 0
Within none total = Unit
Within (some limit) total = total ≤ limit

data Applied (current : ℕ) (delta : ℤ) : CoreFsResult ℕ → Type 0 where
  projected : (total : ℕ) → Projects current delta total → Applied current delta (ok total)
  unrepresentable :
      ((total : ℕ) → ¬ Projects current delta total) → Applied current delta (err state)

apply_delta-Applied :
    (current : ℕ) (delta : ℤ) → current < 2 ^ 64 → Applied current delta (apply_delta current delta)
unfolding apply_delta SumIs
apply_delta-Applied current (pos n) h = elim (Bool-cases (ltb (current + n) (2 ^ 64))) [
  | inl e ↦ rw e (projected _ (record { sum = refl; fits = ground arith }))
  | inr e ↦ rw e (unrepresentable (λ t p. ground (arith, p.sum, p.fits)))
]
apply_delta-Applied current (negsuc n) h = elim (Bool-cases (leb (n + 1) current)) [
  | inl e ↦ rw e (projected _ (record { sum = ground arith; fits = omega arith }))
  | inr e ↦ rw e (unrepresentable (λ t p. ground (arith, p.sum)))
]

exceeds-Within : (limit : Option ℕ) (total : ℕ) → exceeds limit total ≡ false → Within limit total
unfolding exceeds Within
exceeds-Within none total e = tt
exceeds-Within (some l) total e = ground arith

exceeds-not_Within :
    (limit : Option ℕ) (total : ℕ) → exceeds limit total ≡ true → ¬ Within limit total
unfolding exceeds Within
exceeds-not_Within none total e = ground arith
exceeds-not_Within (some l) total e = λ w. ground arith

pub data Verdict (policy : QuotaPolicy) (files bytes : ℕ) (df db : ℤ)
    : CoreFsResult (Unit {0}) → Type 0 where
  granted :
      (f b : ℕ)
      → Projects files df f
      → Projects bytes db b
      → Within policy.max_files f
      → Within policy.max_bytes b
      → Verdict policy files bytes df db (ok tt)
  over_limit :
      (f b : ℕ)
      → Projects files df f
      → Projects bytes db b
      → ¬ (Within policy.max_files f × Within policy.max_bytes b)
      → Verdict policy files bytes df db (err policy_violation)
  no_files : ((f : ℕ) → ¬ Projects files df f) → Verdict policy files bytes df db (err state)
  no_bytes : ((b : ℕ) → ¬ Projects bytes db b) → Verdict policy files bytes df db (err state)

module _ (policy : QuotaPolicy) (files bytes : ℕ) (df db : ℤ) where
  limits-Verdict :
      (f b : ℕ)
      → Projects files df f
      → Projects bytes db b
      → Verdict policy files bytes df db (check_limits policy.max_files policy.max_bytes f b)
  unfolding check_limits
  limits-Verdict f b p q = elim (Bool-cases (exceeds policy.max_files f)) [
    | inl e ↦ rw e (over_limit f b p q λ w. exceeds-not_Within policy.max_files f e w.0)
    | inr e ↦ elim (Bool-cases (exceeds policy.max_bytes b)) [
      | inl e' ↦ rw e rw e' (over_limit f b p q λ w. exceeds-not_Within policy.max_bytes b e' w.1)
      | inr e' ↦ rw e rw e' (
          granted f b p q (exceeds-Within policy.max_files f e)
            (exceeds-Within policy.max_bytes b e'))
    ]
  ]

  stats-Verdict :
      {r s : CoreFsResult ℕ}
      → Applied files df r
      → Applied bytes db s
      → Verdict policy files bytes df db (elim r [
        | err e ↦ err e
        | ok f ↦ elim s [
          | err e ↦ err e
          | ok b ↦ check_limits policy.max_files policy.max_bytes f b
        ]
      ])
  stats-Verdict (unrepresentable never) _ = no_files never
  stats-Verdict (projected f p) (unrepresentable never) = no_bytes never
  stats-Verdict (projected f p) (projected b q) = limits-Verdict f b p q

  -- For counts that are machine words: `check_stats` grants a change exactly if both sums on the
  -- integers are machine words within their limits; it reports a policy violation if both are words
  -- and one is over its limit, and a state error if one is negative or too large for a word.
  pub check_stats-Verdict :
      files < 2 ^ 64
      → bytes < 2 ^ 64
      → Verdict policy files bytes df db (check_stats policy files bytes df db)
  unfolding check_stats
  check_stats-Verdict hf hb =
      stats-Verdict (apply_delta-Applied files df hf) (apply_delta-Applied bytes db hb)

-- What the active inodes use: all of them but the directories, and the sum of their sizes on the
-- integers.
pub data Usage : List Inode → ℕ → ℕ → Type 0 where
  nothing : Usage [] 0 0
  unused :
      {i : Inode} {is : List Inode} {files bytes : ℕ}
      → i.kind ≡ directory
      → Usage is files bytes
      → Usage (i ∷ is) files bytes
  used :
      {i : Inode} {is : List Inode} {files bytes : ℕ}
      → i.kind ≢ directory
      → Usage is files bytes
      → Usage (i ∷ is) (files + 1) (i.size + bytes)

counted-directory : (i : Inode) → i.kind ≡ directory → counted i ≡ false
unfolding counted
counted-directory i e = rw e refl

counted-other : (i : Inode) → i.kind ≢ directory → counted i ≡ true
unfolding counted
counted-other i other = by_kind i.kind other
  where
    by_kind : (k : InodeKind) → k ≢ directory → elim k [ directory ↦ false | _ ↦ true ] ≡ true
    by_kind file _ = refl
    by_kind symlink _ = refl
    by_kind directory never = elim (never refl) [ ]

count_files-Usage :
    {is : List Inode} {files bytes : ℕ} → Usage is files bytes → count_files is ≡ files
unfolding count_files
count_files-Usage nothing = refl
count_files-Usage (unused {i} e u) = rw (counted-directory i e) (count_files-Usage u)
count_files-Usage (used {i} e u) = rw (counted-other i e) (ap (λ k. k + 1) (count_files-Usage u))

sum_sizes-Usage :
    {is : List Inode} {files bytes : ℕ}
    → Usage is files bytes
    → bytes < 2 ^ 64
    → sum_sizes is ≡ bytes
unfolding sum_sizes
sum_sizes-Usage nothing h = refl
sum_sizes-Usage (unused {i} e u) h = rw (counted-directory i e) (sum_sizes-Usage u h)
sum_sizes-Usage (used {i} e u) h =
    rw (counted-other i e)
      (let rest = sum_sizes-Usage u (omega (arith, h)) in omega (arith, rest, h))

-- `enforce_delta` decides on a list of active inodes as `check_stats` does on their number and the
-- sum of their sizes, where files and symbolic links are counted and directories are not, if both
-- are machine words: it grants a change exactly if both sums with it are machine words within their
-- limits, reports a policy violation if both are words and one is over its limit, and a state error
-- if one is negative or too large for a word.
pub enforce_delta-Verdict :
    (policy : QuotaPolicy) (active : List Inode) (files bytes : ℕ) (df db : ℤ)
    → Usage active files bytes
    → files < 2 ^ 64
    → bytes < 2 ^ 64
    → Verdict policy files bytes df db (enforce_delta policy active df db)
unfolding enforce_delta check_stats report
enforce_delta-Verdict policy active files bytes df db u hf hb =
    let on_sums : enforce_delta policy active df db ≡ check_stats policy files bytes df db =
      ap (λ f. check_stats policy f (sum_sizes active) df db) (count_files-Usage u)
      ∙ ap (λ b. check_stats policy files b df db) (sum_sizes-Usage u hb) in
    rw on_sums (check_stats-Verdict policy files bytes df db hf hb)

-- ===== src/Quota.antt =====
-- corefs-core/src/services/quota.rs: what a policy allows a volume to hold. An `isize` is an
-- integer, and a `usize` has 64 bits.
pub mod Verdict
use Prim.Native.Nat.{◌<◌}
use corefs.Common.{
  ℕ, ◌+◌, ◌-◌, ◌^◌, Bool, true, false, not, Option, none, some, List, [], ◌∷◌, ltb, leb,
  if◌then◌else◌, CoreFsResult, ok, err, policy_violation, state,
}
use corefs.Common.Word.{add64}

pub data ℤ : Type 0 where
  pos negsuc : ℕ → ℤ

-- The part of `QuotaPolicy` in config.rs
pub record QuotaPolicy : Type 0 where
  pub max_files : Option ℕ
  pub max_bytes : Option ℕ

pub data InodeKind : Type 0 where
  file directory symlink : InodeKind

-- The fields of `Inode` that the quota reads
pub record Inode : Type 0 where
  pub kind : InodeKind
  pub size : ℕ

pub record QuotaReport : Type 0 where
  pub used_files : ℕ
  pub used_bytes : ℕ
  pub max_files : Option ℕ
  pub max_bytes : Option ℕ

-- `inode.kind != InodeKind::Directory`
unfoldable pub counted : Inode → Bool
counted i = elim i.kind [ directory ↦ false | _ ↦ true ]

-- `.filter(..).count()`
unfoldable pub count_files : List Inode → ℕ
count_files [] = 0
count_files (i ∷ is) = if counted i then count_files is + 1 else count_files is

-- `.filter(..).map(|inode| inode.size).sum()`
pub sum_sizes : List Inode → ℕ
sum_sizes [] = 0
sum_sizes (i ∷ is) = if counted i then add64 i.size (sum_sizes is) else sum_sizes is

-- `QuotaService::report`
unfoldable pub report : QuotaPolicy → List Inode → QuotaReport
report policy active = record {
  used_files = count_files active;
  used_bytes = sum_sizes active;
  max_files = policy.max_files;
  max_bytes = policy.max_bytes;
}

-- `apply_delta`: `checked_sub` of the absolute value, or `checked_add`
unfoldable pub apply_delta : ℕ → ℤ → CoreFsResult ℕ
apply_delta current (negsuc n) = if leb (n + 1) current then ok (current - (n + 1)) else err state
apply_delta current (pos n) = if ltb (current + n) (2 ^ 64) then ok (current + n) else err state

-- `if let Some(limit) = max && projected > limit`
unfoldable pub exceeds : Option ℕ → ℕ → Bool
exceeds none projected = false
exceeds (some limit) projected = ltb limit projected

-- The two tests that `check_stats` and `enforce_delta` end with
unfoldable pub check_limits : Option ℕ → Option ℕ → ℕ → ℕ → CoreFsResult (Unit {0})
check_limits max_files max_bytes projected_files projected_bytes =
    if exceeds max_files projected_files
    then err policy_violation
    else if exceeds max_bytes projected_bytes
    then err policy_violation
    else ok tt

-- `QuotaService::check_stats`
unfoldable pub check_stats : QuotaPolicy → ℕ → ℕ → ℤ → ℤ → CoreFsResult (Unit {0})
check_stats policy files bytes file_delta byte_delta = elim (apply_delta files file_delta) [
  | err e ↦ err e
  | ok projected_files ↦ elim (apply_delta bytes byte_delta) [
    | err e ↦ err e
    | ok projected_bytes ↦
        check_limits policy.max_files policy.max_bytes projected_files projected_bytes
  ]
]

-- `QuotaService::enforce_delta`
unfoldable pub enforce_delta : QuotaPolicy → List Inode → ℤ → ℤ → CoreFsResult (Unit {0})
enforce_delta policy active file_delta byte_delta =
    let r = report policy active in
    elim (apply_delta r.used_files file_delta) [
      | err e ↦ err e
      | ok projected_files ↦ elim (apply_delta r.used_bytes byte_delta) [
        | err e ↦ err e
        | ok projected_bytes ↦ check_limits r.max_files r.max_bytes projected_files projected_bytes
      ]
    ]

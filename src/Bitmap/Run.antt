-- ===== src/Bitmap/Run.antt =====
-- Runs of units that are set or cleared one after another.
use mathlib.Core.Path.{subst}
use corefs.Common.{
  ℕ, zero, suc, ◌+◌, ◌≤◌, ◌≡◌, refl, ◌∙◌, Bool, true, if◌then◌else◌, CoreFsResult, ok, ◌>>=◌,
  >>=-ok, arith,
}
use corefs.Common.Word.{add64}
use corefs.Extent.{in_run}
use corefs.Bitmap.{Bitmap, set_bit, set_run}
use corefs.Bitmap.View.{IsValid, bit_at, SetBit, set_bit_lem}

-- `out` is `bm` with the `n` units from `p` all at `c`.
pub record SetRun (bm : Bitmap) (p n : ℕ) (c : Bool) (out : Bitmap) : Type 0 where
  pub valid : IsValid out
  pub same_capacity : out.capacity ≡ bm.capacity
  pub bits_at : (j : ℕ) → bit_at out j ≡ (if in_run p n j then c else bit_at bm j)

pub SetRun-zero : (bm : Bitmap) (p : ℕ) (c : Bool) → IsValid bm → SetRun bm p 0 c bm
SetRun-zero bm p c v = record { valid = v; same_capacity = refl; bits_at = λ j. ground arith }

-- One unit more, behind the run.
pub SetRun-suc :
    (bm : Bitmap) (p n : ℕ) (c : Bool) {mid out : Bitmap}
    → SetRun bm p n c mid
    → SetBit mid (p + n) c out
    → SetRun bm p (n + 1) c out
SetRun-suc bm p n c m s = record {
  valid = s.valid;
  same_capacity = s.same_capacity ∙ m.same_capacity;
  bits_at = λ j. ground (arith, s.bits_at j, m.bits_at j);
}

pub set_run_lem :
    (bm : Bitmap) (p n i : ℕ) (mid : Bitmap)
    → p + i + n ≤ bm.capacity
    → SetRun bm p i true mid
    → (out : Bitmap) × (set_run p n i mid ≡ (ok tt, out)) × SetRun bm p (i + n) true out
unfolding set_run
set_run_lem bm p zero i mid h m =
    let same : i ≡ i + 0 = omega arith in (mid, refl, subst (λ k. SetRun bm p k true mid) same m)
set_run_lem bm p (suc n) i mid h m =
    let here : p + i ≡ add64 p i = omega (arith, m.valid.small, m.same_capacity) in
    let one = set_bit_lem mid m.valid (p + i) (omega (arith, m.same_capacity)) in
    let rest =
      set_run_lem bm p n (i + 1) (set_bit (p + i) mid).1 (omega arith)
        (SetRun-suc bm p i true m one.1) in
    let total : i + 1 + n ≡ i + suc n = omega arith in
    (
      rest.0,
      subst (λ k. set_run_from k ≡ (ok tt, rest.0)) here
          (>>=-ok (set_bit (p + i)) (λ _. set_run p n (i + 1)) mid
              (λ k. (one.0 k, (set_bit (p + i) mid).1))
            ∙ rest.1),
      subst (λ k. SetRun bm p k true rest.0) total rest.2,
    )
  where
    set_run_from : ℕ → CoreFsResult (Unit {0}) × Bitmap
    set_run_from k = (set_bit k >>= λ _. set_run p n (i + 1)) mid

-- ===== src/Bitmap/Length.antt =====
-- Marking units keeps the size of a bitmap in bytes.
use corefs.Common.{
  ℕ, zero, suc, ◌+◌, ◌≡◌, refl, ◌∙◌, leb, Bool-cases, inl, inr, length, length-set, CoreFsResult,
  ok, err, Method, ◌>>=◌, pure,
}
use corefs.Bitmap.{Bitmap, set_bit, set_run}

-- A method that keeps the size of the bitmap in bytes
pub record KeepsLength {A : Type 0} (m : Method Bitmap A) : Type 0 where
  pub sized : (bm : Bitmap) → length (m bm).1.bits ≡ length bm.bits

pub KeepsLength-pure : {A : Type 0} (a : A) → KeepsLength (pure a)
KeepsLength-pure a = record { sized = λ bm. refl }

pub KeepsLength-bind :
    {A B : Type 0} {m : Method Bitmap A} {f : A → Method Bitmap B}
    → KeepsLength m
    → ((a : A) → KeepsLength (f a))
    → KeepsLength (m >>= f)
KeepsLength-bind {A} {B} {m} {f} s t = record { sized = λ bm. from bm (m bm) (s.sized bm) }
  where
    from :
        (bm : Bitmap) (x : CoreFsResult A × Bitmap)
        → length x.1.bits ≡ length bm.bits
        → length
            (elim x.0 as (λ _. CoreFsResult B × Bitmap) [
              | ok a ↦ f a x.1
              | err e ↦ (err e, x.1)
            ]).1.bits
          ≡ length bm.bits
    from bm (ok a, mid) e = (t a).sized mid ∙ e
    from bm (err x, mid) e = e

pub KeepsLength-set_bit : (i : ℕ) → KeepsLength (set_bit i)
unfolding set_bit
KeepsLength-set_bit i = record {
  sized = λ bm. elim (Bool-cases (leb bm.capacity i)) [
    | inl e ↦ rw e refl
    | inr e ↦ rw e (length-set _ _ _)
  ];
}

pub KeepsLength-set_run : (p n i : ℕ) → KeepsLength (set_run p n i)
unfolding set_run
KeepsLength-set_run p zero i = KeepsLength-pure tt
KeepsLength-set_run p (suc n) i =
    KeepsLength-bind (KeepsLength-set_bit _) λ _. KeepsLength-set_run p n (i + 1)

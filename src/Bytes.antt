-- ===== src/Bytes.antt =====
-- Little-endian numbers and slices of byte lists: `to_le_bytes`, `from_le_bytes`, `&bytes[a..b]`.
pub mod Ranges
pub mod Nested
pub mod Reader
pub mod Records
use corefs.Common.{
  ℕ, zero, suc, ◌+◌, ◌-◌, ◌*◌, ◌/◌, ◌%◌, ◌≤◌, ◌<◌, ◌≡◌, refl, sym, ap, ◌∙◌, List, [], ◌∷◌, ◌++◌,
  length, length-append, arith,
}

-- The number of values of `k` bytes
abbrev pub word : ℕ → ℕ
word zero = 1
word (suc k) = 256 * word k

-- `n.to_le_bytes()` of a type of `k` bytes
unfoldable pub to_le : ℕ → ℕ → List ℕ
to_le zero n = []
to_le (suc k) n = n % 256 ∷ to_le k (n / 256)

-- `from_le_bytes(bytes)`
unfoldable pub from_le : List ℕ → ℕ
from_le [] = 0
from_le (b ∷ bs) = b + 256 * from_le bs

module _ {ℓ} {A : Type ℓ} where
  unfoldable pub take : ℕ → List A → List A
  take zero xs = []
  take (suc n) [] = []
  take (suc n) (x ∷ xs) = x ∷ take n xs

  unfoldable pub drop : ℕ → List A → List A
  drop zero xs = xs
  drop (suc n) [] = []
  drop (suc n) (x ∷ xs) = drop n xs

-- A number that fits in `k` bytes is read back.
pub from_le-to_le : (k n : ℕ) → n < word k → from_le (to_le k n) ≡ n
unfolding from_le to_le
from_le-to_le zero n h = omega arith
from_le-to_le (suc k) n h = omega (arith, from_le-to_le k (n / 256) (omega arith))

-- `&bytes[off..off + len]`
unfoldable pub slice : ℕ → ℕ → List ℕ → List ℕ
slice off len bytes = take len (drop off bytes)

-- `bytes[off..off + new.len()].copy_from_slice(new)`
unfoldable pub splice : ℕ → List ℕ → List ℕ → List ℕ
splice off new bytes = take off bytes ++ (new ++ drop (off + length new) bytes)

pub length-to_le : (k n : ℕ) → length (to_le k n) ≡ k
unfolding to_le
length-to_le zero n = refl
length-to_le (suc k) n = omega (arith, length-to_le k (n / 256))

module _ {ℓ} {A : Type ℓ} where
  pub take-append : (n : ℕ) (xs ys : List A) → n ≡ length xs → take n (xs ++ ys) ≡ xs
  unfolding take
  take-append zero [] ys e = refl
  take-append zero (x ∷ xs) ys e = absurd (omega arith)
  take-append (suc n) [] ys e = absurd (omega arith)
  take-append (suc n) (x ∷ xs) ys e = ap (λ zs. x ∷ zs) (take-append n xs ys (omega arith))

  pub drop-append : (n : ℕ) (xs ys : List A) → n ≡ length xs → drop n (xs ++ ys) ≡ ys
  unfolding drop
  drop-append zero [] ys e = refl
  drop-append zero (x ∷ xs) ys e = absurd (omega arith)
  drop-append (suc n) [] ys e = absurd (omega arith)
  drop-append (suc n) (x ∷ xs) ys e = drop-append n xs ys (omega arith)

  pub length-take : (n : ℕ) (xs : List A) → n ≤ length xs → length (take n xs) ≡ n
  unfolding take
  length-take zero xs h = refl
  length-take (suc n) [] h = absurd (omega arith)
  length-take (suc n) (x ∷ xs) h = omega (arith, length-take n xs (omega arith))

  pub length-drop : (n : ℕ) (xs : List A) → length (drop n xs) ≡ length xs - n
  unfolding drop
  length-drop zero xs = omega arith
  length-drop (suc n) [] = omega arith
  length-drop (suc n) (x ∷ xs) = omega (arith, length-drop n xs)

  pub take-drop : (n : ℕ) (xs : List A) → take n xs ++ drop n xs ≡ xs
  unfolding take drop
  take-drop zero xs = refl
  take-drop (suc n) [] = refl
  take-drop (suc n) (x ∷ xs) = ap (λ zs. x ∷ zs) (take-drop n xs)

  pub drop-drop : (m n : ℕ) (xs : List A) → drop m (drop n xs) ≡ drop (n + m) xs
  unfolding drop
  drop-drop m zero xs = let e : 0 + m ≡ m = omega arith in rw e refl
  drop-drop m (suc n) [] = let e : suc n + m ≡ suc (n + m) = omega arith in rw e (drop-nil m)
    where
      drop-nil : (m : ℕ) → drop {A = A} m [] ≡ []
      drop-nil zero = refl
      drop-nil (suc m) = refl
  drop-drop m (suc n) (x ∷ xs) =
      let e : suc n + m ≡ suc (n + m) = omega arith in rw e (drop-drop m n xs)

-- A slice that is one of three parts, and that part replaced.
pub slice-append :
    (off len : ℕ) (xs ys zs : List ℕ)
    → off ≡ length xs
    → len ≡ length ys
    → slice off len (xs ++ (ys ++ zs)) ≡ ys
unfolding slice
slice-append off len xs ys zs p q = rw (drop-append off xs (ys ++ zs) p) (take-append len ys zs q)

pub splice-append :
    (off : ℕ) (new xs ys zs : List ℕ)
    → off ≡ length xs
    → length new ≡ length ys
    → splice off new (xs ++ (ys ++ zs)) ≡ xs ++ (new ++ zs)
unfolding splice
splice-append off new xs ys zs p q = rw (take-append off xs (ys ++ zs) p) (
    ap (λ r. xs ++ (new ++ r))
      (sym (drop-drop (length new) off (xs ++ (ys ++ zs)))
        ∙ ap (drop (length new)) (drop-append off xs (ys ++ zs) p)
        ∙ drop-append (length new) ys zs q))

-- The three parts of a list around a range in it.
pub parts :
    (off len : ℕ) (bytes : List ℕ)
    → take off bytes ++ (slice off len bytes ++ drop (off + len) bytes) ≡ bytes
unfolding slice
parts off len bytes =
    rw (← drop-drop len off bytes) rw (take-drop len (drop off bytes)) (take-drop off bytes)

pub length-slice :
    (off len : ℕ) (bytes : List ℕ) → off + len ≤ length bytes → length (slice off len bytes) ≡ len
unfolding slice
length-slice off len bytes h =
    length-take len (drop off bytes) (omega (arith, length-drop off bytes))

pub length-splice :
    (off : ℕ) (new bytes : List ℕ)
    → off + length new ≤ length bytes
    → length (splice off new bytes) ≡ length bytes
unfolding splice
length-splice off new bytes h = omega (
  arith,
  length-append (take off bytes) (new ++ drop (off + length new) bytes),
  length-append new (drop (off + length new) bytes),
  length-take off bytes (omega arith),
  length-drop (off + length new) bytes,
)

-- What was written is read back.
pub slice-splice :
    (off : ℕ) (new bytes : List ℕ)
    → off ≤ length bytes
    → slice off (length new) (splice off new bytes) ≡ new
unfolding splice
slice-splice off new bytes h =
    slice-append off (length new) (take off bytes) new (drop (off + length new) bytes)
      (sym (length-take off bytes h)) refl

-- `vec![0u8; n]`, shut, since `n` may be large
pub zeros : ℕ → List ℕ
zeros zero = []
zeros (suc n) = 0 ∷ zeros n

pub length-zeros : (n : ℕ) → length (zeros n) ≡ n
unfolding zeros
length-zeros zero = refl
length-zeros (suc n) = omega (arith, length-zeros n)

pub drop-zeros : (m n : ℕ) → drop m (zeros n) ≡ zeros (n - m)
unfolding drop zeros
drop-zeros zero n = let e : n - 0 ≡ n = omega arith in rw e refl
drop-zeros (suc m) zero = let e : 0 - suc m ≡ 0 = omega arith in rw e refl
drop-zeros (suc m) (suc n) = let e : suc n - suc m ≡ n - m = omega arith in rw e (drop-zeros m n)

pub take-zeros : (m n : ℕ) → m ≤ n → take m (zeros n) ≡ zeros m
unfolding take zeros
take-zeros zero n h = refl
take-zeros (suc m) zero h = absurd (omega arith)
take-zeros (suc m) (suc n) h = ap (λ r. 0 ∷ r) (take-zeros m n (omega arith))

pub slice-zeros : (off len n : ℕ) → off + len ≤ n → slice off len (zeros n) ≡ zeros len
unfolding slice
slice-zeros off len n h = rw (drop-zeros off n) (take-zeros len (n - off) (omega arith))

-- ===== src/Bytes/Reader.antt =====
-- Fields read one after another from a slice, as the decoders' `take::<N>(block, &mut p)` does.
use corefs.Common.{ℕ, ◌≡◌, ◌<◌, sym, ap, ◌∙◌, List, ◌++◌, length}
use corefs.Bytes.{
  word, to_le, from_le, take, drop, from_le-to_le, length-to_le, take-append, drop-append,
}

abbrev pub Reader : Type 0 → Type 0
Reader A = List ℕ → A × List ℕ

infixl 5 ◌>>=◌
abbrev pub ◌>>=◌ : {A B : Type 0} → Reader A → (A → Reader B) → Reader B
◌>>=◌ m f bytes = let (a, rest) = m bytes in f a rest

abbrev pub pure : {A : Type 0} → A → Reader A
pure a bytes = (a, bytes)

-- `take::<k>`
unfoldable pub raw : ℕ → Reader (List ℕ)
raw k bytes = (take k bytes, drop k bytes)

-- `from_le_bytes(take::<k>(..))`
unfoldable pub number : ℕ → Reader ℕ
number k bytes = (from_le (take k bytes), drop k bytes)

pub raw-append :
    (k : ℕ) (bytes rest : List ℕ) → k ≡ length bytes → raw k (bytes ++ rest) ≡ (bytes, rest)
unfolding raw
raw-append k bytes rest e = λ i. (take-append k bytes rest e i, drop-append k bytes rest e i)

pub number-to_le : (k n : ℕ) (rest : List ℕ) → n < word k → number k (to_le k n ++ rest) ≡ (n, rest)
unfolding number
number-to_le k n rest h =
    let k_long : k ≡ length (to_le k n) = sym (length-to_le k n) in
    λ i. (
      (ap from_le (take-append k (to_le k n) rest k_long) ∙ from_le-to_le k n h) i,
      drop-append k (to_le k n) rest k_long i,
    )

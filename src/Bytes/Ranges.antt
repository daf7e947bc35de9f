-- ===== src/Bytes/Ranges.antt =====
-- A range read after a write elsewhere.
use corefs.Common.{
  ℕ, zero, suc, ◌+◌, ◌-◌, ◌≤◌, ◌<◌, ◌≡◌, refl, sym, ap, ◌∙◌, inl, inr, List, [], ◌∷◌, ◌++◌, length,
  get_or, ltb, Bool-cases, list_ext, arith,
}
use corefs.Bytes.{take, drop, slice, splice, length-take, length-slice, length-splice}

pub get_or-past : (xs : List ℕ) (i : ℕ) → length xs ≤ i → get_or xs i 0 ≡ 0
get_or-past [] i h = refl
get_or-past (x ∷ xs) zero h = absurd (omega arith)
get_or-past (x ∷ xs) (suc i) h = get_or-past xs i (omega arith)

get_or-take : (n i : ℕ) (xs : List ℕ) → i < n → get_or (take n xs) i 0 ≡ get_or xs i 0
unfolding take
get_or-take zero i xs h = absurd (omega arith)
get_or-take (suc n) i [] h = refl
get_or-take (suc n) zero (x ∷ xs) h = refl
get_or-take (suc n) (suc i) (x ∷ xs) h = get_or-take n i xs (omega arith)

get_or-drop : (n i : ℕ) (xs : List ℕ) → get_or (drop n xs) i 0 ≡ get_or xs (n + i) 0
unfolding drop
get_or-drop zero i xs = let e : 0 + i ≡ i = omega arith in rw e refl
get_or-drop (suc n) i [] = refl
get_or-drop (suc n) i (x ∷ xs) =
    let e : suc n + i ≡ suc (n + i) = omega arith in rw e (get_or-drop n i xs)

get_or-before : (xs ys : List ℕ) (i : ℕ) → i < length xs → get_or (xs ++ ys) i 0 ≡ get_or xs i 0
get_or-before [] ys i h = absurd (omega arith)
get_or-before (x ∷ xs) ys zero h = refl
get_or-before (x ∷ xs) ys (suc i) h = get_or-before xs ys i (omega arith)

get_or-behind :
    (xs ys : List ℕ) (i : ℕ) → length xs ≤ i → get_or (xs ++ ys) i 0 ≡ get_or ys (i - length xs) 0
get_or-behind [] ys i h = let e : i - 0 ≡ i = omega arith in rw e refl
get_or-behind (x ∷ xs) ys zero h = absurd (omega arith)
get_or-behind (x ∷ xs) ys (suc i) h =
    let e : suc i - suc (length xs) ≡ i - length xs = omega arith in
    rw e (get_or-behind xs ys i (omega arith))

pub get_or-slice :
    (off len i : ℕ) (bytes : List ℕ)
    → i < len
    → get_or (slice off len bytes) i 0 ≡ get_or bytes (off + i) 0
unfolding slice
get_or-slice off len i bytes h = get_or-take len i (drop off bytes) h ∙ get_or-drop off i bytes

module _ (off : ℕ) (new bytes : List ℕ) (fit : off + length new ≤ length bytes) where
  get_or-splice_before : (i : ℕ) → i < off → get_or (splice off new bytes) i 0 ≡ get_or bytes i 0
  unfolding splice
  get_or-splice_before i h =
      get_or-before (take off bytes) (new ++ drop (off + length new) bytes) i
        (omega (arith, length-take off bytes (omega arith)))
      ∙ get_or-take off i bytes h

  get_or-splice_behind :
      (i : ℕ) → off + length new ≤ i → get_or (splice off new bytes) i 0 ≡ get_or bytes i 0
  unfolding splice
  get_or-splice_behind i h =
      let before : length (take off bytes) ≡ off = length-take off bytes (omega arith) in
      let index : off + length new + (i - off - length new) ≡ i = omega arith in
      get_or-behind (take off bytes) (new ++ drop (off + length new) bytes) i
        (omega (arith, before))
      ∙ ap (λ n. get_or (new ++ drop (off + length new) bytes) (i - n) 0) before
      ∙ get_or-behind new (drop (off + length new) bytes) (i - off) (omega arith)
      ∙ get_or-drop (off + length new) (i - off - length new) bytes
      ∙ ap (λ n. get_or bytes n 0) index

  same_slice :
      (at len : ℕ)
      → at + len ≤ length bytes
      → ((i : ℕ) → at ≤ i → i < at + len → get_or (splice off new bytes) i 0 ≡ get_or bytes i 0)
      → slice at len (splice off new bytes) ≡ slice at len bytes
  same_slice at len inside same =
      list_ext (slice at len (splice off new bytes)) (slice at len bytes) 0 (before ∙ sym after)
        each
    where
      before : length (slice at len (splice off new bytes)) ≡ len
      before = length-slice at len _ (omega (arith, length-splice off new bytes fit))

      after : length (slice at len bytes) ≡ len
      after = length-slice at len bytes inside

      each :
          (i : ℕ)
          → get_or (slice at len (splice off new bytes)) i 0 ≡ get_or (slice at len bytes) i 0
      each i = elim (Bool-cases (ltb i len)) [
        | inl e ↦
            get_or-slice at len i (splice off new bytes) (ground arith)
            ∙ same (at + i) (omega arith) (ground arith)
            ∙ sym (get_or-slice at len i bytes (ground arith))
        | inr e ↦
            get_or-past (slice at len (splice off new bytes)) i (ground (arith, before))
            ∙ sym (get_or-past (slice at len bytes) i (ground (arith, after)))
      ]

  -- A range before the write.
  pub slice-splice_before :
      (at len : ℕ) → at + len ≤ off → slice at len (splice off new bytes) ≡ slice at len bytes
  slice-splice_before at len h =
      same_slice at len (omega arith) λ i p q. get_or-splice_before i (omega arith)

  -- A range behind the write.
  pub slice-splice_behind :
      (at len : ℕ)
      → off + length new ≤ at
      → at + len ≤ length bytes
      → slice at len (splice off new bytes) ≡ slice at len bytes
  slice-splice_behind at len h inside =
      same_slice at len inside λ i p q. get_or-splice_behind i (omega arith)

-- ===== src/Bytes/Nested.antt =====
-- A range inside a range.
use mathlib.Core.List.{append_assoc}
use corefs.Common.{
  ℕ, zero, suc, ◌+◌, ◌-◌, ◌≤◌, ◌≡◌, refl, sym, ap, ◌∙◌, inl, inr, List, [], ◌∷◌, ◌++◌, length,
  get_or, ltb, Bool-cases, list_ext, length-append, arith,
}
use corefs.Bytes.{
  take, drop, slice, splice, parts, length-take, length-slice, length-splice, splice-append,
  drop-drop, slice-splice,
}
use corefs.Bytes.Ranges.{get_or-slice, get_or-past, slice-splice_before}

module _ (at off len size : ℕ) (bytes : List ℕ) (before : at ≤ off) (behind : off + len ≤ at + size)
    (fit : at + size ≤ length bytes) where
  pub slice-slice : slice (off - at) len (slice at size bytes) ≡ slice off len bytes
  slice-slice = list_ext inner outer 0 (inner_long ∙ sym outer_long) each
    where
      inner : List ℕ
      inner = slice (off - at) len (slice at size bytes)

      outer : List ℕ
      outer = slice off len bytes

      inner_long : length inner ≡ len
      inner_long =
          length-slice (off - at) len (slice at size bytes)
            (omega (arith, before, behind, length-slice at size bytes fit))

      outer_long : length outer ≡ len
      outer_long = length-slice off len bytes (omega (arith, behind, fit))

      each : (i : ℕ) → get_or inner i 0 ≡ get_or outer i 0
      each i = elim (Bool-cases (ltb i len)) [
        | inl e ↦
            get_or-slice (off - at) len i (slice at size bytes) (ground arith)
            ∙ get_or-slice at size (off - at + i) bytes (ground (arith, before, behind))
            ∙ ap (λ k. get_or bytes k 0) (omega (arith, before))
            ∙ sym (get_or-slice off len i bytes (ground arith))
        | inr e ↦
            get_or-past inner i (ground (arith, inner_long))
            ∙ sym (get_or-past outer i (ground (arith, outer_long)))
      ]

module _ (at off size : ℕ) (new bytes : List ℕ) (before : at ≤ off)
    (behind : off + length new ≤ at + size) (fit : at + size ≤ length bytes) where
  -- Reading a range around, replacing a part of it and writing it back replaces that part.
  pub splice-splice :
      splice at (splice (off - at) new (slice at size bytes)) bytes ≡ splice off new bytes
  splice-splice =
      ap (splice at (splice y new m)) (sym (parts at size bytes))
      ∙ splice-append at (splice y new m) p m q p_long
          (length-splice y new m (omega (arith, before, behind, m_long)))
      ∙ assoc
      ∙ sym (
          ap (splice off new) whole
          ∙ splice-append off new (p ++ take y m) (slice y (length new) m)
              (drop (y + length new) m ++ q) front middle)
    where
      y : ℕ
      y = off - at

      p : List ℕ
      p = take at bytes

      m : List ℕ
      m = slice at size bytes

      q : List ℕ
      q = drop (at + size) bytes

      m_long : length m ≡ size
      m_long = length-slice at size bytes fit

      p_long : at ≡ length p
      p_long = sym (length-take at bytes (omega (arith, fit)))

      front : off ≡ length (p ++ take y m)
      front = omega (
        arith,
        before,
        behind,
        p_long,
        m_long,
        length-append p (take y m),
        length-take y m (omega (arith, before, behind, m_long)),
      )

      middle : length new ≡ length (slice y (length new) m)
      middle = sym (length-slice y (length new) m (omega (arith, before, behind, m_long)))

      assoc :
          p ++ (splice y new m ++ q) ≡ (p ++ take y m) ++ (new ++ (drop (y + length new) m ++ q))
      assoc = unfold splice in simp append_assoc

      whole : bytes ≡ (p ++ take y m) ++ (slice y (length new) m ++ (drop (y + length new) m ++ q))
      whole =
          sym (parts at size bytes)
          ∙ ap (λ k. p ++ (k ++ q)) (sym (parts y (length new) m))
          ∙ simp append_assoc

take-add : (m n : ℕ) (xs : List ℕ) → take (m + n) xs ≡ take m xs ++ take n (drop m xs)
unfolding take drop
take-add zero n xs = let same : 0 + n ≡ n = omega arith in rw same refl
take-add (suc m) n [] = none (suc m + n) ∙ sym (none n)
  where
    none : (k : ℕ) → take {A = ℕ} k [] ≡ []
    none zero = refl
    none (suc k) = refl
take-add (suc m) n (x ∷ xs) =
    let same : suc m + n ≡ suc (m + n) = omega arith in
    rw same (ap (λ ys. x ∷ ys) (take-add m n xs))

-- Two ranges that stand next to each other.
pub slice-add :
    (off m n : ℕ) (bytes : List ℕ)
    → slice off (m + n) bytes ≡ slice off m bytes ++ slice (off + m) n bytes
unfolding slice
slice-add off m n bytes =
    take-add m n (drop off bytes)
    ∙ ap (λ r. take m (drop off bytes) ++ take n r) (drop-drop m off bytes)

-- What is written behind a range makes it longer.
pub slice-splice_next :
    (off n : ℕ) (new bytes : List ℕ)
    → off + n + length new ≤ length bytes
    → slice off (n + length new) (splice (off + n) new bytes) ≡ slice off n bytes ++ new
slice-splice_next off n new bytes h =
    slice-add off n (length new) (splice (off + n) new bytes)
    ∙ rw (slice-splice_before (off + n) new bytes h off n (omega arith))
        (ap (λ r. slice off n bytes ++ r) (slice-splice (off + n) new bytes (omega (arith, h))))

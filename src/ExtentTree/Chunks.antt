-- ===== src/ExtentTree/Chunks.antt =====
-- The extents of the index blocks, one after another, are the extents.
use corefs.Common.{
  ℕ, ◌+◌, ◌-◌, ◌≤◌, ◌≡◌, sym, ap, ◌∙◌, min, inl, inr, Bool-cases, leb, List, ◌++◌, length, arith,
}
use corefs.Bytes.{take, drop, take-drop, drop-drop}
use corefs.Bytes.Records.{All, All-take, All-drop, length-drop, length-take_le, drop-past}
use corefs.Extent.{Extent}
use corefs.Extent.Bytes.{FitsExtent}
use corefs.ExtentTree.Chain.{extents_between}

module _ (start : ℕ) (xs : List Extent) where
  abbrev chunk : List Extent
  chunk = extents_between start (min (start + 254) (length xs)) xs

  pub length-chunk : length chunk ≤ 254
  unfolding extents_between
  length-chunk =
      omega (arith, length-take_le (min (start + 254) (length xs) - start) (drop start xs))

  pub All-chunk : All FitsExtent xs → All FitsExtent chunk
  unfolding extents_between
  All-chunk h =
      All-take FitsExtent (min (start + 254) (length xs) - start) (drop start xs)
        (All-drop FitsExtent start xs h)

  -- A chunk and what follows it.
  pub chunk-drop : chunk ++ drop (start + 254) xs ≡ drop start xs
  unfolding extents_between
  chunk-drop = elim (Bool-cases (leb (start + 254) (length xs))) [
    | inl e ↦
        let whole : min (start + 254) (length xs) - start ≡ 254 = ground arith in
        rw whole (
          ap (λ ys. take 254 (drop start xs) ++ ys) (sym (drop-drop 254 start xs))
          ∙ take-drop 254 (drop start xs))
    | inr e ↦
        let rest : min (start + 254) (length xs) - start ≡ length xs - start = ground arith in
        rw rest (
          ap (λ ys. take (length xs - start) (drop start xs) ++ ys)
            (drop-past (start + 254) xs (ground arith)
              ∙ sym (
                  drop-past (length xs - start) (drop start xs)
                    (omega (arith, length-drop start xs))))
          ∙ take-drop (length xs - start) (drop start xs))
  ]

-- ===== src/DirEntry/Pack.antt =====
-- Packing keeps every entry, in order, in blocks that can be encoded.
use mathlib.Core.List.{append_assoc, append-nil}
use corefs.Common.{
  ℕ, ◌+◌, ◌≤◌, ◌<◌, ◌≡◌, refl, sym, ap, ◌∙◌, inl, inr, Bool-cases, List, [], ◌∷◌, ◌++◌, ltb, ok,
  length, length-append, arith,
}
use corefs.Bytes.Records.{All}
use corefs.DirEntry.{DirEntry}
use corefs.DirEntry.Entry.{FitsEntry, rec_len, encoded_len-ok, rec_len_bounds}
use corefs.DirEntry.Codec.{total}
use corefs.DirEntry.Blocks.{DirBlock, pack_from, blocks_needed_from}

-- The entries of all blocks, in order
unfoldable pub all_entries : List DirBlock → List DirEntry
all_entries [] = []
all_entries (b ∷ bs) = b.entries ++ all_entries bs

-- A block whose entries can be encoded, and that ends a chain.
pub record Fits (b : DirBlock) : Type 0 where
  pub entries : total b.entries ≤ 4076
  pub terminal : b.next_dir_block ≡ 0

all_entries-append :
    (xs ys : List DirBlock) → all_entries (xs ++ ys) ≡ all_entries xs ++ all_entries ys
unfolding all_entries
all_entries-append [] ys = refl
all_entries-append (b ∷ bs) ys = rw (all_entries-append bs ys) simp append_assoc

All-append : (xs ys : List DirBlock) → All Fits xs → All Fits ys → All Fits (xs ++ ys)
All-append [] ys h k = k
All-append (x ∷ xs) ys h k = (h.0, All-append xs ys h.1 k)

total-append : (xs ys : List DirEntry) → total (xs ++ ys) ≡ total xs + total ys
unfolding total
total-append [] ys = omega arith
total-append (x ∷ xs) ys = omega (arith, total-append xs ys)

abbrev block : List DirEntry → DirBlock
block entries = record { next_dir_block = 0; entries = entries }

-- What the loop makes of the finished blocks, the current entries and the entries to come.
pub record Loop (blocks : List DirBlock) (current es : List DirEntry) (out : List DirBlock)
    : Type 0 where
  pub kept : all_entries out ≡ all_entries blocks ++ (current ++ es)
  pub fit : All Fits out
  pub some_block : 0 < length out

-- One more finished block, whose entries fit.
flushed :
    (blocks : List DirBlock) (current : List DirEntry)
    → All Fits blocks
    → total current ≤ 4076
    → All Fits (blocks ++ block current ∷ [])
flushed blocks current fit small =
    All-append blocks (block current ∷ []) fit (record { entries = small; terminal = refl }, tt)

all_entries-flushed :
    (blocks : List DirBlock) (current : List DirEntry)
    → all_entries (blocks ++ block current ∷ []) ≡ all_entries blocks ++ current
unfolding all_entries
all_entries-flushed blocks current =
    all_entries-append blocks (block current ∷ [])
    ∙ ap (λ k. all_entries blocks ++ k) (append-nil current)

abbrev Packs : List DirBlock → List DirEntry → ℕ → List DirEntry → Type 0
Packs blocks current used es =
    (out : List DirBlock) × (pack_from blocks current used es ≡ ok out)
    × (blocks_needed_from (length blocks + 1) used es ≡ ok (length out))
    × Loop blocks current es out

pub pack_from_lem :
    (blocks : List DirBlock) (current : List DirEntry) (used : ℕ) (es : List DirEntry)
    → All FitsEntry es
    → All Fits blocks
    → total current ≡ used
    → used ≤ 4076
    → Packs blocks current used es
unfolding pack_from blocks_needed_from total
pack_from_lem blocks current used [] v fit sum small = (
  blocks ++ block current ∷ [],
  refl,
  ap ok (sym (length-append blocks (block current ∷ []))),
  record {
    kept =
        all_entries-flushed blocks current
        ∙ ap (λ k. all_entries blocks ++ k) (sym (append-nil current));
    fit = flushed blocks current fit (omega (arith, sum, small));
    some_block = omega (arith, length-append blocks (block current ∷ []));
  },
)
pack_from_lem blocks current used (e ∷ es) v fit sum small =
    let (wide, short, whole) = rec_len_bounds e v.0 in
    elim (Bool-cases (ltb 4076 (used + rec_len e))) [
      | inl over ↦
          let done = blocks ++ block current ∷ [] in
          let (out, packs, needs, loop) =
            pack_from_lem done (e ∷ []) (0 + rec_len e) es v.1
              (flushed blocks current fit (omega (arith, sum, small))) (omega arith)
              (omega (arith, short)) in
          (
            out,
            rw (encoded_len-ok e v.0, pack_from) rw over packs,
            rw (encoded_len-ok e v.0, blocks_needed_from) rw over
                (ap (λ n. blocks_needed_from (n + 1) (0 + rec_len e) es)
                    (sym (length-append blocks (block current ∷ [])))
                  ∙ needs),
            record {
              kept =
                  loop.kept
                  ∙ ap (λ k. k ++ (e ∷ es)) (all_entries-flushed blocks current)
                  ∙ append_assoc (all_entries blocks) current (e ∷ es);
              fit = loop.fit;
              some_block = loop.some_block;
            },
          )
      | inr under ↦
          let (out, packs, needs, loop) =
            pack_from_lem blocks (current ++ e ∷ []) (used + rec_len e) es v.1 fit
              (omega (arith, sum, total-append current (e ∷ []))) (ground arith) in
          (
            out,
            rw (encoded_len-ok e v.0, pack_from) rw under packs,
            rw (encoded_len-ok e v.0, blocks_needed_from) rw under needs,
            record {
              kept =
                  loop.kept ∙ ap (λ k. all_entries blocks ++ k) (append_assoc current (e ∷ []) es);
              fit = loop.fit;
              some_block = loop.some_block;
            },
          )
    ]

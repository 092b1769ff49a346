-- ===== src/Cdx/Scan.antt =====
-- `parse_cdx`: the scan reports the tags of the blocks 1 to total - 1 and no others, and what the
-- result says of them holds.
use mathlib.Core.Path.{subst}
use mcp_vfp9sp2_toolchain.Base.{
  ℕ, Bool-cases, zero, suc, ◌+◌, ◌-◌, ◌*◌, ◌/◌, ◌≤◌, ◌<◌, ◌≡◌, ◌≢◌, ◌⊎◌, inl, inr, refl, true,
  false, none, some, List, [], ◌∷◌, arith, length, Option-cases, ltb, Bool, if◌then◌else◌,
}
use mcp_vfp9sp2_toolchain.Base.Text.{Text, codes, text_eq, Casing}
use mcp_vfp9sp2_toolchain.Base.OsPath.{Platform}
use mcp_vfp9sp2_toolchain.Cdx.{
  Bytes, block_size, Tag, idx_tag, bytes, Parsed, ParseResult, parsed, too_small, no_descriptors,
  structural_pure_python, structural_pure_python_idx, describe, parse_tag_descriptor, scan_blocks,
  parse_cdx,
}

-- The tags come from blocks of strictly rising number, from `low` on and below `high`, and every
-- block passed over holds no descriptor.
pub data Scanned (content : Bytes) (total high : ℕ) : ℕ → List Tag → Type 0 where
  stop : {low : ℕ} → high ≤ low → Scanned content total high low []
  skip :
      {low : ℕ} {tags : List Tag}
      → low < high
      → parse_tag_descriptor content low total ≡ none
      → Scanned content total high (low + 1) tags
      → Scanned content total high low tags
  found :
      {low : ℕ} {t : Tag} {tags : List Tag}
      → low < high
      → parse_tag_descriptor content low total ≡ some t
      → Scanned content total high (low + 1) tags
      → Scanned content total high low (t ∷ tags)

scan_blocks-Scanned :
    (content : Bytes) (total rounds block : ℕ)
    → Scanned content total (block + rounds) block (scan_blocks content total rounds block)
unfolding scan_blocks
scan_blocks-Scanned content total zero block = stop (omega arith)
scan_blocks-Scanned content total (suc rounds) block =
    let end_at : block + 1 + rounds ≡ block + suc rounds = omega arith in
    let rest = rw end_at at (scan_blocks-Scanned content total rounds (block + 1)) in
    elim (Option-cases (parse_tag_descriptor content block total)) [
      | inl miss ↦ rw (miss, scan_blocks) (skip (omega arith) miss rest)
      | inr (t, hit) ↦ rw (hit, scan_blocks) (found (omega arith) hit rest)
    ]

-- A scan has one result.
Scanned-unique :
    {content : Bytes} {total high low : ℕ} {tags others : List Tag}
    → Scanned content total high low tags
    → Scanned content total high low others
    → tags ≡ others
Scanned-unique (stop h) (stop k) = refl
Scanned-unique (stop h) (skip k _ _) = absurd (omega arith)
Scanned-unique (stop h) (found k _ _) = absurd (omega arith)
Scanned-unique (skip h _ _) (stop k) = absurd (omega arith)
Scanned-unique (skip h e r) (skip k f s) = Scanned-unique r s
Scanned-unique (skip h e r) (found k f s) = cc
Scanned-unique (found h _ _) (stop k) = absurd (omega arith)
Scanned-unique (found h e r) (skip k f s) = cc
Scanned-unique (found h e r) (found k f s) = cc (Scanned-unique r s)

-- The bounds of `range(1, total_blocks)`.
scan_all :
    (content : Bytes) (total : ℕ)
    → 0 < total
    → Scanned content total total 1 (scan_blocks content total (total - 1) 1)
scan_all content total h =
    let end_at : 1 + (total - 1) ≡ total = omega arith in
    rw end_at at (scan_blocks-Scanned content total (total - 1) 1)

parsed-injective : (p q : Parsed) → parsed p ≡ parsed q → p ≡ q
parsed-injective p q h = cc

module _ (os : Platform) (casing : Casing) where
  -- What a successful result says: the tags are counted, the blocks are the whole ones of the
  -- file, and the tags are those of a scan of the blocks from 1 on, or the one implicit tag of an
  -- .idx file whose scan found none.
  pub record IsReport (path : Text) (content : Bytes) (p : Parsed) : Type 0 where
    pub big_enough : block_size ≤ length content
    pub size_is : p.size_bytes ≡ length content
    pub blocks_fit : p.total_blocks * block_size ≤ length content
    pub blocks_all : length content < (p.total_blocks + 1) * block_size
    pub count_is : p.tag_count ≡ length p.tags
    pub not_empty : 0 < p.tag_count
    pub compound_is : p.is_compound ≡ ltb 1 p.tag_count
    pub tags_from :
        ((p.reader ≡ structural_pure_python)
          × Scanned content p.total_blocks p.total_blocks 1 p.tags)
        ⊎ ((p.reader ≡ structural_pure_python_idx)
            × Scanned content p.total_blocks p.total_blocks 1 []
            × (text_eq (casing.lower (os.splitext path).1) (codes ".idx") ≡ true)
            × (p.tags ≡ idx_tag (os.splitext (os.basename path)).0 ∷ []))

  describe-IsReport :
      (path : Text) (content : Bytes) (tags : List Tag) {p : Parsed}
      → block_size ≤ length content
      → Scanned content (length content / block_size) (length content / block_size) 1 tags
      → describe os casing path content tags ≡ parsed p
      → IsReport path content p
  unfolding describe
  describe-IsReport path content [] big scan h =
      elim (Bool-cases (text_eq (casing.lower (os.splitext path).1) (codes ".idx"))) [
        | inl idx ↦ subst (IsReport path content) (parsed-injective _ _ (rw idx at h)) (record {
          big_enough = big;
          size_is = refl;
          blocks_fit = omega arith;
          blocks_all = omega arith;
          count_is = refl;
          not_empty = omega arith;
          compound_is = refl;
          tags_from = inr (refl, scan, idx, refl);
        })
        | inr other ↦ cc (rw other at h)
      ]
  describe-IsReport path content (t ∷ tags) big scan h =
      subst (IsReport path content) (parsed-injective _ _ h) (record {
        big_enough = big;
        size_is = refl;
        blocks_fit = omega arith;
        blocks_all = omega arith;
        count_is = refl;
        not_empty = omega arith;
        compound_is = refl;
        tags_from = inl (refl, scan);
      })

  -- Every successful result of `parse_cdx` on a readable file has the size of the file and the number
  -- of its whole blocks, and counts its tags, of which there is one at least: these are what a scan of
  -- the blocks from 1 on finds or, in an .idx file whose scan finds none, the one implicit tag.
  pub parse_cdx-IsReport :
      (path : Text) (content : Bytes) {p : Parsed}
      → parse_cdx os casing path (bytes content) ≡ parsed p
      → IsReport path content p
  unfolding parse_cdx
  parse_cdx-IsReport path content h = elim (Bool-cases (ltb (length content) block_size)) [
    | inl small ↦ cc (rw small at h)
    | inr big ↦
        let fits : block_size ≤ length content = ground arith in
        let some_block : 0 < length content / block_size = omega arith in
        describe-IsReport path content _ fits (scan_all content _ some_block) (rw big at h)
  ]

  not_parsed :
      (b : Bool) (p : Parsed) (refusal : ParseResult)
      → ((q : Parsed) → (if b then parsed p else refusal) ≢ parsed q)
      → (b ≡ false) × ((if b then parsed p else refusal) ≡ refusal)
  not_parsed true p refusal h = absurd (h p refl)
  not_parsed false p refusal h = (refl, refl)

  describe-refuses :
      (path : Text) (content : Bytes) (tags : List Tag)
      → ((p : Parsed) → describe os casing path content tags ≢ parsed p)
      → (tags ≡ [])
        × (text_eq (casing.lower (os.splitext path).1) (codes ".idx") ≡ false)
        × (describe os casing path content tags
            ≡ no_descriptors (os.basename path) (length content) (length content / block_size))
  unfolding describe
  describe-refuses path content (t ∷ tags) h = absurd (h _ refl)
  describe-refuses path content [] h = let (other, e) = not_parsed _ _ _ h in (refl, other, e)

  -- A file that can be read and is not reported is either smaller than a block, or the scan of its
  -- blocks finds no descriptor and its extension is not .idx. The refusal says which, with the size
  -- and the number of blocks.
  parse_cdx_refuses :
      (path : Text) (content : Bytes)
      → ((p : Parsed) → parse_cdx os casing path (bytes content) ≢ parsed p)
      → ((length content < block_size)
          × (parse_cdx os casing path (bytes content)
              ≡ too_small (os.basename path) (length content)))
        ⊎ ((block_size ≤ length content)
            × Scanned content (length content / block_size) (length content / block_size) 1 []
            × (text_eq (casing.lower (os.splitext path).1) (codes ".idx") ≡ false)
            × (parse_cdx os casing path (bytes content)
                ≡ no_descriptors (os.basename path) (length content) (length content / block_size)))
  unfolding parse_cdx
  parse_cdx_refuses path content h = elim (Bool-cases (ltb (length content) block_size)) [
    | inl small ↦ inl (ground arith, rw small refl)
    | inr big ↦
        let fits : block_size ≤ length content = ground arith in
        let scan = scan_all content (length content / block_size) (omega arith) in
        let (empty, other, e) = describe-refuses path content _ (λ p k. h p (rw big k)) in
        inr (fits, rw empty at scan, other, rw big e)
  ]

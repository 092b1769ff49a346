-- ===== src/Cdx/Unreachable.antt =====
-- The test of `_parse_tag_descriptor` for readable text covers the bytes 10 to 19 of the block,
-- so also the sort byte, the type byte and the four bytes of the root block number.
use mcp_vfp9sp2_toolchain.Base.{
  ℕ, ap, sym, ◌∙◌, ◌+◌, ◌*◌, ◌≤◌, ◌<◌, ◌≡◌, ◌≢◌, ◌⊎◌, ◌↔◌, true, false, none, some, arith, length,
}
use mcp_vfp9sp2_toolchain.Cdx.{
  Bytes, block_size, byte_at, is_readable, has_bit, valid_type, Tag, descending, sql_unique,
  sql_index, sort_order_of, tag_type_of, parse_tag_descriptor,
}
use mcp_vfp9sp2_toolchain.Cdx.Descriptor.{IsDescriptor, parse_tag_descriptor-IsDescriptor}
use mcp_vfp9sp2_toolchain.Cdx.Slices.{any-slice, any-slice_false}

-- A block that lies in the file and has a printable byte among its bytes 10 to 19 (sort byte, type
-- byte, root block number and the four bytes behind it) is never reported as a tag descriptor.
parse_tag_descriptor_readable :
    (content : Bytes) (block_index total_blocks i : ℕ)
    → block_index * block_size + block_size ≤ length content
    → i < 10
    → is_readable (byte_at content (block_index * block_size + 10 + i)) ≡ true
    → parse_tag_descriptor content block_index total_blocks ≡ none
unfolding parse_tag_descriptor
parse_tag_descriptor_readable content k total i fits small hit =
    rw (any-slice is_readable 10 (k * 512 + 10) i content small (omega arith) hit) (ground arith)

-- A reported tag's byte at `i` behind the name is no printable character.
quiet_byte :
    {content : Bytes} {block total : ℕ} {t : Tag} (d : IsDescriptor content block total t) (i : ℕ)
    → i < 10
    → is_readable (byte_at content (block * block_size + 10 + i)) ≡ false
quiet_byte {content} {block} d i small =
    let inside = d.in_file in
    any-slice_false is_readable 10 (block * 512 + 10) i content small (omega arith) d.no_text

-- What the known type bytes that are not printable mean.
plain_type :
    (b : ℕ)
    → valid_type b ≡ true
    → is_readable b ≡ false
    → (has_bit b 0x20 ≡ false) × (tag_type_of b ≢ sql_unique) × (tag_type_of b ≢ sql_index)
unfolding tag_type_of
plain_type b known quiet = ground arith

order_of_sort :
    (sort_byte type_byte : ℕ)
    → has_bit type_byte 0x20 ≡ false
    → (sort_order_of sort_byte type_byte ≡ descending) ↔ ((sort_byte ≡ 1) ⊎ (sort_byte ≡ 2))
unfolding sort_order_of
order_of_sort s t h = ground arith

-- No reported tag has an SQL type, and a reported tag is descending exactly when its sort byte is
-- 1 or 2: the type bytes 0x20, 0x29, 0x2a and 0x30 are printable, so the text test refuses them.
parse_tag_descriptor_plain_type :
    (content : Bytes) (block total : ℕ) {t : Tag}
    → parse_tag_descriptor content block total ≡ some t
    → (t.type ≢ sql_unique)
      × (t.type ≢ sql_index)
      × ((t.sort_order ≡ descending) ↔ (
          (byte_at content (block * block_size + 10) ≡ 1)
          ⊎ (byte_at content (block * block_size + 10) ≡ 2)))
parse_tag_descriptor_plain_type content block total {t} h =
    let d = parse_tag_descriptor-IsDescriptor content block total h in
    let there : block * block_size + 10 + 1 ≡ block * block_size + 11 = omega arith in
    let at11 = ap (byte_at content) there ∙ sym d.type_is in
    let quiet = rw at11 at (quiet_byte d 1 (omega arith)) in
    let (flag, no_unique, no_index) = plain_type t.type_byte d.type_valid quiet in
    (rw d.kind_is no_unique, rw d.kind_is no_index, rw d.order_is (order_of_sort _ _ flag))

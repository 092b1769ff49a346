-- ===== src/Cdx/Descriptor.antt =====
-- What `_parse_tag_descriptor` has checked of a block that it reports.
use mathlib.Core.Option.{some-injective}
use mcp_vfp9sp2_toolchain.Base.{
  ◌+◌, ◌*◌, ◌≤◌, ◌<◌, ◌≡◌, ◌⊎◌, true, false, some, arith, length, take, drop, any, ltb, leb, not,
  ◌&&◌, ◌==◌, guard-eq-some, not-eq-false, ap, sym, ℕ,
}
use mcp_vfp9sp2_toolchain.Cdx.{
  Bytes, block_size, byte_at, unpack_u32, is_readable, safe_name, is_valid_tag_name, valid_sort,
  valid_type, Tag, sort_order_of, tag_type_of, parse_tag_descriptor,
}

-- The block lies in the file, its name is a tag name, the text test found nothing, the sort and
-- type bytes are known, the root block is 0 or a block of the file, and `t` says all this.
pub record IsDescriptor (content : Bytes) (block total : ℕ) (t : Tag) : Type 0 where
  pub in_file : block * block_size + block_size ≤ length content
  pub name_is : t.tag ≡ safe_name content (block * block_size) 10
  pub name_valid : is_valid_tag_name t.tag ≡ true
  pub no_text : any is_readable (take 10 (drop (block * block_size + 10) content)) ≡ false
  pub sort_valid : valid_sort (byte_at content (block * block_size + 10)) ≡ true
  pub type_is : t.type_byte ≡ byte_at content (block * block_size + 11)
  pub type_valid : valid_type t.type_byte ≡ true
  pub order_is :
      t.sort_order ≡ sort_order_of (byte_at content (block * block_size + 10)) t.type_byte
  pub kind_is : t.type ≡ tag_type_of t.type_byte
  pub root_is : t.root_block ≡ some (unpack_u32 content (block * block_size + 12))
  pub root_in_file :
      (unpack_u32 content (block * block_size + 12) ≡ 0)
      ⊎ (unpack_u32 content (block * block_size + 12) < total)

root_bound :
    (root total : ℕ) → (not (root == 0) && leb total root) ≡ false → (root ≡ 0) ⊎ (root < total)
root_bound root total h = ground arith

-- A reported tag has passed every check, and its fields are those of the block's bytes.
pub parse_tag_descriptor-IsDescriptor :
    (content : Bytes) (block total : ℕ) {t : Tag}
    → parse_tag_descriptor content block total ≡ some t
    → IsDescriptor content block total t
unfolding parse_tag_descriptor
parse_tag_descriptor-IsDescriptor content block total h =
    let off = block * block_size in
    let root = unpack_u32 content (off + 12) in
    let (in_file, h1) = guard-eq-some (ltb (length content) (off + block_size)) _ h in
    let (name_valid, h2) =
      guard-eq-some (not (is_valid_tag_name (safe_name content off 10))) _ h1 in
    let (no_text, h3) = guard-eq-some (any is_readable (take 10 (drop (off + 10) content))) _ h2 in
    let (sort_valid, h4) = guard-eq-some (not (valid_sort (byte_at content (off + 10)))) _ h3 in
    let (type_valid, h5) = guard-eq-some (not (valid_type (byte_at content (off + 11)))) _ h4 in
    let (root_in_file, same) = guard-eq-some (not (root == 0) && leb total root) _ h5 in
    let tag_is = some-injective _ _ same in
    let type_is = ap (λ (r : Tag). r.type_byte) (sym tag_is) in
    record {
      in_file = ground arith;
      name_is = ap (λ (r : Tag). r.tag) (sym tag_is);
      name_valid = rw (ap (λ (r : Tag). r.tag) (sym tag_is)) (not-eq-false _ name_valid);
      no_text = no_text;
      sort_valid = not-eq-false _ sort_valid;
      type_is = type_is;
      type_valid = rw type_is (not-eq-false _ type_valid);
      order_is = rw type_is (ap (λ (r : Tag). r.sort_order) (sym tag_is));
      kind_is = rw type_is (ap (λ (r : Tag). r.type) (sym tag_is));
      root_is = ap (λ (r : Tag). r.root_block) (sym tag_is);
      root_in_file = root_bound root total root_in_file;
    }

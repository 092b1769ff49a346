-- ===== src/Cdx/RoundTrip.antt =====
-- A written tag descriptor is read back: the layout of a block, and the parse of a file that holds it.
use mathlib.Core.List.{append_assoc}
use mcp_vfp9sp2_toolchain.Base.{
  ℕ, zero, suc, ◌+◌, ◌-◌, ◌*◌, ◌/◌, ◌%◌, ◌^◌, ◌≤◌, ◌<◌, ◌≡◌, ◌⊎◌, refl, ap, ◌∙◌, Bool, true, false,
  some, [], ◌∷◌, ◌++◌, arith, length, ◌||◌, ◌==◌, any, all, take, drop, length-append,
}
use mcp_vfp9sp2_toolchain.Base.Text.{Text, is_space, strip, rstrip}
use mcp_vfp9sp2_toolchain.Cdx.{
  Bytes, block_size, byte_at, is_readable, cut_at_null, safe_name, is_alnum, is_valid_tag_name,
  valid_sort, valid_type, sort_order_of, tag_type_of, parse_tag_descriptor,
}
use mcp_vfp9sp2_toolchain.Cdx.Slices.{drop-append, take-append, byte_at-append}

abbrev nulls : ℕ → Bytes
nulls zero = []
nulls (suc n) = 0 ∷ nulls n

-- Ten bytes: the name, padded with nulls.
abbrev pub name_field : Text → Bytes
name_field name = name ++ nulls (10 - length name)

-- `struct.pack("<I", n)`
abbrev pub pack_u32 : ℕ → Bytes
pack_u32 n = n % 256 ∷ n / 256 % 256 ∷ n / 65536 % 256 ∷ n / 16777216 % 256 ∷ []

abbrev pub tag_char : ℕ → Bool
tag_char c = is_alnum c || c == b'_'

tag_char_plain : (c : ℕ) → tag_char c ≡ true → (is_space c ≡ false) × ((c == 0) ≡ false)
unfolding is_alnum is_space
tag_char_plain c h = ground arith

length-nulls : (n : ℕ) → length (nulls n) ≡ n
length-nulls zero = refl
length-nulls (suc n) = ap suc (length-nulls n)

cut_at_null-nulls : (n : ℕ) → cut_at_null (nulls n) ≡ []
unfolding cut_at_null
cut_at_null-nulls zero = refl
cut_at_null-nulls (suc n) = refl

cut_at_null-append :
    (name : Text) (n : ℕ) → all tag_char name ≡ true → cut_at_null (name ++ nulls n) ≡ name
unfolding cut_at_null
cut_at_null-append [] n h = cut_at_null-nulls n
cut_at_null-append (c ∷ name) n h = ground (arith, tag_char_plain c, cut_at_null-append name n)

rstrip-name : (name : Text) → all tag_char name ≡ true → rstrip is_space name ≡ name
rstrip-name [] h = refl
rstrip-name (c ∷ name) h = ground (arith, tag_char_plain c, rstrip-name name)

strip-name : (name : Text) → all tag_char name ≡ true → strip name ≡ name
unfolding strip
strip-name [] h = refl
strip-name (c ∷ name) h = ground (arith, tag_char_plain c, rstrip-name (c ∷ name))

name_chars :
    (name : Text) → is_valid_tag_name name ≡ true → (all tag_char name ≡ true) × (length name ≤ 10)
unfolding is_valid_tag_name
name_chars name h = ground arith

length-name_field : (name : Text) → length name ≤ 10 → length (name_field name) ≡ 10
length-name_field name h =
    length-append name (nulls (10 - length name)) ∙ omega (arith, length-nulls (10 - length name))

unpack_pack :
    (n : ℕ)
    → n < 2 ^ 32
    → n % 256 + 256 * (n / 256 % 256) + 65536 * (n / 65536 % 256) + 16777216 * (n / 16777216 % 256)
      ≡ n
unpack_pack n h = omega arith

abbrev tail_of : ℕ → ℕ → ℕ → Bytes → Bytes
tail_of sort type root rest = sort ∷ type ∷ (pack_u32 root ++ rest)

-- A file with one descriptor behind `before`: name, sort byte, type byte, root block, rest.
abbrev pub with_descriptor : Bytes → Text → ℕ → ℕ → ℕ → Bytes → Bytes
with_descriptor before name sort type root rest =
    before ++ (name_field name ++ tail_of sort type root rest)

module _ (before rest : Bytes) (name : Text) (sort type root block total : ℕ)
    (placed : length before ≡ block * block_size) (valid : is_valid_tag_name name ≡ true) where
  name_read : safe_name (with_descriptor before name sort type root rest) (block * 512) 10 ≡ name
  unfolding safe_name
  name_read =
      rw
        (
          drop-append (block * 512) before _ placed,
          take-append 10 (name_field name) _ (length-name_field name (name_chars name valid).1),
          cut_at_null-append name (10 - length name) (name_chars name valid).0,
        )
        (strip-name name (name_chars name valid).0)

  tail_read :
      (j i : ℕ)
      → j ≡ block * 512 + (10 + i)
      → byte_at (with_descriptor before name sort type root rest) j
        ≡ byte_at (tail_of sort type root rest) i
  tail_read j i e = rw e (
      byte_at-append (block * 512) (10 + i) before _ placed
      ∙ byte_at-append 10 i (name_field name) _ (length-name_field name (name_chars name valid).1))

  text_read :
      take 10 (drop (block * 512 + 10) (with_descriptor before name sort type root rest))
      ≡ take 10 (tail_of sort type root rest)
  text_read = rw (← append_assoc before (name_field name) (tail_of sort type root rest)) (
      ap (take 10) (
        drop-append (block * 512 + 10) (before ++ name_field name) _ (
          length-append before (name_field name)
          ∙ omega (arith, length-name_field name (name_chars name valid).1))))

  length_read :
      length (with_descriptor before name sort type root rest) ≡ block * 512 + 16 + length rest
  length_read =
      length-append before (name_field name ++ tail_of sort type root rest)
      ∙ omega (
        arith,
        length-append (name_field name) (tail_of sort type root rest),
        length-name_field name (name_chars name valid).1,
      )

  -- A descriptor that lies in the file behind whole blocks, with a tag name, known sort and type
  -- bytes, a root block of the file (or 0) and no printable byte in its bytes 10 to 19, is read
  -- back: name, sort order, type and root block are those that were written.
  pub parse_tag_descriptor_encode :
      496 ≤ length rest
      → valid_sort sort ≡ true
      → valid_type type ≡ true
      → any is_readable (take 10 (tail_of sort type root rest)) ≡ false
      → root < 2 ^ 32
      → (root ≡ 0) ⊎ (root < total)
      → parse_tag_descriptor (with_descriptor before name sort type root rest) block total
        ≡ some (record {
          tag = name;
          sort_order = sort_order_of sort type;
          type = tag_type_of type;
          type_byte = type;
          root_block = some root;
        })
  unfolding parse_tag_descriptor
  parse_tag_descriptor_encode room s t quiet small bound =
      rw
        (
          name_read,
          tail_read (block * 512 + 10) 0 (omega arith),
          tail_read (block * 512 + 11) 1 (omega arith),
          tail_read (block * 512 + 12) 2 (omega arith),
          tail_read (block * 512 + 12 + 1) 3 (omega arith),
          tail_read (block * 512 + 12 + 2) 4 (omega arith),
          tail_read (block * 512 + 12 + 3) 5 (omega arith),
          text_read,
          unpack_pack root small,
          valid,
          quiet,
          s,
          t,
        )
        (ground (arith, length_read))

-- ===== src/Cdx.antt =====
-- vfp_cdx.py: tag descriptors in the 512-byte blocks of a .cdx or .idx file, and the scan of a
-- whole file. A file is the list of its bytes, so its size is their number.
pub mod Slices
pub mod Descriptor
pub mod Unreachable
pub mod Scan
pub mod RoundTrip
mod Tests
use mcp_vfp9sp2_toolchain.Base.{
  ℕ, zero, suc, ◌+◌, ◌-◌, ◌*◌, ◌/◌, ◌%◌, Bool, false, not, ◌&&◌, ◌||◌, Option, none, some, List, [],
  ◌∷◌, ltb, leb, ◌==◌, within, if◌then◌else◌, length, get_elem?, take, drop, any, all, is_empty,
}
use mcp_vfp9sp2_toolchain.Base.Text.{Text, codes, strip, text_eq, Casing}
use mcp_vfp9sp2_toolchain.Base.OsPath.{Platform}

-- The numbers below 256: what `open(path, "rb").read()` returns.
abbrev pub Bytes : Type 0
Bytes = List ℕ

abbrev pub block_size : ℕ
block_size = 512

-- `data[i]`; the code reads no byte behind the end (its guard is in `parse_tag_descriptor`).
abbrev pub byte_at : Bytes → ℕ → ℕ
byte_at content i = elim (get_elem? content i) [ none ↦ 0 | some b ↦ b ]

abbrev pub valid_sort : ℕ → Bool
valid_sort b = b == 0 || b == 1 || b == 2

abbrev pub valid_type : ℕ → Bool
valid_type b =
    b == 0x00
    || b == 0x01
    || b == 0x02
    || b == 0x10
    || b == 0x20
    || b == 0x12
    || b == 0x29
    || b == 0x2A
    || b == 0x30

-- the bytes up to the first null
unfoldable pub cut_at_null : Bytes → Text
cut_at_null [] = []
cut_at_null (b ∷ raw) = if b == 0 then [] else b ∷ cut_at_null raw

-- Latin-1 decodes each byte to the character of its number.
unfoldable pub safe_name : Bytes → ℕ → ℕ → Text
unfolding cut_at_null strip
safe_name content offset maxlen = strip (cut_at_null (take maxlen (drop offset content)))

-- `str.isalnum` of a Latin-1 character
unfoldable pub is_alnum : ℕ → Bool
is_alnum c =
    within b'0' b'9' c
    || within b'A' b'Z' c
    || within b'a' b'z' c
    || c == 0xaa
    || within 0xb2 0xb3 c
    || c == 0xb5
    || within 0xb9 0xba c
    || within 0xbc 0xbe c
    || within 0xc0 0xd6 c
    || within 0xd8 0xf6 c
    || within 0xf8 0xff c

unfoldable pub is_valid_tag_name : Text → Bool
unfolding is_alnum
is_valid_tag_name name =
    if is_empty name || ltb 10 (length name) then false else all (λ c. is_alnum c || c == b'_') name

pub data SortOrder : Type 0 where
  ascending descending : SortOrder

pub data TagType : Type 0 where
  regular unique sql_unique sql_index : TagType

-- The dictionary of one tag; `root_block` is `None` for the implicit tag of an .idx file.
pub record Tag : Type 0 where
  pub tag : Text
  pub sort_order : SortOrder
  pub type : TagType
  pub type_byte : ℕ
  pub root_block : Option ℕ

-- `b & 0x20` and `b & 0x02` as tests of one bit
abbrev pub has_bit : ℕ → ℕ → Bool
has_bit b weight = b / weight % 2 == 1

unfoldable pub sort_order_of : ℕ → ℕ → SortOrder
sort_order_of sort_byte type_byte =
    if sort_byte == 1 || sort_byte == 2 || has_bit type_byte 0x20 then descending else ascending

unfoldable pub tag_type_of : ℕ → TagType
tag_type_of type_byte =
    if type_byte == 0x29 || type_byte == 0x2A
    then if type_byte == 0x2A then sql_unique else sql_index
    else if has_bit type_byte 0x02
    then unique
    else regular

-- `struct.unpack_from("<I", data, off)`
abbrev pub unpack_u32 : Bytes → ℕ → ℕ
unpack_u32 content off =
    byte_at content off
    + 256 * byte_at content (off + 1)
    + 65536 * byte_at content (off + 2)
    + 16777216 * byte_at content (off + 3)

abbrev pub is_readable : ℕ → Bool
is_readable b = leb 32 b && ltb b 127

unfoldable pub parse_tag_descriptor : Bytes → ℕ → ℕ → Option Tag
parse_tag_descriptor content block_index total_blocks =
    let off = block_index * block_size in
    let name = safe_name content off 10 in
    let sort_byte = byte_at content (off + 0x0A) in
    let type_byte = byte_at content (off + 0x0B) in
    let root_block = unpack_u32 content (off + 0x0C) in
    if ltb (length content) (off + block_size)
    then none
    else if not (is_valid_tag_name name)
    then none
    else if any is_readable (take 10 (drop (off + 10) content))
    then none
    else if not (valid_sort sort_byte)
    then none
    else if not (valid_type type_byte)
    then none
    else if not (root_block == 0) && leb total_blocks root_block
    then none
    else some (record {
      tag = name;
      sort_order = sort_order_of sort_byte type_byte;
      type = tag_type_of type_byte;
      type_byte = type_byte;
      root_block = some root_block;
    })

-- `for block in range(block, block + rounds)`
unfoldable pub scan_blocks : Bytes → ℕ → ℕ → ℕ → List Tag
scan_blocks content total_blocks zero block = []
scan_blocks content total_blocks (suc rounds) block =
    let rest = scan_blocks content total_blocks rounds (block + 1) in
    elim (parse_tag_descriptor content block total_blocks) [ none ↦ rest | some t ↦ t ∷ rest ]

pub data Reader : Type 0 where
  structural_pure_python structural_pure_python_idx : Reader

pub record Parsed : Type 0 where
  pub file : Text
  pub is_compound : Bool
  pub version : ℕ
  pub tag_count : ℕ
  pub tags : List Tag
  pub size_bytes : ℕ
  pub total_blocks : ℕ
  pub reader : Reader

-- `{"ok": False, ...}`, by the reason that its message gives
pub data ParseResult : Type 0 where
  parsed : Parsed → ParseResult
  unreadable : Text → Text → ParseResult
  too_small : Text → ℕ → ParseResult
  no_descriptors : Text → ℕ → ℕ → ParseResult

-- What the read of a file gives: its bytes, or the text of the `OSError`.
pub data Contents : Type 0 where
  os_error : Text → Contents
  bytes : Bytes → Contents

-- The implicit tag of an .idx file has the name of the file.
abbrev pub idx_tag : Text → Tag
idx_tag name = record {
  tag = name;
  sort_order = ascending;
  type = regular;
  type_byte = 0;
  root_block = none;
}

module _ (os : Platform) (casing : Casing) where
  -- The part of `parse_cdx` behind the scan, given the tags that it found.
  unfoldable pub describe : Text → Bytes → List Tag → ParseResult
  describe path content (t ∷ tags) = parsed (record {
    file = os.basename path;
    is_compound = ltb 1 (length (t ∷ tags));
    version = byte_at content 0;
    tag_count = length (t ∷ tags);
    tags = t ∷ tags;
    size_bytes = length content;
    total_blocks = length content / block_size;
    reader = structural_pure_python;
  })
  describe path content [] =
      if text_eq (casing.lower (os.splitext path).1) (codes ".idx")
      then parsed (record {
        file = os.basename path;
        is_compound = false;
        version = byte_at content 0;
        tag_count = 1;
        tags = idx_tag (os.splitext (os.basename path)).0 ∷ [];
        size_bytes = length content;
        total_blocks = length content / block_size;
        reader = structural_pure_python_idx;
      })
      else no_descriptors (os.basename path) (length content) (length content / block_size)

  unfoldable pub parse_cdx : Text → Contents → ParseResult
  unfolding describe scan_blocks
  parse_cdx path (os_error e) = unreadable (os.basename path) e
  parse_cdx path (bytes content) =
      let total_blocks = length content / block_size in
      if ltb (length content) block_size
      then too_small (os.basename path) (length content)
      else describe path content (scan_blocks content total_blocks (total_blocks - 1) 1)

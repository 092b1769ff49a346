-- ===== src/Cdx/Tests.antt =====
-- Runs of the index parser on small files, and the theorems at concrete inputs.
use mcp_vfp9sp2_toolchain.Base.{
  ℕ, zero, suc, ◌≢◌, ◌≡◌, inr, refl, false, none, some, [], ◌∷◌, arith,
}
use mcp_vfp9sp2_toolchain.Base.Text.{Text, codes, ascii}
use mcp_vfp9sp2_toolchain.Base.OsPath.{posix, posix_basename}
use mcp_vfp9sp2_toolchain.Cdx.{
  Bytes, Tag, descending, unique, sort_order_of, tag_type_of, parse_tag_descriptor, parse_cdx,
  bytes, parsed, Parsed, structural_pure_python, safe_name, is_valid_tag_name,
}
use mcp_vfp9sp2_toolchain.Cdx.Scan.{IsReport, parse_cdx-IsReport}
use mcp_vfp9sp2_toolchain.Cdx.RoundTrip.{with_descriptor, parse_tag_descriptor_encode}

abbrev zeros : ℕ → Bytes
zeros zero = []
zeros (suc n) = 0 ∷ zeros n

-- A header block and one block with a descriptor.
abbrev file_with : Text → ℕ → ℕ → ℕ → Bytes
file_with name sort type root = with_descriptor (zeros 512) name sort type root (zeros 496)

abbrev cust : Bytes
cust = file_with (codes "CUST_ID") 1 2 1

abbrev cust_tag : Tag
cust_tag = record {
  tag = codes "CUST_ID";
  sort_order = descending;
  type = unique;
  type_byte = 2;
  root_block = some 1;
}

parse_cust : parse_tag_descriptor cust 1 2 ≡ some cust_tag
unfolding parse_tag_descriptor safe_name is_valid_tag_name sort_order_of tag_type_of
parse_cust = refl

-- The same block with root block 33 in a file of 40 blocks is passed over: 33 is printable.
parse_cust_root_33 : parse_tag_descriptor (file_with (codes "CUST_ID") 1 2 33) 1 40 ≡ none
unfolding parse_tag_descriptor safe_name is_valid_tag_name sort_order_of tag_type_of
parse_cust_root_33 = refl

abbrev cust_report : Parsed
cust_report = record {
  file = codes "c.cdx";
  is_compound = false;
  version = 0;
  tag_count = 1;
  tags = cust_tag ∷ [];
  size_bytes = 1024;
  total_blocks = 2;
  reader = structural_pure_python;
}

parse_cdx-cust : parse_cdx posix ascii (codes "d/c.cdx") (bytes cust) ≡ parsed cust_report
unfolding parse_cdx parse_tag_descriptor safe_name is_valid_tag_name sort_order_of tag_type_of
    posix_basename
parse_cdx-cust = refl

parse_cdx-IsReport_example : IsReport posix ascii (codes "d/c.cdx") cust cust_report
parse_cdx-IsReport_example = parse_cdx-IsReport posix ascii (codes "d/c.cdx") cust parse_cdx-cust

parse_tag_descriptor_encode_example : parse_tag_descriptor cust 1 2 ≡ some cust_tag
unfolding sort_order_of tag_type_of is_valid_tag_name
parse_tag_descriptor_encode_example =
    parse_tag_descriptor_encode (zeros 512) (zeros 496) (codes "CUST_ID") 1 2 1 1 2 refl refl
      (omega arith) refl refl refl (omega arith) (inr (omega arith))

-- Twenty null bytes are no index file.
abbrev short : Bytes
short = zeros 20

short_is_refused : (p : Parsed) → parse_cdx posix ascii (codes "c.cdx") (bytes short) ≢ parsed p
unfolding parse_cdx
short_is_refused p h = cc h

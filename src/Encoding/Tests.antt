-- ===== src/Encoding/Tests.antt =====
-- Runs of the header search, and a codec that decodes ASCII alone.
use mcp_vfp9sp2_toolchain.Base.{
  ℕ, ◌≡◌, ◌↔◌, refl, true, false, none, some, all, ltb, ◌==◌, if◌then◌else◌, arith,
}
use mcp_vfp9sp2_toolchain.Base.Text.{Text, codes}
use mcp_vfp9sp2_toolchain.Balance.{Letters}
use mcp_vfp9sp2_toolchain.Encoding.{
  Codecs, default_cpid, chosen_cpid, parse_int, decode_sc2, is_suspicious,
}
use mcp_vfp9sp2_toolchain.Encoding.Header.{header}
use mcp_vfp9sp2_toolchain.Encoding.Trusted.{IsTrusted, decode_sc2-IsTrusted}

abbrev plain_letters : Letters
plain_letters = record { same_letter = λ a b. a == b; is_word = λ c. c == b'_' }

same_as_itself : (c : ℕ) → (c == c) ≡ true
same_as_itself c = ground arith

abbrev ascii_codecs : Codecs
ascii_codecs = record {
  strict = λ codec raw. if all (λ b. ltb b 128) raw then some raw else none;
  replace = λ codec raw. raw;
}

abbrev text_852 : Text
text_852 = header (codes "1.2") (codes "f.scx") (codes "852") (codes ">\nx")

parse_values :
    (parse_int (codes " 1_250 ") ≡ some (false, 1250))
    × (parse_int (codes "-5") ≡ some (true, 5))
    × (parse_int (codes "12a") ≡ none)
unfolding parse_int
parse_values = (refl, refl, refl)

decode_sc2-IsTrusted_example :
    (is_suspicious (some (decode_sc2 plain_letters ascii_codecs text_852 none default_cpid).1)
      ≡ false)
    ↔ IsTrusted plain_letters ascii_codecs text_852
        (chosen_cpid plain_letters text_852 none default_cpid)
        (decode_sc2 plain_letters ascii_codecs text_852 none default_cpid).0
decode_sc2-IsTrusted_example =
    decode_sc2-IsTrusted plain_letters ascii_codecs text_852 none default_cpid

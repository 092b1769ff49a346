-- ===== src/Balance/Tests.antt =====
-- Runs of the balance check, with the letters of ASCII.
use mcp_vfp9sp2_toolchain.Base.{
  ◌<◌, ◌≡◌, ◌⊎◌, ◌↔◌, refl, ◌||◌, none, [], ◌∷◌, within, ◌==◌, length, All,
}
use mcp_vfp9sp2_toolchain.Base.Text.{Text, codes, ascii, split_lines, strip, text_eq}
use mcp_vfp9sp2_toolchain.Finding.{error, end_balance}
use mcp_vfp9sp2_toolchain.Blanking.{strip_strings_and_comments}
use mcp_vfp9sp2_toolchain.Blanking.Shape.{IsBlanked, strip_strings_and_comments-IsBlanked}
use mcp_vfp9sp2_toolchain.Balance.{Letters, block_pairs, code_lines, check_end_balance}
use mcp_vfp9sp2_toolchain.Balance.Counts.{IsEven, check_end_balance_ok}

abbrev pub ascii_letters : Letters
ascii_letters = record {
  same_letter = λ a b. text_eq (ascii.lower (a ∷ [])) (ascii.lower (b ∷ []));
  is_word = λ c. within b'0' b'9' c || within b'A' b'Z' c || within b'a' b'z' c || c == b'_';
}

-- The quoted ENDIF and the comment are blanked; the length stays.
strip_if :
    strip_strings_and_comments (codes "x = 'ENDIF' (* a *) y // b")
    ≡ codes "x =                 y     "
unfolding strip_strings_and_comments
strip_if = refl

abbrev even_code : Text
even_code = codes "IF a\n  x = 'ENDIF'\nendif\n"

even_lines : code_lines even_code ≡ codes "IF a" ∷ codes "  x =        " ∷ codes "endif" ∷ []
unfolding strip_strings_and_comments split_lines strip
even_lines = refl

even_is_balanced : check_end_balance ascii_letters none even_code 3 ≡ []
unfolding check_end_balance
even_is_balanced = refl

-- A well-formed DO CASE is reported twice: its DO wants an ENDDO, and its CASE an ENDCASE each.
do_case_is_reported :
    check_end_balance ascii_letters none (codes "DO CASE\nCASE a\nx\nCASE b\ny\nENDCASE\n") 3
    ≡ record {
      check = end_balance (codes "DO") 1 (codes "ENDDO") 0;
      severity = error;
      method = none;
    }
      ∷ record {
        check = end_balance (codes "CASE") 2 (codes "ENDCASE") 1;
        severity = error;
        method = none;
      }
      ∷ []
unfolding check_end_balance
do_case_is_reported = refl

strip_strings_and_comments-IsBlanked_example :
    IsBlanked even_code (strip_strings_and_comments even_code)
    × (length (strip_strings_and_comments even_code) ≡ length even_code)
strip_strings_and_comments-IsBlanked_example = strip_strings_and_comments-IsBlanked even_code

check_end_balance_ok_example : (check_end_balance ascii_letters none even_code 3 ≡ []) ↔ (
    (length (code_lines even_code) < 3)
    ⊎ All (IsEven ascii_letters (code_lines even_code)) block_pairs)
check_end_balance_ok_example = check_end_balance_ok ascii_letters none even_code 3

-- ===== src/Plan/Tests.antt =====
-- Runs of the precondition check on a text with two methods; the hash is the text itself.
use mcp_vfp9sp2_toolchain.Base.{◌≡◌, ◌↔◌, refl, true, false, none, some, [], ◌∷◌, ◌++◌, all, All}
use mcp_vfp9sp2_toolchain.Base.Text.{Text, codes, ascii, split_lines, ends_with, is_space, strip}
use mcp_vfp9sp2_toolchain.MethodParser.{
  parse_methods, strip_continuations, begins, match_delimiter, find_end, is_end,
}
use mcp_vfp9sp2_toolchain.Lexer.{words, line_continues}
use mcp_vfp9sp2_toolchain.Plan.{Patch, check_preconditions, vfp_string_literal}
use mcp_vfp9sp2_toolchain.Plan.Literal.{read_literal, vfp_string_literal-read_literal}
use mcp_vfp9sp2_toolchain.Plan.Met.{IsMet, AreReports, check_preconditions_ok}

abbrev form : Text
form = codes "procedure click\nx\nendproc\nprocedure load\ny\nendproc"

abbrev upper_click : Patch
upper_click = record {
  object_path = some (codes "cmd");
  method = some (codes "Click");
  old_method_sha256 = some (codes "PROCEDURE click\nx\nendproc");
  new_code = some (codes "z");
}

abbrev no_hash : Patch
no_hash = record upper_click { old_method_sha256 = none }

passes : (check_preconditions ascii (λ s. s) form (upper_click ∷ [])).0 ≡ true
unfolding check_preconditions parse_methods strip_continuations split_lines line_continues ends_with
    is_space begins match_delimiter strip words find_end is_end
passes = refl

refuses_no_hash : (check_preconditions ascii (λ s. s) form (upper_click ∷ no_hash ∷ [])).0 ≡ false
unfolding check_preconditions parse_methods strip_continuations split_lines line_continues ends_with
    is_space begins match_delimiter strip words find_end is_end
refuses_no_hash = refl

check_preconditions_ok_example :
    (((check_preconditions ascii (λ s. s) form (upper_click ∷ [])).0 ≡ true)
      ↔ All (IsMet ascii (parse_methods ascii (λ s. s) form)) (upper_click ∷ []))
    × ((check_preconditions ascii (λ s. s) form (upper_click ∷ [])).0
        ≡ all (λ e. e.ok) (check_preconditions ascii (λ s. s) form (upper_click ∷ [])).1)
    × AreReports ascii
        (parse_methods ascii (λ s. s) form)
        0
        (upper_click ∷ [])
        (check_preconditions ascii (λ s. s) form (upper_click ∷ [])).1
check_preconditions_ok_example = check_preconditions_ok ascii (λ s. s) form (upper_click ∷ [])

vfp_string_literal-read_literal_example :
    read_literal (vfp_string_literal (codes "it's") ++ codes " + x")
    ≡ some (codes "it's", codes " + x")
vfp_string_literal-read_literal_example =
    vfp_string_literal-read_literal (codes "it's") (codes " + x") refl

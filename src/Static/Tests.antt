-- ===== src/Static/Tests.antt =====
-- Runs of the validation.
use mcp_vfp9sp2_toolchain.Base.{
  ◌≡◌, ◌↔◌, refl, true, false, none, some, [], ◌∷◌, All, ◌==◌, within, ◌||◌,
}
use mcp_vfp9sp2_toolchain.Base.Text.{codes, ascii, is_space}
use mcp_vfp9sp2_toolchain.Base.Dict.{insert, lookup}
use mcp_vfp9sp2_toolchain.MethodParser.{procedure, Method, kind_eq}
use mcp_vfp9sp2_toolchain.Finding.{control_characters, growth}
use mcp_vfp9sp2_toolchain.Balance.{Letters, after_keyword, check_end_balance}
use mcp_vfp9sp2_toolchain.Checks.{
  an_error, a_warning, check_controls, check_growth, check_fffd, check_mojibake,
  check_markdown_fences, check_literal_escapes, check_ai_prompt_fragments, prompt_after,
}
use mcp_vfp9sp2_toolchain.Static.{
  check_duplicates, validate_sc2, sc2_findings, repeated, names_loop, bodies_loop, methods_loop,
  method_findings, baseline_loop,
}
use mcp_vfp9sp2_toolchain.Static.Verdict.{IsClean, IsSound, validate_sc2_ok}

abbrev plain_letters : Letters
plain_letters = record {
  same_letter = λ a b. a == b;
  is_word = λ c. within b'A' b'Z' c || c == b'_';
}

abbrev click : Method
click = record {
  name = codes "click";
  kind = procedure;
  line_start = 1;
  line_end = 3;
  line_count = 3;
  code = codes "x = 1";
  source_sha256 = [];
  unterminated = false;
}

abbrev long_click : Method
long_click = record click { line_count = 60 }

controls_and_growth :
    (check_controls (codes "a\tb") none ≡ none)
    × (check_controls (7 ∷ []) none ≡ some (an_error (control_characters 7) none))
    × (check_growth long_click (some click) ≡ some (a_warning (growth 3 60) (some (codes "click"))))
    × (check_growth click (some long_click) ≡ none)
unfolding check_controls check_growth
controls_and_growth = (refl, refl, refl, refl)

click_is_valid : (validate_sc2 plain_letters ascii (codes "x = 1") (click ∷ []) []).ok ≡ true
unfolding validate_sc2 sc2_findings check_controls check_fffd check_mojibake check_markdown_fences
    is_space check_duplicates repeated names_loop kind_eq insert lookup bodies_loop methods_loop
    method_findings check_literal_escapes check_ai_prompt_fragments prompt_after after_keyword
    check_end_balance check_growth baseline_loop
click_is_valid = refl

validate_sc2_ok_example :
    ((validate_sc2 plain_letters ascii (codes "x = 1") (click ∷ []) []).ok ≡ true) ↔ (
      IsClean (codes "x = 1")
      × (check_duplicates ascii (click ∷ []) ≡ [])
      × All (IsSound plain_letters) (click ∷ []))
validate_sc2_ok_example = validate_sc2_ok plain_letters ascii (codes "x = 1") (click ∷ []) []

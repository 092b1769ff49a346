-- ===== src/Static/Verdict.antt =====
-- When `validate_sc2` passes: what its findings of severity "error" say of the text and the methods.
use mcp_vfp9sp2_toolchain.Base.{
  ◌≡◌, ◌↔◌, true, false, ◌||◌, Option, none, some, List, [], ◌∷◌, ◌++◌, any, All, ◌==◌,
}
use mcp_vfp9sp2_toolchain.Base.Text.{Text, Casing, split_lines}
use mcp_vfp9sp2_toolchain.Base.Dict.{Dict, lookup}
use mcp_vfp9sp2_toolchain.MethodParser.{Method}
use mcp_vfp9sp2_toolchain.Finding.{
  Finding, replacement_char, mojibake, markdown_fence, literal_escape, ai_prompt_fragment,
}
use mcp_vfp9sp2_toolchain.Balance.{Letters, check_end_balance}
use mcp_vfp9sp2_toolchain.Checks.{
  is_prompt, prompt_after, literal_escape_at, is_control, is_fence, mojibake_at, search,
  check_controls, check_fffd, check_mojibake, check_literal_escapes, check_markdown_fences,
  check_ai_prompt_fragments, check_growth,
}
use mcp_vfp9sp2_toolchain.Static.{
  given, check_duplicates, method_findings, methods_loop, sc2_findings, validate_sc2, baseline_loop,
}
use mcp_vfp9sp2_toolchain.Static.Severities.{
  Warnings, Passes, Warnings-given, Warnings-append, Errors-Warnings, is_empty-Warnings,
  check_controls-Passes, found_if-Passes, found_if-not, check_growth-Passes,
  check_end_balance-Errors, check_duplicates-Errors,
}

-- No control character, no U+FFFD, no sequence of a wrong decoding and no Markdown fence.
pub record IsClean (code : Text) : Type 0 where
  pub controls : any is_control code ≡ false
  pub fffd : any (λ c. c == 0xfffd) code ≡ false
  pub decoding : search mojibake_at code ≡ false
  pub fences : any is_fence (split_lines code) ≡ false

-- A method's code is clean and its keywords are found balanced.
pub record IsSound (letters : Letters) (m : Method) : Type 0 where
  pub clean : IsClean m.code
  pub balanced : check_end_balance letters (some m.name) m.code 3 ≡ []

whole_iff :
    (text : Text) (method : Option Text)
    → (Passes (check_controls text method)
        × Passes (check_fffd text method)
        × Passes (check_mojibake text method)
        × Passes (check_markdown_fences text method))
      ↔ IsClean text
unfolding check_fffd check_mojibake check_markdown_fences
whole_iff text method =
    let controls = check_controls-Passes text method in
    let fffd = found_if-not (any (λ c. c == 0xfffd) text) replacement_char method in
    let decoding = found_if-not (search mojibake_at text) mojibake method in
    let fences = found_if-not (any is_fence (split_lines text)) markdown_fence method in
    (
      λ (a, b, c, d). record {
        controls = controls.0 a;
        fffd = fffd.0 b;
        decoding = decoding.0 c;
        fences = fences.0 d;
      },
      λ s. (controls.1 s.controls, fffd.1 s.fffd, decoding.1 s.decoding, fences.1 s.fences),
    )

module _ (letters : Letters) where
  -- The six checks of a method's code that are not its balance.
  abbrev code_checks : Method → List (Option Finding)
  code_checks m =
      check_controls m.code (some m.name)
      ∷ check_fffd m.code (some m.name)
      ∷ check_mojibake m.code (some m.name)
      ∷ check_literal_escapes m.code (some m.name)
      ∷ check_markdown_fences m.code (some m.name)
      ∷ check_ai_prompt_fragments letters m.code (some m.name)
      ∷ []

  code_checks-IsClean : (m : Method) → All Passes (code_checks m) ↔ IsClean m.code
  unfolding check_literal_escapes check_ai_prompt_fragments
  code_checks-IsClean m =
      let whole = whole_iff m.code (some m.name) in
      let escapes =
        found_if-Passes (search literal_escape_at m.code) literal_escape (some m.name) in
      let prompted = is_prompt letters m.code || prompt_after letters m.code in
      let prompts = found_if-Passes prompted ai_prompt_fragment (some m.name) in
      (
        λ (a, (b, (c, (_, (d, _))))). whole.0 (a, b, c, d),
        λ s. let (a, b, c, d) = whole.1 s in (a, (b, (c, (escapes, (d, (prompts, tt)))))),
      )

  method_findings-IsSound :
      (baseline : Option Method) (m : Method)
      → Warnings (method_findings letters baseline m) ↔ IsSound letters m
  unfolding method_findings
  method_findings-IsSound baseline m =
      let balance = check_end_balance letters (some m.name) m.code 3 in
      let grown = given (check_growth m baseline ∷ []) in
      let first = Warnings-append (given (code_checks m)) (balance ++ grown) in
      let second = Warnings-append balance grown in
      let checks = Warnings-given (code_checks m) in
      let clean = code_checks-IsClean m in
      let even = Errors-Warnings balance (check_end_balance-Errors letters _ m.code 3) in
      let growth_passes =
        (Warnings-given (check_growth m baseline ∷ [])).1 (check_growth-Passes m baseline, tt) in
      (
        λ h.
            let (a, bc) = first.0 h in
            record { clean = clean.0 (checks.0 a); balanced = even.0 (second.0 bc).0 },
        λ s. first.1 (checks.1 (clean.1 s.clean), second.1 (even.1 s.balanced, growth_passes)),
      )

  module _ (casing : Casing) where
    methods_loop-IsSound :
        (by_name : Dict Method) (methods : List Method)
        → Warnings (methods_loop letters casing by_name methods) ↔ All (IsSound letters) methods
    unfolding methods_loop
    methods_loop-IsSound by_name [] = (λ _. tt, λ _. tt)
    methods_loop-IsSound by_name (m ∷ methods) =
        let baseline = lookup (casing.lower m.name) by_name in
        let here = method_findings-IsSound baseline m in
        let later = methods_loop-IsSound by_name methods in
        let both =
          Warnings-append (method_findings letters baseline m)
            (methods_loop letters casing by_name methods) in
        (
          λ h. let (a, b) = both.0 h in (here.0 a, later.0 b),
          λ (a, b). both.1 (here.1 a, later.1 b),
        )

    text_checks-IsClean :
        (text : Text)
        → Warnings (
            given (
              check_controls text none
              ∷ check_fffd text none
              ∷ check_mojibake text none
              ∷ check_markdown_fences text none
              ∷ []))
          ↔ IsClean text
    text_checks-IsClean text =
        let checks = Warnings-given (
          check_controls text none
          ∷ check_fffd text none
          ∷ check_mojibake text none
          ∷ check_markdown_fences text none
          ∷ []) in
        let whole = whole_iff text none in
        (
          λ h. let (a, (b, (c, (d, _)))) = checks.0 h in whole.0 (a, b, c, d),
          λ s. let (a, b, c, d) = whole.1 s in checks.1 (a, (b, (c, (d, tt)))),
        )

    -- The validation passes exactly when the text is clean, the check for duplicates finds nothing,
    -- and the code of every method is clean and balanced. The baseline does not matter, nor do
    -- literal escapes and text like a prompt: these only warn.
    pub validate_sc2_ok :
        (text : Text) (methods baseline : List Method)
        → ((validate_sc2 letters casing text methods baseline).ok ≡ true)
          ↔ (IsClean text × (check_duplicates casing methods ≡ []) × All (IsSound letters) methods)
    unfolding validate_sc2 sc2_findings
    validate_sc2_ok text methods baseline =
        let by_name = baseline_loop letters casing baseline [] in
        let bodies = methods_loop letters casing by_name methods in
        let duplicates = check_duplicates casing methods in
        let whole = text_checks-IsClean text in
        let none_twice = Errors-Warnings duplicates (check_duplicates-Errors casing methods) in
        let sound = methods_loop-IsSound by_name methods in
        let first = Warnings-append _ (duplicates ++ bodies) in
        let second = Warnings-append duplicates bodies in
        let verdict = is_empty-Warnings (sc2_findings letters casing text methods baseline) in
        (
          λ h.
              let (a, bc) = first.0 (verdict.0 h) in
              let (b, c) = second.0 bc in (whole.0 a, none_twice.0 b, sound.0 c),
          λ (a, b, c). verdict.1 (first.1 (whole.1 a, second.1 (none_twice.1 b, sound.1 c))),
        )

-- ===== src/Static.antt =====
-- vfp_static_validate.py: `check_duplicates`, and `validate_sc2`, which joins the checks of a text
-- and of its methods to a verdict.
pub mod Severities
pub mod Verdict
mod Tests
use mcp_vfp9sp2_toolchain.Base.{
  ℕ, ◌+◌, ◌*◌, Bool, true, false, not, ◌&&◌, ◌||◌, Option, none, some, List, [], ◌∷◌, ◌++◌, map,
  within, ltb, ◌==◌, if◌then◌else◌, length, take, any, is_empty, keep,
}
use mcp_vfp9sp2_toolchain.Base.Text.{
  Text, codes, starts_with, is_space, lstrip, strip, split_lines, Casing,
}
use mcp_vfp9sp2_toolchain.Base.Dict.{Dict, lookup, insert}
use mcp_vfp9sp2_toolchain.MethodParser.{Kind, procedure, function, Method, kind_eq}
use mcp_vfp9sp2_toolchain.Finding.{
  Finding, Check, Severity, error, warning, control_characters, replacement_char, mojibake,
  literal_escape, markdown_fence, ai_prompt_fragment, duplicate, duplicated_code_block, growth,
}
use mcp_vfp9sp2_toolchain.Balance.{Letters, after_keyword, check_end_balance}
use mcp_vfp9sp2_toolchain.Checks.{
  is_control, mojibake_at, literal_escape_at, search, is_fence, prompts, found_if, an_error,
  a_warning, check_controls, check_fffd, check_mojibake, check_literal_escapes,
  check_markdown_fences, growth_factor, larger, check_growth, is_prompt, prompt_after,
  check_ai_prompt_fragments,
}

-- `[f for f in checks if f]`
abbrev pub given {ℓ} : {A : Type ℓ} → List (Option A) → List A
given [] = []
given (none ∷ rest) = given rest
given (some f ∷ rest) = f ∷ given rest

-- the loop over `names.items()`
unfoldable pub repeated : Kind → Dict (List Text) → List Finding
repeated kind [] = []
repeated kind ((key, []) ∷ rest) = repeated kind rest
repeated kind ((key, first ∷ []) ∷ rest) = repeated kind rest
repeated kind ((key, first ∷ second ∷ more) ∷ rest) =
    an_error (duplicate kind first (length (first ∷ second ∷ more))) none ∷ repeated kind rest

abbrev pub is_small : Method → Bool
is_small m = ltb (length m.code) 200

-- `body.strip()[:400]`
abbrev pub body_key : Method → Text
body_key m = take 400 (strip m.code)

-- `body_seen` behind a round of the loop
abbrev pub now_seen : Method → Dict Text → Dict Text
now_seen m seen =
    if is_small m
    then seen
    else elim (lookup (body_key m) seen) [ none ↦ insert (body_key m) m.name seen | some _ ↦ seen ]

module _ (casing : Casing) where
  -- `by_kind[kind]`: the names as written, by their lowercased form
  unfoldable pub names_loop : Kind → List Method → Dict (List Text) → Dict (List Text)
  names_loop kind [] names = names
  names_loop kind (m ∷ methods) names =
      let key = casing.lower m.name in
      let had : List Text = elim (lookup key names) [ none ↦ [] | some ns ↦ ns ] in
      let names' = insert key (had ++ m.name ∷ []) names in
      names_loop kind methods (if kind_eq m.kind kind then names' else names)

  -- the loop over the bodies, of those that are not small
  unfoldable pub bodies_loop : List Method → Dict Text → List Finding
  bodies_loop [] seen = []
  bodies_loop (m ∷ methods) seen =
      let rest = bodies_loop methods (now_seen m seen) in
      if is_small m then rest else elim (lookup (body_key m) seen) [
        | none ↦ rest
        | some first ↦ an_error (duplicated_code_block first) (some m.name) ∷ rest
      ]

  unfoldable pub check_duplicates : List Method → List Finding
  check_duplicates methods =
      repeated procedure (names_loop procedure methods [])
      ++ (repeated function (names_loop function methods []) ++ bodies_loop methods [])

pub record Validation : Type 0 where
  pub ok : Bool
  pub status : Text
  pub error_code : Option Text
  pub findings : List Finding
  pub method_count : ℕ
  pub checks_run : ℕ

abbrev pub is_error : Finding → Bool
is_error f = elim f.severity [ error ↦ true | warning ↦ false ]

module _ (letters : Letters) where
  -- what `validate_sc2` finds in one method, with the baseline method of that name
  unfoldable pub method_findings : Option Method → Method → List Finding
  method_findings baseline m =
      given (
        check_controls m.code (some m.name)
        ∷ check_fffd m.code (some m.name)
        ∷ check_mojibake m.code (some m.name)
        ∷ check_literal_escapes m.code (some m.name)
        ∷ check_markdown_fences m.code (some m.name)
        ∷ check_ai_prompt_fragments letters m.code (some m.name)
        ∷ [])
      ++ (check_end_balance letters (some m.name) m.code 3 ++ given (check_growth m baseline ∷ []))

  module _ (casing : Casing) where
    -- `{m["name"].lower(): m for m in baseline_methods}`, filled up
    unfoldable pub baseline_loop : List Method → Dict Method → Dict Method
    baseline_loop [] by_name = by_name
    baseline_loop (m ∷ methods) by_name =
        baseline_loop methods (insert (casing.lower m.name) m by_name)

    unfoldable pub methods_loop : Dict Method → List Method → List Finding
    methods_loop by_name [] = []
    methods_loop by_name (m ∷ methods) =
        method_findings (lookup (casing.lower m.name) by_name) m ++ methods_loop by_name methods

    -- `findings` of `validate_sc2`; no methods are the empty list
    unfoldable pub sc2_findings : Text → List Method → List Method → List Finding
    sc2_findings text methods baseline_methods =
        given (
          check_controls text none
          ∷ check_fffd text none
          ∷ check_mojibake text none
          ∷ check_markdown_fences text none
          ∷ [])
        ++ (check_duplicates casing methods
            ++ methods_loop (baseline_loop baseline_methods []) methods)

    -- `validate_sc2`
    unfoldable pub validate_sc2 : Text → List Method → List Method → Validation
    validate_sc2 text methods baseline_methods =
        let findings = sc2_findings text methods baseline_methods in
        let ok = is_empty (keep is_error findings) in
        record {
          ok = ok;
          status = if ok then codes "PASS" else codes "FAIL";
          error_code = if ok then none else some (codes "STATIC_VALIDATION_FAILED");
          findings = findings;
          method_count = length methods;
          checks_run = 8 + 5 * length methods;
        }

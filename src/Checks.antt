-- ===== src/Checks.antt =====
-- vfp_static_validate.py: the checks of one text or of one method. A regular expression is written
-- out as the test that it makes.
use mcp_vfp9sp2_toolchain.Base.{
  ℕ, ◌+◌, ◌*◌, Bool, true, false, not, ◌&&◌, ◌||◌, Option, none, some, List, [], ◌∷◌, within, ltb,
  ◌==◌, if◌then◌else◌, any,
}
use mcp_vfp9sp2_toolchain.Base.Text.{Text, codes, starts_with, is_space, lstrip, split_lines}
use mcp_vfp9sp2_toolchain.MethodParser.{Method}
use mcp_vfp9sp2_toolchain.Finding.{
  Finding, Check, error, warning, control_characters, replacement_char, mojibake, literal_escape,
  markdown_fence, ai_prompt_fragment, growth,
}
use mcp_vfp9sp2_toolchain.Balance.{Letters, after_keyword}

-- CTRL_RE
abbrev pub is_control : ℕ → Bool
is_control c = within 0 8 c || within 11 12 c || within 14 31 c || c == 127

-- the second character of the first alternative of MOJIBAKE_RE
abbrev is_smart : ℕ → Bool
is_smart c = within 0x2018 0x2019 c || within 0x201c 0x201d c || c == 0x2026 || within 0x93 0x94 c

-- MOJIBAKE_RE at one place
unfoldable pub mojibake_at : Text → Bool
mojibake_at (a ∷ b ∷ s) =
    ((a == 0xc2 || a == 0xe2 || a == 0xc3) && is_smart b)
    || (a == 0xe2 && b == 0x20ac)
    || (a == 0xc3 && not (b == b'\n'))
mojibake_at _ = false

-- LITERAL_ESCAPE_RE at one place
unfoldable pub literal_escape_at : Text → Bool
literal_escape_at (a ∷ b ∷ s) =
    a == b'\\' && (b == b'n' || b == b'r' || b == b't' || b == b'"' || b == b'\\')
literal_escape_at _ = false

-- a pattern at some place
unfoldable pub search : (Text → Bool) → Text → Bool
search here [] = here []
search here (c ∷ s) = here (c ∷ s) || search here s

-- MD_FENCE_RE
abbrev pub is_fence : Text → Bool
is_fence line =
    let s = lstrip is_space line in starts_with s (codes "```") || starts_with s (codes "~~~")

-- What AI_PROMPT_RE looks for behind the white space of a line.
abbrev pub prompts : List Text
prompts =
    codes "as an ai"
    ∷ codes "here is the "
    ∷ codes "here is a "
    ∷ codes "certainly!"
    ∷ codes "i hope"
    ∷ codes "i am happy"
    ∷ codes "i would be happy"
    ∷ codes "i'm an ai"
    ∷ codes "i'm ai"
    ∷ codes "im an ai"
    ∷ codes "im ai"
    ∷ codes "let me help"
    ∷ codes "let me explain"
    ∷ codes "refactored code below"
    ∷ codes "refactored version below"
    ∷ []

abbrev pub found_if : Bool → Finding → Option Finding
found_if true f = some f
found_if false f = none

abbrev pub an_error : Check → Option Text → Finding
an_error check method = record { check = check; severity = error; method = method }

abbrev pub a_warning : Check → Option Text → Finding
a_warning check method = record { check = check; severity = warning; method = method }

-- `CTRL_RE.search(code)` gives the first control character.
unfoldable pub check_controls : Text → Option Text → Option Finding
check_controls [] method = none
check_controls (c ∷ s) method =
    let later = check_controls s method in
    if is_control c then some (an_error (control_characters c) method) else later

unfoldable pub check_fffd : Text → Option Text → Option Finding
check_fffd code method = found_if (any (λ c. c == 0xfffd) code) (an_error replacement_char method)

unfoldable pub check_mojibake : Text → Option Text → Option Finding
unfolding search mojibake_at
check_mojibake code method = found_if (search mojibake_at code) (an_error mojibake method)

unfoldable pub check_literal_escapes : Text → Option Text → Option Finding
unfolding search literal_escape_at
check_literal_escapes code method =
    found_if (search literal_escape_at code) (a_warning literal_escape method)

unfoldable pub check_markdown_fences : Text → Option Text → Option Finding
unfolding split_lines starts_with
check_markdown_fences code method =
    found_if (any is_fence (split_lines code)) (an_error markdown_fence method)

-- `GROWTH_SUSPICIOUS_FACTOR`; the product of a line count and 5.0 is exact below 2^50
abbrev pub growth_factor : ℕ
growth_factor = 5

abbrev pub larger : ℕ → ℕ → ℕ
larger a b = if ltb a b then b else a

unfoldable pub check_growth : Method → Option Method → Option Finding
check_growth method none = none
check_growth method (some baseline) =
    let a = baseline.line_count in
    let b = method.line_count in
    if not (a == 0) && ltb (larger (a * growth_factor) (a + 50)) b
    then some (a_warning (growth a b) (some method.name))
    else found_if (not (b == 0) && a == 0) (a_warning (growth a b) (some method.name))

module _ (letters : Letters) where
  abbrev pub is_prompt : Text → Bool
  is_prompt s =
      any (λ p. elim (after_keyword letters p (lstrip is_space s)) [ none ↦ false | some _ ↦ true ])
        prompts

  -- AI_PROMPT_RE: behind a line feed, or at the start
  unfoldable pub prompt_after : Text → Bool
  prompt_after [] = false
  prompt_after (c ∷ s) = (c == b'\n' && is_prompt s) || prompt_after s

  unfoldable pub check_ai_prompt_fragments : Text → Option Text → Option Finding
  check_ai_prompt_fragments code method =
      found_if (is_prompt code || prompt_after code) (a_warning ai_prompt_fragment method)

-- ===== src/Plan/Literal.antt =====
-- A reader of quoted text gets back what `_vfp_string_literal` wrote.
use mathlib.Core.List.{append_assoc}
use mcp_vfp9sp2_toolchain.Base.{
  ℕ, ◌≡◌, refl, Bool, true, false, Option, none, some, [], ◌∷◌, ◌++◌, ◌==◌, if◌then◌else◌,
  Bool-cases, inl, inr,
}
use mcp_vfp9sp2_toolchain.Base.Text.{Text}
use mcp_vfp9sp2_toolchain.Lexer.{next_is}
use mcp_vfp9sp2_toolchain.Plan.{double_quotes, vfp_string_literal}

abbrev pub after_first : ℕ → Option (Text × Text) → Option (Text × Text)
after_first c none = none
after_first c (some (s, rest)) = some (c ∷ s, rest)

-- Text up to the first quote that is not doubled, with a doubled quote read as one, and what
-- stands behind that quote. The flag says that the character before was a quote.
unfoldable pub read_quoted : Bool → Text → Option (Text × Text)
read_quoted true [] = some ([], [])
read_quoted false [] = none
read_quoted true (c ∷ s) =
    let inside = read_quoted false s in
    if c == b'\'' then after_first c inside else some ([], c ∷ s)
read_quoted false (c ∷ s) =
    let inside = read_quoted false s in
    let quote = read_quoted true s in if c == b'\'' then quote else after_first c inside

-- The text that a quoted literal stands for, and what follows it.
unfoldable pub read_literal : Text → Option (Text × Text)
read_literal [] = none
read_literal (c ∷ s) = if c == b'\'' then read_quoted false s else none

quoted_back :
    (s rest : Text)
    → next_is b'\'' rest ≡ false
    → read_quoted false (double_quotes s ++ b'\'' ∷ rest) ≡ some (s, rest)
unfolding read_quoted double_quotes
quoted_back [] [] h = refl
quoted_back [] (c ∷ rest) h = rw h refl
quoted_back (c ∷ s) rest h =
    let later = quoted_back s rest h in
    elim (Bool-cases (c == b'\'')) [
      | inl quote ↦ rw (quote, quote, later) refl
      | inr other ↦ rw (other, other, later) refl
    ]

-- A reader that takes a doubled quote for one reads from a literal the quoted text and stops at its
-- end, unless a quote follows: nothing in the text ends the literal early.
pub vfp_string_literal-read_literal :
    (s rest : Text)
    → next_is b'\'' rest ≡ false
    → read_literal (vfp_string_literal s ++ rest) ≡ some (s, rest)
unfolding read_literal vfp_string_literal
vfp_string_literal-read_literal s rest h =
    rw (append_assoc (double_quotes s) (b'\'' ∷ []) rest) (quoted_back s rest h)

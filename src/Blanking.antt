-- ===== src/Blanking.antt =====
-- `_strip_strings_and_comments` of vfp_static_validate.py. A round of its loop is a step that emits
-- text and leaves the open quote and the number of characters to skip.
pub mod Shape
use mcp_vfp9sp2_toolchain.Base.{
  ℕ, zero, suc, ◌+◌, Option, none, some, not, [], ◌∷◌, ◌++◌, ◌==◌, if◌then◌else◌, length,
}
use mcp_vfp9sp2_toolchain.Base.Text.{Text, codes, starts_with, find_at, find_from}
use mcp_vfp9sp2_toolchain.Lexer.{is_quote, next_is}

-- `" " * n`
abbrev pub spaces : ℕ → Text
spaces zero = []
spaces (suc n) = b' ' ∷ spaces n

pub record Blank : Type 0 where
  pub emit : Text
  pub in_s : Option ℕ
  pub skip : ℕ

-- the branch `if in_s`
unfoldable pub blank_string : ℕ → ℕ → Text → Blank
blank_string q c rest =
    if c == b'\n'
    then record { emit = c ∷ []; in_s = none; skip = 0 }
    else if not (c == q)
    then record { emit = spaces 1; in_s = some q; skip = 0 }
    else if next_is q rest
    then record { emit = spaces 2; in_s = some q; skip = 1 }
    else record { emit = spaces 1; in_s = none; skip = 0 }

-- `j - i` of a block comment that starts at `i`, and of a comment to the end of the line
abbrev pub block_length : Text → ℕ
block_length s = elim (find_from (codes "*)") 2 s) [ none ↦ length s | some j ↦ j + 2 ]

abbrev pub tail_length : Text → ℕ
tail_length s = elim (find_from (codes "\n") 0 s) [ none ↦ length s | some j ↦ j ]

-- `out.append(" " * n); i += n`
abbrev pub blanked : ℕ → Blank
blanked zero = record { emit = []; in_s = none; skip = 0 }
blanked (suc n) = record { emit = spaces (suc n); in_s = none; skip = n }

-- the branches behind it
unfoldable pub blank_code : ℕ → Text → Blank
unfolding starts_with find_at
blank_code c rest =
    if is_quote c
    then record { emit = spaces 1; in_s = some c; skip = 0 }
    else if starts_with (c ∷ rest) (codes "(*")
    then blanked (block_length (c ∷ rest))
    else if starts_with (c ∷ rest) (codes "//")
    then blanked (tail_length (c ∷ rest))
    else record { emit = c ∷ []; in_s = none; skip = 0 }

abbrev pub blank_step : Option ℕ → ℕ → Text → Blank
blank_step none c rest = blank_code c rest
blank_step (some q) c rest = blank_string q c rest

unfoldable pub blank_loop : Option ℕ → ℕ → Text → Text
blank_loop in_s skip [] = []
blank_loop in_s (suc k) (c ∷ rest) = blank_loop in_s k rest
blank_loop in_s zero (c ∷ rest) =
    let b = blank_step in_s c rest in b.emit ++ blank_loop b.in_s b.skip rest

-- `_strip_strings_and_comments`
unfoldable pub strip_strings_and_comments : Text → Text
unfolding blank_loop blank_string blank_code
strip_strings_and_comments code = blank_loop none 0 code

-- ===== src/Lexer/Plain.antt =====
-- Lines with no string literal and no `//` comment: the two loops against plain descriptions.
use mathlib.Core.List.{append-nil, append_assoc}
use mcp_vfp9sp2_toolchain.Base.{
  ℕ, ◌≡◌, refl, Bool, true, false, not, ◌&&◌, none, List, [], ◌∷◌, ◌++◌, arith, is_empty,
  if◌then◌else◌, Bool-cases, inl, inr, ◌∙◌,
}
use mcp_vfp9sp2_toolchain.Base.Text.{Text, codes, starts_with, is_space, rstrip, ends_with}
use mcp_vfp9sp2_toolchain.Lexer.{
  is_quote, at_block_comment, at_line_comment, Words, flush, words_step, words_loop, words,
  continues_start, continues_step, continues_loop, line_continues,
}

-- The text between blanks, as `str.split()` cuts it; `cur` is the piece being read.
pub split_onto : Text → Text → List Text
split_onto cur [] = if is_empty cur then [] else cur ∷ []
split_onto cur (c ∷ s) = elim (is_space c) [
  | true ↦ if is_empty cur then split_onto [] s else cur ∷ split_onto [] s
  | false ↦ split_onto (cur ++ c ∷ []) s
]

abbrev pub split : Text → List Text
split s = split_onto [] s

-- No quote, and no `//`.
abbrev pub is_plain : Text → Bool
is_plain [] = true
is_plain (c ∷ rest) = not (is_quote c) && not (at_line_comment c rest) && is_plain rest

-- The test for a block comment asks for a `*` where it asks for `(*`.
at_block_comment_never : (c : ℕ) (rest : Text) → at_block_comment c rest ≡ false
unfolding starts_with
at_block_comment_never c rest = ground arith

abbrev reading : List Text → Text → Words
reading out cur = record { out = out; cur = cur; in_s = none; skip = 0; stopped = false }

plain_step :
    (out : List Text) (cur : Text) (c : ℕ) (rest : Text)
    → is_quote c ≡ false
    → at_line_comment c rest ≡ false
    → words_step (reading out cur) c rest
      ≡ (if is_space c then flush (reading out cur) else reading out (cur ++ c ∷ []))
unfolding words_step
plain_step out cur c rest q l = rw (q, at_block_comment_never c rest, l)

plain_parts :
    (c : ℕ) (s : Text)
    → is_plain (c ∷ s) ≡ true
    → (is_quote c ≡ false) × (at_line_comment c s ≡ false) × (is_plain s ≡ true)
plain_parts c s h = ground arith

words_loop-split_onto :
    (s : Text) (out : List Text) (cur : Text)
    → is_plain s ≡ true
    → (flush (words_loop (reading out cur) s)).out ≡ out ++ split_onto cur s
unfolding words_loop split_onto
words_loop-split_onto [] out [] h = rw append-nil
words_loop-split_onto [] out (x ∷ cur) h = refl
words_loop-split_onto (c ∷ s) out [] h =
    let (q, l, more) = plain_parts c s h in
    elim (Bool-cases (is_space c)) [
      | inl blank ↦
          rw (plain_step out [] c s q l, blank, words_loop, split_onto)
            (words_loop-split_onto s out [] more)
      | inr other ↦
          rw (plain_step out [] c s q l, other, words_loop, split_onto)
            (words_loop-split_onto s out (c ∷ []) more)
    ]
words_loop-split_onto (c ∷ s) out (x ∷ cur) h =
    let (q, l, more) = plain_parts c s h in
    elim (Bool-cases (is_space c)) [
      | inl blank ↦
          rw (plain_step out (x ∷ cur) c s q l, blank, words_loop, split_onto)
            (words_loop-split_onto s (out ++ (x ∷ cur) ∷ []) [] more
              ∙ append_assoc out ((x ∷ cur) ∷ []) (split_onto [] s))
      | inr other ↦
          rw (plain_step out (x ∷ cur) c s q l, other, words_loop, split_onto)
            (words_loop-split_onto s out (x ∷ (cur ++ c ∷ [])) more)
    ]

-- On a line with no quote and no `//`, the tokens are the pieces between blanks. The two marks of
-- a block comment, and all that stands between them, are tokens like any other.
words-split : (line : Text) → is_plain line ≡ true → words line ≡ split line
unfolding words
words-split line h = words_loop-split_onto line [] [] h

plain_continues :
    (c : ℕ) (rest : Text)
    → is_quote c ≡ false
    → at_line_comment c rest ≡ false
    → continues_step continues_start c rest ≡ continues_start
unfolding continues_step
plain_continues c rest q l = rw (q, at_block_comment_never c rest, l)

continues_loop-plain :
    (s : Text) → is_plain s ≡ true → continues_loop continues_start s ≡ continues_start
unfolding continues_loop
continues_loop-plain [] h = refl
continues_loop-plain (c ∷ s) h =
    let (q, l, more) = plain_parts c s h in
    rw (plain_continues c s q l, continues_loop) (continues_loop-plain s more)

-- A line with no quote and no `//` continues exactly when its last character that is no blank is a
-- semicolon, also when an unclosed block comment begins on it.
line_continues-ends_with :
    (line : Text)
    → is_plain line ≡ true
    → line_continues line ≡ ends_with (rstrip is_space line) (codes ";")
unfolding line_continues
line_continues-ends_with line h = rw (continues_loop-plain line h, line_continues)

-- ===== src/Lexer.antt =====
-- The two character loops of vfp_method_parser.py: `_words` and `_line_continues`. A round of a
-- loop is a step on its variables; a jump of the index is the number of characters to skip.
pub mod Plain
use mcp_vfp9sp2_toolchain.Base.{
  ℕ, zero, suc, ◌+◌, ◌-◌, Bool, true, false, not, ◌&&◌, ◌||◌, Option, none, some, List, [], ◌∷◌,
  ◌++◌, map, ◌==◌, if◌then◌else◌, length, take, is_empty,
}
use mcp_vfp9sp2_toolchain.Base.Text.{
  Text, codes, starts_with, is_space, rstrip, ends_with, find_from,
}

abbrev pub is_quote : ℕ → Bool
is_quote c = c == b'\'' || c == b'"'

-- `i + 1 < n and line[i + 1] == q`
abbrev pub next_is : ℕ → Text → Bool
next_is q [] = false
next_is q (d ∷ rest) = d == q

-- `c == "*" and line.startswith("(*", i)`
abbrev pub at_block_comment : ℕ → Text → Bool
at_block_comment c rest = c == b'*' && starts_with (c ∷ rest) (codes "(*")

-- `c == "/" and line.startswith("//", i)`
abbrev pub at_line_comment : ℕ → Text → Bool
at_line_comment c rest = c == b'/' && starts_with (c ∷ rest) (codes "//")

-- The variables of `_words`: the tokens so far, the token being read, the quote that is open, the
-- characters to skip, and whether the loop was left.
pub record Words : Type 0 where
  pub out : List Text
  pub cur : Text
  pub in_s : Option ℕ
  pub skip : ℕ
  pub stopped : Bool

abbrev pub words_start : Words
words_start = record { out = []; cur = []; in_s = none; skip = 0; stopped = false }

-- `if cur: out.append("".join(cur)); cur = []`
abbrev pub flush : Words → Words
flush s = if is_empty s.cur then s else record s { out = s.out ++ s.cur ∷ []; cur = [] }

-- the branch `if in_s`, with `q` the open quote
in_string_step : ℕ → Words → ℕ → Text → Words
in_string_step q s c rest =
    if not (c == q)
    then record s { cur = s.cur ++ c ∷ [] }
    else if next_is q rest
    then record s { cur = s.cur ++ c ∷ q ∷ []; skip = 1 }
    else record s { cur = s.cur ++ c ∷ []; in_s = none }

-- where `line.find("*)", i + 2)` ends the comment, counted from `i`
abbrev comment_length : ℕ → Text → ℕ
comment_length c rest = elim (find_from (codes "*)") 2 (c ∷ rest)) [
  | none ↦ length (c ∷ rest)
  | some j ↦ j + 2
]

abbrev blank_newline : ℕ → ℕ
blank_newline c = if c == b'\n' then b' ' else c

code_step : Words → ℕ → Text → Words
code_step s c rest =
    if is_quote c
    then record s { cur = s.cur ++ c ∷ []; in_s = some c }
    else if at_block_comment c rest
    then record s {
      cur = s.cur ++ map blank_newline (take (comment_length c rest) (c ∷ rest));
      skip = comment_length c rest - 1;
    }
    else if at_line_comment c rest
    then record s { stopped = true }
    else if is_space c
    then flush s
    else record s { cur = s.cur ++ c ∷ [] }

skip_or : ℕ → Words → Words → Words
skip_or zero s next = next
skip_or (suc k) s next = record s { skip = k }

-- One round of the loop of `_words`, at character `c` with `rest` behind it.
unfoldable pub words_step : Words → ℕ → Text → Words
unfolding in_string_step code_step skip_or
words_step s c rest =
    if s.stopped
    then s
    else skip_or s.skip s
        (elim s.in_s [ some q ↦ in_string_step q s c rest | none ↦ code_step s c rest ])

unfoldable pub words_loop : Words → Text → Words
words_loop s [] = s
words_loop s (c ∷ rest) = words_loop (words_step s c rest) rest

-- `_words`
unfoldable pub words : Text → List Text
unfolding words_loop words_step
words line = (flush (words_loop words_start line)).out

-- The variables of `_line_continues`, with what it has returned.
pub record Continues : Type 0 where
  pub open_quote : Option ℕ
  pub skip : ℕ
  pub returned : Option Bool

abbrev pub continues_start : Continues
continues_start = record { open_quote = none; skip = 0; returned = none }

quoted_step : ℕ → Continues → ℕ → Text → Continues
quoted_step q s c rest =
    if not (c == q)
    then s
    else if next_is q rest
    then record s { skip = 1 }
    else record s { open_quote = none }

unquoted_step : Continues → ℕ → Text → Continues
unquoted_step s c rest =
    if is_quote c
    then record s { open_quote = some c }
    else if at_block_comment c rest
    then elim (find_from (codes "*)") 2 (c ∷ rest)) [
      | none ↦ record s { returned = some true }
      | some j ↦ record s { skip = j + 1 }
    ]
    else if at_line_comment c rest
    then record s { returned = some false }
    else s

skip_continues : ℕ → Continues → Continues → Continues
skip_continues zero s next = next
skip_continues (suc k) s next = record s { skip = k }

unfoldable pub continues_step : Continues → ℕ → Text → Continues
unfolding quoted_step unquoted_step skip_continues
continues_step s c rest = elim s.returned [
  | some _ ↦ s
  | none ↦
      skip_continues s.skip s
        (elim s.open_quote [ some q ↦ quoted_step q s c rest | none ↦ unquoted_step s c rest ])
]

unfoldable pub continues_loop : Continues → Text → Continues
continues_loop s [] = s
continues_loop s (c ∷ rest) = continues_loop (continues_step s c rest) rest

-- `_line_continues`
unfoldable pub line_continues : Text → Bool
unfolding continues_loop continues_step
line_continues line = elim (continues_loop continues_start line).returned [
  | some b ↦ b
  | none ↦ ends_with (rstrip is_space line) (codes ";")
]

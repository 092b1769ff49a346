-- ===== src/Balance.antt =====
-- `check_end_balance` of vfp_static_validate.py with the table PAIRS and the patterns made of it:
-- `^\s*KEYWORD\b`, case ignored. What `re` takes for the same letter and for a word character are
-- parameters.
pub mod Counts
mod Tests
use mcp_vfp9sp2_toolchain.Base.{
  ℕ, ◌+◌, Bool, true, false, not, ◌&&◌, ◌||◌, Option, none, some, List, [], ◌∷◌, map, ltb, ◌==◌,
  if◌then◌else◌, length, is_empty, keep,
}
use mcp_vfp9sp2_toolchain.Base.Text.{Text, codes, text_eq, is_space, lstrip, strip, split_lines}
use mcp_vfp9sp2_toolchain.Base.Dict.{Dict, lookup, insert}
use mcp_vfp9sp2_toolchain.Blanking.{strip_strings_and_comments}
use mcp_vfp9sp2_toolchain.Finding.{Finding, error, end_balance}

-- What the patterns use of the module `re`.
pub record Letters : Type 0 where
  pub same_letter : ℕ → ℕ → Bool
  pub is_word : ℕ → Bool

abbrev pub pairs : List (Text × Text)
pairs =
    (codes "IF", codes "ENDIF")
    ∷ (codes "DO", codes "ENDDO")
    ∷ (codes "FOR", codes "ENDFOR")
    ∷ (codes "CASE", codes "ENDCASE")
    ∷ (codes "WHILE", codes "ENDWHILE")
    ∷ (codes "SCAN", codes "ENDSCAN")
    ∷ (codes "WITH", codes "ENDWITH")
    ∷ (codes "TRY", codes "ENDTRY")
    ∷ (codes "PROCEDURE", codes "ENDPROC")
    ∷ (codes "FUNCTION", codes "ENDFUNC")
    ∷ []

-- `o not in ("PROCEDURE", "FUNCTION")`
abbrev pub is_block : Text → Bool
is_block o = not (text_eq o (codes "PROCEDURE") || text_eq o (codes "FUNCTION"))

-- `d.get(c, 0)`
abbrev pub count_of : Text → Dict ℕ → ℕ
count_of c d = elim (lookup c d) [ none ↦ 0 | some n ↦ n ]

abbrev pub block_pairs : List (Text × Text)
block_pairs = keep (λ p. is_block p.0) pairs

-- one more for a key, where the test holds
unfoldable pub bump_if : Bool → Text → Dict ℕ → Dict ℕ
bump_if true c d = insert c (count_of c d + 1) d
bump_if false c d = d

abbrev pub no_counts : List (Text × Text) → Dict ℕ
no_counts = map (λ p. (p.1, 0))

-- The loop behind the counts: the pairs whose numbers differ.
unfoldable pub unequal_loop : Option Text → Dict ℕ → Dict ℕ → List (Text × Text) → List Finding
unequal_loop name expected counts [] = []
unequal_loop name expected counts ((o, c) ∷ rest) =
    let later = unequal_loop name expected counts rest in
    if is_block o && not (count_of c expected == count_of c counts)
    then record {
      check = end_balance o (count_of c expected) c (count_of c counts);
      severity = error;
      method = name;
    }
      ∷ later
    else later

-- the lines of the stripped code that are not blank
abbrev pub code_lines : Text → List Text
code_lines code =
    keep (λ l. not (is_empty (strip l))) (split_lines (strip_strings_and_comments code))

module _ (letters : Letters) where
  -- What stands behind the keyword, if the text begins with it.
  unfoldable pub after_keyword : Text → Text → Option Text
  after_keyword [] s = some s
  after_keyword (k ∷ kw) [] = none
  after_keyword (k ∷ kw) (c ∷ s) =
      let rest = after_keyword kw s in if letters.same_letter k c then rest else none

  -- `\b` behind a word character
  abbrev pub at_boundary : Text → Bool
  at_boundary [] = true
  at_boundary (c ∷ s) = not (letters.is_word c)

  -- `re.compile(r"^\s*" + kw + r"\b", re.IGNORECASE).match(line)`
  unfoldable pub begins_with : Text → Text → Bool
  unfolding after_keyword
  begins_with kw line = elim (after_keyword kw (lstrip is_space line)) [
    | none ↦ false
    | some rest ↦ at_boundary rest
  ]

  -- the two loops over PAIRS of one line
  unfoldable pub open_loop : Text → List (Text × Text) → Dict ℕ → Dict ℕ
  open_loop line [] expected = expected
  open_loop line ((o, c) ∷ rest) expected =
      open_loop line rest (bump_if (begins_with o line && is_block o) c expected)

  unfoldable pub close_loop : Text → List (Text × Text) → Dict ℕ → Dict ℕ
  close_loop line [] counts = counts
  close_loop line ((o, c) ∷ rest) counts =
      close_loop line rest (bump_if (begins_with c line) c counts)

  -- the loop over the lines; no count of one dictionary depends on the other
  unfoldable pub line_loop : List Text → Dict ℕ → Dict ℕ → Dict ℕ × Dict ℕ
  unfolding open_loop close_loop begins_with bump_if lookup insert text_eq
  line_loop [] expected counts = (expected, counts)
  line_loop (line ∷ lines) expected counts =
      line_loop lines (open_loop line pairs expected) (close_loop line pairs counts)

  unfoldable pub check_end_balance : Option Text → Text → ℕ → List Finding
  unfolding line_loop unequal_loop strip_strings_and_comments split_lines strip
  check_end_balance name code min_lines =
      let lines = code_lines code in
      let (expected, counts) = line_loop lines [] (no_counts pairs) in
      if ltb (length lines) min_lines then [] else unequal_loop name expected counts pairs

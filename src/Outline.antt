-- ===== src/Outline.antt =====
-- vfp_form_inventory.py: the patterns of `build_inventory`, and `_split_class_bodies`, which finds the
-- classes of a form in the lines of its text. A pattern is written out as the test that it makes;
-- what `re` takes for a word character is a parameter, of which no blank, quote or `=` is one.
pub mod Norm
pub mod Build
pub mod Classes
pub mod Assigned
pub mod Quoted
mod Tests
use mcp_vfp9sp2_toolchain.Base.{
  ℕ, ◌+◌, ◌-◌, Bool, true, false, not, ◌&&◌, ◌||◌, Option, none, some, List, [], ◌∷◌, ◌++◌,
  if◌then◌else◌, is_empty, length, ◌==◌,
}
use mcp_vfp9sp2_toolchain.Base.Text.{Text, codes, text_eq, starts_with, is_space, lstrip, strip}
use mcp_vfp9sp2_toolchain.Balance.{Letters, after_keyword, at_boundary}
use mcp_vfp9sp2_toolchain.Encoding.{◌>>=◌, until_quote, some_spaces}

-- The characters up to the first that fails the test, and what stands behind them.
abbrev pub span_of : (ℕ → Bool) → Text → Text × Text
span_of p [] = ([], [])
span_of p (c ∷ s) =
    let (taken, rest) = span_of p s in if p c then (c ∷ taken, rest) else ([], c ∷ s)

-- `(...+)` of a class of characters
abbrev pub some_of : (ℕ → Bool) → Text → Option (Text × Text)
some_of p s = let (taken, rest) = span_of p s in if is_empty taken then none else some (taken, rest)

-- What a DEFINE CLASS line or an ADD OBJECT says: its three groups.
pub record Declared : Type 0 where
  pub name : Text
  pub base_class : Text
  pub class_lib : Text

-- A class of the text; `end_line` is none where the next class begins before an ENDDEFINE.
pub record Body : Type 0 where
  pub line : ℕ
  pub declared : Declared
  pub end_line : Option ℕ
  pub body : List (ℕ × Text)

-- `if current: bodies.append(current)`
abbrev pub with_current : Option Body → List Body → List Body
with_current none bodies = bodies
with_current (some current) bodies = current ∷ bodies

-- `current.setdefault("endLine", ...)` and the append at the end
abbrev pub closed_at : ℕ → Option Body → List Body
closed_at n none = []
closed_at n (some current) =
    record current { end_line = elim current.end_line [ none ↦ some n | some e ↦ some e ] } ∷ []

module _ (letters : Letters) where
  -- `(?:\s+OF\s+"([^"]*)")?`, the group or the empty text, and what stands behind it
  abbrev pub of_group : Text → Text × Text
  of_group s =
      let found : Option (Text × Text) = (do
        a ← some_spaces s
        b ← after_keyword letters (codes "OF") a
        c ← some_spaces b
        d ← after_keyword letters (codes "\"") c
        until_quote d) in
      elim found [ none ↦ ([], s) | some (lib, rest) ↦ (lib, rest) ]

  -- `\s+AS\s+(\w+)` and the group behind it
  abbrev pub as_group : Text → Text → Option (Declared × Text)
  as_group name s = do
    a ← some_spaces s
    b ← after_keyword letters (codes "AS") a
    c ← some_spaces b
    (base, d) ← some_of letters.is_word c
    let (lib, rest) = of_group d
    some (record { name = name; base_class = base; class_lib = lib }, rest)

  -- RE_DEFINE_CLASS on a line
  unfoldable pub define_class : Text → Option Declared
  unfolding after_keyword
  define_class line = do
    a ← after_keyword letters (codes "DEFINE") (lstrip is_space line)
    b ← some_spaces a
    c ← after_keyword letters (codes "CLASS") b
    d ← some_spaces c
    (name, e) ← some_of letters.is_word d
    (found, rest) ← as_group name e
    some found

  -- RE_ENDDEFINE on a line
  unfoldable pub is_enddefine : Text → Bool
  unfolding after_keyword
  is_enddefine line = elim (after_keyword letters (codes "ENDDEFINE") (lstrip is_space line)) [
    | none ↦ false
    | some rest ↦ is_empty (lstrip is_space rest)
  ]

  -- RE_ADD_OBJECT at the start of a line, and what stands behind it
  unfoldable pub add_object : Text → Option (Declared × Text)
  unfolding after_keyword
  add_object s = do
    a ← after_keyword letters (codes "ADD") (lstrip is_space s)
    b ← some_spaces a
    c ← after_keyword letters (codes "OBJECT") b
    d ← some_spaces c
    e ← after_keyword letters (codes "'") d
    (name, f) ← some_of (λ c. not (c == b'\'')) e
    g ← after_keyword letters (codes "'") f
    as_group name g

  -- RE_PROP_BLOCK on a line: the key, and the value without the blanks around it. A value of blanks
  -- alone is the last of them.
  unfoldable pub prop_block : Text → Option (Text × Text)
  unfolding strip
  prop_block line = do
    (key, a) ← some_of (λ c. letters.is_word c || c == b'.') (lstrip is_space line)
    b ← after_keyword letters (codes "=") (lstrip is_space a)
    value ← value_of b
    some (key, value)
    where
      last : ℕ → Text → Text
      last c [] = c ∷ []
      last c (d ∷ s) = last d s

      value_of : Text → Option Text
      value_of [] = none
      value_of (c ∷ s) = some (if is_empty (strip (c ∷ s)) then last c s else strip (c ∷ s))

  -- `^(PROTECTED\s+)?(PROCEDURE|FUNCTION)\b` on a stripped line
  unfoldable pub is_method_start : Text → Bool
  unfolding after_keyword
  is_method_start s =
      let protected : Option Text = (do
        a ← after_keyword letters (codes "PROTECTED") s
        some_spaces a) in
      let rest : Text = elim protected [ none ↦ s | some r ↦ r ] in
      begins (codes "PROCEDURE") rest || begins (codes "FUNCTION") rest
    where
      begins : Text → Text → Bool
      begins kw t = elim (after_keyword letters kw t) [
        | none ↦ false
        | some r ↦ at_boundary letters r
      ]

  -- The loop of `_split_class_bodies` at line `idx`, with `current`.
  unfoldable pub split_loop : ℕ → Option Body → List Text → List Body
  unfolding define_class is_enddefine
  split_loop idx current [] = closed_at (idx - 1) current
  split_loop idx current (line ∷ lines) = elim (define_class line) [
    | some found ↦ with_current current (
        split_loop (idx + 1)
          (some (record { line = idx; declared = found; end_line = none; body = [] })) lines)
    | none ↦ elim current [
      | none ↦ split_loop (idx + 1) none lines
      | some b ↦ elim (is_enddefine line) [
        | true ↦ record b { end_line = some idx } ∷ split_loop (idx + 1) none lines
        | false ↦ split_loop (idx + 1) (some (record b { body = b.body ++ (idx, line) ∷ [] })) lines
      ]
    ]
  ]

  -- `_split_class_bodies`
  unfoldable pub split_class_bodies : List Text → List Body
  unfolding split_loop
  split_class_bodies lines = split_loop 0 none lines

-- ===== src/Outline/Norm.antt =====
-- vfp_form_inventory.py: `_norm`, the value of a property, and when Python finds two values equal.
-- How `float` reads a text, and when two of its numbers are equal, is a parameter.
use mcp_vfp9sp2_toolchain.Base.{
  ℕ, Bool, true, false, ◌&&◌, ◌||◌, Option, none, some, List, [], ◌∷◌, if◌then◌else◌, any, ◌==◌,
}
use mcp_vfp9sp2_toolchain.Base.Text.{Text, codes, text_eq, strip, Casing}
use mcp_vfp9sp2_toolchain.Encoding.{Number, parse_int}

-- The floating-point numbers of the host.
pub record Floats : Type 1 where
  pub Float : Type 0
  -- `float(s)`; none is a `ValueError`
  pub read : Text → Option Float
  pub same_float : Float → Float → Bool
  pub same_int : Float → Number → Bool

pub data Value (F : Type 0) : Type 0 where
  bool : Bool → Value F
  int : Number → Value F
  float : F → Value F
  text : Text → Value F

-- The characters but the last, which is compared with `q`: a text that ends with `q` loses it.
unfoldable pub without_last : ℕ → Text → Option Text
without_last q [] = none
without_last q (c ∷ []) = if c == q then some [] else none
without_last q (c ∷ d ∷ s) = elim (without_last q (d ∷ s)) [ none ↦ none | some r ↦ some (c ∷ r) ]

-- `if len(s) >= 2 and s[0] == s[-1] and s[0] in ('"', "'"): s = s[1:-1]`
unfoldable pub unquoted : Text → Text
unfolding without_last
unquoted [] = []
unquoted (c ∷ s) =
    if c == b'"' || c == b'\'' then elim (without_last c s) [ none ↦ c ∷ s | some r ↦ r ] else c ∷ s

-- the tuple of marks that are kept in upper case
abbrev pub marks : List Text
marks = codes ".C." ∷ codes ".N." ∷ codes ".D." ∷ codes ".L." ∷ codes ".M." ∷ codes ".T" ∷ []

-- `int(True)` and `int(False)`
abbrev pub number_of : Bool → Number
number_of true = (false, 1)
number_of false = (false, 0)

abbrev pub same_number : Number → Number → Bool
same_number (false, m) (false, n) = m == n
same_number (true, m) (true, n) = m == n
same_number (_, m) (_, n) = m == 0 && n == 0

module _ (floats : Floats) where
  -- `a == b`
  abbrev pub same_value_of : Value floats.Float → Value floats.Float → Bool
  same_value_of (text s) (text t) = text_eq s t
  same_value_of (text s) _ = false
  same_value_of _ (text t) = false
  same_value_of (bool a) (bool b) = same_number (number_of a) (number_of b)
  same_value_of (bool a) (int n) = same_number (number_of a) n
  same_value_of (int m) (bool b) = same_number m (number_of b)
  same_value_of (int m) (int n) = same_number m n
  same_value_of (float x) (float y) = floats.same_float x y
  same_value_of (float x) (bool b) = floats.same_int x (number_of b)
  same_value_of (float x) (int n) = floats.same_int x n
  same_value_of (bool a) (float y) = floats.same_int y (number_of a)
  same_value_of (int m) (float y) = floats.same_int y m

  -- `float(s)` where there is a dot in it and else `int(s)`; a `ValueError` leaves the text.
  abbrev pub read_number : Text → Value floats.Float
  read_number s =
      if any (λ c. c == b'.') s
      then elim (floats.read s) [ none ↦ text s | some x ↦ float x ]
      else elim (parse_int s) [ none ↦ text s | some n ↦ int n ]

  -- `_norm` behind the quotes
  unfoldable pub norm_inner : Casing → Text → Value floats.Float
  unfolding text_eq parse_int
  norm_inner casing s =
      let up = casing.upper s in
      if text_eq up (codes ".T.")
      then bool true
      else if text_eq up (codes ".F.")
      then bool false
      else if any (text_eq up) marks
      then text up
      else read_number s

  -- `_norm`
  unfoldable pub norm : Casing → Text → Value floats.Float
  unfolding norm_inner unquoted strip
  norm casing value = norm_inner casing (unquoted (strip value))

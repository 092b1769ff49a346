-- ===== src/Base/Text.antt =====
-- What the program uses of Python's `str`: a text is the list of its code points.
use Prim.Native.Char.{code}
use Prim.Native.Nat.{ℕ, ◌+◌, ◌-◌}
use Prim.Native.String.{String}
use mathlib.Core.Path.{◌≡◌, refl}
use mathlib.Core.Logic.{◌↔◌}
use mathlib.Core.Bool.{Bool, true, false, ◌&&◌, ◌||◌}
use mathlib.Core.Option.{Option, none, some}
use mathlib.Core.List.{List, [], ◌∷◌, ◌++◌, map}
use native.Mathlib.Omega.{arith}
use mcp_vfp9sp2_toolchain.Base.Tests.{◌==◌, within, if◌then◌else◌}
use mcp_vfp9sp2_toolchain.Base.Lists.{is_empty, drop}

abbrev pub Text : Type 0
Text = List ℕ

-- A literal of the source.
abbrev pub codes : String → Text
codes String.[] = []
codes (String.◌∷◌ c s) = code c ∷ codes s

-- `s == t`
unfoldable pub text_eq : Text → Text → Bool
text_eq [] [] = true
text_eq (x ∷ xs) (y ∷ ys) = x == y && text_eq xs ys
text_eq _ _ = false

pub text_eq_iff : (s t : Text) → (text_eq s t ≡ true) ↔ (s ≡ t)
unfolding text_eq
text_eq_iff (x ∷ xs) (y ∷ ys) = ground (arith, text_eq_iff xs ys)
text_eq_iff _ _ = ground arith

pub text_eq_refl : (s : Text) → text_eq s s ≡ true
text_eq_refl s = (text_eq_iff s s).1 refl

-- `s.startswith(p)`
unfoldable pub starts_with : Text → Text → Bool
starts_with s [] = true
starts_with [] (y ∷ p) = false
starts_with (x ∷ s) (y ∷ p) = x == y && starts_with s p

-- `str.isspace` of one character
unfoldable pub is_space : ℕ → Bool
is_space c =
    within 9 13 c
    || within 28 32 c
    || c == 133
    || c == 160
    || c == 5760
    || within 8192 8202 c
    || within 8232 8233 c
    || c == 8239
    || c == 8287
    || c == 12288

-- `s.lstrip(...)` and `s.rstrip(...)`, of the characters that pass the test
abbrev pub lstrip : (ℕ → Bool) → Text → Text
lstrip p [] = []
lstrip p (c ∷ s) = elim (p c) [ true ↦ lstrip p s | false ↦ c ∷ s ]

abbrev pub rstrip : (ℕ → Bool) → Text → Text
rstrip p [] = []
rstrip p (c ∷ s) = let rest = rstrip p s in if is_empty rest && p c then [] else c ∷ rest

-- `s.strip()`
unfoldable pub strip : Text → Text
unfolding is_space
strip s = rstrip is_space (lstrip is_space s)

-- where `str.splitlines` breaks
unfoldable pub is_line_break : ℕ → Bool
is_line_break c = within 10 13 c || within 28 30 c || c == 133 || within 8232 8233 c

-- `skip`: the character before was a carriage return, so a line feed belongs to that break
lines_from : Bool → Text → Text → List Text
lines_from skip cur [] = if is_empty cur then [] else cur ∷ []
lines_from skip cur (c ∷ s) = elim (skip && c == 10) [
  | true ↦ lines_from false cur s
  | false ↦ elim (is_line_break c) [
    | true ↦ cur ∷ lines_from (c == 13) [] s
    | false ↦ lines_from false (cur ++ c ∷ []) s
  ]
]

-- `s.splitlines()`
unfoldable pub split_lines : Text → List Text
unfolding lines_from is_line_break
split_lines s = lines_from false [] s

-- `sep.join(parts)`
abbrev pub join : Text → List Text → Text
join sep [] = []
join sep (s ∷ []) = s
join sep (s ∷ t ∷ rest) = s ++ (sep ++ join sep (t ∷ rest))

-- `str.upper` and `str.lower`: the tables of Unicode stand outside the program.
pub record Casing : Type 0 where
  pub upper : Text → Text
  pub lower : Text → Text

-- The two mappings on ASCII, for the tests.
abbrev pub ascii : Casing
ascii = record {
  upper = map (λ c. if within 97 122 c then c - 32 else c);
  lower = map (λ c. if within 65 90 c then c + 32 else c);
}

ascii_upper : ascii.upper (codes "End_Proc 1") ≡ codes "END_PROC 1"
ascii_upper = refl

split_lines_crlf : split_lines (codes "a\r\n\nb") ≡ codes "a" ∷ [] ∷ codes "b" ∷ []
unfolding split_lines
split_lines_crlf = refl

strip_blanks : strip (codes "  a b\t") ≡ codes "a b"
unfolding strip
strip_blanks = refl

-- `s.endswith(p)`
unfoldable pub ends_with : Text → Text → Bool
unfolding text_eq
ends_with [] p = text_eq [] p
ends_with (c ∷ s) p = text_eq (c ∷ s) p || ends_with s p

-- Where `p` first stands in `s`, counted from `at`.
unfoldable pub find_at : Text → ℕ → Text → Option ℕ
unfolding starts_with
find_at p at [] = if is_empty p then some at else none
find_at p at (c ∷ s) =
    let later = find_at p (at + 1) s in if starts_with (c ∷ s) p then some at else later

-- `s.find(p, start)`, `none` for -1
abbrev pub find_from : Text → ℕ → Text → Option ℕ
find_from p start s = find_at p start (drop start s)

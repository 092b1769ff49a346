-- ===== src/MethodParser.antt =====
-- vfp_method_parser.py: logical lines, the lines that open and close a method, and the methods of a
-- text. The hash is a parameter, and so are the case mappings.
pub mod Tiles
pub mod Ranges
pub mod Reading
pub mod Find
mod Tests
use mcp_vfp9sp2_toolchain.Base.{
  ℕ, zero, suc, ◌+◌, ◌-◌, Bool, true, false, not, ◌&&◌, Option, none, some, List, [], ◌∷◌, ◌++◌,
  map, if◌then◌else◌, length, take, drop, keep, is_empty,
}
use mcp_vfp9sp2_toolchain.Base.Text.{Text, codes, text_eq, strip, join, split_lines, Casing}
use mcp_vfp9sp2_toolchain.Base.Dict.{Dict, lookup, insert}
use mcp_vfp9sp2_toolchain.Lexer.{words, line_continues}

-- A logical line: its text, and the first and last physical line, from 1.
pub record Logical : Type 0 where
  pub text : Text
  pub first : ℕ
  pub last : ℕ

-- `" ".join(b.strip() for b in buf)`
abbrev pub merged : List Text → Text
merged buf = join (codes " ") (map strip buf)

-- The loop of `_strip_continuations` at line number `idx`; `start` is none while `buf` is empty.
unfoldable pub strip_loop : ℕ → List Text → Option ℕ → List Text → List Logical
strip_loop idx buf start [] =
    if is_empty buf
    then []
    else record { text = merged buf; first = elim start [ none ↦ 1 | some s ↦ s ]; last = idx - 1 }
      ∷ []
strip_loop idx buf start (line ∷ lines) =
    let begun : ℕ = elim start [ none ↦ idx | some s ↦ s ] in
    let buf' = buf ++ line ∷ [] in
    elim (line_continues line) [
      | true ↦ strip_loop (idx + 1) buf' (some begun) lines
      | false ↦
          record { text = merged buf'; first = begun; last = idx }
          ∷ strip_loop (idx + 1) [] none lines
    ]

-- `_strip_continuations`
unfoldable pub strip_continuations : List Text → List Logical
unfolding strip_loop
strip_continuations lines = strip_loop 1 [] none lines

pub data Kind : Type 0 where
  procedure function : Kind

unfoldable pub kind_eq : Kind → Kind → Bool
kind_eq procedure procedure = true
kind_eq function function = true
kind_eq _ _ = false

pub record Method : Type 0 where
  pub name : Text
  pub kind : Kind
  pub line_start : ℕ
  pub line_end : ℕ
  pub line_count : ℕ
  pub code : Text
  pub source_sha256 : Text
  pub unterminated : Bool

module _ (casing : Casing) where
  -- the tests of `_match_delimiter` on the tokens, once a leading PROTECTED is dropped
  delimiter_name : Text → Text → List Text → Option Text
  delimiter_name kind_start kind_end [] = none
  delimiter_name kind_start kind_end (first ∷ tokens) =
      if text_eq (casing.upper first) kind_start
      then elim tokens [ [] ↦ none | name ∷ _ ↦ some name ]
      else if text_eq (casing.upper first) kind_end && is_empty tokens
      then some []
      else none

  drop_protected : List Text → List Text
  drop_protected [] = []
  drop_protected (first ∷ []) = first ∷ []
  drop_protected (first ∷ second ∷ tokens) =
      if text_eq (casing.upper first) (codes "PROTECTED")
      then second ∷ tokens
      else first ∷ second ∷ tokens

  -- `_match_delimiter`
  unfoldable pub match_delimiter : Logical → Text → Text → Option Text
  unfolding delimiter_name drop_protected
  match_delimiter logical kind_start kind_end =
      if is_empty (strip logical.text)
      then none
      else delimiter_name kind_start kind_end (drop_protected (words (strip logical.text)))

  abbrev pub match_kind : Kind → Logical → Option Text
  match_kind procedure logical = match_delimiter logical (codes "PROCEDURE") (codes "ENDPROC")
  match_kind function logical = match_delimiter logical (codes "FUNCTION") (codes "ENDFUNC")

  -- The kind and the name that a line begins; a line that matches neither begins nothing.
  unfoldable pub begins : Logical → Option (Kind × Text)
  begins logical = elim (match_kind procedure logical) [
    | some name ↦ some (procedure, name)
    | none ↦ elim (match_kind function logical) [ some name ↦ some (function, name) | none ↦ none ]
  ]

  -- `_match_delimiter(...) == ""` for the kind of the open method
  unfoldable pub is_end : Kind → Logical → Bool
  is_end kind logical = elim (match_kind kind logical) [ none ↦ false | some name ↦ is_empty name ]

  -- The inner loop: how many lines are passed over to the first end of that kind, and its last
  -- physical line.
  unfoldable pub find_end : Kind → List Logical → Option (ℕ × ℕ)
  find_end kind [] = none
  find_end kind (l ∷ rest) =
      let later = find_end kind rest in
      elim (is_end kind l) [
        | true ↦ some (0, l.last)
        | false ↦ elim later [ none ↦ none | some (n, last) ↦ some (n + 1, last) ]
      ]

  module _ (sha256 : Text → Text) where
    -- The record of a method that begins at `l` and ends at physical line `line_end`.
    abbrev pub method_of : List Text → Logical → Kind × Text → ℕ → Bool → Method
    method_of lines l (kind, name) line_end closed =
        let code = join (codes "\n") (take (line_end - (l.first - 1)) (drop (l.first - 1) lines)) in
        record {
          name = name;
          kind = kind;
          line_start = l.first;
          line_end = line_end;
          line_count = line_end - l.first + 1;
          code = code;
          source_sha256 = sha256 code;
          unterminated = not closed;
        }

    -- The outer loop; `skip` logical lines belong to the method that was closed last.
    unfoldable pub parse_loop : List Text → ℕ → List Logical → List Method
    parse_loop lines skip [] = []
    parse_loop lines (suc k) (l ∷ rest) = parse_loop lines k rest
    parse_loop lines zero (l ∷ rest) = elim (begins l) [
      | none ↦ parse_loop lines 0 rest
      | some (kind, name) ↦ elim (find_end kind rest) [
        | some (n, last) ↦ method_of lines l (kind, name) last true ∷ parse_loop lines (n + 1) rest
        | none ↦ method_of lines l (kind, name) (length lines) false ∷ parse_loop lines 0 rest
      ]
    ]

    -- `parse_methods`
    unfoldable pub parse_methods : Text → List Method
    unfolding parse_loop
    parse_methods text =
        let lines = split_lines text in parse_loop lines 0 (strip_continuations lines)

    -- `method_code_sha256`; no code is the empty text
    unfoldable pub method_code_sha256 : Option Text → Text
    method_code_sha256 code = sha256 (elim code [ none ↦ [] | some s ↦ s ])

  -- the loop of `methods_by_name`
  unfoldable pub by_name_loop : List Method → Dict (List Method) → Dict (List Method)
  by_name_loop [] out = out
  by_name_loop (m ∷ rest) out =
      let had : List Method = elim (lookup (casing.lower m.name) out) [
        | none ↦ []
        | some ms ↦ ms
      ] in
      by_name_loop rest (insert (casing.lower m.name) (had ++ m ∷ []) out)

  -- `methods_by_name`: the records of each lowercased name, in order
  unfoldable pub methods_by_name : List Method → Dict (List Method)
  methods_by_name methods = by_name_loop methods []

  abbrev pub is_candidate : Option Text → Option Kind → Method → Bool
  is_candidate name kind m =
      text_eq (casing.lower m.name) (casing.lower (elim name [ none ↦ [] | some s ↦ s ]))
      && elim kind [ none ↦ true | some k ↦ kind_eq m.kind k ]

  -- `find_method`
  unfoldable pub find_method : List Method → Option Text → Option Kind → Option Method
  find_method methods name kind = elim (keep (is_candidate name kind) methods) [
    | [] ↦ none
    | m ∷ others ↦ if is_empty others then some m else none
  ]

-- ===== src/MethodParser/Reading.antt =====
-- How the methods of a text are read off its logical lines.
use mathlib.Core.Option.{some-injective}
use native.Mathlib.Numerals.{add-one}
use mcp_vfp9sp2_toolchain.Base.{
  ℕ, zero, suc, ◌+◌, ◌≡◌, refl, sym, ap, ◌∙◌, Bool, true, false, not, none, some, List, [], ◌∷◌,
  ◌++◌, All, length, Bool-cases, Option-cases, inl, inr, drop,
}
use mcp_vfp9sp2_toolchain.Base.Text.{Text, Casing, split_lines}
use mcp_vfp9sp2_toolchain.MethodParser.{
  Logical, Kind, Method, is_end, find_end, begins, method_of, parse_loop, parse_methods,
  strip_continuations,
}

-- The record has the name and the kind that its first line gives, begins with this line, ends where
-- it is said, and says whether an end was missing.
pub record IsRecord (l : Logical) (kind : Kind) (name : Text) (line_end : ℕ) (unterminated : Bool)
    (m : Method) : Type 0 where
  pub name_is : m.name ≡ name
  pub kind_is : m.kind ≡ kind
  pub start_is : m.line_start ≡ l.first
  pub end_is : m.line_end ≡ line_end
  pub unterminated_is : m.unterminated ≡ unterminated

-- The methods of some logical lines of a text with so many lines. A line that begins no method is
-- passed over. One that begins a method has a record: up to the first end of its kind, behind which
-- the next method is looked for; or up to the end of the text where there is no such end, and then
-- the next method is looked for behind its first line.
pub data IsReading (casing : Casing) (total : ℕ) : List Logical → List Method → Type 0 where
  done : IsReading casing total [] []
  plain :
      {l : Logical} {rest : List Logical} {ms : List Method}
      → begins casing l ≡ none
      → IsReading casing total rest ms
      → IsReading casing total (l ∷ rest) ms
  closed :
      {l : Logical} {kind : Kind} {name : Text} {rest : List Logical} {m : Method}
      {ms : List Method} (body : List Logical) (e : Logical) (more : List Logical)
      → begins casing l ≡ some (kind, name)
      → rest ≡ body ++ e ∷ more
      → All (λ x. is_end casing kind x ≡ false) body
      → is_end casing kind e ≡ true
      → IsRecord l kind name e.last false m
      → IsReading casing total more ms
      → IsReading casing total (l ∷ rest) (m ∷ ms)
  endless :
      {l : Logical} {kind : Kind} {name : Text} {rest : List Logical} {m : Method}
      {ms : List Method}
      → begins casing l ≡ some (kind, name)
      → All (λ x. is_end casing kind x ≡ false) rest
      → IsRecord l kind name total true m
      → IsReading casing total rest ms
      → IsReading casing total (l ∷ rest) (m ∷ ms)

module _ (casing : Casing) where
  -- The lines up to the first end of a kind.
  record Ended (kind : Kind) (logical : List Logical) (r : ℕ × ℕ) : Type 0 where
    pub body : List Logical
    pub last_line : Logical
    pub splits : logical ≡ body ++ last_line ∷ drop (suc r.0) logical
    pub inside : All (λ x. is_end casing kind x ≡ false) body
    pub ends : is_end casing kind last_line ≡ true
    pub place : last_line.last ≡ r.1

  find_end-Ended :
      (kind : Kind) (logical : List Logical) (r : ℕ × ℕ)
      → find_end casing kind logical ≡ some r
      → Ended kind logical r
  unfolding find_end
  find_end-Ended kind [] r h = absurd (cc h)
  find_end-Ended kind (l ∷ rest) r h = elim (Bool-cases (is_end casing kind l)) [
    | inl hit ↦
        let same : (0, l.last) ≡ r = some-injective _ _ (rw (hit, find_end) at h) in
        record {
          body = [];
          last_line = l;
          splits = ap (λ x. l ∷ drop x.0 rest) same;
          inside = tt;
          ends = hit;
          place = ap (λ x. x.1) same;
        }
    | inr miss ↦ elim (Option-cases (find_end casing kind rest)) [
      | inl never ↦ absurd (cc (rw (miss, never, find_end) at h))
      | inr (f, later) ↦
          let same : (f.0 + 1, f.1) ≡ r = some-injective _ _ (rw (miss, later, find_end) at h) in
          let more = find_end-Ended kind rest f later in
          record {
            body = l ∷ more.body;
            last_line = more.last_line;
            splits =
                ap (λ x. l ∷ x) more.splits
                ∙ ap (λ k. l ∷ more.body ++ more.last_line ∷ drop k rest) (sym (add-one f.0))
                ∙ ap (λ x. l ∷ more.body ++ more.last_line ∷ drop x.0 rest) same;
            inside = (miss, more.inside);
            ends = more.ends;
            place = more.place ∙ ap (λ x. x.1) same;
          }
    ]
  ]

  find_end-none :
      (kind : Kind) (logical : List Logical)
      → find_end casing kind logical ≡ none
      → All (λ x. is_end casing kind x ≡ false) logical
  unfolding find_end
  find_end-none kind [] h = tt
  find_end-none kind (l ∷ rest) h = elim (Bool-cases (is_end casing kind l)) [
    | inl hit ↦ absurd (cc (rw (hit, find_end) at h))
    | inr miss ↦ elim (Option-cases (find_end casing kind rest)) [
      | inl never ↦ (miss, find_end-none kind rest never)
      | inr (f, later) ↦ absurd (cc (rw (miss, later, find_end) at h))
    ]
  ]

  module _ (sha256 : Text → Text) where
    method_of-IsRecord :
        (lines : List Text) (l : Logical) (kind : Kind) (name : Text) (line_end : ℕ) (end : Bool)
        → IsRecord l kind name line_end
            (not end)
            (method_of casing sha256 lines l (kind, name) line_end end)
    method_of-IsRecord lines l kind name line_end end = record {
      name_is = refl;
      kind_is = refl;
      start_is = refl;
      end_is = refl;
      unterminated_is = refl;
    }

    parse_loop-IsReading :
        (lines : List Text) (skip : ℕ) (logical : List Logical)
        → IsReading casing
            (length lines)
            (drop skip logical)
            (parse_loop casing sha256 lines skip logical)
    unfolding parse_loop
    parse_loop-IsReading lines zero [] = done
    parse_loop-IsReading lines (suc k) [] = done
    parse_loop-IsReading lines (suc k) (l ∷ rest) = parse_loop-IsReading lines k rest
    parse_loop-IsReading lines zero (l ∷ rest) = elim (Option-cases (begins casing l)) [
      | inl nothing ↦ rw (nothing, parse_loop) (plain nothing (parse_loop-IsReading lines 0 rest))
      | inr (begun, starts) ↦ elim (Option-cases (find_end casing begun.0 rest)) [
        | inl never ↦
            rw (starts, never, parse_loop)
              (endless starts (find_end-none begun.0 rest never)
                (method_of-IsRecord lines l begun.0 begun.1 (length lines) false)
                (parse_loop-IsReading lines 0 rest))
        | inr (f, ended) ↦
            let e = find_end-Ended begun.0 rest f ended in
            rw (starts, ended, parse_loop)
              (closed e.body e.last_line (drop (suc f.0) rest) starts e.splits e.inside e.ends
                (rw (e.place) (method_of-IsRecord lines l begun.0 begun.1 f.1 true))
                (rw (sym (add-one f.0)) (parse_loop-IsReading lines (f.0 + 1) rest)))
      ]
    ]

    pub parse_methods-IsReading :
        (text : Text)
        → IsReading casing
            (length (split_lines text))
            (strip_continuations (split_lines text))
            (parse_methods casing sha256 text)
    unfolding parse_methods
    parse_methods-IsReading text = parse_loop-IsReading (split_lines text) 0 _

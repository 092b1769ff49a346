-- ===== src/MethodParser/Ranges.antt =====
-- The line ranges of the parsed methods: inside the text, in order, and disjoint once closed.
use mathlib.Core.Path.{subst}
use mathlib.Core.Option.{some-injective}
use native.Mathlib.Numerals.{add-one}
use mcp_vfp9sp2_toolchain.Base.{
  ℕ, zero, suc, ◌+◌, ◌-◌, ◌≤◌, ◌≡◌, refl, Bool, true, false, some, List, [], ◌∷◌, arith, length,
  Bool-cases, Option-cases, inl, inr, take, drop, length-take-le, length-drop, if◌then◌else◌,
}
use mcp_vfp9sp2_toolchain.Base.Text.{Text, Casing, codes, join, split_lines}
use mcp_vfp9sp2_toolchain.MethodParser.{
  Logical, Kind, Method, is_end, find_end, begins, method_of, parse_loop, parse_methods,
  strip_continuations,
}
use mcp_vfp9sp2_toolchain.MethodParser.Reading.{IsReading, parse_methods-IsReading}
use mcp_vfp9sp2_toolchain.MethodParser.Tiles.{Tiles, tile, strip_continuations-Tiles}

-- The record agrees with the text: its lines are lines of the text, `code` is exactly those lines,
-- `line_count` is their number, and the hash is the hash of `code`.
pub record IsMethodOf (sha256 : Text → Text) (lines : List Text) (m : Method) : Type 0 where
  pub starts : 1 ≤ m.line_start
  pub rises : m.line_start ≤ m.line_end
  pub ends : m.line_end ≤ length lines
  pub count_is : m.line_count + m.line_start ≡ m.line_end + 1
  pub code_is : m.code ≡ join (codes "\n") (take m.line_count (drop (m.line_start - 1) lines))
  pub lines_are : length (take m.line_count (drop (m.line_start - 1) lines)) ≡ m.line_count
  pub hash_is : m.source_sha256 ≡ sha256 m.code

-- The first line that the next method may have: behind a closed method its last line, behind an
-- unterminated one its first.
abbrev pub behind : Method → ℕ
behind m = if m.unterminated then m.line_start + 1 else m.line_end + 1

-- The methods stand in the order of the text, from line `low` on, and none begins inside a closed one.
pub data InOrder (sha256 : Text → Text) (lines : List Text) : ℕ → List Method → Type 0 where
  nil : {low : ℕ} → InOrder sha256 lines low []
  cons :
      {low : ℕ} {m : Method} {ms : List Method}
      → low ≤ m.line_start
      → IsMethodOf sha256 lines m
      → InOrder sha256 lines (behind m) ms
      → InOrder sha256 lines low (m ∷ ms)

weaken :
    {sha256 : Text → Text} {lines : List Text} {high low : ℕ} {ms : List Method}
    → low ≤ high
    → InOrder sha256 lines high ms
    → InOrder sha256 lines low ms
weaken h nil = nil
weaken h (cons k v r) = cons (omega arith) v r

module _ (casing : Casing) where
  -- The end that is found lies in the text, and what follows it is tiled from the next line on.
  find_end-Tiles :
      (total : ℕ) (kind : Kind) (logical : List Logical) {next : ℕ} {r : ℕ × ℕ}
      → Tiles total next logical
      → find_end casing kind logical ≡ some r
      → (next ≤ r.1) × (r.1 ≤ total) × Tiles total (r.1 + 1) (drop (suc r.0) logical)
  unfolding find_end
  find_end-Tiles total kind [] t h = absurd (cc h)
  find_end-Tiles total kind (l ∷ rest) {next} (tile e r s t) h =
      let Found = λ (f : ℕ × ℕ).
        (next ≤ f.1) × (f.1 ≤ total) × Tiles total (f.1 + 1) (drop (suc f.0) (l ∷ rest)) in
      elim (Bool-cases (is_end casing kind l)) [
        | inl hit ↦ subst Found (some-injective _ _ (rw (hit, find_end) at h)) (omega arith, s, t)
        | inr miss ↦ elim (Option-cases (find_end casing kind rest)) [
          | inl never ↦ absurd (cc (rw (miss, never, find_end) at h))
          | inr (f, later) ↦
              let (a, b, c) = find_end-Tiles total kind rest t later in
              subst Found (some-injective _ _ (rw (miss, later, find_end) at h))
                (omega arith, b, rw (add-one f.0) c)
        ]
      ]

  module _ (sha256 : Text → Text) where
    method_of-IsMethodOf :
        (lines : List Text) (l : Logical) (begun : Kind × Text) (line_end : ℕ) (closed : Bool)
        → 1 ≤ l.first
        → l.first ≤ line_end
        → line_end ≤ length lines
        → IsMethodOf sha256 lines (method_of casing sha256 lines l begun line_end closed)
    method_of-IsMethodOf lines l (kind, name) line_end closed a b c =
        let count : line_end - l.first + 1 ≡ line_end - (l.first - 1) = omega arith in
        let room : line_end - (l.first - 1) ≤ length (drop (l.first - 1) lines) =
          omega (arith, length-drop (l.first - 1) lines) in
        record {
          starts = a;
          rises = b;
          ends = c;
          count_is = omega arith;
          code_is = rw count;
          lines_are = rw count (length-take-le _ _ room);
          hash_is = refl;
        }

    parse_loop-InOrder :
        (lines : List Text) (skip : ℕ) (logical : List Logical) {next : ℕ}
        → 1 ≤ next
        → Tiles (length lines) next (drop skip logical)
        → InOrder sha256 lines next (parse_loop casing sha256 lines skip logical)
    unfolding parse_loop
    parse_loop-InOrder lines skip [] p t = nil
    parse_loop-InOrder lines (suc k) (l ∷ rest) p t = parse_loop-InOrder lines k rest p t
    parse_loop-InOrder lines zero (l ∷ rest) p (tile e r s t) =
        elim (Option-cases (begins casing l)) [
          | inl plain ↦
              rw (plain, parse_loop)
                (weaken (omega arith) (parse_loop-InOrder lines 0 rest (omega arith) t))
          | inr (begun, starts) ↦ elim (Option-cases (find_end casing begun.0 rest)) [
            | inl never ↦
                rw (starts, never, parse_loop)
                  (cons (omega arith)
                    (method_of-IsMethodOf lines l begun (length lines) false (omega arith)
                      (omega arith) (omega arith))
                    (weaken (omega arith) (parse_loop-InOrder lines 0 rest (omega arith) t)))
            | inr (f, ended) ↦
                let (after, inside, more) = find_end-Tiles (length lines) begun.0 rest t ended in
                rw (starts, ended, parse_loop)
                  (cons (omega arith)
                    (method_of-IsMethodOf lines l begun f.1 true (omega arith) (omega arith) inside)
                    (parse_loop-InOrder lines (f.0 + 1) rest (omega arith) (rw (add-one f.0) more)))
          ]
        ]

    -- The methods of a text are read off its logical lines. A line that begins no method is passed
    -- over. One that begins a method has a record with the name and the kind that it gives: up to the
    -- first end of its kind, and reading goes on behind this end; or, where there is none, to the end
    -- of the text, which the record says, and reading goes on with the next line. The records are in
    -- the order of their lines, none begins inside a closed one before it, and the code, the numbers
    -- and the hash of each are those of its lines of the text.
    pub parse_methods-InOrder :
        (text : Text)
        → InOrder sha256 (split_lines text) 1 (parse_methods casing sha256 text)
          × IsReading casing
              (length (split_lines text))
              (strip_continuations (split_lines text))
              (parse_methods casing sha256 text)
    unfolding parse_methods
    parse_methods-InOrder text = (
      parse_loop-InOrder (split_lines text) 0 (strip_continuations (split_lines text)) (omega arith)
          (strip_continuations-Tiles (split_lines text)),
      parse_methods-IsReading casing sha256 text,
    )

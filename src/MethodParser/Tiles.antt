-- ===== src/MethodParser/Tiles.antt =====
-- `_strip_continuations` cuts the physical lines into consecutive ranges: none is lost, none is in
-- two logical lines.
use mcp_vfp9sp2_toolchain.Base.{
  ℕ, ◌+◌, ◌≤◌, ◌<◌, ◌≡◌, refl, false, Option, none, some, List, [], ◌∷◌, ◌++◌, arith, length,
  Bool-cases, inl, inr, is_empty,
}
use mcp_vfp9sp2_toolchain.Base.Text.{Text}
use mcp_vfp9sp2_toolchain.Lexer.{line_continues}
use mcp_vfp9sp2_toolchain.MethodParser.{Logical, strip_loop, strip_continuations}

-- The ranges follow one another from line `next` on, and end at line `total`.
pub data Tiles (total : ℕ) : ℕ → List Logical → Type 0 where
  done : {next : ℕ} → next ≡ total + 1 → Tiles total next []
  tile :
      {next : ℕ} {l : Logical} {rest : List Logical}
      → l.first ≡ next
      → l.first ≤ l.last
      → l.last ≤ total
      → Tiles total (l.last + 1) rest
      → Tiles total next (l ∷ rest)

-- The variables of the loop at line `idx`: nothing is buffered, or the lines from `s` on are.
data Buffer (idx : ℕ) : List Text → Option ℕ → ℕ → Type 0 where
  empty : Buffer idx [] none idx
  held : {buf : List Text} {s : ℕ} → is_empty buf ≡ false → s < idx → Buffer idx buf (some s) s

is_empty-append : (buf : List Text) (line : Text) → is_empty (buf ++ line ∷ []) ≡ false
is_empty-append [] line = refl
is_empty-append (b ∷ buf) line = refl

-- The end of the text: what is still buffered is one more range.
strip_loop-Tiles_end :
    (total idx : ℕ) {buf : List Text} {start : Option ℕ} {next : ℕ}
    → Buffer idx buf start next
    → idx ≡ total + 1
    → Tiles total next (strip_loop idx buf start [])
unfolding strip_loop
strip_loop-Tiles_end total idx empty h = done h
strip_loop-Tiles_end total idx (held full before) h =
    rw full (tile refl (omega arith) (omega arith) (done (omega arith)))

strip_loop-Tiles :
    (total idx : ℕ) (lines : List Text) (buf : List Text) (start : Option ℕ) {next : ℕ}
    → Buffer idx buf start next
    → idx + length lines ≡ total + 1
    → Tiles total next (strip_loop idx buf start lines)
unfolding strip_loop
strip_loop-Tiles total idx [] buf start b h = strip_loop-Tiles_end total idx b (omega arith)
strip_loop-Tiles total idx (line ∷ lines) buf start empty h =
    elim (Bool-cases (line_continues line)) [
      | inl more ↦
          rw (more, strip_loop)
            (strip_loop-Tiles total (idx + 1) lines (line ∷ []) (some idx) (held refl (omega arith))
              (omega arith))
      | inr ends ↦
          rw (ends, strip_loop)
            (tile refl (omega arith) (omega arith)
              (strip_loop-Tiles total (idx + 1) lines [] none empty (omega arith)))
    ]
strip_loop-Tiles total idx (line ∷ lines) buf start (held {s = s} full before) h =
    elim (Bool-cases (line_continues line)) [
      | inl more ↦
          rw (more, strip_loop)
            (strip_loop-Tiles total (idx + 1) lines (buf ++ line ∷ []) (some s)
              (held (is_empty-append buf line) (omega arith)) (omega arith))
      | inr ends ↦
          rw (ends, strip_loop)
            (tile refl (omega arith) (omega arith)
              (strip_loop-Tiles total (idx + 1) lines [] none empty (omega arith)))
    ]

-- The logical lines of a text are consecutive ranges that cover its physical lines 1 to n.
pub strip_continuations-Tiles :
    (lines : List Text) → Tiles (length lines) 1 (strip_continuations lines)
unfolding strip_continuations
strip_continuations-Tiles lines =
    strip_loop-Tiles (length lines) 1 lines [] none empty (omega arith)

-- ===== src/Blanking/Shape.antt =====
-- What `_strip_strings_and_comments` keeps of a text: its length, and every character that it does
-- not replace by a space.
use mcp_vfp9sp2_toolchain.Base.{
  ℕ, zero, suc, ◌+◌, ◌≤◌, ◌≡◌, refl, true, false, Option, none, some, [], ◌∷◌, ◌++◌, ◌==◌, arith,
  length, drop, length-drop, Bool-cases, Option-cases, inl, inr, ◌<◌, if◌then◌else◌, not,
}
use mcp_vfp9sp2_toolchain.Base.Text.{Text, codes, starts_with, find_at, find_from}
use mcp_vfp9sp2_toolchain.Lexer.{is_quote, next_is}
use mcp_vfp9sp2_toolchain.Blanking.{
  spaces, Blank, blank_string, blank_code, blank_step, blank_loop, blanked, block_length,
  tail_length, strip_strings_and_comments,
}

-- The second text is the first with some characters replaced by a space, every quote among them.
pub data IsBlanked : Text → Text → Type 0 where
  done : IsBlanked [] []
  kept : {c : ℕ} {s t : Text} → is_quote c ≡ false → IsBlanked s t → IsBlanked (c ∷ s) (c ∷ t)
  space : {c : ℕ} {s t : Text} → IsBlanked s t → IsBlanked (c ∷ s) (b' ' ∷ t)

pub length-IsBlanked : {s t : Text} → IsBlanked s t → length t ≡ length s
length-IsBlanked done = refl
length-IsBlanked (kept _ r) = omega (arith, length-IsBlanked r)
length-IsBlanked (space r) = omega (arith, length-IsBlanked r)

spaces-IsBlanked :
    (n : ℕ) (s : Text) {t : Text}
    → n ≤ length s
    → IsBlanked (drop n s) t
    → IsBlanked s (spaces n ++ t)
spaces-IsBlanked zero s h r = r
spaces-IsBlanked (suc n) [] h r = absurd (omega arith)
spaces-IsBlanked (suc n) (c ∷ s) h r = space (spaces-IsBlanked n s (omega arith) r)

starts_with-length : (s p : Text) → starts_with s p ≡ true → length p ≤ length s
unfolding starts_with
starts_with-length s [] h = omega arith
starts_with-length [] (y ∷ p) h = absurd (cc h)
starts_with-length (x ∷ s) (y ∷ p) h = ground (arith, starts_with-length s p)

-- A place found does not lie before the start, and the pattern fits behind it.
find_at_bounds :
    (p : Text) (at : ℕ) (s : Text) {j : ℕ}
    → find_at p at s ≡ some j
    → (at ≤ j) × (j + length p ≤ at + length s)
unfolding find_at
find_at_bounds [] at [] h = ground arith
find_at_bounds (y ∷ p) at [] h = absurd (cc h)
find_at_bounds p at (c ∷ s) {j = j} h = elim (Bool-cases (starts_with (c ∷ s) p)) [
  | inl here ↦
      let fits = starts_with-length (c ∷ s) p here in
      let e : some at ≡ some j = rw here at h in
      let same : at ≡ j = cc e in (omega arith, omega arith)
  | inr later ↦
      let (low, high) = find_at_bounds p (at + 1) s (rw later at h) in (omega arith, omega arith)
]

-- What one round does to the text from here on.
record IsStep (c : ℕ) (rest : Text) (b : Blank) : Type 0 where
  bounded : b.skip ≤ length rest
  extends : {t : Text} → IsBlanked (drop b.skip rest) t → IsBlanked (c ∷ rest) (b.emit ++ t)

blanked-IsStep :
    (c : ℕ) (rest : Text) (n : ℕ) → 0 < n → n ≤ length (c ∷ rest) → IsStep c rest (blanked n)
blanked-IsStep c rest zero h k = absurd (omega arith)
blanked-IsStep c rest (suc n) h k = record {
  bounded = omega arith;
  extends = λ r. space (spaces-IsBlanked n rest (omega arith) r);
}

-- A quote in a string: with a second one behind it, both are blanked.
doubled :
    (q c : ℕ) (rest : Text)
    → IsStep c rest (
        if next_is q rest
        then record { emit = spaces 2; in_s = some q; skip = 1 }
        else record { emit = spaces 1; in_s = none; skip = 0 })
doubled q c [] = record { bounded = omega arith; extends = λ r. space r }
doubled q c (d ∷ rest) = elim (Bool-cases (d == q)) [
  | inl twice ↦ rw twice (record { bounded = omega arith; extends = λ r. space (space r) })
  | inr once ↦ rw once (record { bounded = omega arith; extends = λ r. space r })
]

blank_string-IsStep : (q c : ℕ) (rest : Text) → IsStep c rest (blank_string q c rest)
unfolding blank_string
blank_string-IsStep q c rest = elim (Bool-cases (c == b'\n')) [
  | inl newline ↦
      rw newline (record { bounded = omega arith; extends = λ r. kept (ground arith) r })
  | inr inside ↦ elim (Bool-cases (not (c == q))) [
    | inl other ↦ rw (inside, other) (record { bounded = omega arith; extends = λ r. space r })
    | inr quote ↦ rw (inside, quote) (doubled q c rest)
  ]
]

block_length_bounds :
    (s : Text)
    → starts_with s (codes "(*") ≡ true
    → (0 < block_length s) × (block_length s ≤ length s)
block_length_bounds s h =
    let opened = starts_with-length s (codes "(*") h in
    elim (Option-cases (find_from (codes "*)") 2 s)) [
      | inl unclosed ↦ rw (unclosed, block_length) (omega arith, omega arith)
      | inr (j, found) ↦
          let (low, high) = find_at_bounds (codes "*)") 2 (drop 2 s) found in
          let left = length-drop 2 s in rw (found, block_length) (omega arith, omega arith)
    ]

tail_length_bounds :
    (s : Text)
    → starts_with s (codes "//") ≡ true
    → (0 < tail_length s) × (tail_length s ≤ length s)
unfolding starts_with find_at
tail_length_bounds [] h = absurd (cc h)
tail_length_bounds (c ∷ s) h =
    let slash : (c == b'/') ≡ true = ground arith in
    let not_break : (c == b'\n') ≡ false = ground arith in
    elim (Option-cases (find_at (codes "\n") 1 s)) [
      | inl last ↦ rw (not_break, last, tail_length) (omega arith, omega arith)
      | inr (j, found) ↦
          let (low, high) = find_at_bounds (codes "\n") 1 s found in
          rw (not_break, found, tail_length) (omega arith, omega arith)
    ]

blank_code-IsStep : (c : ℕ) (rest : Text) → IsStep c rest (blank_code c rest)
unfolding blank_code
blank_code-IsStep c rest = elim (Bool-cases (is_quote c)) [
  | inl quote ↦ rw quote (record { bounded = omega arith; extends = λ r. space r })
  | inr other ↦ elim (Bool-cases (starts_with (c ∷ rest) (codes "(*"))) [
    | inl block ↦
        let (low, high) = block_length_bounds (c ∷ rest) block in
        rw (other, block) (blanked-IsStep c rest _ low high)
    | inr code ↦ elim (Bool-cases (starts_with (c ∷ rest) (codes "//"))) [
      | inl tail ↦
          let (low, high) = tail_length_bounds (c ∷ rest) tail in
          rw (other, code, tail) (blanked-IsStep c rest _ low high)
      | inr plain ↦
          rw (other, code, plain) (record { bounded = omega arith; extends = λ r. kept other r })
    ]
  ]
]

blank_step-IsStep : (in_s : Option ℕ) (c : ℕ) (rest : Text) → IsStep c rest (blank_step in_s c rest)
blank_step-IsStep none c rest = blank_code-IsStep c rest
blank_step-IsStep (some q) c rest = blank_string-IsStep q c rest

loop-IsBlanked :
    (in_s : Option ℕ) (k : ℕ) (s : Text) → k ≤ length s → IsBlanked (drop k s) (blank_loop in_s k s)
unfolding blank_loop
loop-IsBlanked in_s zero [] h = done
loop-IsBlanked in_s (suc k) [] h = done
loop-IsBlanked in_s (suc k) (c ∷ s) h = loop-IsBlanked in_s k s (omega arith)
loop-IsBlanked in_s zero (c ∷ s) h =
    let b = blank_step in_s c s in
    let step = blank_step-IsStep in_s c s in
    step.extends (loop-IsBlanked b.in_s b.skip s step.bounded)

-- The stripped text is the code with characters replaced by spaces, every quote among them; so it
-- has the length of the code.
pub strip_strings_and_comments-IsBlanked :
    (code : Text)
    → IsBlanked code (strip_strings_and_comments code)
      × (length (strip_strings_and_comments code) ≡ length code)
unfolding strip_strings_and_comments
strip_strings_and_comments-IsBlanked code =
    let shape = loop-IsBlanked none 0 code (omega arith) in (shape, length-IsBlanked shape)

-- ===== src/Balance/Counts.antt =====
-- What the two dictionaries of `check_end_balance` count, and when it finds nothing.
use mcp_vfp9sp2_toolchain.Base.{
  ℕ, ◌+◌, ◌<◌, ◌≡◌, ◌↔◌, ◌⊎◌, inl, inr, refl, Bool, true, false, ◌&&◌, Option, List, [], ◌∷◌, ltb,
  ◌==◌, length, keep, All, arith, Bool-cases, ==_iff,
}
use mcp_vfp9sp2_toolchain.Base.Text.{Text, text_eq, text_eq_iff}
use mcp_vfp9sp2_toolchain.Base.Dict.{Dict, lookup, lookup-insert}
use mcp_vfp9sp2_toolchain.Balance.{
  Letters, pairs, block_pairs, is_block, count_of, bump_if, no_counts, unequal_loop, begins_with,
  open_loop, close_loop, line_loop, code_lines, check_end_balance,
}

abbrev hit : Bool → ℕ
hit true = 1
hit false = 0

-- How many lines pass a test.
abbrev pub count : (Text → Bool) → List Text → ℕ
count p [] = 0
count p (x ∷ xs) = hit (p x) + count p xs

count_of-bump_if :
    (b : Bool) (c k : Text) (d : Dict ℕ)
    → count_of k (bump_if b c d) ≡ count_of k d + hit (text_eq c k && b)
unfolding bump_if
count_of-bump_if false c k d = ground arith
count_of-bump_if true c k d = elim (Bool-cases (text_eq c k)) [
  | inl same ↦
      let e : c ≡ k = (text_eq_iff c k).0 same in
      rw (count_of, lookup-insert c k (count_of c d + 1) d, same, e) (omega arith)
  | inr other ↦ rw (count_of, lookup-insert c k (count_of c d + 1) d, other) (omega arith)
]

-- How often one line counts for the key `k`: the sum over a table.
abbrev tally : (Text × Text → Bool) → Text → List (Text × Text) → ℕ
tally test k [] = 0
tally test k (p ∷ rest) = hit (text_eq p.1 k && test p) + tally test k rest

no_counts-count_of : (k : Text) (ps : List (Text × Text)) → count_of k (no_counts ps) ≡ 0
unfolding lookup
no_counts-count_of k [] = refl
no_counts-count_of k (p ∷ ps) = ground (arith, no_counts-count_of k ps)

unequal_loop-eq-nil :
    (name : Option Text) (e c : Dict ℕ) (ps : List (Text × Text))
    → (unequal_loop name e c ps ≡ [])
      ↔ All (λ p. count_of p.1 e ≡ count_of p.1 c) (keep (λ p. is_block p.0) ps)
unfolding unequal_loop
unequal_loop-eq-nil name e c [] = (λ _. tt, λ _. refl)
unequal_loop-eq-nil name e c ((o, k) ∷ ps) =
    let later = unequal_loop-eq-nil name e c ps in
    elim (Bool-cases (is_block o)) [
      | inr other ↦ rw (other, keep) later
      | inl block ↦ elim (Bool-cases (count_of k e == count_of k c)) [
        | inl same ↦
            rw (block, same, keep) (λ h. ((==_iff _ _).0 same, later.0 h), λ (_, h). later.1 h)
        | inr differ ↦
            rw (block, differ, keep)
              (λ h. absurd (cc h), λ (h, _). absurd (ground (arith, h, differ)))
      ]
    ]

module _ (letters : Letters) where
  abbrev opens : Text → Text × Text → Bool
  opens line p = begins_with letters p.0 line && is_block p.0

  abbrev closes : Text → Text × Text → Bool
  closes line p = begins_with letters p.1 line

  open_loop-tally :
      (line k : Text) (ps : List (Text × Text)) (d : Dict ℕ)
      → count_of k (open_loop letters line ps d) ≡ count_of k d + tally (opens line) k ps
  unfolding open_loop
  open_loop-tally line k [] d = omega arith
  open_loop-tally line k ((o, c) ∷ ps) d = omega (
    arith,
    open_loop-tally line k ps (bump_if (opens line (o, c)) c d),
    count_of-bump_if (opens line (o, c)) c k d,
  )

  close_loop-tally :
      (line k : Text) (ps : List (Text × Text)) (d : Dict ℕ)
      → count_of k (close_loop letters line ps d) ≡ count_of k d + tally (closes line) k ps
  unfolding close_loop
  close_loop-tally line k [] d = omega arith
  close_loop-tally line k ((o, c) ∷ ps) d = omega (
    arith,
    close_loop-tally line k ps (bump_if (closes line (o, c)) c d),
    count_of-bump_if (closes line (o, c)) c k d,
  )

  -- A block keyword and its end count once for each line that begins with them.
  record IsCounted (p : Text × Text) : Type 0 where
    opened : (line : Text) → tally (opens line) p.1 pairs ≡ hit (begins_with letters p.0 line)
    closed : (line : Text) → tally (closes line) p.1 pairs ≡ hit (begins_with letters p.1 line)

  pairs-IsCounted : All IsCounted block_pairs
  unfolding text_eq
  pairs-IsCounted = (
    record { opened = λ line. ground arith; closed = λ line. ground arith },
    (
      record { opened = λ line. ground arith; closed = λ line. ground arith },
      (
        record { opened = λ line. ground arith; closed = λ line. ground arith },
        (
          record { opened = λ line. ground arith; closed = λ line. ground arith },
          (
            record { opened = λ line. ground arith; closed = λ line. ground arith },
            (
              record { opened = λ line. ground arith; closed = λ line. ground arith },
              (
                record { opened = λ line. ground arith; closed = λ line. ground arith },
                (record { opened = λ line. ground arith; closed = λ line. ground arith }, tt),
              ),
            ),
          ),
        ),
      ),
    ),
  )

  line_loop-IsCounted :
      (p : Text × Text) (lines : List Text) (e c : Dict ℕ)
      → IsCounted p
      → (count_of p.1 (line_loop letters lines e c).0
          ≡ count_of p.1 e + count (begins_with letters p.0) lines)
        × (count_of p.1 (line_loop letters lines e c).1
            ≡ count_of p.1 c + count (begins_with letters p.1) lines)
  unfolding line_loop
  line_loop-IsCounted p [] e c h = (omega arith, omega arith)
  line_loop-IsCounted p (line ∷ lines) e c h =
      let (opened, closed) =
        line_loop-IsCounted p lines (open_loop letters line pairs e)
          (close_loop letters line pairs c) h in
      (
        omega (arith, open_loop-tally line p.1 pairs e, h.opened line),
        omega (arith, close_loop-tally line p.1 pairs c, h.closed line),
      )

  -- The two keywords begin equally many lines.
  abbrev pub IsEven : List Text → Text × Text → Type 0
  IsEven lines p = count (begins_with letters p.0) lines ≡ count (begins_with letters p.1) lines

  IsEven-iff :
      (lines : List Text) (p : Text × Text)
      → IsCounted p
      → (count_of p.1 (line_loop letters lines [] (no_counts pairs)).0
          ≡ count_of p.1 (line_loop letters lines [] (no_counts pairs)).1)
        ↔ IsEven lines p
  IsEven-iff lines p h =
      let (opened, closed) = line_loop-IsCounted p lines [] (no_counts pairs) h in
      let start = no_counts-count_of p.1 pairs in
      let none_yet : count_of p.1 [] ≡ 0 = no_counts-count_of p.1 [] in
      (λ e. omega arith, λ e. omega arith)

  All-IsEven_iff :
      (lines : List Text) (ps : List (Text × Text))
      → All IsCounted ps
      → All
          (λ p.
            count_of p.1 (line_loop letters lines [] (no_counts pairs)).0
            ≡ count_of p.1 (line_loop letters lines [] (no_counts pairs)).1)
          ps
        ↔ All (IsEven lines) ps
  All-IsEven_iff lines [] h = (λ _. tt, λ _. tt)
  All-IsEven_iff lines (p ∷ ps) (h, hs) =
      let here = IsEven-iff lines p h in
      let later = All-IsEven_iff lines ps hs in
      (λ (e, es). (here.0 e, later.0 es), λ (e, es). (here.1 e, later.1 es))

  -- A method is found balanced exactly when it has fewer lines of code than the limit, or each of
  -- the eight block keywords begins as many lines of the stripped code as its end keyword does: the
  -- lines with PROCEDURE, ENDPROC, FUNCTION and ENDFUNC are not compared.
  pub check_end_balance_ok :
      (name : Option Text) (code : Text) (min_lines : ℕ)
      → (check_end_balance letters name code min_lines ≡ [])
        ↔ ((length (code_lines code) < min_lines) ⊎ All (IsEven (code_lines code)) block_pairs)
  unfolding check_end_balance
  check_end_balance_ok name code min_lines =
      elim (Bool-cases (ltb (length (code_lines code)) min_lines)) [
        | inl few ↦ rw few (λ _. inl (ground arith), λ _. refl)
        | inr many ↦
            let lines = code_lines code in
            let (e, c) = line_loop letters lines [] (no_counts pairs) in
            let unequal = unequal_loop-eq-nil name e c pairs in
            let even = All-IsEven_iff lines block_pairs pairs-IsCounted in
            rw many (
              λ h. inr (even.0 (unequal.0 h)),
              λ h. elim h [ inl few ↦ absurd (ground arith) | inr all ↦ unequal.1 (even.1 all) ],
            )
      ]

-- ===== src/Outline/Classes.antt =====
-- The classes of a text, by what follows each DEFINE CLASS line.
use mcp_vfp9sp2_toolchain.Base.{
  ℕ, ◌+◌, ◌-◌, ◌≡◌, inl, inr, refl, ap, true, false, Option, none, some, List, [], ◌∷◌, ◌++◌,
  Bool-cases, Option-cases,
}
use mcp_vfp9sp2_toolchain.Base.Text.{Text}
use mcp_vfp9sp2_toolchain.Balance.{Letters}
use mcp_vfp9sp2_toolchain.Outline.{
  Declared, Body, define_class, is_enddefine, split_loop, split_class_bodies,
}

module _ (letters : Letters) where
  -- The lines up to the next DEFINE CLASS or ENDDEFINE, with their numbers.
  unfoldable body_from : ℕ → List Text → List (ℕ × Text)
  body_from idx [] = []
  body_from idx (line ∷ lines) =
      let rest = body_from (idx + 1) lines in
      elim (define_class letters line) [
        | some _ ↦ []
        | none ↦ elim (is_enddefine letters line) [ true ↦ [] | false ↦ (idx, line) ∷ rest ]
      ]

  -- Where a class ends: at the first ENDDEFINE, or at the last line of the text, but not where
  -- another class begins before.
  unfoldable end_from : ℕ → List Text → Option ℕ
  end_from idx [] = some (idx - 1)
  end_from idx (line ∷ lines) =
      let rest = end_from (idx + 1) lines in
      elim (define_class letters line) [
        | some _ ↦ none
        | none ↦ elim (is_enddefine letters line) [ true ↦ some idx | false ↦ rest ]
      ]

  -- One class for each DEFINE CLASS line, with what follows it.
  unfoldable pub classes_from : ℕ → List Text → List Body
  unfolding body_from end_from
  classes_from idx [] = []
  classes_from idx (line ∷ lines) =
      let rest = classes_from (idx + 1) lines in
      elim (define_class letters line) [
        | none ↦ rest
        | some found ↦
            record {
              line = idx;
              declared = found;
              end_line = end_from (idx + 1) lines;
              body = body_from (idx + 1) lines;
            }
            ∷ rest
      ]

  append-nil : (xs : List (ℕ × Text)) → xs ++ [] ≡ xs
  append-nil [] = refl
  append-nil (x ∷ xs) = ap (◌∷◌ x) (append-nil xs)

  append_assoc :
      (xs : List (ℕ × Text)) (y : ℕ × Text) (ys : List (ℕ × Text))
      → (xs ++ y ∷ []) ++ ys ≡ xs ++ y ∷ ys
  append_assoc [] y ys = refl
  append_assoc (x ∷ xs) y ys = ap (◌∷◌ x) (append_assoc xs y ys)

  -- An open class with the lines that follow.
  abbrev open_class : ℕ → Declared → List (ℕ × Text) → Body
  open_class n d body = record { line = n; declared = d; end_line = none; body = body }

  abbrev closed_class : ℕ → Declared → Option ℕ → List (ℕ × Text) → Body
  closed_class n d end body = record { line = n; declared = d; end_line = end; body = body }

  mutual
    unfolding split_loop classes_from body_from end_from

    outside :
        (idx : ℕ) (lines : List Text) → split_loop letters idx none lines ≡ classes_from idx lines
    outside idx [] = refl
    outside idx (line ∷ lines) = elim (Option-cases (define_class letters line)) [
      | inl other ↦ rw (other, split_loop, classes_from) (outside (idx + 1) lines)
      | inr (found, here) ↦
          rw (here, split_loop, classes_from) (inside (idx + 1) idx found [] lines)
    ]

    inside :
        (idx n : ℕ) (d : Declared) (body : List (ℕ × Text)) (lines : List Text)
        → split_loop letters idx (some (open_class n d body)) lines
          ≡ closed_class n d (end_from idx lines) (body ++ body_from idx lines)
            ∷ classes_from idx lines
    inside idx n d body [] = rw (append-nil body) refl
    inside idx n d body (line ∷ lines) = elim (Option-cases (define_class letters line)) [
      | inr (found, here) ↦
          rw (here, split_loop, classes_from, end_from, body_from, append-nil body)
            (ap (◌∷◌ (open_class n d body)) (inside (idx + 1) idx found [] lines))
      | inl other ↦ elim (Bool-cases (is_enddefine letters line)) [
        | inl ends ↦
            rw (other, ends, split_loop, classes_from, end_from, body_from, append-nil body)
              (ap (◌∷◌ (closed_class n d (some idx) body)) (outside (idx + 1) lines))
        | inr inner ↦
            rw (other, inner, split_loop, classes_from, end_from, body_from)
              (rw (← append_assoc body (idx, line) (body_from (idx + 1) lines))
                (inside (idx + 1) n d (body ++ (idx, line) ∷ []) lines))
      ]
    ]

  -- `_split_class_bodies` finds one class for each DEFINE CLASS line, in the order of the lines: its
  -- body is the lines up to the next DEFINE CLASS or ENDDEFINE, and it ends at this ENDDEFINE, or at
  -- the last line of the text; where another class begins first it has no end.
  pub split_class_bodies-classes_from :
      (lines : List Text) → split_class_bodies letters lines ≡ classes_from 0 lines
  unfolding split_class_bodies
  split_class_bodies-classes_from lines = outside 0 lines

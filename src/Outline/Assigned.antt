-- ===== src/Outline/Assigned.antt =====
-- The property of a class is the last value that is assigned to it before the first method.
use mcp_vfp9sp2_toolchain.Base.{
  ℕ, ◌≡◌, inl, inr, refl, ◌∙◌, true, false, Option, none, some, List, [], ◌∷◌, Bool-cases,
  Option-cases, if◌then◌else◌,
}
use mcp_vfp9sp2_toolchain.Base.Text.{Text, text_eq, strip, Casing}
use mcp_vfp9sp2_toolchain.Base.Table.{Table, text_key, find, find-store}
use mcp_vfp9sp2_toolchain.Balance.{Letters}
use mcp_vfp9sp2_toolchain.Outline.{Body, is_method_start}
use mcp_vfp9sp2_toolchain.Outline.Norm.{Floats, Value}
use mcp_vfp9sp2_toolchain.Outline.Build.{
  assigned, with_assigned, is_passed_over, assign_loop, class_object,
}

module _ (floats : Floats) (casing : Casing) (letters : Letters) where
  -- The lines before the first method, without blank lines and comments.
  unfoldable pub own_lines : List (ℕ × Text) → List Text
  own_lines [] = []
  own_lines ((idx, line) ∷ rest) =
      let others = own_lines rest in
      elim (is_passed_over floats casing letters line) [
        | true ↦ others
        | false ↦ elim (is_method_start letters (strip line)) [ true ↦ [] | false ↦ line ∷ others ]
      ]

  -- The value that a line assigns to the name.
  abbrev pub value_for : Text → Option (Text × Value floats.Float) → Option (Value floats.Float)
  value_for k none = none
  value_for k (some (j, v)) = if text_eq j k then some v else none

  -- The last value that the lines assign to the name.
  unfoldable pub last_value : Text → List Text → Option (Value floats.Float)
  last_value k [] = none
  last_value k (line ∷ rest) = elim (last_value k rest) [
    | some v ↦ some v
    | none ↦ value_for k (assigned floats casing letters line)
  ]

  -- The first of two values that is there.
  abbrev or_else :
      Option (Value floats.Float) → Option (Value floats.Float) → Option (Value floats.Float)
  or_else (some v) o = some v
  or_else none o = o

  find-with_assigned :
      (k : Text) (a : Option (Text × Value floats.Float)) (t : Table Text (Value floats.Float))
      → find k (with_assigned floats casing letters a t) ≡ or_else (value_for k a) (find k t)
  find-with_assigned k none t = refl
  find-with_assigned k (some (j, v)) t = elim (Bool-cases (text_eq j k)) [
    | inl same ↦ rw (find-store j k v t, same) refl
    | inr other ↦ rw (find-store j k v t, other) refl
  ]

  or_else_assoc :
      (a b d : Option (Value floats.Float)) → or_else a (or_else b d) ≡ or_else (or_else a b) d
  or_else_assoc none b d = refl
  or_else_assoc (some v) b d = refl

  last_value-cons :
      (k line : Text) (rest : List Text)
      → last_value k (line ∷ rest)
        ≡ or_else (last_value k rest) (value_for k (assigned floats casing letters line))
  unfolding last_value
  last_value-cons k line rest = elim (Option-cases (last_value k rest)) [
    | inl e ↦ rw (e, last_value) refl
    | inr (v, e) ↦ rw (e, last_value) refl
  ]

  find-assign_loop :
      (k : Text) (body : List (ℕ × Text)) (t : Table Text (Value floats.Float))
      → find k (assign_loop floats casing letters body t)
        ≡ or_else (last_value k (own_lines body)) (find k t)
  unfolding assign_loop own_lines last_value
  find-assign_loop k [] t = refl
  find-assign_loop k ((idx, line) ∷ rest) t =
      elim (Bool-cases (is_passed_over floats casing letters line)) [
        | inl skipped ↦ rw (skipped, assign_loop, own_lines) (find-assign_loop k rest t)
        | inr taken ↦ elim (Bool-cases (is_method_start letters (strip line))) [
          | inl begins ↦ rw (taken, begins, assign_loop, own_lines) refl
          | inr other ↦
              let u = with_assigned floats casing letters (assigned floats casing letters line) t in
              rw
                (
                  taken,
                  other,
                  assign_loop,
                  own_lines,
                  find-assign_loop k rest u,
                  find-with_assigned k (assigned floats casing letters line) t,
                  last_value-cons k line (own_lines rest),
                )
                (or_else_assoc (last_value k (own_lines rest))
                  (value_for k (assigned floats casing letters line)) (find k t))
        ]
      ]

  or_else-none : (a : Option (Value floats.Float)) → or_else a none ≡ a
  or_else-none none = refl
  or_else-none (some v) = refl

  -- A class has for each name the last value that a line which assigns to a stable property of this
  -- name gives it before the first line that begins a method, blank lines and comments left out, and
  -- has no other property. The name of an assignment is what stands before its first dot, and a line
  -- with a name that is not one of the stable properties assigns nothing.
  pub class_object-last_value :
      (n : ℕ) (b : Body) (k : Text)
      → find k (class_object floats casing letters n b).object.properties
        ≡ last_value k (own_lines b.body)
  unfolding class_object find
  class_object-last_value n b k =
      find-assign_loop k b.body [] ∙ or_else-none (last_value k (own_lines b.body))

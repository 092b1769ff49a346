-- ===== src/Base/Dict.antt =====
-- Python's `dict` with text keys, in insertion order: a write to a key that is there keeps its place.
use mathlib.Core.Path.{◌≡◌, refl, sym, ap, ◌∙◌}
use mathlib.Core.Logic.{inl, inr}
use mathlib.Core.List.{List, [], ◌∷◌}
use mathlib.Core.Option.{Option, none, some}
use native.Mathlib.Omega.{arith}
use mcp_vfp9sp2_toolchain.Base.Tests.{if◌then◌else◌, Bool-cases}
use mcp_vfp9sp2_toolchain.Base.Lists.{All, All-map_imp}
use mcp_vfp9sp2_toolchain.Base.Text.{Text, text_eq, text_eq_iff, text_eq_refl}

abbrev pub Dict {ℓ} : Type ℓ → Type ℓ
Dict V = List (Text × V)

module _ {ℓ} {V : Type ℓ} where
  -- `d.get(k)`
  unfoldable pub lookup : Text → Dict V → Option V
  lookup key [] = none
  lookup key ((j, value) ∷ rest) = if text_eq j key then some value else lookup key rest

  -- `d[k] = v`
  unfoldable pub insert : Text → V → Dict V → Dict V
  insert key value [] = (key, value) ∷ []
  insert key value ((j, old) ∷ rest) =
      if text_eq j key then (j, value) ∷ rest else (j, old) ∷ insert key value rest

  pub lookup-insert :
      (k j : Text) (v : V) (d : Dict V)
      → lookup j (insert k v d) ≡ (if text_eq k j then some v else lookup j d)
  unfolding lookup insert
  lookup-insert k j v [] = refl
  lookup-insert k j v ((i, w) ∷ d) =
      ground (arith, text_eq_iff k j, text_eq_iff i k, text_eq_iff i j, lookup-insert k j v d)

module _ {ℓ} {V : Type ℓ} where
  -- No key stands twice.
  pub data IsDict : Dict V → Type ℓ where
    empty : IsDict []
    entry : {k : Text} {v : V} {d : Dict V} → lookup k d ≡ none → IsDict d → IsDict ((k, v) ∷ d)

  pub insert-IsDict : (k : Text) (v : V) {d : Dict V} → IsDict d → IsDict (insert k v d)
  unfolding insert lookup
  insert-IsDict k v empty = entry refl empty
  insert-IsDict k v (entry {k = j} {v = w} {d = d} fresh u) = elim (Bool-cases (text_eq j k)) [
    | inl same ↦ rw (same, insert) (entry fresh u)
    | inr other ↦
        rw (other, insert)
          (entry (ground (arith, lookup-insert k j v d, text_eq_iff j k, text_eq_iff k j))
            (insert-IsDict k v u))
  ]

  still_found :
      (k : Text) (v : V) (d : Dict V)
      → lookup k d ≡ none
      → (e : Text × V) → lookup e.0 d ≡ some e.1
      → lookup e.0 ((k, v) ∷ d) ≡ some e.1
  unfolding lookup
  still_found k v d fresh (j, w) h = elim (Bool-cases (text_eq k j)) [
    | inl same ↦ absurd (cc (sym h ∙ ap (λ i. lookup i d) (sym ((text_eq_iff k j).0 same)) ∙ fresh))
    | inr other ↦ rw (other, lookup) h
  ]

  -- Every entry is what its key finds.
  pub IsDict-lookup : {d : Dict V} → IsDict d → All (λ e. lookup e.0 d ≡ some e.1) d
  unfolding lookup
  IsDict-lookup empty = tt
  IsDict-lookup (entry {k = k} {v = v} {d = d} fresh u) =
      (rw (text_eq_refl k), All-map_imp d (still_found k v d fresh) (IsDict-lookup u))

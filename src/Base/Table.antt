-- ===== src/Base/Table.antt =====
-- Python's `dict` with keys of any type that has a test for equality, and `sorted`.
use mathlib.Core.Path.{◌≡◌, refl, sym, ◌∙◌}
use mathlib.Core.Logic.{◌↔◌, inl, inr}
use mathlib.Core.Bool.{Bool, true, false, ◌&&◌}
use mathlib.Core.List.{List, [], ◌∷◌}
use mathlib.Core.Option.{Option, none, some}
use native.Mathlib.Omega.{arith}
use mcp_vfp9sp2_toolchain.Base.Tests.{if◌then◌else◌, Bool-cases}
use mcp_vfp9sp2_toolchain.Base.Lists.{All, keep}
use mcp_vfp9sp2_toolchain.Base.Text.{Text, text_eq, text_eq_iff}

pub record Key {ℓ} (K : Type ℓ) : Type ℓ where
  pub is_key : K → K → Bool
  pub is_key_iff : (j k : K) → (is_key j k ≡ true) ↔ (j ≡ k)

unfoldable pub pair_is : Text × Text → Text × Text → Bool
pair_is (a, b) (c, d) = text_eq a c && text_eq b d

pub pair_is_iff : (j k : Text × Text) → (pair_is j k ≡ true) ↔ (j ≡ k)
unfolding pair_is
pair_is_iff (a, b) (c, d) = ground (arith, text_eq_iff a c, text_eq_iff b d)

instance abbrev pub text_key : Key Text
text_key = record { is_key = text_eq; is_key_iff = text_eq_iff }

instance abbrev pub pair_key : Key (Text × Text)
pair_key = record { is_key = pair_is; is_key_iff = pair_is_iff }

abbrev pub Table {ℓ κ} : Type ℓ → Type κ → Type (ℓ ⊔ κ)
Table K V = List (K × V)

module _ {ℓ κ} {K : Type ℓ} {V : Type κ} ⦃e : Key K⦄ where
  -- `d.get(k)`
  unfoldable pub find : K → Table K V → Option V
  find k [] = none
  find k ((j, v) ∷ t) = if e.is_key j k then some v else find k t

  -- `d[k] = v`
  unfoldable pub store : K → V → Table K V → Table K V
  store k v [] = (k, v) ∷ []
  store k v ((j, w) ∷ t) = if e.is_key j k then (j, v) ∷ t else (j, w) ∷ store k v t

  abbrev pub keys : Table K V → List K
  keys [] = []
  keys ((k, v) ∷ t) = k ∷ keys t

  abbrev pub has : K → Table K V → Bool
  has k t = elim (find k t) [ none ↦ false | some _ ↦ true ]

-- What holds of every entry of a table that is found by its own key holds of every key, and back.
module _ {ℓ κ} {K : Type ℓ} {V : Type κ} ⦃e : Key K⦄ where
  find-here : (k : K) (v : V) (t : Table K V) → find k ((k, v) ∷ t) ≡ some v
  unfolding find
  find-here k v t = rw ((e.is_key_iff k k).1 refl) refl

  found-All {η} :
      (P : K → Type η) (t : Table K V) → All P (keys t) → (k : K) (v : V) → find k t ≡ some v → P k
  unfolding find
  found-All P [] h k v f = absurd (cc f)
  found-All P ((j, w) ∷ t) (here, rest) k v f = elim (Bool-cases (e.is_key j k)) [
    | inl same ↦ rw (← (e.is_key_iff j k).0 same) here
    | inr other ↦ found-All P t rest k v (rw other at f)
  ]

  All-found {η} :
      (P : K → Type η) (t : Table K V)
      → ((k : K) (v : V) → find k t ≡ some v → P k)
      → All P (keys t)
  unfolding find
  All-found P [] h = tt
  All-found P ((j, w) ∷ t) h = (
    h j w (find-here j w t),
    All-found P t (λ k v f. elim (Bool-cases (e.is_key j k)) [
      | inl same ↦ h k w (rw same refl)
      | inr other ↦ h k v (rw other f)
    ]),
  )

  pub find-store :
      (k j : K) (v : V) (t : Table K V)
      → find j (store k v t) ≡ (if e.is_key k j then some v else find j t)
  unfolding find store
  find-store k j v [] = refl
  find-store k j v ((i, w) ∷ t) = elim (Bool-cases (e.is_key i k)) [
    | inl same ↦
        rw (same, store, (e.is_key_iff i k).0 same)
          (elim (Bool-cases (e.is_key k j)) [ inl hit ↦ rw hit refl | inr miss ↦ rw miss refl ])
    | inr other ↦ elim (Bool-cases (e.is_key i j)) [
      | inl hit ↦
          rw (other, store)
            (elim (Bool-cases (e.is_key k j)) [
              | inl both ↦
                  let one : i ≡ k = (e.is_key_iff i j).0 hit ∙ sym ((e.is_key_iff k j).0 both) in
                  absurd (cc (sym other ∙ (e.is_key_iff i k).1 one))
              | inr apart ↦ rw (hit, apart) refl
            ])
      | inr miss ↦ rw (other, store, miss) (find-store k j v t)
    ]
  ]

  pub All-keys_iff {η} :
      (P : K → Type η) (t : Table K V)
      → All P (keys t) ↔ ((k : K) (v : V) → find k t ≡ some v → P k)
  All-keys_iff P t = (λ h. found-All P t h, λ h. All-found P t h)

-- `sorted`, by a test for "not greater"
module _ {ℓ} {A : Type ℓ} (le : A → A → Bool) where
  unfoldable pub place : A → List A → List A
  place a [] = a ∷ []
  place a (x ∷ xs) = let rest = place a xs in if le a x then a ∷ x ∷ xs else x ∷ rest

  unfoldable pub sorted : List A → List A
  unfolding place
  sorted [] = []
  sorted (x ∷ xs) = place x (sorted xs)

  module _ {κ} (P : A → Type κ) where
    All-place : (a : A) (xs : List A) → All P (place a xs) ↔ (P a × All P xs)
    unfolding place
    All-place a [] = (λ h. h, λ h. h)
    All-place a (x ∷ xs) =
        let (there, back) = All-place a xs in
        elim (Bool-cases (le a x)) [
          | inl before ↦ rw before (λ h. h, λ h. h)
          | inr after ↦
              rw after (
                λ (p, ps). let (q, qs) = there ps in (q, (p, qs)),
                λ (q, (p, ps)). (p, back (q, ps)),
              )
        ]

    pub All-sorted : (xs : List A) → All P (sorted xs) ↔ All P xs
    unfolding sorted
    All-sorted [] = (λ h. h, λ h. h)
    All-sorted (x ∷ xs) =
        let placed = All-place x (sorted xs) in
        let rest = All-sorted xs in
        (λ h. let (p, ps) = placed.0 h in (p, rest.0 ps), λ (p, ps). placed.1 (p, rest.1 ps))

module _ {ℓ} {A : Type ℓ} where
  pub All-keep {κ} :
      (P : A → Type κ) (test : A → Bool) (xs : List A)
      → All P (keep test xs) ↔ All (λ x. test x ≡ true → P x) xs
  All-keep P test [] = (λ h. h, λ h. h)
  All-keep P test (x ∷ xs) =
      let rest = All-keep P test xs in
      elim (Bool-cases (test x)) [
        | inl hit ↦ rw (hit, keep) (λ (p, ps). (λ _. p, rest.0 ps), λ (p, ps). (p refl, rest.1 ps))
        | inr miss ↦ rw (miss, keep) (λ ps. (λ h. absurd (cc h), rest.0 ps), λ (_, ps). rest.1 ps)
      ]

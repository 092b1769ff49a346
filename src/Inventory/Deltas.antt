-- ===== src/Inventory/Deltas.antt =====
-- When one step of a loop of `compare_inventories` finds nothing unexpected.
use mcp_vfp9sp2_toolchain.Base.{
  ◌≡◌, ◌↔◌, ◌⊎◌, inl, inr, refl, sym, ◌∙◌, Bool, true, not, none, some, List, ◌++◌, All, All-append,
  keep, Bool-cases, Option-cases, not-eq-false,
}
use mcp_vfp9sp2_toolchain.Base.Text.{Text, text_eq, text_eq_iff, Casing}
use mcp_vfp9sp2_toolchain.Base.Table.{
  Table, text_key, pair_key, find, keys, has, All-keys_iff, All-sorted, All-keep,
}
use mcp_vfp9sp2_toolchain.Plan.{Patch}
use mcp_vfp9sp2_toolchain.Inventory.{
  text_le, MethodEntry, Object, is_expected, same_value, properties_of, base_delta,
  properties_delta, property_delta, method_delta, either,
}
use mcp_vfp9sp2_toolchain.Inventory.Quiet.{
  IsQuiet, IsQuiet-collect, All-split, All-map_iff, not-has_iff,
}

module _ {ℓ} {V : Type ℓ} (same : V → V → Bool) (casing : Casing) where
  same_value-none :
      (a b : Table Text V) (k : Text)
      → find k a ≡ none
      → find k b ≡ none
      → same_value same casing (find k a) (find k b) ≡ true
  same_value-none a b k h g = rw (h, g) refl

  -- The properties of either object are compared, and no others can differ.
  either_iff :
      (a b : Table Text V)
      → All (λ k. same_value same casing (find k a) (find k b) ≡ true) (either same casing a b)
        ↔ ((k : Text) → same_value same casing (find k a) (find k b) ≡ true)
  either_iff a b =
      let P : Text → Type 0 = λ k. same_value same casing (find k a) (find k b) ≡ true in
      let rest = keep (λ k. not (has k a)) (keys b) in
      let in_order = All-sorted text_le P (keys a ++ rest) in
      let left = All-keys_iff P a in
      let right = All-keys_iff (λ k. not (has k a) ≡ true → P k) b in
      let kept = All-keep P (λ k. not (has k a)) (keys b) in
      (
        λ h k.
            let (ha, hb) = All-split P (keys a) rest (in_order.0 h) in
            elim (Option-cases (find k a)) [
              | inr (v, f) ↦ left.0 ha k v f
              | inl lost ↦ elim (Option-cases (find k b)) [
                | inr (w, g) ↦ right.0 (kept.0 hb) k w g ((not-has_iff k a).1 lost)
                | inl gone ↦ same_value-none a b k lost gone
              ]
            ],
        λ h. in_order.1 (
            All-append P (keys a) rest (left.1 (λ k v f. h k)) (kept.1 (right.1 (λ k w g t. h k)))),
      )

  property_delta_iff :
      (name : Text) (a b : Table Text V) (k : Text)
      → IsQuiet (property_delta same casing name a b k)
        ↔ (same_value same casing (find k a) (find k b) ≡ true)
  property_delta_iff name a b k = elim (Bool-cases (same_value same casing (find k a) (find k b))) [
    | inl equal ↦ rw (equal, property_delta) (λ _. refl, λ _. tt)
    | inr differ ↦ rw (differ, property_delta) (λ (h, _). absurd (cc h), λ h. absurd (cc h))
  ]

  module _ (src fin : Table Text (Object V)) (name : Text) (s f : Object V)
      (found : find name src ≡ some s) (there : find name fin ≡ some f) where
    pub base_iff :
        IsQuiet (base_delta same casing src fin name)
        ↔ (casing.upper s.base_class ≡ casing.upper f.base_class)
    unfolding base_delta
    base_iff =
        let one = text_eq_iff (casing.upper s.base_class) (casing.upper f.base_class) in
        elim (Bool-cases (text_eq (casing.upper s.base_class) (casing.upper f.base_class))) [
          | inl equal ↦ rw (found, there, equal, base_delta) (λ _. one.0 equal, λ _. tt)
          | inr differ ↦
              rw (found, there, differ, base_delta)
                (λ (h, _). absurd (cc h), λ h. absurd (cc (sym differ ∙ one.1 h)))
        ]

    pub properties_iff : IsQuiet (properties_delta same casing src fin name) ↔ (
        (k : Text)
        → same_value same casing
            (find k (properties_of same casing s))
            (find k (properties_of same casing f))
          ≡ true)
    unfolding properties_delta
    properties_iff =
        let a = properties_of same casing s in
        let b = properties_of same casing f in
        let delta = property_delta same casing name a b in
        let each = All-map_iff (either same casing a b) (property_delta_iff name a b) in
        let all = IsQuiet-collect delta (either same casing a b) in
        let whole = either_iff a b in
        rw (found, there, properties_delta)
          (λ h. whole.0 (each.0 (all.0 h)), λ h. all.1 (each.1 (whole.1 h)))

  pub method_iff :
      (patches : List Patch) (src fin : Table (Text × Text) MethodEntry) (key : Text × Text)
      (s f : MethodEntry)
      → find key src ≡ some s
      → find key fin ≡ some f
      → IsQuiet (method_delta same casing patches src fin key)
        ↔ ((s.source_sha256 ≡ f.source_sha256) ⊎ (is_expected casing patches key ≡ true))
  unfolding method_delta
  method_iff patches src fin key s f found there =
      let one = text_eq_iff s.source_sha256 f.source_sha256 in
      elim (Bool-cases (text_eq s.source_sha256 f.source_sha256)) [
        | inl equal ↦ rw (found, there, equal, method_delta) (λ _. inl (one.0 equal), λ _. tt)
        | inr differ ↦
            rw (found, there, differ, method_delta)
              (
                λ (h, _). inr (not-eq-false _ h),
                λ h. elim h [
                  | inl equal ↦ absurd (cc (sym differ ∙ one.1 equal))
                  | inr named ↦ (rw named refl, tt)
                ],
              )
      ]

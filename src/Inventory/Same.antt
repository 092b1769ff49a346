-- ===== src/Inventory/Same.antt =====
-- When `compare_inventories` passes.
use mcp_vfp9sp2_toolchain.Base.{
  ◌≡◌, ◌≢◌, ◌↔◌, ◌⊎◌, refl, Bool, true, not, none, some, List, map, keep,
}
use mcp_vfp9sp2_toolchain.Base.Text.{Text, Casing}
use mcp_vfp9sp2_toolchain.Base.Table.{Table, text_key, pair_key, find, keys, has, sorted}
use mcp_vfp9sp2_toolchain.Plan.{Patch}
use mcp_vfp9sp2_toolchain.Inventory.{
  text_le, pair_le, MethodEntry, Object, Inventory, Delta, is_unexpected, collect, is_expected,
  same_value, objects_of, properties_of, methods_of, base_delta, properties_delta, method_delta,
  only_in, in_both, deltas, compare_inventories, object_added, object_removed, method_added,
  method_removed,
}
use mcp_vfp9sp2_toolchain.Inventory.Quiet.{
  IsQuiet, IsQuiet-append, IsQuiet-collect, IsQuiet-map, is_empty-IsQuiet, none_left_iff,
  in_both_iff,
}
use mcp_vfp9sp2_toolchain.Inventory.Deltas.{base_iff, properties_iff, method_iff}

module _ {ℓ} {V : Type ℓ} (same : V → V → Bool) (casing : Casing) where
  -- Every object and every method stands in both inventories; the objects have the same base class
  -- (case ignored) and equal properties, and a method with another hash is one that a patch names.
  pub record IsSame (source final : Inventory V) (patches : List Patch) : Type ℓ where
    pub no_object_added :
        (name : Text) (f : Object V)
        → find name (objects_of same casing final) ≡ some f
        → find name (objects_of same casing source) ≢ none
    pub no_object_removed :
        (name : Text) (s : Object V)
        → find name (objects_of same casing source) ≡ some s
        → find name (objects_of same casing final) ≢ none
    pub same_base :
        (name : Text) (s f : Object V)
        → find name (objects_of same casing source) ≡ some s
        → find name (objects_of same casing final) ≡ some f
        → casing.upper s.base_class ≡ casing.upper f.base_class
    pub same_properties :
        (name : Text) (s f : Object V)
        → find name (objects_of same casing source) ≡ some s
        → find name (objects_of same casing final) ≡ some f
        → (k : Text)
        → same_value same casing
            (find k (properties_of same casing s))
            (find k (properties_of same casing f))
          ≡ true
    pub no_method_added :
        (key : Text × Text) (f : MethodEntry)
        → find key (methods_of same casing final) ≡ some f
        → find key (methods_of same casing source) ≢ none
    pub no_method_removed :
        (key : Text × Text) (s : MethodEntry)
        → find key (methods_of same casing source) ≡ some s
        → find key (methods_of same casing final) ≢ none
    pub same_methods :
        (key : Text × Text) (s f : MethodEntry)
        → find key (methods_of same casing source) ≡ some s
        → find key (methods_of same casing final) ≡ some f
        → (s.source_sha256 ≡ f.source_sha256) ⊎ (is_expected casing patches key ≡ true)

  module _ (src fin : Table Text (Object V)) where
    added_iff :
        IsQuiet {V = V} (map object_added (only_in same casing fin src))
        ↔ ((k : Text) (f : Object V) → find k fin ≡ some f → find k src ≢ none)
    added_iff =
        let loud = IsQuiet-map object_added (only_in same casing fin src) (λ k. refl) in
        let left = none_left_iff text_le fin src in (λ h. left.0 (loud.0 h), λ h. loud.1 (left.1 h))

    removed_iff :
        IsQuiet {V = V} (map object_removed (only_in same casing src fin))
        ↔ ((k : Text) (s : Object V) → find k src ≡ some s → find k fin ≢ none)
    removed_iff =
        let loud = IsQuiet-map object_removed (only_in same casing src fin) (λ k. refl) in
        let left = none_left_iff text_le src fin in (λ h. left.0 (loud.0 h), λ h. loud.1 (left.1 h))

    bases_iff : IsQuiet (collect (base_delta same casing src fin) (in_both same casing src fin)) ↔ (
        (k : Text) (s f : Object V)
        → find k src ≡ some s
        → find k fin ≡ some f
        → casing.upper s.base_class ≡ casing.upper f.base_class)
    bases_iff =
        let delta = base_delta same casing src fin in
        let loop = IsQuiet-collect delta (in_both same casing src fin) in
        let each = in_both_iff text_le src fin (λ k. IsQuiet (delta k)) in
        (
          λ h k s f x y. (base_iff same casing src fin k s f x y).0 (each.0 (loop.0 h) k s f x y),
          λ h.
              loop.1
                (each.1 (λ k s f x y. (base_iff same casing src fin k s f x y).1 (h k s f x y))),
        )

    all_properties_iff :
        IsQuiet (collect (properties_delta same casing src fin) (in_both same casing src fin)) ↔ (
          (k : Text) (s f : Object V)
          → find k src ≡ some s
          → find k fin ≡ some f
          → (q : Text)
          → same_value same casing
              (find q (properties_of same casing s))
              (find q (properties_of same casing f))
            ≡ true)
    all_properties_iff =
        let delta = properties_delta same casing src fin in
        let loop = IsQuiet-collect delta (in_both same casing src fin) in
        let each = in_both_iff text_le src fin (λ k. IsQuiet (delta k)) in
        (
          λ h k s f x y.
              (properties_iff same casing src fin k s f x y).0 (each.0 (loop.0 h) k s f x y),
          λ h. loop.1 (
              each.1 (λ k s f x y. (properties_iff same casing src fin k s f x y).1 (h k s f x y))),
        )

  module _ (patches : List Patch) (src fin : Table (Text × Text) MethodEntry) where
    changes_iff :
        IsQuiet (
          collect
            (method_delta same casing patches src fin)
            (sorted pair_le (keep (λ k. has k fin) (keys src))))
        ↔ ((k : Text × Text) (s f : MethodEntry)
            → find k src ≡ some s
            → find k fin ≡ some f
            → (s.source_sha256 ≡ f.source_sha256) ⊎ (is_expected casing patches k ≡ true))
    changes_iff =
        let delta = method_delta same casing patches src fin in
        let loop = IsQuiet-collect delta (sorted pair_le (keep (λ k. has k fin) (keys src))) in
        let each = in_both_iff pair_le src fin (λ k. IsQuiet (delta k)) in
        (
          λ h k s f x y.
              (method_iff same casing patches src fin k s f x y).0 (each.0 (loop.0 h) k s f x y),
          λ h. loop.1 (
              each.1
                (λ k s f x y. (method_iff same casing patches src fin k s f x y).1 (h k s f x y))),
        )

    methods_left_iff :
        (c : Text × Text → Delta V)
        → ((k : Text × Text) → is_unexpected (c k) ≡ true)
        → IsQuiet (map c (sorted pair_le (keep (λ k. not (has k fin)) (keys src))))
          ↔ ((k : Text × Text) (s : MethodEntry) → find k src ≡ some s → find k fin ≢ none)
    methods_left_iff c always =
        let loud = IsQuiet-map c (sorted pair_le (keep (λ k. not (has k fin)) (keys src))) always in
        let left = none_left_iff pair_le src fin in (λ h. left.0 (loud.0 h), λ h. loud.1 (left.1 h))

  module _ (source final : Inventory V) (patches : List Patch) where
    -- The comparison passes exactly when the two inventories have the same paths of objects and the
    -- same pairs of a path and a method, case ignored, and of each of these the last object with the
    -- path has the same base class, case ignored, and equal properties, and the last method of the
    -- pair has the same hash or is named, with its object, by a patch of the plan. The number of the
    -- objects with one path, their class libraries and their parents are not compared.
    pub compare_inventories_ok :
        ((compare_inventories same casing source final patches).0 ≡ true)
        ↔ IsSame source final patches
    unfolding compare_inventories deltas
    compare_inventories_ok =
        let src = objects_of same casing source in
        let fin = objects_of same casing final in
        let src_m = methods_of same casing source in
        let fin_m = methods_of same casing final in
        let verdict = is_empty-IsQuiet (deltas same casing source final patches) in
        let p1 = IsQuiet-append (map object_added (only_in same casing fin src)) _ in
        let p2 = IsQuiet-append (map object_removed (only_in same casing src fin)) _ in
        let p3 =
          IsQuiet-append (collect (base_delta same casing src fin) (in_both same casing src fin))
            _ in
        let p4 =
          IsQuiet-append
            (collect (properties_delta same casing src fin) (in_both same casing src fin)) _ in
        let p5 =
          IsQuiet-append
            (collect (method_delta same casing patches src_m fin_m)
              (sorted pair_le (keep (λ k. has k fin_m) (keys src_m))))
            _ in
        let p6 =
          IsQuiet-append
            (map method_removed (sorted pair_le (keep (λ k. not (has k fin_m)) (keys src_m)))) _ in
        let added = added_iff src fin in
        let removed = removed_iff src fin in
        let bases = bases_iff src fin in
        let properties = all_properties_iff src fin in
        let changes = changes_iff patches src_m fin_m in
        let lost = methods_left_iff patches src_m fin_m method_removed (λ k. refl) in
        let extra = methods_left_iff patches fin_m src_m method_added (λ k. refl) in
        (
          λ h.
              let (a, r1) = p1.0 (verdict.0 h) in
              let (b, r2) = p2.0 r1 in
              let (c, r3) = p3.0 r2 in
              let (d, r4) = p4.0 r3 in
              let (e, r5) = p5.0 r4 in
              let (f, g) = p6.0 r5 in
              record {
                no_object_added = added.0 a;
                no_object_removed = removed.0 b;
                same_base = bases.0 c;
                same_properties = properties.0 d;
                no_method_added = extra.0 g;
                no_method_removed = lost.0 f;
                same_methods = changes.0 e;
              },
          λ w. verdict.1 (
              p1.1 (
                added.1 w.no_object_added,
                p2.1 (
                  removed.1 w.no_object_removed,
                  p3.1 (
                    bases.1 w.same_base,
                    p4.1 (
                      properties.1 w.same_properties,
                      p5.1 (
                        changes.1 w.same_methods,
                        p6.1 (lost.1 w.no_method_removed, extra.1 w.no_method_added),
                      ),
                    ),
                  ),
                ),
              )),
        )

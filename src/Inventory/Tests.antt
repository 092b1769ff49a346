-- ===== src/Inventory/Tests.antt =====
-- Comparisons of small inventories, with numbers as values.
use mcp_vfp9sp2_toolchain.Base.{
  ℕ, ◌≡◌, ◌↔◌, refl, Bool, true, false, none, some, List, [], ◌∷◌, ◌==◌,
}
use mcp_vfp9sp2_toolchain.Base.Text.{Text, codes, ascii, text_eq}
use mcp_vfp9sp2_toolchain.Base.Table.{sorted, store, find, pair_is}
use mcp_vfp9sp2_toolchain.Plan.{Patch}
use mcp_vfp9sp2_toolchain.Inventory.{
  Object, Inventory, MethodEntry, compare_inventories, deltas, property_changed,
}
use mcp_vfp9sp2_toolchain.Inventory.Same.{IsSame, compare_inventories_ok}

abbrev number_is : ℕ → ℕ → Bool
number_is a b = a == b

abbrev form : ℕ → Object ℕ
form width = record {
  object_path = codes "Form1";
  base_class = codes "Form";
  properties = (codes "Width", width) ∷ [];
}

abbrev click : Text → MethodEntry
click sha = record { object_path = codes "form1"; method_name = codes "Click"; source_sha256 = sha }

abbrev inventory : ℕ → Text → Inventory ℕ
inventory width sha = record { objects = form width ∷ []; methods = click sha ∷ [] }

abbrev plan : List Patch
plan =
    record {
      object_path = some (codes "FORM1");
      method = some (codes "click");
      old_method_sha256 = none;
      new_code = none;
    }
    ∷ []

-- A change that the plan names passes, the same change with no plan does not, nor does a property.
compare_values :
    ((compare_inventories number_is ascii
        (inventory 5 (codes "a"))
        (inventory 5 (codes "b"))
        plan).0
      ≡ true)
    × ((compare_inventories number_is ascii
          (inventory 5 (codes "a"))
          (inventory 5 (codes "b"))
          []).0
        ≡ false)
    × ((compare_inventories number_is ascii
          (inventory 5 (codes "a"))
          (inventory 6 (codes "a"))
          plan).1
        ≡ property_changed (codes "FORM1") (codes "WIDTH") (some 5) (some 6) ∷ [])
unfolding compare_inventories deltas sorted store find text_eq pair_is
compare_values = (refl, refl, refl)

compare_inventories_ok_example :
    ((compare_inventories number_is ascii
        (inventory 5 (codes "a"))
        (inventory 5 (codes "b"))
        plan).0
      ≡ true)
    ↔ IsSame number_is ascii (inventory 5 (codes "a")) (inventory 5 (codes "b")) plan
compare_inventories_ok_example =
    compare_inventories_ok number_is ascii (inventory 5 (codes "a")) (inventory 5 (codes "b")) plan

-- ===== src/Patching/LoadTests.antt =====
-- A plan that is loaded without an error, and some that are not.
use mcp_vfp9sp2_toolchain.Base.{
  ℕ, zero, suc, ◌≡◌, ◌==◌, refl, true, false, Option, none, some, List, [], ◌∷◌,
}
use mcp_vfp9sp2_toolchain.Base.Text.{Text, codes}
use mcp_vfp9sp2_toolchain.Disk.{File}
use mcp_vfp9sp2_toolchain.Pipeline.Samples.{full}
use mcp_vfp9sp2_toolchain.Patching.Load.{
  Reals, Json, null, integer, text, array, object, no_item, item, Fields, no_field, field,
  missing_field, not_sha256, no_patches, wrong_version, raises, loaded, load_plan,
}
use mcp_vfp9sp2_toolchain.Patching.Valid.{IsPlan, load_plan-IsPlan}

abbrev whole : Reals
whole = record { Real = ℕ; is_zero = λ x. x == 0; is_one = λ x. x == 1 }

abbrev digest : Text
digest = codes "00112233445566778899aAbBcCdDeEfF00112233445566778899aabbccddeeff"

abbrev patch : Json whole → Json whole
patch hash = object (
    field (codes "objectPath") (text (codes "f")) (
      field (codes "method") (text (codes "go"))
        (field (codes "oldMethodSha256") hash (field (codes "newCode") null no_field))))

abbrev plan : Json whole → Fields whole
plan patches = field (codes "schemaVersion") (integer false 1) (
    field (codes "sourceForm") (text (codes "f.scx"))
      (field (codes "workspace") (text (codes "w")) (field (codes "patches") patches no_field)))

abbrev good : Fields whole
good = plan (array (item (patch (text digest)) (item (patch null) no_item)))

abbrev reader : Fields whole → File → Option (Json whole)
reader p f = some (object p)

abbrev path : Text
path = codes "plan.json"

load_plan_value : load_plan (reader good) path full ≡ loaded (some good) []
unfolding load_plan mcp_vfp9sp2_toolchain.Patching.Load.plan_errors
    mcp_vfp9sp2_toolchain.Patching.Load.get mcp_vfp9sp2_toolchain.Base.Text.text_eq
    mcp_vfp9sp2_toolchain.Patching.Load.items_errors
    mcp_vfp9sp2_toolchain.Patching.Load.patch_errors
    mcp_vfp9sp2_toolchain.Patching.Load.missing_loop mcp_vfp9sp2_toolchain.Patching.Load.hex_digits
load_plan_value = refl

-- A short hash, no patch, and one that is no object.
load_plan_errors :
    (load_plan (reader (plan (array (item (patch (text (codes "12"))) no_item)))) path full
      ≡ loaded (some (plan (array (item (patch (text (codes "12"))) no_item)))) (not_sha256 0 ∷ []))
    × (load_plan (reader (plan (array no_item))) path full
        ≡ loaded (some (plan (array no_item))) (no_patches ∷ []))
    × (load_plan (reader (plan (array (item null no_item)))) path full ≡ raises)
unfolding load_plan mcp_vfp9sp2_toolchain.Patching.Load.plan_errors
    mcp_vfp9sp2_toolchain.Patching.Load.get mcp_vfp9sp2_toolchain.Base.Text.text_eq
    mcp_vfp9sp2_toolchain.Patching.Load.items_errors
    mcp_vfp9sp2_toolchain.Patching.Load.patch_errors
    mcp_vfp9sp2_toolchain.Patching.Load.missing_loop mcp_vfp9sp2_toolchain.Patching.Load.hex_digits
load_plan_errors = (refl, refl, refl)

load_plan-IsPlan_example :
    (f : File) × (full path ≡ some f) × (reader good f ≡ some (object good)) × IsPlan good
load_plan-IsPlan_example = (load_plan-IsPlan (reader good) path full good).0 load_plan_value

-- ===== src/Patched/Tests.antt =====
-- The check of a patched form on a text with two methods of one name.
use mcp_vfp9sp2_toolchain.Base.{◌≡◌, ◌↔◌, true, none, some, List, [], ◌∷◌, All}
use mcp_vfp9sp2_toolchain.Base.Text.{Text, codes, ascii}
use mcp_vfp9sp2_toolchain.Disk.{Disk, File}
use mcp_vfp9sp2_toolchain.MethodParser.{parse_methods}
use mcp_vfp9sp2_toolchain.Patched.{Promise, passes, verify_patched_methods}
use mcp_vfp9sp2_toolchain.Patched.Last.{IsPromised, verify_patched_methods-IsPromised}

abbrev lines : Text
lines = codes "PROCEDURE a.Click\nx = 1\nENDPROC\nPROCEDURE b.Click\nx = 2\nENDPROC\n"

abbrev disk : Disk
disk p = some (record { content = lines; mtime = 0 })

abbrev click : List Promise
click =
    record {
      object_path = some (codes "a");
      method = some (codes "Click");
      new_method_sha256 = none;
    }
    ∷ []

verify_patched_methods-IsPromised_example :
    (passes (verify_patched_methods ascii (λ t. t) (λ f. f.content) (codes "f.sc2") click disk)
      ≡ true)
    ↔ ((f : File) × (disk (codes "f.sc2") ≡ some f)
        × All (IsPromised ascii (parse_methods ascii (λ t. t) f.content)) click)
verify_patched_methods-IsPromised_example =
    verify_patched_methods-IsPromised ascii (λ t. t) (λ f. f.content) (codes "f.sc2") click disk

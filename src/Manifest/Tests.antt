-- ===== src/Manifest/Tests.antt =====
-- The manifest comparisons on two small file systems, and their theorems there.
use mcp_vfp9sp2_toolchain.Base.{◌≡◌, ◌↔◌, refl, true, false, some, List, [], ◌∷◌, All}
use mcp_vfp9sp2_toolchain.Base.Text.{Text, codes, text_eq}
use mcp_vfp9sp2_toolchain.Base.Dict.{lookup, insert}
use mcp_vfp9sp2_toolchain.Manifest.{
  FileSystem, capture, capture_one, capture_loop, compare_manifests, verify, compare_files,
  guard_loop, verify_source_hashes, verify_loop,
}
use mcp_vfp9sp2_toolchain.Manifest.Compare.{IsKept, compare_manifests_ok}
use mcp_vfp9sp2_toolchain.Manifest.Verify.{Unchanged, verify_source_hashes_ok}

abbrev same_path : Text → Text
same_path p = p

-- Every file can be read, and has the digest `sha`.
abbrev all_with : Text → FileSystem
all_with sha = record {
  is_file = λ p. true;
  sha256_file = λ p. some sha;
  stat = λ p. some (record { size = 7; mtime = 100 });
}

abbrev old_fs : FileSystem
old_fs = all_with (codes "aa")

abbrev new_fs : FileSystem
new_fs = all_with (codes "bb")

abbrev paths : List Text
paths = codes "f.scx" ∷ codes "f.sct" ∷ []

-- The one-shot check sees the change; the guard's own `verify`, run behind it, does not.
verify_runs :
    ((verify_source_hashes same_path (capture same_path old_fs paths) new_fs paths).ok ≡ false)
    × ((verify same_path paths new_fs new_fs).ok ≡ true)
    × ((verify same_path paths new_fs old_fs).error_code ≡ some (codes "SOURCE_HASH_CHANGED"))
unfolding verify_source_hashes verify_loop capture capture_loop capture_one verify compare_files
    guard_loop lookup insert text_eq
verify_runs = (refl, refl, refl)

verify_source_hashes_ok_example :
    ((verify_source_hashes same_path (capture same_path old_fs paths) new_fs paths).ok ≡ true)
    ↔ All (Unchanged same_path (capture same_path old_fs paths) new_fs) paths
verify_source_hashes_ok_example =
    verify_source_hashes_ok same_path (capture same_path old_fs paths) new_fs paths

compare_manifests_ok_example :
    ((compare_manifests (capture same_path old_fs paths) (capture same_path new_fs paths)).ok
      ≡ true)
    ↔ All (IsKept (capture same_path new_fs paths)) (capture same_path old_fs paths)
compare_manifests_ok_example =
    compare_manifests_ok (capture same_path old_fs paths) (capture same_path new_fs paths)

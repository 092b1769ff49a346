-- ===== src/Pipeline/Tests.antt =====
-- The theorems on `cmd_validate` at the sample runs.
use mcp_vfp9sp2_toolchain.Base.{
  ℕ, ◌≡◌, refl, true, false, none, some, [], ◌∷◌, ◌++◌, ◌==◌, All, arith, if◌then◌else◌,
}
use mcp_vfp9sp2_toolchain.Base.Text.{Text, codes, text_eq, starts_with, strip, ends_with}
use mcp_vfp9sp2_toolchain.Base.OsPath.{posix_basename, posix_dirname, posix_join, posix_splitext}
use mcp_vfp9sp2_toolchain.Common.{required_companions}
use mcp_vfp9sp2_toolchain.Disk.{Disk, is_file, put}
use mcp_vfp9sp2_toolchain.Driver.{convert_one}
use mcp_vfp9sp2_toolchain.Safety.{
  PathSafetyGuard, forbidden, ok, workspace_in_source, make_guard, canonicalize_path, are_same,
  is_under,
}
use mcp_vfp9sp2_toolchain.Pipeline.Machine.{
  source_sc2_ok, compile_error, go, World, ◌>>=◌, pure, ◌>>◌, step, reads, runs,
}
use mcp_vfp9sp2_toolchain.Pipeline.{
  Setting, require, hash_of, source_form, source_sct, working_scx, working_sct, final_scx,
  final_sct, report_json_path, report_md_path, workspace, form_sc2,
}
use mcp_vfp9sp2_toolchain.Pipeline.Validate.{
  validate, find_source_sc2, check_inventories, checked_files, promoted_files, source_sc2,
}
use mcp_vfp9sp2_toolchain.Safety.Tests.{settles}
use mcp_vfp9sp2_toolchain.Pipeline.Kept.{Untouched, Differs}
use mcp_vfp9sp2_toolchain.Pipeline.Final.{validate_refused-kept, validate-source_kept}
use mcp_vfp9sp2_toolchain.Pipeline.Protocol.{Run, stages}
use mcp_vfp9sp2_toolchain.Pipeline.Stages.{verdicts}
use mcp_vfp9sp2_toolchain.Pipeline.Refines.{validate_refines}
use mcp_vfp9sp2_toolchain.Pipeline.Promoted.{
  promotion_files, validate-source_same, validate-promoted,
}
use mcp_vfp9sp2_toolchain.Pipeline.Refusal.{check_inventories_self}
use mcp_vfp9sp2_toolchain.Manifest.{
  verify_source_hashes, verify_loop, guarded_paths, capture, capture_loop, capture_one,
}
use mcp_vfp9sp2_toolchain.Base.Dict.{lookup, insert}
use mcp_vfp9sp2_toolchain.Pipeline.Samples.{
  small, full, status, setting, good, bad, validate_values,
}

abbrev inside : Setting
inside = setting (codes "OK") (codes "/app/src/work")

abbrev source : Text
source = codes "/app/src/f.scx"

-- Each process leaves the source form alone.
untouched : (text place : Text) → Untouched (setting text place) source
unfolding put text_eq
untouched text place cmd cwd d = refl

checked-Differs : Differs source (checked_files good)
unfolding text_eq posix_join starts_with
checked-Differs = (refl, (refl, (refl, (refl, tt))))

validate_refused-kept_example : (validate bad full).1.disk source ≡ full source
validate_refused-kept_example =
    validate_refused-kept bad source (untouched (codes "x") (codes "/work")) checked-Differs full
      (some compile_error) validate_values.1

validate_refines_example : Run stages (verdicts (validate good full).1.steps) (validate good full).0
validate_refines_example = validate_refines good full

scx-Differs : Differs (source_form good) (promotion_files good)
unfolding text_eq posix_join starts_with
scx-Differs = (refl, (refl, (refl, (refl, (refl, (refl, tt))))))

sct-Differs : Differs (source_sct good) (promotion_files good)
unfolding text_eq posix_join starts_with posix_dirname
sct-Differs = (refl, (refl, (refl, (refl, (refl, (refl, tt))))))

working-Differs :
    Differs (working_scx good) (promotion_files good)
    × Differs (working_sct good) (promotion_files good)
unfolding text_eq posix_join starts_with
working-Differs = (
  (refl, (refl, (refl, (refl, (refl, (refl, tt)))))),
  (refl, (refl, (refl, (refl, (refl, (refl, tt)))))),
)

final-Differs :
    Differs (final_scx good) (
      report_json_path good
      ∷ report_md_path good
      ∷ (final_scx good ++ codes ".promote.tmp")
      ∷ final_sct good
      ∷ (final_sct good ++ codes ".promote.tmp")
      ∷ [])
    × Differs (final_sct good) (
        report_json_path good ∷ report_md_path good ∷ (final_sct good ++ codes ".promote.tmp") ∷ [])
unfolding text_eq posix_join starts_with
final-Differs = ((refl, (refl, (refl, (refl, (refl, tt))))), (refl, (refl, (refl, tt))))

nested :
    make_guard inside.host inside.is_dir
      (inside.converter.os.dirname (source_form inside))
      (workspace inside)
    ≡ forbidden workspace_in_source
unfolding make_guard are_same is_under canonicalize_path posix_join posix_dirname text_eq
    starts_with strip
nested = refl

validate-source_same_example :
    (hash_of good (validate good full).1.disk (source_form good)
      ≡ hash_of good full (source_form good))
    × (hash_of good (validate good full).1.disk (source_sct good)
        ≡ hash_of good full (source_sct good))
validate-source_same_example =
    validate-source_same good scx-Differs sct-Differs full none validate_values.0

validate-promoted_example :
    ((validate good full).1.disk (final_scx good) ≡ (validate good full).1.disk (working_scx good))
    × ((validate good full).1.disk (final_sct good)
        ≡ (validate good full).1.disk (working_sct good))
validate-promoted_example =
    validate-promoted good working-Differs.0 working-Differs.1 final-Differs.0 final-Differs.1 full
      none validate_values.0

abbrev guard : PathSafetyGuard
guard = record { source = codes "/app/src"; workspace = codes "/work" }

made :
    make_guard good.host good.is_dir (good.converter.os.dirname (source_form good)) (workspace good)
    ≡ ok guard
unfolding make_guard are_same is_under canonicalize_path posix_join posix_dirname text_eq
    starts_with strip
made = refl

checked_inside : All (λ q. is_under good.host q guard.workspace ≡ ok true) (checked_files good)
unfolding is_under canonicalize_path posix_join posix_dirname text_eq starts_with strip
checked_inside = (refl, (refl, (refl, (refl, tt))))

promoted_inside : All (λ q. is_under good.host q guard.workspace ≡ ok true) (promoted_files good)
unfolding is_under canonicalize_path posix_join posix_dirname text_eq starts_with strip
promoted_inside = (refl, (refl, (refl, (refl, tt))))

source_inside : is_under good.host source guard.source ≡ ok true
unfolding is_under canonicalize_path posix_join posix_dirname text_eq starts_with strip
source_inside = refl

validate-source_kept_example : (validate good full).1.disk source ≡ full source
validate-source_kept_example =
    validate-source_kept good guard settles made checked_inside promoted_inside source
      (untouched (codes "OK") (codes "/work")) source_inside full

-- No text of the source stands in validation/ yet.
abbrev bare : Disk
bare p =
    if text_eq p (codes "/work/validation/source_f.sc2") then none else some (small (codes "x"))

abbrev bare_world : World
bare_world = record { disk = bare; steps = [] }

abbrev found_world : World
found_world = record {
  disk = put status (some (small (codes "OK"))) bare;
  steps = record { label = source_sc2_ok; ok = true; error_code = none } ∷ [];
}

self_found : find_source_sc2 good bare_world ≡ go (form_sc2 good) found_world
unfolding find_source_sc2 ◌>>=◌ ◌>>◌ reads runs pure step require convert_one posix_join
    posix_splitext text_eq put verify_source_hashes verify_loop guarded_paths lookup capture
    capture_loop required_companions capture_one insert starts_with posix_dirname posix_basename
    ends_with
self_found = refl

source_lost : is_file bare (source_sc2 good) ≡ false
unfolding posix_join text_eq starts_with
source_lost = refl

same_stem :
    (good.converter.os.splitext (good.converter.os.basename (source_form good))).0 ≡ good.form
unfolding posix_splitext posix_basename posix_join starts_with
same_stem = refl

number_self : (n : ℕ) → (n == n) ≡ true
number_self n = ground arith

check_inventories_self_example :
    (v : World) × (check_inventories good (form_sc2 good) found_world ≡ go tt v)
check_inventories_self_example =
    check_inventories_self good number_self same_stem bare_world (form_sc2 good) found_world
      source_lost self_found

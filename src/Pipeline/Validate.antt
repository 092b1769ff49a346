-- ===== src/Pipeline/Validate.antt =====
-- The second half of `cmd_validate`, from the static validation to the promotion.
use mcp_vfp9sp2_toolchain.Base.{
  Bool, true, false, not, ◌&&◌, Option, none, some, List, [], ◌∷◌, ◌++◌, if◌then◌else◌,
}
use mcp_vfp9sp2_toolchain.Base.Text.{Text, codes, text_eq}
use mcp_vfp9sp2_toolchain.Disk.{Disk, is_file}
use mcp_vfp9sp2_toolchain.Encoding.{Info, decode_sc2, default_cpid, is_suspicious}
use mcp_vfp9sp2_toolchain.Inventory.{Inventory, compare_inventories}
use mcp_vfp9sp2_toolchain.MethodParser.{parse_methods}
use mcp_vfp9sp2_toolchain.Outline.Build.{build_inventory, inventory_of}
use mcp_vfp9sp2_toolchain.Outline.Norm.{Value, same_value_of}
use mcp_vfp9sp2_toolchain.Plan.{Patch}
use mcp_vfp9sp2_toolchain.Safety.{PathSafetyGuard, check_target}
use mcp_vfp9sp2_toolchain.Static.{validate_sc2}
use mcp_vfp9sp2_toolchain.Pipeline.Machine.{
  static_ok, source_sc2_ok, inv_objects_ok, inv_methods_ok, src_sha_post, promote_final,
  roundtrip_failed, static_validation_failed, encoding_corruption, form_structure_changed,
  critical_source_mutation, World, Exit, emitted, Ends, go, stop, M, ◌>>=◌, ◌>>◌, pure, reads,
  writes, step, or_raise, opened,
}
use mcp_vfp9sp2_toolchain.Pipeline.{
  Setting, require, check_workspace, hash_source, check_copies, check_compile, check_roundtrip,
  convert, source_form, source_sct, in_workspace, within_workspace, working_scx, working_sct,
  final_scx, final_sct, form_sc2, status_file, compile_prg, report_json_path, report_md_path,
  hash_of, write_reports,
}

-- The result of a run that came to its end is the promotion's.
unfoldable pub ended : Ends (Unit {0}) → Exit × World
ended (go _ w) = (emitted true none, w)
ended (stop e w) = (e, w)

module _ (s : Setting) where
  open s use {host, converter, letters, codecs, is_dir, utf8, cp1252, form}

  -- `read_sc2_text`, with an `OSError` for a file that is not there
  unfoldable pub read_sc2_text : Text → M (Text × Info)
  read_sc2_text path = do
    f ← opened path
    pure (decode_sc2 letters codecs f.content none default_cpid)

  abbrev pub sound_text : Text × Info → Bool
  sound_text (text, info) =
      let methods = parse_methods host.casing (λ code. converter.sha256 (utf8 code)) text in
      not (is_suspicious (some info)) && (validate_sc2 letters host.casing text methods []).ok

  -- 6. the static validation; the code of the step is the encoding's where that is suspicious
  unfoldable pub check_static : M (Unit {0})
  check_static = do
    decoded ← read_sc2_text (form_sc2 s)
    step static_ok (sound_text decoded) (
        if is_suspicious (some decoded.1)
        then some encoding_corruption
        else if sound_text decoded
        then none
        else some static_validation_failed)
    require s (sound_text decoded) static_validation_failed

  abbrev pub source_sc2 : Text
  source_sc2 = (within_workspace s) (codes "validation") (codes "source_" ++ (form ++ codes ".sc2"))

  abbrev pub converted_sc2 : Text
  converted_sc2 =
      (within_workspace s) (codes "validation")
        ((converter.os.splitext (converter.os.basename (source_form s))).0 ++ codes ".sc2")

  -- 7. the text of the source, converted where it is not there; the result of the conversion is
  -- not looked at
  unfoldable pub find_source_sc2 : M Text
  find_source_sc2 = do
    there ← reads (λ disk. is_file disk source_sc2)
    path ←
        if there then pure source_sc2 else ((convert s) (source_form s) >>= λ _. pure converted_sc2)
    found ← reads (λ disk. is_file disk path)
    step source_sc2_ok found none
    require s found roundtrip_failed
    pure path

  abbrev pub plan_patches : Disk → List Patch
  plan_patches disk = elim (disk ((in_workspace s) (codes "refactor_plan.json"))) [
    | none ↦ []
    | some f ↦ elim (s.plan_of f.content) [ none ↦ [] | some patches ↦ patches ]
  ]

  -- `build_inventory` on a path, of which the comparison reads the objects and the methods
  abbrev pub inventory : Text → Text × Info → Inventory (Value s.floats.Float)
  inventory path decoded = inventory_of (
      build_inventory s.floats host.casing letters (λ code. converter.sha256 (utf8 code))
        (converter.os.abspath path) decoded)

  -- the comparison of the two inventories
  unfoldable pub check_inventories : Text → M (Unit {0})
  check_inventories source_path = do
    patches ← reads plan_patches
    source ← read_sc2_text source_path
    final ← read_sc2_text (form_sc2 s)
    let same =
        (compare_inventories (same_value_of s.floats) host.casing (inventory source_path source)
          (inventory (form_sc2 s) final) patches).0
    step inv_objects_ok same (if same then none else some form_structure_changed)
    step inv_methods_ok same none
    require s same form_structure_changed

  abbrev pub same_hash : Option Text → Option Text → Bool
  same_hash none none = true
  same_hash (some a) (some b) = text_eq a b
  same_hash _ _ = false

  -- 8. the hashes of the source again
  unfoldable pub check_source : Option Text × Option Text → M (Unit {0})
  check_source (scx, sct) = do
    same ← reads (λ disk.
        same_hash ((hash_of s) disk (source_form s)) scx
        && same_hash ((hash_of s) disk (source_sct s)) sct)
    step src_sha_post same none
    require s same critical_source_mutation

  -- all that comes before the promotion
  unfoldable pub checks : M PathSafetyGuard
  checks = do
    guard ← (check_workspace s)
    hashes ← (hash_source s)
    (check_copies s)
    (check_compile s)
    (check_roundtrip s)
    check_static
    source_path ← find_source_sc2
    check_inventories source_path
    check_source hashes
    pure guard

  -- the files that the command writes by itself
  abbrev pub checked_files : List Text
  checked_files = (status_file s) ∷ (compile_prg s) ∷ (report_json_path s) ∷ (report_md_path s) ∷ []

  abbrev pub promoted_files : List Text
  promoted_files =
      (final_scx s)
      ∷ ((final_scx s) ++ codes ".promote.tmp")
      ∷ (final_sct s)
      ∷ ((final_sct s) ++ codes ".promote.tmp")
      ∷ []

  -- `shutil.copy2(a, tmp)` and `os.replace(tmp, b)`
  unfoldable pub promote_file : Text → Text → M (Unit {0})
  promote_file a b = do
    f ← opened a
    writes (b ++ codes ".promote.tmp") (some f)
    writes b (some f)
    writes (b ++ codes ".promote.tmp") none

  -- the promotion; the guard is asked about the target when it has been written
  unfoldable pub promote : PathSafetyGuard → M (Unit {0})
  promote guard = do
    promote_file (working_scx s) (final_scx s)
    promote_file (working_sct s) (final_sct s)
    or_raise (check_target host guard (final_scx s))
    step promote_final true none
    (write_reports s) true none

  -- `cmd_validate`
  unfoldable pub validate : Disk → Exit × World
  validate disk = ended ((checks >>= promote) (record { disk = disk; steps = [] }))

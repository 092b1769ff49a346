-- ===== src/Patching.antt =====
-- vfp_refactor.py: `cmd_patch`, which applies a plan to the form in a workspace, over the machine of
-- Pipeline. The plan is what `load_plan` gives: its source form, and patches that name their object
-- and method; none where it gives no plan.
mod Decimal
pub mod Hex
pub mod Load
mod LoadTests
pub mod Program
pub mod Stale
pub mod Valid
mod Tests
use mcp_vfp9sp2_toolchain.Base.{
  Bool, true, false, not, ◌&&◌, ◌||◌, Option, none, some, List, [], ◌∷◌, ◌++◌, map, keep, is_empty,
  if◌then◌else◌,
}
use mcp_vfp9sp2_toolchain.Base.Text.{Text, codes, text_eq, starts_with, strip}
use mcp_vfp9sp2_toolchain.Base.Dict.{Dict, lookup, insert}
use mcp_vfp9sp2_toolchain.Checks.{search}
use mcp_vfp9sp2_toolchain.Commands.{demand, is_late}
use mcp_vfp9sp2_toolchain.Disk.{Disk, File, is_file}
use mcp_vfp9sp2_toolchain.Driver.{Finished, is_code}
use mcp_vfp9sp2_toolchain.Encoding.{decode_sc2, default_cpid}
use mcp_vfp9sp2_toolchain.Plan.{
  Report, ErrorCode, method_not_found, plan_schema_invalid, patch_precondition_failed,
  check_preconditions,
}
use mcp_vfp9sp2_toolchain.Patched.{passes, verify_patched_methods}
use mcp_vfp9sp2_toolchain.Safety.{PathSafetyGuard, make_guard, check_target}
use mcp_vfp9sp2_toolchain.Pipeline.Machine.{
  Code, workspace_not_found, vfp9_timeout, critical_source_mutation, schema_invalid, unknown_method,
  precondition_failed, vfp9_missing, emitted, M, ◌>>=◌, ◌>>◌, pure, leave, reads, runs, writes,
}
use mcp_vfp9sp2_toolchain.Pipeline.{
  Setting, workspace, in_workspace, within_workspace, hash_of, written,
}
use mcp_vfp9sp2_toolchain.Workspace.{or_refuse}
use mcp_vfp9sp2_toolchain.Patching.Program.{
  Edit, patch_of, promise_of, find_form_class, build_patch_prg,
}

pub record RefactorPlan : Type 0 where
  pub source_form : Text
  pub edits : List Edit

abbrev pub code_of : ErrorCode → Code
code_of method_not_found = unknown_method
code_of plan_schema_invalid = schema_invalid
code_of patch_precondition_failed = precondition_failed

-- The first error code of the entries, or else the one that the loop begins with.
unfoldable pub first_code : List Report → Code
first_code [] = precondition_failed
first_code (r ∷ reports) = elim r.error_code [ some c ↦ code_of c | none ↦ first_code reports ]

module _ (s : Setting) (plan : RefactorPlan) where
  open s use {host, converter, is_dir, letters, codecs, utf8, cp1252}

  abbrev pub plan_dir : Text
  plan_dir = converter.os.dirname plan.source_form

  abbrev pub plan_stem : Text
  plan_stem = (converter.os.splitext (converter.os.basename plan.source_form)).0

  abbrev pub patched_scx : Text
  patched_scx = (within_workspace s) (codes "working") (plan_stem ++ codes ".scx")

  abbrev pub patch_prg : Text
  patch_prg =
      (within_workspace s) (codes "working") (codes "vfp_patch_" ++ (plan_stem ++ codes ".prg"))

  abbrev pub patch_status : Text
  patch_status = (within_workspace s) (codes "validation") (codes "patch_status.txt")

  abbrev pub baseline_sc2 : Text
  baseline_sc2 = (within_workspace s) (codes "validation") (plan_stem ++ codes ".sc2")

  abbrev pub code_sha256 : Text → Text
  code_sha256 code = converter.sha256 (utf8 code)

  abbrev pub decoded : File → Text
  decoded f = (decode_sc2 letters codecs f.content none default_cpid).0

  -- `sc2_text`, none where the file is not there
  abbrev pub baseline : Disk → Option Text
  baseline disk = elim (disk baseline_sc2) [ none ↦ none | some f ↦ some (decoded f) ]

  -- What `check_preconditions` says of a text that is there and not empty.
  unfoldable pub check_text : Option Text → M (Unit {0})
  check_text none = pure tt
  check_text (some text) =
      let (met, reports) =
        check_preconditions host.casing code_sha256 text (map patch_of plan.edits) in
      demand (is_empty text || met) (first_code reports)

  -- `form_class or form_stem`
  abbrev pub owner_in : Option Text → Text
  owner_in none = plan_stem
  owner_in (some text) = elim (find_form_class letters text) [ none ↦ plan_stem | some c ↦ c ]

  abbrev pub patch_code : Option Text → Text
  patch_code text = build_patch_prg host.casing patched_scx patch_status (owner_in text) plan.edits

  abbrev pub patch_command : List Text
  patch_command =
      converter.cscript
      ∷ codes "//NoLogo"
      ∷ converter.os.join_path s.places.here (codes "vfp9_run_prg.vbs")
      ∷ patch_prg
      ∷ []

  -- the program is written, and VFP9 runs it
  unfoldable pub run_patch : Option Text → M Finished
  run_patch text = do
    writes patch_status none
    writes patch_prg (some ((written s) (patch_code text)))
    runs (converter.run patch_command (some ((in_workspace s) (codes "working"))))

  abbrev pub patch_report : Disk → Text
  patch_report disk = elim (disk patch_status) [ none ↦ [] | some f ↦ strip (cp1252 f.content) ]

  -- the error code of a patch that failed
  abbrev pub failure_code : Text → Code
  failure_code status =
      if search (λ t. starts_with t (codes "FAIL")) (host.casing.upper status)
      then precondition_failed
      else vfp9_missing

  abbrev pub is_verified : Disk → Bool
  is_verified disk = passes (
      verify_patched_methods host.casing code_sha256 decoded baseline_sc2
        (map promise_of plan.edits) disk)

  -- `src_files`, `before_src`, and the files whose hash is another than there
  abbrev pub source_files : Disk → List Text
  source_files disk =
      let sct = converter.os.join_path plan_dir (plan_stem ++ codes ".sct") in
      plan.source_form ∷ keep (is_file disk) (sct ∷ [])

  unfoldable pub before_loop : Disk → List Text → Dict (Option Text) → Dict (Option Text)
  unfolding insert
  before_loop disk [] before = before
  before_loop disk (f ∷ files) before =
      before_loop disk files (insert (converter.os.abspath f) ((hash_of s) disk f) before)

  abbrev pub same_digest : Option Text → Option Text → Bool
  same_digest none none = true
  same_digest (some a) (some b) = text_eq a b
  same_digest _ _ = false

  abbrev pub hash_before : Dict (Option Text) → Text → Option Text
  hash_before before f = elim (lookup (converter.os.abspath f) before) [ none ↦ none | some h ↦ h ]

  abbrev pub changed_files : Disk → List Text
  changed_files disk =
      let before = before_loop disk (source_files disk) [] in
      keep (λ f. not (same_digest ((hash_of s) disk f) (hash_before before f))) (source_files disk)

  -- what follows the run: the status, the methods, and the source
  unfoldable pub check_patch : Finished → M (Unit {0})
  unfolding before_loop
  check_patch res = do
    demand (not ((is_late s) res)) vfp9_timeout
    status ← reads patch_report
    demand (is_code false 0 res.code && starts_with status (codes "OK")) (failure_code status)
    verified ← reads is_verified
    demand verified precondition_failed
    changed ← reads changed_files
    demand (is_empty changed) critical_source_mutation
    leave (emitted true none)

  -- the guard of the workspace
  unfoldable pub guard_patch : M (Unit {0})
  guard_patch = do
    guard ← or_refuse (make_guard host is_dir plan_dir (workspace s))
    or_refuse (check_target host guard ((in_workspace s) (codes "working")))

  -- `cmd_patch` on a plan
  unfoldable pub apply_plan : M (Unit {0})
  apply_plan = do
    guard_patch
    there ← reads (λ disk. is_file disk patched_scx)
    demand there workspace_not_found
    text ← reads baseline
    check_text text
    res ← run_patch text
    check_patch res

-- `cmd_patch`
unfoldable pub cmd_patch : Setting → Option RefactorPlan → M (Unit {0})
cmd_patch s none = leave (emitted false (some schema_invalid))
cmd_patch s (some plan) = apply_plan s plan

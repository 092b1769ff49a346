-- ===== src/Pipeline.antt =====
-- `cmd_validate` of vfp_refactor.py with the functions that it calls: the checks of a refactored
-- form, and its promotion from working/ to final/. VFP9 and FoxBin2Prg are processes, so a parameter;
-- so are the clock, JSON, the codecs and the floating-point numbers.
pub mod Machine
pub mod Words
pub mod Validate
pub mod Keeps
pub mod Kept
pub mod Stops
pub mod Ending
pub mod Final
pub mod Protocol
pub mod Stages
pub mod Silent
pub mod Recorded
pub mod Graded
pub mod Refines
pub mod Verified
pub mod Refusal
pub mod Promoted
pub mod Samples
mod Tests
use mcp_vfp9sp2_toolchain.Base.{
  ℕ, zero, suc, ◌-◌, Bool, true, false, not, ◌&&◌, ◌||◌, Option, none, some, List, [], ◌∷◌, ◌++◌,
  map, any, keep, is_empty, if◌then◌else◌, length,
}
use mcp_vfp9sp2_toolchain.Base.Text.{Text, codes, text_eq, starts_with, strip, join}
use mcp_vfp9sp2_toolchain.Balance.{Letters}
use mcp_vfp9sp2_toolchain.Common.{Config, Places, foxbin2prg_program}
use mcp_vfp9sp2_toolchain.Disk.{Disk, File, is_file, files_of}
use mcp_vfp9sp2_toolchain.Driver.{Converter, Converted, convert_one, is_code}
use mcp_vfp9sp2_toolchain.Encoding.{Codecs, Info, decode_sc2, default_cpid, is_suspicious}
use mcp_vfp9sp2_toolchain.Inventory.{Inventory, compare_inventories}
use mcp_vfp9sp2_toolchain.MethodParser.{parse_methods}
use mcp_vfp9sp2_toolchain.Outline.Build.{build_inventory, inventory_of}
use mcp_vfp9sp2_toolchain.Outline.Norm.{Floats, Value, same_value_of}
use mcp_vfp9sp2_toolchain.Plan.{Patch}
use mcp_vfp9sp2_toolchain.Safety.{
  Host, PathSafetyGuard, Outcome, ok, forbidden, empty_path, make_guard, check_target,
}
use mcp_vfp9sp2_toolchain.Static.{validate_sc2}
use mcp_vfp9sp2_toolchain.Pipeline.Words.{label_text, code_text}
use mcp_vfp9sp2_toolchain.Pipeline.Machine.{
  Label, ws_safety, src_sha_pre, copies_ok, compile_ok, roundtrip_ok, static_ok, source_sc2_ok,
  inv_objects_ok, inv_methods_ok, src_sha_post, promote_final, is_label, Code,
  source_path_write_forbidden, workspace_not_found, compile_error, roundtrip_failed,
  static_validation_failed, encoding_corruption, form_structure_changed, critical_source_mutation,
  Step, World, Exit, emitted, raised, Ends, go, stop, M, ◌>>=◌, ◌>>◌, pure, leave, reads, told,
  runs, writes, step, or_raise, opened,
}

pub record Report : Type 0 where
  pub verified : Bool
  pub error_code : Option Code
  pub steps : List Step

-- What the command uses that stands outside the program, and its arguments.
pub record Setting : Type 1 where
  pub host : Host
  pub converter : Converter
  pub letters : Letters
  pub codecs : Codecs
  pub places : Places
  pub config : Option Config
  -- `os.path.isdir`
  pub is_dir : Text → Bool
  -- `json.dumps` of a text, and of the report
  pub json_text : Text → Text
  pub json_report : Report → Text
  -- `time.strftime` at the start of the command, and at its end
  pub started : Text
  pub finished : Text
  -- `str.encode("utf-8")`, and `bytes.decode("cp1252", "replace")`
  pub utf8 : Text → List ℕ
  pub cp1252 : List ℕ → Text
  pub now : ℕ
  -- the patches of the plan that the bytes of a file hold; none where `load_plan` returns no plan
  pub plan_of : List ℕ → Option (List Patch)
  -- `float` and the numbers that it gives
  pub floats : Floats
  -- `args.workspace`, `args.form` and `args.source_form`
  pub workspace_arg : Text
  pub form : Text
  pub source_form_arg : Text

-- `s.replace(old, new)`; `skip` characters belong to the match that was replaced last.
unfoldable pub replace_from : Text → Text → ℕ → Text → Text
replace_from old new skip [] = []
replace_from old new (suc k) (c ∷ s) = replace_from old new k s
replace_from old new zero (c ∷ s) = elim (starts_with (c ∷ s) old) [
  | true ↦ new ++ replace_from old new (length old - 1) s
  | false ↦ c ∷ replace_from old new 0 s
]

-- COMPILE_PRG_TEMPLATE
abbrev pub compile_template : Text
compile_template = join (codes "\n") (
    codes "SET TALK OFF"
    ∷ codes "SET SAFE OFF"
    ∷ codes "SET ESCAPE OFF"
    ∷ codes "SET SYS(2023, 0)"
    ∷ codes "SET SYS(1486, 0)"
    ∷ codes "LOCAL lcStatus"
    ∷ codes "lcStatus = 'OK'"
    ∷ codes "= STRTOFILE((1), 'START', .F., .T.)"
    ∷ codes "COMPILE FORM (2)"
    ∷ codes "IF _VFP.SYS(16) > 0"
    ∷ codes "  lcStatus = 'COMPILE_FAIL'"
    ∷ codes "  = STRTOFILE((1), lcStatus + '|' + ALLTRIM(_VFP.SYS(16)), .F., .T.)"
    ∷ codes "ELSE"
    ∷ codes "  = STRTOFILE((1), 'OK', .F., .T.)"
    ∷ codes "ENDIF"
    ∷ codes "SET TALK ON"
    ∷ codes "SET SAFE ON"
    ∷ codes "SET ESCAPE ON"
    ∷ []
    ∷ [])

-- `any(s["step"] == label and s["ok"] for s in report["steps"])`
abbrev pub has_passed : Label → List Step → Bool
has_passed label = any (λ st. is_label st.label label && st.ok)

module _ (s : Setting) where
  open s use {host, converter, letters, codecs, is_dir, utf8, cp1252, form}

  abbrev pub workspace : Text
  workspace = converter.os.abspath s.workspace_arg

  abbrev pub source_form : Text
  source_form = converter.os.abspath s.source_form_arg

  -- `os.path.join(workspace, a)` and `os.path.join(workspace, a, b)`
  abbrev pub in_workspace : Text → Text
  in_workspace a = converter.os.join_path workspace a

  abbrev pub within_workspace : Text → Text → Text
  within_workspace a b = converter.os.join_path (in_workspace a) b

  abbrev pub working_scx : Text
  working_scx = within_workspace (codes "working") (form ++ codes ".scx")

  abbrev pub working_sct : Text
  working_sct = within_workspace (codes "working") (form ++ codes ".sct")

  abbrev pub final_scx : Text
  final_scx = within_workspace (codes "final") (form ++ codes ".scx")

  abbrev pub final_sct : Text
  final_sct = within_workspace (codes "final") (form ++ codes ".sct")

  abbrev pub form_sc2 : Text
  form_sc2 = within_workspace (codes "validation") (form ++ codes ".sc2")

  -- `os.path.join(os.path.dirname(source_form), stem + ".sct")`
  abbrev pub source_sct : Text
  source_sct = converter.os.join_path (converter.os.dirname source_form) (form ++ codes ".sct")

  abbrev pub status_file : Text
  status_file = within_workspace (codes "validation") (codes "compile_status.txt")

  abbrev pub compile_prg : Text
  compile_prg =
      within_workspace (codes "working") (codes "vfp_validate_compile_" ++ (form ++ codes ".prg"))

  abbrev pub report_json_path : Text
  report_json_path = in_workspace (codes "validation_report.json")

  abbrev pub report_md_path : Text
  report_md_path = in_workspace (codes "validation_report.md")

  abbrev pub written : Text → File
  written text = record { content = utf8 text; mtime = s.now }

  abbrev pub hash_of : Disk → Text → Option Text
  hash_of disk = (files_of converter.sha256 disk).sha256_file

  abbrev pub report_of : Bool → Option Code → List Step → Report
  report_of verified code steps = record { verified = verified; error_code = code; steps = steps }

  -- `code or "-"`
  abbrev pub or_dash : Option Code → Text
  or_dash none = codes "-"
  or_dash (some code) = code_text code

  abbrev pub step_row : Step → Text
  step_row st =
      codes "| "
      ++ (label_text st.label
          ++ (codes " | "
              ++ ((if st.ok then codes "yes" else codes "NO")
                  ++ (codes " | " ++ (or_dash st.error_code ++ codes " |")))))

  -- the text of validation_report.md
  unfoldable pub report_md : Report → Text
  report_md r = join (codes "\n") (
      codes "# VFP Form Validation Report"
      ∷ []
      ∷ (codes "Form: " ++ form)
      ∷ (codes "Workspace: " ++ workspace)
      ∷ (codes "Started: " ++ s.started)
      ∷ (codes "Finished: " ++ s.finished)
      ∷ (codes "FINAL STATUS: **"
          ++ ((if r.verified then codes "PASS_VERIFIED" else codes "FAIL") ++ codes "**"))
      ∷ (codes "ErrorCode: " ++ or_dash r.error_code)
      ∷ []
      ∷ codes "## Steps"
      ∷ []
      ∷ codes "| Step | OK | ErrorCode |"
      ∷ codes "|---|---|---|"
      ∷ (map step_row r.steps
          ++ ([] ∷ codes "## Details" ∷ codes "```json" ∷ s.json_report r ∷ codes "```" ∷ [] ∷ [])))

  -- `_write_reports`
  unfoldable pub write_reports : Bool → Option Code → M (Unit {0})
  write_reports verified code = do
    steps ← told
    writes report_json_path (some (written (s.json_report (report_of verified code steps))))
    writes report_md_path (some (written (report_md (report_of verified code steps))))

  -- `fail`
  unfoldable pub fail {ℓ} : {A : Type ℓ} → Code → M A
  fail code = write_reports false (some code) >> leave (emitted false (some code))

  -- `if not ...: fail(...)`
  unfoldable pub require : Bool → Code → M (Unit {0})
  require true code = pure tt
  require false code = fail code

  -- `except SourcePathWriteError`
  unfoldable pub or_fail {ℓ} : {A : Type ℓ} → Outcome A → M A
  or_fail (ok a) = pure a
  or_fail (forbidden v) = fail source_path_write_forbidden
  or_fail empty_path = leave raised

  -- 1. the workspace
  unfoldable pub check_workspace : M PathSafetyGuard
  check_workspace = do
    guard ← or_fail (make_guard host is_dir (converter.os.dirname source_form) workspace)
    or_fail (check_target host guard working_scx)
    step ws_safety true none
    pure guard

  -- 2. the hashes of the source; the second is looked for only where there is a file
  unfoldable pub hash_source : M (Option Text × Option Text)
  hash_source = do
    hashes ← reads (λ disk. (hash_of disk source_form, hash_of disk source_sct))
    step src_sha_pre (elim hashes.0 [ none ↦ false | some _ ↦ true ]) none
    pure hashes

  -- 3. the copies
  unfoldable pub check_copies : M (Unit {0})
  check_copies = do
    found ← reads (λ disk. is_file disk working_scx && is_file disk working_sct)
    step copies_ok found none
    require found workspace_not_found

  unfoldable pub passed_or_fail : Label → Code → M (Unit {0})
  passed_or_fail label code = told >>= λ steps. require (has_passed label steps) code

  -- What `vfp9_run_prg.vbs` leaves in the status file.
  abbrev pub status_of : Disk → Text
  status_of disk = elim (disk status_file) [ none ↦ [] | some f ↦ strip (cp1252 f.content) ]

  abbrev pub compile_code : Text
  compile_code =
      replace_from (codes "(2)") (s.json_text working_scx) 0
        (replace_from (codes "(1)") (s.json_text status_file) 0 compile_template)

  abbrev pub compile_command : List Text
  compile_command =
      converter.cscript
      ∷ codes "//NoLogo"
      ∷ converter.os.join_path s.places.here (codes "vfp9_run_prg.vbs")
      ∷ compile_prg
      ∷ []

  -- `_run_compile_inprocess`
  unfoldable pub run_compile : M (Unit {0})
  run_compile = do
    writes status_file none
    writes compile_prg (some (written compile_code))
    res ← runs (converter.run compile_command (some (in_workspace (codes "working"))))
    status ← reads status_of
    let compiled = is_code false 0 res.code && starts_with status (codes "OK")
    step compile_ok compiled (if compiled then none else some compile_error)

  -- 4. COMPILE FORM
  unfoldable pub check_compile : M (Unit {0})
  check_compile = run_compile >> passed_or_fail compile_ok compile_error

  abbrev pub convert : Text → M Converted
  convert inp = runs (
      convert_one converter inp (codes "BIN2PRG") (in_workspace (codes "validation"))
        (converter.os.join_path s.places.here (codes "FoxBin2Prg-AI.cfg"))
        (foxbin2prg_program converter.os s.places s.config))

  -- `_run_roundtrip_inprocess`
  unfoldable pub run_roundtrip : M (Unit {0})
  run_roundtrip = do
    converted ← convert working_scx
    there ← reads (λ disk. is_file disk form_sc2)
    let ok_rt = converted.ok && there
    step roundtrip_ok ok_rt (if ok_rt then none else some roundtrip_failed)

  -- 5. BIN2PRG
  unfoldable pub check_roundtrip : M (Unit {0})
  check_roundtrip = run_roundtrip >> passed_or_fail roundtrip_ok roundtrip_failed

-- ===== src/Commands.antt =====
-- vfp_refactor.py: `cmd_compile` and `cmd_roundtrip`, the commands for single steps of the validation
-- of a form, over the machine of Pipeline.
pub mod Compiled
mod Tests
use mcp_vfp9sp2_toolchain.Base.{
  ℕ, ◌-◌, Bool, true, false, not, ◌&&◌, ◌||◌, Option, none, some, List, [], ◌∷◌, ◌++◌, map, keep,
  take, is_empty, if◌then◌else◌, length,
}
use mcp_vfp9sp2_toolchain.Base.Text.{Text, codes, starts_with, is_space, rstrip, split_lines}
use mcp_vfp9sp2_toolchain.Common.{foxbin2prg_program}
use mcp_vfp9sp2_toolchain.Disk.{Disk, is_file}
use mcp_vfp9sp2_toolchain.Driver.{Converted, Finished, convert_one, is_code}
use mcp_vfp9sp2_toolchain.Pipeline.Machine.{
  Code, missing_file, vfp9_timeout, compile_error, roundtrip_failed, source_path_write_forbidden,
  Exit, emitted, M, ◌>>=◌, ◌>>◌, pure, leave, reads, runs, writes,
}
use mcp_vfp9sp2_toolchain.Pipeline.{
  Setting, workspace, in_workspace, within_workspace, working_scx, form_sc2, status_file, status_of,
  compile_code, written,
}

-- `if not ...: emit(False, errorCode=...)`
unfoldable pub demand : Bool → Code → M (Unit {0})
demand true code = pure tt
demand false code = leave (emitted false (some code))

module _ (s : Setting) where
  -- `form_path[:-4] + ".ERR"`
  abbrev pub err_path : Text
  err_path = take (length (working_scx s) - 4) (working_scx s) ++ codes ".ERR"

  -- Whether that file escaped the workspace.
  abbrev pub err_escaped : Disk → Bool
  err_escaped disk =
      is_file disk err_path
      && not
          (starts_with (s.converter.casing.lower err_path) (s.converter.casing.lower (workspace s)))

  -- The lines of that file that are not blank. `split_lines` breaks at more characters than a file
  -- does, but all of those are white space, and only whether there is a line is asked.
  abbrev pub errors_of : Disk → List Text
  errors_of disk = elim (disk err_path) [
    | none ↦ []
    | some f ↦
        keep (λ line. not (is_empty line))
          (map (rstrip is_space) (split_lines (s.cp1252 f.content)))
  ]

  abbrev pub single_prg : Text
  single_prg =
      within_workspace s (codes "working") (codes "vfp_compile_" ++ (s.form ++ codes ".prg"))

  abbrev pub single_command : List Text
  single_command =
      s.converter.cscript
      ∷ codes "//NoLogo"
      ∷ s.converter.os.join_path s.places.here (codes "vfp9_run_prg.vbs")
      ∷ single_prg
      ∷ []

  -- `res.get("timeout") or res.get("code") == -2`
  abbrev pub is_late : Finished → Bool
  is_late res = res.timeout || is_code true 2 res.code

  -- `cmd_compile`
  unfoldable pub cmd_compile : M (Unit {0})
  cmd_compile = do
    there ← reads (λ disk. is_file disk (working_scx s))
    demand there missing_file
    writes (status_file s) none
    writes single_prg (some (written s (compile_code s)))
    res ← runs (s.converter.run single_command (some (in_workspace s (codes "working"))))
    escaped ← reads err_escaped
    demand (not escaped) source_path_write_forbidden
    demand (not (is_late res)) vfp9_timeout
    compiled ←
        reads (λ disk. starts_with (status_of s disk) (codes "OK") && is_empty (errors_of disk))
    demand compiled compile_error
    leave (emitted true none)

  abbrev pub stage_scx : Text → Text
  stage_scx stage = within_workspace s stage (s.form ++ codes ".scx")

  abbrev pub cfg_path : Text
  cfg_path = s.converter.os.join_path s.places.here (codes "FoxBin2Prg-AI.cfg")

  -- `res.get("timeout")`; no result of `_convert_one` has that key.
  abbrev pub timeout_of : Converted → Bool
  timeout_of res = false

  -- `cmd_roundtrip`
  unfoldable pub cmd_roundtrip : Text → M (Unit {0})
  cmd_roundtrip stage = do
    there ← reads (λ disk. is_file disk (stage_scx stage))
    demand there missing_file
    cfg ← reads (λ disk. if is_file disk cfg_path then cfg_path else codes "FoxBin2Prg-AI.cfg")
    res ← runs (
        convert_one s.converter (stage_scx stage) (codes "BIN2PRG")
          (in_workspace s (codes "validation")) cfg
          (foxbin2prg_program s.converter.os s.places s.config))
    found ← reads (λ disk. is_file disk (form_sc2 s))
    demand (not (timeout_of res)) vfp9_timeout
    demand (res.ok && found) roundtrip_failed
    leave (emitted true none)

-- ===== src/Environment.antt =====
-- vfp_refactor.py: `cmd_env`, which asks VFP9 for its settings, over the machine of Pipeline.
pub mod Cleared
mod Tests
use mcp_vfp9sp2_toolchain.Base.{
  ℕ, ◌==◌, Bool, true, false, not, ◌&&◌, ◌||◌, Option, none, some, List, [], ◌∷◌, ◌++◌, ◌≡◌, refl,
  is_empty, if◌then◌else◌,
}
use mcp_vfp9sp2_toolchain.Base.Dict.{Dict, insert}
use mcp_vfp9sp2_toolchain.Base.Text.{Text, codes, strip, join}
use mcp_vfp9sp2_toolchain.Disk.{Disk, File, is_file, put, put_self, put-other}
use mcp_vfp9sp2_toolchain.Driver.{Finished, is_code}
use mcp_vfp9sp2_toolchain.Pipeline.Machine.{
  Code, vfp9_timeout, vfp9_missing, World, emitted, M, ◌>>=◌, ◌>>◌, pure, leave, reads, runs,
  writes, opened,
}
use mcp_vfp9sp2_toolchain.Pipeline.{Setting, written, replace_from}

-- `ENV_PRG_TEMPLATE`
abbrev pub env_template : Text
env_template = join (codes "\n") (
    codes "SET TALK OFF"
    ∷ codes "PUBLIC e"
    ∷ codes "e = \"\""
    ∷ codes "e = e + \"VERSION=\" + VERSION() + CHR(10)"
    ∷ codes "e = e + \"VERSION1=\" + VERSION(1) + CHR(10)"
    ∷ codes "e = e + \"VERSION5=\" + VERSION(5) + CHR(10)"
    ∷ codes "e = e + \"SYS3099=\" + SYS(3099) + CHR(10)"
    ∷ codes "e = e + \"CPCURRENT=\" + STR(CPCURRENT()) + CHR(10)"
    ∷ codes "e = e + \"SETBELL=\" + SET(\"BELL\") + CHR(10)"
    ∷ codes "e = e + \"SETCURSOR=\" + SET(\"CURSOR\") + CHR(10)"
    ∷ codes "e = e + \"SETDATE=\" + SET(\"DATE\") + CHR(10)"
    ∷ codes "e = e + \"SETDECIMAL=\" + STR(SET(\"DECIMAL\")) + CHR(10)"
    ∷ codes "e = e + \"SETDEFAULT=\" + SET(\"DEFAULT\") + CHR(10)"
    ∷ codes "e = e + \"SETECHO=\" + SET(\"ECHO\") + CHR(10)"
    ∷ codes "e = e + \"SETENVIRONMENT=\" + SET(\"ENVIRONMENT\") + CHR(10)"
    ∷ codes "e = e + \"SETEXCLUSIVE=\" + SET(\"EXCLUSIVE\") + CHR(10)"
    ∷ codes "e = e + \"SETMACRO=\" + SET(\"MACRO\") + CHR(10)"
    ∷ codes "e = e + \"SETMULTI=\" + SET(\"MULTI\") + CHR(10)"
    ∷ codes "e = e + \"SETNULL=\" + SET(\"NULL\") + CHR(10)"
    ∷ codes "e = e + \"SETOPTIMIZE=\" + SET(\"OPTIMIZE\") + CHR(10)"
    ∷ codes "e = e + \"SETRECALC=\" + SET(\"RECALC\") + CHR(10)"
    ∷ codes "e = e + \"SETSAFE=\" + SET(\"SAFE\") + CHR(10)"
    ∷ codes "e = e + \"SETSTATUSBAR=\" + SET(\"STATUSBAR\") + CHR(10)"
    ∷ codes "e = e + \"SETSTEP=\" + SET(\"STEP\") + CHR(10)"
    ∷ codes "e = e + \"SETTALK=\" + SET(\"TALK\") + CHR(10)"
    ∷ codes "e = e + \"SETTEXTMERGE=\" + SET(\"TEXTMERGE\") + CHR(10)"
    ∷ codes "e = e + \"SETUICOLORS=\" + STR(SET(\"UICOLORS\")) + CHR(10)"
    ∷ codes "e = e + \"SETUNIQUE=\" + SET(\"UNIQUE\") + CHR(10)"
    ∷ codes "e = e + \"SETWINDOW=\" + STR(SET(\"WINDOW\")) + CHR(10)"
    ∷ codes "e = e + \"SETWIDE=\" + STR(SET(\"WIDE\")) + CHR(10)"
    ∷ codes "e = e + \"SETZOOM=\" + SET(\"ZOOM\") + CHR(10)"
    ∷ codes "= STRTOFILE((1), e, .F., .T.)"
    ∷ codes "CLEAR ALL"
    ∷ codes "e = NULL"
    ∷ []
    ∷ [])

-- What the command writes to vfp_environment.json.
pub record Settings : Type 0 where
  pub captured_at : Text
  pub settings : Dict Text

-- `for line in f`, each without the line breaks at its end: a text file ends a line at a line feed,
-- a carriage return, or both.
unfoldable pub file_lines : Text → List Text
file_lines [] = []
file_lines (c ∷ s) =
    let rest = file_lines s in
    if c == 10 || c == 13
    then [] ∷ rest
    else elim rest [ [] ↦ (c ∷ []) ∷ [] | l ∷ ls ↦ (c ∷ l) ∷ ls ]

-- `line.split("=", 1)`, where the line has the sign
unfoldable pub split_sign : Text → Option (Text × Text)
split_sign [] = none
split_sign (c ∷ s) =
    let rest = split_sign s in
    if c == 61 then some ([], s) else elim rest [ none ↦ none | some (k, v) ↦ some (c ∷ k, v) ]

unfoldable pub settings_loop : List Text → Dict Text → Dict Text
unfolding split_sign insert
settings_loop [] settings = settings
settings_loop (line ∷ lines) settings =
    settings_loop lines (elim (split_sign line) [
      | none ↦ settings
      | some (k, v) ↦ insert (strip k) (strip v) settings
    ])

module _ (s : Setting) (out : Text) (json : Settings → Text) where
  open s use {converter}

  abbrev pub out_path : Text → Text
  out_path name = converter.os.join_path (converter.os.abspath out) name

  abbrev pub tmp_prg : Text
  tmp_prg = out_path (codes "_vfp_env.prg")

  abbrev pub result_file : Text
  result_file = out_path (codes "_vfp_env.txt")

  abbrev pub env_file : Text
  env_file = out_path (codes "vfp_environment.json")

  abbrev pub env_code : Text
  env_code = replace_from (codes "(1)") (s.json_text result_file) 0 env_template

  abbrev pub env_command : List Text
  env_command =
      converter.cscript
      ∷ codes "//NoLogo"
      ∷ converter.os.join_path s.places.here (codes "vfp9_run_prg.vbs")
      ∷ tmp_prg
      ∷ []

  -- `res.get("timeout") or res.get("code") in (-1, -2)`
  abbrev pub is_stopped : Finished → Bool
  is_stopped res = res.timeout || (is_code true 1 res.code || is_code true 2 res.code)

  abbrev pub info_of : File → Settings
  info_of f = record {
    captured_at = s.finished;
    settings = settings_loop (file_lines (s.cp1252 f.content)) [];
  }

  -- the end of the command, whose calls of `os.remove` fail where there is no file: the second is
  -- skipped where the first fails
  unfoldable pub clean_up : M (Unit {0})
  clean_up = do
    there ← reads (λ disk. is_file disk result_file)
    if there then (writes result_file none >> writes tmp_prg none) else pure tt

  unfoldable pub save_info : M (Unit {0})
  save_info = do
    f ← opened result_file
    writes env_file (some (written s (json (info_of f))))
    clean_up
    leave (emitted true none)

  -- what follows the run, where the program is removed first
  unfoldable pub give_up : Code → M (Unit {0})
  give_up code = writes tmp_prg none >> leave (emitted false (some code))

  unfoldable pub find_result : Finished → M (Unit {0})
  find_result res = do
    found ← reads (λ disk. is_file disk result_file)
    if is_code false 0 res.code && found then save_info else give_up vfp9_missing

  unfoldable pub check_env : Finished → M (Unit {0})
  check_env res = if is_stopped res then give_up vfp9_timeout else find_result res

  -- `cmd_env`
  unfoldable pub cmd_env : M (Unit {0})
  cmd_env = do
    writes result_file none
    writes tmp_prg (some (written s env_code))
    res ← runs (converter.run env_command (some (converter.os.abspath out)))
    check_env res

-- ===== src/Driver.antt =====
-- vfp_driver.py: `_parse_rc` and `_convert_one`, the conversion of one binary to text by FoxBin2Prg.
-- The process that converts is a parameter: what it gives back, and what it does to the files.
pub mod Recorded
pub mod Intact
mod Tests
use mcp_vfp9sp2_toolchain.Base.{
  ℕ, Bool, true, false, not, ◌&&◌, Option, none, some, List, [], ◌∷◌, ◌++◌, if◌then◌else◌, drop,
  is_empty, keep, ◌==◌,
}
use mcp_vfp9sp2_toolchain.Base.Text.{Text, codes, starts_with, strip, split_lines, Casing}
use mcp_vfp9sp2_toolchain.Base.Dict.{Dict}
use mcp_vfp9sp2_toolchain.Base.OsPath.{Platform}
use mcp_vfp9sp2_toolchain.Common.{required_companions, missing_companions}
use mcp_vfp9sp2_toolchain.Disk.{Disk, is_file, files_of}
use mcp_vfp9sp2_toolchain.Encoding.{Number, parse_int}
use mcp_vfp9sp2_toolchain.Manifest.{Entry, Verdict, guarded_paths, capture, verify_source_hashes}

-- The result of `run_process`.
pub record Finished : Type 0 where
  pub stdout : Text
  pub stderr : Text
  pub code : Number
  pub timeout : Bool

-- The code -1: the process could not be started; -2: it was stopped.
abbrev pub is_code : Bool → ℕ → Number → Bool
is_code minus n (m, k) = k == n && (if minus then m else not m)

-- The first line, of those given, that begins with RC=; its number, or none where it has none.
unfoldable pub rc_loop : List Text → Option Number
unfolding strip starts_with parse_int
rc_loop [] = none
rc_loop (line ∷ lines) =
    let later = rc_loop lines in
    if starts_with (strip line) (codes "RC=") then parse_int (drop 3 (strip line)) else later

abbrev pub reversed {ℓ} : {A : Type ℓ} → List A → List A
reversed [] = []
reversed (x ∷ xs) = reversed xs ++ x ∷ []

-- `_parse_rc`
unfoldable pub parse_rc : Text → Option Number
unfolding rc_loop split_lines
parse_rc stdout = rc_loop (reversed (split_lines stdout))

pub data ConvertError : Type 0 where
  missing_tooling vfp9_timeout critical_source_mutation : ConvertError
  missing_companion conversion_failed : ConvertError

-- The result of `_convert_one`; the codes -1 and -2 stand for no process and a stopped one.
pub record Converted : Type 0 where
  pub ok : Bool
  pub rc : Option Number
  pub error_code : Option ConvertError
  pub stdout : Text
  pub stderr : Text
  pub missing : List Text
  pub source_hash_guard : Option Verdict

-- What the conversion uses that stands outside the program.
pub record Converter : Type 0 where
  pub os : Platform
  pub casing : Casing
  pub sha256 : List ℕ → Text
  -- `vfp_convert.vbs`
  pub script : Text
  -- `run_process` on a command in a directory
  pub run : List Text → Option Text → Disk → Finished × Disk
  -- `cscript_path()`
  pub cscript : Text

abbrev pub is_rc : ℕ → Option Number → Bool
is_rc n none = false
is_rc n (some m) = is_code false n m

-- `errorCode`, by whether the source is intact, RC=0 was given, and a companion is missing
unfoldable pub error_of : Bool → Bool → Bool → Option ConvertError
error_of intact zero_rc no_companion =
    if not intact
    then some critical_source_mutation
    else if zero_rc
    then none
    else if no_companion
    then some missing_companion
    else some conversion_failed

module _ (converter : Converter) where
  open converter use {os, casing, sha256, script, run, cscript}

  -- The files that the guard hashes: the input and its companions that are there.
  abbrev pub hashed_paths : Disk → Text → List Text
  hashed_paths disk inp =
      guarded_paths (files_of sha256 disk)
        (inp ∷ keep (is_file disk) (required_companions os casing inp))

  -- The result of a process that was not stopped, by the verdict on the source.
  unfoldable pub converted : Finished → List Text → Verdict → Converted
  unfolding parse_rc
  converted res missing after =
      let rc = parse_rc res.stdout in
      let no_companion = is_rc 41 rc && not (is_empty missing) in
      let stderr =
        if no_companion
        then codes "missing companion file(s) required by FoxBin2Prg: " ++ listed missing
        else res.stderr in
      let ok = after.ok && is_rc 0 rc in
      record {
        ok = ok;
        rc = rc;
        error_code = error_of after.ok (is_rc 0 rc) no_companion;
        stdout = res.stdout;
        stderr = stderr;
        missing = missing;
        source_hash_guard = some after;
      }
    where
      listed : List Text → Text
      listed [] = []
      listed (p ∷ []) = os.basename p
      listed (p ∷ q ∷ rest) = os.basename p ++ (codes ", " ++ listed (q ∷ rest))

  abbrev no_result : ConvertError → Number → Text → Text → Converted
  no_result e rc stdout stderr = record {
    ok = false;
    rc = some rc;
    error_code = some e;
    stdout = stdout;
    stderr = stderr;
    missing = [];
    source_hash_guard = none;
  }

  -- `out or os.path.dirname(os.path.abspath(inp)) or None`
  abbrev pub run_directory : Text → Text → Option Text
  run_directory inp out =
      if not (is_empty out)
      then some out
      else if not (is_empty (os.dirname (os.abspath inp)))
      then some (os.dirname (os.abspath inp))
      else none

  -- the process of a conversion, and the files that it leaves
  abbrev pub process : Text → Text → Text → Text → Text → Disk → Finished × Disk
  process inp ctype out cfg prg disk =
      run (cscript ∷ codes "//NoLogo" ∷ script ∷ inp ∷ ctype ∷ out ∷ cfg ∷ prg ∷ [])
        (run_directory inp out) disk

  -- `_convert_one`
  unfoldable pub convert_one : Text → Text → Text → Text → Text → Disk → Converted × Disk
  unfolding converted
  convert_one inp ctype out cfg prg disk =
      let paths = hashed_paths disk inp in
      let before = capture os.abspath (files_of sha256 disk) paths in
      let (res, later) = process inp ctype out cfg prg disk in
      let missing = missing_companions os casing (is_file later) inp in
      let after = verify_source_hashes os.abspath before (files_of sha256 later) paths in
      if not (is_file disk script)
      then (
        no_result missing_tooling (true, 1) [] (codes "vfp_convert.vbs not found at " ++ script),
        disk,
      )
      else if res.timeout
      then (no_result vfp9_timeout (true, 2) res.stdout res.stderr, later)
      else (converted res missing after, later)

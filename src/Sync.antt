-- ===== src/Sync.antt =====
-- vfp_driver.py: `run_convert_dir` and `run_sync`, which convert every binary of a project. The tree
-- is what the walk meets; `relpath` of `os.path`, and the indexer that `run_sync` starts, are
-- parameters.
pub mod Counted
pub mod Complete
mod Tests
use mcp_vfp9sp2_toolchain.Base.{
  ℕ, ◌-◌, Bool, true, false, not, ◌&&◌, Option, none, some, List, [], ◌∷◌, map, if◌then◌else◌, any,
  keep, length, take, ltb, ◌==◌,
}
use mcp_vfp9sp2_toolchain.Base.Text.{Text, codes, text_eq}
use mcp_vfp9sp2_toolchain.Common.{Config, Places, default_excludes, foxbin2prg_program}
use mcp_vfp9sp2_toolchain.Disk.{Disk, is_file}
use mcp_vfp9sp2_toolchain.Driver.{
  Converter, Converted, ConvertError, convert_one, missing_tooling, missing_companion,
}
use mcp_vfp9sp2_toolchain.Encoding.{Number}
use mcp_vfp9sp2_toolchain.Protocol.{Status, passed, failed, partial}
use mcp_vfp9sp2_toolchain.Walk.{Tree, is_walked, visited}

-- BIN_WRITEABLE
abbrev pub bin_writeable : List Text
bin_writeable =
    codes ".pjx"
    ∷ codes ".scx"
    ∷ codes ".vcx"
    ∷ codes ".frx"
    ∷ codes ".lbx"
    ∷ codes ".mnx"
    ∷ codes ".dbc"
    ∷ codes ".dbf"
    ∷ []

-- An entry of `results`.
pub record FileResult : Type 0 where
  pub file : Text
  pub ok : Bool
  pub rc : Option Number
  pub error_code : Option ConvertError
  pub stderr : Text

pub data Completeness : Type 0 where
  complete some_files nothing : Completeness

pub data SyncError : Type 0 where
  no_tooling conversion_partial conversion_failed : SyncError

-- What is emitted of the conversions; `ok` and the counts stand in it as they are computed.
pub record Summary : Type 0 where
  pub ok : Bool
  pub status : Status
  pub error_code : Option SyncError
  pub rc : ℕ
  pub total : ℕ
  pub converted : ℕ
  pub failures : ℕ
  pub converted_files : List Text
  pub failed_files : List Text
  pub missing_companions : List Text
  pub index_completeness : Completeness
  pub results : List FileResult

abbrev pub is_missing : Option ConvertError → Bool
is_missing (some missing_companion) = true
is_missing _ = false

abbrev pub converted_of : List FileResult → List Text
converted_of results = map (λ r. r.file) (keep (λ r. r.ok) results)

abbrev pub failed_of : List FileResult → List Text
failed_of results = map (λ r. r.file) (keep (λ r. not r.ok) results)

-- `sum(1 for r in results if r["ok"])` and `len(results) - ok_count`
abbrev pub ok_count : List FileResult → ℕ
ok_count results = length (keep (λ r. r.ok) results)

abbrev pub fail_count : List FileResult → ℕ
fail_count results = length results - ok_count results

-- What `run_convert_dir` reports of the results.
unfoldable pub summary : List FileResult → Summary
summary results =
    let clean = fail_count results == 0 in
    record {
      ok = clean;
      status =
          if clean
          then passed
          else if (ok_count results == 0) && ltb 0 (length results)
          then failed
          else partial;
      error_code = if clean then none else some conversion_partial;
      rc = if clean then 0 else 1;
      total = length results;
      converted = ok_count results;
      failures = fail_count results;
      converted_files = converted_of results;
      failed_files = failed_of results;
      missing_companions = map (λ r. r.file) (keep (λ r. is_missing r.error_code) results);
      index_completeness =
          if clean then complete else if ok_count results == 0 then nothing else some_files;
      results = results;
    }

abbrev pub is_pass : Status → Bool
is_pass passed = true
is_pass _ = false

-- The status of `run_sync`, and its `index_completeness`.
unfoldable pub verified : List FileResult → Status × Completeness
verified results =
    if ltb 0 (length results) && (ok_count results == 0)
    then (failed, nothing)
    else if ltb 0 (fail_count results)
    then (partial, some_files)
    else (passed, complete)

-- What `run_sync` reports of the results.
unfoldable pub sync_summary : List FileResult → Summary
unfolding verified
sync_summary results =
    let (status, completeness) = verified results in
    record {
      ok = is_pass status;
      status = status;
      error_code =
          if is_pass status
          then none
          else if not (fail_count results == 0)
          then some conversion_partial
          else some conversion_failed;
      rc = if is_pass status then 0 else 1;
      total = length results;
      converted = ok_count results;
      failures = fail_count results;
      converted_files = converted_of results;
      failed_files = failed_of results;
      missing_companions = map (λ r. r.file) (keep (λ r. is_missing r.error_code) results);
      index_completeness = completeness;
      results = results;
    }

module _ (c : Converter) (relpath : Text → Text → Text) where
  abbrev pub is_convertible : Text → Bool
  is_convertible fn = any (text_eq (c.casing.lower (c.os.splitext fn).1)) bin_writeable

  abbrev pub entry_of : Text → Text → Converted → FileResult
  entry_of project fp res = record {
    file = relpath fp project;
    ok = res.ok;
    rc = res.rc;
    error_code = res.error_code;
    stderr = take 500 res.stderr;
  }

  -- The loops over the files that the walk meets, from the files of the machine.
  unfoldable pub convert_loop :
      Text → Text → Text → Text → List (Text × Text) → Disk → List FileResult × Disk
  convert_loop project out cfg prg [] disk = ([], disk)
  convert_loop project out cfg prg ((root, fn) ∷ rest) disk =
      let fp = c.os.join_path root fn in
      let (res, later) = convert_one c fp (codes "BIN2PRG") out cfg prg disk in
      let (results, end) = convert_loop project out cfg prg rest later in
      elim (is_convertible fn) [
        | true ↦ (entry_of project fp res ∷ results, end)
        | false ↦ convert_loop project out cfg prg rest disk
      ]

  -- The files of the project that the loops meet.
  abbrev pub met : Option Config → Text → Tree → List (Text × Text)
  met config project t =
      visited c.os.join_path (is_walked c.casing (default_excludes c.casing config)) project t

  -- `run_convert_dir`
  unfoldable pub run_convert_dir :
      Option Config → Text → Tree → Text → Text → Text → Disk → Summary × Disk
  unfolding convert_loop summary
  run_convert_dir config project t out cfg prg disk =
      let (results, later) = convert_loop project out cfg prg (met config project t) disk in
      (summary results, later)

  module _ {ℓ} {I : Type ℓ} (places : Places) (index : Disk → I × Disk) where
    -- `run_sync`: the result without a report is the one for a tool that is missing. `index` is
    -- `run_index_internal` on the project.
    unfoldable pub run_sync :
        Option Config
        → Text
        → Tree
        → Text
        → Disk
        → (Option SyncError × Option (Summary × Option I)) × Disk
    unfolding convert_loop sync_summary
    run_sync config project t cache disk =
        let prg = foxbin2prg_program c.os places config in
        let cfg = c.os.join_path places.here (codes "FoxBin2Prg-AI.cfg") in
        let out = c.os.join_path cache (codes "source") in
        let (results, later) = convert_loop project out cfg prg (met config project t) disk in
        let report = sync_summary results in
        let (built, end) = index later in
        if not (is_file disk prg)
        then ((some no_tooling, none), disk)
        else if ltb 0 (ok_count results)
        then ((report.error_code, some (report, some built)), end)
        else ((report.error_code, some (report, none)), later)

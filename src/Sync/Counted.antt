-- ===== src/Sync/Counted.antt =====
-- The counts and the status that the two commands report of the results of the conversions.
use mcp_vfp9sp2_toolchain.Base.{
  ℕ, ◌+◌, ◌-◌, ◌≤◌, ◌&&◌, ◌≡◌, inl, inr, refl, ap, sym, ◌∙◌, true, false, not, Option, none, some,
  List, [], ◌∷◌, map, keep, length, arith, Bool-cases, ltb, ◌==◌, if◌then◌else◌,
}
use mcp_vfp9sp2_toolchain.Base.Text.{Text, codes}
use mcp_vfp9sp2_toolchain.Common.{Config, Places, foxbin2prg_program}
use mcp_vfp9sp2_toolchain.Disk.{Disk, is_file}
use mcp_vfp9sp2_toolchain.Driver.{Converter}
use mcp_vfp9sp2_toolchain.Walk.{Tree}
use mcp_vfp9sp2_toolchain.Sync.{
  Summary, SyncError, convert_loop, is_convertible, met, FileResult, ok_count, fail_count,
  converted_of, failed_of, summary, sync_summary, verified, run_convert_dir, run_sync,
}

module _ {ℓ κ} {A : Type ℓ} {B : Type κ} where
  length-map : (f : A → B) (xs : List A) → length (map f xs) ≡ length xs
  length-map f [] = refl
  length-map f (x ∷ xs) = omega (arith, length-map f xs)

length-keep-not :
    (rs : List FileResult)
    → length (keep (λ r. r.ok) rs) + length (keep (λ r. not r.ok) rs) ≡ length rs
length-keep-not [] = refl
length-keep-not (r ∷ rs) = elim (Bool-cases r.ok) [
  | inl done ↦ rw (done, keep) (omega (arith, length-keep-not rs))
  | inr lost ↦ rw (lost, keep) (omega (arith, length-keep-not rs))
]

pub fail_count-length : (rs : List FileResult) → fail_count rs ≡ length (failed_of rs)
fail_count-length rs =
    omega (arith, length-keep-not rs, length-map (λ r. r.file) (keep (λ r. not r.ok) rs))

converted_of-length : (rs : List FileResult) → ok_count rs ≡ length (converted_of rs)
converted_of-length rs = omega (arith, length-map (λ r. r.file) (keep (λ r. r.ok) rs))

-- The tests on the number of results and on that of the successful ones, in the three cases.
data Case (n k : ℕ) : Type 0 where
  clean : ((n - k) == 0) ≡ true → (ltb 0 n && (k == 0)) ≡ false → ltb 0 (n - k) ≡ false → Case n k
  mixed :
      ((n - k) == 0) ≡ false → ltb 0 n ≡ true → (k == 0) ≡ false → ltb 0 (n - k) ≡ true → Case n k
  hopeless : ((n - k) == 0) ≡ false → ltb 0 n ≡ true → (k == 0) ≡ true → Case n k

cases_of : (n k : ℕ) → k ≤ n → Case n k
cases_of n k h = elim (Bool-cases ((n - k) == 0)) [
  | inl none_failed ↦ clean none_failed (ground arith) (ground arith)
  | inr some_failed ↦ elim (Bool-cases (k == 0)) [
    | inl none_done ↦ hopeless some_failed (ground arith) none_done
    | inr some_done ↦ mixed some_failed (ground arith) some_done (ground arith)
  ]
]

pub sync_summary_eq : (rs : List FileResult) → sync_summary rs ≡ summary rs
unfolding sync_summary summary
sync_summary_eq rs = elim (cases_of (length rs) (ok_count rs) (omega (arith, length-keep-not rs))) [
  | clean a b c ↦ rw (a, b, c, verified) refl
  | mixed a b c d ↦ rw (a, b, c, d, verified) refl
  | hopeless a b c ↦ rw (a, b, c, verified) refl
]

module _ (c : Converter) (relpath : Text → Text → Text) where
  -- The files that are to be converted, by the paths that are reported.
  abbrev pub to_convert : Text → List (Text × Text) → List Text
  to_convert project fs =
      map (λ f. relpath (c.os.join_path f.0 f.1) project)
        (keep (λ f. is_convertible c relpath f.1) fs)

  convert_loop-files :
      (project out cfg prg : Text) (fs : List (Text × Text)) (disk : Disk)
      → map (λ r. r.file) (convert_loop c relpath project out cfg prg fs disk).0
        ≡ to_convert project fs
  unfolding convert_loop
  convert_loop-files project out cfg prg [] disk = refl
  convert_loop-files project out cfg prg ((root, fn) ∷ fs) disk =
      elim (Bool-cases (is_convertible c relpath fn)) [
        | inl taken ↦
            rw (taken, convert_loop, keep)
              (ap (λ x. relpath (c.os.join_path root fn) project ∷ x)
                (convert_loop-files project out cfg prg fs _))
        | inr skipped ↦
            rw (skipped, convert_loop, keep) (convert_loop-files project out cfg prg fs disk)
      ]

  -- The results of `run_convert_dir` name, in order and once for each, the files of the walk that are
  -- to be converted, by their relative paths: the total is their number, and the numbers of the converted files and
  -- of the failed ones, which are the lengths of the two lists, add up to it.
  pub run_convert_dir-counts :
      (config : Option Config) (project : Text) (t : Tree) (out cfg prg : Text) (disk : Disk)
      → let r = (run_convert_dir c relpath config project t out cfg prg disk).0 in
        let files = to_convert project (met c relpath config project t) in
        (map (λ e. e.file) r.results ≡ files)
        × (r.total ≡ length files)
        × (r.converted + r.failures ≡ length files)
        × (r.converted ≡ length r.converted_files)
        × (r.failures ≡ length r.failed_files)
  unfolding run_convert_dir summary
  run_convert_dir-counts config project t out cfg prg disk =
      let fs = met c relpath config project t in
      let rs = (convert_loop c relpath project out cfg prg fs disk).0 in
      let named = convert_loop-files project out cfg prg fs disk in
      let total : length rs ≡ length (to_convert project fs) =
        sym (length-map (λ r. r.file) rs) ∙ ap length named in
      (
        named,
        total,
        omega (arith, length-keep-not rs, total),
        converted_of-length rs,
        fail_count-length rs,
      )

  module _ {ℓ} {I : Type ℓ} (places : Places) (index : Disk → I × Disk) where
    -- The result of `run_sync` behind a report of the conversions, and the files that these left.
    abbrev pub with_index : Summary × Disk → (Option SyncError × Option (Summary × Option I)) × Disk
    with_index (report, later) =
        if ltb 0 report.converted
        then ((report.error_code, some (report, some (index later).0)), (index later).1)
        else ((report.error_code, some (report, none)), later)

    -- Where FoxBin2Prg is there, `run_sync` reports what `run_convert_dir` reports of the same
    -- project into the directory `source` of the cache, and builds the index from the files that
    -- this leaves exactly when a conversion succeeded.
    pub run_sync-run_convert_dir :
        (config : Option Config) (project : Text) (t : Tree) (cache : Text) (disk : Disk)
        → is_file disk (foxbin2prg_program c.os places config) ≡ true
        → run_sync c relpath places index config project t cache disk
          ≡ with_index (
              run_convert_dir c relpath config project t
                (c.os.join_path cache (codes "source"))
                (c.os.join_path places.here (codes "FoxBin2Prg-AI.cfg"))
                (foxbin2prg_program c.os places config)
                disk)
    unfolding run_sync run_convert_dir summary
    run_sync-run_convert_dir config project t cache disk h =
        let done =
          convert_loop c relpath project (c.os.join_path cache (codes "source"))
            (c.os.join_path places.here (codes "FoxBin2Prg-AI.cfg"))
            (foxbin2prg_program c.os places config) (met c relpath config project t) disk in
        let sent : Summary → (Option SyncError × Option (Summary × Option I)) × Disk = λ r.
          if ltb 0 (ok_count done.0)
          then ((r.error_code, some (r, some (index done.1).0)), (index done.1).1)
          else ((r.error_code, some (r, none)), done.1) in
        rw h (ap sent (sync_summary_eq done.0))

-- ===== src/Sync/Tests.antt =====
-- A project of three directories, converted by processes that succeed, fail, or do both.
use mcp_vfp9sp2_toolchain.Base.{
  ◌+◌, ◌≡◌, ◌≤◌, refl, true, false, none, some, Option, List, [], ◌∷◌, map, All, length, drop,
  if◌then◌else◌, Bool,
}
use mcp_vfp9sp2_toolchain.Base.Text.{Text, codes, ascii, ends_with}
use mcp_vfp9sp2_toolchain.Base.OsPath.{posix, posix_join}
use mcp_vfp9sp2_toolchain.Common.{Config, Places, default_excludes, foxbin2prg_program}
use mcp_vfp9sp2_toolchain.Disk.{Disk}
use mcp_vfp9sp2_toolchain.Driver.{Converter, Finished}
use mcp_vfp9sp2_toolchain.Protocol.{passed, failed, partial}
use mcp_vfp9sp2_toolchain.Walk.{
  Tree, tree, Subs, no_subs, sub, is_walked, IsReached, here, below, first, later,
}
use mcp_vfp9sp2_toolchain.Sync.{Summary, run_convert_dir, run_sync, is_convertible, met, complete}
use mcp_vfp9sp2_toolchain.Sync.Counted.{
  to_convert, run_convert_dir-counts, run_sync-run_convert_dir, with_index,
}
use mcp_vfp9sp2_toolchain.Sync.Complete.{
  IsReported, IsConverted, run_convert_dir-IsReported, run_convert_dir-IsConverted,
}

abbrev full : Disk
full p = some (record { content = codes "x"; mtime = 7 })

abbrev finished : Text → Finished
finished out = record { stdout = out; stderr = []; code = (false, 0); timeout = false }

-- The process gives RC=0 for the inputs that pass the test.
abbrev converter : (Text → Bool) → Converter
converter works = record {
  os = posix;
  casing = ascii;
  sha256 = λ s. s;
  script = codes "/t/vfp_convert.vbs";
  run = λ cmd cwd disk. (finished (if works (input cmd) then codes "RC=0" else codes "RC=1"), disk);
  cscript = codes "cscript";
}
  where
    input : List Text → Text
    input (a ∷ b ∷ d ∷ inp ∷ rest) = inp
    input _ = []

abbrev behind : Text → Text → Text
behind p start = drop (length start + 1) p

abbrev forms : Subs
forms = sub (codes "forms") (tree (codes "c.scx" ∷ []) no_subs) no_subs

abbrev project : Tree
project =
    tree (codes "b.scx" ∷ codes "a.prg" ∷ [])
      (sub (codes "backup") (tree (codes "d.scx" ∷ []) no_subs) forms)

abbrev report : (Text → Bool) → Tree → Summary
report works t =
    (run_convert_dir (converter works) behind none (codes "/p") t (codes "/w") (codes "/t/c")
      (codes "/t/f") full).0

status_values :
    ((report (λ p. true) project).status ≡ passed)
    × ((report (λ p. false) project).status ≡ failed)
    × ((report (λ p. ends_with p (codes "b.scx")) project).status ≡ partial)
    × ((report (λ p. ends_with p (codes "b.scx")) project).failed_files ≡ codes "forms/c.scx" ∷ [])
    × ((report (λ p. false) (tree [] no_subs)).index_completeness ≡ complete)
unfolding run_convert_dir mcp_vfp9sp2_toolchain.Walk.visited mcp_vfp9sp2_toolchain.Base.Table.sorted
    mcp_vfp9sp2_toolchain.Inventory.text_le mcp_vfp9sp2_toolchain.Base.Text.text_eq
    mcp_vfp9sp2_toolchain.Base.OsPath.posix_splitext is_walked default_excludes
    mcp_vfp9sp2_toolchain.Driver.convert_one mcp_vfp9sp2_toolchain.Manifest.verify_source_hashes
    mcp_vfp9sp2_toolchain.Manifest.verify_loop mcp_vfp9sp2_toolchain.Manifest.guarded_paths
    posix_join mcp_vfp9sp2_toolchain.Base.Dict.lookup mcp_vfp9sp2_toolchain.Manifest.capture
    mcp_vfp9sp2_toolchain.Manifest.capture_loop mcp_vfp9sp2_toolchain.Common.required_companions
    mcp_vfp9sp2_toolchain.Manifest.capture_one mcp_vfp9sp2_toolchain.Base.Dict.insert ends_with
status_values = (refl, refl, refl, refl, refl)

abbrev good : Converter
good = converter (λ p. true)

abbrev bad : Converter
bad = converter (λ p. false)

-- What is asked of the directory `forms`.
reached :
    IsReached posix_join
      (is_walked ascii (default_excludes ascii none))
      (codes "/p/forms")
      (tree (codes "c.scx" ∷ []) no_subs)
      (codes "/p")
      project
unfolding posix_join is_walked default_excludes
reached =
    below (codes "b.scx" ∷ codes "a.prg" ∷ [])
      (later (codes "backup") (tree (codes "d.scx" ∷ []) no_subs) (first no_subs)) refl here

good_ok : (report (λ p. true) project).ok ≡ true
unfolding run_convert_dir mcp_vfp9sp2_toolchain.Walk.visited mcp_vfp9sp2_toolchain.Base.Table.sorted
    mcp_vfp9sp2_toolchain.Inventory.text_le mcp_vfp9sp2_toolchain.Base.Text.text_eq
    mcp_vfp9sp2_toolchain.Base.OsPath.posix_splitext is_walked default_excludes
    mcp_vfp9sp2_toolchain.Driver.convert_one mcp_vfp9sp2_toolchain.Manifest.verify_source_hashes
    mcp_vfp9sp2_toolchain.Manifest.verify_loop mcp_vfp9sp2_toolchain.Manifest.guarded_paths
    posix_join mcp_vfp9sp2_toolchain.Base.Dict.lookup mcp_vfp9sp2_toolchain.Manifest.capture
    mcp_vfp9sp2_toolchain.Manifest.capture_loop mcp_vfp9sp2_toolchain.Common.required_companions
    mcp_vfp9sp2_toolchain.Manifest.capture_one mcp_vfp9sp2_toolchain.Base.Dict.insert
good_ok = refl

run_convert_dir-IsConverted_example :
    All
      (λ fn.
        is_convertible good behind fn ≡ true
        → IsConverted good behind
            (codes "/p")
            (codes "/w")
            (codes "/t/c")
            (codes "/t/f")
            full
            (met good behind none (codes "/p") project)
            (run_convert_dir good behind none
              (codes "/p")
              project
              (codes "/w")
              (codes "/t/c")
              (codes "/t/f")
              full).0.converted_files
            (codes "/p/forms", fn))
      (codes "c.scx" ∷ [])
run_convert_dir-IsConverted_example =
    (run_convert_dir-IsConverted good behind none (codes "/p") project (codes "/w") (codes "/t/c")
        (codes "/t/f") full good_ok).0
      (codes "/p/forms") (codes "c.scx" ∷ []) no_subs reached

run_convert_dir-IsReported_example :
    All
      (λ fn.
        is_convertible bad behind fn ≡ true
        → IsReported bad behind
            (codes "/p")
            (codes "/w")
            (codes "/t/c")
            (codes "/t/f")
            full
            (met bad behind none (codes "/p") project)
            (run_convert_dir bad behind none
              (codes "/p")
              project
              (codes "/w")
              (codes "/t/c")
              (codes "/t/f")
              full).0.results
            (codes "/p/forms", fn))
      (codes "c.scx" ∷ [])
run_convert_dir-IsReported_example =
    run_convert_dir-IsReported bad behind none (codes "/p") project (codes "/w") (codes "/t/c")
      (codes "/t/f") full (codes "/p/forms") (codes "c.scx" ∷ []) no_subs reached

abbrev files : List Text
files = to_convert bad behind (codes "/p") (met bad behind none (codes "/p") project)

run_convert_dir-counts_example :
    (map (λ e. e.file) (report (λ p. false) project).results ≡ files)
    × ((report (λ p. false) project).total ≡ length files)
    × ((report (λ p. false) project).converted + (report (λ p. false) project).failures
        ≡ length files)
    × ((report (λ p. false) project).converted
        ≡ length (report (λ p. false) project).converted_files)
    × ((report (λ p. false) project).failures ≡ length (report (λ p. false) project).failed_files)
run_convert_dir-counts_example =
    run_convert_dir-counts bad behind none (codes "/p") project (codes "/w") (codes "/t/c")
      (codes "/t/f") full

abbrev places : Places
places = record { variable = λ v. none; isabs = λ p. false; normpath = λ p. p; here = codes "/t" }

-- The indexer says how it was started, and changes no file.
abbrev index : Disk → Text × Disk
index disk = (codes "indexed", disk)

run_sync-run_convert_dir_example :
    run_sync good behind places index none (codes "/p") project (codes "/p/.vfp-ai") full
    ≡ with_index good behind places index (
        run_convert_dir good behind none
          (codes "/p")
          project
          (posix_join (codes "/p/.vfp-ai") (codes "source"))
          (posix_join (codes "/t") (codes "FoxBin2Prg-AI.cfg"))
          (foxbin2prg_program posix places none)
          full)
run_sync-run_convert_dir_example =
    run_sync-run_convert_dir good behind places index none (codes "/p") project (codes "/p/.vfp-ai")
      full refl

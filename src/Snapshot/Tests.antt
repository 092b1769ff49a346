-- ===== src/Snapshot/Tests.antt =====
-- Snapshots of a small tree, and the command on the sample runs' machine.
use mcp_vfp9sp2_toolchain.Base.{
  ◌≡◌, refl, ap, sym, ◌∙◌, true, false, none, some, Option, List, [], ◌∷◌, ◌++◌, All,
}
use mcp_vfp9sp2_toolchain.Base.Text.{Text, codes, text_eq}
use mcp_vfp9sp2_toolchain.Base.OsPath.{posix, posix_join}
use mcp_vfp9sp2_toolchain.Base.Dict.{lookup}
use mcp_vfp9sp2_toolchain.Commands.Compiled.{exit_of}
use mcp_vfp9sp2_toolchain.Disk.{Disk, files_of}
use mcp_vfp9sp2_toolchain.Manifest.{FileSystem, compare_manifests}
use mcp_vfp9sp2_toolchain.Safety.{Host, PathSafetyGuard, ok, make_guard, is_under}
use mcp_vfp9sp2_toolchain.Safety.Tests.{settles}
use mcp_vfp9sp2_toolchain.Pipeline.Machine.{World, emitted}
use mcp_vfp9sp2_toolchain.Pipeline.{written}
use mcp_vfp9sp2_toolchain.Pipeline.Samples.{small, good}
use mcp_vfp9sp2_toolchain.Pipeline.Keeps.{end_of}
use mcp_vfp9sp2_toolchain.Walk.{Tree, tree, Subs, no_subs, sub, is_walked, IsReached, here}
use mcp_vfp9sp2_toolchain.Snapshot.{
  Captured, Snapshot, entries_of, key_of, classify_file, excluded, snapshot_tree,
}
use mcp_vfp9sp2_toolchain.Snapshot.Faithful.{IsReadable, NamesOne}
use mcp_vfp9sp2_toolchain.Snapshot.Unchanged.{snapshot_tree-unchanged}
use mcp_vfp9sp2_toolchain.Snapshot.Command.{
  source_root, out_dir, snapshot_path, taken, cmd_snapshot, cmd_snapshot-source_kept,
}

abbrev itself : Text → Text → Text
itself p start = p

abbrev same : Disk
same p = some (small (codes "x"))

abbrev fs : FileSystem
fs = files_of (λ s. s) same

abbrev hidden : Subs
hidden = sub (codes ".git") (tree (codes "x" ∷ []) no_subs) no_subs

abbrev project : Tree
project = tree (codes "f.scx" ∷ []) hidden

classify_values :
    (classify_file good.host itself (codes "A/F.SCX") ≡ codes "form")
    × (classify_file good.host itself (codes "A/F") ≡ codes "other")
unfolding classify_file mcp_vfp9sp2_toolchain.Base.OsPath.posix_splitext
classify_values = (refl, refl)

one_name : NamesOne good.host itself fs (codes "/p")
one_name a b h = refl

readable : IsReadable fs (codes "/p/f.scx")
readable = record {
  stat = record { size = 1; mtime = 7 };
  sha = codes "x";
  stat_is = refl;
  sha_is = refl;
}

-- The second walk meets one more file.
abbrev later : Tree
later = tree (codes "f.scx" ∷ codes "g.scx" ∷ []) no_subs

compared :
    (compare_manifests
      (entries_of
        (snapshot_tree good.host itself fs none (λ p. true) (codes "/p") project [] none).files)
      (entries_of
        (snapshot_tree good.host itself fs none (λ p. true) (codes "/p") later [] none).files)).ok
    ≡ true
unfolding compare_manifests mcp_vfp9sp2_toolchain.Manifest.compare_loop snapshot_tree
    mcp_vfp9sp2_toolchain.Walk.visited mcp_vfp9sp2_toolchain.Base.Table.sorted is_walked lookup
    mcp_vfp9sp2_toolchain.Inventory.text_le posix_join mcp_vfp9sp2_toolchain.Manifest.has_drifted
compared = refl

snapshot_tree-unchanged_example :
    All
      (λ fn.
        IsReadable fs (posix_join (codes "/p") fn)
        → fs.sha256_file (posix_join (codes "/p") fn) ≡ fs.sha256_file (posix_join (codes "/p") fn))
      (codes "f.scx" ∷ [])
snapshot_tree-unchanged_example =
    snapshot_tree-unchanged good.host itself (codes "/p") none (λ p. true) [] none fs fs project
      later refl one_name one_name compared (codes "/p") (codes "f.scx" ∷ []) hidden here

abbrev start : World
start = record { disk = same; steps = [] }

-- The manifest's text is its first path.
abbrev json : Snapshot → Text
json m = m.root

abbrev guard : PathSafetyGuard
guard = record { source = codes "/app/src"; workspace = codes "/work" }

made :
    make_guard good.host good.is_dir
      (source_root good itself (codes "/app/src") (codes "/work") project json)
      (out_dir good itself (codes "/app/src") (codes "/work") project json)
    ≡ ok guard
unfolding make_guard posix_join mcp_vfp9sp2_toolchain.Base.Text.starts_with
    mcp_vfp9sp2_toolchain.Safety.canonicalize_path mcp_vfp9sp2_toolchain.Base.Text.strip
    mcp_vfp9sp2_toolchain.Safety.are_same text_eq is_under
made = refl

inside : is_under good.host (codes "/app/src/f.scx") guard.source ≡ ok true
unfolding is_under mcp_vfp9sp2_toolchain.Safety.canonicalize_path
    mcp_vfp9sp2_toolchain.Base.Text.strip text_eq posix_join
    mcp_vfp9sp2_toolchain.Base.Text.starts_with
inside = refl

of_guard :
    (g : PathSafetyGuard)
    → make_guard good.host good.is_dir
        (source_root good itself (codes "/app/src") (codes "/work") project json)
        (out_dir good itself (codes "/app/src") (codes "/work") project json)
      ≡ ok g
    → is_under good.host (codes "/app/src/f.scx") g.source ≡ ok true
of_guard g h =
    let one : guard ≡ g = cc (sym made ∙ h) in
    ap (λ x. is_under good.host (codes "/app/src/f.scx") x.source) (sym one) ∙ inside

cmd_snapshot-source_kept_example :
    (end_of (cmd_snapshot good itself (codes "/app/src") (codes "/work") project json start)).disk
      (codes "/app/src/f.scx")
    ≡ same (codes "/app/src/f.scx")
cmd_snapshot-source_kept_example =
    cmd_snapshot-source_kept good itself (codes "/app/src") (codes "/work") project json
      (codes "/app/src/f.scx") settles of_guard start

cmd_snapshot_value :
    exit_of (cmd_snapshot good itself (codes "/app/src") (codes "/work") project json start)
    ≡ emitted true none
unfolding cmd_snapshot mcp_vfp9sp2_toolchain.Pipeline.Machine.◌>>◌
    mcp_vfp9sp2_toolchain.Commands.demand mcp_vfp9sp2_toolchain.Pipeline.Machine.pure
    mcp_vfp9sp2_toolchain.Pipeline.Machine.◌>>=◌ mcp_vfp9sp2_toolchain.Workspace.or_refuse
    make_guard posix_join mcp_vfp9sp2_toolchain.Base.Text.starts_with
    mcp_vfp9sp2_toolchain.Safety.canonicalize_path mcp_vfp9sp2_toolchain.Base.Text.strip
    mcp_vfp9sp2_toolchain.Safety.are_same text_eq is_under mcp_vfp9sp2_toolchain.Safety.check_target
    mcp_vfp9sp2_toolchain.Snapshot.Command.save_snapshot
    mcp_vfp9sp2_toolchain.Pipeline.Machine.reads mcp_vfp9sp2_toolchain.Pipeline.Machine.writes
    mcp_vfp9sp2_toolchain.Pipeline.Machine.leave
cmd_snapshot_value = refl

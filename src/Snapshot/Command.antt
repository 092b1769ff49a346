-- ===== src/Snapshot/Command.antt =====
-- vfp_refactor.py: `cmd_snapshot`, over the machine of Pipeline.
use mcp_vfp9sp2_toolchain.Base.{◌≡◌, sym, ap, ◌∙◌, true, false, none, some, []}
use mcp_vfp9sp2_toolchain.Base.Text.{Text, codes, text_eq}
use mcp_vfp9sp2_toolchain.Commands.{demand}
use mcp_vfp9sp2_toolchain.Disk.{Disk, files_of}
use mcp_vfp9sp2_toolchain.Safety.{PathSafetyGuard, ok, make_guard, check_target, is_under}
use mcp_vfp9sp2_toolchain.Safety.Guard.{Settles, make_guard-IsGuard, IsGuard-disjoint}
use mcp_vfp9sp2_toolchain.Pipeline.Machine.{
  missing_file, World, emitted, M, ◌>>=◌, ◌>>◌, leave, reads, writes,
}
use mcp_vfp9sp2_toolchain.Pipeline.{Setting, written}
use mcp_vfp9sp2_toolchain.Pipeline.Keeps.{Keeps, kept, end_of, Keeps->>}
use mcp_vfp9sp2_toolchain.Pipeline.Final.{text_neq}
use mcp_vfp9sp2_toolchain.Walk.{Tree}
use mcp_vfp9sp2_toolchain.Workspace.{or_refuse}
use mcp_vfp9sp2_toolchain.Workspace.Kept.{
  Keeps-demand, Keeps-refused->>=, Keeps-refused->>, check_target-under,
}
use mcp_vfp9sp2_toolchain.Snapshot.{Snapshot, snapshot_tree}

-- `json` is `json.dumps` of the manifest with the time and the purpose that the command adds.
module _ (s : Setting) (relpath : Text → Text → Text) (source_arg out_arg : Text) (t : Tree)
    (json : Snapshot → Text) where
  open s use {host, converter, is_dir, config}

  abbrev pub source_root : Text
  source_root = converter.os.abspath source_arg

  abbrev pub out_dir : Text
  out_dir = converter.os.abspath out_arg

  abbrev pub snapshot_path : Text
  snapshot_path = converter.os.join_path out_dir (codes "source_manifest.json")

  -- `snapshot_tree(src)`
  abbrev pub taken : Disk → Snapshot
  taken disk =
      snapshot_tree host relpath (files_of converter.sha256 disk) config is_dir source_root t []
        none

  -- what is done once the guard has let the target pass
  unfoldable pub save_snapshot : M (Unit {0})
  save_snapshot = do
    manifest ← reads taken
    writes snapshot_path (some ((written s) (json manifest)))
    leave (emitted true none)

  -- `cmd_snapshot`
  unfoldable pub cmd_snapshot : M (Unit {0})
  cmd_snapshot = do
    demand (is_dir source_root) missing_file
    guard ← or_refuse (make_guard host is_dir source_root out_dir)
    or_refuse (check_target host guard snapshot_path)
    save_snapshot

  module _ (p : Text) where
    save_snapshot-Keeps : text_eq snapshot_path p ≡ false → Keeps p save_snapshot
    unfolding save_snapshot
    save_snapshot-Keeps h = search (kept)

    guarded-Keeps :
        Settles host
        → (guard : PathSafetyGuard) → make_guard host is_dir source_root out_dir ≡ ok guard
        → is_under host p guard.source ≡ ok true
        → Keeps p (or_refuse (check_target host guard snapshot_path) >> save_snapshot)
    guarded-Keeps settles guard made under = Keeps-refused->> p _ _ (λ passed. save_snapshot-Keeps (
        text_neq snapshot_path p (λ same.
          IsGuard-disjoint host p (make_guard-IsGuard host settles _ _ _ guard made) under (
            ap (λ x. is_under host x guard.workspace) (sym same)
            ∙ check_target-under host guard snapshot_path passed))))

    -- On a platform whose canonical paths are their own canonical form: however `cmd_snapshot` ends,
    -- it does not change a file that is under the source of its guard, if a guard is constructed.
    pub cmd_snapshot-source_kept :
        Settles host
        → ((guard : PathSafetyGuard)
            → make_guard host is_dir source_root out_dir ≡ ok guard
            → is_under host p guard.source ≡ ok true)
        → (w : World) → (end_of (cmd_snapshot w)).disk p ≡ w.disk p
    unfolding cmd_snapshot Keeps
    cmd_snapshot-source_kept settles under w =
        Keeps->> p _ _ (Keeps-demand p _ _)
          (Keeps-refused->>= p _ _
            (λ guard made. guarded-Keeps settles guard made (under guard made)))
          w

-- ===== src/Workspace/Tests.antt =====
-- A workspace for the form of the sample runs, on a disk where the content of a file is its path.
use mcp_vfp9sp2_toolchain.Base.{◌≡◌, refl, true, false, none, some, []}
use mcp_vfp9sp2_toolchain.Base.Text.{Text, codes, text_eq}
use mcp_vfp9sp2_toolchain.Base.OsPath.{posix_join}
use mcp_vfp9sp2_toolchain.Commands.Compiled.{exit_of}
use mcp_vfp9sp2_toolchain.Disk.{Disk, is_file}
use mcp_vfp9sp2_toolchain.Safety.{PathSafetyGuard, ok, make_guard, is_under}
use mcp_vfp9sp2_toolchain.Safety.Tests.{settles}
use mcp_vfp9sp2_toolchain.Pipeline.Machine.{World, emitted}
use mcp_vfp9sp2_toolchain.Pipeline.{source_form, workspace}
use mcp_vfp9sp2_toolchain.Pipeline.Samples.{small, good}
use mcp_vfp9sp2_toolchain.Pipeline.Keeps.{end_of}
use mcp_vfp9sp2_toolchain.Workspace.{
  Created, source_dir, copied_scx, copied_sct, companion_sct, manifest_path, cmd_workspace,
}
use mcp_vfp9sp2_toolchain.Workspace.Kept.{cmd_workspace-source_kept}
use mcp_vfp9sp2_toolchain.Workspace.Copied.{cmd_workspace-copied}

abbrev named : Disk
named p = some (small p)

abbrev start : World
start = record { disk = named; steps = [] }

abbrev json : Created → Text
json c = c.source_scx_sha256

cmd_workspace_value : exit_of (cmd_workspace good json start) ≡ emitted true none
unfolding cmd_workspace mcp_vfp9sp2_toolchain.Pipeline.Machine.◌>>=◌
    mcp_vfp9sp2_toolchain.Pipeline.Machine.reads mcp_vfp9sp2_toolchain.Pipeline.Machine.◌>>◌
    mcp_vfp9sp2_toolchain.Commands.demand mcp_vfp9sp2_toolchain.Pipeline.Machine.pure
    mcp_vfp9sp2_toolchain.Workspace.checked_guard mcp_vfp9sp2_toolchain.Workspace.or_refuse
    make_guard mcp_vfp9sp2_toolchain.Base.OsPath.posix_dirname posix_join
    mcp_vfp9sp2_toolchain.Base.Text.starts_with mcp_vfp9sp2_toolchain.Safety.canonicalize_path
    mcp_vfp9sp2_toolchain.Base.Text.strip mcp_vfp9sp2_toolchain.Safety.are_same text_eq is_under
    mcp_vfp9sp2_toolchain.Safety.check_target mcp_vfp9sp2_toolchain.Base.OsPath.posix_splitext
    mcp_vfp9sp2_toolchain.Base.OsPath.posix_basename mcp_vfp9sp2_toolchain.Workspace.create
    mcp_vfp9sp2_toolchain.Pipeline.Machine.or_raise mcp_vfp9sp2_toolchain.Workspace.hashed
    mcp_vfp9sp2_toolchain.Workspace.copy_form mcp_vfp9sp2_toolchain.Workspace.copy_file
    mcp_vfp9sp2_toolchain.Pipeline.Machine.opened mcp_vfp9sp2_toolchain.Pipeline.Machine.found_file
    mcp_vfp9sp2_toolchain.Pipeline.Machine.writes mcp_vfp9sp2_toolchain.Disk.put
    mcp_vfp9sp2_toolchain.Workspace.record_copies mcp_vfp9sp2_toolchain.Pipeline.Machine.leave
cmd_workspace_value = refl

names :
    (text_eq (copied_sct good json) (copied_scx good json) ≡ false)
    × (text_eq (copied_scx good json) (companion_sct good json) ≡ false)
    × (text_eq (manifest_path good json) (copied_scx good json) ≡ false)
    × (text_eq (manifest_path good json) (copied_sct good json) ≡ false)
unfolding text_eq posix_join mcp_vfp9sp2_toolchain.Base.Text.starts_with
    mcp_vfp9sp2_toolchain.Base.OsPath.posix_splitext
    mcp_vfp9sp2_toolchain.Base.OsPath.posix_basename mcp_vfp9sp2_toolchain.Base.OsPath.posix_dirname
names = (refl, refl, refl, refl)

cmd_workspace-copied_example :
    (is_file named (source_form good) ≡ true)
    × (is_file named (companion_sct good json) ≡ true)
    × ((end_of (cmd_workspace good json start)).disk (copied_scx good json)
        ≡ named (source_form good))
    × ((end_of (cmd_workspace good json start)).disk (copied_sct good json)
        ≡ named (companion_sct good json))
cmd_workspace-copied_example =
    cmd_workspace-copied good json start names.0 names.1 names.2 names.3 cmd_workspace_value

abbrev guard : PathSafetyGuard
guard = record { source = codes "/app/src"; workspace = codes "/work" }

made : make_guard good.host good.is_dir (source_dir good json) (workspace good) ≡ ok guard
unfolding make_guard mcp_vfp9sp2_toolchain.Base.OsPath.posix_dirname posix_join
    mcp_vfp9sp2_toolchain.Base.Text.starts_with mcp_vfp9sp2_toolchain.Safety.canonicalize_path
    mcp_vfp9sp2_toolchain.Base.Text.strip mcp_vfp9sp2_toolchain.Safety.are_same text_eq is_under
made = refl

manifest_inside : is_under good.host (manifest_path good json) guard.workspace ≡ ok true
unfolding is_under mcp_vfp9sp2_toolchain.Safety.canonicalize_path posix_join
    mcp_vfp9sp2_toolchain.Base.Text.starts_with mcp_vfp9sp2_toolchain.Base.Text.strip text_eq
manifest_inside = refl

abbrev source : Text
source = codes "/app/src/f.scx"

source_inside : is_under good.host source guard.source ≡ ok true
unfolding is_under mcp_vfp9sp2_toolchain.Safety.canonicalize_path
    mcp_vfp9sp2_toolchain.Base.Text.strip text_eq posix_join
    mcp_vfp9sp2_toolchain.Base.Text.starts_with
source_inside = refl

cmd_workspace-source_kept_example :
    (end_of (cmd_workspace good json start)).disk source ≡ named source
cmd_workspace-source_kept_example =
    cmd_workspace-source_kept good json source settles guard made manifest_inside source_inside
      start

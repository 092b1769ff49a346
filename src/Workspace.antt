-- ===== src/Workspace.antt =====
-- vfp_refactor.py: `cmd_workspace`, which copies a form into a new workspace, over the machine of
-- Pipeline. Directories are not kept, so `os.makedirs` changes nothing.
pub mod Kept
pub mod Success
pub mod Copied
mod Tests
use mcp_vfp9sp2_toolchain.Base.{Bool, true, false, ◌&&◌, Option, none, some, List, [], ◌∷◌, ◌++◌}
use mcp_vfp9sp2_toolchain.Base.Text.{Text, codes, text_eq}
use mcp_vfp9sp2_toolchain.Commands.{demand}
use mcp_vfp9sp2_toolchain.Disk.{Disk, is_file}
use mcp_vfp9sp2_toolchain.Safety.{
  PathSafetyGuard, Outcome, ok, forbidden, empty_path, make_guard, check_target,
}
use mcp_vfp9sp2_toolchain.Pipeline.Machine.{
  source_path_write_forbidden, missing_file, missing_companion, hash_failed, copy_hash_mismatch,
  emitted, raised, M, ◌>>=◌, ◌>>◌, pure, leave, reads, writes, or_raise, opened,
}
use mcp_vfp9sp2_toolchain.Pipeline.{
  Setting, workspace, source_form, in_workspace, within_workspace, hash_of, written,
}

-- What workspace_manifest.json says, without its time and its policy.
pub record Created : Type 0 where
  pub source_form : Text
  pub source_scx_sha256 : Text
  pub source_sct_sha256 : Text
  pub workspace : Text
  pub working_scx : Text
  pub working_scx_sha256 : Option Text
  pub working_sct : Text
  pub working_sct_sha256 : Option Text

-- `except SourcePathWriteError` of the commands that keep no report
unfoldable pub or_refuse {ℓ} : {A : Type ℓ} → Outcome A → M A
or_refuse (ok a) = pure a
or_refuse (forbidden v) = leave (emitted false (some source_path_write_forbidden))
or_refuse empty_path = leave raised

-- A hash that is `None` is reported.
unfoldable pub hashed : Option Text → Option Text → M (Text × Text)
hashed (some a) (some b) = pure (a, b)
hashed _ _ = leave (emitted false (some hash_failed))

-- `sha256_file(...) == sha`
abbrev pub has_hash : Option Text → Text → Bool
has_hash none sha = false
has_hash (some a) sha = text_eq a sha

-- `json` is `json.dumps` of the manifest.
module _ (s : Setting) (json : Created → Text) where
  open s use {host, converter, is_dir}

  abbrev pub source_dir : Text
  source_dir = converter.os.dirname (source_form s)

  abbrev pub stem : Text
  stem = (converter.os.splitext (converter.os.basename (source_form s))).0

  abbrev pub companion_sct : Text
  companion_sct = converter.os.join_path source_dir (stem ++ codes ".sct")

  abbrev pub copied_scx : Text
  copied_scx = (within_workspace s) (codes "working") (stem ++ codes ".scx")

  abbrev pub copied_sct : Text
  copied_sct = (within_workspace s) (codes "working") (stem ++ codes ".sct")

  abbrev pub manifest_path : Text
  manifest_path = (in_workspace s) (codes "workspace_manifest.json")

  -- the guard, and the test on a form in the workspace itself
  unfoldable pub checked_guard : M (Unit {0})
  checked_guard = do
    guard ← or_refuse (make_guard host is_dir source_dir (workspace s))
    or_refuse (check_target host guard ((in_workspace s) (stem ++ codes ".scx")))

  -- `shutil.copy2`
  unfoldable pub copy_file : Text → Text → M (Unit {0})
  copy_file a b = do f ← opened a; writes b (some f)

  -- the copies, once the hashes are there
  unfoldable pub copy_form : PathSafetyGuard → M (Unit {0})
  copy_form guard = do
    or_raise (check_target host guard copied_scx)
    or_raise (check_target host guard copied_sct)
    copy_file (source_form s) copied_scx
    copy_file companion_sct copied_sct

  abbrev pub are_copied : Text → Text → Disk → Bool
  are_copied scx sct disk =
      has_hash ((hash_of s) disk copied_scx) scx && has_hash ((hash_of s) disk copied_sct) sct

  abbrev pub created : Text → Text → Disk → Created
  created scx sct disk = record {
    source_form = source_form s;
    source_scx_sha256 = scx;
    source_sct_sha256 = sct;
    workspace = workspace s;
    working_scx = copied_scx;
    working_scx_sha256 = (hash_of s) disk copied_scx;
    working_sct = copied_sct;
    working_sct_sha256 = (hash_of s) disk copied_sct;
  }

  -- the verdict on the copies, and the manifest
  unfoldable pub record_copies : Text × Text → M (Unit {0})
  record_copies (scx, sct) = do
    same ← reads (are_copied scx sct)
    demand same copy_hash_mismatch
    manifest ← reads (created scx sct)
    writes manifest_path (some ((written s) (json manifest)))
    leave (emitted true none)

  abbrev pub source_hashes : Disk → Option Text × Option Text
  source_hashes disk = ((hash_of s) disk (source_form s), (hash_of s) disk companion_sct)

  -- the second guard, and what is done under it
  unfoldable pub create : M (Unit {0})
  create = do
    guard ← or_raise (make_guard host is_dir source_dir (workspace s))
    hashes ← reads source_hashes
    shas ← hashed hashes.0 hashes.1
    copy_form guard
    record_copies shas

  -- `cmd_workspace`
  unfoldable pub cmd_workspace : M (Unit {0})
  cmd_workspace = do
    there ← reads (λ disk. is_file disk (source_form s))
    demand there missing_file
    paired ← reads (λ disk. is_file disk companion_sct)
    demand paired missing_companion
    checked_guard
    create

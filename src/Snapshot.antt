-- ===== src/Snapshot.antt =====
-- vfp_safety.py: `snapshot_tree` with `_classify_file`, the manifest of a directory tree, and
-- `cmd_snapshot` of vfp_refactor.py, which writes one outside the source. The tree is what the walk
-- meets; `relpath` of `os.path` is a parameter.
pub mod Faithful
pub mod Unchanged
pub mod Command
mod Tests
use mcp_vfp9sp2_toolchain.Base.{
  ℕ, Bool, true, false, not, ◌&&◌, Option, none, some, List, [], ◌∷◌, map, if◌then◌else◌, length,
  keep, is_empty, ◌==◌,
}
use mcp_vfp9sp2_toolchain.Base.Text.{Text, codes, text_eq}
use mcp_vfp9sp2_toolchain.Base.Dict.{Dict, insert}
use mcp_vfp9sp2_toolchain.Common.{Config, default_excludes, required_companions}
use mcp_vfp9sp2_toolchain.Manifest.{FileSystem, Entry}
use mcp_vfp9sp2_toolchain.Safety.{Host, sep}
use mcp_vfp9sp2_toolchain.Walk.{Tree, is_walked, visited}

-- the mapping of `_classify_file`
abbrev pub file_types : List (Text × Text)
file_types =
    (codes ".SCX", codes "form")
    ∷ (codes ".SCT", codes "form_memo")
    ∷ (codes ".VCX", codes "class_library")
    ∷ (codes ".VCT", codes "class_library_memo")
    ∷ (codes ".FRX", codes "report")
    ∷ (codes ".FRT", codes "report_memo")
    ∷ (codes ".MNX", codes "menu")
    ∷ (codes ".MNT", codes "menu_memo")
    ∷ (codes ".LBX", codes "visual_library")
    ∷ (codes ".LB2", codes "visual_library_text")
    ∷ (codes ".PJX", codes "project")
    ∷ (codes ".PJT", codes "project_text")
    ∷ (codes ".DBC", codes "database_container")
    ∷ (codes ".DCX", codes "database_index")
    ∷ (codes ".DCT", codes "database_memo")
    ∷ (codes ".DBF", codes "table")
    ∷ (codes ".FPT", codes "table_memo")
    ∷ (codes ".CDX", codes "index")
    ∷ (codes ".IDX", codes "index")
    ∷ (codes ".PRG", codes "program")
    ∷ (codes ".H", codes "header")
    ∷ []

-- `mapping.get(ext, "other")`
unfoldable pub type_in : List (Text × Text) → Text → Text
unfolding text_eq
type_in [] ext = codes "other"
type_in ((e, t) ∷ rest) ext = if text_eq e ext then t else type_in rest ext

-- An entry of the manifest: what the comparisons read of it, and the rest.
pub record Captured : Type 0 where
  pub entry : Entry
  pub rel_path : Text
  pub file_type : Text
  pub companions : List Text

pub record Snapshot : Type 0 where
  pub root : Text
  pub file_count : ℕ
  pub files : Dict Captured

-- What the comparisons read of a manifest.
abbrev pub entries_of : Dict Captured → Dict Entry
entries_of = map (λ e. (e.0, e.1.entry))

module _ (host : Host) (relpath : Text → Text → Text) where
  open host use {platform, casing}

  -- `s.replace(os.sep, "/")`
  abbrev pub with_slashes : Text → Text
  with_slashes = map (λ c. if c == sep host then b'/' else c)

  -- `_classify_file`
  unfoldable pub classify_file : Text → Text
  unfolding type_in
  classify_file rel_upper = type_in file_types (platform.splitext rel_upper).1

  abbrev pub key_of : Text → Text → Text
  key_of root fp = with_slashes (casing.upper (relpath fp root))

  module _ (fs : FileSystem) where
    -- `add`
    unfoldable pub add : Text → Text → Dict Captured → Dict Captured
    unfolding insert classify_file required_companions
    add root fp files = elim (fs.stat fp) [
      | none ↦ files
      | some st ↦ elim (fs.sha256_file fp) [
        | none ↦ files
        | some sha ↦
            insert (key_of root fp)
              (record {
                entry = record { path = fp; size = st.size; mtime = st.mtime; sha256 = sha };
                rel_path = with_slashes (relpath fp root);
                file_type = classify_file (key_of root fp);
                companions =
                    map (λ c. casing.upper (platform.basename c))
                      (keep fs.is_file (required_companions platform casing fp));
              })
              files
      ]
    ]

    -- the loop over the files that the walk meets
    unfoldable pub tree_loop : Text → List (Text × Text) → Dict Captured → Dict Captured
    unfolding add
    tree_loop root [] files = files
    tree_loop root ((dir, fn) ∷ rest) files =
        tree_loop root rest (add root (platform.join_path dir fn) files)

    -- the loop over `extra_files`
    unfoldable pub extra_loop : Text → List Text → Dict Captured → Dict Captured
    unfolding add
    extra_loop root [] files = files
    extra_loop root (fp ∷ rest) files =
        let taken = not (is_empty fp) && fs.is_file fp in
        extra_loop root rest (if taken then add root fp files else files)

    -- `excludes if excludes is not None else vfp_common.default_excludes()`
    abbrev pub excluded : Option Config → Option (List Text) → List Text
    excluded config none = default_excludes casing config
    excluded config (some names) = names

    -- the files that the walk meets
    abbrev pub walked_files : List Text → Text → Tree → List (Text × Text)
    walked_files excl root t = visited platform.join_path (is_walked casing excl) root t

    -- `snapshot_tree`; the excludes are the default ones where none are given
    unfoldable pub snapshot_tree :
        Option Config → (Text → Bool) → Text → Tree → List Text → Option (List Text) → Snapshot
    unfolding tree_loop extra_loop default_excludes
    snapshot_tree config is_dir root t extra_files excludes =
        let walked =
          if is_dir root
          then tree_loop root (walked_files (excluded config excludes) root t) []
          else [] in
        let files = extra_loop root extra_files walked in
        record { root = platform.abspath root; file_count = length files; files = files }

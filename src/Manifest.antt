-- ===== src/Manifest.antt =====
-- vfp_safety.py, second part: SHA256 manifests and what compares them. The file system at one
-- moment is a value; the hash, `stat` and `abspath` are parameters.
pub mod Compare
pub mod Verify
mod Tests
use mcp_vfp9sp2_toolchain.Base.{
  ℕ, Bool, not, ◌&&◌, ◌||◌, Option, none, some, List, [], ◌∷◌, ◌==◌, if◌then◌else◌, is_empty, keep,
}
use mcp_vfp9sp2_toolchain.Base.Text.{Text, codes, text_eq}
use mcp_vfp9sp2_toolchain.Base.Dict.{Dict, lookup, insert}

-- `st_size` and `st_mtime`; times are only compared.
pub record Stat : Type 0 where
  pub size : ℕ
  pub mtime : ℕ

-- The file system at one moment: `os.path.isfile`, the digest that `sha256_file` returns (none when
-- the file cannot be read), and `os.stat` (none for an `OSError`).
pub record FileSystem : Type 0 where
  pub is_file : Text → Bool
  pub sha256_file : Text → Option Text
  pub stat : Text → Option Stat

-- What a manifest holds of one file, as far as the comparisons read it.
pub record Entry : Type 0 where
  pub path : Text
  pub size : ℕ
  pub mtime : ℕ
  pub sha256 : Text

pub record Change : Type 0 where
  pub file : Text
  pub before : Entry
  pub after : Entry

pub record Comparison : Type 0 where
  pub ok : Bool
  pub changed : List Change
  pub added : List Text
  pub removed : List Text

unfoldable pub has_drifted : Entry → Entry → Bool
has_drifted a b =
    not (text_eq a.sha256 b.sha256) || not (a.size == b.size) || not (a.mtime == b.mtime)

-- the loop over `bf.items()`
unfoldable pub compare_loop : Dict Entry → Dict Entry → List Change × List Text
compare_loop af [] = ([], [])
compare_loop af ((key, b) ∷ rest) =
    let (changed, removed) = compare_loop af rest in
    elim (lookup key af) [
      | none ↦ (changed, key ∷ removed)
      | some a ↦
          if has_drifted a b
          then (record { file = key; before = b; after = a } ∷ changed, removed)
          else (changed, removed)
    ]

-- the loop over the keys of `af`
unfoldable pub added_loop : Dict Entry → Dict Entry → List Text
added_loop bf [] = []
added_loop bf ((key, a) ∷ rest) =
    let later = added_loop bf rest in elim (lookup key bf) [ none ↦ key ∷ later | some _ ↦ later ]

unfoldable pub compare_manifests : Dict Entry → Dict Entry → Comparison
compare_manifests bf af =
    let (changed, removed) = compare_loop af bf in
    record {
      ok = is_empty changed && is_empty removed;
      changed = changed;
      added = added_loop bf af;
      removed = removed;
    }

pub record HashChange : Type 0 where
  pub file : Text
  pub sha256_before : Text
  pub sha256_after : Text

-- The result of `SourceHashGuard._compare` and of `verify_source_hashes`; the error code is
-- SOURCE_HASH_CHANGED or none.
pub record Verdict : Type 0 where
  pub ok : Bool
  pub changed : List HashChange
  pub missing : List Text
  pub error_code : Option Text

abbrev pub verdict : List HashChange × List Text → Verdict
verdict (changed, missing) =
    let ok = is_empty changed && is_empty missing in
    record {
      ok = ok;
      changed = changed;
      missing = missing;
      error_code = if ok then none else some (codes "SOURCE_HASH_CHANGED");
    }

-- the loop of `_compare`, which does not look at times
unfoldable pub guard_loop : Dict Entry → Dict Entry → List HashChange × List Text
guard_loop af [] = ([], [])
guard_loop af ((key, b) ∷ rest) =
    let (changed, missing) = guard_loop af rest in
    elim (lookup key af) [
      | none ↦ (changed, key ∷ missing)
      | some a ↦
          if not (text_eq a.sha256 b.sha256) || not (a.size == b.size)
          then (
            record { file = key; sha256_before = b.sha256; sha256_after = a.sha256 } ∷ changed,
            missing,
          )
          else (changed, missing)
    ]

unfoldable pub compare_files : Dict Entry → Dict Entry → Verdict
compare_files bf after_files = verdict (guard_loop after_files bf)

-- The paths that `SourceHashGuard` keeps: those given that are files.
unfoldable pub guarded_paths : FileSystem → List Text → List Text
guarded_paths fs paths = keep (λ f. not (is_empty f) && fs.is_file f) paths

module _ (abspath : Text → Text) where
  unfoldable pub capture_one : FileSystem → Text → Dict Entry → Dict Entry
  capture_one fs fp files = elim (fs.sha256_file fp) [
    | none ↦ files
    | some sha ↦ elim (fs.stat fp) [
      | none ↦ files
      | some st ↦
          insert (abspath fp) (record { path = fp; size = st.size; mtime = st.mtime; sha256 = sha })
            files
    ]
  ]

  -- the loop of `capture`, and the first loop of `verify`
  unfoldable pub capture_loop : FileSystem → List Text → Dict Entry → Dict Entry
  capture_loop fs [] files = files
  capture_loop fs (fp ∷ rest) files = capture_loop fs rest (capture_one fs fp files)

  unfoldable pub capture : FileSystem → List Text → Dict Entry
  capture fs file_paths = capture_loop fs file_paths []

  -- `SourceHashGuard.verify`: `first` is the file system during its own loop, `second` while it
  -- captures once more. What an earlier `capture` returned does not come in.
  unfoldable pub verify : List Text → FileSystem → FileSystem → Verdict
  verify file_paths first second =
      compare_files (capture second file_paths) (capture first file_paths)

  -- `verify_source_hashes`
  unfoldable pub verify_loop : Dict Entry → FileSystem → List Text → List HashChange × List Text
  verify_loop before fs [] = ([], [])
  verify_loop before fs (fp ∷ rest) =
      let (changed, missing) = verify_loop before fs rest in
      elim (lookup (abspath fp) before) [
        | none ↦ (changed, missing)
        | some b ↦ elim (fs.sha256_file fp) [
          | none ↦ (changed, abspath fp ∷ missing)
          | some sha ↦
              if not (text_eq sha b.sha256)
              then (
                record { file = abspath fp; sha256_before = b.sha256; sha256_after = sha }
                    ∷ changed,
                missing,
              )
              else (changed, missing)
        ]
      ]

  unfoldable pub verify_source_hashes : Dict Entry → FileSystem → List Text → Verdict
  verify_source_hashes before fs file_paths = verdict (verify_loop before fs file_paths)

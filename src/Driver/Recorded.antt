-- ===== src/Driver/Recorded.antt =====
-- What a manifest holds of the files that were captured, and what an unchanged file is against it.
use mcp_vfp9sp2_toolchain.Base.{
  ℕ, ◌≡◌, ◌↔◌, inl, inr, refl, ap, sym, ◌∙◌, true, none, some, List, [], ◌∷◌, All, length,
  Bool-cases, Option-cases,
}
use mcp_vfp9sp2_toolchain.Base.Text.{Text, text_eq, text_eq_iff, text_eq_refl}
use mcp_vfp9sp2_toolchain.Base.Dict.{Dict, lookup, insert, lookup-insert}
use mcp_vfp9sp2_toolchain.Disk.{Disk, File, is_file, files_of}
use mcp_vfp9sp2_toolchain.Manifest.{Entry, FileSystem, capture_one, capture_loop}
use mcp_vfp9sp2_toolchain.Manifest.Verify.{Unchanged}

module _ (abspath : Text → Text) (sha256 : List ℕ → Text) (disk : Disk) where
  -- The manifest has the digest of the file at this path.
  pub record IsRecorded (files : Dict Entry) (p : Text) : Type 0 where
    pub entry : Entry
    pub found : lookup (abspath p) files ≡ some entry
    pub digest : (files_of sha256 disk).sha256_file p ≡ some entry.sha256

  abbrev entry_of : Text → File → Entry
  entry_of p f = record {
    path = p;
    size = length f.content;
    mtime = f.mtime;
    sha256 = sha256 f.content;
  }

  capture_one-file :
      (p : Text) (f : File) (files : Dict Entry)
      → disk p ≡ some f
      → capture_one abspath (files_of sha256 disk) p files ≡ insert (abspath p) (entry_of p f) files
  unfolding capture_one
  capture_one-file p f files h = rw (h, h, capture_one) refl

  capture_one-lost :
      (p : Text) (files : Dict Entry)
      → disk p ≡ none
      → capture_one abspath (files_of sha256 disk) p files ≡ files
  unfolding capture_one
  capture_one-lost p files h = rw (h, capture_one) refl

  lookup-found : (p : Text) (v : Entry) (files : Dict Entry) → lookup p (insert p v files) ≡ some v
  lookup-found p v files = rw (lookup-insert p p v files, text_eq_refl p) refl

  capture_one-here :
      (p : Text) (f : File) (files : Dict Entry)
      → disk p ≡ some f
      → IsRecorded (capture_one abspath (files_of sha256 disk) p files) p
  capture_one-here p f files h = rw (capture_one-file p f files h) (record {
    entry = entry_of p f;
    found = lookup-found (abspath p) (entry_of p f) files;
    digest = rw h refl;
  })

  -- A later capture of a path with the same absolute form records the same file.
  capture_one-IsRecorded :
      ((p q : Text) → abspath p ≡ abspath q → disk p ≡ disk q)
      → (p q : Text) (files : Dict Entry) → IsRecorded files p
      → IsRecorded (capture_one abspath (files_of sha256 disk) q files) p
  capture_one-IsRecorded names p q files r = elim (Option-cases (disk q)) [
    | inl lost ↦ rw (capture_one-lost q files lost) r
    | inr (f, h) ↦
        rw (capture_one-file q f files h) (elim (Bool-cases (text_eq (abspath q) (abspath p))) [
          | inl same ↦
              let one = (text_eq_iff (abspath q) (abspath p)).0 same in
              record {
                entry = entry_of q f;
                found = rw (lookup-insert (abspath q) (abspath p) (entry_of q f) files, same) refl;
                digest = rw (names p q (sym one) ∙ h) refl;
              }
          | inr other ↦ record {
            entry = r.entry;
            found = rw (lookup-insert (abspath q) (abspath p) (entry_of q f) files, other) r.found;
            digest = r.digest;
          }
        ])
  ]

  capture_loop-IsRecorded :
      ((p q : Text) → abspath p ≡ abspath q → disk p ≡ disk q)
      → (paths : List Text) (p : Text) (files : Dict Entry) → IsRecorded files p
      → IsRecorded (capture_loop abspath (files_of sha256 disk) paths files) p
  unfolding capture_loop
  capture_loop-IsRecorded names [] p files r = r
  capture_loop-IsRecorded names (q ∷ paths) p files r =
      capture_loop-IsRecorded names paths p _ (capture_one-IsRecorded names p q files r)

  -- A capture records every path given that is a file.
  pub capture_loop-records :
      ((p q : Text) → abspath p ≡ abspath q → disk p ≡ disk q)
      → (paths : List Text) (files : Dict Entry) → All (λ p. is_file disk p ≡ true) paths
      → All (IsRecorded (capture_loop abspath (files_of sha256 disk) paths files)) paths
  unfolding capture_loop
  capture_loop-records names [] files h = tt
  capture_loop-records names (p ∷ paths) files (h, hs) = elim (Option-cases (disk p)) [
    | inl lost ↦ absurd (cc (rw (lost, is_file) at h))
    | inr (f, there) ↦ (
      capture_loop-IsRecorded names paths p _ (capture_one-here p f files there),
      capture_loop-records names paths _ hs,
    )
  ]

  -- A recorded path that is unchanged against the record has the digest that it had.
  IsRecorded-Unchanged :
      (files : Dict Entry) (later : FileSystem) (p : Text)
      → IsRecorded files p
      → Unchanged abspath files later p
        ↔ (later.sha256_file p ≡ (files_of sha256 disk).sha256_file p)
  IsRecorded-Unchanged files later p r = (
    λ u. elim u [
      | inl unknown ↦ absurd (cc (sym r.found ∙ unknown))
      | inr (b, known, same) ↦
          let one : r.entry ≡ b = cc (sym r.found ∙ known) in
          same ∙ ap (λ e. some e.sha256) (sym one) ∙ sym r.digest
    ],
    λ e. inr (r.entry, r.found, e ∙ r.digest),
  )

  pub All-Unchanged_iff :
      (files : Dict Entry) (later : FileSystem) (paths : List Text)
      → All (IsRecorded files) paths
      → All (Unchanged abspath files later) paths
        ↔ All (λ p. later.sha256_file p ≡ (files_of sha256 disk).sha256_file p) paths
  All-Unchanged_iff files later [] h = (λ _. tt, λ _. tt)
  All-Unchanged_iff files later (p ∷ paths) (r, rs) =
      let here = IsRecorded-Unchanged files later p r in
      let rest = All-Unchanged_iff files later paths rs in
      (λ (a, b). (here.0 a, rest.0 b), λ (a, b). (here.1 a, rest.1 b))

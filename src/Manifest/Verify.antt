-- ===== src/Manifest/Verify.antt =====
-- `verify_source_hashes` compares with a manifest that was taken before; `SourceHashGuard.verify`
-- does not.
use mcp_vfp9sp2_toolchain.Base.{
  ◌≡◌, ◌↔◌, ◌⊎◌, inl, inr, refl, ap, sym, ◌∙◌, Bool, true, false, ◌&&◌, none, some, List, [], ◌∷◌,
  arith, All, is_empty, Bool-cases, Option-cases, ==_iff,
}
use mcp_vfp9sp2_toolchain.Base.Text.{Text, text_eq, text_eq_iff, text_eq_refl}
use mcp_vfp9sp2_toolchain.Base.Dict.{Dict, lookup, IsDict, empty, insert-IsDict, IsDict-lookup}
use mcp_vfp9sp2_toolchain.Manifest.{
  Entry, HashChange, FileSystem, guard_loop, compare_files, capture_one, capture_loop, capture,
  verify, verify_loop, verify_source_hashes,
}

capture_one-IsDict :
    (abspath : Text → Text) (fs : FileSystem) (fp : Text) (files : Dict Entry)
    → IsDict files
    → IsDict (capture_one abspath fs fp files)
unfolding capture_one
capture_one-IsDict abspath fs fp files u = elim (Option-cases (fs.sha256_file fp)) [
  | inl unread ↦ rw (unread, capture_one) u
  | inr (sha, read) ↦ elim (Option-cases (fs.stat fp)) [
    | inl lost ↦ rw (read, lost, capture_one) u
    | inr (st, seen) ↦ rw (read, seen, capture_one) (insert-IsDict (abspath fp) _ u)
  ]
]

capture_loop-IsDict :
    (abspath : Text → Text) (fs : FileSystem) (paths : List Text) (files : Dict Entry)
    → IsDict files
    → IsDict (capture_loop abspath fs paths files)
unfolding capture_loop
capture_loop-IsDict abspath fs [] files u = u
capture_loop-IsDict abspath fs (fp ∷ rest) files u =
    capture_loop-IsDict abspath fs rest _ (capture_one-IsDict abspath fs fp files u)

-- A dictionary of captures whose keys find their entries shows no change against itself.
guard_loop_self :
    (af bf : Dict Entry) → All (λ e. lookup e.0 af ≡ some e.1) bf → guard_loop af bf ≡ ([], [])
unfolding guard_loop
guard_loop_self af [] h = refl
guard_loop_self af ((key, b) ∷ rest) (found, more) = rw (
  found,
  text_eq_refl b.sha256,
  (==_iff b.size b.size).1 refl,
  guard_loop_self af rest more,
  guard_loop,
)

-- `SourceHashGuard.verify` takes its "before" while it runs: unless the files change during that
-- very call it reports success, whatever has happened to them since an earlier `capture`.
verify_never_fails :
    (abspath : Text → Text) (paths : List Text) (fs : FileSystem)
    → ((verify abspath paths fs fs).ok ≡ true) × ((verify abspath paths fs fs).error_code ≡ none)
unfolding verify compare_files capture
verify_never_fails abspath paths fs =
    let u = capture_loop-IsDict abspath fs paths [] empty in
    let clean = guard_loop_self _ _ (IsDict-lookup u) in (rw clean, rw clean)

-- The file was not recorded, or it can be read and has the recorded digest.
abbrev pub Unchanged : (Text → Text) → Dict Entry → FileSystem → Text → Type 0
Unchanged abspath before fs fp =
    (lookup (abspath fp) before ≡ none)
    ⊎ ((b : Entry) × (lookup (abspath fp) before ≡ some b) × (fs.sha256_file fp ≡ some b.sha256))

abbrev clean : List HashChange × List Text → Bool
clean (changed, missing) = is_empty changed && is_empty missing

module _ (abspath : Text → Text) (before : Dict Entry) (fs : FileSystem) where
  loop_unknown :
      (fp : Text) (rest : List Text)
      → lookup (abspath fp) before ≡ none
      → verify_loop abspath before fs (fp ∷ rest) ≡ verify_loop abspath before fs rest
  unfolding verify_loop
  loop_unknown fp rest h = rw (h, verify_loop)

  loop_unread :
      (fp : Text) (rest : List Text) (b : Entry)
      → lookup (abspath fp) before ≡ some b
      → fs.sha256_file fp ≡ none
      → clean (verify_loop abspath before fs (fp ∷ rest)) ≡ false
  unfolding verify_loop
  loop_unread fp rest b h k = rw (h, k, verify_loop) (ground arith)

  loop_same :
      (fp : Text) (rest : List Text) (b : Entry)
      → lookup (abspath fp) before ≡ some b
      → fs.sha256_file fp ≡ some b.sha256
      → verify_loop abspath before fs (fp ∷ rest) ≡ verify_loop abspath before fs rest
  unfolding verify_loop
  loop_same fp rest b h k = rw (h, k, text_eq_refl b.sha256, verify_loop)

  loop_changed :
      (fp : Text) (rest : List Text) (b : Entry) (sha : Text)
      → lookup (abspath fp) before ≡ some b
      → fs.sha256_file fp ≡ some sha
      → text_eq sha b.sha256 ≡ false
      → clean (verify_loop abspath before fs (fp ∷ rest)) ≡ false
  unfolding verify_loop
  loop_changed fp rest b sha h k e = rw (h, k, e, verify_loop)

  -- A known file is unchanged only if its digest is the recorded one.
  Unchanged-digest :
      {fp : Text} {b : Entry}
      → lookup (abspath fp) before ≡ some b
      → Unchanged abspath before fs fp
      → fs.sha256_file fp ≡ some b.sha256
  Unchanged-digest known (inl unknown) = absurd (cc (sym known ∙ unknown))
  Unchanged-digest known (inr (b', known', same)) = cc (sym known ∙ known')

  verify_loop-Unchanged :
      (paths : List Text)
      → (clean (verify_loop abspath before fs paths) ≡ true)
        ↔ All (Unchanged abspath before fs) paths
  verify_loop-Unchanged [] = (λ h. tt, λ h. unfold verify_loop in refl)
  verify_loop-Unchanged (fp ∷ rest) =
      let (later, earlier) = verify_loop-Unchanged rest in
      elim (Option-cases (lookup (abspath fp) before)) [
        | inl unknown ↦
            rw (loop_unknown fp rest unknown)
              (λ h. (inl unknown, later h), λ (_, more). earlier more)
        | inr (b, known) ↦ elim (Option-cases (fs.sha256_file fp)) [
          | inl lost ↦ (
            λ h. absurd (cc (sym h ∙ loop_unread fp rest b known lost)),
            λ (u, _). absurd (cc (sym lost ∙ Unchanged-digest known u)),
          )
          | inr (sha, read) ↦ elim (Bool-cases (text_eq sha b.sha256)) [
            | inl same ↦
                let digest = read ∙ ap some ((text_eq_iff sha b.sha256).0 same) in
                rw (loop_same fp rest b known digest)
                  (λ h. (inr (b, known, digest), later h), λ (_, more). earlier more)
            | inr other ↦ (
              λ h. absurd (cc (sym h ∙ loop_changed fp rest b sha known read other)),
              λ (u, _).
                  let digest : sha ≡ b.sha256 = cc (sym read ∙ Unchanged-digest known u) in
                  absurd (cc (sym other ∙ (text_eq_iff sha b.sha256).1 digest)),
            )
          ]
        ]
      ]

  -- The one-shot check succeeds exactly when every listed file that the manifest records can still
  -- be read and has the digest recorded there.
  pub verify_source_hashes_ok :
      (paths : List Text)
      → ((verify_source_hashes abspath before fs paths).ok ≡ true)
        ↔ All (Unchanged abspath before fs) paths
  unfolding verify_source_hashes
  verify_source_hashes_ok paths = verify_loop-Unchanged paths

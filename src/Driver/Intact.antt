-- ===== src/Driver/Intact.antt =====
-- What a successful conversion says of the source: its files have the digests that they had.
use mcp_vfp9sp2_toolchain.Base.{
  ◌≡◌, ◌↔◌, inl, inr, refl, sym, ◌∙◌, Bool, true, false, not, ◌&&◌, some, List, [], ◌∷◌, All,
  All-map_imp, keep, arith, is_empty, Bool-cases,
}
use mcp_vfp9sp2_toolchain.Base.Text.{Text}
use mcp_vfp9sp2_toolchain.Common.{required_companions}
use mcp_vfp9sp2_toolchain.Disk.{Disk, is_file, files_of}
use mcp_vfp9sp2_toolchain.Manifest.{guarded_paths, capture_loop, capture, verify_source_hashes}
use mcp_vfp9sp2_toolchain.Manifest.Verify.{verify_source_hashes_ok}
use mcp_vfp9sp2_toolchain.Driver.{
  parse_rc, process, error_of, Converter, hashed_paths, convert_one, is_rc,
  critical_source_mutation,
}
use mcp_vfp9sp2_toolchain.Driver.Recorded.{capture_loop-records, All-Unchanged_iff}

and_right : (a b : Bool) → (a && b) ≡ true → b ≡ true
and_right a b h = ground arith

error_of-critical : (a b d : Bool) → error_of a b d ≡ some critical_source_mutation → a ≡ false
unfolding error_of
error_of-critical a b d h = ground arith

critical-error_of : (a b d : Bool) → a ≡ false → error_of a b d ≡ some critical_source_mutation
unfolding error_of
critical-error_of a b d h = rw h refl

not_true : (a : Bool) → ¬ (a ≡ true) → a ≡ false
not_true true h = absurd (h refl)
not_true false h = refl

both : (a b : Bool) → (a && b) ≡ true → (a ≡ true) × (b ≡ true)
both a b h = ground arith

keep-passes : (p : Text → Bool) (xs : List Text) → All (λ x. p x ≡ true) (keep p xs)
keep-passes p [] = tt
keep-passes p (x ∷ xs) = elim (Bool-cases (p x)) [
  | inl hit ↦ rw (hit, keep) (hit, keep-passes p xs)
  | inr miss ↦ rw (miss, keep) (keep-passes p xs)
]

module _ (c : Converter) where
  -- Paths with one absolute form name one file.
  abbrev pub Names : Disk → Type 0
  Names disk = (p q : Text) → c.os.abspath p ≡ c.os.abspath q → disk p ≡ disk q

  -- The source files of a conversion have the digests that they had.
  abbrev pub IsIntact : Disk → Text → Disk → Type 0
  IsIntact disk inp later =
      All (λ p. (files_of c.sha256 later).sha256_file p ≡ (files_of c.sha256 disk).sha256_file p)
        (hashed_paths c disk inp)

  hashed_paths-is_file :
      (disk : Disk) (inp : Text) → All (λ p. is_file disk p ≡ true) (hashed_paths c disk inp)
  unfolding guarded_paths
  hashed_paths-is_file disk inp =
      let given = inp ∷ keep (is_file disk) (required_companions c.os c.casing inp) in
      let test : Text → Bool = λ p. not (is_empty p) && is_file disk p in
      All-map_imp {P = λ p. test p ≡ true} (keep test given) (λ p h. and_right _ _ h)
        (keep-passes test given)

  -- The verdict on the source after the process.
  verdict_iff :
      (disk : Disk) (inp : Text) (later : Disk)
      → Names disk
      → ((verify_source_hashes c.os.abspath
            (capture c.os.abspath (files_of c.sha256 disk) (hashed_paths c disk inp))
            (files_of c.sha256 later)
            (hashed_paths c disk inp)).ok
          ≡ true)
        ↔ IsIntact disk inp later
  unfolding capture
  verdict_iff disk inp later names =
      let paths = hashed_paths c disk inp in
      let before = capture_loop c.os.abspath (files_of c.sha256 disk) paths [] in
      let recorded =
        capture_loop-records c.os.abspath c.sha256 disk names paths []
          (hashed_paths-is_file disk inp) in
      let same =
        All-Unchanged_iff c.os.abspath c.sha256 disk before (files_of c.sha256 later) paths
          recorded in
      let checked = verify_source_hashes_ok c.os.abspath before (files_of c.sha256 later) paths in
      (λ h. same.0 (checked.0 h), λ h. checked.1 (same.1 h))

  -- Where paths with one absolute form name one file, which a link to a directory may break:
  -- `convert_one` succeeds exactly when its script is there, the process was not stopped and gave
  -- RC=0, and those of the input and its companions that were there have the digests that they had.
  pub convert_one_ok :
      (inp ctype out cfg prg : Text) (disk : Disk)
      → Names disk
      → ((convert_one c inp ctype out cfg prg disk).0.ok ≡ true) ↔ (
          (is_file disk c.script ≡ true)
          × ((process c inp ctype out cfg prg disk).0.timeout ≡ false)
          × (is_rc 0 (parse_rc (process c inp ctype out cfg prg disk).0.stdout) ≡ true)
          × IsIntact disk inp (process c inp ctype out cfg prg disk).1)
  unfolding convert_one
  convert_one_ok inp ctype out cfg prg disk names =
      let p = process c inp ctype out cfg prg disk in
      let same = verdict_iff disk inp p.1 names in
      elim (Bool-cases (is_file disk c.script)) [
        | inr lost ↦ rw lost (λ h. absurd (cc h), λ (h, _, _, _). absurd (cc h))
        | inl there ↦ elim (Bool-cases p.0.timeout) [
          | inl late ↦ rw (there, late) (λ h. absurd (cc h), λ (_, h, _, _). absurd (cc h))
          | inr done ↦
              rw (there, done)
                (
                  λ h. let (a, b) = both _ _ h in (refl, refl, b, same.0 a),
                  λ (_, _, b, a). rw (same.1 a, b) refl,
                )
        ]
      ]

  -- Where paths with one absolute form name one file, which a link to a directory may break:
  -- `convert_one` reports a critical mutation of the source exactly when its script is there, the
  -- process was not stopped, and not all of the input and its companions that were there have the
  -- digests that they had.
  pub convert_one_critical :
      (inp ctype out cfg prg : Text) (disk : Disk)
      → Names disk
      → ((convert_one c inp ctype out cfg prg disk).0.error_code ≡ some critical_source_mutation)
        ↔ ((is_file disk c.script ≡ true)
            × ((process c inp ctype out cfg prg disk).0.timeout ≡ false)
            × (¬ IsIntact disk inp (process c inp ctype out cfg prg disk).1))
  unfolding convert_one
  convert_one_critical inp ctype out cfg prg disk names =
      let p = process c inp ctype out cfg prg disk in
      let same = verdict_iff disk inp p.1 names in
      elim (Bool-cases (is_file disk c.script)) [
        | inr lost ↦ rw lost (λ h. absurd (cc h), λ (h, _, _). absurd (cc h))
        | inl there ↦ elim (Bool-cases p.0.timeout) [
          | inl late ↦ rw (there, late) (λ h. absurd (cc h), λ (_, h, _). absurd (cc h))
          | inr done ↦
              rw (there, done)
                (
                  λ h. (refl, refl, λ i. absurd (cc (sym (same.1 i) ∙ error_of-critical _ _ _ h))),
                  λ (_, _, changed). critical-error_of _ _ _ (not_true _ (λ t. changed (same.0 t))),
                )
        ]
      ]

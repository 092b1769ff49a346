-- ===== src/Sync/Complete.antt =====
-- What the conversion of a project says of each file that is to be converted.
use mcp_vfp9sp2_toolchain.Base.{
  ◌≡◌, inl, inr, refl, Bool, true, false, Option, List, [], ◌∷◌, ◌++◌, ap, keep, All, All-map_imp,
  length, arith, if◌then◌else◌, any, Bool-cases, ◌==◌, ==_iff,
}
use mcp_vfp9sp2_toolchain.Base.Text.{Text, codes, text_eq, text_eq_refl}
use mcp_vfp9sp2_toolchain.Common.{Config, default_excludes}
use mcp_vfp9sp2_toolchain.Disk.{Disk}
use mcp_vfp9sp2_toolchain.Driver.{Converter, convert_one}
use mcp_vfp9sp2_toolchain.Walk.{Tree, tree, Subs, IsReached, is_walked}
use mcp_vfp9sp2_toolchain.Walk.Visits.{visited-All}
use mcp_vfp9sp2_toolchain.Sync.{
  FileResult, fail_count, converted_of, failed_of, summary, run_convert_dir, convert_loop,
  is_convertible, met, entry_of,
}
use mcp_vfp9sp2_toolchain.Sync.Counted.{fail_count-length}

abbrev pub has_text : Text → List Text → Bool
has_text x xs = any (text_eq x) xs

length_zero : (xs : List Text) → length xs ≡ 0 → xs ≡ []
length_zero [] h = refl
length_zero (x ∷ xs) h = absurd (omega (arith, h))

failed_of-nil : (rs : List FileResult) → (fail_count rs == 0) ≡ true → failed_of rs ≡ []
failed_of-nil rs h =
    length_zero (failed_of rs) (omega (arith, fail_count-length rs, (==_iff (fail_count rs) 0).0 h))

-- The files that are reported with this outcome.
abbrev pub files_with : Bool → List FileResult → List Text
files_with done results = if done then converted_of results else failed_of results

files_with-cons :
    (x : Text) (done : Bool) (e : FileResult) (results : List FileResult)
    → has_text x (files_with done results) ≡ true
    → has_text x (files_with done (e ∷ results)) ≡ true
files_with-cons x done e results h = elim (Bool-cases e.ok) [
  | inl ok ↦ elim (Bool-cases done) [
    | inl d ↦ rw (d, ok, keep) (ground (arith, rw d at h))
    | inr d ↦ rw (d, ok, keep) (rw d at h)
  ]
  | inr failed ↦ elim (Bool-cases done) [
    | inl d ↦ rw (d, failed, keep) (rw d at h)
    | inr d ↦ rw (d, failed, keep) (ground (arith, rw d at h))
  ]
]

files_with_head :
    (e : FileResult) (results : List FileResult)
    → has_text e.file (files_with e.ok (e ∷ results)) ≡ true
files_with_head e results = elim (Bool-cases e.ok) [
  | inl ok ↦ rw (ok, keep, text_eq_refl e.file) refl
  | inr failed ↦ rw (failed, keep, text_eq_refl e.file) refl
]

module _ (c : Converter) (relpath : Text → Text → Text) where
  -- The files after the conversions of these files, one after the other, where one that has no type
  -- to convert is passed over.
  abbrev pub converted : Text → Text → Text → List (Text × Text) → Disk → Disk
  converted out cfg prg [] disk = disk
  converted out cfg prg ((root, fn) ∷ fs) disk = converted out cfg prg fs (
      if is_convertible c relpath fn
      then (convert_one c (c.os.join_path root fn) (codes "BIN2PRG") out cfg prg disk).1
      else disk)

  -- Among the files, this one was converted from the files that the conversions of those before it
  -- left, and its success or failure is reported.
  pub record IsReported (project out cfg prg : Text) (disk : Disk) (fs : List (Text × Text))
      (results : List FileResult) (f : Text × Text) : Type 0 where
    pub earlier : List (Text × Text)
    pub after : List (Text × Text)
    pub place : fs ≡ earlier ++ f ∷ after
    pub listed :
        has_text (relpath (c.os.join_path f.0 f.1) project) (
          files_with
            (convert_one c
              (c.os.join_path f.0 f.1)
              (codes "BIN2PRG")
              out
              cfg
              prg
              (converted out cfg prg earlier disk)).0.ok
            results)
        ≡ true

  -- Nothing that is reported is lost by an entry before it, or by a file that is passed over.
  has_more :
      (project out cfg prg : Text) (root fn : Text) (e : FileResult) (disk : Disk)
      (fs : List (Text × Text)) (results : List FileResult) (f : Text × Text)
      → is_convertible c relpath fn ≡ true
      → IsReported project out cfg prg
          (convert_one c (c.os.join_path root fn) (codes "BIN2PRG") out cfg prg disk).1
          fs
          results
          f
      → IsReported project out cfg prg disk ((root, fn) ∷ fs) (e ∷ results) f
  has_more project out cfg prg root fn e disk fs results f taken r = record {
    earlier = (root, fn) ∷ r.earlier;
    after = r.after;
    place = ap (λ x. (root, fn) ∷ x) r.place;
    listed = rw taken (files_with-cons _ _ e results r.listed);
  }

  has_skipped :
      (project out cfg prg : Text) (root fn : Text) (disk : Disk) (fs : List (Text × Text))
      (results : List FileResult) (f : Text × Text)
      → is_convertible c relpath fn ≡ false
      → IsReported project out cfg prg disk fs results f
      → IsReported project out cfg prg disk ((root, fn) ∷ fs) results f
  has_skipped project out cfg prg root fn disk fs results f skipped r = record {
    earlier = (root, fn) ∷ r.earlier;
    after = r.after;
    place = ap (λ x. (root, fn) ∷ x) r.place;
    listed = rw skipped r.listed;
  }

  loop-reports :
      (project out cfg prg : Text) (fs : List (Text × Text)) (disk : Disk)
      → All
          (λ f.
            is_convertible c relpath f.1 ≡ true
            → IsReported project out cfg prg disk fs
                (convert_loop c relpath project out cfg prg fs disk).0
                f)
          fs
  unfolding convert_loop
  loop-reports project out cfg prg [] disk = tt
  loop-reports project out cfg prg ((root, fn) ∷ fs) disk =
      let fp = c.os.join_path root fn in
      let p = convert_one c fp (codes "BIN2PRG") out cfg prg disk in
      let e = entry_of c relpath project fp p.0 in
      let rest = (convert_loop c relpath project out cfg prg fs p.1).0 in
      let whole = (convert_loop c relpath project out cfg prg ((root, fn) ∷ fs) disk).0 in
      elim (Bool-cases (is_convertible c relpath fn)) [
        | inl taken ↦
            let unrolled : whole ≡ e ∷ rest = rw (taken, convert_loop) refl in
            (
              λ _. rw unrolled (record {
                earlier = [];
                after = fs;
                place = refl;
                listed = files_with_head e rest;
              }),
              All-map_imp fs
                  (λ f h k.
                    rw unrolled (has_more project out cfg prg root fn e disk fs rest f taken (h k)))
                  (loop-reports project out cfg prg fs p.1),
            )
        | inr skipped ↦
            let unrolled : whole ≡ (convert_loop c relpath project out cfg prg fs disk).0 =
              rw (skipped, convert_loop) refl in
            (
              λ h. absurd (cc h),
              All-map_imp fs
                  (λ f h k.
                    rw unrolled (has_skipped project out cfg prg root fn disk fs _ f skipped (h k)))
                  (loop-reports project out cfg prg fs disk),
            )
      ]

  -- Each file of a type that FoxBin2Prg converts, in a directory that is reached by directories that
  -- are not left out, is converted once the files before it are, and `run_convert_dir` names it
  -- among the converted files or the failed ones, as this conversion ended.
  pub run_convert_dir-IsReported :
      (config : Option Config) (project : Text) (t : Tree) (out cfg prg : Text) (disk : Disk)
      (q : Text) (files : List Text) (subs : Subs)
      → IsReached c.os.join_path
          (is_walked c.casing (default_excludes c.casing config))
          q
          (tree files subs)
          project
          t
      → All
          (λ fn.
            is_convertible c relpath fn ≡ true
            → IsReported project out cfg prg disk
                (met c relpath config project t)
                (run_convert_dir c relpath config project t out cfg prg disk).0.results
                (q, fn))
          files
  unfolding run_convert_dir summary
  run_convert_dir-IsReported config project t out cfg prg disk q files subs r =
      let P : Text × Text → Type 0 = λ f.
        is_convertible c relpath f.1 ≡ true
        → IsReported project out cfg prg disk (met c relpath config project t)
            (convert_loop c relpath project out cfg prg (met c relpath config project t) disk).0
            f in
      (visited-All c.os.join_path (is_walked c.casing (default_excludes c.casing config)) P project
          t).0
        (loop-reports project out cfg prg (met c relpath config project t) disk) q files subs r

  -- Among the files, this one was converted with success from the files that the conversions of
  -- those before it left, and it is among the converted files.
  pub record IsConverted (project out cfg prg : Text) (disk : Disk) (fs : List (Text × Text))
      (converted_files : List Text) (f : Text × Text) : Type 0 where
    pub earlier : List (Text × Text)
    pub after : List (Text × Text)
    pub place : fs ≡ earlier ++ f ∷ after
    pub succeeded :
        (convert_one c
          (c.os.join_path f.0 f.1)
          (codes "BIN2PRG")
          out
          cfg
          prg
          (converted out cfg prg earlier disk)).0.ok
        ≡ true
    pub listed : has_text (relpath (c.os.join_path f.0 f.1) project) converted_files ≡ true

  reported-IsConverted :
      (project out cfg prg : Text) (disk : Disk) (fs : List (Text × Text))
      (results : List FileResult) (f : Text × Text)
      → failed_of results ≡ []
      → IsReported project out cfg prg disk fs results f
      → IsConverted project out cfg prg disk fs (converted_of results) f
  reported-IsConverted project out cfg prg disk fs results f h r =
      elim (Bool-cases
        (convert_one c (c.os.join_path f.0 f.1) (codes "BIN2PRG") out cfg prg
          (converted out cfg prg r.earlier disk)).0.ok) [
            | inl done ↦ record {
              earlier = r.earlier;
              after = r.after;
              place = r.place;
              succeeded = done;
              listed = rw done at r.listed;
            }
            | inr lost ↦ absurd (cc (rw (lost, h) at r.listed))
          ]

  -- The conversions leave the files that the conversions of all, one after the other, leave.
  convert_loop-converted :
      (project out cfg prg : Text) (fs : List (Text × Text)) (disk : Disk)
      → (convert_loop c relpath project out cfg prg fs disk).1 ≡ converted out cfg prg fs disk
  unfolding convert_loop
  convert_loop-converted project out cfg prg [] disk = refl
  convert_loop-converted project out cfg prg ((root, fn) ∷ fs) disk =
      elim (Bool-cases (is_convertible c relpath fn)) [
        | inl taken ↦ rw (taken, convert_loop) (convert_loop-converted project out cfg prg fs _)
        | inr skipped ↦
            rw (skipped, convert_loop) (convert_loop-converted project out cfg prg fs disk)
      ]

  -- Where `run_convert_dir` ends well, each file of a type that FoxBin2Prg converts, in a directory
  -- that is reached by directories that are not left out, was converted with success, from the files
  -- that the conversions of those before it in the walk left, and is among the converted files that
  -- the command reports; and the files of the machine are what all these conversions leave.
  pub run_convert_dir-IsConverted :
      (config : Option Config) (project : Text) (t : Tree) (out cfg prg : Text) (disk : Disk)
      → (run_convert_dir c relpath config project t out cfg prg disk).0.ok ≡ true
      → ((q : Text) (files : List Text) (subs : Subs)
          → IsReached c.os.join_path
              (is_walked c.casing (default_excludes c.casing config))
              q
              (tree files subs)
              project
              t
          → All
              (λ fn.
                is_convertible c relpath fn ≡ true
                → IsConverted project out cfg prg disk
                    (met c relpath config project t)
                    (run_convert_dir c relpath config project t out cfg prg disk).0.converted_files
                    (q, fn))
              files)
        × ((run_convert_dir c relpath config project t out cfg prg disk).1
            ≡ converted out cfg prg (met c relpath config project t) disk)
  unfolding run_convert_dir summary
  run_convert_dir-IsConverted config project t out cfg prg disk h =
      let fs = met c relpath config project t in
      let results = (convert_loop c relpath project out cfg prg fs disk).0 in
      (
        λ q files subs r.
            All-map_imp files
              (λ fn given taken.
                reported-IsConverted project out cfg prg disk fs results (q, fn)
                  (failed_of-nil results h) (given taken))
              (run_convert_dir-IsReported config project t out cfg prg disk q files subs r),
        convert_loop-converted project out cfg prg fs disk,
      )

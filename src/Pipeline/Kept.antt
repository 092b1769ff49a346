-- ===== src/Pipeline/Kept.antt =====
-- The files that the checks of `cmd_validate` leave as they were: all but the four that they write
-- themselves, where the processes that they start leave them alone.
use mcp_vfp9sp2_toolchain.Base.{
  ◌≡◌, refl, inl, inr, Bool, true, false, Option, List, All, Bool-cases,
}
use mcp_vfp9sp2_toolchain.Base.Text.{text_eq, Text}
use mcp_vfp9sp2_toolchain.Disk.{Disk, is_file}
use mcp_vfp9sp2_toolchain.Driver.{Converter, process, convert_one}
use mcp_vfp9sp2_toolchain.Safety.{Outcome, ok, forbidden, empty_path}
use mcp_vfp9sp2_toolchain.Pipeline.Machine.{Code}
use mcp_vfp9sp2_toolchain.Pipeline.{
  Setting, write_reports, fail, require, or_fail, check_workspace, hash_source, check_copies,
  passed_or_fail, run_compile, check_compile, convert, run_roundtrip, check_roundtrip, status_file,
  compile_prg, report_json_path, report_md_path,
}
use mcp_vfp9sp2_toolchain.Pipeline.Validate.{
  read_sc2_text, check_static, find_source_sc2, check_inventories, check_source, checks,
  checked_files,
}
use mcp_vfp9sp2_toolchain.Pipeline.Keeps.{Keeps, kept, Keeps-runs}

-- The processes leave the file at a path as it was.
abbrev pub Untouched : Setting → Text → Type 0
Untouched s p =
    (cmd : List Text) (cwd : Option Text) (d : Disk) → (s.converter.run cmd cwd d).1 p ≡ d p

-- The path is none of these.
abbrev pub Differs : Text → List Text → Type 0
Differs p = All (λ q. text_eq q p ≡ false)

convert_one-kept :
    (c : Converter) (p : Text)
    → ((cmd : List Text) (cwd : Option Text) (d : Disk) → (c.run cmd cwd d).1 p ≡ d p)
    → (inp ctype out cfg prg : Text) (d : Disk) → (convert_one c inp ctype out cfg prg d).1 p ≡ d p
unfolding convert_one
convert_one-kept c p tools inp ctype out cfg prg d = elim (Bool-cases (is_file d c.script)) [
  | inr lost ↦ rw lost refl
  | inl there ↦ elim (Bool-cases (process c inp ctype out cfg prg d).0.timeout) [
    | inl late ↦ rw (there, late) (tools _ _ d)
    | inr done ↦ rw (there, done) (tools _ _ d)
  ]
]

module _ (s : Setting) (p : Text) (tools : Untouched s p)
    (other : Differs p (checked_files s)) where
  not_status : text_eq (status_file s) p ≡ false
  not_status = other.0

  not_prg : text_eq (compile_prg s) p ≡ false
  not_prg = other.1.0

  not_json : text_eq (report_json_path s) p ≡ false
  not_json = other.1.1.0

  not_md : text_eq (report_md_path s) p ≡ false
  not_md = other.1.1.1.0

  pub write_reports-kept : (b : Bool) (c : Option Code) → Keeps p (write_reports s b c)
  unfolding write_reports
  write_reports-kept b c = search (kept, not_json, not_md)

  fail-kept {ℓ} : (A : Type ℓ) (c : Code) → Keeps p (fail s {A = A} c)
  unfolding fail
  fail-kept A c = search (kept, write_reports-kept)

  or_fail-kept {ℓ} : {A : Type ℓ} (r : Outcome A) → Keeps p (or_fail s r)
  unfolding or_fail
  or_fail-kept (ok a) = search (kept)
  or_fail-kept (forbidden v) = search (kept, fail-kept)
  or_fail-kept empty_path = search (kept)

  require-kept : (b : Bool) (c : Code) → Keeps p (require s b c)
  unfolding require
  require-kept true c = search (kept)
  require-kept false c = search (kept, fail-kept)

  convert-kept : (inp : Text) → Keeps p (convert s inp)
  convert-kept inp = Keeps-runs p _ (convert_one-kept s.converter p tools inp _ _ _ _)

  pub checks-kept : Keeps p (checks s)
  unfolding checks check_workspace hash_source check_copies check_compile run_compile passed_or_fail
      check_roundtrip run_roundtrip check_static read_sc2_text find_source_sc2 check_inventories
      check_source
  checks-kept =
      search (kept, or_fail-kept, require-kept, convert-kept, tools, not_status, not_prg) depth 40

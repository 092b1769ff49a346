-- ===== src/Patching/Program.antt =====
-- vfp_refactor.py: `_find_form_class`, and `build_patch_prg`, the program that VFP9 runs to change
-- the methods of a form.
use mcp_vfp9sp2_toolchain.Base.{
  ℕ, zero, suc, ◌+◌, ◌-◌, ◌/◌, ◌%◌, true, false, Option, none, some, List, [], ◌∷◌, ◌++◌,
  if◌then◌else◌, is_empty, length, take, ltb,
}
use mcp_vfp9sp2_toolchain.Base.Text.{Text, codes, strip, join, Casing}
use mcp_vfp9sp2_toolchain.Balance.{Letters, after_keyword, at_boundary}
use mcp_vfp9sp2_toolchain.Encoding.{◌>>=◌, some_spaces}
use mcp_vfp9sp2_toolchain.Outline.{some_of}
use mcp_vfp9sp2_toolchain.Plan.{Patch, or_empty, vfp_string_literal}
use mcp_vfp9sp2_toolchain.Patched.{Promise}

-- A patch of a plan that names its object and its method.
pub record Edit : Type 0 where
  pub object_path : Text
  pub method : Text
  pub old_method_sha256 : Option Text
  pub new_code : Option Text
  pub new_method_sha256 : Option Text

-- What `check_preconditions` and `_verify_patched_methods` read of it.
abbrev pub patch_of : Edit → Patch
patch_of e = record {
  object_path = some e.object_path;
  method = some e.method;
  old_method_sha256 = e.old_method_sha256;
  new_code = e.new_code;
}

abbrev pub promise_of : Edit → Promise
promise_of e = record {
  object_path = some e.object_path;
  method = some e.method;
  new_method_sha256 = e.new_method_sha256;
}

-- `"%d"`, by as many rounds as the number is large
unfoldable pub decimal_loop : ℕ → ℕ → Text
decimal_loop zero n = []
decimal_loop (suc fuel) n =
    let rest = decimal_loop fuel (n / 10) in
    elim (ltb n 10) [ true ↦ (48 + n) ∷ [] | false ↦ rest ++ (48 + n % 10) ∷ [] ]

unfoldable pub decimal : ℕ → Text
unfolding decimal_loop
decimal n = decimal_loop (suc n) n

-- the first place of a text at which a pattern matches
unfoldable pub first_at : (Text → Option Text) → Text → Option Text
first_at here [] = here []
first_at here (c ∷ s) =
    let later = first_at here s in elim (here (c ∷ s)) [ some x ↦ some x | none ↦ later ]

module _ (letters : Letters) where
  -- `DEFINE\s+CLASS\s+(\w+)\s+AS\s+` at one place, and what stands behind it
  unfoldable pub class_at : Text → Option (Text × Text)
  unfolding after_keyword
  class_at s = do
    a ← after_keyword letters (codes "DEFINE") s
    b ← some_spaces a
    c ← after_keyword letters (codes "CLASS") b
    d ← some_spaces c
    (name, e) ← some_of letters.is_word d
    f ← some_spaces e
    g ← after_keyword letters (codes "AS") f
    h ← some_spaces g
    some (name, h)

  -- the two patterns, by their ends
  abbrev pub form_at : Text → Option Text
  form_at s = do
    (name, rest) ← class_at s
    more ← after_keyword letters (codes "Form") rest
    if at_boundary letters more then some name else none

  abbrev pub any_class_at : Text → Option Text
  any_class_at s = do
    (name, rest) ← class_at s
    (base, more) ← some_of letters.is_word rest
    some name

  -- `_find_form_class`
  unfoldable pub find_form_class : Text → Option Text
  unfolding first_at class_at
  find_form_class text = elim (first_at form_at text) [
    | some name ↦ some name
    | none ↦ first_at any_class_at text
  ]

abbrev pub quoted : Text → Text
quoted s = b'"' ∷ s ++ b'"' ∷ []

-- The lines that stop the program with a status.
abbrev pub stops_with : Text → Text → List Text
stops_with status err =
    (codes "  vfp_p_status = " ++ quoted status)
    ∷ (codes "  vfp_p_err = " ++ err)
    ∷ codes "  EXIT"
    ∷ codes "ENDIF"
    ∷ []

module _ (casing : Casing) where
  -- the lines that test the hash of the method, where the patch gives one
  unfoldable pub sha_lines : ℕ → Text → Text → List Text
  sha_lines i target old_sha =
      if is_empty old_sha
      then []
      else codes "' --- precondition: current method code must hash to the expected SHA256"
        ∷ (codes "IF UPPER(HASH(EVAL('"
            ++ (target ++ (codes "'))) <> '" ++ (old_sha ++ codes "'"))))
        ∷ stops_with (codes "PRECOND_MISMATCH_" ++ decimal i) (
            quoted
              (codes "current code of " ++ (target ++ codes " does not match oldMethodSha256")))

  -- the lines of one patch
  unfoldable pub patch_lines : Text → ℕ → Edit → List Text
  unfolding sha_lines decimal vfp_string_literal strip
  patch_lines owner i e =
      let target = owner ++ (b'.' ∷ e.object_path ++ b'.' ∷ e.method) in
      let new_code = strip (or_empty e.new_code) in
      let old_sha = casing.lower (or_empty e.old_method_sha256) in
      (codes "' --- patch " ++ (decimal i ++ (codes ": " ++ target)))
      ∷ (codes "IF TYPE('" ++ (target ++ codes "') = 'N'"))
      ∷ (stops_with (codes "OBJECT_NOT_FOUND_" ++ decimal i)
            (quoted (target ++ codes " not found in working copy"))
          ++ (sha_lines i target old_sha
              ++ ((target ++ (codes " = " ++ vfp_string_literal new_code))
                  ∷ codes "IF _VFP.SYS(16) > 0"
                  ∷ stops_with (codes "STORE_FAILED") (
                      quoted (e.object_path ++ (b'.' ∷ e.method ++ codes ": "))
                      ++ codes " + ALLTRIM(_VFP.SYS(16))"))))

  -- the loop over the patches
  unfoldable pub patches_lines : Text → ℕ → List Edit → List Text
  unfolding patch_lines
  patches_lines owner i [] = []
  patches_lines owner i (e ∷ edits) = patch_lines owner i e ++ patches_lines owner (i + 1) edits

  abbrev pub first_lines : Text → Text → List Text
  first_lines working_scx status_file =
      codes "SET TALK OFF"
      ∷ codes "SET SAFE OFF"
      ∷ codes "SET ESCAPE OFF"
      ∷ codes "SET SYS(2023, 0)"
      ∷ codes "SET SYS(1486, 0)"
      ∷ codes "PUBLIC vfp_p_status = \"OK\""
      ∷ codes "PUBLIC vfp_p_err = \"\""
      ∷ codes "DO vfp_patch_main"
      ∷ codes "IF vfp_p_status <> \"OK\""
      ∷ (codes "  = STRTOFILE("
          ++ (vfp_string_literal status_file
              ++ codes ", vfp_p_status + '|' + vfp_p_err, .F., .T.)"))
      ∷ codes "ELSE"
      ∷ (codes "  = STRTOFILE(" ++ (vfp_string_literal status_file ++ codes ", 'OK', .F., .T.)"))
      ∷ codes "ENDIF"
      ∷ codes "CLEAR PROCEDURE"
      ∷ codes "SET TALK ON"
      ∷ codes "SET SAFE ON"
      ∷ codes "SET ESCAPE ON"
      ∷ codes "CLEAR ALL"
      ∷ codes "vfp_p_status = NULL"
      ∷ codes "vfp_p_err = NULL"
      ∷ codes "FUNCTION vfp_patch_main"
      ∷ []
      ∷ codes "' --- open the workspace COPY as a procedure (SCX table + SCT memo)"
      ∷ (codes "SET PROCEDURE TO " ++ (vfp_string_literal working_scx ++ codes " EXCLUSIVE"))
      ∷ codes "IF _VFP.SYS(16) > 0"
      ∷ (stops_with (codes "OPEN_PROC_FAILED") (codes "ALLTRIM(_VFP.SYS(16))") ++ [] ∷ [])

  abbrev pub last_lines : Text → List Text
  last_lines working_scx =
      []
      ∷ codes "' --- save: VFP9 rewrites SCX and SCT together (workspace copy only)"
      ∷ (codes "SET PROCEDURE TO " ++ vfp_string_literal working_scx)
      ∷ (codes "SAVE TO "
          ++ (vfp_string_literal (take (length working_scx - 4) working_scx)
              ++ codes " TYPE FormClass"))
      ∷ codes "IF _VFP.SYS(16) > 0"
      ∷ codes "  vfp_p_status = \"SAVE_FAILED\""
      ∷ codes "  vfp_p_err = ALLTRIM(_VFP.SYS(16))"
      ∷ codes "ENDIF"
      ∷ codes "SET PROCEDURE TO "
      ∷ []
      ∷ codes "ENDFUNC"
      ∷ []

  -- The text of `build_patch_prg`; the owner is `form_class or form_stem`.
  unfoldable pub build_patch_prg : Text → Text → Text → List Edit → Text
  unfolding patches_lines
  build_patch_prg working_scx status_file owner edits = join (codes "\r\n") (
      first_lines working_scx status_file
      ++ (patches_lines owner 0 edits ++ last_lines working_scx))

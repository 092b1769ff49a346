-- ===== src/Plan.antt =====
-- vfp_refactor.py, the parts that decide on a plan: `check_preconditions`, which compares the
-- methods that a text holds with those that the patches expect, and `_vfp_string_literal`, which
-- quotes new code for the generated program.
pub mod Met
pub mod Literal
mod Tests
use mcp_vfp9sp2_toolchain.Base.{
  ℕ, ◌+◌, Bool, true, false, not, ◌&&◌, Option, none, some, List, [], ◌∷◌, ◌++◌, ◌==◌,
  if◌then◌else◌, is_empty, keep,
}
use mcp_vfp9sp2_toolchain.Base.Text.{Text, codes, text_eq, Casing}
use mcp_vfp9sp2_toolchain.MethodParser.{Method, parse_methods}

-- A patch of the plan; a field that the JSON object lacks, or that is null, is none.
pub record Patch : Type 0 where
  pub object_path : Option Text
  pub method : Option Text
  pub old_method_sha256 : Option Text
  pub new_code : Option Text

pub data ErrorCode : Type 0 where
  method_not_found plan_schema_invalid patch_precondition_failed : ErrorCode

-- What is reported of one patch; the hashes stand there when one method has the name.
pub record Report : Type 0 where
  pub index : ℕ
  pub object_path : Option Text
  pub method : Option Text
  pub found : Bool
  pub ok : Bool
  pub error_code : Option ErrorCode
  pub sha256s : Option (Text × Text)

-- `s or ""`
abbrev pub or_empty : Option Text → Text
or_empty none = []
or_empty (some s) = s

-- `entry["errorCode"]` of a patch whose method is found once, by the hashes
abbrev pub compared : Text → Text → Option ErrorCode
compared actual expected =
    if is_empty expected
    then some plan_schema_invalid
    else if not (text_eq actual expected)
    then some patch_precondition_failed
    else none

abbrev pub is_none {ℓ} : {A : Type ℓ} → Option A → Bool
is_none none = true
is_none (some a) = false

module _ (casing : Casing) where
  abbrev pub is_named : Patch → Method → Bool
  is_named p m = text_eq (casing.lower m.name) (casing.lower (or_empty p.method))

  abbrev pub expected_sha256 : Patch → Text
  expected_sha256 p = casing.lower (or_empty p.old_method_sha256)

  refused : ℕ → Patch → Bool → Report
  refused i p found = record {
    index = i;
    object_path = p.object_path;
    method = p.method;
    found = found;
    ok = false;
    error_code = some method_not_found;
    sha256s = none;
  }

  -- One round of the loop, by the candidates; whether it leaves `ok` alone, and the entry.
  unfoldable pub check_candidates : ℕ → Patch → List Method → Bool × Report
  unfolding refused
  check_candidates i p [] = (false, refused i p false)
  check_candidates i p (m ∷ n ∷ others) = (false, refused i p true)
  check_candidates i p (m ∷ []) =
      let code = compared m.source_sha256 (expected_sha256 p) in
      (
        is_none code,
        record {
          index = i;
          object_path = p.object_path;
          method = p.method;
          found = true;
          ok = is_none code;
          error_code = code;
          sha256s = some (m.source_sha256, expected_sha256 p);
        },
      )

  unfoldable pub check_loop : List Method → ℕ → List Patch → Bool × List Report
  check_loop methods i [] = (true, [])
  check_loop methods i (p ∷ patches) =
      let (keeps, entry) = check_candidates i p (keep (is_named p) methods) in
      let (ok, entries) = check_loop methods (i + 1) patches in (keeps && ok, entry ∷ entries)

  -- `check_preconditions`; its third argument is not used
  unfoldable pub check_preconditions : (Text → Text) → Text → List Patch → Bool × List Report
  unfolding check_loop check_candidates
  check_preconditions sha256 sc2_text patches =
      check_loop (parse_methods casing sha256 sc2_text) 0 patches

-- `s.replace("'", "''")`
unfoldable pub double_quotes : Text → Text
double_quotes [] = []
double_quotes (c ∷ s) = let rest = double_quotes s in if c == b'\'' then c ∷ c ∷ rest else c ∷ rest

-- `_vfp_string_literal`
unfoldable pub vfp_string_literal : Text → Text
unfolding double_quotes
vfp_string_literal s = b'\'' ∷ double_quotes s ++ b'\'' ∷ []

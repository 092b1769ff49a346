-- ===== src/Patched.antt =====
-- vfp_refactor.py: `_verify_patched_methods`, which reads the text of a patched form again and
-- compares the hashes of its methods with those that the patches promise.
pub mod Last
mod Tests
use mcp_vfp9sp2_toolchain.Base.{
  Bool, true, false, not, ◌&&◌, Option, none, some, List, [], ◌∷◌, ◌++◌, if◌then◌else◌,
}
use mcp_vfp9sp2_toolchain.Base.Text.{Text, text_eq, Casing}
use mcp_vfp9sp2_toolchain.Disk.{Disk, File}
use mcp_vfp9sp2_toolchain.MethodParser.{Method, parse_methods}

-- A patch of the plan, as this function reads it.
pub record Promise : Type 0 where
  pub object_path : Option Text
  pub method : Option Text
  pub new_method_sha256 : Option Text

-- The entry of one patch in `methods`.
pub record Seen : Type 0 where
  pub object_path : Text
  pub method : Text
  pub expected_sha256 : Option Text
  pub actual_sha256 : Option Text
  pub ok : Bool

-- A text that is not there, or the entries and whether all are good.
pub data Checked : Type 0 where
  no_text : Checked
  checked : Bool → List Seen → Checked

-- `result["ok"]`
abbrev pub passes : Checked → Bool
passes no_text = false
passes (checked ok seen) = ok

abbrev pub or_none : Option Text → Text
or_none none = []
or_none (some s) = s

-- `expected is None or actual == expected`, of a method that is found
abbrev pub is_kept : Option Text → Text → Bool
is_kept none actual = true
is_kept (some expected) actual = text_eq actual expected

module _ (casing : Casing) where
  abbrev pub has_name : Text → Method → Bool
  has_name name m = text_eq (casing.lower m.name) name

  -- `found`, after the loop over the methods that comes from `found`
  unfoldable pub find_last : Text → Option Method → List Method → Option Method
  find_last name found [] = found
  find_last name found (m ∷ methods) =
      find_last name (if has_name name m then some m else found) methods

  unfoldable pub see : List Method → Promise → Seen
  see methods p =
      let name = casing.lower (or_none p.method) in
      let found = find_last name none methods in
      record {
        object_path = casing.upper (or_none p.object_path);
        method = name;
        expected_sha256 = p.new_method_sha256;
        actual_sha256 = elim found [ none ↦ none | some m ↦ some m.source_sha256 ];
        ok = elim found [ none ↦ false | some m ↦ is_kept p.new_method_sha256 m.source_sha256 ];
      }

  unfoldable pub see_all : List Method → List Promise → Bool × List Seen
  see_all methods [] = (true, [])
  see_all methods (p ∷ promises) =
      let (ok, seen) = see_all methods promises in
      let one = see methods p in (one.ok && ok, one ∷ seen)

  -- `_verify_patched_methods`; the path of the text and how it is decoded are arguments
  unfoldable pub verify_patched_methods :
      (Text → Text) → (File → Text) → Text → List Promise → Disk → Checked
  verify_patched_methods sha256 decode path promises disk = elim (disk path) [
    | none ↦ no_text
    | some f ↦
        let (ok, seen) = see_all (parse_methods casing sha256 (decode f)) promises in
        checked ok seen
  ]

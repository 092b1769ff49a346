-- ===== src/Patching/Load.antt =====
-- vfp_refactor.py: `load_plan`, which reads a plan and lists what is wrong with it. The JSON reader
-- and the floating-point numbers are parameters.
use mcp_vfp9sp2_toolchain.Base.{
  ℕ, zero, suc, ◌+◌, ◌==◌, within, Bool, true, false, not, ◌&&◌, ◌||◌, Option, none, some, List, [],
  ◌∷◌, ◌++◌, is_empty, if◌then◌else◌,
}
use mcp_vfp9sp2_toolchain.Base.Text.{Text, codes, text_eq}
use mcp_vfp9sp2_toolchain.Disk.{Disk, File}
use mcp_vfp9sp2_toolchain.Patching.Program.{decimal}

-- The floating-point numbers of the reader, and whether one is equal to 0 or to 1.
pub record Reals : Type 1 where
  pub Real : Type 0
  pub is_zero : Real → Bool
  pub is_one : Real → Bool

-- A value as `json.load` gives it: an integer has its sign first, and a key of an object stands once.
mutual
  pub data Json (R : Reals) : Type 0 where
    null : Json R
    boolean : Bool → Json R
    integer : Bool → ℕ → Json R
    real : R.Real → Json R
    text : Text → Json R
    array : Items R → Json R
    object : Fields R → Json R

  pub data Items (R : Reals) : Type 0 where
    no_item : Items R
    item : Json R → Items R → Items R

  pub data Fields (R : Reals) : Type 0 where
    no_field : Fields R
    field : Text → Json R → Fields R → Fields R

-- What `errors` says.
pub data PlanError : Type 0 where
  plan_not_found : PlanError
  not_json : PlanError
  not_object : PlanError
  wrong_version : PlanError
  no_source_form : PlanError
  no_workspace : PlanError
  no_patches : PlanError
  missing_field : ℕ → Text → PlanError
  not_sha256 : ℕ → PlanError

-- `[0-9a-fA-F]`
abbrev pub is_hex : ℕ → Bool
is_hex c = within 48 57 c || (within 97 102 c || within 65 70 c)

-- As many digits, and the end of the text, or a line break that ends it.
unfoldable pub hex_digits : ℕ → Text → Bool
hex_digits zero [] = true
hex_digits zero (c ∷ s) = c == 10 && is_empty s
hex_digits (suc n) [] = false
hex_digits (suc n) (c ∷ s) = is_hex c && hex_digits n s

abbrev pub required_fields : List Text
required_fields =
    codes "objectPath" ∷ codes "method" ∷ codes "oldMethodSha256" ∷ codes "newCode" ∷ []

-- The error, where the test fails.
abbrev pub unless : Bool → PlanError → List PlanError
unless ok e = if ok then [] else e ∷ []

-- The errors of two parts; none where one raises.
abbrev pub both_errors : Option (List PlanError) → Option (List PlanError) → Option (List PlanError)
both_errors (some a) (some b) = some (a ++ b)
both_errors _ _ = none

module _ {R : Reals} where
  -- `get`
  unfoldable pub get : Text → Fields R → Option (Json R)
  get key no_field = none
  get key (field k v fields) = if text_eq k key then some v else get key fields

  -- whether a value is there, and Python takes it for true
  abbrev pub is_truthy : Option (Json R) → Bool
  is_truthy none = false
  is_truthy (some null) = false
  is_truthy (some (boolean b)) = b
  is_truthy (some (integer sign n)) = not (n == 0)
  is_truthy (some (real x)) = not (R.is_zero x)
  is_truthy (some (text s)) = not (is_empty s)
  is_truthy (some (array no_item)) = false
  is_truthy (some (array (item v items))) = true
  is_truthy (some (object no_field)) = false
  is_truthy (some (object (field k v fields))) = true

  -- `== 1`, which True and 1.0 are too
  abbrev pub is_version : Option (Json R) → Bool
  is_version (some (integer false n)) = n == 1
  is_version (some (boolean b)) = b
  is_version (some (real x)) = R.is_one x
  is_version _ = false

  -- The pattern on the `str` of a value: that of another than a text or a positive integer holds a
  -- sign, a point or a bracket, or is shorter.
  abbrev pub is_sha256 : Json R → Bool
  is_sha256 (text s) = hex_digits 64 s
  is_sha256 (integer false n) = hex_digits 64 (decimal n)
  is_sha256 _ = false

  -- `is not None and not re.match(...)`, the other way round
  abbrev pub hash_fits : Option (Json R) → Bool
  hash_fits none = true
  hash_fits (some null) = true
  hash_fits (some v) = is_sha256 v

  abbrev pub is_there : Option (Json R) → Bool
  is_there none = false
  is_there (some v) = true

  unfoldable pub missing_loop : ℕ → Fields R → List Text → List PlanError
  missing_loop i p [] = []
  missing_loop i p (name ∷ names) =
      unless (is_there (get name p)) (missing_field i name) ++ missing_loop i p names

  -- the errors of one patch; none where the code raises, since it is no object
  unfoldable pub patch_errors : ℕ → Json R → Option (List PlanError)
  patch_errors i (object p) = some (
      missing_loop i p required_fields
      ++ unless (hash_fits (get (codes "oldMethodSha256") p)) (not_sha256 i))
  patch_errors i _ = none

  unfoldable pub items_errors : ℕ → Items R → Option (List PlanError)
  items_errors i no_item = some []
  items_errors i (item p items) = both_errors (patch_errors i p) (items_errors (i + 1) items)

  abbrev pub patches_errors : Option (Json R) → Option (List PlanError)
  patches_errors (some (array (item p items))) = items_errors 0 (item p items)
  patches_errors _ = some (no_patches ∷ [])

  -- the errors of the three fields before the patches
  abbrev pub head_errors : Fields R → List PlanError
  head_errors plan =
      unless (is_version (get (codes "schemaVersion") plan)) wrong_version
      ++ (unless (is_truthy (get (codes "sourceForm") plan)) no_source_form
          ++ unless (is_truthy (get (codes "workspace") plan)) no_workspace)

  -- `errors`, after the checks of an object
  unfoldable pub plan_errors : Fields R → Option (List PlanError)
  plan_errors plan =
      both_errors (some (head_errors plan)) (patches_errors (get (codes "patches") plan))

-- The two results of `load_plan`, or that it raises.
pub data Loaded (R : Reals) : Type 0 where
  raises : Loaded R
  loaded : Option (Fields R) → List PlanError → Loaded R

module _ {R : Reals} (read_json : File → Option (Json R)) where
  abbrev pub checked_plan : Fields R → Loaded R
  checked_plan plan = elim (plan_errors plan) [
    | none ↦ raises
    | some errors ↦ loaded (some plan) errors
  ]

  abbrev pub plan_in : Option (Json R) → Loaded R
  plan_in none = loaded none (not_json ∷ [])
  plan_in (some (object plan)) = checked_plan plan
  plan_in (some _) = loaded none (not_object ∷ [])

  -- `load_plan`
  unfoldable pub load_plan : Text → Disk → Loaded R
  load_plan path disk = elim (disk path) [
    | none ↦ loaded none (plan_not_found ∷ [])
    | some f ↦ plan_in (read_json f)
  ]

-- ===== src/Common.antt =====
-- vfp_common.py: which directories a walk of a project leaves out, and which files belong to a
-- binary. The configuration is what `_load_config` reads of config.json, or none.
use mcp_vfp9sp2_toolchain.Base.{
  Bool, false, not, ◌&&◌, ◌||◌, Option, none, some, List, [], ◌∷◌, ◌++◌, map, if◌then◌else◌, any,
  is_empty, keep,
}
use mcp_vfp9sp2_toolchain.Base.Text.{Text, codes, text_eq, starts_with, strip, Casing}
use mcp_vfp9sp2_toolchain.Base.OsPath.{Platform}

abbrev pub builtin_excludes : List Text
builtin_excludes =
    codes ".git"
    ∷ codes ".vfp-ai"
    ∷ codes "backup"
    ∷ codes "backups"
    ∷ codes "archive"
    ∷ codes "tmp"
    ∷ codes "node_modules"
    ∷ codes "__pycache__"
    ∷ []

-- The part of config.json that is read here; a missing key, or null, is none.
pub record Config : Type 0 where
  pub default_excludes : Option (List Text)
  pub program_file : Option Text
  pub directory_variable : Option Text
  pub directory_default : Option Text

-- `(x or "").strip().lower() for x in raw if x and x.strip()`
abbrev pub cleaned : Casing → List Text → List Text
cleaned casing raw =
    map (λ x. casing.lower (strip x)) (keep (λ x. not (is_empty x) && not (is_empty (strip x))) raw)

-- `x or y` of a text, and of a text that may be missing
abbrev pub or_text : Option Text → Text → Text
or_text none y = y
or_text (some x) y = if is_empty x then y else x

abbrev pub is_set : Option Text → Bool
is_set none = false
is_set (some x) = not (is_empty x)

module _ (casing : Casing) where
  unfoldable pub default_excludes : Option Config → List Text
  unfolding strip
  default_excludes config =
      let raw : List Text = elim config [
        | none ↦ []
        | some c ↦ elim c.default_excludes [ none ↦ [] | some xs ↦ xs ]
      ] in
      let items = cleaned casing raw in if is_empty items then builtin_excludes else items

  unfoldable pub should_skip_dir : Option Config → Text → Bool
  unfolding default_excludes starts_with text_eq
  should_skip_dir config name =
      is_empty name
      || starts_with name (codes ".")
      || any (text_eq (casing.lower name)) (default_excludes config)

-- COMPANIONS
abbrev pub companions : List (Text × List Text)
companions =
    (codes ".scx", codes ".sct" ∷ [])
    ∷ (codes ".vcx", codes ".vct" ∷ [])
    ∷ (codes ".frx", codes ".frt" ∷ [])
    ∷ (codes ".mnx", codes ".mnt" ∷ [])
    ∷ (codes ".pjx", codes ".pjt" ∷ [])
    ∷ (codes ".dbf", codes ".fpt" ∷ [])
    ∷ (codes ".lbx", codes ".lbt" ∷ [])
    ∷ (codes ".dbc", codes ".dcx" ∷ codes ".dct" ∷ [])
    ∷ []

-- `COMPANIONS.get(ext, ())`
unfoldable pub companions_in : List (Text × List Text) → Text → List Text
unfolding text_eq
companions_in [] ext = []
companions_in ((e, cs) ∷ rest) ext = if text_eq e ext then cs else companions_in rest ext

module _ (os : Platform) (casing : Casing) where
  unfoldable pub required_companions : Text → List Text
  unfolding companions_in
  required_companions path =
      let (base, ext) = os.splitext path in
      map (λ c. base ++ c) (companions_in companions (casing.lower ext))

  -- `is_file` is `os.path.isfile`
  unfoldable pub missing_companions : (Text → Bool) → Text → List Text
  missing_companions is_file path = keep (λ p. not (is_file p)) (required_companions path)

-- What `foxbin2prg_program` asks of the system.
pub record Places : Type 0 where
  -- `os.environ.get`
  pub variable : Text → Option Text
  pub isabs : Text → Bool
  pub normpath : Text → Text
  -- the directory of the module
  pub here : Text

module _ (os : Platform) (places : Places) where
  -- The directory that the environment names, or else the configuration.
  unfoldable pub program_directory : Config → Text
  program_directory config =
      let first = places.variable (codes "VFP_FOXBIN2PRG_DIR") in
      let second : Option Text = elim config.directory_variable [
        | none ↦ none
        | some v ↦ if is_empty v then none else places.variable v
      ] in
      if is_set first
      then or_text first []
      else if is_set second
      then or_text second []
      else or_text config.directory_default (os.join_path (codes "tools") (codes "foxbin2prg"))

  abbrev pub empty_config : Config
  empty_config = record {
    default_excludes = none;
    program_file = none;
    directory_variable = none;
    directory_default = none;
  }

  unfoldable pub foxbin2prg_program : Option Config → Text
  unfolding program_directory
  foxbin2prg_program config =
      let c : Config = elim config [ none ↦ empty_config | some c ↦ c ] in
      let d = program_directory c in
      os.join_path (if places.isabs d then d else places.normpath (os.join_path places.here d))
        (or_text c.program_file (codes "foxbin2prg.prg"))

-- ===== src/Safety.antt =====
-- vfp_safety.py, first part: canonical paths and `PathSafetyGuard`. The platform's path functions
-- and the case mappings are parameters; which directories exist is an argument.
pub mod Under
pub mod Guard
pub mod Tests
use mcp_vfp9sp2_toolchain.Base.{
  ℕ, Bool, true, false, not, ◌&&◌, ◌||◌, none, some, [], ◌∷◌, ◌++◌, map, within, ◌==◌,
  if◌then◌else◌, is_empty, drop,
}
use mcp_vfp9sp2_toolchain.Base.Text.{Text, text_eq, starts_with, strip, rstrip, Casing}
use mcp_vfp9sp2_toolchain.Base.OsPath.{Platform}

-- What the module reads of its surroundings.
pub record Host : Type 0 where
  pub platform : Platform
  pub casing : Casing
  -- `os.environ.get("VFP_SAFETY_FORCE_LOWER")` is set
  pub force_lower : Bool

-- The violations that `SourcePathWriteError` reports, one for each message.
pub data Violation : Type 0 where
  roots_required source_missing workspace_missing same_directory : Violation
  workspace_in_source source_in_workspace : Violation
  target_empty target_in_source target_outside : Violation

-- A call returns, or raises `SourcePathWriteError`, or raises `ValueError("empty path")`.
pub data Outcome {ℓ} (A : Type ℓ) : Type ℓ where
  ok : A → Outcome A
  forbidden : Violation → Outcome A
  empty_path : Outcome A

infixl 5 ◌>>=◌
abbrev pub ◌>>=◌ {ℓ κ} : {R : Type κ} {S : Type ℓ} → Outcome R → (R → Outcome S) → Outcome S
empty_path >>= next = empty_path
forbidden reason >>= next = forbidden reason
ok value >>= next = next value

-- `if test: raise SourcePathWriteError(...)`
abbrev pub raise_if {ℓ} : {A : Type ℓ} → Bool → Violation → Outcome A → Outcome A
raise_if true v rest = forbidden v
raise_if false v rest = rest

-- `s.replace(a, b)` of one character
abbrev pub replace_char : ℕ → ℕ → Text → Text
replace_char a b = map (λ c. if c == a then b else c)

abbrev is_letter : ℕ → Bool
is_letter c = within b'A' b'Z' c || within b'a' b'z' c

-- `_DRIVES_RE.match(s)`: a letter, a colon and a separator
unfoldable pub has_drive : Text → Bool
has_drive (a ∷ b ∷ c ∷ rest) = is_letter a && b == b':' && (c == b'\\' || c == b'/')
has_drive _ = false

module _ (host : Host) where
  open host use {platform, casing, force_lower}

  -- `s[0].upper() + ":" + s[2:]`
  drive_upper : Text → Text
  drive_upper [] = []
  drive_upper (a ∷ rest) = casing.upper (a ∷ []) ++ (b':' ∷ drop 1 rest)

  resolved : Text → Text
  resolved s = elim (platform.realpath s) [ none ↦ s | some r ↦ r ]

  unfoldable pub canonicalize_path : Text → Outcome Text
  unfolding has_drive drive_upper resolved
  canonicalize_path p =
      if is_empty p || is_empty (strip p)
      then empty_path
      else let s = resolved (platform.abspath p) in
        if platform.nt
        then (let back = replace_char b'/' b'\\' s in
            ok (casing.lower (if has_drive back then drive_upper back else back)))
        else ok (if force_lower then casing.lower (replace_char b'\\' b'/' s) else s)

  -- The separator that the tests of `is_under` use.
  abbrev pub sep : ℕ
  sep = if platform.nt then b'\\' else b'/'

  unfoldable pub is_under : Text → Text → Outcome Bool
  is_under path root = do
    p ← canonicalize_path path
    r ← canonicalize_path root
    ok (let r' = rstrip (λ c. c == sep) r in text_eq p r' || starts_with p (r' ++ sep ∷ []))

  unfoldable pub are_same : Text → Text → Outcome Bool
  are_same a b = do p ← canonicalize_path a; q ← canonicalize_path b; ok (text_eq p q)

-- The two roots, canonical.
pub record PathSafetyGuard : Type 0 where
  pub source : Text
  pub workspace : Text

module _ (host : Host) where
  -- `PathSafetyGuard(source_dir, workspace_dir)`; `is_dir` is `os.path.isdir`
  unfoldable pub make_guard : (Text → Bool) → Text → Text → Outcome PathSafetyGuard
  make_guard is_dir source_dir workspace_dir =
      raise_if (is_empty source_dir || is_empty workspace_dir) roots_required (
        raise_if (not (is_dir source_dir)) source_missing (
          raise_if (not (is_dir workspace_dir)) workspace_missing (do
            source ← canonicalize_path host source_dir
            workspace ← canonicalize_path host workspace_dir
            same ← are_same host source workspace
            inside ← raise_if same same_directory (is_under host workspace source)
            outside ← raise_if inside workspace_in_source (is_under host source workspace)
            raise_if outside source_in_workspace
                (ok (record { source = source; workspace = workspace })))))

  -- `_check_target`, which `assert_writable` and `assert_workspace` call
  unfoldable pub check_target : PathSafetyGuard → Text → Outcome (Unit {0})
  check_target guard target = raise_if (is_empty target) target_empty (do
    inside ← is_under host target guard.source
    in_workspace ← raise_if inside target_in_source (is_under host target guard.workspace)
    raise_if (not in_workspace) target_outside (ok tt))

  -- `is_writable` catches `SourcePathWriteError` alone.
  unfoldable pub is_writable : PathSafetyGuard → Text → Outcome Bool
  is_writable guard target = elim (check_target guard target) [
    | ok _ ↦ ok true
    | forbidden _ ↦ ok false
    | empty_path ↦ empty_path
  ]

  unfoldable pub safe : (Text → Bool) → PathSafetyGuard → Bool
  safe is_dir guard = is_dir guard.source && is_dir guard.workspace

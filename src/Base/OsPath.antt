-- ===== src/Base/OsPath.antt =====
-- What the program uses of `os.path`: a record of the platform's functions, and the POSIX ones.
use Prim.Native.Nat.{ℕ}
use mathlib.Core.Path.{◌≡◌, refl}
use mathlib.Core.Bool.{Bool, false}
use mathlib.Core.List.{[], ◌∷◌, ◌++◌}
use mathlib.Core.Option.{Option, none, some}
use mcp_vfp9sp2_toolchain.Base.Tests.{◌==◌, if◌then◌else◌}
use mcp_vfp9sp2_toolchain.Base.Lists.{is_empty}
use mcp_vfp9sp2_toolchain.Base.Text.{Text, codes, starts_with}

pub record Platform : Type 0 where
  -- `os.name == "nt"`
  pub nt : Bool
  pub abspath : Text → Text
  -- `none` is an `OSError`
  pub realpath : Text → Option Text
  pub basename : Text → Text
  pub dirname : Text → Text
  pub splitext : Text → Text × Text
  pub join_path : Text → Text → Text

-- The text before and behind the last `c`.
unfoldable pub split_last : ℕ → Text → Option (Text × Text)
split_last c [] = none
split_last c (x ∷ s) = elim (split_last c s) [
  | some (a, b) ↦ some (x ∷ a, b)
  | none ↦ if x == c then some ([], s) else none
]

split_core : Text → Text × Text
split_core s = elim (split_last b'.' s) [ none ↦ (s, []) | some (a, b) ↦ (a, b'.' ∷ b) ]

-- A file name as root and extension: leading dots belong to the root.
name_ext : Text → Text × Text
unfolding split_core
name_ext [] = ([], [])
name_ext (c ∷ s) =
    let (root, ext) = name_ext s in if c == b'.' then (c ∷ root, ext) else split_core (c ∷ s)

-- `posixpath.basename`
unfoldable pub posix_basename : Text → Text
unfolding split_last
posix_basename p = elim (split_last b'/' p) [ none ↦ p | some (_, b) ↦ b ]

-- `posixpath.splitext`
unfoldable pub posix_splitext : Text → Text × Text
unfolding split_last name_ext
posix_splitext p = elim (split_last b'/' p) [
  | none ↦ name_ext p
  | some (d, b) ↦ let (root, ext) = name_ext b in (d ++ b'/' ∷ root, ext)
]

-- `posixpath.join` of two parts
unfoldable pub posix_join : Text → Text → Text
unfolding split_last
posix_join a b = if starts_with b (codes "/") then b else elim (split_last b'/' a) [
  | none ↦ if is_empty a then b else a ++ b'/' ∷ b
  | some (d, rest) ↦ if is_empty rest then a ++ b else a ++ b'/' ∷ b
]

splitext_values :
    (posix_splitext (codes "/a.b/c.tar.CDX") ≡ (codes "/a.b/c.tar", codes ".CDX"))
    × (posix_splitext (codes "x/..rc") ≡ (codes "x/..rc", []))
    × (posix_basename (codes "x/y.idx") ≡ codes "y.idx")
    × (posix_join (codes "x") (codes "y") ≡ codes "x/y")
unfolding posix_splitext posix_basename posix_join starts_with
splitext_values = (refl, refl, refl, refl)

unfoldable pub posix_dirname : Text → Text
unfolding split_last
posix_dirname p = elim (split_last b'/' p) [
  | none ↦ []
  | some (d, _) ↦ if is_empty d then codes "/" else d
]

-- A platform for the tests: POSIX, in a file system without links, at the root directory.
abbrev pub posix : Platform
posix = record {
  nt = false;
  abspath = λ p. posix_join (codes "/") p;
  realpath = λ p. some p;
  basename = posix_basename;
  dirname = posix_dirname;
  splitext = posix_splitext;
  join_path = posix_join;
}

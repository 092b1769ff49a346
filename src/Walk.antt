-- ===== src/Walk.antt =====
-- `os.walk` over a directory, as the driver, the indexer and the snapshot of a tree use it: the
-- directories that a test leaves out are taken from `dirs`, and the files of a directory are sorted.
-- A tree holds what the listing of each directory gives when the walk comes to it, in that order; a
-- link to a directory, which the walk does not follow, is left out of it.
pub mod Visits
mod Tests
use mcp_vfp9sp2_toolchain.Base.{
  Bool, true, not, ◌&&◌, ◌≡◌, List, [], ◌∷◌, ◌++◌, map, if◌then◌else◌, any,
}
use mcp_vfp9sp2_toolchain.Base.Text.{Text, codes, text_eq, starts_with, Casing}
use mcp_vfp9sp2_toolchain.Base.Table.{sorted}
use mcp_vfp9sp2_toolchain.Inventory.{text_le, collect}

mutual
  -- The files of a directory, and its directories by name.
  pub data Tree : Type 0 where
    tree : List Text → Subs → Tree

  pub data Subs : Type 0 where
    no_subs : Subs
    sub : Text → Tree → Subs → Subs

-- The directory has a directory with this name.
pub data IsSub (name : Text) (t : Tree) : Subs → Type 0 where
  first : (rest : Subs) → IsSub name t (sub name t rest)
  later : (n : Text) (u : Tree) {rest : Subs} → IsSub name t rest → IsSub name t (sub n u rest)

-- `not d.startswith(".") and d.lower() not in excl`
unfoldable pub is_walked : Casing → List Text → Text → Bool
unfolding starts_with text_eq
is_walked casing excl d =
    not (starts_with d (codes ".")) && not (any (text_eq (casing.lower d)) excl)

-- `join_path` is `os.path.join`, and `walked` the test on the name of a directory.
module _ (join_path : Text → Text → Text) (walked : Text → Bool) where
  unfoldable mutual
    -- The directories in the order of the walk, each with its path and its files.
    pub walk : Text → Tree → List (Text × List Text)
    walk root (tree files subs) = (root, files) ∷ walk_subs root subs

    pub walk_subs : Text → Subs → List (Text × List Text)
    walk_subs root no_subs = []
    walk_subs root (sub name t rest) =
        let below = walk (join_path root name) t in
        let others = walk_subs root rest in if walked name then below ++ others else others

  abbrev pub files_in : Text × List Text → List (Text × Text)
  files_in (dir, files) = map (λ fn. (dir, fn)) (sorted text_le files)

  -- Every file that the loops meet, by directory and name, in their order.
  unfoldable pub visited : Text → Tree → List (Text × Text)
  unfolding walk
  visited root t = collect files_in (walk root t)

  -- From the first directory the second one is reached by directories that are walked.
  pub data IsReached (q : Text) (u : Tree) : Text → Tree → Type 0 where
    here : IsReached q u q u
    below :
        {p name : Text} (files : List Text) {subs : Subs} {t : Tree}
        → IsSub name t subs
        → walked name ≡ true
        → IsReached q u (join_path p name) t
        → IsReached q u p (tree files subs)

-- ===== src/Walk/Tests.antt =====
-- A walk of a small project.
use mcp_vfp9sp2_toolchain.Base.{◌≡◌, ◌↔◌, refl, Bool, true, List, [], ◌∷◌, All, is_empty, not}
use mcp_vfp9sp2_toolchain.Base.Text.{Text, codes, ascii}
use mcp_vfp9sp2_toolchain.Base.OsPath.{posix_join}
use mcp_vfp9sp2_toolchain.Walk.{Tree, tree, Subs, no_subs, sub, is_walked, visited, IsReached}
use mcp_vfp9sp2_toolchain.Walk.Visits.{visited-All}

abbrev small : Tree
small = tree (codes "b.scx" ∷ codes "a.prg" ∷ []) (
    sub (codes ".git") (tree (codes "x.scx" ∷ []) no_subs) (
      sub (codes "forms") (tree (codes "c.scx" ∷ []) no_subs)
        (sub (codes "Backup") (tree (codes "d.scx" ∷ []) no_subs) no_subs)))

abbrev kept : Text → Bool
kept = is_walked ascii (codes "backup" ∷ [])

visited-small :
    visited posix_join kept (codes "/p") small
    ≡ (codes "/p", codes "a.prg")
      ∷ (codes "/p", codes "b.scx")
      ∷ (codes "/p/forms", codes "c.scx")
      ∷ []
unfolding visited mcp_vfp9sp2_toolchain.Base.Table.sorted mcp_vfp9sp2_toolchain.Inventory.text_le
    is_walked posix_join
visited-small = refl

abbrev HasName : Text × Text → Type 0
HasName (d, fn) = not (is_empty fn) ≡ true

visited-All_example : All HasName (visited posix_join kept (codes "/p") small) ↔ (
    (q : Text) (files : List Text) (subs : Subs)
    → IsReached posix_join kept q (tree files subs) (codes "/p") small
    → All (λ fn. HasName (q, fn)) files)
visited-All_example = visited-All posix_join kept HasName (codes "/p") small

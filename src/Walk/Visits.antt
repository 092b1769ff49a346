-- ===== src/Walk/Visits.antt =====
-- The walk visits exactly the files of the directories that are reached.
use mcp_vfp9sp2_toolchain.Base.{
  Bool, true, ◌≡◌, ◌↔◌, inl, inr, List, [], ◌∷◌, ◌++◌, map, All, All-append, Bool-cases,
}
use mcp_vfp9sp2_toolchain.Base.Text.{Text}
use mcp_vfp9sp2_toolchain.Base.Table.{sorted, All-sorted}
use mcp_vfp9sp2_toolchain.Inventory.{text_le, collect}
use mcp_vfp9sp2_toolchain.Walk.{
  Tree, tree, Subs, no_subs, sub, walk, walk_subs, files_in, visited, IsSub, first, later,
  IsReached, here, below,
}

module _ {ℓ κ} {A : Type ℓ} (P : A → Type κ) where
  All-append_iff : (xs ys : List A) → All P (xs ++ ys) ↔ (All P xs × All P ys)
  All-append_iff [] ys = (λ h. (tt, h), λ (_, h). h)
  All-append_iff (x ∷ xs) ys =
      let rest = All-append_iff xs ys in
      (λ (p, h). let (a, b) = rest.0 h in ((p, a), b), λ ((p, a), b). (p, rest.1 (a, b)))

  All-collect {η} :
      {B : Type η} (f : B → List A) (bs : List B) → All P (collect f bs) ↔ All (λ b. All P (f b)) bs
  All-collect f [] = (λ h. h, λ h. h)
  All-collect f (b ∷ bs) =
      let split = All-append_iff (f b) (collect f bs) in
      let rest = All-collect f bs in
      (λ h. let (a, c) = split.0 h in (a, rest.0 c), λ (a, c). split.1 (a, rest.1 c))

  pub All-map {η} :
      {B : Type η} (f : B → A) (bs : List B) → All P (map f bs) ↔ All (λ b. P (f b)) bs
  All-map f [] = (λ h. h, λ h. h)
  All-map f (b ∷ bs) = let rest = All-map f bs in (λ (p, h). (p, rest.0 h), λ (p, h). (p, rest.1 h))

module _ (join_path : Text → Text → Text) (walked : Text → Bool) where
  module _ {ℓ} (P : Text × List Text → Type ℓ) where
    mutual
      unfolding walk walk_subs

      walk-All :
          (p : Text) (t : Tree)
          → ((q : Text) (files : List Text) (subs : Subs)
              → IsReached join_path walked q (tree files subs) p t
              → P (q, files))
          → All P (walk join_path walked p t)
      walk-All p (tree files subs) h =
          (h p files subs here, walk_subs-All p files subs subs (λ name t i. i) h)

      walk_subs-All :
          (p : Text) (files : List Text) (all rest : Subs)
          → ((name : Text) (t : Tree) → IsSub name t rest → IsSub name t all)
          → ((q : Text) (fs : List Text) (subs : Subs)
              → IsReached join_path walked q (tree fs subs) p (tree files all)
              → P (q, fs))
          → All P (walk_subs join_path walked p rest)
      walk_subs-All p files all no_subs part h = tt
      walk_subs-All p files all (sub name t rest) part h =
          let others = walk_subs-All p files all rest (λ n u i. part n u (later name t i)) h in
          elim (Bool-cases (walked name)) [
            | inl kept ↦
                rw (kept, walk_subs)
                  (All-append P (walk join_path walked (join_path p name) t) _
                    (walk-All (join_path p name) t
                      (λ q fs subs r. h q fs subs (below files (part name t (first rest)) kept r)))
                    others)
            | inr skipped ↦ rw (skipped, walk_subs) others
          ]

    sub-All :
        (p name : Text) (t : Tree) (subs : Subs)
        → IsSub name t subs
        → walked name ≡ true
        → All P (walk_subs join_path walked p subs)
        → All P (walk join_path walked (join_path p name) t)
    unfolding walk_subs
    sub-All p name t _ (first rest) kept h =
        ((All-append_iff P (walk join_path walked (join_path p name) t) _).0
          (rw (kept, walk_subs) at h)).0
    sub-All p name t _ (later n u i) kept h = elim (Bool-cases (walked n)) [
      | inl also ↦
          sub-All p name t _ i kept
            ((All-append_iff P (walk join_path walked (join_path p n) u) _).0
              (rw (also, walk_subs) at h)).1
      | inr skipped ↦ sub-All p name t _ i kept (rw (skipped, walk_subs) at h)
    ]

    reached-All :
        {q : Text} {files : List Text} {subs : Subs} {p : Text} {t : Tree}
        → IsReached join_path walked q (tree files subs) p t
        → All P (walk join_path walked p t)
        → P (q, files)
    unfolding walk
    reached-All here h = h.0
    reached-All (below {p} {name} files {subs} {t} i kept r) h =
        reached-All r (sub-All p name t subs i kept h.1)

  -- What holds of each file that the walk visits is what holds of each file of a directory that is
  -- reached from the first one by directories whose names pass the test: the walk visits those files
  -- and no other.
  pub visited-All {ℓ} :
      (P : Text × Text → Type ℓ) (p : Text) (t : Tree)
      → All P (visited join_path walked p t) ↔ (
          (q : Text) (files : List Text) (subs : Subs)
          → IsReached join_path walked q (tree files subs) p t
          → All (λ fn. P (q, fn)) files)
  unfolding visited
  visited-All P p t =
      let Q : Text × List Text → Type ℓ = λ d. All P (files_in join_path walked d) in
      let loops = All-collect P (files_in join_path walked) (walk join_path walked p t) in
      let one : (q : Text) (files : List Text)
          → All P (files_in join_path walked (q, files)) ↔ All (λ fn. P (q, fn)) files =
        λ q files.
          let named = All-map P (λ fn. (q, fn)) (sorted text_le files) in
          let order = All-sorted text_le (λ fn. P (q, fn)) files in
          (λ h. order.0 (named.0 h), λ h. named.1 (order.1 h)) in
      (
        λ h q files subs r. (one q files).0 (reached-All Q r (loops.0 h)),
        λ h. loops.1 (walk-All Q p t (λ q files subs r. (one q files).1 (h q files subs r))),
      )

-- ===== src/Snapshot/Faithful.antt =====
-- A snapshot holds the files of the tree, with their digests; so two that compare equal show that
-- the files of the first tree have not changed.
use mcp_vfp9sp2_toolchain.Base.{
  ◌≡◌, inl, inr, refl, sym, ap, ◌∙◌, Bool, true, Option, some, List, [], ◌∷◌, All, All-map_imp,
  Bool-cases, Option-cases, not, ◌&&◌, is_empty,
}
use mcp_vfp9sp2_toolchain.Base.Text.{Text, text_eq, text_eq_iff, text_eq_refl}
use mcp_vfp9sp2_toolchain.Base.Dict.{Dict, lookup, insert, lookup-insert}
use mcp_vfp9sp2_toolchain.Common.{Config}
use mcp_vfp9sp2_toolchain.Manifest.{FileSystem, Stat}
use mcp_vfp9sp2_toolchain.Safety.{Host}
use mcp_vfp9sp2_toolchain.Walk.{Tree, tree, Subs, IsReached, is_walked}
use mcp_vfp9sp2_toolchain.Walk.Visits.{visited-All}
use mcp_vfp9sp2_toolchain.Snapshot.{
  Captured, key_of, add, tree_loop, extra_loop, excluded, walked_files, snapshot_tree,
}

-- `os.stat` and `sha256_file` read the file.
pub record IsReadable (fs : FileSystem) (p : Text) : Type 0 where
  pub stat : Stat
  pub sha : Text
  pub stat_is : fs.stat p ≡ some stat
  pub sha_is : fs.sha256_file p ≡ some sha

module _ (host : Host) (relpath : Text → Text → Text) (fs : FileSystem) (root : Text) where
  -- The entry of a key is that of a file with this key, and has its digest.
  abbrev IsFaithful : Dict Captured → Type 0
  IsFaithful files =
      (k : Text) (e : Captured)
      → lookup k files ≡ some e
      → (key_of host relpath root e.entry.path ≡ k)
        × (fs.sha256_file e.entry.path ≡ some e.entry.sha256)

  -- There is an entry for the key of the file.
  abbrev HasKey : Dict Captured → Text → Type 0
  HasKey files p = (e : Captured) × (lookup (key_of host relpath root p) files ≡ some e)

  -- Paths with one key name one file.
  abbrev pub NamesOne : Type 0
  NamesOne =
      (a b : Text)
      → key_of host relpath root a ≡ key_of host relpath root b
      → fs.sha256_file a ≡ fs.sha256_file b

  insert-IsFaithful :
      (files : Dict Captured) (e : Captured)
      → fs.sha256_file e.entry.path ≡ some e.entry.sha256
      → IsFaithful files
      → IsFaithful (insert (key_of host relpath root e.entry.path) e files)
  insert-IsFaithful files e sha h k f found =
      let key = key_of host relpath root e.entry.path in
      elim (Bool-cases (text_eq key k)) [
        | inl same ↦
            let here : some e ≡ some f = cc (sym (lookup-insert key k e files) ∙ found, same) in
            let one : e ≡ f = cc here in
            (
              ap (λ x. key_of host relpath root x.entry.path) (sym one)
                  ∙ (text_eq_iff key k).0 same,
              ap (λ x. fs.sha256_file x.entry.path) (sym one)
                  ∙ sha
                  ∙ ap (λ x. some x.entry.sha256) one,
            )
        | inr other ↦ h k f (rw other at (sym (lookup-insert key k e files) ∙ found))
      ]

  -- Whatever is found behind `add` was there before, or is what it records of its file.
  add-IsFaithful :
      (p : Text) (files : Dict Captured)
      → IsFaithful files
      → IsFaithful (add host relpath fs root p files)
  unfolding add
  add-IsFaithful p files h = elim (Option-cases (fs.stat p)) [
    | inl lost ↦ rw (lost, add) h
    | inr (st, there) ↦ elim (Option-cases (fs.sha256_file p)) [
      | inl lost ↦ rw (there, lost, add) h
      | inr (sha, read) ↦ rw (there, read, add) (insert-IsFaithful files _ read h)
    ]
  ]

  insert-HasKey :
      (q : Text) (e : Captured) (files : Dict Captured) (p : Text)
      → HasKey files p
      → HasKey (insert q e files) p
  insert-HasKey q e files p (f, found) =
      let key = key_of host relpath root p in
      elim (Bool-cases (text_eq q key)) [
        | inl same ↦ (e, rw (lookup-insert q key e files, same) refl)
        | inr other ↦ (f, rw (lookup-insert q key e files, other) found)
      ]

  add-HasKey :
      (q : Text) (files : Dict Captured) (p : Text)
      → HasKey files p
      → HasKey (add host relpath fs root q files) p
  unfolding add
  add-HasKey q files p h = elim (Option-cases (fs.stat q)) [
    | inl lost ↦ rw (lost, add) h
    | inr (st, there) ↦ elim (Option-cases (fs.sha256_file q)) [
      | inl lost ↦ rw (there, lost, add) h
      | inr (sha, read) ↦ rw (there, read, add) (insert-HasKey _ _ files p h)
    ]
  ]

  insert_here :
      (k : Text) (e : Captured) (files : Dict Captured)
      → (x : Captured) × (lookup k (insert k e files) ≡ some x)
  insert_here k e files = (e, rw (lookup-insert k k e files, text_eq_refl k) refl)

  add_here :
      (p : Text) (files : Dict Captured)
      → IsReadable fs p
      → HasKey (add host relpath fs root p files) p
  unfolding add
  add_here p files r =
      let key = key_of host relpath root p in
      rw (r.stat_is, r.sha_is, add) (insert_here key _ files)

  tree_loop-IsFaithful :
      (fs' : List (Text × Text)) (files : Dict Captured)
      → IsFaithful files
      → IsFaithful (tree_loop host relpath fs root fs' files)
  unfolding tree_loop
  tree_loop-IsFaithful [] files h = h
  tree_loop-IsFaithful ((dir, fn) ∷ rest) files h =
      tree_loop-IsFaithful rest _ (add-IsFaithful _ files h)

  tree_loop-HasKey :
      (fs' : List (Text × Text)) (files : Dict Captured) (p : Text)
      → HasKey files p
      → HasKey (tree_loop host relpath fs root fs' files) p
  unfolding tree_loop
  tree_loop-HasKey [] files p h = h
  tree_loop-HasKey ((dir, fn) ∷ rest) files p h = tree_loop-HasKey rest _ p (add-HasKey _ files p h)

  tree_loop-records :
      (fs' : List (Text × Text)) (files : Dict Captured)
      → All
          (λ f.
            IsReadable fs (host.platform.join_path f.0 f.1)
            → HasKey (tree_loop host relpath fs root fs' files) (host.platform.join_path f.0 f.1))
          fs'
  unfolding tree_loop
  tree_loop-records [] files = tt
  tree_loop-records ((dir, fn) ∷ rest) files =
      let p = host.platform.join_path dir fn in
      (λ r. tree_loop-HasKey rest _ p (add_here p files r), tree_loop-records rest _)

  extra_loop-IsFaithful :
      (extra : List Text) (files : Dict Captured)
      → IsFaithful files
      → IsFaithful (extra_loop host relpath fs root extra files)
  unfolding extra_loop
  extra_loop-IsFaithful [] files h = h
  extra_loop-IsFaithful (p ∷ rest) files h = elim (Bool-cases (not (is_empty p) && fs.is_file p)) [
    | inl taken ↦ rw (taken, extra_loop) (extra_loop-IsFaithful rest _ (add-IsFaithful p files h))
    | inr left ↦ rw (left, extra_loop) (extra_loop-IsFaithful rest files h)
  ]

  extra_loop-HasKey :
      (extra : List Text) (files : Dict Captured) (p : Text)
      → HasKey files p
      → HasKey (extra_loop host relpath fs root extra files) p
  unfolding extra_loop
  extra_loop-HasKey [] files p h = h
  extra_loop-HasKey (q ∷ rest) files p h = elim (Bool-cases (not (is_empty q) && fs.is_file q)) [
    | inl taken ↦ rw (taken, extra_loop) (extra_loop-HasKey rest _ p (add-HasKey q files p h))
    | inr left ↦ rw (left, extra_loop) (extra_loop-HasKey rest files p h)
  ]

  module _ (config : Option Config) (is_dir : Text → Bool) (t : Tree) (extra : List Text)
      (excludes : Option (List Text)) where
    abbrev files_of_tree : Dict Captured
    files_of_tree = (snapshot_tree host relpath fs config is_dir root t extra excludes).files

    pub snapshot_tree-IsFaithful : IsFaithful files_of_tree
    unfolding snapshot_tree lookup
    snapshot_tree-IsFaithful = elim (Bool-cases (is_dir root)) [
      | inl there ↦ rw there (
          extra_loop-IsFaithful extra _ (
            tree_loop-IsFaithful
              (walked_files host relpath fs (excluded host relpath fs config excludes) root t) []
              (λ k e h. absurd (cc h))))
      | inr lost ↦ rw lost (extra_loop-IsFaithful extra [] (λ k e h. absurd (cc h)))
    ]

    snapshot_tree-HasKey :
        is_dir root ≡ true
        → (q : Text) (files : List Text) (subs : Subs)
        → IsReached host.platform.join_path
            (is_walked host.casing (excluded host relpath fs config excludes))
            q
            (tree files subs)
            root
            t
        → All
            (λ fn.
              IsReadable fs (host.platform.join_path q fn)
              → HasKey files_of_tree (host.platform.join_path q fn))
            files
    unfolding snapshot_tree
    snapshot_tree-HasKey there q files subs r =
        let excl = excluded host relpath fs config excludes in
        let met = walked_files host relpath fs excl root t in
        let P : Text × Text → Type 0 = λ f.
          IsReadable fs (host.platform.join_path f.0 f.1)
          → HasKey (tree_loop host relpath fs root met []) (host.platform.join_path f.0 f.1) in
        let walked =
          (visited-All host.platform.join_path (is_walked host.casing excl) P root t).0
            (tree_loop-records met []) q files subs r in
        All-map_imp files
          (λ fn given read.
            rw there (extra_loop-HasKey extra _ (host.platform.join_path q fn) (given read)))
          walked

    -- Where paths with one key name one file: each file of a directory that is reached by
    -- directories that are not left out, if it can be read, stands in the snapshot under its key,
    -- with its digest.
    pub snapshot_tree-records :
        is_dir root ≡ true
        → NamesOne
        → (q : Text) (files : List Text) (subs : Subs)
        → IsReached host.platform.join_path
            (is_walked host.casing (excluded host relpath fs config excludes))
            q
            (tree files subs)
            root
            t
        → All
            (λ fn.
              IsReadable fs (host.platform.join_path q fn)
              → (e : Captured) × (lookup
                    (key_of host relpath root (host.platform.join_path q fn))
                    files_of_tree
                  ≡ some e)
                × (fs.sha256_file (host.platform.join_path q fn) ≡ some e.entry.sha256))
            files
    snapshot_tree-records there distinct q files subs r =
        All-map_imp files
          (λ fn given read.
            let p = host.platform.join_path q fn in
            let (e, found) = given read in
            let (key, sha) = snapshot_tree-IsFaithful (key_of host relpath root p) e found in
            (e, found, sym (distinct e.entry.path p key) ∙ sha))
          (snapshot_tree-HasKey there q files subs r)

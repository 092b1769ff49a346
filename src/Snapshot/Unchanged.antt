-- ===== src/Snapshot/Unchanged.antt =====
-- Two snapshots that compare equal, of one directory at two moments.
use mcp_vfp9sp2_toolchain.Base.{
  ◌≡◌, inl, inr, refl, sym, ap, ◌∙◌, Bool, true, Option, none, some, List, [], ◌∷◌, All,
  All-map_imp, Bool-cases,
}
use mcp_vfp9sp2_toolchain.Base.Text.{Text, text_eq, text_eq_iff}
use mcp_vfp9sp2_toolchain.Base.Dict.{Dict, lookup}
use mcp_vfp9sp2_toolchain.Common.{Config}
use mcp_vfp9sp2_toolchain.Manifest.{FileSystem, Entry, compare_manifests}
use mcp_vfp9sp2_toolchain.Manifest.Compare.{IsKept, compare_manifests_ok}
use mcp_vfp9sp2_toolchain.Safety.{Host}
use mcp_vfp9sp2_toolchain.Walk.{Tree, tree, Subs, IsReached, is_walked}
use mcp_vfp9sp2_toolchain.Snapshot.{Captured, entries_of, key_of, excluded, snapshot_tree}
use mcp_vfp9sp2_toolchain.Snapshot.Faithful.{
  IsReadable, NamesOne, snapshot_tree-IsFaithful, snapshot_tree-records,
}

All-lookup {ℓ κ} :
    {V : Type ℓ} (P : Text × V → Type κ) (d : Dict V) (k : Text) (v : V)
    → All P d
    → lookup k d ≡ some v
    → P (k, v)
unfolding lookup
All-lookup P [] k v h found = absurd (cc found)
All-lookup P ((j, w) ∷ d) k v (here, rest) found = elim (Bool-cases (text_eq j k)) [
  | inl same ↦
      let value : w ≡ v = cc (rw same at found) in rw (← (text_eq_iff j k).0 same, ← value) here
  | inr other ↦ All-lookup P d k v rest (rw other at found)
]

lookup-entries_of :
    (d : Dict Captured) (k : Text) (e : Captured)
    → lookup k d ≡ some e
    → lookup k (entries_of d) ≡ some e.entry
unfolding lookup
lookup-entries_of [] k e h = absurd (cc h)
lookup-entries_of ((j, w) ∷ d) k e h = elim (Bool-cases (text_eq j k)) [
  | inl same ↦ rw same (ap (λ o. elim o [ none ↦ none | some x ↦ some x.entry ]) (rw same at h))
  | inr other ↦ rw other (lookup-entries_of d k e (rw other at h))
]

entries_of-lookup :
    (d : Dict Captured) (k : Text) (a : Entry)
    → lookup k (entries_of d) ≡ some a
    → (e : Captured) × (lookup k d ≡ some e) × (e.entry ≡ a)
unfolding lookup
entries_of-lookup [] k a h = absurd (cc h)
entries_of-lookup ((j, w) ∷ d) k a h = elim (Bool-cases (text_eq j k)) [
  | inl same ↦ rw same (w, refl, cc (rw same at h))
  | inr other ↦ rw other (entries_of-lookup d k a (rw other at h))
]

module _ (host : Host) (relpath : Text → Text → Text) (root : Text) (config : Option Config)
    (is_dir : Text → Bool) (extra : List Text) (excludes : Option (List Text)) where
  -- Where paths with one key name one file, and the snapshots of a directory at two moments compare equal:
  -- each file that the first walk reaches and can read has the same digest at the second moment,
  -- whatever the second walk meets.
  pub snapshot_tree-unchanged :
      (before after : FileSystem) (t u : Tree)
      → is_dir root ≡ true
      → NamesOne host relpath before root
      → NamesOne host relpath after root
      → (compare_manifests
          (entries_of (snapshot_tree host relpath before config is_dir root t extra excludes).files)
          (entries_of
            (snapshot_tree host relpath after config is_dir root u extra excludes).files)).ok
        ≡ true
      → (q : Text) (files : List Text) (subs : Subs)
      → IsReached host.platform.join_path
          (is_walked host.casing (excluded host relpath before config excludes))
          q
          (tree files subs)
          root
          t
      → All
          (λ fn.
            IsReadable before (host.platform.join_path q fn)
            → after.sha256_file (host.platform.join_path q fn)
              ≡ before.sha256_file (host.platform.join_path q fn))
          files
  snapshot_tree-unchanged before after t u there distinct distinct' same q files subs r =
      let old = (snapshot_tree host relpath before config is_dir root t extra excludes).files in
      let new = (snapshot_tree host relpath after config is_dir root u extra excludes).files in
      let kept = (compare_manifests_ok (entries_of old) (entries_of new)).0 same in
      All-map_imp files
        (λ fn given read.
          let p = host.platform.join_path q fn in
          let key = key_of host relpath root p in
          let (e, found, sha) = given read in
          let now =
            All-lookup (IsKept (entries_of new)) (entries_of old) key e.entry kept
              (lookup-entries_of old key e found) in
          let (f, found', entry) = entries_of-lookup new key now.now now.found in
          let (key', sha') =
            snapshot_tree-IsFaithful host relpath after root config is_dir u extra excludes key f
              found' in
          sym (distinct' f.entry.path p key')
          ∙ sha'
          ∙ ap (λ x. some x.sha256) entry
          ∙ ap some now.same_sha
          ∙ sym sha)
        (snapshot_tree-records host relpath before root config is_dir t extra excludes there
          distinct q files subs r)

-- ===== src/Manifest/Compare.antt =====
-- When `compare_manifests` and `verify_source_hashes` accept.
use mcp_vfp9sp2_toolchain.Base.{
  ◌≡◌, ◌↔◌, inl, inr, refl, ap, sym, ◌∙◌, Bool, true, false, ◌&&◌, some, List, [], ◌∷◌, arith, All,
  All-map_imp, is_empty, Bool-cases, Option-cases,
}
use mcp_vfp9sp2_toolchain.Base.Text.{Text, text_eq_iff}
use mcp_vfp9sp2_toolchain.Base.Dict.{Dict, lookup, IsDict, IsDict-lookup}
use mcp_vfp9sp2_toolchain.Manifest.{Entry, has_drifted, compare_loop, compare_manifests}

-- The file is still there, with the same digest, size and time.
pub record IsKept (af : Dict Entry) (e : Text × Entry) : Type 0 where
  pub now : Entry
  pub found : lookup e.0 af ≡ some now
  pub same_sha : now.sha256 ≡ e.1.sha256
  pub same_size : now.size ≡ e.1.size
  pub same_mtime : now.mtime ≡ e.1.mtime

has_drifted_iff :
    (a b : Entry)
    → (has_drifted a b ≡ false) ↔ ((a.sha256 ≡ b.sha256) × (a.size ≡ b.size) × (a.mtime ≡ b.mtime))
unfolding has_drifted
has_drifted_iff a b = ground (arith, text_eq_iff a.sha256 b.sha256)

abbrev clean {ℓ} : {A : Type ℓ} → List A × List Text → Bool
clean (changed, removed) = is_empty changed && is_empty removed

and_false : (b : Bool) → (b && false) ≡ true → ⊥
and_false b h = ground arith

IsKept-not_drifted :
    (af : Dict Entry) (key : Text) (a b : Entry)
    → lookup key af ≡ some a
    → has_drifted a b ≡ true
    → ¬ IsKept af (key, b)
IsKept-not_drifted af key a b there drift k =
    let same : a ≡ k.now = cc (sym there ∙ k.found) in
    let kept : has_drifted a b ≡ false = (has_drifted_iff a b).1 (
      ap (λ (e : Entry). e.sha256) same ∙ k.same_sha,
      ap (λ (e : Entry). e.size) same ∙ k.same_size,
      ap (λ (e : Entry). e.mtime) same ∙ k.same_mtime,
    ) in
    cc (sym drift ∙ kept)

compare_loop-IsKept :
    (bf af : Dict Entry) → (clean (compare_loop af bf) ≡ true) ↔ All (IsKept af) bf
unfolding compare_loop
compare_loop-IsKept [] af = (λ h. tt, λ h. refl)
compare_loop-IsKept ((key, b) ∷ rest) af = elim (Option-cases (lookup key af)) [
  | inl gone ↦
      rw (gone, compare_loop)
        (λ h. absurd (and_false _ h), λ (k, _). absurd (cc (sym gone ∙ k.found)))
  | inr (a, there) ↦ elim (Bool-cases (has_drifted a b)) [
    | inl drift ↦
        rw (there, drift, compare_loop)
          (λ h. absurd (cc h), λ (k, _). absurd (IsKept-not_drifted af key a b there drift k))
    | inr same ↦
        let (same_sha, same_size, same_mtime) = (has_drifted_iff a b).0 same in
        let (later, earlier) = compare_loop-IsKept rest af in
        rw (there, same, compare_loop)
          (
            λ h. (
              record {
                now = a;
                found = there;
                same_sha = same_sha;
                same_size = same_size;
                same_mtime = same_mtime;
              },
              later h,
            ),
            λ (_, more). earlier more,
          )
  ]
]

-- A comparison is accepted exactly when every file of the first manifest is in the second with the
-- same digest, size and time; files that the second has besides do not count.
pub compare_manifests_ok :
    (bf af : Dict Entry) → ((compare_manifests bf af).ok ≡ true) ↔ All (IsKept af) bf
unfolding compare_manifests
compare_manifests_ok bf af = compare_loop-IsKept bf af

self-IsKept : (bf : Dict Entry) → IsDict bf → All (IsKept bf) bf
self-IsKept bf u =
    All-map_imp bf
      (λ e found. record {
        now = e.1;
        found = found;
        same_sha = refl;
        same_size = refl;
        same_mtime = refl;
      })
      (IsDict-lookup u)

-- A tree compared with its own manifest is accepted.
pub compare_manifests_self : (bf : Dict Entry) → IsDict bf → (compare_manifests bf bf).ok ≡ true
compare_manifests_self bf u = (compare_manifests_ok bf bf).1 (self-IsKept bf u)

-- ===== src/Safety/Under.antt =====
-- `is_under` against the relation on canonical paths that it decides.
use mathlib.Core.List.{append_assoc}
use mcp_vfp9sp2_toolchain.Base.{
  ℕ, ◌≡◌, refl, ap, sym, ◌∙◌, ◌↔◌, inl, inr, Bool, true, ◌||◌, [], ◌∷◌, ◌++◌, arith, Bool-cases,
}
use mcp_vfp9sp2_toolchain.Base.Text.{Text, text_eq, text_eq_iff, starts_with, rstrip}
use mcp_vfp9sp2_toolchain.Base.Prefix.{
  Below, is_sep, starts_with_iff, rstrip_idem, rstrip_keeps_Below, Below-trans,
}
use mcp_vfp9sp2_toolchain.Safety.{
  Host, Outcome, ok, forbidden, empty_path, ◌>>=◌, canonicalize_path, sep, is_under,
}

-- Inversion of a bind that returned.
pub >>=-eq-ok {ℓ κ} :
    {R : Type κ} {S : Type ℓ} {final : S} (first : Outcome R) (next : R → Outcome S)
    → first >>= next ≡ ok final
    → (value : R) × (first ≡ ok value) × (next value ≡ ok final)
>>=-eq-ok empty_path next run = absurd (cc run)
>>=-eq-ok (forbidden reason) next run = absurd (cc run)
>>=-eq-ok (ok value) next run = (value, refl, run)

pub ok-injective {ℓ} : {A : Type ℓ} (a b : A) → ok a ≡ ok b → a ≡ b
ok-injective a b h = cc

abbrev test : ℕ → Text → Text → Bool
test s p r = text_eq p r || starts_with p (r ++ s ∷ [])

test_iff : (s : ℕ) (p r : Text) → (test s p r ≡ true) ↔ Below s p r
test_iff s p r = (there p r s, back p r s)
  where
    there : (p r : Text) (s : ℕ) → test s p r ≡ true → Below s p r
    there p r s h = elim (Bool-cases (text_eq p r)) [
      | inl same ↦ inl ((text_eq_iff p r).0 same)
      | inr other ↦
          let (t, e) = (starts_with_iff p (r ++ s ∷ [])).0 (rw other at h) in
          inr (t, e ∙ append_assoc r (s ∷ []) t)
    ]

    back : (p r : Text) (s : ℕ) → Below s p r → test s p r ≡ true
    back p r s (inl e) = rw ((text_eq_iff p r).1 e)
    back p r s (inr (t, e)) =
        let found = (starts_with_iff p (r ++ s ∷ [])).1 (t, e ∙ sym (append_assoc r (s ∷ []) t)) in
        ground (arith, found)

module _ (host : Host) where
  -- Both paths are canonical, and one stands at the other without its trailing separators, or below.
  pub record Under (path root : Text) : Type 0 where
    pub at : Text
    pub top : Text
    pub path_is : canonicalize_path host path ≡ ok at
    pub root_is : canonicalize_path host root ≡ ok top
    pub below : Below (sep host) at (rstrip (is_sep (sep host)) top)

  pub is_under-Under : (path root : Text) → is_under host path root ≡ ok true → Under path root
  unfolding is_under
  is_under-Under path root h =
      let (p, path_is, h1) = >>=-eq-ok (canonicalize_path host path) _ h in
      let (r, root_is, h2) = >>=-eq-ok (canonicalize_path host root) _ h1 in
      record {
        at = p;
        top = r;
        path_is = path_is;
        root_is = root_is;
        below = (test_iff (sep host) p _).0 (ok-injective _ _ h2);
      }

  pub Under-is_under : (path root : Text) → Under path root → is_under host path root ≡ ok true
  unfolding is_under
  Under-is_under path root u =
      rw (u.path_is, u.root_is, is_under) (ap ok ((test_iff (sep host) u.at _).1 u.below))

  -- `is_under` is transitive: what is under a directory that is under a root is under the root.
  pub is_under_trans :
      (path dir root : Text)
      → is_under host path dir ≡ ok true
      → is_under host dir root ≡ ok true
      → is_under host path root ≡ ok true
  is_under_trans path dir root h k =
      let u = is_under-Under path dir h in
      let v = is_under-Under dir root k in
      let same = ok-injective _ _ (sym u.root_is ∙ v.path_is) in
      Under-is_under path root (record {
        at = u.at;
        top = v.top;
        path_is = u.path_is;
        root_is = v.root_is;
        below = Below-trans (sep host) _ _ _ u.below (
            rw same (
              rstrip_keeps_Below (sep host) v.at _ (rstrip_idem (is_sep (sep host)) v.top)
                v.below));
      })

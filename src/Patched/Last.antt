-- ===== src/Patched/Last.antt =====
-- When the check of a patched form passes: by the last method with each name.
use mathlib.Core.Path.{subst}
use mcp_vfp9sp2_toolchain.Base.{
  ◌≡◌, ◌↔◌, ◌⊎◌, inl, inr, refl, ap, sym, ◌∙◌, Bool, true, false, ◌&&◌, Option, none, some, List,
  [], ◌∷◌, ◌++◌, All, Bool-cases, Option-cases, arith,
}
use mcp_vfp9sp2_toolchain.Base.Text.{Text, text_eq_iff, Casing}
use mcp_vfp9sp2_toolchain.Disk.{Disk, File}
use mcp_vfp9sp2_toolchain.MethodParser.{Method, parse_methods}
use mcp_vfp9sp2_toolchain.Patched.{
  Promise, or_none, is_kept, has_name, find_last, see, see_all, verify_patched_methods, passes,
}

module _ (casing : Casing) (name : Text) where
  -- The method has the name, and none after it has.
  pub record IsLast (methods : List Method) (m : Method) : Type 0 where
    pub before : List Method
    pub after : List Method
    pub place : methods ≡ before ++ m ∷ after
    pub named : casing.lower m.name ≡ name
    pub alone : All (λ n. has_name casing name n ≡ false) after

  -- The loop keeps what it found before where no method has the name.
  find_last-cases :
      (methods : List Method) (found : Option Method)
      → ((m : Method) × IsLast methods m × (find_last casing name found methods ≡ some m))
        ⊎ (All (λ n. has_name casing name n ≡ false) methods
            × (find_last casing name found methods ≡ found))
  unfolding find_last
  find_last-cases [] found = inr (tt, refl)
  find_last-cases (m ∷ methods) found = elim (Bool-cases (has_name casing name m)) [
    | inl hit ↦ elim (find_last-cases methods (some m)) [
      | inl (k, last, e) ↦ inl (k, later last, rw hit e)
      | inr (none_later, e) ↦ inl (
        m,
        record {
          before = [];
          after = methods;
          place = refl;
          named = (text_eq_iff (casing.lower m.name) name).0 hit;
          alone = none_later;
        },
        rw hit e,
      )
    ]
    | inr miss ↦ elim (find_last-cases methods found) [
      | inl (k, last, e) ↦ inl (k, later last, rw miss e)
      | inr (none_later, e) ↦ inr ((miss, none_later), rw miss e)
    ]
  ]
    where
      later : {k : Method} → IsLast methods k → IsLast (m ∷ methods) k
      later last = record {
        before = m ∷ last.before;
        after = last.after;
        place = ap (λ x. m ∷ x) last.place;
        named = last.named;
        alone = last.alone;
      }

  find_last-none :
      (methods : List Method) (found : Option Method)
      → All (λ n. has_name casing name n ≡ false) methods
      → find_last casing name found methods ≡ found
  unfolding find_last
  find_last-none [] found h = refl
  find_last-none (m ∷ methods) found (miss, rest) = rw miss (find_last-none methods found rest)

  find_last-at :
      (before after : List Method) (m : Method) (found : Option Method)
      → casing.lower m.name ≡ name
      → All (λ n. has_name casing name n ≡ false) after
      → find_last casing name found (before ++ m ∷ after) ≡ some m
  unfolding find_last
  find_last-at [] after m found named alone =
      rw ((text_eq_iff (casing.lower m.name) name).1 named, find_last)
        (find_last-none after (some m) alone)
  find_last-at (k ∷ before) after m found named alone = find_last-at before after m _ named alone

  find_last-IsLast :
      (methods : List Method) (m : Method) (found : Option Method)
      → IsLast methods m
      → find_last casing name found methods ≡ some m
  find_last-IsLast methods m found last =
      ap (find_last casing name found) last.place
      ∙ find_last-at last.before last.after m found last.named last.alone

module _ (casing : Casing) where
  -- The last method with the patch's name has the hash that the patch promises, if it promises one.
  abbrev pub IsPromised : List Method → Promise → Type 0
  IsPromised methods p =
      (m : Method) × IsLast casing (casing.lower (or_none p.method)) methods m
      × (is_kept p.new_method_sha256 m.source_sha256 ≡ true)

  see-IsPromised :
      (methods : List Method) (p : Promise)
      → ((see casing methods p).ok ≡ true) ↔ IsPromised methods p
  unfolding see
  see-IsPromised methods p = (
    λ h. elim (find_last-cases casing (casing.lower (or_none p.method)) methods none) [
      | inl (m, last, e) ↦ (m, last, rw (e, see) at h)
      | inr (_, e) ↦ absurd (cc (rw (e, see) at h))
    ],
    λ (m, last, kept). rw (find_last-IsLast casing _ methods m none last, see) kept,
  )

  see_all-IsPromised :
      (methods : List Method) (promises : List Promise)
      → ((see_all casing methods promises).0 ≡ true) ↔ All (IsPromised methods) promises
  unfolding see_all
  see_all-IsPromised methods [] = (λ _. tt, λ _. refl)
  see_all-IsPromised methods (p ∷ promises) =
      let one = see-IsPromised methods p in
      let rest = see_all-IsPromised methods promises in
      (λ h. let (a, b) = both _ _ h in (one.0 a, rest.0 b), λ (a, b). rw (one.1 a, rest.1 b) refl)
    where
      both : (a b : Bool) → (a && b) ≡ true → (a ≡ true) × (b ≡ true)
      both a b h = ground arith

  -- The check of a patched form passes exactly when its text is there and, for every patch, some
  -- method of it has the patch's method name, and the last that has it has the hash that the patch
  -- promises, if it promises one; the object of the patch is not looked at.
  pub verify_patched_methods-IsPromised :
      (sha256 : Text → Text) (decode : File → Text) (path : Text) (promises : List Promise)
      (disk : Disk)
      → (passes (verify_patched_methods casing sha256 decode path promises disk) ≡ true) ↔ (
          (f : File) × (disk path ≡ some f)
          × All (IsPromised (parse_methods casing sha256 (decode f))) promises)
  unfolding verify_patched_methods
  verify_patched_methods-IsPromised sha256 decode path promises disk =
      elim (Option-cases (disk path)) [
        | inl lost ↦
            rw (lost, verify_patched_methods) (λ h. absurd (cc h), λ (f, e, _). absurd (cc e))
        | inr (f, there) ↦
            let each = see_all-IsPromised (parse_methods casing sha256 (decode f)) promises in
            rw (there, verify_patched_methods)
              (
                λ h. (f, refl, each.0 h),
                λ (g, e, h).
                    let one : f ≡ g = cc e in
                    each.1 (
                      subst
                        (λ x. All (IsPromised (parse_methods casing sha256 (decode x))) promises)
                        (sym one) h),
              )
      ]

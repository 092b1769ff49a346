-- ===== src/Base/Only.antt =====
-- The member of a list that alone passes a test.
use mathlib.Core.Path.{◌≡◌, refl, ap}
use mathlib.Core.Bool.{Bool, true, false}
use mathlib.Core.List.{List, [], ◌∷◌, ◌++◌}
use mathlib.Core.Logic.{inl, inr}
use mcp_vfp9sp2_toolchain.Base.Tests.{Bool-cases}
use mcp_vfp9sp2_toolchain.Base.Lists.{keep, All}

module _ {ℓ} {A : Type ℓ} (p : A → Bool) where
  -- `x` passes the test, and no member before it or behind it does.
  pub record IsOnly (xs : List A) (x : A) : Type ℓ where
    pub before : List A
    pub after : List A
    pub splits : xs ≡ before ++ x ∷ after
    pub passes : p x ≡ true
    pub none_before : All (λ y. p y ≡ false) before
    pub none_after : All (λ y. p y ≡ false) after

  pub keep-eq-nil : (xs : List A) → keep p xs ≡ [] → All (λ y. p y ≡ false) xs
  keep-eq-nil [] h = tt
  keep-eq-nil (x ∷ xs) h = elim (Bool-cases (p x)) [
    | inl hit ↦ absurd (cc (rw (hit, keep) at h))
    | inr miss ↦ (miss, keep-eq-nil xs (rw (miss, keep) at h))
  ]

  pub nil-eq-keep : (xs : List A) → All (λ y. p y ≡ false) xs → keep p xs ≡ []
  nil-eq-keep [] h = refl
  nil-eq-keep (x ∷ xs) (h, r) = rw (h, keep) (nil-eq-keep xs r)

  pub keep-IsOnly : (xs : List A) (x : A) → keep p xs ≡ x ∷ [] → IsOnly xs x
  keep-IsOnly [] x h = absurd (cc h)
  keep-IsOnly (y ∷ xs) x h = elim (Bool-cases (p y)) [
    | inl hit ↦
        let here : y ∷ keep p xs ≡ x ∷ [] = rw (hit, keep) at h in
        let same : y ≡ x = cc here in
        record {
          before = [];
          after = xs;
          splits = rw same;
          passes = rw (← same) hit;
          none_before = tt;
          none_after = keep-eq-nil xs (cc here);
        }
    | inr miss ↦
        let later = keep-IsOnly xs x (rw (miss, keep) at h) in
        record {
          before = y ∷ later.before;
          after = later.after;
          splits = ap (◌∷◌ y) later.splits;
          passes = later.passes;
          none_before = (miss, later.none_before);
          none_after = later.none_after;
        }
  ]

  keep_past :
      (before : List A) (x : A) (after : List A)
      → All (λ y. p y ≡ false) before
      → p x ≡ true
      → All (λ y. p y ≡ false) after
      → keep p (before ++ x ∷ after) ≡ x ∷ []
  keep_past [] x after b h a = rw (h, keep) (ap (◌∷◌ x) (nil-eq-keep after a))
  keep_past (y ∷ before) x after (miss, b) h a = rw (miss, keep) (keep_past before x after b h a)

  pub IsOnly-keep : (xs : List A) (x : A) → IsOnly xs x → keep p xs ≡ x ∷ []
  IsOnly-keep xs x only =
      rw only.splits
        (keep_past only.before x only.after only.none_before only.passes only.none_after)

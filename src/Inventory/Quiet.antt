-- ===== src/Inventory/Quiet.antt =====
-- Lists of findings none of which is unexpected, and loops over the sorted keys of tables.
use mcp_vfp9sp2_toolchain.Base.{
  ◌≡◌, ◌≢◌, ◌↔◌, inl, inr, refl, ap, sym, ◌∙◌, Bool, true, false, not, none, some, List, [], ◌∷◌,
  ◌++◌, map, All, All-map_imp, keep, is_empty, Option-cases,
}
use mcp_vfp9sp2_toolchain.Base.Only.{keep-eq-nil, nil-eq-keep}
use mcp_vfp9sp2_toolchain.Base.Table.{
  Table, Key, text_key, pair_key, find, keys, has, sorted, All-keys_iff, All-sorted, All-keep,
}
use mcp_vfp9sp2_toolchain.Inventory.{Delta, is_unexpected, collect}

-- No finding is unexpected.
abbrev pub IsQuiet {ℓ} : {V : Type ℓ} → List (Delta V) → Type 0
IsQuiet = All (λ f. is_unexpected f ≡ false)

module _ {ℓ} {V : Type ℓ} where
  pub IsQuiet-append : (fs gs : List (Delta V)) → IsQuiet (fs ++ gs) ↔ (IsQuiet fs × IsQuiet gs)
  IsQuiet-append [] gs = (λ h. (tt, h), λ (_, h). h)
  IsQuiet-append (f ∷ fs) gs =
      let later = IsQuiet-append fs gs in
      (λ (h, hs). let (a, b) = later.0 hs in ((h, a), b), λ ((h, a), b). (h, later.1 (a, b)))

  pub IsQuiet-collect {κ} :
      {K : Type κ} (g : K → List (Delta V)) (xs : List K)
      → IsQuiet (collect g xs) ↔ All (λ x. IsQuiet (g x)) xs
  IsQuiet-collect g [] = (λ h. h, λ h. h)
  IsQuiet-collect g (x ∷ xs) =
      let both = IsQuiet-append (g x) (collect g xs) in
      let later = IsQuiet-collect g xs in
      (λ h. let (a, b) = both.0 h in (a, later.0 b), λ (a, b). both.1 (a, later.1 b))

  pub IsQuiet-map {κ} :
      {K : Type κ} (c : K → Delta V) (xs : List K)
      → ((k : K) → is_unexpected (c k) ≡ true)
      → IsQuiet (map c xs) ↔ All (λ _. ⊥) xs
  IsQuiet-map c [] loud = (λ h. h, λ h. h)
  IsQuiet-map c (x ∷ xs) loud =
      let later = IsQuiet-map c xs loud in
      (λ (h, hs). (absurd (cc (sym h ∙ loud x)), later.0 hs), λ (h, _). absurd h)

  pub is_empty-IsQuiet :
      (fs : List (Delta V)) → (is_empty (keep is_unexpected fs) ≡ true) ↔ IsQuiet fs
  is_empty-IsQuiet fs = (
    λ h. keep-eq-nil is_unexpected fs (nil_if_empty _ h),
    λ q. ap is_empty (nil-eq-keep is_unexpected fs q),
  )
    where
      nil_if_empty : (gs : List (Delta V)) → is_empty gs ≡ true → gs ≡ []
      nil_if_empty [] h = refl
      nil_if_empty (g ∷ gs) h = cc h

pub All-split {ℓ κ} :
    {A : Type ℓ} (P : A → Type κ) (xs ys : List A) → All P (xs ++ ys) → All P xs × All P ys
All-split P [] ys h = (tt, h)
All-split P (x ∷ xs) ys (p, h) = let (a, b) = All-split P xs ys h in ((p, a), b)

pub All-map_iff {ℓ κ η} :
    {A : Type ℓ} {P : A → Type κ} {Q : A → Type η} (xs : List A)
    → ((x : A) → P x ↔ Q x)
    → All P xs ↔ All Q xs
All-map_iff xs f = (All-map_imp xs (λ x. (f x).0), All-map_imp xs (λ x. (f x).1))

-- A loop over the sorted keys of a table that pass a test: something holds of each of them exactly
-- when it holds of every key that is found and passes.
sorted-keys_iff {ℓ κ η} :
    {K : Type ℓ} {W : Type κ} ⦃e : Key K⦄ (le : K → K → Bool) (test : K → Bool) (t : Table K W)
    (P : K → Type η)
    → All P (sorted le (keep test (keys t)))
      ↔ ((k : K) (v : W) → find k t ≡ some v → test k ≡ true → P k)
sorted-keys_iff le test t P =
    let in_order = All-sorted le P (keep test (keys t)) in
    let passed = All-keep P test (keys t) in
    let found = All-keys_iff (λ k. test k ≡ true → P k) t in
    (λ h. found.0 (passed.0 (in_order.0 h)), λ h. in_order.1 (passed.1 (found.1 h)))

module _ {ℓ κ} {K : Type ℓ} {W : Type κ} ⦃e : Key K⦄ where
  pub not-has_iff : (k : K) (t : Table K W) → (not (has k t) ≡ true) ↔ (find k t ≡ none)
  not-has_iff k t = elim (Option-cases (find k t)) [
    | inl lost ↦ rw (lost, has) (λ _. refl, λ _. refl)
    | inr (v, there) ↦ rw (there, has) (λ h. absurd (cc h), λ h. absurd (cc h))
  ]

  -- No key of the first table is left out of the second.
  pub none_left_iff :
      (le : K → K → Bool) (a b : Table K W)
      → All (λ _. ⊥) (sorted le (keep (λ k. not (has k b)) (keys a)))
        ↔ ((k : K) (v : W) → find k a ≡ some v → find k b ≢ none)
  none_left_iff le a b =
      let all = sorted-keys_iff le (λ k. not (has k b)) a (λ _. ⊥) in
      (
        λ h k v f lost. all.0 h k v f ((not-has_iff k b).1 lost),
        λ h. all.1 (λ k v f t. h k v f ((not-has_iff k b).0 t)),
      )

  has-found : (k : K) (t : Table K W) (v : W) → find k t ≡ some v → has k t ≡ true
  has-found k t v h = rw (h, has) refl

  -- Something holds of the sorted keys of both tables exactly when it holds of what they find.
  pub in_both_iff {η} :
      (le : K → K → Bool) (a b : Table K W) (P : K → Type η)
      → All P (sorted le (keep (λ k. has k b) (keys a)))
        ↔ ((k : K) (v w : W) → find k a ≡ some v → find k b ≡ some w → P k)
  in_both_iff le a b P =
      let all = sorted-keys_iff le (λ k. has k b) a P in
      (
        λ h k v w f g. all.0 h k v f (has-found k b w g),
        λ h. all.1 (λ k v f t. elim (Option-cases (find k b)) [
          | inl lost ↦ absurd (cc (rw (lost, has) at t))
          | inr (w, g) ↦ h k v w f g
        ]),
      )

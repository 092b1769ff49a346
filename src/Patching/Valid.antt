-- ===== src/Patching/Valid.antt =====
-- Which plans `load_plan` finds nothing wrong with.
use mcp_vfp9sp2_toolchain.Base.{
  ℕ, ◌+◌, ◌≡◌, ◌↔◌, inl, inr, refl, sym, ap, ◌∙◌, Bool, true, false, Option, none, some, List, [],
  ◌∷◌, ◌++◌, All, Option-cases,
}
use mcp_vfp9sp2_toolchain.Base.Text.{Text, codes}
use mcp_vfp9sp2_toolchain.Disk.{Disk, File}
use mcp_vfp9sp2_toolchain.Patching.Program.{decimal}
use mcp_vfp9sp2_toolchain.Patching.Hex.{IsHex, hex_digits_iff}
use mcp_vfp9sp2_toolchain.Patching.Load.{
  Reals, Json, null, boolean, integer, real, text, array, object, Items, no_item, item, Fields,
  PlanError, not_sha256, required_fields, unless, get, is_truthy, is_version, hash_fits, is_there,
  missing_loop, patch_errors, both_errors, items_errors, patches_errors, head_errors, plan_errors,
  loaded, checked_plan, plan_in, load_plan,
}

unless-nil : (b : Bool) (e : PlanError) → unless b e ≡ [] → b ≡ true
unless-nil true e h = refl
unless-nil false e h = absurd (cc h)

nil-append {ℓ} : {A : Type ℓ} (xs ys : List A) → xs ++ ys ≡ [] → (xs ≡ []) × (ys ≡ [])
nil-append [] ys h = (refl, h)
nil-append (x ∷ xs) ys h = absurd (cc h)

both_errors-nil :
    (a b : Option (List PlanError)) → both_errors a b ≡ some [] → (a ≡ some []) × (b ≡ some [])
both_errors-nil none b h = absurd (cc h)
both_errors-nil (some a) none h = absurd (cc h)
both_errors-nil (some a) (some b) h = let (p, q) = nil-append a b (cc h) in (ap some p, ap some q)

module _ {R : Reals} where
  -- A hash is not there or null, or a text or a positive integer of 64 hexadecimal digits.
  abbrev pub FitsHash : Option (Json R) → Type 0
  FitsHash none = Unit
  FitsHash (some null) = Unit
  FitsHash (some (text s)) = IsHex 64 s
  FitsHash (some (integer false n)) = IsHex 64 (decimal n)
  FitsHash (some _) = ⊥

  hash_fits_iff : (v : Option (Json R)) → (hash_fits v ≡ true) ↔ FitsHash v
  hash_fits_iff none = (λ _. tt, λ _. refl)
  hash_fits_iff (some null) = (λ _. tt, λ _. refl)
  hash_fits_iff (some (text s)) = hex_digits_iff 64 s
  hash_fits_iff (some (integer false n)) = hex_digits_iff 64 (decimal n)
  hash_fits_iff (some (integer true n)) = (λ h. cc h, λ h. absurd h)
  hash_fits_iff (some (boolean b)) = (λ h. cc h, λ h. absurd h)
  hash_fits_iff (some (real x)) = (λ h. cc h, λ h. absurd h)
  hash_fits_iff (some (array x)) = (λ h. cc h, λ h. absurd h)
  hash_fits_iff (some (object x)) = (λ h. cc h, λ h. absurd h)

  -- A patch is an object with the four fields, whose old hash is null or fits.
  pub record IsPatch (v : Json R) : Type 0 where
    pub fields : Fields R
    pub is_object : v ≡ object fields
    pub complete : All (λ name. is_there (get name fields) ≡ true) required_fields
    pub hashed : FitsHash (get (codes "oldMethodSha256") fields)

  abbrev pub AllItems : (Json R → Type 0) → Items R → Type 0
  AllItems P no_item = Unit
  AllItems P (item v items) = P v × AllItems P items

  pub record IsPlan (plan : Fields R) : Type 0 where
    pub version : is_version (get (codes "schemaVersion") plan) ≡ true
    pub source : is_truthy (get (codes "sourceForm") plan) ≡ true
    pub place : is_truthy (get (codes "workspace") plan) ≡ true
    pub first : Json R
    pub rest : Items R
    pub patches : get (codes "patches") plan ≡ some (array (item first rest))
    pub good : AllItems IsPatch (item first rest)

  missing_loop-All :
      (i : ℕ) (p : Fields R) (names : List Text)
      → (missing_loop i p names ≡ []) ↔ All (λ name. is_there (get name p) ≡ true) names
  unfolding missing_loop
  missing_loop-All i p [] = (λ _. tt, λ _. refl)
  missing_loop-All i p (name ∷ names) =
      let later = missing_loop-All i p names in
      (
        λ h. let (a, b) = nil-append _ _ h in (unless-nil _ _ a, later.0 b),
        λ (a, b). rw a (later.1 b),
      )

  abbrev errors : ℕ → Fields R → List PlanError
  errors i p =
      missing_loop i p required_fields
      ++ unless (hash_fits (get (codes "oldMethodSha256") p)) (not_sha256 i)

  no_errors :
      (i : ℕ) (p q : Fields R)
      → p ≡ q
      → All (λ name. is_there (get name q) ≡ true) required_fields
      → hash_fits (get (codes "oldMethodSha256") q) ≡ true
      → errors i p ≡ []
  no_errors i p q same complete hashed =
      rw same (rw ((missing_loop-All i q required_fields).1 complete, hashed) refl)

  patch_errors-IsPatch : (i : ℕ) (v : Json R) → (patch_errors i v ≡ some []) ↔ IsPatch v
  unfolding patch_errors
  patch_errors-IsPatch i (object p) =
      let there = missing_loop-All i p required_fields in
      (
        λ h.
            let none_wrong : errors i p ≡ [] = cc h in
            let (a, b) = nil-append (missing_loop i p required_fields) _ none_wrong in
            record {
              fields = p;
              is_object = refl;
              complete = there.0 a;
              hashed = (hash_fits_iff _).0 (unless-nil _ _ b);
            },
        λ good. ap some (
            no_errors i p good.fields (cc good.is_object) good.complete
              ((hash_fits_iff _).1 good.hashed)),
      )
  patch_errors-IsPatch i null = (λ h. absurd (cc h), λ good. absurd (cc good.is_object))
  patch_errors-IsPatch i (boolean b) = (λ h. absurd (cc h), λ good. absurd (cc good.is_object))
  patch_errors-IsPatch i (integer b n) = (λ h. absurd (cc h), λ good. absurd (cc good.is_object))
  patch_errors-IsPatch i (real x) = (λ h. absurd (cc h), λ good. absurd (cc good.is_object))
  patch_errors-IsPatch i (text s) = (λ h. absurd (cc h), λ good. absurd (cc good.is_object))
  patch_errors-IsPatch i (array s) = (λ h. absurd (cc h), λ good. absurd (cc good.is_object))

  items_errors-AllItems :
      (i : ℕ) (items : Items R) → (items_errors i items ≡ some []) ↔ AllItems IsPatch items
  unfolding items_errors
  items_errors-AllItems i no_item = (λ _. tt, λ _. refl)
  items_errors-AllItems i (item v items) =
      let here = patch_errors-IsPatch i v in
      let later = items_errors-AllItems (i + 1) items in
      (
        λ h. let (a, b) = both_errors-nil _ _ h in (here.0 a, later.0 b),
        λ (a, b). rw (here.1 a, later.1 b) refl,
      )

  patches_errors-good :
      (found : Option (Json R))
      → patches_errors found ≡ some []
      → (first : Json R) × (rest : Items R) × (found ≡ some (array (item first rest)))
        × AllItems IsPatch (item first rest)
  patches_errors-good (some (array (item p items))) h =
      (p, items, refl, (items_errors-AllItems 0 (item p items)).0 h)
  patches_errors-good none h = absurd (cc h)
  patches_errors-good (some null) h = absurd (cc h)
  patches_errors-good (some (boolean b)) h = absurd (cc h)
  patches_errors-good (some (integer b n)) h = absurd (cc h)
  patches_errors-good (some (real x)) h = absurd (cc h)
  patches_errors-good (some (text s)) h = absurd (cc h)
  patches_errors-good (some (object s)) h = absurd (cc h)
  patches_errors-good (some (array no_item)) h = absurd (cc h)

  plan_errors-IsPlan : (plan : Fields R) → (plan_errors plan ≡ some []) ↔ IsPlan plan
  unfolding plan_errors
  plan_errors-IsPlan plan = (
    λ h.
        let (heads, tails) : (some (head_errors plan) ≡ some [])
            × (patches_errors (get (codes "patches") plan) ≡ some []) =
          both_errors-nil (some (head_errors plan)) _ h in
        let none_wrong : head_errors plan ≡ [] = cc heads in
        let (a, more) = nil-append _ _ none_wrong in
        let (b, c) = nil-append _ _ more in
        let (first, rest, patches, good) = patches_errors-good _ tails in
        record {
          version = unless-nil _ _ a;
          source = unless-nil _ _ b;
          place = unless-nil _ _ c;
          first = first;
          rest = rest;
          patches = patches;
          good = good;
        },
    λ p.
        rw
          (
            p.version,
            p.source,
            p.place,
            p.patches,
            (items_errors-AllItems 0 (item p.first p.rest)).1 p.good,
          )
          refl,
  )

module _ {R : Reals} (read_json : File → Option (Json R)) where
  checked_iff :
      (p plan : Fields R)
      → (checked_plan read_json p ≡ loaded (some plan) []) ↔ ((p ≡ plan) × IsPlan plan)
  checked_iff p plan = elim (Option-cases (plan_errors p)) [
    | inl broken ↦
        rw (broken, checked_plan)
          (
            λ h. absurd (cc h),
            λ (e, good).
                absurd (cc (sym broken ∙ ap plan_errors e ∙ (plan_errors-IsPlan plan).1 good)),
          )
    | inr (errors, found) ↦
        rw (found, checked_plan)
          (
            λ h.
                let same : p ≡ plan = cc h in
                let none_wrong : errors ≡ [] = cc h in
                (
                  same,
                  (plan_errors-IsPlan plan).0
                      (ap plan_errors (sym same) ∙ found ∙ ap some none_wrong),
                ),
            λ (e, good).
                let none_wrong : errors ≡ [] =
                  cc (sym found ∙ ap plan_errors e ∙ (plan_errors-IsPlan plan).1 good) in
                cc (e, none_wrong),
          )
  ]

  plan_in-IsPlan :
      (v : Option (Json R)) (plan : Fields R)
      → (plan_in read_json v ≡ loaded (some plan) []) ↔ ((v ≡ some (object plan)) × IsPlan plan)
  plan_in-IsPlan none plan = (λ h. absurd (cc h), λ (e, _). absurd (cc e))
  plan_in-IsPlan (some null) plan = (λ h. absurd (cc h), λ (e, _). absurd (cc e))
  plan_in-IsPlan (some (boolean b)) plan = (λ h. absurd (cc h), λ (e, _). absurd (cc e))
  plan_in-IsPlan (some (integer b n)) plan = (λ h. absurd (cc h), λ (e, _). absurd (cc e))
  plan_in-IsPlan (some (real x)) plan = (λ h. absurd (cc h), λ (e, _). absurd (cc e))
  plan_in-IsPlan (some (text s)) plan = (λ h. absurd (cc h), λ (e, _). absurd (cc e))
  plan_in-IsPlan (some (array s)) plan = (λ h. absurd (cc h), λ (e, _). absurd (cc e))
  plan_in-IsPlan (some (object p)) plan =
      let here = checked_iff p plan in
      (
        λ h. let (e, good) = here.0 h in (ap (λ x. some (object x)) e, good),
        λ (e, good). here.1 (cc e, good),
      )

  -- A plan is loaded without an error exactly when its file is there and reads as an object of the
  -- version 1, with a source form and a workspace that Python takes for true, and patches that are
  -- a list which is not empty, of objects with the four fields, whose old hash is null or has 64
  -- hexadecimal digits, which a line break may follow.
  pub load_plan-IsPlan :
      (path : Text) (disk : Disk) (plan : Fields R)
      → (load_plan read_json path disk ≡ loaded (some plan) [])
        ↔ ((f : File) × (disk path ≡ some f) × (read_json f ≡ some (object plan)) × IsPlan plan)
  unfolding load_plan
  load_plan-IsPlan path disk plan = elim (Option-cases (disk path)) [
    | inl lost ↦ rw (lost, load_plan) (λ h. absurd (cc h), λ (f, e, _, _). absurd (cc e))
    | inr (f, there) ↦
        let here = plan_in-IsPlan (read_json f) plan in
        rw (there, load_plan)
          (
            λ h. let (e, good) = here.0 h in (f, refl, e, good),
            λ (g, same, e, good). let one : f ≡ g = cc same in here.1 (ap read_json one ∙ e, good),
          )
  ]

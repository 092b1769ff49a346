-- ===== src/Pipeline/Verified.antt =====
-- What a run of `cmd_validate` that verifies the form says of the source and of final/.
use mcp_vfp9sp2_toolchain.Base.{
  ◌≡◌, refl, ap, sym, ◌∙◌, Bool, true, false, ◌&&◌, Option, none, some, arith,
}
use mcp_vfp9sp2_toolchain.Base.Text.{Text, text_eq_iff}
use mcp_vfp9sp2_toolchain.Safety.{Outcome, ok, forbidden, empty_path, PathSafetyGuard}
use mcp_vfp9sp2_toolchain.Pipeline.Machine.{
  Code, World, Ends, go, stop, M, ◌>>=◌, ◌>>◌, pure, leave, reads, told, writes, step,
}
use mcp_vfp9sp2_toolchain.Pipeline.{
  Setting, write_reports, fail, require, or_fail, check_workspace, hash_source, hash_of,
  source_form, source_sct,
}
use mcp_vfp9sp2_toolchain.Pipeline.Validate.{check_source, same_hash, checks}

pub go-value {ℓ} : {A : Type ℓ} {a b : A} {v w : World} → go a v ≡ go b w → (a ≡ b) × (v ≡ w)
go-value h = (cc h, cc h)

-- A sequence that came to its end went through its first part.
pub >>=-go {ℓ κ} :
    {A : Type ℓ} {B : Type κ} (m : M A) (f : A → M B) {w : World} {b : B} {v : World}
    → (m >>= f) w ≡ go b v
    → (a : A) × (u : World) × (m w ≡ go a u) × (f a u ≡ go b v)
unfolding ◌>>=◌
>>=-go {A = A} m f {w} {b} {v} h = from (m w) h
  where
    from :
        (r : Ends A)
        → (elim r [ go a w' ↦ f a w' | stop e w' ↦ stop e w' ]) ≡ go b v
        → (a : A) × (u : World) × (r ≡ go a u) × (f a u ≡ go b v)
    from (go a u) g = (a, u, refl, g)
    from (stop e u) g = absurd (cc g)

pub >>=-eq-go {ℓ κ} :
    {A : Type ℓ} {B : Type κ} (m : M A) (f : A → M B) (w : World) {a : A} {u : World}
    → m w ≡ go a u
    → (m >>= f) w ≡ f a u
unfolding ◌>>=◌
>>=-eq-go m f w h = ap (λ r. elim r [ go a w' ↦ f a w' | stop e w' ↦ stop e w' ]) h

pub >>-go {ℓ} :
    {B : Type ℓ} (m : M (Unit {0})) (k : M B) {w : World} {b : B} {v : World}
    → (m >> k) w ≡ go b v
    → (u : World) × (m w ≡ go tt u) × (k u ≡ go b v)
unfolding ◌>>◌ ◌>>=◌
>>-go m k h = let (a, u, p, q) = >>=-go m (λ _. k) h in (u, p, q)

module _ (s : Setting) where
  or_fail-go {ℓ} :
      {A : Type ℓ} (r : Outcome A) {w : World} {a : A} {v : World} → or_fail s r w ≡ go a v → v ≡ w
  unfolding or_fail fail write_reports ◌>>◌ ◌>>=◌ told writes pure leave
  or_fail-go (ok a) h = sym (go-value h).1
  or_fail-go (forbidden x) h = absurd (cc h)
  or_fail-go empty_path h = absurd (cc h)

  pub require-go :
      (b : Bool) (c : Code) {w : World} {a : Unit {0}} {v : World}
      → require s b c w ≡ go a v
      → (b ≡ true) × (v ≡ w)
  unfolding require fail write_reports ◌>>◌ ◌>>=◌ told writes pure leave
  require-go true c h = (refl, sym (go-value h).1)
  require-go false c h = absurd (cc h)

  check_workspace-go :
      (w : World) {guard : PathSafetyGuard} {v : World}
      → check_workspace s w ≡ go guard v
      → v.disk ≡ w.disk
  unfolding check_workspace step pure
  check_workspace-go w h =
      let (guard, u, a, h1) = >>=-go _ _ h in
      let (x, b, h2) = >>-go _ _ h1 in
      let (y, c, h3) = >>-go _ _ h2 in
      ap (λ z. z.disk) (sym (go-value h3).1)
      ∙ ap (λ z. z.disk) (sym (go-value c).1)
      ∙ ap (λ z. z.disk) (or_fail-go _ b ∙ or_fail-go _ a)

  hash_source-go :
      (w : World) {hashes : Option Text × Option Text} {v : World}
      → hash_source s w ≡ go hashes v
      → (hashes ≡ (hash_of s w.disk (source_form s), hash_of s w.disk (source_sct s)))
        × (v.disk ≡ w.disk)
  unfolding hash_source ◌>>◌ ◌>>=◌ reads step pure
  hash_source-go w h = (sym (go-value h).0, ap (λ y. y.disk) (sym (go-value h).1))

  same_hash-eq : (a b : Option Text) → same_hash s a b ≡ true → a ≡ b
  same_hash-eq none none h = refl
  same_hash-eq none (some b) h = absurd (cc h)
  same_hash-eq (some a) none h = absurd (cc h)
  same_hash-eq (some a) (some b) h = ap some ((text_eq_iff a b).0 h)

  both : (a b : Bool) → (a && b) ≡ true → (a ≡ true) × (b ≡ true)
  both a b h = ground arith

  check_source-go :
      (hashes : Option Text × Option Text) (w : World) {a : Unit {0}} {v : World}
      → check_source s hashes w ≡ go a v
      → (hash_of s v.disk (source_form s) ≡ hashes.0) × (hash_of s v.disk (source_sct s) ≡ hashes.1)
  unfolding check_source ◌>>◌ ◌>>=◌ reads step
  check_source-go hashes w h =
      let (same, here) = require-go _ _ h in
      let (scx, sct) = both _ _ same in
      (
        ap (λ y. hash_of s y.disk (source_form s)) here ∙ same_hash-eq _ _ scx,
        ap (λ y. hash_of s y.disk (source_sct s)) here ∙ same_hash-eq _ _ sct,
      )

  -- Checks that all pass have found the source with the digests that it had.
  pub checks-go :
      (w : World) {guard : PathSafetyGuard} {v : World}
      → checks s w ≡ go guard v
      → (hash_of s v.disk (source_form s) ≡ hash_of s w.disk (source_form s))
        × (hash_of s v.disk (source_sct s) ≡ hash_of s w.disk (source_sct s))
  unfolding checks pure
  checks-go w h =
      let (guard, w1, a, h1) = >>=-go _ _ h in
      let (hashes, w2, b, h2) = >>=-go _ _ h1 in
      let (w3, _, h3) = >>-go _ _ h2 in
      let (w4, _, h4) = >>-go _ _ h3 in
      let (w5, _, h5) = >>-go _ _ h4 in
      let (w6, _, h6) = >>-go _ _ h5 in
      let (path, w7, _, h7) = >>=-go _ _ h6 in
      let (w8, _, h8) = >>-go _ _ h7 in
      let (w9, c, h9) = >>-go _ _ h8 in
      let (scx, sct) = check_source-go hashes w8 c in
      let start = check_workspace-go w a in
      let before = (hash_source-go w1 b).0 in
      let last = ap (λ y. y.disk) (sym (go-value h9).1) in
      (
        ap (λ d. hash_of s d (source_form s)) last
            ∙ scx
            ∙ ap (λ x. x.0) before
            ∙ ap (λ d. hash_of s d (source_form s)) start,
        ap (λ d. hash_of s d (source_sct s)) last
            ∙ sct
            ∙ ap (λ x. x.1) before
            ∙ ap (λ d. hash_of s d (source_sct s)) start,
      )

-- ===== src/Pipeline/Final.antt =====
-- What a run of `cmd_validate` leaves of the files, by the way it ends.
use mcp_vfp9sp2_toolchain.Base.{
  ◌≡◌, ◌≢◌, refl, sym, ◌∙◌, inl, inr, true, false, Option, [], All, All-map_imp, ap, Bool-cases,
}
use mcp_vfp9sp2_toolchain.Base.Text.{Text, text_eq, text_eq_iff}
use mcp_vfp9sp2_toolchain.Disk.{Disk}
use mcp_vfp9sp2_toolchain.Safety.{ok, PathSafetyGuard, make_guard, is_under}
use mcp_vfp9sp2_toolchain.Safety.Guard.{Settles, make_guard-IsGuard, IsGuard-disjoint}
use mcp_vfp9sp2_toolchain.Pipeline.Machine.{
  Code, World, Exit, emitted, raised, Ends, go, stop, M, ◌>>=◌,
}
use mcp_vfp9sp2_toolchain.Pipeline.{Setting, write_reports, workspace, source_form}
use mcp_vfp9sp2_toolchain.Pipeline.Validate.{
  ended, checks, promote_file, promote, validate, checked_files, promoted_files,
}
use mcp_vfp9sp2_toolchain.Pipeline.Keeps.{Keeps, kept, end_of, Keeps->>=}
use mcp_vfp9sp2_toolchain.Pipeline.Stops.{Stops, stops}
use mcp_vfp9sp2_toolchain.Pipeline.Kept.{Untouched, Differs, checks-kept, write_reports-kept}

-- A part of the run that ends early ends by an exception.
abbrev RaisesOnly {ℓ} : {A : Type ℓ} → M A → Type ℓ
RaisesOnly = Stops (λ e. e ≡ raised) refl

promote-RaisesOnly : (s : Setting) (guard : PathSafetyGuard) → RaisesOnly (promote s guard)
unfolding promote write_reports promote_file
promote-RaisesOnly s guard = search (stops) depth 16

promote-kept :
    (s : Setting) (p : Text)
    → Untouched s p
    → Differs p (checked_files s)
    → Differs p (promoted_files s)
    → (guard : PathSafetyGuard) → Keeps p (promote s guard)
unfolding promote promote_file
promote-kept s p tools other (a, (b, (c, (d, _)))) guard =
    search (kept, write_reports-kept s p tools other) depth 16

-- The files at the end of the command are those at the end of its run.
ended-disk : (r : Ends (Unit {0})) → (ended r).1 ≡ end_of r
unfolding ended end_of
ended-disk (go a w) = refl
ended-disk (stop e w) = refl

-- A run that stops in its second part by an exception, and gives a refusal, has refused in its first.
refused_early {ℓ} :
    {A : Type ℓ} (p : Text) (m : M A) (f : A → M (Unit {0})) (w : World) (code : Option Code)
    → Keeps p m
    → ((a : A) → RaisesOnly (f a))
    → (ended ((m >>= f) w)).0 ≡ emitted false code
    → (ended ((m >>= f) w)).1.disk p ≡ w.disk p
unfolding Keeps Stops end_of ended ◌>>=◌
refused_early {A} p m f w code h k = from (m w) (h w)
  where
    later :
        (r : Ends (Unit {0}))
        → ((e : Exit) (v : World) → r ≡ stop e v → e ≡ raised)
        → (ended r).0 ≡ emitted false code
        → ⊥
    later (go _ v) g q = cc q
    later (stop e v) g q = let r = g e v refl in cc (sym r ∙ q)

    from :
        (r : Ends A)
        → (end_of r).disk p ≡ w.disk p
        → (ended (elim r [ go a w' ↦ f a w' | stop e w' ↦ stop e w' ])).0 ≡ emitted false code
        → (ended (elim r [ go a w' ↦ f a w' | stop e w' ↦ stop e w' ])).1.disk p ≡ w.disk p
    from (go a v) _ q = absurd (later (f a v) (k a v) q)
    from (stop e v) g q = g

module _ (s : Setting) (p : Text) (tools : Untouched s p)
    (other : Differs p (checked_files s)) where
  -- However the command ends, a file that the processes leave alone is as it was, unless it is one
  -- of the four that the checks write or of the four that the promotion writes.
  pub validate-kept :
      Differs p (promoted_files s) → (disk : Disk) → (validate s disk).1.disk p ≡ disk p
  unfolding validate Keeps
  validate-kept fresh disk =
      let run =
        Keeps->>= p (checks s) (promote s) (checks-kept s p tools other)
          (promote-kept s p tools other fresh) in
      rw (ended-disk ((checks s >>= promote s) (record { disk = disk; steps = [] })))
        (run (record { disk = disk; steps = [] }))

  -- A command that refuses leaves every file but the four that its checks write as it was, where
  -- the processes leave it alone: so the files in final/ too.
  pub validate_refused-kept :
      (disk : Disk) (code : Option Code)
      → (validate s disk).0 ≡ emitted false code
      → (validate s disk).1.disk p ≡ disk p
  unfolding validate
  validate_refused-kept disk code h =
      refused_early p (checks s) (promote s) _ code (checks-kept s p tools other)
        (promote-RaisesOnly s) h

pub text_neq : (p q : Text) → p ≢ q → text_eq p q ≡ false
text_neq p q h = elim (Bool-cases (text_eq p q)) [
  | inl same ↦ absurd (h ((text_eq_iff p q).0 same))
  | inr other ↦ other
]

-- On a platform whose canonical paths are their own canonical form: where the guard accepts the two
-- directories and the files that `cmd_validate` writes are under its workspace, no file under its
-- source directory that the processes leave alone is changed.
pub validate-source_kept :
    (s : Setting) (guard : PathSafetyGuard)
    → Settles s.host
    → make_guard s.host s.is_dir (s.converter.os.dirname (source_form s)) (workspace s) ≡ ok guard
    → All (λ q. is_under s.host q guard.workspace ≡ ok true) (checked_files s)
    → All (λ q. is_under s.host q guard.workspace ≡ ok true) (promoted_files s)
    → (p : Text) → Untouched s p
    → is_under s.host p guard.source ≡ ok true
    → (disk : Disk) → (validate s disk).1.disk p ≡ disk p
validate-source_kept s guard settles made checked promoted p tools under disk =
    let sound = make_guard-IsGuard s.host settles _ _ _ guard made in
    let apart : (q : Text) → is_under s.host q guard.workspace ≡ ok true → text_eq q p ≡ false =
      λ q inside. text_neq q p (λ same.
        IsGuard-disjoint s.host p sound under
          (ap (λ x. is_under s.host x guard.workspace) (sym same) ∙ inside)) in
    validate-kept s p tools (All-map_imp (checked_files s) apart checked)
      (All-map_imp (promoted_files s) apart promoted) disk

-- ===== src/Workspace/Kept.antt =====
-- What `cmd_workspace` leaves of the files: it asks the guard about both copies before it writes.
use mcp_vfp9sp2_toolchain.Base.{◌≡◌, refl, sym, ap, ◌∙◌, Bool, true, false, Option, none, some}
use mcp_vfp9sp2_toolchain.Base.Text.{Text, text_eq}
use mcp_vfp9sp2_toolchain.Commands.{demand}
use mcp_vfp9sp2_toolchain.Safety.{
  Host, PathSafetyGuard, Outcome, ok, forbidden, empty_path, make_guard, check_target, is_under,
  is_writable,
}
use mcp_vfp9sp2_toolchain.Safety.Guard.{
  Settles, make_guard-IsGuard, IsGuard-disjoint, is_writable-under,
}
use mcp_vfp9sp2_toolchain.Pipeline.Machine.{Code, World, M, ◌>>=◌, ◌>>◌, pure, leave, or_raise}
use mcp_vfp9sp2_toolchain.Pipeline.{Setting, workspace}
use mcp_vfp9sp2_toolchain.Pipeline.Keeps.{Keeps, kept, end_of, Keeps->>}
use mcp_vfp9sp2_toolchain.Pipeline.Final.{text_neq}
use mcp_vfp9sp2_toolchain.Workspace.{
  Created, or_refuse, hashed, source_dir, copied_scx, copied_sct, manifest_path, checked_guard,
  copy_file, copy_form, record_copies, create, cmd_workspace,
}

module _ (p : Text) where
  pub Keeps-demand : (b : Bool) (c : Code) → Keeps p (demand b c)
  unfolding demand
  Keeps-demand true c = search (kept)
  Keeps-demand false c = search (kept)

  pub Keeps-or_refuse {ℓ} : {A : Type ℓ} (r : Outcome A) → Keeps p (or_refuse r)
  unfolding or_refuse
  Keeps-or_refuse (ok a) = search (kept)
  Keeps-or_refuse (forbidden v) = search (kept)
  Keeps-or_refuse empty_path = search (kept)

  pub Keeps-hashed : (a b : Option Text) → Keeps p (hashed a b)
  unfolding hashed
  Keeps-hashed (some a) (some b) = search (kept)
  Keeps-hashed (some a) none = search (kept)
  Keeps-hashed none b = search (kept)

  -- Behind a call that may raise, its result is known.
  Keeps-raised->>= {ℓ κ} :
      {A : Type ℓ} {B : Type κ} (r : Outcome A) (f : A → M B)
      → ((a : A) → r ≡ ok a → Keeps p (f a))
      → Keeps p (or_raise r >>= f)
  unfolding or_raise Keeps end_of ◌>>=◌ pure leave
  Keeps-raised->>= (ok a) f h = λ w. h a refl w
  Keeps-raised->>= (forbidden v) f h = λ w. refl
  Keeps-raised->>= empty_path f h = λ w. refl

  Keeps-raised->> {ℓ} :
      {B : Type ℓ} (r : Outcome (Unit {0})) (k : M B)
      → (r ≡ ok tt → Keeps p k)
      → Keeps p (or_raise r >> k)
  unfolding ◌>>◌ ◌>>=◌
  Keeps-raised->> r k h = Keeps-raised->>= r (λ _. k) (λ _ e. h e)

module _ (p : Text) where
  -- Behind a guard that may refuse, its result is known.
  pub Keeps-refused->>= {ℓ κ} :
      {A : Type ℓ} {B : Type κ} (r : Outcome A) (f : A → M B)
      → ((a : A) → r ≡ ok a → Keeps p (f a))
      → Keeps p (or_refuse r >>= f)
  unfolding or_refuse Keeps end_of ◌>>=◌ pure leave
  Keeps-refused->>= (ok a) f h = λ w. h a refl w
  Keeps-refused->>= (forbidden v) f h = λ w. refl
  Keeps-refused->>= empty_path f h = λ w. refl

  pub Keeps-refused->> {ℓ} :
      {B : Type ℓ} (r : Outcome (Unit {0})) (k : M B)
      → (r ≡ ok tt → Keeps p k)
      → Keeps p (or_refuse r >> k)
  unfolding ◌>>◌ ◌>>=◌
  Keeps-refused->> r k h = Keeps-refused->>= r (λ _. k) (λ _ e. h e)

-- A target that the guard lets pass is under its workspace.
pub check_target-under :
    (host : Host) (guard : PathSafetyGuard) (q : Text)
    → check_target host guard q ≡ ok tt
    → is_under host q guard.workspace ≡ ok true
unfolding is_writable
check_target-under host guard q h =
    let (_, _, there) = is_writable-under host guard q (rw (h, is_writable) refl) in there

module _ (s : Setting) (json : Created → Text) (p : Text) where
  pub checked_guard-Keeps : Keeps p (checked_guard s json)
  unfolding checked_guard
  checked_guard-Keeps = search (kept, Keeps-or_refuse)

  pub record_copies-Keeps :
      text_eq (manifest_path s json) p ≡ false
      → (shas : Text × Text) → Keeps p (record_copies s json shas)
  unfolding record_copies
  record_copies-Keeps h shas = search (kept, Keeps-demand)

  pub copy_file-Keeps : (a b : Text) → text_eq b p ≡ false → Keeps p (copy_file s json a b)
  unfolding copy_file
  copy_file-Keeps a b h = search (kept)

  -- No file is written by a copy but one that is under the workspace of the guard.
  copy_form-Keeps :
      (guard : PathSafetyGuard)
      → ((q : Text) → is_under s.host q guard.workspace ≡ ok true → text_eq q p ≡ false)
      → Keeps p (copy_form s json guard)
  unfolding copy_form
  copy_form-Keeps guard apart = Keeps-raised->> p _ _ (λ scx. Keeps-raised->> p _ _ (λ sct.
      Keeps->> p _ _
        (copy_file-Keeps _ _ (apart _ (check_target-under s.host guard (copied_scx s json) scx)))
        (copy_file-Keeps _ _ (apart _ (check_target-under s.host guard (copied_sct s json) sct)))))

  one : (a b : PathSafetyGuard) → ok a ≡ ok b → a ≡ b
  one a b h = cc h

  create-Keeps :
      text_eq (manifest_path s json) p ≡ false
      → ((guard : PathSafetyGuard)
          → make_guard s.host s.is_dir (source_dir s json) (workspace s) ≡ ok guard
          → (q : Text) → is_under s.host q guard.workspace ≡ ok true
          → text_eq q p ≡ false)
      → Keeps p (create s json)
  unfolding create
  create-Keeps other apart = Keeps-raised->>= p _ _ (λ guard made.
      search
        (kept, Keeps-hashed, copy_form-Keeps guard (apart guard made), record_copies-Keeps other))

  run : Keeps p (create s json) → Keeps p (cmd_workspace s json)
  unfolding cmd_workspace
  run creates = search (kept, Keeps-demand, checked_guard-Keeps, creates) depth 12

  -- On a platform whose canonical paths are their own canonical form, where the guard of
  -- `cmd_workspace` is constructed and the manifest that the command writes is under its workspace:
  -- however the command ends, no file under the source directory of the guard is changed. The copies
  -- need no such condition, since the guard is asked about them.
  pub cmd_workspace-source_kept :
      Settles s.host
      → (guard : PathSafetyGuard)
      → make_guard s.host s.is_dir (source_dir s json) (workspace s) ≡ ok guard
      → is_under s.host (manifest_path s json) guard.workspace ≡ ok true
      → is_under s.host p guard.source ≡ ok true
      → (w : World) → (end_of (cmd_workspace s json w)).disk p ≡ w.disk p
  unfolding Keeps cmd_workspace
  cmd_workspace-source_kept settles guard made inside under w =
      let sound = make_guard-IsGuard s.host settles _ _ _ guard made in
      let apart : (q : Text) → is_under s.host q guard.workspace ≡ ok true → text_eq q p ≡ false =
        λ q there. text_neq q p (λ same.
          IsGuard-disjoint s.host p sound under
            (ap (λ x. is_under s.host x guard.workspace) (sym same) ∙ there)) in
      let creates : Keeps p (create s json) = create-Keeps (apart _ inside) (λ other same q there.
        apart q
          (ap (λ g. is_under s.host q g.workspace) (one guard other (sym made ∙ same)) ∙ there)) in
      run creates w

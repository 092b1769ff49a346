-- ===== src/Workspace/Copied.antt =====
-- What `cmd_workspace` leaves in the workspace when it succeeds.
use mcp_vfp9sp2_toolchain.Base.{◌≡◌, refl, sym, ap, ◌∙◌, true, false, Option, none, some}
use mcp_vfp9sp2_toolchain.Base.Text.{Text, text_eq}
use mcp_vfp9sp2_toolchain.Commands.Compiled.{exit_of}
use mcp_vfp9sp2_toolchain.Disk.{Disk, File, is_file, put_self}
use mcp_vfp9sp2_toolchain.Safety.{PathSafetyGuard}
use mcp_vfp9sp2_toolchain.Pipeline.Machine.{
  World, emitted, go, ◌>>=◌, pure, leave, reads, writes, opened, found_file,
}
use mcp_vfp9sp2_toolchain.Pipeline.{Setting, source_form}
use mcp_vfp9sp2_toolchain.Pipeline.Keeps.{Keeps, end_of, Keeps-or_raise, Keeps-reads}
use mcp_vfp9sp2_toolchain.Pipeline.Promoted.{Keeps-go}
use mcp_vfp9sp2_toolchain.Pipeline.Stops.{stops}
use mcp_vfp9sp2_toolchain.Pipeline.Verified.{>>-go, go-value}
use mcp_vfp9sp2_toolchain.Workspace.{
  Created, copied_scx, copied_sct, companion_sct, manifest_path, checked_guard, copy_file,
  copy_form, create, cmd_workspace,
}
use mcp_vfp9sp2_toolchain.Workspace.Kept.{
  Keeps-demand, Keeps-hashed, checked_guard-Keeps, record_copies-Keeps, copy_file-Keeps,
}
use mcp_vfp9sp2_toolchain.Workspace.Success.{
  Failing, Failing-demand, Failing-or_refuse, Failing-hashed, demand-go, reads-go, success-go,
  next-go,
}

is_file_same : (p : Text) (d e : Disk) → d p ≡ e p → is_file d p ≡ is_file e p
is_file_same p d e h = rw (h, is_file) refl

module _ (s : Setting) (json : Created → Text) where
  copy_file-go :
      (a b : Text) (w : World) {x : Unit {0}} {v : World}
      → copy_file s json a b w ≡ go x v
      → v.disk b ≡ w.disk a
  unfolding copy_file opened found_file reads writes ◌>>=◌ pure leave
  copy_file-go a b w {x} {v} h = from (w.disk a) h
    where
      from :
          (o : Option File) → ((found_file o >>= λ f. writes b (some f)) w) ≡ go x v → v.disk b ≡ o
      from none k = absurd (cc k)
      from (some f) k = ap (λ y. y.disk b) (sym (go-value k).1) ∙ put_self b (some f) w.disk

  -- The copies stand where they were copied to.
  copy_form-go :
      (guard : PathSafetyGuard) (w : World) {x : Unit {0}} {v : World}
      → text_eq (copied_sct s json) (copied_scx s json) ≡ false
      → text_eq (copied_scx s json) (companion_sct s json) ≡ false
      → copy_form s json guard w ≡ go x v
      → (v.disk (copied_scx s json) ≡ w.disk (source_form s))
        × (v.disk (copied_sct s json) ≡ w.disk (companion_sct s json))
  unfolding copy_form
  copy_form-go guard w apart fresh h =
      let (w1, p1, r1) = >>-go _ _ h in
      let (w2, p2, r2) = >>-go _ _ r1 in
      let (w3, p3, r3) = >>-go _ _ r2 in
      let start : (p : Text) → w2.disk p ≡ w.disk p =
        λ p. Keeps-go p _ (Keeps-or_raise p _) p2 ∙ Keeps-go p _ (Keeps-or_raise p _) p1 in
      let stays = Keeps-go (copied_scx s json) _ (copy_file-Keeps s json _ _ _ apart) r3 in
      let before = Keeps-go (companion_sct s json) _ (copy_file-Keeps s json _ _ _ fresh) p3 in
      (
        stays ∙ copy_file-go _ _ w2 p3 ∙ start (source_form s),
        copy_file-go _ _ w3 r3 ∙ before ∙ start (companion_sct s json),
      )

  Failing-checked_guard : Failing (checked_guard s json)
  unfolding checked_guard
  Failing-checked_guard = search (stops, Failing-or_refuse)

  Failing-copy_form : (guard : PathSafetyGuard) → Failing (copy_form s json guard)
  unfolding copy_form copy_file
  Failing-copy_form guard = search (stops) depth 12

  -- What a successful creation has copied.
  create-copied :
      (w : World)
      → text_eq (copied_sct s json) (copied_scx s json) ≡ false
      → text_eq (copied_scx s json) (companion_sct s json) ≡ false
      → text_eq (manifest_path s json) (copied_scx s json) ≡ false
      → text_eq (manifest_path s json) (copied_sct s json) ≡ false
      → exit_of (create s json w) ≡ emitted true none
      → ((end_of (create s json w)).disk (copied_scx s json) ≡ w.disk (source_form s))
        × ((end_of (create s json w)).disk (copied_sct s json) ≡ w.disk (companion_sct s json))
  unfolding create Keeps
  create-copied w apart fresh scx_other sct_other h =
      let (guard, w1, p1, h1, e1) = success-go _ _ w (search (stops)) h in
      let (hashes, w2, p2, h2, e2) = success-go _ _ w1 (search (stops)) h1 in
      let (shas, w3, p3, h3, e3) = success-go _ _ w2 (Failing-hashed hashes.0 hashes.1) h2 in
      let (w4, p4, h4, e4) = next-go _ _ w3 (Failing-copy_form guard) h3 in
      let (scx, sct) = copy_form-go guard w3 apart fresh p4 in
      let start : (p : Text) → w3.disk p ≡ w.disk p = λ p.
        Keeps-go p _ (Keeps-hashed p hashes.0 hashes.1) p3
        ∙ Keeps-go p _ (Keeps-reads p _) p2
        ∙ Keeps-go p _ (Keeps-or_raise p _) p1 in
      let end : (p : Text)
          → text_eq (manifest_path s json) p ≡ false
          → (end_of (create s json w)).disk p ≡ w4.disk p =
        λ p other.
          ap (λ r. (end_of r).disk p) (e1 ∙ e2 ∙ e3 ∙ e4)
          ∙ record_copies-Keeps s json p other shas w4 in
      (
        end (copied_scx s json) scx_other ∙ scx ∙ start (source_form s),
        end (copied_sct s json) sct_other ∙ sct ∙ start (companion_sct s json),
      )

  -- Where `cmd_workspace` succeeds, the form and its companion were there, and the copies in the
  -- workspace are the two files as they were before it, where the copies and the manifest have
  -- different names, and the copy of the form is not the companion.
  pub cmd_workspace-copied :
      (w : World)
      → text_eq (copied_sct s json) (copied_scx s json) ≡ false
      → text_eq (copied_scx s json) (companion_sct s json) ≡ false
      → text_eq (manifest_path s json) (copied_scx s json) ≡ false
      → text_eq (manifest_path s json) (copied_sct s json) ≡ false
      → exit_of (cmd_workspace s json w) ≡ emitted true none
      → (is_file w.disk (source_form s) ≡ true)
        × (is_file w.disk (companion_sct s json) ≡ true)
        × ((end_of (cmd_workspace s json w)).disk (copied_scx s json) ≡ w.disk (source_form s))
        × ((end_of (cmd_workspace s json w)).disk (copied_sct s json)
            ≡ w.disk (companion_sct s json))
  unfolding cmd_workspace
  cmd_workspace-copied w apart fresh scx_other sct_other h =
      let (there, w1, p1, h1, e1) = success-go _ _ w (search (stops)) h in
      let (w2, p2, h2, e2) = next-go _ _ w1 (Failing-demand there _) h1 in
      let (paired, w3, p3, h3, e3) = success-go _ _ w2 (search (stops)) h2 in
      let (w4, p4, h4, e4) = next-go _ _ w3 (Failing-demand paired _) h3 in
      let (w5, p5, h5, e5) = next-go _ _ w4 Failing-checked_guard h4 in
      let (scx, sct) = create-copied w5 apart fresh scx_other sct_other h5 in
      let middle : (p : Text) → w2.disk p ≡ w.disk p =
        λ p. Keeps-go p _ (Keeps-demand p there _) p2 ∙ Keeps-go p _ (Keeps-reads p _) p1 in
      let start : (p : Text) → w5.disk p ≡ w.disk p = λ p.
        Keeps-go p _ (checked_guard-Keeps s json p) p5
        ∙ Keeps-go p _ (Keeps-demand p paired _) p4
        ∙ Keeps-go p _ (Keeps-reads p _) p3
        ∙ middle p in
      let whole = e1 ∙ e2 ∙ e3 ∙ e4 ∙ e5 in
      (
        sym (reads-go _ w p1) ∙ demand-go there _ w1 p2,
        sym (is_file_same (companion_sct s json) w2.disk w.disk (middle (companion_sct s json)))
            ∙ sym (reads-go _ w2 p3)
            ∙ demand-go paired _ w3 p4,
        ap (λ r. (end_of r).disk (copied_scx s json)) whole ∙ scx ∙ start (source_form s),
        ap (λ r. (end_of r).disk (copied_sct s json)) whole ∙ sct ∙ start (companion_sct s json),
      )

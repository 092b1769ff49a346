-- ===== src/Patching/Stale.antt =====
-- The text that `cmd_patch` reads after the patch is the one that it read before: nothing in the
-- command converts the form again.
use mcp_vfp9sp2_toolchain.Base.{
  ◌≡◌, inl, inr, refl, sym, ap, ◌∙◌, Bool, true, false, ◌||◌, Option, none, some, List, [], ◌∷◌,
  ◌++◌, map, keep, All, All-map_imp, is_empty, arith, Bool-cases,
}
use mcp_vfp9sp2_toolchain.Base.Only.{IsOnly-keep}
use mcp_vfp9sp2_toolchain.Base.Text.{Text, text_eq, text_eq_iff}
use mcp_vfp9sp2_toolchain.Commands.Compiled.{exit_of}
use mcp_vfp9sp2_toolchain.Driver.{Finished}
use mcp_vfp9sp2_toolchain.MethodParser.{Method, parse_methods}
use mcp_vfp9sp2_toolchain.Plan.{or_empty, is_named, check_preconditions}
use mcp_vfp9sp2_toolchain.Plan.Met.{IsMet, check_preconditions_ok}
use mcp_vfp9sp2_toolchain.Patched.{is_kept}
use mcp_vfp9sp2_toolchain.Patched.Last.{IsPromised, verify_patched_methods-IsPromised}
use mcp_vfp9sp2_toolchain.Pipeline.Machine.{World, emitted, go}
use mcp_vfp9sp2_toolchain.Pipeline.{Setting}
use mcp_vfp9sp2_toolchain.Pipeline.Keeps.{Keeps, kept}
use mcp_vfp9sp2_toolchain.Pipeline.Kept.{Untouched}
use mcp_vfp9sp2_toolchain.Pipeline.Promoted.{Keeps-go}
use mcp_vfp9sp2_toolchain.Pipeline.Stops.{stops}
use mcp_vfp9sp2_toolchain.Workspace.Kept.{Keeps-demand, Keeps-or_refuse}
use mcp_vfp9sp2_toolchain.Workspace.Success.{
  demand_same, reads_same, Failing, Failing-demand, Failing-or_refuse, demand-go, reads-go,
  success-go, next-go,
}
use mcp_vfp9sp2_toolchain.Patching.Program.{Edit, patch_of, promise_of}
use mcp_vfp9sp2_toolchain.Patching.{
  RefactorPlan, patch_prg, patch_status, baseline_sc2, code_sha256, decoded, baseline, check_text,
  run_patch, check_patch, is_verified, guard_patch, apply_plan, cmd_patch,
}

module _ {ℓ} {A : Type ℓ} (p : A → Bool) where
  kept_member : (b : List A) (m : A) (a : List A) → p m ≡ true → keep p (b ++ m ∷ a) ≡ [] → ⊥
  kept_member [] m a h e = cc (rw (h, keep) at e)
  kept_member (x ∷ b) m a h e = elim (Bool-cases (p x)) [
    | inl hit ↦ cc (rw (hit, keep) at e)
    | inr miss ↦ kept_member b m a h (rw (miss, keep) at e)
  ]

  -- What passes a test that one member alone passes is this member.
  only_member :
      (b : List A) (m : A) (a : List A) (t : A) → p m ≡ true → keep p (b ++ m ∷ a) ≡ t ∷ [] → m ≡ t
  only_member [] m a t h e = cc (rw (h, keep) at e)
  only_member (x ∷ b) m a t h e = elim (Bool-cases (p x)) [
    | inl hit ↦ absurd (kept_member b m a h (cc (rw (hit, keep) at e)))
    | inr miss ↦ only_member b m a t h (rw (miss, keep) at e)
  ]

nil-split {ℓ} : {A : Type ℓ} (b : List A) (m : A) (a : List A) → [] ≡ b ++ m ∷ a → ⊥
nil-split [] m a h = cc h
nil-split (x ∷ b) m a h = cc h

module _ (s : Setting) (plan : RefactorPlan) where
  Failing-check_text : (text : Option Text) → Failing (check_text s plan text)
  unfolding check_text
  Failing-check_text none = search (stops)
  Failing-check_text (some text) = Failing-demand _ _

  Failing-run_patch : (text : Option Text) → Failing (run_patch s plan text)
  unfolding run_patch
  Failing-run_patch text = search (stops)

  Failing-guard_patch : Failing (guard_patch s plan)
  unfolding guard_patch
  Failing-guard_patch = search (stops, Failing-or_refuse)

  -- A text that passes is empty, or its methods are those that the patches expect.
  check_text-go :
      (text : Text) (w : World) {a : Unit {0}} {v : World}
      → check_text s plan (some text) w ≡ go a v
      → (is_empty text
          || (check_preconditions s.host.casing
              (code_sha256 s plan)
              text
              (map patch_of plan.edits)).0)
        ≡ true
  unfolding check_text
  check_text-go text w h = demand-go _ _ w h

  module _ (p : Text) where
    guard_patch-Keeps : Keeps p (guard_patch s plan)
    unfolding guard_patch
    guard_patch-Keeps = search (kept, Keeps-or_refuse)

    check_text-Keeps : (text : Option Text) → Keeps p (check_text s plan text)
    unfolding check_text
    check_text-Keeps none = search (kept)
    check_text-Keeps (some text) = Keeps-demand p _ _

    run_patch-Keeps :
        Untouched s p
        → text_eq (patch_status s plan) p ≡ false
        → text_eq (patch_prg s plan) p ≡ false
        → (text : Option Text) → Keeps p (run_patch s plan text)
    unfolding run_patch
    run_patch-Keeps tools other fresh text = search (kept, tools)

  -- A check of the patch that succeeds has found every promised method in the text.
  check_patch-verified :
      (w : World) (res : Finished)
      → exit_of (check_patch s plan res w) ≡ emitted true none
      → is_verified s plan w.disk ≡ true
  unfolding check_patch
  check_patch-verified w res h =
      let (w1, p1, h1, _) = next-go _ _ w (Failing-demand _ _) h in
      let (status, w2, p2, h2, _) = success-go _ _ w1 (search (stops)) h1 in
      let (w3, p3, h3, _) = next-go _ _ w2 (Failing-demand _ _) h2 in
      let (verified, w4, p4, h4, _) = success-go _ _ w3 (search (stops)) h3 in
      let (w5, p5, h5, _) = next-go _ _ w4 (Failing-demand _ _) h4 in
      let same : w3 ≡ w = demand_same _ _ w2 p3 ∙ reads_same _ w1 p2 ∙ demand_same _ _ w p1 in
      ap (λ x. is_verified s plan x.disk) (sym same)
      ∙ sym (reads-go _ w3 p4)
      ∙ demand-go verified _ w4 p5

-- The new hash that an edit promises, if it promises one, is the hash it expects before.
abbrev pub IsSameHash : Setting → Edit → Type 0
IsSameHash s e =
    (h : Text)
    → e.new_method_sha256 ≡ some h
    → h ≡ s.host.casing.lower (or_empty e.old_method_sha256)

module _ (s : Setting) where
  edit_same :
      (ms : List Method) (e : Edit)
      → IsMet s.host.casing ms (patch_of e)
      → IsPromised s.host.casing ms (promise_of e)
      → IsSameHash s e
  edit_same ms e met (m, last, holds) h new =
      let named : is_named s.host.casing (patch_of e) m ≡ true =
        (text_eq_iff (s.host.casing.lower m.name) _).1 last.named in
      let one : m ≡ met.target =
        only_member (is_named s.host.casing (patch_of e)) last.before m last.after met.target named
          (ap (keep (is_named s.host.casing (patch_of e))) (sym last.place)
            ∙ IsOnly-keep _ ms met.target met.only) in
      let actual : m.source_sha256 ≡ h =
        (text_eq_iff m.source_sha256 h).0 (rw (new, is_kept) at holds) in
      sym actual ∙ ap (λ x. x.source_sha256) one ∙ met.unchanged

  edits_same :
      (ms : List Method) (edits : List Edit)
      → All (IsMet s.host.casing ms) (map patch_of edits)
      → All (IsPromised s.host.casing ms) (map promise_of edits)
      → All (IsSameHash s) edits
  edits_same ms [] met holds = tt
  edits_same ms (e ∷ edits) (m, met) (k, holds) =
      (edit_same ms e m k, edits_same ms edits met holds)

  none_same :
      (edits : List Edit)
      → All (IsPromised s.host.casing []) (map promise_of edits)
      → All (IsSameHash s) edits
  none_same [] h = tt
  none_same (e ∷ edits) ((m, last, _), h) = absurd (nil-split last.before m last.after last.place)

module _ (s : Setting) (plan : RefactorPlan) where
  text_same :
      (text : Text)
      → (is_empty text
          || (check_preconditions s.host.casing
              (code_sha256 s plan)
              text
              (map patch_of plan.edits)).0)
        ≡ true
      → All
          (IsPromised s.host.casing (parse_methods s.host.casing (code_sha256 s plan) text))
          (map promise_of plan.edits)
      → All (IsSameHash s) plan.edits
  unfolding parse_methods mcp_vfp9sp2_toolchain.MethodParser.strip_continuations
      mcp_vfp9sp2_toolchain.Base.Text.split_lines
  text_same [] met holds = none_same s plan.edits holds
  text_same (c ∷ text) met holds =
      edits_same s _ plan.edits
        ((check_preconditions_ok s.host.casing (code_sha256 s plan) (c ∷ text)
            (map patch_of plan.edits)).0.0
          met)
        holds

  -- What the command reads of the text before the program runs, where it is there after.
  module _ (tools : Untouched s (baseline_sc2 s plan))
      (status : text_eq (patch_status s plan) (baseline_sc2 s plan) ≡ false)
      (program : text_eq (patch_prg s plan) (baseline_sc2 s plan) ≡ false) where
    checked_same :
        (w u : World) (text : Option Text)
        → text ≡ baseline s plan w.disk
        → check_text s plan text w ≡ go tt u
        → (v : World) (res : Finished) → run_patch s plan text u ≡ go res v
        → exit_of (check_patch s plan res v) ≡ emitted true none
        → All (IsSameHash s) plan.edits
    checked_same w u text read p v res q h =
        let (f, there, holds) =
          (verify_patched_methods-IsPromised s.host.casing (code_sha256 s plan) (decoded s plan)
              (baseline_sc2 s plan) (map promise_of plan.edits) v.disk).0
            (check_patch-verified s plan v res h) in
        let before : w.disk (baseline_sc2 s plan) ≡ some f =
          sym (Keeps-go _ _ (check_text-Keeps s plan _ text) p)
          ∙ sym (Keeps-go _ _ (run_patch-Keeps s plan _ tools status program text) q)
          ∙ there in
        let same : text ≡ some (decoded s plan f) = read ∙ rw (before, baseline) refl in
        text_same (decoded s plan f)
          (check_text-go s plan (decoded s plan f) w
            (ap (λ t. check_text s plan t w) (sym same) ∙ p))
          holds

-- A patch that succeeds promised no new hash, or the one that the method had before: the text that
-- is checked after the run is the `.sc2` file of the validation from before it, which neither the
-- command nor, as supposed, a process writes. The status file and the program are not this file.
pub cmd_patch-stale :
    (s : Setting) (plan : RefactorPlan) (w : World)
    → Untouched s (baseline_sc2 s plan)
    → text_eq (patch_status s plan) (baseline_sc2 s plan) ≡ false
    → text_eq (patch_prg s plan) (baseline_sc2 s plan) ≡ false
    → exit_of (cmd_patch s (some plan) w) ≡ emitted true none
    → All (IsSameHash s) plan.edits
unfolding cmd_patch apply_plan
cmd_patch-stale s plan w tools status program h =
    let (w1, p1, h1, _) = next-go _ _ w (Failing-guard_patch s plan) h in
    let (there, w2, p2, h2, _) = success-go _ _ w1 (search (stops)) h1 in
    let (w3, p3, h3, _) = next-go _ _ w2 (Failing-demand _ _) h2 in
    let (text, w4, p4, h4, _) = success-go _ _ w3 (search (stops)) h3 in
    let (w5, p5, h5, _) = next-go _ _ w4 (Failing-check_text s plan text) h4 in
    let (res, w6, p6, h6, _) = success-go _ _ w5 (Failing-run_patch s plan text) h5 in
    checked_same s plan tools status program w4 w5 text
      (reads-go _ w3 p4 ∙ ap (λ x. baseline s plan x.disk) (sym (reads_same _ w3 p4))) p5 w6 res p6
      h6

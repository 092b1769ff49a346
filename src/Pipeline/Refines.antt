-- ===== src/Pipeline/Refines.antt =====
-- `cmd_validate` is a run of the machine of stages.
use mathlib.Core.List.{append-nil}
use mathlib.Core.Path.{subst}
use mcp_vfp9sp2_toolchain.Base.{
  ◌≡◌, refl, sym, ◌∙◌, Bool, true, false, Option, none, List, [], ◌∷◌, any,
}
use mcp_vfp9sp2_toolchain.Base.Text.{Text}
use mcp_vfp9sp2_toolchain.Disk.{Disk}
use mcp_vfp9sp2_toolchain.Safety.{PathSafetyGuard}
use mcp_vfp9sp2_toolchain.Pipeline.Machine.{
  Label, is_label, ws_safety, src_sha_pre, copies_ok, compile_ok, roundtrip_ok, static_ok,
  source_sc2_ok, inv_objects_ok, inv_methods_ok, src_sha_post, promote_final, Code,
  source_path_write_forbidden, workspace_not_found, compile_error, roundtrip_failed,
  static_validation_failed, form_structure_changed, critical_source_mutation, World, emitted, Ends,
  go, stop, ◌>>=◌,
}
use mcp_vfp9sp2_toolchain.Pipeline.{
  Setting, write_reports, check_workspace, hash_source, check_copies, run_compile, check_compile,
  convert, run_roundtrip, check_roundtrip,
}
use mcp_vfp9sp2_toolchain.Pipeline.Validate.{
  ended, read_sc2_text, check_static, find_source_sc2, check_inventories, check_source, checks,
  promote_file, promote, validate,
}
use mcp_vfp9sp2_toolchain.Pipeline.Protocol.{
  gate, note, test, act, Run, finished, stages, Complete, Run-Complete,
}
use mcp_vfp9sp2_toolchain.Pipeline.Stages.{verdicts, Moves, Does, Does->>=, Does->>}
use mcp_vfp9sp2_toolchain.Pipeline.Silent.{
  Silent, Silent-Does, Silent-pure, Silent-reads, Silent-writes, Silent-runs, Silent-or_raise,
  Does-after, Does-then, silent,
}
use mcp_vfp9sp2_toolchain.Pipeline.Recorded.{
  Does-note, Does-act, Does-gate, Does-or_fail, Does-or_fail_then, Does-test, Does-test_then,
  Does-test_both,
}
use mcp_vfp9sp2_toolchain.Pipeline.Graded.{Grades-step, Grades-after, Grades-then, Does-graded}

module _ (s : Setting) where
  Silent-convert : (inp : Text) → Silent (convert s inp)
  Silent-convert inp = search (silent)

  Silent-read_sc2_text : (q : Text) → Silent (read_sc2_text s q)
  unfolding read_sc2_text
  Silent-read_sc2_text q = search (silent)

  Silent-promote_file : (p q : Text) → Silent (promote_file s p q)
  unfolding promote_file
  Silent-promote_file p q = search (silent) depth 9

  Silent-write_reports : (b : Bool) (c : Option Code) → Silent (write_reports s b c)
  unfolding write_reports
  Silent-write_reports b c = search (silent)

  module _ (past : List Label) where
    Does-check_workspace :
        Does past (gate ws_safety source_path_write_forbidden ∷ []) (check_workspace s)
    unfolding check_workspace
    Does-check_workspace = Does-or_fail ws_safety past s _ _ (λ guard.
        Does-or_fail_then ws_safety past s _ _ (
          Does->> past (gate ws_safety source_path_write_forbidden ∷ []) [] _ _
            (Does-gate ws_safety past _ none) (Silent-Does _ _ (Silent-pure guard))))

    Does-check_copies : Does past (test (copies_ok ∷ []) workspace_not_found ∷ []) (check_copies s)
    unfolding check_copies
    Does-check_copies =
        Does-after past _ _ _ (Silent-reads _) (λ b. Does-test copies_ok past s b _ _)

    Does-check_static :
        Does past (test (static_ok ∷ []) static_validation_failed ∷ []) (check_static s)
    unfolding check_static
    Does-check_static =
        Does-after past _ _ _ (Silent-read_sc2_text _) (λ b. Does-test static_ok past s _ _ _)

    Does-check_source :
        (h : Option Text × Option Text)
        → Does past (test (src_sha_post ∷ []) critical_source_mutation ∷ []) (check_source s h)
    unfolding check_source
    Does-check_source h =
        Does-after past _ _ _ (Silent-reads _) (λ b. Does-test src_sha_post past s b _ _)

    Does-find_source_sc2 :
        Does past (test (source_sc2_ok ∷ []) roundtrip_failed ∷ []) (find_source_sc2 s)
    unfolding find_source_sc2
    Does-find_source_sc2 = Does-after past _ _ _ (Silent-reads _) (λ there.
        Does-after past _ _ _ (search (silent)) (λ path.
          Does-after past _ _ _ (Silent-reads _)
            (λ found. Does-test_then source_sc2_ok past s found _ _ path)))

    Does-hash_source : Does past (note src_sha_pre ∷ []) (hash_source s)
    unfolding hash_source
    Does-hash_source = Does-after past _ _ _ (Silent-reads _) (λ h.
        Does->> past (note src_sha_pre ∷ []) [] _ _ (Does-note src_sha_pre past _ none)
          (Silent-Does _ _ (Silent-pure h)))

    Does-check_inventories :
        (q : Text)
        → Does past
            (test (inv_objects_ok ∷ inv_methods_ok ∷ []) form_structure_changed ∷ [])
            (check_inventories s q)
    unfolding check_inventories
    Does-check_inventories q = Does-after past _ _ _ (Silent-reads _) (λ patches.
        Does-after past _ _ _ (Silent-read_sc2_text q) (λ source.
          Does-after past _ _ _ (Silent-read_sc2_text _)
            (λ final. Does-test_both inv_objects_ok past s inv_methods_ok _ _ none _)))

    Does-check_compile :
        any (λ k. is_label k compile_ok) past ≡ false
        → Does past (test (compile_ok ∷ []) compile_error ∷ []) (check_compile s)
    unfolding check_compile run_compile is_label
    Does-check_compile fresh = Does-graded s compile_ok past compile_error _ refl fresh (
        Grades-then _ _ _ (Silent-writes _ _) (
          Grades-then _ _ _ (Silent-writes _ _) (
            Grades-after _ _ _ (Silent-runs _)
              (λ res. Grades-after _ _ _ (Silent-reads _) (λ status. Grades-step _ _ _)))))

    Does-check_roundtrip :
        any (λ k. is_label k roundtrip_ok) past ≡ false
        → Does past (test (roundtrip_ok ∷ []) roundtrip_failed ∷ []) (check_roundtrip s)
    unfolding check_roundtrip run_roundtrip is_label
    Does-check_roundtrip fresh = Does-graded s roundtrip_ok past roundtrip_failed _ refl fresh (
        Grades-after _ _ _ (Silent-convert _)
          (λ res. Grades-after _ _ _ (Silent-reads _) (λ there. Grades-step _ _ _)))

    Does-promote : (guard : PathSafetyGuard) → Does past (act promote_final ∷ []) (promote s guard)
    unfolding promote
    Does-promote guard = Does-then past _ _ _ (Silent-promote_file _ _) (
        Does-then past _ _ _ (Silent-promote_file _ _) (
          Does-then past _ _ _ (Silent-or_raise _) (
            Does->> past (act promote_final ∷ []) [] _ _ (Does-act promote_final past none)
              (Silent-Does _ _ (Silent-write_reports _ _)))))

  Does-checks :
      Does []
        (gate ws_safety source_path_write_forbidden
          ∷ note src_sha_pre
          ∷ test (copies_ok ∷ []) workspace_not_found
          ∷ test (compile_ok ∷ []) compile_error
          ∷ test (roundtrip_ok ∷ []) roundtrip_failed
          ∷ test (static_ok ∷ []) static_validation_failed
          ∷ test (source_sc2_ok ∷ []) roundtrip_failed
          ∷ test (inv_objects_ok ∷ inv_methods_ok ∷ []) form_structure_changed
          ∷ test (src_sha_post ∷ []) critical_source_mutation
          ∷ [])
        (checks s)
  unfolding checks is_label
  Does-checks = Does->>= _ (_ ∷ []) _ _ _ (Does-check_workspace _) (λ guard.
      Does->>= _ (_ ∷ []) _ _ _ (Does-hash_source _) (λ hashes.
        Does->> _ (_ ∷ []) _ _ _ (Does-check_copies _) (
          Does->> _ (_ ∷ []) _ _ _ (Does-check_compile _ refl) (
            Does->> _ (_ ∷ []) _ _ _ (Does-check_roundtrip _ refl) (
              Does->> _ (_ ∷ []) _ _ _ (Does-check_static _) (
                Does->>= _ (_ ∷ []) _ _ _ (Does-find_source_sc2 _) (λ path.
                  Does->> _ (_ ∷ []) _ _ _ (Does-check_inventories _ path) (
                    Does->> _ (_ ∷ []) [] _ _ (Does-check_source _ hashes)
                      (Silent-Does _ _ (Silent-pure guard))))))))))

  -- The steps of the report and the exit of the command are those of a run of the machine of stages,
  -- whatever the tools do: the stages come in order, each but the hashes before is passed before the
  -- next, and a refusal has the code of its stage.
  pub validate_refines :
      (disk : Disk) → Run stages (verdicts (validate s disk).1.steps) (validate s disk).0
  unfolding validate ended Does Moves ◌>>=◌
  validate_refines disk = from ((checks s >>= promote s) start) (whole start refl)
    where
      start : World
      start = record { disk = disk; steps = [] }

      whole : Does [] stages (checks s >>= promote s)
      whole = Does->>= [] _ (act promote_final ∷ []) _ _ Does-checks (Does-promote _)

      from :
          (r : Ends (Unit {0}))
          → Moves stages [] r
          → Run stages (verdicts (ended r).1.steps) (ended r).0
      from (go a v) p =
          subst (λ x. Run stages x (emitted true none)) (append-nil p.new ∙ sym p.added)
            (p.go_on finished)
      from (stop e v) p = subst (λ x. Run stages x e) (sym p.added) (p.halt [])

  -- A command that verifies the form has recorded every step in order, each as passed but the hashes
  -- of the source before, which are recorded whatever they are.
  pub validate_verified :
      (disk : Disk) (code : Option Code)
      → (validate s disk).0 ≡ emitted true code
      → (b : Bool) × (verdicts (validate s disk).1.steps ≡ (
          (ws_safety, true)
          ∷ (src_sha_pre, b)
          ∷ (copies_ok, true)
          ∷ (compile_ok, true)
          ∷ (roundtrip_ok, true)
          ∷ (static_ok, true)
          ∷ (source_sc2_ok, true)
          ∷ (inv_objects_ok, true)
          ∷ (inv_methods_ok, true)
          ∷ (src_sha_post, true)
          ∷ (promote_final, true)
          ∷ []))
  unfolding Complete
  validate_verified disk code h =
      let (
        _,
        e1,
        (b, _, e2, (_, e3, (_, e4, (_, e5, (_, e6, (_, e7, (_, e8, (_, e9, (_, e10, e11))))))))),
      ) =
        Run-Complete code (validate_refines disk) h in
      (b, rw (e1, e2, e3, e4, e5, e6, e7, e8, e9, e10, e11) refl)

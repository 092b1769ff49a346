-- ===== src/Pipeline/Protocol.antt =====
-- What `cmd_validate` promises of its report: a machine that passes the stages in order, and stops
-- at the first that fails.
use mcp_vfp9sp2_toolchain.Base.{
  ◌≡◌, refl, Bool, true, false, Option, none, some, List, [], ◌∷◌, ◌++◌,
}
use mcp_vfp9sp2_toolchain.Pipeline.Machine.{
  Label, ws_safety, src_sha_pre, copies_ok, compile_ok, roundtrip_ok, static_ok, source_sc2_ok,
  inv_objects_ok, inv_methods_ok, src_sha_post, promote_final, Code, source_path_write_forbidden,
  workspace_not_found, compile_error, roundtrip_failed, static_validation_failed,
  form_structure_changed, critical_source_mutation, Exit, emitted, raised,
}

-- A gate records nothing when it refuses; a note is recorded, whatever it says; a test records the
-- same verdict under each of its labels, and refuses where it is false; an act can only be done.
pub data Stage : Type 0 where
  gate : Label → Code → Stage
  note : Label → Stage
  test : List Label → Code → Stage
  act : Label → Stage

abbrev pub Verdicts : Type 0
Verdicts = List (Label × Bool)

abbrev pub marks : List Label → Bool → Verdicts
marks [] b = []
marks (l ∷ ls) b = (l, b) ∷ marks ls b

-- The verdicts that are recorded on the way to an exit.
pub data Run : List Stage → Verdicts → Exit → Type 0 where
  finished : Run [] [] (emitted true none)
  crashed : (stages : List Stage) → Run stages [] raised
  shut :
      (l : Label) (c : Code) (rest : List Stage) → Run (gate l c ∷ rest) [] (emitted false (some c))
  entered :
      {rest : List Stage} {vs : Verdicts} {e : Exit} (l : Label) (c : Code)
      → Run rest vs e
      → Run (gate l c ∷ rest) ((l, true) ∷ vs) e
  noted :
      {rest : List Stage} {vs : Verdicts} {e : Exit} (l : Label) (b : Bool)
      → Run rest vs e
      → Run (note l ∷ rest) ((l, b) ∷ vs) e
  passed :
      {rest : List Stage} {vs : Verdicts} {e : Exit} (ls : List Label) (c : Code)
      → Run rest vs e
      → Run (test ls c ∷ rest) (marks ls true ++ vs) e
  refused :
      (ls : List Label) (c : Code) (rest : List Stage)
      → Run (test ls c ∷ rest) (marks ls false) (emitted false (some c))
  done :
      {rest : List Stage} {vs : Verdicts} {e : Exit} (l : Label)
      → Run rest vs e
      → Run (act l ∷ rest) ((l, true) ∷ vs) e

-- The stages of `cmd_validate`.
abbrev pub stages : List Stage
stages =
    gate ws_safety source_path_write_forbidden
    ∷ note src_sha_pre
    ∷ test (copies_ok ∷ []) workspace_not_found
    ∷ test (compile_ok ∷ []) compile_error
    ∷ test (roundtrip_ok ∷ []) roundtrip_failed
    ∷ test (static_ok ∷ []) static_validation_failed
    ∷ test (source_sc2_ok ∷ []) roundtrip_failed
    ∷ test (inv_objects_ok ∷ inv_methods_ok ∷ []) form_structure_changed
    ∷ test (src_sha_post ∷ []) critical_source_mutation
    ∷ act promote_final
    ∷ []

-- Every stage was passed.
unfoldable pub Complete : List Stage → Verdicts → Type 0
Complete [] vs = vs ≡ []
Complete (gate l c ∷ rest) vs = (us : Verdicts) × (vs ≡ (l, true) ∷ us) × Complete rest us
Complete (note l ∷ rest) vs = (b : Bool) × (us : Verdicts) × (vs ≡ (l, b) ∷ us) × Complete rest us
Complete (test ls c ∷ rest) vs = (us : Verdicts) × (vs ≡ marks ls true ++ us) × Complete rest us
Complete (act l ∷ rest) vs = (us : Verdicts) × (vs ≡ (l, true) ∷ us) × Complete rest us

pub Run-Complete :
    {sts : List Stage} {vs : Verdicts} {e : Exit} (c : Option Code)
    → Run sts vs e
    → e ≡ emitted true c
    → Complete sts vs
unfolding Complete
Run-Complete c finished h = refl
Run-Complete c (crashed sts) h = absurd (cc h)
Run-Complete c (shut l k rest) h = absurd (cc h)
Run-Complete c (entered l k r) h = (_, refl, Run-Complete c r h)
Run-Complete c (noted l b r) h = (b, _, refl, Run-Complete c r h)
Run-Complete c (passed ls k r) h = (_, refl, Run-Complete c r h)
Run-Complete c (refused ls k rest) h = absurd (cc h)
Run-Complete c (done l r) h = (_, refl, Run-Complete c r h)

-- ===== src/Pipeline/Graded.antt =====
-- Parts of a run of `cmd_validate` that record a step, which is looked up in the report.
use mathlib.Core.List.{append-nil, map-append}
use mathlib.Core.Path.{subst}
use mcp_vfp9sp2_toolchain.Base.{
  ◌≡◌, refl, ap, sym, ◌∙◌, inl, inr, Bool, true, false, Option, List, [], ◌∷◌, ◌++◌, any,
  Bool-cases,
}
use mcp_vfp9sp2_toolchain.Pipeline.Machine.{
  Label, is_label, Code, Step, World, raised, Ends, go, stop, M, ◌>>=◌, ◌>>◌, pure, leave, told,
  writes, step,
}
use mcp_vfp9sp2_toolchain.Pipeline.{
  Setting, write_reports, fail, require, has_passed, passed_or_fail,
}
use mcp_vfp9sp2_toolchain.Pipeline.Protocol.{test, Run, crashed, passed, refused}
use mcp_vfp9sp2_toolchain.Pipeline.Stages.{verdicts, labels, Moves, Does}
use mcp_vfp9sp2_toolchain.Pipeline.Silent.{Silent, SameSteps}

-- One step is recorded under the label, whatever it says.
unfoldable Graded {ℓ} : {A : Type ℓ} → Label → List Step → Ends A → Type 0
Graded l before (go a w) =
    (b : Bool) × (x : Option Code) × (w.steps
      ≡ before ++ record { label = l; ok = b; error_code = x } ∷ [])
Graded l before (stop e w) = (w.steps ≡ before) × (e ≡ raised)

unfoldable pub Grades {ℓ} : {A : Type ℓ} → Label → M A → Type 0
unfolding Graded
Grades l m = (w : World) → Graded l w.steps (m w)

pub Grades-step : (l : Label) (b : Bool) (x : Option Code) → Grades l (step l b x)
unfolding Grades Graded step
Grades-step l b x w = (b, x, refl)

pub Grades-after {ℓ κ} :
    {A : Type ℓ} {B : Type κ} (l : Label) (m : M A) (f : A → M B)
    → Silent m
    → ((a : A) → Grades l (f a))
    → Grades l (m >>= f)
unfolding Grades Graded Silent SameSteps ◌>>=◌
Grades-after {A = A} {B = B} l m f h k w = from (m w) (h w)
  where
    moved : (ss : List Step) (r : Ends B) → ss ≡ w.steps → Graded l ss r → Graded l w.steps r
    moved ss (go a v) q (b, x, p) =
        (b, x, p ∙ ap (λ y. y ++ record { label = l; ok = b; error_code = x } ∷ []) q)
    moved ss (stop e v) q (p, x) = (p ∙ q, x)

    from :
        (r : Ends A)
        → SameSteps w.steps r
        → Graded l w.steps (elim r [ go a w' ↦ f a w' | stop e w' ↦ stop e w' ])
    from (go a v) p = moved v.steps (f a v) p (k a v)
    from (stop e v) p = p

pub Grades-then {ℓ} :
    {B : Type ℓ} (l : Label) (m : M (Unit {0})) (k : M B)
    → Silent m
    → Grades l k
    → Grades l (m >> k)
unfolding ◌>>◌ ◌>>=◌
Grades-then l m k h g = Grades-after l m (λ _. k) h (λ _. g)

-- A step is found by its label where it is the first with that label.
has_passed-last :
    (l : Label) (b : Bool) (x : Option Code) (ss : List Step)
    → is_label l l ≡ true
    → any (λ k. is_label k l) (labels (verdicts ss)) ≡ false
    → has_passed l (ss ++ record { label = l; ok = b; error_code = x } ∷ []) ≡ b
has_passed-last l true x [] self h = rw self refl
has_passed-last l false x [] self h = rw self refl
has_passed-last l b x (t ∷ ss) self h = elim (Bool-cases (is_label t.label l)) [
  | inl hit ↦ absurd (cc (rw hit at h))
  | inr miss ↦ rw miss (has_passed-last l b x ss self (rw miss at h))
]

module _ (s : Setting) (l : Label) (past : List Label) (c : Code) where
  -- A step that is looked up in the report, and tested.
  pub Does-graded :
      (m : M (Unit {0}))
      → is_label l l ≡ true
      → any (λ k. is_label k l) past ≡ false
      → Grades l m
      → Does past (test (l ∷ []) c ∷ []) (m >> passed_or_fail s l c)
  unfolding Grades Graded Does Moves ◌>>◌ passed_or_fail ◌>>=◌ told require fail write_reports pure
      leave writes
  Does-graded m self fresh h w before = from (m w) (h w)
    where
      tested :
          (b : Bool) (x : Option Code) (v : World)
          → v.steps ≡ w.steps ++ record { label = l; ok = b; error_code = x } ∷ []
          → Moves (test (l ∷ []) c ∷ []) w.steps (require s b c v)
      tested true x v p = record {
        new = (l, true) ∷ [];
        added = ap verdicts p ∙ map-append _ w.steps _;
        order = refl;
        go_on = λ {rest} {vs} {e} r. passed (l ∷ []) c r;
      }
      tested false x v p = record {
        new = (l, false) ∷ [];
        added = ap verdicts p ∙ map-append _ w.steps _;
        halt = λ rest. refused (l ∷ []) c rest;
      }

      from :
          (r : Ends (Unit {0}))
          → Graded l w.steps r
          → Moves (test (l ∷ []) c ∷ []) w.steps (elim r [
            | go _ w' ↦ (told >>= λ ss. require s (has_passed l ss) c) w'
            | stop e w' ↦ stop e w'
          ])
      from (go a v) (b, x, p) =
          let same : has_passed l v.steps ≡ b =
            ap (has_passed l) p
            ∙ has_passed-last l b x w.steps self (ap (any (λ k. is_label k l)) before ∙ fresh) in
          rw same (tested b x v p)
      from (stop e v) (p, q) = record {
        new = [];
        added = ap verdicts p ∙ sym (append-nil (verdicts w.steps));
        halt = λ rest. subst (Run (test (l ∷ []) c ∷ rest) []) (sym q) (crashed _);
      }

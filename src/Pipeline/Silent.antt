-- ===== src/Pipeline/Silent.antt =====
-- Parts of a run that record nothing, and end early only by an exception.
use mathlib.Core.List.{append-nil}
use mathlib.Core.Path.{subst}
use mcp_vfp9sp2_toolchain.Base.{
  ◌≡◌, refl, ap, sym, ◌∙◌, Bool, true, false, Option, none, some, List, [], ◌++◌, if◌then◌else◌,
}
use mcp_vfp9sp2_toolchain.Base.Text.{Text}
use mcp_vfp9sp2_toolchain.Disk.{Disk, File}
use mcp_vfp9sp2_toolchain.Safety.{Outcome, ok, forbidden, empty_path}
use mcp_vfp9sp2_toolchain.Pipeline.Machine.{
  Label, Step, World, raised, Ends, go, stop, M, ◌>>=◌, ◌>>◌, pure, leave, reads, told, runs,
  writes, or_raise, found_file, opened,
}
use mcp_vfp9sp2_toolchain.Pipeline.Protocol.{Stage, Run, crashed}
use mcp_vfp9sp2_toolchain.Pipeline.Stages.{verdicts, Moves, Does, Does->>=}

unfoldable pub SameSteps {ℓ} : {A : Type ℓ} → List Step → Ends A → Type 0
SameSteps before (go a w) = w.steps ≡ before
SameSteps before (stop e w) = (w.steps ≡ before) × (e ≡ raised)

unfoldable pub Silent {ℓ} : {A : Type ℓ} → M A → Type 0
Silent m = (w : World) → SameSteps w.steps (m w)

pub Silent->>= {ℓ κ} :
    {A : Type ℓ} {B : Type κ} (m : M A) (f : A → M B)
    → Silent m
    → ((a : A) → Silent (f a))
    → Silent (m >>= f)
unfolding Silent SameSteps ◌>>=◌
Silent->>= {A = A} {B = B} m f h k w = from (m w) (h w)
  where
    moved : (ss : List Step) (r : Ends B) → w.steps ≡ ss → SameSteps ss r → SameSteps w.steps r
    moved ss (go a v) q p = p ∙ sym q
    moved ss (stop e v) q (p, x) = (p ∙ sym q, x)

    from :
        (r : Ends A)
        → SameSteps w.steps r
        → SameSteps w.steps (elim r [ go a w' ↦ f a w' | stop e w' ↦ stop e w' ])
    from (go a v) p = moved v.steps (f a v) (sym p) (k a v)
    from (stop e v) p = p

pub Silent->> {ℓ} :
    {B : Type ℓ} (m : M (Unit {0})) (k : M B) → Silent m → Silent k → Silent (m >> k)
unfolding ◌>>◌ ◌>>=◌
Silent->> m k h g = Silent->>= m (λ _. k) h (λ _. g)

pub Silent-pure {ℓ} : {A : Type ℓ} (a : A) → Silent (pure a)
unfolding Silent SameSteps pure
Silent-pure a w = refl

pub Silent-raised {ℓ} : (A : Type ℓ) → Silent (leave {A = A} raised)
unfolding Silent SameSteps leave
Silent-raised A w = (refl, refl)

pub Silent-reads {ℓ} : {A : Type ℓ} (f : Disk → A) → Silent (reads f)
unfolding Silent SameSteps reads
Silent-reads f w = refl

pub Silent-told : Silent told
unfolding Silent SameSteps told
Silent-told w = refl

pub Silent-runs {ℓ} : {A : Type ℓ} (f : Disk → A × Disk) → Silent (runs f)
unfolding Silent SameSteps runs
Silent-runs f w = refl

pub Silent-writes : (p : Text) (f : Option File) → Silent (writes p f)
unfolding Silent SameSteps writes
Silent-writes p f w = refl

pub Silent-or_raise {ℓ} : {A : Type ℓ} (r : Outcome A) → Silent (or_raise r)
unfolding or_raise
Silent-or_raise (ok a) = Silent-pure a
Silent-or_raise (forbidden v) = Silent-raised _
Silent-or_raise empty_path = Silent-raised _

pub Silent-found_file : (f : Option File) → Silent (found_file f)
unfolding found_file
Silent-found_file none = Silent-raised _
Silent-found_file (some f) = Silent-pure f

pub Silent-opened : (q : Text) → Silent (opened q)
unfolding opened
Silent-opened q = Silent->>= _ _ (Silent-reads _) Silent-found_file

pub Silent-if {ℓ} :
    {A : Type ℓ} (b : Bool) (m n : M A) → Silent m → Silent n → Silent (if b then m else n)
Silent-if true m n h k = h
Silent-if false m n h k = k

-- A silent part does no stage.
pub Silent-Does {ℓ} : {A : Type ℓ} (past : List Label) (m : M A) → Silent m → Does past [] m
unfolding Silent SameSteps Does Moves
Silent-Does {A} past m h w before = from (m w) (h w)
  where
    same : (ss : List Step) → ss ≡ w.steps → verdicts ss ≡ verdicts w.steps ++ []
    same ss p = ap verdicts p ∙ sym (append-nil (verdicts w.steps))

    from : (r : Ends A) → SameSteps w.steps r → Moves [] w.steps r
    from (go a v) p = record {
      new = [];
      added = same v.steps p;
      order = refl;
      go_on = λ {rest} {vs} {e} r. r;
    }
    from (stop e v) (p, q) = record {
      new = [];
      added = same v.steps p;
      halt = λ rest. subst (Run rest []) (sym q) (crashed rest);
    }

-- A silent part before other parts.
pub Does-after {ℓ κ} :
    {A : Type ℓ} {B : Type κ} (past : List Label) (sts : List Stage) (m : M A) (f : A → M B)
    → Silent m
    → ((a : A) → Does past sts (f a))
    → Does past sts (m >>= f)
Does-after past sts m f h k =
    Does->>= past [] sts m f (Silent-Does past m h)
      (λ a. subst (λ x. Does x sts (f a)) (sym (append-nil past)) (k a))

pub ruleset silent = (
  Silent->>=, Silent->>, Silent-pure, Silent-reads, Silent-told, Silent-runs, Silent-writes,
  Silent-or_raise, Silent-opened, Silent-if,
)

pub Does-then {ℓ} :
    {B : Type ℓ} (past : List Label) (sts : List Stage) (m : M (Unit {0})) (k : M B)
    → Silent m
    → Does past sts k
    → Does past sts (m >> k)
unfolding ◌>>◌ ◌>>=◌
Does-then past sts m k h g = Does-after past sts m (λ _. k) h (λ _. g)

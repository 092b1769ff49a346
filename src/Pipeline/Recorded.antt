-- ===== src/Pipeline/Recorded.antt =====
-- Parts of a run of `cmd_validate` that record steps.
use mathlib.Core.List.{append-nil, map-append}
use mcp_vfp9sp2_toolchain.Base.{◌≡◌, refl, ap, sym, Bool, true, false, Option, List, [], ◌∷◌, ◌++◌}
use mcp_vfp9sp2_toolchain.Safety.{Outcome, ok, forbidden, empty_path}
use mcp_vfp9sp2_toolchain.Pipeline.Machine.{
  Label, Code, source_path_write_forbidden, Step, M, ◌>>=◌, ◌>>◌, pure, leave, told, writes, step,
}
use mcp_vfp9sp2_toolchain.Pipeline.{Setting, write_reports, fail, require, or_fail}
use mcp_vfp9sp2_toolchain.Pipeline.Protocol.{
  gate, note, test, act, crashed, shut, entered, noted, passed, refused, done,
}
use mcp_vfp9sp2_toolchain.Pipeline.Stages.{verdicts, Moves, Does}

module _ (l : Label) (past : List Label) where
  pub Does-note : (b : Bool) (x : Option Code) → Does past (note l ∷ []) (step l b x)
  unfolding Does Moves step
  Does-note b x w before = record {
    new = (l, b) ∷ [];
    added = map-append _ w.steps _;
    order = refl;
    go_on = λ {rest} {vs} {e} r. noted l b r;
  }

  pub Does-act : (x : Option Code) → Does past (act l ∷ []) (step l true x)
  unfolding Does Moves step
  Does-act x w before = record {
    new = (l, true) ∷ [];
    added = map-append _ w.steps _;
    order = refl;
    go_on = λ {rest} {vs} {e} r. done l r;
  }

  pub Does-gate : (c : Code) (x : Option Code) → Does past (gate l c ∷ []) (step l true x)
  unfolding Does Moves step
  Does-gate c x w before = record {
    new = (l, true) ∷ [];
    added = map-append _ w.steps _;
    order = refl;
    go_on = λ {rest} {vs} {e} r. entered l c r;
  }

  two :
      (k : Label) (b : Bool) (x y : Option Code) (ss : List Step)
      → verdicts (
          (ss ++ record { label = l; ok = b; error_code = x } ∷ [])
          ++ record { label = k; ok = b; error_code = y } ∷ [])
        ≡ verdicts ss ++ ((l, b) ∷ (k, b) ∷ [])
  two k b x y [] = refl
  two k b x y (s ∷ ss) = ap (λ r. (s.label, s.ok) ∷ r) (two k b x y ss)

  module _ (s : Setting) where
    -- A guard that refuses shuts the gate.
    pub Does-or_fail {ℓ κ} :
        {A : Type ℓ} {B : Type κ} (r : Outcome A) (f : A → M B)
        → ((a : A) → Does past (gate l source_path_write_forbidden ∷ []) (f a))
        → Does past (gate l source_path_write_forbidden ∷ []) (or_fail s r >>= f)
    unfolding or_fail fail write_reports Does Moves ◌>>=◌ ◌>>◌ pure leave told writes
    Does-or_fail (ok a) f h w before = h a w before
    Does-or_fail (forbidden v) f h w before = record {
      new = [];
      added = sym (append-nil (verdicts w.steps));
      halt = λ rest. shut l source_path_write_forbidden rest;
    }
    Does-or_fail empty_path f h w before = record {
      new = [];
      added = sym (append-nil (verdicts w.steps));
      halt = λ rest. crashed _;
    }

    pub Does-or_fail_then {ℓ} :
        {B : Type ℓ} (r : Outcome (Unit {0})) (k : M B)
        → Does past (gate l source_path_write_forbidden ∷ []) k
        → Does past (gate l source_path_write_forbidden ∷ []) (or_fail s r >> k)
    unfolding ◌>>◌ ◌>>=◌
    Does-or_fail_then r k h = Does-or_fail r (λ _. k) (λ _. h)

    -- A step that is tested at once.
    pub Does-test :
        (b : Bool) (x : Option Code) (c : Code)
        → Does past (test (l ∷ []) c ∷ []) (step l b x >> require s b c)
    unfolding require fail write_reports Does Moves ◌>>=◌ ◌>>◌ pure leave told writes step
    Does-test true x c w before = record {
      new = (l, true) ∷ [];
      added = map-append _ w.steps _;
      order = refl;
      go_on = λ {rest} {vs} {e} r. passed (l ∷ []) c r;
    }
    Does-test false x c w before = record {
      new = (l, false) ∷ [];
      added = map-append _ w.steps _;
      halt = λ rest. refused (l ∷ []) c rest;
    }

    pub Does-test_then {ℓ} :
        {A : Type ℓ} (b : Bool) (x : Option Code) (c : Code) (a : A)
        → Does past (test (l ∷ []) c ∷ []) (step l b x >> (require s b c >> pure a))
    unfolding require fail write_reports Does Moves ◌>>=◌ ◌>>◌ pure leave told writes step
    Does-test_then true x c a w before = record {
      new = (l, true) ∷ [];
      added = map-append _ w.steps _;
      order = refl;
      go_on = λ {rest} {vs} {e} r. passed (l ∷ []) c r;
    }
    Does-test_then false x c a w before = record {
      new = (l, false) ∷ [];
      added = map-append _ w.steps _;
      halt = λ rest. refused (l ∷ []) c rest;
    }

    -- Two steps with one verdict, that is tested then.
    pub Does-test_both :
        (k : Label) (b : Bool) (x y : Option Code) (c : Code)
        → Does past (test (l ∷ k ∷ []) c ∷ []) (step l b x >> (step k b y >> require s b c))
    unfolding require fail write_reports Does Moves ◌>>=◌ ◌>>◌ pure leave told writes step
    Does-test_both k true x y c w before = record {
      new = (l, true) ∷ (k, true) ∷ [];
      added = two k true x y w.steps;
      order = refl;
      go_on = λ {rest} {vs} {e} r. passed (l ∷ k ∷ []) c r;
    }
    Does-test_both k false x y c w before = record {
      new = (l, false) ∷ (k, false) ∷ [];
      added = two k false x y w.steps;
      halt = λ rest. refused (l ∷ k ∷ []) c rest;
    }

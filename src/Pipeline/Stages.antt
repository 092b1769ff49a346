-- ===== src/Pipeline/Stages.antt =====
-- Parts of a run of `cmd_validate` against the stages that they stand for.
use mathlib.Core.List.{append_assoc, map-append}
use mathlib.Core.Path.{subst}
use mcp_vfp9sp2_toolchain.Base.{◌≡◌, refl, ap, sym, ◌∙◌, List, [], ◌∷◌, ◌++◌, map}
use mcp_vfp9sp2_toolchain.Pipeline.Machine.{
  Label, Step, World, Exit, Ends, go, stop, M, ◌>>=◌, ◌>>◌,
}
use mcp_vfp9sp2_toolchain.Pipeline.Protocol.{Stage, gate, note, test, act, Verdicts, Run}

abbrev pub verdicts : List Step → Verdicts
verdicts = map (λ st. (st.label, st.ok))

abbrev pub labels : Verdicts → List Label
labels = map (λ v. v.0)

abbrev pub labels_of : List Stage → List Label
labels_of [] = []
labels_of (gate l c ∷ rest) = l ∷ labels_of rest
labels_of (note l ∷ rest) = l ∷ labels_of rest
labels_of (test ls c ∷ rest) = ls ++ labels_of rest
labels_of (act l ∷ rest) = l ∷ labels_of rest

labels_of-append : (sts ts : List Stage) → labels_of (sts ++ ts) ≡ labels_of sts ++ labels_of ts
labels_of-append [] ts = refl
labels_of-append (gate l c ∷ sts) ts = ap (λ x. l ∷ x) (labels_of-append sts ts)
labels_of-append (note l ∷ sts) ts = ap (λ x. l ∷ x) (labels_of-append sts ts)
labels_of-append (test ls c ∷ sts) ts =
    ap (λ x. ls ++ x) (labels_of-append sts ts)
    ∙ sym (append_assoc ls (labels_of sts) (labels_of ts))
labels_of-append (act l ∷ sts) ts = ap (λ x. l ∷ x) (labels_of-append sts ts)

-- The steps that a part has added, and that they pass these stages.
pub record Passes (sts : List Stage) (before after : List Step) : Type 0 where
  pub new : Verdicts
  pub added : verdicts after ≡ verdicts before ++ new
  pub order : labels new ≡ labels_of sts
  pub go_on :
      {rest : List Stage} {vs : Verdicts} {e : Exit}
      → Run rest vs e
      → Run (sts ++ rest) (new ++ vs) e

-- The steps that a part has added when it stopped, and that the stages allow that.
pub record Halts (sts : List Stage) (before after : List Step) (e : Exit) : Type 0 where
  pub new : Verdicts
  pub added : verdicts after ≡ verdicts before ++ new
  pub halt : (rest : List Stage) → Run (sts ++ rest) new e

unfoldable pub Moves {ℓ} : {A : Type ℓ} → List Stage → List Step → Ends A → Type 0
Moves sts before (go a w) = Passes sts before w.steps
Moves sts before (stop e w) = Halts sts before w.steps e

-- A part that starts after the given labels does these stages.
unfoldable pub Does {ℓ} : {A : Type ℓ} → List Label → List Stage → M A → Type 0
Does past sts m = (w : World) → labels (verdicts w.steps) ≡ past → Moves sts w.steps (m w)

Passes-append :
    {sts ts : List Stage} {a b c : List Step}
    → Passes sts a b
    → Passes ts b c
    → Passes (sts ++ ts) a c
Passes-append {sts} {ts} p q = record {
  new = p.new ++ q.new;
  added = q.added ∙ ap (λ x. x ++ q.new) p.added ∙ append_assoc _ p.new q.new;
  order =
      map-append _ p.new q.new
      ∙ ap (λ x. x ++ labels q.new) p.order
      ∙ ap (λ x. labels_of sts ++ x) q.order
      ∙ sym (labels_of-append sts ts);
  go_on = λ {rest} {vs} {e} r.
      subst (λ x. Run x ((p.new ++ q.new) ++ vs) e) (sym (append_assoc sts ts rest))
        (subst (λ x. Run (sts ++ (ts ++ rest)) x e) (sym (append_assoc p.new q.new vs))
          (p.go_on (q.go_on r)));
}

Passes-Halts :
    {sts ts : List Stage} {a b c : List Step} {e : Exit}
    → Passes sts a b
    → Halts ts b c e
    → Halts (sts ++ ts) a c e
Passes-Halts {sts} {ts} {e} p q = record {
  new = p.new ++ q.new;
  added = q.added ∙ ap (λ x. x ++ q.new) p.added ∙ append_assoc _ p.new q.new;
  halt = λ rest.
      subst (λ x. Run x (p.new ++ q.new) e) (sym (append_assoc sts ts rest))
        (p.go_on (q.halt rest));
}

Halts-append :
    (sts ts : List Stage) {a b : List Step} {e : Exit} → Halts sts a b e → Halts (sts ++ ts) a b e
Halts-append sts ts {e = e} p = record {
  new = p.new;
  added = p.added;
  halt = λ rest. subst (λ x. Run x p.new e) (sym (append_assoc sts ts rest)) (p.halt (ts ++ rest));
}

Moves-append {ℓ} :
    {A : Type ℓ} (sts ts : List Stage) {a b : List Step} (r : Ends A)
    → Passes sts a b
    → Moves ts b r
    → Moves (sts ++ ts) a r
unfolding Moves
Moves-append sts ts (go x w) p q = Passes-append p q
Moves-append sts ts (stop e w) p q = Passes-Halts p q

pub Does->>= {ℓ κ} :
    {A : Type ℓ} {B : Type κ} (past : List Label) (sts ts : List Stage) (m : M A) (f : A → M B)
    → Does past sts m
    → ((a : A) → Does (past ++ labels_of sts) ts (f a))
    → Does past (sts ++ ts) (m >>= f)
unfolding Does Moves ◌>>=◌
Does->>= {A} past sts ts m f h k w before = from (m w) (h w before)
  where
    from :
        (r : Ends A)
        → Moves sts w.steps r
        → Moves (sts ++ ts) w.steps (elim r [ go a w' ↦ f a w' | stop e w' ↦ stop e w' ])
    from (go a v) p =
        let here : labels (verdicts v.steps) ≡ past ++ labels_of sts =
          ap labels p.added
          ∙ map-append (λ x. x.0) (verdicts w.steps) p.new
          ∙ ap (λ x. x ++ labels p.new) before
          ∙ ap (λ x. past ++ x) p.order in
        Moves-append sts ts (f a v) p (k a v here)
    from (stop e v) p = Halts-append sts ts p

pub Does->> {ℓ} :
    {B : Type ℓ} (past : List Label) (sts ts : List Stage) (m : M (Unit {0})) (k : M B)
    → Does past sts m
    → Does (past ++ labels_of sts) ts k
    → Does past (sts ++ ts) (m >> k)
unfolding ◌>>◌ ◌>>=◌
Does->> past sts ts m k h g = Does->>= past sts ts m (λ _. k) h (λ _. g)

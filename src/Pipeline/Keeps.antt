-- ===== src/Pipeline/Keeps.antt =====
-- Parts of a run that leave the file at one path as it was.
use mcp_vfp9sp2_toolchain.Base.{
  ◌≡◌, refl, ◌∙◌, Bool, true, false, Option, none, some, if◌then◌else◌,
}
use mcp_vfp9sp2_toolchain.Base.Text.{Text, text_eq}
use mcp_vfp9sp2_toolchain.Disk.{Disk, File, put-other}
use mcp_vfp9sp2_toolchain.Safety.{Outcome, ok, forbidden, empty_path}
use mcp_vfp9sp2_toolchain.Pipeline.Machine.{
  Label, Code, World, Exit, Ends, go, stop, M, ◌>>=◌, ◌>>◌, pure, leave, reads, told, runs, writes,
  step, or_raise, found_file, opened,
}

unfoldable pub end_of {ℓ} : {A : Type ℓ} → Ends A → World
end_of (go _ w) = w
end_of (stop _ w) = w

module _ (p : Text) where
  -- A part of the run leaves the file at this path as it was, however it ends.
  unfoldable pub Keeps {ℓ} : {A : Type ℓ} → M A → Type 0
  Keeps m = (w : World) → (end_of (m w)).disk p ≡ w.disk p

  Keeps-onto {ℓ κ} :
      {A : Type ℓ} {B : Type κ} (r : Ends A) (d : Option File) (f : A → M B)
      → (end_of r).disk p ≡ d
      → ((a : A) → Keeps (f a))
      → (end_of (elim r [ go a w' ↦ f a w' | stop e w' ↦ stop e w' ])).disk p ≡ d
  unfolding Keeps end_of
  Keeps-onto (go a w) d f h k = k a w ∙ h
  Keeps-onto (stop e w) d f h k = h

  pub Keeps->>= {ℓ κ} :
      {A : Type ℓ} {B : Type κ} (m : M A) (f : A → M B)
      → Keeps m
      → ((a : A) → Keeps (f a))
      → Keeps (m >>= f)
  unfolding Keeps ◌>>=◌
  Keeps->>= m f h k w = Keeps-onto (m w) (w.disk p) f (h w) k

  pub Keeps->> {ℓ} : {B : Type ℓ} (m : M (Unit {0})) (k : M B) → Keeps m → Keeps k → Keeps (m >> k)
  unfolding Keeps ◌>>◌
  Keeps->> m k h g w = Keeps-onto (m w) (w.disk p) (λ _. k) (h w) (λ _. g)

  pub Keeps-reads {ℓ} : {A : Type ℓ} (f : Disk → A) → Keeps (reads f)
  unfolding Keeps end_of reads
  Keeps-reads f w = refl

  pub Keeps-told : Keeps told
  unfolding Keeps end_of told
  Keeps-told w = refl

  pub Keeps-pure {ℓ} : {A : Type ℓ} (a : A) → Keeps (pure a)
  unfolding Keeps end_of pure
  Keeps-pure a w = refl

  pub Keeps-leave {ℓ} : (A : Type ℓ) (e : Exit) → Keeps (leave {A = A} e)
  unfolding Keeps end_of leave
  Keeps-leave A e w = refl

  pub Keeps-step : (l : Label) (b : Bool) (c : Option Code) → Keeps (step l b c)
  unfolding Keeps end_of step
  Keeps-step l b c w = refl

  pub Keeps-runs {ℓ} :
      {A : Type ℓ} (f : Disk → A × Disk) → ((d : Disk) → (f d).1 p ≡ d p) → Keeps (runs f)
  unfolding Keeps end_of runs
  Keeps-runs f h w = h w.disk

  pub Keeps-writes : (q : Text) (f : Option File) → text_eq q p ≡ false → Keeps (writes q f)
  unfolding Keeps end_of writes
  Keeps-writes q f h w = put-other q p f w.disk h

  pub Keeps-if {ℓ} :
      {A : Type ℓ} (b : Bool) (m n : M A) → Keeps m → Keeps n → Keeps (if b then m else n)
  Keeps-if true m n h k = h
  Keeps-if false m n h k = k

  pub Keeps-or_raise {ℓ} : {A : Type ℓ} (r : Outcome A) → Keeps (or_raise r)
  unfolding or_raise
  Keeps-or_raise (ok a) = Keeps-pure a
  Keeps-or_raise (forbidden v) = Keeps-leave _ _
  Keeps-or_raise empty_path = Keeps-leave _ _

  Keeps-found_file : (f : Option File) → Keeps (found_file f)
  unfolding found_file
  Keeps-found_file none = Keeps-leave _ _
  Keeps-found_file (some f) = Keeps-pure f

  pub Keeps-opened : (q : Text) → Keeps (opened q)
  unfolding opened
  Keeps-opened q = Keeps->>= _ _ (Keeps-reads _) Keeps-found_file

pub ruleset kept = (
  Keeps->>=, Keeps->>, Keeps-reads, Keeps-told, Keeps-pure, Keeps-leave, Keeps-step, Keeps-runs,
  Keeps-writes, Keeps-if, Keeps-or_raise, Keeps-opened,
)

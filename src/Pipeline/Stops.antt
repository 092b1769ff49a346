-- ===== src/Pipeline/Stops.antt =====
-- Parts of a run of which an early end has a property that an exception has.
use mathlib.Core.Path.{subst}
use mcp_vfp9sp2_toolchain.Base.{◌≡◌, refl, Bool, true, false, Option, none, some, if◌then◌else◌}
use mcp_vfp9sp2_toolchain.Base.Text.{Text}
use mcp_vfp9sp2_toolchain.Disk.{Disk, File}
use mcp_vfp9sp2_toolchain.Safety.{Outcome, ok, forbidden, empty_path}
use mcp_vfp9sp2_toolchain.Pipeline.Machine.{
  Label, Code, World, Exit, raised, Ends, go, stop, M, ◌>>=◌, ◌>>◌, pure, leave, reads, told, runs,
  writes, step, or_raise, found_file, opened,
}

module _ (P : Exit → Type 0) (raises : P raised) where
  unfoldable pub Stops {ℓ} : {A : Type ℓ} → M A → Type ℓ
  Stops {A} m = (w : World) (e : Exit) (v : World) → m w ≡ stop e v → P e

  pub Stops->>= {ℓ κ} :
      {A : Type ℓ} {B : Type κ} (m : M A) (f : A → M B)
      → Stops m
      → ((a : A) → Stops (f a))
      → Stops (m >>= f)
  unfolding Stops ◌>>=◌
  Stops->>= {A} {B} m f h k w e v = from (m w) (h w)
    where
      from :
          (r : Ends A)
          → ((e : Exit) (v : World) → r ≡ stop e v → P e)
          → (elim r [ go a w' ↦ f a w' | stop e w' ↦ stop e w' ]) ≡ stop e v
          → P e
      from (go a w') g q = k a w' e v q
      from (stop e' w') g q = let same : e' ≡ e = cc q in subst P same (g e' w' refl)

  pub Stops->> {ℓ} : {B : Type ℓ} (m : M (Unit {0})) (k : M B) → Stops m → Stops k → Stops (m >> k)
  unfolding ◌>>◌ ◌>>=◌
  Stops->> m k h g = Stops->>= m (λ _. k) h (λ _. g)

  pub Stops-told : Stops told
  unfolding Stops told
  Stops-told w e v q = absurd (cc q)

  pub Stops-reads {ℓ} : {A : Type ℓ} (f : Disk → A) → Stops (reads f)
  unfolding Stops reads
  Stops-reads f w e v q = absurd (cc q)

  pub Stops-pure {ℓ} : {A : Type ℓ} (a : A) → Stops (pure a)
  unfolding Stops pure
  Stops-pure a w e v q = absurd (cc q)

  pub Stops-leave {ℓ} : (A : Type ℓ) (e : Exit) → P e → Stops (leave {A = A} e)
  unfolding Stops leave
  Stops-leave A e h w e' v q = let same : e ≡ e' = cc q in subst P same h

  pub Stops-runs {ℓ} : {A : Type ℓ} (f : Disk → A × Disk) → Stops (runs f)
  unfolding Stops runs
  Stops-runs f w e v q = absurd (cc q)

  pub Stops-if {ℓ} :
      {A : Type ℓ} (b : Bool) (m n : M A) → Stops m → Stops n → Stops (if b then m else n)
  Stops-if true m n h k = h
  Stops-if false m n h k = k

  pub Stops-writes : (p : Text) (f : Option File) → Stops (writes p f)
  unfolding Stops writes
  Stops-writes p f w e v q = absurd (cc q)

  pub Stops-step : (l : Label) (b : Bool) (c : Option Code) → Stops (step l b c)
  unfolding Stops step
  Stops-step l b c w e v q = absurd (cc q)

  pub Stops-or_raise {ℓ} : {A : Type ℓ} (r : Outcome A) → Stops (or_raise r)
  unfolding or_raise
  Stops-or_raise (ok a) = Stops-pure a
  Stops-or_raise (forbidden v) = Stops-leave _ _ raises
  Stops-or_raise empty_path = Stops-leave _ _ raises

  pub Stops-found_file : (f : Option File) → Stops (found_file f)
  unfolding found_file
  Stops-found_file none = Stops-leave _ _ raises
  Stops-found_file (some f) = Stops-pure f

  pub Stops-opened : (q : Text) → Stops (opened q)
  unfolding opened
  Stops-opened q = Stops->>= _ _ (Stops-reads _) Stops-found_file

pub ruleset stops = (
  Stops->>=, Stops->>, Stops-told, Stops-reads, Stops-runs, Stops-if, Stops-leave, Stops-pure,
  Stops-writes, Stops-step, Stops-or_raise, Stops-opened,
)

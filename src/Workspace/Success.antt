-- ===== src/Workspace/Success.antt =====
-- Runs of the commands that succeed: their parts went on, and were met.
use mcp_vfp9sp2_toolchain.Base.{◌≡◌, ◌≢◌, refl, sym, Bool, true, false, Option, none, some}
use mcp_vfp9sp2_toolchain.Base.Text.{Text}
use mcp_vfp9sp2_toolchain.Commands.{demand}
use mcp_vfp9sp2_toolchain.Commands.Compiled.{exit_of}
use mcp_vfp9sp2_toolchain.Disk.{Disk}
use mcp_vfp9sp2_toolchain.Safety.{Outcome, ok, forbidden, empty_path}
use mcp_vfp9sp2_toolchain.Pipeline.Machine.{
  Code, World, Exit, emitted, raised, Ends, go, stop, M, ◌>>=◌, ◌>>◌, pure, leave, reads,
}
use mcp_vfp9sp2_toolchain.Pipeline.Stops.{Stops, stops}
use mcp_vfp9sp2_toolchain.Pipeline.Verified.{go-value}
use mcp_vfp9sp2_toolchain.Workspace.{or_refuse, hashed}

abbrev pub IsFailure : Exit → Type 0
IsFailure e = e ≢ emitted true none

pub raised-IsFailure : IsFailure raised
raised-IsFailure h = cc h

pub refused-IsFailure : (c : Option Code) → IsFailure (emitted false c)
refused-IsFailure c h = cc h

-- A part of the run that ends early does not end it with success.
abbrev pub Failing {ℓ} : {A : Type ℓ} → M A → Type ℓ
Failing = Stops IsFailure raised-IsFailure

pub Failing-demand : (b : Bool) (c : Code) → Failing (demand b c)
unfolding demand
Failing-demand true c = search (stops)
Failing-demand false c = search (stops, refused-IsFailure)

pub Failing-or_refuse {ℓ} : {A : Type ℓ} (r : Outcome A) → Failing (or_refuse r)
unfolding or_refuse
Failing-or_refuse (ok a) = search (stops)
Failing-or_refuse (forbidden v) = search (stops, refused-IsFailure)
Failing-or_refuse empty_path = search (stops, raised-IsFailure)

pub Failing-hashed : (a b : Option Text) → Failing (hashed a b)
unfolding hashed
Failing-hashed (some a) (some b) = search (stops)
Failing-hashed (some a) none = search (stops, refused-IsFailure)
Failing-hashed none b = search (stops, refused-IsFailure)

pub demand-go :
    (b : Bool) (c : Code) (w : World) {a : Unit {0}} {v : World} → demand b c w ≡ go a v → b ≡ true
unfolding demand pure leave
demand-go true c w h = refl
demand-go false c w h = absurd (cc h)

pub reads-go {ℓ} :
    {A : Type ℓ} (f : Disk → A) (w : World) {a : A} {v : World} → reads f w ≡ go a v → a ≡ f w.disk
unfolding reads
reads-go f w h = sym (go-value h).0

-- A sequence that succeeds went through its first part.
pub success-go {ℓ} :
    {A : Type ℓ} (m : M A) (f : A → M (Unit {0})) (w : World)
    → Failing m
    → exit_of ((m >>= f) w) ≡ emitted true none
    → (a : A) × (u : World) × (m w ≡ go a u)
      × (exit_of (f a u) ≡ emitted true none)
      × ((m >>= f) w ≡ f a u)
unfolding ◌>>=◌ Stops
success-go {A = A} m f w failing h = from (m w) (failing w) h
  where
    from :
        (r : Ends A)
        → ((e : Exit) (v : World) → r ≡ stop e v → IsFailure e)
        → exit_of (elim r [ go a w' ↦ f a w' | stop e w' ↦ stop e w' ]) ≡ emitted true none
        → (a : A) × (u : World) × (r ≡ go a u)
          × (exit_of (f a u) ≡ emitted true none)
          × ((elim r [ go a w' ↦ f a w' | stop e w' ↦ stop e w' ]) ≡ f a u)
    from (go a u) g k = (a, u, refl, k, refl)
    from (stop e u) g k = absurd (g e u refl k)

pub next-go :
    (m : M (Unit {0})) (k : M (Unit {0})) (w : World)
    → Failing m
    → exit_of ((m >> k) w) ≡ emitted true none
    → (u : World) × (m w ≡ go tt u) × (exit_of (k u) ≡ emitted true none) × ((m >> k) w ≡ k u)
unfolding ◌>>◌ ◌>>=◌
next-go m k w failing h = let (a, u, p, q, r) = success-go m (λ _. k) w failing h in (u, p, q, r)

pub reads_same {ℓ} :
    {A : Type ℓ} (f : Disk → A) (w : World) {a : A} {v : World} → reads f w ≡ go a v → v ≡ w
unfolding reads
reads_same f w h = sym (go-value h).1

pub demand_same :
    (b : Bool) (c : Code) (w : World) {a : Unit {0}} {v : World} → demand b c w ≡ go a v → v ≡ w
unfolding demand pure leave
demand_same true c w h = sym (go-value h).1
demand_same false c w h = absurd (cc h)

pub or_refuse_same {ℓ} :
    {A : Type ℓ} (r : Outcome A) (w : World) {a : A} {v : World} → or_refuse r w ≡ go a v → v ≡ w
unfolding or_refuse pure leave
or_refuse_same (ok a) w h = sym (go-value h).1
or_refuse_same (forbidden x) w h = absurd (cc h)
or_refuse_same empty_path w h = absurd (cc h)

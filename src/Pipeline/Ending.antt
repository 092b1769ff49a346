-- ===== src/Pipeline/Ending.antt =====
-- A run of `cmd_validate` that says that the form is verified has come to its end.
use mcp_vfp9sp2_toolchain.Base.{◌≡◌, ◌≢◌, refl, Bool, true, false, Option, some, []}
use mcp_vfp9sp2_toolchain.Disk.{Disk}
use mcp_vfp9sp2_toolchain.Safety.{Outcome, ok, forbidden, empty_path, PathSafetyGuard}
use mcp_vfp9sp2_toolchain.Pipeline.Machine.{
  Code, source_path_write_forbidden, World, Exit, emitted, raised, Ends, go, stop, M, ◌>>=◌,
}
use mcp_vfp9sp2_toolchain.Pipeline.{
  Setting, write_reports, fail, require, or_fail, check_workspace, hash_source, check_copies,
  passed_or_fail, run_compile, check_compile, run_roundtrip, check_roundtrip,
}
use mcp_vfp9sp2_toolchain.Pipeline.Validate.{
  ended, read_sc2_text, check_static, find_source_sc2, check_inventories, check_source, checks,
  promote_file, promote, validate,
}
use mcp_vfp9sp2_toolchain.Pipeline.Stops.{Stops, stops}

abbrev IsUnverified : Exit → Type 0
IsUnverified e = (c : Option Code) → e ≢ emitted true c

raised-IsUnverified : IsUnverified raised
raised-IsUnverified c h = cc h

module _ (s : Setting) where
  -- A part of the run that ends early does not say that the form is verified.
  abbrev Halting {ℓ} : {A : Type ℓ} → M A → Type ℓ
  Halting = Stops IsUnverified raised-IsUnverified

  Halting-fail {ℓ} : (A : Type ℓ) (c : Code) → Halting (fail s {A = A} c)
  unfolding fail write_reports
  Halting-fail A c =
      let refused : IsUnverified (emitted false (some c)) = λ d h. cc h in search (stops, refused)

  Halting-or_fail {ℓ} : {A : Type ℓ} (r : Outcome A) → Halting (or_fail s r)
  unfolding or_fail
  Halting-or_fail (ok a) = search (stops)
  Halting-or_fail (forbidden v) = Halting-fail _ source_path_write_forbidden
  Halting-or_fail empty_path = search (stops, raised-IsUnverified)

  Halting-require : (b : Bool) (c : Code) → Halting (require s b c)
  unfolding require
  Halting-require true c = search (stops)
  Halting-require false c = Halting-fail _ c

  Halting-checks : Halting (checks s)
  unfolding checks check_workspace hash_source check_copies check_compile run_compile passed_or_fail
      check_roundtrip run_roundtrip check_static read_sc2_text find_source_sc2 check_inventories
      check_source
  Halting-checks = search (stops, Halting-or_fail, Halting-require) depth 40

  Halting-promote : (guard : PathSafetyGuard) → Halting (promote s guard)
  unfolding promote promote_file write_reports
  Halting-promote guard = search (stops) depth 16

  -- A command that says that the form is verified has passed the checks, and promoted it.
  pub validate-go :
      (disk : Disk) (code : Option Code)
      → (validate s disk).0 ≡ emitted true code
      → (guard : PathSafetyGuard) × (u : World) × (checks s (record { disk = disk; steps = [] })
          ≡ go guard u)
        × (promote s guard u ≡ go tt (validate s disk).1)
  unfolding validate ended ◌>>=◌ Stops
  validate-go disk code h = from (checks s start) (Halting-checks start) h
    where
      start : World
      start = record { disk = disk; steps = [] }

      last :
          (r : Ends (Unit {0}))
          → ((e : Exit) (v : World) → r ≡ stop e v → IsUnverified e)
          → (ended r).0 ≡ emitted true code
          → r ≡ go tt (ended r).1
      last (go a v) _ _ = refl
      last (stop e v) g k = absurd (g e v refl code k)

      from :
          (r : Ends PathSafetyGuard)
          → ((e : Exit) (v : World) → r ≡ stop e v → IsUnverified e)
          → (ended (elim r [ go a w' ↦ promote s a w' | stop e w' ↦ stop e w' ])).0
            ≡ emitted true code
          → (guard : PathSafetyGuard) × (u : World) × (r ≡ go guard u)
            × (promote s guard u
                ≡ go tt (ended (elim r [ go a w' ↦ promote s a w' | stop e w' ↦ stop e w' ])).1)
      from (go a v) _ k = (a, v, refl, last (promote s a v) (Halting-promote a v) k)
      from (stop e v) g k = absurd (g e v refl code k)

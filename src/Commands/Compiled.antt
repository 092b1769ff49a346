-- ===== src/Commands/Compiled.antt =====
-- When `cmd_compile` and `cmd_roundtrip` succeed.
use mcp_vfp9sp2_toolchain.Base.{
  ◌≡◌, ◌↔◌, refl, Bool, true, false, not, ◌&&◌, none, some, List, [], ◌∷◌, is_empty, if◌then◌else◌,
}
use mcp_vfp9sp2_toolchain.Base.Text.{Text, codes, starts_with}
use mcp_vfp9sp2_toolchain.Common.{foxbin2prg_program}
use mcp_vfp9sp2_toolchain.Disk.{Disk, is_file, put}
use mcp_vfp9sp2_toolchain.Driver.{Finished, Converted, convert_one}
use mcp_vfp9sp2_toolchain.Pipeline.Machine.{
  Code, Exit, emitted, raised, World, Ends, go, stop, M, ◌>>=◌, ◌>>◌, pure, leave, reads, runs,
  writes,
}
use mcp_vfp9sp2_toolchain.Pipeline.{
  Setting, in_workspace, working_scx, status_file, status_of, compile_code, written,
}
use mcp_vfp9sp2_toolchain.Commands.{
  demand, stage_scx, cfg_path, err_escaped, errors_of, single_prg, single_command, is_late,
  cmd_compile,
}

-- How a command left.
abbrev pub exit_of {ℓ} : {A : Type ℓ} → Ends A → Exit
exit_of (go a w) = raised
exit_of (stop e w) = e

-- A demand on the way to a success is met.
demand_iff :
    (b : Bool) (c : Code) (k : M (Unit {0})) (w : World)
    → (exit_of ((demand b c >> k) w) ≡ emitted true none)
      ↔ ((b ≡ true) × (exit_of (k w) ≡ emitted true none))
unfolding demand ◌>>◌ pure leave
demand_iff true c k w = (λ h. (refl, h), λ (_, h). h)
demand_iff false c k w = (λ h. absurd (cc h), λ (h, _). absurd (cc h))

not_iff : (b : Bool) → (not b ≡ true) ↔ (b ≡ false)
not_iff true = (λ h. absurd (cc h), λ h. absurd (cc h))
not_iff false = (λ _. refl, λ _. refl)

both_iff : (a b : Bool) → ((a && b) ≡ true) ↔ ((a ≡ true) × (b ≡ true))
both_iff true b = (λ h. (refl, h), λ (_, h). h)
both_iff false b = (λ h. absurd (cc h), λ (h, _). absurd (cc h))

is_empty_iff {ℓ} : {A : Type ℓ} (xs : List A) → (is_empty xs ≡ true) ↔ (xs ≡ [])
is_empty_iff [] = (λ _. refl, λ _. refl)
is_empty_iff (x ∷ xs) = (λ h. absurd (cc h), λ h. absurd (cc h))

module _ (s : Setting) where
  -- the process of the compilation, and the files that it leaves
  abbrev pub compilation : Disk → Finished × Disk
  compilation disk =
      s.converter.run (single_command s) (some (in_workspace s (codes "working")))
        (put (single_prg s) (some (written s (compile_code s))) (put (status_file s) none disk))

  -- `cmd_compile` succeeds exactly when the working form is there, its process was not stopped and
  -- left a status that begins with OK, and the .ERR file beside the form, if the process left one, has
  -- a path that begins in lower case with the characters of the path of the workspace, which a path
  -- outside of it may do, and has no line that is not blank.
  pub cmd_compile_ok :
      (w : World)
      → (exit_of (cmd_compile s w) ≡ emitted true none) ↔ (
          (is_file w.disk (working_scx s) ≡ true)
          × (err_escaped s (compilation w.disk).1 ≡ false)
          × (is_late s (compilation w.disk).0 ≡ false)
          × (starts_with (status_of s (compilation w.disk).1) (codes "OK") ≡ true)
          × (errors_of s (compilation w.disk).1 ≡ []))
  unfolding cmd_compile ◌>>=◌ ◌>>◌ reads runs writes leave
  cmd_compile_ok w =
      let run = compilation w.disk in
      let d1 = demand_iff (is_file w.disk (working_scx s)) _ _ w in
      let d2 = demand_iff (not (err_escaped s run.1)) _ _ (record w { disk = run.1 }) in
      let d3 = demand_iff (not (is_late s run.0)) _ _ (record w { disk = run.1 }) in
      let d4 =
        demand_iff (starts_with (status_of s run.1) (codes "OK") && is_empty (errors_of s run.1)) _
          (leave (emitted true none)) (record w { disk = run.1 }) in
      let n2 = not_iff (err_escaped s run.1) in
      let n3 = not_iff (is_late s run.0) in
      let b =
        both_iff (starts_with (status_of s run.1) (codes "OK")) (is_empty (errors_of s run.1)) in
      let e = is_empty_iff (errors_of s run.1) in
      (
        λ h.
            let (x1, h1) = d1.0 h in
            let (x2, h2) = d2.0 h1 in
            let (x3, h3) = d3.0 h2 in
            let (x4, _) = d4.0 h3 in let (x5, x6) = b.0 x4 in (x1, n2.0 x2, n3.0 x3, x5, e.0 x6),
        λ (x1, x2, x3, x5, x6).
            d1.1 (x1, d2.1 (n2.1 x2, d3.1 (n3.1 x3, d4.1 (b.1 (x5, e.1 x6), refl)))),
      )

module _ (s : Setting) (stage : Text) where
  -- the conversion of the stage's form, and the files that it leaves
  abbrev pub conversion : Disk → Converted × Disk
  conversion disk =
      convert_one s.converter (stage_scx s stage) (codes "BIN2PRG")
        (in_workspace s (codes "validation"))
        (if is_file disk (cfg_path s) then cfg_path s else codes "FoxBin2Prg-AI.cfg")
        (foxbin2prg_program s.converter.os s.places s.config) disk

-- ===== src/Commands/Tests.antt =====
-- The single commands at the sample runs of the validation.
use mcp_vfp9sp2_toolchain.Base.{◌≡◌, ◌↔◌, true, false, none, []}
use mcp_vfp9sp2_toolchain.Base.Text.{codes, starts_with}
use mcp_vfp9sp2_toolchain.Disk.{is_file}
use mcp_vfp9sp2_toolchain.Pipeline.Machine.{World, emitted}
use mcp_vfp9sp2_toolchain.Pipeline.{working_scx, status_of}
use mcp_vfp9sp2_toolchain.Pipeline.Samples.{full, good}
use mcp_vfp9sp2_toolchain.Commands.{err_escaped, errors_of, is_late, cmd_compile}
use mcp_vfp9sp2_toolchain.Commands.Compiled.{exit_of, compilation, cmd_compile_ok}

abbrev start : World
start = record { disk = full; steps = [] }

cmd_compile_ok_example : (exit_of (cmd_compile good start) ≡ emitted true none) ↔ (
    (is_file full (working_scx good) ≡ true)
    × (err_escaped good (compilation good full).1 ≡ false)
    × (is_late good (compilation good full).0 ≡ false)
    × (starts_with (status_of good (compilation good full).1) (codes "OK") ≡ true)
    × (errors_of good (compilation good full).1 ≡ []))
cmd_compile_ok_example = cmd_compile_ok good start

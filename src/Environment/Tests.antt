-- ===== src/Environment/Tests.antt =====
-- A run of the command for the settings of VFP9.
use mcp_vfp9sp2_toolchain.Base.{◌≡◌, refl, true, false, none, some, [], ◌∷◌}
use mcp_vfp9sp2_toolchain.Base.Text.{Text, codes, text_eq}
use mcp_vfp9sp2_toolchain.Commands.Compiled.{exit_of}
use mcp_vfp9sp2_toolchain.Disk.{put}
use mcp_vfp9sp2_toolchain.Driver.{Converter}
use mcp_vfp9sp2_toolchain.Pipeline.Machine.{World, emitted, vfp9_missing}
use mcp_vfp9sp2_toolchain.Pipeline.{Setting, replace_from}
use mcp_vfp9sp2_toolchain.Pipeline.Samples.{small, good, tools}
use mcp_vfp9sp2_toolchain.Pipeline.Keeps.{end_of}
use mcp_vfp9sp2_toolchain.Environment.{
  Settings, tmp_prg, result_file, env_file, file_lines, settings_loop, cmd_env,
}
use mcp_vfp9sp2_toolchain.Environment.Cleared.{cmd_env-cleared}

abbrev answers : Converter
answers = record (tools []) {
  run = λ cmd cwd disk. (
    record { stdout = []; stderr = []; code = (false, 0); timeout = false },
    put (codes "/o/_vfp_env.txt") (some (small (codes "VERSION=9"))) disk,
  );
}

abbrev asked : Setting
asked = record good { converter = answers }

abbrev json : Settings → Text
json info = elim info.settings [ [] ↦ [] | (k, v) ∷ rest ↦ k ]

abbrev start : World
start = record { disk = λ p. none; steps = [] }

-- The run succeeds, and fails where VFP9 gives no file.
cmd_env_value : exit_of (cmd_env asked (codes "/o") json start) ≡ emitted true none
unfolding cmd_env mcp_vfp9sp2_toolchain.Pipeline.Machine.◌>>◌
    mcp_vfp9sp2_toolchain.Pipeline.Machine.writes mcp_vfp9sp2_toolchain.Pipeline.Machine.◌>>=◌
    mcp_vfp9sp2_toolchain.Pipeline.Machine.runs mcp_vfp9sp2_toolchain.Environment.check_env
    mcp_vfp9sp2_toolchain.Environment.find_result mcp_vfp9sp2_toolchain.Pipeline.Machine.reads put
    text_eq mcp_vfp9sp2_toolchain.Base.OsPath.posix_join mcp_vfp9sp2_toolchain.Base.Text.starts_with
    mcp_vfp9sp2_toolchain.Environment.save_info mcp_vfp9sp2_toolchain.Pipeline.Machine.opened
    mcp_vfp9sp2_toolchain.Pipeline.Machine.found_file mcp_vfp9sp2_toolchain.Pipeline.Machine.pure
    mcp_vfp9sp2_toolchain.Environment.clean_up mcp_vfp9sp2_toolchain.Pipeline.Machine.leave
cmd_env_value = refl

cmd_env_missing : exit_of (cmd_env good (codes "/o") json start) ≡ emitted false (some vfp9_missing)
unfolding cmd_env mcp_vfp9sp2_toolchain.Pipeline.Machine.◌>>◌
    mcp_vfp9sp2_toolchain.Pipeline.Machine.writes mcp_vfp9sp2_toolchain.Pipeline.Machine.◌>>=◌
    mcp_vfp9sp2_toolchain.Pipeline.Machine.runs mcp_vfp9sp2_toolchain.Environment.check_env
    mcp_vfp9sp2_toolchain.Environment.find_result mcp_vfp9sp2_toolchain.Pipeline.Machine.reads put
    text_eq mcp_vfp9sp2_toolchain.Base.OsPath.posix_join mcp_vfp9sp2_toolchain.Base.Text.starts_with
    mcp_vfp9sp2_toolchain.Environment.save_info mcp_vfp9sp2_toolchain.Pipeline.Machine.opened
    mcp_vfp9sp2_toolchain.Pipeline.Machine.found_file mcp_vfp9sp2_toolchain.Pipeline.Machine.pure
    mcp_vfp9sp2_toolchain.Environment.clean_up mcp_vfp9sp2_toolchain.Pipeline.Machine.leave
    mcp_vfp9sp2_toolchain.Environment.give_up
cmd_env_missing = refl

settings_value :
    settings_loop (file_lines (codes "A = x=y\r\nb\nA=2")) [] ≡ (codes "A", codes "2") ∷ []
unfolding settings_loop file_lines text_eq mcp_vfp9sp2_toolchain.Base.Text.strip
settings_value = refl

-- The place of the path in the template is also the argument of a call.
version_line :
    replace_from (codes "(1)") (codes "\"f\"") 0 (codes "VERSION(1) + CHR(10)")
    ≡ codes "VERSION\"f\" + CHR(10)"
unfolding replace_from mcp_vfp9sp2_toolchain.Base.Text.starts_with
version_line = refl

apart : text_eq (env_file asked (codes "/o") json) (result_file asked (codes "/o") json) ≡ false
unfolding text_eq mcp_vfp9sp2_toolchain.Base.OsPath.posix_join
    mcp_vfp9sp2_toolchain.Base.Text.starts_with
apart = refl

cmd_env-cleared_example :
    (end_of (cmd_env asked (codes "/o") json start)).disk (tmp_prg asked (codes "/o") json) ≡ none
cmd_env-cleared_example = cmd_env-cleared asked (codes "/o") json apart start

-- ===== src/Patching/Tests.antt =====
-- A plan for the form of the sample runs, whose one method is there.
use mcp_vfp9sp2_toolchain.Base.{ℕ, ◌≡◌, refl, true, false, none, some, [], ◌∷◌, All, if◌then◌else◌}
use mcp_vfp9sp2_toolchain.Base.Text.{Text, codes, text_eq}
use mcp_vfp9sp2_toolchain.Commands.Compiled.{exit_of}
use mcp_vfp9sp2_toolchain.Disk.{Disk, put}
use mcp_vfp9sp2_toolchain.Driver.{Converter}
use mcp_vfp9sp2_toolchain.Pipeline.Machine.{World, emitted, unknown_method, precondition_failed}
use mcp_vfp9sp2_toolchain.Pipeline.{Setting}
use mcp_vfp9sp2_toolchain.Pipeline.Samples.{small, good, tools}
use mcp_vfp9sp2_toolchain.Pipeline.Kept.{Untouched}
use mcp_vfp9sp2_toolchain.Patching.Program.{Edit, decimal}
use mcp_vfp9sp2_toolchain.Patching.{RefactorPlan, patch_prg, patch_status, baseline_sc2, cmd_patch}
use mcp_vfp9sp2_toolchain.Patching.Stale.{IsSameHash, cmd_patch-stale}

-- The program that VFP9 runs reports that all is well.
abbrev worker : Converter
worker = record (tools []) {
  run = λ cmd cwd disk. (
    record { stdout = codes "RC=0"; stderr = []; code = (false, 0); timeout = false },
    put (codes "/work/validation/patch_status.txt") (some (small (codes "OK"))) disk,
  );
}

abbrev patched : Setting
patched = record good { converter = worker }

abbrev code : Text
code = codes "procedure go\nendproc"

abbrev form : Disk
form p = if text_eq p (codes "/work/validation/f.sc2") then some (small code) else some (small [])

abbrev start : World
start = record { disk = form; steps = [] }

abbrev edit : Text → Edit
edit method = record {
  object_path = codes "f";
  method = method;
  old_method_sha256 = some code;
  new_code = some (codes "endproc");
  new_method_sha256 = some code;
}

abbrev plan : Text → RefactorPlan
plan method = record { source_form = codes "/app/src/f.scx"; edits = edit method ∷ [] }

abbrev changed : RefactorPlan
changed = record {
  source_form = codes "/app/src/f.scx";
  edits = record (edit (codes "go")) { new_method_sha256 = some (codes "endproc") } ∷ [];
}

-- The run of the plan, and of one that names no method of the form.
cmd_patch_value : exit_of (cmd_patch patched (some (plan (codes "go"))) start) ≡ emitted true none
unfolding cmd_patch mcp_vfp9sp2_toolchain.Patching.apply_plan
    mcp_vfp9sp2_toolchain.Pipeline.Machine.◌>>◌ mcp_vfp9sp2_toolchain.Patching.guard_patch
    mcp_vfp9sp2_toolchain.Pipeline.Machine.◌>>=◌ mcp_vfp9sp2_toolchain.Workspace.or_refuse
    mcp_vfp9sp2_toolchain.Safety.make_guard mcp_vfp9sp2_toolchain.Base.OsPath.posix_dirname
    mcp_vfp9sp2_toolchain.Base.OsPath.posix_join mcp_vfp9sp2_toolchain.Base.Text.starts_with
    mcp_vfp9sp2_toolchain.Safety.canonicalize_path mcp_vfp9sp2_toolchain.Base.Text.strip
    mcp_vfp9sp2_toolchain.Safety.are_same text_eq mcp_vfp9sp2_toolchain.Safety.is_under
    mcp_vfp9sp2_toolchain.Pipeline.Machine.pure mcp_vfp9sp2_toolchain.Safety.check_target
    mcp_vfp9sp2_toolchain.Pipeline.Machine.reads mcp_vfp9sp2_toolchain.Balance.after_keyword
    mcp_vfp9sp2_toolchain.Base.Dict.insert mcp_vfp9sp2_toolchain.Base.Dict.lookup
    mcp_vfp9sp2_toolchain.Base.OsPath.split_last mcp_vfp9sp2_toolchain.Base.Text.ends_with
    mcp_vfp9sp2_toolchain.Base.Text.find_at mcp_vfp9sp2_toolchain.Base.Text.is_line_break
    mcp_vfp9sp2_toolchain.Base.Text.is_space mcp_vfp9sp2_toolchain.Base.Text.split_lines
    mcp_vfp9sp2_toolchain.Checks.search mcp_vfp9sp2_toolchain.Commands.demand put
    mcp_vfp9sp2_toolchain.Encoding.codec_for_cpid mcp_vfp9sp2_toolchain.Encoding.decode_sc2
    mcp_vfp9sp2_toolchain.Encoding.decode_with mcp_vfp9sp2_toolchain.Encoding.detect_cpid
    mcp_vfp9sp2_toolchain.Encoding.digits mcp_vfp9sp2_toolchain.Encoding.header_at
    mcp_vfp9sp2_toolchain.Encoding.header_search mcp_vfp9sp2_toolchain.Encoding.parse_int
    mcp_vfp9sp2_toolchain.Encoding.some_spaces mcp_vfp9sp2_toolchain.Encoding.until_quote
    mcp_vfp9sp2_toolchain.Lexer.continues_loop mcp_vfp9sp2_toolchain.Lexer.continues_step
    mcp_vfp9sp2_toolchain.Lexer.line_continues mcp_vfp9sp2_toolchain.Lexer.words
    mcp_vfp9sp2_toolchain.Lexer.words_loop mcp_vfp9sp2_toolchain.Lexer.words_step
    mcp_vfp9sp2_toolchain.MethodParser.begins mcp_vfp9sp2_toolchain.MethodParser.find_end
    mcp_vfp9sp2_toolchain.MethodParser.is_end mcp_vfp9sp2_toolchain.MethodParser.match_delimiter
    mcp_vfp9sp2_toolchain.MethodParser.parse_loop mcp_vfp9sp2_toolchain.MethodParser.parse_methods
    mcp_vfp9sp2_toolchain.MethodParser.strip_continuations
    mcp_vfp9sp2_toolchain.MethodParser.strip_loop mcp_vfp9sp2_toolchain.Patched.find_last
    mcp_vfp9sp2_toolchain.Patched.see mcp_vfp9sp2_toolchain.Patched.see_all
    mcp_vfp9sp2_toolchain.Patched.verify_patched_methods
    mcp_vfp9sp2_toolchain.Patching.Program.build_patch_prg
    mcp_vfp9sp2_toolchain.Patching.Program.class_at decimal
    mcp_vfp9sp2_toolchain.Patching.Program.find_form_class
    mcp_vfp9sp2_toolchain.Patching.Program.first_at
    mcp_vfp9sp2_toolchain.Patching.Program.patch_lines
    mcp_vfp9sp2_toolchain.Patching.Program.patches_lines
    mcp_vfp9sp2_toolchain.Patching.Program.sha_lines mcp_vfp9sp2_toolchain.Patching.before_loop
    mcp_vfp9sp2_toolchain.Patching.check_patch mcp_vfp9sp2_toolchain.Patching.check_text
    mcp_vfp9sp2_toolchain.Patching.first_code mcp_vfp9sp2_toolchain.Patching.run_patch
    mcp_vfp9sp2_toolchain.Pipeline.Machine.leave mcp_vfp9sp2_toolchain.Pipeline.Machine.runs
    mcp_vfp9sp2_toolchain.Pipeline.Machine.writes mcp_vfp9sp2_toolchain.Plan.check_candidates
    mcp_vfp9sp2_toolchain.Plan.check_loop mcp_vfp9sp2_toolchain.Plan.check_preconditions
    mcp_vfp9sp2_toolchain.Plan.double_quotes mcp_vfp9sp2_toolchain.Plan.vfp_string_literal
    mcp_vfp9sp2_toolchain.Safety.has_drive mcp_vfp9sp2_toolchain.Base.OsPath.posix_splitext
    mcp_vfp9sp2_toolchain.Base.OsPath.posix_basename
cmd_patch_value = refl

cmd_patch_unknown :
    exit_of (cmd_patch patched (some (plan (codes "stop"))) start)
    ≡ emitted false (some unknown_method)
unfolding cmd_patch mcp_vfp9sp2_toolchain.Patching.apply_plan
    mcp_vfp9sp2_toolchain.Pipeline.Machine.◌>>◌ mcp_vfp9sp2_toolchain.Patching.guard_patch
    mcp_vfp9sp2_toolchain.Pipeline.Machine.◌>>=◌ mcp_vfp9sp2_toolchain.Workspace.or_refuse
    mcp_vfp9sp2_toolchain.Safety.make_guard mcp_vfp9sp2_toolchain.Base.OsPath.posix_dirname
    mcp_vfp9sp2_toolchain.Base.OsPath.posix_join mcp_vfp9sp2_toolchain.Base.Text.starts_with
    mcp_vfp9sp2_toolchain.Safety.canonicalize_path mcp_vfp9sp2_toolchain.Base.Text.strip
    mcp_vfp9sp2_toolchain.Safety.are_same text_eq mcp_vfp9sp2_toolchain.Safety.is_under
    mcp_vfp9sp2_toolchain.Pipeline.Machine.pure mcp_vfp9sp2_toolchain.Safety.check_target
    mcp_vfp9sp2_toolchain.Pipeline.Machine.reads mcp_vfp9sp2_toolchain.Balance.after_keyword
    mcp_vfp9sp2_toolchain.Base.Dict.insert mcp_vfp9sp2_toolchain.Base.Dict.lookup
    mcp_vfp9sp2_toolchain.Base.OsPath.split_last mcp_vfp9sp2_toolchain.Base.Text.ends_with
    mcp_vfp9sp2_toolchain.Base.Text.find_at mcp_vfp9sp2_toolchain.Base.Text.is_line_break
    mcp_vfp9sp2_toolchain.Base.Text.is_space mcp_vfp9sp2_toolchain.Base.Text.split_lines
    mcp_vfp9sp2_toolchain.Checks.search mcp_vfp9sp2_toolchain.Commands.demand put
    mcp_vfp9sp2_toolchain.Encoding.codec_for_cpid mcp_vfp9sp2_toolchain.Encoding.decode_sc2
    mcp_vfp9sp2_toolchain.Encoding.decode_with mcp_vfp9sp2_toolchain.Encoding.detect_cpid
    mcp_vfp9sp2_toolchain.Encoding.digits mcp_vfp9sp2_toolchain.Encoding.header_at
    mcp_vfp9sp2_toolchain.Encoding.header_search mcp_vfp9sp2_toolchain.Encoding.parse_int
    mcp_vfp9sp2_toolchain.Encoding.some_spaces mcp_vfp9sp2_toolchain.Encoding.until_quote
    mcp_vfp9sp2_toolchain.Lexer.continues_loop mcp_vfp9sp2_toolchain.Lexer.continues_step
    mcp_vfp9sp2_toolchain.Lexer.line_continues mcp_vfp9sp2_toolchain.Lexer.words
    mcp_vfp9sp2_toolchain.Lexer.words_loop mcp_vfp9sp2_toolchain.Lexer.words_step
    mcp_vfp9sp2_toolchain.MethodParser.begins mcp_vfp9sp2_toolchain.MethodParser.find_end
    mcp_vfp9sp2_toolchain.MethodParser.is_end mcp_vfp9sp2_toolchain.MethodParser.match_delimiter
    mcp_vfp9sp2_toolchain.MethodParser.parse_loop mcp_vfp9sp2_toolchain.MethodParser.parse_methods
    mcp_vfp9sp2_toolchain.MethodParser.strip_continuations
    mcp_vfp9sp2_toolchain.MethodParser.strip_loop mcp_vfp9sp2_toolchain.Patched.find_last
    mcp_vfp9sp2_toolchain.Patched.see mcp_vfp9sp2_toolchain.Patched.see_all
    mcp_vfp9sp2_toolchain.Patched.verify_patched_methods
    mcp_vfp9sp2_toolchain.Patching.Program.build_patch_prg
    mcp_vfp9sp2_toolchain.Patching.Program.class_at decimal
    mcp_vfp9sp2_toolchain.Patching.Program.find_form_class
    mcp_vfp9sp2_toolchain.Patching.Program.first_at
    mcp_vfp9sp2_toolchain.Patching.Program.patch_lines
    mcp_vfp9sp2_toolchain.Patching.Program.patches_lines
    mcp_vfp9sp2_toolchain.Patching.Program.sha_lines mcp_vfp9sp2_toolchain.Patching.before_loop
    mcp_vfp9sp2_toolchain.Patching.check_patch mcp_vfp9sp2_toolchain.Patching.check_text
    mcp_vfp9sp2_toolchain.Patching.first_code mcp_vfp9sp2_toolchain.Patching.run_patch
    mcp_vfp9sp2_toolchain.Pipeline.Machine.leave mcp_vfp9sp2_toolchain.Pipeline.Machine.runs
    mcp_vfp9sp2_toolchain.Pipeline.Machine.writes mcp_vfp9sp2_toolchain.Plan.check_candidates
    mcp_vfp9sp2_toolchain.Plan.check_loop mcp_vfp9sp2_toolchain.Plan.check_preconditions
    mcp_vfp9sp2_toolchain.Plan.double_quotes mcp_vfp9sp2_toolchain.Plan.vfp_string_literal
    mcp_vfp9sp2_toolchain.Safety.has_drive mcp_vfp9sp2_toolchain.Base.OsPath.posix_splitext
    mcp_vfp9sp2_toolchain.Base.OsPath.posix_basename
cmd_patch_unknown = refl

-- A plan that promises another hash is refused, though the run is good.
cmd_patch_changed :
    exit_of (cmd_patch patched (some changed) start) ≡ emitted false (some precondition_failed)
unfolding cmd_patch mcp_vfp9sp2_toolchain.Patching.apply_plan
    mcp_vfp9sp2_toolchain.Pipeline.Machine.◌>>◌ mcp_vfp9sp2_toolchain.Patching.guard_patch
    mcp_vfp9sp2_toolchain.Pipeline.Machine.◌>>=◌ mcp_vfp9sp2_toolchain.Workspace.or_refuse
    mcp_vfp9sp2_toolchain.Safety.make_guard mcp_vfp9sp2_toolchain.Base.OsPath.posix_dirname
    mcp_vfp9sp2_toolchain.Base.OsPath.posix_join mcp_vfp9sp2_toolchain.Base.Text.starts_with
    mcp_vfp9sp2_toolchain.Safety.canonicalize_path mcp_vfp9sp2_toolchain.Base.Text.strip
    mcp_vfp9sp2_toolchain.Safety.are_same text_eq mcp_vfp9sp2_toolchain.Safety.is_under
    mcp_vfp9sp2_toolchain.Pipeline.Machine.pure mcp_vfp9sp2_toolchain.Safety.check_target
    mcp_vfp9sp2_toolchain.Pipeline.Machine.reads mcp_vfp9sp2_toolchain.Balance.after_keyword
    mcp_vfp9sp2_toolchain.Base.Dict.insert mcp_vfp9sp2_toolchain.Base.Dict.lookup
    mcp_vfp9sp2_toolchain.Base.OsPath.split_last mcp_vfp9sp2_toolchain.Base.Text.ends_with
    mcp_vfp9sp2_toolchain.Base.Text.find_at mcp_vfp9sp2_toolchain.Base.Text.is_line_break
    mcp_vfp9sp2_toolchain.Base.Text.is_space mcp_vfp9sp2_toolchain.Base.Text.split_lines
    mcp_vfp9sp2_toolchain.Checks.search mcp_vfp9sp2_toolchain.Commands.demand put
    mcp_vfp9sp2_toolchain.Encoding.codec_for_cpid mcp_vfp9sp2_toolchain.Encoding.decode_sc2
    mcp_vfp9sp2_toolchain.Encoding.decode_with mcp_vfp9sp2_toolchain.Encoding.detect_cpid
    mcp_vfp9sp2_toolchain.Encoding.digits mcp_vfp9sp2_toolchain.Encoding.header_at
    mcp_vfp9sp2_toolchain.Encoding.header_search mcp_vfp9sp2_toolchain.Encoding.parse_int
    mcp_vfp9sp2_toolchain.Encoding.some_spaces mcp_vfp9sp2_toolchain.Encoding.until_quote
    mcp_vfp9sp2_toolchain.Lexer.continues_loop mcp_vfp9sp2_toolchain.Lexer.continues_step
    mcp_vfp9sp2_toolchain.Lexer.line_continues mcp_vfp9sp2_toolchain.Lexer.words
    mcp_vfp9sp2_toolchain.Lexer.words_loop mcp_vfp9sp2_toolchain.Lexer.words_step
    mcp_vfp9sp2_toolchain.MethodParser.begins mcp_vfp9sp2_toolchain.MethodParser.find_end
    mcp_vfp9sp2_toolchain.MethodParser.is_end mcp_vfp9sp2_toolchain.MethodParser.match_delimiter
    mcp_vfp9sp2_toolchain.MethodParser.parse_loop mcp_vfp9sp2_toolchain.MethodParser.parse_methods
    mcp_vfp9sp2_toolchain.MethodParser.strip_continuations
    mcp_vfp9sp2_toolchain.MethodParser.strip_loop mcp_vfp9sp2_toolchain.Patched.find_last
    mcp_vfp9sp2_toolchain.Patched.see mcp_vfp9sp2_toolchain.Patched.see_all
    mcp_vfp9sp2_toolchain.Patched.verify_patched_methods
    mcp_vfp9sp2_toolchain.Patching.Program.build_patch_prg
    mcp_vfp9sp2_toolchain.Patching.Program.class_at decimal
    mcp_vfp9sp2_toolchain.Patching.Program.find_form_class
    mcp_vfp9sp2_toolchain.Patching.Program.first_at
    mcp_vfp9sp2_toolchain.Patching.Program.patch_lines
    mcp_vfp9sp2_toolchain.Patching.Program.patches_lines
    mcp_vfp9sp2_toolchain.Patching.Program.sha_lines mcp_vfp9sp2_toolchain.Patching.before_loop
    mcp_vfp9sp2_toolchain.Patching.check_patch mcp_vfp9sp2_toolchain.Patching.check_text
    mcp_vfp9sp2_toolchain.Patching.first_code mcp_vfp9sp2_toolchain.Patching.run_patch
    mcp_vfp9sp2_toolchain.Pipeline.Machine.leave mcp_vfp9sp2_toolchain.Pipeline.Machine.runs
    mcp_vfp9sp2_toolchain.Pipeline.Machine.writes mcp_vfp9sp2_toolchain.Plan.check_candidates
    mcp_vfp9sp2_toolchain.Plan.check_loop mcp_vfp9sp2_toolchain.Plan.check_preconditions
    mcp_vfp9sp2_toolchain.Plan.double_quotes mcp_vfp9sp2_toolchain.Plan.vfp_string_literal
    mcp_vfp9sp2_toolchain.Safety.has_drive mcp_vfp9sp2_toolchain.Base.OsPath.posix_splitext
    mcp_vfp9sp2_toolchain.Base.OsPath.posix_basename
cmd_patch_changed = refl

decimal_value : decimal 1207 ≡ codes "1207"
unfolding decimal
decimal_value = refl

worker_keeps : Untouched patched (baseline_sc2 patched (plan (codes "go")))
unfolding put text_eq mcp_vfp9sp2_toolchain.Base.OsPath.posix_join
    mcp_vfp9sp2_toolchain.Base.Text.starts_with mcp_vfp9sp2_toolchain.Base.OsPath.posix_splitext
    mcp_vfp9sp2_toolchain.Base.OsPath.posix_basename
worker_keeps cmd cwd d = refl

apart :
    (text_eq (patch_status patched (plan (codes "go"))) (baseline_sc2 patched (plan (codes "go")))
      ≡ false)
    × (text_eq (patch_prg patched (plan (codes "go"))) (baseline_sc2 patched (plan (codes "go")))
        ≡ false)
unfolding text_eq mcp_vfp9sp2_toolchain.Base.OsPath.posix_join
    mcp_vfp9sp2_toolchain.Base.Text.starts_with mcp_vfp9sp2_toolchain.Base.OsPath.posix_splitext
    mcp_vfp9sp2_toolchain.Base.OsPath.posix_basename
apart = (refl, refl)

cmd_patch-stale_example : All (IsSameHash patched) (edit (codes "go") ∷ [])
cmd_patch-stale_example =
    cmd_patch-stale patched (plan (codes "go")) start worker_keeps apart.0 apart.1 cmd_patch_value

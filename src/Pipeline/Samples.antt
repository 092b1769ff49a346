-- ===== src/Pipeline/Samples.antt =====
-- Runs of `cmd_validate` on small disks, by tools that do nothing but report.
use mcp_vfp9sp2_toolchain.Base.{ℕ, ◌≡◌, refl, true, false, none, some, [], ◌==◌}
use mcp_vfp9sp2_toolchain.Base.Text.{Text, codes, ascii, text_eq, starts_with, strip, ends_with}
use mcp_vfp9sp2_toolchain.Base.OsPath.{posix, posix_dirname, posix_join, posix_splitext}
use mcp_vfp9sp2_toolchain.Balance.{Letters, after_keyword}
use mcp_vfp9sp2_toolchain.Common.{required_companions}
use mcp_vfp9sp2_toolchain.Disk.{Disk, File, put}
use mcp_vfp9sp2_toolchain.Driver.{Converter, convert_one}
use mcp_vfp9sp2_toolchain.Encoding.{
  Codecs, is_suspicious, decode_sc2, codec_for_cpid, detect_cpid, header_search, header_at,
}
use mcp_vfp9sp2_toolchain.Safety.{make_guard, canonicalize_path, are_same, is_under, check_target}
use mcp_vfp9sp2_toolchain.Pipeline.Machine.{
  compile_error, leave, emitted, ◌>>=◌, pure, ◌>>◌, step, reads, writes, runs, told, is_label,
  opened, found_file, or_raise,
}
use mcp_vfp9sp2_toolchain.Pipeline.{
  Setting, fail, check_workspace, or_fail, hash_source, check_copies, require, check_compile,
  run_compile, passed_or_fail, check_roundtrip, run_roundtrip, write_reports, workspace,
}
use mcp_vfp9sp2_toolchain.Pipeline.Validate.{
  validate, ended, checks, check_static, read_sc2_text, find_source_sc2, check_inventories,
  check_source, promote, promote_file,
}
use mcp_vfp9sp2_toolchain.Manifest.{
  verify_source_hashes, verify_loop, guarded_paths, capture, capture_loop, capture_one,
}
use mcp_vfp9sp2_toolchain.Base.Dict.{lookup, insert}
use mcp_vfp9sp2_toolchain.Static.{
  validate_sc2, sc2_findings, check_duplicates, repeated, names_loop, bodies_loop, methods_loop,
}
use mcp_vfp9sp2_toolchain.Checks.{check_controls, check_fffd, check_mojibake, check_markdown_fences}
use mcp_vfp9sp2_toolchain.MethodParser.{parse_methods, strip_continuations, begins, match_delimiter}
use mcp_vfp9sp2_toolchain.Lexer.{line_continues, words}
use mcp_vfp9sp2_toolchain.Inventory.{compare_inventories, deltas}
use mcp_vfp9sp2_toolchain.Base.Table.{sorted}

abbrev pub small : Text → File
small content = record { content = content; mtime = 7 }

-- Every path names one file, and the status of the compilation is good.
abbrev pub full : Disk
full p = some (small (codes "x"))

abbrev pub status : Text
status = codes "/work/validation/compile_status.txt"

-- Each process leaves this status.
abbrev pub tools : Text → Converter
tools text = record {
  os = posix;
  casing = ascii;
  sha256 = λ s. s;
  script = codes "/t/vfp_convert.vbs";
  run = λ cmd cwd disk. (
    record { stdout = codes "RC=0"; stderr = []; code = (false, 0); timeout = false },
    put status (some (small text)) disk,
  );
  cscript = codes "cscript";
}

abbrev pub letters : Letters
letters = record { same_letter = λ a b. a == b; is_word = λ c. c == b'_' }

abbrev pub codecs : Codecs
codecs = record { strict = λ codec raw. some raw; replace = λ codec raw. raw }

abbrev pub setting : Text → Text → Setting
setting text workspace = record {
  host = record { platform = posix; casing = ascii; force_lower = false };
  converter = tools text;
  letters = letters;
  codecs = codecs;
  places = record {
    variable = λ name. none;
    isabs = λ p. true;
    normpath = λ p. p;
    here = codes "/t";
  };
  config = none;
  is_dir = λ p. true;
  json_text = λ t. t;
  json_report = λ r. codes "{}";
  started = codes "08:00";
  finished = codes "08:01";
  utf8 = λ t. t;
  cp1252 = λ t. t;
  now = 8;
  plan_of = λ t. none;
  floats = record {
    Float = ℕ;
    read = λ t. none;
    same_float = λ x y. x == y;
    same_int = λ x n. false;
  };
  workspace_arg = workspace;
  form = codes "f";
  source_form_arg = codes "/app/src/f.scx";
}

-- A form is verified; it is refused where the status of the compilation is another.
pub validate_values :
    ((validate (setting (codes "OK") (codes "/work")) full).0 ≡ emitted true none)
    × ((validate (setting (codes "x") (codes "/work")) full).0 ≡ emitted false (some compile_error))
unfolding fail leave validate ended ◌>>=◌ checks check_workspace or_fail make_guard posix_dirname
    posix_join starts_with canonicalize_path strip are_same text_eq is_under pure ◌>>◌ check_target
    step hash_source reads check_copies require check_compile run_compile writes runs passed_or_fail
    told is_label put check_roundtrip run_roundtrip convert_one verify_source_hashes verify_loop
    guarded_paths lookup capture capture_loop required_companions posix_splitext capture_one insert
    check_static read_sc2_text opened found_file is_suspicious decode_sc2 codec_for_cpid detect_cpid
    header_search header_at after_keyword validate_sc2 sc2_findings check_controls check_fffd
    check_mojibake check_markdown_fences check_duplicates repeated names_loop parse_methods
    strip_continuations line_continues ends_with begins match_delimiter words bodies_loop
    methods_loop find_source_sc2 check_inventories compare_inventories deltas sorted check_source
    promote promote_file or_raise write_reports mcp_vfp9sp2_toolchain.Outline.Build.build_inventory
validate_values = (refl, refl)

abbrev pub good : Setting
good = setting (codes "OK") (codes "/work")

abbrev pub bad : Setting
bad = setting (codes "x") (codes "/work")

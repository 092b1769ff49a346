-- ===== src/Driver/Tests.antt =====
-- A conversion on a small disk, by processes that leave the source alone or write to it.
use mcp_vfp9sp2_toolchain.Base.{◌≡◌, ◌↔◌, refl, true, false, none, some, []}
use mcp_vfp9sp2_toolchain.Base.Text.{Text, codes, ascii}
use mcp_vfp9sp2_toolchain.Base.OsPath.{posix}
use mcp_vfp9sp2_toolchain.Disk.{Disk, File, is_file}
use mcp_vfp9sp2_toolchain.Driver.{
  Converter, convert_one, process, parse_rc, is_rc, critical_source_mutation,
}
use mcp_vfp9sp2_toolchain.Driver.Intact.{IsIntact, convert_one_ok, convert_one_critical}

parse_rc_values :
    (parse_rc (codes "RC=1\nlog\n RC=0 \nend") ≡ some (false, 0))
    × (parse_rc (codes "RC=x") ≡ none)
    × (parse_rc (codes "done") ≡ none)
unfolding parse_rc
parse_rc_values = (refl, refl, refl)

abbrev pub small : Text → File
small content = record { content = content; mtime = 7 }

-- Every path names one file.
abbrev full : Disk
full p = some (small (codes "x"))

full_names : (p q : Text) → posix.abspath p ≡ posix.abspath q → full p ≡ full q
full_names p q h = refl

abbrev quiet : Converter
quiet = record {
  os = posix;
  casing = ascii;
  sha256 = λ s. s;
  script = codes "/t/vfp_convert.vbs";
  run = λ cmd cwd disk.
      (record { stdout = codes "RC=0"; stderr = []; code = (false, 0); timeout = false }, disk);
  cscript = codes "cscript";
}

-- A process that writes to every file.
abbrev vandal : Converter
vandal = record quiet {
  run = λ cmd cwd disk. (
    record { stdout = codes "RC=0"; stderr = []; code = (false, 0); timeout = false },
    λ p. some (small (codes "y")),
  );
}

convert_one_ok_example :
    ((convert_one quiet (codes "/s/f.scx") (codes "BIN2PRG") (codes "/w") [] [] full).0.ok ≡ true)
    ↔ ((is_file full quiet.script ≡ true)
        × ((process quiet (codes "/s/f.scx") (codes "BIN2PRG") (codes "/w") [] [] full).0.timeout
            ≡ false)
        × (is_rc 0 (
              parse_rc
                (process quiet
                  (codes "/s/f.scx")
                  (codes "BIN2PRG")
                  (codes "/w")
                  []
                  []
                  full).0.stdout)
            ≡ true)
        × IsIntact quiet full
            (codes "/s/f.scx")
            (process quiet (codes "/s/f.scx") (codes "BIN2PRG") (codes "/w") [] [] full).1)
convert_one_ok_example =
    convert_one_ok quiet (codes "/s/f.scx") (codes "BIN2PRG") (codes "/w") [] [] full full_names

convert_one_critical_example :
    ((convert_one vandal (codes "/s/f.scx") (codes "BIN2PRG") (codes "/w") [] [] full).0.error_code
      ≡ some critical_source_mutation)
    ↔ ((is_file full vandal.script ≡ true)
        × ((process vandal (codes "/s/f.scx") (codes "BIN2PRG") (codes "/w") [] [] full).0.timeout
            ≡ false)
        × (¬ IsIntact vandal full
            (codes "/s/f.scx")
            (process vandal (codes "/s/f.scx") (codes "BIN2PRG") (codes "/w") [] [] full).1))
convert_one_critical_example =
    convert_one_critical vandal (codes "/s/f.scx") (codes "BIN2PRG") (codes "/w") [] [] full
      full_names

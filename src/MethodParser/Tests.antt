-- ===== src/MethodParser/Tests.antt =====
-- The method parser on a small form, and its theorems there.
use mcp_vfp9sp2_toolchain.Base.{length, ◌≡◌, refl, true, false, none, some, [], ◌∷◌, keep}
use mcp_vfp9sp2_toolchain.Base.Text.{
  Text, codes, ascii, text_eq, split_lines, strip, starts_with, ends_with,
}
use mcp_vfp9sp2_toolchain.Lexer.{words, line_continues}
use mcp_vfp9sp2_toolchain.MethodParser.{
  procedure, function, Method, strip_continuations, match_delimiter, begins, is_end, find_end,
  parse_methods, find_method, kind_eq,
}
use mcp_vfp9sp2_toolchain.MethodParser.Tiles.{Tiles, strip_continuations-Tiles}
use mcp_vfp9sp2_toolchain.MethodParser.Reading.{IsReading}
use mcp_vfp9sp2_toolchain.MethodParser.Ranges.{InOrder, parse_methods-InOrder}

abbrev form : Text
form =
    codes
      "DEFINE CLASS f AS form\nPROCEDURE Init\n  x = 1 + ;\n    2\nENDPROC\nprotected function Go\nENDFUNC\nENDDEFINE"

-- The hash of the tests keeps the text itself.
abbrev plain_hash : Text → Text
plain_hash s = s

abbrev init_method : Method
init_method = record {
  name = codes "Init";
  kind = procedure;
  line_start = 2;
  line_end = 5;
  line_count = 4;
  code = codes "PROCEDURE Init\n  x = 1 + ;\n    2\nENDPROC";
  source_sha256 = codes "PROCEDURE Init\n  x = 1 + ;\n    2\nENDPROC";
  unterminated = false;
}

abbrev go_method : Method
go_method = record {
  name = codes "Go";
  kind = function;
  line_start = 6;
  line_end = 7;
  line_count = 2;
  code = codes "protected function Go\nENDFUNC";
  source_sha256 = codes "protected function Go\nENDFUNC";
  unterminated = false;
}

parse_form : parse_methods ascii plain_hash form ≡ init_method ∷ go_method ∷ []
unfolding parse_methods split_lines strip_continuations line_continues begins match_delimiter is_end
    find_end words strip text_eq starts_with ends_with
parse_form = refl

-- A delimiter inside a block comment opens a method all the same.
parse_comment :
    keep
      (λ m. text_eq m.name (codes "Old"))
      (parse_methods ascii plain_hash (codes "(*\nPROCEDURE Old\n*)\nENDPROC"))
    ≡ record {
      name = codes "Old";
      kind = procedure;
      line_start = 2;
      line_end = 4;
      line_count = 3;
      code = codes "PROCEDURE Old\n*)\nENDPROC";
      source_sha256 = codes "PROCEDURE Old\n*)\nENDPROC";
      unterminated = false;
    }
      ∷ []
unfolding parse_methods split_lines strip_continuations line_continues begins match_delimiter is_end
    find_end words strip text_eq starts_with ends_with
parse_comment = refl

-- An ENDPROC outside a method begins one that has no name.
parse_stray :
    parse_methods ascii plain_hash (codes "ENDPROC")
    ≡ record {
      name = [];
      kind = procedure;
      line_start = 1;
      line_end = 1;
      line_count = 1;
      code = codes "ENDPROC";
      source_sha256 = codes "ENDPROC";
      unterminated = true;
    }
      ∷ []
unfolding parse_methods split_lines strip_continuations line_continues begins match_delimiter is_end
    find_end words strip text_eq starts_with ends_with
parse_stray = refl

strip_continuations-Tiles_example : Tiles 8 1 (strip_continuations (split_lines form))
unfolding split_lines
strip_continuations-Tiles_example = strip_continuations-Tiles (split_lines form)

parse_methods-InOrder_example :
    InOrder plain_hash (split_lines form) 1 (parse_methods ascii plain_hash form)
    × IsReading ascii
        (length (split_lines form))
        (strip_continuations (split_lines form))
        (parse_methods ascii plain_hash form)
parse_methods-InOrder_example = parse_methods-InOrder ascii plain_hash form

find_method_runs :
    (find_method ascii (init_method ∷ go_method ∷ []) (some (codes "GO")) none ≡ some go_method)
    × (find_method ascii (init_method ∷ go_method ∷ []) (some (codes "GO")) (some procedure) ≡ none)
    × (find_method ascii (go_method ∷ go_method ∷ []) (some (codes "GO")) none ≡ none)
unfolding find_method text_eq kind_eq
find_method_runs = (refl, refl, refl)

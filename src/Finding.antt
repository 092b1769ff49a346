-- ===== src/Finding.antt =====
-- The findings of vfp_static_validate.py, by the data that their messages give.
use mcp_vfp9sp2_toolchain.Base.{ℕ, Option}
use mcp_vfp9sp2_toolchain.Base.Text.{Text}
use mcp_vfp9sp2_toolchain.MethodParser.{Kind}

pub data Severity : Type 0 where
  error warning : Severity

pub data Check : Type 0 where
  control_characters : ℕ → Check
  replacement_char mojibake literal_escape markdown_fence ai_prompt_fragment : Check
  duplicate : Kind → Text → ℕ → Check
  duplicated_code_block : Text → Check
  end_balance : Text → ℕ → Text → ℕ → Check
  growth : ℕ → ℕ → Check

pub record Finding : Type 0 where
  pub check : Check
  pub severity : Severity
  pub method : Option Text

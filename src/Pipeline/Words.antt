-- ===== src/Pipeline/Words.antt =====
-- The names that the report of `cmd_validate` gives to steps and to error codes.
use mcp_vfp9sp2_toolchain.Base.Text.{Text, codes}
use mcp_vfp9sp2_toolchain.Pipeline.Machine.{
  Label, ws_safety, src_sha_pre, copies_ok, compile_ok, roundtrip_ok, static_ok, source_sc2_ok,
  inv_objects_ok, inv_methods_ok, src_sha_post, promote_final, Code, source_path_write_forbidden,
  workspace_not_found, compile_error, roundtrip_failed, static_validation_failed,
  encoding_corruption, form_structure_changed, critical_source_mutation, missing_file, vfp9_timeout,
  missing_companion, hash_failed, copy_hash_mismatch, schema_invalid, unknown_method,
  precondition_failed, vfp9_missing,
}

unfoldable pub label_text : Label → Text
label_text ws_safety = codes "WS_SAFETY"
label_text src_sha_pre = codes "SRC_SHA_PRE"
label_text copies_ok = codes "COPIES_OK"
label_text compile_ok = codes "COMPILE_OK"
label_text roundtrip_ok = codes "ROUNDTRIP_OK"
label_text static_ok = codes "STATIC_OK"
label_text source_sc2_ok = codes "SOURCE_SC2_OK"
label_text inv_objects_ok = codes "INV_OBJECTS_OK"
label_text inv_methods_ok = codes "INV_METHODS_OK"
label_text src_sha_post = codes "SRC_SHA_POST"
label_text promote_final = codes "PROMOTE_FINAL"

unfoldable pub code_text : Code → Text
code_text source_path_write_forbidden = codes "SOURCE_PATH_WRITE_FORBIDDEN"
code_text workspace_not_found = codes "WORKSPACE_NOT_FOUND"
code_text compile_error = codes "COMPILE_ERROR"
code_text roundtrip_failed = codes "ROUNDTRIP_FAILED"
code_text static_validation_failed = codes "STATIC_VALIDATION_FAILED"
code_text encoding_corruption = codes "ENCODING_CORRUPTION"
code_text form_structure_changed = codes "FORM_STRUCTURE_CHANGED"
code_text critical_source_mutation = codes "CRITICAL_SOURCE_MUTATION"
code_text missing_file = codes "MISSING_FILE"
code_text vfp9_timeout = codes "VFP9_TIMEOUT"
code_text missing_companion = codes "MISSING_COMPANION"
code_text hash_failed = codes "HASH_FAILED"
code_text copy_hash_mismatch = codes "COPY_HASH_MISMATCH"
code_text schema_invalid = codes "PLAN_SCHEMA_INVALID"
code_text unknown_method = codes "METHOD_NOT_FOUND"
code_text precondition_failed = codes "PATCH_PRECONDITION_FAILED"
code_text vfp9_missing = codes "VFP9_NOT_AVAILABLE"

-- ===== src/Protocol.antt =====
-- vfp_protocol.py: the JSON object that each command gives, how it is read back, and the processes.
-- JSON is a parameter; so is what a process does.
pub mod Output
mod Tests
use mcp_vfp9sp2_toolchain.Base.{
  ℕ, Bool, true, false, not, ◌&&◌, Option, none, some, List, [], ◌∷◌, ◌++◌, is_empty, if◌then◌else◌,
}
use mcp_vfp9sp2_toolchain.Base.Text.{Text, codes, starts_with, strip, split_lines}

pub data Status : Type 0 where
  passed failed partial : Status

-- ALL_ERROR_CODES, UNEXPECTED_ERROR, and the codes that other modules write out
pub data ErrorCode : Type 0 where
  source_path_write_forbidden source_hash_changed critical_source_mutation : ErrorCode
  missing_companion patch_precondition_failed vfp9_not_available vfp9_timeout : ErrorCode
  compile_error roundtrip_failed form_structure_changed encoding_corruption : ErrorCode
  static_validation_failed plan_schema_invalid workspace_not_found : ErrorCode
  object_not_found method_not_found workspace_write_forbidden : ErrorCode
  unexpected_error : ErrorCode
  written_out : Text → ErrorCode

-- The arguments of `emit`; `J` is the type of the values of JSON. A number that may be negative is
-- its size and whether it is.
pub record Call {ℓ} (J : Type ℓ) : Type ℓ where
  pub ok : Bool
  pub status : Option Status
  pub error_code : Option ErrorCode
  pub rc : Option (Bool × ℕ)
  pub version : Option Text
  pub stdout : Text
  pub stderr : Text
  pub data_value : Option J
  pub extra : List (Text × J)

pub record Payload {ℓ} (J : Type ℓ) : Type ℓ where
  pub ok : Bool
  pub status : Status
  pub error_code : Option ErrorCode
  pub rc : Option (Bool × ℕ)
  pub version : Option Text
  pub stdout : Text
  pub stderr : Text
  pub data_value : J
  pub extra : List (Text × J)

abbrev pub or_default {ℓ} : {A : Type ℓ} → Option A → A → A
or_default none a = a
or_default (some b) a = b

module _ {ℓ} {J : Type ℓ} where
  -- `result_payload`; the value of `{}` is given
  unfoldable pub result_payload : J → Call J → Payload J
  result_payload empty c = record {
    ok = c.ok;
    status = or_default c.status (if c.ok then passed else failed);
    error_code = if c.ok then c.error_code else some (or_default c.error_code unexpected_error);
    rc = c.rc;
    version = c.version;
    stdout = c.stdout;
    stderr = c.stderr;
    data_value = or_default c.data_value empty;
    extra = c.extra;
  }

  -- `emit`: what is written to stdout, and the code of the exit; `json.dumps` is a parameter
  unfoldable pub emit : (Payload J → Text) → J → Call J → Text × ℕ
  emit dumps empty c = (dumps (result_payload empty c) ++ codes "\n", if c.ok then 0 else 2)

-- `json.loads`, with none for a `ValueError`, and `isinstance(obj, dict)`
module _ {ℓ} {J : Type ℓ} (loads : Text → Option J) (is_dict : J → Bool) where
  abbrev pub dict_only : J → Option J
  dict_only o = if is_dict o then some o else none

  -- The loop over the lines, the last of them first.
  unfoldable pub last_object : List Text → Option J
  last_object [] = none
  last_object (line ∷ lines) =
      let rest = last_object lines in
      if starts_with (strip line) (codes "{")
      then (elim (loads (strip line)) [ none ↦ rest | some o ↦ dict_only o ])
      else rest

  abbrev pub backwards : List Text → List Text
  backwards [] = []
  backwards (line ∷ lines) = backwards lines ++ line ∷ []

  unfoldable pub parse_driver_output : Option Text → Option J
  unfolding last_object
  parse_driver_output stdout_text =
      let text = strip (or_default stdout_text []) in
      if is_empty text then none else elim (loads text) [
        | some o ↦ dict_only o
        | none ↦ last_object (backwards (split_lines text))
      ]

-- What the system does with a command: it cannot start it, or the process ends in time with what it
-- wrote and its code, or the time is over; then it may have ended all the same, and a pipe that
-- cannot be read is none.
pub data Behaviour : Type 0 where
  not_started : Text → Behaviour
  ended : List ℕ → List ℕ → Bool × ℕ → Behaviour
  expired : ℕ → Bool → Option (List ℕ) → Option (List ℕ) → Behaviour

pub record Outcome : Type 0 where
  pub stdout : Text
  pub stderr : Text
  pub code : Bool × ℕ
  pub timeout : Bool
  -- the processes that were terminated
  pub terminated : List ℕ

-- `run_process`; `_decode` is a parameter, and so are the two messages
unfoldable pub run_process : (List ℕ → Text) → (Text → Text) → (ℕ → Text) → Behaviour → Outcome
run_process decode not_found message (not_started e) = record {
  stdout = [];
  stderr = not_found e;
  code = (true, 1);
  timeout = false;
  terminated = [];
}
run_process decode not_found message (ended out err code) = record {
  stdout = decode out;
  stderr = decode err;
  code = code;
  timeout = false;
  terminated = [];
}
run_process decode not_found message (expired pid alive out err) = record {
  stdout = decode (or_default out []);
  stderr = message pid;
  code = (true, 2);
  timeout = true;
  terminated = if alive then pid ∷ [] else [];
}

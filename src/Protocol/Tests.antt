-- ===== src/Protocol/Tests.antt =====
-- The output of a command, with JSON objects that are their own text.
use mcp_vfp9sp2_toolchain.Base.{
  take, drop, length, ◌-◌, ◌↔◌, ◌≡◌, refl, Bool, true, false, Option, none, some, [], ◌∷◌, ◌++◌,
  if◌then◌else◌,
}
use mcp_vfp9sp2_toolchain.Base.Text.{Text, codes, starts_with, strip, split_lines}
use mcp_vfp9sp2_toolchain.Protocol.{
  Call, Payload, result_payload, emit, parse_driver_output, failed, unexpected_error,
}
use mcp_vfp9sp2_toolchain.Protocol.Output.{Tells, parse_driver_output-emit}

abbrev dumps : Payload Text → Text
dumps p = b'{' ∷ p.stdout ++ b'}' ∷ []

abbrev loads : Text → Option Text
loads t = if starts_with t (codes "{") then some t else none

abbrev any_object : Text → Bool
any_object o = true

-- What stands between the braces.
abbrev inner : Text → Text
inner o = take (length o - 2) (drop 1 o)

abbrev failing : Call Text
failing = record {
  ok = false;
  status = none;
  error_code = none;
  rc = none;
  version = none;
  stdout = codes "log";
  stderr = [];
  data_value = none;
  extra = [];
}

payload_values :
    ((result_payload (codes "{}") failing).status ≡ failed)
    × ((result_payload (codes "{}") failing).error_code ≡ some unexpected_error)
    × ((result_payload (codes "{}") failing).data_value ≡ codes "{}")
unfolding result_payload
payload_values = (refl, refl, refl)

-- A stray line stands before the object.
parse_values :
    (parse_driver_output loads any_object (some (codes "note\n {a}\n")) ≡ some (codes "{a}"))
    × (parse_driver_output loads any_object (some (codes "note\n")) ≡ none)
    × (parse_driver_output loads any_object none ≡ none)
unfolding parse_driver_output split_lines strip starts_with
parse_values = (refl, refl, refl)

payload_braces : dumps (result_payload (codes "{}") failing) ≡ b'{' ∷ codes "log" ++ b'}' ∷ []
unfolding result_payload
payload_braces = refl

payload_read : loads (dumps (result_payload (codes "{}") failing)) ≡ some (codes "{log}")
unfolding result_payload starts_with
payload_read = refl

-- What is read of an object of these runs, whose text is the log.
abbrev payload_of : Text → Payload Text
payload_of o = record {
  ok = false;
  status = failed;
  error_code = some unexpected_error;
  rc = none;
  version = none;
  stdout = inner o;
  stderr = [];
  data_value = codes "{}";
  extra = [];
}

payload_fields : payload_of (codes "{log}") ≡ result_payload (codes "{}") failing
unfolding result_payload
payload_fields = refl

parse_driver_output-emit_example :
    (parse_driver_output loads any_object (some (emit dumps (codes "{}") failing).0)
      ≡ some (codes "{log}"))
    × Tells (codes "{}") failing (payload_of (codes "{log}"))
    × (((emit dumps (codes "{}") failing).1 ≡ 0) ↔ ((payload_of (codes "{log}")).ok ≡ true))
parse_driver_output-emit_example =
    parse_driver_output-emit dumps (codes "{}") loads any_object payload_of failing (codes "{log}")
      (codes "log") payload_braces payload_read refl payload_fields

-- ===== src/Protocol/Output.antt =====
-- What a command writes is read back as the object that it wrote, and its exit code tells of it.
use mcp_vfp9sp2_toolchain.Base.{
  ℕ, ◌≡◌, ◌↔◌, refl, ap, sym, ◌∙◌, inl, inr, Bool, true, false, ◌&&◌, Option, none, some, [], ◌∷◌,
  ◌++◌, is_empty, if◌then◌else◌, Bool-cases,
}
use mcp_vfp9sp2_toolchain.Base.Text.{Text, codes, strip, rstrip, is_space}
use mcp_vfp9sp2_toolchain.Protocol.{
  Status, passed, failed, ErrorCode, unexpected_error, Call, Payload, result_payload, emit,
  parse_driver_output,
}

-- The end of a text that `rstrip` takes away.
rstrip_last_space :
    (p : ℕ → Bool) (s : Text) (c : ℕ) → p c ≡ true → rstrip p (s ++ c ∷ []) ≡ rstrip p s
rstrip_last_space p [] c h = rw h refl
rstrip_last_space p (d ∷ s) c h = rw (rstrip_last_space p s c h) refl

rstrip_last_kept :
    (p : ℕ → Bool) (s : Text) (c : ℕ) → p c ≡ false → rstrip p (s ++ c ∷ []) ≡ s ++ c ∷ []
rstrip_last_kept p [] c h = rw h refl
rstrip_last_kept p (d ∷ s) c h = rw (rstrip_last_kept p s c h) (not_empty s)
  where
    not_empty :
        (s : Text)
        → (if is_empty (s ++ c ∷ []) && p d then [] else d ∷ s ++ c ∷ []) ≡ d ∷ s ++ c ∷ []
    not_empty [] = refl
    not_empty (e ∷ s) = refl

-- An object of JSON in one line is what is left of the line.
strip-object :
    (mid : Text) → strip ((b'{' ∷ mid ++ b'}' ∷ []) ++ codes "\n") ≡ b'{' ∷ mid ++ b'}' ∷ []
unfolding strip is_space
strip-object mid =
    rstrip_last_space is_space (b'{' ∷ mid ++ b'}' ∷ []) 10 refl
    ∙ rstrip_last_kept is_space (b'{' ∷ mid) b'}' refl

-- The payload tells what the call says, and what the call leaves open is filled in.
pub record Tells {ℓ} {J : Type ℓ} (empty : J) (c : Call J) (p : Payload J) : Type ℓ where
  pub ok_is : p.ok ≡ c.ok
  pub status_given : (x : Status) → c.status ≡ some x → p.status ≡ x
  pub passes : c.status ≡ none → c.ok ≡ true → p.status ≡ passed
  pub fails : c.status ≡ none → c.ok ≡ false → p.status ≡ failed
  pub good_code : c.ok ≡ true → p.error_code ≡ c.error_code
  pub code_given : (e : ErrorCode) → c.error_code ≡ some e → p.error_code ≡ some e
  pub code_missing : c.ok ≡ false → c.error_code ≡ none → p.error_code ≡ some unexpected_error
  pub data_given : (x : J) → c.data_value ≡ some x → p.data_value ≡ x
  pub data_missing : c.data_value ≡ none → p.data_value ≡ empty
  pub rc_is : p.rc ≡ c.rc
  pub version_is : p.version ≡ c.version
  pub stdout_is : p.stdout ≡ c.stdout
  pub stderr_is : p.stderr ≡ c.stderr
  pub extra_is : p.extra ≡ c.extra

result_payload-Tells {ℓ} :
    {J : Type ℓ} (empty : J) (c : Call J) → Tells empty c (result_payload empty c)
unfolding result_payload
result_payload-Tells empty c = record {
  ok_is = refl;
  status_given = λ x h. rw h refl;
  passes = λ h k. rw (h, k) refl;
  fails = λ h k. rw (h, k) refl;
  good_code = λ h. rw h refl;
  code_given = λ e h. elim (Bool-cases c.ok) [ inl k ↦ rw k h | inr k ↦ rw (k, h) refl ];
  code_missing = λ h k. rw (h, k) refl;
  data_given = λ x h. rw h refl;
  data_missing = λ h. rw h refl;
  rc_is = refl;
  version_is = refl;
  stdout_is = refl;
  stderr_is = refl;
  extra_is = refl;
}

module _ {ℓ} {J : Type ℓ} (dumps : Payload J → Text) (empty : J) where
  exit_iff : (c : Call J) → ((emit dumps empty c).1 ≡ 0) ↔ ((result_payload empty c).ok ≡ true)
  unfolding emit result_payload
  exit_iff c = elim (Bool-cases c.ok) [
    | inl good ↦ rw good (λ _. refl, λ _. refl)
    | inr bad ↦ rw bad (λ h. absurd (cc h), λ h. absurd (cc h))
  ]

  read_back :
      (loads : Text → Option J) (is_dict : J → Bool) (c : Call J) (o : J) (mid : Text)
      → dumps (result_payload empty c) ≡ b'{' ∷ mid ++ b'}' ∷ []
      → loads (dumps (result_payload empty c)) ≡ some o
      → is_dict o ≡ true
      → parse_driver_output loads is_dict (some (emit dumps empty c).0) ≡ some o
  unfolding emit parse_driver_output
  read_back loads is_dict c o mid braces read dict =
      let text : strip (dumps (result_payload empty c) ++ codes "\n") ≡ b'{' ∷ mid ++ b'}' ∷ [] =
        ap (λ x. strip (x ++ codes "\n")) braces ∙ strip-object mid in
      let known : loads (b'{' ∷ mid ++ b'}' ∷ []) ≡ some o = ap loads (sym braces) ∙ read in
      rw (text, known, dict) refl

  -- What a command writes is read back by `parse_driver_output` as an object that tells what the call
  -- of `emit` says: its verdict, its status or PASS or FAIL by the verdict, its error code or, of a
  -- call that fails without one, UNEXPECTED_ERROR, and its other fields, with an empty object for data
  -- that is not there; and the exit code is 0 exactly when the object says ok. The writer of JSON puts
  -- braces around the payload of the call, and the reader reads what is written as a dict with the
  -- fields of the payload.
  pub parse_driver_output-emit :
      (loads : Text → Option J) (is_dict : J → Bool) (payload_of : J → Payload J) (c : Call J)
      (o : J) (mid : Text)
      → dumps (result_payload empty c) ≡ b'{' ∷ mid ++ b'}' ∷ []
      → loads (dumps (result_payload empty c)) ≡ some o
      → is_dict o ≡ true
      → payload_of o ≡ result_payload empty c
      → (parse_driver_output loads is_dict (some (emit dumps empty c).0) ≡ some o)
        × Tells empty c (payload_of o)
        × (((emit dumps empty c).1 ≡ 0) ↔ ((payload_of o).ok ≡ true))
  parse_driver_output-emit loads is_dict payload_of c o mid braces read dict fields = (
    read_back loads is_dict c o mid braces read dict,
    rw fields (result_payload-Tells empty c),
    rw fields (exit_iff c),
  )

-- ===== src/Worker/Completion/Sent.antt =====
-- When a completion is sent, and what it carries.
use workflow_helper_public.Base.{
  ℕ, ◌≡◌, refl, ◌∙◌, sym, ap, ◌↔◌, true, List, [], ◌∷◌, ◌++◌, arith, length, take, drop, all,
  take-append_length, drop-append_length, Result, ok, reject_if, reject_if-false, not-false,
  checked_first, subst, after_ok,
}
use workflow_helper_public.Text.{Text, codes, text_eq, is_uuid_char, starts_with}
use workflow_helper_public.Text.Equality.{text_eq→eq, text_eq_refl}
use workflow_helper_public.Json.{Fields}
use workflow_helper_public.Platform.{Platform}
use workflow_helper_public.Checks.{is_sha256}
use workflow_helper_public.Audit.{then_check-left, then_check-right}
use workflow_helper_public.Worker.Pipeline.{CadEvent, process_events}
use workflow_helper_public.Worker.Segments.{
  ProcessingResultV2, validate_operation_segments, process_events_v2,
}
use workflow_helper_public.Worker.Completion.{
  ProcessingCompletionV2, sessions, is_session_key, session_key, check_output_key, as_result,
  payload_digest, processing_completion_v2, completion_for_v2, check_completion_v2,
}

starts_with-append : (prefix rest : Text) → starts_with (prefix ++ rest) prefix ≡ true
unfolding starts_with
starts_with-append [] rest = refl
starts_with-append (c ∷ prefix) rest = ground (arith, starts_with-append prefix rest)

-- The identifier of a session, as `str` writes a UUID.
abbrev pub IsSessionId : Text → Type 0
IsSessionId id = (length id ≡ 36) × (all is_uuid_char id ≡ true)

session_key-IsKey :
    (id name : Text)
    → IsSessionId id
    → is_session_key (λ rest. text_eq rest name) (session_key id name) ≡ true
unfolding is_session_key session_key
session_key-IsKey id name (size, chars) =
    rw
      (
        starts_with-append sessions (id ++ name),
        after_folder,
        name_first,
        name_rest,
        size,
        chars,
        text_eq_refl name,
      )
      refl
  where
    after_folder : drop (length sessions) (sessions ++ (id ++ name)) ≡ id ++ name
    after_folder = drop-append_length sessions (id ++ name)

    name_first : take 36 (id ++ name) ≡ id
    name_first = subst (λ (n : ℕ). take n (id ++ name) ≡ id) size (take-append_length id name)

    name_rest : drop 36 (id ++ name) ≡ name
    name_rest = subst (λ (n : ℕ). drop n (id ++ name) ≡ name) size (drop-append_length id name)

-- A result that was made is valid, and is of the session that it was made for.
processed :
    (session_id : Text) (events : List CadEvent) (result : ProcessingResultV2)
    → process_events_v2 session_id events ≡ ok result
    → (validate_operation_segments result.base.timeline result.operation_segments ≡ ok tt)
      × (result.base.session_id ≡ session_id)
unfolding process_events_v2 process_events
processed session_id events result h = ground arith

-- The key that a result is published under.
abbrev pub published_key : ProcessingResultV2 → Text
published_key result = session_key result.base.session_id (codes "/timeline-v2.json")

check_output_key-published :
    (name id : Text) → IsSessionId id → check_output_key name id (session_key id name) ≡ ok tt
unfolding check_output_key
check_output_key-published name id named =
    rw (check_output_key, session_key-IsKey id name named, text_eq_refl (session_key id name)) refl

check_output_key-eq :
    (name id key : Text) → check_output_key name id key ≡ ok tt → key ≡ session_key id name
unfolding check_output_key
check_output_key-eq name id key h =
    text_eq→eq key (session_key id name)
      (not-false _ (reject_if-false _ _ (then_check-right (reject_if _ _) _ h)))

module _ (platform : Platform) (dump : ProcessingResultV2 → Fields)
    (load : Fields → Result ProcessingResultV2)
    (digest-IsSha256 : (value : Text) → is_sha256 (platform.sha256 value) ≡ true) where
  payload_digest-IsSha256 :
      (dumped : Fields) (key : Text)
      → is_sha256 (payload_digest platform dump load dumped key) ≡ true
  unfolding payload_digest
  payload_digest-IsSha256 dumped key = digest-IsSha256 _

  sent :
      (result : ProcessingResultV2) (key : Text)
      → load (dump result) ≡ ok result
      → validate_operation_segments result.base.timeline result.operation_segments ≡ ok tt
      → check_output_key (codes "/timeline-v2.json") result.base.session_id key ≡ ok tt
      → completion_for_v2 platform dump load result key
        ≡ ok (record {
          result = result;
          output_object_key = key;
          idempotency_key = payload_digest platform dump load (dump result) key;
        })
  unfolding completion_for_v2 processing_completion_v2 check_completion_v2
  sent result key read valid named =
      rw
        (
          completion_for_v2,
          processing_completion_v2,
          read,
          check_completion_v2,
          payload_digest-IsSha256 (dump result) key,
          valid,
          named,
          text_eq_refl (payload_digest platform dump load (dump result) key),
        )
        refl

  keyed :
      (result : ProcessingResultV2) (key : Text) (completion : ProcessingCompletionV2)
      → load (dump result) ≡ ok result
      → completion_for_v2 platform dump load result key ≡ ok completion
      → key ≡ published_key result
  unfolding completion_for_v2 processing_completion_v2 check_completion_v2
  keyed result key completion read h =
      let (read_result, is_read, checked) = after_ok (load (dump result)) _ h in
      let same : read_result ≡ result = cc in
      let (checks, _) = checked_first _ _ checked in
      let name_checks : Result (Unit {0}) =
        check_output_key (codes "/timeline-v2.json") read_result.base.session_id key in
      check_output_key-eq (codes "/timeline-v2.json") read_result.base.session_id key
        (then_check-right _ name_checks (then_check-left _ _ checks))
      ∙ ap published_key same

  -- A completion can be made for a result of `process_events_v2` under one output key only, the one
  -- that names the result's session. It then passes every validator, also that of the digest, which
  -- is computed once more from the fields that were read; its key is the digest of the result's JSON
  -- with the output key, and `as_result` reads the result back from it and accepts it. This is for a
  -- session that is named as a UUID is, where the digests are 64 lowercase hexadecimal digits, and
  -- where the fields of this result are read back as they were dumped, from JSON and from Python
  -- values.
  pub completion_for_v2_iff :
      {Values : Type 0} (dump_values : ProcessingResultV2 → Values)
      (load_values : Values → Result ProcessingResultV2) (session_id : Text)
      (events : List CadEvent) (result : ProcessingResultV2) (key : Text)
      → IsSessionId session_id
      → process_events_v2 session_id events ≡ ok result
      → load (dump result) ≡ ok result
      → load_values (dump_values result) ≡ ok result
      → ((completion : ProcessingCompletionV2) × (completion_for_v2 platform dump load result key
            ≡ ok completion)
          × (as_result dump_values load_values completion ≡ ok result)
          × (completion.idempotency_key ≡ payload_digest platform dump load (dump result) key))
        ↔ (key ≡ session_key session_id (codes "/timeline-v2.json"))
  unfolding as_result
  completion_for_v2_iff dump_values load_values session_id events result key named made read
        read_values =
      let (valid, own) = processed session_id events result made in
      let file : Text = codes "/timeline-v2.json" in
      (
        λ (completion, is_sent, _, _).
            keyed result key completion read is_sent ∙ ap (λ (id : Text). session_key id file) own,
        λ e. (
          _,
          sent result key read valid (
              subst (λ (k : Text). check_output_key file result.base.session_id k ≡ ok tt)
                (ap (λ (id : Text). session_key id file) own ∙ sym e)
                (check_output_key-published file result.base.session_id
                  (subst IsSessionId (sym own) named))),
          rw (as_result, read_values, valid) refl,
          refl,
        ),
      )

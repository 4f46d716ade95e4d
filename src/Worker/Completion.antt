-- ===== src/Worker/Completion.antt =====
-- What is sent when a session is processed: `ProcessingCompletionV2` and `completion_for_v2` of
-- apps/worker/src/workflow_worker/processing_v2.py, and `ProcessingJob` and `ProcessingCompletion`
-- of models.py as far as their keys go. What pydantic's `model_dump` writes of a result and the fields
-- that it reads back from it are parameters; the validators are the source's.
pub mod Sent
mod Tests
use workflow_helper_public.Base.{
  ℕ, Bool, ◌&&◌, ◌||◌, not, List, [], ◌∷◌, ◌++◌, ◌==◌, length, take, drop, all, value_error, Result,
  ok, err, reject_if,
}
use workflow_helper_public.Text.{Text, codes, text_eq, is_hex, is_uuid_char, starts_with}
use workflow_helper_public.Json.{Fields, field, text, object, canonical_json, ascii_only}
use workflow_helper_public.Platform.{Platform}
use workflow_helper_public.Checks.{is_sha256}
use workflow_helper_public.Audit.{◌then_check◌}
use workflow_helper_public.Worker.Pipeline.{ProcessingResult}
use workflow_helper_public.Worker.Segments.{ProcessingResultV2, validate_operation_segments}

abbrev sessions : Text
sessions = codes "sessions/"

-- `^sessions/[0-9a-f-]{36}` with what follows it.
unfoldable pub is_session_key : (Text → Bool) → Text → Bool
unfolding starts_with is_uuid_char
is_session_key is_rest key =
    let name = drop (length sessions) key in
    starts_with key sessions
    && length (take 36 name) == 36
    && all is_uuid_char (take 36 name)
    && is_rest (drop 36 name)

unfoldable pub session_key : Text → Text → Text
session_key session_id rest = sessions ++ session_id ++ rest

-- The pattern and the validator of an output key; `name` is the file's.
unfoldable pub check_output_key : Text → Text → Text → Result (Unit {0})
unfolding is_session_key session_key text_eq
check_output_key name session_id output_object_key =
    reject_if (not (is_session_key (λ rest. text_eq rest name) output_object_key))
      (value_error "output_object_key")
    then_check reject_if (not (text_eq output_object_key (session_key session_id name)))
        (value_error "output_object_key does not match session_id")

-- `ProcessingJob`
pub record ProcessingJob : Type 0 where
  pub schema_version : Text
  pub session_id : Text
  pub object_key : Text

-- `[a-f0-9]{64}\.zip$` after the folder's name
unfoldable pub is_package_rest : Text → Bool
unfolding starts_with is_sha256
is_package_rest rest =
    let name = drop 10 rest in
    starts_with rest (codes "/packages/")
    && is_sha256 (take 64 name)
    && text_eq (drop 64 name) (codes ".zip")

unfoldable pub processing_job : ProcessingJob → Result ProcessingJob
unfolding is_session_key is_package_rest starts_with session_key text_eq
processing_job job =
    elim (reject_if (not (text_eq job.schema_version (codes "1.0"))) (value_error "schema_version")
      then_check reject_if (not (is_session_key is_package_rest job.object_key))
          (value_error "object_key")
      then_check reject_if
          (not (starts_with job.object_key (session_key job.session_id (codes "/packages/"))))
          (value_error "object_key does not match session_id")) [ err e ↦ err e | ok _ ↦ ok job ]

-- `ProcessingCompletion`
pub record ProcessingCompletion : Type 0 where
  pub base : ProcessingResult
  pub output_object_key : Text
  pub idempotency_key : Text

unfoldable pub processing_completion : ProcessingCompletion → Result ProcessingCompletion
unfolding is_sha256 check_output_key
processing_completion completion =
    elim (reject_if (not (is_sha256 completion.idempotency_key)) (value_error "idempotency_key")
      then_check check_output_key (codes "/timeline.json") completion.base.session_id
          completion.output_object_key) [ err e ↦ err e | ok _ ↦ ok completion ]

pub record ProcessingCompletionV2 : Type 0 where
  pub result : ProcessingResultV2
  pub output_object_key : Text
  pub idempotency_key : Text

-- `as_result`: the fields are read back from the dumped values, and the result's validator runs.
module _ {Values : Type 0} (dump : ProcessingResultV2 → Values)
    (load : Values → Result ProcessingResultV2) where
  unfoldable pub as_result : ProcessingCompletionV2 → Result ProcessingResultV2
  unfolding validate_operation_segments
  as_result completion = elim (load (dump completion.result)) [
    | err e ↦ err e
    | ok result ↦
        elim (validate_operation_segments result.base.timeline result.operation_segments) [
          | err e ↦ err e
          | ok _ ↦ ok result
        ]
  ]

module _ (platform : Platform) (dump : ProcessingResultV2 → Fields)
    (load : Fields → Result ProcessingResultV2) where
  -- `sha256(canonical_completion_bytes(...))` of a result's JSON and its output key
  unfoldable pub payload_digest : Fields → Text → Text
  unfolding canonical_json ascii_only
  payload_digest dumped output_object_key = platform.sha256 (
      ascii_only (
        canonical_json
          (object (field (codes "output_object_key") (text output_object_key) dumped))))

  -- The validators of `ProcessingCompletionV2`, the inherited one first; the digest is that of the
  -- fields as they are dumped again.
  unfoldable pub check_completion_v2 : ProcessingResultV2 → Text → Text → Result (Unit {0})
  unfolding is_sha256 check_output_key validate_operation_segments payload_digest text_eq
  check_completion_v2 result output_object_key idempotency_key =
      reject_if (not (is_sha256 idempotency_key)) (value_error "idempotency_key")
      then_check validate_operation_segments result.base.timeline result.operation_segments
      then_check check_output_key (codes "/timeline-v2.json") result.base.session_id
          output_object_key
      then_check reject_if
          (not (text_eq idempotency_key (payload_digest (dump result) output_object_key)))
          (value_error "idempotency_key is not the canonical payload digest")

  -- `ProcessingCompletionV2(...)` of a result's JSON, an output key and an idempotency key.
  unfoldable pub processing_completion_v2 : Fields → Text → Text → Result ProcessingCompletionV2
  unfolding check_completion_v2
  processing_completion_v2 payload output_object_key idempotency_key = elim (load payload) [
    | err e ↦ err e
    | ok result ↦ elim (check_completion_v2 result output_object_key idempotency_key) [
      | err e ↦ err e
      | ok _ ↦ ok (record {
        result = result;
        output_object_key = output_object_key;
        idempotency_key = idempotency_key;
      })
    ]
  ]

  unfoldable pub completion_for_v2 : ProcessingResultV2 → Text → Result ProcessingCompletionV2
  unfolding processing_completion_v2
  completion_for_v2 result output_object_key =
      processing_completion_v2 (dump result) output_object_key
        (payload_digest (dump result) output_object_key)

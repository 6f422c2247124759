-- ===== src/Model/Stream.antt =====
-- `ChatStreamCollector` of crates/group-agent-model/src/stream.rs. `from_str` is
-- `serde_json::from_str`, and a `usize` has 64 bits. Each step returns its result and the collector
-- after it.
pub mod Event
pub mod Collector
pub mod Counts
pub mod Limits
pub mod Settled
pub mod Tests
use Prim.Native.String.{len, ◌++◌}
use group.Prelude.{
  ℕ, String, Bool, true, false, Option, none, some, List, [], ◌∷◌, Result, ok, err, Map, get,
  is_some, or_else, leb, ltb, Eq, ◌==◌, nat_eq, string_eq, not, ◌&&◌, length, ◌>>=◌, if◌then◌else◌,
}
use group.Model.Extensions.{Extensions, commit_idempotent_merge, validate_idempotent_merge}
use group.Model.Usage.{TokenUsage, checked_add, merge_snapshot}
use group.Model.Stream.Event.{
  FinishReason, ToolCallDelta, ChatStreamEvent, response_started_event, text_delta, tool_call_delta,
  usage_event, finished_event, StreamProtocolError, duplicate_response_started,
  collector_already_failed, missing_finished, event_after_finished, tool_call_index_too_large,
  extension_limit_exceeded, tool_arguments_limit_exceeded, duplicate_tool_call_field,
  conflicting_tool_call_extension, text_limit_exceeded, missing_tool_call_id,
  missing_tool_call_name, invalid_usage, invalid_tool_arguments, ModelError, protocol_error,
  decode_error, ToolCall, event_name,
}
use group.Model.Stream.Collector.{
  PendingToolCall, active, finished, failed, ChatStreamCollector, ChatResponse, insert_call, fits,
  pending_at,
}

module _ {V : Type 0} where
  abbrev pub response_of : ChatStreamCollector V → FinishReason → List (ToolCall V) → ChatResponse V
  response_of c reason calls = record {
    text_content = if c.text == "" then none else some c.text;
    calls = calls;
    finish_reason = reason;
    usage = c.usage;
    response_id = c.response_id;
    model = c.model;
    extensions = c.extensions;
  }

  unfoldable pub commit_delta : ToolCallDelta V → ChatStreamCollector V → ChatStreamCollector V
  unfolding insert_call commit_idempotent_merge
  commit_delta delta c =
      let pending = pending_at delta.index c in
      let after : PendingToolCall V = record {
        id = or_else delta.id pending.id;
        name = or_else delta.name pending.name;
        arguments = pending.arguments ++ delta.arguments_fragment;
        extensions = commit_idempotent_merge delta.extensions pending.extensions;
      } in
      record c { tool_calls = insert_call delta.index after c.tool_calls }

module _ {V : Type 0} ⦃e : Eq V⦄ where
  unfoldable pub check_extensions :
      ToolCallDelta V → ChatStreamCollector V → Result (Unit {0}) StreamProtocolError
  unfolding validate_idempotent_merge
  check_extensions delta c =
      let existing = (pending_at delta.index c).extensions in
      elim (validate_idempotent_merge delta.extensions existing) [
        | err conflict ↦ err (conflicting_tool_call_extension delta.index conflict)
        | ok new_keys ↦
            if fits c.max_tool_call_extensions (length existing.entries) new_keys
            then ok tt
            else err (extension_limit_exceeded delta.index c.max_tool_call_extensions)
      ]

  -- The tests of a fragment, in their order.
  unfoldable pub check_delta :
      ToolCallDelta V → ChatStreamCollector V → Result (Unit {0}) StreamProtocolError
  unfolding check_extensions
  check_delta delta c =
      let existing = pending_at delta.index c in
      if ltb c.max_tool_call_index delta.index
      then err (tool_call_index_too_large delta.index c.max_tool_call_index)
      else if is_some delta.id && is_some existing.id
      then err (duplicate_tool_call_field delta.index "id")
      else if is_some delta.name && is_some existing.name
      then err (duplicate_tool_call_field delta.index "name")
      else if not
          (fits c.max_tool_argument_bytes (len existing.arguments) (len delta.arguments_fragment))
      then err (tool_arguments_limit_exceeded delta.index c.max_tool_argument_bytes)
      else check_extensions delta c

  unfoldable pub push_tool_delta :
      ToolCallDelta V → ChatStreamCollector V → Result (Unit {0}) ModelError × ChatStreamCollector V
  unfolding check_delta commit_delta
  push_tool_delta delta c = elim (check_delta delta c) [
    | err reason ↦ (err (protocol_error reason), c)
    | ok done ↦ (ok tt, commit_delta delta c)
  ]

  -- A snapshot is merged into the usage in place.
  unfoldable pub push_usage :
      TokenUsage V → ChatStreamCollector V → Result (Unit {0}) ModelError × ChatStreamCollector V
  unfolding merge_snapshot
  push_usage snapshot c = elim c.usage [
    | none ↦ (ok tt, record c { usage = some snapshot })
    | some existing ↦
        let (result, merged) = merge_snapshot snapshot existing in
        let after = record c { usage = some merged } in
        elim result [
          | ok done ↦ (ok tt, after)
          | err reason ↦ (err (protocol_error (invalid_usage reason)), after)
        ]
  ]

module _ {V : Type 0} (from_str : String → Result V String) where
  -- The test of one call: what is missing, or the call.
  unfoldable pub complete_call : ℕ → PendingToolCall V → Result (ToolCall V) ModelError
  complete_call index pending = elim pending.id [
    | none ↦ err (protocol_error (missing_tool_call_id index))
    | some id ↦ elim pending.name [
      | none ↦ err (protocol_error (missing_tool_call_name index))
      | some name ↦ elim (from_str pending.arguments) [
        | err reason ↦ err (decode_error (invalid_tool_arguments index reason))
        | ok arguments ↦ ok (record {
          id = id;
          name = name;
          arguments = arguments;
          extensions = pending.extensions;
        })
      ]
    ]
  ]

  unfoldable pub validate_calls : Map ℕ (PendingToolCall V) → Result (Unit {0}) ModelError
  validate_calls [] = ok tt
  validate_calls ((index, pending) ∷ rest) =
      let later = validate_calls rest in
      if not (is_some pending.id)
      then err (protocol_error (missing_tool_call_id index))
      else if not (is_some pending.name)
      then err (protocol_error (missing_tool_call_name index))
      else elim (from_str pending.arguments) [
        | err reason ↦ err (decode_error (invalid_tool_arguments index reason))
        | ok arguments ↦ later
      ]

  unfoldable pub collect_calls : Map ℕ (PendingToolCall V) → Result (List (ToolCall V)) ModelError
  unfolding complete_call
  collect_calls [] = ok []
  collect_calls ((index, pending) ∷ rest) =
      complete_call index pending >>= λ call. collect_calls rest >>= λ calls. ok (call ∷ calls)

  unfoldable pub finish : ChatStreamCollector V → Result (ChatResponse V) ModelError
  unfolding collect_calls
  finish c = elim c.state [
    | failed ↦ err (protocol_error collector_already_failed)
    | active ↦ err (protocol_error missing_finished)
    | finished ↦ elim c.finish_reason [
      | none ↦ err (protocol_error missing_finished)
      | some reason ↦ collect_calls c.tool_calls >>= λ calls. ok (response_of c reason calls)
    ]
  ]

module _ {V : Type 0} ⦃e : Eq V⦄ (from_str : String → Result V String) where
  unfoldable pub push_active :
      ChatStreamEvent V
      → ChatStreamCollector V
      → Result (Unit {0}) ModelError × ChatStreamCollector V
  unfolding push_tool_delta push_usage validate_calls
  push_active (response_started_event response_id model extensions) c =
      if c.response_started then (err (protocol_error duplicate_response_started), c) else (
        ok tt,
        record c {
          response_started = true;
          response_id = response_id;
          model = model;
          extensions = extensions;
        },
      )
  push_active (text_delta delta) c =
      if fits c.max_text_bytes (len c.text) (len delta)
      then (ok tt, record c { text = c.text ++ delta })
      else (err (protocol_error (text_limit_exceeded c.max_text_bytes)), c)
  push_active (tool_call_delta delta) c = push_tool_delta delta c
  push_active (usage_event snapshot) c = push_usage snapshot c
  push_active (finished_event reason) c = elim (validate_calls from_str c.tool_calls) [
    | err missing ↦ (err missing, c)
    | ok done ↦ (ok tt, record c { finish_reason = some reason; state = finished })
  ]

  -- The collector is failed when an active push has failed.
  abbrev pub poison :
      Result (Unit {0}) ModelError × ChatStreamCollector V
      → Result (Unit {0}) ModelError × ChatStreamCollector V
  poison (ok done, c) = (ok done, c)
  poison (err reason, c) = (err reason, record c { state = failed })

  unfoldable pub push :
      ChatStreamEvent V
      → ChatStreamCollector V
      → Result (Unit {0}) ModelError × ChatStreamCollector V
  unfolding push_active
  push event c = elim c.state [
    | failed ↦ (err (protocol_error collector_already_failed), c)
    | finished ↦ (err (protocol_error (event_after_finished (event_name event))), c)
    | active ↦ poison (push_active event c)
  ]

  -- A sequence of events, whatever each push returns.
  unfoldable pub push_each :
      List (ChatStreamEvent V) → ChatStreamCollector V → ChatStreamCollector V
  unfolding push
  push_each [] c = c
  push_each (event ∷ events) c = push_each events (push event c).1

-- ===== src/Model/Stream/Event.antt =====
-- The events and errors of crates/group-agent-model/src/stream.rs, with `FinishReason` of
-- response.rs and `ToolCall` of tool.rs. An identifier is its text, and so is an error of
-- `serde_json`; `V` is the JSON value of `serde_json`.
use group.Prelude.{ℕ, String, Option}
use group.Model.Extensions.{Extensions, ExtensionMergeError}
use group.Model.Usage.{TokenUsage, TokenUsageError}

-- `Stop`, `Length`, `ToolCalls`, `ContentFilter`, `Error` and `Other` of the source.
pub data FinishReason : Type 0 where
  stop length_limit tool_calls_requested content_filter provider_error : FinishReason
  other : String → FinishReason

pub record ToolCallDelta (V : Type 0) : Type 0 where
  pub index : ℕ
  pub id : Option String
  pub name : Option String
  pub arguments_fragment : String
  pub extensions : Extensions V

pub data ChatStreamEvent (V : Type 0) : Type 0 where
  response_started_event : Option String → Option String → Extensions V → ChatStreamEvent V
  text_delta : String → ChatStreamEvent V
  tool_call_delta : ToolCallDelta V → ChatStreamEvent V
  usage_event : TokenUsage V → ChatStreamEvent V
  finished_event : FinishReason → ChatStreamEvent V

pub data StreamProtocolError : Type 0 where
  duplicate_response_started collector_already_failed missing_finished : StreamProtocolError
  event_after_finished : String → StreamProtocolError
  tool_call_index_too_large extension_limit_exceeded tool_arguments_limit_exceeded :
      ℕ → ℕ → StreamProtocolError
  duplicate_tool_call_field : ℕ → String → StreamProtocolError
  conflicting_tool_call_extension : ℕ → ExtensionMergeError → StreamProtocolError
  text_limit_exceeded missing_tool_call_id missing_tool_call_name : ℕ → StreamProtocolError
  invalid_usage : TokenUsageError → StreamProtocolError
  invalid_tool_arguments : ℕ → String → StreamProtocolError

-- The errors of `ModelErrorKind::Protocol` and `ModelErrorKind::Decode` that this file makes.
pub data ModelError : Type 0 where
  protocol_error decode_error : StreamProtocolError → ModelError

pub record ToolCall (V : Type 0) : Type 0 where
  pub id : String
  pub name : String
  pub arguments : V
  pub extensions : Extensions V

abbrev pub event_name : {V : Type 0} → ChatStreamEvent V → String
event_name (response_started_event response_id model extensions) = "response_started"
event_name (text_delta delta) = "text_delta"
event_name (tool_call_delta delta) = "tool_call_delta"
event_name (usage_event usage) = "usage"
event_name (finished_event reason) = "finished"

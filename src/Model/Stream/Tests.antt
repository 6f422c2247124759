-- ===== src/Model/Stream/Tests.antt =====
-- A collector of crates/group-agent-model/src/stream.rs at small streams. A JSON value is a number,
-- and the parser knows one text.
use group.Prelude.{
  arith, if◌then◌else◌, get, ◌==◌, nat_eq, string_eq, bool_eq, option_eq, list_eq, Result, ok, err,
  ℕ, String, ◌≡◌, refl, ◌↔◌, some, List, [], ◌∷◌,
}
use group.Model.Stream.Event.{
  ToolCallDelta, ChatStreamEvent, text_delta, tool_call_delta, finished_event, stop,
  text_limit_exceeded, protocol_error,
}
use group.Model.Extensions.{
  validate_idempotent_merge, validate_entries, commit_idempotent_merge, commit_entries,
}
use group.Model.Stream.Collector.{
  insert_call, finished, ChatStreamCollector, ChatResponse, new, with_max_text_bytes,
}
use group.Model.Stream.{
  push_tool_delta, check_delta, check_extensions, commit_delta, push, push_active, push_each,
  finish, validate_calls, validate_idempotent_merge,
}
use group.Model.Stream.Limits.{IsWithin, limits_of, push_each-IsWithin}
use group.Model.Stream.Settled.{refused, push_rejected, limited, finish_iff}

abbrev parse : String → Result ℕ String
parse text = if text == "{}" then ok 0 else err "expected value"

abbrev call : ToolCallDelta ℕ
call = record {
  index = 0;
  id = some "a";
  name = some "lookup";
  arguments_fragment = "{}";
  extensions = record { entries = [] };
}

abbrev events : List (ChatStreamEvent ℕ)
events = text_delta "hi" ∷ tool_call_delta call ∷ finished_event stop ∷ []

abbrev small : ChatStreamCollector ℕ
small = with_max_text_bytes 3 (record new { text = "abc" })

text_refused : (push parse (text_delta "d") small).0 ≡ err (protocol_error (text_limit_exceeded 3))
unfolding push push_active
text_refused = refl

events_finished : (push_each parse events (limited 4 4 16 16)).state ≡ finished
unfolding push_each push push_active push_tool_delta check_delta check_extensions commit_delta
    insert_call validate_calls get validate_idempotent_merge validate_entries
    commit_idempotent_merge commit_entries
events_finished = refl

push_rejected_example :
    (push parse (text_delta "d") small).1 ≡ record small { state = refused small.state }
push_rejected_example =
    push_rejected parse (text_delta "d") small (protocol_error (text_limit_exceeded 3)) text_refused

finish_iff_example :
    ((response : ChatResponse ℕ) × (finish parse (push_each parse events (limited 4 4 16 16))
        ≡ ok response))
    ↔ ((push_each parse events (limited 4 4 16 16)).state ≡ finished)
finish_iff_example = finish_iff parse 4 4 16 16 events

push_each-IsWithin_example :
    (limits_of (push_each parse events small) ≡ limits_of small)
    × IsWithin (push_each parse events small)
push_each-IsWithin_example = push_each-IsWithin parse events small (omega arith, tt)

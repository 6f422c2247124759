-- ===== src/Model/Stream/Collector.antt =====
-- The state of `ChatStreamCollector` of crates/group-agent-model/src/stream.rs, with its limits, and
-- `ChatResponse` of response.rs.
use group.Prelude.{
  ◌≡◌, refl, ◌⊎◌, inl, inr, ℕ, String, Bool, false, Option, none, some, List, [], ◌∷◌, Map, get,
  leb, ltb, ◌==◌, nat_eq, string_eq, length, if◌then◌else◌,
}
use group.Model.Extensions.{Extensions}
use group.Model.Usage.{TokenUsage, checked_add}
use group.Model.Stream.Event.{FinishReason, ToolCall}

pub record PendingToolCall (V : Type 0) : Type 0 where
  pub id : Option String
  pub name : Option String
  pub arguments : String
  pub extensions : Extensions V

pub data CollectorState : Type 0 where
  active finished failed : CollectorState

pub CollectorState-cases :
    (state : CollectorState) → (state ≡ active) ⊎ (state ≡ finished) ⊎ (state ≡ failed)
CollectorState-cases active = inl refl
CollectorState-cases finished = inr (inl refl)
CollectorState-cases failed = inr (inr refl)

pub record ChatStreamCollector (V : Type 0) : Type 0 where
  pub state : CollectorState
  pub response_id : Option String
  pub model : Option String
  pub extensions : Extensions V
  pub response_started : Bool
  pub text : String
  pub tool_calls : Map ℕ (PendingToolCall V)
  pub usage : Option (TokenUsage V)
  pub finish_reason : Option FinishReason
  pub max_tool_call_index : ℕ
  pub max_tool_call_extensions : ℕ
  pub max_text_bytes : ℕ
  pub max_tool_argument_bytes : ℕ

-- The message of a response is its text, when there is any, and its calls.
pub record ChatResponse (V : Type 0) : Type 0 where
  pub text_content : Option String
  pub calls : List (ToolCall V)
  pub finish_reason : FinishReason
  pub usage : Option (TokenUsage V)
  pub response_id : Option String
  pub model : Option String
  pub extensions : Extensions V

-- `BTreeMap::insert` at a number.
unfoldable pub insert_call : {A : Type 0} → ℕ → A → Map ℕ A → Map ℕ A
insert_call k v [] = (k, v) ∷ []
insert_call k v ((j, w) ∷ m) =
    let rest = insert_call k v m in
    if j == k then (j, v) ∷ m else if ltb k j then (k, v) ∷ (j, w) ∷ m else (j, w) ∷ rest

-- `checked_add(..).filter(|length| *length <= maximum).is_some()`.
abbrev pub fits : ℕ → ℕ → ℕ → Bool
fits maximum before added = elim (checked_add before added) [
  | some length ↦ leb length maximum
  | none ↦ false
]

module _ {V : Type 0} where
  abbrev pub no_call : PendingToolCall V
  no_call = record { id = none; name = none; arguments = ""; extensions = record { entries = [] } }

  abbrev pub new : ChatStreamCollector V
  new = record {
    state = active;
    response_id = none;
    model = none;
    extensions = record { entries = [] };
    response_started = false;
    text = "";
    tool_calls = [];
    usage = none;
    finish_reason = none;
    max_tool_call_index = 1024;
    max_tool_call_extensions = 256;
    max_text_bytes = 16777216;
    max_tool_argument_bytes = 16777216;
  }

  abbrev pub with_max_tool_call_index : ℕ → ChatStreamCollector V → ChatStreamCollector V
  with_max_tool_call_index maximum c = record c { max_tool_call_index = maximum }

  abbrev pub with_max_tool_call_extensions : ℕ → ChatStreamCollector V → ChatStreamCollector V
  with_max_tool_call_extensions maximum c = record c { max_tool_call_extensions = maximum }

  abbrev pub with_max_text_bytes : ℕ → ChatStreamCollector V → ChatStreamCollector V
  with_max_text_bytes maximum c = record c { max_text_bytes = maximum }

  abbrev pub with_max_tool_argument_bytes : ℕ → ChatStreamCollector V → ChatStreamCollector V
  with_max_tool_argument_bytes maximum c = record c { max_tool_argument_bytes = maximum }

  -- The call at an index, or an empty one.
  abbrev pub pending_at : ℕ → ChatStreamCollector V → PendingToolCall V
  pending_at index c = elim (get index c.tool_calls) [ some pending ↦ pending | none ↦ no_call ]

-- ===== src/Model/Stream/Settled.antt =====
-- The failures and the end of a collector of crates/group-agent-model/src/stream.rs: what a refused
-- event leaves, and when a response is returned.
use group.Prelude.{
  Result-cases, Map, ℕ, String, Result, ok, err, Eq, ◌≡◌, refl, arith, Option-cases, inl, inr, some,
  List, [], ◌∷◌, ap, ◌∙◌, sym, true, is_some, ◌↔◌,
}
use group.Model.Usage.{TokenUsage}
use group.Model.Usage.Snapshot.{merge_snapshot_atomic}
use group.Model.Stream.Event.{
  ChatStreamEvent, ToolCallDelta, response_started_event, text_delta, tool_call_delta, usage_event,
  finished_event, ModelError, ToolCall,
}
use group.Model.Stream.Collector.{
  CollectorState-cases, CollectorState, active, finished, failed, ChatStreamCollector, ChatResponse,
  PendingToolCall, new, with_max_tool_call_index, with_max_tool_call_extensions,
  with_max_text_bytes, with_max_tool_argument_bytes,
}
use group.Model.Stream.{
  response_of, push_tool_delta, push_usage, commit_delta, complete_call, validate_calls,
  collect_calls, finish, push_active, push, push_each,
}

-- The state after a refused event.
abbrev pub refused : CollectorState → CollectorState
refused active = failed
refused finished = finished
refused failed = failed

-- A new collector with any limits.
abbrev pub limited : {V : Type 0} → ℕ → ℕ → ℕ → ℕ → ChatStreamCollector V
limited index extensions text arguments = with_max_tool_argument_bytes arguments (
    with_max_text_bytes text
      (with_max_tool_call_extensions extensions (with_max_tool_call_index index new)))

module _ {V : Type 0} ⦃e : Eq V⦄ where
  push_tool_delta-state :
      (delta : ToolCallDelta V) (c : ChatStreamCollector V)
      → (push_tool_delta delta c).1.state ≡ c.state
  unfolding push_tool_delta commit_delta
  push_tool_delta-state delta c = ground arith

  push_usage-state :
      (snapshot : TokenUsage V) (c : ChatStreamCollector V)
      → (push_usage snapshot c).1.state ≡ c.state
  unfolding push_usage
  push_usage-state snapshot c = ground arith

  push_tool_delta-kept :
      (delta : ToolCallDelta V) (c : ChatStreamCollector V) (reason : ModelError)
      → (push_tool_delta delta c).0 ≡ err reason
      → (push_tool_delta delta c).1 ≡ c
  unfolding push_tool_delta
  push_tool_delta-kept delta c reason h = ground arith

  push_usage-kept :
      (snapshot : TokenUsage V) (c : ChatStreamCollector V) (reason : ModelError)
      → (push_usage snapshot c).0 ≡ err reason
      → (push_usage snapshot c).1 ≡ c
  unfolding push_usage
  push_usage-kept snapshot c reason h = elim (Option-cases c.usage) [
    | inl f ↦ ground arith
    | inr (existing, f) ↦ elim (merge_snapshot_atomic snapshot existing) [
      | inl (why, g) ↦
          let same : (push_usage snapshot c).1 ≡ record c { usage = some existing } =
            ground (arith, f, g) in
          same ∙ ap (λ u. record c { usage = u }) (sym f)
      | inr (g, m) ↦ ground arith
    ]
  ]

module _ {V : Type 0} ⦃e : Eq V⦄ (from_str : String → Result V String) where
  push_active-kept :
      (event : ChatStreamEvent V) (c : ChatStreamCollector V) (reason : ModelError)
      → (push_active from_str event c).0 ≡ err reason
      → (push_active from_str event c).1 ≡ c
  unfolding push_active
  push_active-kept (response_started_event response_id model extensions) c reason h = ground arith
  push_active-kept (text_delta delta) c reason h = ground arith
  push_active-kept (tool_call_delta delta) c reason h = push_tool_delta-kept delta c reason h
  push_active-kept (usage_event snapshot) c reason h = push_usage-kept snapshot c reason h
  push_active-kept (finished_event why) c reason h = ground arith

  -- A pushed event that is refused changes nothing of the collector but its state: an active
  -- collector has failed, and a finished or a failed one stays as it is.
  pub push_rejected :
      (event : ChatStreamEvent V) (c : ChatStreamCollector V) (reason : ModelError)
      → (push from_str event c).0 ≡ err reason
      → (push from_str event c).1 ≡ record c { state = refused c.state }
  unfolding push
  push_rejected event c reason h = elim (Result-cases (push_active from_str event c).0) [
    | inl (done, f) ↦ ground arith
    | inr (why, f) ↦ let kept = push_active-kept event c why f in ground (arith, kept)
  ]

  -- Calls that were validated are collected.
  collect_calls-validated :
      (calls : Map ℕ (PendingToolCall V))
      → validate_calls from_str calls ≡ ok tt
      → (found : List (ToolCall V)) × (collect_calls from_str calls ≡ ok found)
  unfolding validate_calls collect_calls complete_call
  collect_calls-validated [] h = ([], refl)
  collect_calls-validated ((index, pending) ∷ rest) h =
      elim (Result-cases (validate_calls from_str rest)) [
        | inr (why, f) ↦ ground arith
        | inl (done, f) ↦
            let (found, g) = collect_calls-validated rest f in
            elim (Result-cases (complete_call from_str index pending)) [
              | inl (call, k) ↦ (call ∷ found, rw (k, g) refl)
              | inr (why, k) ↦ ground arith
            ]
      ]

  -- A finished collector has complete calls and a reason.
  abbrev IsSettled : ChatStreamCollector V → Type 0
  IsSettled c =
      c.state ≡ finished
      → (validate_calls from_str c.tool_calls ≡ ok tt) × (is_some c.finish_reason ≡ true)

  push_active-IsSettled :
      (event : ChatStreamEvent V) (c : ChatStreamCollector V)
      → c.state ≡ active
      → IsSettled (push_active from_str event c).1
  unfolding push_active
  push_active-IsSettled (response_started_event response_id model extensions) c a h = ground arith
  push_active-IsSettled (text_delta delta) c a h = ground arith
  push_active-IsSettled (tool_call_delta delta) c a h =
      ground (arith, push_tool_delta-state delta c)
  push_active-IsSettled (usage_event snapshot) c a h = ground (arith, push_usage-state snapshot c)
  push_active-IsSettled (finished_event why) c a h = ground arith

  push-IsSettled :
      (event : ChatStreamEvent V) (c : ChatStreamCollector V)
      → IsSettled c
      → IsSettled (push from_str event c).1
  unfolding push
  push-IsSettled event c h = elim (CollectorState-cases c.state) [
    | inl a ↦ elim (Result-cases (push_active from_str event c).0) [
      | inl (done, f) ↦ let settled = push_active-IsSettled event c a in ground (arith, settled)
      | inr (why, f) ↦ ground arith
    ]
    | inr (inl f) ↦ λ s. rw (f, push) (h f)
    | inr (inr f) ↦ λ s. ground arith
  ]

  finish-returned :
      (c : ChatStreamCollector V) (response : ChatResponse V)
      → finish from_str c ≡ ok response
      → c.state ≡ finished
  unfolding finish
  finish-returned c response h = ground arith

  finish-IsSettled :
      (c : ChatStreamCollector V)
      → IsSettled c
      → c.state ≡ finished
      → (response : ChatResponse V) × (finish from_str c ≡ ok response)
  unfolding finish
  finish-IsSettled c h f =
      let (calls, g) = collect_calls-validated c.tool_calls ((h f).0) in
      elim (Option-cases c.finish_reason) [
        | inl k ↦ let r = (h f).1 in ground (arith, k, r)
        | inr (reason, k) ↦ (response_of c reason calls, rw (f, k, g, finish) refl)
      ]

  push_each-IsSettled :
      (events : List (ChatStreamEvent V)) (c : ChatStreamCollector V)
      → IsSettled c
      → IsSettled (push_each from_str events c)
  unfolding push_each
  push_each-IsSettled [] c h = h
  push_each-IsSettled (event ∷ events) c h =
      push_each-IsSettled events (push from_str event c).1 (push-IsSettled event c h)

  -- After any sequence of events, a new collector returns a response exactly when its state is
  -- finished: an accepted end of the stream is never followed by a missing identifier, a missing
  -- name or arguments that are no JSON.
  pub finish_iff :
      (index extensions text arguments : ℕ) (events : List (ChatStreamEvent V))
      → ((response : ChatResponse V) × (finish from_str
              (push_each from_str events (limited index extensions text arguments))
            ≡ ok response))
        ↔ ((push_each from_str events (limited index extensions text arguments)).state ≡ finished)
  finish_iff index extensions text arguments events = (
    λ (response, h). finish-returned _ response h,
    λ f. finish-IsSettled _ (push_each-IsSettled events _ (λ s. ground arith)) f,
  )

-- ===== src/Model/Stream/Limits.antt =====
-- The limits of a collector of crates/group-agent-model/src/stream.rs.
use Prim.Native.String.{len, ◌++◌}
use text.Mathlib.TextPositions.{len-append}
use group.Prelude.{
  ℕ, ◌≤◌, String, Result, ok, err, Eq, ◌≡◌, refl, sym, ◌∙◌, subst, Option, ap, arith, Bool-cases,
  Option-cases, Result-cases, inl, inr, some, List, [], ◌∷◌, true, get, All, length, nat_eq,
  string_eq,
}
use group.Model.Extensions.{validate_idempotent_merge, commit_idempotent_merge}
use group.Model.Usage.{TokenUsage, merge_snapshot}
use group.Model.Stream.Event.{
  ModelError, ToolCallDelta, ChatStreamEvent, response_started_event, text_delta, tool_call_delta,
  usage_event, finished_event,
}
use group.Model.Stream.Collector.{
  CollectorState-cases, ChatStreamCollector, PendingToolCall, pending_at, fits,
}
use group.Model.Stream.{
  check_extensions, check_delta, commit_delta, push_tool_delta, push_usage, validate_calls,
  push_active, poison, push, push_each,
}
use group.Model.Stream.Counts.{length-commit_entries, All-insert_call, All-get, fits-le}

module _ {V : Type 0} ⦃e : Eq V⦄ where
  -- The limits of one call, at its index.
  abbrev IsCallWithin : ChatStreamCollector V → ℕ × PendingToolCall V → Type 0
  IsCallWithin c (index, pending) =
      (index ≤ c.max_tool_call_index)
      × (len pending.arguments ≤ c.max_tool_argument_bytes)
      × (length pending.extensions.entries ≤ c.max_tool_call_extensions)

  -- The collected text and every collected call are within the limits.
  abbrev pub IsWithin : ChatStreamCollector V → Type 0
  IsWithin c = (len c.text ≤ c.max_text_bytes) × All (IsCallWithin c) c.tool_calls

  abbrev pub limits_of : ChatStreamCollector V → ℕ × ℕ × ℕ × ℕ
  limits_of c = (
    c.max_tool_call_index, c.max_tool_call_extensions, c.max_text_bytes, c.max_tool_argument_bytes,
  )

  check_delta-parts :
      (delta : ToolCallDelta V) (c : ChatStreamCollector V)
      → check_delta delta c ≡ ok tt
      → (delta.index ≤ c.max_tool_call_index)
        × (fits c.max_tool_argument_bytes
              (len (pending_at delta.index c).arguments)
              (len delta.arguments_fragment)
            ≡ true)
        × (check_extensions delta c ≡ ok tt)
  unfolding check_delta
  check_delta-parts delta c h = (ground arith, ground arith, ground arith)

  check_extensions-le :
      (delta : ToolCallDelta V) (c : ChatStreamCollector V)
      → check_extensions delta c ≡ ok tt
      → length
          (commit_idempotent_merge delta.extensions (pending_at delta.index c).extensions).entries
        ≤ c.max_tool_call_extensions
  unfolding check_extensions commit_idempotent_merge validate_idempotent_merge
  check_extensions-le delta c h =
      let old = (pending_at delta.index c).extensions in
      elim (Result-cases (validate_idempotent_merge delta.extensions old)) [
        | inr (reason, f) ↦ ground (arith, f)
        | inl (count, f) ↦
            let grown =
              length-commit_entries delta.extensions.entries old old count (λ key q. q) f in
            let room : fits c.max_tool_call_extensions (length old.entries) count ≡ true =
              ground (arith, f) in
            let whole = fits-le c.max_tool_call_extensions (length old.entries) count room in
            omega (arith, grown, whole)
      ]

  pending_at-IsCallWithin :
      (index : ℕ) (c : ChatStreamCollector V)
      → index ≤ c.max_tool_call_index
      → IsWithin c
      → IsCallWithin c (index, pending_at index c)
  pending_at-IsCallWithin index c k h = elim (Option-cases (get index c.tool_calls)) [
    | inl f ↦ rw (f, pending_at) (k, omega arith, omega arith)
    | inr (pending, f) ↦
        rw (f, pending_at) (All-get (IsCallWithin c) index pending c.tool_calls (h.1) f)
  ]

  push_tool_delta-IsWithin :
      (delta : ToolCallDelta V) (c : ChatStreamCollector V)
      → IsWithin c
      → IsWithin (push_tool_delta delta c).1
  unfolding push_tool_delta commit_delta
  push_tool_delta-IsWithin delta c h = elim (Result-cases (check_delta delta c)) [
    | inr (reason, f) ↦ rw (f, push_tool_delta) h
    | inl (done, f) ↦
        let (k, room, x) = check_delta-parts delta c f in
        let old = pending_at-IsCallWithin delta.index c k h in
        let arguments : len ((pending_at delta.index c).arguments ++ delta.arguments_fragment)
            ≤ c.max_tool_argument_bytes =
          rw (len-append (pending_at delta.index c).arguments delta.arguments_fragment)
            (fits-le _ _ _ room) in
        rw (f, push_tool_delta)
          (
            h.0,
            All-insert_call (IsCallWithin c) delta.index _ c.tool_calls
                (k, arguments, check_extensions-le delta c x) (h.1),
          )
  ]

  push_usage-rest :
      (snapshot : TokenUsage V) (c : ChatStreamCollector V)
      → (u : Option (TokenUsage V)) × ((push_usage snapshot c).1 ≡ record c { usage = u })
  unfolding push_usage
  push_usage-rest snapshot c = elim (Option-cases c.usage) [
    | inl f ↦ (some snapshot, rw (f, push_usage) refl)
    | inr (existing, f) ↦ elim (Result-cases (merge_snapshot snapshot existing).0) [
      | inl (done, g) ↦ (some (merge_snapshot snapshot existing).1, rw (f, g, push_usage) refl)
      | inr (why, g) ↦ (some (merge_snapshot snapshot existing).1, rw (f, g, push_usage) refl)
    ]
  ]

  push_active-IsWithin :
      (from_str : String → Result V String) (event : ChatStreamEvent V) (c : ChatStreamCollector V)
      → IsWithin c
      → IsWithin (push_active from_str event c).1
  unfolding push_active
  push_active-IsWithin from_str (response_started_event response_id model extensions) c h =
      elim (Bool-cases c.response_started) [
        | inl f ↦ rw (f, push_active) h
        | inr f ↦ rw (f, push_active) h
      ]
  push_active-IsWithin from_str (text_delta delta) c h =
      elim (Bool-cases (fits c.max_text_bytes (len c.text) (len delta))) [
        | inl f ↦
            let text : len (c.text ++ delta) ≤ c.max_text_bytes =
              rw (len-append c.text delta) (fits-le _ _ _ f) in
            rw (f, push_active) (text, h.1)
        | inr f ↦ rw (f, push_active) h
      ]
  push_active-IsWithin from_str (tool_call_delta delta) c h = push_tool_delta-IsWithin delta c h
  push_active-IsWithin from_str (usage_event snapshot) c h =
      let (u, same) = push_usage-rest snapshot c in subst IsWithin (sym same) h
  push_active-IsWithin from_str (finished_event reason) c h =
      elim (Result-cases (validate_calls from_str c.tool_calls)) [
        | inl (done, f) ↦ rw (f, push_active) h
        | inr (why, f) ↦ rw (f, push_active) h
      ]

  poison-IsWithin :
      (from_str : String → Result V String)
      (after : Result (Unit {0}) ModelError × ChatStreamCollector V)
      → IsWithin after.1
      → IsWithin (poison from_str after).1
  poison-IsWithin from_str (ok done, c) h = h
  poison-IsWithin from_str (err reason, c) h = h

  push-IsWithin :
      (from_str : String → Result V String) (event : ChatStreamEvent V) (c : ChatStreamCollector V)
      → IsWithin c
      → IsWithin (push from_str event c).1
  unfolding push
  push-IsWithin from_str event c h = elim (CollectorState-cases c.state) [
    | inl a ↦
        rw (a, push)
          (poison-IsWithin from_str (push_active from_str event c)
            (push_active-IsWithin from_str event c h))
    | inr (inl a) ↦ rw (a, push) h
    | inr (inr a) ↦ rw (a, push) h
  ]

  push_tool_delta-limits :
      (delta : ToolCallDelta V) (c : ChatStreamCollector V)
      → limits_of (push_tool_delta delta c).1 ≡ limits_of c
  unfolding push_tool_delta commit_delta
  push_tool_delta-limits delta c = elim (Result-cases (check_delta delta c)) [
    | inl (done, f) ↦ rw (f, push_tool_delta) refl
    | inr (reason, f) ↦ rw (f, push_tool_delta) refl
  ]

  push_active-limits :
      (from_str : String → Result V String) (event : ChatStreamEvent V) (c : ChatStreamCollector V)
      → limits_of (push_active from_str event c).1 ≡ limits_of c
  unfolding push_active
  push_active-limits from_str (response_started_event response_id model extensions) c =
      elim (Bool-cases c.response_started) [
        | inl f ↦ rw (f, push_active) refl
        | inr f ↦ rw (f, push_active) refl
      ]
  push_active-limits from_str (text_delta delta) c =
      elim (Bool-cases (fits c.max_text_bytes (len c.text) (len delta))) [
        | inl f ↦ rw (f, push_active) refl
        | inr f ↦ rw (f, push_active) refl
      ]
  push_active-limits from_str (tool_call_delta delta) c = push_tool_delta-limits delta c
  push_active-limits from_str (usage_event snapshot) c =
      let (u, same) = push_usage-rest snapshot c in ap limits_of same
  push_active-limits from_str (finished_event reason) c =
      elim (Result-cases (validate_calls from_str c.tool_calls)) [
        | inl (done, f) ↦ rw (f, push_active) refl
        | inr (why, f) ↦ rw (f, push_active) refl
      ]

  poison-limits :
      (from_str : String → Result V String)
      (after : Result (Unit {0}) ModelError × ChatStreamCollector V)
      → limits_of (poison from_str after).1 ≡ limits_of after.1
  poison-limits from_str (ok done, c) = refl
  poison-limits from_str (err reason, c) = refl

  push-limits :
      (from_str : String → Result V String) (event : ChatStreamEvent V) (c : ChatStreamCollector V)
      → limits_of (push from_str event c).1 ≡ limits_of c
  unfolding push
  push-limits from_str event c = elim (CollectorState-cases c.state) [
    | inl a ↦
        rw (a, push)
          (poison-limits from_str (push_active from_str event c)
            ∙ push_active-limits from_str event c)
    | inr (inl a) ↦ rw (a, push) refl
    | inr (inr a) ↦ rw (a, push) refl
  ]

  -- Events that are pushed one after another, refused ones included, leave the limits of the
  -- collector as they are. When the collector is within them before, it is after: the bytes of the
  -- text, and at each call its index, the bytes of its arguments and the number of its extensions.
  pub push_each-IsWithin :
      (from_str : String → Result V String) (events : List (ChatStreamEvent V))
      (c : ChatStreamCollector V)
      → IsWithin c
      → (limits_of (push_each from_str events c) ≡ limits_of c)
        × IsWithin (push_each from_str events c)
  unfolding push_each
  push_each-IsWithin from_str [] c h = (refl, h)
  push_each-IsWithin from_str (event ∷ events) c h =
      let (same, within) =
        push_each-IsWithin from_str events (push from_str event c).1
          (push-IsWithin from_str event c h) in
      (same ∙ push-limits from_str event c, within)

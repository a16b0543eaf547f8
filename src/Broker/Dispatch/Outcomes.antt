-- ===== src/Broker/Dispatch/Outcomes.antt =====
-- About `dispatch_with_approval` (crates/aos-mcp-broker/src/execute.rs).
use unicity_aos.Base.{
  ℕ, ◌+◌, ◌<◌, ◌≡◌, ◌⊎◌, sym, ap, inl, inr, Bool, true, false, List, [], ◌∷◌, ◌++◌, Option, none,
  some, All, arith, codes, Bool-cases, Option-cases, if-cases, subst,
}
use unicity_aos.Base.Text.{Text}
use unicity_aos.Base.Json.{Json}
use unicity_aos.Broker.Topics.{is_valid_tool_name, route_topic}
use unicity_aos.Broker.Messages.{Message}
use unicity_aos.Broker.Slices.{drain, Drained, timed_out, found, drain-Drained}
use unicity_aos.Broker.Dispatch.{
  Slice, Bus, Envelopes, DispatchOutcome, result, failed, get_str, is_str, of_result, or_else,
  or_failed, poll_signal, content_of, error_of, result_of, match_result, first_result, slice_result,
  round_outcome, run_drain, dispatch_with_approval, execute_timeout_ms, execute_slice_ms,
  drain_fuel,
}
use unicity_aos.Broker.Dispatch.Signals.{Seen, poll_signal-Seen, is_str-some, some-is_str}

module _ {Value : Type 0} (json : Json Value) (call_id : Text) where
  -- The payload is the result of the call, with its content and its flag.
  abbrev pub IsResult : Text → Value × Bool → Type 0
  IsResult p x =
      (v : Value) × (json.from_str p ≡ some v)
      × (get_str json v (codes "call_id") ≡ some call_id)
      × (x ≡ (
        content_of json (json.get v (codes "result")),
        error_of json (json.get v (codes "result")),
      ))

  abbrev pub NoResult : Text → Type 0
  NoResult p = (x : Value × Bool) → ¬ IsResult p x

  -- What a slice of the result topic shows: its first result. A poll that fails shows nothing.
  pub data Shows : Option (List Text) → Option (Value × Bool) → Type 0 where
    no_poll : Shows none none
    no_results : (ps : List Text) → All NoResult ps → Shows (some ps) none
    first_shown :
        (before : List Text) (p : Text) (after : List Text) (x : Value × Bool)
        → All NoResult before
        → IsResult p x
        → Shows (some (before ++ (p ∷ after))) (some x)

  match_result-IsResult :
      (p : Text) (x : Value × Bool) → match_result json p call_id ≡ some x → IsResult p x
  unfolding match_result result_of
  match_result-IsResult p x e = elim (Option-cases (json.from_str p)) [
    | inl q ↦ absurd (ground (arith, q, e))
    | inr (v, q) ↦ elim (Bool-cases (is_str (get_str json v (codes "call_id")) call_id)) [
      | inr n ↦ absurd (ground (arith, q, n, e))
      | inl y ↦ (v, q, is_str-some _ call_id y, ground (arith, q, y, e))
    ]
  ]

  match_result-NoResult : (p : Text) → match_result json p call_id ≡ none → NoResult p
  unfolding match_result result_of
  match_result-NoResult p e x (v, q, i, _) = ground (arith, e, q, some-is_str _ call_id i)

  Shows-cons :
      (p : Text) (ps : List Text) (o : Option (Value × Bool))
      → NoResult p
      → Shows (some ps) o
      → Shows (some (p ∷ ps)) o
  Shows-cons p ps none n (no_results _ a) = no_results (p ∷ ps) (n, a)
  Shows-cons p _ (some x) n (first_shown before q after _ a i) =
      first_shown (p ∷ before) q after x (n, a) i

  first_result-Shows : (ps : List Text) → Shows (some ps) (first_result json call_id ps)
  unfolding first_result
  first_result-Shows [] = no_results [] tt
  first_result-Shows (p ∷ ps) = elim (Option-cases (match_result json p call_id)) [
    | inl e ↦
        rw (first_result, e) (Shows-cons p ps _ (match_result-NoResult p e) (first_result-Shows ps))
    | inr (x, e) ↦ rw (first_result, e) (first_shown [] p ps x tt (match_result-IsResult p x e))
  ]

  slice_result-Shows : (poll : Option (List Text)) → Shows poll (slice_result json call_id poll)
  unfolding slice_result
  slice_result-Shows none = no_poll
  slice_result-Shows (some ps) = first_result-Shows ps

module _ {Value : Type 0} (json : Json Value) (envelopes : Envelopes Value) where
  -- A slice ends the loop with the first thing that it shows: a signal, the result, or a signal that
  -- came after the result was polled for.
  pub data SliceEnds (call_id : Text) (s : Slice) : Option (DispatchOutcome Value) → Type 0 where
    signal_before :
        (o : DispatchOutcome Value)
        → Seen json envelopes s.before (some o)
        → SliceEnds call_id s (some o)
    with_result :
        (content : Value) (is_error : Bool)
        → Seen json envelopes s.before none
        → Shows json call_id s.results (some (content, is_error))
        → SliceEnds call_id s (some (result content is_error))
    signal_after :
        (o : Option (DispatchOutcome Value))
        → Seen json envelopes s.before none
        → Shows json call_id s.results none
        → Seen json envelopes s.after o
        → SliceEnds call_id s o

  round_outcome-SliceEnds :
      (call_id : Text) (s : Slice) → SliceEnds call_id s (round_outcome json envelopes call_id s)
  unfolding round_outcome
  round_outcome-SliceEnds call_id s =
      go _ _ (poll_signal-Seen json envelopes s.before) (slice_result-Shows json call_id s.results)
    where
      go :
          (b : Option (DispatchOutcome Value)) (r : Option (Value × Bool))
          → Seen json envelopes s.before b
          → Shows json call_id s.results r
          → SliceEnds call_id s
              (or_else b (or_else (of_result r) (poll_signal json envelopes s.after)))
      go (some o) r h k = signal_before o h
      go none (some (content, is_error)) h k = with_result content is_error h k
      go none none h k = signal_after _ h k (poll_signal-Seen json envelopes s.after)

  -- How a dispatched call ends: with the first of its 200 slices that ends it, or with a failure.
  pub data Ended (call_id : Text) (slices : ℕ → Slice) (o : DispatchOutcome Value) : Type 0 where
    no_answer :
        ((j : ℕ) → j < 200 → SliceEnds call_id (slices j) none)
        → o ≡ failed
        → Ended call_id slices o
    ended_at :
        (j : ℕ)
        → j < 200
        → ((l : ℕ) → l < j → SliceEnds call_id (slices l) none)
        → SliceEnds call_id (slices j) (some o)
        → Ended call_id slices o

  abbrev round : Text → (ℕ → Slice) → ℕ → Option (DispatchOutcome Value)
  round call_id slices i = round_outcome json envelopes call_id (slices i)

  slice_at :
      (call_id : Text) (slices : ℕ → Slice) (j : ℕ) (o : Option (DispatchOutcome Value))
      → round call_id slices (0 + j) ≡ o
      → SliceEnds call_id (slices j) o
  slice_at call_id slices j o e =
      let start : 0 + j ≡ j = omega arith in
      subst (SliceEnds call_id (slices j)) (rw start at e)
        (round_outcome-SliceEnds call_id (slices j))

  Drained-Ended :
      (call_id : Text) (slices : ℕ → Slice) (o : DispatchOutcome Value)
      → Drained (round call_id slices) failed 0 200 o
      → Ended call_id slices o
  Drained-Ended call_id slices o (timed_out quiet e) =
      no_answer (λ j l. slice_at call_id slices j none (quiet j l)) e
  Drained-Ended call_id slices o (found j l quiet e) =
      ended_at j l (λ i h. slice_at call_id slices i none (quiet i h))
        (slice_at call_id slices j (some o) e)

  run_drain-Ended :
      (call_id : Text) (bus : Bus) → Ended call_id bus.slices (run_drain json envelopes call_id bus)
  unfolding run_drain
  run_drain-Ended call_id bus =
      let (o, e, d) = drain-Drained (round call_id bus.slices) failed 200 0 in
      let ends : drain execute_slice_ms (round call_id bus.slices) failed drain_fuel 0
            execute_timeout_ms
          ≡ some o =
        e in
      subst (Ended call_id bus.slices) (sym (ap (or_failed json envelopes) ends))
        (Drained-Ended call_id bus.slices o d)

  -- What a dispatch publishes, and its outcome.
  pub data Dispatched (tool_name call_id : Text) (arguments : Value) (bus : Bus)
      : List (Message Value) × DispatchOutcome Value → Type 0 where
    not_run :
        (is_valid_tool_name tool_name ≡ false)
          ⊎ ((bus.result_sub ≡ false) ⊎ ((bus.approval_sub ≡ false) ⊎ (bus.publishes ≡ false)))
        → Dispatched tool_name call_id arguments bus ([], failed)
    run :
        (o : DispatchOutcome Value)
        → is_valid_tool_name tool_name ≡ true
        → bus.result_sub ≡ true
        → bus.approval_sub ≡ true
        → bus.publishes ≡ true
        → Ended call_id bus.slices o
        → Dispatched tool_name call_id arguments bus
            (Message.execute (route_topic tool_name) call_id tool_name arguments ∷ [], o)

  -- Where a tool's name makes no topic, or a subscription or the publication fails, a dispatch
  -- publishes nothing and fails. Any other asks the tool to run, and ends with what the first of the
  -- 200 slices of its window shows that shows anything, or with a failure where none does: the first
  -- grant, or else the first approval, of the poll before the result's; else the call's first result;
  -- else those of the poll after it.
  pub dispatch_with_approval-Dispatched :
      (tool_name call_id : Text) (arguments : Value) (bus : Bus)
      → Dispatched tool_name call_id arguments bus
          (dispatch_with_approval json envelopes tool_name call_id arguments bus)
  unfolding dispatch_with_approval
  dispatch_with_approval-Dispatched tool_name call_id arguments bus =
      if-cases (Dispatched tool_name call_id arguments bus) _ (λ e. not_run (ground (arith, e)))
        (λ e.
          run _ (ground (arith, e)) (ground (arith, e)) (ground (arith, e)) (ground (arith, e))
            (run_drain-Ended call_id bus))

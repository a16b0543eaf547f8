-- ===== src/Context/Reference.antt =====
-- About the passes of `summarize_and_truncate` (capsules/capsule-context-engine/src/strategy.rs),
-- against one pass over the messages.
use unicity_aos.Base.{
  ℕ, suc, ◌-◌, ◌≤◌, ◌≡◌, refl, ◌∙◌, sym, ap, Bool, true, false, List, [], ◌∷◌, length, drop, arith,
  leb, if◌then◌else◌, Bool-cases, inl, inr, drop_tail, get_of_drop, leb→le,
}
use unicity_aos.Base.Text.{Text}
use unicity_aos.Base.Json.{Json}
use unicity_aos.Context.Indices.{
  AllAbove, removable_indices-AllAbove, removed_indices-AllAbove, has_index-AllAbove,
  has_index_self, retain_past, retain_nil,
}
use unicity_aos.Context.{
  estimate_tokens, is_protected, removable_indices, tokens_at, removed_indices, retain,
  estimate_total_tokens, summarize_and_truncate, truncate_to,
}

module _ {Value : Type 0} (json : Json Value) (to_string : Value → Text) (recent_start : ℕ)
    (protected_ids : List Text) (target_tokens : ℕ) where
  -- The message at the index may be removed: it is older than the recent ones and not protected.
  unfoldable pub removable : ℕ → Value → Bool
  removable i msg =
      if leb recent_start i
      then false
      else if is_protected json to_string protected_ids msg
      then false
      else true

  -- One pass: a removable message is removed as long as the running count is over the target.
  unfoldable pub trim_oldest : ℕ → ℕ → List Value → List Value
  trim_oldest i running [] = []
  trim_oldest i running (msg ∷ rest) =
      let kept = msg ∷ trim_oldest (suc i) running rest in
      let trimmed = trim_oldest (suc i) (running - estimate_tokens json to_string msg) rest in
      if leb running target_tokens then kept else if removable i msg then trimmed else kept

  pub trim_oldest_done :
      (i running : ℕ) (ms : List Value) → running ≤ target_tokens → trim_oldest i running ms ≡ ms
  unfolding trim_oldest
  trim_oldest_done i running [] l = refl
  trim_oldest_done i running (m ∷ ms) l = ground (arith, trim_oldest_done (suc i) running ms l)

  module _ (messages : List Value) where
    indices : ℕ → List Value → List ℕ
    indices i ms = removable_indices json to_string recent_start protected_ids i ms

    removed : ℕ → ℕ → List Value → List ℕ
    unfolding indices
    removed i running ms =
        removed_indices json to_string messages target_tokens running (indices i ms)

    tokens_here :
        (i : ℕ) (m : Value) (ms : List Value)
        → drop i messages ≡ m ∷ ms
        → tokens_at json to_string messages i ≡ estimate_tokens json to_string m
    unfolding tokens_at
    tokens_here i m ms e = rw (get_of_drop messages i m ms e, tokens_at) refl

    removed-AllAbove : (i running : ℕ) (ms : List Value) → AllAbove i (removed i running ms)
    unfolding removed indices
    removed-AllAbove i running ms =
        removed_indices-AllAbove json to_string target_tokens messages i (indices i ms) running
          (removable_indices-AllAbove json to_string recent_start protected_ids i ms)

    indices_keep :
        (i : ℕ) (m : Value) (ms : List Value)
        → removable i m ≡ false
        → indices i (m ∷ ms) ≡ indices (suc i) ms
    unfolding indices removable_indices removable
    indices_keep i m ms e = ground (arith, e)

    indices_remove :
        (i : ℕ) (m : Value) (ms : List Value)
        → removable i m ≡ true
        → indices i (m ∷ ms) ≡ i ∷ indices (suc i) ms
    unfolding indices removable_indices removable
    indices_remove i m ms e = ground (arith, e)

    retain_keep :
        (js : List ℕ) (i : ℕ) (m : Value) (ms : List Value)
        → AllAbove (suc i) js
        → retain json to_string js i (m ∷ ms) ≡ m ∷ retain json to_string js (suc i) ms
    unfolding retain
    retain_keep js i m ms h = rw (has_index-AllAbove i js h) refl

    retain_remove :
        (js : List ℕ) (i : ℕ) (m : Value) (ms : List Value)
        → retain json to_string (i ∷ js) i (m ∷ ms) ≡ retain json to_string js (suc i) ms
    unfolding retain
    retain_remove js i m ms =
        rw (has_index_self i js) (retain_past json to_string i (suc i) js ms (omega arith))

    trim_keep :
        (i running : ℕ) (m : Value) (ms : List Value)
        → removable i m ≡ false
        → trim_oldest i running (m ∷ ms) ≡ m ∷ trim_oldest (suc i) running ms
    unfolding trim_oldest
    trim_keep i running m ms e = ground (arith, e)

    trim_remove :
        (i running : ℕ) (m : Value) (ms : List Value)
        → removable i m ≡ true
        → leb running target_tokens ≡ false
        → trim_oldest i running (m ∷ ms)
          ≡ trim_oldest (suc i) (running - estimate_tokens json to_string m) ms
    unfolding trim_oldest
    trim_remove i running m ms e l = ground (arith, e, l)

    removed_keep :
        (i running : ℕ) (m : Value) (ms : List Value)
        → removable i m ≡ false
        → removed i running (m ∷ ms) ≡ removed (suc i) running ms
    unfolding removed
    removed_keep i running m ms e = rw (indices_keep i m ms e) refl

    removed_stop :
        (i running : ℕ) (m : Value) (ms : List Value)
        → removable i m ≡ true
        → leb running target_tokens ≡ true
        → removed i running (m ∷ ms) ≡ []
    unfolding removed removed_indices
    removed_stop i running m ms e l = rw (indices_remove i m ms e, l) refl

    removed_go :
        (i running : ℕ) (m : Value) (ms : List Value)
        → removable i m ≡ true
        → leb running target_tokens ≡ false
        → drop i messages ≡ m ∷ ms
        → removed i running (m ∷ ms)
          ≡ i ∷ removed (suc i) (running - estimate_tokens json to_string m) ms
    unfolding removed removed_indices
    removed_go i running m ms e l d = rw (indices_remove i m ms e, l, tokens_here i m ms d) refl

    retain-step :
        (i : ℕ) (m : Value) (ms : List Value) (running : ℕ)
        → drop i messages ≡ m ∷ ms
        → ((r : ℕ)
            → drop (suc i) messages ≡ ms
            → retain json to_string (removed (suc i) r ms) (suc i) ms ≡ trim_oldest (suc i) r ms)
        → retain json to_string (removed i running (m ∷ ms)) i (m ∷ ms)
          ≡ trim_oldest i running (m ∷ ms)
    retain-step i m ms running e h =
        let next = drop_tail messages i m ms e in
        elim (Bool-cases (removable i m)) [
          | inr n ↦
              rw (removed_keep i running m ms n, trim_keep i running m ms n)
                (retain_keep (removed (suc i) running ms) i m ms
                    (removed-AllAbove (suc i) running ms)
                  ∙ ap (λ x. m ∷ x) (h running next))
          | inl y ↦ elim (Bool-cases (leb running target_tokens)) [
            | inl l ↦
                rw (removed_stop i running m ms y l, retain_nil json to_string i (m ∷ ms))
                  (sym (trim_oldest_done i running (m ∷ ms) (leb→le _ _ l)))
            | inr l ↦
                let r = running - estimate_tokens json to_string m in
                rw (removed_go i running m ms y l e, trim_remove i running m ms y l)
                  (retain_remove (removed (suc i) r ms) i m ms ∙ h r next)
          ]
        ]

    -- The sets and passes of the source against the one pass.
    retain-trim_oldest :
        (i : ℕ) (ms : List Value) (running : ℕ)
        → drop i messages ≡ ms
        → retain json to_string (removed i running ms) i ms ≡ trim_oldest i running ms
    unfolding trim_oldest retain
    retain-trim_oldest i [] running e = refl
    retain-trim_oldest i (m ∷ ms) running e =
        retain-step i m ms running e (retain-trim_oldest (suc i) ms)

module _ {Value : Type 0} (json : Json Value) (to_string : Value → Text) where
  trim_nil :
      (recent_start : ℕ) (protected_ids : List Text) (target_tokens i running : ℕ)
      → trim_oldest json to_string recent_start protected_ids target_tokens i running [] ≡ []
  unfolding trim_oldest
  trim_nil recent_start protected_ids target_tokens i running = refl

  -- The strategy returns what one pass from the oldest message on leaves: the pass starts with the
  -- estimate of all messages, and removes each message that is neither recent nor protected as long as
  -- the running count is over the target.
  pub summarize_and_truncate_lem :
      (messages : List Value) (target_tokens : ℕ) (protected_ids : List Text) (keep_recent : ℕ)
      → summarize_and_truncate json to_string messages target_tokens protected_ids keep_recent
        ≡ trim_oldest json to_string
            (length messages - keep_recent)
            protected_ids
            target_tokens
            0
            (estimate_total_tokens json to_string messages)
            messages
  unfolding summarize_and_truncate truncate_to removed indices
  summarize_and_truncate_lem [] target_tokens protected_ids keep_recent =
      sym (trim_nil _ protected_ids target_tokens 0 _)
  summarize_and_truncate_lem (m ∷ ms) target_tokens protected_ids keep_recent =
      let total = estimate_total_tokens json to_string (m ∷ ms) in
      let recent_start = length (m ∷ ms) - keep_recent in
      elim (Bool-cases (leb total target_tokens)) [
        | inl l ↦ rw l (
            sym (
              trim_oldest_done json to_string recent_start protected_ids target_tokens 0 total
                (m ∷ ms) (leb→le _ _ l)))
        | inr l ↦ rw l (
            retain-trim_oldest json to_string recent_start protected_ids target_tokens (m ∷ ms) 0
              (m ∷ ms) total refl)
      ]

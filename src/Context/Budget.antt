-- ===== src/Context/Budget.antt =====
-- About the token budget of `summarize_and_truncate`
-- (capsules/capsule-context-engine/src/strategy.rs).
use unicity_aos.Base.{
  ℕ, suc, ◌+◌, ◌-◌, ◌≤◌, ◌≡◌, refl, ◌∙◌, sym, ap, subst, Bool, List, [], ◌∷◌, length, arith, leb,
  if◌then◌else◌, Bool-cases, ◌⊎◌, inl, inr, leb→le,
}
use unicity_aos.Base.Text.{Text}
use unicity_aos.Base.Decimal.{u64_max}
use unicity_aos.Base.Json.{Json}
use unicity_aos.Context.{
  estimate_tokens, estimate_total_tokens, total_from, saturating_add, summarize_and_truncate,
}
use unicity_aos.Context.Reference.{
  removable, trim_oldest, trim_oldest_done, summarize_and_truncate_lem,
}

module _ {Value : Type 0} (json : Json Value) (to_string : Value → Text) where
  -- The estimates added up with no bound.
  abbrev pub sum_tokens : List Value → ℕ
  sum_tokens [] = 0
  sum_tokens (m ∷ ms) = estimate_tokens json to_string m + sum_tokens ms

  total_from_sum :
      (ms : List Value) (acc : ℕ)
      → acc + sum_tokens ms ≤ u64_max
      → total_from json to_string acc ms ≡ acc + sum_tokens ms
  unfolding total_from saturating_add
  total_from_sum [] acc l = omega arith
  total_from_sum (m ∷ ms) acc l =
      let e : saturating_add acc (estimate_tokens json to_string m)
          ≡ acc + estimate_tokens json to_string m =
        omega arith in
      rw e (total_from_sum ms (acc + estimate_tokens json to_string m) (omega arith) ∙ omega arith)

  module _ (recent_start : ℕ) (protected_ids : List Text) (target_tokens : ℕ) where
    abbrev is_removable : ℕ → Value → Bool
    is_removable i m = removable json to_string recent_start protected_ids target_tokens i m

    abbrev trimmed : ℕ → ℕ → List Value → List Value
    trimmed i running ms =
        trim_oldest json to_string recent_start protected_ids target_tokens i running ms

    -- The messages, from the index `i` on, that are recent or protected.
    unfoldable pub essential : ℕ → List Value → List Value
    essential i [] = []
    essential i (m ∷ ms) =
        let rest = essential (suc i) ms in if is_removable i m then rest else m ∷ rest

    -- What the pass ends with, given the tokens `running` of what it kept so far and all to come.
    abbrev Trimmed : ℕ → ℕ → List Value → Type 0
    Trimmed i running ms =
        (sum_tokens (trimmed i running ms) + (running - sum_tokens ms) ≤ target_tokens)
        ⊎ (trimmed i running ms ≡ essential i ms)

    trim_oldest-Trimmed :
        (i : ℕ) (ms : List Value) (running : ℕ) → sum_tokens ms ≤ running → Trimmed i running ms
    unfolding trim_oldest essential
    trim_oldest-Trimmed i [] running l = inr refl
    trim_oldest-Trimmed i (m ∷ ms) running l = elim (Bool-cases (leb running target_tokens)) [
      | inl q ↦
          let le = leb→le running target_tokens q in
          let all =
            trim_oldest_done json to_string recent_start protected_ids target_tokens i running
              (m ∷ ms) le in
          inl (
            subst (λ x. sum_tokens x + (running - sum_tokens (m ∷ ms)) ≤ target_tokens) (sym all)
              (omega arith))
      | inr q ↦ elim (Bool-cases (is_removable i m)) [
        | inl y ↦
            let t = estimate_tokens json to_string m in
            rw (q, y)
              (elim (trim_oldest-Trimmed (suc i) ms (running - t) (omega arith)) [
                | inl b ↦ inl (omega arith)
                | inr e ↦ inr e
              ])
        | inr n ↦
            rw (q, n)
              (elim (trim_oldest-Trimmed (suc i) ms running (omega arith)) [
                | inl b ↦ inl (omega arith)
                | inr e ↦ inr (ap (λ x. m ∷ x) e)
              ])
      ]
    ]

  -- Where the estimates add up to a number of 64 bits, the result is within the target, or it is just
  -- the messages that are recent or protected.
  pub summarize_and_truncate_budget :
      (messages : List Value) (target_tokens : ℕ) (protected_ids : List Text) (keep_recent : ℕ)
      → sum_tokens messages ≤ u64_max
      → (sum_tokens
            (summarize_and_truncate json to_string messages target_tokens protected_ids keep_recent)
          ≤ target_tokens)
        ⊎ (summarize_and_truncate json to_string messages target_tokens protected_ids keep_recent
            ≡ essential (length messages - keep_recent) protected_ids target_tokens 0 messages)
  unfolding estimate_total_tokens
  summarize_and_truncate_budget messages target_tokens protected_ids keep_recent l =
      let recent_start = length messages - keep_recent in
      let total = total_from_sum messages 0 (omega arith) in
      let e =
        summarize_and_truncate_lem json to_string messages target_tokens protected_ids
          keep_recent in
      rw e
        (elim (trim_oldest-Trimmed recent_start protected_ids target_tokens 0 messages
          (estimate_total_tokens json to_string messages) (omega arith)) [
            | inl b ↦ inl (omega arith)
            | inr q ↦ inr q
          ])

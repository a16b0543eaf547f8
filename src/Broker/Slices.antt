-- ===== src/Broker/Slices.antt =====
-- The loop that drains a subscription in slices until a budget closes, which
-- `dispatch_with_approval` (crates/aos-mcp-broker/src/execute.rs) and `drain_result` (approval.rs)
-- share: `while remaining > 0 { … remaining = remaining.saturating_sub(step); }`.
use unicity_aos.Base.{
  ℕ, zero, suc, ◌+◌, ◌-◌, ◌*◌, ◌<◌, min, ◌≡◌, refl, true, Option, none, some, arith, ltb, lt→ltb,
  ◌∙◌, inl, inr, Option-cases, if◌then◌else◌,
}

-- What the round of a slice returns, if it returns, is the result; after the last slice it is
-- `closed`. `none` means that the fuel ran out.
unfoldable pub drain : {O : Type 0} → ℕ → (ℕ → Option O) → O → ℕ → ℕ → ℕ → Option O
drain slice_ms round closed zero i remaining = none
drain slice_ms round closed (suc fuel) i remaining =
    let step = min remaining slice_ms in
    let later = drain slice_ms round closed fuel (suc i) (remaining - step) in
    if ltb 0 remaining then elim (round i) [ some o ↦ some o | none ↦ later ] else some closed

module _ {O : Type 0} (round : ℕ → Option O) (closed : O) where
  -- What the loop from the slice `i` over `n` slices ends with: the result of the first slice that
  -- has one, or `closed` after `n` quiet ones.
  pub data Drained (i n : ℕ) (o : O) : Type 0 where
    timed_out : ((j : ℕ) → j < n → round (i + j) ≡ none) → o ≡ closed → Drained i n o
    found :
        (j : ℕ)
        → j < n
        → ((l : ℕ) → l < j → round (i + l) ≡ none)
        → round (i + j) ≡ some o
        → Drained i n o

  shift : (i j : ℕ) → suc i + j ≡ i + suc j
  shift i j = omega arith

  quiet-suc :
      (i n : ℕ)
      → round i ≡ none
      → ((j : ℕ) → j < n → round (suc i + j) ≡ none)
      → (j : ℕ) → j < suc n
      → round (i + j) ≡ none
  quiet-suc i n q h zero l = let e : i + 0 ≡ i = omega arith in rw e q
  quiet-suc i n q h (suc j) l = rw (shift i j) at (h j (omega arith))

  Drained-suc : (i n : ℕ) {o : O} → round i ≡ none → Drained (suc i) n o → Drained i (suc n) o
  Drained-suc i n q (timed_out h e) = timed_out (quiet-suc i n q h) e
  Drained-suc i n q (found j l h e) =
      found (suc j) (omega arith) (quiet-suc i j q h) (rw (shift i j) at e)

  drain_quiet :
      (fuel i n : ℕ)
      → round i ≡ none
      → drain 250 round closed (suc fuel) i (suc n * 250)
        ≡ drain 250 round closed fuel (suc i) (n * 250)
  unfolding drain
  drain_quiet fuel i n q =
      let e : suc n * 250 - min (suc n * 250) 250 ≡ n * 250 = omega arith in
      let t : ltb 0 (suc n * 250) ≡ true = lt→ltb 0 (suc n * 250) (omega arith) in
      rw (t, q) (rw e refl)

  drain_found :
      (fuel i n : ℕ) (o : O)
      → round i ≡ some o
      → drain 250 round closed (suc fuel) i (suc n * 250) ≡ some o
  unfolding drain
  drain_found fuel i n o q =
      let t : ltb 0 (suc n * 250) ≡ true = lt→ltb 0 (suc n * 250) (omega arith) in rw (t, q) refl

  drain_end : (i : ℕ) → drain 250 round closed 1 i (0 * 250) ≡ some closed
  unfolding drain
  drain_end i = refl

  -- Slices of 250 ms over a budget of `n` of them: a round for each, and one to end the loop.
  pub drain-Drained :
      (n i : ℕ) → (o : O) × (drain 250 round closed (suc n) i (n * 250) ≡ some o) × Drained i n o
  drain-Drained zero i = (closed, drain_end i, timed_out (λ j l. absurd (omega arith)) refl)
  drain-Drained (suc n) i = elim (Option-cases (round i)) [
    | inl q ↦
        let (o, e, d) = drain-Drained n (suc i) in
        (o, drain_quiet (suc n) i n q ∙ e, Drained-suc i n q d)
    | inr (o, q) ↦
        let z : i + 0 ≡ i = omega arith in
        (
          o,
          drain_found (suc n) i n o q,
          found 0 (omega arith) (λ l h. absurd (omega arith)) (rw z q),
        )
  ]

-- ===== src/Context/Retained.antt =====
-- About the messages that `summarize_and_truncate` keeps
-- (capsules/capsule-context-engine/src/strategy.rs).
use unicity_aos.Base.{
  ℕ, suc, ◌-◌, ◌≤◌, ◌<◌, ◌≡◌, refl, sym, ap, true, false, List, [], ◌∷◌, ◌++◌, length, drop, arith,
  leb, Bool-cases, inl, inr, leb→le, drop-nil,
}
use unicity_aos.Base.Text.{Text}
use unicity_aos.Base.Json.{Json}
use unicity_aos.Context.{
  estimate_tokens, estimate_total_tokens, is_protected, summarize_and_truncate,
}
use unicity_aos.Context.Reference.{removable, trim_oldest, summarize_and_truncate_lem}

module _ {Value : Type 0} (json : Json Value) (to_string : Value → Text) (recent_start : ℕ)
    (protected_ids : List Text) where
  -- The second list is the first from the index `i` on, less messages that are older than the recent
  -- ones and not protected.
  pub data Retained : ℕ → List Value → List Value → Type 0 where
    done : {i : ℕ} → Retained i [] []
    keep :
        {i : ℕ} {m : Value} {ms kept : List Value}
        → Retained (suc i) ms kept
        → Retained i (m ∷ ms) (m ∷ kept)
    remove :
        {i : ℕ} {m : Value} {ms kept : List Value}
        → i < recent_start
        → is_protected json to_string protected_ids m ≡ false
        → Retained (suc i) ms kept
        → Retained i (m ∷ ms) kept

  module _ (target_tokens : ℕ) where
    removable-true :
        (i : ℕ) (m : Value)
        → removable json to_string recent_start protected_ids target_tokens i m ≡ true
        → (i < recent_start) × (is_protected json to_string protected_ids m ≡ false)
    unfolding removable
    removable-true i m e = ground arith

    trim_oldest-Retained :
        (i : ℕ) (ms : List Value) (running : ℕ)
        → Retained i ms
            (trim_oldest json to_string recent_start protected_ids target_tokens i running ms)
    unfolding trim_oldest
    trim_oldest-Retained i [] running = done
    trim_oldest-Retained i (m ∷ ms) running = elim (Bool-cases (leb running target_tokens)) [
      | inl l ↦ rw (l, trim_oldest) (keep (trim_oldest-Retained (suc i) ms running))
      | inr l ↦
          elim (Bool-cases
            (removable json to_string recent_start protected_ids target_tokens i m)) [
              | inr n ↦ rw (l, n, trim_oldest) (keep (trim_oldest-Retained (suc i) ms running))
              | inl y ↦
                  let (a, b) = removable-true i m y in
                  rw (l, y, trim_oldest)
                    (remove a b (
                      trim_oldest-Retained (suc i) ms (running - estimate_tokens json to_string m)))
            ]
    ]

  Retained-past : (i : ℕ) (ms kept : List Value) → recent_start ≤ i → Retained i ms kept → kept ≡ ms
  Retained-past i [] [] l done = refl
  Retained-past i [] (m ∷ kept) l r = elim r [ ]
  Retained-past i (m ∷ ms) (_ ∷ kept) l (keep r) =
      ap (λ x. m ∷ x) (Retained-past (suc i) ms kept (omega arith) r)
  Retained-past i (m ∷ ms) kept l (remove a p r) = absurd (omega arith)

  -- From the first recent message on, nothing is missing.
  Retained-recent :
      (i : ℕ) (ms kept : List Value)
      → Retained i ms kept
      → (older : List Value) × (kept ≡ older ++ drop (recent_start - i) ms)
  Retained-recent i [] [] done = ([], sym (drop-nil (recent_start - i)))
  Retained-recent i [] (m ∷ kept) r = elim r [ ]
  Retained-recent i (m ∷ ms) (_ ∷ kept) (keep r) = elim (Bool-cases (leb recent_start i)) [
    | inl l ↦
        let le = leb→le recent_start i l in
        let z : recent_start - i ≡ 0 = omega arith in
        ([], rw z (ap (λ x. m ∷ x) (Retained-past (suc i) ms kept (omega arith) r)))
    | inr l ↦
        let s : recent_start - i ≡ suc (recent_start - suc i) = ground arith in
        let (older, e) = Retained-recent (suc i) ms kept r in (m ∷ older, rw s (ap (λ x. m ∷ x) e))
  ]
  Retained-recent i (m ∷ ms) kept (remove a p r) =
      let s : recent_start - i ≡ suc (recent_start - suc i) = omega arith in
      let (older, e) = Retained-recent (suc i) ms kept r in (older, rw s e)

module _ {Value : Type 0} (json : Json Value) (to_string : Value → Text) where
  -- The strategy returns the messages in their order, less some that are older than the `keep_recent`
  -- last ones and not protected.
  pub summarize_and_truncate-Retained :
      (messages : List Value) (target_tokens : ℕ) (protected_ids : List Text) (keep_recent : ℕ)
      → Retained json to_string
          (length messages - keep_recent)
          protected_ids
          0
          messages
          (summarize_and_truncate json to_string messages target_tokens protected_ids keep_recent)
  summarize_and_truncate-Retained messages target_tokens protected_ids keep_recent =
      rw
        (summarize_and_truncate_lem json to_string messages target_tokens protected_ids keep_recent)
        (trim_oldest-Retained json to_string (length messages - keep_recent) protected_ids
          target_tokens 0 messages (estimate_total_tokens json to_string messages))

  -- The last `keep_recent` messages end the result, whatever the target.
  pub summarize_and_truncate_recent :
      (messages : List Value) (target_tokens : ℕ) (protected_ids : List Text) (keep_recent : ℕ)
      → (older : List Value) × (summarize_and_truncate json to_string messages target_tokens
            protected_ids keep_recent
          ≡ older ++ drop (length messages - keep_recent) messages)
  summarize_and_truncate_recent messages target_tokens protected_ids keep_recent =
      let recent_start = length messages - keep_recent in
      let z : recent_start - 0 ≡ recent_start = omega arith in
      rw z at (
        Retained-recent json to_string recent_start protected_ids 0 messages
          (summarize_and_truncate json to_string messages target_tokens protected_ids keep_recent)
          (summarize_and_truncate-Retained messages target_tokens protected_ids keep_recent))

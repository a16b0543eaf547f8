-- ===== src/Context/Indices.antt =====
-- Lemmas on the sets of indices of `summarize_and_truncate`
-- (capsules/capsule-context-engine/src/strategy.rs).
use unicity_aos.Base.{
  ℕ, suc, ◌-◌, ◌≤◌, ◌<◌, ◌≡◌, refl, ap, true, false, List, [], ◌∷◌, All, arith, leb, Bool-cases,
  inl, inr,
}
use unicity_aos.Base.Text.{Text}
use unicity_aos.Base.Json.{Json}
use unicity_aos.Context.{
  has_index, is_protected, removable_indices, tokens_at, removed_indices, retain,
}

-- The indices are `i` or greater.
abbrev pub AllAbove : ℕ → List ℕ → Type 0
AllAbove i js = All (λ j. i ≤ j) js

AllAbove-suc : (i : ℕ) (js : List ℕ) → AllAbove (suc i) js → AllAbove i js
AllAbove-suc i [] h = tt
AllAbove-suc i (j ∷ js) (a, h) = (omega arith, AllAbove-suc i js h)

pub has_index-AllAbove : (i : ℕ) (js : List ℕ) → AllAbove (suc i) js → has_index js i ≡ false
unfolding has_index
has_index-AllAbove i [] h = refl
has_index-AllAbove i (j ∷ js) (a, h) = ground (arith, has_index-AllAbove i js h)

pub has_index_self : (i : ℕ) (js : List ℕ) → has_index (i ∷ js) i ≡ true
unfolding has_index
has_index_self i js = ground arith

module _ {Value : Type 0} (json : Json Value) (to_string : Value → Text) where
  pub retain_past :
      (i k : ℕ) (js : List ℕ) (ms : List Value)
      → i < k
      → retain json to_string (i ∷ js) k ms ≡ retain json to_string js k ms
  unfolding retain has_index
  retain_past i k js [] l = refl
  retain_past i k js (m ∷ ms) l = ground (arith, retain_past i (suc k) js ms (omega arith))

  pub retain_nil : (i : ℕ) (ms : List Value) → retain json to_string [] i ms ≡ ms
  unfolding retain has_index
  retain_nil i [] = refl
  retain_nil i (m ∷ ms) = ap (λ x. m ∷ x) (retain_nil (suc i) ms)

module _ {Value : Type 0} (json : Json Value) (to_string : Value → Text) (recent_start : ℕ)
    (protected_ids : List Text) where
  pub removable_indices-AllAbove :
      (i : ℕ) (ms : List Value)
      → AllAbove i (removable_indices json to_string recent_start protected_ids i ms)
  unfolding removable_indices
  removable_indices-AllAbove i [] = tt
  removable_indices-AllAbove i (m ∷ ms) =
      let up = AllAbove-suc i _ (removable_indices-AllAbove (suc i) ms) in
      elim (Bool-cases (leb recent_start i)) [
        | inl e ↦ rw (e, removable_indices) up
        | inr e ↦ elim (Bool-cases (is_protected json to_string protected_ids m)) [
          | inl p ↦ rw (e, p, removable_indices) up
          | inr p ↦ rw (e, p, removable_indices) (omega arith, up)
        ]
      ]

module _ {Value : Type 0} (json : Json Value) (to_string : Value → Text) (target_tokens : ℕ) where
  pub removed_indices-AllAbove :
      (messages : List Value) (k : ℕ) (js : List ℕ) (running : ℕ)
      → AllAbove k js
      → AllAbove k (removed_indices json to_string messages target_tokens running js)
  unfolding removed_indices
  removed_indices-AllAbove messages k [] running h = tt
  removed_indices-AllAbove messages k (j ∷ js) running (a, h) =
      elim (Bool-cases (leb running target_tokens)) [
        | inl e ↦ rw (e, removed_indices) tt
        | inr e ↦
            rw (e, removed_indices)
              (
                a,
                removed_indices-AllAbove messages k js
                    (running - tokens_at json to_string messages j) h,
              )
      ]

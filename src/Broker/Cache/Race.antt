-- ===== src/Broker/Cache/Race.antt =====
-- About the compare-and-swap loop of `upsert` (crates/aos-mcp-broker/src/cache.rs) among other
-- writers of the cell.
use unicity_aos.Base.{
  ℕ, zero, suc, ◌≡◌, refl, sym, subst, List, Option, some, ◌⊎◌, inl, inr, Bool-cases, Option-cases,
}
use unicity_aos.Base.Text.{opt_text_eq, opt_text_eq_iff, Text}
use unicity_aos.Broker.Cache.{
  McpToolDescriptor, Attempt, Codec, upsert, upsert_from, merge, merged, decoded, read,
  cas_max_retries, is_nil,
}

-- The cell after only the other writers have written to it, from the attempt `i` on.
pub data Evolved (attempts : ℕ → Attempt) : ℕ → Option Text → Option Text → Type 0 where
  here : {i : ℕ} {cell : Option Text} → Evolved attempts i cell cell
  seen : {i : ℕ} {cell : Option Text} → Evolved attempts i cell ((attempts i).before cell)
  later :
      {i : ℕ} {cell last : Option Text}
      → Evolved attempts (suc i) ((attempts i).others ((attempts i).before cell)) last
      → Evolved attempts i cell last

module _ {Value : Type 0} (codec : Codec Value) (attempts : ℕ → Attempt)
    (incoming : List (McpToolDescriptor Value)) where
  -- The cell is what the other writers left, or what they left with the incoming descriptors merged
  -- into it.
  abbrev pub Kept : ℕ → Option Text → Option Text → Type 0
  Kept i cell last =
      (mid : Option Text) × Evolved attempts i cell mid
      × ((last ≡ mid)
          ⊎ ((clock : ℕ) × (bytes : Text) × (last ≡ some bytes)
              × (codec.to_vec (record {
                updated_at_ms = clock;
                tools = merge incoming (decoded codec mid).tools;
              })
                  ≡ some bytes)))

  Kept-later :
      (i : ℕ) (cell last : Option Text)
      → Kept (suc i) ((attempts i).others ((attempts i).before cell)) last
      → Kept i cell last
  Kept-later i cell last (mid, e, r) = (mid, later e, r)

  upsert_from-Kept :
      (retries i : ℕ) (cell : Option Text)
      → Kept i cell (upsert_from codec retries attempts i incoming cell).0
  unfolding upsert_from
  upsert_from-Kept zero i cell = ((attempts i).before cell, seen, inl refl)
  upsert_from-Kept (suc retries) i cell =
      let a = attempts i in
      let found = a.before cell in
      let now = a.others found in
      let rest = Kept-later i cell _ (upsert_from-Kept retries (suc i) now) in
      elim (Option-cases (codec.to_vec (merged codec a incoming (read a found)))) [
        | inl e ↦ rw (e, upsert_from) (found, seen, inl refl)
        | inr (bytes, e) ↦ elim (Bool-cases a.cas_fails) [
          | inl f ↦ rw (e, f, upsert_from) (now, later here, inl refl)
          | inr f ↦ elim (Bool-cases (opt_text_eq now (read a found))) [
            | inr q ↦ rw (e, f, q, upsert_from) rest
            | inl q ↦
                let same = (opt_text_eq_iff now (read a found)).0 q in
                rw (e, f, q, upsert_from)
                  (
                    now,
                    later here,
                    inr (
                      a.clock,
                      bytes,
                      refl,
                      subst (λ c. codec.to_vec (merged codec a incoming c) ≡ some bytes) (sym same)
                          e,
                    ),
                  )
          ]
        ]
      ]

  -- However the other writers and the failures of the store fall between the steps of an update of the
  -- cache, after it the cell is what the other writers left, or the merge of the incoming descriptors
  -- into what they left: no update of theirs is lost.
  pub upsert-Kept :
      (i : ℕ) (cell : Option Text) → Kept i cell (upsert codec attempts i incoming cell).0
  unfolding upsert
  upsert-Kept i cell = elim (Bool-cases (is_nil incoming)) [
    | inl e ↦ rw (e, upsert) ((attempts i).before cell, seen, inl refl)
    | inr e ↦ rw (e, upsert) (upsert_from-Kept cas_max_retries i cell)
  ]

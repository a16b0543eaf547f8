-- ===== src/Broker/Discovery/Distinct.antt =====
-- About the removal of duplicates in `discover` (crates/aos-mcp-broker/src/discovery.rs).
use unicity_aos.Base.{
  ℕ, suc, ◌+◌, ◌≤◌, ◌≡◌, ◌≢◌, refl, sym, ◌∙◌, ap, Bool, true, false, List, [], ◌∷◌, ◌++◌, Option,
  none, some, arith, if◌then◌else◌, Bool-cases, inl, inr,
}
use mathlib.Core.List.{reverse, reverse-cons, reverse-reverse}
use unicity_aos.Base.Text.{Text, text_eq, text_eq_ne, has_text}
use unicity_aos.Broker.Cache.{McpToolDescriptor}
use unicity_aos.Broker.Discovery.{retain_new, dedup}

has_text-cons :
    (k j : Text) (seen : List Text)
    → has_text (j ∷ seen) k ≡ (if text_eq j k then true else has_text seen k)
unfolding has_text
has_text-cons k j seen = ground arith

-- A name that is not in the set is not the name `k` that is.
other_name :
    (j k : Text) (seen : List Text) (b c : Bool)
    → has_text seen j ≡ b
    → has_text seen k ≡ c
    → b ≢ c
    → text_eq j k ≡ false
other_name j k seen b c x y n = text_eq_ne j k (λ e. n (sym x ∙ (ap (has_text seen) e ∙ y)))

module _ {Value : Type 0} where
  -- How many of the descriptors have the name.
  abbrev pub count : Text → List (McpToolDescriptor Value) → ℕ
  count k [] = 0
  count k (d ∷ ds) = let rest = count k ds in if text_eq d.name k then suc rest else rest

  -- The first of them.
  abbrev pub find : Text → List (McpToolDescriptor Value) → Option (McpToolDescriptor Value)
  find k [] = none
  find k (d ∷ ds) = if text_eq d.name k then some d else find k ds

  -- The last of them.
  abbrev pub find_last : Text → List (McpToolDescriptor Value) → Option (McpToolDescriptor Value)
  find_last k ds = find k (reverse ds)

  count-append :
      (k : Text) (xs ys : List (McpToolDescriptor Value))
      → count k (xs ++ ys) ≡ count k xs + count k ys
  count-append k [] ys = omega arith
  count-append k (d ∷ xs) ys = ground (arith, count-append k xs ys)

  count-reverse :
      (k : Text) (xs : List (McpToolDescriptor Value)) → count k (reverse xs) ≡ count k xs
  count-reverse k [] = refl
  count-reverse k (d ∷ xs) =
      rw (reverse-cons d xs)
        (count-append k (reverse xs) (d ∷ []) ∙ ground (arith, count-reverse k xs))

  retain_new_seen :
      (k : Text) (ds : List (McpToolDescriptor Value)) (seen : List Text)
      → has_text seen k ≡ true
      → count k (retain_new seen ds) ≡ 0
  unfolding retain_new
  retain_new_seen k [] seen h = refl
  retain_new_seen k (d ∷ ds) seen h = elim (Bool-cases (has_text seen d.name)) [
    | inl e ↦ rw (e, retain_new) (retain_new_seen k ds seen h)
    | inr e ↦
        let ne = other_name d.name k seen false true e h (λ q. cc q) in
        rw (e, retain_new)
          (rw ne (retain_new_seen k ds (d.name ∷ seen) (has_text-cons k d.name seen ∙ rw ne h)))
  ]

  retain_new_once :
      (k : Text) (ds : List (McpToolDescriptor Value)) (seen : List Text)
      → count k (retain_new seen ds) ≤ 1
  unfolding retain_new
  retain_new_once k [] seen = omega arith
  retain_new_once k (d ∷ ds) seen = elim (Bool-cases (has_text seen d.name)) [
    | inl e ↦ rw (e, retain_new) (retain_new_once k ds seen)
    | inr e ↦ elim (Bool-cases (text_eq d.name k)) [
      | inl q ↦
          let none_left =
            retain_new_seen k ds (d.name ∷ seen) (has_text-cons k d.name seen ∙ rw q refl) in
          rw (e, retain_new) (rw (q, none_left) (omega arith))
      | inr q ↦ rw (e, retain_new) (rw q (retain_new_once k ds (d.name ∷ seen)))
    ]
  ]

  find-retain_new :
      (k : Text) (ds : List (McpToolDescriptor Value)) (seen : List Text)
      → has_text seen k ≡ false
      → find k (retain_new seen ds) ≡ find k ds
  unfolding retain_new
  find-retain_new k [] seen h = refl
  find-retain_new k (d ∷ ds) seen h = elim (Bool-cases (has_text seen d.name)) [
    | inl e ↦
        let ne = other_name d.name k seen true false e h (λ q. cc q) in
        rw (e, ne, retain_new) (find-retain_new k ds seen h)
    | inr e ↦ elim (Bool-cases (text_eq d.name k)) [
      | inl q ↦ rw (e, retain_new) (rw q refl)
      | inr q ↦
          rw (e, retain_new)
            (rw q (find-retain_new k ds (d.name ∷ seen) (has_text-cons k d.name seen ∙ rw q h)))
    ]
  ]

  -- Removing duplicates leaves each name at most once, and as the last descriptor that it had.
  pub dedup_lem :
      (acc : List (McpToolDescriptor Value)) (k : Text)
      → (count k (dedup acc) ≤ 1) × (find_last k (dedup acc) ≡ find_last k acc)
  unfolding dedup has_text
  dedup_lem acc k =
      let kept = retain_new [] (reverse acc) in
      (
        rw (count-reverse k kept) (retain_new_once k (reverse acc) []),
        ap (find k) (reverse-reverse kept) ∙ find-retain_new k (reverse acc) [] refl,
      )

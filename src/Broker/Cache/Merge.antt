-- ===== src/Broker/Cache/Merge.antt =====
-- About the merging of descriptors in `upsert` (crates/aos-mcp-broker/src/cache.rs).
use unicity_aos.Base.{
  ℕ, suc, ◌+◌, ◌≤◌, ◌≡◌, ◌≢◌, refl, sym, ◌∙◌, ap, true, false, List, [], ◌∷◌, length, Option, some,
  arith, leb, if◌then◌else◌, Bool-cases, inl, inr,
}
use unicity_aos.Base.Text.{Text, text_eq, text_eq_iff, text_eq_ne, text_eq_refl}
use unicity_aos.Broker.Cache.{
  McpToolDescriptor, Tools, contains_key, lookup, update, insert_new, insert, merge,
  max_cached_tools,
}

module _ {Value : Type 0} where
  length-update :
      (k : Text) (d : McpToolDescriptor Value) (ts : Tools Value)
      → length (update k d ts) ≡ length ts
  unfolding update
  length-update k d [] = refl
  length-update k d ((j, e) ∷ ts) = ground (arith, length-update k d ts)

  length-insert_new :
      (k : Text) (d : McpToolDescriptor Value) (ts : Tools Value)
      → length (insert_new k d ts) ≡ suc (length ts)
  unfolding insert_new
  length-insert_new k d [] = refl
  length-insert_new k d ((j, e) ∷ ts) = ground (arith, length-insert_new k d ts)

  -- A merge does not grow the map past the cap, or past its size where that is over it.
  pub length-merge :
      (ds : List (McpToolDescriptor Value)) (ts : Tools Value) (n : ℕ)
      → max_cached_tools ≤ n
      → length ts ≤ n
      → length (merge ds ts) ≤ n
  unfolding merge insert
  length-merge [] ts n a b = b
  length-merge (d ∷ ds) ts n a b =
      length-merge ds _ n a
        (ground (arith, length-update d.name d ts, length-insert_new d.name d ts))

  lookup-update_self :
      (k : Text) (d : McpToolDescriptor Value) (ts : Tools Value)
      → contains_key k ts ≡ true
      → lookup k (update k d ts) ≡ some d
  unfolding lookup update contains_key
  lookup-update_self k d [] h = absurd (cc)
  lookup-update_self k d ((j, e) ∷ ts) h = ground (arith, lookup-update_self k d ts)

  lookup-update_ne :
      (k j : Text) (d : McpToolDescriptor Value) (ts : Tools Value)
      → k ≢ j
      → lookup j (update k d ts) ≡ lookup j ts
  unfolding lookup update
  lookup-update_ne k j d [] n = refl
  lookup-update_ne k j d ((i, e) ∷ ts) n = elim (Bool-cases (text_eq i k)) [
    | inl q ↦
        let s : i ≢ j = λ r. n (sym ((text_eq_iff i k).0 q) ∙ r) in rw (q, text_eq_ne i j s) refl
    | inr q ↦ ground (arith, q, lookup-update_ne k j d ts n)
  ]

  lookup-insert_new_self :
      (k : Text) (d : McpToolDescriptor Value) (ts : Tools Value)
      → contains_key k ts ≡ false
      → lookup k (insert_new k d ts) ≡ some d
  unfolding lookup insert_new contains_key
  lookup-insert_new_self k d [] h = rw (text_eq_refl k) refl
  lookup-insert_new_self k d ((j, e) ∷ ts) h =
      ground (arith, text_eq_refl k, lookup-insert_new_self k d ts)

  lookup-insert_new_ne :
      (k j : Text) (d : McpToolDescriptor Value) (ts : Tools Value)
      → k ≢ j
      → lookup j (insert_new k d ts) ≡ lookup j ts
  unfolding lookup insert_new
  lookup-insert_new_ne k j d [] n = rw (text_eq_ne k j n) refl
  lookup-insert_new_ne k j d ((i, e) ∷ ts) n =
      ground (arith, text_eq_ne k j n, lookup-insert_new_ne k j d ts n)

  -- The laws of a map.
  lookup-insert :
      (k j : Text) (d : McpToolDescriptor Value) (ts : Tools Value)
      → lookup j (insert k d ts) ≡ (if text_eq k j then some d else lookup j ts)
  unfolding insert
  lookup-insert k j d ts = elim (Bool-cases (text_eq k j)) [
    | inl q ↦
        let s : k ≡ j = (text_eq_iff k j).0 q in
        rw (q, sym s)
          (elim (Bool-cases (contains_key k ts)) [
            | inl c ↦ rw c (lookup-update_self k d ts c)
            | inr c ↦ rw c (lookup-insert_new_self k d ts c)
          ])
    | inr q ↦
        let n : k ≢ j = λ s. cc ((text_eq_iff k j).1 s) in
        rw q (elim (Bool-cases (contains_key k ts)) [
          | inl c ↦ rw c (lookup-update_ne k j d ts n)
          | inr c ↦ rw c (lookup-insert_new_ne k j d ts n)
        ])
  ]

  -- The last of the descriptors with the name, or else the old one.
  abbrev pub latest :
      Text
      → List (McpToolDescriptor Value)
      → Option (McpToolDescriptor Value)
      → Option (McpToolDescriptor Value)
  latest k [] o = o
  latest k (d ∷ ds) o = latest k ds (if text_eq d.name k then some d else o)

  length-insert :
      (k : Text) (d : McpToolDescriptor Value) (ts : Tools Value)
      → length (insert k d ts) ≤ suc (length ts)
  unfolding insert
  length-insert k d ts = ground (arith, length-update k d ts, length-insert_new k d ts)

  -- Where there is room for all, a merge gives every name its last incoming descriptor, and leaves
  -- each other name as it was.
  pub lookup-merge :
      (ds : List (McpToolDescriptor Value)) (ts : Tools Value) (k : Text)
      → length ts + length ds ≤ max_cached_tools
      → lookup k (merge ds ts) ≡ latest k ds (lookup k ts)
  unfolding merge
  lookup-merge [] ts k l = refl
  lookup-merge (d ∷ ds) ts k l =
      let room : leb max_cached_tools (length ts) ≡ false = ground arith in
      let step = length-insert d.name d ts in
      rw room (
        lookup-merge ds (insert d.name d ts) k (omega arith)
        ∙ ap (λ o. latest k ds o) (lookup-insert d.name k d ts))

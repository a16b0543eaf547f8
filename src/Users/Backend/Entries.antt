-- ===== src/Users/Backend/Entries.antt =====
-- About the entries of the store of the users, capsules/capsule-users/src/store.rs.
use unicity_aos.Base.{
  ◌≡◌, ◌≢◌, refl, sym, ap, ◌∙◌, true, none, some, [], ◌∷◌, arith, inl, inr, All, if-cases,
  Bool-cases,
}
use unicity_aos.Base.Text.{
  Text, text_eq, text_eq_iff, text_eq_ne, text_eq_refl, starts_with, has_text,
}
use unicity_aos.Users.Backend.{Kv, lookup, without, keys_under, read, not_blank}

lookup-without_self : (k : Text) (kv : Kv) → lookup k (without k kv) ≡ none
unfolding lookup without
lookup-without_self k [] = refl
lookup-without_self k ((j, v) ∷ kv) = ground (arith, lookup-without_self k kv)

lookup-without_ne : (k j : Text) (kv : Kv) → k ≢ j → lookup j (without k kv) ≡ lookup j kv
unfolding lookup without
lookup-without_ne k j [] n = refl
lookup-without_ne k j ((i, v) ∷ kv) n = elim (Bool-cases (text_eq i k)) [
  | inl q ↦
      let other : i ≢ j = λ e. n (sym ((text_eq_iff i k).0 q) ∙ e) in
      rw (q, text_eq_ne i j other) (lookup-without_ne k j kv n)
  | inr q ↦ ground (arith, q, lookup-without_ne k j kv n)
]

pub read-without_self : (k : Text) (kv : Kv) → read k (without k kv) ≡ none
unfolding read
read-without_self k kv = rw (lookup-without_self k kv) refl

pub read-without_ne : (k j : Text) (kv : Kv) → k ≢ j → read j (without k kv) ≡ read j kv
unfolding read
read-without_ne k j kv n = ap not_blank (lookup-without_ne k j kv n)

pub read-set_self : (k v : Text) (kv : Kv) → read k ((k, v) ∷ without k kv) ≡ not_blank (some v)
unfolding read lookup
read-set_self k v kv = rw (text_eq_refl k) refl

pub read-set_ne : (k j v : Text) (kv : Kv) → k ≢ j → read j ((k, v) ∷ without k kv) ≡ read j kv
unfolding read lookup
read-set_ne k j v kv n = rw (text_eq_ne k j n) (ap not_blank (lookup-without_ne k j kv n))

-- Every key that is listed has the prefix.
pub All-keys_under :
    (prefix : Text) (kv : Kv) → All (λ k. starts_with k prefix ≡ true) (keys_under prefix kv)
unfolding keys_under
All-keys_under prefix [] = tt
All-keys_under prefix ((j, v) ∷ kv) =
    if-cases (All (λ k. starts_with k prefix ≡ true)) (starts_with j prefix)
      (λ e. (e, All-keys_under prefix kv)) (λ _. All-keys_under prefix kv)

-- Every key with a value and the prefix is listed.
pub keys_under_has :
    (prefix k : Text) (kv : Kv)
    → starts_with k prefix ≡ true
    → read k kv ≢ none
    → has_text (keys_under prefix kv) k ≡ true
unfolding keys_under has_text read lookup
keys_under_has prefix k [] s n = absurd (n refl)
keys_under_has prefix k ((j, v) ∷ kv) s n = elim (Bool-cases (text_eq j k)) [
  | inl q ↦
      let same : j ≡ k = (text_eq_iff j k).0 q in
      let listed : starts_with j prefix ≡ true = rw same s in ground (arith, listed, q)
  | inr q ↦ ground (arith, q, keys_under_has prefix k kv s)
]

-- ===== src/Users/Owners/Cascades.antt =====
-- About the deletions of overlays and of names (capsules/capsule-users/src/store.rs).
use unicity_aos.Base.{
  ℕ, ◌≡◌, true, false, Option, none, some, List, [], ◌∷◌, arith, All, refl, ◌==◌,
}
use unicity_aos.Base.Text.{Text, starts_with, trim}
use unicity_aos.Users.Types.{Uuid, Libs}
use unicity_aos.Users.Backend.{Kv, Faults, without, keys_under}
use unicity_aos.Users.Backend.Entries.{All-keys_under}
use unicity_aos.Users.Backend.Runs.{
  Runs, Runs-pure, Runs-bind, Runs-when, Runs-get, Runs-delete, Runs-list_keys,
}
use unicity_aos.Users.Backend.Runs.Consequence.{Runs-given}
use unicity_aos.Users.Store.Keys.{
  user_family, link_family, name_key, ends_with, context_prefix_for_link_bucket, joined,
}
use unicity_aos.Users.Store.Accounts.{clear_name, points_at}
use unicity_aos.Users.Store.Links.{Triple, delete_with_suffix, delete_overlays, drop_overlays}

-- A key that starts otherwise is not in the family of users.
pub no_user_of_prefix :
    (k : Text) (c : ℕ) (p : Text)
    → starts_with k (c ∷ p) ≡ true
    → (c == b'u') ≡ false
    → starts_with k user_family ≡ false
unfolding starts_with
no_user_of_prefix [] c p s n = refl
no_user_of_prefix (d ∷ k) c p s n = ground arith

no_link_of_prefix :
    (k p : Text) → starts_with k (b'c' ∷ p) ≡ true → starts_with k link_family ≡ false
unfolding starts_with
no_link_of_prefix [] p s = refl
no_link_of_prefix (d ∷ k) p s = ground arith

pub no_user_of_All :
    (c : ℕ) (p : Text) (ks : List Text)
    → (c == b'u') ≡ false
    → All (λ k. starts_with k (c ∷ p) ≡ true) ks
    → All (λ k. starts_with k user_family ≡ false) ks
no_user_of_All c p [] n a = tt
no_user_of_All c p (k ∷ ks) n (s, a) = (no_user_of_prefix k c p s n, no_user_of_All c p ks n a)

-- A key of no user and of no link.
abbrev pub IsOutside : Text → Type 0
IsOutside k = (starts_with k user_family ≡ false) × (starts_with k link_family ≡ false)

All-IsOutside :
    (p : Text) (ks : List Text) → All (λ k. starts_with k (b'c' ∷ p) ≡ true) ks → All IsOutside ks
All-IsOutside p [] a = tt
All-IsOutside p (k ∷ ks) (s, a) =
    ((no_user_of_prefix k b'c' p s refl, no_link_of_prefix k p s), All-IsOutside p ks a)

pub name_key-IsOutside : (name : Text) → IsOutside (name_key name)
unfolding name_key starts_with
name_key-IsOutside name = (refl, refl)

bucket_keys :
    (platform : Text) (inst : Option Text) (kv : Kv)
    → All IsOutside (keys_under (context_prefix_for_link_bucket platform inst) kv)
unfolding context_prefix_for_link_bucket joined
bucket_keys platform inst kv =
    All-IsOutside _ _ (All-keys_under (context_prefix_for_link_bucket platform inst) kv)

module _ {P E : Kv → Type 0} (libs : Libs) (f : Faults) (stop : (kv : Kv) → P kv → E kv)
    (shrinks : (k : Text) (kv : Kv) → IsOutside k → P kv → P (without k kv)) where
  pub delete_with_suffix-Runs :
      (suffix : Text) (ks : List Text)
      → All IsOutside ks
      → Runs P (delete_with_suffix libs f suffix ks) (λ _. P) E
  unfolding delete_with_suffix
  delete_with_suffix-Runs suffix [] a = Runs-pure tt (λ kv p. p)
  delete_with_suffix-Runs suffix (k ∷ ks) (n, a) =
      Runs-bind
        (Runs-when (ends_with k suffix) (λ _. Runs-delete f stop k (λ kv p. shrinks k kv n p))
          (λ _ kv p. p))
        (λ _. delete_with_suffix-Runs suffix ks a)

  pub delete_overlays-Runs :
      (platform : Text) (inst : Option Text) (user : Text)
      → Runs P (delete_overlays libs f platform inst user) (λ _. P) E
  unfolding delete_overlays
  delete_overlays-Runs platform inst user =
      Runs-bind
        (Runs-list_keys f stop {Q = λ ks kv. P kv × All IsOutside ks}
          (context_prefix_for_link_bucket platform inst)
          (λ kv p. (p, bucket_keys platform inst kv)))
        (λ ks. Runs-given (delete_with_suffix-Runs (b'/' ∷ user) ks))

  pub drop_overlays-Runs : (ts : List Triple) → Runs P (drop_overlays libs f ts) (λ _. P) E
  unfolding drop_overlays
  drop_overlays-Runs [] = Runs-pure tt (λ kv p. p)
  drop_overlays-Runs (t ∷ ts) =
      Runs-bind (delete_overlays-Runs t.platform t.platform_instance t.platform_user_id)
        (λ _. drop_overlays-Runs ts)

  pub clear_name-Runs :
      (id : Uuid) (name : Option Text) → Runs P (clear_name libs f id name) (λ _. P) E
  unfolding clear_name
  clear_name-Runs id none = Runs-pure tt (λ kv p. p)
  clear_name-Runs id (some name) =
      Runs-bind {R = λ _. P} (Runs-get f stop (name_key (trim name)) (λ kv p. p)) (λ bytes.
        Runs-when (points_at bytes (libs.uuid_text id))
          (λ _.
            Runs-delete f stop (name_key (trim name))
              (λ kv p. shrinks _ kv (name_key-IsOutside (trim name)) p))
          (λ _ kv p. p))

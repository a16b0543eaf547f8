-- ===== src/Users/Overlays.antt =====
-- About the overlays of a link that is removed (capsules/capsule-users/src/store.rs).
use mathlib.Core.List.{append_assoc}
use unicity_aos.Base.{
  ◌≡◌, ◌≢◌, refl, sym, ap, ◌∙◌, subst, true, false, Option, none, some, List, [], ◌∷◌, ◌++◌, codes,
  arith, Bool-cases, Option-cases, inl, inr,
}
use unicity_aos.Base.Text.{Text, text_eq, text_eq_iff, text_eq_refl, starts_with, has_text}
use unicity_aos.Base.Result.{ok}
use unicity_aos.Users.Types.{Libs, normalize_platform}
use unicity_aos.Users.Backend.{Kv, Faults, without, read, delete, when, ◌>>◌}
use unicity_aos.Users.Backend.Entries.{keys_under_has, read-without_self, read-without_ne}
use unicity_aos.Users.Backend.Runs.{
  Runs, Runs-pure, Runs-bind, Runs-when, Runs-lift, Runs-get, Runs-delete, Runs-list_keys,
}
use unicity_aos.Users.Backend.Runs.Consequence.{Runs-strengthen, Post_ok}
use unicity_aos.Users.Store.Keys.{
  joined, instance_segment, context_key, context_prefix_for_link_bucket, ends_with, link_key,
}
use unicity_aos.Users.Store.Links.{delete_with_suffix, delete_overlays, is_some, unlink}
use unicity_aos.Users.Owners.Writes.{text_cases}

starts_with-append : (s t : Text) → starts_with (s ++ t) s ≡ true
unfolding starts_with
starts_with-append [] [] = refl
starts_with-append [] (c ∷ t) = refl
starts_with-append (c ∷ s) t = ground (arith, starts_with-append s t)

ends_with-append : (s t : Text) → ends_with (s ++ t) t ≡ true
unfolding ends_with
ends_with-append [] [] = text_eq_refl []
ends_with-append [] (c ∷ t) = rw (text_eq_refl (c ∷ t)) refl
ends_with-append (c ∷ s) t = elim (Bool-cases (text_eq (c ∷ (s ++ t)) t)) [
  | inl q ↦ rw q refl
  | inr q ↦ rw q (ends_with-append s t)
]

joined-append : (parts : List Text) (x : Text) → joined parts x ≡ joined parts [] ++ x
unfolding joined
joined-append [] x = refl
joined-append (s ∷ parts) x =
    ap (λ t. s ++ (b'/' ∷ t)) (joined-append parts x)
    ∙ sym (append_assoc s (b'/' ∷ joined parts []) x)

context_key_starts :
    (p : Text) (i : Option Text) (c u : Text)
    → starts_with (context_key p i c u) (context_prefix_for_link_bucket p i) ≡ true
unfolding context_key context_prefix_for_link_bucket joined
context_key_starts p i c u =
    let parts = codes "context" ∷ p ∷ instance_segment i ∷ [] in
    subst (λ k. starts_with k (joined parts []) ≡ true)
      (sym (joined-append parts (c ++ (b'/' ∷ u))))
      (starts_with-append (joined parts []) (c ++ (b'/' ∷ u)))

context_key_ends :
    (p : Text) (i : Option Text) (c u : Text) → ends_with (context_key p i c u) (b'/' ∷ u) ≡ true
unfolding context_key joined
context_key_ends p i c u =
    let parts = codes "context" ∷ p ∷ instance_segment i ∷ [] in
    let split =
      joined-append parts (c ++ (b'/' ∷ u)) ∙ sym (append_assoc (joined parts []) c (b'/' ∷ u)) in
    subst (λ k. ends_with k (b'/' ∷ u) ≡ true) (sym split)
      (ends_with-append (joined parts [] ++ c) (b'/' ∷ u))

module _ (libs : Libs) (f : Faults) (platform : Text) (inst : Option Text) (user : Text) where
  -- The overlays of the link are among the keys that are left to look at.
  abbrev IsLeft : List Text → Kv → Type 0
  IsLeft ks kv =
      (j : Text)
      → starts_with j (context_prefix_for_link_bucket platform inst) ≡ true
      → ends_with j (b'/' ∷ user) ≡ true
      → read j kv ≢ none
      → has_text ks j ≡ true

  deleted : (k : Text) (ks : List Text) (kv : Kv) → IsLeft (k ∷ ks) kv → IsLeft ks (without k kv)
  unfolding has_text
  deleted k ks kv h j s e n = elim (text_cases k j) [
    | inl q ↦ absurd (n (subst (λ i. read i (without k kv) ≡ none) q (read-without_self k kv)))
    | inr other ↦
        let there = h j s e (λ r. n (read-without_ne k j kv other ∙ r)) in
        ground (arith, there, text_eq_iff k j, other)
  ]

  passed :
      (k : Text) (ks : List Text) (kv : Kv)
      → ends_with k (b'/' ∷ user) ≡ false
      → IsLeft (k ∷ ks) kv
      → IsLeft ks kv
  unfolding has_text
  passed k ks kv m h j s e n = elim (text_cases k j) [
    | inl q ↦ absurd (cc (m, subst (λ i. ends_with i (b'/' ∷ user) ≡ true) (sym q) e))
    | inr other ↦ let there = h j s e n in ground (arith, there, text_eq_iff k j, other)
  ]

  sweep :
      (ks : List Text)
      → Runs (IsLeft ks) (delete_with_suffix libs f (b'/' ∷ user) ks) (λ _. IsLeft []) (λ _. Unit)
  unfolding delete_with_suffix
  sweep [] = Runs-pure tt (λ kv h. h)
  sweep (k ∷ ks) =
      Runs-bind
        (Runs-when (ends_with k (b'/' ∷ user))
          (λ _. Runs-delete f (λ kv h. tt) {Q = IsLeft ks} k (λ kv h. deleted k ks kv h))
          (λ n kv h. passed k ks kv n h))
        (λ _. sweep ks)

  -- No overlay of the link has a value.
  abbrev IsCleared : Kv → Type 0
  IsCleared kv = (context_id : Text) → read (context_key platform inst context_id user) kv ≡ none

  none_left : (kv : Kv) → IsLeft [] kv → IsCleared kv
  unfolding has_text
  none_left kv h c = elim (Option-cases (read (context_key platform inst c user) kv)) [
    | inl q ↦ q
    | inr (v, q) ↦
        let found : read (context_key platform inst c user) kv ≢ none = λ e. cc (e, q) in
        absurd (
          cc (
            h _ (context_key_starts platform inst c user) (context_key_ends platform inst c user)
              found))
  ]

  delete_overlays_clears :
      Runs (λ _. Unit) (delete_overlays libs f platform inst user) (λ _. IsCleared) (λ _. Unit)
  unfolding delete_overlays
  delete_overlays_clears =
      Runs-bind
        (Runs-list_keys f (λ kv h. tt) {Q = IsLeft} (context_prefix_for_link_bucket platform inst)
          (λ kv h j s e n. keys_under_has _ j kv s n))
        (λ ks. Runs-strengthen (λ a kv h. none_left kv h) (sweep ks))

  clear_link :
      (found : Option Text)
      → Runs
          (λ _. Unit)
          (when
            (is_some found)
            (delete_overlays libs f platform inst user >> delete f (link_key platform inst user)))
          (λ _ kv.
            is_some found ≡ true → IsCleared kv × (read (link_key platform inst user) kv ≡ none))
          (λ _. Unit)
  clear_link none = Runs-pure tt (λ kv h e. absurd (cc e))
  clear_link (some b) =
      Runs-bind delete_overlays_clears
        (λ _. Runs-delete f (λ kv h. tt) _ (λ kv h _. (shrunk kv h, read-without_self _ kv)))
    where
      shrunk : (kv : Kv) → IsCleared kv → IsCleared (without (link_key platform inst user) kv)
      shrunk kv h c =
          elim (text_cases (link_key platform inst user) (context_key platform inst c user)) [
            | inl q ↦
                subst (λ k. read k (without (link_key platform inst user) kv) ≡ none) q
                  (read-without_self _ kv)
            | inr n ↦ read-without_ne _ _ kv n ∙ h c
          ]

unlink-Runs :
    (libs : Libs) (f : Faults) (platform : Text) (inst : Option Text) (user : Text)
    → Runs
        (λ _. Unit)
        (unlink libs f platform inst user)
        (λ r kv.
          r ≡ true
          → ((context_id : Text)
              → read (context_key (normalize_platform platform) inst context_id user) kv ≡ none)
            × (read (link_key (normalize_platform platform) inst user) kv ≡ none))
        (λ _. Unit)
unfolding unlink
unlink-Runs libs f platform inst user =
    Runs-bind {R = λ _ _. Unit} (Runs-lift _ (λ kv h. tt) (λ a e kv h. tt)) (λ _.
      Runs-bind {R = λ _ _. Unit} (Runs-get f (λ kv h. tt) _ (λ kv h. tt)) (λ found.
        Runs-bind (clear_link libs f _ inst user found)
          (λ _. Runs-pure (is_some found) (λ kv h. h))))

-- Where unlink returns true, the link has gone, and with it its overlay in every context.
pub unlink_clears :
    (libs : Libs) (f : Faults) (platform : Text) (inst : Option Text) (user : Text) (kv : Kv)
    → (unlink libs f platform inst user kv).0 ≡ ok true
    → (read
          (link_key (normalize_platform platform) inst user)
          (unlink libs f platform inst user kv).1
        ≡ none)
      × ((context_id : Text)
          → read
              (context_key (normalize_platform platform) inst context_id user)
              (unlink libs f platform inst user kv).1
            ≡ none)
unlink_clears libs f platform inst user kv e =
    let (a, b) = Post_ok _ _ _ _ true e ((unlink-Runs libs f platform inst user).at kv tt) refl in
    (b, a)

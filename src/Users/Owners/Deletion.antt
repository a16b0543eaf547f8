-- ===== src/Users/Owners/Deletion.antt =====
-- About the deletion of a user with its links (capsules/capsule-users/src/store.rs).
use unicity_aos.Base.{
  ◌≡◌, true, false, Option, none, some, List, [], ◌∷◌, ◌++◌, arith, sym, refl, Bool-cases, inl, inr,
  ap, All, subst,
}
use unicity_aos.Base.Text.{Text, text_eq, text_eq_iff, starts_with, has_text}
use unicity_aos.Base.Result.{ok}
use unicity_aos.Users.Types.{AreLawful, uuid_text-injective, Uuid, Libs, AstridUser, FrontendLink}
use unicity_aos.Users.Backend.{Kv, Faults, without, read, keys_under}
use unicity_aos.Users.Backend.Entries.{All-keys_under, keys_under_has, read-without_self}
use unicity_aos.Users.Backend.Runs.{
  Runs, Runs-pure, Runs-bind, Runs-delete, Runs-get_json, Runs-list_keys, record_at, parse_or_none,
}
use unicity_aos.Users.Backend.Runs.Consequence.{
  Runs-given, Runs-cases, Runs-weaken, Runs-strengthen, Post_ok,
}
use unicity_aos.Users.Store.Keys.{user_family, link_family, user_key}
use unicity_aos.Users.Store.Accounts.{get_user}
use unicity_aos.Users.Store.Links.{
  owned_by, get_link, drop_owned, drop_links, delete_known, delete_user, delete_found, triple_of,
}
use unicity_aos.Users.Owners.{HasLink, LinksResolve, IsUnlinked}
use unicity_aos.Users.Owners.Writes.{
  HasLink-without, without-LinksResolve, without-IsUnlinked, without_user-LinksResolve,
}
use unicity_aos.Users.Owners.Cascades.{
  IsOutside, no_user_of_All, drop_overlays-Runs, clear_name-Runs,
}

module _ (libs : Libs) (f : Faults) (id : Uuid) where
  -- The links of the user are among the keys that are left to look at.
  record IsSwept (ks : List Text) (kv : Kv) : Type 0 where
    pub resolves : LinksResolve libs kv
    pub among :
        (k : Text) (l : FrontendLink)
        → HasLink libs k l kv
        → owned_by id (some l) ≡ true
        → has_text ks k ≡ true

  -- A key that has no link of this user is not missed.
  pass_key :
      (k : Text) (ks : List Text) (kv : Kv)
      → ((l : FrontendLink) → HasLink libs k l kv → owned_by id (some l) ≡ false)
      → IsSwept (k ∷ ks) kv
      → IsSwept ks kv
  unfolding has_text
  pass_key k ks kv n h = record {
    resolves = h.resolves;
    among = λ j l has o. elim (Bool-cases (text_eq k j)) [
      | inl q ↦
          let same : k ≡ j = (text_eq_iff k j).0 q in
          absurd (cc (o, n l (subst (λ i. HasLink libs i l kv) (sym same) has)))
      | inr q ↦ ground (arith, q, h.among j l has o)
    ];
  }

  drop_key :
      (k : Text) (ks : List Text) (kv : Kv)
      → starts_with k user_family ≡ false
      → IsSwept (k ∷ ks) kv
      → IsSwept ks (without k kv)
  unfolding has_text
  drop_key k ks kv n h = record {
    resolves = without-LinksResolve libs k kv n h.resolves;
    among = λ j l has o.
        let (had, other) = HasLink-without libs k j l kv has in
        ground (arith, h.among j l had o, text_eq_iff k j, other);
  }

  drop_owned-Runs :
      (k : Text) (ks : List Text) (found : Option FrontendLink)
      → starts_with k user_family ≡ false
      → Runs
          (λ kv. IsSwept (k ∷ ks) kv × (found ≡ record_at libs.link_json k kv))
          (drop_owned libs f id k found)
          (λ _. IsSwept ks)
          (LinksResolve libs)
  unfolding drop_owned
  drop_owned-Runs k ks none n =
      Runs-pure [] (λ kv (h, e). pass_key k ks kv (λ l (s, r). cc (e, r)) h)
  drop_owned-Runs k ks (some l) n =
      Runs-cases (owned_by id (some l))
        (λ o.
          Runs-bind
            (Runs-delete f (λ kv (h, e). h.resolves) {Q = IsSwept ks} k
              (λ kv (h, e). drop_key k ks kv n h))
            (λ _. Runs-pure (triple_of l ∷ []) (λ kv h. h)))
        (λ o. Runs-pure [] (λ kv (h, e).
          pass_key k ks kv
            (λ m (s, r).
              let same : l ≡ m = cc (e, r) in subst (λ x. owned_by id (some x) ≡ false) same o)
            h))

  drop_links-Runs :
      (ks : List Text)
      → All (λ k. starts_with k user_family ≡ false) ks
      → Runs (IsSwept ks) (drop_links libs f id ks) (λ _. IsSwept []) (LinksResolve libs)
  unfolding drop_links get_link
  drop_links-Runs [] a = Runs-pure [] (λ kv h. h)
  drop_links-Runs (k ∷ ks) (n, a) =
      Runs-bind
        (Runs-get_json f (λ kv h. h.resolves) libs.link_json
          {Q = λ found kv. IsSwept (k ∷ ks) kv × (found ≡ record_at libs.link_json k kv)} k
          (λ kv h. (h, refl)))
        (λ found.
          Runs-bind (drop_owned-Runs k ks found n) (λ mine.
            Runs-bind (drop_links-Runs ks a) (λ rest. Runs-pure (mine ++ rest) (λ kv h. h))))

  unlinked : (kv : Kv) → IsSwept [] kv → LinksResolve libs kv × IsUnlinked libs id kv
  unfolding has_text
  unlinked kv h = (
    h.resolves,
    λ k l has. elim (Bool-cases (owned_by id (some l))) [
      | inl q ↦ absurd (cc (h.among k l has q))
      | inr q ↦ q
    ],
  )

  all-IsSwept : (kv : Kv) → LinksResolve libs kv → IsSwept (keys_under link_family kv) kv
  unfolding record_at
  all-IsSwept kv h = record {
    resolves = h;
    among = λ k l (s, r) _.
        keys_under_has link_family k kv s (λ e. cc (ap (parse_or_none libs.link_json) e, r));
  }

  abbrev pub IsGone : Kv → Type 0
  IsGone kv = IsUnlinked libs id kv × (read (user_key libs.uuid_text id) kv ≡ none)

  delete_known-Runs :
      ((a b : Uuid) → libs.uuid_text a ≡ libs.uuid_text b → a ≡ b)
      → (user : AstridUser)
      → Runs
          (LinksResolve libs)
          (delete_known libs f id user)
          (λ r kv. LinksResolve libs kv × IsGone kv)
          (LinksResolve libs)
  unfolding delete_known
  delete_known-Runs injective user =
      Runs-bind
        (Runs-list_keys f (λ kv h. h)
          {Q = λ ks kv. IsSwept ks kv × All (λ k. starts_with k user_family ≡ false) ks} link_family
          (λ kv h.
            (all-IsSwept kv h, no_user_of_All b'l' _ _ refl (All-keys_under link_family kv))))
        (λ ks. Runs-given (λ a. Runs-bind (drop_links-Runs ks a) (λ affected. Runs-weaken unlinked (
          Runs-bind (drop_overlays-Runs libs f stop shrinks affected) (λ _.
            Runs-bind (clear_name-Runs libs f stop shrinks id user.display_name) (λ _.
              Runs-bind {R = λ _ kv. LinksResolve libs kv × IsGone kv}
                (Runs-delete f stop (user_key libs.uuid_text id) gone)
                (λ _. Runs-pure true (λ kv h. h))))))))
    where
      stop : (kv : Kv) → LinksResolve libs kv × IsUnlinked libs id kv → LinksResolve libs kv
      stop kv (h, free) = h

      shrinks :
          (k : Text) (kv : Kv)
          → IsOutside k
          → LinksResolve libs kv × IsUnlinked libs id kv
          → LinksResolve libs (without k kv) × IsUnlinked libs id (without k kv)
      shrinks k kv (n, _) (h, free) =
          (without-LinksResolve libs k kv n h, without-IsUnlinked libs id k kv free)

      gone :
          (kv : Kv)
          → LinksResolve libs kv × IsUnlinked libs id kv
          → LinksResolve libs (without (user_key libs.uuid_text id) kv)
            × IsGone (without (user_key libs.uuid_text id) kv)
      gone kv (h, free) = (
        without_user-LinksResolve libs injective id kv free h,
        (
          without-IsUnlinked libs id (user_key libs.uuid_text id) kv free,
          read-without_self (user_key libs.uuid_text id) kv,
        ),
      )

  pub delete_user-Runs :
      ((a b : Uuid) → libs.uuid_text a ≡ libs.uuid_text b → a ≡ b)
      → Runs
          (LinksResolve libs)
          (delete_user libs f id)
          (λ r kv. LinksResolve libs kv × (r ≡ true → IsGone kv))
          (LinksResolve libs)
  unfolding delete_user get_user
  delete_user-Runs injective =
      Runs-bind
        (Runs-get_json f (λ kv h. h) libs.user_json {Q = λ _. LinksResolve libs}
          (user_key libs.uuid_text id) (λ kv h. h))
        found-Runs
    where
      found-Runs :
          (found : Option AstridUser)
          → Runs
              (LinksResolve libs)
              (delete_found libs f id found)
              (λ r kv. LinksResolve libs kv × (r ≡ true → IsGone kv))
              (LinksResolve libs)
      found-Runs none = Runs-pure false (λ kv h. (h, λ e. absurd (cc e)))
      found-Runs (some user) =
          Runs-strengthen (λ r kv (h, g). (h, λ _. g)) (delete_known-Runs injective user)

  -- Where the libraries read back what they write and every link's user is stored: where the deletion
  -- of a user returns true, no link names the user, the user is not stored, and every link's user
  -- still is.
  pub delete_user_clears :
      AreLawful libs
      → (kv : Kv) → LinksResolve libs kv
      → (delete_user libs f id kv).0 ≡ ok true
      → LinksResolve libs (delete_user libs f id kv).1 × IsGone (delete_user libs f id kv).1
  delete_user_clears lawful kv h e =
      let (kept, gone) =
        Post_ok _ _ _ _ true e ((delete_user-Runs (uuid_text-injective libs lawful)).at kv h) in
      (kept, gone refl)

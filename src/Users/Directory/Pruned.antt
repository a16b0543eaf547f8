-- ===== src/Users/Directory/Pruned.antt =====
-- About the links of other users when one is deleted (capsules/capsule-users/src/store.rs).
use unicity_aos.Base.{
  ◌≡◌, ◌⊎◌, refl, sym, ap, ◌∙◌, subst, true, false, Option, none, some, List, [], ◌∷◌, ◌++◌, inl,
  inr,
}
use unicity_aos.Base.Text.{Text, starts_with}
use unicity_aos.Users.Types.{Uuid, Libs, AstridUser, FrontendLink}
use unicity_aos.Users.Backend.{Kv, Faults, without}
use unicity_aos.Users.Backend.Runs.{
  Runs, Runs-pure, Runs-bind, Runs-delete, Runs-get_json, record_at,
}
use unicity_aos.Users.Backend.Runs.Keeps.{Keeps, Keeps-pure, Keeps-bind, Keeps-list_keys}
use unicity_aos.Users.Backend.Runs.Consequence.{Runs-cases}
use unicity_aos.Users.Store.Keys.{link_family, user_key}
use unicity_aos.Users.Store.Links.{
  owned_by, get_link, drop_owned, drop_links, delete_known, delete_user, delete_found, triple_of,
}
use unicity_aos.Users.Owners.{record_at-without_self, record_at-without_ne}
use unicity_aos.Users.Owners.Writes.{text_cases, family_ne, user_key_no_link}
use unicity_aos.Users.Owners.Cascades.{IsOutside, drop_overlays-Runs, clear_name-Runs}
use unicity_aos.Users.Owners.Reads.{get_user-Keeps}

module _ (libs : Libs) (f : Faults) (id : Uuid) (before : Kv) where
  -- Each link is as before, or it was this user's and has gone.
  abbrev pub IsPruned : Kv → Type 0
  IsPruned kv =
      (k : Text)
      → starts_with k link_family ≡ true
      → (record_at libs.link_json k kv ≡ record_at libs.link_json k before)
        ⊎ ((owned_by id (record_at libs.link_json k before) ≡ true)
            × (record_at libs.link_json k kv ≡ none))

  without_other-IsPruned :
      (j : Text) (kv : Kv)
      → starts_with j link_family ≡ false
      → IsPruned kv
      → IsPruned (without j kv)
  without_other-IsPruned j kv n h k s =
      subst
        (λ r.
          (r ≡ record_at libs.link_json k before)
          ⊎ ((owned_by id (record_at libs.link_json k before) ≡ true) × (r ≡ none)))
        (sym (record_at-without_ne libs.link_json j k kv (family_ne j k link_family n s))) (h k s)

  without_owned-IsPruned :
      (j : Text) (l : FrontendLink) (kv : Kv)
      → owned_by id (some l) ≡ true
      → some l ≡ record_at libs.link_json j kv
      → IsPruned kv
      → IsPruned (without j kv)
  without_owned-IsPruned j l kv o e h k s = elim (text_cases j k) [
    | inl q ↦ elim (h k s) [
      | inl same ↦
          let old : some l ≡ record_at libs.link_json k before =
            e ∙ ap (λ i. record_at libs.link_json i kv) q ∙ same in
          inr (
            subst (λ r. owned_by id r ≡ true) old o,
            subst (λ i. record_at libs.link_json i (without j kv) ≡ none) q
                (record_at-without_self libs.link_json j kv),
          )
      | inr (w, _) ↦ inr (
        w,
        subst (λ i. record_at libs.link_json i (without j kv) ≡ none) q
            (record_at-without_self libs.link_json j kv),
      )
    ]
    | inr n ↦
        subst
          (λ r.
            (r ≡ record_at libs.link_json k before)
            ⊎ ((owned_by id (record_at libs.link_json k before) ≡ true) × (r ≡ none)))
          (sym (record_at-without_ne libs.link_json j k kv n)) (h k s)
  ]

  drop_owned_prunes :
      (k : Text) (found : Option FrontendLink)
      → Runs
          (λ kv. IsPruned kv × (found ≡ record_at libs.link_json k kv))
          (drop_owned libs f id k found)
          (λ _. IsPruned)
          IsPruned
  unfolding drop_owned
  drop_owned_prunes k none = Runs-pure [] (λ kv (h, e). h)
  drop_owned_prunes k (some l) =
      Runs-cases (owned_by id (some l))
        (λ o.
          Runs-bind {R = λ _. IsPruned}
            (Runs-delete f (λ kv (h, e). h) k (λ kv (h, e). without_owned-IsPruned k l kv o e h))
            (λ _. Keeps-pure (triple_of l ∷ [])))
        (λ o. Runs-pure [] (λ kv (h, e). h))

  drop_links_prunes : (ks : List Text) → Keeps IsPruned (drop_links libs f id ks)
  unfolding drop_links get_link
  drop_links_prunes [] = Keeps-pure []
  drop_links_prunes (k ∷ ks) =
      Runs-bind
        (Runs-get_json f (λ kv h. h) libs.link_json
          {Q = λ found kv. IsPruned kv × (found ≡ record_at libs.link_json k kv)} k
          (λ kv h. (h, refl)))
        (λ found.
          Runs-bind {R = λ _. IsPruned} (drop_owned_prunes k found)
            (λ mine. Keeps-bind (drop_links_prunes ks) (λ rest. Keeps-pure (mine ++ rest))))

  drop_user_prunes : (user : AstridUser) → Keeps IsPruned (delete_known libs f id user)
  unfolding delete_known
  drop_user_prunes user = Keeps-bind (Keeps-list_keys f link_family) (λ ks.
      Keeps-bind (drop_links_prunes ks) (λ affected.
        Keeps-bind (drop_overlays-Runs libs f (λ kv h. h) shrinks affected) (λ _.
          Keeps-bind (clear_name-Runs libs f (λ kv h. h) shrinks id user.display_name) (λ _.
            Keeps-bind
              (Runs-delete f (λ kv h. h) (user_key libs.uuid_text id)
                (λ kv h. without_other-IsPruned _ kv (user_key_no_link libs.uuid_text id) h))
              (λ _. Keeps-pure true)))))
    where
      shrinks : (k : Text) (kv : Kv) → IsOutside k → IsPruned kv → IsPruned (without k kv)
      shrinks k kv (_, n) h = without_other-IsPruned k kv n h

  -- A deletion takes away no link of another user.
  pub delete_user_prunes : Keeps IsPruned (delete_user libs f id)
  unfolding delete_user
  delete_user_prunes = Keeps-bind (get_user-Keeps libs f id) found_prunes
    where
      found_prunes : (found : Option AstridUser) → Keeps IsPruned (delete_found libs f id found)
      found_prunes none = Keeps-pure false
      found_prunes (some user) = drop_user_prunes user

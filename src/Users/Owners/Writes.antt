-- ===== src/Users/Owners/Writes.antt =====
-- About single writes to the store of the users (capsules/capsule-users/src/store.rs).
use unicity_aos.Base.{
  ◌≡◌, ◌≢◌, ◌⊎◌, true, false, some, [], ◌∷◌, sym, ◌∙◌, refl, Bool-cases, inl, inr, ap, subst,
  ==_iff,
}
use unicity_aos.Base.Text.{Text, text_eq, text_eq_iff, starts_with, append_cancel_left}
use unicity_aos.Base.Result.{ok}
use unicity_aos.Users.Types.{Uuid, Libs, FrontendLink, IsLawful}
use unicity_aos.Users.Backend.{Kv, without}
use unicity_aos.Users.Backend.Entries.{read-without_ne, read-set_self, read-set_ne}
use unicity_aos.Users.Backend.Runs.{record_at}
use unicity_aos.Users.Store.Keys.{link_family, user_family, user_key}
use unicity_aos.Users.Store.Links.{is_some}
use unicity_aos.Users.Owners.{
  record_at-without_self, record_at-without_ne, record_at-set_ne, record_at-set_self, stored,
  HasLink, LinksResolve, IsUnlinked,
}

pub text_cases : (s t : Text) → (s ≡ t) ⊎ (s ≢ t)
text_cases s t = elim (Bool-cases (text_eq s t)) [
  | inl q ↦ inl ((text_eq_iff s t).0 q)
  | inr q ↦ inr (λ e. cc ((text_eq_iff s t).1 e))
]

pub family_ne : (k j p : Text) → starts_with k p ≡ false → starts_with j p ≡ true → k ≢ j
family_ne k j p a b e = cc (ap (λ t. starts_with t p) e)

pub user_key-family :
    (uuid_text : Uuid → Text) (id : Uuid) → starts_with (user_key uuid_text id) user_family ≡ true
unfolding user_key starts_with
user_key-family uuid_text id = refl

pub user_key_no_link :
    (uuid_text : Uuid → Text) (id : Uuid) → starts_with (user_key uuid_text id) link_family ≡ false
unfolding user_key starts_with
user_key_no_link uuid_text id = refl

module _ (libs : Libs) where
  stored-without_ne :
      (j : Text) (id : Uuid) (kv : Kv)
      → starts_with j user_family ≡ false
      → stored libs id (without j kv) ≡ stored libs id kv
  stored-without_ne j id kv n = ap is_some (
      read-without_ne j (user_key libs.uuid_text id) kv
        (family_ne j _ user_family n (user_key-family libs.uuid_text id)))

  -- A key that no longer has a value has no link.
  pub HasLink-without :
      (j k : Text) (l : FrontendLink) (kv : Kv)
      → HasLink libs k l (without j kv)
      → HasLink libs k l kv × (j ≢ k)
  HasLink-without j k l kv (s, e) = elim (text_cases j k) [
    | inl q ↦ absurd (
        cc (
          record_at-without_self libs.link_json k kv,
          subst (λ i. record_at libs.link_json k (without i kv) ≡ some l) q e,
        ))
    | inr n ↦ ((s, sym (record_at-without_ne libs.link_json j k kv n) ∙ e), n)
  ]

  -- Deleting a key outside the users keeps a user behind every link.
  pub without-LinksResolve :
      (j : Text) (kv : Kv)
      → starts_with j user_family ≡ false
      → LinksResolve libs kv
      → LinksResolve libs (without j kv)
  without-LinksResolve j kv n h = record {
    owner_stored = λ k l has.
        stored-without_ne j l.astrid_user_id kv n
        ∙ h.owner_stored k l (HasLink-without j k l kv has).0;
  }

  -- It keeps a user without links so.
  pub without-IsUnlinked :
      (id : Uuid) (j : Text) (kv : Kv) → IsUnlinked libs id kv → IsUnlinked libs id (without j kv)
  without-IsUnlinked id j kv h k l has = h k l (HasLink-without j k l kv has).0

  -- A user without links can go.
  pub without_user-LinksResolve :
      ((a b : Uuid) → libs.uuid_text a ≡ libs.uuid_text b → a ≡ b)
      → (id : Uuid) (kv : Kv) → IsUnlinked libs id kv
      → LinksResolve libs kv
      → LinksResolve libs (without (user_key libs.uuid_text id) kv)
  unfolding user_key
  without_user-LinksResolve injective id kv free h = record {
    owner_stored = λ k l has.
        let (had, _) = HasLink-without (user_key libs.uuid_text id) k l kv has in
        let other : user_key libs.uuid_text id ≢ user_key libs.uuid_text l.astrid_user_id = λ e.
          let same : id ≡ l.astrid_user_id =
            injective id l.astrid_user_id (append_cancel_left user_family _ _ e) in
          cc (free k l had, (==_iff l.astrid_user_id id).1 (sym same)) in
        ap is_some (read-without_ne (user_key libs.uuid_text id) _ kv other)
        ∙ h.owner_stored k l had;
  }

  stored-set :
      (j v : Text) (id : Uuid) (kv : Kv)
      → v ≢ []
      → stored libs id kv ≡ true
      → stored libs id ((j, v) ∷ without j kv) ≡ true
  stored-set j [] id kv full h = absurd (full refl)
  stored-set j (c ∷ v) id kv full h = elim (text_cases j (user_key libs.uuid_text id)) [
    | inl q ↦ rw (← q, read-set_self j (c ∷ v) kv) refl
    | inr other ↦ ap is_some (read-set_ne j (user_key libs.uuid_text id) (c ∷ v) kv other) ∙ h
  ]

  -- A value that reads as one, under a key that is no link's, keeps a user behind every link.
  pub set-LinksResolve :
      (j v : Text) (kv : Kv)
      → v ≢ []
      → starts_with j link_family ≡ false
      → LinksResolve libs kv
      → LinksResolve libs ((j, v) ∷ without j kv)
  set-LinksResolve j v kv full n h = record {
    owner_stored = λ k l (s, e).
        let other = family_ne j k link_family n s in
        let had =
          h.owner_stored k l (s, sym (record_at-set_ne libs.link_json j k v kv other) ∙ e) in
        stored-set j v l.astrid_user_id kv full had;
  }

  -- A link to a stored user, under a key that is no user's, does too.
  pub set_link-LinksResolve :
      IsLawful libs.link_json
      → (j b : Text) (l : FrontendLink) (kv : Kv) → libs.link_json.to_vec l ≡ ok b
      → starts_with j user_family ≡ false
      → stored libs l.astrid_user_id kv ≡ true
      → LinksResolve libs kv
      → LinksResolve libs ((j, b) ∷ without j kv)
  set_link-LinksResolve lawful j b l kv e n s h = record {
    owner_stored = λ k m (fam, r).
        stored-set j b m.astrid_user_id kv (lawful.not_empty l e) (elim (text_cases j k) [
          | inl q ↦
              let same : l ≡ m = cc (
                record_at-set_self libs.link_json lawful j b l kv e,
                subst (λ i. record_at libs.link_json i ((j, b) ∷ without j kv) ≡ some m) (sym q) r,
              ) in
              subst (λ x. stored libs x.astrid_user_id kv ≡ true) same s
          | inr other ↦
              h.owner_stored k m (fam, sym (record_at-set_ne libs.link_json j k b kv other) ∙ r)
        ]);
  }

  -- A value under a key of neither family keeps a user behind every link.
  pub set_other-LinksResolve :
      (j v : Text) (kv : Kv)
      → starts_with j link_family ≡ false
      → starts_with j user_family ≡ false
      → LinksResolve libs kv
      → LinksResolve libs ((j, v) ∷ without j kv)
  set_other-LinksResolve j v kv n m h = record {
    owner_stored = λ k l (s, e).
        let other = family_ne j k link_family n s in
        let had =
          h.owner_stored k l (s, sym (record_at-set_ne libs.link_json j k v kv other) ∙ e) in
        let user = user_key-family libs.uuid_text l.astrid_user_id in
        ap is_some (read-set_ne j _ v kv (family_ne j _ user_family m user)) ∙ had;
  }

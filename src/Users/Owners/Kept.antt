-- ===== src/Users/Owners/Kept.antt =====
-- About the operations that write, and any request (capsules/capsule-users/src/store.rs, lib.rs).
use unicity_aos.Base.{ℕ, ◌≡◌, refl, true, false, not, Option, none, some, List, sym, ap}
use unicity_aos.Base.Text.{Text, starts_with, trim, is_empty}
use unicity_aos.Users.Types.{
  Uuid, Libs, AstridUser, FrontendLink, ContextIdentity, AreLawful, StoreError,
}
use unicity_aos.Users.Backend.{Kv, delete, Faults, read, when, raise, pure, ◌>>◌}
use unicity_aos.Users.Backend.Runs.{
  Runs, Runs-pure, Runs-raise, Runs-bind, Runs-when, Runs-get_json, Runs-set, Runs-set_json,
  Runs-delete, record_at, parse_or_none,
}
use unicity_aos.Users.Backend.Runs.Keeps.{Keeps, Keeps-bind, Keeps-pure, Keeps-lift, keeps_rules}
use unicity_aos.Users.Store.Keys.{
  user_family, link_family, user_key, name_key, link_key, context_key, joined,
}
use unicity_aos.Users.Store.Records.{set_json}
use unicity_aos.Users.Store.Accounts.{
  get_user, index_name, clear_name, save_user, create_user, set_display_name, set_public_key,
}
use unicity_aos.Users.Store.Links.{is_some, link, unlink, delete_overlays}
use unicity_aos.Users.Store.Contexts.{set_context, clear_context}
use unicity_aos.Users.Owners.{stored, LinksResolve}
use unicity_aos.Users.Owners.Writes.{
  user_key_no_link, set-LinksResolve, set_other-LinksResolve, set_link-LinksResolve,
  without-LinksResolve,
}
use unicity_aos.Users.Owners.Cascades.{clear_name-Runs, delete_overlays-Runs}
use unicity_aos.Users.Owners.Reads.{get_user-Keeps, require_link_exists-Keeps}

link_key-family :
    (p : Text) (i : Option Text) (u : Text) → starts_with (link_key p i u) user_family ≡ false
unfolding link_key joined starts_with
link_key-family p i u = refl

pub context_key-family :
    (p : Text) (i : Option Text) (c u : Text)
    → (starts_with (context_key p i c u) user_family ≡ false)
      × (starts_with (context_key p i c u) link_family ≡ false)
unfolding context_key joined starts_with
context_key-family p i c u = (refl, refl)

module _ (libs : Libs) (lawful : AreLawful libs) (f : Faults) where
  set_user-Keeps :
      (id : Uuid) (user : AstridUser)
      → Keeps (LinksResolve libs) (set_json f libs.user_json (user_key libs.uuid_text id) user)
  set_user-Keeps id user =
      Runs-set_json f (λ kv h. h) libs.user_json (user_key libs.uuid_text id) user
        (λ b e kv h.
          set-LinksResolve libs _ b kv (lawful.user_lawful.not_empty user e)
            (user_key_no_link libs.uuid_text id) h)

  index_name-Keeps :
      (id : Uuid) (name : Option Text) → Keeps (LinksResolve libs) (index_name libs f id name)
  unfolding index_name name_key starts_with
  index_name-Keeps id none = Keeps-pure tt
  index_name-Keeps id (some name) =
      Runs-when (not (is_empty (trim name)))
        (λ _.
          Runs-set f (λ kv h. h) _ (libs.uuid_text id)
            (λ kv h. set_other-LinksResolve libs _ _ kv refl refl h))
        (λ _ kv h. h)

  clear_name-Keeps :
      (id : Uuid) (name : Option Text) → Keeps (LinksResolve libs) (clear_name libs f id name)
  clear_name-Keeps =
      clear_name-Runs libs f (λ kv h. h) (λ k kv (n, _) h. without-LinksResolve libs k kv n h)

  delete_other-Keeps :
      (k : Text) → starts_with k user_family ≡ false → Keeps (LinksResolve libs) (delete f k)
  delete_other-Keeps k n = Runs-delete f (λ kv h. h) k (λ kv h. without-LinksResolve libs k kv n h)

  pub create_user-Keeps :
      (fresh : Uuid) (now : Text) (name : Option Text)
      → Keeps (LinksResolve libs) (create_user libs f fresh now name)
  unfolding create_user save_user
  create_user-Keeps fresh now name = search (keeps_rules, set_user-Keeps, index_name-Keeps)

  pub set_display_name-Keeps :
      (id : Uuid) (name : Option Text) → Keeps (LinksResolve libs) (set_display_name libs f id name)
  unfolding set_display_name
  set_display_name-Keeps id name =
      search (keeps_rules, set_user-Keeps, index_name-Keeps, clear_name-Keeps, get_user-Keeps) depth
        9

  pub set_public_key-Keeps :
      (id : Uuid) (key : Option (List ℕ)) → Keeps (LinksResolve libs) (set_public_key libs f id key)
  unfolding set_public_key
  set_public_key-Keeps id key = search (keeps_rules, set_user-Keeps, get_user-Keeps)

  stored_of_record :
      (id : Uuid) (kv : Kv)
      → is_some (record_at libs.user_json (user_key libs.uuid_text id) kv) ≡ true
      → stored libs id kv ≡ true
  unfolding record_at
  stored_of_record id kv e = go (read (user_key libs.uuid_text id) kv) e
    where
      go : (o : Option Text) → is_some (parse_or_none libs.user_json o) ≡ true → is_some o ≡ true
      go none e = cc e
      go (some b) e = refl

  -- The check of `link` passes only where the user is stored.
  save_link-Keeps :
      (key : Text) (l : FrontendLink) (user : Option AstridUser)
      → starts_with key user_family ≡ false
      → Runs
          (λ kv.
            LinksResolve libs kv
            × (user ≡ record_at libs.user_json (user_key libs.uuid_text l.astrid_user_id) kv))
          (when (not (is_some user)) (raise (StoreError.user_not_found l.astrid_user_id))
            >> (set_json f libs.link_json key l >> pure l))
          (λ _. LinksResolve libs)
          (LinksResolve libs)
  save_link-Keeps key l none n =
      Runs-bind {R = λ _ _. false ≡ true} (Runs-raise _ (λ kv (h, e). h))
        (λ _. record { at = λ kv p. absurd (cc p) })
  save_link-Keeps key l (some user) n =
      Runs-bind {R = λ _ kv. LinksResolve libs kv × (stored libs l.astrid_user_id kv ≡ true)}
        (Runs-pure tt (λ kv (h, e). (h, stored_of_record l.astrid_user_id kv (sym (ap is_some e)))))
        (λ _.
          Runs-bind {R = λ _. LinksResolve libs}
            (Runs-set_json f (λ kv (h, s). h) libs.link_json key l
              (λ b e kv (h, s). set_link-LinksResolve libs lawful.link_lawful key b l kv e n s h))
            (λ _. Keeps-pure l))

  pub link-Keeps :
      (now p : Text) (i : Option Text) (u : Text) (id : Uuid) (method : Text) (name : Option Text)
      → Keeps (LinksResolve libs) (link libs f now p i u id method name)
  unfolding link get_user
  link-Keeps now p i u id method name = Keeps-bind (Keeps-lift _) (λ _.
      Keeps-bind (Keeps-lift _) (λ _.
        Runs-bind
          (Runs-get_json f (λ kv h. h) libs.user_json
            {Q = λ user kv.
              LinksResolve libs kv
              × (user ≡ record_at libs.user_json (user_key libs.uuid_text id) kv)}
            (user_key libs.uuid_text id) (λ kv h. (h, refl)))
          (λ user. save_link-Keeps _ _ user (link_key-family _ i u))))

  delete_overlays-Keeps :
      (p : Text) (i : Option Text) (u : Text)
      → Keeps (LinksResolve libs) (delete_overlays libs f p i u)
  delete_overlays-Keeps =
      delete_overlays-Runs libs f (λ kv h. h) (λ k kv (n, _) h. without-LinksResolve libs k kv n h)

  delete_link-Keeps :
      (p : Text) (i : Option Text) (u : Text)
      → Keeps (LinksResolve libs) (delete f (link_key p i u))
  delete_link-Keeps p i u = delete_other-Keeps _ (link_key-family p i u)

  pub unlink-Keeps :
      (p : Text) (i : Option Text) (u : Text) → Keeps (LinksResolve libs) (unlink libs f p i u)
  unfolding unlink
  unlink-Keeps p i u = search (keeps_rules, delete_overlays-Keeps, delete_link-Keeps) depth 9

  set_overlay-Keeps :
      (p : Text) (i : Option Text) (c u : Text) (overlay : ContextIdentity)
      → Keeps (LinksResolve libs) (set_json f libs.context_json (context_key p i c u) overlay)
  set_overlay-Keeps p i c u overlay =
      let (a, b) = context_key-family p i c u in
      Runs-set_json f (λ kv h. h) libs.context_json _ overlay
        (λ v e kv h. set_other-LinksResolve libs _ v kv b a h)

  pub set_context-Keeps :
      (now p : Text) (i : Option Text) (u c name : Text)
      → Keeps (LinksResolve libs) (set_context libs f now p i u c name)
  unfolding set_context
  set_context-Keeps now p i u c name =
      search (keeps_rules, require_link_exists-Keeps, set_overlay-Keeps) depth 9

  delete_overlay-Keeps :
      (p : Text) (i : Option Text) (c u : Text)
      → Keeps (LinksResolve libs) (delete f (context_key p i c u))
  delete_overlay-Keeps p i c u = delete_other-Keeps _ (context_key-family p i c u).0

  pub clear_context-Keeps :
      (p : Text) (i : Option Text) (u c : Text)
      → Keeps (LinksResolve libs) (clear_context libs f p i u c)
  unfolding clear_context
  clear_context-Keeps p i u c = search (keeps_rules, delete_overlay-Keeps) depth 9

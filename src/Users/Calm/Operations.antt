-- ===== src/Users/Calm/Operations.antt =====
-- About the operations of the identity store (capsules/capsule-users/src/store.rs): the operations on
-- users and links.
use unicity_aos.Base.{ℕ, Bool, true, false, Option, none, some, List, [], ◌∷◌}
use unicity_aos.Base.Text.{Text}
use unicity_aos.Users.Types.{Uuid, Libs, AstridUser, FrontendLink}
use unicity_aos.Users.Backend.{Exec, pure, delete, ◌>>◌, Faults}
use unicity_aos.Users.Store.Accounts.{
  get_user, index_name, clear_name, save_user, create_user, set_display_name, set_public_key,
}
use unicity_aos.Users.Store.Links.{
  get_link, overlay_at, resolve_link, validate_optional, resolve, link, delete_with_suffix,
  delete_overlays, unlink, links_of, list_links, owned_by, drop_owned, drop_links, drop_overlays,
  delete_known, delete_found, delete_user, Triple, triple_of,
}
use unicity_aos.Users.Calm.{Calm, calm_rules, Calm-pure, Calm-bind, Calm-get_json}

module _ (libs : Libs) (f : Faults) where
  pub get_user-Calm : (id : Uuid) → Calm (get_user libs f id)
  unfolding get_user
  get_user-Calm id = Calm-get_json f libs.user_json _

  pub get_link-Calm : (k : Text) → Calm (get_link libs f k)
  unfolding get_link
  get_link-Calm k = Calm-get_json f libs.link_json k

  index_name-Calm : (id : Uuid) (name : Option Text) → Calm (index_name libs f id name)
  unfolding index_name
  index_name-Calm id none = search calm_rules
  index_name-Calm id (some name) = search calm_rules

  clear_name-Calm : (id : Uuid) (name : Option Text) → Calm (clear_name libs f id name)
  unfolding clear_name
  clear_name-Calm id none = search calm_rules
  clear_name-Calm id (some name) = search calm_rules

  pub create_user-Calm :
      (fresh : Uuid) (now : Text) (name : Option Text) → Calm (create_user libs f fresh now name)
  unfolding create_user save_user
  create_user-Calm fresh now name = search (calm_rules, index_name-Calm) depth 9

  pub set_display_name-Calm :
      (id : Uuid) (name : Option Text) → Calm (set_display_name libs f id name)
  unfolding set_display_name
  set_display_name-Calm id name =
      search (calm_rules, index_name-Calm, clear_name-Calm, get_user-Calm) depth 12

  pub set_public_key-Calm :
      (id : Uuid) (key : Option (List ℕ)) → Calm (set_public_key libs f id key)
  unfolding set_public_key
  set_public_key-Calm id key = search (calm_rules, get_user-Calm) depth 9

  overlay_at-Calm :
      (p : Text) (i : Option Text) (u : Text) (c : Option Text) → Calm (overlay_at libs f p i u c)
  unfolding overlay_at
  overlay_at-Calm p i u none = search calm_rules
  overlay_at-Calm p i u (some c) = search calm_rules

  resolve_link-Calm :
      (p : Text) (i : Option Text) (u : Text) (c : Option Text) (l : Option FrontendLink)
      → Calm (resolve_link libs f p i u c l)
  unfolding resolve_link
  resolve_link-Calm p i u c none = search calm_rules
  resolve_link-Calm p i u c (some l) = search (calm_rules, overlay_at-Calm, get_user-Calm) depth 9

  validate_optional-Calm : (c : Option Text) → Calm (validate_optional libs f c)
  validate_optional-Calm none = search calm_rules
  validate_optional-Calm (some c) = search calm_rules

  pub resolve-Calm :
      (p : Text) (i : Option Text) (u : Text) (c : Option Text) → Calm (resolve libs f p i u c)
  unfolding resolve
  resolve-Calm p i u c =
      search (calm_rules, validate_optional-Calm, get_link-Calm, resolve_link-Calm) depth 9

  pub link-Calm :
      (now p : Text) (i : Option Text) (u : Text) (id : Uuid) (m : Text) (n : Option Text)
      → Calm (link libs f now p i u id m n)
  unfolding link
  link-Calm now p i u id m n = search (calm_rules, get_user-Calm) depth 12

  delete_with_suffix-Calm : (s : Text) (ks : List Text) → Calm (delete_with_suffix libs f s ks)
  unfolding delete_with_suffix
  delete_with_suffix-Calm s [] = search calm_rules
  delete_with_suffix-Calm s (k ∷ ks) = let rest = delete_with_suffix-Calm s ks in search calm_rules

  delete_overlays-Calm :
      (p : Text) (i : Option Text) (u : Text) → Calm (delete_overlays libs f p i u)
  unfolding delete_overlays
  delete_overlays-Calm p i u = search (calm_rules, delete_with_suffix-Calm)

  pub unlink-Calm : (p : Text) (i : Option Text) (u : Text) → Calm (unlink libs f p i u)
  unfolding unlink
  unlink-Calm p i u = search (calm_rules, delete_overlays-Calm) depth 12

  links_of-Calm : (id : Uuid) (ks : List Text) → Calm (links_of libs f id ks)
  unfolding links_of
  links_of-Calm id [] = search calm_rules
  links_of-Calm id (k ∷ ks) =
      Calm-bind (get_link-Calm k) (λ l. Calm-bind (links_of-Calm id ks) (λ r. Calm-pure _))

  pub list_links-Calm : (id : Uuid) → Calm (list_links libs f id)
  unfolding list_links
  list_links-Calm id = search (calm_rules, links_of-Calm)

  drop_owned-Calm :
      (id : Uuid) (k : Text) (l : Option FrontendLink) → Calm (drop_owned libs f id k l)
  unfolding drop_owned
  drop_owned-Calm id k none = search calm_rules
  drop_owned-Calm id k (some l) = go (owned_by id (some l))
    where
      go :
          (b : Bool)
          → Calm (elim b as (λ _. Exec (List Triple)) [
            | true ↦ (delete f k >> pure (triple_of l ∷ []))
            | false ↦ pure []
          ])
      go true = search calm_rules
      go false = search calm_rules

  drop_links-Calm : (id : Uuid) (ks : List Text) → Calm (drop_links libs f id ks)
  unfolding drop_links
  drop_links-Calm id [] = search calm_rules
  drop_links-Calm id (k ∷ ks) = Calm-bind (get_link-Calm k) (λ l.
      Calm-bind (drop_owned-Calm id k l)
        (λ mine. Calm-bind (drop_links-Calm id ks) (λ r. Calm-pure _)))

  drop_overlays-Calm : (ts : List Triple) → Calm (drop_overlays libs f ts)
  unfolding drop_overlays
  drop_overlays-Calm [] = search calm_rules
  drop_overlays-Calm (t ∷ ts) = Calm-bind (delete_overlays-Calm _ _ _) (λ _. drop_overlays-Calm ts)

  delete_found-Calm : (id : Uuid) (u : Option AstridUser) → Calm (delete_found libs f id u)
  unfolding delete_known
  delete_found-Calm id none = search calm_rules
  delete_found-Calm id (some u) =
      search (calm_rules, drop_links-Calm, drop_overlays-Calm, clear_name-Calm) depth 12

  pub delete_user-Calm : (id : Uuid) → Calm (delete_user libs f id)
  unfolding delete_user
  delete_user-Calm id = search (calm_rules, get_user-Calm, delete_found-Calm)

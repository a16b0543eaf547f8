-- ===== src/Users/Owners/Reads.antt =====
-- About the operations that only read (capsules/capsule-users/src/store.rs).
use unicity_aos.Base.{ℕ, Option, none, some, List, [], ◌∷◌}
use unicity_aos.Base.Text.{Text}
use unicity_aos.Users.Types.{Uuid, Libs, FrontendLink, ContextIdentity}
use unicity_aos.Users.Backend.{Kv, Faults}
use unicity_aos.Users.Backend.Runs.Keeps.{
  Keeps, Keeps-pure, Keeps-bind, Keeps-list_keys, Keeps-get_json, keeps_rules,
}
use unicity_aos.Users.Backend.Runs.Consequence.{Runs-cases}
use unicity_aos.Users.Store.Page.{Next}
use unicity_aos.Users.Store.Keys.{ends_with}
use unicity_aos.Users.Store.Accounts.{get_user}
use unicity_aos.Users.Store.Links.{
  get_link, overlay_at, resolve_link, resolve, validate_optional, links_of, list_links,
}
use unicity_aos.Users.Store.Contexts.{
  finish, read_users, list_users_paginated, require_link_exists, get_context, overlay_with_suffix,
  overlays_with_suffix, overlays_of_links, list_context_for_user, member_of, read_members,
  list_context_in_context,
}

module _ {P : Kv → Type 0} (libs : Libs) (f : Faults) where
  pub get_user-Keeps : (id : Uuid) → Keeps P (get_user libs f id)
  unfolding get_user
  get_user-Keeps id = search keeps_rules

  get_link-Keeps : (key : Text) → Keeps P (get_link libs f key)
  unfolding get_link
  get_link-Keeps key = search keeps_rules

  overlay_at-Keeps :
      (p : Text) (i : Option Text) (u : Text) (c : Option Text)
      → Keeps P (overlay_at libs f p i u c)
  unfolding overlay_at
  overlay_at-Keeps p i u none = search keeps_rules
  overlay_at-Keeps p i u (some c) = search keeps_rules

  resolve_link-Keeps :
      (p : Text) (i : Option Text) (u : Text) (c : Option Text) (l : Option FrontendLink)
      → Keeps P (resolve_link libs f p i u c l)
  unfolding resolve_link
  resolve_link-Keeps p i u c none = search keeps_rules
  resolve_link-Keeps p i u c (some l) = search (keeps_rules, get_user-Keeps, overlay_at-Keeps)

  validate_optional-Keeps : (c : Option Text) → Keeps P (validate_optional libs f c)
  validate_optional-Keeps none = search keeps_rules
  validate_optional-Keeps (some c) = search keeps_rules

  pub resolve-Keeps :
      (p : Text) (i : Option Text) (u : Text) (c : Option Text) → Keeps P (resolve libs f p i u c)
  unfolding resolve
  resolve-Keeps p i u c =
      search (keeps_rules, validate_optional-Keeps, get_link-Keeps, resolve_link-Keeps)

  links_of-Keeps : (id : Uuid) (ks : List Text) → Keeps P (links_of libs f id ks)
  unfolding links_of
  links_of-Keeps id [] = search keeps_rules
  links_of-Keeps id (k ∷ ks) =
      Keeps-bind (get_link-Keeps k) (λ l. Keeps-bind (links_of-Keeps id ks) (λ rest. Keeps-pure _))

  pub list_links-Keeps : (id : Uuid) → Keeps P (list_links libs f id)
  unfolding list_links
  list_links-Keeps id = search (keeps_rules, links_of-Keeps)

  finish-Keeps : {A : Type 0} (items : List A) (n : Next) → Keeps P (finish items n)
  unfolding finish
  finish-Keeps items Next.done = search keeps_rules
  finish-Keeps items (Next.next c) = search keeps_rules
  finish-Keeps items Next.out_of_range = search keeps_rules

  read_users-Keeps : (ks : List Text) → Keeps P (read_users libs f ks)
  unfolding read_users
  read_users-Keeps [] = search keeps_rules
  read_users-Keeps (k ∷ ks) =
      Keeps-bind (Keeps-get_json f libs.user_json k)
        (λ u. Keeps-bind (read_users-Keeps ks) (λ rest. Keeps-pure _))

  pub list_users_paginated-Keeps :
      (c : Option Text) (n : Option ℕ) → Keeps P (list_users_paginated libs f c n)
  unfolding list_users_paginated
  list_users_paginated-Keeps c n = search (keeps_rules, read_users-Keeps, finish-Keeps)

  pub require_link_exists-Keeps :
      (p : Text) (i : Option Text) (u : Text) → Keeps P (require_link_exists libs f p i u)
  unfolding require_link_exists
  require_link_exists-Keeps p i u = search keeps_rules

  pub get_context-Keeps :
      (p : Text) (i : Option Text) (u c : Text) → Keeps P (get_context libs f p i u c)
  unfolding get_context
  get_context-Keeps p i u c = search (keeps_rules, get_link-Keeps)

  overlay_with_suffix-Keeps : (s k : Text) → Keeps P (overlay_with_suffix libs f s k)
  overlay_with_suffix-Keeps s k =
      Runs-cases (ends_with k s) (λ _. search keeps_rules) (λ _. search keeps_rules)

  overlays_with_suffix-Keeps :
      (s : Text) (ks : List Text) → Keeps P (overlays_with_suffix libs f s ks)
  unfolding overlays_with_suffix
  overlays_with_suffix-Keeps s [] = search keeps_rules
  overlays_with_suffix-Keeps s (k ∷ ks) =
      Keeps-bind (overlay_with_suffix-Keeps s k)
        (λ c. Keeps-bind (overlays_with_suffix-Keeps s ks) (λ rest. Keeps-pure _))

  overlays_of_links-Keeps : (ls : List FrontendLink) → Keeps P (overlays_of_links libs f ls)
  unfolding overlays_of_links
  overlays_of_links-Keeps [] = search keeps_rules
  overlays_of_links-Keeps (l ∷ ls) = Keeps-bind (Keeps-list_keys f _) (λ keys.
      Keeps-bind (overlays_with_suffix-Keeps _ keys)
        (λ here. Keeps-bind (overlays_of_links-Keeps ls) (λ rest. Keeps-pure _)))

  pub list_context_for_user-Keeps :
      (id : Uuid) (c : Option Text) (n : Option ℕ) → Keeps P (list_context_for_user libs f id c n)
  unfolding list_context_for_user
  list_context_for_user-Keeps id c n =
      search (keeps_rules, list_links-Keeps, overlays_of_links-Keeps, finish-Keeps)

  member_of-Keeps : (c : Option ContextIdentity) → Keeps P (member_of libs f c)
  member_of-Keeps none = search keeps_rules
  member_of-Keeps (some c) = search (keeps_rules, get_link-Keeps)

  read_members-Keeps : (ks : List Text) → Keeps P (read_members libs f ks)
  unfolding read_members
  read_members-Keeps [] = search keeps_rules
  read_members-Keeps (k ∷ ks) = Keeps-bind (Keeps-get_json f libs.context_json k) (λ c.
      Keeps-bind (member_of-Keeps c)
        (λ here. Keeps-bind (read_members-Keeps ks) (λ rest. Keeps-pure _)))

  pub list_context_in_context-Keeps :
      (p : Text) (i : Option Text) (c : Text) (k : Option Text) (n : Option ℕ)
      → Keeps P (list_context_in_context libs f p i c k n)
  unfolding list_context_in_context
  list_context_in_context-Keeps p i c k n =
      search (keeps_rules, read_members-Keeps, finish-Keeps) depth 9

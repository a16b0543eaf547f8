-- ===== src/Users/Calm/Listings.antt =====
-- About the listings and the operations on overlays (capsules/capsule-users/src/store.rs).
use unicity_aos.Base.{
  ℕ, ◌≡◌, ◌≢◌, refl, Bool, true, false, Option, none, some, List, [], ◌∷◌, arith, ap,
}
use unicity_aos.Base.Text.{Text}
use unicity_aos.Users.Types.{Uuid, Libs, FrontendLink, ContextIdentity}
use unicity_aos.Users.Backend.{Exec, pure, Faults}
use unicity_aos.Users.Store.Records.{get_json}
use unicity_aos.Users.Store.Keys.{ends_with}
use unicity_aos.Users.Store.Page.{Next, window, page_size}
use unicity_aos.Users.Store.Page.Covers.{window_out_of_range_iff}
use unicity_aos.Users.Store.Contexts.{
  finish, read_users, list_users_paginated, require_link_exists, set_context, clear_context,
  get_context, overlay_with_suffix, overlays_with_suffix, overlays_of_links, list_context_for_user,
  member_of, read_members, list_context_in_context,
}
use unicity_aos.Users.Calm.{
  Calm, calm_rules, Calm-pure, Calm-bind, Calm-lift, Calm-get_json, Calm-list_keys,
}
use unicity_aos.Users.Calm.Operations.{get_link-Calm, list_links-Calm}

-- A listing of a limit above 0 has a cursor, or ends.
page_size-ne : (limit : Option ℕ) → limit ≢ some 0 → page_size limit ≢ 0
unfolding page_size
page_size-ne none n e = omega (arith, e)
page_size-ne (some l) n e = let z : l ≡ 0 = omega (arith, e) in n (ap some z)

cursor_ne :
    {A : Type 0} (key : A → Text) (cursor : Option Text) (limit : Option ℕ) (xs : List A)
    → limit ≢ some 0
    → (window key cursor limit xs).cursor ≢ Next.out_of_range
cursor_ne key cursor limit xs n e =
    page_size-ne limit n ((window_out_of_range_iff key cursor limit xs).0 e).0

finish-Calm :
    {A : Type 0} (items : List A) (next : Next)
    → next ≢ Next.out_of_range
    → Calm (finish items next)
unfolding finish
finish-Calm items Next.done n = Calm-pure _
finish-Calm items (Next.next c) n = Calm-pure _
finish-Calm items Next.out_of_range n = absurd (n refl)

module _ (libs : Libs) (f : Faults) where
  read_users-Calm : (ks : List Text) → Calm (read_users libs f ks)
  unfolding read_users
  read_users-Calm [] = search calm_rules
  read_users-Calm (k ∷ ks) =
      Calm-bind (Calm-get_json f libs.user_json k)
        (λ u. Calm-bind (read_users-Calm ks) (λ r. Calm-pure _))

  pub list_users_paginated-Calm :
      (cursor : Option Text) (limit : Option ℕ)
      → limit ≢ some 0
      → Calm (list_users_paginated libs f cursor limit)
  unfolding list_users_paginated
  list_users_paginated-Calm cursor limit n = Calm-bind (Calm-list_keys f _) (λ keys.
      Calm-bind (read_users-Calm _) (λ items. finish-Calm items _ (cursor_ne _ cursor limit _ n)))

  require_link_exists-Calm :
      (p : Text) (i : Option Text) (u : Text) → Calm (require_link_exists libs f p i u)
  unfolding require_link_exists
  require_link_exists-Calm p i u = search calm_rules

  pub set_context-Calm :
      (now p : Text) (i : Option Text) (u c name : Text)
      → Calm (set_context libs f now p i u c name)
  unfolding set_context
  set_context-Calm now p i u c name = search (calm_rules, require_link_exists-Calm) depth 12

  pub clear_context-Calm :
      (p : Text) (i : Option Text) (u c : Text) → Calm (clear_context libs f p i u c)
  unfolding clear_context
  clear_context-Calm p i u c = search calm_rules depth 12

  pub get_context-Calm :
      (p : Text) (i : Option Text) (u c : Text) → Calm (get_context libs f p i u c)
  unfolding get_context
  get_context-Calm p i u c = search (calm_rules, get_link-Calm) depth 12

  overlay_with_suffix-Calm : (suffix k : Text) → Calm (overlay_with_suffix libs f suffix k)
  overlay_with_suffix-Calm suffix k = go (ends_with k suffix)
    where
      go :
          (b : Bool)
          → Calm (elim b as (λ _. Exec (Option ContextIdentity)) [
            | true ↦ get_json f libs.context_json k
            | false ↦ pure none
          ])
      go true = Calm-get_json f libs.context_json k
      go false = Calm-pure none

  overlays_with_suffix-Calm :
      (suffix : Text) (ks : List Text) → Calm (overlays_with_suffix libs f suffix ks)
  unfolding overlays_with_suffix
  overlays_with_suffix-Calm suffix [] = search calm_rules
  overlays_with_suffix-Calm suffix (k ∷ ks) =
      Calm-bind (overlay_with_suffix-Calm suffix k)
        (λ c. Calm-bind (overlays_with_suffix-Calm suffix ks) (λ r. Calm-pure _))

  overlays_of_links-Calm : (ls : List FrontendLink) → Calm (overlays_of_links libs f ls)
  unfolding overlays_of_links
  overlays_of_links-Calm [] = search calm_rules
  overlays_of_links-Calm (l ∷ ls) = Calm-bind (Calm-list_keys f _) (λ keys.
      Calm-bind (overlays_with_suffix-Calm _ keys)
        (λ here. Calm-bind (overlays_of_links-Calm ls) (λ r. Calm-pure _)))

  pub list_context_for_user-Calm :
      (id : Uuid) (cursor : Option Text) (limit : Option ℕ)
      → limit ≢ some 0
      → Calm (list_context_for_user libs f id cursor limit)
  unfolding list_context_for_user
  list_context_for_user-Calm id cursor limit n = Calm-bind (list_links-Calm libs f id) (λ links.
      Calm-bind (overlays_of_links-Calm links)
        (λ overlays. finish-Calm _ _ (cursor_ne _ cursor limit _ n)))

  member_of-Calm : (c : Option ContextIdentity) → Calm (member_of libs f c)
  member_of-Calm none = search calm_rules
  member_of-Calm (some c) = search (calm_rules, get_link-Calm)

  read_members-Calm : (ks : List Text) → Calm (read_members libs f ks)
  unfolding read_members
  read_members-Calm [] = search calm_rules
  read_members-Calm (k ∷ ks) = Calm-bind (Calm-get_json f libs.context_json k) (λ c.
      Calm-bind (member_of-Calm c) (λ here. Calm-bind (read_members-Calm ks) (λ r. Calm-pure _)))

  pub list_context_in_context-Calm :
      (p : Text) (i : Option Text) (c : Text) (cursor : Option Text) (limit : Option ℕ)
      → limit ≢ some 0
      → Calm (list_context_in_context libs f p i c cursor limit)
  unfolding list_context_in_context
  list_context_in_context-Calm p i c cursor limit n = Calm-bind (Calm-lift _) (λ _.
      Calm-bind (Calm-lift _) (λ _. Calm-bind (Calm-lift _) (λ _.
        Calm-bind (Calm-list_keys f _) (λ keys.
          Calm-bind (read_members-Calm _)
            (λ items. finish-Calm items _ (cursor_ne _ cursor limit _ n))))))

-- ===== src/Users/Store/Contexts.antt =====
-- The listings and the operations on context overlays, the last part of
-- capsules/capsule-users/src/store.rs.
use unicity_aos.Base.{
  ℕ, Option, none, some, List, [], ◌∷◌, ◌++◌, map, codes, Bool, not, true, false,
}
use unicity_aos.Base.Text.{Text}
use unicity_aos.Base.Sort.{sort_by}
use unicity_aos.Users.Types.{
  Uuid, StoreError, AstridUser, FrontendLink, ContextIdentity, Libs, normalize_platform,
}
use unicity_aos.Users.Backend.{
  Exec, pure, raise, panic, ◌>>=◌, ◌>>◌, when, Faults, get, delete, list_keys,
}
use unicity_aos.Users.Store.Keys.{
  user_family, link_key, context_key, context_prefix_in_context, context_prefix_for_link_bucket,
  ends_with, validate_non_empty, validate_key_component, validate_instance, validate_context,
}
use unicity_aos.Users.Store.Records.{lift, get_json, set_json}
use unicity_aos.Users.Store.Links.{get_link, list_links, is_some}
use unicity_aos.Users.Store.Page.{Next, Page, window}

abbrev pub cons_some : {A : Type 0} → Option A → List A → List A
cons_some none xs = xs
cons_some (some x) xs = x ∷ xs

unfoldable pub finish : {A : Type 0} → List A → Next → Exec (Page A)
finish items Next.done = pure (record { items = items; next_cursor = none })
finish items (Next.next c) = pure (record { items = items; next_cursor = some c })
finish items Next.out_of_range = panic

-- The user of a link.
unfoldable pub owner : Option FrontendLink → Option Uuid
owner none = none
owner (some l) = some l.astrid_user_id

module _ (libs : Libs) (f : Faults) where
  unfoldable pub read_users : List Text → Exec (List AstridUser)
  read_users [] = pure []
  read_users (k ∷ ks) = do
    u ← get_json f libs.user_json k
    rest ← read_users ks
    pure (cons_some u rest)

  unfoldable pub list_users_paginated : Option Text → Option ℕ → Exec (Page AstridUser)
  list_users_paginated cursor limit = do
    keys ← list_keys f user_family
    let page = window (λ k. k) cursor limit (sort_by (λ k. k) keys)
    items ← read_users page.items
    finish items page.cursor

  unfoldable pub require_link_exists : Text → Option Text → Text → Exec Unit
  require_link_exists platform inst platform_user_id = do
    found ← get f (link_key platform inst platform_user_id)
    when (not (is_some found)) (raise StoreError.link_not_found)

  unfoldable pub set_context : Text → Text → Option Text → Text → Text → Text → Exec ContextIdentity
  set_context now platform inst platform_user_id context_id display_name = do
    lift (validate_context platform inst platform_user_id context_id)
    lift (validate_non_empty display_name (codes "display_name"))
    let normalized = normalize_platform platform
    require_link_exists normalized inst platform_user_id
    let overlay : ContextIdentity = record {
      platform = normalized;
      platform_instance = inst;
      platform_user_id = platform_user_id;
      context_id = context_id;
      display_name = display_name;
      updated_at = now;
    }
    set_json f libs.context_json (context_key normalized inst context_id platform_user_id) overlay
    pure overlay

  unfoldable pub clear_context : Text → Option Text → Text → Text → Exec Bool
  clear_context platform inst platform_user_id context_id = do
    lift (validate_context platform inst platform_user_id context_id)
    let key = context_key (normalize_platform platform) inst context_id platform_user_id
    found ← get f key
    when (is_some found) (delete f key)
    pure (is_some found)

  unfoldable pub get_context :
      Text → Option Text → Text → Text → Exec (Option ContextIdentity × Option Uuid)
  get_context platform inst platform_user_id context_id = do
    lift (validate_context platform inst platform_user_id context_id)
    let normalized = normalize_platform platform
    overlay ← get_json f libs.context_json (context_key normalized inst context_id platform_user_id)
    l ← get_link libs f (link_key normalized inst platform_user_id)
    pure (overlay, owner l)

  -- One key of a link's bucket.
  abbrev pub overlay_with_suffix : Text → Text → Exec (Option ContextIdentity)
  overlay_with_suffix suffix k = elim (ends_with k suffix) [
    | true ↦ get_json f libs.context_json k
    | false ↦ pure none
  ]

  abbrev keyed : Text → Option ContextIdentity → List (Text × ContextIdentity)
  keyed k none = []
  keyed k (some c) = (k, c) ∷ []

  unfoldable pub overlays_with_suffix : Text → List Text → Exec (List (Text × ContextIdentity))
  overlays_with_suffix suffix [] = pure []
  overlays_with_suffix suffix (k ∷ ks) = do
    c ← overlay_with_suffix suffix k
    rest ← overlays_with_suffix suffix ks
    pure (keyed k c ++ rest)

  unfoldable pub overlays_of_links : List FrontendLink → Exec (List (Text × ContextIdentity))
  overlays_of_links [] = pure []
  overlays_of_links (l ∷ ls) = do
    keys ← list_keys f (context_prefix_for_link_bucket l.platform l.platform_instance)
    here ← overlays_with_suffix (b'/' ∷ l.platform_user_id) keys
    rest ← overlays_of_links ls
    pure (here ++ rest)

  abbrev pub key_of : Text × ContextIdentity → Text
  key_of (k, c) = k

  abbrev identity_of : Text × ContextIdentity → ContextIdentity
  identity_of (k, c) = c

  unfoldable pub list_context_for_user : Uuid → Option Text → Option ℕ → Exec (Page ContextIdentity)
  list_context_for_user astrid_user_id cursor limit = do
    links ← list_links libs f astrid_user_id
    overlays ← overlays_of_links links
    let page = window key_of cursor limit (sort_by key_of overlays)
    finish (map identity_of page.items) page.cursor

  abbrev pub member_of : Option ContextIdentity → Exec (List (ContextIdentity × Option Uuid))
  member_of none = pure []
  member_of (some c) = do
    l ← get_link libs f (link_key c.platform c.platform_instance c.platform_user_id)
    pure ((c, owner l) ∷ [])

  unfoldable pub read_members : List Text → Exec (List (ContextIdentity × Option Uuid))
  read_members [] = pure []
  read_members (k ∷ ks) = do
    c ← get_json f libs.context_json k
    here ← member_of c
    rest ← read_members ks
    pure (here ++ rest)

  unfoldable pub list_context_in_context :
      Text
      → Option Text
      → Text
      → Option Text
      → Option ℕ
      → Exec (Page (ContextIdentity × Option Uuid))
  list_context_in_context platform inst context_id cursor limit = do
    lift (validate_key_component platform (codes "platform"))
    lift (validate_instance inst)
    lift (validate_key_component context_id (codes "context_id"))
    keys ← list_keys f (context_prefix_in_context (normalize_platform platform) inst context_id)
    let page = window (λ k. k) cursor limit (sort_by (λ k. k) keys)
    items ← read_members page.items
    finish items page.cursor

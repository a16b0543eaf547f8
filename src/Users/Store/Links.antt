-- ===== src/Users/Store/Links.antt =====
-- The operations on links, and the deletion of users with its cascades, the third part of
-- capsules/capsule-users/src/store.rs.
use unicity_aos.Base.{
  Option, none, some, List, [], ◌∷◌, ◌++◌, codes, if◌then◌else◌, Bool, not, true, false, ◌==◌,
}
use unicity_aos.Base.Text.{Text}
use unicity_aos.Users.Types.{
  Uuid, StoreError, AstridUser, FrontendLink, ContextIdentity, ResolvedDisplayName, Libs,
  normalize_platform,
}
use unicity_aos.Users.Backend.{Exec, pure, raise, ◌>>=◌, ◌>>◌, when, Faults, get, delete, list_keys}
use unicity_aos.Users.Store.Keys.{
  user_key, link_key, link_family, context_key, context_prefix_for_link_bucket, ends_with,
  validate_non_empty, validate_key_component, validate_link,
}
use unicity_aos.Users.Store.Records.{lift, get_json, set_json}
use unicity_aos.Users.Store.Accounts.{get_user, clear_name}

-- What a link is about: `(platform, platform_instance, platform_user_id)`.
pub record Triple : Type 0 where
  pub platform : Text
  pub platform_instance : Option Text
  pub platform_user_id : Text

abbrev pub triple_of : FrontendLink → Triple
triple_of l = record {
  platform = l.platform;
  platform_instance = l.platform_instance;
  platform_user_id = l.platform_user_id;
}

abbrev pub owned_by : Uuid → Option FrontendLink → Bool
owned_by id none = false
owned_by id (some l) = l.astrid_user_id == id

abbrev pub is_some : {A : Type 0} → Option A → Bool
is_some none = false
is_some (some a) = true

-- The layers of names: context, then link, then canonical.
unfoldable pub layered :
    Option ContextIdentity → FrontendLink → Option AstridUser → Option ResolvedDisplayName
layered (some overlay) link user =
    some (record { name = overlay.display_name; source = codes "context" })
layered none link user = elim link.display_name [
  | some name ↦ some (record { name = name; source = codes "link" })
  | none ↦ elim user [
    | none ↦ none
    | some u ↦ elim u.display_name [
      | some name ↦ some (record { name = name; source = codes "canonical" })
      | none ↦ none
    ]
  ]
]

module _ (libs : Libs) (f : Faults) where
  unfoldable pub get_link : Text → Exec (Option FrontendLink)
  get_link key = get_json f libs.link_json key

  unfoldable pub overlay_at :
      Text → Option Text → Text → Option Text → Exec (Option ContextIdentity)
  overlay_at platform inst platform_user_id none = pure none
  overlay_at platform inst platform_user_id (some context_id) =
      get_json f libs.context_json (context_key platform inst context_id platform_user_id)

  unfoldable pub resolve_link :
      Text
      → Option Text
      → Text
      → Option Text
      → Option FrontendLink
      → Exec (Option AstridUser × Option ResolvedDisplayName)
  resolve_link platform inst platform_user_id context_id none = pure (none, none)
  resolve_link platform inst platform_user_id context_id (some link) = do
    user ← get_user libs f link.astrid_user_id
    overlay ← overlay_at platform inst platform_user_id context_id
    pure (user, layered overlay link user)

  abbrev pub validate_optional : Option Text → Exec Unit
  validate_optional none = pure tt
  validate_optional (some c) = lift (validate_key_component c (codes "context_id"))

  unfoldable pub resolve :
      Text
      → Option Text
      → Text
      → Option Text
      → Exec (Option AstridUser × Option ResolvedDisplayName)
  resolve platform inst platform_user_id context_id = do
    lift (validate_link platform inst platform_user_id)
    validate_optional context_id
    let normalized = normalize_platform platform
    link ← get_link (link_key normalized inst platform_user_id)
    resolve_link normalized inst platform_user_id context_id link

  unfoldable pub link :
      Text → Text → Option Text → Text → Uuid → Text → Option Text → Exec FrontendLink
  link now platform inst platform_user_id astrid_user_id method display_name = do
    lift (validate_link platform inst platform_user_id)
    lift (validate_non_empty method (codes "method"))
    user ← get_user libs f astrid_user_id
    when (not (is_some user)) (raise (StoreError.user_not_found astrid_user_id))
    let normalized = normalize_platform platform
    let made : FrontendLink = record {
      platform = normalized;
      platform_instance = inst;
      platform_user_id = platform_user_id;
      astrid_user_id = astrid_user_id;
      linked_at = now;
      method = method;
      display_name = display_name;
    }
    set_json f libs.link_json (link_key normalized inst platform_user_id) made
    pure made

  -- The keys with the suffix are deleted.
  unfoldable pub delete_with_suffix : Text → List Text → Exec Unit
  delete_with_suffix suffix [] = pure tt
  delete_with_suffix suffix (k ∷ ks) = do
    when (ends_with k suffix) (delete f k)
    delete_with_suffix suffix ks

  -- Every context overlay of one link.
  unfoldable pub delete_overlays : Text → Option Text → Text → Exec Unit
  delete_overlays platform inst platform_user_id = do
    keys ← list_keys f (context_prefix_for_link_bucket platform inst)
    delete_with_suffix (b'/' ∷ platform_user_id) keys

  unfoldable pub unlink : Text → Option Text → Text → Exec Bool
  unlink platform inst platform_user_id = do
    lift (validate_link platform inst platform_user_id)
    let normalized = normalize_platform platform
    found ← get f (link_key normalized inst platform_user_id)
    when (is_some found) (do
      delete_overlays normalized inst platform_user_id
      delete f (link_key normalized inst platform_user_id))
    pure (is_some found)

  unfoldable pub links_of : Uuid → List Text → Exec (List FrontendLink)
  links_of id [] = pure []
  links_of id (k ∷ ks) = do
    l ← get_link k
    rest ← links_of id ks
    pure (elim l [ none ↦ rest | some x ↦ if owned_by id (some x) then x ∷ rest else rest ])

  unfoldable pub list_links : Uuid → Exec (List FrontendLink)
  list_links astrid_user_id = do keys ← list_keys f link_family; links_of astrid_user_id keys

  -- A link of this user is deleted, and its triple remembered.
  unfoldable pub drop_owned : Uuid → Text → Option FrontendLink → Exec (List Triple)
  drop_owned id k none = pure []
  drop_owned id k (some l) = elim (owned_by id (some l)) [
    | true ↦ (delete f k >> pure (triple_of l ∷ []))
    | false ↦ pure []
  ]

  unfoldable pub drop_links : Uuid → List Text → Exec (List Triple)
  drop_links id [] = pure []
  drop_links id (k ∷ ks) = do
    l ← get_link k
    mine ← drop_owned id k l
    rest ← drop_links id ks
    pure (mine ++ rest)

  unfoldable pub drop_overlays : List Triple → Exec Unit
  drop_overlays [] = pure tt
  drop_overlays (t ∷ ts) = do
    delete_overlays t.platform t.platform_instance t.platform_user_id
    drop_overlays ts

  -- The three cascades, and the user at last.
  unfoldable pub delete_known : Uuid → AstridUser → Exec Bool
  delete_known id user = do
    keys ← list_keys f link_family
    affected ← drop_links id keys
    drop_overlays affected
    clear_name libs f id user.display_name
    delete f (user_key libs.uuid_text id)
    pure true

  abbrev pub delete_found : Uuid → Option AstridUser → Exec Bool
  delete_found id none = pure false
  delete_found id (some user) = delete_known id user

  unfoldable pub delete_user : Uuid → Exec Bool
  delete_user id = do found ← get_user libs f id; delete_found id found

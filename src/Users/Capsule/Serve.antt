-- ===== src/Users/Capsule/Serve.antt =====
-- The listing of users and the handlers of requests on context overlays, and the handling of any
-- request, capsules/capsule-users/src/lib.rs.
use unicity_aos.Base.{Option, codes}
use unicity_aos.Base.Text.{Text}
use unicity_aos.Users.Types.{Uuid, ContextIdentity, Libs}
use unicity_aos.Users.Requests.{
  ResolveRequest, LinkRequest, UnlinkRequest, CreateRequest, SetDisplayNameRequest,
  SetPublicKeyRequest, LinksRequest, GetRequest, DeleteRequest, ListRequest, ContextSetRequest,
  ContextClearRequest, ContextGetRequest, ContextListForUserRequest, ContextListInContextRequest,
}
use unicity_aos.Users.Responses.{
  Value, Members, array_of, optional, text_member, user_value, context_to_json,
}
use unicity_aos.Users.Backend.{Kv}
use unicity_aos.Users.Store.Contexts.{
  list_users_paginated, set_context, clear_context, get_context, list_context_for_user,
  list_context_in_context,
}
use unicity_aos.Users.Capsule.{Handled, Call, respond, one, next_cursor, parse_uuid}
use unicity_aos.Users.Capsule.Identity.{
  handle_resolve, handle_link, handle_unlink, handle_create, handle_set_display_name,
  handle_set_public_key, handle_links, handle_get, handle_delete,
}

pub data Request : Type 0 where
  resolve_request : ResolveRequest → Request
  link_request : LinkRequest → Request
  unlink_request : UnlinkRequest → Request
  create_request : CreateRequest → Request
  set_display_name_request : SetDisplayNameRequest → Request
  set_public_key_request : SetPublicKeyRequest → Request
  links_request : LinksRequest → Request
  get_request : GetRequest → Request
  delete_request : DeleteRequest → Request
  list_request : ListRequest → Request
  context_set_request : ContextSetRequest → Request
  context_clear_request : ContextClearRequest → Request
  context_get_request : ContextGetRequest → Request
  context_list_for_user_request : ContextListForUserRequest → Request
  context_list_in_context_request : ContextListInContextRequest → Request

unfoldable pub member_json : (Uuid → Text) → ContextIdentity × Option Uuid → Value
member_json uuid_text (c, id) = Value.object (
    Members.member (codes "context-identity") (context_to_json c)
      (optional (codes "astrid-user-id") (λ u. Value.string (uuid_text u)) id Members.no_members))

abbrev overlay_members : (Uuid → Text) → Option ContextIdentity × Option Uuid → Members
overlay_members uuid_text (overlay, id) =
    optional (codes "context-identity") context_to_json overlay
      (optional (codes "astrid-user-id") (λ u. Value.string (uuid_text u)) id Members.no_members)

module _ (libs : Libs) (call : Call) where
  unfoldable pub handle_list : ListRequest → Kv → Handled
  handle_list req =
      respond libs.uuid_text (codes "users.v1.list.response") req.source.correlation_id
        (λ page. text_member (codes "correlation-id") req.source.correlation_id (
          Members.member (codes "users")
            (Value.array (array_of (user_value libs.uuid_text) page.items))
            (next_cursor page.next_cursor)))
        (list_users_paginated libs call.faults req.cursor req.limit)

  unfoldable pub handle_context_set : ContextSetRequest → Kv → Handled
  handle_context_set req =
      respond libs.uuid_text (codes "users.v1.context.set.response") req.source.correlation_id
        (λ overlay.
          text_member (codes "correlation-id") req.source.correlation_id
            (one (codes "context-identity") (context_to_json overlay)))
        (set_context libs call.faults call.now req.platform req.platform_instance
          req.platform_user_id req.context_id req.display_name)

  unfoldable pub handle_context_clear : ContextClearRequest → Kv → Handled
  handle_context_clear req =
      respond libs.uuid_text (codes "users.v1.context.clear.response") req.source.correlation_id
        (λ removed.
          text_member (codes "correlation-id") req.source.correlation_id
            (one (codes "removed") (Value.bool removed)))
        (clear_context libs call.faults req.platform req.platform_instance req.platform_user_id
          req.context_id)

  unfoldable pub handle_context_get : ContextGetRequest → Kv → Handled
  handle_context_get req =
      respond libs.uuid_text (codes "users.v1.context.get.response") req.source.correlation_id
        (λ found.
          text_member (codes "correlation-id") req.source.correlation_id
            (overlay_members libs.uuid_text found))
        (get_context libs call.faults req.platform req.platform_instance req.platform_user_id
          req.context_id)

  unfoldable pub handle_context_list_for_user : ContextListForUserRequest → Kv → Handled
  handle_context_list_for_user req =
      let topic = codes "users.v1.context.list_for_user.response" in
      let cid = req.source.correlation_id in
      parse_uuid libs call req.astrid_user_id topic cid (λ id.
        respond libs.uuid_text topic cid
          (λ page. text_member (codes "correlation-id") cid (
            Members.member (codes "contexts") (Value.array (array_of context_to_json page.items))
              (next_cursor page.next_cursor)))
          (list_context_for_user libs call.faults id req.cursor req.limit))

  unfoldable pub handle_context_list_in_context : ContextListInContextRequest → Kv → Handled
  handle_context_list_in_context req =
      respond libs.uuid_text (codes "users.v1.context.list_in_context.response")
        req.source.correlation_id
        (λ page. text_member (codes "correlation-id") req.source.correlation_id (
          Members.member (codes "members")
            (Value.array (array_of (member_json libs.uuid_text) page.items))
            (next_cursor page.next_cursor)))
        (list_context_in_context libs call.faults req.platform req.platform_instance req.context_id
          req.cursor req.limit)

  unfoldable pub handle : Request → Kv → Handled
  handle (Request.resolve_request req) = handle_resolve libs call req
  handle (Request.link_request req) = handle_link libs call req
  handle (Request.unlink_request req) = handle_unlink libs call req
  handle (Request.create_request req) = handle_create libs call req
  handle (Request.set_display_name_request req) = handle_set_display_name libs call req
  handle (Request.set_public_key_request req) = handle_set_public_key libs call req
  handle (Request.links_request req) = handle_links libs call req
  handle (Request.get_request req) = handle_get libs call req
  handle (Request.delete_request req) = handle_delete libs call req
  handle (Request.list_request req) = handle_list req
  handle (Request.context_set_request req) = handle_context_set req
  handle (Request.context_clear_request req) = handle_context_clear req
  handle (Request.context_get_request req) = handle_context_get req
  handle (Request.context_list_for_user_request req) = handle_context_list_for_user req
  handle (Request.context_list_in_context_request req) = handle_context_list_in_context req

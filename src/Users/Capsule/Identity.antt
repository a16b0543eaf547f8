-- ===== src/Users/Capsule/Identity.antt =====
-- The handlers of requests on users and links, capsules/capsule-users/src/lib.rs.
use unicity_aos.Base.{codes}
use unicity_aos.Users.Types.{Libs}
use unicity_aos.Users.Requests.{
  ResolveRequest, LinkRequest, UnlinkRequest, CreateRequest, SetDisplayNameRequest,
  SetPublicKeyRequest, LinksRequest, GetRequest, DeleteRequest,
}
use unicity_aos.Users.Responses.{
  Value, Members, array_of, text_member, user_value, user_to_json, link_to_json,
}
use unicity_aos.Users.Backend.{Kv}
use unicity_aos.Users.Store.Accounts.{create_user, get_user, set_display_name, set_public_key}
use unicity_aos.Users.Store.Links.{resolve, link, unlink, list_links, delete_user}
use unicity_aos.Users.Capsule.{Handled, Call, respond, one, name_members, parse_uuid, parse_pubkey}

module _ (libs : Libs) (call : Call) where
  unfoldable pub handle_resolve : ResolveRequest → Kv → Handled
  handle_resolve req =
      respond libs.uuid_text (codes "users.v1.resolve.response") req.source.correlation_id
        (λ (user, resolved). text_member (codes "correlation-id") req.source.correlation_id (
          Members.member (codes "user") (user_to_json libs.uuid_text user) (name_members resolved)))
        (resolve libs call.faults req.platform req.platform_instance req.platform_user_id
          req.context_id)

  unfoldable pub handle_link : LinkRequest → Kv → Handled
  handle_link req =
      let topic = codes "users.v1.link.response" in
      let cid = req.source.correlation_id in
      parse_uuid libs call req.astrid_user_id topic cid (λ id.
        respond libs.uuid_text topic cid
          (λ l.
            text_member (codes "correlation-id") cid
              (one (codes "link") (link_to_json libs.uuid_text l)))
          (link libs call.faults call.now req.platform req.platform_instance req.platform_user_id id
            req.method req.display_name))

  unfoldable pub handle_unlink : UnlinkRequest → Kv → Handled
  handle_unlink req =
      respond libs.uuid_text (codes "users.v1.unlink.response") req.source.correlation_id
        (λ removed.
          text_member (codes "correlation-id") req.source.correlation_id
            (one (codes "removed") (Value.bool removed)))
        (unlink libs call.faults req.platform req.platform_instance req.platform_user_id)

  unfoldable pub handle_create : CreateRequest → Kv → Handled
  handle_create req =
      respond libs.uuid_text (codes "users.v1.create.response") req.source.correlation_id
        (λ user.
          text_member (codes "correlation-id") req.source.correlation_id
            (one (codes "user") (user_value libs.uuid_text user)))
        (create_user libs call.faults call.fresh call.now req.display_name)

  unfoldable pub handle_set_display_name : SetDisplayNameRequest → Kv → Handled
  handle_set_display_name req =
      let topic = codes "users.v1.set_display_name.response" in
      let cid = req.source.correlation_id in
      parse_uuid libs call req.astrid_user_id topic cid (λ id.
        respond libs.uuid_text topic cid
          (λ user.
            text_member (codes "correlation-id") cid
              (one (codes "user") (user_value libs.uuid_text user)))
          (set_display_name libs call.faults id req.display_name))

  unfoldable pub handle_set_public_key : SetPublicKeyRequest → Kv → Handled
  handle_set_public_key req =
      let topic = codes "users.v1.set_public_key.response" in
      let cid = req.source.correlation_id in
      parse_uuid libs call req.astrid_user_id topic cid (λ id.
        parse_pubkey libs call req.public_key topic cid (λ pk.
          respond libs.uuid_text topic cid
            (λ user.
              text_member (codes "correlation-id") cid
                (one (codes "user") (user_value libs.uuid_text user)))
            (set_public_key libs call.faults id pk)))

  unfoldable pub handle_links : LinksRequest → Kv → Handled
  handle_links req =
      let topic = codes "users.v1.links.response" in
      let cid = req.source.correlation_id in
      parse_uuid libs call req.astrid_user_id topic cid (λ id.
        respond libs.uuid_text topic cid
          (λ ls.
            text_member (codes "correlation-id") cid
              (one (codes "links") (Value.array (array_of (link_to_json libs.uuid_text) ls))))
          (list_links libs call.faults id))

  unfoldable pub handle_get : GetRequest → Kv → Handled
  handle_get req =
      let topic = codes "users.v1.get.response" in
      let cid = req.source.correlation_id in
      parse_uuid libs call req.astrid_user_id topic cid (λ id.
        respond libs.uuid_text topic cid
          (λ user.
            text_member (codes "correlation-id") cid
              (one (codes "user") (user_to_json libs.uuid_text user)))
          (get_user libs call.faults id))

  unfoldable pub handle_delete : DeleteRequest → Kv → Handled
  handle_delete req =
      let topic = codes "users.v1.delete.response" in
      let cid = req.source.correlation_id in
      parse_uuid libs call req.astrid_user_id topic cid (λ id.
        respond libs.uuid_text topic cid
          (λ deleted.
            text_member (codes "correlation-id") cid (one (codes "deleted") (Value.bool deleted)))
          (delete_user libs call.faults id))

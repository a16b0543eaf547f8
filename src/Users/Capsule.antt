-- ===== src/Users/Capsule.antt =====
-- The handlers of requests, capsules/capsule-users/src/lib.rs. A handler hands on the messages that
-- it publishes, whether it ends by a panic, and the store that it leaves.
pub mod Identity
pub mod Serve
pub mod Answered
use unicity_aos.Base.{
  ℕ, Bool, true, false, Option, none, some, List, [], ◌∷◌, ◌++◌, length, codes, ◌==◌, if◌then◌else◌,
}
use unicity_aos.Base.Text.{Text}
use unicity_aos.Base.Decimal.{print}
use unicity_aos.Base.Result.{Result, ok, err}
use unicity_aos.Users.Types.{
  Uuid, StoreError, AstridUser, FrontendLink, ContextIdentity, ResolvedDisplayName, Source, Libs,
  error_text,
}
use unicity_aos.Users.Requests.{
  ResolveRequest, LinkRequest, UnlinkRequest, CreateRequest, SetDisplayNameRequest,
  SetPublicKeyRequest, LinksRequest, GetRequest, DeleteRequest, ListRequest, ContextSetRequest,
  ContextClearRequest, ContextGetRequest, ContextListForUserRequest, ContextListInContextRequest,
}
use unicity_aos.Users.Responses.{
  Value, Values, Members, array_of, optional, text_member, user_value, user_to_json, link_to_json,
  context_to_json,
}
use unicity_aos.Users.Backend.{Kv, Exec, Halt, Faults}
use unicity_aos.Users.Store.Accounts.{create_user, get_user, set_display_name, set_public_key}
use unicity_aos.Users.Store.Links.{resolve, link, unlink, list_links, delete_user}
use unicity_aos.Users.Store.Page.{Page}
use unicity_aos.Users.Store.Contexts.{
  list_users_paginated, set_context, clear_context, get_context, list_context_for_user,
  list_context_in_context,
}

pub record Message : Type 0 where
  pub topic : Text
  pub payload : Value

pub record Handled : Type 0 where
  pub published : List Message
  pub trapped : Bool
  pub kv : Kv

-- The calls on the store that fail, the clock, and the UUID that is drawn.
pub record Call : Type 0 where
  pub faults : Faults
  pub now : Text
  pub fresh : Uuid

unfoldable pub publish : Text → Value → Message
publish topic payload = record { topic = topic; payload = payload }

unfoldable pub publish_error : (Uuid → Text) → Text → Text → StoreError → Message
publish_error uuid_text topic cid e = publish topic (
    Value.object (
      text_member (codes "correlation-id") cid
        (text_member (codes "error") (error_text uuid_text e) Members.no_members)))

-- The message of an operation that returned or failed.
unfoldable pub answer :
    {A : Type 0} → (Uuid → Text) → Text → Text → (A → Members) → Result Halt A → Kv → Handled
answer uuid_text topic cid render (ok a) kv = record {
  published = publish topic (Value.object (render a)) ∷ [];
  trapped = false;
  kv = kv;
}
answer uuid_text topic cid render (err (Halt.failed e)) kv = record {
  published = publish_error uuid_text topic cid e ∷ [];
  trapped = false;
  kv = kv;
}
answer uuid_text topic cid render (err Halt.panicked) kv = record {
  published = [];
  trapped = true;
  kv = kv;
}

-- The operation on the store, and its answer.
unfoldable pub respond :
    {A : Type 0} → (Uuid → Text) → Text → Text → (A → Members) → Exec A → Kv → Handled
respond uuid_text topic cid render m kv =
    let (r, after) = m kv in answer uuid_text topic cid render r after

abbrev pub one : Text → Value → Members
one key v = Members.member key v Members.no_members

-- A text of 32 bytes, or none.
unfoldable pub pubkey_of : Option (List ℕ) → Result StoreError (Option (List ℕ))
pubkey_of none = ok none
pubkey_of (some b) =
    if length b == 32
    then ok (some b)
    else err (
        StoreError.invalid_input
          (codes "public_key must be 32 bytes (got " ++ (print (length b) ++ codes ")")))

unfoldable pub uuid_of : Result Text Uuid → Result StoreError Uuid
uuid_of (ok u) = ok u
uuid_of (err e) = err (StoreError.invalid_input (codes "astrid_user_id is not a valid UUID: " ++ e))

abbrev pub name_members : Option ResolvedDisplayName → Members
name_members none = Members.no_members
name_members (some r) =
    text_member (codes "display-name") r.name
      (one (codes "display-name-source") (Value.string r.source))

abbrev pub next_cursor : Option Text → Members
next_cursor c = optional (codes "next-cursor") Value.string c Members.no_members

module _ (libs : Libs) (call : Call) where
  -- The answer of `parse_uuid` and `parse_pubkey` to a text that they refuse.
  unfoldable pub refused : Text → Text → StoreError → Kv → Handled
  refused topic cid e kv = record {
    published = publish_error libs.uuid_text topic cid e ∷ [];
    trapped = false;
    kv = kv;
  }

  unfoldable pub or_refuse :
      {A : Type 0} → Text → Text → (A → Kv → Handled) → Result StoreError A → Kv → Handled
  or_refuse topic cid k (ok a) = k a
  or_refuse topic cid k (err e) = refused topic cid e

  unfoldable pub parse_uuid : Text → Text → Text → (Uuid → Kv → Handled) → Kv → Handled
  parse_uuid s topic cid k = or_refuse topic cid k (uuid_of (libs.parse_str s))

  unfoldable pub parse_pubkey :
      Option (List ℕ) → Text → Text → (Option (List ℕ) → Kv → Handled) → Kv → Handled
  parse_pubkey bytes topic cid k = or_refuse topic cid k (pubkey_of bytes)

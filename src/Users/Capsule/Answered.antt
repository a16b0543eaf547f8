-- ===== src/Users/Capsule/Answered.antt =====
-- About the answers to requests (capsules/capsule-users/src/lib.rs).
use unicity_aos.Base.{
  ℕ, zero, suc, ◌≢◌, none, some, ap, ◌≡◌, ◌⊎◌, inl, inr, refl, true, false, codes, Option, List, [],
  ◌∷◌,
}
use unicity_aos.Base.Text.{Text}
use unicity_aos.Base.Result.{Result, ok, err}
use unicity_aos.Users.Types.{Uuid, Libs, StoreError, Source}
use unicity_aos.Users.Responses.{Value, Members}
use unicity_aos.Users.Backend.{Kv, Exec, Halt}
use unicity_aos.Users.Calm.{Calm}
use unicity_aos.Users.Calm.Operations.{
  get_user-Calm, create_user-Calm, set_display_name-Calm, set_public_key-Calm, resolve-Calm,
  link-Calm, unlink-Calm, list_links-Calm, delete_user-Calm,
}
use unicity_aos.Users.Calm.Listings.{
  list_users_paginated-Calm, set_context-Calm, clear_context-Calm, get_context-Calm,
  list_context_for_user-Calm, list_context_in_context-Calm,
}
use unicity_aos.Users.Capsule.{
  Handled, Call, answer, respond, refused, or_refuse, publish, publish_error, parse_uuid,
  parse_pubkey, pubkey_of, uuid_of,
}
use unicity_aos.Users.Capsule.Identity.{
  handle_resolve, handle_link, handle_unlink, handle_create, handle_set_display_name,
  handle_set_public_key, handle_links, handle_get, handle_delete,
}
use unicity_aos.Users.Capsule.Serve.{
  Request, handle, handle_list, handle_context_set, handle_context_clear, handle_context_get,
  handle_context_list_for_user, handle_context_list_in_context,
}

abbrev pub answer_topic : Request → Text
answer_topic (Request.resolve_request _) = codes "users.v1.resolve.response"
answer_topic (Request.link_request _) = codes "users.v1.link.response"
answer_topic (Request.unlink_request _) = codes "users.v1.unlink.response"
answer_topic (Request.create_request _) = codes "users.v1.create.response"
answer_topic (Request.set_display_name_request _) = codes "users.v1.set_display_name.response"
answer_topic (Request.set_public_key_request _) = codes "users.v1.set_public_key.response"
answer_topic (Request.links_request _) = codes "users.v1.links.response"
answer_topic (Request.get_request _) = codes "users.v1.get.response"
answer_topic (Request.delete_request _) = codes "users.v1.delete.response"
answer_topic (Request.list_request _) = codes "users.v1.list.response"
answer_topic (Request.context_set_request _) = codes "users.v1.context.set.response"
answer_topic (Request.context_clear_request _) = codes "users.v1.context.clear.response"
answer_topic (Request.context_get_request _) = codes "users.v1.context.get.response"
answer_topic (Request.context_list_for_user_request _) =
    codes "users.v1.context.list_for_user.response"
answer_topic (Request.context_list_in_context_request _) =
    codes "users.v1.context.list_in_context.response"

abbrev pub source_of : Request → Source
source_of (Request.resolve_request r) = r.source
source_of (Request.link_request r) = r.source
source_of (Request.unlink_request r) = r.source
source_of (Request.create_request r) = r.source
source_of (Request.set_display_name_request r) = r.source
source_of (Request.set_public_key_request r) = r.source
source_of (Request.links_request r) = r.source
source_of (Request.get_request r) = r.source
source_of (Request.delete_request r) = r.source
source_of (Request.list_request r) = r.source
source_of (Request.context_set_request r) = r.source
source_of (Request.context_clear_request r) = r.source
source_of (Request.context_get_request r) = r.source
source_of (Request.context_list_for_user_request r) = r.source
source_of (Request.context_list_in_context_request r) = r.source

-- One message on the topic, an object with the correlation id and the rest; or, where `P` holds, a
-- panic and no message.
abbrev Replies : Type 0 → Text → Text → Handled → Type 0
Replies P topic cid h =
    ((h.trapped ≡ false)
      × (rest : Members) × (h.published
          ≡ record {
            topic = topic;
            payload =
                Value.object (Members.member (codes "correlation-id") (Value.string cid) rest);
          }
            ∷ []))
    ⊎ (P × (h.trapped ≡ true) × (h.published ≡ []))

-- A listing of no items.
abbrev pub AsksForNone : Request → Type 0
AsksForNone (Request.list_request r) = r.limit ≡ some 0
AsksForNone (Request.context_list_for_user_request r) = r.limit ≡ some 0
AsksForNone (Request.context_list_in_context_request r) = r.limit ≡ some 0
AsksForNone _ = ⊥

-- One message on the request's topic, an object with its correlation id and the rest; or, where it
-- asks for a listing of no items, a panic and no message.
abbrev pub IsAnswered : Request → Handled → Type 0
IsAnswered r h =
    ((h.trapped ≡ false)
      × (rest : Members) × (h.published
          ≡ record {
            topic = answer_topic r;
            payload = Value.object (
                Members.member (codes "correlation-id") (Value.string (source_of r).correlation_id)
                  rest);
          }
            ∷ []))
    ⊎ (AsksForNone r × (h.trapped ≡ true) × (h.published ≡ []))

-- The members begin with the correlation id.
abbrev Carries : {A : Type 0} → Text → (A → Members) → Type 0
Carries {A} cid render =
    (a : A)
    → (rest : Members) × (render a
        ≡ Members.member (codes "correlation-id") (Value.string cid) rest)

limit_cases : (limit : Option ℕ) → (limit ≡ some 0) ⊎ (limit ≢ some 0)
limit_cases none = inr (λ e. cc e)
limit_cases (some zero) = inl refl
limit_cases (some (suc n)) = inr (λ e. cc e)

answer-Replies :
    {A : Type 0} (P : Type 0) (uuid_text : Uuid → Text) (topic cid : Text) (render : A → Members)
    (r : Result Halt A) (kv : Kv)
    → Carries cid render
    → (r ≡ err Halt.panicked → P)
    → Replies P topic cid (answer uuid_text topic cid render r kv)
unfolding answer publish publish_error
answer-Replies P uuid_text topic cid render (ok a) kv c n =
    let (rest, e) = c a in
    inl (refl, rest, ap (λ m. record { topic = topic; payload = Value.object m } ∷ []) e)
answer-Replies P uuid_text topic cid render (err (Halt.failed e)) kv c n = inl (refl, _, refl)
answer-Replies P uuid_text topic cid render (err Halt.panicked) kv c n = inr (n refl, refl, refl)

module _ (libs : Libs) (call : Call) where
  respond-Replies :
      {A : Type 0} (P : Type 0) (topic cid : Text) (render : A → Members) (m : Exec A) (kv : Kv)
      → Carries cid render
      → ((m kv).0 ≡ err Halt.panicked → P)
      → Replies P topic cid (respond libs.uuid_text topic cid render m kv)
  unfolding respond
  respond-Replies P topic cid render m kv c n =
      answer-Replies P libs.uuid_text topic cid render (m kv).0 (m kv).1 c n

  -- An operation that does not panic.
  Calm-Replies :
      {A : Type 0} (topic cid : Text) (render : A → Members) (m : Exec A) (kv : Kv)
      → Carries cid render
      → Calm m
      → Replies ⊥ topic cid (respond libs.uuid_text topic cid render m kv)
  Calm-Replies topic cid render m kv c h = respond-Replies ⊥ topic cid render m kv c (h.at kv)

  -- A listing, which panics with limit 0 only.
  listing-Replies :
      {A : Type 0} (limit : Option ℕ) (topic cid : Text) (render : A → Members) (m : Exec A)
      (kv : Kv)
      → Carries cid render
      → (limit ≢ some 0 → Calm m)
      → Replies (limit ≡ some 0) topic cid (respond libs.uuid_text topic cid render m kv)
  listing-Replies limit topic cid render m kv c h =
      respond-Replies (limit ≡ some 0) topic cid render m kv c
        (λ e. elim (limit_cases limit) [ inl z ↦ z | inr n ↦ absurd ((h n).at kv e) ])

  or_refuse-Replies :
      {A : Type 0} (P : Type 0) (topic cid : Text) (k : A → Kv → Handled) (r : Result StoreError A)
      (kv : Kv)
      → ((a : A) → Replies P topic cid (k a kv))
      → Replies P topic cid (or_refuse libs call topic cid k r kv)
  unfolding or_refuse refused publish publish_error
  or_refuse-Replies P topic cid k (ok a) kv h = h a
  or_refuse-Replies P topic cid k (err e) kv h = inl (refl, _, refl)

  parse_uuid-Replies :
      (P : Type 0) (s topic cid : Text) (k : Uuid → Kv → Handled) (kv : Kv)
      → ((id : Uuid) → Replies P topic cid (k id kv))
      → Replies P topic cid (parse_uuid libs call s topic cid k kv)
  unfolding parse_uuid
  parse_uuid-Replies P s topic cid k kv h =
      or_refuse-Replies P topic cid k (uuid_of (libs.parse_str s)) kv h

  parse_pubkey-Replies :
      (P : Type 0) (bytes : Option (List ℕ)) (topic cid : Text) (k : Option (List ℕ) → Kv → Handled)
      (kv : Kv)
      → ((key : Option (List ℕ)) → Replies P topic cid (k key kv))
      → Replies P topic cid (parse_pubkey libs call bytes topic cid k kv)
  unfolding parse_pubkey
  parse_pubkey-Replies P bytes topic cid k kv h =
      or_refuse-Replies P topic cid k (pubkey_of bytes) kv h

  -- Every request is answered by one message, on the topic of its response, an object with its
  -- correlation id, whether the operation returns, fails or refuses its arguments; only a listing
  -- with limit 0 can panic, and then there is no message.
  pub handle-IsAnswered : (r : Request) (kv : Kv) → IsAnswered r (handle libs call r kv)
  unfolding handle handle_resolve handle_link handle_unlink handle_create handle_set_display_name
      handle_set_public_key handle_links handle_get handle_delete handle_list handle_context_set
      handle_context_clear handle_context_get handle_context_list_for_user
      handle_context_list_in_context
  handle-IsAnswered (Request.resolve_request req) kv =
      Calm-Replies _ _ _ _ kv (λ a. (_, refl)) (resolve-Calm libs call.faults _ _ _ _)
  handle-IsAnswered (Request.link_request req) kv =
      parse_uuid-Replies _ _ _ _ _ kv
        (λ id. Calm-Replies _ _ _ _ kv (λ a. (_, refl)) (link-Calm libs call.faults _ _ _ _ _ _ _))
  handle-IsAnswered (Request.unlink_request req) kv =
      Calm-Replies _ _ _ _ kv (λ a. (_, refl)) (unlink-Calm libs call.faults _ _ _)
  handle-IsAnswered (Request.create_request req) kv =
      Calm-Replies _ _ _ _ kv (λ a. (_, refl)) (create_user-Calm libs call.faults _ _ _)
  handle-IsAnswered (Request.set_display_name_request req) kv =
      parse_uuid-Replies _ _ _ _ _ kv (λ id.
        Calm-Replies _ _ _ _ kv (λ a. (_, refl)) (set_display_name-Calm libs call.faults _ _))
  handle-IsAnswered (Request.set_public_key_request req) kv = parse_uuid-Replies _ _ _ _ _ kv (λ id.
      parse_pubkey-Replies _ _ _ _ _ kv (λ key.
        Calm-Replies _ _ _ _ kv (λ a. (_, refl)) (set_public_key-Calm libs call.faults _ _)))
  handle-IsAnswered (Request.links_request req) kv =
      parse_uuid-Replies _ _ _ _ _ kv
        (λ id. Calm-Replies _ _ _ _ kv (λ a. (_, refl)) (list_links-Calm libs call.faults _))
  handle-IsAnswered (Request.get_request req) kv =
      parse_uuid-Replies _ _ _ _ _ kv
        (λ id. Calm-Replies _ _ _ _ kv (λ a. (_, refl)) (get_user-Calm libs call.faults _))
  handle-IsAnswered (Request.delete_request req) kv =
      parse_uuid-Replies _ _ _ _ _ kv
        (λ id. Calm-Replies _ _ _ _ kv (λ a. (_, refl)) (delete_user-Calm libs call.faults _))
  handle-IsAnswered (Request.list_request req) kv =
      listing-Replies req.limit _ _ _ _ kv (λ a. (_, refl))
        (λ n. list_users_paginated-Calm libs call.faults _ req.limit n)
  handle-IsAnswered (Request.context_set_request req) kv =
      Calm-Replies _ _ _ _ kv (λ a. (_, refl)) (set_context-Calm libs call.faults _ _ _ _ _ _)
  handle-IsAnswered (Request.context_clear_request req) kv =
      Calm-Replies _ _ _ _ kv (λ a. (_, refl)) (clear_context-Calm libs call.faults _ _ _ _)
  handle-IsAnswered (Request.context_get_request req) kv =
      Calm-Replies _ _ _ _ kv (λ a. (_, refl)) (get_context-Calm libs call.faults _ _ _ _)
  handle-IsAnswered (Request.context_list_for_user_request req) kv =
      parse_uuid-Replies _ _ _ _ _ kv (λ id.
        listing-Replies req.limit _ _ _ _ kv (λ a. (_, refl))
          (λ n. list_context_for_user-Calm libs call.faults _ _ req.limit n))
  handle-IsAnswered (Request.context_list_in_context_request req) kv =
      listing-Replies req.limit _ _ _ _ kv (λ a. (_, refl))
        (λ n. list_context_in_context-Calm libs call.faults _ _ _ _ req.limit n)

-- ===== src/Users/Owners/Served.antt =====
-- About requests and their sequences (capsules/capsule-users/src/lib.rs).
use unicity_aos.Base.{ℕ, Option, List, [], ◌∷◌}
use unicity_aos.Base.Text.{Text}
use unicity_aos.Base.Result.{Result, ok, err}
use unicity_aos.Users.Types.{uuid_text-injective, Uuid, Libs, AreLawful, StoreError}
use unicity_aos.Users.Responses.{Members}
use unicity_aos.Users.Backend.{Kv, read, lookup, Exec, Halt}
use unicity_aos.Users.Backend.Runs.{Post, record_at}
use unicity_aos.Users.Backend.Runs.Keeps.{Keeps}
use unicity_aos.Users.Backend.Runs.Consequence.{Runs-strengthen}
use unicity_aos.Users.Capsule.{
  Handled, Call, answer, respond, refused, or_refuse, parse_uuid, parse_pubkey, pubkey_of, uuid_of,
}
use unicity_aos.Users.Capsule.Identity.{
  handle_resolve, handle_link, handle_unlink, handle_create, handle_set_display_name,
  handle_set_public_key, handle_links, handle_get, handle_delete,
}
use unicity_aos.Users.Capsule.Serve.{
  Request, handle, handle_list, handle_context_set, handle_context_clear, handle_context_get,
  handle_context_list_for_user, handle_context_list_in_context,
}
use unicity_aos.Users.Owners.{LinksResolve}
use unicity_aos.Users.Owners.Reads.{
  get_user-Keeps, resolve-Keeps, list_links-Keeps, list_users_paginated-Keeps, get_context-Keeps,
  list_context_for_user-Keeps, list_context_in_context-Keeps,
}
use unicity_aos.Users.Owners.Kept.{
  create_user-Keeps, set_display_name-Keeps, set_public_key-Keeps, link-Keeps, unlink-Keeps,
  set_context-Keeps, clear_context-Keeps,
}
use unicity_aos.Users.Owners.Deletion.{delete_user-Runs}

-- A handler that leaves a store with `P`.
record Leaves (P : Kv → Type 0) (h : Kv → Handled) : Type 0 where
  pub at : (kv : Kv) → P kv → P (h kv).kv

answer-Keeps :
    {A : Type 0} (P : Kv → Type 0) (uuid_text : Uuid → Text) (topic cid : Text)
    (render : A → Members) (r : Result Halt A) (kv : Kv)
    → Post (λ _. P) P r kv
    → P (answer uuid_text topic cid render r kv).kv
unfolding answer
answer-Keeps P uuid_text topic cid render (ok a) kv p = p
answer-Keeps P uuid_text topic cid render (err (Halt.failed e)) kv p = p
answer-Keeps P uuid_text topic cid render (err Halt.panicked) kv p = p

respond_kv :
    {A : Type 0} (P : Kv → Type 0) (uuid_text : Uuid → Text) (topic cid : Text)
    (render : A → Members) (m : Exec A) (kv : Kv)
    → Post (λ _. P) P (m kv).0 (m kv).1
    → P (respond uuid_text topic cid render m kv).kv
unfolding respond
respond_kv P uuid_text topic cid render m kv p =
    answer-Keeps P uuid_text topic cid render (m kv).0 (m kv).1 p

module _ {P : Kv → Type 0} (libs : Libs) (call : Call) where
  respond-Keeps :
      {A : Type 0} (topic cid : Text) (render : A → Members) {m : Exec A}
      → Keeps P m
      → Leaves P (respond libs.uuid_text topic cid render m)
  respond-Keeps topic cid render {m = m} h = record {
    at = λ kv p. respond_kv P libs.uuid_text topic cid render m kv (h.at kv p);
  }

  or_refuse-Keeps :
      {A : Type 0} (topic cid : Text) (k : A → Kv → Handled) (r : Result StoreError A)
      → ((a : A) → Leaves P (k a))
      → Leaves P (or_refuse libs call topic cid k r)
  unfolding or_refuse refused
  or_refuse-Keeps topic cid k (ok a) h = h a
  or_refuse-Keeps topic cid k (err e) h = record { at = λ kv p. p }

  parse_uuid-Keeps :
      (s topic cid : Text) (k : Uuid → Kv → Handled)
      → ((id : Uuid) → Leaves P (k id))
      → Leaves P (parse_uuid libs call s topic cid k)
  unfolding parse_uuid
  parse_uuid-Keeps s topic cid k h = or_refuse-Keeps topic cid k (uuid_of (libs.parse_str s)) h

  parse_pubkey-Keeps :
      (bytes : Option (List ℕ)) (topic cid : Text) (k : Option (List ℕ) → Kv → Handled)
      → ((key : Option (List ℕ)) → Leaves P (k key))
      → Leaves P (parse_pubkey libs call bytes topic cid k)
  unfolding parse_pubkey
  parse_pubkey-Keeps bytes topic cid k h = or_refuse-Keeps topic cid k (pubkey_of bytes) h

handle-Leaves :
    (libs : Libs)
    → AreLawful libs
    → (call : Call) (r : Request) → Leaves (LinksResolve libs) (handle libs call r)
unfolding handle handle_resolve handle_link handle_unlink handle_create handle_set_display_name
    handle_set_public_key handle_links handle_get handle_delete handle_list handle_context_set
    handle_context_clear handle_context_get handle_context_list_for_user
    handle_context_list_in_context
handle-Leaves libs lawful call (Request.resolve_request req) =
    respond-Keeps libs call _ _ _ (resolve-Keeps libs call.faults _ _ _ _)
handle-Leaves libs lawful call (Request.link_request req) =
    parse_uuid-Keeps libs call _ _ _ _
      (λ id. respond-Keeps libs call _ _ _ (link-Keeps libs lawful call.faults _ _ _ _ id _ _))
handle-Leaves libs lawful call (Request.unlink_request req) =
    respond-Keeps libs call _ _ _ (unlink-Keeps libs lawful call.faults _ _ _)
handle-Leaves libs lawful call (Request.create_request req) =
    respond-Keeps libs call _ _ _ (create_user-Keeps libs lawful call.faults _ _ _)
handle-Leaves libs lawful call (Request.set_display_name_request req) =
    parse_uuid-Keeps libs call _ _ _ _
      (λ id. respond-Keeps libs call _ _ _ (set_display_name-Keeps libs lawful call.faults id _))
handle-Leaves libs lawful call (Request.set_public_key_request req) =
    parse_uuid-Keeps libs call _ _ _ _ (λ id.
      parse_pubkey-Keeps libs call _ _ _ _ (λ key.
        respond-Keeps libs call _ _ _ (set_public_key-Keeps libs lawful call.faults id key)))
handle-Leaves libs lawful call (Request.links_request req) =
    parse_uuid-Keeps libs call _ _ _ _
      (λ id. respond-Keeps libs call _ _ _ (list_links-Keeps libs call.faults id))
handle-Leaves libs lawful call (Request.get_request req) =
    parse_uuid-Keeps libs call _ _ _ _
      (λ id. respond-Keeps libs call _ _ _ (get_user-Keeps libs call.faults id))
handle-Leaves libs lawful call (Request.delete_request req) =
    parse_uuid-Keeps libs call _ _ _ _ (λ id. respond-Keeps libs call _ _ _ (
      Runs-strengthen (λ a kv (h, g). h)
        (delete_user-Runs libs call.faults id (uuid_text-injective libs lawful))))
handle-Leaves libs lawful call (Request.list_request req) =
    respond-Keeps libs call _ _ _ (list_users_paginated-Keeps libs call.faults _ _)
handle-Leaves libs lawful call (Request.context_set_request req) =
    respond-Keeps libs call _ _ _ (set_context-Keeps libs lawful call.faults _ _ _ _ _ _)
handle-Leaves libs lawful call (Request.context_clear_request req) =
    respond-Keeps libs call _ _ _ (clear_context-Keeps libs lawful call.faults _ _ _ _)
handle-Leaves libs lawful call (Request.context_get_request req) =
    respond-Keeps libs call _ _ _ (get_context-Keeps libs call.faults _ _ _ _)
handle-Leaves libs lawful call (Request.context_list_for_user_request req) =
    parse_uuid-Keeps libs call _ _ _ _
      (λ id. respond-Keeps libs call _ _ _ (list_context_for_user-Keeps libs call.faults id _ _))
handle-Leaves libs lawful call (Request.context_list_in_context_request req) =
    respond-Keeps libs call _ _ _ (list_context_in_context-Keeps libs call.faults _ _ _ _ _)

-- Where the libraries read back what they write: any request leaves a stored user behind every
-- link, whichever calls on the store fail.
pub handle-LinksResolve :
    (libs : Libs)
    → AreLawful libs
    → (call : Call) (r : Request) (kv : Kv) → LinksResolve libs kv
    → LinksResolve libs (handle libs call r kv).kv
handle-LinksResolve libs lawful call r = (handle-Leaves libs lawful call r).at

-- The store after a sequence of requests.
unfoldable pub serve : Libs → List (Call × Request) → Kv → Kv
serve libs [] kv = kv
serve libs ((call, r) ∷ rest) kv = serve libs rest (handle libs call r kv).kv

serve-Keeps :
    (libs : Libs)
    → AreLawful libs
    → (history : List (Call × Request)) (kv : Kv) → LinksResolve libs kv
    → LinksResolve libs (serve libs history kv)
unfolding serve
serve-Keeps libs lawful [] kv h = h
serve-Keeps libs lawful ((call, r) ∷ rest) kv h =
    serve-Keeps libs lawful rest _ (handle-LinksResolve libs lawful call r kv h)

-- Where the libraries read back what they write: from the empty store, after any requests, with any
-- failures of calls on the store, each record under the keys of links that decodes names a user who
-- is stored.
pub serve-LinksResolve :
    (libs : Libs)
    → AreLawful libs
    → (history : List (Call × Request)) → LinksResolve libs (serve libs history [])
unfolding record_at read lookup
serve-LinksResolve libs lawful history =
    serve-Keeps libs lawful history [] (record { owner_stored = λ k l (s, e). cc e })

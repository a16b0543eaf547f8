-- ===== src/Users/Requests.antt =====
-- The requests of capsules/capsule-users/src/requests.rs, after their deserialisation.
use unicity_aos.Base.{ℕ, Option, List}
use unicity_aos.Base.Text.{Text}
use unicity_aos.Users.Types.{Source}

pub record ResolveRequest : Type 0 where
  pub source : Source
  pub platform : Text
  pub platform_instance : Option Text
  pub platform_user_id : Text
  pub context_id : Option Text

pub record LinkRequest : Type 0 where
  pub source : Source
  pub platform : Text
  pub platform_instance : Option Text
  pub platform_user_id : Text
  pub astrid_user_id : Text
  pub method : Text
  pub display_name : Option Text

pub record UnlinkRequest : Type 0 where
  pub source : Source
  pub platform : Text
  pub platform_instance : Option Text
  pub platform_user_id : Text

pub record CreateRequest : Type 0 where
  pub source : Source
  pub display_name : Option Text

pub record SetDisplayNameRequest : Type 0 where
  pub source : Source
  pub astrid_user_id : Text
  pub display_name : Option Text

pub record SetPublicKeyRequest : Type 0 where
  pub source : Source
  pub astrid_user_id : Text
  pub public_key : Option (List ℕ)

pub record LinksRequest : Type 0 where
  pub source : Source
  pub astrid_user_id : Text

pub record GetRequest : Type 0 where
  pub source : Source
  pub astrid_user_id : Text

pub record DeleteRequest : Type 0 where
  pub source : Source
  pub astrid_user_id : Text

pub record ListRequest : Type 0 where
  pub source : Source
  pub cursor : Option Text
  pub limit : Option ℕ

pub record ContextSetRequest : Type 0 where
  pub source : Source
  pub platform : Text
  pub platform_instance : Option Text
  pub platform_user_id : Text
  pub context_id : Text
  pub display_name : Text

pub record ContextClearRequest : Type 0 where
  pub source : Source
  pub platform : Text
  pub platform_instance : Option Text
  pub platform_user_id : Text
  pub context_id : Text

pub record ContextGetRequest : Type 0 where
  pub source : Source
  pub platform : Text
  pub platform_instance : Option Text
  pub platform_user_id : Text
  pub context_id : Text

pub record ContextListForUserRequest : Type 0 where
  pub source : Source
  pub astrid_user_id : Text
  pub cursor : Option Text
  pub limit : Option ℕ

pub record ContextListInContextRequest : Type 0 where
  pub source : Source
  pub platform : Text
  pub platform_instance : Option Text
  pub context_id : Text
  pub cursor : Option Text
  pub limit : Option ℕ

-- ===== src/Users/Types.antt =====
-- The records of capsules/capsule-users/src/types.rs, and the JSON and the UUIDs that they use. A
-- UUID is its 128-bit number.
use unicity_aos.Base.{ℕ, Option, ◌≡◌, ◌≢◌, List, [], ◌++◌, codes, ap}
use unicity_aos.Base.Text.{Text, trim, to_ascii_lowercase}
use unicity_aos.Base.Result.{Result, ok}

abbrev pub Uuid : Type 0
Uuid = ℕ

pub record AstridUser : Type 0 where
  pub id : Uuid
  pub public_key : Option (List ℕ)
  pub display_name : Option Text
  pub created_at : Text

pub record FrontendLink : Type 0 where
  pub platform : Text
  pub platform_instance : Option Text
  pub platform_user_id : Text
  pub astrid_user_id : Uuid
  pub linked_at : Text
  pub method : Text
  pub display_name : Option Text

pub record ContextIdentity : Type 0 where
  pub platform : Text
  pub platform_instance : Option Text
  pub platform_user_id : Text
  pub context_id : Text
  pub display_name : Text
  pub updated_at : Text

pub record Source : Type 0 where
  pub uplink : Text
  pub user_id : Option Text
  pub correlation_id : Text

pub data StoreError : Type 0 where
  invalid_input : Text → StoreError
  user_not_found : Uuid → StoreError
  link_not_found : StoreError
  storage : Text → StoreError

-- `Uuid::to_string`, and `Display` of an error.
unfoldable pub error_text : (Uuid → Text) → StoreError → Text
error_text uuid_text (StoreError.invalid_input s) = codes "invalid input: " ++ s
error_text uuid_text (StoreError.user_not_found id) = codes "user not found: " ++ uuid_text id
error_text uuid_text StoreError.link_not_found = codes "link not found"
error_text uuid_text (StoreError.storage s) = codes "storage error: " ++ s

unfoldable pub normalize_platform : Text → Text
normalize_platform name = to_ascii_lowercase (trim name)

pub record ResolvedDisplayName : Type 0 where
  pub name : Text
  pub source : Text

-- `serde_json::to_vec` and `serde_json::from_slice` at one type.
pub record Codec (A : Type 0) : Type 0 where
  pub to_vec : A → Result Text Text
  pub from_slice : Text → Result Text A

-- What is written is not empty, and is read back.
pub record IsLawful {A : Type 0} (codec : Codec A) : Type 0 where
  pub not_empty : (a : A) {b : Text} → codec.to_vec a ≡ ok b → b ≢ []
  pub round_trip : (a : A) {b : Text} → codec.to_vec a ≡ ok b → codec.from_slice b ≡ ok a

-- The libraries that the capsule calls: `Uuid::to_string`, `Uuid::parse_str` and `serde_json`.
pub record Libs : Type 0 where
  pub uuid_text : Uuid → Text
  pub parse_str : Text → Result Text Uuid
  pub user_json : Codec AstridUser
  pub link_json : Codec FrontendLink
  pub context_json : Codec ContextIdentity

-- What the libraries promise: what they write, they read back.
pub record AreLawful (libs : Libs) : Type 0 where
  pub uuid_round_trip : (id : Uuid) → libs.parse_str (libs.uuid_text id) ≡ ok id
  pub user_lawful : IsLawful libs.user_json
  pub link_lawful : IsLawful libs.link_json
  pub context_lawful : IsLawful libs.context_json

pub uuid_text-injective :
    (libs : Libs) → AreLawful libs → (a b : Uuid) → libs.uuid_text a ≡ libs.uuid_text b → a ≡ b
uuid_text-injective libs lawful a b e =
    cc (lawful.uuid_round_trip a, lawful.uuid_round_trip b, ap libs.parse_str e)

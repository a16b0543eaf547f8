-- ===== src/Users/Responses.antt =====
-- The JSON of responses, capsules/capsule-users/src/responses.rs. An object is the list of its
-- members, each key once.
use unicity_aos.Base.{ℕ, Bool, Option, none, some, List, [], ◌∷◌, codes}
use unicity_aos.Base.Text.{Text}
use unicity_aos.Users.Types.{Uuid, AstridUser, FrontendLink, ContextIdentity}

mutual
  pub data Value : Type 0 where
    null : Value
    bool : Bool → Value
    number : ℕ → Value
    string : Text → Value
    array : Values → Value
    object : Members → Value

  pub data Values : Type 0 where
    no_values : Values
    value : Value → Values → Values

  pub data Members : Type 0 where
    no_members : Members
    member : Text → Value → Members → Members

unfoldable pub array_of : {A : Type 0} → (A → Value) → List A → Values
array_of f [] = Values.no_values
array_of f (x ∷ xs) = Values.value (f x) (array_of f xs)

-- A member that is there if the option is.
abbrev pub optional : {A : Type 0} → Text → (A → Value) → Option A → Members → Members
optional key f none rest = rest
optional key f (some a) rest = Members.member key (f a) rest

abbrev pub text_member : Text → Text → Members → Members
text_member key t rest = Members.member key (Value.string t) rest

module _ (uuid_text : Uuid → Text) where
  unfoldable pub user_value : AstridUser → Value
  user_value u = Value.object (
      text_member (codes "id") (uuid_text u.id) (
        optional (codes "display-name") Value.string u.display_name (
          optional (codes "public-key") (λ key. Value.array (array_of Value.number key))
            u.public_key (text_member (codes "created-at") u.created_at Members.no_members))))

  unfoldable pub user_to_json : Option AstridUser → Value
  user_to_json none = Value.null
  user_to_json (some u) = user_value u

  unfoldable pub link_to_json : FrontendLink → Value
  link_to_json l = Value.object (
      text_member (codes "platform") l.platform (
        optional (codes "platform-instance") Value.string l.platform_instance (
          text_member (codes "platform-user-id") l.platform_user_id (
            text_member (codes "astrid-user-id") (uuid_text l.astrid_user_id) (
              text_member (codes "linked-at") l.linked_at (
                text_member (codes "method") l.method (
                  optional (codes "display-name") Value.string l.display_name
                    Members.no_members)))))))

unfoldable pub context_to_json : ContextIdentity → Value
context_to_json c = Value.object (
    text_member (codes "platform") c.platform (
      optional (codes "platform-instance") Value.string c.platform_instance (
        text_member (codes "platform-user-id") c.platform_user_id (
          text_member (codes "context-id") c.context_id (
            text_member (codes "display-name") c.display_name
              (text_member (codes "updated-at") c.updated_at Members.no_members))))))

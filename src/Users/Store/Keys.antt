-- ===== src/Users/Store/Keys.antt =====
-- The keys of the identity store and the validation of their parts, the first half of
-- capsules/capsule-users/src/store.rs.
pub mod Distinct
use unicity_aos.Base.{◌||◌, Option, none, some, List, [], ◌∷◌, ◌++◌, codes, Bool}
use unicity_aos.Base.Text.{Text, text_eq, has_char, trim, is_empty}
use unicity_aos.Base.Result.{Result, ok, fail_if, ◌>>◌}
use unicity_aos.Users.Types.{Uuid, StoreError}

abbrev pub instance_none_sentinel : Text
instance_none_sentinel = codes "_"

abbrev pub user_family : Text
user_family = codes "user/"

abbrev pub link_family : Text
link_family = codes "link/"

unfoldable pub user_key : (Uuid → Text) → Uuid → Text
user_key uuid_text id = user_family ++ uuid_text id

unfoldable pub instance_segment : Option Text → Text
instance_segment none = instance_none_sentinel
instance_segment (some s) = s

-- Parts of a key with a slash after each but the last.
unfoldable pub joined : List Text → Text → Text
joined [] last = last
joined (s ∷ parts) last = s ++ (b'/' ∷ joined parts last)

unfoldable pub link_key : Text → Option Text → Text → Text
link_key platform inst platform_user_id =
    joined (codes "link" ∷ platform ∷ instance_segment inst ∷ []) platform_user_id

unfoldable pub name_key : Text → Text
name_key name = codes "name/" ++ name

unfoldable pub context_key : Text → Option Text → Text → Text → Text
context_key platform inst context_id platform_user_id =
    joined (codes "context" ∷ platform ∷ instance_segment inst ∷ context_id ∷ []) platform_user_id

unfoldable pub context_prefix_in_context : Text → Option Text → Text → Text
context_prefix_in_context platform inst context_id =
    joined (codes "context" ∷ platform ∷ instance_segment inst ∷ context_id ∷ []) []

unfoldable pub context_prefix_for_link_bucket : Text → Option Text → Text
context_prefix_for_link_bucket platform inst =
    joined (codes "context" ∷ platform ∷ instance_segment inst ∷ []) []

-- `str::ends_with`
unfoldable pub ends_with : Text → Text → Bool
ends_with [] t = text_eq [] t
ends_with (c ∷ s) t = text_eq (c ∷ s) t || ends_with s t

unfoldable pub validate_non_empty : Text → Text → Result StoreError (Unit {0})
validate_non_empty value field =
    fail_if (is_empty (trim value)) (StoreError.invalid_input (field ++ codes " must not be empty"))

unfoldable pub breaks_key : Text → Bool
breaks_key value = has_char value b'/' || has_char value 0

unfoldable pub validate_key_component : Text → Text → Result StoreError (Unit {0})
validate_key_component value field = do
  validate_non_empty value field
  fail_if (breaks_key value)
      (StoreError.invalid_input (field ++ codes " must not contain '/' or null bytes"))

unfoldable pub validate_instance : Option Text → Result StoreError (Unit {0})
validate_instance none = ok tt
validate_instance (some s) = do
  validate_key_component s (codes "platform_instance")
  fail_if (text_eq s instance_none_sentinel)
      (StoreError.invalid_input (codes "platform_instance must not be \"_\" (reserved sentinel)"))

-- The checks of `create_user` and `set_display_name`.
unfoldable pub validate_display_name : Option Text → Result StoreError (Unit {0})
validate_display_name none = ok tt
validate_display_name (some name) =
    fail_if (breaks_key name)
      (StoreError.invalid_input (codes "display_name must not contain '/' or null bytes"))

-- The checks that the operations on one link start with.
unfoldable pub validate_link : Text → Option Text → Text → Result StoreError (Unit {0})
validate_link platform inst platform_user_id = do
  validate_key_component platform (codes "platform")
  validate_instance inst
  validate_key_component platform_user_id (codes "platform_user_id")

unfoldable pub validate_context : Text → Option Text → Text → Text → Result StoreError (Unit {0})
validate_context platform inst platform_user_id context_id = do
  validate_link platform inst platform_user_id
  validate_key_component context_id (codes "context_id")

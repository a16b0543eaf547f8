-- ===== src/Users/Store/Accounts.antt =====
-- The operations on users, the second part of capsules/capsule-users/src/store.rs. The clock and the
-- UUID that `AstridUser::new` draws are inputs.
use unicity_aos.Base.{ℕ, Option, none, some, List, not, Bool, false}
use unicity_aos.Base.Text.{Text, text_eq, trim, is_empty}
use unicity_aos.Users.Types.{Uuid, StoreError, AstridUser, Libs}
use unicity_aos.Users.Backend.{Exec, pure, ◌>>=◌, ◌>>◌, when, Faults, get, set, delete}
use unicity_aos.Users.Store.Keys.{user_key, name_key, validate_display_name}
use unicity_aos.Users.Store.Records.{lift, ok_or, get_json, set_json}

-- `bytes` is the text of this user's id.
abbrev pub points_at : Option Text → Text → Bool
points_at none id = false
points_at (some bytes) id = text_eq bytes id

module _ (libs : Libs) (f : Faults) where
  unfoldable pub get_user : Uuid → Exec (Option AstridUser)
  get_user id = get_json f libs.user_json (user_key libs.uuid_text id)

  -- The entry of the index of names, if the trimmed name is not empty.
  unfoldable pub index_name : Uuid → Option Text → Exec Unit
  index_name id none = pure tt
  index_name id (some name) =
      when (not (is_empty (trim name))) (set f (name_key (trim name)) (libs.uuid_text id))

  -- The entry of the old name goes, if it is this user's.
  unfoldable pub clear_name : Uuid → Option Text → Exec Unit
  clear_name id none = pure tt
  clear_name id (some name) = do
    bytes ← get f (name_key (trim name))
    when (points_at bytes (libs.uuid_text id)) (delete f (name_key (trim name)))

  unfoldable pub save_user : AstridUser → Exec Unit
  save_user user = set_json f libs.user_json (user_key libs.uuid_text user.id) user

  unfoldable pub create_user : Uuid → Text → Option Text → Exec AstridUser
  create_user fresh now display_name = do
    lift (validate_display_name display_name)
    let user : AstridUser = record {
      id = fresh;
      public_key = none;
      display_name = display_name;
      created_at = now;
    }
    save_user user
    index_name fresh display_name
    pure user

  unfoldable pub set_display_name : Uuid → Option Text → Exec AstridUser
  set_display_name id display_name = do
    lift (validate_display_name display_name)
    found ← get_user id
    old ← ok_or found (StoreError.user_not_found id)
    clear_name id old.display_name
    let user : AstridUser = record old { display_name = display_name }
    set_json f libs.user_json (user_key libs.uuid_text id) user
    index_name id display_name
    pure user

  unfoldable pub set_public_key : Uuid → Option (List ℕ) → Exec AstridUser
  set_public_key id public_key = do
    found ← get_user id
    old ← ok_or found (StoreError.user_not_found id)
    let user : AstridUser = record old { public_key = public_key }
    set_json f libs.user_json (user_key libs.uuid_text id) user
    pure user

-- ===== src/Users/Directory/Outside.antt =====
-- About the operations that write no link (capsules/capsule-users/src/store.rs).
use unicity_aos.Base.{ℕ, not, Option, none, some, List}
use unicity_aos.Base.Text.{Text, trim, is_empty}
use unicity_aos.Users.Types.{Uuid, Libs, AstridUser, ContextIdentity}
use unicity_aos.Users.Backend.{Kv, Faults, without, set, delete}
use unicity_aos.Users.Backend.Runs.{Runs-when, Runs-set, Runs-set_json, Runs-delete}
use unicity_aos.Users.Backend.Runs.Keeps.{Keeps, Keeps-pure, keeps_rules}
use unicity_aos.Users.Store.Keys.{user_key, context_key}
use unicity_aos.Users.Store.Records.{set_json}
use unicity_aos.Users.Store.Accounts.{
  index_name, clear_name, save_user, create_user, set_display_name, set_public_key,
}
use unicity_aos.Users.Store.Links.{delete_overlays}
use unicity_aos.Users.Store.Contexts.{set_context, clear_context}
use unicity_aos.Users.Owners.Writes.{user_key_no_link}
use unicity_aos.Users.Owners.Cascades.{
  IsOutside, name_key-IsOutside, clear_name-Runs, delete_overlays-Runs,
}
use unicity_aos.Users.Owners.Reads.{get_user-Keeps, require_link_exists-Keeps}
use unicity_aos.Users.Owners.Kept.{context_key-family}
use unicity_aos.Users.Directory.{Directory, Shows}
use unicity_aos.Users.Directory.Views.{without_other-Shows, set_other-Shows}

module _ (libs : Libs) (f : Faults) (d : Directory) where
  set_outside : (k v : Text) → IsOutside k → Keeps (Shows libs d) (set f k v)
  set_outside k v (_, n) = Runs-set f (λ kv h. h) k v (λ kv h. set_other-Shows libs d k v kv n h)

  set_user-Shows :
      (id : Uuid) (user : AstridUser)
      → Keeps (Shows libs d) (set_json f libs.user_json (user_key libs.uuid_text id) user)
  set_user-Shows id user =
      Runs-set_json f (λ kv h. h) libs.user_json _ user
        (λ b e kv h. set_other-Shows libs d _ b kv (user_key_no_link libs.uuid_text id) h)

  index_name-Shows :
      (id : Uuid) (name : Option Text) → Keeps (Shows libs d) (index_name libs f id name)
  unfolding index_name
  index_name-Shows id none = Keeps-pure tt
  index_name-Shows id (some name) =
      Runs-when (not (is_empty (trim name)))
        (λ _. set_outside _ (libs.uuid_text id) (name_key-IsOutside (trim name))) (λ _ kv h. h)

  shrinks : (k : Text) (kv : Kv) → IsOutside k → Shows libs d kv → Shows libs d (without k kv)
  shrinks k kv (_, n) h = without_other-Shows libs d k kv n h

  clear_name-Shows :
      (id : Uuid) (name : Option Text) → Keeps (Shows libs d) (clear_name libs f id name)
  clear_name-Shows = clear_name-Runs libs f (λ kv h. h) shrinks

  pub create_user-Shows :
      (fresh : Uuid) (now : Text) (name : Option Text)
      → Keeps (Shows libs d) (create_user libs f fresh now name)
  unfolding create_user save_user
  create_user-Shows fresh now name = search (keeps_rules, set_user-Shows, index_name-Shows) depth 9

  pub set_display_name-Shows :
      (id : Uuid) (name : Option Text) → Keeps (Shows libs d) (set_display_name libs f id name)
  unfolding set_display_name
  set_display_name-Shows id name =
      search (keeps_rules, set_user-Shows, index_name-Shows, clear_name-Shows, get_user-Keeps) depth
        9

  pub set_public_key-Shows :
      (id : Uuid) (key : Option (List ℕ)) → Keeps (Shows libs d) (set_public_key libs f id key)
  unfolding set_public_key
  set_public_key-Shows id key = search (keeps_rules, set_user-Shows, get_user-Keeps) depth 9

  set_overlay-Shows :
      (p : Text) (i : Option Text) (c u : Text) (overlay : ContextIdentity)
      → Keeps (Shows libs d) (set_json f libs.context_json (context_key p i c u) overlay)
  set_overlay-Shows p i c u overlay =
      Runs-set_json f (λ kv h. h) libs.context_json _ overlay
        (λ b e kv h. set_other-Shows libs d _ b kv (context_key-family p i c u).1 h)

  pub set_context-Shows :
      (now p : Text) (i : Option Text) (u c name : Text)
      → Keeps (Shows libs d) (set_context libs f now p i u c name)
  unfolding set_context
  set_context-Shows now p i u c name =
      search (keeps_rules, require_link_exists-Keeps, set_overlay-Shows) depth 9

  delete_overlay-Shows :
      (p : Text) (i : Option Text) (c u : Text)
      → Keeps (Shows libs d) (delete f (context_key p i c u))
  delete_overlay-Shows p i c u =
      Runs-delete f (λ kv h. h) _ (λ kv h. shrinks _ kv (context_key-family p i c u) h)

  pub clear_context-Shows :
      (p : Text) (i : Option Text) (u c : Text)
      → Keeps (Shows libs d) (clear_context libs f p i u c)
  unfolding clear_context
  clear_context-Shows p i u c = search (keeps_rules, delete_overlay-Shows) depth 9

  pub delete_overlays-Shows :
      (p : Text) (i : Option Text) (u : Text) → Keeps (Shows libs d) (delete_overlays libs f p i u)
  delete_overlays-Shows = delete_overlays-Runs libs f (λ kv h. h) shrinks

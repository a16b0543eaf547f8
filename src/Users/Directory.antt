-- ===== src/Users/Directory.antt =====
-- The links of the store as a map from what a link is about to the link: the contract of
-- capsules/capsule-users/src/store.rs.
pub mod Views
pub mod Pruned
pub mod Outside
pub mod Refines
use unicity_aos.Base.{
  ◌≡◌, ◌↔◌, refl, Bool, true, false, ◌&&◌, Option, none, some, if◌then◌else◌, arith,
}
use unicity_aos.Base.Text.{Text, text_eq, text_eq_iff, opt_text_eq, opt_text_eq_iff}
use unicity_aos.Users.Types.{Uuid, Libs, FrontendLink}
use unicity_aos.Users.Backend.{Kv}
use unicity_aos.Users.Backend.Runs.{record_at}
use unicity_aos.Users.Store.Keys.{link_key}
use unicity_aos.Users.Store.Keys.Distinct.{IsPlain}
use unicity_aos.Users.Store.Links.{Triple, triple_of, owned_by}

-- What the store promises of links, without keys and bytes.
abbrev pub Directory : Type 0
Directory = Triple → Option FrontendLink

abbrev pub same_triple : Triple → Triple → Bool
same_triple s t =
    text_eq s.platform t.platform
    && (opt_text_eq s.platform_instance t.platform_instance
        && text_eq s.platform_user_id t.platform_user_id)

-- One link for what it is about; a new one replaces the old.
abbrev pub enter : FrontendLink → Directory → Directory
enter l d t = if same_triple (triple_of l) t then some l else d t

abbrev pub remove : Triple → Directory → Directory
remove s d t = if same_triple s t then none else d t

abbrev pub forget : Uuid → Directory → Directory
forget id d t = if owned_by id (d t) then none else d t

abbrev pub key_of : Triple → Text
key_of t = link_key t.platform t.platform_instance t.platform_user_id

abbrev pub IsPlainTriple : Triple → Type 0
IsPlainTriple t = IsPlain t.platform t.platform_instance t.platform_user_id

-- The store has the links of the directory, for every platform, instance and user that the checks
-- let through.
abbrev pub Shows : Libs → Directory → Kv → Type 0
Shows libs d kv = (t : Triple) → IsPlainTriple t → record_at libs.link_json (key_of t) kv ≡ d t

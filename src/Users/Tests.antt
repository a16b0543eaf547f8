-- ===== src/Users/Tests.antt =====
-- Tests of the identity store (capsules/capsule-users), and the theorems at concrete inputs.
use unicity_aos.Base.{
  Option, ◌≡◌, ◌≢◌, ◌<◌, refl, true, false, none, some, List, [], ◌∷◌, codes, length, arith, ◌↔◌,
}
use unicity_aos.Base.Text.{
  Text, text_eq, text_eq_iff, starts_with, has_char, trim, trim_start, trim_end, is_empty,
  is_whitespace, to_ascii_lowercase, ascii_lower, has_text,
}
use unicity_aos.Base.Result.{ok}
use unicity_aos.Users.Types.{Source, AstridUser, ResolvedDisplayName, normalize_platform}
use unicity_aos.Users.Backend.{
  Kv, no_faults, read, ◌>>=◌, pure, raise, panic, get, set, delete, list_keys, lookup, without,
  keys_under,
}
use unicity_aos.Users.Store.Links.{
  link, delete_user, unlink, resolve, layered, get_link, delete_with_suffix, delete_overlays,
  drop_owned, drop_links, drop_overlays, delete_known, resolve_link, overlay_at,
}
use unicity_aos.Users.Capsule.{Call, answer, respond, or_refuse, refused, parse_uuid, uuid_of}
use unicity_aos.Users.Capsule.Serve.{Request, handle, handle_context_set}
use unicity_aos.Users.Owners.Served.{serve, serve-LinksResolve}
use unicity_aos.Users.Owners.Deletion.{delete_user_clears, IsGone}
use unicity_aos.Users.Owners.{LinksResolve}
use unicity_aos.Users.Overlays.{unlink_clears}
use unicity_aos.Users.Directory.{Directory}
use unicity_aos.Users.Directory.Refines.{IsDirectory, store-IsDirectory}
use unicity_aos.Users.Capsule.Answered.{IsAnswered, handle-IsAnswered}
use unicity_aos.Users.Store.Page.{Next, window, page_size, start_index}
use unicity_aos.Users.Store.Page.Walk.{follow}
use unicity_aos.Users.Store.Page.Covers.{follow-sort_by, window_out_of_range_iff}
use unicity_aos.Base.Sort.{sort_by}
use unicity_aos.Users.Names.{Named, made, resolve-link}
use unicity_aos.Users.Store.Keys.{
  link_key, context_key, user_key, instance_segment, joined, name_key,
  context_prefix_for_link_bucket, ends_with, validate_non_empty, breaks_key, validate_key_component,
  validate_instance, validate_display_name, validate_link, validate_context,
}
use unicity_aos.Users.Fixtures.{libs, libs-AreLawful}
use unicity_aos.Users.Store.Records.{lift, ok_or, decode_bytes, encoded, parsed, get_json, set_json}
use unicity_aos.Users.Store.Accounts.{get_user, index_name, clear_name, save_user, create_user}
use unicity_aos.Users.Store.Contexts.{require_link_exists, set_context}
use unicity_aos.Users.Capsule.Identity.{handle_create, handle_link}

abbrev source : Source
source = record { uplink = codes "cli"; user_id = none; correlation_id = codes "c1" }

abbrev call : Call
call = record { faults = no_faults; now = codes "now"; fresh = 7 }

abbrev create_ada : Request
create_ada = Request.create_request (record { source = source; display_name = some (codes "Ada") })

abbrev link_ada : Request
link_ada = Request.link_request (record {
  source = source;
  platform = codes " Discord";
  platform_instance = none;
  platform_user_id = codes "42";
  astrid_user_id = 7 ∷ [];
  method = codes "oauth";
  display_name = none;
})

abbrev nick_ada : Request
nick_ada = Request.context_set_request (record {
  source = source;
  platform = codes "discord";
  platform_instance = none;
  platform_user_id = codes "42";
  context_id = codes "g1";
  display_name = codes "ada!";
})

abbrev setup : List (Call × Request)
setup = (call, create_ada) ∷ (call, link_ada) ∷ (call, nick_ada) ∷ []

abbrev stocked : Kv
stocked = serve libs setup []

serve-LinksResolve_example : LinksResolve libs (serve libs setup [])
serve-LinksResolve_example = serve-LinksResolve libs libs-AreLawful setup

ada_deleted : (delete_user libs no_faults 7 stocked).0 ≡ ok true
unfolding text_eq starts_with has_char trim trim_start trim_end is_empty is_whitespace
    to_ascii_lowercase ascii_lower has_text normalize_platform ◌>>=◌ pure raise panic get set delete
    list_keys read lookup without keys_under user_key instance_segment joined link_key name_key
    context_key context_prefix_for_link_bucket ends_with validate_non_empty breaks_key
    validate_key_component validate_instance validate_display_name validate_link validate_context
    lift ok_or decode_bytes encoded parsed get_json set_json get_user index_name clear_name
    save_user create_user get_link link delete_with_suffix delete_overlays unlink drop_owned
    drop_links drop_overlays delete_known delete_user resolve resolve_link overlay_at layered
    require_link_exists set_context answer respond or_refuse refused parse_uuid uuid_of
    handle_create handle_link handle handle_context_set serve
ada_deleted = refl

delete_user_clears_example :
    LinksResolve libs (delete_user libs no_faults 7 stocked).1
    × IsGone libs no_faults 7 (delete_user libs no_faults 7 stocked).1
delete_user_clears_example =
    delete_user_clears libs no_faults 7 libs-AreLawful stocked
      (serve-LinksResolve libs libs-AreLawful setup) ada_deleted

ada_unlinked : (unlink libs no_faults (codes "discord") none (codes "42") stocked).0 ≡ ok true
unfolding text_eq starts_with has_char trim trim_start trim_end is_empty is_whitespace
    to_ascii_lowercase ascii_lower has_text normalize_platform ◌>>=◌ pure raise panic get set delete
    list_keys read lookup without keys_under user_key instance_segment joined link_key name_key
    context_key context_prefix_for_link_bucket ends_with validate_non_empty breaks_key
    validate_key_component validate_instance validate_display_name validate_link validate_context
    lift ok_or decode_bytes encoded parsed get_json set_json get_user index_name clear_name
    save_user create_user get_link link delete_with_suffix delete_overlays unlink drop_owned
    drop_links drop_overlays delete_known delete_user resolve resolve_link overlay_at layered
    require_link_exists set_context answer respond or_refuse refused parse_uuid uuid_of
    handle_create handle_link handle handle_context_set serve
ada_unlinked = refl

unlink_clears_example :
    (read
        (link_key (normalize_platform (codes "discord")) none (codes "42"))
        (unlink libs no_faults (codes "discord") none (codes "42") stocked).1
      ≡ none)
    × ((context_id : Text)
        → read
            (context_key (normalize_platform (codes "discord")) none context_id (codes "42"))
            (unlink libs no_faults (codes "discord") none (codes "42") stocked).1
          ≡ none)
unlink_clears_example =
    unlink_clears libs no_faults (codes "discord") none (codes "42") stocked ada_unlinked

abbrev ada : AstridUser
ada = record {
  id = 7;
  public_key = none;
  display_name = some (codes "Ada");
  created_at = codes "now";
}

abbrev no_links : Directory
no_links t = none

store-IsDirectory_example : IsDirectory libs no_faults no_links
store-IsDirectory_example = store-IsDirectory libs libs-AreLawful no_faults no_links

handle-IsAnswered_example : IsAnswered link_ada (handle libs call link_ada [])
handle-IsAnswered_example = handle-IsAnswered libs call link_ada []

abbrev three_keys : List Text
three_keys = codes "user/b" ∷ codes "user/a" ∷ codes "user/c" ∷ []

apart : (s t : Text) → text_eq s t ≡ false → s ≢ t
apart s t n e = cc (n, (text_eq_iff s t).1 e)

abbrev itself : Text → Text
itself k = k

follow-sort_by_example :
    follow itself 4 (some 2) (sort_by itself three_keys) none ≡ some (sort_by itself three_keys)
unfolding page_size text_eq
follow-sort_by_example =
    follow-sort_by itself (some 2) three_keys 4
      ((apart _ _ refl, (apart _ _ refl, tt)), ((apart _ _ refl, tt), (tt, tt))) (omega arith)
      (omega arith)

window_out_of_range_iff_example :
    ((window itself none (some 0) three_keys).cursor ≡ Next.out_of_range) ↔ (
      (page_size (some 0) ≡ 0) × (start_index itself none three_keys ≡ 0) × (0 < length three_keys))
window_out_of_range_iff_example = window_out_of_range_iff itself none (some 0) three_keys

abbrev only_ada : Kv
only_ada = serve libs ((call, create_ada) ∷ []) []

resolve-link_example :
    (user : AstridUser) × (shown : Option ResolvedDisplayName) × ((made libs
        (codes "now")
        (codes "discord")
        none
        (codes "42")
        7
        (codes "oauth")
        none)
      ≡ (made libs (codes "now") (codes "discord") none (codes "42") 7 (codes "oauth") none))
    × ((get_user libs no_faults 7 only_ada).0 ≡ ok (some user))
    × ((resolve libs no_faults
          (codes "discord")
          none
          (codes "42")
          none
          (link libs no_faults
            (codes "now")
            (codes "discord")
            none
            (codes "42")
            7
            (codes "oauth")
            none
            only_ada).1).0
        ≡ ok (some user, shown))
    × Named libs
        (codes "now")
        (codes "discord")
        none
        (codes "42")
        7
        (codes "oauth")
        none
        none
        user.display_name
        shown
unfolding text_eq starts_with has_char trim trim_start trim_end is_empty is_whitespace
    to_ascii_lowercase ascii_lower has_text normalize_platform ◌>>=◌ pure raise panic get set delete
    list_keys read lookup without keys_under user_key instance_segment joined link_key name_key
    context_key context_prefix_for_link_bucket ends_with validate_non_empty breaks_key
    validate_key_component validate_instance validate_display_name validate_link validate_context
    lift ok_or decode_bytes encoded parsed get_json set_json get_user index_name clear_name
    save_user create_user get_link link delete_with_suffix delete_overlays unlink drop_owned
    drop_links drop_overlays delete_known delete_user resolve resolve_link overlay_at layered
    require_link_exists set_context answer respond or_refuse refused parse_uuid uuid_of
    handle_create handle_link handle handle_context_set serve
resolve-link_example =
    resolve-link libs (codes "now") (codes "discord") none (codes "42") 7 (codes "oauth") none
      libs-AreLawful.link_lawful only_ada
      (made libs (codes "now") (codes "discord") none (codes "42") 7 (codes "oauth") none) refl

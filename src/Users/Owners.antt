-- ===== src/Users/Owners.antt =====
-- About the users that links name (capsules/capsule-users/src/store.rs): which writes keep a stored
-- user behind every link.
pub mod Writes
pub mod Cascades
pub mod Reads
pub mod Kept
pub mod Served
pub mod Deletion
use unicity_aos.Base.{
  ◌≡◌, ◌≢◌, ◌+◌, Bool, true, false, Option, none, some, List, [], ◌∷◌, ◌++◌, arith, sym, ◌∙◌, refl,
  Bool-cases, inl, inr, ℕ, ap, if-cases,
}
use unicity_aos.Base.Text.{Text, text_eq, text_eq_iff, starts_with, append_cancel_left}
use unicity_aos.Base.Result.{ok}
use unicity_aos.Users.Types.{Uuid, Libs, AstridUser, FrontendLink, Codec, IsLawful}
use unicity_aos.Users.Backend.{Kv, without, read, not_blank}
use unicity_aos.Users.Backend.Entries.{
  read-without_self, read-without_ne, read-set_self, read-set_ne,
}
use unicity_aos.Users.Backend.Runs.{record_at, parse_or_none}
use unicity_aos.Users.Store.Keys.{link_family, user_family, user_key}
use unicity_aos.Users.Store.Links.{owned_by, is_some}

pub is_some_of : {A : Type 0} (o : Option A) → o ≢ none → is_some o ≡ true
is_some_of none n = absurd (n refl)
is_some_of (some a) n = refl

module _ {A : Type 0} (codec : Codec A) where
  pub record_at-without_self : (k : Text) (kv : Kv) → record_at codec k (without k kv) ≡ none
  unfolding record_at
  record_at-without_self k kv = ap (parse_or_none codec) (read-without_self k kv)

  pub record_at-without_ne :
      (k j : Text) (kv : Kv) → k ≢ j → record_at codec j (without k kv) ≡ record_at codec j kv
  unfolding record_at
  record_at-without_ne k j kv n = ap (parse_or_none codec) (read-without_ne k j kv n)

  pub record_at-set_ne :
      (k j v : Text) (kv : Kv)
      → k ≢ j
      → record_at codec j ((k, v) ∷ without k kv) ≡ record_at codec j kv
  unfolding record_at
  record_at-set_ne k j v kv n = ap (parse_or_none codec) (read-set_ne k j v kv n)

  -- A record that was written is read back.
  pub record_at-set_self :
      IsLawful codec
      → (k b : Text) (a : A) (kv : Kv) → codec.to_vec a ≡ ok b
      → record_at codec k ((k, b) ∷ without k kv) ≡ some a
  unfolding record_at
  record_at-set_self lawful k [] a kv e = absurd (lawful.not_empty a e refl)
  record_at-set_self lawful k (c ∷ b) a kv e =
      rw (read-set_self k (c ∷ b) kv, lawful.round_trip a e) refl

module _ (libs : Libs) where
  abbrev pub stored : Uuid → Kv → Bool
  stored id kv = is_some (read (user_key libs.uuid_text id) kv)

  -- A link that the store has under the family of links.
  abbrev pub HasLink : Text → FrontendLink → Kv → Type 0
  HasLink k l kv = (starts_with k link_family ≡ true) × (record_at libs.link_json k kv ≡ some l)

  -- Every link names a user that is stored.
  pub record LinksResolve (kv : Kv) : Type 0 where
    pub owner_stored :
        (k : Text) (l : FrontendLink) → HasLink k l kv → stored l.astrid_user_id kv ≡ true

  -- No link names this user.
  abbrev pub IsUnlinked : Uuid → Kv → Type 0
  IsUnlinked id kv = (k : Text) (l : FrontendLink) → HasLink k l kv → owned_by id (some l) ≡ false

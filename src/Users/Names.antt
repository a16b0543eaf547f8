-- ===== src/Users/Names.antt =====
-- About a link and the name that it resolves to (capsules/capsule-users/src/store.rs).
use unicity_aos.Base.{
  ◌⊎◌, inl, inr, Option-cases, ◌≡◌, ◌≢◌, refl, ap, ◌∙◌, false, Option, none, some, [], ◌∷◌, ◌++◌,
  codes,
}
use unicity_aos.Base.Text.{Text, starts_with}
use unicity_aos.Base.Result.{Result, ok, err}
use unicity_aos.Users.Types.{
  Uuid, Libs, AstridUser, FrontendLink, ResolvedDisplayName, StoreError, Codec, IsLawful,
  normalize_platform,
}
use unicity_aos.Users.Backend
use unicity_aos.Users.Backend.{Kv, Halt, no_faults, read, without, get, set, not_blank}
use unicity_aos.Users.Backend.Entries.{read-set_self, read-set_ne}
use unicity_aos.Users.Store.Keys.{
  joined, user_key, link_key, user_family, validate_link, validate_non_empty,
}
use unicity_aos.Users.Store.Records.{get_json, set_json, parsed, decode_bytes, encoded, lift}
use unicity_aos.Users.Store.Accounts.{get_user}
use unicity_aos.Users.Store.Links.{get_link, link, resolve, resolve_link, layered, overlay_at}
use unicity_aos.Users.Owners.Writes.{user_key-family, family_ne}

Result-cases : {E A : Type 0} (r : Result E A) → ((a : A) × (r ≡ ok a)) ⊎ ((e : E) × (r ≡ err e))
Result-cases (ok a) = inl (a, refl)
Result-cases (err e) = inr (e, refl)

module _ {A : Type 0} (codec : Codec A) where
  get_json_found :
      (k v : Text) (a : A) (kv : Kv)
      → read k kv ≡ some v
      → codec.from_slice v ≡ ok a
      → get_json no_faults codec k kv ≡ (ok (some a), kv)
  unfolding get_json get parsed decode_bytes Backend.◌>>=◌ Backend.pure
  get_json_found k v a kv r e = rw (r, e) refl

  set_json_writes :
      (k v : Text) (a : A) (kv : Kv)
      → codec.to_vec a ≡ ok v
      → set_json no_faults codec k a kv ≡ (ok tt, (k, v) ∷ without k kv)
  unfolding set_json set encoded Backend.◌>>=◌ Backend.pure
  set_json_writes k v a kv e = rw e refl

module _ (libs : Libs) (now p : Text) (i : Option Text) (u : Text) (id : Uuid) (method : Text)
    (name : Option Text) where
  abbrev pub made : FrontendLink
  made = record {
    platform = normalize_platform p;
    platform_instance = i;
    platform_user_id = u;
    astrid_user_id = id;
    linked_at = now;
    method = method;
    display_name = name;
  }

  abbrev pub key : Text
  key = link_key (normalize_platform p) i u

  link_writes :
      (kv : Kv) (user : AstridUser) (v b : Text)
      → validate_link p i u ≡ ok tt
      → validate_non_empty method (codes "method") ≡ ok tt
      → read (user_key libs.uuid_text id) kv ≡ some v
      → libs.user_json.from_slice v ≡ ok user
      → libs.link_json.to_vec made ≡ ok b
      → link libs no_faults now p i u id method name kv ≡ (ok made, (key, b) ∷ without key kv)
  unfolding link get_user Backend.◌>>=◌ lift Backend.pure
  link_writes kv user v b valid m r e w =
      rw
        (
          valid,
          m,
          get_json_found libs.user_json _ v user kv r e,
          set_json_writes libs.link_json key b made kv w,
        )
        refl

  resolve_reads :
      (kv : Kv) (user : AstridUser) (l : FrontendLink) (v b : Text)
      → validate_link p i u ≡ ok tt
      → read key kv ≡ some b
      → libs.link_json.from_slice b ≡ ok l
      → read (user_key libs.uuid_text l.astrid_user_id) kv ≡ some v
      → libs.user_json.from_slice v ≡ ok user
      → resolve libs no_faults p i u none kv ≡ (ok (some user, layered none l (some user)), kv)
  unfolding resolve get_link resolve_link overlay_at get_user Backend.◌>>=◌ lift Backend.pure
  resolve_reads kv user l v b valid r e r' e' =
      rw
        (
          valid,
          get_json_found libs.link_json _ b l kv r e,
          get_json_found libs.user_json _ v user kv r' e',
        )
        refl

  read_written : (k b : Text) (kv : Kv) → b ≢ [] → read k ((k, b) ∷ without k kv) ≡ some b
  read_written k [] kv n = absurd (n refl)
  read_written k (c ∷ b) kv n = read-set_self k (c ∷ b) kv

  link_key_no_user : starts_with key user_family ≡ false
  unfolding link_key joined starts_with
  link_key_no_user = refl

  -- What a link that was made went through.
  record Made (kv : Kv) (user : AstridUser) (v b : Text) : Type 0 where
    pub parts : validate_link p i u ≡ ok tt
    pub method_named : validate_non_empty method (codes "method") ≡ ok tt
    pub user_read : read (user_key libs.uuid_text id) kv ≡ some v
    pub user_decoded : libs.user_json.from_slice v ≡ ok user
    pub link_encoded : libs.link_json.to_vec made ≡ ok b

  -- A run that stopped returned no link.
  stopped :
      (kv : Kv) (l : FrontendLink) (e : StoreError)
      → (link libs no_faults now p i u id method name kv).0 ≡ ok l
      → (link libs no_faults now p i u id method name kv).0 ≡ err (Halt.failed e)
      → ⊥
  stopped kv l e r q = cc (r, q)

  Made-parts :
      (kv : Kv) (l : FrontendLink)
      → (link libs no_faults now p i u id method name kv).0 ≡ ok l
      → (user : AstridUser) × (v : Text) × (b : Text) × Made kv user v b
  unfolding link get_user get_json set_json encoded get parsed decode_bytes lift Backend.◌>>=◌
      Backend.pure Backend.raise
  Made-parts kv l r = elim (Result-cases (validate_link p i u)) [
    | inr (x, q) ↦ absurd (stopped kv l x r (rw q refl))
    | inl (_, valid) ↦ elim (Result-cases (validate_non_empty method (codes "method"))) [
      | inr (x, q) ↦ absurd (stopped kv l x r (rw (valid, q) refl))
      | inl (_, named) ↦ elim (Option-cases (read (user_key libs.uuid_text id) kv)) [
        | inl q ↦ absurd (stopped kv l (StoreError.user_not_found id) r (rw (valid, named, q) refl))
        | inr (v, there) ↦ elim (Result-cases (libs.user_json.from_slice v)) [
          | inr (x, q) ↦ absurd (
              stopped kv l
                (StoreError.storage
                  (codes "decode " ++ (user_key libs.uuid_text id ++ (codes ": " ++ x))))
                r (rw (valid, named, there, q) refl))
          | inl (user, decoded) ↦ elim (Result-cases (libs.link_json.to_vec made)) [
            | inr (x, q) ↦ absurd (
                stopped kv l (StoreError.storage (codes "encode " ++ (key ++ (codes ": " ++ x)))) r
                  (rw (valid, named, there, decoded, q) refl))
            | inl (b, written) ↦ (
              user,
              v,
              b,
              record {
                parts = valid;
                method_named = named;
                user_read = there;
                user_decoded = decoded;
                link_encoded = written;
              },
            )
          ]
        ]
      ]
    ]
  ]

  -- The name that a link shows: its own, or else its user's.
  abbrev pub Named : Option Text → Option Text → Option ResolvedDisplayName → Type 0
  Named (some n) other r = r ≡ some (record { name = n; source = codes "link" })
  Named none (some n) r = r ≡ some (record { name = n; source = codes "canonical" })
  Named none none r = r ≡ none

  layered-Named : (user : AstridUser) → Named name user.display_name (layered none made (some user))
  unfolding layered
  layered-Named user = go name user.display_name refl refl
    where
      go :
          (n m : Option Text)
          → name ≡ n
          → user.display_name ≡ m
          → Named n m (layered none made (some user))
      go (some n) m e q = rw (layered, e) refl
      go none (some m) e q = rw (layered, e, q) refl
      go none none e q = rw (layered, e, q) refl

  -- Where no call fails and a link's record is read back as it was written: if link returns, it
  -- returns the link of its arguments, and a resolution of their parts right after it gives the user
  -- that the link names, as stored, with the link's own name, or else the user's, or else none.
  pub resolve-link :
      IsLawful libs.link_json
      → (kv : Kv) (l : FrontendLink) → (link libs no_faults now p i u id method name kv).0 ≡ ok l
      → (user : AstridUser) × (shown : Option ResolvedDisplayName) × (l ≡ made)
        × ((get_user libs no_faults id kv).0 ≡ ok (some user))
        × ((resolve libs no_faults p i u none (link libs no_faults now p i u id method name kv).1).0
            ≡ ok (some user, shown))
        × Named name user.display_name shown
  unfolding get_user
  resolve-link lawful kv l r =
      let (user, v, b, m) = Made-parts kv l r in
      let written =
        link_writes kv user v b m.parts m.method_named m.user_read m.user_decoded m.link_encoded in
      let user_there =
        read-set_ne key (user_key libs.uuid_text id) b kv
          (family_ne key _ user_family link_key_no_user (user_key-family libs.uuid_text id))
        ∙ m.user_read in
      let link_there = read_written key b kv (lawful.not_empty made m.link_encoded) in
      let resolved =
        resolve_reads ((key, b) ∷ without key kv) user made v b m.parts link_there
          (lawful.round_trip made m.link_encoded) user_there m.user_decoded in
      (
        user,
        layered none made (some user),
        cc (r, ap (λ x. x.0) written),
        ap (λ x. x.0) (get_json_found libs.user_json _ v user kv m.user_read m.user_decoded),
        rw written (ap (λ x. x.0) resolved),
        layered-Named user,
      )

-- ===== src/Users/Directory/Refines.antt =====
-- About the operations and the directory of links (capsules/capsule-users/src/store.rs).
use unicity_aos.Base.{
  ℕ, ◌≡◌, ◌⊎◌, refl, sym, ap, ◌∙◌, true, not, Option, none, some, List, inl, inr, Option-cases,
}
use unicity_aos.Base.Text.{Text}
use unicity_aos.Base.Result.{ok}
use unicity_aos.Users.Types.{uuid_text-injective, Uuid, Libs, AreLawful, normalize_platform}
use unicity_aos.Users.Backend.{Kv, Exec, Faults, when, ◌>>◌, delete, read}
use unicity_aos.Users.Backend.Runs.{
  Runs, Runs-pure, Runs-raise, Runs-bind, Runs-when, Runs-lift, Runs-get, Runs-set_json,
  Runs-delete, record_at,
}
use unicity_aos.Users.Backend.Runs.Keeps.{Keeps-lift}
use unicity_aos.Users.Backend.Runs.Consequence.{Runs-given, Runs-weaken, Runs-returns, Post_ok}
use unicity_aos.Users.Store.Keys.{link_key, validate_link, validate_non_empty}
use unicity_aos.Users.Store.Keys.Distinct.{IsPlain, validate_link-IsPlain}
use unicity_aos.Users.Store.Accounts.{create_user, set_display_name, set_public_key}
use unicity_aos.Users.Store.Links.{
  Triple, owned_by, is_some, link, unlink, delete_overlays, delete_user,
}
use unicity_aos.Users.Store.Contexts.{set_context, clear_context}
use unicity_aos.Users.Owners.{LinksResolve, IsUnlinked}
use unicity_aos.Users.Owners.Reads.{get_user-Keeps}
use unicity_aos.Users.Owners.Deletion.{delete_user-Runs}
use unicity_aos.Users.Directory.{Directory, enter, remove, forget, key_of, Shows}
use unicity_aos.Users.Directory.Views.{without-Shows, absent-Shows, set-Shows, key_of-family}
use unicity_aos.Users.Directory.Pruned.{delete_user_prunes}
use unicity_aos.Users.Directory.Outside.{
  create_user-Shows, set_display_name-Shows, set_public_key-Shows, set_context-Shows,
  clear_context-Shows, delete_overlays-Shows,
}

-- After the operation returns a value, the store shows the directory that the value gives.
abbrev pub Implements : {A : Type 0} → Libs → Directory → Exec A → (A → Directory) → Type 0
Implements libs d m spec = Runs (Shows libs d) m (λ a. Shows libs (spec a)) (λ _. Unit)

abbrev pub unlinked_triple : Text → Option Text → Text → Triple
unlinked_triple p i u = record {
  platform = normalize_platform p;
  platform_instance = i;
  platform_user_id = u;
}

module _ (libs : Libs) (lawful : AreLawful libs) (f : Faults) (d : Directory) where
  link_enters :
      (now p : Text) (i : Option Text) (u : Text) (id : Uuid) (method : Text) (name : Option Text)
      → Implements libs d (link libs f now p i u id method name) (λ l. enter l d)
  unfolding link
  link_enters now p i u id method name =
      Runs-bind {R = λ _ kv. Shows libs d kv × IsPlain (normalize_platform p) i u}
        (Runs-lift (validate_link p i u) (λ kv h. tt)
          (λ a e kv h. (h, validate_link-IsPlain p i u e)))
        (λ _. Runs-given (λ plain.
          Runs-bind {R = λ _. Shows libs d}
            (Runs-returns (Keeps-lift (validate_non_empty method _)))
            (λ _.
              Runs-bind {R = λ _. Shows libs d} (Runs-returns (get_user-Keeps libs f id)) (λ user.
                Runs-bind {R = λ _. Shows libs d}
                  (Runs-when (not (is_some user)) (λ _. Runs-raise _ (λ kv h. tt)) (λ _ kv h. h))
                  (λ _.
                    Runs-bind
                      (Runs-set_json f (λ kv h. tt) libs.link_json _ _
                        (λ b e kv h. set-Shows libs d lawful.link_lawful _ b kv e plain h))
                      (λ _. Runs-pure _ (λ kv h. h)))))))

  clear_link :
      (p : Text) (i : Option Text) (u : Text)
      → IsPlain (normalize_platform p) i u
      → (found : Option Text)
      → Runs
          (λ kv. Shows libs d kv × (found ≡ read (link_key (normalize_platform p) i u) kv))
          (when (is_some found) (
            delete_overlays libs f (normalize_platform p) i u
            >> delete f (link_key (normalize_platform p) i u)))
          (λ _. Shows libs (remove (unlinked_triple p i u) d))
          (λ _. Unit)
  clear_link p i u plain none =
      Runs-pure tt (λ kv (h, e). absent-Shows libs d (unlinked_triple p i u) kv plain (sym e) h)
  clear_link p i u plain (some b) =
      Runs-bind {R = λ _. Shows libs d}
        (Runs-weaken (λ kv (h, e). h) (Runs-returns (delete_overlays-Shows libs f d _ i u)))
        (λ _.
          Runs-delete f (λ kv h. tt) _
            (λ kv h. without-Shows libs d (unlinked_triple p i u) kv plain h))

  unlink_removes :
      (p : Text) (i : Option Text) (u : Text)
      → Implements libs d (unlink libs f p i u) (λ _. remove (unlinked_triple p i u) d)
  unfolding unlink
  unlink_removes p i u =
      Runs-bind {R = λ _ kv. Shows libs d kv × IsPlain (normalize_platform p) i u}
        (Runs-lift (validate_link p i u) (λ kv h. tt)
          (λ a e kv h. (h, validate_link-IsPlain p i u e)))
        (λ _. Runs-given (λ plain.
          Runs-bind
            (Runs-get f (λ kv h. tt)
              {Q = λ found kv.
                Shows libs d kv × (found ≡ read (link_key (normalize_platform p) i u) kv)}
              _ (λ kv h. (h, refl)))
            (λ found.
              Runs-bind (clear_link p i u plain found)
                (λ _. Runs-pure (is_some found) (λ kv h. h)))))

  forgotten :
      (id : Uuid) (kv after : Kv) (t : Triple)
      → record_at libs.link_json (key_of t) kv ≡ d t
      → IsUnlinked libs id after
      → (record_at libs.link_json (key_of t) after ≡ record_at libs.link_json (key_of t) kv)
        ⊎ ((owned_by id (record_at libs.link_json (key_of t) kv) ≡ true)
            × (record_at libs.link_json (key_of t) after ≡ none))
      → record_at libs.link_json (key_of t) after ≡ forget id d t
  forgotten id kv after t e free (inr (o, gone)) =
      let mine : owned_by id (d t) ≡ true = ap (owned_by id) (sym e) ∙ o in rw mine gone
  forgotten id kv after t e free (inl same) = elim (Option-cases (d t)) [
    | inl none_there ↦ rw (none_there) (same ∙ e ∙ none_there)
    | inr (l, there) ↦
        let kept : record_at libs.link_json (key_of t) after ≡ some l = same ∙ e ∙ there in
        let other = free (key_of t) l (key_of-family t, kept) in rw (there, other) kept
  ]

  delete_user_forgets :
      (id : Uuid) (kv : Kv)
      → LinksResolve libs kv
      → Shows libs d kv
      → (delete_user libs f id kv).0 ≡ ok true
      → Shows libs (forget id d) (delete_user libs f id kv).1
  delete_user_forgets id kv r h e t plain =
      let (_, g) =
        Post_ok _ _ _ _ true e
          ((delete_user-Runs libs f id (uuid_text-injective libs lawful)).at kv r) in
      let kept =
        Post_ok _ _ _ _ true e ((delete_user_prunes libs f id kv).at kv (λ k s. inl refl)) in
      forgotten id kv _ t (h t plain) (g refl).0 (kept (key_of t) (key_of-family t))

-- What the store promises of links: each operation that returns a value has made its one change to
-- the directory.
pub record IsDirectory (libs : Libs) (f : Faults) (d : Directory) : Type 0 where
  pub link_enters :
      (now p : Text) (i : Option Text) (u : Text) (id : Uuid) (method : Text) (name : Option Text)
      → Implements libs d (link libs f now p i u id method name) (λ l. enter l d)
  pub unlink_removes :
      (p : Text) (i : Option Text) (u : Text)
      → Implements libs d (unlink libs f p i u) (λ _. remove (unlinked_triple p i u) d)
  pub delete_user_forgets :
      (id : Uuid) (kv : Kv)
      → LinksResolve libs kv
      → Shows libs d kv
      → (delete_user libs f id kv).0 ≡ ok true
      → Shows libs (forget id d) (delete_user libs f id kv).1
  pub create_user_changes_none :
      (fresh : Uuid) (now : Text) (name : Option Text)
      → Implements libs d (create_user libs f fresh now name) (λ _. d)
  pub set_display_name_changes_none :
      (id : Uuid) (name : Option Text)
      → Implements libs d (set_display_name libs f id name) (λ _. d)
  pub set_public_key_changes_none :
      (id : Uuid) (key : Option (List ℕ))
      → Implements libs d (set_public_key libs f id key) (λ _. d)
  pub set_context_changes_none :
      (now p : Text) (i : Option Text) (u c name : Text)
      → Implements libs d (set_context libs f now p i u c name) (λ _. d)
  pub clear_context_changes_none :
      (p : Text) (i : Option Text) (u c : Text)
      → Implements libs d (clear_context libs f p i u c) (λ _. d)

-- Where the libraries read back what they write, the store is a directory of links. Whatever calls
-- fail, an operation that returns a value leaves the links of the directory that its specification
-- gives: link enters its link under what it is about, unlink removes one, the deletion of a user
-- that returns true forgets that user's links and no other, where every link's user is stored, and
-- the operations on users and on overlays change no link.
pub store-IsDirectory :
    (libs : Libs) → AreLawful libs → (f : Faults) (d : Directory) → IsDirectory libs f d
store-IsDirectory libs lawful f d = record {
  link_enters = link_enters libs lawful f d;
  unlink_removes = unlink_removes libs lawful f d;
  delete_user_forgets = delete_user_forgets libs lawful f d;
  create_user_changes_none =
      λ fresh now name. Runs-returns (create_user-Shows libs f d fresh now name);
  set_display_name_changes_none = λ id name. Runs-returns (set_display_name-Shows libs f d id name);
  set_public_key_changes_none = λ id key. Runs-returns (set_public_key-Shows libs f d id key);
  set_context_changes_none =
      λ now p i u c name. Runs-returns (set_context-Shows libs f d now p i u c name);
  clear_context_changes_none = λ p i u c. Runs-returns (clear_context-Shows libs f d p i u c);
}

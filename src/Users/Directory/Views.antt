-- ===== src/Users/Directory/Views.antt =====
-- About writes to the store and the directory of links (capsules/capsule-users/src/store.rs).
use unicity_aos.Base.{
  ◌≡◌, ◌≢◌, ◌↔◌, refl, ap, ◌∙◌, true, false, none, ◌∷◌, arith, Bool-cases, inl, inr,
}
use unicity_aos.Base.Text.{Text, text_eq_iff, opt_text_eq_iff, starts_with}
use unicity_aos.Base.Result.{ok}
use unicity_aos.Users.Types.{Libs, FrontendLink, IsLawful}
use unicity_aos.Users.Backend.{Kv, without, read}
use unicity_aos.Users.Backend.Runs.{record_at, parse_or_none}
use unicity_aos.Users.Store.Keys.{link_key, link_family, joined}
use unicity_aos.Users.Store.Keys.Distinct.{link_key-injective}
use unicity_aos.Users.Store.Links.{Triple, triple_of}
use unicity_aos.Users.Owners.{
  record_at-without_self, record_at-without_ne, record_at-set_ne, record_at-set_self,
}
use unicity_aos.Users.Owners.Writes.{family_ne}
use unicity_aos.Users.Directory.{
  Directory, same_triple, enter, remove, key_of, IsPlainTriple, Shows,
}

-- Two triples that the checks let through are the same where their keys are.
key_of_iff :
    (s t : Triple)
    → IsPlainTriple s
    → IsPlainTriple t
    → (same_triple s t ≡ true) ↔ (key_of s ≡ key_of t)
key_of_iff s t a b = (there, back)
  where
    there : same_triple s t ≡ true → key_of s ≡ key_of t
    there e =
        let p : s.platform ≡ t.platform = (text_eq_iff s.platform t.platform).0 (ground arith) in
        let i : s.platform_instance ≡ t.platform_instance =
          (opt_text_eq_iff s.platform_instance t.platform_instance).0 (ground arith) in
        let u : s.platform_user_id ≡ t.platform_user_id =
          (text_eq_iff s.platform_user_id t.platform_user_id).0 (ground arith) in
        cc (p, i, u)

    back : key_of s ≡ key_of t → same_triple s t ≡ true
    back e =
        let (p, i, u) = link_key-injective _ _ _ _ _ _ a b e in
        ground (
          arith,
          (text_eq_iff s.platform t.platform).1 p,
          (opt_text_eq_iff s.platform_instance t.platform_instance).1 i,
          (text_eq_iff s.platform_user_id t.platform_user_id).1 u,
        )

pub key_of-family : (t : Triple) → starts_with (key_of t) link_family ≡ true
unfolding link_key joined starts_with
key_of-family t = refl

module _ (libs : Libs) (d : Directory) where
  pub without_other-Shows :
      (j : Text) (kv : Kv)
      → starts_with j link_family ≡ false
      → Shows libs d kv
      → Shows libs d (without j kv)
  without_other-Shows j kv n h t plain =
      record_at-without_ne libs.link_json j (key_of t) kv
        (family_ne j _ link_family n (key_of-family t))
      ∙ h t plain

  pub set_other-Shows :
      (j v : Text) (kv : Kv)
      → starts_with j link_family ≡ false
      → Shows libs d kv
      → Shows libs d ((j, v) ∷ without j kv)
  set_other-Shows j v kv n h t plain =
      record_at-set_ne libs.link_json j (key_of t) v kv
        (family_ne j _ link_family n (key_of-family t))
      ∙ h t plain

  pub without-Shows :
      (s : Triple) (kv : Kv)
      → IsPlainTriple s
      → Shows libs d kv
      → Shows libs (remove s d) (without (key_of s) kv)
  without-Shows s kv a h t b = elim (Bool-cases (same_triple s t)) [
    | inl q ↦
        rw (q, ← (key_of_iff s t a b).0 q) (record_at-without_self libs.link_json (key_of s) kv)
    | inr q ↦
        let other : key_of s ≢ key_of t = λ e. cc (q, (key_of_iff s t a b).1 e) in
        rw q (record_at-without_ne libs.link_json (key_of s) (key_of t) kv other ∙ h t b)
  ]

  pub set-Shows :
      IsLawful libs.link_json
      → (l : FrontendLink) (v : Text) (kv : Kv) → libs.link_json.to_vec l ≡ ok v
      → IsPlainTriple (triple_of l)
      → Shows libs d kv
      → Shows libs (enter l d) ((key_of (triple_of l), v) ∷ without (key_of (triple_of l)) kv)
  set-Shows lawful l v kv e a h t b = elim (Bool-cases (same_triple (triple_of l) t)) [
    | inl q ↦
        rw (q, ← (key_of_iff (triple_of l) t a b).0 q)
          (record_at-set_self libs.link_json lawful (key_of (triple_of l)) v l kv e)
    | inr q ↦
        let other : key_of (triple_of l) ≢ key_of t =
          λ r. cc (q, (key_of_iff (triple_of l) t a b).1 r) in
        rw q (record_at-set_ne libs.link_json (key_of (triple_of l)) (key_of t) v kv other ∙ h t b)
  ]

  -- A link that is not there need not be removed.
  pub absent-Shows :
      (s : Triple) (kv : Kv)
      → IsPlainTriple s
      → read (key_of s) kv ≡ none
      → Shows libs d kv
      → Shows libs (remove s d) kv
  unfolding record_at
  absent-Shows s kv a e h t b = elim (Bool-cases (same_triple s t)) [
    | inl q ↦ rw (q, ← (key_of_iff s t a b).0 q) (ap (parse_or_none libs.link_json) e)
    | inr q ↦ rw q (h t b)
  ]

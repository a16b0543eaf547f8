-- ===== src/Users/Store/Keys/Distinct.antt =====
-- About the keys of links and of overlays (capsules/capsule-users/src/store.rs).
use unicity_aos.Base.{
  ◌≡◌, ◌≢◌, refl, sym, ap, false, Bool, Option, none, some, [], ◌∷◌, ◌++◌, arith, codes, map,
}
use unicity_aos.Base.Text.{
  Text, has_char, trim, trim_start, trim_end, to_ascii_lowercase, ascii_lower, text_eq_iff,
  append_cancel_left,
}
use unicity_aos.Base.Result.{Result, ok, err, ◌>>◌}
use unicity_aos.Users.Types.{normalize_platform, StoreError}
use unicity_aos.Users.Store.Keys.{
  joined, instance_segment, instance_none_sentinel, link_key, validate_link, validate_instance,
  validate_key_component, validate_non_empty, breaks_key,
}

abbrev pub has_slash : Text → Bool
has_slash s = has_char s b'/'

-- Without a slash before it, the first slash is found.
split_slash :
    (s t x y : Text)
    → has_slash s ≡ false
    → has_slash t ≡ false
    → s ++ (b'/' ∷ x) ≡ t ++ (b'/' ∷ y)
    → (s ≡ t) × (x ≡ y)
unfolding has_char
split_slash [] [] x y a b e = (refl, append_cancel_left (b'/' ∷ []) x y e)
split_slash [] (d ∷ t) x y a b e = absurd (let q : b'/' ≡ d = cc e in ground (arith, q))
split_slash (c ∷ s) [] x y a b e = absurd (let q : c ≡ b'/' = cc e in ground (arith, q))
split_slash (c ∷ s) (d ∷ t) x y a b e =
    let same : c ≡ d = cc e in
    let rest : s ++ (b'/' ∷ x) ≡ t ++ (b'/' ∷ y) = cc e in
    let (p, q) = split_slash s t x y (ground arith) (ground arith) rest in (cc (same, p), q)

-- What the checks of a link let through: no slash in a part, and the sentinel is no instance.
pub record IsPlain (platform : Text) (inst : Option Text) (platform_user_id : Text) : Type 0 where
  pub platform_plain : has_slash platform ≡ false
  pub instance_plain : has_slash (instance_segment inst) ≡ false
  pub no_sentinel : inst ≢ some instance_none_sentinel
  pub user_plain : has_slash platform_user_id ≡ false

instance_segment-injective :
    (i j : Option Text)
    → i ≢ some instance_none_sentinel
    → j ≢ some instance_none_sentinel
    → instance_segment i ≡ instance_segment j
    → i ≡ j
unfolding instance_segment
instance_segment-injective none none a b e = refl
instance_segment-injective none (some t) a b e = absurd (b (ap some (sym e)))
instance_segment-injective (some s) none a b e = absurd (a (ap some e))
instance_segment-injective (some s) (some t) a b e = ap some e

pub link_key-injective :
    (p q : Text) (i j : Option Text) (u v : Text)
    → IsPlain p i u
    → IsPlain q j v
    → link_key p i u ≡ link_key q j v
    → (p ≡ q) × (i ≡ j) × (u ≡ v)
unfolding link_key joined has_char
link_key-injective p q i j u v a b e =
    let (_, e₁) = split_slash (codes "link") (codes "link") _ _ refl refl e in
    let (same_p, e₂) = split_slash p q _ _ a.platform_plain b.platform_plain e₁ in
    let (same_s, same_u) =
      split_slash (instance_segment i) (instance_segment j) _ _ a.instance_plain b.instance_plain
        e₂ in
    (same_p, instance_segment-injective i j a.no_sentinel b.no_sentinel same_s, same_u)

component_plain : (s field : Text) → validate_key_component s field ≡ ok tt → has_slash s ≡ false
unfolding validate_key_component validate_non_empty breaks_key
component_plain s field e = ground arith

trim_start_plain : (s : Text) → has_slash s ≡ false → has_slash (trim_start s) ≡ false
unfolding has_char trim_start
trim_start_plain [] h = refl
trim_start_plain (c ∷ s) h = ground (arith, trim_start_plain s)

trim_end_plain : (s : Text) → has_slash s ≡ false → has_slash (trim_end s) ≡ false
unfolding has_char trim_end
trim_end_plain [] h = refl
trim_end_plain (c ∷ s) h = ground (arith, trim_end_plain s)

lower_plain : (s : Text) → has_slash s ≡ false → has_slash (map ascii_lower s) ≡ false
unfolding has_char ascii_lower
lower_plain [] h = refl
lower_plain (c ∷ s) h = ground (arith, lower_plain s)

normalize_plain : (s : Text) → has_slash s ≡ false → has_slash (normalize_platform s) ≡ false
unfolding normalize_platform to_ascii_lowercase trim
normalize_plain s h = lower_plain _ (trim_end_plain _ (trim_start_plain s h))

-- Both of two checks in turn.
pub ok_of_then : (r k : Result StoreError (Unit {0})) → (r >> k) ≡ ok tt → (r ≡ ok tt) × (k ≡ ok tt)
ok_of_then (ok tt) k e = (refl, e)
ok_of_then (err x) k e = absurd (cc e)

instance_plain_of :
    (i : Option Text)
    → validate_instance i ≡ ok tt
    → (has_slash (instance_segment i) ≡ false) × (i ≢ some instance_none_sentinel)
unfolding validate_instance instance_segment has_char
instance_plain_of none e = (refl, λ q. cc q)
instance_plain_of (some s) e =
    let (a, b) = ok_of_then (validate_key_component s (codes "platform_instance")) _ e in
    (
      component_plain s _ a,
      λ q.
          let same : s ≡ instance_none_sentinel = cc q in
          ground (arith, b, (text_eq_iff s instance_none_sentinel).1 same),
    )

-- The validated parts of a link, its platform normalised.
pub validate_link-IsPlain :
    (p : Text) (i : Option Text) (u : Text)
    → validate_link p i u ≡ ok tt
    → IsPlain (normalize_platform p) i u
unfolding validate_link
validate_link-IsPlain p i u e =
    let (a, r) = ok_of_then (validate_key_component p (codes "platform")) _ e in
    let (b, c) = ok_of_then (validate_instance i) _ r in
    let (d, n) = instance_plain_of i b in
    record {
      platform_plain = normalize_plain p (component_plain p _ a);
      instance_plain = d;
      no_sentinel = n;
      user_plain = component_plain u _ c;
    }

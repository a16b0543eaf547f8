-- ===== src/Broker/Consent/Markers.antt =====
-- About the grant prompt markers (crates/aos-mcp-broker/src/execute.rs) and the durable decisions
-- (grant_decision.rs).
use unicity_aos.Base.{
  ℕ, ◌+◌, ◌≤◌, ◌<◌, ◌≡◌, ◌≢◌, ◌↔◌, ◌∙◌, refl, sym, ap, inl, inr, Bool-cases, true, false, Option,
  none, some, arith, codes,
}
use unicity_aos.Base.Text.{Text, trim, text_eq, text_eq_iff}
use unicity_aos.Base.Decimal.{print, parse_u64, u64_max, trim-print, parse_u64-print}
use unicity_aos.Broker.Kv.{Kv, Faults, found, get_bytes_opt, set_bytes, put_self}
use unicity_aos.Broker.Consent.{
  grant_pending_key, grant_decision_key, grant_pending_ttl_ms, marker_is_fresh_at,
  mark_grant_pending, grant_pending, GrantDecision, approve, deny, as_kv_value,
  parse_grant_decision, record_grant_decision, recorded_grant_decision, grant_action, auto_approve,
  decision_at,
}

get-set :
    (f : Faults) (k v : Text) (kv : Kv)
    → f.set_fails k ≡ false
    → f.get_fails k ≡ false
    → get_bytes_opt f k (set_bytes f k v kv) ≡ found v
unfolding get_bytes_opt set_bytes
get-set f k v kv s g = rw (s, g, put_self k (some v) kv) refl

marker_of_print : (w now : ℕ) → w ≤ u64_max → parse_u64 (trim (print w)) ≡ some w
marker_of_print w now l = ap parse_u64 (trim-print w l) ∙ parse_u64-print w l

marker-window :
    (w now : ℕ)
    → w ≤ u64_max
    → (marker_is_fresh_at (print w) now ≡ true)
      ↔ ((w ≢ 0) × (w ≤ now) × (now < w + grant_pending_ttl_ms))
unfolding marker_is_fresh_at
marker-window w now l = ground (arith, marker_of_print w now l)

grant_pending_found :
    (f : Faults) (now : ℕ) (c k v : Text) (kv : Kv)
    → grant_pending_key c ≡ some k
    → get_bytes_opt f k kv ≡ found v
    → (grant_pending f now c kv).0 ≡ marker_is_fresh_at v now
unfolding grant_pending
grant_pending_found f now c k v kv e g = rw e (ground (arith, g))

found_marker :
    (f : Faults) (w now : ℕ) (c k : Text) (kv : Kv)
    → grant_pending_key c ≡ some k
    → f.set_fails k ≡ false
    → f.get_fails k ≡ false
    → (grant_pending f now c (mark_grant_pending f w c kv)).0 ≡ marker_is_fresh_at (print w) now
unfolding mark_grant_pending
found_marker f w now c k kv e s g =
    grant_pending_found f now c k (print w) _ e (rw e (get-set f k (print w) kv s g))

-- After a prompt was marked at the time `w`, a further call is answered as a duplicate exactly in
-- the window [w, w + 120000) of the clock, where the clock could be read when the mark was made: so
-- the marker cannot suppress prompts for ever.
pub grant_window :
    (f : Faults) (w now : ℕ) (c k : Text) (kv : Kv)
    → grant_pending_key c ≡ some k
    → f.set_fails k ≡ false
    → f.get_fails k ≡ false
    → w ≤ u64_max
    → ((grant_pending f now c (mark_grant_pending f w c kv)).0 ≡ true)
      ↔ ((w ≢ 0) × (w ≤ now) × (now < w + grant_pending_ttl_ms))
grant_window f w now c k kv e s g l =
    let (a, b) = marker-window w now l in
    let q = found_marker f w now c k kv e s g in (λ h. a (sym q ∙ h), λ h. q ∙ b h)

decision_found :
    (f : Faults) (k v : Text) (kv : Kv)
    → get_bytes_opt f k kv ≡ found v
    → decision_at f (some k) kv ≡ parse_grant_decision v
unfolding decision_at
decision_found f k v kv g = rw (g, decision_at) refl

parse-as_kv_value : (d : GrantDecision) → parse_grant_decision (as_kv_value d) ≡ some d
unfolding parse_grant_decision trim text_eq
parse-as_kv_value approve = refl
parse-as_kv_value deny = refl

parse-eq-approve : (v : Text) → parse_grant_decision v ≡ some approve → trim v ≡ codes "approve"
unfolding parse_grant_decision
parse-eq-approve v h = elim (Bool-cases (text_eq (trim v) (codes "approve"))) [
  | inl q ↦ (text_eq_iff _ _).0 q
  | inr q ↦ elim (Bool-cases (text_eq (trim v) (codes "deny"))) [
    | inl r ↦ absurd (cc (rw (q, r) at h))
    | inr r ↦ absurd (cc (rw (q, r) at h))
  ]
]

decision_at-approve :
    (f : Faults) (k : Text) (kv : Kv)
    → decision_at f (some k) kv ≡ some approve
    → (v : Text) × (kv k ≡ some v) × (parse_grant_decision v ≡ some approve)
unfolding decision_at get_bytes_opt
decision_at-approve f k kv h = ground arith

-- A recorded decision is the one that is read back, whatever was recorded before.
pub recorded-record :
    (f : Faults) (c k : Text) (d : GrantDecision) (kv : Kv)
    → grant_decision_key c ≡ some k
    → f.set_fails k ≡ false
    → f.get_fails k ≡ false
    → recorded_grant_decision f c (record_grant_decision f c d kv) ≡ some d
unfolding record_grant_decision recorded_grant_decision
recorded-record f c k d kv e s g = rw e (
    decision_found f k (as_kv_value d) _ (get-set f k (as_kv_value d) kv s g) ∙ parse-as_kv_value d)

grant_action-auto : (o : Option GrantDecision) → grant_action o ≡ auto_approve → o ≡ some approve
unfolding grant_action
grant_action-auto none h = absurd (cc)
grant_action-auto (some approve) h = refl
grant_action-auto (some deny) h = absurd (cc)

-- Access is granted with no prompt only where the store holds the verb `approve` for the capsule.
pub auto_approve_needs_record :
    (f : Faults) (c : Text) (kv : Kv)
    → grant_action (recorded_grant_decision f c kv) ≡ auto_approve
    → (k : Text) × (v : Text) × (grant_decision_key c ≡ some k)
      × (kv k ≡ some v)
      × (trim v ≡ codes "approve")
unfolding recorded_grant_decision
auto_approve_needs_record f c kv h = go (grant_decision_key c) refl (grant_action-auto _ h)
  where
    go :
        (o : Option Text)
        → grant_decision_key c ≡ o
        → decision_at f o kv ≡ some approve
        → (k : Text) × (v : Text) × (grant_decision_key c ≡ some k)
          × (kv k ≡ some v)
          × (trim v ≡ codes "approve")
    go none e q = absurd (cc)
    go (some k) e q =
        let (v, r, t) = decision_at-approve f k kv q in (k, v, e, r, parse-eq-approve v t)

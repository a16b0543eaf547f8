-- ===== src/Broker/Respond/Grant.antt =====
-- About `handle_mcp_grant_respond` (crates/aos-mcp-broker/src/approval.rs).
use unicity_aos.Base.{
  ◌↔◌, ◌≡◌, ◌≢◌, refl, subst, ◌∙◌, Bool, true, false, List, ◌∷◌, Option, none, some, ◌⊎◌, inl, inr,
  Bool-cases, not, if-cases, arith,
}
use unicity_aos.Base.Text.{Text, key_cases}
use unicity_aos.Broker.Kv.{Kv, Faults}
use unicity_aos.Broker.Topics.{response_topic, reply_topic}
use unicity_aos.Broker.Consent.{
  grant_decision_prefix, grant_decision_key, grant_pending_key, is_ingress_trusted,
  recorded_grant_decision, respond_decision_to_record, GrantDecision,
}
use unicity_aos.Broker.Consent.Keys.{grant_pending-ne-grant_decision, suffix_key_inj}
use unicity_aos.Broker.Consent.Frame.{recorded_ext, take_grant_pending_ne, record_grant_decision_ne}
use unicity_aos.Broker.Messages.{Message, Verb, normalize_decision, is_approve_verb, on_topic}
use unicity_aos.Broker.Respond.{
  Caller, Outcome, GrantRespond, handle_mcp_grant_respond, grant_on_topic, refuse_grant,
  decide_grant, record_respond, clear_grant_marker,
}
use unicity_aos.Broker.Respond.Verbs.{
  Decides, IsTrustedCaller, is_approve_verb_iff, normalize_decision-Says,
}

-- The caller is a trusted ingress and its decision is one of the three approve verbs.
abbrev pub Approves : Faults → Kv → Option Caller → GrantRespond → Type 0
Approves f kv none r = ⊥
Approves f kv (some c) r =
    (is_ingress_trusted f c.source_id kv ≡ true)
    × (is_approve_verb (normalize_decision r.decision) ≡ true)

module _ (Value : Type 0) (f : Faults) where
  -- The store's value at the key is as before, or the respond approves the capsule of that key.
  abbrev Kept : Text → Kv → Option Caller → GrantRespond → Kv → Type 0
  Kept k kv caller r kv' =
      (kv' k ≡ kv k) ⊎ (Approves f kv caller r × (grant_decision_key r.capsule_id ≡ some k))

  clear_ne :
      (c j k : Text) (kv : Kv) → grant_decision_key j ≡ some k → clear_grant_marker f c kv k ≡ kv k
  clear_ne c j k kv e =
      take_grant_pending_ne f k kv c (λ q. grant_pending-ne-grant_decision c j k q e)

  record_cases :
      (c k : Text) (g : Bool) (kv : Kv)
      → (record_respond f c (respond_decision_to_record g) kv k ≡ kv k)
        ⊎ ((g ≡ true) × (grant_decision_key c ≡ some k))
  unfolding record_respond respond_decision_to_record
  record_cases c k true kv = elim (key_cases (grant_decision_key c) k) [
    | inl e ↦ inr (refl, e)
    | inr n ↦ inl (record_grant_decision_ne f k kv c GrantDecision.approve n)
  ]
  record_cases c k false kv = inl refl

  decide_cases :
      (r : GrantRespond) (t j k : Text) (v : Verb) (kv : Kv)
      → grant_decision_key j ≡ some k
      → ((decide_grant {Value = Value} f r t v kv).0 k ≡ kv k)
        ⊎ ((is_approve_verb v ≡ true) × (grant_decision_key r.capsule_id ≡ some k))
  unfolding decide_grant
  decide_cases r t j k v kv e =
      let cleared =
        clear_ne r.capsule_id j k
          (record_respond f r.capsule_id (respond_decision_to_record (is_approve_verb v)) kv) e in
      elim (record_cases r.capsule_id k (is_approve_verb v) kv) [
        | inl same ↦ inl (cleared ∙ same)
        | inr a ↦ inr a
      ]

  refuse_same :
      (r : GrantRespond) (t j k : Text) (kv : Kv)
      → grant_decision_key j ≡ some k
      → (refuse_grant {Value = Value} f r t kv).0 k ≡ kv k
  unfolding refuse_grant
  refuse_same r t j k kv e = clear_ne r.capsule_id j k kv e

  on_topic_cases :
      (caller : Option Caller) (r : GrantRespond) (o : Option Text) (j k : Text) (kv : Kv)
      → grant_decision_key j ≡ some k
      → Kept k kv caller r (grant_on_topic {Value = Value} f caller r o kv).0
  unfolding grant_on_topic
  on_topic_cases caller r none j k kv e = inl (clear_ne r.capsule_id j k kv e)
  on_topic_cases none r (some t) j k kv e = inl (refuse_same r t j k kv e)
  on_topic_cases (some c) r (some t) j k kv e =
      elim (Bool-cases (is_ingress_trusted f c.source_id kv)) [
        | inr u ↦ rw (u, grant_on_topic) (inl (refuse_same r t j k kv e))
        | inl u ↦
            rw (u, grant_on_topic)
              (elim (decide_cases r t j k (normalize_decision r.decision) kv e) [
                | inl same ↦ inl same
                | inr (a, q) ↦ inr ((refl, a), q)
              ])
      ]

  -- A respond changes the durable decision of a capsule only if it comes from a trusted ingress,
  -- carries one of the three approve verbs and names that very capsule.
  pub grant_respond-Approves :
      (caller : Option Caller) (r : GrantRespond) (c : Text) (kv : Kv)
      → (recorded_grant_decision f c
            (handle_mcp_grant_respond {Value = Value} f caller (some r) kv).0
          ≡ recorded_grant_decision f c kv)
        ⊎ (Approves f kv caller r × (c ≡ r.capsule_id))
  unfolding handle_mcp_grant_respond
  grant_respond-Approves caller r c kv = go (grant_decision_key c) refl
    where
      kv' : Kv
      kv' = (grant_on_topic {Value = Value} f caller r (response_topic r.request_id) kv).0

      go :
          (o : Option Text)
          → grant_decision_key c ≡ o
          → (recorded_grant_decision f c kv' ≡ recorded_grant_decision f c kv)
            ⊎ (Approves f kv caller r × (c ≡ r.capsule_id))
      go none e = inl (recorded_ext f c kv kv' (λ k q. absurd (cc)))
      go (some k) e = elim (on_topic_cases caller r (response_topic r.request_id) c k kv e) [
        | inl same ↦ inl (
            recorded_ext f c kv kv' (λ j q. let i : k ≡ j = cc in subst (λ x. kv' x ≡ kv x) i same))
        | inr (a, q) ↦ inr (a, suffix_key_inj grant_decision_prefix c r.capsule_id k e q)
      ]

  -- The same for the value at the key.
  pub grant_respond-Kept :
      (caller : Option Caller) (r : GrantRespond) (c k : Text) (kv : Kv)
      → grant_decision_key c ≡ some k
      → ((handle_mcp_grant_respond {Value = Value} f caller (some r) kv).0 k ≡ kv k)
        ⊎ (Approves f kv caller r × (r.capsule_id ≡ c))
  unfolding handle_mcp_grant_respond
  grant_respond-Kept caller r c k kv e =
      elim (on_topic_cases caller r (response_topic r.request_id) c k kv e) [
        | inl same ↦ inl same
        | inr (a, q) ↦ inr (a, suffix_key_inj grant_decision_prefix r.capsule_id c k q e)
      ]

  pub grant_respond_none :
      (caller : Option Caller) (kv : Kv) (k : Text)
      → (handle_mcp_grant_respond {Value = Value} f caller none kv).0 k ≡ kv k
  unfolding handle_mcp_grant_respond
  grant_respond_none caller kv k = refl

  -- The decision on the topic, and the acknowledgement where the respond's own id is routable.
  abbrev Published : Kv → Option Caller → GrantRespond → Text → List (Message Value) → Type 0
  Published kv caller r t sent =
      (v : Verb) × (granted : Bool) × (sent
        ≡ Message.decision t r.request_id v none
          ∷ on_topic (reply_topic r.req_id) (λ topic. Message.grant_ack topic r.req_id granted))
      × ((granted ≡ true) ↔ (v ≢ Verb.deny))
      × Decides f kv caller r.decision v

  refused :
      (caller : Option Caller) (r : GrantRespond) (t : Text) (kv : Kv)
      → ¬ IsTrustedCaller f kv caller
      → Published kv caller r t (refuse_grant {Value = Value} f r t kv).1
  unfolding refuse_grant
  refused caller r t kv n =
      (Verb.deny, false, refl, ((λ e. absurd (cc e)), λ p. absurd (p refl)), inr (n, refl))

  on_topic_publishes :
      (caller : Option Caller) (r : GrantRespond) (t : Text) (kv : Kv)
      → Published kv caller r t (grant_on_topic {Value = Value} f caller r (some t) kv).1
  unfolding grant_on_topic decide_grant
  on_topic_publishes none r t kv = refused none r t kv (λ a. a)
  on_topic_publishes (some c) r t kv =
      if-cases {A = Outcome Value} (λ o. Published kv (some c) r t o.1)
        (not (is_ingress_trusted f c.source_id kv))
        (λ u. refused (some c) r t kv (λ a. ground (arith, a, u)))
        (λ u.
          let v = normalize_decision r.decision in
          (
            v,
            is_approve_verb v,
            refl,
            is_approve_verb_iff v,
            inl (ground (arith, u), normalize_decision-Says r.decision),
          ))

  -- On a routable request id a grant respond publishes one decision and then, where its own request
  -- id is routable, an acknowledgement, which says granted exactly if that decision is no denial. The
  -- decision of a trusted ingress is the approval that its text is the word of, or else a denial; any
  -- other caller's is a denial.
  pub grant_respond_publishes :
      (caller : Option Caller) (r : GrantRespond) (t : Text) (kv : Kv)
      → response_topic r.request_id ≡ some t
      → (v : Verb) × (granted : Bool) × ((handle_mcp_grant_respond {Value = Value} f caller
            (some r)
            kv).1
          ≡ Message.decision t r.request_id v none
            ∷ on_topic (reply_topic r.req_id) (λ topic. Message.grant_ack topic r.req_id granted))
        × ((granted ≡ true) ↔ (v ≢ Verb.deny))
        × Decides f kv caller r.decision v
  unfolding handle_mcp_grant_respond
  grant_respond_publishes caller r t kv e = rw e (on_topic_publishes caller r t kv)

module _ (Value : Type 0) (f : Faults) (k : Text) (kv : Kv) where
  clear_other :
      ((c : Text) → grant_pending_key c ≢ some k)
      → (c : Text) (kv' : Kv) → clear_grant_marker f c kv' k ≡ kv' k
  clear_other p c kv' = take_grant_pending_ne f k kv' c (p c)

  decide_ne :
      ((c : Text) → grant_pending_key c ≢ some k)
      → ((c : Text) → grant_decision_key c ≢ some k)
      → (r : GrantRespond) (t : Text) (v : Verb)
      → (decide_grant {Value = Value} f r t v kv).0 k ≡ kv k
  unfolding decide_grant
  decide_ne p d r t v =
      let record_at = respond_decision_to_record (is_approve_verb v) in
      clear_other p r.capsule_id (record_respond f r.capsule_id record_at kv)
      ∙ elim (record_cases Value f r.capsule_id k (is_approve_verb v) kv) [
        | inl same ↦ same
        | inr (a, q) ↦ absurd (d r.capsule_id q)
      ]

  on_topic_ne :
      ((c : Text) → grant_pending_key c ≢ some k)
      → ((c : Text) → grant_decision_key c ≢ some k)
      → (caller : Option Caller) (r : GrantRespond) (o : Option Text)
      → (grant_on_topic {Value = Value} f caller r o kv).0 k ≡ kv k
  unfolding grant_on_topic refuse_grant
  on_topic_ne p d caller r none = clear_other p r.capsule_id kv
  on_topic_ne p d none r (some t) = clear_other p r.capsule_id kv
  on_topic_ne p d (some c) r (some t) = elim (Bool-cases (is_ingress_trusted f c.source_id kv)) [
    | inr u ↦ rw (u, grant_on_topic) (clear_other p r.capsule_id kv)
    | inl u ↦ rw (u, grant_on_topic) (decide_ne p d r t (normalize_decision r.decision))
  ]

  -- A respond writes at the grant keys only.
  pub grant_respond_ne :
      ((c : Text) → grant_pending_key c ≢ some k)
      → ((c : Text) → grant_decision_key c ≢ some k)
      → (caller : Option Caller) (req : Option GrantRespond)
      → (handle_mcp_grant_respond {Value = Value} f caller req kv).0 k ≡ kv k
  unfolding handle_mcp_grant_respond
  grant_respond_ne p d caller none = refl
  grant_respond_ne p d caller (some r) = on_topic_ne p d caller r (response_topic r.request_id)

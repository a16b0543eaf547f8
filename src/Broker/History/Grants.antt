-- ===== src/Broker/History/Grants.antt =====
-- About the durable decisions in a history of handlers (crates/aos-mcp-broker/src/approval.rs).
use unicity_aos.Base.{◌≡◌, refl, ◌∙◌, ◌⊎◌, inl, inr, List, [], ◌∷◌, none, some}
use unicity_aos.Base.Text.{Text}
use unicity_aos.Broker.Kv.{Kv}
use unicity_aos.Broker.Consent.{grant_decision_key}
use unicity_aos.Broker.Consent.Keys
use unicity_aos.Broker.Respond.Ingress.{respond_decision}
use unicity_aos.Broker.Respond.Grant.{Approves, grant_respond-Kept, grant_respond_none}
use unicity_aos.Broker.Call.Frame.{handle_mcp_call-Written}
use unicity_aos.Broker.History.{Event, call, ingress_respond, grant_respond, step, run}

-- The event is an approve for the capsule by an ingress that the store has as trusted.
abbrev pub Grants : {Value : Type 0} → Text → Event Value → Kv → Type 0
Grants capsule_id (grant_respond f caller (some r)) kv =
    Approves f kv caller r × (r.capsule_id ≡ capsule_id)
Grants capsule_id _ kv = ⊥

-- Such an event is in the history, with the store as it was at that time.
abbrev pub Granted : {Value : Type 0} → Text → List (Event Value) → Kv → Type 0
Granted capsule_id [] kv = ⊥
Granted capsule_id (e ∷ es) kv = Grants capsule_id e kv ⊎ Granted capsule_id es (step e kv)

module _ {Value : Type 0} (c k : Text) (key : grant_decision_key c ≡ some k) where
  step-Grants : (e : Event Value) (kv : Kv) → (step e kv k ≡ kv k) ⊎ Grants c e kv
  unfolding step
  step-Grants (call h req) kv = elim (handle_mcp_call-Written h k kv req) [
    | inl same ↦ inl same
    | inr (inl (d, q, p)) ↦ absurd (Keys.pending-ne-grant_decision d.source_id c k p key)
    | inr (inr (d, p)) ↦ absurd (Keys.grant_pending-ne-grant_decision d c k p key)
  ]
  step-Grants (ingress_respond f caller req) kv =
      inl (respond_decision Value f k caller req c kv key)
  step-Grants (grant_respond f caller none) kv = inl (grant_respond_none Value f caller kv k)
  step-Grants (grant_respond f caller (some r)) kv = grant_respond-Kept Value f caller r c k kv key

  -- A durable decision for a capsule that a history of handlers made or changed was made by an
  -- approve respond in it, for that capsule, from an ingress that was trusted at that time.
  pub run-Granted : (es : List (Event Value)) (kv : Kv) → (run es kv k ≡ kv k) ⊎ Granted c es kv
  unfolding run
  run-Granted [] kv = inl refl
  run-Granted (e ∷ es) kv = elim (step-Grants e kv) [
    | inr g ↦ inr (inl g)
    | inl same ↦ elim (run-Granted es (step e kv)) [
      | inl rest ↦ inl (rest ∙ same)
      | inr g ↦ inr (inr g)
    ]
  ]

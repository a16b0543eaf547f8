-- ===== src/Broker/Respond/Accept.antt =====
-- About an accept of an outstanding prompt (`handle_mcp_ingress_respond`,
-- crates/aos-mcp-broker/src/approval.rs).
use unicity_aos.Base.{◌≡◌, refl, true, some}
use unicity_aos.Base.Text.{Text}
use unicity_aos.Broker.Kv.{Kv, no_faults, set_bytes, put_self}
use unicity_aos.Broker.Consent.{
  ingress_trust_key, ingress_pending_key, mark_value, mark_ingress_pending, take_ingress_pending,
  is_ingress_trusted,
}
use unicity_aos.Broker.Consent.Frame.{
  mark_ingress_pending_at, take_ingress_pending_found, is_ingress_trusted_found,
}
use unicity_aos.Broker.Respond.{
  Caller, IngressRespond, handle_mcp_ingress_respond, answer_ingress, record_trust,
}

module _ (Value : Type 0) (c : Caller) (tk pk : Text)
    (trust : ingress_trust_key c.source_id ≡ some tk)
    (pending : ingress_pending_key c.source_id ≡ some pk) where
  recorded :
      (q : IngressRespond) (kv : Kv)
      → q.accept ≡ true
      → (answer_ingress {Value = Value} no_faults q c.source_id true kv).0 tk ≡ some mark_value
  unfolding answer_ingress record_trust set_bytes
  recorded q kv e = rw (e, trust) (put_self tk (some mark_value) kv)

  -- The accept of the marked ingress, where the store answers.
  pub accept_trusts :
      (q : IngressRespond) (kv : Kv)
      → q.accept ≡ true
      → is_ingress_trusted no_faults c.source_id
          (handle_mcp_ingress_respond {Value = Value} no_faults
            (some c)
            (some q)
            (mark_ingress_pending no_faults c.source_id kv)).0
        ≡ true
  unfolding handle_mcp_ingress_respond
  accept_trusts q kv e =
      let marked = mark_ingress_pending no_faults c.source_id kv in
      let had =
        take_ingress_pending_found no_faults c.source_id pk mark_value marked pending refl
          (mark_ingress_pending_at no_faults c.source_id pk kv pending refl) in
      is_ingress_trusted_found no_faults c.source_id tk mark_value _ trust refl
        (rw had (recorded q (take_ingress_pending no_faults c.source_id marked).1 e))

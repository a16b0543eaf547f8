-- ===== src/Broker/History/Tests.antt =====
-- Tests and instances for histories of the broker's handlers.
use unicity_aos.Base.{◌≡◌, ◌⊎◌, refl, true, List, [], ◌∷◌, some, codes}
use unicity_aos.Base.Text.{Text, text_eq, is_empty, byte_len}
use unicity_aos.Broker.Kv.{no_faults, get_bytes_opt}
use unicity_aos.Broker.Topics.{reply_topic}
use unicity_aos.Broker.Consent.{suffix_key, is_ingress_trusted}
use unicity_aos.Broker.Consent.Frame.{IsTrusted, is_ingress_trusted-true}
use unicity_aos.Broker.History.{Event, call, ingress_respond, grant_respond, run}
use unicity_aos.Broker.History.Trust.{Consented, run-Consented}
use unicity_aos.Broker.History.Grants.{Granted, run-Granted}
use unicity_aos.Broker.History.Accept.{call_accept_trusts}
use unicity_aos.Broker.Fixtures.{
  empty_kv, trusted_kv, claude, text_host, ls_call, accepted, approved,
}

abbrev call_and_accept : List (Event Text)
call_and_accept =
    call text_host (some ls_call) ∷ ingress_respond no_faults (some claude) (some accepted) ∷ []

call_accept_trusts_example :
    is_ingress_trusted no_faults (codes "claude") (run call_and_accept empty_kv) ≡ true
unfolding reply_topic is_empty byte_len text_eq is_ingress_trusted suffix_key get_bytes_opt
call_accept_trusts_example =
    call_accept_trusts Text text_host ls_call claude accepted (codes "astrid.v1.response.r1")
      empty_kv refl refl refl refl (λ e. cc e) refl refl

IsTrusted-at_end : IsTrusted (codes "claude") (run call_and_accept empty_kv)
unfolding reply_topic is_empty byte_len text_eq is_ingress_trusted suffix_key get_bytes_opt
IsTrusted-at_end =
    is_ingress_trusted-true no_faults (codes "claude") (run call_and_accept empty_kv) (
      call_accept_trusts Text text_host ls_call claude accepted (codes "astrid.v1.response.r1")
        empty_kv refl refl refl refl (λ e. cc e) refl refl)

run-Consented_example : Consented (codes "claude") call_and_accept
unfolding suffix_key
run-Consented_example =
    run-Consented (codes "claude") call_and_accept empty_kv (λ t. t refl) (λ t. t refl)
      IsTrusted-at_end

run-Granted_example :
    (run {Value = Text}
        (grant_respond no_faults (some claude) (some approved) ∷ [])
        trusted_kv
        (codes "mcp.grant.decision.fs")
      ≡ trusted_kv (codes "mcp.grant.decision.fs"))
    ⊎ Granted {Value = Text}
        (codes "fs")
        (grant_respond no_faults (some claude) (some approved) ∷ [])
        trusted_kv
unfolding suffix_key
run-Granted_example =
    run-Granted (codes "fs") (codes "mcp.grant.decision.fs") refl
      (grant_respond no_faults (some claude) (some approved) ∷ []) trusted_kv

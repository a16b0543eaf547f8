-- ===== src/Broker/History.antt =====
-- Histories of the broker's handlers on one principal's store: `handle_mcp_call` (broker.rs),
-- `handle_mcp_ingress_respond` and `handle_mcp_grant_respond` (approval.rs), in any order, each with
-- what the host gives it at the time, the failures of the store among it.
pub mod Steps
pub mod Trust
pub mod Grants
pub mod Accept
mod Tests
use unicity_aos.Base.{Option, List, [], ◌∷◌}
use unicity_aos.Broker.Kv.{Kv, Faults}
use unicity_aos.Broker.Respond.{
  Caller, IngressRespond, GrantRespond, handle_mcp_ingress_respond, handle_mcp_grant_respond,
}
use unicity_aos.Broker.Call.{Host, CallRequest, handle_mcp_call}

pub data Event (Value : Type 0) : Type 0 where
  call : Host Value → Option (CallRequest Value) → Event Value
  ingress_respond : Faults → Option Caller → Option IngressRespond → Event Value
  grant_respond : Faults → Option Caller → Option GrantRespond → Event Value

-- The store after one handler.
unfoldable pub step : {Value : Type 0} → Event Value → Kv → Kv
step (call h req) kv = (handle_mcp_call h req kv).0
step {Value = Value} (ingress_respond f caller req) kv =
    (handle_mcp_ingress_respond {Value = Value} f caller req kv).0
step {Value = Value} (grant_respond f caller req) kv =
    (handle_mcp_grant_respond {Value = Value} f caller req kv).0

unfoldable pub run : {Value : Type 0} → List (Event Value) → Kv → Kv
run [] kv = kv
run (e ∷ es) kv = run es (step e kv)

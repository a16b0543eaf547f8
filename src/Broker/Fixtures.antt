-- ===== src/Broker/Fixtures.antt =====
-- Data for the tests of the broker's handlers: values are texts.
use unicity_aos.Base.{ℕ, true, [], none, some, codes}
use unicity_aos.Base.Text.{Text}
use unicity_aos.Broker.Kv.{Kv, no_faults, put}
use unicity_aos.Base.Json.{Json, Shape}
use unicity_aos.Broker.Policy.{read}
use unicity_aos.Broker.Consent.{mark_value}
use unicity_aos.Broker.Dispatch.{Envelopes, Slice, Bus}
use unicity_aos.Broker.Respond.{Caller, IngressRespond, GrantRespond}
use unicity_aos.Broker.Call.{CallRequest, Host}

abbrev pub empty_kv : Kv
empty_kv k = none

-- The ingress "claude" is trusted.
abbrev pub trusted_kv : Kv
trusted_kv = put (codes "mcp.ingress.trust.claude") (some mark_value) empty_kv

abbrev pub text_json : Json Text
text_json = record {
  shape = λ s. Shape.string s;
  pointer = λ s p. none;
  get = λ s p. none;
  from_str = λ s. none;
  null_value = [];
  string_value = λ s. s;
}

abbrev pub no_envelopes : Envelopes Text
no_envelopes = record { to_approval = λ v. none; to_grant = λ v. none }

abbrev pub quiet_slices : ℕ → Slice
quiet_slices i = record { before = none; results = some []; after = none }

abbrev pub quiet_bus : Bus
quiet_bus = record {
  result_sub = true;
  approval_sub = true;
  publishes = true;
  slices = quiet_slices;
}

abbrev pub claude : Caller
claude = record { source_id = codes "claude"; principal = codes "default" }

abbrev pub text_host : Host Text
text_host = record {
  json = text_json;
  envelopes = no_envelopes;
  parse_rules = λ s. none;
  policy_env = read none;
  faults = no_faults;
  wall_ms = 5000;
  caller = some claude;
  bus = quiet_bus;
}

abbrev pub ls_call : CallRequest Text
ls_call = record { req_id = codes "r1"; name = codes "fs.list"; arguments = codes "." }

abbrev pub accepted : IngressRespond
accepted = record { req_id = codes "r2"; accept = true }

abbrev pub approved : GrantRespond
approved = record {
  req_id = codes "r3";
  request_id = codes "g1";
  decision = codes "approve";
  capsule_id = codes "fs";
}

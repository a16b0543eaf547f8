-- ===== src/Lib.antt =====
-- Verification library of the AOS Community Edition.
--
-- AOS runs AI agents as capsules on a runtime that gives them a message bus, a key-value store per
-- principal and settings. The MCP broker (crates/aos-mcp-broker) is the way in for MCP clients: an
-- ingress asks it to call a tool, it checks that the user trusts the ingress, that the policy of the
-- operator allows the call, routes the call on the bus, and turns what comes back, a result or a
-- request for consent, into a reply. The context engine (capsules/capsule-context-engine) cuts a
-- conversation down to a budget of tokens. The users capsule (capsules/capsule-users) keeps the
-- identities of users: requests on the bus create users, link the identities that they have on
-- platforms, and resolve a platform's user to a user and a name. The hook bridge
-- (capsules/capsule-hook-bridge) turns lifecycle events and the hooks of host agents into requests on
-- the bus, and merges what comes back. This library models the broker, the strategy of the context
-- engine, the users capsule and the hook bridge:
--
--   Broker/Glob      the matcher of wildcards `glob_match` (crates/aos-mcp-broker/src/policy.rs)
--   Broker/Policy    the policy decision point: matchers, `evaluate`, `validate`, `load_rules`
--                    (policy.rs)
--   Broker/Topics    the gates on ids that become topic segments (broker.rs, approval.rs,
--                    hook_gate.rs, execute.rs)
--   Broker/Kv        the key-value store of the host: a function from keys to values, and an oracle
--                    of the calls that fail, which leave the store as it was
--   Broker/Consent   ingress trust, prompt markers and durable grant decisions (execute.rs,
--                    grant_decision.rs)
--   Broker/Messages  what the broker publishes, and the verbs of decisions (approval.rs)
--   Broker/Dispatch  `dispatch_with_approval`, `poll_signal`, `match_result` (execute.rs)
--   Broker/Slices    the loop that drains a subscription in slices (execute.rs, approval.rs)
--   Broker/Approval  `handle_mcp_approval`, `resolve_with_decision`, `drain_result` (approval.rs)
--   Broker/HookGate  `handle_before_tool_call` (hook_gate.rs)
--   Broker/Cache     the cache of tool descriptors with its updates by compare-and-swap (cache.rs)
--   Broker/Discovery the fan-out that collects tool descriptors, and its gate (discovery.rs)
--   Broker/Respond   `handle_mcp_ingress_respond`, `handle_mcp_grant_respond` (approval.rs)
--   Broker/Call      `handle_mcp_call` (broker.rs) with the native-tool gate
--   Broker/History   any sequence of these handlers on one principal's store
--   Context          the compaction strategy `summarize_and_truncate`
--                    (capsules/capsule-context-engine/src/strategy.rs)
--   Users/Types      the records, and the calls on `uuid` and `serde_json`
--                    (capsules/capsule-users/src/types.rs)
--   Users/Backend    the calls on keys and values, `Backend` and `SdkBackend`, and the actions that
--                    may fail (store.rs); Runs has the rules for what an action ensures
--   Users/Store      the identity store: Keys, Records, Accounts, Links, Page, Contexts (store.rs)
--   Users/Requests, Users/Responses, Users/Capsule   the requests, the JSON of responses and the
--                    handlers (requests.rs, responses.rs, lib.rs)
--   Users/Calm       which operations can panic
--   Users/Owners     what stands behind every link
--   Users/Directory  the store as a map of links: its specification, and each operation against it
--   Users/Overlays, Users/Names   the overlays of a removed link; the name that a link resolves to
--   Users/Time       the calendar and the format of time stamps
--                    (capsules/capsule-users/src/time.rs)
--   Hooks/Mapping, Hooks/Merge    which event goes to which hook, and the merge of responses
--                    (capsules/capsule-hook-bridge/src/lib.rs)
--   Hooks/Bus, Hooks/Collect      the calls on the host, and the loops that collect replies
--   Hooks/Dispatch, Hooks/Oracle  `dispatch_hook` and `handle_oracle_hook`
--   Hooks/Bridge     the interceptors; Hooks/Termination is about their end, Hooks/Publishes about what
--                    an action publishes
--   Base             texts, lists, Boolean tests and decimal numbers that the modules share
--
-- A handler is a function from its request, what the host gives it and the store, to the store after
-- it and the list of messages that it publishes, in their order. A request is `none` where its
-- payload does not parse, the caller is `none` where the host has no caller context. A text is the
-- list of its code points; lengths in bytes are computed from them. A value of the store that is not
-- UTF-8 reads as the empty text.
--
-- An operation of the users capsule is a function from the host's store, the list of its entries, to
-- a result and the store that it leaves, also where it stops early. Which calls on the store fail,
-- and with which message, is an input by key: of one operation, all calls of a kind on a key fail or
-- none does.
--
-- An interceptor of the hook bridge is a function from the messages published so far to a result and
-- the messages after it. What each round of its loop receives, and the time then, is an input.
--
-- Parameters: the JSON library (`Json`: the variant of a value, access to its parts, the parser), the
-- parsers that `serde` derives (`Envelopes`, `parse_rules`, `Codec`, `Describe`), the settings, the
-- clock, and the bus (`Bus`: whether subscriptions and the publication succeed, and what each poll
-- delivers).
--
-- Fuel: the loop of `glob_match` is on fuel, n * (m + 1) + m + 1 rounds for a pattern of length m and
-- a text of length n: between two moves of the anchor, of which there are at most n, each round
-- advances in the pattern. A drain has 201 rounds, one for each slice of 250 ms of its 50 s and one to
-- end. An update of the cache has the 8 attempts of the source. The fan-out of a discovery has 25
-- rounds, the slices of 100 ms of its 2.5 s. The loops of the hook bridge take their fuel as an
-- argument; one round more than those before the clock reaches the deadline is enough.
--
-- Not modelled: log lines, the texts for people in replies, the kind and block structure of a
-- reply's JSON, failures to publish a reply or an audit, the handler of the tool list, the
-- rebuild of the cache from static tool metadata, the rest of the context engine, and the other
-- capsules. Times before the epoch, which no caller formats, are left out with the signed
-- arithmetic of `format_rfc3339`; of a year past 2^31 - 1 the 32 bits are kept that its cast
-- leaves.
pub mod Base
pub mod Broker
pub mod Context
pub mod Hooks
pub mod Users

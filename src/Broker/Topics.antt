-- ===== src/Broker/Topics.antt =====
-- Topic names of the broker: the gates on ids and tool names that become part of a topic.
-- `reply_topic` of crates/aos-mcp-broker/src/broker.rs, `response_topic` of approval.rs,
-- `reply_topic` of hook_gate.rs, `is_valid_tool_name` and the tool topics of execute.rs.
pub mod Segments
mod Tests
use unicity_aos.Base.{
  ℕ, Bool, true, not, ◌&&◌, ◌||◌, ◌++◌, all, Option, none, some, ltb, leb, ◌==◌, if◌then◌else◌,
  codes,
}
use unicity_aos.Base.Text.{Text, byte_len, is_empty, is_ascii_alphanumeric}

abbrev pub max_id_len : ℕ
max_id_len = 128

-- Over bytes in the source: a character outside ASCII has only bytes from 128 on.
pub id_char : ℕ → Bool
unfolding is_ascii_alphanumeric
id_char b = is_ascii_alphanumeric b || b == b'_' || b == b'-'

-- The gate that `reply_topic`, `response_topic` and the hook's `reply_topic` share, over the prefix.
pub id_topic : Text → Text → Option Text
id_topic prefix id =
    if is_empty id || ltb max_id_len (byte_len id)
    then none
    else if not (all id_char id)
    then none
    else some (prefix ++ id)

abbrev pub response_prefix : Text
response_prefix = codes "astrid.v1.response."

abbrev pub approval_response_prefix : Text
approval_response_prefix = codes "astrid.v1.approval.response."

abbrev pub hook_reply_prefix : Text
hook_reply_prefix = codes "hook.v1.response.before_tool_call."

unfoldable pub reply_topic : Text → Option Text
unfolding id_topic id_char
reply_topic req_id = id_topic response_prefix req_id

unfoldable pub response_topic : Text → Option Text
unfolding id_topic id_char
response_topic request_id = id_topic approval_response_prefix request_id

unfoldable pub hook_reply_topic : Text → Option Text
unfolding id_topic id_char
hook_reply_topic correlation_id = id_topic hook_reply_prefix correlation_id

pub name_char : ℕ → Bool
unfolding id_char
name_char b = id_char b || b == b'.'

unfoldable pub is_valid_tool_name : Text → Bool
unfolding name_char
is_valid_tool_name name =
    not (is_empty name) && leb (byte_len name) max_id_len && all name_char name

abbrev pub route_topic : Text → Text
route_topic name = codes "tool.v1.execute." ++ name

abbrev pub result_topic : Text → Text
result_topic name = codes "tool.v1.execute." ++ (name ++ codes ".result")

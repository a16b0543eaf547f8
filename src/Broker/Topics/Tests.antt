-- ===== src/Broker/Topics/Tests.antt =====
-- Tests and instances for the topic gates, after the unit tests of broker.rs and hook_gate.rs.
use unicity_aos.Base.{[], ◌≢◌, ◌≤◌, ◌≡◌, refl, none, some, codes, true, false}
use unicity_aos.Base.Text.{byte_len, is_empty}
use unicity_aos.Broker.Topics.{
  max_id_len, id_topic, id_char, response_prefix, reply_topic, is_valid_tool_name,
}
use unicity_aos.Broker.Topics.Segments.{dots, IsClean, id_topic_lem}

topic_tests :
    (reply_topic (codes "0191-ab_C") ≡ some (codes "astrid.v1.response.0191-ab_C"))
    × (reply_topic (codes "a.b") ≡ none)
    × (reply_topic (codes "a*b") ≡ none)
    × (reply_topic (codes "a b") ≡ none)
    × (reply_topic (codes "") ≡ none)
    × (is_valid_tool_name (codes "fs.read-2") ≡ true)
    × (is_valid_tool_name (codes "../etc") ≡ false)
unfolding reply_topic is_valid_tool_name byte_len is_empty
topic_tests = (refl, refl, refl, refl, refl, refl, refl)

id_topic_lem_example :
    (dots (codes "astrid.v1.response.r1") ≡ dots response_prefix)
    × IsClean (codes "r1")
    × (codes "r1" ≢ [])
    × (byte_len (codes "r1") ≤ max_id_len)
    × (id_topic response_prefix (codes "r2") ≡ some (codes "astrid.v1.response.r1")
        → codes "r2" ≡ codes "r1")
unfolding id_topic id_char byte_len is_empty
id_topic_lem_example =
    id_topic_lem response_prefix (codes "r1") (codes "r2") (codes "astrid.v1.response.r1") refl

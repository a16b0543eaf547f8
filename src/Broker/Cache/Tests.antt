-- ===== src/Broker/Cache/Tests.antt =====
-- Tests and instances for the tool cache, after the unit tests of cache.rs.
use unicity_aos.Base.{
  ℕ, ◌≤◌, ◌≡◌, refl, true, false, List, [], ◌∷◌, length, none, some, codes, arith,
}
use unicity_aos.Base.Text.{Text, text_eq}
use unicity_aos.Base.Sort.{text_ltb}
use unicity_aos.Broker.Cache.{
  McpToolDescriptor, CacheState, Attempt, Codec, Tools, merge, insert, update, insert_new,
  contains_key, lookup, is_fresh, upsert, max_cached_tools,
}
use unicity_aos.Broker.Cache.Merge.{length-merge, lookup-merge, latest}
use unicity_aos.Broker.Cache.Race.{Kept, upsert-Kept}

abbrev tool : Text → Text → McpToolDescriptor Text
tool name description = record {
  name = name;
  title = none;
  description = description;
  input_schema = [];
  capabilities = none;
}

abbrev old_tools : Tools Text
old_tools = (codes "fs.read", tool (codes "fs.read") (codes "old")) ∷ []

abbrev incoming : List (McpToolDescriptor Text)
incoming =
    tool (codes "fs.write") []
    ∷ tool (codes "fs.read") (codes "new")
    ∷ tool (codes "fs.list") []
    ∷ []

merge_tests :
    merge incoming old_tools
    ≡ (codes "fs.list", tool (codes "fs.list") [])
      ∷ (codes "fs.read", tool (codes "fs.read") (codes "new"))
      ∷ (codes "fs.write", tool (codes "fs.write") [])
      ∷ []
unfolding merge insert update insert_new contains_key text_ltb text_eq
merge_tests = refl

abbrev state_at : ℕ → Tools Text → CacheState Text
state_at t ts = record { updated_at_ms = t; tools = ts }

is_fresh_tests :
    (is_fresh (state_at 1000 old_tools) 60_999 ≡ true)
    × (is_fresh (state_at 1000 old_tools) 61_000 ≡ false)
    × (is_fresh (state_at 1000 []) 1000 ≡ false)
    × (is_fresh (state_at 1000 old_tools) 0 ≡ false)
    × (is_fresh (state_at 0 old_tools) 1000 ≡ false)
unfolding is_fresh
is_fresh_tests = (refl, refl, refl, refl, refl)

length-merge_example : length (merge incoming old_tools) ≤ max_cached_tools
length-merge_example = length-merge incoming old_tools max_cached_tools (omega arith) (omega arith)

lookup-merge_example :
    lookup (codes "fs.read") (merge incoming old_tools)
    ≡ latest (codes "fs.read") incoming (lookup (codes "fs.read") old_tools)
lookup-merge_example = lookup-merge incoming old_tools (codes "fs.read") (omega arith)

-- A codec that writes the names only, and another writer that writes once.
abbrev names_codec : Codec Text
names_codec = record { to_vec = λ s. some (codes "state"); from_slice = λ b. none }

abbrev attempt : ℕ → Attempt
attempt i = record {
  before = λ c. c;
  read_fails = false;
  others = λ c. some (codes "theirs");
  cas_fails = false;
  clock = 5000;
}

upsert-Kept_example :
    Kept names_codec attempt incoming 0 none (upsert names_codec attempt 0 incoming none).0
upsert-Kept_example = upsert-Kept names_codec attempt incoming 0 none

-- ===== src/Hooks/Collect.antt =====
-- The loops that collect replies within a window, capsules/capsule-hook-bridge/src/lib.rs. The time
-- since the start at round `i`, and what `recv` gives there for the time that it may wait, are inputs.
pub mod Window
use unicity_aos.Base.{
  ℕ, zero, suc, ◌+◌, ◌-◌, ◌*◌, min, leb, ltb, Bool, true, false, ◌||◌, Option, none, some, List, [],
  ◌∷◌, ◌++◌, codes, if◌then◌else◌,
}
use unicity_aos.Base.Decimal.{u64_max}
use unicity_aos.Base.Text.{Text, contains, trim, is_empty, byte_len}
use unicity_aos.Base.Json.{Json, as_str}
use unicity_aos.Base.Result.{Result, ok, err}
use unicity_aos.Hooks.Bus.{SysError, Received, Host}

abbrev pub hook_collect_deadline_ms : ℕ
hook_collect_deadline_ms = 5_000

abbrev pub hook_quiescence_ms : ℕ
hook_quiescence_ms = 25

abbrev pub host_hook_collect_deadline_ms : ℕ
host_hook_collect_deadline_ms = 1_000

abbrev pub max_host_context_bytes : ℕ
max_host_context_bytes = 65_536

-- `usize::MAX` on the target, wasm32
abbrev pub usize_max : ℕ
usize_max = 0xffff_ffff

-- `u64::try_from(…).unwrap_or(deadline)`
unfoldable pub as_elapsed : ℕ → ℕ → ℕ
as_elapsed deadline ms = if leb ms u64_max then ms else deadline

unfoldable pub remaining : ℕ → Bool → ℕ → ℕ
remaining deadline none_yet elapsed =
    if none_yet then deadline - elapsed else min hook_quiescence_ms (deadline - elapsed)

abbrev pub is_timeout : SysError → Bool
is_timeout (SysError.host_error msg) = contains msg (codes "Timeout")
is_timeout SysError.other_error = false

module _ {Value S : Type 0} (host : Host Value) (deadline : ℕ) (none_yet : S → Bool)
    (add : S → Text → S) where
  unfoldable pub add_all : S → List Text → S
  add_all s [] = s
  add_all s (m ∷ ms) = add_all (add s m) ms

  -- What follows a `recv`: the end, or the rounds that are left.
  unfoldable pub after_recv :
      S → (S → Option (Result SysError S)) → Received → Option (Result SysError S)
  after_recv s more (ok []) = some (ok s)
  after_recv s more (ok (m ∷ ms)) = more (add_all s (m ∷ ms))
  after_recv s more (err e) = if is_timeout e then some (ok s) else some (err e)

  -- The rounds from `i` on; `none` where the fuel is spent.
  unfoldable pub collect : ℕ → ℕ → S → Option (Result SysError S)
  collect zero i s = none
  collect (suc fuel) i s =
      let elapsed = as_elapsed deadline (host.elapsed_ms i) in
      if leb deadline elapsed
      then some (ok s)
      else after_recv s (λ t. collect fuel (suc i) t)
          (host.recv i (remaining deadline (none_yet s) elapsed))

-- `Vec::is_empty`
abbrev pub is_nil : {A : Type 0} → List A → Bool
is_nil [] = true
is_nil (x ∷ xs) = false

-- The contexts so far, and the bytes that they take when they are joined.
pub record Contexts : Type 0 where
  pub contexts : List Text
  pub total : ℕ

-- The bytes with one more context after a separator.
abbrev pub next_total : Contexts → Text → ℕ
next_total s context = s.total + (if is_nil s.contexts then 0 else 2) + byte_len context

abbrev pub grown : Contexts → Text → Contexts
grown s context = record { contexts = s.contexts ++ (context ∷ []); total = next_total s context }

-- The sum overflows, or it is over the limit.
unfoldable pub push_context : Contexts → Text → Contexts
push_context s context =
    if ltb usize_max (next_total s context) || ltb max_host_context_bytes (next_total s context)
    then s
    else grown s context

unfoldable pub join : List Text → Text
join [] = []
join (s ∷ []) = s
join (s ∷ t ∷ ts) = s ++ (codes "\n\n" ++ join (t ∷ ts))

module _ {Value : Type 0} (host : Host Value) where
  abbrev pub push_parsed : List Value → Option Value → List Value
  push_parsed responses none = responses
  push_parsed responses (some v) = responses ++ (v ∷ [])

  unfoldable pub push_response : List Value → Text → List Value
  push_response responses payload = push_parsed responses (host.json.from_str payload)

  unfoldable pub collect_responses : ℕ → Option (Result SysError (List Value))
  collect_responses fuel = collect host hook_collect_deadline_ms is_nil push_response fuel 0 []

  abbrev pub text_of : Option Value → Option Text
  text_of none = none
  text_of (some v) = as_str (host.json.shape v)

  abbrev pub additional_context : Option Value → Option Text
  additional_context none = none
  additional_context (some v) = text_of (host.json.get v (codes "additional_context"))

  abbrev pub push_non_blank : Contexts → Option Text → Contexts
  push_non_blank s none = s
  push_non_blank s (some context) = if is_empty (trim context) then s else push_context s context

  unfoldable pub add_context : Contexts → Text → Contexts
  add_context s payload = push_non_blank s (additional_context (host.json.from_str payload))

  abbrev pub no_contexts : Contexts
  no_contexts = record { contexts = []; total = 0 }

  abbrev pub joined : Contexts → Option Text
  joined s = if is_nil s.contexts then none else some (join s.contexts)

  abbrev pub join_result : Result SysError Contexts → Result SysError (Option Text)
  join_result (ok s) = ok (joined s)
  join_result (err e) = err e

  abbrev pub join_collected :
      Option (Result SysError Contexts) → Option (Result SysError (Option Text))
  join_collected none = none
  join_collected (some r) = some (join_result r)

  unfoldable pub collect_additional_context : ℕ → Option (Result SysError (Option Text))
  collect_additional_context fuel = join_collected (
      collect host host_hook_collect_deadline_ms (λ s. is_nil s.contexts) add_context fuel 0
        no_contexts)

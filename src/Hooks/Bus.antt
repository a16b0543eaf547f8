-- ===== src/Hooks/Bus.antt =====
-- What the hook bridge calls: the bus, the clock, random bytes, the caller and `serde_json`; and the
-- messages that it publishes (capsules/capsule-hook-bridge/src/lib.rs). An action hands on the
-- messages that it has published, in their order, also where it ends in an error.
use unicity_aos.Base.{ℕ, Option, List, [], ◌∷◌, ◌++◌}
use unicity_aos.Base.Text.{Text}
use unicity_aos.Base.Json.{Json}
use unicity_aos.Base.Result.{Result, ok, err}

-- `SysError`, as far as the code looks at it.
pub data SysError : Type 0 where
  host_error : Text → SysError
  other_error : SysError

-- An action fails with an error, or does not end within the rounds that it is given.
pub data Stop : Type 0 where
  failed : SysError → Stop
  unfinished : Stop

pub record HookEventRequest : Type 0 where
  pub hook : Text
  pub payload : Text
  pub correlation_id : Option Text

pub record OracleHookEvent (Value : Type 0) : Type 0 where
  pub schema_version : ℕ
  pub principal_id : Text
  pub host : Text
  pub session_id : Text
  pub event : Text
  pub correlation_id : Text
  pub route_id : Text
  pub delivery_id : Text
  pub turn_id : Option Text
  pub workspace_id : Option Text
  pub payload : Value

pub record OracleHookResponse : Type 0 where
  pub schema_version : ℕ
  pub principal_id : Text
  pub host : Text
  pub session_id : Text
  pub event : Text
  pub correlation_id : Text
  pub route_id : Text
  pub delivery_id : Text
  pub context : Option Text

pub record CanonicalOraclePayload (Value : Type 0) : Type 0 where
  pub principal_id : Text
  pub host : Text
  pub session_id : Text
  pub source_event : Text
  pub turn_id : Option Text
  pub workspace_id : Option Text
  pub payload : Value

pub data Message : Type 0 where
  request : Text → HookEventRequest → Message
  response : Text → OracleHookResponse → Message

-- What one `recv` gives: the payloads of the messages, or an error.
abbrev pub Received : Type 0
Received = Result SysError (List Text)

pub record Host (Value : Type 0) : Type 0 where
  pub subscribe : Text → Result SysError (Unit {0})
  pub publish : Message → Result SysError (Unit {0})
  pub recv : ℕ → ℕ → Received
  pub elapsed_ms : ℕ → ℕ
  pub random_bytes : Result SysError (List ℕ)
  pub caller : Result SysError (Option Text)
  pub json : Json Value
  pub to_string : Value → Result SysError Text
  pub canonical_string : CanonicalOraclePayload Value → Result SysError Text
  pub from_value : Value → Option (OracleHookEvent Value)
  pub byte_size : Value → Option ℕ

abbrev pub Act : Type 0 → Type 0
Act A = List Message → Result Stop A × List Message

unfoldable pub pure : {A : Type 0} → A → Act A
pure a log = (ok a, log)

abbrev pub stop_of : {A : Type 0} → Result SysError A → Result Stop A
stop_of (ok a) = ok a
stop_of (err e) = err (Stop.failed e)

-- `?` on a result of the host.
unfoldable pub try : {A : Type 0} → Result SysError A → Act A
try r log = (stop_of r, log)

abbrev pub continue : {A B : Type 0} → Result Stop A → (A → Act B) → Act B
continue (ok a) f log = f a log
continue (err e) f log = (err e, log)

infixl 5 ◌>>=◌ ◌>>◌
unfoldable pub ◌>>=◌ : {A B : Type 0} → Act A → (A → Act B) → Act B
unfolding pure try
◌>>=◌ m f log = let (r, after) = m log in continue r f after

abbrev pub ◌>>◌ : {A B : Type 0} → Act A → Act B → Act B
m >> n = m >>= λ _. n

-- A publication that fails is no message.
abbrev pub published :
    Message → Result SysError (Unit {0}) → List Message → Result Stop (Unit {0}) × List Message
published m (ok tt) log = (ok tt, log ++ (m ∷ []))
published m (err e) log = (err (Stop.failed e), log)

unfoldable pub publish_json : {Value : Type 0} → Host Value → Message → Act Unit
publish_json host m log = published m (host.publish m) log

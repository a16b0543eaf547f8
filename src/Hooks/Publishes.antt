-- ===== src/Hooks/Publishes.antt =====
-- Which messages an action of capsules/capsule-hook-bridge/src/lib.rs may publish.
use unicity_aos.Base.{Option, none, some, List, [], ◌∷◌, All, All-append}
use unicity_aos.Base.Result.{Result, ok, err}
use unicity_aos.Hooks.Bus.{
  SysError, Stop, Host, Message, Act, pure, try, continue, ◌>>=◌, publish_json, published,
}
use unicity_aos.Hooks.Dispatch.{finished}

-- Every message that the action publishes has `P`.
pub record Publishes {A : Type 0} (P : Message → Type 0) (m : Act A) : Type 0 where
  pub at : (log : List Message) → All P log → All P (m log).1

published-All :
    (P : Message → Type 0) (m : Message) (r : Result SysError (Unit {0})) (log : List Message)
    → P m
    → All P log
    → All P (published m r log).1
published-All P m (ok u) log p h = All-append P log (m ∷ []) h (p, tt)
published-All P m (err e) log p h = h

module _ {P : Message → Type 0} where
  pub pure-Publishes : {A : Type 0} (a : A) → Publishes P (pure a)
  unfolding pure
  pure-Publishes a = record { at = λ log h. h }

  pub try-Publishes : {A : Type 0} (r : Result SysError A) → Publishes P (try r)
  unfolding try
  try-Publishes r = record { at = λ log h. h }

  pub finished-Publishes : {A : Type 0} (o : Option (Result SysError A)) → Publishes P (finished o)
  unfolding finished try
  finished-Publishes none = record { at = λ log h. h }
  finished-Publishes (some r) = record { at = λ log h. h }

  continue-Publishes :
      {A B : Type 0} (r : Result Stop A) (f : A → Act B) (log : List Message)
      → All P log
      → ((a : A) → Publishes P (f a))
      → All P (continue r f log).1
  continue-Publishes (ok a) f log h k = (k a).at log h
  continue-Publishes (err e) f log h k = h

  pub bind-Publishes :
      {A B : Type 0} {m : Act A} {f : A → Act B}
      → Publishes P m
      → ((a : A) → Publishes P (f a))
      → Publishes P (m >>= f)
  unfolding ◌>>=◌
  bind-Publishes {m = m} {f = f} h k = record {
    at = λ log a. continue-Publishes (m log).0 f (m log).1 (h.at log a) k;
  }

  pub publish_json-Publishes :
      {Value : Type 0} (host : Host Value) (m : Message) → P m → Publishes P (publish_json host m)
  unfolding publish_json
  publish_json-Publishes host m p = record {
    at = λ log h. published-All P m (host.publish m) log p h;
  }

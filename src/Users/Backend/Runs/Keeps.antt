-- ===== src/Users/Backend/Runs/Keeps.antt =====
-- About invariants of operations (capsules/capsule-users/src/store.rs).
use unicity_aos.Base.{Bool, Option}
use unicity_aos.Base.Text.{Text}
use unicity_aos.Base.Result.{Result}
use unicity_aos.Users.Types.{StoreError, Codec}
use unicity_aos.Users.Backend.{Kv, Exec, pure, raise, panic, ◌>>=◌, when, Faults, get, list_keys}
use unicity_aos.Users.Store.Records.{lift, ok_or, get_json}
use unicity_aos.Users.Backend.Runs.{
  Runs, Runs-pure, Runs-raise, Runs-panic, Runs-bind, Runs-when, Runs-lift, Runs-ok_or, Runs-get,
  Runs-list_keys, Runs-get_json,
}

-- `P` holds after the operation, whether it returns or stops.
abbrev pub Keeps : {A : Type 0} → (Kv → Type 0) → Exec A → Type 0
Keeps P m = Runs P m (λ _. P) P

module _ {P : Kv → Type 0} where
  pub Keeps-pure : {A : Type 0} (a : A) → Keeps P (pure a)
  Keeps-pure a = Runs-pure a (λ kv p. p)

  pub Keeps-raise : {A : Type 0} (e : StoreError) → Keeps P (raise {A = A} e)
  Keeps-raise e = Runs-raise e (λ kv p. p)

  pub Keeps-panic : {A : Type 0} → Keeps P (panic {A = A})
  Keeps-panic = Runs-panic (λ kv p. p)

  pub Keeps-bind :
      {A B : Type 0} {m : Exec A} {f : A → Exec B}
      → Keeps P m
      → ((a : A) → Keeps P (f a))
      → Keeps P (m >>= f)
  Keeps-bind h k = Runs-bind h k

  pub Keeps-when : (b : Bool) {m : Exec Unit} → Keeps P m → Keeps P (when b m)
  Keeps-when b h = Runs-when b (λ _. h) (λ _ kv p. p)

  pub Keeps-lift : {A : Type 0} (r : Result StoreError A) → Keeps P (lift r)
  Keeps-lift r = Runs-lift r (λ kv p. p) (λ a _ kv p. p)

  pub Keeps-ok_or : {A : Type 0} (o : Option A) (e : StoreError) → Keeps P (ok_or o e)
  Keeps-ok_or o e = Runs-ok_or o e (λ kv p. p) (λ a _ kv p. p)

  pub Keeps-get : (f : Faults) (k : Text) → Keeps P (get f k)
  Keeps-get f k = Runs-get f (λ kv p. p) k (λ kv p. p)

  pub Keeps-list_keys : (f : Faults) (prefix : Text) → Keeps P (list_keys f prefix)
  Keeps-list_keys f prefix = Runs-list_keys f (λ kv p. p) prefix (λ kv p. p)

  pub Keeps-get_json :
      {A : Type 0} (f : Faults) (codec : Codec A) (k : Text) → Keeps P (get_json f codec k)
  Keeps-get_json f codec k = Runs-get_json f (λ kv p. p) codec k (λ kv p. p)

pub ruleset keeps_rules = (
  Keeps-pure, Keeps-raise, Keeps-panic, Keeps-bind, Keeps-when, Keeps-lift, Keeps-ok_or, Keeps-get,
  Keeps-list_keys, Keeps-get_json,
)

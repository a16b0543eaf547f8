-- ===== src/Users/Backend/Runs.antt =====
-- About what operations of the store ensure, whether they return or stop
-- (capsules/capsule-users/src/store.rs).
pub mod Consequence
pub mod Keeps
use unicity_aos.Base.{◌≡◌, refl, Bool, true, false, Option, none, some, List, ◌∷◌}
use unicity_aos.Base.Text.{Text}
use unicity_aos.Base.Result.{Result, ok, err}
use unicity_aos.Users.Types.{StoreError, Codec}
use unicity_aos.Users.Backend.{
  Kv, Exec, Halt, pure, raise, panic, continue, ◌>>=◌, when, Faults, get, list_keys, set, delete,
  without, read, keys_under, guarded,
}
use unicity_aos.Users.Store.Records.{lift, ok_or, get_json, set_json, encoded, parsed, decode_bytes}

-- The record that a key reads as.
abbrev pub decode_or_none : {A : Type 0} → Result Text A → Option A
decode_or_none (ok a) = some a
decode_or_none (err e) = none

abbrev pub parse_or_none : {A : Type 0} → Codec A → Option Text → Option A
parse_or_none codec none = none
parse_or_none codec (some b) = decode_or_none (codec.from_slice b)

unfoldable pub record_at : {A : Type 0} → Codec A → Text → Kv → Option A
record_at codec k kv = parse_or_none codec (read k kv)

abbrev pub Post : {A : Type 0} → (A → Kv → Type 0) → (Kv → Type 0) → Result Halt A → Kv → Type 0
Post Q E (ok a) kv = Q a kv
Post Q E (err e) kv = E kv

-- From a store with `P`, `m` returns a value and a store with `Q`, or stops in a store with `E`.
pub record Runs {A : Type 0} (P : Kv → Type 0) (m : Exec A) (Q : A → Kv → Type 0) (E : Kv → Type 0)
    : Type 0 where
  pub at : (kv : Kv) → P kv → Post Q E (m kv).0 (m kv).1

continue-Runs :
    {E : Kv → Type 0} {A B : Type 0} {R : A → Kv → Type 0} {Q : B → Kv → Type 0} (r : Result Halt A)
    (f : A → Exec B) (kv : Kv)
    → Post R E r kv
    → ((a : A) → Runs (R a) (f a) Q E)
    → Post Q E (continue r f kv).0 (continue r f kv).1
continue-Runs (ok a) f kv p h = (h a).at kv p
continue-Runs (err e) f kv p h = p

module _ {P E : Kv → Type 0} where
  pub Runs-pure :
      {A : Type 0} {Q : A → Kv → Type 0} (a : A) → ((kv : Kv) → P kv → Q a kv) → Runs P (pure a) Q E
  unfolding pure
  Runs-pure a h = record { at = h }

  pub Runs-raise :
      {A : Type 0} {Q : A → Kv → Type 0} (e : StoreError)
      → ((kv : Kv) → P kv → E kv)
      → Runs P (raise e) Q E
  unfolding raise
  Runs-raise e h = record { at = h }

  pub Runs-panic : {A : Type 0} {Q : A → Kv → Type 0} → ((kv : Kv) → P kv → E kv) → Runs P panic Q E
  unfolding panic
  Runs-panic h = record { at = h }

  pub Runs-bind :
      {A B : Type 0} {R : A → Kv → Type 0} {Q : B → Kv → Type 0} {m : Exec A} {f : A → Exec B}
      → Runs P m R E
      → ((a : A) → Runs (R a) (f a) Q E)
      → Runs P (m >>= f) Q E
  unfolding ◌>>=◌
  Runs-bind {m = m} {f = f} h k = record {
    at = λ kv p. continue-Runs (m kv).0 f (m kv).1 (h.at kv p) k;
  }

  pub Runs-when :
      {Q : Kv → Type 0} (b : Bool) {m : Exec Unit}
      → (b ≡ true → Runs P m (λ _. Q) E)
      → (b ≡ false → (kv : Kv) → P kv → Q kv)
      → Runs P (when b m) (λ _. Q) E
  Runs-when true h k = h refl
  Runs-when false h k = Runs-pure tt (k refl)

  pub Runs-lift :
      {A : Type 0} {Q : A → Kv → Type 0} (r : Result StoreError A)
      → ((kv : Kv) → P kv → E kv)
      → ((a : A) → r ≡ ok a → (kv : Kv) → P kv → Q a kv)
      → Runs P (lift r) Q E
  unfolding lift
  Runs-lift (ok a) stop h = Runs-pure a (h a refl)
  Runs-lift (err e) stop h = Runs-raise e stop

  pub Runs-ok_or :
      {A : Type 0} {Q : A → Kv → Type 0} (o : Option A) (e : StoreError)
      → ((kv : Kv) → P kv → E kv)
      → ((a : A) → o ≡ some a → (kv : Kv) → P kv → Q a kv)
      → Runs P (ok_or o e) Q E
  unfolding ok_or
  Runs-ok_or (some a) e stop h = Runs-pure a (h a refl)
  Runs-ok_or none e stop h = Runs-raise e stop

  Runs-guarded :
      {A : Type 0} {Q : A → Kv → Type 0} {m : Exec A} (o : Option Text)
      → ((kv : Kv) → P kv → E kv)
      → Runs P m Q E
      → Runs P (guarded o m) Q E
  Runs-guarded none stop h = h
  Runs-guarded (some e) stop h = Runs-raise (StoreError.storage e) stop

  decode_bytes-Runs :
      {A : Type 0} {Q : Option A → Kv → Type 0} (k : Text)
      → ((kv : Kv) → P kv → E kv)
      → (r : Result Text A) → Runs (λ kv. P kv × Q (decode_or_none r) kv) (decode_bytes k r) Q E
  unfolding decode_bytes pure raise
  decode_bytes-Runs k stop (ok a) = record { at = λ kv (p, q). q }
  decode_bytes-Runs k stop (err e) = record { at = λ kv (p, q). stop kv p }

  parsed-Runs :
      {A : Type 0} {Q : Option A → Kv → Type 0} (codec : Codec A) (k : Text)
      → ((kv : Kv) → P kv → E kv)
      → (bytes : Option Text)
      → Runs (λ kv. P kv × Q (parse_or_none codec bytes) kv) (parsed codec k bytes) Q E
  unfolding parsed pure
  parsed-Runs codec k stop none = record { at = λ kv (p, q). q }
  parsed-Runs codec k stop (some b) = decode_bytes-Runs k stop (codec.from_slice b)

  encoded-Runs :
      (k : Text)
      → ((kv : Kv) → P kv → E kv)
      → (r : Result Text Text) → Runs P (encoded k r) (λ b kv. P kv × (r ≡ ok b)) E
  unfolding encoded pure raise
  encoded-Runs k stop (ok b) = record { at = λ kv p. (p, refl) }
  encoded-Runs k stop (err e) = record { at = stop }

  module _ (f : Faults) (stop : (kv : Kv) → P kv → E kv) where
    pub Runs-get :
        {Q : Option Text → Kv → Type 0} (k : Text)
        → ((kv : Kv) → P kv → Q (read k kv) kv)
        → Runs P (get f k) Q E
    unfolding get
    Runs-get k h = Runs-guarded (f.get_fails k) stop (record { at = h })

    pub Runs-set :
        {Q : Kv → Type 0} (k v : Text)
        → ((kv : Kv) → P kv → Q ((k, v) ∷ without k kv))
        → Runs P (set f k v) (λ _. Q) E
    unfolding set
    Runs-set k v h = Runs-guarded (f.set_fails k) stop (record { at = h })

    pub Runs-delete :
        {Q : Kv → Type 0} (k : Text)
        → ((kv : Kv) → P kv → Q (without k kv))
        → Runs P (delete f k) (λ _. Q) E
    unfolding delete
    Runs-delete k h = Runs-guarded (f.delete_fails k) stop (record { at = h })

    pub Runs-list_keys :
        {Q : List Text → Kv → Type 0} (prefix : Text)
        → ((kv : Kv) → P kv → Q (keys_under prefix kv) kv)
        → Runs P (list_keys f prefix) Q E
    unfolding list_keys
    Runs-list_keys prefix h = Runs-guarded (f.list_fails prefix) stop (record { at = h })

module _ {P E : Kv → Type 0} (f : Faults) (stop : (kv : Kv) → P kv → E kv) {A : Type 0}
    (codec : Codec A) where
  pub Runs-get_json :
      {Q : Option A → Kv → Type 0} (k : Text)
      → ((kv : Kv) → P kv → Q (record_at codec k kv) kv)
      → Runs P (get_json f codec k) Q E
  unfolding get_json record_at
  Runs-get_json {Q = Q} k h =
      Runs-bind
        (Runs-get f stop {Q = λ bytes kv. P kv × Q (parse_or_none codec bytes) kv} k
          (λ kv p. (p, h kv p)))
        (parsed-Runs codec k stop)

  pub Runs-set_json :
      {Q : Kv → Type 0} (k : Text) (a : A)
      → ((b : Text) → codec.to_vec a ≡ ok b → (kv : Kv) → P kv → Q ((k, b) ∷ without k kv))
      → Runs P (set_json f codec k a) (λ _. Q) E
  unfolding set_json
  Runs-set_json {Q = Q} k a h =
      Runs-bind (encoded-Runs k stop (codec.to_vec a))
        (λ b. Runs-set f (λ kv (p, e). stop kv p) k b (λ kv (p, e). h b e kv p))

-- ===== src/Users/Calm.antt =====
-- Which operations can panic (capsules/capsule-users/src/store.rs).
pub mod Operations
pub mod Listings
use unicity_aos.Base.{
  ℕ, zero, suc, ◌+◌, ◌<◌, ◌≡◌, ◌≢◌, refl, Bool, true, false, Option, none, some, List, [], ◌∷◌,
  arith, length, map,
}
use unicity_aos.Base.Text.{Text, trim, is_empty}
use unicity_aos.Base.Result.{Result, ok, err}
use unicity_aos.Base.Sort.{sort_by}
use unicity_aos.Users.Types.{
  StoreError, Codec, Uuid, Libs, AstridUser, FrontendLink, ContextIdentity,
}
use unicity_aos.Users.Backend.{
  Kv, Exec, Halt, pure, raise, continue, ◌>>=◌, ◌>>◌, when, Faults, guarded, get, list_keys, set,
  delete, read, without, keys_under,
}
use unicity_aos.Users.Store.Records.{lift, ok_or, get_json, set_json, encoded, parsed, decode_bytes}

-- The operation returns, or it fails with an error of the store.
pub record Calm {A : Type 0} (m : Exec A) : Type 0 where
  pub at : (kv : Kv) → (m kv).0 ≢ err Halt.panicked

pub Calm-pure : {A : Type 0} (a : A) → Calm (pure a)
unfolding pure
Calm-pure a = record { at = λ kv e. cc e }

pub Calm-raise : {A : Type 0} (e : StoreError) → Calm (raise {A = A} e)
unfolding raise
Calm-raise e = record { at = λ kv q. cc q }

continue_lem :
    {A B : Type 0} (r : Result Halt A) (f : A → Exec B) (kv : Kv)
    → r ≢ err Halt.panicked
    → ((a : A) → Calm (f a))
    → (continue r f kv).0 ≢ err Halt.panicked
continue_lem (ok a) f kv h k = (k a).at kv
continue_lem (err x) f kv h k = λ e. h (cc e)

pub Calm-bind :
    {A B : Type 0} {m : Exec A} {f : A → Exec B} → Calm m → ((a : A) → Calm (f a)) → Calm (m >>= f)
unfolding ◌>>=◌
Calm-bind {m = m} {f = f} h k = record { at = λ kv. continue_lem (m kv).0 f (m kv).1 (h.at kv) k }

pub Calm-when : (b : Bool) {m : Exec Unit} → Calm m → Calm (when b m)
Calm-when true h = h
Calm-when false h = Calm-pure tt

pub Calm-lift : {A : Type 0} (r : Result StoreError A) → Calm (lift r)
unfolding lift
Calm-lift (ok a) = Calm-pure a
Calm-lift (err e) = Calm-raise e

pub Calm-ok_or : {A : Type 0} (o : Option A) (e : StoreError) → Calm (ok_or o e)
unfolding ok_or
Calm-ok_or none e = Calm-raise e
Calm-ok_or (some a) e = Calm-pure a

guarded-Calm : {A : Type 0} (o : Option Text) (m : Exec A) → Calm m → Calm (guarded o m)
guarded-Calm none m h = h
guarded-Calm (some e) m h = Calm-raise (StoreError.storage e)

pub Calm-get : (f : Faults) (k : Text) → Calm (get f k)
unfolding get
Calm-get f k = guarded-Calm (f.get_fails k) _ (record { at = λ kv e. cc e })

pub Calm-set : (f : Faults) (k v : Text) → Calm (set f k v)
unfolding set
Calm-set f k v = guarded-Calm (f.set_fails k) _ (record { at = λ kv e. cc e })

pub Calm-delete : (f : Faults) (k : Text) → Calm (delete f k)
unfolding delete
Calm-delete f k = guarded-Calm (f.delete_fails k) _ (record { at = λ kv e. cc e })

pub Calm-list_keys : (f : Faults) (p : Text) → Calm (list_keys f p)
unfolding list_keys
Calm-list_keys f p = guarded-Calm (f.list_fails p) _ (record { at = λ kv e. cc e })

decode_bytes-Calm : {A : Type 0} (k : Text) (r : Result Text A) → Calm (decode_bytes k r)
unfolding decode_bytes
decode_bytes-Calm k (ok a) = Calm-pure (some a)
decode_bytes-Calm k (err e) = Calm-raise _

parsed-Calm : {A : Type 0} (codec : Codec A) (k : Text) (o : Option Text) → Calm (parsed codec k o)
unfolding parsed
parsed-Calm codec k none = Calm-pure none
parsed-Calm codec k (some b) = decode_bytes-Calm k (codec.from_slice b)

encoded-Calm : (k : Text) (r : Result Text Text) → Calm (encoded k r)
unfolding encoded
encoded-Calm k (ok b) = Calm-pure b
encoded-Calm k (err e) = Calm-raise _

pub Calm-get_json :
    {A : Type 0} (f : Faults) (codec : Codec A) (k : Text) → Calm (get_json f codec k)
unfolding get_json
Calm-get_json f codec k = Calm-bind (Calm-get f k) (λ b. parsed-Calm codec k b)

pub Calm-set_json :
    {A : Type 0} (f : Faults) (codec : Codec A) (k : Text) (a : A) → Calm (set_json f codec k a)
unfolding set_json
Calm-set_json f codec k a = Calm-bind (encoded-Calm k _) (λ b. Calm-set f k b)

pub ruleset calm_rules = (
  Calm-pure, Calm-raise, Calm-bind, Calm-when, Calm-lift, Calm-ok_or, Calm-get, Calm-set,
  Calm-delete, Calm-list_keys, Calm-get_json, Calm-set_json,
)

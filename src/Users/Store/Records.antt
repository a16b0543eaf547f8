-- ===== src/Users/Store/Records.antt =====
-- Records as JSON in the identity store, `get_json` and `set_json` of
-- capsules/capsule-users/src/store.rs.
use unicity_aos.Base.{Option, none, some, ◌++◌, codes}
use unicity_aos.Base.Text.{Text}
use unicity_aos.Base.Result.{Result, ok, err}
use unicity_aos.Users.Types.{StoreError, Codec}
use unicity_aos.Users.Backend.{Exec, pure, raise, ◌>>=◌, Faults, get, set}

-- `?` on a result of the store's own.
unfoldable pub lift : {A : Type 0} → Result StoreError A → Exec A
lift (ok a) = pure a
lift (err e) = raise e

-- `Option::ok_or(…)?`
unfoldable pub ok_or : {A : Type 0} → Option A → StoreError → Exec A
ok_or none e = raise e
ok_or (some a) e = pure a

unfoldable pub decode_bytes : {A : Type 0} → Text → Result Text A → Exec (Option A)
decode_bytes key (ok a) = pure (some a)
decode_bytes key (err e) =
    raise (StoreError.storage (codes "decode " ++ (key ++ (codes ": " ++ e))))

unfoldable pub encoded : Text → Result Text Text → Exec Text
encoded key (ok b) = pure b
encoded key (err e) = raise (StoreError.storage (codes "encode " ++ (key ++ (codes ": " ++ e))))

unfoldable pub parsed : {A : Type 0} → Codec A → Text → Option Text → Exec (Option A)
parsed codec key none = pure none
parsed codec key (some b) = decode_bytes key (codec.from_slice b)

module _ {A : Type 0} (f : Faults) (codec : Codec A) where
  unfoldable pub get_json : Text → Exec (Option A)
  get_json key = do bytes ← get f key; parsed codec key bytes

  unfoldable pub set_json : Text → A → Exec Unit
  set_json key value = do bytes ← encoded key (codec.to_vec value); set f key bytes

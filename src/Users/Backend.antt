-- ===== src/Users/Backend.antt =====
-- The store's access to keys and values, the trait `Backend` and `SdkBackend` of
-- capsules/capsule-users/src/store.rs. The host's store is the list of its entries, in the order in
-- which it lists the keys; which calls fail, and with which message, is an input. An operation hands
-- on what it has written, also when it ends in an error.
pub mod Entries
pub mod Runs
use unicity_aos.Base.{Option, none, some, Bool, true, false, List, [], ◌∷◌, if◌then◌else◌}
use unicity_aos.Base.Text.{Text, text_eq, starts_with}
use unicity_aos.Base.Result.{Result, ok, err}
use unicity_aos.Users.Types.{StoreError}

abbrev pub Kv : Type 0
Kv = List (Text × Text)

-- An operation ends early with an error of the store, or with a panic.
pub data Halt : Type 0 where
  failed : StoreError → Halt
  panicked : Halt

abbrev pub Exec : Type 0 → Type 0
Exec A = Kv → Result Halt A × Kv

unfoldable pub pure : {A : Type 0} → A → Exec A
pure a kv = (ok a, kv)

unfoldable pub raise : {A : Type 0} → StoreError → Exec A
raise e kv = (err (failed e), kv)

unfoldable pub panic : {A : Type 0} → Exec A
panic kv = (err panicked, kv)

abbrev pub continue : {A B : Type 0} → Result Halt A → (A → Exec B) → Exec B
continue (ok a) f kv = f a kv
continue (err e) f kv = (err e, kv)

infixl 5 ◌>>=◌ ◌>>◌
unfoldable pub ◌>>=◌ : {A B : Type 0} → Exec A → (A → Exec B) → Exec B
unfolding pure raise panic
◌>>=◌ m f kv = let (r, after) = m kv in continue r f after

abbrev pub ◌>>◌ : {A B : Type 0} → Exec A → Exec B → Exec B
m >> n = m >>= λ _. n

-- `if b { … }`
abbrev pub when : Bool → Exec Unit → Exec Unit
when true m = m
when false m = pure tt

-- The message of the calls that fail, by key or by prefix.
pub record Faults : Type 0 where
  pub get_fails : Text → Option Text
  pub set_fails : Text → Option Text
  pub delete_fails : Text → Option Text
  pub list_fails : Text → Option Text

abbrev pub no_faults : Faults
no_faults = record {
  get_fails = λ k. none;
  set_fails = λ k. none;
  delete_fails = λ k. none;
  list_fails = λ k. none;
}

unfoldable pub lookup : Text → Kv → Option Text
lookup k [] = none
lookup k ((j, v) ∷ kv) = if text_eq j k then some v else lookup k kv

unfoldable pub without : Text → Kv → Kv
without k [] = []
without k ((j, v) ∷ kv) = let rest = without k kv in if text_eq j k then rest else (j, v) ∷ rest

unfoldable pub keys_under : Text → Kv → List Text
keys_under prefix [] = []
keys_under prefix ((j, v) ∷ kv) =
    let rest = keys_under prefix kv in if starts_with j prefix then j ∷ rest else rest

-- Empty bytes read as no value.
abbrev pub not_blank : Option Text → Option Text
not_blank none = none
not_blank (some []) = none
not_blank (some (c ∷ s)) = some (c ∷ s)

unfoldable pub read : Text → Kv → Option Text
read k kv = not_blank (lookup k kv)

-- A call that fails has no effect.
abbrev pub guarded : {A : Type 0} → Option Text → Exec A → Exec A
guarded none m = m
guarded (some e) m = raise (StoreError.storage e)

module _ (f : Faults) where
  unfoldable pub get : Text → Exec (Option Text)
  get k = guarded (f.get_fails k) (λ kv. (ok (read k kv), kv))

  unfoldable pub set : Text → Text → Exec Unit
  set k v = guarded (f.set_fails k) (λ kv. (ok tt, (k, v) ∷ without k kv))

  unfoldable pub delete : Text → Exec Unit
  delete k = guarded (f.delete_fails k) (λ kv. (ok tt, without k kv))

  unfoldable pub list_keys : Text → Exec (List Text)
  list_keys prefix = guarded (f.list_fails prefix) (λ kv. (ok (keys_under prefix kv), kv))

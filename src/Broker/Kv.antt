-- ===== src/Broker/Kv.antt =====
-- The key-value store of the host, scoped to one principal, as the broker uses it: `kv::get_bytes_opt`,
-- `kv::set_bytes`, `kv::delete`. A call may fail; a call that fails leaves the store as it was.
-- A value that is not UTF-8 reads as the empty text, as the code's `unwrap_or("")` has it.
use unicity_aos.Base.{◌≡◌, ◌≢◌, Bool, false, Option, none, some, arith, if◌then◌else◌}
use unicity_aos.Base.Text.{Text, text_eq, text_eq_iff}

abbrev pub Kv : Type 0
Kv = Text → Option Text

-- Which calls fail, by the key.
pub record Faults : Type 0 where
  pub get_fails : Text → Bool
  pub set_fails : Text → Bool
  pub delete_fails : Text → Bool

unfoldable pub put : Text → Option Text → Kv → Kv
put k v kv j = if text_eq k j then v else kv j

-- `Ok(Some(_))`, `Ok(None)` and `Err(_)`.
pub data Got : Type 0 where
  found : Text → Got
  missing failed : Got

abbrev pub got_of : Option Text → Got
got_of none = missing
got_of (some v) = found v

unfoldable pub get_bytes_opt : Faults → Text → Kv → Got
get_bytes_opt f k kv = if f.get_fails k then failed else got_of (kv k)

unfoldable pub set_bytes : Faults → Text → Text → Kv → Kv
set_bytes f k v kv = if f.set_fails k then kv else put k (some v) kv

unfoldable pub delete : Faults → Text → Kv → Kv
delete f k kv = if f.delete_fails k then kv else put k none kv

pub put_self : (k : Text) (v : Option Text) (kv : Kv) → put k v kv k ≡ v
unfolding put
put_self k v kv = ground (arith, text_eq_iff k k)

pub put_ne : (k j : Text) (v : Option Text) (kv : Kv) → k ≢ j → put k v kv j ≡ kv j
unfolding put
put_ne k j v kv n = ground (arith, text_eq_iff k j)

pub set_bytes_ne : (f : Faults) (k v j : Text) (kv : Kv) → k ≢ j → set_bytes f k v kv j ≡ kv j
unfolding set_bytes
set_bytes_ne f k v j kv n = ground (arith, put_ne k j (some v) kv n)

pub delete_ne : (f : Faults) (k j : Text) (kv : Kv) → k ≢ j → delete f k kv j ≡ kv j
unfolding delete
delete_ne f k j kv n = ground (arith, put_ne k j none kv n)

pub delete_absent : (f : Faults) (k j : Text) (kv : Kv) → kv j ≡ none → delete f k kv j ≡ none
unfolding delete put
delete_absent f k j kv n = ground (arith, n)

abbrev pub no_faults : Faults
no_faults = record { get_fails = λ k. false; set_fails = λ k. false; delete_fails = λ k. false }

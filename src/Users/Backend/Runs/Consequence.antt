-- ===== src/Users/Backend/Runs/Consequence.antt =====
-- About weaker and stronger statements on operations (capsules/capsule-users/src/store.rs).
use unicity_aos.Base.{subst, ◌≡◌, refl, Bool, true, false}
use unicity_aos.Base.Result.{Result, ok, err}
use unicity_aos.Users.Backend.{Kv, Exec, Halt}
use unicity_aos.Users.Backend.Runs.{Runs, Post}

-- A fact that is about no store.
pub Runs-given :
    {P E : Kv → Type 0} {X : Type 0} {A : Type 0} {Q : A → Kv → Type 0} {m : Exec A}
    → (X → Runs P m Q E)
    → Runs (λ kv. P kv × X) m Q E
Runs-given h = record { at = λ kv (p, x). (h x).at kv p }

pub Runs-weaken :
    {P P' E : Kv → Type 0} {A : Type 0} {Q : A → Kv → Type 0} {m : Exec A}
    → ((kv : Kv) → P' kv → P kv)
    → Runs P m Q E
    → Runs P' m Q E
Runs-weaken w h = record { at = λ kv p. h.at kv (w kv p) }

pub Runs-cases :
    {P E : Kv → Type 0} {A : Type 0} {Q : A → Kv → Type 0} (b : Bool) {m n : Exec A}
    → (b ≡ true → Runs P m Q E)
    → (b ≡ false → Runs P n Q E)
    → Runs P (elim b [ true ↦ m | false ↦ n ]) Q E
Runs-cases true h k = h refl
Runs-cases false h k = k refl

Post-more :
    {A : Type 0} (E : Kv → Type 0) {Q Q' : A → Kv → Type 0} (r : Result Halt A) (kv : Kv)
    → ((a : A) (kv : Kv) → Q a kv → Q' a kv)
    → Post Q E r kv
    → Post Q' E r kv
Post-more E (ok a) kv w p = w a kv p
Post-more E (err e) kv w p = p

pub Runs-strengthen :
    {P E : Kv → Type 0} {A : Type 0} {Q Q' : A → Kv → Type 0} {m : Exec A}
    → ((a : A) (kv : Kv) → Q a kv → Q' a kv)
    → Runs P m Q E
    → Runs P m Q' E
Runs-strengthen {E = E} {m = m} w h = record {
  at = λ kv p. Post-more E (m kv).0 (m kv).1 w (h.at kv p);
}

Post-anywhere :
    {A : Type 0} (Q : A → Kv → Type 0) (E : Kv → Type 0) (r : Result Halt A) (kv : Kv)
    → Post Q E r kv
    → Post Q (λ _. Unit) r kv
Post-anywhere Q E (ok a) kv p = p
Post-anywhere Q E (err e) kv p = tt

-- Nothing is said of a store where the operation stops.
pub Runs-returns :
    {P E : Kv → Type 0} {A : Type 0} {Q : A → Kv → Type 0} {m : Exec A}
    → Runs P m Q E
    → Runs P m Q (λ _. Unit)
Runs-returns {E = E} {Q = Q} {m = m} h = record {
  at = λ kv p. Post-anywhere Q E (m kv).0 (m kv).1 (h.at kv p);
}

-- What a run ensures, where its result is known.
pub Post_ok :
    {A : Type 0} (Q : A → Kv → Type 0) (E : Kv → Type 0) (r : Result Halt A) (kv : Kv) (a : A)
    → r ≡ ok a
    → Post Q E r kv
    → Q a kv
Post_ok Q E r kv a e p = subst (λ x. Post Q E x kv) e p

-- ===== src/Base/Drop.antt =====
-- Suffixes of a list by position.
use Prim.Native.Nat.{ℕ, zero, suc, ◌+◌, ◌-◌, ◌≤◌, ◌<◌}
use Prim.Native.Nat.add
use mathlib.Core.Path.{◌≡◌, refl, subst, ap}
use mathlib.Core.List.{List, [], ◌∷◌, ◌++◌}
use mathlib.Core.Option.{none, some}
use native.Mathlib.Omega.{arith}
use unicity_aos.Base.Lists.{get_elem?, take, drop, length, All}

module _ {ℓ} {A : Type ℓ} where
  pub drop-nil : (n : ℕ) → drop {A = A} n [] ≡ []
  drop-nil zero = refl
  drop-nil (suc n) = refl

  pub drop_of_get :
      (xs : List A) (i : ℕ) (x : A) → get_elem? xs i ≡ some x → drop i xs ≡ x ∷ drop (suc i) xs
  drop_of_get [] i x h = absurd (cc)
  drop_of_get (y ∷ xs) zero x h = cc
  drop_of_get (y ∷ xs) (suc i) x h = drop_of_get xs i x h

  pub drop_past : (xs : List A) (i j : ℕ) → get_elem? xs i ≡ none → i ≤ j → drop j xs ≡ []
  drop_past [] i j h le = drop-nil j
  drop_past (y ∷ xs) zero j h le = absurd (cc)
  drop_past (y ∷ xs) (suc i) zero h le = elim le [ ]
  drop_past (y ∷ xs) (suc i) (suc j) h le = drop_past xs i j h (omega arith)

  pub drop-drop : (xs : List A) (i j : ℕ) → drop j (drop i xs) ≡ drop (i + j) xs
  drop-drop xs zero j = rw add.zero
  drop-drop [] (suc i) j = rw (add.suc i j) (drop-nil j)
  drop-drop (x ∷ xs) (suc i) j = rw (add.suc i j) (drop-drop xs i j)

  pub All-get {κ} :
      (P : A → Type κ) (xs : List A) (i : ℕ) (x : A) → All P xs → get_elem? xs i ≡ some x → P x
  All-get P [] i x h e = absurd (cc)
  All-get P (y ∷ xs) zero x h e = let same : y ≡ x = cc in subst P same h.0
  All-get P (y ∷ xs) (suc i) x h e = All-get P xs i x h.1 e

  pub get-lt-length : (xs : List A) (i : ℕ) (x : A) → get_elem? xs i ≡ some x → i < length xs
  get-lt-length [] i x e = absurd (cc)
  get-lt-length (y ∷ xs) zero x e = omega arith
  get-lt-length (y ∷ xs) (suc i) x e = omega (arith, get-lt-length xs i x e)

  pub length-le_of_get : (xs : List A) (i : ℕ) → get_elem? xs i ≡ none → length xs ≤ i
  length-le_of_get [] i e = omega arith
  length-le_of_get (y ∷ xs) zero e = absurd (cc)
  length-le_of_get (y ∷ xs) (suc i) e = omega (arith, length-le_of_get xs i e)

  pub drop_tail :
      (xs : List A) (i : ℕ) (x : A) (us : List A) → drop i xs ≡ x ∷ us → drop (suc i) xs ≡ us
  drop_tail [] i x us e = absurd (cc (drop-nil i))
  drop_tail (y ∷ xs) zero x us e = ap (drop 1) e
  drop_tail (y ∷ xs) (suc i) x us e = drop_tail xs i x us e

  pub get_of_drop :
      (xs : List A) (i : ℕ) (x : A) (us : List A) → drop i xs ≡ x ∷ us → get_elem? xs i ≡ some x
  get_of_drop [] i x us e = absurd (cc (drop-nil i))
  get_of_drop (y ∷ xs) zero x us e = cc
  get_of_drop (y ∷ xs) (suc i) x us e = get_of_drop xs i x us e

  -- A whole list, and a list cut in two.
  pub take_past : (n : ℕ) (xs : List A) → length xs ≤ n → take n xs ≡ xs
  take_past zero [] h = refl
  take_past zero (x ∷ xs) h = elim h [ ]
  take_past (suc n) [] h = refl
  take_past (suc n) (x ∷ xs) h = ap (λ (ys : List A). x ∷ ys) (take_past n xs (omega arith))

  pub take-append-drop : (n : ℕ) (xs : List A) → take n xs ++ drop n xs ≡ xs
  take-append-drop zero xs = refl
  take-append-drop (suc n) [] = refl
  take-append-drop (suc n) (x ∷ xs) = ap (λ (ys : List A). x ∷ ys) (take-append-drop n xs)

  pub length-drop : (n : ℕ) (xs : List A) → length (drop n xs) ≡ length xs - n
  length-drop zero xs = omega arith
  length-drop (suc n) [] = omega arith
  length-drop (suc n) (x ∷ xs) = omega (arith, length-drop n xs)

  pub get_of_lt : (xs : List A) (i : ℕ) → i < length xs → (x : A) × (get_elem? xs i ≡ some x)
  get_of_lt [] i h = absurd (omega arith)
  get_of_lt (x ∷ xs) zero h = (x, refl)
  get_of_lt (x ∷ xs) (suc i) h = get_of_lt xs i (omega arith)

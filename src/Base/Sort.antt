-- ===== src/Base/Sort.antt =====
-- The order of texts and sorting by a key, as the sources use of `Ord for str`, `slice::sort` and
-- `slice::sort_by`.
use Prim.Native.Nat.{ℕ}
use mathlib.Core.Path.{◌≡◌, refl, sym, ap₂}
use mathlib.Core.Logic.{◌≢◌}
use mathlib.Core.Bool.{Bool, true, false, ◌&&◌, ◌||◌}
use mathlib.Core.List.{List, [], ◌∷◌}
use native.Mathlib.Omega.{arith}
use unicity_aos.Base.Tests.{◌==◌, ltb, if◌then◌else◌, if-cases}
use unicity_aos.Base.Lists.{All}
use unicity_aos.Base.Text.{Text}

-- By code points, as by UTF-8 bytes.
unfoldable pub text_ltb : Text → Text → Bool
text_ltb [] [] = false
text_ltb [] (d ∷ t) = true
text_ltb (c ∷ s) [] = false
text_ltb (c ∷ s) (d ∷ t) = ltb c d || (c == d && text_ltb s t)

pub text_ltb_irrefl : (s : Text) → text_ltb s s ≡ false
unfolding text_ltb
text_ltb_irrefl [] = refl
text_ltb_irrefl (c ∷ s) = ground (arith, text_ltb_irrefl s)

pub text_ltb_trans :
    (s t u : Text) → text_ltb s t ≡ true → text_ltb t u ≡ true → text_ltb s u ≡ true
unfolding text_ltb
text_ltb_trans [] (d ∷ t) (e ∷ u) a b = refl
text_ltb_trans (c ∷ s) (d ∷ t) (e ∷ u) a b = ground (arith, text_ltb_trans s t u)
text_ltb_trans [] [] u a b = absurd (cc)
text_ltb_trans (c ∷ s) [] u a b = absurd (cc)
text_ltb_trans s (d ∷ t) [] a b = absurd (cc)

pub text_ltb_total : (s t : Text) → text_ltb s t ≡ false → s ≢ t → text_ltb t s ≡ true
unfolding text_ltb
text_ltb_total [] [] a n = absurd (n refl)
text_ltb_total [] (d ∷ t) a n = absurd (cc)
text_ltb_total (c ∷ s) [] a n = refl
text_ltb_total (c ∷ s) (d ∷ t) a n =
    let same : c ≡ d → s ≡ t → (c ∷ s) ≡ (d ∷ t) = λ p q. ap₂ (λ (x : ℕ) (y : Text). x ∷ y) p q in
    ground (arith, text_ltb_total s t, same, n)

module _ {A : Type 0} (key : A → Text) where
  unfoldable pub insert_by : A → List A → List A
  insert_by x [] = x ∷ []
  insert_by x (y ∷ ys) =
      let rest = insert_by x ys in if text_ltb (key y) (key x) then y ∷ rest else x ∷ y ∷ ys

  unfoldable pub sort_by : List A → List A
  unfolding insert_by
  sort_by [] = []
  sort_by (x ∷ xs) = insert_by x (sort_by xs)

  -- Each key is less than every later one.
  abbrev pub IsAscending : List A → Type 0
  IsAscending [] = Unit
  IsAscending (x ∷ xs) = All (λ y. text_ltb (key x) (key y) ≡ true) xs × IsAscending xs

  abbrev pub HasDistinctKeys : List A → Type 0
  HasDistinctKeys [] = Unit
  HasDistinctKeys (x ∷ xs) = All (λ y. key x ≢ key y) xs × HasDistinctKeys xs

  pub All-insert_by :
      (P : A → Type 0) (x : A) (ys : List A) → P x → All P ys → All P (insert_by x ys)
  unfolding insert_by
  All-insert_by P x [] p a = (p, tt)
  All-insert_by P x (y ∷ ys) p (q, a) =
      if-cases (All P) (text_ltb (key y) (key x)) (λ _. (q, All-insert_by P x ys p a))
        (λ _. (p, (q, a)))

  pub All-sort_by : (P : A → Type 0) (xs : List A) → All P xs → All P (sort_by xs)
  unfolding sort_by
  All-sort_by P [] a = tt
  All-sort_by P (x ∷ xs) (p, a) = All-insert_by P x (sort_by xs) p (All-sort_by P xs a)

  All-above :
      (x y : A) (ys : List A)
      → text_ltb (key x) (key y) ≡ true
      → All (λ z. text_ltb (key y) (key z) ≡ true) ys
      → All (λ z. text_ltb (key x) (key z) ≡ true) ys
  All-above x y [] l a = tt
  All-above x y (z ∷ ys) l (b, a) =
      (text_ltb_trans (key x) (key y) (key z) l b, All-above x y ys l a)

  insert_by-IsAscending :
      (x : A) (ys : List A)
      → All (λ y. key x ≢ key y) ys
      → IsAscending ys
      → IsAscending (insert_by x ys)
  unfolding insert_by
  insert_by-IsAscending x [] n a = (tt, tt)
  insert_by-IsAscending x (y ∷ ys) (n, ns) (b, a) =
      if-cases IsAscending (text_ltb (key y) (key x))
        (λ e. (
          All-insert_by (λ z. text_ltb (key y) (key z) ≡ true) x ys e b,
          insert_by-IsAscending x ys ns a,
        ))
        (λ e.
          let l = text_ltb_total (key y) (key x) e (λ r. n (sym r)) in
          ((l, All-above x y ys l b), (b, a)))

  -- Sorting puts distinct keys in ascending order.
  pub sort_by-IsAscending : (xs : List A) → HasDistinctKeys xs → IsAscending (sort_by xs)
  unfolding sort_by
  sort_by-IsAscending [] d = tt
  sort_by-IsAscending (x ∷ xs) (n, d) =
      insert_by-IsAscending x (sort_by xs) (All-sort_by (λ y. key x ≢ key y) xs n)
        (sort_by-IsAscending xs d)

-- ===== src/Users/Store/Page/Walk.antt =====
-- About following the cursors of pages (capsules/capsule-users/src/store.rs).
use unicity_aos.Base.{
  ℕ, zero, suc, ◌+◌, ◌-◌, ◌≤◌, ◌<◌, ◌≡◌, refl, ◌∙◌, ap, subst, true, false, List, [], ◌∷◌, ◌++◌,
  length, Option, none, some, arith, ltb, Bool-cases, inl, inr, All, All-get, take-append-drop,
  take_past, drop-drop, lt→ltb, ltb→lt, length-drop, get_of_lt, take, drop, get_elem?, min,
}
use unicity_aos.Base.Text.{Text}
use unicity_aos.Base.Sort.{text_ltb, text_ltb_irrefl, text_ltb_trans, IsAscending}
use unicity_aos.Users.Store.Page.{Next, page_size, position_after, start_index, cursor_at, window}

module _ {A : Type 0} (key : A → Text) where
  -- The items of a page and of all that follow it; `none` where a page panics over its cursor, or
  -- the fuel runs out.
  unfoldable pub follow : ℕ → Option ℕ → List A → Option Text → Option (List A)
  follow zero limit xs cursor = none
  follow (suc fuel) limit xs cursor =
      let w = window key cursor limit xs in
      elim w.cursor [
        | Next.done ↦ some w.items
        | Next.out_of_range ↦ none
        | Next.next c ↦ elim (follow fuel limit xs (some c)) [
          | none ↦ none
          | some rest ↦ some (w.items ++ rest)
        ]
      ]

  position_of_above :
      (c : Text) (ys : List A)
      → All (λ y. text_ltb c (key y) ≡ true) ys
      → position_after key c ys ≡ 0
  unfolding position_after
  position_of_above c [] a = refl
  position_of_above c (y ∷ ys) (l, a) = ground (arith, l)

  -- After the key of an item comes the next place.
  position_of_get :
      (xs : List A) (i : ℕ) (x : A)
      → IsAscending key xs
      → get_elem? xs i ≡ some x
      → position_after key (key x) xs ≡ suc i
  unfolding position_after
  position_of_get [] i x a e = absurd (cc)
  position_of_get (y ∷ ys) zero x (above, a) e =
      let same : y ≡ x = cc in
      subst (λ z. position_after key (key z) (y ∷ ys) ≡ 1) same
        (rw (text_ltb_irrefl (key y), position_of_above (key y) ys above) refl)
  position_of_get (y ∷ ys) (suc i) x (above, a) e =
      let l = All-get (λ z. text_ltb (key y) (key z) ≡ true) ys i x above e in
      ground (
        arith,
        position_of_get ys i x a e,
        text_ltb_trans (key y) (key x) (key y) l,
        text_ltb_irrefl (key y),
      )

  module _ (limit : Option ℕ) (xs : List A) where
    window_next :
        (cursor : Option Text) (s j : ℕ) (x : A)
        → start_index key cursor xs ≡ s
        → s + page_size limit ≡ suc j
        → suc j < length xs
        → get_elem? xs j ≡ some x
        → window key cursor limit xs
          ≡ record { items = take (page_size limit) (drop s xs); cursor = Next.next (key x) }
    unfolding window cursor_at
    window_next cursor s j x e p l g =
        let last : min (suc j) (length xs) ≡ suc j = ground arith in
        let size : suc j - s ≡ page_size limit = omega arith in
        rw (e, p, last, lt→ltb (suc j) (length xs) l, cursor_at, g, size) refl

    window_done :
        (cursor : Option Text) (s : ℕ)
        → start_index key cursor xs ≡ s
        → length xs ≤ s + page_size limit
        → window key cursor limit xs ≡ record { items = drop s xs; cursor = Next.done }
    unfolding window
    window_done cursor s e l =
        let last : min (s + page_size limit) (length xs) ≡ length xs = ground arith in
        let none_left : ltb (length xs) (length xs) ≡ false = ground arith in
        rw
          (
            e,
            last,
            none_left,
            take_past (length xs - s) (drop s xs) (omega (arith, length-drop s xs)),
          )
          refl

    -- From the place that a cursor gives, the pages have all that is left.
    walk :
        0 < page_size limit
        → IsAscending key xs
        → (fuel s : ℕ) (cursor : Option Text) → start_index key cursor xs ≡ s
        → s ≤ length xs
        → length xs < s + fuel
        → follow fuel limit xs cursor ≡ some (drop s xs)
    unfolding follow
    walk n a zero s cursor e l m = absurd (omega arith)
    walk n a (suc fuel) s cursor e l m = elim (Bool-cases (ltb (s + page_size limit) (length xs))) [
      | inl q ↦
          let j = s + page_size limit - 1 in
          let p : s + page_size limit ≡ suc j = omega arith in
          let inside = ltb→lt (s + page_size limit) (length xs) q in
          let (x, g) = get_of_lt xs j (omega arith) in
          let later =
            walk n a fuel (suc j) (some (key x)) (unfold start_index in position_of_get xs j x a g)
              (omega arith) (omega arith) in
          let rest : drop (page_size limit) (drop s xs) ≡ drop (suc j) xs =
            drop-drop xs s (page_size limit) ∙ ap (λ k. drop k xs) p in
          let w = window_next cursor s j x e p (omega arith) g in
          rw (follow, w, later, w, ← rest)
            (ap some (take-append-drop (page_size limit) (drop s xs)))
      | inr q ↦ let w = window_done cursor s e (ground arith) in rw (follow, w, w) refl
    ]

    pub follow_all :
        0 < page_size limit
        → IsAscending key xs
        → (fuel : ℕ) → length xs < fuel
        → follow fuel limit xs none ≡ some xs
    follow_all n a fuel h =
        walk n a fuel 0 none (unfold start_index in refl) (omega arith) (omega arith)

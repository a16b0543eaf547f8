-- ===== src/Users/Store/Page/Covers.antt =====
-- About whole walks over pages, and pages of no size (capsules/capsule-users/src/store.rs).
use unicity_aos.Base.{
  ℕ, zero, suc, ◌+◌, ◌<◌, ◌≡◌, ◌↔◌, refl, List, [], ◌∷◌, length, Option, some, none, arith, ltb,
  min, Bool-cases, inl, inr, lt→ltb, get_of_lt, if◌then◌else◌,
}
use unicity_aos.Base.Text.{Text}
use unicity_aos.Base.Sort.{sort_by, insert_by, sort_by-IsAscending, HasDistinctKeys}
use unicity_aos.Users.Store.Page.{Next, page_size, start_index, cursor_at, window}
use unicity_aos.Users.Store.Page.Walk.{follow, follow_all}

module _ {A : Type 0} (key : A → Text) where
  length-insert_by : (x : A) (ys : List A) → length (insert_by key x ys) ≡ suc (length ys)
  unfolding insert_by
  length-insert_by x [] = refl
  length-insert_by x (y ∷ ys) = ground (arith, length-insert_by x ys)

  length-sort_by : (xs : List A) → length (sort_by key xs) ≡ length xs
  unfolding sort_by
  length-sort_by [] = refl
  length-sort_by (x ∷ xs) = omega (arith, length-insert_by x (sort_by key xs), length-sort_by xs)

  -- Over items with distinct keys, the pages of a limit above 0 end and have, one after the other,
  -- every item once, in the order of the keys; one round more than there are items is enough.
  pub follow-sort_by :
      (limit : Option ℕ) (xs : List A) (fuel : ℕ)
      → HasDistinctKeys key xs
      → 0 < page_size limit
      → length xs < fuel
      → follow key fuel limit (sort_by key xs) none ≡ some (sort_by key xs)
  follow-sort_by limit xs fuel d n l =
      follow_all key limit (sort_by key xs) n (sort_by-IsAscending key xs d) fuel
        (omega (arith, length-sort_by xs))

  cursor_out_of_range :
      (xs : List A) (end_idx : ℕ)
      → (if ltb end_idx (length xs) then cursor_at key xs end_idx else Next.done)
        ≡ Next.out_of_range
      → (end_idx ≡ 0) × (0 < length xs)
  unfolding cursor_at
  cursor_out_of_range [] end_idx e = ground arith
  cursor_out_of_range (x ∷ xs) zero e = (refl, omega arith)
  cursor_out_of_range (x ∷ xs) (suc i) e = elim (Bool-cases (ltb (suc i) (suc (length xs)))) [
    | inl q ↦ let (y, g) = get_of_lt (x ∷ xs) i (ground arith) in absurd (ground (arith, q, g))
    | inr q ↦ absurd (ground (arith, q))
  ]

  -- The computation of the next cursor indexes before the first item, which panics, exactly if the
  -- limit is 0, the page starts at the first item, and there is an item.
  pub window_out_of_range_iff :
      (cursor : Option Text) (limit : Option ℕ) (xs : List A)
      → ((window key cursor limit xs).cursor ≡ Next.out_of_range)
        ↔ ((page_size limit ≡ 0) × (start_index key cursor xs ≡ 0) × (0 < length xs))
  unfolding window cursor_at
  window_out_of_range_iff cursor limit xs = (there, back)
    where
      there :
          (window key cursor limit xs).cursor ≡ Next.out_of_range
          → (page_size limit ≡ 0) × (start_index key cursor xs ≡ 0) × (0 < length xs)
      there e =
          let (z, l) =
            cursor_out_of_range xs (min (start_index key cursor xs + page_size limit) (length xs))
              e in
          ground arith

      back :
          (page_size limit ≡ 0) × (start_index key cursor xs ≡ 0) × (0 < length xs)
          → (window key cursor limit xs).cursor ≡ Next.out_of_range
      back (p, s, l) =
          let none_before : min 0 (length xs) ≡ 0 = ground arith in
          rw (p, s, none_before, lt→ltb 0 (length xs) l, cursor_at) refl

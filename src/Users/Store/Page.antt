-- ===== src/Users/Store/Page.antt =====
-- Pages of a sorted list, as the three listings of capsules/capsule-users/src/store.rs cut them. A
-- cursor is the key of the last item of the page before.
pub mod Walk
pub mod Covers
use unicity_aos.Base.{
  ℕ, zero, suc, ◌+◌, ◌-◌, Bool, Option, none, some, List, [], ◌∷◌, length, take, drop, get_elem?,
  min, ltb, if◌then◌else◌,
}
use unicity_aos.Base.Text.{Text}
use unicity_aos.Base.Sort.{text_ltb}

abbrev pub default_list_limit : ℕ
default_list_limit = 100

abbrev pub max_list_limit : ℕ
max_list_limit = 1000

-- The cursor of the next page; `out_of_range` where the code indexes below the first item.
pub data Next : Type 0 where
  done out_of_range : Next
  next : Text → Next

pub record Window (A : Type 0) : Type 0 where
  pub items : List A
  pub cursor : Next

pub record Page (A : Type 0) : Type 0 where
  pub items : List A
  pub next_cursor : Option Text

unfoldable pub page_size : Option ℕ → ℕ
page_size none = min default_list_limit max_list_limit
page_size (some limit) = min limit max_list_limit

module _ {A : Type 0} (key : A → Text) where
  -- The place of the first key after `c`, or the length.
  unfoldable pub position_after : Text → List A → ℕ
  position_after c [] = 0
  position_after c (x ∷ xs) =
      let rest = position_after c xs in if text_ltb c (key x) then 0 else suc rest

  unfoldable pub start_index : Option Text → List A → ℕ
  start_index none xs = 0
  start_index (some c) xs = position_after c xs

  -- `keys[end_idx - 1]`
  unfoldable pub cursor_at : List A → ℕ → Next
  cursor_at xs zero = Next.out_of_range
  cursor_at xs (suc i) = elim (get_elem? xs i) [
    | none ↦ Next.out_of_range
    | some x ↦ Next.next (key x)
  ]

  unfoldable pub window : Option Text → Option ℕ → List A → Window A
  window cursor limit xs =
      let start_idx = start_index cursor xs in
      let end_idx = min (start_idx + page_size limit) (length xs) in
      record {
        items = take (end_idx - start_idx) (drop start_idx xs);
        cursor = if ltb end_idx (length xs) then cursor_at xs end_idx else Next.done;
      }

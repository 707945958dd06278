-- ===== src/Slices.antt =====
-- src/peer/io/mod.rs, `Slices`: which byte ranges of a piece have been written.
pub mod Step
pub mod Order
pub mod Cover
pub mod Exact
pub mod Shrink
use bentorrent.Prelude.{
  ℕ, zero, suc, ◌+◌, ◌-◌, ◌%◌, ◌^◌, max, ltb, leb, ◌==◌, if◌then◌else◌, Bool, true, false, ◌&&◌,
  ◌||◌, not, Option, none, some, List, [], ◌∷◌, length, get_elem?, set, add_u32, to_u32,
}

pub record Slices : Type 0 where
  pub slices : List (ℕ × ℕ)
  pub expected_size : ℕ

unfoldable pub new : ℕ → Slices
new expected_size = record { slices = []; expected_size = expected_size }

-- The answer of the standard library's binary search, Ok(position) or Err(insertion point).
pub data Found : Type 0 where
  ok : ℕ → Found
  err : ℕ → Found

abbrev pub next : Found → Found
next (ok i) = ok (suc i)
next (err i) = err (suc i)

-- `binary_search_by_key` on the starts, for lists whose starts ascend strictly: the position of the
-- start `key`, or the number of starts below it. On other lists the library's answer is another.
unfoldable pub search : ℕ → List (ℕ × ℕ) → Found
search key [] = err 0
search key ((start, end) ∷ xs) =
    let rest = next (search key xs) in
    if start == key then ok 0 else if ltb key start then err 0 else rest

-- `Vec::insert` and `Vec::remove`.
unfoldable pub insert_at : ℕ → ℕ × ℕ → List (ℕ × ℕ) → List (ℕ × ℕ)
insert_at zero x xs = x ∷ xs
insert_at (suc i) x [] = x ∷ []
insert_at (suc i) x (y ∷ xs) = y ∷ insert_at i x xs

unfoldable pub remove_at : ℕ → List (ℕ × ℕ) → List (ℕ × ℕ)
remove_at i [] = []
remove_at zero (x ∷ xs) = xs
remove_at (suc i) (x ∷ xs) = x ∷ remove_at i xs

-- The state of the `Err(missing)` branch: the list, the range being placed, and what was merged.
pub record Merge : Type 0 where
  pub slices : List (ℕ × ℕ)
  pub start : ℕ
  pub end : ℕ
  pub combined : Bool

-- The range touches the start of its right neighbour: that one is extended.
unfoldable pub look_right : List (ℕ × ℕ) → ℕ → ℕ → ℕ → Merge
look_right xs missing begin end_pos = elim (get_elem? xs missing) [
  | none ↦ record { slices = xs; start = begin; end = end_pos; combined = false }
  | some (s, t) ↦
      if s == end_pos
      then record { slices = set xs missing (begin, t); start = begin; end = t; combined = true }
      else record { slices = xs; start = begin; end = end_pos; combined = false }
]

-- The left neighbour reaches the range: its end is set.
unfoldable pub look_left : List (ℕ × ℕ) → ℕ → ℕ → ℕ → List (ℕ × ℕ) × Bool
look_left xs zero start end = (xs, false)
look_left xs (suc left) start end = elim (get_elem? xs left) [
  | none ↦ (xs, false)
  | some (s, t) ↦ if leb start t then (set xs left (s, end), true) else (xs, false)
]

-- What follows the two looks: insert, remove the merged right neighbour, or nothing.
unfoldable pub settle : ℕ → ℕ × ℕ → Bool → Bool → List (ℕ × ℕ) → List (ℕ × ℕ)
unfolding insert_at remove_at
settle missing slice was_combined_left was_combined_right xs =
    if not was_combined_left && not was_combined_right
    then insert_at missing slice xs
    else if was_combined_left && was_combined_right
    then remove_at missing xs
    else xs

unfoldable pub place : Found → ℕ → ℕ → List (ℕ × ℕ) → List (ℕ × ℕ)
unfolding look_right look_left settle
place (ok pos) begin end_pos xs = elim (get_elem? xs pos) [
  | none ↦ xs
  | some (s, t) ↦ set xs pos (s, max t end_pos)
]
place (err missing) begin end_pos xs =
    let right = look_right xs missing begin end_pos in
    let left = look_left right.slices missing right.start right.end in
    settle missing (right.start, right.end) left.1 right.combined left.0

unfoldable pub is_complete : Slices → Bool
is_complete s = elim s.slices [
  | [] ↦ false
  | (start, end) ∷ more ↦ length more == 0 && start == 0 && end == to_u32 s.expected_size
]

-- `begin + len` is a u32 sum, which wraps in a release build.
abbrev pub insert_slices : ℕ → ℕ → List (ℕ × ℕ) → List (ℕ × ℕ)
insert_slices begin end_pos xs = place (search begin xs) begin end_pos xs

unfoldable pub insert : Slices → ℕ → ℕ → Slices × Bool
insert s begin len =
    let s' = record s { slices = insert_slices begin (add_u32 begin len) s.slices } in
    (s', is_complete s')

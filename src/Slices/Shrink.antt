-- ===== src/Slices/Shrink.antt =====
-- src/peer/io/mod.rs, `Slices::insert`: a range inside one that is already there.
use bentorrent.Prelude.{
  ◌%◌, refl, leb, ℕ, arith, true, false, List, ltb, ◌==◌, [], ◌∷◌, ◌+◌, ◌^◌, ◌<◌, ◌≡◌, add_u32,
}
use bentorrent.Slices.{
  Slices, is_complete, insert, insert_slices, search, place, look_right, look_left, settle,
  insert_at, remove_at,
}

-- A block written again strictly inside a written range, not at its start, cuts the range at the
-- block's end: the bytes from there to the old end count as missing again.
pub insert_shrinks :
    (s t b len : ℕ)
    → s < b
    → b + len < t
    → t < 2 ^ 32
    → insert_slices b (add_u32 b len) ((s, t) ∷ []) ≡ (s, b + len) ∷ []
unfolding search place look_right look_left settle insert_at remove_at
insert_shrinks s t b len h k small =
    let sum : add_u32 b len ≡ b + len = omega arith in
    let differs : (s == b) ≡ false = ground arith in
    let below : ltb b s ≡ false = ground arith in
    let reach : leb b t ≡ true = ground arith in rw (sum, differs, below, reach) refl

complete_slices :
    (xs : List (ℕ × ℕ)) (n : ℕ)
    → n < 2 ^ 32
    → is_complete (record { slices = xs; expected_size = n }) ≡ true
    → xs ≡ (0, n) ∷ []
unfolding is_complete
complete_slices [] n small h = absurd (cc)
complete_slices ((start, end) ∷ []) n small h =
    let first : start ≡ 0 = ground arith in
    let last : end ≡ n = ground arith in rw (first, last) refl
complete_slices ((start, end) ∷ x ∷ xs) n small h = absurd (ground arith)

-- A piece that is reported complete (size < 2^32), into which a block is written again, not at the
-- start and not up to the end, is answered with "not complete".
pub insert_uncompletes :
    (s : Slices) (b len : ℕ)
    → is_complete s ≡ true
    → 0 < b
    → b + len < s.expected_size
    → s.expected_size < 2 ^ 32
    → (insert s b len).1 ≡ false
unfolding insert is_complete
insert_uncompletes s b len full h k small =
    let size = s.expected_size in
    let one : s.slices ≡ (0, size) ∷ [] = complete_slices s.slices size small full in
    let differs : (b + len == size % 2 ^ 32) ≡ false = ground arith in
    rw (one, insert_shrinks 0 size b len h k small, differs) refl

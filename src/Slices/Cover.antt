-- ===== src/Slices/Cover.antt =====
-- src/peer/io/mod.rs, `Slices`.
-- What the slices cover. An insert covers nothing but old bytes and the inserted range, so a
-- piece is never declared complete before all of its bytes were written.
use bentorrent.Prelude.{
  ℕ, ◌+◌, ◌≤◌, ◌<◌, ◌≡◌, refl, arith, List, [], ◌∷◌, ltb, leb, ◌&&◌, ◌||◌, Bool, true, false,
  add_u32, u32_mod,
}
use bentorrent.Slices.{Slices, insert, new, is_complete}
use bentorrent.Slices.Step.{
  Inserts, alone, grow, front, join_right, back, join_left, between, join_left_only, join_both,
  behind, insert_slices-Inserts,
}

abbrev pub in_range : ℕ → ℕ → ℕ → Bool
in_range b e i = leb b i && ltb i e

-- Byte `i` lies in one of the slices.
unfoldable pub covered : ℕ → List (ℕ × ℕ) → Bool
covered i [] = false
covered i ((s, t) ∷ xs) = in_range s t i || covered i xs

Inserts-covered :
    {b e : ℕ} (i : ℕ) {xs ys : List (ℕ × ℕ)}
    → Inserts b e xs ys
    → covered i ys ≡ true
    → (in_range b e i || covered i xs) ≡ true
unfolding covered
Inserts-covered i alone h = ground arith
Inserts-covered i (grow s t xs p) h = ground arith
Inserts-covered i (front s t xs p q) h = ground arith
Inserts-covered i (join_right s t xs p q) h = ground arith
Inserts-covered i (back s t p q) h = ground arith
Inserts-covered i (join_left s t p q) h = ground arith
Inserts-covered i (between s t s' t' xs ys p q r o) h = ground (arith, Inserts-covered i o)
Inserts-covered i (join_left_only s t s' t' xs p q r o) h = ground arith
Inserts-covered i (join_both s t s' t' xs p q r o) h = ground arith
Inserts-covered i (behind s t s' t' xs ys p q o) h = ground (arith, Inserts-covered i o)

-- The ranges of a list of writes (begin, length).
unfoldable pub in_blocks : ℕ → List (ℕ × ℕ) → Bool
in_blocks i [] = false
in_blocks i ((b, len) ∷ bs) = in_range b (b + len) i || in_blocks i bs

-- Any sequence of inserts.
unfoldable pub insert_all : Slices → List (ℕ × ℕ) → Slices
insert_all s [] = s
insert_all s ((b, len) ∷ bs) = insert_all (insert s b len).0 bs

-- Writes inside a piece of `n` bytes, as `write_piece` checks before it inserts.
abbrev pub Within : ℕ → List (ℕ × ℕ) → Type 0
Within n [] = Unit {0}
Within n ((b, len) ∷ bs) = (b + len ≤ n) × Within n bs

pub insert-covered :
    (i n b len : ℕ) (s : Slices)
    → n < u32_mod
    → b + len ≤ n
    → covered i (insert s b len).0.slices ≡ true
    → (in_range b (b + len) i || covered i s.slices) ≡ true
unfolding insert
insert-covered i n b len s h w c =
    ground (arith, Inserts-covered i (insert_slices-Inserts b (add_u32 b len) s.slices) c)

insert_all-covered :
    (n i : ℕ) (s : Slices) (bs : List (ℕ × ℕ))
    → n < u32_mod
    → Within n bs
    → covered i (insert_all s bs).slices ≡ true
    → (covered i s.slices || in_blocks i bs) ≡ true
unfolding insert_all in_blocks
insert_all-covered n i s [] h w c = ground arith
insert_all-covered n i s ((b, len) ∷ bs) h w c =
    ground (
      arith,
      insert_all-covered n i (insert s b len).0 bs h w.1 c,
      insert-covered i n b len s h w.0,
    )

pub insert_all-expected_size :
    (s : Slices) (bs : List (ℕ × ℕ)) → (insert_all s bs).expected_size ≡ s.expected_size
unfolding insert_all insert
insert_all-expected_size s [] = refl
insert_all-expected_size s ((b, len) ∷ bs) = insert_all-expected_size (insert s b len).0 bs

-- A complete tracker covers its piece.
pub covered_of_is_complete :
    (s : Slices) (i : ℕ)
    → s.expected_size < u32_mod
    → is_complete s ≡ true
    → i < s.expected_size
    → covered i s.slices ≡ true
unfolding is_complete covered
covered_of_is_complete s i h c k = ground arith

-- After any sequence of writes inside a piece of n < 2^32 bytes, overlapping or not, a tracker
-- that reports completion has seen every byte of the piece in one of the writes.
pub is_complete_sound :
    (n i : ℕ) (bs : List (ℕ × ℕ))
    → n < u32_mod
    → Within n bs
    → is_complete (insert_all (new n) bs) ≡ true
    → i < n
    → in_blocks i bs ≡ true
unfolding new
is_complete_sound n i bs h w c k =
    unfold covered in
    ground (
      arith,
      insert_all-covered n i (new n) bs h w,
      insert_all-expected_size (new n) bs,
      covered_of_is_complete (insert_all (new n) bs) i,
    )

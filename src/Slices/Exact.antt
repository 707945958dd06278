-- ===== src/Slices/Exact.antt =====
-- src/peer/io/mod.rs, `Slices`.
-- Blocks that do not overlap are tracked exactly: whatever the order of their arrival, the
-- piece is complete when, and only when, all of it has been written.
use bentorrent.Prelude.{
  ℕ, suc, ◌+◌, ◌≤◌, ◌<◌, ◌≡◌, refl, arith, List, [], ◌∷◌, ◌||◌, Bool, true, false, add_u32, u32_mod,
  ◌⊎◌, ◌↔◌,
}
use bentorrent.Slices.{Slices, insert, new, is_complete}
use bentorrent.Slices.Step.{
  Inserts, alone, grow, front, join_right, back, join_left, between, join_left_only, join_both,
  behind, insert_slices-Inserts,
}
use bentorrent.Slices.Cover.{
  insert-covered, insert_all-expected_size, in_range, covered, in_blocks, insert_all, Within,
  is_complete_sound,
}

-- Slices that are not empty, lie apart, start at `l` or later and end at `n` or before.
abbrev pub Separate : ℕ → ℕ → List (ℕ × ℕ) → Type 0
Separate n l [] = Unit {0}
Separate n l ((s, t) ∷ xs) = (l ≤ s) × (s < t) × (t ≤ n) × Separate n (suc t) xs

-- The range [b, e) meets none of the slices.
abbrev Apart : ℕ → ℕ → List (ℕ × ℕ) → Type 0
Apart b e [] = Unit {0}
Apart b e ((s, t) ∷ xs) = ((e ≤ s) ⊎ (t ≤ b)) × Apart b e xs

Inserts-Separate :
    {b e : ℕ} (n l : ℕ) {xs ys : List (ℕ × ℕ)}
    → Inserts b e xs ys
    → l ≤ b
    → b < e
    → e ≤ n
    → Apart b e xs
    → Separate n l xs
    → Separate n l ys
Inserts-Separate n l alone h k m o a = omega arith
Inserts-Separate n l (grow s t xs p) h k m o a = absurd (omega arith)
Inserts-Separate n l (front s t xs p q) h k m o a = (h, k, m, (omega arith, a.1, a.2, a.3))
Inserts-Separate n l (join_right s t xs p q) h k m o a = (h, omega arith, a.2, a.3)
Inserts-Separate n l (back s t p q) h k m o a = omega arith
Inserts-Separate n l (join_left s t p q) h k m o a = omega arith
Inserts-Separate n l (between s t s' t' xs ys p q r i) h k m o a =
    (a.0, a.1, a.2, Inserts-Separate n (suc t) i q k m o.1 a.3)
Inserts-Separate n l (join_left_only s t s' t' xs p q r u) h k m o a =
    (a.0, omega arith, m, (omega arith, a.3.1, a.3.2, a.3.3))
Inserts-Separate n l (join_both s t s' t' xs p q r u) h k m o a = (a.0, omega arith, a.3.2, a.3.3)
Inserts-Separate n l (behind s t s' t' xs ys p q i) h k m o a =
    (a.0, a.1, a.2, Inserts-Separate n (suc t) i (omega arith) k m o.1 a.3)

-- Nothing is lost where the range meets no slice.
Inserts-keeps :
    {b e : ℕ} (n l i : ℕ) {xs ys : List (ℕ × ℕ)}
    → Inserts b e xs ys
    → b < e
    → Apart b e xs
    → Separate n l xs
    → (in_range b e i || covered i xs) ≡ true
    → covered i ys ≡ true
unfolding covered
Inserts-keeps n l i alone k o a c = ground arith
Inserts-keeps n l i (grow s t xs p) k o a c = ground arith
Inserts-keeps n l i (front s t xs p q) k o a c = ground arith
Inserts-keeps n l i (join_right s t xs p q) k o a c = ground arith
Inserts-keeps n l i (back s t p q) k o a c = ground arith
Inserts-keeps n l i (join_left s t p q) k o a c = ground arith
Inserts-keeps n l i (between s t s' t' xs ys p q r w) k o a c =
    ground (arith, Inserts-keeps n (suc t) i w k o.1 a.3)
Inserts-keeps n l i (join_left_only s t s' t' xs p q r u) k o a c = ground arith
Inserts-keeps n l i (join_both s t s' t' xs p q r u) k o a c = ground arith
Inserts-keeps n l i (behind s t s' t' xs ys p q w) k o a c =
    ground (arith, Inserts-keeps n (suc t) i w k o.1 a.3)

-- A range none of whose bytes is covered meets no slice.
Apart-of_uncovered :
    (n l b e : ℕ) (xs : List (ℕ × ℕ))
    → b < e
    → Separate n l xs
    → ((i : ℕ) → b ≤ i → i < e → covered i xs ≡ false)
    → Apart b e xs
unfolding covered
Apart-of_uncovered n l b e [] k a h = tt
Apart-of_uncovered n l b e ((s, t) ∷ xs) k a h = (
  ground (arith, h b, h s),
  Apart-of_uncovered n (suc t) b e xs k a.3 (λ i p q. ground (arith, h i p q)),
)

-- Blocks (begin, length) that are not empty and meet neither one another nor `busy`.
abbrev pub Disjoint : (ℕ → Bool) → List (ℕ × ℕ) → Type 0
Disjoint busy [] = Unit {0}
Disjoint busy ((b, len) ∷ bs) =
    (0 < len)
    × ((i : ℕ) → b ≤ i → i < b + len → busy i ≡ false)
    × Disjoint (λ i. in_range b (b + len) i || busy i) bs

Disjoint-mono :
    (p q : ℕ → Bool) (bs : List (ℕ × ℕ))
    → ((i : ℕ) → q i ≡ true → p i ≡ true)
    → Disjoint p bs
    → Disjoint q bs
Disjoint-mono p q [] f d = tt
Disjoint-mono p q ((b, len) ∷ bs) f d = (
  d.0,
  λ i h k. ground (arith, d.1 i h k, f i),
  Disjoint-mono (λ i. in_range b (b + len) i || p i) (λ i. in_range b (b + len) i || q i) bs
      (λ i h. ground (arith, f i)) d.2,
)

module _ (n b len : ℕ) (s : Slices) where
  insert-Separate :
      n < u32_mod
      → 0 < len
      → b + len ≤ n
      → ((i : ℕ) → b ≤ i → i < b + len → covered i s.slices ≡ false)
      → Separate n 0 s.slices
      → Separate n 0 (insert s b len).0.slices
  unfolding insert
  insert-Separate h p w o a =
      let same : add_u32 b len ≡ b + len = omega arith in
      rw same (
        Inserts-Separate n 0 (insert_slices-Inserts b (b + len) s.slices) (omega arith)
          (omega arith) w (Apart-of_uncovered n 0 b (b + len) s.slices (omega arith) a o) a)

  insert-keeps :
      (i : ℕ)
      → n < u32_mod
      → 0 < len
      → b + len ≤ n
      → ((i : ℕ) → b ≤ i → i < b + len → covered i s.slices ≡ false)
      → Separate n 0 s.slices
      → (in_range b (b + len) i || covered i s.slices) ≡ true
      → covered i (insert s b len).0.slices ≡ true
  unfolding insert
  insert-keeps i h p w o a c =
      let same : add_u32 b len ≡ b + len = omega arith in
      rw same (
        Inserts-keeps n 0 i (insert_slices-Inserts b (b + len) s.slices) (omega arith)
          (Apart-of_uncovered n 0 b (b + len) s.slices (omega arith) a o) a c)

insert_all-exact :
    (n : ℕ) (s : Slices) (bs : List (ℕ × ℕ))
    → n < u32_mod
    → Within n bs
    → Separate n 0 s.slices
    → Disjoint (λ i. covered i s.slices) bs
    → Separate n 0 (insert_all s bs).slices
      × ((i : ℕ)
          → (covered i s.slices || in_blocks i bs) ≡ true
          → covered i (insert_all s bs).slices ≡ true)
unfolding insert_all in_blocks
insert_all-exact n s [] h w a d = (a, λ i c. ground arith)
insert_all-exact n s ((b, len) ∷ bs) h w a d =
    let s' = (insert s b len).0 in
    let ih = insert_all-exact n s' bs h w.1 (insert-Separate n b len s h d.0 w.0 d.1 a) (
      Disjoint-mono (λ i. in_range b (b + len) i || covered i s.slices) (λ i. covered i s'.slices)
        bs (λ i. insert-covered i n b len s h w.0) d.2) in
    (ih.0, λ i c. ih.1 i (ground (arith, insert-keeps n b len s i h d.0 w.0 d.1 a)))

covered_before : (n l i : ℕ) (xs : List (ℕ × ℕ)) → Separate n l xs → i < l → covered i xs ≡ false
unfolding covered
covered_before n l i [] a h = refl
covered_before n l i ((s, t) ∷ xs) a h =
    ground (arith, covered_before n (suc t) i xs a.3 (omega arith))

-- Separate slices that cover a piece are one slice.
is_complete_of_covered :
    (n : ℕ) (xs : List (ℕ × ℕ))
    → 0 < n
    → n < u32_mod
    → Separate n 0 xs
    → ((i : ℕ) → i < n → covered i xs ≡ true)
    → is_complete (record { slices = xs; expected_size = n }) ≡ true
unfolding is_complete covered
is_complete_of_covered n [] p h a c = cc (c 0 p)
is_complete_of_covered n ((s, t) ∷ []) p h a c =
    ground (arith, c 0 p, c t, covered_before n (suc t) t [] tt)
is_complete_of_covered n ((s, t) ∷ (s', t') ∷ xs) p h a c = absurd (
    ground (
      arith,
      c 0 p,
      c t (omega arith),
      covered_before n (suc t) 0 ((s', t') ∷ xs) a.3,
      covered_before n (suc t) t ((s', t') ∷ xs) a.3,
    ))

insert_all-record :
    (n : ℕ) (bs : List (ℕ × ℕ))
    → insert_all (new n) bs ≡ record { slices = (insert_all (new n) bs).slices; expected_size = n }
insert_all-record n bs =
    let e = insert_all-expected_size (new n) bs in unfold new in ground (arith, e)

-- For disjoint blocks, none of them empty, inside a piece of n > 0 bytes (n < 2^32), written in any
-- order: the piece is reported complete exactly if every byte of it lies in one of the blocks.
pub is_complete_iff :
    (n : ℕ) (bs : List (ℕ × ℕ))
    → 0 < n
    → n < u32_mod
    → Within n bs
    → Disjoint (λ i. false) bs
    → (is_complete (insert_all (new n) bs) ≡ true) ↔ ((i : ℕ) → i < n → in_blocks i bs ≡ true)
unfolding new
is_complete_iff n bs p h w d =
    let exact =
      insert_all-exact n (new n) bs h w tt
        (Disjoint-mono (λ i. false) (λ i. covered i []) bs (λ i c. unfold covered in cc) d) in
    (
      λ c i k. is_complete_sound n i bs h w c k,
      λ all. rw (insert_all-record n bs) (
          is_complete_of_covered n (insert_all (new n) bs).slices p h exact.0
            (λ i k. exact.1 i (ground (arith, all i k)))),
    )

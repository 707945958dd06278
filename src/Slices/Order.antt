-- ===== src/Slices/Order.antt =====
-- src/peer/io/mod.rs, `Slices`.
-- The starts of the slices ascend strictly, which is what the binary search relies on.
use bentorrent.Prelude.{
  ℕ, ◌≤◌, ◌<◌, ◌≡◌, arith, List, [], ◌∷◌, ltb, ◌==◌, Bool-cases, inl, inr, add_u32, get_elem?, some,
}
use bentorrent.Slices.{Slices, Found, ok, err, next, search, insert_at, insert}
use bentorrent.Slices.Step.{
  Inserts, alone, grow, front, join_right, back, join_left, between, join_left_only, join_both,
  behind, insert_slices-Inserts,
}

-- All starts lie above `b`, and ascend.
abbrev pub After : ℕ → List (ℕ × ℕ) → Type 0
After b [] = Unit {0}
After b ((s, t) ∷ xs) = (b < s) × After s xs

abbrev pub Ascending : List (ℕ × ℕ) → Type 0
Ascending [] = Unit {0}
Ascending ((s, t) ∷ xs) = After s xs

After-trans : (b c : ℕ) (xs : List (ℕ × ℕ)) → b ≤ c → After c xs → After b xs
After-trans b c [] h a = tt
After-trans b c ((s, t) ∷ xs) h a = (omega arith, a.1)

Inserts-After :
    {b e : ℕ} (l : ℕ) {xs ys : List (ℕ × ℕ)} → Inserts b e xs ys → l < b → After l xs → After l ys
Inserts-After l alone h a = (h, tt)
Inserts-After l (grow s t xs p) h a = a
Inserts-After l (front s t xs p q) h a = (h, (p, a.1))
Inserts-After l (join_right s t xs p q) h a = (h, After-trans _ s xs (omega arith) a.1)
Inserts-After l (back s t p q) h a = (a.0, (p, tt))
Inserts-After l (join_left s t p q) h a = a
Inserts-After l (between s t s' t' xs ys p q r i) h a = (a.0, Inserts-After s i p a.1)
Inserts-After l (join_left_only s t s' t' xs p q r o) h a = a
Inserts-After l (join_both s t s' t' xs p q r o) h a =
    (a.0, After-trans s s' xs (omega arith) a.1.1)
Inserts-After l (behind s t s' t' xs ys p q i) h a = (a.0, Inserts-After s i p a.1)

Inserts-Ascending :
    {b e : ℕ} {xs ys : List (ℕ × ℕ)} → Inserts b e xs ys → Ascending xs → Ascending ys
Inserts-Ascending alone a = tt
Inserts-Ascending (grow s t xs p) a = a
Inserts-Ascending (front s t xs p q) a = (p, a)
Inserts-Ascending (join_right s t xs p q) a = After-trans _ s xs (omega arith) a
Inserts-Ascending (back s t p q) a = (p, tt)
Inserts-Ascending (join_left s t p q) a = a
Inserts-Ascending (between s t s' t' xs ys p q r i) a = Inserts-After s i p a
Inserts-Ascending (join_left_only s t s' t' xs p q r o) a = a
Inserts-Ascending (join_both s t s' t' xs p q r o) a = After-trans s s' xs (omega arith) a.1
Inserts-Ascending (behind s t s' t' xs ys p q i) a = Inserts-After s i p a

-- The starts of the slices ascend strictly after an insert of any range, if they did before.
pub insert-Ascending :
    (s : Slices) (b len : ℕ) → Ascending s.slices → Ascending (insert s b len).0.slices
unfolding insert
insert-Ascending s b len a = Inserts-Ascending (insert_slices-Inserts b (add_u32 b len) s.slices) a

-- What the standard library promises of a binary search for `key`: a position of the key, or
-- the insertion point that keeps the order.
abbrev pub Finds : ℕ → List (ℕ × ℕ) → Found → Type 0
Finds key xs (ok i) = (t : ℕ) × (get_elem? xs i ≡ some (key, t))
Finds key xs (err i) = (t : ℕ) → Ascending (insert_at i (key, t) xs)

abbrev FindsAfter : ℕ → ℕ → List (ℕ × ℕ) → Found → Type 0
FindsAfter l key xs (ok i) = (t : ℕ) × (get_elem? xs i ≡ some (key, t))
FindsAfter l key xs (err i) = (t : ℕ) → After l (insert_at i (key, t) xs)

FindsAfter-next :
    (l key s t : ℕ) (xs : List (ℕ × ℕ)) (f : Found)
    → l < s
    → FindsAfter s key xs f
    → FindsAfter l key ((s, t) ∷ xs) (next f)
unfolding insert_at
FindsAfter-next l key s t xs (ok i) h k = k
FindsAfter-next l key s t xs (err i) h k = λ u. (h, k u)

search-FindsAfter :
    (l key : ℕ) (xs : List (ℕ × ℕ)) → l < key → After l xs → FindsAfter l key xs (search key xs)
unfolding search insert_at
search-FindsAfter l key [] h a = λ t. (h, tt)
search-FindsAfter l key ((s, t) ∷ xs) h a = elim (Bool-cases (s == key)) [
  | inl same ↦ rw same (t, ground arith)
  | inr other ↦ elim (Bool-cases (ltb key s)) [
    | inl lower ↦ rw (other, lower) (λ u. (h, (ground arith, a.1)))
    | inr higher ↦
        rw (other, higher)
          (FindsAfter-next l key s t xs (search key xs) a.0
            (search-FindsAfter s key xs (ground arith) a.1))
  ]
]

-- On slices whose starts ascend, the search answers with a position of the start, or with the
-- insertion point that keeps the order.
pub search-Finds : (key : ℕ) (xs : List (ℕ × ℕ)) → Ascending xs → Finds key xs (search key xs)
unfolding search insert_at
search-Finds key [] a = λ t. tt
search-Finds key ((s, t) ∷ xs) a = elim (Bool-cases (s == key)) [
  | inl same ↦ rw same (t, ground arith)
  | inr other ↦ elim (Bool-cases (ltb key s)) [
    | inl lower ↦ rw (other, lower) (λ u. (ground arith, a))
    | inr higher ↦
        rw (other, higher)
          (Finds-next key s t xs (search key xs) (search-FindsAfter s key xs (ground arith) a))
  ]
]
  where
    Finds-next :
        (key s t : ℕ) (xs : List (ℕ × ℕ)) (f : Found)
        → FindsAfter s key xs f
        → Finds key ((s, t) ∷ xs) (next f)
    Finds-next key s t xs (ok i) k = k
    Finds-next key s t xs (err i) k = k

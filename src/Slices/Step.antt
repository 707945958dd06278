-- ===== src/Slices/Step.antt =====
-- src/peer/io/mod.rs, `Slices`.
-- One step of `Slices::insert` along the list: a range that lies behind the second slice
-- leaves the first alone.
use bentorrent.Prelude.{
  lt-or-le, ℕ, zero, suc, ◌≤◌, ◌<◌, ◌≡◌, refl, ◌≢◌, arith, max, ltb, leb, ◌==◌, if◌then◌else◌, ◌⊎◌,
  Bool-cases, subst, sym, List, ◌∷◌, [], Bool, true, false, inl, inr,
}
use bentorrent.Slices.{
  Found, ok, err, next, search, look_right, look_left, settle, place, insert_slices,
}

search_behind : (b s t : ℕ) (xs : List (ℕ × ℕ)) → s ≤ b → search b ((s, t) ∷ xs) ≢ err 0
unfolding search
search_behind b s t xs h = ground arith

search_step : (b s t : ℕ) (xs : List (ℕ × ℕ)) → s < b → search b ((s, t) ∷ xs) ≡ next (search b xs)
unfolding search
search_step b s t xs h = ground arith

settle_step :
    (m : ℕ) (x slice : ℕ × ℕ) (l r : Bool) (xs : List (ℕ × ℕ))
    → settle (suc m) slice l r (x ∷ xs) ≡ x ∷ settle m slice l r xs
unfolding settle
settle_step m x slice true true xs = refl
settle_step m x slice true false xs = refl
settle_step m x slice false true xs = refl
settle_step m x slice false false xs = refl

look_right_step :
    (m b e : ℕ) (x : ℕ × ℕ) (xs : List (ℕ × ℕ))
    → let r = look_right xs m b e in
      look_right (x ∷ xs) (suc m) b e ≡ record r { slices = x ∷ r.slices }
unfolding look_right
look_right_step m b e x xs = ground arith

look_left_step :
    (l b e : ℕ) (x : ℕ × ℕ) (xs : List (ℕ × ℕ))
    → let r = look_left xs (suc l) b e in look_left (x ∷ xs) (suc (suc l)) b e ≡ (x ∷ r.0, r.1)
unfolding look_left
look_left_step l b e x xs = ground arith

place_step :
    (f : Found) (b e : ℕ) (x : ℕ × ℕ) (xs : List (ℕ × ℕ))
    → f ≢ err 0
    → place (next f) b e (x ∷ xs) ≡ x ∷ place f b e xs
unfolding place
place_step (ok i) b e x xs h = ground arith
place_step (err zero) b e x xs h = absurd (h refl)
place_step (err (suc m)) b e x xs h =
    let r = look_right xs (suc m) b e in
    let l = look_left r.slices (suc m) r.start r.end in
    rw (look_right_step (suc m) b e x xs, look_left_step m r.start r.end x r.slices)
      (settle_step (suc m) x (r.start, r.end) l.1 r.combined l.0)

insert_slices_step :
    (b e s t s' t' : ℕ) (xs : List (ℕ × ℕ))
    → s < b
    → s' ≤ b
    → insert_slices b e ((s, t) ∷ (s', t') ∷ xs) ≡ (s, t) ∷ insert_slices b e ((s', t') ∷ xs)
insert_slices_step b e s t s' t' xs h k =
    rw (search_step b s t ((s', t') ∷ xs) h)
      (place_step _ b e (s, t) _ (search_behind b s' t' xs k))

trichotomy : (a b : ℕ) → (a < b) ⊎ ((b ≡ a) ⊎ (b < a))
trichotomy a b = elim (Bool-cases (ltb a b)) [
  | inl h ↦ inl (ground arith)
  | inr h ↦ elim (Bool-cases (b == a)) [
    | inl k ↦ inr (inl (ground arith))
    | inr k ↦ inr (inr (ground arith))
  ]
]

-- The ways in which a range [b, e) enters a list of slices, as a relation between the list
-- before and the list after.
pub data Inserts (b e : ℕ) : List (ℕ × ℕ) → List (ℕ × ℕ) → Type 0 where
  alone : Inserts b e [] ((b, e) ∷ [])
  grow : (s t : ℕ) (xs : List (ℕ × ℕ)) → s ≡ b → Inserts b e ((s, t) ∷ xs) ((s, max t e) ∷ xs)
  front :
      (s t : ℕ) (xs : List (ℕ × ℕ))
      → b < s
      → s ≢ e
      → Inserts b e ((s, t) ∷ xs) ((b, e) ∷ (s, t) ∷ xs)
  join_right :
      (s t : ℕ) (xs : List (ℕ × ℕ)) → b < s → s ≡ e → Inserts b e ((s, t) ∷ xs) ((b, t) ∷ xs)
  back : (s t : ℕ) → s < b → t < b → Inserts b e ((s, t) ∷ []) ((s, t) ∷ (b, e) ∷ [])
  join_left : (s t : ℕ) → s < b → b ≤ t → Inserts b e ((s, t) ∷ []) ((s, e) ∷ [])
  between :
      (s t s' t' : ℕ) (xs ys : List (ℕ × ℕ))
      → s < b
      → t < b
      → b < s'
      → Inserts b e ((s', t') ∷ xs) ys
      → Inserts b e ((s, t) ∷ (s', t') ∷ xs) ((s, t) ∷ ys)
  join_left_only :
      (s t s' t' : ℕ) (xs : List (ℕ × ℕ))
      → s < b
      → b ≤ t
      → b < s'
      → s' ≢ e
      → Inserts b e ((s, t) ∷ (s', t') ∷ xs) ((s, e) ∷ (s', t') ∷ xs)
  join_both :
      (s t s' t' : ℕ) (xs : List (ℕ × ℕ))
      → s < b
      → b ≤ t
      → b < s'
      → s' ≡ e
      → Inserts b e ((s, t) ∷ (s', t') ∷ xs) ((s, t') ∷ xs)
  behind :
      (s t s' t' : ℕ) (xs ys : List (ℕ × ℕ))
      → s < b
      → s' ≤ b
      → Inserts b e ((s', t') ∷ xs) ys
      → Inserts b e ((s, t) ∷ (s', t') ∷ xs) ((s, t) ∷ ys)

Inserts-of_eq :
    {b e : ℕ} {xs ys zs : List (ℕ × ℕ)} → ys ≡ zs → Inserts b e xs zs → Inserts b e xs ys
Inserts-of_eq {b} {e} {xs} p h = subst (Inserts b e xs) (sym p) h

insert_empty : (b e : ℕ) → insert_slices b e [] ≡ (b, e) ∷ []
unfolding search place
insert_empty b e = ground arith

module _ (b e s t : ℕ) where
  insert_here : (xs : List (ℕ × ℕ)) → s ≡ b → insert_slices b e ((s, t) ∷ xs) ≡ (s, max t e) ∷ xs
  unfolding search place
  insert_here xs h = ground arith

  insert_before :
      (xs : List (ℕ × ℕ))
      → b < s
      → insert_slices b e ((s, t) ∷ xs) ≡ (if s == e then (b, t) ∷ xs else (b, e) ∷ (s, t) ∷ xs)
  unfolding search place
  insert_before xs h = ground arith

  insert_last :
      s < b
      → insert_slices b e ((s, t) ∷ []) ≡ (if leb b t then (s, e) ∷ [] else (s, t) ∷ (b, e) ∷ [])
  unfolding search place
  insert_last h = ground arith

  insert_between :
      (s' t' : ℕ) (xs : List (ℕ × ℕ))
      → s < b
      → b < s'
      → insert_slices b e ((s, t) ∷ (s', t') ∷ xs) ≡ (
          if leb b t
          then (if s' == e then (s, t') ∷ xs else (s, e) ∷ (s', t') ∷ xs)
          else (s, t) ∷ (if s' == e then (b, t') ∷ xs else (b, e) ∷ (s', t') ∷ xs))
  unfolding search place
  insert_between s' t' xs h k = ground arith

  before-Inserts :
      (xs : List (ℕ × ℕ)) → b < s → Inserts b e ((s, t) ∷ xs) (insert_slices b e ((s, t) ∷ xs))
  before-Inserts xs h = elim (Bool-cases (s == e)) [
    | inl same ↦ Inserts-of_eq (rw (insert_before xs h, same)) (join_right s t xs h (ground arith))
    | inr other ↦ Inserts-of_eq (rw (insert_before xs h, other)) (front s t xs h (ground arith))
  ]

  last-Inserts : s < b → Inserts b e ((s, t) ∷ []) (insert_slices b e ((s, t) ∷ []))
  last-Inserts h = elim (Bool-cases (leb b t)) [
    | inl near ↦ Inserts-of_eq (rw (insert_last h, near)) (join_left s t h (ground arith))
    | inr far ↦ Inserts-of_eq (rw (insert_last h, far)) (back s t h (ground arith))
  ]

between-Inserts :
    (b e s t s' t' : ℕ) (xs : List (ℕ × ℕ))
    → s < b
    → b < s'
    → Inserts b e ((s, t) ∷ (s', t') ∷ xs) (insert_slices b e ((s, t) ∷ (s', t') ∷ xs))
between-Inserts b e s t s' t' xs h k = elim (Bool-cases (leb b t)) [
  | inl near ↦ elim (Bool-cases (s' == e)) [
    | inl same ↦
        Inserts-of_eq (rw (insert_between b e s t s' t' xs h k, near, same))
          (join_both s t s' t' xs h (ground arith) k (ground arith))
    | inr other ↦
        Inserts-of_eq (rw (insert_between b e s t s' t' xs h k, near, other))
          (join_left_only s t s' t' xs h (ground arith) k (ground arith))
  ]
  | inr far ↦
      Inserts-of_eq
        (rw (insert_between b e s t s' t' xs h k, far, insert_before b e s' t' xs k) refl)
        (between s t s' t' xs _ h (ground arith) k (before-Inserts b e s' t' xs k))
]

-- The cases of an insert, as the search of the model finds them.
pub insert_slices-Inserts : (b e : ℕ) (xs : List (ℕ × ℕ)) → Inserts b e xs (insert_slices b e xs)
insert_slices-Inserts b e [] = Inserts-of_eq (insert_empty b e) alone
insert_slices-Inserts b e ((s, t) ∷ []) = elim (trichotomy b s) [
  | inl before ↦ before-Inserts b e s t [] before
  | inr (inl here) ↦ Inserts-of_eq (insert_here b e s t [] here) (grow s t [] here)
  | inr (inr after) ↦ last-Inserts b e s t after
]
insert_slices-Inserts b e ((s, t) ∷ (s', t') ∷ xs) =
    let later = insert_slices-Inserts b e ((s', t') ∷ xs) in
    elim (trichotomy b s) [
      | inl before ↦ before-Inserts b e s t ((s', t') ∷ xs) before
      | inr (inl here) ↦
          Inserts-of_eq (insert_here b e s t ((s', t') ∷ xs) here) (grow s t ((s', t') ∷ xs) here)
      | inr (inr after) ↦ elim (lt-or-le b s') [
        | inl between_them ↦ between-Inserts b e s t s' t' xs after between_them
        | inr beyond ↦
            Inserts-of_eq (insert_slices_step b e s t s' t' xs after beyond)
              (behind s t s' t' xs _ after beyond later)
      ]
    ]

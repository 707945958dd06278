-- ===== src/Memory/Copying.antt =====
-- src/peer/io/mod.rs, `MemoryTorrentIO`: the bytes of a piece after a block is copied into it.
use bentorrent.Prelude.{
  [], ◌∷◌, length-take, length-drop, get_elem?-set_ne, get_elem?-set_self, lt-or-le, inl, inr, sym,
  ap, length-set, ap, ◌∙◌, ℕ, zero, suc, ◌+◌, ◌-◌, ◌<◌, ◌≤◌, ◌≡◌, refl, arith, ltb, leb, ◌&&◌,
  if◌then◌else◌, some, [], ◌∷◌, length, get_elem?, set, take, drop,
}
use bentorrent.Torrent.{Bytes}
use bentorrent.Memory.{copy_block}

pub length-copy_block : (m : Bytes) (b : ℕ) (xs : Bytes) → length (copy_block m b xs) ≡ length m
unfolding copy_block
length-copy_block m b [] = refl
length-copy_block m b (x ∷ xs) = length-copy_block (set m b x) (suc b) xs ∙ length-set m b x

-- Byte `k` after a block is copied to `b`.
pub copy_block-bytes :
    (m : Bytes) (b : ℕ) (xs : Bytes) (k : ℕ)
    → b + length xs ≤ length m
    → get_elem? (copy_block m b xs) k
      ≡ (if leb b k && ltb k (b + length xs) then get_elem? xs (k - b) else get_elem? m k)
unfolding copy_block
copy_block-bytes m b [] k h = ground arith
copy_block-bytes m b (x ∷ xs) k h =
    let rest = copy_block-bytes (set m b x) (suc b) xs k (omega (arith, length-set m b x)) in
    elim (lt-or-le k b) [
      | inl before ↦
          let other = get_elem?-set_ne m b k x (λ q. omega arith) in ground (arith, rest, other)
      | inr from ↦ elim (lt-or-le b k) [
        | inl after ↦
            let index : k - b ≡ suc (k - suc b) = omega arith in
            let other = get_elem?-set_ne m b k x (λ q. omega arith) in
            rw index (ground (arith, rest, other))
        | inr here ↦
            let same : b ≡ k = omega arith in
            let index : k - b ≡ 0 = omega arith in
            let written : get_elem? (set m b x) k ≡ some x =
              ap (get_elem? (set m b x)) (sym same) ∙ get_elem?-set_self m b x (omega arith) in
            rw index (ground (arith, rest, written))
      ]
    ]

pub get_elem?-take : (n : ℕ) (xs : Bytes) (k : ℕ) → k < n → get_elem? (take n xs) k ≡ get_elem? xs k
get_elem?-take zero xs k h = absurd (omega arith)
get_elem?-take (suc n) [] k h = refl
get_elem?-take (suc n) (x ∷ xs) zero h = refl
get_elem?-take (suc n) (x ∷ xs) (suc k) h = get_elem?-take n xs k (omega arith)

succ_add : (n k : ℕ) → suc n + k ≡ suc (n + k)
succ_add n k = omega arith

pub get_elem?-drop : (n : ℕ) (xs : Bytes) (k : ℕ) → get_elem? (drop n xs) k ≡ get_elem? xs (n + k)
get_elem?-drop zero xs k = ap (get_elem? xs) (omega arith)
get_elem?-drop (suc n) [] k = refl
get_elem?-drop (suc n) (x ∷ xs) k =
    get_elem?-drop n xs k ∙ ap (get_elem? (x ∷ xs)) (sym (succ_add n k))

get_elem?-ext :
    (xs ys : Bytes)
    → length xs ≡ length ys
    → ((k : ℕ) → k < length ys → get_elem? xs k ≡ get_elem? ys k)
    → xs ≡ ys
get_elem?-ext [] [] h f = refl
get_elem?-ext [] (y ∷ ys) h f = absurd (omega (arith, h))
get_elem?-ext (x ∷ xs) [] h f = absurd (omega (arith, h))
get_elem?-ext (x ∷ xs) (y ∷ ys) h f =
    let rest = get_elem?-ext xs ys (omega (arith, h)) (λ k l. f (suc k) (omega arith)) in
    let first = f zero (omega arith) in cc (rest, first)

-- The block is found where it was copied to.
pub take-copy_block :
    (m : Bytes) (b : ℕ) (xs : Bytes)
    → b + length xs ≤ length m
    → take (length xs) (drop b (copy_block m b xs)) ≡ xs
take-copy_block m b xs h =
    let copied = copy_block m b xs in
    get_elem?-ext (take (length xs) (drop b copied)) xs
      (omega (
        arith,
        length-take (length xs) (drop b copied),
        length-drop b copied,
        length-copy_block m b xs,
      ))
      λ k l.
        let index : b + k - b ≡ k = omega arith in
        get_elem?-take (length xs) (drop b copied) k l
        ∙ get_elem?-drop b copied k
        ∙ ground (arith, copy_block-bytes m b xs (b + k) h, index)

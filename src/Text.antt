-- ===== src/Text.antt =====
-- Text that comes from bytes: `String::from_utf8_lossy` of the standard library, and the order of
-- byte strings. A `String` is its UTF-8 bytes.
use Prim.Native.Nat.{compare, Ordering}
use Prim.Native.Char.{code}
use Prim.Native.String.{String}
use bentorrent.Prelude.{
  is_empty, ◌==◌, true, ℕ, ◌<◌, ◌≡◌, refl, ap, arith, List, [], ◌∷◌, ◌++◌, ltb, leb, Bool, ◌&&◌,
  if◌then◌else◌, All,
}
use bentorrent.Torrent.{Bytes}

-- The bytes of an ASCII literal.
abbrev pub text : String → Bytes
text String.[] = []
text (String.◌∷◌ c s) = code c ∷ text s

-- U+FFFD, which stands for a malformed sequence.
abbrev pub replacement : Bytes
replacement = 239 ∷ 191 ∷ 189 ∷ []

-- What each of the bytes after the lead byte may be, as least and greatest value.
abbrev pub Ranges : Type 0
Ranges = List (ℕ × ℕ)

abbrev within : ℕ → ℕ → ℕ → Bool
within lo hi b = leb lo b && leb b hi

abbrev tail_byte : ℕ × ℕ
tail_byte = (128, 191)

-- The bytes that may follow a lead byte; none after a byte that leads nothing.
unfoldable pub follows : ℕ → Ranges
follows b =
    if within 194 223 b
    then tail_byte ∷ []
    else if b == 224
    then (160, 191) ∷ tail_byte ∷ []
    else if within 225 236 b
    then tail_byte ∷ tail_byte ∷ []
    else if b == 237
    then (128, 159) ∷ tail_byte ∷ []
    else if within 238 239 b
    then tail_byte ∷ tail_byte ∷ []
    else if b == 240
    then (144, 191) ∷ tail_byte ∷ tail_byte ∷ []
    else if within 241 243 b
    then tail_byte ∷ tail_byte ∷ tail_byte ∷ []
    else if b == 244
    then (128, 143) ∷ tail_byte ∷ tail_byte ∷ []
    else []

-- What has been read of the sequence at hand, and what may follow it.
pub record Scan : Type 0 where
  pub output : Bytes
  pub pending : Bytes
  pub ranges : Ranges

-- A byte at the start of a sequence.
unfoldable pub start : ℕ → Scan
unfolding follows
start b =
    if ltb b 128 then record { output = b ∷ []; pending = []; ranges = [] } else elim (follows b) [
      | [] ↦ record { output = replacement; pending = []; ranges = [] }
      | r ∷ rs ↦ record { output = []; pending = b ∷ []; ranges = r ∷ rs }
    ]

-- A byte that does not fit ends a malformed sequence, and starts another.
unfoldable pub step : Bytes → Ranges → ℕ → Scan
unfolding start
step pending [] b = start b
step pending ((lo, hi) ∷ ranges) b =
    if within lo hi b
    then elim ranges [
      | [] ↦ record { output = pending ++ b ∷ []; pending = []; ranges = [] }
      | r ∷ rs ↦ record { output = []; pending = pending ++ b ∷ []; ranges = r ∷ rs }
    ]
    else record {
      output = replacement ++ (start b).output;
      pending = (start b).pending;
      ranges = (start b).ranges;
    }

unfoldable pub lossy : Bytes → Ranges → Bytes → Bytes
unfolding step
lossy pending ranges [] = if is_empty pending then [] else replacement
lossy pending ranges (b ∷ bytes) =
    let s = step pending ranges b in s.output ++ lossy s.pending s.ranges bytes

unfoldable pub from_utf8_lossy : Bytes → Bytes
unfolding lossy
from_utf8_lossy bytes = lossy [] [] bytes

-- ASCII text stays as it is.
pub from_utf8_lossy_ascii :
    (bytes : Bytes) → All (λ b. b < 128) bytes → from_utf8_lossy bytes ≡ bytes
unfolding from_utf8_lossy lossy step start
from_utf8_lossy_ascii [] h = refl
from_utf8_lossy_ascii (b ∷ bytes) h =
    let small : ltb b 128 ≡ true = ground arith in
    rw (small) (ap (◌∷◌ b) (from_utf8_lossy_ascii bytes h.1))

-- Lexicographic order.
unfoldable pub compare_bytes : Bytes → Bytes → Ordering
compare_bytes [] [] = Ordering.eq
compare_bytes [] (y ∷ ys) = Ordering.lt
compare_bytes (x ∷ xs) [] = Ordering.gt
compare_bytes (x ∷ xs) (y ∷ ys) = elim (compare x y) [
  | Ordering.lt ↦ Ordering.lt
  | Ordering.gt ↦ Ordering.gt
  | Ordering.eq ↦ compare_bytes xs ys
]

pub compare_bytes_self : (xs : Bytes) → compare_bytes xs xs ≡ Ordering.eq
unfolding compare_bytes
compare_bytes_self [] = refl
compare_bytes_self (x ∷ xs) = ground (arith, compare_bytes_self xs)

pub eq_of_compare_bytes : (xs ys : Bytes) → compare_bytes xs ys ≡ Ordering.eq → xs ≡ ys
unfolding compare_bytes
eq_of_compare_bytes [] [] h = refl
eq_of_compare_bytes [] (y ∷ ys) h = cc
eq_of_compare_bytes (x ∷ xs) [] h = cc
eq_of_compare_bytes (x ∷ xs) (y ∷ ys) h = ground (arith, eq_of_compare_bytes xs ys)

pub compare_bytes_flip :
    (xs ys : Bytes) → compare_bytes xs ys ≡ Ordering.lt → compare_bytes ys xs ≡ Ordering.gt
unfolding compare_bytes
compare_bytes_flip [] [] h = cc
compare_bytes_flip [] (y ∷ ys) h = refl
compare_bytes_flip (x ∷ xs) [] h = cc
compare_bytes_flip (x ∷ xs) (y ∷ ys) h = ground (arith, compare_bytes_flip xs ys)

pub compare_bytes_unflip :
    (xs ys : Bytes) → compare_bytes xs ys ≡ Ordering.gt → compare_bytes ys xs ≡ Ordering.lt
unfolding compare_bytes
compare_bytes_unflip [] [] h = cc
compare_bytes_unflip [] (y ∷ ys) h = cc
compare_bytes_unflip (x ∷ xs) [] h = refl
compare_bytes_unflip (x ∷ xs) (y ∷ ys) h = ground (arith, compare_bytes_unflip xs ys)

pub compare_bytes_trans :
    (xs ys zs : Bytes)
    → compare_bytes xs ys ≡ Ordering.lt
    → compare_bytes ys zs ≡ Ordering.lt
    → compare_bytes xs zs ≡ Ordering.lt
unfolding compare_bytes
compare_bytes_trans [] [] zs h k = cc
compare_bytes_trans [] (y ∷ ys) [] h k = cc
compare_bytes_trans [] (y ∷ ys) (z ∷ zs) h k = refl
compare_bytes_trans (x ∷ xs) [] zs h k = cc
compare_bytes_trans (x ∷ xs) (y ∷ ys) [] h k = cc
compare_bytes_trans (x ∷ xs) (y ∷ ys) (z ∷ zs) h k = ground (arith, compare_bytes_trans xs ys zs)

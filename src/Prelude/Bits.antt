-- ===== src/Prelude/Bits.antt =====
-- Bitwise operations on the low bits of a number, and single bits.
use Prim.Native.Nat.{ℕ, zero, suc, ◌+◌, ◌*◌, ◌/◌, ◌%◌, ◌<◌, max, ◌^◌, ◌-◌}
use mathlib.Core.Path.{◌≡◌, refl}
use mathlib.Core.Bool.{Bool, false, ◌||◌, not}
use native.Mathlib.Omega.{arith}
use bentorrent.Prelude.Tests.{◌==◌}

-- `&` and `|` of the low `w` bits.
unfoldable pub land : ℕ → ℕ → ℕ → ℕ
land zero a b = 0
land (suc w) a b = a % 2 * (b % 2) + 2 * land w (a / 2) (b / 2)

unfoldable pub lor : ℕ → ℕ → ℕ → ℕ
lor zero a b = 0
lor (suc w) a b = max (a % 2) (b % 2) + 2 * lor w (a / 2) (b / 2)

-- Bit `k`, counted from the low end.
unfoldable pub test_bit : ℕ → ℕ → Bool
test_bit zero n = n % 2 == 1
test_bit (suc k) n = test_bit k (n / 2)

unfoldable pub power : ℕ → ℕ
power zero = 1
power (suc k) = 2 * power k

land-zero : (w b : ℕ) → land w 0 b ≡ 0
unfolding land
land-zero zero b = refl
land-zero (suc w) b = omega (arith, land-zero w (b / 2))

-- A mask of one bit tests it.
pub land-power : (w k b : ℕ) → k < w → (land w (power k) b == 0) ≡ not (test_bit k b)
unfolding land power test_bit
land-power zero k b h = absurd (omega arith)
land-power (suc w) zero b h = grind (arith, land-zero w (b / 2))
land-power (suc w) (suc k) b h =
    let half : 2 * power k / 2 ≡ power k = omega arith in
    let even : 2 * power k % 2 ≡ 0 = omega arith in
    rw (half, even) (ground (arith, land-power w k (b / 2)))

pub test_bit-lor : (w k a b : ℕ) → k < w → test_bit k (lor w a b) ≡ (test_bit k a || test_bit k b)
unfolding lor test_bit
test_bit-lor zero k a b h = absurd (omega arith)
test_bit-lor (suc w) zero a b h = ground arith
test_bit-lor (suc w) (suc k) a b h =
    let half : (max (a % 2) (b % 2) + 2 * lor w (a / 2) (b / 2)) / 2 ≡ lor w (a / 2) (b / 2) =
      omega arith in
    rw half (test_bit-lor w k (a / 2) (b / 2) (omega arith))

pub test_bit-zero : (k : ℕ) → test_bit k 0 ≡ false
unfolding test_bit
test_bit-zero zero = refl
test_bit-zero (suc k) = test_bit-zero k

pub test_bit-power : (j k : ℕ) → test_bit j (power k) ≡ (j == k)
unfolding power test_bit
test_bit-power zero zero = refl
test_bit-power zero (suc k) = ground arith
test_bit-power (suc j) zero = ground (arith, test_bit-zero j)
test_bit-power (suc j) (suc k) =
    let half : 2 * power k / 2 ≡ power k = omega arith in
    rw half (ground (arith, test_bit-power j k))

-- `0b10000000 >> pos` is bit 7 - pos.
pub mask_shr : (pos : ℕ) → pos < 8 → 128 / 2 ^ pos ≡ power (7 - pos)
unfolding power
mask_shr zero h = refl
mask_shr (suc zero) h = refl
mask_shr (suc (suc zero)) h = refl
mask_shr (suc (suc (suc zero))) h = refl
mask_shr (suc (suc (suc (suc zero)))) h = refl
mask_shr (suc (suc (suc (suc (suc zero))))) h = refl
mask_shr (suc (suc (suc (suc (suc (suc zero)))))) h = refl
mask_shr (suc (suc (suc (suc (suc (suc (suc zero))))))) h = refl
mask_shr (suc (suc (suc (suc (suc (suc (suc (suc pos)))))))) h = absurd (omega arith)

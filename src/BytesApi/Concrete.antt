-- ===== src/BytesApi/Concrete.antt =====
-- An implementation of the `bytes` parameters, which shows that what is assumed can be met.
use bentorrent.Prelude.{
  ◌≤◌, ℕ, ◌+◌, ◌*◌, ◌^◌, ◌<◌, ◌≡◌, refl, arith, [], ◌∷◌, ◌++◌, length, Option, none, some, take,
  drop, ltb, if◌then◌else◌,
}
use bentorrent.Outcome.{Outcome, ok, err}
use bentorrent.Torrent.{Bytes}
use bentorrent.BytesApi.{BytesApi, TryGetError, u32_bytes, u64_bytes}

abbrev pub get_u8 : Bytes → Outcome TryGetError (ℕ × Bytes)
get_u8 [] = err (record { requested = 1; available = 0 })
get_u8 (x ∷ b) = ok (x, b)

abbrev pub get_u32 : Bytes → Outcome TryGetError (ℕ × Bytes)
get_u32 (w ∷ x ∷ y ∷ z ∷ b) = ok (w * 2 ^ 24 + (x * 2 ^ 16 + (y * 2 ^ 8 + z)), b)
get_u32 b = err (record { requested = 4; available = length b })

abbrev pub copy_to_slice : Bytes → ℕ → Outcome TryGetError (Bytes × Bytes)
copy_to_slice b n =
    if ltb (length b) n
    then err (record { requested = n; available = length b })
    else ok (take n b, drop n b)

abbrev pub skip : Bytes → ℕ → Option Bytes
skip b n = if ltb (length b) n then none else some (drop n b)

pub get_u32_short :
    (b : Bytes) → length b < 4 → get_u32 b ≡ err (record { requested = 4; available = length b })
get_u32_short [] h = refl
get_u32_short (x ∷ []) h = refl
get_u32_short (x ∷ y ∷ []) h = refl
get_u32_short (x ∷ y ∷ z ∷ []) h = refl
get_u32_short (x ∷ y ∷ z ∷ w ∷ b) h = absurd (omega arith)

pub copy_takes : (b : Bytes) (n : ℕ) → n ≤ length b → copy_to_slice b n ≡ ok (take n b, drop n b)
copy_takes b n h = ground arith

pub copy_short :
    (b : Bytes) (n : ℕ)
    → length b < n
    → copy_to_slice b n ≡ err (record { requested = n; available = length b })
copy_short b n h = ground arith

pub skip_skips : (b : Bytes) (n : ℕ) → n ≤ length b → skip b n ≡ some (drop n b)
skip_skips b n h = ground arith

pub skip_panics : (b : Bytes) (n : ℕ) → length b < n → skip b n ≡ none
skip_panics b n h = ground arith

abbrev pub bytes_api : BytesApi
bytes_api = record {
  put_u8 = λ b x. b ++ x ∷ [];
  put_u32 = λ b x. b ++ u32_bytes x;
  put_u64 = λ b x. b ++ u64_bytes x;
  put_slice = λ b xs. b ++ xs;
  try_get_u8 = get_u8;
  try_get_u32 = get_u32;
  try_copy_to_slice = copy_to_slice;
  advance = skip;
  put_u8_appends = λ b x. refl;
  put_u32_appends = λ b x. refl;
  put_u64_appends = λ b x. refl;
  put_slice_appends = λ b xs. refl;
  try_get_u8_takes = λ x b. refl;
  try_get_u8_short = refl;
  try_get_u32_takes = λ w x y z b. refl;
  try_get_u32_short = get_u32_short;
  try_copy_to_slice_takes = copy_takes;
  try_copy_to_slice_short = copy_short;
  advance_skips = skip_skips;
  advance_panics = skip_panics;
}

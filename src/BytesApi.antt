-- ===== src/BytesApi.antt =====
-- The `bytes` crate as far as the program uses it: `BufMut` appends to a byte buffer, `Buf` reads
-- from its front. The operations are parameters, with what the crate documents of each:
-- integers are big-endian, `try_get_*` and `try_copy_to_slice` report on a short buffer how much
-- was asked for and how much is there, and `advance` panics past the end.
pub mod Concrete
use bentorrent.Prelude.{
  ℕ, ◌+◌, ◌*◌, ◌/◌, ◌%◌, ◌^◌, ◌≤◌, ◌<◌, ◌≡◌, List, [], ◌∷◌, ◌++◌, length, Option, none, some, take,
  drop,
}
use bentorrent.Outcome.{Outcome, ok, err}
use bentorrent.Torrent.{Bytes}

-- `TryGetError { requested, available }`
pub record TryGetError : Type 0 where
  pub requested : ℕ
  pub available : ℕ

-- An integer in big-endian bytes.
unfoldable pub u32_bytes : ℕ → Bytes
u32_bytes x = (x / 2 ^ 24 % 256) ∷ (x / 2 ^ 16 % 256) ∷ (x / 2 ^ 8 % 256) ∷ (x % 256) ∷ []

unfoldable pub u64_bytes : ℕ → Bytes
u64_bytes x = u32_bytes (x / 2 ^ 32) ++ u32_bytes x

pub record BytesApi : Type 0 where
  pub put_u8 : Bytes → ℕ → Bytes
  pub put_u32 : Bytes → ℕ → Bytes
  pub put_u64 : Bytes → ℕ → Bytes
  pub put_slice : Bytes → Bytes → Bytes
  pub try_get_u8 : Bytes → Outcome TryGetError (ℕ × Bytes)
  pub try_get_u32 : Bytes → Outcome TryGetError (ℕ × Bytes)
  pub try_copy_to_slice : Bytes → ℕ → Outcome TryGetError (Bytes × Bytes)
  pub advance : Bytes → ℕ → Option Bytes
  pub put_u8_appends : (b : Bytes) (x : ℕ) → put_u8 b x ≡ b ++ x ∷ []
  pub put_u32_appends : (b : Bytes) (x : ℕ) → put_u32 b x ≡ b ++ u32_bytes x
  pub put_u64_appends : (b : Bytes) (x : ℕ) → put_u64 b x ≡ b ++ u64_bytes x
  pub put_slice_appends : (b xs : Bytes) → put_slice b xs ≡ b ++ xs
  pub try_get_u8_takes : (x : ℕ) (b : Bytes) → try_get_u8 (x ∷ b) ≡ ok (x, b)
  pub try_get_u8_short : try_get_u8 [] ≡ err (record { requested = 1; available = 0 })
  pub try_get_u32_takes :
      (w x y z : ℕ) (b : Bytes)
      → try_get_u32 (w ∷ x ∷ y ∷ z ∷ b) ≡ ok (w * 2 ^ 24 + (x * 2 ^ 16 + (y * 2 ^ 8 + z)), b)
  pub try_get_u32_short :
      (b : Bytes)
      → length b < 4
      → try_get_u32 b ≡ err (record { requested = 4; available = length b })
  pub try_copy_to_slice_takes :
      (b : Bytes) (n : ℕ) → n ≤ length b → try_copy_to_slice b n ≡ ok (take n b, drop n b)
  pub try_copy_to_slice_short :
      (b : Bytes) (n : ℕ)
      → length b < n
      → try_copy_to_slice b n ≡ err (record { requested = n; available = length b })
  pub advance_skips : (b : Bytes) (n : ℕ) → n ≤ length b → advance b n ≡ some (drop n b)
  pub advance_panics : (b : Bytes) (n : ℕ) → length b < n → advance b n ≡ none

-- ===== src/FileStore/FileApi.antt =====
-- The file of the store: `tokio::fs::File` as far as the store uses it. Its operations are
-- parameters on a state `F` of the file, with what is documented of each when it succeeds; an error
-- is given by its text.
pub mod Concrete
use bentorrent.Prelude.{ℕ, ◌+◌, ◌≤◌, ◌≡◌, length, take, drop}
use bentorrent.Outcome.{Outcome, ok}
use bentorrent.Torrent.{Bytes}
use bentorrent.Memory.{copy_block}

pub record FileApi (F : Type 0) : Type 0 where
  -- `seek(SeekFrom::Start(_))`
  pub seek : F → ℕ → F × Outcome Bytes (Unit {0})
  pub write_all : F → Bytes → F × Outcome Bytes (Unit {0})
  -- `read_exact` into a buffer of a given length
  pub read_exact : F → ℕ → F × Outcome Bytes Bytes
  -- What the file holds, and where the next operation begins.
  pub bytes : F → Bytes
  pub cursor : F → ℕ
  pub seek_moves :
      (f : F) (n : ℕ)
      → (seek f n).1 ≡ ok tt
      → (bytes (seek f n).0 ≡ bytes f) × (cursor (seek f n).0 ≡ n)
  pub write_all_writes :
      (f : F) (xs : Bytes)
      → (write_all f xs).1 ≡ ok tt
      → cursor f + length xs ≤ length (bytes f)
      → bytes (write_all f xs).0 ≡ copy_block (bytes f) (cursor f) xs
  pub read_exact_reads :
      (f : F) (n : ℕ) (xs : Bytes)
      → (read_exact f n).1 ≡ ok xs
      → (bytes (read_exact f n).0 ≡ bytes f)
        × ((xs ≡ take n (drop (cursor f) (bytes f))) × (cursor f + n ≤ length (bytes f)))

-- No operation inside the file fails.
pub record IsReliable {F : Type 0} (api : FileApi F) : Type 0 where
  pub seek_succeeds : (f : F) (n : ℕ) → (api.seek f n).1 ≡ ok tt
  pub write_all_succeeds : (f : F) (xs : Bytes) → (api.write_all f xs).1 ≡ ok tt
  pub read_exact_succeeds :
      (f : F) (n : ℕ)
      → api.cursor f + n ≤ length (api.bytes f)
      → (xs : Bytes) × ((api.read_exact f n).1 ≡ ok xs)

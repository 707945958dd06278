-- ===== src/FileStore/FileApi/Concrete.antt =====
-- A file in memory, which shows that what is assumed of files can be met.
use bentorrent.Prelude.{ℕ, ◌+◌, ◌≤◌, ◌≡◌, refl, arith, [], length, take, drop, ltb, if◌then◌else◌}
use bentorrent.Outcome.{Outcome, ok, err}
use bentorrent.Torrent.{Bytes}
use bentorrent.Memory.{copy_block}
use bentorrent.FileStore.FileApi.{FileApi, IsReliable}

pub record MemoryFile : Type 0 where
  pub bytes : Bytes
  pub cursor : ℕ

abbrev pub read_exact : MemoryFile → ℕ → MemoryFile × Outcome Bytes Bytes
read_exact f n =
    if ltb (length f.bytes) (f.cursor + n)
    then (f, err [])
    else (record { bytes = f.bytes; cursor = f.cursor + n }, ok (take n (drop f.cursor f.bytes)))

pub read_exact_reads :
    (f : MemoryFile) (n : ℕ) (xs : Bytes)
    → (read_exact f n).1 ≡ ok xs
    → ((read_exact f n).0.bytes ≡ f.bytes)
      × ((xs ≡ take n (drop f.cursor f.bytes)) × (f.cursor + n ≤ length f.bytes))
read_exact_reads f n xs h = ground arith

pub read_exact_succeeds :
    (f : MemoryFile) (n : ℕ)
    → f.cursor + n ≤ length f.bytes
    → (xs : Bytes) × ((read_exact f n).1 ≡ ok xs)
read_exact_succeeds f n h = (take n (drop f.cursor f.bytes), ground arith)

abbrev pub memory_file : FileApi MemoryFile
memory_file = record {
  seek = λ f n. (record { bytes = f.bytes; cursor = n }, ok tt);
  write_all = λ f xs.
      (record { bytes = copy_block f.bytes f.cursor xs; cursor = f.cursor + length xs }, ok tt);
  read_exact = read_exact;
  bytes = λ f. f.bytes;
  cursor = λ f. f.cursor;
  seek_moves = λ f n h. (refl, refl);
  write_all_writes = λ f xs h inside. refl;
  read_exact_reads = read_exact_reads;
}

pub memory_file-IsReliable : IsReliable memory_file
memory_file-IsReliable = record {
  seek_succeeds = λ f n. refl;
  write_all_succeeds = λ f xs. refl;
  read_exact_succeeds = read_exact_succeeds;
}

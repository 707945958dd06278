-- ===== src/Bencode/Valid.antt =====
-- src/file/bencode.rs: the values that the types of the program can hold, and how deep they nest.
use Prim.Native.Nat.{Ordering}
use bentorrent.Prelude.{ℕ, suc, ◌^◌, ◌<◌, ◌≡◌, max, length}
use bentorrent.Text.{compare_bytes}
use bentorrent.Bencode.{
  Bencode, BenList, DictT, ByteString, int, byte_string, list, dictionary, nil, cons, empty, entry,
}
use bentorrent.Bencode.Nom.{IsI64}

-- The keys of a BTreeMap lie above `k`, and ascend.
abbrev pub KeysAbove : ByteString → DictT → Type 0
KeysAbove k empty = Unit {0}
KeysAbove k (entry j v d) = (compare_bytes k j ≡ Ordering.lt) × KeysAbove j d

abbrev pub Ascends : DictT → Type 0
Ascends empty = Unit {0}
Ascends (entry k v d) = KeysAbove k d

-- Integers are i64, the length of a byte string is a u32, and dictionaries are BTreeMaps.
abbrev mutual
  pub IsValid : Bencode → Type 0
  IsValid (int i) = IsI64 i
  IsValid (byte_string bs) = length bs < 2 ^ 32
  IsValid (list l) = AllValid l
  IsValid (dictionary d) = Ascends d × EntriesValid d

  pub AllValid : BenList → Type 0
  AllValid nil = Unit {0}
  AllValid (cons b l) = IsValid b × AllValid l

  pub EntriesValid : DictT → Type 0
  EntriesValid empty = Unit {0}
  EntriesValid (entry k v d) = (length k < 2 ^ 32) × (IsValid v × EntriesValid d)

-- The calls of `parse_type` that are open at once.
abbrev mutual
  pub depth : Bencode → ℕ
  depth (int i) = 1
  depth (byte_string bs) = 1
  depth (list l) = suc (depth_items l)
  depth (dictionary d) = suc (depth_entries d)

  pub depth_items : BenList → ℕ
  depth_items nil = 0
  depth_items (cons b l) = max (depth b) (depth_items l)

  pub depth_entries : DictT → ℕ
  depth_entries empty = 0
  depth_entries (entry k v d) = max (depth v) (depth_entries d)

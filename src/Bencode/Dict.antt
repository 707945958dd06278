-- ===== src/Bencode/Dict.antt =====
-- src/file/bencode.rs, the dictionaries: BTreeMap<ByteString, Bencode> as its entries in the order
-- of their keys, and `map_dict_keys`.
use Prim.Native.Nat.{Ordering}
use bentorrent.Prelude.{List, [], ◌∷◌, Option, none, some}
use bentorrent.Torrent.{Bytes}
use bentorrent.Text.{from_utf8_lossy, compare_bytes}
use bentorrent.Bencode.{Bencode, BenList, DictT, ByteString, nil, cons, empty, entry}

-- `BTreeMap::insert`
unfoldable pub dict_insert : ByteString → Bencode → DictT → DictT
unfolding compare_bytes
dict_insert k v empty = entry k v empty
dict_insert k v (entry j w d) = elim (compare_bytes k j) [
  | Ordering.lt ↦ entry k v (entry j w d)
  | Ordering.eq ↦ entry j v d
  | Ordering.gt ↦ entry j w (dict_insert k v d)
]

-- `collect`: the entries are inserted one after the other.
unfoldable pub collect_into : DictT → List (ByteString × Bencode) → DictT
unfolding dict_insert
collect_into d [] = d
collect_into d ((k, v) ∷ entries) = collect_into (dict_insert k v d) entries

-- `get`, and the value of `remove`.
unfoldable pub dict_get : ByteString → DictT → Option Bencode
unfolding compare_bytes
dict_get k empty = none
dict_get k (entry j w d) = elim (compare_bytes k j) [ Ordering.eq ↦ some w | _ ↦ dict_get k d ]

-- `iter`
unfoldable pub entries : DictT → List (ByteString × Bencode)
entries empty = []
entries (entry k v d) = (k, v) ∷ entries d

-- The values of a Vec.
unfoldable pub items_of : List Bencode → BenList
items_of [] = nil
items_of (b ∷ bs) = cons b (items_of bs)

unfoldable pub to_list : BenList → List Bencode
to_list nil = []
to_list (cons b bs) = b ∷ to_list bs

-- `ByteString::to_string` on every key.
unfoldable pub string_keys : DictT → List (Bytes × Bencode)
unfolding from_utf8_lossy
string_keys empty = []
string_keys (entry k v d) = (from_utf8_lossy k, v) ∷ string_keys d

unfoldable pub map_dict_keys : DictT → DictT
unfolding collect_into string_keys
map_dict_keys dict = collect_into empty (string_keys dict)

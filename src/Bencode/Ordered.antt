-- ===== src/Bencode/Ordered.antt =====
-- src/file/bencode.rs, dictionaries: entries that are collected in the order of their keys.
use Prim.Native.Nat.{Ordering}
use bentorrent.Prelude.{[], ◌∷◌, List, arith, sym, ◌≡◌, refl, ap, ◌∙◌}
use bentorrent.Text.{compare_bytes_unflip, compare_bytes, compare_bytes_trans, compare_bytes_flip}
use bentorrent.Bencode.{Bencode, DictT, ByteString, empty, entry}
use bentorrent.Bencode.Dict.{dict_insert, collect_into, entries}
use bentorrent.Bencode.Valid.{KeysAbove, Ascends}

-- The entries of one map, then those of another.
abbrev pub join : DictT → DictT → DictT
join empty e = e
join (entry k v d) e = entry k v (join d e)

join-empty : (d : DictT) → join d empty ≡ d
join-empty empty = refl
join-empty (entry k v d) = ap (entry k v) (join-empty d)

join_assoc : (d e f : DictT) → join (join d e) f ≡ join d (join e f)
join_assoc empty e f = refl
join_assoc (entry k v d) e f = ap (entry k v) (join_assoc d e f)

pub KeysAbove-Ascends : (k : ByteString) (d : DictT) → KeysAbove k d → Ascends d
KeysAbove-Ascends k empty h = tt
KeysAbove-Ascends k (entry j v d) h = h.1

KeysAbove-join :
    (j k : ByteString) (v : Bencode) (d e : DictT)
    → KeysAbove j (join d (entry k v e))
    → compare_bytes j k ≡ Ordering.lt
KeysAbove-join j k v empty e h = h.0
KeysAbove-join j k v (entry i w d) e h =
    compare_bytes_trans j i k h.0 (KeysAbove-join i k v d e h.1)

insert_last :
    (k : ByteString) (v : Bencode) (d e : DictT)
    → Ascends (join d (entry k v e))
    → dict_insert k v d ≡ join d (entry k v empty)
unfolding dict_insert
insert_last k v empty e h = refl
insert_last k v (entry j w d) e h =
    let above = compare_bytes_flip j k (KeysAbove-join j k v d e h) in
    rw (above, dict_insert)
      (ap (entry j w) (insert_last k v d e (KeysAbove-Ascends j (join d (entry k v e)) h)))

collect_into-join :
    (acc d : DictT) → Ascends (join acc d) → collect_into acc (entries d) ≡ join acc d
unfolding collect_into entries
collect_into-join acc empty h = sym (join-empty acc)
collect_into-join acc (entry k v d) h =
    let assoc = join_assoc acc (entry k v empty) d in
    rw (insert_last k v acc d h, collect_into, entries)
      (collect_into-join (join acc (entry k v empty)) d (rw assoc h) ∙ assoc)

-- The entries of a map, collected, are the map.
pub collect_into-entries : (d : DictT) → Ascends d → collect_into empty (entries d) ≡ d
collect_into-entries d h = collect_into-join empty d h

dict_insert-KeysAbove :
    (j k : ByteString) (v : Bencode) (d : DictT)
    → compare_bytes j k ≡ Ordering.lt
    → KeysAbove j d
    → KeysAbove j (dict_insert k v d)
unfolding dict_insert
dict_insert-KeysAbove j k v empty h a = (h, tt)
dict_insert-KeysAbove j k v (entry i w d) h a =
    ground (arith, dict_insert-KeysAbove i k v d, compare_bytes_unflip k i)

-- An insertion keeps the order of the keys.
pub dict_insert-Ascends :
    (k : ByteString) (v : Bencode) (d : DictT) → Ascends d → Ascends (dict_insert k v d)
unfolding dict_insert
dict_insert-Ascends k v empty a = tt
dict_insert-Ascends k v (entry j w d) a =
    ground (arith, dict_insert-KeysAbove j k v d, compare_bytes_unflip k j)

pub collect_into-Ascends :
    (d : DictT) (kvs : List (ByteString × Bencode)) → Ascends d → Ascends (collect_into d kvs)
unfolding collect_into
collect_into-Ascends d [] a = a
collect_into-Ascends d ((k, v) ∷ kvs) a =
    collect_into-Ascends (dict_insert k v d) kvs (dict_insert-Ascends k v d a)

-- ===== src/Metainfo/Keys.antt =====
-- src/model/torrent.rs, `convert_dict_keys`: what is found under a key that is ASCII text.
use Prim.Native.Nat.{Ordering}
use bentorrent.Prelude.{
  ◌⊎◌, ◌≢◌, true, false, Bool-cases, ◌≡◌, refl, ◌∙◌, arith, [], Option, none, some, inl, inr,
}
use bentorrent.Prelude.Eq.{list_eq, nat_eq, list_beq, list_beq_iff}
use bentorrent.Prelude.Maps.{Map, lookup, insert, lookup-insert}
use bentorrent.Torrent.{Bytes}
use bentorrent.Text.{
  from_utf8_lossy_ascii, compare_bytes, compare_bytes_self, eq_of_compare_bytes,
  compare_bytes_trans,
}
use bentorrent.Bencode.{Bencode, DictT, ByteString, empty, entry}
use bentorrent.Bencode.Dict.{dict_get, string_keys}
use bentorrent.Bencode.Valid.{KeysAbove, Ascends}
use bentorrent.Bencode.Ordered.{KeysAbove-Ascends}
use bentorrent.Bencode.Ascii.{AsciiKeys}
use bentorrent.Metainfo.{collect_map, convert_dict_keys}

abbrev or_else : Option Bencode → Option Bencode → Option Bencode
or_else (some v) o = some v
or_else none o = o

dict_get-KeysAbove :
    (k j : ByteString) (d : DictT)
    → compare_bytes k j ≡ Ordering.lt
    → KeysAbove j d
    → dict_get k d ≡ none
unfolding dict_get
dict_get-KeysAbove k j empty h a = refl
dict_get-KeysAbove k j (entry i w d) h a =
    let below = compare_bytes_trans k j i h a.0 in
    rw (below, dict_get) (dict_get-KeysAbove k i d below a.1)

-- The first key of a dictionary occurs once.
dict_get-first : (k : ByteString) (d : DictT) → KeysAbove k d → dict_get k d ≡ none
unfolding dict_get
dict_get-first k empty a = refl
dict_get-first k (entry i w d) a = rw (a.0, dict_get) (dict_get-KeysAbove k i d a.0 a.1)

Ordering-cases : (o : Ordering) → (o ≡ Ordering.eq) ⊎ (o ≢ Ordering.eq)
Ordering-cases Ordering.eq = inl refl
Ordering-cases Ordering.lt = inr (λ e. cc)
Ordering-cases Ordering.gt = inr (λ e. cc)

dict_get-entry_ne :
    (k j : ByteString) (v : Bencode) (d : DictT)
    → compare_bytes k j ≢ Ordering.eq
    → dict_get k (entry j v d) ≡ dict_get k d
unfolding dict_get
dict_get-entry_ne k j v d ne = ground arith

list_beq_ne : (k j : Bytes) → compare_bytes k j ≢ Ordering.eq → list_beq nat_eq j k ≡ false
list_beq_ne k j ne = elim (Bool-cases (list_beq nat_eq j k)) [
  | inr differs ↦ differs
  | inl equal ↦
      let same : j ≡ k = (list_beq_iff nat_eq j k).0 equal in
      absurd (ne (rw same (compare_bytes_self k)))
]

lookup-collect_map :
    (k : Bytes) (m : Map Bytes Bencode) (d : DictT)
    → Ascends d
    → AsciiKeys d
    → lookup k (collect_map m (string_keys d)) ≡ or_else (dict_get k d) (lookup k m)
unfolding collect_map string_keys dict_get
lookup-collect_map k m empty a s = refl
lookup-collect_map k m (entry j v d) a s =
    let rest = lookup-collect_map k (insert j v m) d (KeysAbove-Ascends j d a) s.1 in
    let inserted = lookup-insert j k v m in
    rw (from_utf8_lossy_ascii j s.0) (
      rest ∙ (elim (Ordering-cases (compare_bytes k j)) [
        | inl e ↦
            let same = eq_of_compare_bytes k j e in
            let absent : dict_get k d ≡ none = rw same (dict_get-first j d a) in
            let found : list_beq nat_eq j k ≡ true = rw same ((list_beq_iff nat_eq j j).1 refl) in
            rw (inserted, absent, e, found, dict_get) refl
        | inr ne ↦ rw (inserted, dict_get-entry_ne k j v d ne, list_beq_ne k j ne) refl
      ]))

-- Under an ASCII key the converted map has what the dictionary has.
pub lookup-convert_dict_keys :
    (k : Bytes) (d : DictT)
    → Ascends d
    → AsciiKeys d
    → lookup k (convert_dict_keys d) ≡ dict_get k d
unfolding convert_dict_keys lookup
lookup-convert_dict_keys k d a s = lookup-collect_map k [] d a s ∙ or_else-none (dict_get k d)
  where
    or_else-none : (o : Option Bencode) → or_else o none ≡ o
    or_else-none none = refl
    or_else-none (some v) = refl

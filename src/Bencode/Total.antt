-- ===== src/Bencode/Total.antt =====
-- src/file/bencode.rs: the parser ends on every input, and what it gives is a valid value.
use bentorrent.Prelude.{
  refl, ◌∙◌, replicate, ◌≤◌, ℕ, zero, suc, ◌^◌, ◌<◌, ◌≡◌, ◌≢◌, arith, List, [], ◌∷◌, ◌++◌,
  append-nil, length, All,
}
use bentorrent.Outcome.{ok, panic}
use bentorrent.Torrent.{Bytes}
use bentorrent.Bencode.{Bencode, DictT, ByteString, empty, entry, int}
use bentorrent.Bencode.Dict.{dict_insert, collect_into, items_of}
use bentorrent.Bencode.Ordered.{collect_into-Ascends}
use bentorrent.Bencode.RoundTrip.{parse_type-encode}
use bentorrent.Bencode.{encode}
use bentorrent.Bencode.Choice.{tag-refuses, parse_int-refuses}
use bentorrent.Bencode.Valid.{depth, IsValid, AllValid, EntriesValid}
use bentorrent.Bencode.Nom.{Nom, Parser}
use bentorrent.Bencode.Ensures.{
  Ensures, Ensures-mono, holds, Ensures-ok, Ensures-panic, Ensures-bind, Shorter, tag-Ensures,
  take-Ensures, u32-Ensures, i64-Ensures, alt-Ensures, many_till-Ensures,
}
use bentorrent.Bencode.Parser.{
  parse_bencode, parse_int, inner_parse_bytestring, parse_bytestring, parse_list, parse_pair,
  parse_dictionary, parse_type,
}

items_of-AllValid : (bs : List Bencode) → All IsValid bs → AllValid (items_of bs)
unfolding items_of
items_of-AllValid [] h = tt
items_of-AllValid (b ∷ bs) h = (h.0, items_of-AllValid bs h.1)

abbrev EntryValid : ByteString × Bencode → Type 0
EntryValid e = (length e.0 < 2 ^ 32) × IsValid e.1

dict_insert-EntriesValid :
    (k : ByteString) (v : Bencode) (d : DictT)
    → EntryValid (k, v)
    → EntriesValid d
    → EntriesValid (dict_insert k v d)
unfolding dict_insert
dict_insert-EntriesValid k v empty e h = (e.0, (e.1, tt))
dict_insert-EntriesValid k v (entry j w d) e h = ground (arith, dict_insert-EntriesValid k v d)

collect_into-EntriesValid :
    (d : DictT) (kvs : List (ByteString × Bencode))
    → All EntryValid kvs
    → EntriesValid d
    → EntriesValid (collect_into d kvs)
unfolding collect_into
collect_into-EntriesValid d [] e h = h
collect_into-EntriesValid d ((k, v) ∷ kvs) e h =
    collect_into-EntriesValid (dict_insert k v d) kvs e.1 (dict_insert-EntriesValid k v d e.0 h)

module _ (nom : Nom) where
  -- A parser that is given fewer than `n` bytes gives a valid value and the rest of them.
  abbrev ParsesValid : ℕ → Parser Bencode → Type 0
  ParsesValid n p = (i : Bytes) → length i < n → Ensures (Shorter nom IsValid i) (p i)

  parse_int-Ensures : (i : Bytes) → Ensures (Shorter nom IsValid i) (parse_int nom i)
  unfolding parse_int
  parse_int-Ensures i =
      rw (nom.delimited_lem (nom.tag (b'i' ∷ [])) nom.i64 (nom.tag (b'e' ∷ [])) i) (
        Ensures-bind
          (Ensures-bind (tag-Ensures nom b'i' i) λ a p. Ensures-bind (i64-Ensures nom a.0) λ b q.
            Ensures-bind {Q = Shorter nom (λ n. IsValid (int n)) i} (tag-Ensures nom b'e' b.0)
              λ c r. holds (omega (arith, q.0), q.1))
          λ s h. holds h)

  inner_parse_bytestring-Ensures :
      (i : Bytes)
      → Ensures (Shorter nom (λ bs. length bs < 2 ^ 32) i) (inner_parse_bytestring nom i)
  unfolding inner_parse_bytestring
  inner_parse_bytestring-Ensures i = Ensures-bind (u32-Ensures nom i) λ a p.
      Ensures-bind (tag-Ensures nom b':' a.0) λ b q.
        Ensures-mono (take-Ensures nom a.1 b.0)
          λ r t. (omega (arith, p.0, q, t.0), omega (arith, p.1, t.1))

  parse_bytestring-Ensures : (i : Bytes) → Ensures (Shorter nom IsValid i) (parse_bytestring nom i)
  unfolding parse_bytestring
  parse_bytestring-Ensures i = Ensures-bind (inner_parse_bytestring-Ensures i) λ a p. holds p

  module _ (n : ℕ) (p : Parser Bencode) (each : ParsesValid n p) where
    parse_list-Ensures :
        (i : Bytes) → length i < suc n → Ensures (Shorter nom IsValid i) (parse_list nom p i)
    unfolding parse_list
    parse_list-Ensures i h = Ensures-bind (tag-Ensures nom b'l' i) λ r s.
        Ensures-bind (many_till-Ensures nom IsValid n p each b'e' r.0 (omega (arith, s)))
          λ t v. holds (omega (arith, s, v.0), items_of-AllValid t.1.0 v.1)

    parse_pair-Ensures :
        (i : Bytes) → length i < n → Ensures (Shorter nom EntryValid i) (parse_pair nom p i)
    unfolding parse_pair
    parse_pair-Ensures i h = Ensures-bind (inner_parse_bytestring-Ensures i) λ k s.
        Ensures-bind (each k.0 (omega (arith, s.0)))
          λ v t. holds (omega (arith, s.0, t.0), (s.1, t.1))

    parse_dictionary-Ensures :
        (i : Bytes) → length i < suc n → Ensures (Shorter nom IsValid i) (parse_dictionary nom p i)
    unfolding parse_dictionary
    parse_dictionary-Ensures i h = Ensures-bind (tag-Ensures nom b'd' i) λ r s.
        Ensures-bind
          (many_till-Ensures nom EntryValid n (parse_pair nom p) parse_pair-Ensures b'e' r.0
            (omega (arith, s)))
          λ t v. holds (
            omega (arith, s, v.0),
            (collect_into-Ascends empty t.1.0 tt, collect_into-EntriesValid empty t.1.0 v.1 tt),
          )

  parse_type-ParsesValid : (n : ℕ) → ParsesValid n (parse_type nom n)
  unfolding parse_type
  parse_type-ParsesValid zero i h = absurd (omega arith)
  parse_type-ParsesValid (suc n) i h =
      let each = parse_type-ParsesValid n in
      alt-Ensures nom (Shorter nom IsValid i) i (parse_int nom) _ (
        parse_int-Ensures i,
        (
          parse_list-Ensures n (parse_type nom n) each i h,
          (
            parse_dictionary-Ensures n (parse_type nom n) each i h,
            (parse_bytestring-Ensures i, tt),
          ),
        ),
      )

  -- If the stack has room for one call more than the input has bytes, `parse_type` ends in a value
  -- or an error. A value has i64 integers, byte strings shorter than 2^32 and sorted dictionaries,
  -- and at least one byte was read for it.
  pub parse_type-Ensures :
      (n : ℕ) (i : Bytes)
      → length i < n
      → (parse_type nom n i ≢ panic)
        × ((rest : Bytes) (b : Bencode)
            → parse_type nom n i ≡ ok (rest, b)
            → IsValid b × (length rest < length i))
  parse_type-Ensures n i h =
      let ensures = parse_type-ParsesValid n i h in
      (Ensures-panic ensures, λ rest b e. let read = Ensures-ok ensures e in (read.1, read.0))

  -- What was parsed, encoded and parsed again with enough stack, gives the same value: `encode` writes
  -- every value that the parser gives in a form that the parser reads back.
  pub parse_bencode-encode-parse :
      (n m : ℕ) (i rest : Bytes) (b : Bencode)
      → length i < n
      → parse_type nom n i ≡ ok (rest, b)
      → depth b ≤ m
      → parse_bencode nom m (encode b) ≡ ok b
  parse_bencode-encode-parse n m i rest b h e k =
      let valid = ((parse_type-Ensures n i h).1 rest b e).0 in
      rw (append-nil (encode b)) at (parse_type-encode nom b m [] valid k).1

  -- A stack with room for n calls of `parse_type` is used up by every input that begins with more
  -- than n bytes `l`: nothing but the input bounds the nesting.
  pub parse_type-replicate_l :
      (n k : ℕ) (rest : Bytes) → n < k → parse_type nom n (replicate k b'l' ++ rest) ≡ panic
  unfolding parse_type
  parse_type-replicate_l zero k rest h = refl
  parse_type-replicate_l (suc n) zero rest h = absurd (omega arith)
  parse_type-replicate_l (suc n) (suc zero) rest h = absurd (omega arith)
  parse_type-replicate_l (suc n) (suc (suc k)) rest h =
      let i = replicate (suc k) b'l' ++ rest in
      let deeper = parse_type-replicate_l n (suc k) rest (omega arith) in
      let (e, no_int) = parse_int-refuses nom b'l' i (λ x. omega arith) in
      let (e', no_end) = tag-refuses nom b'e' b'l' (replicate k b'l' ++ rest) (λ x. omega arith) in
      let inner = nom.many_till_panic (parse_type nom n) (nom.tag (b'e' ∷ [])) i e' no_end deeper in
      let all : parse_list nom (parse_type nom n) (b'l' ∷ i) ≡ panic =
        unfold parse_list in rw (nom.tag_takes (b'l' ∷ []) i, inner) refl in
      nom.alt_err _ _ _ (b'l' ∷ i) e no_int ∙ nom.alt_panic _ _ (b'l' ∷ i) all

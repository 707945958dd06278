-- ===== src/Bencode/RoundTrip.antt =====
-- src/file/bencode.rs: an encoded value is read back, from the front of whatever follows it.
use bentorrent.Prelude.{
  sym, append-nil, max, ℕ, zero, suc, ◌≤◌, ◌≡◌, refl, ◌∙◌, arith, [], ◌∷◌, ◌++◌, append_assoc,
}
use bentorrent.Outcome.{Outcome, ok}
use bentorrent.Torrent.{Bytes}
use bentorrent.Bencode.{
  Bencode, BenList, DictT, int, byte_string, list, dictionary, nil, cons, empty, entry, encode,
  encode_items, encode_entries, encode_int, encode_bs,
}
use bentorrent.Bencode.Dict.{to_list, entries}
use bentorrent.Bencode.Nom.{NomError, Nom}
use bentorrent.Bencode.Valid.{IsValid, AllValid, EntriesValid, depth, depth_items, depth_entries}
use bentorrent.Bencode.Parser.{parse_bencode, parse_pair, parse_type}
use bentorrent.Bencode.Choice.{parse_type-int}
use bentorrent.Bencode.Reading.{
  encode-cons, parse_int-encode, step, step_pair, parse_bytes, parse_items, parse_entries,
  depth_pos, end,
}

module _ (nom : Nom) where
  open nom use {tag, tag_takes, many_till, many_till_ends}

  mutual
    unfolding encode to_list entries

    parse_type-encode_lem :
        (b : Bencode) (n : ℕ) (rest : Bytes)
        → IsValid b
        → depth b ≤ n
        → parse_type nom n (encode b ++ rest) ≡ ok (rest, b)
    parse_type-encode_lem b zero rest h k = absurd (depth_pos b k)
    parse_type-encode_lem (int i) (suc n) rest h k =
        parse_type-int nom n (encode_int i ++ rest) (rest, int i) (parse_int-encode nom i rest h)
    parse_type-encode_lem (byte_string bs) (suc n) rest h k = parse_bytes nom n bs rest h
    parse_type-encode_lem (list l) (suc n) rest h k =
        parse_items nom n l rest (many_till-encode_items l n rest h (omega arith))
    parse_type-encode_lem (dictionary d) (suc n) rest h k =
        parse_entries nom n d rest h.0 (many_till-encode_entries d n rest h.1 (omega arith))

    many_till-encode_items :
        (l : BenList) (n : ℕ) (rest : Bytes)
        → AllValid l
        → depth_items l ≤ n
        → many_till (parse_type nom n) (end nom) (encode_items l ++ b'e' ∷ rest)
          ≡ ok (rest, (to_list l, b'e' ∷ []))
    many_till-encode_items nil n rest h k =
        many_till_ends _ (end nom) (b'e' ∷ rest) (rest, b'e' ∷ []) (tag_takes (b'e' ∷ []) rest)
    many_till-encode_items (cons b l) n rest h k =
        rw (append_assoc (encode b) (encode_items l) (b'e' ∷ rest)) (
          step nom (parse_type nom n) (encode b) (encode_items l ++ b'e' ∷ rest) b
            (rest, (to_list l, b'e' ∷ [])) (encode-cons b)
            (parse_type-encode_lem b n (encode_items l ++ b'e' ∷ rest) h.0 (omega arith))
            (many_till-encode_items l n rest h.1 (omega arith)))

    many_till-encode_entries :
        (d : DictT) (n : ℕ) (rest : Bytes)
        → EntriesValid d
        → depth_entries d ≤ n
        → many_till (parse_pair nom (parse_type nom n)) (end nom) (encode_entries d ++ b'e' ∷ rest)
          ≡ ok (rest, (entries d, b'e' ∷ []))
    many_till-encode_entries empty n rest h k =
        many_till_ends _ (end nom) (b'e' ∷ rest) (rest, b'e' ∷ []) (tag_takes (b'e' ∷ []) rest)
    many_till-encode_entries (entry key v d) n rest h k =
        rw
          (
            append_assoc (encode_bs key) (encode v ++ encode_entries d) (b'e' ∷ rest),
            append_assoc (encode v) (encode_entries d) (b'e' ∷ rest),
          )
          (step_pair nom (parse_type nom n) key v (encode_entries d ++ b'e' ∷ rest)
            (rest, (entries d, b'e' ∷ [])) h.0
            (parse_type-encode_lem v n (encode_entries d ++ b'e' ∷ rest) h.1.0 (omega arith))
            (many_till-encode_entries d n rest h.1.1 (omega arith)))

  -- A value of i64 integers, byte strings shorter than 2^32 and sorted dictionaries, encoded and
  -- followed by any bytes, is read back by `parse_type` and leaves exactly those bytes, if the stack
  -- has room for as many calls as the value nests; and `parse_bencode` gives the value.
  pub parse_type-encode :
      (b : Bencode) (n : ℕ) (rest : Bytes)
      → IsValid b
      → depth b ≤ n
      → (parse_type nom n (encode b ++ rest) ≡ ok (rest, b))
        × (parse_bencode nom n (encode b ++ rest) ≡ ok b)
  parse_type-encode b n rest h k =
      let reads = parse_type-encode_lem b n rest h k in
      (reads, unfold parse_bencode in rw (reads, parse_bencode) refl)

  -- No two valid values have the same encoding, and none is the beginning of another's.
  pub encode-prefix_free :
      (a b : Bencode) (rest : Bytes)
      → IsValid a
      → IsValid b
      → encode a ≡ encode b ++ rest
      → (a ≡ b) × (rest ≡ [])
  encode-prefix_free a b rest ha hb e =
      let n = max (depth a) (depth b) in
      let left = (parse_type-encode a n [] ha (omega arith)).0 in
      let right = (parse_type-encode b n rest hb (omega arith)).0 in
      let same : parse_type nom n (encode a ++ []) ≡ ok (rest, b) =
        rw (append-nil (encode a), e) right in
      let both : ◌≡◌ {A = Outcome NomError (Bytes × Bencode)} (ok ([], a)) (ok (rest, b)) =
        sym left ∙ same in
      (cc, cc)

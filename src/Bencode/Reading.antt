-- ===== src/Bencode/Reading.antt =====
-- src/file/bencode.rs: one step of the parser on an encoded value.
use bentorrent.Prelude.{
  ℤ, ℕ, suc, ◌^◌, ◌≤◌, ◌<◌, ◌≡◌, ◌≢◌, refl, subst, ap, ◌∙◌, arith, List, [], ◌∷◌, ◌++◌, length,
  append_assoc, length-append, take-append, drop-append, true,
}
use bentorrent.Outcome.{ok, err}
use bentorrent.Torrent.{Bytes}
use bentorrent.Bencode.{
  Bencode, BenList, DictT, ByteString, int, byte_string, list, dictionary, nil, cons, encode,
  encode_items, encode_entries, encode_int, encode_bs,
}
use bentorrent.Bencode.Decimal.{
  show_int, decimal, decimal-cons, decimal-AllDigits, AllDigits, is_digit,
}
use bentorrent.Bencode.Dict.{items_of, to_list, entries}
use bentorrent.Bencode.Nom.{Nom, Parser, IsI64}
use bentorrent.Bencode.Valid.{Ascends, depth}
use bentorrent.Bencode.Ordered.{collect_into-entries}
use bentorrent.Bencode.Parser.{
  parse_int, inner_parse_bytestring, parse_bytestring, parse_list, parse_pair, parse_dictionary,
  parse_type,
}
use bentorrent.Bencode.Choice.{
  tag-refuses, parse_type-list, parse_type-dictionary, parse_type-bytestring,
}

-- An encoded byte string begins with a digit.
encode_bs-cons :
    (bs : ByteString) → (d : ℕ) × ((ds : Bytes) × ((encode_bs bs ≡ d ∷ ds) × (is_digit d ≡ true)))
unfolding encode_bs
encode_bs-cons bs =
    let (d, shaped) = decimal-cons (length bs) in
    let (ds, shape) = shaped in
    let all : AllDigits (d ∷ ds) = subst AllDigits shape (decimal-AllDigits (length bs)) in
    (d, ((ds ++ b':' ∷ []) ++ bs, (ap (λ x. (x ++ b':' ∷ []) ++ bs) shape, all.0)))

-- An encoded value begins with a byte that does not end a list.
pub encode-cons : (b : Bencode) → (d : ℕ) × ((ds : Bytes) × ((encode b ≡ d ∷ ds) × (b'e' ≢ d)))
unfolding encode encode_int
encode-cons (int i) = (b'i', (_, (refl, λ e. omega arith)))
encode-cons (byte_string bs) =
    let (d, shaped) = encode_bs-cons bs in
    let (ds, shape) = shaped in (d, (ds, (shape.0, λ e. ground (arith, shape.1))))
encode-cons (list l) = (b'l', (_, (refl, λ e. omega arith)))
encode-cons (dictionary d) = (b'd', (_, (refl, λ e. omega arith)))

pub depth_pos : (b : Bencode) → ¬ (depth b ≤ 0)
depth_pos (int i) h = omega arith
depth_pos (byte_string bs) h = omega arith
depth_pos (list l) h = omega arith
depth_pos (dictionary d) h = omega arith

items_of-to_list : (l : BenList) → items_of (to_list l) ≡ l
unfolding items_of to_list
items_of-to_list nil = refl
items_of-to_list (cons b l) = ap (cons b) (items_of-to_list l)

module _ (nom : Nom) where
  open nom use {
    tag, tag_takes, take_takes, u32_reads, i64_reads, delimited_lem, many_till, many_till_ends,
    many_till_step,
  }

  abbrev pub end : Parser Bytes
  end = tag (b'e' ∷ [])

  inner_parse_bytestring-encode_bs :
      (bs rest : Bytes)
      → length bs < 2 ^ 32
      → inner_parse_bytestring nom (encode_bs bs ++ rest) ≡ ok (rest, bs)
  unfolding inner_parse_bytestring encode_bs
  inner_parse_bytestring-encode_bs bs rest h =
      let enough : length bs ≤ length (bs ++ rest) = omega (arith, length-append bs rest) in
      let number = u32_reads (length bs) (b':' ∷ (bs ++ rest)) h refl in
      rw
        (
          append_assoc (decimal (length bs) ++ b':' ∷ []) bs rest,
          append_assoc (decimal (length bs)) (b':' ∷ []) (bs ++ rest),
          number,
          tag_takes (b':' ∷ []) (bs ++ rest),
          take_takes (length bs) (bs ++ rest) enough,
          take-append bs rest,
          drop-append bs rest,
        )
        refl

  pub parse_int-encode :
      (n : ℤ) (rest : Bytes) → IsI64 n → parse_int nom (encode_int n ++ rest) ≡ ok (rest, int n)
  unfolding parse_int encode_int
  parse_int-encode n rest h =
      let delimits = delimited_lem (tag (b'i' ∷ [])) nom.i64 end (encode_int n ++ rest) in
      let begin = tag_takes (b'i' ∷ []) ((show_int n ++ b'e' ∷ []) ++ rest) in
      let number = i64_reads n (b'e' ∷ rest) h refl in
      rw
        (
          delimits,
          begin,
          append_assoc (show_int n) (b'e' ∷ []) rest,
          number,
          tag_takes (b'e' ∷ []) rest,
        )
        refl

  -- A list is read one element at a time.
  pub step :
      {A : Type 0} (p : Parser A) (i rest : Bytes) (a : A) (s : Bytes × (List A × Bytes))
      → ((d : ℕ) × ((ds : Bytes) × ((i ≡ d ∷ ds) × (b'e' ≢ d))))
      → p (i ++ rest) ≡ ok (rest, a)
      → many_till p end rest ≡ ok s
      → many_till p end (i ++ rest) ≡ ok (s.0, (a ∷ s.1.0, s.1.1))
  step p i rest a s starts reads more =
      let (d, shaped) = starts in
      let (ds, shape) = shaped in
      let (e, no_end) = tag-refuses nom b'e' d (ds ++ rest) shape.1 in
      let ends_not : end (i ++ rest) ≡ err e = rw shape.0 no_end in
      let shorter : length rest < length (i ++ rest) =
        omega (arith, length-append i rest, ap length shape.0) in
      many_till_step p end (i ++ rest) e (rest, a) ends_not reads shorter ∙ rw more refl

  -- An entry is a byte string and a value.
  pub step_pair :
      (p : Parser Bencode) (k : ByteString) (v : Bencode) (rest : Bytes)
      (s : Bytes × (List (ByteString × Bencode) × Bytes))
      → length k < 2 ^ 32
      → p (encode v ++ rest) ≡ ok (rest, v)
      → many_till (parse_pair nom p) end rest ≡ ok s
      → many_till (parse_pair nom p) end (encode_bs k ++ (encode v ++ rest))
        ≡ ok (s.0, ((k, v) ∷ s.1.0, s.1.1))
  step_pair p k v rest s h reads more =
      let (d, shaped) = encode_bs-cons k in
      let (ds, shape) = shaped in
      let starts : (c : ℕ) × ((cs : Bytes) × ((encode_bs k ++ encode v ≡ c ∷ cs) × (b'e' ≢ c))) =
        (d, (ds ++ encode v, (ap (λ x. x ++ encode v) shape.0, λ e. ground (arith, shape.1)))) in
      let pair : parse_pair nom p ((encode_bs k ++ encode v) ++ rest) ≡ ok (rest, (k, v)) =
        unfold parse_pair in
        rw
          (
            append_assoc (encode_bs k) (encode v) rest,
            inner_parse_bytestring-encode_bs k (encode v ++ rest) h,
            reads,
          )
          refl in
      rw (← append_assoc (encode_bs k) (encode v) rest)
        (step (parse_pair nom p) (encode_bs k ++ encode v) rest (k, v) s starts pair more)

  pub parse_bytes :
      (n : ℕ) (bs rest : Bytes)
      → length bs < 2 ^ 32
      → parse_type nom (suc n) (encode_bs bs ++ rest) ≡ ok (rest, byte_string bs)
  parse_bytes n bs rest h =
      let (d, shaped) = encode_bs-cons bs in
      let (ds, shape) = shaped in
      let digit = shape.1 in
      let reads : parse_bytestring nom (encode_bs bs ++ rest) ≡ ok (rest, byte_string bs) =
        unfold parse_bytestring in rw (inner_parse_bytestring-encode_bs bs rest h) refl in
      rw (shape.0) (
        parse_type-bytestring nom n d (ds ++ rest) (λ e. ground (arith, digit))
          (λ e. ground (arith, digit)) (λ e. ground (arith, digit)) (rest, byte_string bs)
          (subst (λ x. parse_bytestring nom (x ++ rest) ≡ ok (rest, byte_string bs)) shape.0 reads))

  pub parse_items :
      (n : ℕ) (l : BenList) (rest : Bytes)
      → many_till (parse_type nom n) end (encode_items l ++ b'e' ∷ rest)
        ≡ ok (rest, (to_list l, b'e' ∷ []))
      → parse_type nom (suc n) (b'l' ∷ ((encode_items l ++ b'e' ∷ []) ++ rest)) ≡ ok (rest, list l)
  parse_items n l rest reads =
      let body = (encode_items l ++ b'e' ∷ []) ++ rest in
      let all : parse_list nom (parse_type nom n) (b'l' ∷ body) ≡ ok (rest, list l) =
        unfold parse_list in
        rw
          (
            tag_takes (b'l' ∷ []) body,
            append_assoc (encode_items l) (b'e' ∷ []) rest,
            reads,
            items_of-to_list l,
          )
          refl in
      parse_type-list nom n b'l' body (λ e. omega arith) (rest, list l) all

  pub parse_entries :
      (n : ℕ) (d : DictT) (rest : Bytes)
      → Ascends d
      → many_till (parse_pair nom (parse_type nom n)) end (encode_entries d ++ b'e' ∷ rest)
        ≡ ok (rest, (entries d, b'e' ∷ []))
      → parse_type nom (suc n) (b'd' ∷ ((encode_entries d ++ b'e' ∷ []) ++ rest))
        ≡ ok (rest, dictionary d)
  parse_entries n d rest h reads =
      let body = (encode_entries d ++ b'e' ∷ []) ++ rest in
      let all : parse_dictionary nom (parse_type nom n) (b'd' ∷ body) ≡ ok (rest, dictionary d) =
        unfold parse_dictionary in
        rw
          (
            tag_takes (b'd' ∷ []) body,
            append_assoc (encode_entries d) (b'e' ∷ []) rest,
            reads,
            collect_into-entries d h,
          )
          refl in
      parse_type-dictionary nom n b'd' body (λ e. omega arith) (λ e. omega arith)
        (rest, dictionary d) all

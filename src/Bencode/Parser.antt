-- ===== src/Bencode/Parser.antt =====
-- src/file/bencode.rs, the parser. A parser that calls another is given it as an argument; only
-- `parse_type` calls itself, through the lists and dictionaries, and it is given the number of
-- calls that the stack has room for.
use bentorrent.Prelude.{ℕ, zero, suc, [], ◌∷◌}
use bentorrent.Outcome.{Outcome, ok, err, panic}
use bentorrent.Torrent.{Bytes}
use bentorrent.Bencode.{
  Bencode, Error, ByteString, int, byte_string, list, dictionary, empty, bencode_parse,
}
use bentorrent.Bencode.Dict.{collect_into, items_of}
use bentorrent.Bencode.Nom.{Nom, Parser, bind}

module _ (nom : Nom) where
  unfoldable pub parse_int : Parser Bencode
  parse_int i =
      bind (nom.delimited (nom.tag (b'i' ∷ [])) nom.i64 (nom.tag (b'e' ∷ [])) i)
        (λ r. ok (r.0, int r.1))

  unfoldable pub inner_parse_bytestring : Parser ByteString
  inner_parse_bytestring i =
      bind (nom.u32 i) (λ len. bind (nom.tag (b':' ∷ []) len.0) (λ r. nom.take len.1 r.0))

  unfoldable pub parse_bytestring : Parser Bencode
  unfolding inner_parse_bytestring
  parse_bytestring i = bind (inner_parse_bytestring i) (λ r. ok (r.0, byte_string r.1))

  unfoldable pub parse_list : Parser Bencode → Parser Bencode
  unfolding items_of
  parse_list parse_type i = bind (nom.tag (b'l' ∷ []) i) (λ r.
      bind (nom.many_till parse_type (nom.tag (b'e' ∷ [])) r.0)
        (λ s. ok (s.0, list (items_of s.1.0))))

  unfoldable pub parse_pair : Parser Bencode → Parser (ByteString × Bencode)
  unfolding inner_parse_bytestring
  parse_pair parse_type i =
      bind (inner_parse_bytestring i) (λ k. bind (parse_type k.0) (λ v. ok (v.0, (k.1, v.1))))

  unfoldable pub parse_dictionary : Parser Bencode → Parser Bencode
  unfolding parse_pair collect_into
  parse_dictionary parse_type i = bind (nom.tag (b'd' ∷ []) i) (λ r.
      bind (nom.many_till (parse_pair parse_type) (nom.tag (b'e' ∷ [])) r.0)
        (λ s. ok (s.0, dictionary (collect_into empty s.1.0))))

  unfoldable pub parse_type : ℕ → Parser Bencode
  unfolding parse_int parse_list parse_dictionary parse_bytestring
  parse_type zero i = panic
  parse_type (suc depth) i =
      nom.alt
        (parse_int
          ∷ parse_list (parse_type depth)
          ∷ parse_dictionary (parse_type depth)
          ∷ parse_bytestring
          ∷ [])
        i

  -- What is left of the input is dropped.
  unfoldable pub parse_bencode : ℕ → Bytes → Outcome Error Bencode
  unfolding parse_type
  parse_bencode depth i = elim (parse_type depth i) [
    | ok r ↦ ok r.1
    | err e ↦ err (bencode_parse (nom.to_string e))
    | panic ↦ panic
  ]

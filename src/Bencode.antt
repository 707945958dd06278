-- ===== src/Bencode.antt =====
-- src/file/bencode.rs, the values and their encoder; src/file/error.rs.
pub mod Decimal
pub mod Dict
pub mod Nom
pub mod Parser
pub mod Choice
pub mod Valid
pub mod Ordered
pub mod Reading
pub mod RoundTrip
pub mod Ensures
pub mod Total
pub mod Ascii
use bentorrent.Prelude.{ℕ, List, [], ◌∷◌, ◌++◌, ℤ, length}
use bentorrent.Torrent.{Bytes}
use bentorrent.Bencode.Decimal.{decimal, show_int}

-- `String` is its UTF-8 bytes.
pub data Error : Type 0 where
  missing : Bytes → Error
  v1_pieces_byte_len_wrong wrong_type : Error
  bencode_parse : Bytes → Error

-- `struct ByteString { elements: &[u8] }`, whose order is that of its bytes.
abbrev pub ByteString : Type 0
ByteString = Bytes

-- `BenList` is `Vec<Bencode>`; `DictT` is a BTreeMap, the list of its entries in the order of their
-- keys.
mutual
  pub data Bencode : Type 0 where
    int : ℤ → Bencode
    byte_string : ByteString → Bencode
    list : BenList → Bencode
    dictionary : DictT → Bencode

  pub data BenList : Type 0 where
    nil : BenList
    cons : Bencode → BenList → BenList

  pub data DictT : Type 0 where
    empty : DictT
    entry : ByteString → Bencode → DictT → DictT

unfoldable pub encode_int : ℤ → Bytes
encode_int i = b'i' ∷ (show_int i ++ b'e' ∷ [])

unfoldable pub encode_bs : ByteString → Bytes
encode_bs bs = (decimal (length bs) ++ b':' ∷ []) ++ bs

-- `encode_items` and `encode_entries` are the loops of `encode_list` and `encode_dictionary`, whose
-- bodies stand in the clauses of `encode`.
unfoldable mutual
  unfolding encode_int encode_bs

  pub encode : Bencode → Bytes
  encode (int i) = encode_int i
  encode (byte_string bs) = encode_bs bs
  encode (list l) = b'l' ∷ (encode_items l ++ b'e' ∷ [])
  encode (dictionary d) = b'd' ∷ (encode_entries d ++ b'e' ∷ [])

  pub encode_items : BenList → Bytes
  encode_items nil = []
  encode_items (cons bencode l) = encode bencode ++ encode_items l

  pub encode_entries : DictT → Bytes
  encode_entries empty = []
  encode_entries (entry k v d) = encode_bs k ++ (encode v ++ encode_entries d)

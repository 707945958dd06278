-- ===== src/TrackerResponse.antt =====
-- src/model/tracker.rs: the answer of a tracker, from its bencoded value. `IpAddr::from_str` is a
-- parameter, which gives the text of its error when there is no address.
pub mod Entries
pub mod Reads
use bentorrent.Prelude.{
  ◌⊎◌, inl, inr, ℕ, ◌-◌, ◌%◌, ◌^◌, ℤ, pos, negsuc, List, [], ◌∷◌, Option, none, some,
}
use bentorrent.Outcome.{Outcome, ok, err, panic}
use bentorrent.Torrent.{Bytes}
use bentorrent.Text.{from_utf8_lossy, text}
use bentorrent.Bencode.{
  Bencode, BenList, Error, missing, wrong_type, bencode_parse, list, dictionary, nil, cons,
}
use bentorrent.Bencode.Dict.{dict_get, map_dict_keys}
use bentorrent.Metainfo.{get_int, get_bytes}

-- An address is its octets, or its 16-bit segments.
pub data IpAddr : Type 0 where
  v4 : List ℕ → IpAddr
  v6 : List ℕ → IpAddr

pub data SocketAddr : Type 0 where
  v4 : List ℕ → (port : ℕ) → SocketAddr
  v6 : List ℕ → (port flowinfo scope_id : ℕ) → SocketAddr

pub record TrackerPeer : Type 0 where
  pub address : IpAddr
  pub port : ℕ

pub record TrackerResponse : Type 0 where
  pub interval : ℤ
  pub peers : List TrackerPeer
  pub complete : Option ℤ
  pub incomplete : Option ℤ

unfoldable pub socket_addr : TrackerPeer → SocketAddr
socket_addr peer = elim peer.address [
  | v4 ip ↦ SocketAddr.v4 ip peer.port
  | v6 ip ↦ SocketAddr.v6 ip peer.port 0 0
]

-- `as u16` of an i64: the low 16 bits in two's complement.
abbrev pub to_u16 : ℤ → ℕ
to_u16 (pos n) = n % 2 ^ 16
to_u16 (negsuc n) = 2 ^ 16 - 1 - n % 2 ^ 16

abbrev pub get_list : Option Bencode → Option BenList
get_list (some (list l)) = some l
get_list _ = none

module _ (from_str : Bytes → Bytes ⊎ IpAddr) where
  unfoldable pub peer_of : Option Bytes → Option ℤ → Outcome Error TrackerPeer
  peer_of (some ip) (some port) = elim (from_str (from_utf8_lossy ip)) [
    | inl message ↦ err (bencode_parse message)
    | inr address ↦ ok (record { address = address; port = to_u16 port })
  ]
  peer_of _ _ = err (missing (text "missing peerid, ip or port"))

  unfoldable pub peer_try_from : Bencode → Outcome Error TrackerPeer
  unfolding peer_of map_dict_keys dict_get
  peer_try_from (dictionary dict) =
      let dict = map_dict_keys dict in
      peer_of (get_bytes (dict_get (text "ip") dict)) (get_int (dict_get (text "port") dict))
  peer_try_from _ = err wrong_type

  -- `map(..).flatten().collect()`: an entry that is no peer is passed over.
  unfoldable pub peers_of : BenList → List TrackerPeer
  unfolding peer_try_from
  peers_of nil = []
  peers_of (cons peer l) = elim (peer_try_from peer) [
    | ok p ↦ p ∷ peers_of l
    | err e ↦ peers_of l
    | panic ↦ peers_of l
  ]

  unfoldable pub response_of :
      Option ℤ → Option BenList → Option ℤ → Option ℤ → Outcome Error TrackerResponse
  unfolding peers_of
  response_of (some interval) (some peers) complete incomplete = ok (record {
    interval = interval;
    peers = peers_of peers;
    complete = complete;
    incomplete = incomplete;
  })
  response_of _ _ complete incomplete = err wrong_type

  unfoldable pub response_try_from : Bencode → Outcome Error TrackerResponse
  unfolding response_of map_dict_keys dict_get
  response_try_from (dictionary dict) =
      let dict = map_dict_keys dict in
      response_of (get_int (dict_get (text "interval") dict))
        (get_list (dict_get (text "peers") dict)) (get_int (dict_get (text "complete") dict))
        (get_int (dict_get (text "incomplete") dict))
  response_try_from _ = err wrong_type

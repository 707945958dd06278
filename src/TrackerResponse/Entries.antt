-- ===== src/TrackerResponse/Entries.antt =====
-- src/model/tracker.rs: the entries of the list of peers, and which of them are peers.
use bentorrent.Prelude.{
  ◌≡◌, refl, ap, ◌∙◌, ℤ, List, [], ◌∷◌, Option, none, some, All, inl, inr, ◌⊎◌,
}
use bentorrent.Outcome.{ok, err}
use bentorrent.Torrent.{Bytes}
use bentorrent.Text.{from_utf8_lossy, text}
use bentorrent.Bencode.{
  Bencode, BenList, DictT, Error, missing, wrong_type, bencode_parse, int, byte_string, list,
  dictionary, nil, cons,
}
use bentorrent.Bencode.Dict.{dict_get, map_dict_keys}
use bentorrent.Bencode.Valid.{AllValid, IsValid}
use bentorrent.Metainfo.{get_int, get_bytes}
use bentorrent.TrackerResponse.{to_u16, IpAddr, TrackerPeer, peer_of, peer_try_from, peers_of}

-- An entry of the list of peers: a dictionary that gives an address and a port, whatever else it
-- holds, or anything else.
pub data Entry : Type 0 where
  peer : (d : DictT) (ip : Bytes) (address : IpAddr) (port : ℤ) → Entry
  other : Bencode → Entry

abbrev pub entry_value : Entry → Bencode
entry_value (peer d ip address port) = dictionary d
entry_value (other b) = b

abbrev pub listed : List Entry → BenList
listed [] = nil
listed (e ∷ es) = cons (entry_value e) (listed es)

abbrev pub addresses : List Entry → List TrackerPeer
addresses [] = []
addresses (peer d ip address port ∷ es) =
    record { address = address; port = to_u16 port } ∷ addresses es
addresses (other b ∷ es) = addresses es

-- A value that gives no address and port.
abbrev pub IsNoPeer : (Bytes → Bytes ⊎ IpAddr) → Bencode → Type 0
IsNoPeer from_str (dictionary d) =
    (get_bytes (dict_get (text "ip") (map_dict_keys d)) ≡ none)
    ⊎ ((get_int (dict_get (text "port") (map_dict_keys d)) ≡ none)
        ⊎ ((ip : Bytes) × (message : Bytes) × (dict_get (text "ip") (map_dict_keys d)
              ≡ some (byte_string ip))
            × (from_str (from_utf8_lossy ip) ≡ inl message)))
IsNoPeer from_str (int i) = Unit {0}
IsNoPeer from_str (byte_string s) = Unit {0}
IsNoPeer from_str (list l) = Unit {0}

module _ (from_str : Bytes → Bytes ⊎ IpAddr) where
  -- A peer is any valid dictionary that has, with its keys read as text, a byte string under `ip`
  -- that denotes the address and an integer under `port`. The other entries are the refused values:
  -- no dictionaries, or without one of the two, or with a text that denotes no address.
  abbrev pub IsEntry : Entry → Type 0
  IsEntry (peer d ip address port) =
      IsValid (dictionary d)
      × (dict_get (text "ip") (map_dict_keys d) ≡ some (byte_string ip))
      × (dict_get (text "port") (map_dict_keys d) ≡ some (int port))
      × (from_str (from_utf8_lossy ip) ≡ inr address)
  IsEntry (other b) = IsValid b × IsNoPeer from_str b

  peer_try_from-peer :
      (d : DictT) (ip : Bytes) (address : IpAddr) (port : ℤ)
      → IsEntry (peer d ip address port)
      → peer_try_from from_str (dictionary d)
        ≡ ok (record { address = address; port = to_u16 port })
  unfolding peer_try_from peer_of
  peer_try_from-peer d ip address port (v, has_ip, has_port, denotes) =
      rw (has_ip, has_port, denotes, peer_try_from, peer_of) refl

  peer_of-no_ip : (port : Option ℤ) → (e : Error) × (peer_of from_str none port ≡ err e)
  unfolding peer_of
  peer_of-no_ip port = (missing (text "missing peerid, ip or port"), refl)

  peer_of-no_port : (ip : Option Bytes) → (e : Error) × (peer_of from_str ip none ≡ err e)
  unfolding peer_of
  peer_of-no_port none = (missing (text "missing peerid, ip or port"), refl)
  peer_of-no_port (some ip) = (missing (text "missing peerid, ip or port"), refl)

  peer_of-no_address :
      (ip message : Bytes) (port : Option ℤ)
      → from_str (from_utf8_lossy ip) ≡ inl message
      → (e : Error) × (peer_of from_str (some ip) port ≡ err e)
  unfolding peer_of
  peer_of-no_address ip message none h = (missing (text "missing peerid, ip or port"), refl)
  peer_of-no_address ip message (some port) h = (bencode_parse message, rw (h, peer_of) refl)

  -- What gives no address and port is refused.
  peer_try_from-refuses :
      (b : Bencode) → IsNoPeer from_str b → (e : Error) × (peer_try_from from_str b ≡ err e)
  unfolding peer_try_from
  peer_try_from-refuses (int i) h = (wrong_type, refl)
  peer_try_from-refuses (byte_string s) h = (wrong_type, refl)
  peer_try_from-refuses (list l) h = (wrong_type, refl)
  peer_try_from-refuses (dictionary d) (inl no_ip) =
      let port = get_int (dict_get (text "port") (map_dict_keys d)) in
      let (e, refused) = peer_of-no_ip port in
      (e, ap (λ ip. peer_of from_str ip port) no_ip ∙ refused)
  peer_try_from-refuses (dictionary d) (inr (inl no_port)) =
      let ip = get_bytes (dict_get (text "ip") (map_dict_keys d)) in
      let (e, refused) = peer_of-no_port ip in (e, ap (peer_of from_str ip) no_port ∙ refused)
  peer_try_from-refuses (dictionary d) (inr (inr (ip, message, has_ip, no_address))) =
      let port = get_int (dict_get (text "port") (map_dict_keys d)) in
      let (e, refused) = peer_of-no_address ip message port no_address in
      (e, ap (λ v. peer_of from_str (get_bytes v) port) has_ip ∙ refused)

  pub peers_of-listed :
      (es : List Entry) → All IsEntry es → peers_of from_str (listed es) ≡ addresses es
  unfolding peers_of
  peers_of-listed [] h = refl
  peers_of-listed (peer d ip address port ∷ es) h =
      rw (peer_try_from-peer d ip address port h.0, peers_of)
        (ap (◌∷◌ (record { address = address; port = to_u16 port })) (peers_of-listed es h.1))
  peers_of-listed (other b ∷ es) h =
      let (e, refused) = peer_try_from-refuses b h.0.1 in
      rw (refused, peers_of) (peers_of-listed es h.1)

  -- Every valid value is an entry of one of the two kinds.
  pub entry_of : (b : Bencode) → IsValid b → (e : Entry) × ((entry_value e ≡ b) × IsEntry e)
  entry_of (int i) v = (other (int i), (refl, (v, tt)))
  entry_of (byte_string s) v = (other (byte_string s), (refl, (v, tt)))
  entry_of (list l) v = (other (list l), (refl, (v, tt)))
  entry_of (dictionary d) v =
      by_values (dict_get (text "ip") m) (dict_get (text "port") m) refl refl
    where
      m : DictT
      m = map_dict_keys d

      Covered : Type 0
      Covered = (e : Entry) × ((entry_value e ≡ dictionary d) × IsEntry e)

      no_ip : get_bytes (dict_get (text "ip") m) ≡ none → Covered
      no_ip h = (other (dictionary d), (refl, (v, inl h)))

      no_port : get_int (dict_get (text "port") m) ≡ none → Covered
      no_port h = (other (dictionary d), (refl, (v, inr (inl h))))

      by_address :
          (ip : Bytes) (port : ℤ) (r : Bytes ⊎ IpAddr)
          → from_str (from_utf8_lossy ip) ≡ r
          → dict_get (text "ip") m ≡ some (byte_string ip)
          → dict_get (text "port") m ≡ some (int port)
          → Covered
      by_address ip port (inl message) r e f =
          (other (dictionary d), (refl, (v, inr (inr (ip, message, e, r)))))
      by_address ip port (inr address) r e f = (peer d ip address port, (refl, (v, e, f, r)))

      by_port :
          (ip : Bytes) (port : Option Bencode)
          → dict_get (text "ip") m ≡ some (byte_string ip)
          → dict_get (text "port") m ≡ port
          → Covered
      by_port ip none e f = no_port (ap get_int f)
      by_port ip (some (int port)) e f = by_address ip port (from_str (from_utf8_lossy ip)) refl e f
      by_port ip (some (byte_string s)) e f = no_port (ap get_int f)
      by_port ip (some (list l)) e f = no_port (ap get_int f)
      by_port ip (some (dictionary d')) e f = no_port (ap get_int f)

      by_values :
          (ip port : Option Bencode)
          → dict_get (text "ip") m ≡ ip
          → dict_get (text "port") m ≡ port
          → Covered
      by_values none port e f = no_ip (ap get_bytes e)
      by_values (some (int i)) port e f = no_ip (ap get_bytes e)
      by_values (some (byte_string ip)) port e f = by_port ip port e f
      by_values (some (list l)) port e f = no_ip (ap get_bytes e)
      by_values (some (dictionary d')) port e f = no_ip (ap get_bytes e)

  -- A list of valid values is a list of entries.
  pub entries_of :
      (bs : BenList) → AllValid bs → (es : List Entry) × ((listed es ≡ bs) × All IsEntry es)
  entries_of nil v = ([], (refl, tt))
  entries_of (cons b bs) v =
      let (e, (same, is)) = entry_of b v.0 in
      let (es, (all, are)) = entries_of bs v.1 in
      (e ∷ es, ((λ i. cons (same i) (all i)), (is, are)))

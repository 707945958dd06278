-- ===== src/Protocol.antt =====
-- src/peer/protocol.rs: the handshake and the messages of the peer protocol, and their encoding.
pub mod Binds
pub mod Frames
pub mod RoundTrip
pub mod Incomplete
pub mod Handshakes
use bentorrent.Prelude.{
  ℕ, ◌+◌, ◌-◌, ◌^◌, ◌==◌, ltb, if◌then◌else◌, List, [], ◌∷◌, length, none, some, to_u32, add_u32,
  sub_usize, Bool, true, false,
}
use bentorrent.Outcome.{Outcome, ok, err, panic}
use bentorrent.Torrent.{Bytes, PeerRequestedPiece}
use bentorrent.BytesApi.{BytesApi, TryGetError}

pub data ProtocolError : Type 0 where
  try_get_error : TryGetError → ProtocolError
  bad_id : ProtocolError

pub record PeerContext : Type 0 where
  pub info_hash : Bytes
  pub peer_id : Bytes

pub record Handshake : Type 0 where
  pub peer_ctx : PeerContext

pub data FlagMessages : Type 0 where
  choke unchoke interested not_interested : FlagMessages

pub data Messages : Type 0 where
  keep_alive : Messages
  flag : FlagMessages → Messages
  have : (piece_index : ℕ) → Messages
  bit_field : (bitfield : Bytes) → Messages
  request : (index begin len : ℕ) → Messages
  piece : (index begin : ℕ) (block : Bytes) → Messages
  cancel : (index begin len : ℕ) → Messages

unfoldable pub interest_msg : Bool → Messages
interest_msg true = flag interested
interest_msg false = flag not_interested

-- `flag as u8`
unfoldable pub flag_id : FlagMessages → ℕ
flag_id choke = 0
flag_id unchoke = 1
flag_id interested = 2
flag_id not_interested = 3

-- `FlagMessages::try_from`
unfoldable pub flag_of_id : ℕ → Outcome ProtocolError FlagMessages
flag_of_id id =
    if id == 0
    then ok choke
    else if id == 1
    then ok unchoke
    else if id == 2
    then ok interested
    else if id == 3
    then ok not_interested
    else err bad_id

unfoldable pub of_requested_piece : PeerRequestedPiece → Messages
of_requested_piece v = request v.index v.begin v.length

-- "BitTorrent protocol"
abbrev pub handshake_protocol_id : Bytes
handshake_protocol_id =
    66 ∷ 105 ∷ 116 ∷ 84 ∷ 111 ∷ 114 ∷ 114 ∷ 101 ∷ 110 ∷ 116 ∷ 32 ∷ 112 ∷ 114 ∷ 111 ∷ 116 ∷ 111 ∷ 99
    ∷ 111 ∷ 108 ∷ []

-- A decoder reads from the front of a buffer and returns what is left of it.
abbrev pub Decoder : Type 0 → Type 0
Decoder A = Bytes → Outcome ProtocolError (A × Bytes)

infixl 5 ◌>>=◌ ◌>>◌
abbrev pub ◌>>=◌ : {A B : Type 0} → Decoder A → (A → Decoder B) → Decoder B
◌>>=◌ m f b = elim (m b) [ ok (a, rest) ↦ f a rest | err e ↦ err e | panic ↦ panic ]

abbrev pub ◌>>◌ : {B : Type 0} → Decoder (Unit {0}) → Decoder B → Decoder B
m >> k = m >>= λ _. k

abbrev pub pure : {A : Type 0} → A → Decoder A
pure a b = ok (a, b)

abbrev pub fail : {A : Type 0} → ProtocolError → Decoder A
fail e b = err e

-- `?` on a result of the buffer.
abbrev pub lift : {A : Type 0} → (Bytes → Outcome TryGetError (A × Bytes)) → Decoder A
lift m b = elim (m b) [ ok r ↦ ok r | err e ↦ err (try_get_error e) | panic ↦ panic ]

-- `vec![0; n]` panics above the largest allocation.
unfoldable pub zeroed : ℕ → Decoder (Unit {0})
zeroed n b = if ltb n (2 ^ 63) then ok (tt, b) else panic

module _ (api : BytesApi) where
  open api use {
    put_u8, put_u32, put_u64, put_slice, try_get_u8, try_get_u32, try_copy_to_slice, advance,
  }

  unfoldable pub encode_handshake : Handshake → Bytes → Bytes
  encode_handshake h b0 =
      let b1 = put_u8 b0 (length handshake_protocol_id) in
      let b2 = put_slice b1 handshake_protocol_id in
      let b3 = put_u64 b2 0 in
      let b4 = put_slice b3 h.peer_ctx.info_hash in put_slice b4 h.peer_ctx.peer_id

  -- `advance`, which panics on a short buffer.
  unfoldable pub skip : ℕ → Decoder (Unit {0})
  skip n b = elim (advance b n) [ none ↦ panic | some rest ↦ ok (tt, rest) ]

  unfoldable pub get_u8 : Decoder ℕ
  get_u8 = lift try_get_u8

  unfoldable pub get_u32 : Decoder ℕ
  get_u32 = lift try_get_u32

  -- A new vector, filled from the buffer.
  unfoldable pub get_vec : ℕ → Decoder Bytes
  get_vec n = do zeroed n; lift (λ b. try_copy_to_slice b n)

  unfoldable pub decode_handshake : Decoder Handshake
  decode_handshake = do
    p_str_len ← get_u8
    p_str ← get_vec p_str_len
    skip 8
    info_hash ← get_vec 20
    peer_id ← get_vec 20
    pure (record { peer_ctx = record { info_hash = info_hash; peer_id = peer_id } })

  unfoldable pub encode : Messages → Bytes → Bytes
  encode keep_alive b = put_u32 b 0
  encode (flag f) b = put_u8 (put_u32 b 1) (flag_id f)
  encode (have piece_index) b = put_u32 (put_u8 (put_u32 b 5) 4) piece_index
  encode (bit_field bitfield) b =
      put_slice (put_u8 (put_u32 b (add_u32 1 (to_u32 (length bitfield)))) 5) bitfield
  encode (request index begin len) b =
      put_u32 (put_u32 (put_u32 (put_u8 (put_u32 b 13) 6) index) begin) len
  encode (piece index begin block) b =
      put_slice
        (put_u32 (put_u32 (put_u8 (put_u32 b (add_u32 9 (to_u32 (length block)))) 7) index) begin)
        block
  encode (cancel index begin len) b =
      put_u32 (put_u32 (put_u32 (put_u8 (put_u32 b 13) 8) index) begin) len

  unfoldable pub decode_have : Decoder Messages
  decode_have = do piece_index ← get_u32; pure (have piece_index)

  unfoldable pub decode_bit_field : ℕ → Decoder Messages
  decode_bit_field len = do bitfield ← get_vec (sub_usize len 1); pure (bit_field bitfield)

  unfoldable pub decode_request : Decoder Messages
  decode_request = do
    index ← get_u32
    begin ← get_u32
    len ← get_u32
    pure (request index begin len)

  unfoldable pub decode_piece : ℕ → Decoder Messages
  decode_piece len = do
    index ← get_u32
    begin ← get_u32
    block ← get_vec (sub_usize len 9)
    pure (piece index begin block)

  unfoldable pub decode_cancel : Decoder Messages
  decode_cancel = do index ← get_u32; begin ← get_u32; len ← get_u32; pure (cancel index begin len)

  unfoldable pub decode_flag : ℕ → Decoder Messages
  decode_flag id b = elim (flag_of_id id) [ ok f ↦ ok (flag f, b) | err e ↦ err e | panic ↦ panic ]

  -- The match on the message id.
  unfoldable pub decode_body : ℕ → ℕ → Decoder Messages
  decode_body len id =
      if id == 4
      then decode_have
      else if id == 5
      then decode_bit_field len
      else if id == 6
      then decode_request
      else if id == 7
      then decode_piece len
      else if id == 8
      then decode_cancel
      else if len == 1
      then decode_flag id
      else fail bad_id

  unfoldable pub check_remaining : ℕ → Decoder (Unit {0})
  check_remaining len b =
      if ltb (length b) len
      then err (try_get_error (record { requested = len; available = length b }))
      else ok (tt, b)

  unfoldable pub decode_frame : ℕ → Decoder Messages
  unfolding decode_body
  decode_frame len = do check_remaining len; id ← get_u8; decode_body len id

  unfoldable pub decode : Decoder Messages
  unfolding decode_frame
  decode = do len ← get_u32; if len == 0 then pure keep_alive else decode_frame len

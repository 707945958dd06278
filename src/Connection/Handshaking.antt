-- ===== src/Connection/Handshaking.antt =====
-- src/peer/net.rs, `do_handshake`: the handshake and the messages behind it.
use bentorrent.Protocol.Binds.{bind_err}
use bentorrent.Prelude.{
  subst, length-append, ℕ, ◌≤◌, ◌≡◌, refl, ap, ◌∙◌, arith, leb, List, [], ◌∷◌, ◌++◌, length, All,
  true,
}
use bentorrent.Outcome.{ok, err}
use bentorrent.Torrent.{Bytes, PeerId, V1Torrent}
use bentorrent.BytesApi.{BytesApi}
use bentorrent.Protocol.{
  lift, get_u8, Handshake, Messages, encode_handshake, decode_handshake, encode, decode,
}
use bentorrent.Protocol.Frames.{IsEncodable}
use bentorrent.Protocol.Handshakes.{
  IsSized, handshake_bytes, encode_handshake-eq, decode_handshake-encode_handshake,
}
use bentorrent.Connection.{
  try_get_error, message, read_msg, read_loop, attempt, parsed, waits, attempt_of,
}
use bentorrent.Connection.Reassembly.{concat, IsChunk, Returns, read_msg-encode}
use bentorrent.Connection.Peering.{
  end_write, after_write, Connection, done, write_bytes, read_handshake, do_handshake, with_input,
}

-- The handshake that we send.
abbrev pub ours : V1Torrent → PeerId → Handshake
ours torrent our_id = record {
  peer_ctx = record { info_hash = torrent.info.info_hash; peer_id = our_id };
}

module _ (api : BytesApi) where
  attempt-handshake :
      (h : Handshake) (rest : Bytes) (needs : ℕ)
      → IsSized h
      → needs ≤ length (encode_handshake api h [])
      → attempt (decode_handshake api) (encode_handshake api h [] ++ rest) needs ≡ parsed h rest
  unfolding attempt
  attempt-handshake h rest needs sized few =
      let enough : leb needs (length (encode_handshake api h [] ++ rest)) ≡ true =
        ground (arith, few, length-append (encode_handshake api h []) rest) in
      rw (enough, decode_handshake-encode_handshake api h rest sized) refl

  attempt-nothing : attempt (decode_handshake api) [] 0 ≡ waits 1
  unfolding attempt decode_handshake get_u8
  attempt-nothing =
      let short : get_u8 api [] ≡ err (try_get_error (record { requested = 1; available = 0 })) =
        rw (api.try_get_u8_short, lift) refl in
      ap attempt_of (bind_err (get_u8 api) _ [] short)

  read_loop-parsed :
      (buffer rest : Bytes) (needs : ℕ) (chunks : List Bytes) (h : Handshake)
      → attempt (decode_handshake api) buffer needs ≡ parsed h rest
      → read_loop (decode_handshake api) buffer needs chunks ≡ message h rest chunks
  unfolding read_loop
  read_loop-parsed buffer rest needs [] h e = rw (e, read_loop) refl
  read_loop-parsed buffer rest needs (chunk ∷ chunks) h e = rw (e, read_loop) refl

  read_loop-next :
      (x : ℕ) (xs : Bytes) (chunks : List Bytes)
      → read_loop (decode_handshake api) [] 0 ((x ∷ xs) ∷ chunks)
        ≡ read_loop (decode_handshake api) (x ∷ xs) 1 chunks
  unfolding read_loop
  read_loop-next x xs chunks = rw (attempt-nothing, read_loop) refl

  -- A chunk that begins with a whole handshake, read into an empty buffer.
  read_msg-handshake :
      (h : Handshake) (rest : Bytes) (chunks : List Bytes)
      → IsSized h
      → read_msg (decode_handshake api) [] ((encode_handshake api h [] ++ rest) ∷ chunks)
        ≡ message h rest chunks
  unfolding read_msg handshake_bytes
  read_msg-handshake h rest chunks sized =
      let bytes = encode_handshake-eq api h [] in
      let long : 1 ≤ length (encode_handshake api h []) = rw bytes (omega arith) in
      let reads = attempt-handshake h rest 1 sized long in
      rw bytes (
        read_loop-next 19 _ chunks
        ∙ read_loop-parsed (handshake_bytes h ++ rest) rest 1 chunks h
            (subst (λ b. attempt (decode_handshake api) (b ++ rest) 1 ≡ parsed h rest) bytes reads))

  write_bytes_done :
      (conn : Connection) (b : Bytes)
      → conn.socket b ≡ (b, done)
      → write_bytes conn b ≡ (record conn { written = conn.written ++ b }, ok tt)
  unfolding write_bytes end_write
  write_bytes_done conn b e = ap (λ s. end_write conn s.0 s.1) e

  read_handshake-message :
      (conn : Connection) (h : Handshake) (buffer : Bytes) (chunks : List Bytes)
      → read_msg (decode_handshake api) conn.buffer conn.chunks ≡ message h buffer chunks
      → read_handshake api conn ≡ ok (h, with_input conn buffer chunks)
  unfolding read_handshake
  read_handshake-message conn h buffer chunks e = rw (e, read_handshake) refl

  -- On a new connection whose socket takes our handshake, and which delivers in its first chunk the
  -- handshake of the other side and what follows it: `do_handshake` has sent exactly our handshake and
  -- gives the other one. If what follows it, in that chunk and the next, which are not empty, begins
  -- with an encoded message, a read on the connection then gives that message, and what follows it in
  -- the stream stays: nothing is lost between the two decoders.
  pub do_handshake-then_read :
      (torrent : V1Torrent) (our_id : PeerId) (conn : Connection) (theirs : Handshake)
      (rest : Bytes) (chunks : List Bytes) (m : Messages) (more : Bytes)
      → conn.buffer ≡ []
      → conn.chunks ≡ (encode_handshake api theirs [] ++ rest) ∷ chunks
      → conn.socket (encode_handshake api (ours torrent our_id) [])
        ≡ (encode_handshake api (ours torrent our_id) [], done)
      → IsSized theirs
      → IsEncodable m
      → All IsChunk chunks
      → rest ++ concat chunks ≡ encode api m [] ++ more
      → (conn' : Connection) × ((do_handshake api torrent our_id conn ≡ ok (theirs, conn'))
          × ((conn'.written ≡ conn.written ++ encode_handshake api (ours torrent our_id) [])
              × Returns m more (read_msg (decode api) conn'.buffer conn'.chunks)))
  unfolding do_handshake after_write
  do_handshake-then_read torrent our_id conn theirs rest chunks m more nothing arrives sends sized
        fits full e =
      let sent = encode_handshake api (ours torrent our_id) [] in
      let sent_conn : Connection = record conn { written = conn.written ++ sent } in
      let reads : read_msg (decode_handshake api) conn.buffer conn.chunks
          ≡ message theirs rest chunks =
        rw (nothing, arrives) (read_msg-handshake theirs rest chunks sized) in
      let joins : do_handshake api torrent our_id conn
          ≡ ok (theirs, with_input sent_conn rest chunks) =
        ap (λ w. after_write api w.0 w.1) (write_bytes_done conn sent sends)
        ∙ read_handshake-message sent_conn theirs rest chunks reads in
      (
        with_input sent_conn rest chunks,
        (joins, (refl, read_msg-encode api m rest chunks more fits full e)),
      )

-- ===== src/Protocol/Handshakes.antt =====
-- src/peer/protocol.rs: the handshake, encoded and decoded.
use bentorrent.Prelude.{refl, sym, ◌∙◌, append_assoc, ◌≡◌, ◌<◌, ◌++◌, ◌∷◌, [], length, arith}
use bentorrent.Outcome.{panic, ok}
use bentorrent.Torrent.{Bytes}
use bentorrent.BytesApi.{u64_bytes, BytesApi, u32_bytes}
use bentorrent.Protocol.{
  get_vec, get_u8, skip, Handshake, handshake_protocol_id, encode_handshake, decode_handshake,
}
use bentorrent.Protocol.Binds.{bind_panic, bind_ok}
use bentorrent.Protocol.RoundTrip.{get_u8-cons, get_vec-append}

-- The two 20-byte identifiers.
abbrev pub IsSized : Handshake → Type 0
IsSized h = (length h.peer_ctx.info_hash ≡ 20) × (length h.peer_ctx.peer_id ≡ 20)

-- The 68 bytes of the protocol's handshake.
unfoldable pub handshake_bytes : Handshake → Bytes
handshake_bytes h =
    19
    ∷ (handshake_protocol_id
        ++ (0 ∷ 0 ∷ 0 ∷ 0 ∷ 0 ∷ 0 ∷ 0 ∷ 0 ∷ (h.peer_ctx.info_hash ++ h.peer_ctx.peer_id)))

module _ (api : BytesApi) where
  open api use {put_u8_appends, put_slice_appends, put_u64_appends, advance_skips, advance_panics}

  pub encode_handshake-eq :
      (h : Handshake) (b : Bytes) → encode_handshake api h b ≡ b ++ handshake_bytes h
  unfolding encode_handshake handshake_bytes u64_bytes u32_bytes
  encode_handshake-eq h b = simp (put_u8_appends, put_slice_appends, put_u64_appends, append_assoc)

  skip_eight : (rest : Bytes) → skip api 8 (0 ∷ 0 ∷ 0 ∷ 0 ∷ 0 ∷ 0 ∷ 0 ∷ 0 ∷ rest) ≡ ok (tt, rest)
  unfolding skip
  skip_eight rest =
      rw (advance_skips (0 ∷ 0 ∷ 0 ∷ 0 ∷ 0 ∷ 0 ∷ 0 ∷ 0 ∷ rest) 8 (omega arith), skip) refl

  -- A handshake with two 20-byte identifiers, encoded into an empty buffer and followed by any
  -- bytes, decodes to itself and leaves exactly those bytes.
  pub decode_handshake-encode_handshake :
      (h : Handshake) (rest : Bytes)
      → IsSized h
      → decode_handshake api (encode_handshake api h [] ++ rest) ≡ ok (h, rest)
  unfolding decode_handshake
  decode_handshake-encode_handshake h rest sized =
      let info = h.peer_ctx.info_hash in
      let peer = h.peer_ctx.peer_id in
      rw (encode_handshake-eq h []) (
        unfold handshake_bytes in
        bind_ok (get_u8 api) _ _ (get_u8-cons api 19 _)
        ∙ bind_ok (get_vec api 19) _ _ (
            get_vec-append api handshake_protocol_id
              (0 ∷ 0 ∷ 0 ∷ 0 ∷ 0 ∷ 0 ∷ 0 ∷ 0 ∷ ((info ++ peer) ++ rest)) 19 refl (omega arith))
        ∙ bind_ok (skip api 8) _ _ (skip_eight ((info ++ peer) ++ rest))
        ∙ rw (append_assoc info peer rest) (
            bind_ok (get_vec api 20) _ _
              (get_vec-append api info (peer ++ rest) 20 (sym sized.0) (omega arith))
            ∙ bind_ok (get_vec api 20) _ _
                (get_vec-append api peer rest 20 (sym sized.1) (omega arith))))

  -- A handshake that ends inside the reserved bytes, after a protocol name of the announced
  -- length, panics the decoder.
  pub decode_handshake_panics :
      (name rest : Bytes)
      → length name < 256
      → length rest < 8
      → decode_handshake api (length name ∷ (name ++ rest)) ≡ panic
  unfolding decode_handshake
  decode_handshake_panics name rest h short =
      bind_ok (get_u8 api) _ _ (get_u8-cons api (length name) _)
      ∙ bind_ok (get_vec api (length name)) _ _
          (get_vec-append api name rest (length name) refl (omega arith))
      ∙ bind_panic (skip api 8) _ rest (unfold skip in rw (advance_panics rest 8 short, skip) refl)

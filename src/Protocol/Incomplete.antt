-- ===== src/Protocol/Incomplete.antt =====
-- src/peer/protocol.rs: the decoders on input that is cut short, and on frames that are too short
-- for their message.
use bentorrent.Prelude.{
  refl, sub_usize, ◌+◌, ◌∙◌, zero, suc, ap, ◌∷◌, length-take, length-append, false, inr, inl,
  lt-or-le, true, [], ◌-◌, ◌++◌, ◌≤◌, ltb, ◌≡◌, ◌^◌, take, if◌then◌else◌, ◌<◌, length, ℕ, arith,
}
use bentorrent.Outcome.{panic, err}
use bentorrent.Torrent.{Bytes}
use bentorrent.BytesApi.{BytesApi, TryGetError, u32_bytes}
use bentorrent.Protocol.{
  zeroed, get_vec, decode_piece, decode_body, lift, try_get_error, encode, check_remaining,
  decode_frame, get_u32, decode, Messages,
}
use bentorrent.Protocol.Binds.{bind_panic, bind_ok, bind_err}
use bentorrent.Protocol.RoundTrip.{
  payload-fits, get_u32-bytes, decode_frame_body, body-size, decode_length, keep_alive-or,
}
use bentorrent.Protocol.Frames.{length-u32_bytes, encode-eq-frame, body, frame, IsEncodable}

-- What the decoder reports of the first `k` bytes of a message.
unfoldable pub shortage : Messages → ℕ → TryGetError
shortage m k =
    if ltb k 4
    then record { requested = 4; available = k }
    else record { requested = length (body m); available = k - 4 }

take-prefix :
    (xs ys : Bytes) (k : ℕ) → length xs ≤ k → take k (xs ++ ys) ≡ xs ++ take (k - length xs) ys
take-prefix [] ys k h = ap (λ n. take n ys) (omega arith)
take-prefix (x ∷ xs) ys zero h = absurd (omega arith)
take-prefix (x ∷ xs) ys (suc k) h =
    ap (λ zs. x ∷ zs) (take-prefix xs ys k (omega arith))
    ∙ ap (λ n. x ∷ (xs ++ take n ys)) (omega arith)

module _ (api : BytesApi) where
  open api use {try_get_u32_short}

  get_u32-short :
      (b : Bytes)
      → length b < 4
      → get_u32 api b ≡ err (try_get_error (record { requested = 4; available = length b }))
  unfolding get_u32
  get_u32-short b h = rw (try_get_u32_short b h, lift)

  decode_frame-short :
      (n : ℕ) (b : Bytes)
      → length b < n
      → decode_frame api n b ≡ err (try_get_error (record { requested = n; available = length b }))
  unfolding decode_frame check_remaining
  decode_frame-short n b h =
      let short : ltb (length b) n ≡ true = ground arith in
      bind_err (check_remaining api n) _ b (rw short)

  body-fits : (m : Messages) → IsEncodable m → length (body m) < 2 ^ 32
  body-fits m h = elim (keep_alive-or api m) [
    | inl e ↦ rw e (unfold body in omega arith)
    | inr ne ↦ rw (body-size api m ne) (omega (arith, payload-fits api m h))
  ]

  -- The first `k` bytes, up to the length prefix and past it.
  in_prefix :
      (m : Messages) (k : ℕ)
      → k < 4
      → k < length (frame m)
      → decode api (take k (frame m)) ≡ err (try_get_error (shortage m k))
  unfolding decode shortage
  in_prefix m k lt short =
      let len : length (take k (frame m)) ≡ k = omega (arith, length-take k (frame m)) in
      let first : ltb k 4 ≡ true = ground arith in
      rw first (
        bind_err (get_u32 api) _ (take k (frame m)) (get_u32-short (take k (frame m)) (omega arith))
        ∙ ap (λ n. err (try_get_error (record { requested = 4; available = n }))) len)

  past_prefix :
      (m : Messages) (k : ℕ)
      → IsEncodable m
      → 4 ≤ k
      → k < length (frame m)
      → decode api (take k (frame m)) ≡ err (try_get_error (shortage m k))
  unfolding shortage frame
  past_prefix m k h le short =
      let prefix = u32_bytes (length (body m)) in
      let size : length prefix ≡ 4 = length-u32_bytes (length (body m)) in
      let inside : k - 4 < length (body m) = omega (arith, length-append prefix (body m)) in
      let len : length (take (k - 4) (body m)) ≡ k - 4 =
        omega (arith, length-take (k - 4) (body m)) in
      let second : ltb k 4 ≡ false = ground arith in
      rw (second, take-prefix prefix (body m) k (omega arith), size)
        (decode_length api (length (body m)) (take (k - 4) (body m)) (omega arith) (body-fits m h)
          ∙ decode_frame-short (length (body m)) (take (k - 4) (body m)) (omega arith)
          ∙ ap (λ n. err (try_get_error (record { requested = length (body m); available = n })))
              len)

  -- The first k bytes of an encoded message, short of its last byte at least, are never decoded
  -- and never panic: the decoder reports how many bytes it asked for and how many were there.
  pub decode_incomplete :
      (m : Messages) (k : ℕ)
      → IsEncodable m
      → k < length (frame m)
      → decode api (take k (encode api m [])) ≡ err (try_get_error (shortage m k))
  decode_incomplete m k h short = rw (encode-eq-frame api m [] h) (elim (lt-or-le k 4) [
    | inl lt ↦ in_prefix m k lt short
    | inr le ↦ past_prefix m k h le short
  ])

  -- A frame with the id of a piece message whose length prefix is above 0 and below 9, with 8
  -- bytes or more after the id in the buffer, panics the decoder.
  pub decode_short_piece :
      (len i b : ℕ) (rest : Bytes)
      → 0 < len
      → len < 9
      → i < 2 ^ 32
      → b < 2 ^ 32
      → decode api (u32_bytes len ++ (7 ∷ (u32_bytes i ++ (u32_bytes b ++ rest)))) ≡ panic
  unfolding decode_body decode_piece get_vec zeroed
  decode_short_piece len i b rest p h hi hb =
      let enough : len ≤ length (u32_bytes i ++ (u32_bytes b ++ rest)) + 1 = omega (
        arith,
        length-append (u32_bytes i) (u32_bytes b ++ rest),
        length-append (u32_bytes b) rest,
        length-u32_bytes i,
        length-u32_bytes b,
      ) in
      let huge : ltb (sub_usize len 9) (2 ^ 63) ≡ false = ground arith in
      decode_length api len _ p (omega arith)
      ∙ decode_frame_body api len 7 (u32_bytes i ++ (u32_bytes b ++ rest)) enough
      ∙ bind_ok (get_u32 api) _ _ (get_u32-bytes api i (u32_bytes b ++ rest) hi)
      ∙ bind_ok (get_u32 api) _ _ (get_u32-bytes api b rest hb)
      ∙ bind_panic (get_vec api (sub_usize len 9)) _ rest
          (bind_panic (zeroed (sub_usize len 9)) _ rest (rw (huge, zeroed) refl))

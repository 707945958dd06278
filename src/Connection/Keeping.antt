-- ===== src/Connection/Keeping.antt =====
-- src/peer/net.rs, `run_connection`: that the processor is handed what a peer sends is kept by writes
-- and by the handing over of a message.
use bentorrent.Prelude.{
  ℕ, ◌≤◌, ◌≡◌, refl, ◌∙◌, arith, ◌&&◌, Bool, false, inl, inr, ◌⊎◌, Bool-cases, List, [], ◌∷◌, ◌++◌,
  length, All, append_assoc,
}
use bentorrent.Outcome.{Outcome, ok, err, panic}
use bentorrent.Torrent.{Bytes}
use bentorrent.BytesApi.{BytesApi}
use bentorrent.Protocol.{Messages, encode}
use bentorrent.Protocol.Frames.{frame, IsEncodable}
use bentorrent.Connection.Reassembly.{concat, IsChunk}
use bentorrent.Connection.Peering.{
  Connection, ConnError, Sent, done, timed_out, broken, end_write, write_msg,
}
use bentorrent.Connection.Running.{
  Status, running, returned, Link, deliver, after_send, send_out, poll_recv,
}

-- What a peer sends for some messages.
abbrev pub encode_all : BytesApi → List Messages → Bytes
encode_all api [] = []
encode_all api (m ∷ ms) = encode api m [] ++ encode_all api ms

-- The read waits for no more than the next message.
abbrev pub IsFit : List Messages → ℕ → Type 0
IsFit [] needs = Unit {0}
IsFit (m ∷ left) needs = needs ≤ length (frame m)

-- The buffer and the rest of the stream hold the messages `left`.
abbrev pub Carries : BytesApi → List Messages → Bytes → List Bytes → ℕ → Bool → Type 0
Carries api left buffer chunks needs read_over =
    All IsEncodable left
    × All IsChunk chunks
    × (buffer ++ concat chunks ≡ encode_all api left)
    × IsFit left needs
    × ((read_over ≡ false) ⊎ (left ≡ []))

-- While the connection is run.
abbrev pub IsHeld : Status → BytesApi → List Messages → Bytes → List Bytes → ℕ → Bool → Type 0
IsHeld running api left buffer chunks needs read_over =
    Carries api left buffer chunks needs read_over
IsHeld (returned r) api left buffer chunks needs read_over = Unit {0}

-- What the processor was handed, and then `left`, is what the peer sends; while the connection is
-- run, `left` is in the buffer and the rest of the stream.
abbrev pub Relays : BytesApi → List Messages → Link → Type 0
Relays api ms l =
    (left : List Messages) × (l.inbox ++ left ≡ ms)
    × IsHeld l.status api left l.conn.buffer l.conn.chunks l.needs l.read_over

pub IsFit-zero : (left : List Messages) → IsFit left 0
IsFit-zero [] = tt
IsFit-zero (m ∷ left) = omega arith

pub nothing_left :
    (buffer : Bytes) (chunks : List Bytes)
    → All IsChunk chunks
    → buffer ++ concat chunks ≡ []
    → (buffer ≡ []) × (chunks ≡ [])
nothing_left (x ∷ xs) chunks full e = absurd (cc)
nothing_left [] [] full e = (refl, refl)
nothing_left [] ([] ∷ chunks) full e = absurd (ground (arith, full.0))
nothing_left [] ((x ∷ xs) ∷ chunks) full e = absurd (cc)

module _ (api : BytesApi) (ms : List Messages) where
  held :
      (s : Status) (left : List Messages) (buffer : Bytes) (chunks : List Bytes) (needs : ℕ)
      (read_over : Bool)
      → Carries api left buffer chunks needs read_over
      → IsHeld s api left buffer chunks needs read_over
  held running left buffer chunks needs read_over c = c
  held (returned r) left buffer chunks needs read_over c = tt

  after_send-Relays :
      (l : Link) (o : Outcome ConnError (Unit {0}))
      → Relays api ms l
      → Relays api ms (after_send l o)
  after_send-Relays l (ok u) r = r
  after_send-Relays l (err e) (left, e', h) = (left, e', tt)
  after_send-Relays l panic (left, e', h) = (left, e', tt)

  -- A write leaves the buffer and the stream.
  write_msg-input :
      (conn : Connection) (m : Messages)
      → ((write_msg api conn m).0.buffer ≡ conn.buffer)
        × ((write_msg api conn m).0.chunks ≡ conn.chunks)
  unfolding write_msg end_write
  write_msg-input conn m = ends (conn.socket (encode api m [])).1
    where
      ends :
          (s : Sent)
          → ((end_write conn (conn.socket (encode api m [])).0 s).0.buffer ≡ conn.buffer)
            × ((end_write conn (conn.socket (encode api m [])).0 s).0.chunks ≡ conn.chunks)
      ends done = (refl, refl)
      ends timed_out = (refl, refl)
      ends (broken e) = (refl, refl)

  pub send_out-Relays :
      (l : Link) (msg : Messages) (outbox : List Messages) (left : List Messages)
      → l.inbox ++ left ≡ ms
      → Carries api left l.conn.buffer l.conn.chunks l.needs l.read_over
      → Relays api ms (send_out api l msg outbox)
  unfolding send_out
  send_out-Relays l msg outbox left e (h, full, s, fit, on) =
      let w = write_msg api l.conn msg in
      let (b, c) = write_msg-input l.conn msg in
      let full' : All IsChunk w.0.chunks = rw c full in
      let s' : w.0.buffer ++ concat w.0.chunks ≡ encode_all api left = rw (b, c) s in
      after_send-Relays (record l { conn = w.0; needs = 0; read_over = false; outbox = outbox }) w.1
        (
          left,
          e,
          held l.status left w.0.buffer w.0.chunks 0 false
              (h, full', s', IsFit-zero left, inl refl),
        )

  pub poll_recv-Relays :
      (l : Link) (left : List Messages)
      → l.inbox ++ left ≡ ms
      → Carries api left l.conn.buffer l.conn.chunks l.needs l.read_over
      → Relays api ms (poll_recv api l)
  unfolding poll_recv
  poll_recv-Relays l left e c = by_outbox l.outbox refl
    where
      h : IsHeld l.status api left l.conn.buffer l.conn.chunks l.needs l.read_over
      h = held l.status left l.conn.buffer l.conn.chunks l.needs l.read_over c

      by_outbox : (outbox : List Messages) → l.outbox ≡ outbox → Relays api ms (poll_recv api l)
      by_outbox (msg ∷ outbox) o = rw (o, poll_recv) (send_out-Relays l msg outbox left e c)
      by_outbox [] o = elim (Bool-cases (l.hung_up && l.read_over)) [
        | inl breaks ↦ rw (o, poll_recv, breaks) (left, e, tt)
        | inr waits_on ↦ rw (o, poll_recv, waits_on) (left, e, h)
      ]

  pub deliver-Relays :
      (l : Link) (msg : Messages) (buffer : Bytes) (chunks : List Bytes) (left : List Messages)
      → l.inbox ++ (msg ∷ left) ≡ ms
      → All IsEncodable left
      → All IsChunk chunks
      → buffer ++ concat chunks ≡ encode_all api left
      → Relays api ms (deliver l msg buffer chunks)
  unfolding deliver
  deliver-Relays l msg buffer chunks left e h full s = elim (Bool-cases l.accepting) [
    | inl accepts ↦
        rw (accepts, deliver)
          (
            left,
            append_assoc l.inbox (msg ∷ []) left ∙ e,
            held l.status left buffer chunks 0 false (h, full, s, IsFit-zero left, inl refl),
          )
    | inr gone ↦ rw (gone, deliver) (msg ∷ left, e, tt)
  ]

-- ===== src/Connection/Draining.antt =====
-- src/peer/net.rs, `run_connection`: every message of a peer is handed over in the end.
use bentorrent.Prelude.{
  length-append, ℕ, ◌+◌, ◌≤◌, ◌≡◌, refl, sym, ap, ◌∙◌, arith, subst, if◌then◌else◌, Bool, true,
  false, inl, inr, List, [], ◌∷◌, ◌++◌, length, replicate, All, append-nil, append_assoc,
}
use bentorrent.Torrent.{Bytes}
use bentorrent.BytesApi.{BytesApi}
use bentorrent.Protocol.{Messages, decode}
use bentorrent.Protocol.Frames.{IsEncodable, encode-eq-frame}
use bentorrent.Connection.Reassembly.{concat, IsChunk}
use bentorrent.Connection.Peering.{Connection, with_input}
use bentorrent.Connection.Running.{
  Polled, gives, pending, over, panics, poll_read, running, returned, Link, run_connection, deliver,
  after_read, poll_read_branch, poll, Event, polls, step, run, poll_recv,
}
use bentorrent.Connection.Relaying.{IsProgress, poll_read-IsProgress}
use bentorrent.Connection.Delivery.{run-run_connection-Relays}
use bentorrent.Connection.Keeping.{encode_all, Carries, IsHeld, IsFit-zero}

-- The state after a message is handed over.
abbrev handed : Link → Messages → Bytes → List Bytes → Link
handed l m buffer chunks = record l {
  conn = with_input l.conn buffer chunks;
  needs = 0;
  read_over = false;
  inbox = l.inbox ++ m ∷ [];
}

module _ (api : BytesApi) where
  -- A poll that begins with the read, when all that is to come has arrived.
  step_hands :
      (l : Link) (m : Messages) (left : List Messages) (arrived : ℕ)
      → l.status ≡ running
      → l.accepting ≡ true
      → Carries api (m ∷ left) l.conn.buffer l.conn.chunks l.needs l.read_over
      → length l.conn.chunks ≤ arrived
      → (buffer : Bytes) × (chunks : List Bytes) × (step api l (polls true arrived)
          ≡ handed l m buffer chunks)
        × Carries api left buffer chunks 0 false
        × (length chunks ≤ arrived)
  unfolding step poll poll_read_branch after_read
  step_hands l m left arrived runs accepts (h, full, s, fit, on) all = by_polled p refl (
      poll_read-IsProgress api m h.0 arrived 0 arrived l.conn.chunks l.conn.buffer l.needs
        (encode_all api left) full fit
        (s ∙ ap (λ b. b ++ encode_all api left) (encode-eq-frame api m [] h.0)) (omega arith) all)
    where
      p : Polled Messages
      p = poll_read (decode api) l.conn.buffer l.needs arrived l.conn.chunks

      reads : l.read_over ≡ false
      reads = elim on [ inl o ↦ o | inr none ↦ absurd (cc) ]

      branch : Bool → Link
      branch read_over = if read_over then poll_recv api l else after_read api l p

      turn : step api l (polls true arrived) ≡ after_read api l p
      turn =
          ap (λ s. elim s as (λ x. Link) [ running ↦ poll api l true arrived | returned r ↦ l ])
            runs
          ∙ ap branch reads

      by_polled :
          (q : Polled Messages)
          → p ≡ q
          → IsProgress arrived 0 m (encode_all api left) q
          → (buffer : Bytes) × (chunks : List Bytes) × (step api l (polls true arrived)
              ≡ handed l m buffer chunks)
            × Carries api left buffer chunks 0 false
            × (length chunks ≤ arrived)
      by_polled (gives msg buffer chunks) e (same, s, full, size) =
          let ends : deliver l msg buffer chunks ≡ handed l m buffer chunks =
            rw (accepts, deliver, same) refl in
          (
            buffer,
            chunks,
            turn ∙ ap (after_read api l) e ∙ ends,
            (h.1, full, s, IsFit-zero left, inl refl),
            size,
          )
      by_polled (pending buffer needs chunks) e (s, fit, full, some_left, none_left) =
          absurd (omega (arith, some_left, none_left))
      by_polled (over buffer chunks) e b = elim b [ ]
      by_polled panics e b = elim b [ ]

  run-replicate :
      (left : List Messages) (l : Link) (arrived : ℕ)
      → l.status ≡ running
      → l.accepting ≡ true
      → Carries api left l.conn.buffer l.conn.chunks l.needs l.read_over
      → length l.conn.chunks ≤ arrived
      → (run api l (replicate (length left) (polls true arrived))).inbox ≡ l.inbox ++ left
  unfolding run
  run-replicate [] l arrived runs accepts c all = sym (append-nil l.inbox)
  run-replicate (m ∷ left) l arrived runs accepts c all =
      let (buffer, chunks, turn, c', size) = step_hands l m left arrived runs accepts c all in
      let polled = replicate (length left) (polls true arrived) in
      ap (λ l'. (run api l' polled).inbox) turn
      ∙ run-replicate left (handed l m buffer chunks) arrived runs accepts c' size
      ∙ append_assoc l.inbox (m ∷ []) left

-- What an announced connection has come to after some events.
abbrev pub reached : BytesApi → Connection → List Event → Link
reached api conn events = run api (run_connection conn true) events

-- A peer sends messages whose fields fit their u32s, cut into chunks that are not empty, and the
-- connection is announced. After any events that leave the connection running and the processor
-- receiving: as many polls as messages are missing, each with the rest of the stream arrived and
-- with the read polled first, bring all messages to the processor, once each and in their order.
pub run-run_connection-Drains :
    (api : BytesApi) (ms : List Messages) (conn : Connection) (events : List Event) (arrived : ℕ)
    → All IsEncodable ms
    → All IsChunk conn.chunks
    → conn.buffer ++ concat conn.chunks ≡ encode_all api ms
    → (reached api conn events).status ≡ running
    → (reached api conn events).accepting ≡ true
    → length (reached api conn events).conn.chunks ≤ arrived
    → (n : ℕ) × (length (reached api conn events).inbox + n ≡ length ms)
      × ((run api (reached api conn events) (replicate n (polls true arrived))).inbox ≡ ms)
run-run_connection-Drains api ms conn events arrived h full s runs accepts all =
    let l = reached api conn events in
    let (left, e, held) = run-run_connection-Relays api ms conn true events h full s in
    let c : Carries api left l.conn.buffer l.conn.chunks l.needs l.read_over =
      subst (λ s. IsHeld s api left l.conn.buffer l.conn.chunks l.needs l.read_over) runs held in
    (
      length left,
      sym (length-append l.inbox left) ∙ ap length e,
      run-replicate api left l arrived runs accepts c all ∙ e,
    )

-- ===== src/Connection/Delivery.antt =====
-- src/peer/net.rs, `run_connection`: the messages of a peer are handed to the processor once each
-- and in their order.
use bentorrent.Prelude.{
  subst, if◌then◌else◌, ℕ, ◌≡◌, refl, sym, ap, ◌∙◌, arith, Bool, true, false, inl, inr, Bool-cases,
  List, [], ◌∷◌, ◌++◌, length, All,
}
use bentorrent.BytesApi.{BytesApi}
use bentorrent.Protocol.{Messages, decode}
use bentorrent.Protocol.Frames.{IsEncodable, encode-eq-frame}
use bentorrent.Connection.Reassembly.{concat, IsChunk}
use bentorrent.Connection.Peering.{Connection}
use bentorrent.Connection.Running.{
  no_longer_reading, still_reading, panics, hangs_up, stops, sends, polls, link, Event, run,
  run_connection, step, Polled, gives, pending, over, poll_read, Status, running, returned, Link,
  poll_recv, after_read, poll_read_branch, poll,
}
use bentorrent.Connection.Relaying.{IsProgress, IsIdle, poll_read-IsProgress, poll_read-IsIdle}
use bentorrent.Connection.Keeping.{
  encode_all, IsFit, Carries, IsHeld, Relays, IsFit-zero, nothing_left, poll_recv-Relays,
  deliver-Relays, send_out-Relays,
}

module _ (api : BytesApi) (ms : List Messages) where
  progress-Relays :
      (l : Link) (m : Messages) (left : List Messages) (p : Polled Messages)
      → l.inbox ++ (m ∷ left) ≡ ms
      → All IsEncodable (m ∷ left)
      → l.read_over ≡ false
      → IsProgress (length l.conn.chunks) (length l.conn.chunks) m (encode_all api left) p
      → Relays api ms (after_read api l p)
  unfolding after_read
  progress-Relays l m left (gives msg buffer chunks) e h on (same, s, full, size) =
      deliver-Relays api ms l msg buffer chunks left (rw same e) h.1 full s
  progress-Relays l m left (over buffer chunks) e h on p = elim p [ ]
  progress-Relays l m left panics e h on p = elim p [ ]
  progress-Relays l m left (pending buffer needs chunks) e h on (s, fit, full, more, few) =
      poll_recv-Relays api ms (still_reading l buffer needs chunks) (m ∷ left) e (
        h,
        full,
        s ∙ ap (λ b. b ++ encode_all api left) (sym (encode-eq-frame api m [] h.0)),
        fit,
        inl on,
      )

  idle-Relays :
      (l : Link) (p : Polled Messages)
      → l.inbox ++ [] ≡ ms
      → IsIdle p
      → Relays api ms (after_read api l p)
  unfolding after_read
  idle-Relays l (gives msg buffer chunks) e p = elim p [ ]
  idle-Relays l panics e p = elim p [ ]
  idle-Relays l (pending buffer needs chunks) e (b, c) =
      poll_recv-Relays api ms (still_reading l buffer needs chunks) [] e
        (tt, rw c tt, rw (b, c) refl, tt, inr refl)
  idle-Relays l (over buffer chunks) e (b, c) =
      poll_recv-Relays api ms (no_longer_reading l buffer chunks) [] e
        (tt, rw c tt, rw (b, c) refl, tt, inr refl)

  poll_read_branch-Relays :
      (l : Link) (arrived : ℕ) (left : List Messages)
      → l.inbox ++ left ≡ ms
      → Carries api left l.conn.buffer l.conn.chunks l.needs l.read_over
      → Relays api ms (poll_read_branch api l arrived)
  unfolding poll_read_branch
  poll_read_branch-Relays l arrived left e (h, full, s, fit, on) = elim (Bool-cases l.read_over) [
    | inl ended ↦
        let r = poll_recv-Relays api ms l left e (h, full, s, fit, on) in
        subst (Relays api ms) (sym (ap branch ended)) r
    | inr reads ↦
        let r = by_left left e h s fit reads in subst (Relays api ms) (sym (ap branch reads)) r
  ]
    where
      p : Polled Messages
      p = poll_read (decode api) l.conn.buffer l.needs arrived l.conn.chunks

      branch : Bool → Link
      branch read_over = if read_over then poll_recv api l else after_read api l p

      by_left :
          (left : List Messages)
          → l.inbox ++ left ≡ ms
          → All IsEncodable left
          → l.conn.buffer ++ concat l.conn.chunks ≡ encode_all api left
          → IsFit left l.needs
          → l.read_over ≡ false
          → Relays api ms (after_read api l p)
      by_left [] e h s fit reads =
          let (b, c) = nothing_left l.conn.buffer l.conn.chunks full s in
          idle-Relays l p e (rw (b, c) (poll_read-IsIdle api l.needs arrived))
      by_left (m ∷ left) e h s fit reads = progress-Relays l m left p e h reads (
          poll_read-IsProgress api m h.0 (length l.conn.chunks) (length l.conn.chunks) arrived
            l.conn.chunks l.conn.buffer l.needs (encode_all api left) full fit
            (s ∙ ap (λ b. b ++ encode_all api left) (encode-eq-frame api m [] h.0)) (omega arith)
            (omega arith))

  poll-Relays :
      (l : Link) (read_first : Bool) (arrived : ℕ) (left : List Messages)
      → l.inbox ++ left ≡ ms
      → Carries api left l.conn.buffer l.conn.chunks l.needs l.read_over
      → Relays api ms (poll api l read_first arrived)
  unfolding poll
  poll-Relays l true arrived left e c = poll_read_branch-Relays l arrived left e c
  poll-Relays l false arrived left e c = by_outbox l.outbox refl
    where
      by_outbox :
          (outbox : List Messages) → l.outbox ≡ outbox → Relays api ms (poll api l false arrived)
      by_outbox [] o = rw (o, poll) (poll_read_branch-Relays l arrived left e c)
      by_outbox (msg ∷ outbox) o = rw (o, poll) (send_out-Relays api ms l msg outbox left e c)

  step-Relays : (l : Link) (e : Event) → Relays api ms l → Relays api ms (step api l e)
  unfolding step
  step-Relays l (polls read_first arrived) (left, e, h) = by_status l.status refl h
    where
      by_status :
          (s : Status)
          → l.status ≡ s
          → IsHeld s api left l.conn.buffer l.conn.chunks l.needs l.read_over
          → Relays api ms (step api l (polls read_first arrived))
      by_status running o h = rw (o, step) (poll-Relays l read_first arrived left e h)
      by_status (returned r) o h =
          rw (o, step)
            (
              left,
              e,
              subst (λ s. IsHeld s api left l.conn.buffer l.conn.chunks l.needs l.read_over) (sym o)
                  h,
            )
  step-Relays l (sends msg) r = elim (Bool-cases l.hung_up) [
    | inl gone ↦ rw (gone, step) r
    | inr there ↦ rw (there, step) r
  ]
  step-Relays l hangs_up r = r
  step-Relays l stops r = r

  pub run-Relays :
      (l : Link) (events : List Event) → Relays api ms l → Relays api ms (run api l events)
  unfolding run
  run-Relays l [] r = r
  run-Relays l (e ∷ events) r = run-Relays (step api l e) events (step-Relays l e r)

-- A peer sends messages whose fields fit their u32s, cut into chunks that are not empty, a part of
-- them perhaps in the buffer already. Whatever the order of the polls, and whatever the processor
-- sends and the socket takes: what the processor is handed is a beginning of these messages, each of
-- them once and in their order, and while the connection is run the buffer and the rest of the stream
-- hold the others.
pub run-run_connection-Relays :
    (api : BytesApi) (ms : List Messages) (conn : Connection) (announced : Bool)
    (events : List Event)
    → All IsEncodable ms
    → All IsChunk conn.chunks
    → conn.buffer ++ concat conn.chunks ≡ encode_all api ms
    → Relays api ms (run api (run_connection conn announced) events)
unfolding run_connection
run-run_connection-Relays api ms conn true events h full s =
    run-Relays api ms (link conn) events (ms, refl, (h, full, s, IsFit-zero ms, inl refl))
run-run_connection-Relays api ms conn false events h full s =
    run-Relays api ms (run_connection conn false) events (ms, refl, tt)

-- ===== src/Connection/Outgoing.antt =====
-- src/peer/net.rs, `run_connection`: what the processor sends is written to the socket once each and
-- in its order.
use bentorrent.Prelude.{
  ℕ, ◌≡◌, refl, sym, ap, ◌∙◌, subst, Bool, true, false, ◌&&◌, Bool-cases, if◌then◌else◌, inl, inr,
  List, [], ◌∷◌, ◌++◌, append-nil, append_assoc,
}
use bentorrent.Outcome.{ok}
use bentorrent.Torrent.{Bytes}
use bentorrent.BytesApi.{BytesApi}
use bentorrent.Protocol.{Messages, encode, decode}
use bentorrent.Connection.Peering.{Connection, Socket, done, write_msg, write_bytes, end_write}
use bentorrent.Connection.Running.{
  Polled, gives, pending, over, panics, poll_read, Status, running, returned, Link, link,
  run_connection, deliver, after_send, send_out, poll_recv, after_read, poll_read_branch, poll,
  Event, polls, sends, hangs_up, stops, step, run, still_reading, no_longer_reading,
}
use bentorrent.Connection.Keeping.{encode_all}

-- What the processor sends before it drops its sender.
abbrev pub sent_before : (hung_up : Bool) → List Event → List Messages
sent_before true events = []
sent_before false [] = []
sent_before false (polls read_first arrived ∷ events) = sent_before false events
sent_before false (sends msg ∷ events) = msg ∷ sent_before false events
sent_before false (hangs_up ∷ events) = []
sent_before false (stops ∷ events) = sent_before false events

-- A socket that takes all that is written.
abbrev pub IsOpen : Socket → Type 0
IsOpen socket = (b : Bytes) → socket b ≡ (b, done)

-- The messages `all` are written after `before`, but for those in the outbox.
abbrev pub Writes : BytesApi → Bytes → List Messages → Link → Type 0
Writes api before all l =
    (out : List Messages) × (out ++ l.outbox ≡ all)
    × (l.conn.written ≡ before ++ encode_all api out)

encode_all-append :
    (api : BytesApi) (ms ns : List Messages)
    → encode_all api (ms ++ ns) ≡ encode_all api ms ++ encode_all api ns
encode_all-append api [] ns = refl
encode_all-append api (m ∷ ms) ns =
    ap (λ b. encode api m [] ++ b) (encode_all-append api ms ns)
    ∙ sym (append_assoc (encode api m []) (encode_all api ms) (encode_all api ns))

module _ (api : BytesApi) (before : Bytes) (hung_up : Bool) where
  -- The state and its open socket.
  abbrev Keeps : List Messages → Link → Type 0
  Keeps all l = (l.hung_up ≡ hung_up) × IsOpen l.conn.socket × Writes api before all l

  write_msg-IsOpen :
      (conn : Connection) (m : Messages)
      → IsOpen conn.socket
      → write_msg api conn m ≡ (record conn { written = conn.written ++ encode api m [] }, ok tt)
  unfolding write_msg write_bytes end_write
  write_msg-IsOpen conn m h = ap (λ s. end_write conn s.0 s.1) (h (encode api m []))

  send_out-Keeps :
      (all : List Messages) (l : Link) (msg : Messages) (outbox : List Messages)
      → l.outbox ≡ msg ∷ outbox
      → Keeps all l
      → Keeps all (send_out api l msg outbox)
  unfolding send_out
  send_out-Keeps all l msg outbox o (hung, h, (out, e, w)) =
      let l' = record l { needs = 0; read_over = false; outbox = outbox } in
      let sent = write_msg-IsOpen l.conn msg h in
      let more : out ++ msg ∷ outbox ≡ all = subst (λ o. out ++ o ≡ all) o e in
      let one : before ++ encode_all api (out ++ msg ∷ [])
          ≡ (before ++ encode_all api out) ++ encode api msg [] =
        ap (λ b. before ++ b)
          (encode_all-append api out (msg ∷ [])
            ∙ ap (λ b. encode_all api out ++ b) (append-nil (encode api msg [])))
        ∙ sym (append_assoc before (encode_all api out) (encode api msg [])) in
      subst (λ w. Keeps all (after_send (record l' { conn = w.0 }) w.1)) (sym sent)
        (
          hung,
          h,
          (
            out ++ msg ∷ [],
            append_assoc out (msg ∷ []) outbox ∙ more,
            ap (λ b. b ++ encode api msg []) w ∙ sym one,
          ),
        )

  poll_recv-Keeps : (all : List Messages) (l : Link) → Keeps all l → Keeps all (poll_recv api l)
  unfolding poll_recv
  poll_recv-Keeps all l k = by_outbox l.outbox refl
    where
      ends : Bool → Link
      ends b = if b then record l { status = returned (ok tt) } else l

      empty : l.outbox ≡ [] → poll_recv api l ≡ ends (l.hung_up && l.read_over)
      empty o =
          ap
            (λ outbox. elim outbox as (λ x. Link) [
              | [] ↦ ends (l.hung_up && l.read_over)
              | msg ∷ rest ↦ send_out api l msg rest
            ])
            o

      by_outbox : (outbox : List Messages) → l.outbox ≡ outbox → Keeps all (poll_recv api l)
      by_outbox (msg ∷ outbox) o = rw (o, poll_recv) (send_out-Keeps all l msg outbox o k)
      by_outbox [] o = elim (Bool-cases (l.hung_up && l.read_over)) [
        | inl breaks ↦ subst (Keeps all) (sym (empty o ∙ ap ends breaks)) k
        | inr waits_on ↦ subst (Keeps all) (sym (empty o ∙ ap ends waits_on)) k
      ]

  deliver-Keeps :
      (all : List Messages) (l : Link) (msg : Messages) (buffer : Bytes) (chunks : List Bytes)
      → Keeps all l
      → Keeps all (deliver l msg buffer chunks)
  unfolding deliver
  deliver-Keeps all l msg buffer chunks k = elim (Bool-cases l.accepting) [
    | inl accepts ↦ rw (accepts, deliver) k
    | inr gone ↦ rw (gone, deliver) k
  ]

  after_read-Keeps :
      (all : List Messages) (l : Link) (p : Polled Messages)
      → Keeps all l
      → Keeps all (after_read api l p)
  unfolding after_read
  after_read-Keeps all l (gives msg buffer chunks) k = deliver-Keeps all l msg buffer chunks k
  after_read-Keeps all l (pending buffer needs chunks) k =
      poll_recv-Keeps all (still_reading l buffer needs chunks) k
  after_read-Keeps all l (over buffer chunks) k =
      poll_recv-Keeps all (no_longer_reading l buffer chunks) k
  after_read-Keeps all l panics k = k

  poll_read_branch-Keeps :
      (all : List Messages) (l : Link) (arrived : ℕ)
      → Keeps all l
      → Keeps all (poll_read_branch api l arrived)
  unfolding poll_read_branch
  poll_read_branch-Keeps all l arrived k = elim (Bool-cases l.read_over) [
    | inl ended ↦ subst (Keeps all) (sym (ap branch ended)) (poll_recv-Keeps all l k)
    | inr reads ↦ subst (Keeps all) (sym (ap branch reads)) (after_read-Keeps all l p k)
  ]
    where
      p : Polled Messages
      p = poll_read (decode api) l.conn.buffer l.needs arrived l.conn.chunks

      branch : Bool → Link
      branch read_over = if read_over then poll_recv api l else after_read api l p

  poll-Keeps :
      (all : List Messages) (l : Link) (read_first : Bool) (arrived : ℕ)
      → Keeps all l
      → Keeps all (poll api l read_first arrived)
  unfolding poll
  poll-Keeps all l true arrived k = poll_read_branch-Keeps all l arrived k
  poll-Keeps all l false arrived k = by_outbox l.outbox refl
    where
      by_outbox :
          (outbox : List Messages) → l.outbox ≡ outbox → Keeps all (poll api l false arrived)
      by_outbox [] o = rw (o, poll) (poll_read_branch-Keeps all l arrived k)
      by_outbox (msg ∷ outbox) o = rw (o, poll) (send_out-Keeps all l msg outbox o k)

  polls-Keeps :
      (all : List Messages) (l : Link) (read_first : Bool) (arrived : ℕ)
      → Keeps all l
      → Keeps all (step api l (polls read_first arrived))
  unfolding step
  polls-Keeps all l read_first arrived k = by_status l.status refl
    where
      turn : Status → Link
      turn s = elim s as (λ x. Link) [ running ↦ poll api l read_first arrived | returned r ↦ l ]

      by_status : (s : Status) → l.status ≡ s → Keeps all (step api l (polls read_first arrived))
      by_status running o =
          subst (Keeps all) (sym (ap turn o)) (poll-Keeps all l read_first arrived k)
      by_status (returned r) o = subst (Keeps all) (sym (ap turn o)) k

module _ (api : BytesApi) (before : Bytes) where
  run-Keeps :
      (events : List Event) (hung_up : Bool) (all : List Messages) (l : Link)
      → Keeps api before hung_up all l
      → Writes api before (all ++ sent_before hung_up events) (run api l events)
  unfolding run step
  run-Keeps [] true all l (hung, h, k) = subst (λ a. Writes api before a l) (sym (append-nil all)) k
  run-Keeps [] false all l (hung, h, k) =
      subst (λ a. Writes api before a l) (sym (append-nil all)) k
  run-Keeps (polls read_first arrived ∷ events) true all l k =
      run-Keeps events true all (step api l (polls read_first arrived))
        (polls-Keeps api before true all l read_first arrived k)
  run-Keeps (polls read_first arrived ∷ events) false all l k =
      run-Keeps events false all (step api l (polls read_first arrived))
        (polls-Keeps api before false all l read_first arrived k)
  run-Keeps (sends msg ∷ events) true all l (hung, h, w) =
      run-Keeps events true all (step api l (sends msg)) (rw (hung, step) (refl, h, w))
  run-Keeps (sends msg ∷ events) false all l (hung, h, (out, e, w)) =
      let e' : out ++ (l.outbox ++ msg ∷ []) ≡ all ++ msg ∷ [] =
        sym (append_assoc out l.outbox (msg ∷ [])) ∙ ap (λ a. a ++ msg ∷ []) e in
      subst (λ a. Writes api before a (run api l (sends msg ∷ events)))
        (append_assoc all (msg ∷ []) (sent_before false events))
        (run-Keeps events false (all ++ msg ∷ []) (step api l (sends msg))
          (rw (hung, step) (refl, h, (out, e', w))))
  run-Keeps (hangs_up ∷ events) true all l (hung, h, w) =
      run-Keeps events true all (step api l hangs_up) (refl, h, w)
  run-Keeps (hangs_up ∷ events) false all l (hung, h, w) =
      run-Keeps events true all (step api l hangs_up) (refl, h, w)
  run-Keeps (stops ∷ events) true all l k = run-Keeps events true all (step api l stops) k
  run-Keeps (stops ∷ events) false all l k = run-Keeps events false all (step api l stops) k

-- Over a socket that takes all that is written, whatever the order of the polls and whatever the
-- peer sends: what an announced connection has written since is the encoding of the first messages
-- that the processor sent before it dropped its sender, and the others are in the outbox, each of
-- them once and in their order.
pub run-run_connection-Writes :
    (api : BytesApi) (conn : Connection) (events : List Event)
    → IsOpen conn.socket
    → Writes api conn.written (sent_before false events) (run api (run_connection conn true) events)
unfolding run_connection
run-run_connection-Writes api conn events h =
    run-Keeps api conn.written events false [] (link conn)
      (refl, h, ([], refl, sym (append-nil conn.written)))

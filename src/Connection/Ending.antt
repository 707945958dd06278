-- ===== src/Connection/Ending.antt =====
-- src/peer/net.rs, `run_connection`: the end of a stream and a message that cannot be decoded do not
-- end the loop by themselves.
use bentorrent.Prelude.{
  arith, length, ℕ, zero, suc, ◌≡◌, refl, ap, ◌∙◌, Bool, true, false, inl, inr, ◌⊎◌, List, [], ◌∷◌,
  All, leb,
}
use bentorrent.Outcome.{ok, err}
use bentorrent.Torrent.{Bytes}
use bentorrent.BytesApi.{BytesApi}
use bentorrent.Protocol.{Messages, decode, bad_id}
use bentorrent.Connection.{attempt, waits, broken}
use bentorrent.Connection.Peering.{Connection}
use bentorrent.Connection.Running.{
  Polled, pending, over, poll_read, running, returned, Link, run_connection, after_read, poll_recv,
  poll_read_branch, poll, Event, polls, sends, hangs_up, stops, step, run,
}
use bentorrent.Connection.Relaying.{attempt_nothing}

-- The stream has ended between two messages, or the decoder refuses what is in the buffer.
abbrev pub IsDead : BytesApi → Connection → Type 0
IsDead api conn = ((conn.buffer ≡ []) × (conn.chunks ≡ [])) ⊎ (decode api conn.buffer ≡ err bad_id)

abbrev pub IsPoll : Event → Type 0
IsPoll (polls read_first arrived) = Unit {0}
IsPoll (sends msg) = ⊥
IsPoll hangs_up = ⊥
IsPoll stops = ⊥

-- A connection that is run, whose processor has sent nothing.
abbrev quiet : Connection → ℕ → (read_over hung_up : Bool) → Link
quiet conn needs read_over hung_up = record {
  conn = conn;
  needs = needs;
  read_over = read_over;
  outbox = [];
  inbox = [];
  hung_up = hung_up;
  accepting = true;
  status = running;
}

-- A connection that is still run after some events, and returns at the first poll after the processor
-- hangs up.
abbrev pub Ends : BytesApi → Connection → List Event → Bool → ℕ → Type 0
Ends api conn events read_first arrived =
    let l = run api (run_connection conn true) events in
    (l.status ≡ running)
    × ((step api (step api l hangs_up) (polls read_first (suc arrived))).status ≡ returned (ok tt))

module _ (api : BytesApi) (conn : Connection) where
  abbrev polled : (needs arrived : ℕ) → Polled Messages
  polled needs arrived = poll_read (decode api) conn.buffer needs arrived conn.chunks

  -- No poll gives a message, and each poll but the first sight of the stream sees that it is over,
  -- where `Q` holds of what the read waits for.
  abbrev IsLost : (ℕ → Type 0) → Type 0
  IsLost Q =
      (needs arrived : ℕ)
      → Q needs
      → (polled needs arrived ≡ over conn.buffer conn.chunks)
        ⊎ ((arrived ≡ 0)
            × ((n : ℕ) × (polled needs arrived ≡ pending conn.buffer n conn.chunks) × Q n))

  ended-IsLost : conn.buffer ≡ [] → conn.chunks ≡ [] → IsLost (λ n. Unit {0})
  unfolding poll_read
  ended-IsLost b c needs arrived q = by_input arrived conn.chunks c
    where
      n : ℕ
      n = (attempt_nothing api needs).0

      waits_on : attempt (decode api) conn.buffer needs ≡ waits n
      waits_on = rw b (attempt_nothing api needs).1

      by_input :
          (k : ℕ) (chunks : List Bytes)
          → chunks ≡ []
          → (poll_read (decode api) conn.buffer needs k chunks ≡ over conn.buffer chunks)
            ⊎ ((k ≡ 0)
                × ((n : ℕ) × (poll_read (decode api) conn.buffer needs k chunks
                      ≡ pending conn.buffer n chunks)
                    × Unit {0}))
      by_input zero chunks e = inr (refl, (n, rw (waits_on, poll_read) refl, tt))
      by_input (suc k) [] e = inl (rw (waits_on, poll_read) refl)
      by_input (suc k) (chunk ∷ chunks) e = absurd (cc)

  refused-IsLost : decode api conn.buffer ≡ err bad_id → IsLost (λ n. n ≡ 0)
  unfolding attempt poll_read
  refused-IsLost e needs arrived q = inl (by_input arrived conn.chunks)
    where
      breaks : attempt (decode api) conn.buffer needs ≡ broken bad_id
      breaks =
          let tries : leb 0 (length conn.buffer) ≡ true = ground arith in
          rw (q, tries, attempt, e) refl

      by_input :
          (k : ℕ) (chunks : List Bytes)
          → poll_read (decode api) conn.buffer needs k chunks ≡ over conn.buffer chunks
      by_input zero chunks = rw (breaks, poll_read) refl
      by_input (suc k) [] = rw (breaks, poll_read) refl
      by_input (suc k) (chunk ∷ chunks) = rw (breaks, poll_read) refl

  quiet_turn :
      (needs : ℕ) (hung_up read_first : Bool) (arrived : ℕ)
      → step api (quiet conn needs false hung_up) (polls read_first arrived)
        ≡ after_read api (quiet conn needs false hung_up) (polled needs arrived)
  unfolding step poll poll_read_branch
  quiet_turn needs hung_up true arrived = refl
  quiet_turn needs hung_up false arrived = refl

  quiet_rest :
      (needs : ℕ) (hung_up read_first : Bool) (arrived : ℕ)
      → step api (quiet conn needs true hung_up) (polls read_first arrived)
        ≡ poll_recv api (quiet conn needs true hung_up)
  unfolding step poll poll_read_branch
  quiet_rest needs hung_up true arrived = refl
  quiet_rest needs hung_up false arrived = refl

  module _ (Q : ℕ → Type 0) (lost : IsLost Q) where
    -- A silent processor leaves the loop waiting.
    step-quiet :
        (needs : ℕ) (read_over read_first : Bool) (arrived : ℕ)
        → Q needs
        → (n : ℕ) × (on : Bool) × (step api
              (quiet conn needs read_over false)
              (polls read_first arrived)
            ≡ quiet conn n on false)
          × Q n
    unfolding after_read poll_recv
    step-quiet needs true read_first arrived q =
        (needs, true, quiet_rest needs false read_first arrived, q)
    step-quiet needs false read_first arrived q =
        let turn = quiet_turn needs false read_first arrived in
        elim (lost needs arrived q) [
          | inl e ↦ (needs, true, turn ∙ ap (after_read api (quiet conn needs false false)) e, q)
          | inr (z, (n, e, q')) ↦
              (n, false, turn ∙ ap (after_read api (quiet conn needs false false)) e, q')
        ]

    run-quiet :
        (events : List Event) (needs : ℕ) (read_over : Bool)
        → All IsPoll events
        → Q needs
        → (n : ℕ) × (on : Bool) × (run api (quiet conn needs read_over false) events
            ≡ quiet conn n on false)
          × Q n
    unfolding run
    run-quiet [] needs read_over polls_only q = (needs, read_over, refl, q)
    run-quiet (polls read_first arrived ∷ events) needs read_over polls_only q =
        let (n, on, e, q') = step-quiet needs read_over read_first arrived q in
        let (n', on', e', q'') = run-quiet events n on polls_only.1 q' in
        (n', on', ap (λ l. run api l events) e ∙ e', q'')
    run-quiet (sends msg ∷ events) needs read_over polls_only q = elim polls_only.0 [ ]
    run-quiet (hangs_up ∷ events) needs read_over polls_only q = elim polls_only.0 [ ]
    run-quiet (stops ∷ events) needs read_over polls_only q = elim polls_only.0 [ ]

    -- Once the processor has hung up, a poll that sees the end breaks the loop.
    quiet_end :
        (needs : ℕ) (read_over read_first : Bool) (arrived : ℕ)
        → Q needs
        → (step api (quiet conn needs read_over true) (polls read_first (suc arrived))).status
          ≡ returned (ok tt)
    unfolding after_read poll_recv
    quiet_end needs true read_first arrived q =
        ap (λ l. l.status) (quiet_rest needs true read_first (suc arrived))
    quiet_end needs false read_first arrived q =
        let turn = quiet_turn needs true read_first (suc arrived) in
        elim (lost needs (suc arrived) q) [
          | inl e ↦ ap (λ l. l.status) (turn ∙ ap (after_read api (quiet conn needs false true)) e)
          | inr (z, later) ↦ absurd (cc)
        ]

    lost_Ends :
        (events : List Event) (read_first : Bool) (arrived : ℕ)
        → All IsPoll events
        → Q 0
        → Ends api conn events read_first arrived
    unfolding run_connection run step
    lost_Ends events read_first arrived polls_only q =
        let (n, on, e, q') = run-quiet events 0 false polls_only q in
        let hung : step api (quiet conn n on false) hangs_up ≡ quiet conn n on true = refl in
        (
          ap (λ l. l.status) e,
          ap (λ l. (step api (step api l hangs_up) (polls read_first (suc arrived))).status) e
              ∙ quiet_end n on read_first arrived q',
        )

-- The stream has ended between two messages, or the decoder refuses what is in the buffer: however
-- often an announced connection is polled, it is still run while the processor sends nothing and
-- keeps its channels. It returns, without an error, at the first poll that looks at the stream after
-- the processor has hung up.
pub run-run_connection-Ends :
    (api : BytesApi) (conn : Connection) (events : List Event) (read_first : Bool) (arrived : ℕ)
    → IsDead api conn
    → All IsPoll events
    → Ends api conn events read_first arrived
run-run_connection-Ends api conn events read_first arrived (inl (b, c)) polls_only =
    lost_Ends api conn (λ n. Unit {0}) (ended-IsLost api conn b c) events read_first arrived
      polls_only tt
run-run_connection-Ends api conn events read_first arrived (inr e) polls_only =
    lost_Ends api conn (λ n. n ≡ 0) (refused-IsLost api conn e) events read_first arrived polls_only
      refl

-- ===== src/Examples/Running.antt =====
-- A connection that is run.
use bentorrent.Prelude.{
  ℕ, ◌+◌, ◌≡◌, refl, arith, true, false, inl, List, [], ◌∷◌, ◌++◌, length, replicate,
}
use bentorrent.BytesApi.Concrete.{bytes_api}
use bentorrent.BytesApi.{u32_bytes}
use bentorrent.Torrent.{Bytes}
use bentorrent.Protocol.{Messages, have, keep_alive, encode}
use bentorrent.Connection.Peering.{Connection, Socket, done, connect}
use bentorrent.Connection.Running.{hangs_up, run, step, run_connection, Event, polls, sends}
use bentorrent.Connection.Delivery.{run-run_connection-Relays}
use bentorrent.Connection.Keeping.{Relays}
use bentorrent.Connection.Outgoing.{Writes, sent_before, run-run_connection-Writes}
use bentorrent.Connection.Draining.{reached, run-run_connection-Drains}
use bentorrent.Connection.Ending.{Ends, run-run_connection-Ends}

abbrev open_socket : Socket
open_socket b = (b, done)

-- The second message comes in two chunks.
abbrev messages : List Messages
messages = keep_alive ∷ have 7 ∷ []

abbrev chunks : List Bytes
chunks = (u32_bytes 0 ++ 0 ∷ 0 ∷ []) ∷ (0 ∷ 5 ∷ 4 ∷ u32_bytes 7) ∷ []

abbrev conn : Connection
conn = connect open_socket chunks

abbrev events : List Event
events = polls true 1 ∷ sends (have 1) ∷ polls true 0 ∷ polls false 2 ∷ []

run-run_connection-Relays_example :
    Relays bytes_api messages (run bytes_api (run_connection conn true) events)
unfolding encode u32_bytes
run-run_connection-Relays_example =
    run-run_connection-Relays bytes_api messages conn true events (tt, (omega arith, tt))
      (refl, (refl, tt)) refl

run-run_connection-Drains_example :
    (n : ℕ) × (length (reached bytes_api conn (sends (have 1) ∷ [])).inbox + n ≡ length messages)
    × ((run bytes_api
          (reached bytes_api conn (sends (have 1) ∷ []))
          (replicate n (polls true 2))).inbox
        ≡ messages)
unfolding encode u32_bytes run step run_connection
run-run_connection-Drains_example =
    run-run_connection-Drains bytes_api messages conn (sends (have 1) ∷ []) 2
      (tt, (omega arith, tt)) (refl, (refl, tt)) refl refl refl (omega arith)

run-run_connection-Ends_example :
    Ends bytes_api (connect open_socket []) (polls true 0 ∷ polls false 1 ∷ []) true 0
run-run_connection-Ends_example =
    run-run_connection-Ends bytes_api (connect open_socket []) (polls true 0 ∷ polls false 1 ∷ [])
      true 0 (inl (refl, refl)) (tt, (tt, tt))

run-run_connection-Writes_example :
    Writes bytes_api []
      (sent_before false (events ++ hangs_up ∷ sends (have 2) ∷ []))
      (run bytes_api (run_connection conn true) (events ++ hangs_up ∷ sends (have 2) ∷ []))
run-run_connection-Writes_example =
    run-run_connection-Writes bytes_api conn (events ++ hangs_up ∷ sends (have 2) ∷ []) (λ b. refl)

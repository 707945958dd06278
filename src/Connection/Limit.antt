-- ===== src/Connection/Limit.antt =====
-- src/peer/net.rs, `connect_torrent_peers`: which peers are connected.
use bentorrent.Prelude.{
  ℕ, zero, suc, ◌+◌, ◌≤◌, ◌<◌, ◌⊎◌, ◌≡◌, ◌≢◌, refl, sym, ap, ◌∙◌, arith, leb, true, false, List, [],
  ◌∷◌, ◌++◌, length, take, All, inl, inr, length-append, Bool-cases, append_assoc, append-nil,
}
use bentorrent.Outcome.{ok, panic}
use bentorrent.Torrent.{PeerId, V1Torrent}
use bentorrent.BytesApi.{BytesApi}
use bentorrent.Protocol.{Handshake}
use bentorrent.TrackerResponse.{TrackerPeer, SocketAddr}
use bentorrent.Connection.Peering.{
  Connection, Dial, Tried, joined, passed, crashed, try_peer, connect_loop, connect_torrent_peers,
}

-- The connection that comes of one try.
abbrev pub connection_of : Tried → List (Handshake × Connection)
connection_of (joined h c) = (h, c) ∷ []
connection_of passed = []
connection_of crashed = []

take_all : {A : Type 0} (n : ℕ) (xs : List A) → length xs ≤ n → take n xs ≡ xs
take_all zero [] h = refl
take_all zero (x ∷ xs) h = absurd (omega arith)
take_all (suc n) [] h = refl
take_all (suc n) (x ∷ xs) h = ap (◌∷◌ x) (take_all n xs (omega arith))

take_front : {A : Type 0} (n : ℕ) (xs ys : List A) → n ≡ length xs → take n (xs ++ ys) ≡ xs
take_front zero [] ys h = refl
take_front zero (x ∷ xs) ys h = absurd (omega arith)
take_front (suc n) [] ys h = absurd (omega arith)
take_front (suc n) (x ∷ xs) ys h = ap (◌∷◌ x) (take_front n xs ys (omega arith))

module _ (api : BytesApi) (dial : SocketAddr → Dial) (torrent : V1Torrent) (our_id : PeerId) where
  abbrev tried : TrackerPeer → Tried
  tried = try_peer api dial torrent our_id

  -- The connections that come of all peers, in their order.
  unfoldable pub connections : List TrackerPeer → List (Handshake × Connection)
  connections [] = []
  connections (p ∷ peers) = connection_of (tried p) ++ connections peers

  -- No handshake with one of the peers panics.
  abbrev pub NoCrash : List TrackerPeer → Type 0
  NoCrash peers = All (λ p. tried p ≢ crashed) peers

  Tried-cases :
      (p : TrackerPeer)
      → ((h : Handshake) × ((c : Connection) × (tried p ≡ joined h c)))
        ⊎ ((tried p ≡ passed) ⊎ (tried p ≡ crashed))
  Tried-cases p = cases (tried p)
    where
      cases :
          (t : Tried)
          → ((h : Handshake) × ((c : Connection) × (t ≡ joined h c)))
            ⊎ ((t ≡ passed) ⊎ (t ≡ crashed))
      cases (joined h c) = inl (h, (c, refl))
      cases passed = inr (inl refl)
      cases crashed = inr (inr refl)

  full :
      (limit : ℕ) (active : List (Handshake × Connection)) (peers : List TrackerPeer)
      → limit ≤ length active
      → connect_loop api dial torrent our_id limit active peers ≡ ok active
  unfolding connect_loop
  full limit active [] h = refl
  full limit active (p ∷ peers) h =
      let stop : leb limit (length active) ≡ true = ground arith in rw stop refl

  connect_loop-take :
      (limit : ℕ) (active : List (Handshake × Connection)) (peers later : List TrackerPeer)
      → length active ≤ limit
      → NoCrash peers
      → (later ≡ []) ⊎ (limit ≤ length active + length (connections peers))
      → connect_loop api dial torrent our_id limit active (peers ++ later)
        ≡ ok (take limit (active ++ connections peers))
  unfolding connect_loop connections
  connect_loop-take limit active [] later h safe enough =
      let whole : take limit (active ++ []) ≡ active =
        ap (take limit) (append-nil active) ∙ take_all limit active h in
      (elim enough [
        | inl none_left ↦ ap (connect_loop api dial torrent our_id limit active) none_left
        | inr reached ↦ full limit active later (omega arith)
      ])
      ∙ ap ok (sym whole)
  connect_loop-take limit active (p ∷ peers) later h safe enough =
      elim (Bool-cases (leb limit (length active))) [
        | inl stop ↦
            let reached : limit ≤ length active = ground arith in
            full limit active ((p ∷ peers) ++ later) reached
            ∙ ap ok (sym (take_front limit active (connections (p ∷ peers)) (omega arith)))
        | inr go ↦ elim (Tried-cases p) [
          | inr (inr e) ↦ absurd (safe.0 e)
          | inr (inl e) ↦
              rw (go, e, connect_loop)
                (connect_loop-take limit active peers later h safe.1 (rw e at enough))
          | inl (hs, (c, e)) ↦
              let one : length active < limit = ground arith in
              let active' = active ++ (hs, c) ∷ [] in
              let longer = length-append active ((hs, c) ∷ []) in
              let still : (later ≡ []) ⊎ (limit ≤ length active' + length (connections peers)) =
                elim enough [
                  | inl none_left ↦ inl none_left
                  | inr reached ↦
                      let count : limit ≤ length active + suc (length (connections peers)) =
                        rw e at reached in
                      inr (omega (arith, longer, count))
                ] in
              rw (go, e, connect_loop)
                (connect_loop-take limit active' peers later (omega (arith, longer)) safe.1 still
                  ∙ ap (λ xs. ok (take limit xs))
                      (append_assoc active ((hs, c) ∷ []) (connections peers)))
        ]
      ]

  -- The peers are tried in their order, and the connections that come of them are run, at most
  -- `max_conns` of them. Once there are that many no other peer is tried, whatever would come of it.
  -- No handshake with a peer that is tried may panic.
  pub connect_torrent_peers-take :
      (max_conns : ℕ) (peers later : List TrackerPeer)
      → NoCrash peers
      → (later ≡ []) ⊎ (max_conns ≤ length (connections peers))
      → connect_torrent_peers api dial torrent our_id max_conns (peers ++ later)
        ≡ ok (take max_conns (connections peers))
  unfolding connect_torrent_peers
  connect_torrent_peers-take max_conns peers later safe enough =
      let enough' : (later ≡ []) ⊎ (max_conns ≤ 0 + length (connections peers)) = elim enough [
        | inl none_left ↦ inl none_left
        | inr reached ↦ inr (omega (arith, reached))
      ] in
      connect_loop-take max_conns [] peers later (omega arith) safe enough'

  connect_loop_crash :
      (limit : ℕ) (active : List (Handshake × Connection)) (peers later : List TrackerPeer)
      (p : TrackerPeer)
      → NoCrash peers
      → length active + length (connections peers) < limit
      → tried p ≡ crashed
      → connect_loop api dial torrent our_id limit active (peers ++ p ∷ later) ≡ panic
  unfolding connect_loop connections
  connect_loop_crash limit active [] later p safe few e =
      let go : leb limit (length active) ≡ false = ground (arith, few) in
      rw (go, e, connect_loop) refl
  connect_loop_crash limit active (q ∷ peers) later p safe few e =
      let go : leb limit (length active) ≡ false = ground (arith, few) in
      elim (Tried-cases q) [
        | inr (inr e') ↦ absurd (safe.0 e')
        | inr (inl e') ↦
            rw (go, e', connect_loop)
              (connect_loop_crash limit active peers later p safe.1 (rw e' at few) e)
        | inl (hs, (c, e')) ↦
            let count : length active + suc (length (connections peers)) < limit = rw e' at few in
            let longer = length-append active ((hs, c) ∷ []) in
            rw (go, e', connect_loop)
              (connect_loop_crash limit (active ++ (hs, c) ∷ []) peers later p safe.1
                (omega (arith, longer, count)) e)
      ]

  -- A handshake that panics before the limit is reached ends the connections to all peers: the task
  -- that connects panics.
  pub connect_torrent_peers_crash :
      (max_conns : ℕ) (peers later : List TrackerPeer) (p : TrackerPeer)
      → NoCrash peers
      → length (connections peers) < max_conns
      → tried p ≡ crashed
      → connect_torrent_peers api dial torrent our_id max_conns (peers ++ p ∷ later) ≡ panic
  unfolding connect_torrent_peers
  connect_torrent_peers_crash max_conns peers later p safe few e =
      connect_loop_crash max_conns [] peers later p safe (omega (arith, few)) e

-- ===== src/Processor/Dispatch.antt =====
-- src/peer/state/mod.rs, `compute_requests_for_download`: the requests that are sent, and those
-- that are taken back.
use bentorrent.Prelude.{
  ℕ, ◌≡◌, refl, arith, true, false, ◌&&◌, ◌||◌, ◌==◌, Bool, Bool-cases, inl, inr, ◌⊎◌, Option-cases,
  none, some, List, [], ◌∷◌, if◌then◌else◌,
}
use bentorrent.Prelude.Eq.{nat_eq, list_eq}
use bentorrent.Torrent.{PeerId, PeerRequestedPiece}
use bentorrent.Piece.Blocks.{visit_req_map}
use bentorrent.Piece.Blocks.Views.{downloading-remove_downloading_request}
use bentorrent.Piece.Tracker.{started, remove_request}
use bentorrent.Protocol.{request}
use bentorrent.State.{TorrentState}
use bentorrent.Prelude.Maps.{lookup}
use bentorrent.Processor.{Sender, Sent, PeerToSender, can_send, dispatch}

-- The peer has a sender whose channel is open, or it has none, or its channel is closed.
abbrev pub IsOpen : PeerToSender → PeerId → Type 0
IsOpen peer_to_tx p = (tx : Sender) × (lookup p peer_to_tx ≡ some tx) × (tx.is_closed ≡ false)

abbrev pub IsShut : PeerToSender → PeerId → Type 0
IsShut peer_to_tx p =
    (lookup p peer_to_tx ≡ none)
    ⊎ ((tx : Sender) × (lookup p peer_to_tx ≡ some tx) × (tx.is_closed ≡ true))

-- What becomes of the requests, in their order: those for a peer with an open channel are sent, with
-- their own fields, and the others are taken back.
pub data Dispatches (peer_to_tx : PeerToSender)
    : List PeerRequestedPiece → Sent → List PeerRequestedPiece → Type 0 where
  no_more : Dispatches peer_to_tx [] [] []
  sends :
      (r : PeerRequestedPiece) {rs back : List PeerRequestedPiece} {msgs : Sent}
      → IsOpen peer_to_tx r.peer_id
      → Dispatches peer_to_tx rs msgs back
      → Dispatches peer_to_tx (r ∷ rs) ((r.peer_id, request r.index r.begin r.length) ∷ msgs) back
  takes_back :
      (r : PeerRequestedPiece) {rs back : List PeerRequestedPiece} {msgs : Sent}
      → IsShut peer_to_tx r.peer_id
      → Dispatches peer_to_tx rs msgs back
      → Dispatches peer_to_tx (r ∷ rs) msgs (r ∷ back)

-- The block belongs to one of the requests.
unfoldable pub is_among : List PeerRequestedPiece → ℕ → ℕ → Bool
is_among [] p b = false
is_among (r ∷ rs) p b = ((r.index == p) && (r.begin == b)) || is_among rs p b

can_send-cases :
    (peer_to_tx : PeerToSender) (p : PeerId)
    → (IsOpen peer_to_tx p × (can_send peer_to_tx p ≡ true))
      ⊎ (IsShut peer_to_tx p × (can_send peer_to_tx p ≡ false))
unfolding can_send
can_send-cases peer_to_tx p = elim (Option-cases (lookup p peer_to_tx)) [
  | inl e ↦ inr (inl e, rw (e, can_send) refl)
  | inr (tx, e) ↦ elim (Bool-cases tx.is_closed) [
    | inl closed ↦ inr (inr (tx, e, closed), rw (e, closed, can_send) refl)
    | inr open' ↦ inl ((tx, e, open'), rw (e, open', can_send) refl)
  ]
]

-- Every request for a peer whose channel is open is sent to it as the message with the request's
-- index, begin and length, in the order of the requests, and nothing else is sent. The others are
-- taken back: of the blocks in flight exactly theirs are dropped.
pub dispatch_lem :
    (peer_to_tx : PeerToSender) (rs : List PeerRequestedPiece) (t : TorrentState)
    → (back : List PeerRequestedPiece) × Dispatches peer_to_tx rs (dispatch t peer_to_tx rs).1 back
      × ((p b : ℕ)
          → visit_req_map
              (started (dispatch t peer_to_tx rs).0.piece_block_tracking).downloading
              p
              b
            ≡ (if is_among back p b
                then none
                else visit_req_map (started t.piece_block_tracking).downloading p b))
unfolding dispatch is_among remove_request
dispatch_lem peer_to_tx [] t = ([], no_more, λ p b. refl)
dispatch_lem peer_to_tx (r ∷ rs) t = elim (can_send-cases peer_to_tx r.peer_id) [
  | inl (open', sent) ↦
      let (back, d, dropped) = dispatch_lem peer_to_tx rs t in
      (back, rw (sent, dispatch) (sends r open' d), rw (sent, dispatch) dropped)
  | inr (shut, unsent) ↦
      let (back, d, dropped) =
        dispatch_lem peer_to_tx rs
          (record t { piece_block_tracking = (remove_request t.piece_block_tracking r).0 }) in
      (
        r ∷ back,
        rw (unsent, dispatch) (takes_back r shut d),
        rw (unsent, dispatch)
            (λ p b. ground (
              arith,
              dropped p b,
              downloading-remove_downloading_request (started t.piece_block_tracking) r.index
                  r.begin p b,
            )),
      )
]

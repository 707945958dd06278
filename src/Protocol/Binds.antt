-- ===== src/Protocol/Binds.antt =====
-- src/peer/protocol.rs, the `?` of the decoders.
-- Runs of a decoder that begins with a step of known outcome.
use bentorrent.Prelude.{◌≡◌}
use bentorrent.Outcome.{ok, err, panic}
use bentorrent.Torrent.{Bytes}
use bentorrent.Protocol.{Decoder, ProtocolError, ◌>>=◌}

module _ {A B : Type 0} (m : Decoder A) (f : A → Decoder B) (b : Bytes) where
  pub bind_ok : {a : A} {rest : Bytes} → m b ≡ ok (a, rest) → (m >>= f) b ≡ f a rest
  bind_ok e = rw (e, ◌>>=◌)

  pub bind_err : {x : ProtocolError} → m b ≡ err x → (m >>= f) b ≡ err x
  bind_err e = rw (e, ◌>>=◌)

  pub bind_panic : m b ≡ panic → (m >>= f) b ≡ panic
  bind_panic e = rw (e, ◌>>=◌)

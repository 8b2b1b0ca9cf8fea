-- ===== src/Message.antt =====
-- src/p2p/message.rs: the messages of the peer protocol and their codec. A `BytesMut` is the list of
-- the bytes that it holds.
pub mod Codec
pub mod RoundTrip
pub mod Stream
use learntorrent.Base.{ℕ, List}

pub data Message : Type 0 where
  keep_alive choke unchoke interested not_interested : Message
  have : ℕ → Message
  bitfield : List ℕ → Message
  request : ℕ → ℕ → ℕ → Message
  piece : ℕ → ℕ → List ℕ → Message
  cancel : ℕ → ℕ → ℕ → Message

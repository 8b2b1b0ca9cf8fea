-- ===== src/PeerErr.antt =====
-- src/p2p.rs and src/p2p/message.rs: the errors of a peer session. The payload of an I/O error is
-- left out: no code looks at it.
use learntorrent.Base.{ℕ}

pub data MessageDecodeErr : Type 0 where
  io : MessageDecodeErr
  invalid_message : ℕ → ℕ → MessageDecodeErr
  port_unimplemented : MessageDecodeErr
  maximum_size_exceeded : MessageDecodeErr

pub data PeerErr : Type 0 where
  failed_connection : PeerErr
  timeout : PeerErr
  terminated : PeerErr
  invalid_handshake : PeerErr
  invalid_piece_received : PeerErr
  invalid_block : PeerErr
  bitfield_not_first : PeerErr
  invalid_bitfield_msg : PeerErr
  invalid_message : MessageDecodeErr → PeerErr
  message_encode_err : PeerErr

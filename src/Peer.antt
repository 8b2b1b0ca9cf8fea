-- ===== src/Peer.antt =====
-- src/p2p.rs: the session of a peer task, from the handshake on.
-- A handler returns the new state and the messages that it sends, in order. It changes nothing
-- before it fails, so that after an error the state is the one before. The sends succeed.
pub mod Handshake
pub mod Field
pub mod Session
pub mod Process
pub mod Balance
pub mod Life
pub mod Plain
pub mod Connect
use learntorrent.Base.{
  ℕ, zero, suc, ◌+◌, ◌-◌, ◌*◌, ◌^◌, ◌%◌, bit_and, Bool, true, false, not, ◌&&◌, Option, none, some,
  List, [], ◌∷◌, ◌++◌, map, ltb, ◌==◌, if◌then◌else◌, length,
}
use learntorrent.Base.Words.{sub32}
use learntorrent.Base.Float.{bytes_for}
use learntorrent.Base.Outcome.{Outcome, ok, err, panicked, expect, ◌>>=◌, ◌>>◌}
use learntorrent.PeerErr.{PeerErr, invalid_piece_received, bitfield_not_first, invalid_bitfield_msg}
use learntorrent.PieceTracker
use learntorrent.PieceTracker.{
  PieceTracker, PendingBlockRequest, CompletedBlockRequest, ValidatedPiece, next_requests,
  request_completed, validate_piece,
}
use learntorrent.PieceKeeper.{PieceMsg, PmMsg, piece_failed, piece_finished}
use learntorrent.PieceKeeper
use learntorrent.Message
use learntorrent.Message.{Message, keep_alive, choke, unchoke, interested}
use learntorrent.Metainfo.{Metainfo, piece_count, get_piece_size}

pub record Peer : Type 0 where
  pub id : ℕ
  pub metainfo : Metainfo
  pub am_choked : Bool
  pub am_interested : Bool
  pub piece_tracker : Option PieceTracker

-- The socket address, the handshake and the ends of channels are left out.
unfoldable pub new : ℕ → Metainfo → Peer
new id metainfo = record {
  id = id;
  metainfo = metainfo;
  am_choked = true;
  am_interested = false;
  piece_tracker = none;
}

-- To the Piece Keeper, or to the peer.
pub data PeerSent : Type 0 where
  to_keeper : PmMsg → PeerSent
  to_peer : Message → PeerSent

abbrev pub Session : Type 0
Session = Peer × List PeerSent

-- The mask has a one for each spare bit, of which there are 8 at most.
abbrev pub spare_mask : ℕ → Outcome PeerErr ℕ
spare_mask spare_bits = if ltb 8 spare_bits then panicked else ok (2 ^ spare_bits - 1)

abbrev pub last : List ℕ → Option ℕ
last [] = none
last (x ∷ []) = some x
last (x ∷ y ∷ xs) = last (y ∷ xs)

check_last : List ℕ → ℕ → Outcome PeerErr (Unit {0})
check_last bitfield mask = do
  byte ← expect (last bitfield)
  if bit_and byte mask == 0 then ok tt else err invalid_bitfield_msg

unfoldable pub verify_bitfield : ℕ → List ℕ → Outcome PeerErr (Unit {0})
unfolding check_last
verify_bitfield piece_count bitfield =
    let expected_len = bytes_for piece_count in
    if length bitfield == expected_len
    then spare_mask (sub32 (expected_len * 8 % 2 ^ 32) piece_count) >>= check_last bitfield
    else err invalid_bitfield_msg

unfoldable pub on_bitfield_msg : Peer → Bool → List ℕ → Outcome PeerErr Session
on_bitfield_msg p true bitfield =
    verify_bitfield (piece_count p.metainfo) bitfield
    >> ok (p, to_keeper (PieceKeeper.bitfield p.id bitfield) ∷ [])
on_bitfield_msg p false bitfield = err bitfield_not_first

unfoldable pub on_unchoke_msg : Peer → Session
on_unchoke_msg p = (record p { am_choked = false }, [])

unfoldable pub on_have_msg : Peer → ℕ → Session
on_have_msg p piece_id = (p, to_keeper (PieceKeeper.have p.id piece_id) ∷ [])

-- The report that the piece in progress failed.
abbrev pub failure : Option PieceTracker → List PeerSent
failure none = []
failure (some pt) = to_keeper (piece_failed pt.pid) ∷ []

unfoldable pub on_choke_msg : Peer → Session
on_choke_msg p = (record p { am_choked = true; piece_tracker = none }, failure p.piece_tracker)

-- The report on a complete piece.
abbrev pub report : ℕ → Option ValidatedPiece → PmMsg
report pid (some vp) = piece_finished vp
report pid none = piece_failed pid

-- SHA1 is the crate's.
module _ (sha1 : List ℕ → List ℕ) where
  after_block : Peer → Bool × PieceTracker → Outcome PeerErr Session
  after_block p (false, pt) = ok (record p { piece_tracker = some pt }, [])
  after_block p (true, pt) = do
    valid ← validate_piece sha1 p.metainfo.piece_hashes pt
    ok (record p { piece_tracker = none }, to_keeper (report pt.pid valid) ∷ [])

  block_for : Peer → Option PieceTracker → ℕ → CompletedBlockRequest → Outcome PeerErr Session
  unfolding after_block
  block_for p none index br = ok (p, [])
  block_for p (some pt) index br =
      if index == pt.pid
      then request_completed pt br >>= after_block p
      else err invalid_piece_received

  unfoldable pub on_block_receive_msg : Peer → ℕ → ℕ → List ℕ → Outcome PeerErr Session
  unfolding block_for
  on_block_receive_msg p index begin block =
      block_for p p.piece_tracker index
        (record { offset = begin; size = length block % 2 ^ 32; bytes = block })

  -- The other messages are only logged.
  unfoldable pub on_msg_received : Peer → Bool → Message → Outcome PeerErr Session
  on_msg_received p first_message choke = ok (on_choke_msg p)
  on_msg_received p first_message unchoke = ok (on_unchoke_msg p)
  on_msg_received p first_message (Message.have piece_id) = ok (on_have_msg p piece_id)
  on_msg_received p first_message (Message.bitfield bits) = on_bitfield_msg p first_message bits
  on_msg_received p first_message (Message.piece index begin block) =
      on_block_receive_msg p index begin block
  on_msg_received p first_message m = ok (p, [])

-- The answer of the Piece Keeper, which is awaited if a piece is picked.
take_piece : Peer → PieceMsg → Peer
take_piece p (PieceKeeper.piece pid) = record p {
  piece_tracker = some (PieceTracker.new pid (get_piece_size p.metainfo pid));
}
take_piece p PieceKeeper.none_available = p

pub idle : Option PieceTracker → Bool
idle none = true
idle (some pt) = false

unfoldable pub pick_piece : PieceMsg → Peer → Session
unfolding take_piece idle
pick_piece answer p =
    if not p.am_choked && idle p.piece_tracker
    then (take_piece p answer, to_keeper (PieceKeeper.pick p.id) ∷ [])
    else (p, [])

abbrev pub request_of : ℕ → PendingBlockRequest → PeerSent
request_of pid r = to_peer (Message.request pid r.offset r.size)

requests_for : Peer → Option PieceTracker → Session
requests_for p none = (p, [])
requests_for p (some pt) =
    let (requests, pt') = next_requests pt in
    (record p { piece_tracker = some pt' }, map (request_of pt.pid) requests)

unfoldable pub request_blocks : Peer → Session
unfolding requests_for
request_blocks p = requests_for p p.piece_tracker

unfoldable pub send_interested : Peer → Session
send_interested p =
    if not p.am_interested && p.am_choked
    then (record p { am_interested = true }, to_peer interested ∷ [])
    else (p, [])

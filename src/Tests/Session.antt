-- ===== src/Tests/Session.antt =====
-- A session on a torrent of three pieces.
use learntorrent.Base.{
  ℕ, ◌+◌, ◌*◌, ◌≤◌, ◌<◌, ◌≡◌, refl, inr, min, true, false, some, List, [], ◌∷◌, replicate, All,
  none, if◌then◌else◌, arith, ◌⊎◌,
}
use learntorrent.Base.Outcome.{ok, err}
use learntorrent.Base.Float.{ceil_quotient}
use learntorrent.PeerErr.{invalid_bitfield_msg, invalid_handshake}
use learntorrent.BitField.Laws.{bit}
use learntorrent.PieceKeeper.Invariant.{Fits}
use learntorrent.PieceTracker.{PieceTracker, same_bytes}
use learntorrent.PieceTracker.Invariant.{IsConsistent}
use learntorrent.Message
use learntorrent.Base.Text.{bytes}
use learntorrent.Metainfo.Sizes.{sizes_to, sizes_to-piece_count}
use learntorrent.Metainfo.{
  single, IsCounted, Metainfo, piece_count, get_piece_size, get_piece_size_lem,
}
use learntorrent.Peer.{Peer, verify_bitfield, on_msg_received}
use learntorrent.Peer.Handshake
use learntorrent.Peer.Handshake.{validate, validate-new, validate_self}
use learntorrent.Peer.Field.{verify_bitfield_lem}
use learntorrent.PieceKeeper.{PieceMsg}
use learntorrent.PieceKeeper
use learntorrent.PeerErr.{timeout, failed_connection}
use learntorrent.Peer.Connect.{Network, done, Answers, setup_connection, setup_connection_lem}
use learntorrent.Peer.{new}
use learntorrent.Peer.Process.{Round, broken, message, start}
use learntorrent.Peer.Life.{Lives, start-Lives}
use learntorrent.Peer.Session.{IsAcceptable, IsReady, Took, on_msg_received-Took}

verify_bitfield_lem_example :
    (verify_bitfield 13 (1 ∷ 248 ∷ []) ≡ err invalid_bitfield_msg)
    ⊎ (verify_bitfield 13 (1 ∷ 248 ∷ []) ≡ ok tt)
      × Fits 13 (1 ∷ 248 ∷ [])
      × ((q : ℕ) → 13 ≤ q → q < 8 * 2 → bit (1 ∷ 248 ∷ []) q ≡ false)
verify_bitfield_lem_example =
    verify_bitfield_lem 13 (1 ∷ 248 ∷ []) (omega arith) (omega arith)
      (omega arith, (omega arith, tt))

validate-new_example :
    validate
      (Handshake.new (replicate 20 1) (replicate 20 2))
      (Handshake.new (replicate 20 3) (replicate 20 4))
    ≡ (if same_bytes (replicate 20 2) (replicate 20 4)
        then ok (replicate 20 3)
        else err invalid_handshake)
validate-new_example =
    validate-new (replicate 20 1) (replicate 20 3) (replicate 20 2) (replicate 20 4) refl refl refl

abbrev pub three_pieces : Metainfo
three_pieces = record {
  trackers = [];
  info_hash = replicate 20 2;
  piece_length = 16384;
  total_length = 40000;
  file_entries = single (record { name = bytes "a"; len = 40000; start = 0; end = 40000 });
  piece_hashes = (1 ∷ 2 ∷ []) ∷ (1 ∷ 2 ∷ []) ∷ (1 ∷ 2 ∷ []) ∷ [];
}

three_pieces-IsCounted : IsCounted three_pieces
three_pieces-IsCounted = record { exact = omega arith; few = omega arith; short = omega arith }

get_piece_size_lem_example :
    2 * 16384 + get_piece_size three_pieces 2 ≡ min (2 * 16384 + 16384) 40000
unfolding piece_count ceil_quotient
get_piece_size_lem_example = get_piece_size_lem three_pieces 2 three_pieces-IsCounted (omega arith)

sizes_to-piece_count_example : sizes_to three_pieces (piece_count three_pieces) ≡ 40000
sizes_to-piece_count_example = sizes_to-piece_count three_pieces three_pieces-IsCounted

-- The last piece is in progress, and its block is pending.
abbrev last_piece : PieceTracker
last_piece = record {
  pid = 2;
  piece_size = 2;
  offset = 2;
  pending_requests = record { offset = 0; size = 2 } ∷ [];
  completed_requests = [];
  remaining_bytes = 2;
}

abbrev downloading_last : Peer
downloading_last = record {
  id = 7;
  metainfo = three_pieces;
  am_choked = false;
  am_interested = true;
  piece_tracker = some last_piece;
}

last_piece-IsConsistent : IsConsistent last_piece
last_piece-IsConsistent = record {
  word = omega arith;
  in_piece = omega arith;
  aligned = inr refl;
  once = λ offset size. ground arith;
  asked = omega arith;
  left = omega arith;
}

downloading_last-IsReady : IsReady downloading_last
unfolding piece_count ceil_quotient
downloading_last-IsReady = record {
  some_pieces = omega arith;
  small = omega arith;
  hashes = omega arith;
  tracker = (last_piece-IsConsistent, omega arith, omega arith);
}

abbrev pub constant_hash : List ℕ → List ℕ
constant_hash xs = 1 ∷ 2 ∷ []

on_msg_received-Took_example :
    Took
      (λ pid. pid < 3)
      downloading_last
      (on_msg_received constant_hash downloading_last false (Message.piece 2 0 (8 ∷ 9 ∷ [])))
on_msg_received-Took_example =
    on_msg_received-Took (λ pid. pid < 3) constant_hash downloading_last false
      (Message.piece 2 0 (8 ∷ 9 ∷ [])) downloading_last-IsReady tt

-- The peer unchokes, and is silent after that.
abbrev two_rounds : List Round
two_rounds =
    record { answer = PieceKeeper.none_available; event = message Message.unchoke }
    ∷ record { answer = PieceKeeper.piece 1; event = broken timeout }
    ∷ []

start-Lives_example :
    let e = start constant_hash (new 7 three_pieces) none two_rounds in
    All (IsAcceptable (λ pid. pid < 3) (piece_count three_pieces)) e.sent × Lives e
unfolding piece_count ceil_quotient
start-Lives_example =
    start-Lives (λ pid. pid < 3) constant_hash three_pieces 7 none two_rounds (omega arith)
      (omega arith) (omega arith) (omega arith) ((tt, tt), ((omega arith, tt), tt))

-- A peer that answers with the handshake of another torrent.
setup_connection_lem_example :
    let mine = Handshake.new (replicate 20 1) (replicate 20 2) in
    let network : Network = record {
      connected = done tt;
      write_done = true;
      read_exact = done (Handshake.new (replicate 20 3) (replicate 20 4));
    } in
    ((peer : List ℕ) × Answers network peer × (setup_connection mine network ≡ ok mine))
    ⊎ (((peer : List ℕ) → ¬ Answers network peer)
        × ((setup_connection mine network ≡ err timeout)
            ⊎ (setup_connection mine network ≡ err failed_connection)))
setup_connection_lem_example =
    setup_connection_lem (Handshake.new (replicate 20 1) (replicate 20 2)) (record {
      connected = done tt;
      write_done = true;
      read_exact = done (Handshake.new (replicate 20 3) (replicate 20 4));
    })

-- ===== src/Peer/Process.antt =====
-- src/p2p.rs: the loop of a session, and what a peer task does when it ends.
-- A round has what `select!` waits for, and the answer of the Piece Keeper, which is awaited only if
-- the round asks for a piece. The connection's set-up is an argument, with the error it ends in.
use learntorrent.Base.{
  if◌then◌else◌, ℕ, Bool, true, false, not, ◌&&◌, Option, none, some, List, [], ◌∷◌, ◌++◌,
}
use learntorrent.Base.Outcome.{Outcome, ok, err, panicked, out_of_fuel}
use learntorrent.PeerErr.{PeerErr}
use learntorrent.PieceKeeper.{AppState, running, pause, exit, PieceMsg, deregister}
use learntorrent.Message.{Message}
use learntorrent.Peer.{
  Peer, PeerSent, Session, to_keeper, failure, idle, on_msg_received, pick_piece, request_blocks,
  send_interested,
}

pub data TorrentState : Type 0 where
  in_progress complete : TorrentState

-- `broken` is the end of the stream: a timeout, the end of the connection, a frame that does not
-- decode, or a failed send.
pub data PeerEvent : Type 0 where
  app_changed : AppState → PeerEvent
  torrent_changed : TorrentState → PeerEvent
  broken : PeerErr → PeerEvent
  message : Message → PeerEvent

pub record Round : Type 0 where
  pub answer : PieceMsg
  pub event : PeerEvent

-- The state, what was sent and which answers were received; the result is none while the loop waits.
pub record SessionEnd : Type 0 where
  pub peer : Peer
  pub sent : List PeerSent
  pub received : List PieceMsg
  pub result : Option (Outcome PeerErr (Unit {0}))

-- The calls at the head of the loop.
unfoldable pub head : PieceMsg → Peer → Session
unfolding pick_piece request_blocks send_interested
head answer p =
    let (p₁, picks) = pick_piece answer p in
    let (p₂, requests) = request_blocks p₁ in
    let (p₃, interest) = send_interested p₂ in (p₃, picks ++ (requests ++ interest))

-- The answer, if it is asked for.
unfoldable pub asked : PieceMsg → Peer → List PieceMsg
unfolding idle
asked answer p = if not p.am_choked && idle p.piece_tracker then answer ∷ [] else []

abbrev pub stopped : Peer → Option (Outcome PeerErr (Unit {0})) → SessionEnd
stopped p result = record { peer = p; sent = []; received = []; result = result }

abbrev pub after : List PeerSent → List PieceMsg → SessionEnd → SessionEnd
after sent received e = record {
  peer = e.peer;
  sent = sent ++ e.sent;
  received = received ++ e.received;
  result = e.result;
}

-- What follows the handling of a message.
abbrev pub handled : Peer → Outcome PeerErr Session → (Peer → SessionEnd) → SessionEnd
handled p (ok (p', sent)) next = after sent [] (next p')
handled p (err e) next = stopped p (some (err e))
handled p panicked next = stopped p (some panicked)
handled p out_of_fuel next = stopped p (some out_of_fuel)

-- The reports after the loop.
unfoldable pub farewell : SessionEnd → List PeerSent
farewell e = elim e.result [
  | none ↦ []
  | some (ok done) ↦ to_keeper (deregister e.peer.id) ∷ []
  | some (err e') ↦ failure e.peer.piece_tracker ++ to_keeper (deregister e.peer.id) ∷ []
  | some panicked ↦ []
  | some out_of_fuel ↦ []
]

unfoldable pub finish : SessionEnd → SessionEnd
unfolding farewell
finish e = record {
  peer = e.peer;
  sent = e.sent ++ farewell e;
  received = e.received;
  result = e.result;
}

module _ (sha1 : List ℕ → List ℕ) where
  -- What the task does on an event; `same` goes on in the same state, and `next` after a message.
  unfoldable pub react : Peer → Bool → PeerEvent → SessionEnd → (Peer → SessionEnd) → SessionEnd
  react p first_message (app_changed exit) same next = stopped p (some (ok tt))
  react p first_message (app_changed running) same next = same
  react p first_message (app_changed pause) same next = same
  react p first_message (torrent_changed complete) same next = stopped p (some (ok tt))
  react p first_message (torrent_changed in_progress) same next = same
  react p first_message (broken e) same next = stopped p (some (err e))
  react p first_message (message m) same next =
      handled p (on_msg_received sha1 p first_message m) next

  unfoldable pub process : Peer → Bool → List Round → SessionEnd
  unfolding head asked react
  process p first_message [] = stopped p none
  process p first_message (r ∷ rounds) =
      let (p', sent) = head r.answer p in
      after sent (asked r.answer p) (
        react p' first_message r.event (process p' first_message rounds)
          (λ p''. process p'' false rounds))

  unfoldable pub start : Peer → Option PeerErr → List Round → SessionEnd
  unfolding process finish
  start p none rounds = finish (process p true rounds)
  start p (some e) rounds = finish (stopped p (some (err e)))

-- ===== src/System.antt =====
-- The peer tasks of src/p2p.rs and the Piece Keeper of src/piece_keeper.rs as one system. The
-- channel to the keeper is the list of the messages in it, the channel to a task has room for one
-- answer, and a schedule says who goes on next, between two places where the code awaits something.
-- The tracker manager gives out the IDs in order, so that a task's ID is its place in the list.
pub mod Invariant
pub mod Events
pub mod Keeper
pub mod Tasks
pub mod Turns
pub mod Places
pub mod Delivery
pub mod Channel
pub mod Runs
pub mod Exit
use learntorrent.Base.{
  ℕ, zero, suc, Bool, true, false, not, ◌&&◌, Option, none, some, List, [], ◌∷◌, ◌++◌, length,
  if◌then◌else◌, get_elem?, set,
}
use learntorrent.Base.Outcome.{Outcome, ok, err, panicked, out_of_fuel, ◌>>=◌}
use learntorrent.BitField.{Panics}
use learntorrent.PeerErr.{PeerErr}
use learntorrent.Metainfo.{Metainfo, piece_count}
use learntorrent.PieceKeeper.{
  AppState, PieceMsg, PmMsg, Sent, PieceKeeper, none_available, pick, register, registered, to_peer,
  io_exit, is_empty,
}
use learntorrent.PieceKeeper
use learntorrent.Peer.{Peer, PeerSent, to_keeper, new, idle}
use learntorrent.Peer
use learntorrent.Peer.Process.{PeerEvent, message, SessionEnd, head, react, stopped, finish}

-- Where a task is: it waits for the keeper to register it, or for its connection; it is at the head
-- of the loop, waits for a piece, or is at `select!`; or it has ended. The flag is `first_message`.
pub data Phase : Type 0 where
  registering connecting left : Phase
  looping asking selecting : Peer → Bool → Phase

pub record Task : Type 0 where
  pub phase : Phase
  pub answer : Option PieceMsg

-- `go` is the next step of a task that waits for nothing outside of the system.
pub data Input : Type 0 where
  go : Input
  connected : Option PeerErr → Input
  event : PeerEvent → Input

pub record System : Type 0 where
  pub keeper : PieceKeeper
  pub sent : List Sent
  pub inbox : List PmMsg
  pub tasks : List Task
  pub returned : Bool

pub data Move : Type 0 where
  create next_message : Move
  app_changed : AppState → Move
  turn : ℕ → Input → Move

abbrev pub keeper_msgs : List PeerSent → List PmMsg
keeper_msgs [] = []
keeper_msgs (to_keeper m ∷ sent) = m ∷ keeper_msgs sent
keeper_msgs (Peer.to_peer m ∷ sent) = keeper_msgs sent

abbrev pub at : Phase → Task
at phase = record { phase = phase; answer = none }

-- Whether the message that was handled was the first one.
abbrev pub still_first : Bool → PeerEvent → Bool
still_first first_message (message m) = false
still_first first_message e = first_message

-- A task goes on, or sends its last messages.
unfoldable pub settle : Bool → SessionEnd → Panics (Task × List PmMsg)
settle first_message e = elim e.result [
  | none ↦ ok (at (looping e.peer first_message), keeper_msgs e.sent)
  | some (ok done) ↦ ok (at left, keeper_msgs (finish e).sent)
  | some (err x) ↦ ok (at left, keeper_msgs (finish e).sent)
  | some panicked ↦ panicked
  | some out_of_fuel ↦ out_of_fuel
]

module _ (sha1 : List ℕ → List ℕ) (mi : Metainfo) where
  unfoldable pub connect : ℕ → Option PeerErr → Panics (Task × List PmMsg)
  unfolding settle
  connect id none = ok (at (looping (new id mi) true), [])
  connect id (some e) = settle true (stopped (new id mi) (some (err e)))

  -- The head of the loop up to the place where it awaits the answer, if it asks for a piece.
  unfoldable pub ask : Peer → Bool → Task × List PmMsg
  ask p first_message =
      if not p.am_choked && idle p.piece_tracker
      then (at (asking p first_message), pick p.id ∷ [])
      else (at (selecting (head none_available p).0 first_message), [])

  unfoldable pub take_answer : Peer → Bool → Option PieceMsg → Task
  take_answer p first_message none = at (asking p first_message)
  take_answer p first_message (some answer) = at (selecting (head answer p).0 first_message)

  -- What the task with the ID does on an input; on an input that it does not wait for, nothing.
  unfoldable pub advance : ℕ → Option PieceMsg → Phase → Input → Panics (Task × List PmMsg)
  unfolding connect ask take_answer settle
  advance id answer connecting (connected setup) = connect id setup
  advance id answer (looping p f) go = ok (ask p f)
  advance id answer (asking p f) go = ok (take_answer p f answer, [])
  advance id answer (selecting p f) (event e) =
      settle (still_first f e) (react sha1 p f e (stopped p none) (λ p'. stopped p' none))
  advance id answer phase input = ok (record { phase = phase; answer = answer }, [])

abbrev pub absent : Task
absent = at left

unfoldable pub modify : ℕ → (Task → Task) → List Task → List Task
modify i f [] = []
modify zero f (t ∷ ts) = f t ∷ ts
modify (suc i) f (t ∷ ts) = t ∷ modify i f ts

-- `Peer::create` goes on when the keeper answers, and the task connects.
unfoldable pub begin_connect : Phase → Phase
begin_connect registering = connecting
begin_connect phase = phase

-- A message of the keeper to a task.
unfoldable pub deliver : List Sent → List Task → List Task
unfolding modify begin_connect
deliver [] ts = ts
deliver (to_peer i msg ∷ sent) ts = deliver sent (modify i (λ t. record t { answer = some msg }) ts)
deliver (registered i ∷ sent) ts =
    deliver sent (modify i (λ t. record t { phase = begin_connect t.phase }) ts)
deliver (_ ∷ sent) ts = deliver sent ts

-- The state after a handler of the keeper.
abbrev pub handled : System → List PmMsg → PieceKeeper × List Sent → System
handled s inbox (keeper, sent) = record s {
  keeper = keeper;
  sent = s.sent ++ sent;
  inbox = inbox;
  tasks = deliver sent s.tasks;
}

abbrev pub leave : System → System
leave s = record s { sent = s.sent ++ io_exit ∷ []; returned = true }

-- A send to a keeper that has returned is a panic.
abbrev pub send_all : System → List Task → List PmMsg → Panics System
send_all s tasks [] = ok (record s { tasks = tasks })
send_all s tasks (m ∷ msgs) =
    if s.returned then panicked else ok (record s { tasks = tasks; inbox = s.inbox ++ m ∷ msgs })

module _ (draw : ℕ → ℕ) (sha1 : List ℕ → List ℕ) (mi : Metainfo) where
  -- The next message, if there is one.
  unfoldable pub handle_next : System → List PmMsg → Panics System
  unfolding PieceKeeper.handle_msg deliver
  handle_next s [] = ok s
  handle_next s (m ∷ inbox) = PieceKeeper.handle_msg draw s.keeper m >>= λ r. ok (handled s inbox r)

  unfoldable pub turn_of : System → ℕ → Input → Option Task → Panics System
  unfolding advance
  turn_of s i input none = ok s
  turn_of s i input (some t) =
      advance sha1 mi i t.answer t.phase input >>= λ r. send_all s (set s.tasks i r.0) r.1

  unfoldable pub move : System → Move → Panics System
  unfolding handle_next turn_of deliver
  move s create = send_all s (s.tasks ++ at registering ∷ []) (register (length s.tasks) ∷ [])
  move s next_message =
      if s.returned
      then ok s
      else if s.keeper.should_exit && is_empty s.keeper.peers
      then ok (leave s)
      else handle_next s s.inbox
  move s (app_changed a) =
      if s.returned
      then ok s
      else PieceKeeper.handle draw s.keeper (PieceKeeper.appstate a) >>= λ r.
          ok (handled s s.inbox r)
  move s (turn i input) = turn_of s i input (get_elem? s.tasks i)

  unfoldable pub play : System → List Move → Panics System
  unfolding move
  play s [] = ok s
  play s (m ∷ moves) = move s m >>= λ s'. play s' moves

unfoldable pub start : Metainfo → System
unfolding PieceKeeper.new
start mi = record {
  keeper = PieceKeeper.new (piece_count mi);
  sent = [];
  inbox = [];
  tasks = [];
  returned = false;
}

-- ===== src/PieceKeeper.antt =====
-- src/piece_keeper.rs: the task that hands pieces to the peer tasks and collects the finished ones.
-- A handler returns the new state and the messages that it sends, in order; the sends themselves
-- succeed (the receivers live as long as their tasks). A sender in `peers` has no state of its own,
-- so the map is the list of the registered tasks.
pub mod Invariant
pub mod Handlers
pub mod Pick
pub mod Messages
pub mod Runs
use learntorrent.Base.{
  ℕ, zero, suc, ◌+◌, Bool, true, false, not, ◌&&◌, Option, none, some, List, [], ◌∷◌, ◌++◌, ltb,
  ◌==◌, if◌then◌else◌, length, get_elem?, remove,
}
use learntorrent.Base.Maps
use learntorrent.Base.Words.{sub32}
use learntorrent.Base.Outcome.{Outcome, ok, err, panicked, expect, ◌>>=◌}
use learntorrent.BitField
use learntorrent.BitField.{BitField, Panics}
use learntorrent.PieceList
use learntorrent.PieceList.{PieceList}
use learntorrent.PieceTracker.{ValidatedPiece}

pub data AppState : Type 0 where
  running pause exit : AppState

pub data PieceMsg : Type 0 where
  piece : ℕ → PieceMsg
  none_available : PieceMsg

-- `PmMsg`; the channel in a register message is the task's own.
pub data PmMsg : Type 0 where
  have : ℕ → ℕ → PmMsg
  bitfield : ℕ → List ℕ → PmMsg
  pick : ℕ → PmMsg
  piece_failed : ℕ → PmMsg
  piece_finished : ValidatedPiece → PmMsg
  register : ℕ → PmMsg
  deregister : ℕ → PmMsg

-- What the keeper sends: to a peer task, to the I/O task, to a task that registers, and the
-- notification that the torrent is complete.
pub data Sent : Type 0 where
  to_peer : ℕ → PieceMsg → Sent
  to_io : ValidatedPiece → Sent
  io_exit : Sent
  registered : ℕ → Sent
  complete : Sent

pub record PieceKeeper : Type 0 where
  pub peers_pieces : List (ℕ × BitField)
  pub piece_queue : PieceList
  pub finished_pieces : PieceList
  pub pending_pieces : List ℕ
  pub piece_count : ℕ
  pub missing_pieces : ℕ
  pub peers : List ℕ
  pub should_exit : Bool

abbrev pub Handled : Type 0
Handled = Panics (PieceKeeper × List Sent)

unfoldable pub new : ℕ → PieceKeeper
new num_pieces = record {
  peers_pieces = [];
  piece_queue = PieceList.new_full num_pieces;
  finished_pieces = PieceList.new_empty;
  pending_pieces = [];
  piece_count = num_pieces;
  missing_pieces = num_pieces;
  peers = [];
  should_exit = false;
}

-- The entry of the task, or an empty bit field for it.
abbrev entry_or_new : ℕ → Option BitField → BitField
entry_or_new piece_count (some bf) = bf
entry_or_new piece_count none = BitField.new_empty piece_count

abbrev entry : PieceKeeper → ℕ → BitField
entry k task_id = entry_or_new k.piece_count (Maps.lookup task_id k.peers_pieces)

unfoldable pub on_have_msg : PieceKeeper → ℕ → ℕ → Handled
on_have_msg k task_id piece_id = do
  bf ← BitField.set_piece (entry k task_id) piece_id
  ok (record k { peers_pieces = Maps.insert task_id bf k.peers_pieces }, [])

unfoldable pub on_bitfield_msg : PieceKeeper → ℕ → List ℕ → Handled
on_bitfield_msg k task_id bytes =
    ok (record k { peers_pieces = Maps.insert task_id bytes k.peers_pieces }, [])

-- A task that is not registered has no sender: a panic.
send_pick : ℕ → PieceKeeper × PieceMsg → Handled
send_pick task_id (k, msg) =
    if Maps.has task_id k.peers then ok (k, to_peer task_id msg ∷ []) else panicked

-- `draw len` is the index that the random number generator gives for `0..len`.
module _ (draw : ℕ → ℕ) where
  unfoldable pub endgame_pick : PieceKeeper → Panics PieceMsg
  endgame_pick k =
      let len = length k.pending_pieces in
      if ltb k.missing_pieces 50 && ltb 0 len
      then (do pid ← expect (get_elem? k.pending_pieces (draw len)); ok (piece pid))
      else ok none_available

  picked : PieceKeeper → Option ℕ × PieceList → Panics (PieceKeeper × PieceMsg)
  unfolding endgame_pick
  picked k (some pid, queue) =
      ok
        (record k { piece_queue = queue; pending_pieces = k.pending_pieces ++ pid ∷ [] }, piece pid)
  picked k (none, queue) = do
    msg ← endgame_pick (record k { piece_queue = queue })
    ok (record k { piece_queue = queue }, msg)

  pick_for : PieceKeeper → Option BitField → Panics (PieceKeeper × PieceMsg)
  unfolding picked
  pick_for k none = ok (k, none_available)
  pick_for k (some available) = PieceList.next k.piece_queue available >>= picked k

  unfoldable pub on_pick_msg : PieceKeeper → ℕ → Handled
  unfolding pick_for send_pick
  on_pick_msg k task_id = pick_for k (Maps.lookup task_id k.peers_pieces) >>= send_pick task_id

is_none : Option ℕ → Bool
is_none none = true
is_none (some i) = false

unfoldable pub on_piece_failed : PieceKeeper → ℕ → Handled
unfolding is_none
on_piece_failed k pid =
    if is_none (PieceList.contains k.finished_pieces pid) && not (Maps.has pid k.pending_pieces)
    then (do queue ← PieceList.insert k.piece_queue pid; ok (record k { piece_queue = queue }, []))
    else ok (k, [])

unfoldable pub finish_at : PieceKeeper → ValidatedPiece → Option ℕ → Handled
finish_at k vp none = ok (k, [])
finish_at k vp (some i) = do
  finished ← PieceList.insert k.finished_pieces vp.pid
  let missing = sub32 k.missing_pieces 1
  let k' : PieceKeeper = record k {
    pending_pieces = remove k.pending_pieces i;
    finished_pieces = finished;
    missing_pieces = missing;
  }
  ok (k', if missing == 0 then complete ∷ to_io vp ∷ [] else to_io vp ∷ [])

unfoldable pub on_piece_finished_msg : PieceKeeper → ValidatedPiece → Handled
unfolding finish_at
on_piece_finished_msg k vp = finish_at k vp (Maps.position vp.pid k.pending_pieces)

abbrev pub without : ℕ → List ℕ → List ℕ
without x [] = []
without x (y ∷ ys) = if y == x then without x ys else y ∷ without x ys

unfoldable pub on_register_msg : PieceKeeper → ℕ → Handled
on_register_msg k task_id = ok (
  record k { peers = if Maps.has task_id k.peers then k.peers else k.peers ++ task_id ∷ [] },
  registered task_id ∷ [],
)

unfoldable pub on_deregister_msg : PieceKeeper → ℕ → Handled
on_deregister_msg k task_id = ok (
  record k { peers = without task_id k.peers; peers_pieces = Maps.delete task_id k.peers_pieces },
  [],
)

-- What the loop of `start` waits for: a message, or a change of the application's state.
pub data Event : Type 0 where
  message : PmMsg → Event
  appstate : AppState → Event

unfoldable pub handle_msg : (ℕ → ℕ) → PieceKeeper → PmMsg → Handled
handle_msg draw k (have task_id piece_id) = on_have_msg k task_id piece_id
handle_msg draw k (bitfield task_id bytes) = on_bitfield_msg k task_id bytes
handle_msg draw k (pick task_id) = on_pick_msg draw k task_id
handle_msg draw k (piece_failed pid) = on_piece_failed k pid
handle_msg draw k (piece_finished vp) = on_piece_finished_msg k vp
handle_msg draw k (register task_id) = on_register_msg k task_id
handle_msg draw k (deregister task_id) = on_deregister_msg k task_id

unfoldable pub handle : (ℕ → ℕ) → PieceKeeper → Event → Handled
unfolding handle_msg
handle draw k (message m) = handle_msg draw k m
handle draw k (appstate exit) = ok (record k { should_exit = true }, [])
handle draw k (appstate state) = ok (k, [])

unfoldable pub is_empty : List ℕ → Bool
is_empty [] = true
is_empty (x ∷ xs) = false

-- How a run of the loop ended: `true` if the task returned, `false` if it waits for more events.
pub record RunEnd : Type 0 where
  pub keeper : PieceKeeper
  pub sent : List Sent
  pub returned : Bool

abbrev after_sends : List Sent → RunEnd → RunEnd
after_sends first r = record { keeper = r.keeper; sent = first ++ r.sent; returned = r.returned }

-- The loop of `start` on the events that arrive.
unfoldable pub run : (ℕ → ℕ) → PieceKeeper → List Event → Panics RunEnd
unfolding handle is_empty
run draw k [] = ok (
    if k.should_exit && is_empty k.peers
    then record { keeper = k; sent = io_exit ∷ []; returned = true }
    else record { keeper = k; sent = []; returned = false })
run draw k (e ∷ events) =
    let next = handle draw k e >>= λ r. run draw r.0 events >>= λ o. ok (after_sends r.1 o) in
    if k.should_exit && is_empty k.peers
    then ok (record { keeper = k; sent = io_exit ∷ []; returned = true })
    else next

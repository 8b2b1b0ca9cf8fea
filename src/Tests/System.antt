-- ===== src/Tests/System.antt =====
-- A task that connects, gets a piece to download, and loses its connection.
use learntorrent.Base.{
  ℕ, ◌+◌, ◌<◌, ◌≤◌, ◌≡◌, ◌↔◌, refl, none, List, [], ◌∷◌, ltb, to_nat, length, replicate, get_or,
  arith, All, true, false,
}
use learntorrent.Base.Float.{ceil_quotient}
use learntorrent.Base.Maps
use learntorrent.Base.Outcome.{ok, panicked}
use learntorrent.Metainfo.{piece_count}
use learntorrent.Message
use learntorrent.PieceKeeper.{running, exit, registered, register}
use learntorrent.PieceKeeper
use learntorrent.Peer.{new}
use learntorrent.PieceKeeper.Handlers.{writes, completions}
use learntorrent.Peer.Process.{message}
use learntorrent.System.{
  System, Move, at, looping, registering, create, next_message, app_changed, turn, go, connected,
  event, absent, play, start,
}
use learntorrent.System.Invariant.{picks, registers, awaits, joins, held}
use learntorrent.System.Exit.{exit_lem}
use learntorrent.System.Runs.{MoveOk, play_lem, serve_lem}
use learntorrent.Tests.Session.{three_pieces, constant_hash}
use learntorrent.Tests.Keeper.{draw, draw_in_range}

-- Two tasks; the second has not been registered yet.
abbrev schedule : List Move
schedule =
    create
    ∷ next_message
    ∷ turn 0 (connected none)
    ∷ turn 0 go
    ∷ turn 0 (event (message (Message.bitfield (224 ∷ []))))
    ∷ create
    ∷ turn 0 go
    ∷ app_changed running
    ∷ turn 0 (event (message Message.unchoke))
    ∷ turn 0 go
    ∷ next_message
    ∷ []

schedule_ok : All (MoveOk 3) schedule
schedule_ok = (tt, (tt, (tt, (tt, ((omega arith, tt), (tt, (tt, (tt, (tt, (tt, (tt, tt)))))))))))

play_lem_example :
    (s : System) × (play draw constant_hash three_pieces (start three_pieces) schedule ≡ ok s)
    × ((p : ℕ) → writes p s.sent ≤ to_nat (ltb p (piece_count three_pieces)))
    × (completions s.sent ≤ 1)
    × (completions s.sent ≡ 1 ↔ ((p : ℕ) → p < piece_count three_pieces → writes p s.sent ≡ 1))
    × ((i : ℕ)
        → let t = get_or s.tasks i absent in
          (picks i s.inbox + held t.answer ≡ awaits t.phase)
          × (registers i s.inbox ≡ joins t.phase))
unfolding piece_count ceil_quotient
play_lem_example =
    play_lem three_pieces draw constant_hash schedule draw_in_range (omega arith) (omega arith)
      (omega arith) (omega arith) schedule_ok

-- The first task is connected, the second one is in the channel.
abbrev two_tasks : System
two_tasks = record {
  keeper = record (PieceKeeper.new 3) { peers = 0 ∷ [] };
  sent = registered 0 ∷ [];
  inbox = register 1 ∷ [];
  tasks = at (looping (new 0 three_pieces) true) ∷ at registering ∷ [];
  returned = false;
}

two_tasks_played :
    play draw constant_hash three_pieces
      (start three_pieces)
      (create ∷ next_message ∷ turn 0 (connected none) ∷ create ∷ [])
    ≡ ok two_tasks
unfolding play start PieceKeeper.on_register_msg piece_count Maps.has ceil_quotient
two_tasks_played = refl

serve_lem_example :
    (s' : System) × (play draw constant_hash three_pieces two_tasks
        (replicate (length two_tasks.inbox) next_message)
      ≡ ok s')
    × (s'.inbox ≡ [])
    × ((i : ℕ)
        → let t = get_or s'.tasks i absent in
          (held t.answer ≡ awaits t.phase) × (joins t.phase ≡ 0))
unfolding piece_count ceil_quotient
serve_lem_example =
    serve_lem three_pieces draw constant_hash
      (create ∷ next_message ∷ turn 0 (connected none) ∷ create ∷ []) two_tasks draw_in_range
      (omega arith) (omega arith) (omega arith) (omega arith) (tt, (tt, (tt, (tt, tt))))
      two_tasks_played

-- The registration of the first task is in the channel.
abbrev one_waits : System
one_waits = record {
  keeper = PieceKeeper.new 3;
  sent = [];
  inbox = register 0 ∷ [];
  tasks = at registering ∷ [];
  returned = false;
}

one_waits_played :
    play draw constant_hash three_pieces (start three_pieces) (create ∷ []) ≡ ok one_waits
unfolding play start piece_count ceil_quotient
one_waits_played = refl

exit_lem_example :
    play draw constant_hash three_pieces one_waits
      (app_changed exit ∷ next_message ∷ turn 0 go ∷ create ∷ [])
    ≡ panicked
unfolding piece_count ceil_quotient
exit_lem_example =
    exit_lem three_pieces draw constant_hash (create ∷ []) (turn 0 go ∷ create ∷ []) one_waits
      draw_in_range (omega arith) (omega arith) (omega arith) (omega arith) (tt, tt)
      one_waits_played (unfold PieceKeeper.new PieceKeeper.is_empty in refl)

-- ===== src/Tests/Keeper.antt =====
-- A download of a torrent of two pieces by one peer task.
use learntorrent.Base.{
  ◌↔◌, ltb, to_nat, ◌≤◌, ◌∙◌, sym, subst, false, ◌∷◌, ◌<◌, arith, [], List, ℕ, refl, ◌≡◌,
}
use learntorrent.Base.Outcome.{ok}
use learntorrent.Base.Maps
use learntorrent.BitField
use learntorrent.PieceList
use learntorrent.PieceKeeper.{
  PieceKeeper, Event, Sent, RunEnd, bitfield, pick, piece_finished, register, deregister, message,
  appstate, exit, new, handle, handle_msg, run, on_bitfield_msg, on_pick_msg, on_piece_failed,
  on_piece_finished_msg, on_register_msg, on_deregister_msg, Handled, to_peer, registered, piece,
}
use learntorrent.PieceKeeper.Invariant.{IsConsistent}
use learntorrent.PieceKeeper.Handlers.{writes, completions, on_piece_failed_idle}
use learntorrent.PieceKeeper.Pick.{Answer, on_pick_msg-Answer}
use learntorrent.PieceKeeper.Messages.{AcceptsEvent}
use learntorrent.PieceKeeper.Runs.{AllAccepted, Safe, run-Safe, download}

-- The first index of the range, as the drawn one.
abbrev pub draw : ℕ → ℕ
draw len = 0

pub draw_in_range : (len : ℕ) → 0 < len → draw len < len
draw_in_range len h = h

-- The task 7 has the second piece only.
abbrev downloading : PieceKeeper
downloading = record {
  peers_pieces = (7, 64 ∷ []) ∷ [];
  piece_queue = (1, 1) ∷ [];
  finished_pieces = [];
  pending_pieces = 0 ∷ [];
  piece_count = 2;
  missing_pieces = 2;
  peers = 7 ∷ [];
  should_exit = false;
}

downloading-IsConsistent : IsConsistent downloading
downloading-IsConsistent = record {
  small = omega arith;
  queue = (omega arith, omega arith, omega arith, tt);
  finished = tt;
  once = λ p. ground arith;
  tally = omega arith;
  fields = (((omega arith, tt), omega arith), tt);
}

on_pick_msg-Answer_example : Answer downloading 7 (on_pick_msg draw downloading 7)
on_pick_msg-Answer_example =
    on_pick_msg-Answer draw draw_in_range downloading 7 downloading-IsConsistent
      (unfold Maps.has in refl)

on_piece_failed_idle_example : on_piece_failed downloading 0 ≡ ok (downloading, [])
on_piece_failed_idle_example =
    on_piece_failed_idle downloading 0 downloading-IsConsistent (omega arith)

-- One accepted event, and what it leads to.
accepted :
    (k : PieceKeeper) (e : Event) (events : List Event) (k' : PieceKeeper) (sent : List Sent)
    → AcceptsEvent k e
    → handle draw k e ≡ ok (k', sent)
    → AllAccepted draw k' events
    → AllAccepted draw k (e ∷ events)
accepted k e events k' sent a h rest = (
  a,
  λ k'' sent' h'. subst (λ x. AllAccepted draw x events) (same k' k'' sent sent' (sym h ∙ h')) rest,
)
  where
    same :
        (k' k'' : PieceKeeper) (s s' : List Sent)
        → ◌≡◌ {A = Handled} (ok (k', s)) (ok (k'', s'))
        → k' ≡ k''
    same k' k'' s s' h = cc

abbrev finish : ℕ → Event
finish p = message (piece_finished (record { pid = p; blocks = [] }))

abbrev registered_task : PieceKeeper
registered_task = record {
  peers_pieces = [];
  piece_queue = (0, 1) ∷ [];
  finished_pieces = [];
  pending_pieces = [];
  piece_count = 2;
  missing_pieces = 2;
  peers = 7 ∷ [];
  should_exit = false;
}

abbrev with_field : PieceKeeper
with_field = record registered_task { peers_pieces = (7, 192 ∷ []) ∷ [] }

abbrev picked_first : PieceKeeper
picked_first = record with_field { piece_queue = (1, 1) ∷ []; pending_pieces = 0 ∷ [] }

abbrev finished_first : PieceKeeper
finished_first = record picked_first {
  finished_pieces = (0, 0) ∷ [];
  pending_pieces = [];
  missing_pieces = 1;
}

abbrev picked_second : PieceKeeper
picked_second = record finished_first { piece_queue = []; pending_pieces = 1 ∷ [] }

abbrev finished_second : PieceKeeper
finished_second = record picked_second {
  finished_pieces = (0, 1) ∷ [];
  pending_pieces = [];
  missing_pieces = 0;
}

abbrev without_peers : PieceKeeper
without_peers = record finished_second { peers = []; peers_pieces = [] }

abbrev last_events : List Event
last_events = message (deregister 7) ∷ appstate exit ∷ []

abbrev second_piece : List Event
second_piece = message (pick 7) ∷ finish 1 ∷ last_events

abbrev late_events : List Event
late_events = finish 0 ∷ second_piece

abbrev first_piece : List Event
first_piece = message (pick 7) ∷ late_events

abbrev events : List Event
events = message (register 7) ∷ message (bitfield 7 (192 ∷ [])) ∷ first_piece

last_events-AllAccepted : AllAccepted draw finished_second last_events
unfolding handle handle_msg on_deregister_msg Maps.delete
last_events-AllAccepted =
    accepted finished_second (message (deregister 7)) (appstate exit ∷ []) without_peers _ tt refl
      (accepted without_peers (appstate exit) [] _ _ tt refl tt)

second_piece-AllAccepted : AllAccepted draw finished_first second_piece
unfolding handle handle_msg on_pick_msg on_piece_finished_msg Maps.has Maps.lookup Maps.position
    PieceList.next BitField.has_piece PieceList.insert
second_piece-AllAccepted =
    accepted finished_first (message (pick 7)) (finish 1 ∷ last_events) picked_second
      (to_peer 7 (piece 1) ∷ []) refl refl
      (accepted picked_second (finish 1) last_events finished_second _ tt refl
        last_events-AllAccepted)

late_events-AllAccepted : AllAccepted draw picked_first late_events
unfolding handle handle_msg on_piece_finished_msg Maps.position PieceList.insert
late_events-AllAccepted =
    accepted picked_first (finish 0) second_piece finished_first _ tt refl second_piece-AllAccepted

events-AllAccepted : AllAccepted draw (new 2) events
unfolding new PieceList.new_full PieceList.new_empty handle handle_msg on_pick_msg on_register_msg
    on_bitfield_msg Maps.has Maps.lookup Maps.insert PieceList.next BitField.has_piece
events-AllAccepted =
    accepted (new 2) (message (register 7)) (message (bitfield 7 (192 ∷ [])) ∷ first_piece)
      registered_task (registered 7 ∷ []) tt refl
      (accepted registered_task (message (bitfield 7 (192 ∷ []))) first_piece with_field []
        ((omega arith, tt), omega arith) refl
        (accepted with_field (message (pick 7)) late_events picked_first (to_peer 7 (piece 0) ∷ [])
          refl refl late_events-AllAccepted))

picked_first-IsConsistent : IsConsistent picked_first
picked_first-IsConsistent = record {
  small = omega arith;
  queue = (omega arith, omega arith, omega arith, tt);
  finished = tt;
  once = λ p. ground arith;
  tally = omega arith;
  fields = (((omega arith, tt), omega arith), tt);
}

run-Safe_example : (o : RunEnd) × (run draw picked_first late_events ≡ ok o) × Safe picked_first o
run-Safe_example =
    run-Safe draw draw_in_range picked_first late_events picked_first-IsConsistent
      late_events-AllAccepted

download_example :
    (o : RunEnd) × (run draw (new 2) events ≡ ok o)
    × ((p : ℕ) → writes p o.sent ≤ to_nat (ltb p 2))
    × (completions o.sent ≤ 1)
    × (completions o.sent ≡ 1 ↔ ((p : ℕ) → p < 2 → writes p o.sent ≡ 1))
download_example =
    download draw draw_in_range 2 events (omega arith) (omega arith) events-AllAccepted

-- ===== src/System/Runs.antt =====
-- The system on a schedule.
use learntorrent.Base.{
  ℕ, ◌+◌, ◌<◌, ◌≤◌, ◌^◌, ◌≡◌, ◌↔◌, refl, sym, ap, ◌∙◌, subst, Bool, true, ◌&&◌, if◌then◌else◌,
  false, Option, none, some, List, [], ◌∷◌, arith, get_or, get_elem?, set, to_nat, ltb, length,
  replicate, append-nil, All,
}
use learntorrent.Base.Maps
use learntorrent.Base.Outcome.{ok}
use learntorrent.BitField.{Panics}
use learntorrent.Metainfo.{Metainfo, piece_count}
use learntorrent.PieceKeeper.{running, pause, exit, is_empty, PmMsg, new, handle}
use learntorrent.PieceKeeper.Handlers.{writes, completions}
use learntorrent.PieceKeeper.Messages.{handle_msg-Handles}
use learntorrent.PieceKeeper.Invariant.{new-IsConsistent}
use learntorrent.PieceKeeper.Runs.{Safe, Handles-ok, from_start}
use learntorrent.System.{
  Panics, System, Task, Move, Input, create, next_message, app_changed, turn, absent, deliver,
  handled, handle_next, turn_of, move, play, start,
}
use learntorrent.System.Invariant.{
  joins, TaskOk, Holds, AllFine, IsFine, members, picks, registers, awaits, held,
}
use learntorrent.System.Keeper.{Delivers, handle_msg-Answered, accepts_lem}
use learntorrent.System.Delivery.{delivered-TaskOk}
use learntorrent.System.Places.{get_elem?-get_or}
use learntorrent.System.Tasks.{InputOk, Goes}
use learntorrent.System.Turns.{advance-Goes}
use learntorrent.System.Channel.{later-Safe, GoesOn, send_all-GoesOn, create-TaskOk, turn-TaskOk}

-- A move of a schedule without the exit of the application, whose events bring bytes and pieces of
-- the torrent.
abbrev pub MoveOk : ℕ → Move → Type 0
MoveOk count (turn i input) = InputOk count input
MoveOk count (app_changed exit) = ⊥
MoveOk count _ = Unit

module _ (mi : Metainfo) (draw : ℕ → ℕ) (in_range : (len : ℕ) → 0 < len → draw len < len)
    (sha1 : List ℕ → List ℕ) where
  -- The keeper takes the next message.
  take_next :
      (s : System) (m : PmMsg) (inbox : List PmMsg)
      → Holds mi s
      → s.inbox ≡ m ∷ inbox
      → (s' : System) × (handle_next draw sha1 mi s (m ∷ inbox) ≡ ok s')
        × (s'.inbox ≡ inbox)
        × Holds mi s'
  unfolding handle_next new
  take_next s m inbox h e =
      let k = s.keeper in
      let c = h.safe.consistent in
      let count : piece_count mi ≡ k.piece_count = sym h.safe.same_count in
      let fine = subst (AllFine (piece_count mi) k.peers) e h.fine in
      let f = subst (λ n. IsFine n k.peers m) count fine.0 in
      let (r, x, n) =
        Handles-ok (handle_msg-Handles draw in_range k m c (accepts_lem draw in_range k m f)) in
      let a = handle_msg-Answered draw in_range k m c f r x in
      (
        handled s inbox r,
        rw x refl,
        refl,
        record {
          stays = h.stays;
          running = a.same_exit ∙ h.running;
          safe = later-Safe (new (piece_count mi)) k r.0 s.sent r.1 h.safe n;
          fine = subst (λ ids. AllFine (piece_count mi) ids inbox) (sym a.peers) fine.1;
          tasks = λ i.
              subst
                (λ ids.
                  TaskOk mi i (Maps.has i (members inbox ids)) inbox
                    (get_or (deliver r.1 s.tasks) i absent))
                (sym a.peers)
                (delivered-TaskOk mi m inbox r.1 s.tasks i _
                  (subst (λ n. Delivers n m r.1) (sym count) a.delivered)
                  (subst
                    (λ b. TaskOk mi i (Maps.has i (members b k.peers)) b (get_or s.tasks i absent))
                    e (h.tasks i)));
        },
      )

  handle_next-GoesOn :
      (s : System) (inbox : List PmMsg)
      → Holds mi s
      → s.inbox ≡ inbox
      → GoesOn mi (handle_next draw sha1 mi s inbox)
  unfolding GoesOn handle_next
  handle_next-GoesOn s [] h e = (s, refl, h)
  handle_next-GoesOn s (m ∷ inbox) h e = let (s', x, _, h') = take_next s m inbox h e in (s', x, h')

  unless : (test : Bool) (o o' : Panics System) → test ≡ false → (if test then o else o') ≡ o'
  unless true o o' e = absurd (cc e)
  unless false o o' e = refl

  -- The keeper has not returned, and should not.
  next_message_lem :
      (s : System)
      → Holds mi s
      → move draw sha1 mi s next_message ≡ handle_next draw sha1 mi s s.inbox
  unfolding move
  next_message_lem s h =
      unless _ _ _ h.stays ∙ unless _ _ _ (ap (λ b. b && is_empty s.keeper.peers) h.running)

  serve :
      (s : System) (inbox : List PmMsg)
      → Holds mi s
      → s.inbox ≡ inbox
      → (s' : System) × (play draw sha1 mi s (replicate (length inbox) next_message) ≡ ok s')
        × (s'.inbox ≡ [])
        × Holds mi s'
  unfolding play
  serve s [] h e = (s, refl, e, h)
  serve s (m ∷ inbox) h e =
      let (s₁, x, e₁, h₁) = take_next s m inbox h e in
      let first = next_message_lem s h ∙ ap (handle_next draw sha1 mi s) e ∙ x in
      let (s₂, y, e₂, h₂) = serve s₁ inbox h₁ e₁ in (s₂, rw first y, e₂, h₂)

  module _ (some_pieces : 0 < piece_count mi) (small : piece_count mi ≤ 2 ^ 24)
      (hashes : piece_count mi ≤ length mi.piece_hashes) (word : mi.piece_length < 2 ^ 32) where
    turn_of-GoesOn :
        (s : System) (i : ℕ) (input : Input) (t : Option Task)
        → Holds mi s
        → InputOk (piece_count mi) input
        → get_elem? s.tasks i ≡ t
        → GoesOn mi (turn_of draw sha1 mi s i input t)
    unfolding GoesOn turn_of Goes
    turn_of-GoesOn s i input none h o e = (s, refl, h)
    turn_of-GoesOn s i input (some t) h o e =
        let ok_before =
          subst (λ x. TaskOk mi i (Maps.has i (members s.inbox s.keeper.peers)) s.inbox x)
            (get_elem?-get_or absent s.tasks i t e) (h.tasks i) in
        let (r, x, k) =
          advance-Goes mi some_pieces small hashes word sha1 i (members s.inbox s.keeper.peers)
            t.answer t.phase input ok_before.phase ok_before.answer
            (omega (arith, ok_before.one_answer)) o in
        rw x (send_all-GoesOn mi s (set s.tasks i r.0) r.1 h k.fine (turn-TaskOk mi s i t r h e k))

    paused : (s : System) → Holds mi s → GoesOn mi (ok (handled s s.inbox (s.keeper, [])))
    unfolding GoesOn deliver
    paused s h = (
      _,
      refl,
      record {
        stays = h.stays;
        running = h.running;
        safe =
            subst
              (λ x.
                Safe (new (piece_count mi))
                  (record { keeper = s.keeper; sent = x; returned = false }))
              (sym (append-nil s.sent)) h.safe;
        fine = h.fine;
        tasks = h.tasks;
      },
    )

    move-GoesOn :
        (s : System) (m : Move)
        → Holds mi s
        → MoveOk (piece_count mi) m
        → GoesOn mi (move draw sha1 mi s m)
    unfolding move handle
    move-GoesOn s create h o = send_all-GoesOn mi s _ _ h (tt, tt) (create-TaskOk mi s h)
    move-GoesOn s next_message h o =
        subst (GoesOn mi) (sym (next_message_lem s h)) (handle_next-GoesOn s s.inbox h refl)
    move-GoesOn s (app_changed running) h o =
        subst (GoesOn mi) (sym (unless _ _ _ h.stays)) (paused s h)
    move-GoesOn s (app_changed pause) h o =
        subst (GoesOn mi) (sym (unless _ _ _ h.stays)) (paused s h)
    move-GoesOn s (app_changed exit) h o = absurd o
    move-GoesOn s (turn i input) h o = turn_of-GoesOn s i input _ h o refl

    pub play-GoesOn :
        (s : System) (moves : List Move)
        → Holds mi s
        → All (MoveOk (piece_count mi)) moves
        → GoesOn mi (play draw sha1 mi s moves)
    unfolding GoesOn play
    play-GoesOn s [] h a = (s, refl, h)
    play-GoesOn s (m ∷ moves) h (o, a) =
        let (s', e, h') = move-GoesOn s m h o in rw e (play-GoesOn s' moves h' a)

pub start-Holds :
    (mi : Metainfo) → 0 < piece_count mi → piece_count mi ≤ 2 ^ 24 → Holds mi (start mi)
unfolding start new
start-Holds mi some_pieces small = record {
  stays = refl;
  running = refl;
  safe = record {
    consistent = new-IsConsistent (piece_count mi) some_pieces small;
    same_count = refl;
    written = λ p. omega arith;
    notified = omega arith;
    quiet = λ e. absurd (cc e);
  };
  fine = tt;
  tasks = λ i. record { phase = tt; answer = tt; one_answer = omega arith; one_join = refl };
}

-- If `draw` answers an index in range, and the torrent has 1 to 2 ^ 24 pieces of less than 2 ^ 32
-- bytes and a hash for each, then the Piece Keeper and any number of peer tasks do not panic on
-- any schedule, from the start and without the exit of the application, on which the messages of
-- peers are made of bytes and their have messages name pieces of the torrent. The keeper sends
-- each piece of the torrent to the I/O task at most once, and no other piece; it notifies the
-- completion at most once, and exactly if it sent every piece. A task that waits for a piece has
-- either one request in the channel to the keeper or one answer, a task that waits to be
-- registered has one registration in the channel, and no other task has any.
pub play_lem :
    (mi : Metainfo) (draw : ℕ → ℕ) (sha1 : List ℕ → List ℕ) (moves : List Move)
    → ((len : ℕ) → 0 < len → draw len < len)
    → 0 < piece_count mi
    → piece_count mi ≤ 2 ^ 24
    → piece_count mi ≤ length mi.piece_hashes
    → mi.piece_length < 2 ^ 32
    → All (MoveOk (piece_count mi)) moves
    → (s : System) × (play draw sha1 mi (start mi) moves ≡ ok s)
      × ((p : ℕ) → writes p s.sent ≤ to_nat (ltb p (piece_count mi)))
      × (completions s.sent ≤ 1)
      × (completions s.sent ≡ 1 ↔ ((p : ℕ) → p < piece_count mi → writes p s.sent ≡ 1))
      × ((i : ℕ)
          → let t = get_or s.tasks i absent in
            (picks i s.inbox + held t.answer ≡ awaits t.phase)
            × (registers i s.inbox ≡ joins t.phase))
unfolding GoesOn
play_lem mi draw sha1 moves in_range some_pieces small hashes word a =
    let (s, e, h) =
      play-GoesOn mi draw in_range sha1 some_pieces small hashes word (start mi) moves
        (start-Holds mi some_pieces small) a in
    let (w, n, c) = from_start (piece_count mi) _ some_pieces h.safe in
    (s, e, w, n, c, λ i. ((h.tasks i).one_answer, (h.tasks i).one_join))

-- After any schedule as in `play_lem` the keeper empties its channel: when it goes on for as many
-- turns as there are messages in the channel, nothing panics, the channel is empty, each task that
-- waits for a piece has its answer, and no task waits to be registered.
pub serve_lem :
    (mi : Metainfo) (draw : ℕ → ℕ) (sha1 : List ℕ → List ℕ) (moves : List Move) (s : System)
    → ((len : ℕ) → 0 < len → draw len < len)
    → 0 < piece_count mi
    → piece_count mi ≤ 2 ^ 24
    → piece_count mi ≤ length mi.piece_hashes
    → mi.piece_length < 2 ^ 32
    → All (MoveOk (piece_count mi)) moves
    → play draw sha1 mi (start mi) moves ≡ ok s
    → (s' : System) × (play draw sha1 mi s (replicate (length s.inbox) next_message) ≡ ok s')
      × (s'.inbox ≡ [])
      × ((i : ℕ)
          → let t = get_or s'.tasks i absent in
            (held t.answer ≡ awaits t.phase) × (joins t.phase ≡ 0))
unfolding GoesOn
serve_lem mi draw sha1 moves s in_range some_pieces small hashes word a e =
    let (s₁, e₁, h₁) =
      play-GoesOn mi draw in_range sha1 some_pieces small hashes word (start mi) moves
        (start-Holds mi some_pieces small) a in
    let h = subst (Holds mi) (cc (sym e₁ ∙ e)) h₁ in
    let (s', x, empty, h') = serve mi draw in_range sha1 s s.inbox h refl in
    (
      s',
      x,
      empty,
      λ i.
          let o =
            subst
              (λ b.
                TaskOk mi i (Maps.has i (members b s'.keeper.peers)) b (get_or s'.tasks i absent))
              empty (h'.tasks i) in
          (omega (arith, o.one_answer), omega (arith, o.one_join)),
    )

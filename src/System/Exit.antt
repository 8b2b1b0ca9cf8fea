-- ===== src/System/Exit.antt =====
-- The exit of the application, and a task that is created after it.
use learntorrent.Base.{
  ℕ, zero, suc, ◌+◌, ◌<◌, ◌≤◌, ◌^◌, ◌≡◌, refl, sym, ap, ◌∙◌, subst, Bool, true, false, Option, none,
  some, List, [], ◌∷◌, ◌++◌, if◌then◌else◌, length, get_elem?, set, arith, All, append-nil,
  Bool-cases,
}
use learntorrent.Base.Maps
use learntorrent.Base.Outcome.{ok, panicked}
use learntorrent.Metainfo.{Metainfo, piece_count}
use learntorrent.PieceKeeper.{
  PmMsg, have, bitfield, pick, piece_failed, piece_finished, register, deregister, exit, io_exit,
  is_empty, handle,
}
use learntorrent.System.{
  Phase, Task, Input, System, Move, registering, connecting, left, looping, asking, selecting,
  create, next_message, app_changed, turn, absent, advance, turn_of, move, play, start, deliver,
}
use learntorrent.System.Invariant.{
  Holds, TaskOk, PhaseOk, members, after_msg, registers, joins, has-without, has-snoc,
}
use learntorrent.System.Places.{get_elem?-get_or}
use learntorrent.System.Channel.{GoesOn}
use learntorrent.System.Runs.{MoveOk, play-GoesOn, start-Holds}

-- Whether a schedule creates a task.
abbrev pub creates : List Move → Bool
creates [] = false
creates (create ∷ moves) = true
creates (_ ∷ moves) = creates moves

-- A task that is not registered, and does not register, stays out.
after_msg-out :
    (i : ℕ) (m : PmMsg) (ids : List ℕ)
    → registers i (m ∷ []) ≡ 0
    → Maps.has i ids ≡ false
    → Maps.has i (after_msg m ids) ≡ false
after_msg-out i (register j) ids n h =
    ground (arith, n, h, has-snoc i j ids, Bool-cases (Maps.has j ids))
after_msg-out i (deregister j) ids n h = ground (arith, h, has-without i j ids)
after_msg-out i (have j pid) ids n h = h
after_msg-out i (bitfield j bits) ids n h = h
after_msg-out i (pick j) ids n h = h
after_msg-out i (piece_failed pid) ids n h = h
after_msg-out i (piece_finished vp) ids n h = h

registers-first :
    (i : ℕ) (m : PmMsg) (inbox : List PmMsg)
    → registers i (m ∷ inbox) ≡ registers i (m ∷ []) + registers i inbox
registers-first i (register j) inbox = omega arith
registers-first i (deregister j) inbox = omega arith
registers-first i (have j pid) inbox = omega arith
registers-first i (bitfield j bits) inbox = omega arith
registers-first i (pick j) inbox = omega arith
registers-first i (piece_failed pid) inbox = omega arith
registers-first i (piece_finished vp) inbox = omega arith

members-out :
    (i : ℕ) (inbox : List PmMsg) (ids : List ℕ)
    → registers i inbox ≡ 0
    → Maps.has i ids ≡ false
    → Maps.has i (members inbox ids) ≡ false
members-out i [] ids n h = h
members-out i (m ∷ inbox) ids n h =
    let first = registers-first i m inbox in
    members-out i inbox (after_msg m ids) (omega (arith, n, first))
      (after_msg-out i m ids (omega (arith, n, first)) h)

-- The task waits for the keeper, or has ended.
data IsOutside : Phase → Type 0 where
  waits : IsOutside registering
  ended : IsOutside left

outside :
    (mi : Metainfo) (i : ℕ) (inbox : List PmMsg) (phase : Phase) (inside : Bool)
    → PhaseOk mi i inside phase
    → registers i inbox ≡ joins phase
    → (registers i inbox ≡ 0 → inside ≡ false)
    → IsOutside phase
outside mi i inbox registering inside p j h = waits
outside mi i inbox left inside p j h = ended
outside mi i inbox connecting inside p j h = absurd (cc (p, h j))
outside mi i inbox (looping q f) inside p j h = absurd (cc (p.0, h j))
outside mi i inbox (asking q f) inside p j h = absurd (cc (p.0, h j))
outside mi i inbox (selecting q f) inside p j h = absurd (cc (p.0, h j))

nobody : (i : ℕ) (ids : List ℕ) → is_empty ids ≡ true → Maps.has i ids ≡ false
unfolding is_empty Maps.has
nobody i [] h = refl
nobody i (x ∷ ids) h = absurd (cc h)

set_same : (ts : List Task) (i : ℕ) (t : Task) → get_elem? ts i ≡ some t → set ts i t ≡ ts
set_same [] i t h = refl
set_same (x ∷ ts) zero t h = ap (λ y. y ∷ ts) (cc h)
set_same (x ∷ ts) (suc i) t h = ap (λ ys. x ∷ ys) (set_same ts i t h)

module _ (draw : ℕ → ℕ) (sha1 : List ℕ → List ℕ) (mi : Metainfo) where
  -- Nothing wakes it.
  rests :
      (id : ℕ) (t : Task) (input : Input)
      → IsOutside t.phase
      → advance sha1 mi id t.answer t.phase input ≡ ok (t, [])
  rests id t input o =
      elim o
        as (λ p _.
          advance sha1 mi id t.answer p input ≡ ok (record { phase = p; answer = t.answer }, [])) [
            | waits ↦ unfold advance in refl
            | ended ↦ unfold advance in refl
          ]

  turn_of-rests :
      (s : System) (i : ℕ) (input : Input) (t : Option Task)
      → get_elem? s.tasks i ≡ t
      → ((i : ℕ) (t : Task) → get_elem? s.tasks i ≡ some t → IsOutside t.phase)
      → turn_of draw sha1 mi s i input t ≡ ok s
  unfolding turn_of
  turn_of-rests s i input none e o = refl
  turn_of-rests s i input (some t) e o =
      rw (rests i t input (o i t e))
        (ap (λ ts. ok (record s { tasks = ts })) (set_same s.tasks i t e))

  -- After the keeper returned.
  play-returned :
      (s : System) (moves : List Move)
      → s.returned ≡ true
      → ((i : ℕ) (t : Task) → get_elem? s.tasks i ≡ some t → IsOutside t.phase)
      → play draw sha1 mi s moves ≡ (if creates moves then panicked else ok s)
  unfolding play move
  play-returned s [] r o = refl
  play-returned s (create ∷ moves) r o = simp r refl
  play-returned s (next_message ∷ moves) r o = simp r (play-returned s moves r o)
  play-returned s (app_changed a ∷ moves) r o = simp r (play-returned s moves r o)
  play-returned s (turn i input ∷ moves) r o =
      rw (turn_of-rests s i input (get_elem? s.tasks i) refl o) (play-returned s moves r o)

-- The state in which the keeper has returned.
abbrev pub exited : System → System
exited s = record s {
  keeper = record s.keeper { should_exit = true };
  sent = s.sent ++ io_exit ∷ [];
  returned = true;
}

-- A system that holds the invariant, with no task registered, on the exit.
module _ (draw : ℕ → ℕ) (sha1 : List ℕ → List ℕ) (mi : Metainfo) where
  Holds-IsOutside :
      (s : System) (i : ℕ) (t : Task)
      → Holds mi s
      → is_empty s.keeper.peers ≡ true
      → get_elem? s.tasks i ≡ some t
      → IsOutside t.phase
  Holds-IsOutside s i t h n e =
      let k =
        subst (λ x. TaskOk mi i (Maps.has i (members s.inbox s.keeper.peers)) s.inbox x)
          (get_elem?-get_or absent s.tasks i t e) (h.tasks i) in
      outside mi i s.inbox t.phase _ k.phase k.one_join
        (λ z. members-out i s.inbox s.keeper.peers z (nobody i s.keeper.peers n))

  exit_moves :
      (s : System) (moves : List Move)
      → s.returned ≡ false
      → is_empty s.keeper.peers ≡ true
      → play draw sha1 mi s (app_changed exit ∷ next_message ∷ moves)
        ≡ play draw sha1 mi (exited s) moves
  unfolding play move deliver handle
  exit_moves s moves r n = simp (r, n, append-nil) refl

-- After any schedule as in `play_lem` at whose end no task is registered, when the application
-- exits, the keeper returns on its next turn, whatever is in its channel: on any schedule from
-- there nothing changes any more, so that a task whose registration is in the channel waits for
-- ever; and if the schedule creates a task, there is a panic.
pub exit_lem :
    (mi : Metainfo) (draw : ℕ → ℕ) (sha1 : List ℕ → List ℕ) (before after : List Move) (s : System)
    → ((len : ℕ) → 0 < len → draw len < len)
    → 0 < piece_count mi
    → piece_count mi ≤ 2 ^ 24
    → piece_count mi ≤ length mi.piece_hashes
    → mi.piece_length < 2 ^ 32
    → All (MoveOk (piece_count mi)) before
    → play draw sha1 mi (start mi) before ≡ ok s
    → is_empty s.keeper.peers ≡ true
    → play draw sha1 mi s (app_changed exit ∷ next_message ∷ after)
      ≡ (if creates after then panicked else ok (exited s))
unfolding GoesOn
exit_lem mi draw sha1 before after s in_range some_pieces small hashes word a e n =
    let (s₁, e₁, h₁) =
      play-GoesOn mi draw in_range sha1 some_pieces small hashes word (start mi) before
        (start-Holds mi some_pieces small) a in
    let h = subst (Holds mi) (cc (sym e₁ ∙ e)) h₁ in
    exit_moves draw sha1 mi s after h.stays n
    ∙ play-returned draw sha1 mi (exited s) after refl
        (λ i t. Holds-IsOutside draw sha1 mi s i t h n)

-- ===== src/System/Tasks.antt =====
-- What a turn of a task does to the task and to the channel.
use learntorrent.Base.{
  ℕ, ◌+◌, ◌≡◌, refl, sym, ap, ◌∙◌, subst, Bool, true, false, Option, none, List, [], ◌∷◌, ◌++◌,
  arith, ◌==◌, All,
}
use learntorrent.Base.Maps
use learntorrent.Base.Outcome.{ok}
use learntorrent.BitField.{Panics}
use learntorrent.Metainfo.{Metainfo, piece_count}
use learntorrent.PieceKeeper.{PieceMsg, PmMsg, deregister}
use learntorrent.Peer.{Peer, failure, to_keeper}
use learntorrent.Peer.Session.{IsAcceptable, Tracks}
use learntorrent.Peer.Balance.{EventBytes}
use learntorrent.Peer.Process.{SessionEnd, finish, farewell}
use learntorrent.System.{Phase, Task, Input, left, looping, event, at, settle, keeper_msgs}
use learntorrent.System.Invariant.{
  members, AllFine, picks, registers, awaits, joins, held, AnswerOk, IsOwn, PhaseOk, has-without,
}
use learntorrent.System.Events.{
  InTorrent, Turned, goes_on, returns, fails, AreReports, keeper_msgs-AreReports, AreLast,
  deregister-AreLast, failure-AreLast,
}

-- What an event may bring: bytes, and pieces of the torrent.
abbrev pub InputOk : ℕ → Input → Type 0
InputOk count (event e) = EventBytes (InTorrent count) e
InputOk count _ = Unit

-- A turn keeps what the channel and the tasks are to each other.
pub record TurnOk (mi : Metainfo) (i : ℕ) (ids : List ℕ) (phase : Phase) (answer : Option PieceMsg)
    (r : Task × List PmMsg) : Type 0 where
  pub fine : AllFine (piece_count mi) ids r.1
  pub others : (j : ℕ) → (i == j) ≡ false → Maps.has j (members r.1 ids) ≡ Maps.has j ids
  pub own_picks : (j : ℕ) → (i == j) ≡ false → picks j r.1 ≡ 0
  pub no_joins : (j : ℕ) → registers j r.1 ≡ 0
  pub phase_ok : PhaseOk mi i (Maps.has i (members r.1 ids)) r.0.phase
  pub answer_ok : AnswerOk (piece_count mi) r.0.answer
  pub balance : picks i r.1 + held r.0.answer + awaits phase ≡ awaits r.0.phase + held answer
  pub same_joins : joins r.0.phase ≡ joins phase

-- A turn that sends reports only.
pub reports-TurnOk :
    (mi : Metainfo) (i : ℕ) (ids : List ℕ) (phase : Phase) (answer : Option PieceMsg) (t : Task)
    (ms : List PmMsg)
    → AreReports (piece_count mi) ms
    → PhaseOk mi i (Maps.has i ids) t.phase
    → AnswerOk (piece_count mi) t.answer
    → held t.answer + awaits phase ≡ awaits t.phase + held answer
    → joins t.phase ≡ joins phase
    → TurnOk mi i ids phase answer (t, ms)
reports-TurnOk mi i ids phase answer t ms r p a b j = record {
  fine = r.fine ids;
  others = λ j _. ap (Maps.has j) (r.same_members ids);
  own_picks = λ j _. r.no_picks j;
  no_joins = r.no_joins;
  phase_ok = subst (λ x. PhaseOk mi i (Maps.has i x) t.phase) (sym (r.same_members ids)) p;
  answer_ok = a;
  balance = omega (arith, b, r.no_picks i);
  same_joins = j;
}

-- The last turn of a task.
last-TurnOk :
    (mi : Metainfo) (i : ℕ) (ids : List ℕ) (phase : Phase) (ms : List PmMsg)
    → AreLast (piece_count mi) i ms
    → awaits phase ≡ 0
    → joins phase ≡ 0
    → TurnOk mi i ids phase none (at left, ms)
last-TurnOk mi i ids phase ms l w j = record {
  fine = l.fine ids;
  others = λ j e. rw (l.leaves ids) (ground (arith, e, has-without j i ids));
  own_picks = λ j _. l.no_picks j;
  no_joins = l.no_joins;
  phase_ok = tt;
  answer_ok = tt;
  balance = omega (arith, w, l.no_picks i);
  same_joins = sym j;
}

module _ (mi : Metainfo) where
  unfoldable pub Goes : ℕ → List ℕ → Phase → Option PieceMsg → Panics (Task × List PmMsg) → Type 0
  Goes i ids phase answer o = (r : Task × List PmMsg) × (o ≡ ok r) × TurnOk mi i ids phase answer r

  pub settle-Goes :
      (i : ℕ) (ids : List ℕ) (phase : Phase) (f : Bool) (p : Peer) (e : SessionEnd)
      → Maps.has i ids ≡ true
      → IsOwn mi i p
      → awaits phase ≡ 0
      → joins phase ≡ 0
      → Turned (piece_count mi) p e
      → Goes i ids phase none (settle f e)
  unfolding Goes settle finish farewell
  settle-Goes i ids phase f p e h o w j (goes_on _ n r m d a s) = (
    (at (looping e.peer f), keeper_msgs e.sent),
    rw n refl,
    reports-TurnOk mi i ids phase none _ _
        (keeper_msgs-AreReports (piece_count mi) e.sent
          (subst (λ x. All (IsAcceptable (InTorrent (piece_count mi)) (piece_count x)) e.sent)
            o.same a)
          s)
        (h, record { ready = r; same = m ∙ o.same; own_id = d ∙ o.own_id }) tt (omega (arith, w))
        (sym j),
  )
  settle-Goes i ids phase f p _ h o w j returns = (
    _,
    refl,
    last-TurnOk mi i ids phase _
        (subst (λ x. AreLast (piece_count mi) x (deregister p.id ∷ [])) o.own_id
          (deregister-AreLast (piece_count mi) p.id))
        w j,
  )
  settle-Goes i ids phase f p _ h o w j (fails x) = (
    _,
    refl,
    last-TurnOk mi i ids phase _
        (subst
          (λ x.
            AreLast (piece_count mi) x
              (keeper_msgs (failure p.piece_tracker ++ to_keeper (deregister p.id) ∷ [])))
          o.own_id
          (failure-AreLast (piece_count mi) p.id p.piece_tracker
            (subst (λ x. Tracks (piece_count x) p.piece_tracker) o.same o.ready.tracker)))
        w j,
  )

-- ===== src/System/Turns.antt =====
-- The turns of a task, from its connection on.
use learntorrent.Base.{
  ℕ, ◌<◌, ◌≤◌, ◌^◌, ◌≡◌, refl, sym, ◌∙◌, subst, Bool, true, not, ◌&&◌, Option, none, some, List, [],
  arith, length, Bool-cases, inl, inr,
}
use learntorrent.Base.Maps
use learntorrent.Base.Outcome.{ok}
use learntorrent.PeerErr.{PeerErr}
use learntorrent.Metainfo.{Metainfo, piece_count}
use learntorrent.PieceKeeper.{PieceMsg, none_available}
use learntorrent.Peer.{Peer, new, idle}
use learntorrent.Peer.Balance.{IsAnswer, head-Kept}
use learntorrent.Peer.Process.{head}
use learntorrent.System.{
  Phase, Input, registering, connecting, left, looping, asking, selecting, go, connected, event,
  still_first, connect, ask, take_answer, advance,
}
use learntorrent.System.Invariant.{awaits, held, AnswerOk, IsOwn, PhaseOk}
use learntorrent.System.Events.{InTorrent, fails, react-Turned, none-AreReports}
use learntorrent.System.Tasks.{InputOk, TurnOk, reports-TurnOk, Goes, settle-Goes}

module _ (mi : Metainfo) (some_pieces : 0 < piece_count mi) (small : piece_count mi ≤ 2 ^ 24)
    (hashes : piece_count mi ≤ length mi.piece_hashes) (word : mi.piece_length < 2 ^ 32)
    (sha1 : List ℕ → List ℕ) where
  new-IsOwn : (i : ℕ) → IsOwn mi i (new i mi)
  unfolding new
  new-IsOwn i = record {
    ready = record { some_pieces = some_pieces; small = small; hashes = hashes; tracker = tt };
    same = refl;
    own_id = refl;
  }

  connect-Goes :
      (i : ℕ) (ids : List ℕ) (setup : Option PeerErr)
      → Maps.has i ids ≡ true
      → Goes mi i ids connecting none (connect sha1 mi i setup)
  unfolding Goes connect
  connect-Goes i ids none h = (
    _,
    refl,
    reports-TurnOk mi i ids connecting none _ [] (none-AreReports (piece_count mi)) (h, new-IsOwn i)
        tt refl refl,
  )
  connect-Goes i ids (some x) h =
      settle-Goes mi i ids connecting true (new i mi) _ h (new-IsOwn i) refl refl (fails x)

  head-IsOwn :
      (i : ℕ) (p : Peer) (answer : PieceMsg)
      → IsOwn mi i p
      → IsAnswer (piece_count mi) answer
      → IsOwn mi i (head answer p).0
  head-IsOwn i p answer o a =
      let k = head-Kept (InTorrent (piece_count mi)) mi word p answer o.ready o.same a in
      record { ready = k.ready; same = k.same; own_id = k.same_id ∙ o.own_id }

  ask-TurnOk :
      (i : ℕ) (ids : List ℕ) (p : Peer) (f : Bool)
      → Maps.has i ids ≡ true
      → IsOwn mi i p
      → TurnOk mi i ids (looping p f) none (ask sha1 mi p f)
  unfolding ask
  ask-TurnOk i ids p f h o = elim (Bool-cases (not p.am_choked && idle p.piece_tracker)) [
    | inl e ↦ rw e (record {
      fine = (subst (λ x. Maps.has x ids ≡ true) (sym o.own_id) h, tt);
      others = λ j _. refl;
      own_picks = λ j n. ground (arith, n, o.own_id);
      no_joins = λ j. refl;
      phase_ok = (h, o);
      answer_ok = tt;
      balance = ground (arith, o.own_id);
      same_joins = refl;
    })
    | inr e ↦ rw e (
        reports-TurnOk mi i ids (looping p f) none _ [] (none-AreReports (piece_count mi))
          (h, head-IsOwn i p none_available o tt) tt refl refl)
  ]

  take_answer-TurnOk :
      (i : ℕ) (ids : List ℕ) (p : Peer) (f : Bool) (answer : Option PieceMsg)
      → Maps.has i ids ≡ true
      → IsOwn mi i p
      → AnswerOk (piece_count mi) answer
      → TurnOk mi i ids (asking p f) answer (take_answer sha1 mi p f answer, [])
  unfolding take_answer
  take_answer-TurnOk i ids p f none h o a =
      reports-TurnOk mi i ids (asking p f) none _ [] (none-AreReports (piece_count mi)) (h, o) tt
        refl refl
  take_answer-TurnOk i ids p f (some answer) h o a =
      reports-TurnOk mi i ids (asking p f) (some answer) _ [] (none-AreReports (piece_count mi))
        (h, head-IsOwn i p answer o a) tt refl refl

  idle-Goes :
      (i : ℕ) (ids : List ℕ) (phase : Phase) (answer : Option PieceMsg)
      → PhaseOk mi i (Maps.has i ids) phase
      → AnswerOk (piece_count mi) answer
      → Goes mi i ids phase answer (ok (record { phase = phase; answer = answer }, []))
  unfolding Goes
  idle-Goes i ids phase answer p a = (
    _,
    refl,
    reports-TurnOk mi i ids phase answer _ [] (none-AreReports (piece_count mi)) p a (omega arith)
        refl,
  )

  pub advance-Goes :
      (i : ℕ) (ids : List ℕ) (answer : Option PieceMsg) (phase : Phase) (input : Input)
      → PhaseOk mi i (Maps.has i ids) phase
      → AnswerOk (piece_count mi) answer
      → held answer ≤ awaits phase
      → InputOk (piece_count mi) input
      → Goes mi i ids phase answer (advance sha1 mi i answer phase input)
  unfolding advance Goes
  advance-Goes i ids none connecting (connected setup) p a w o = connect-Goes i ids setup p
  advance-Goes i ids (some x) connecting (connected setup) p a w o = absurd (omega arith)
  advance-Goes i ids none (looping q f) go p a w o = (_, refl, ask-TurnOk i ids q f p.0 p.1)
  advance-Goes i ids (some x) (looping q f) go p a w o = absurd (omega arith)
  advance-Goes i ids answer (asking q f) go p a w o =
      (_, refl, take_answer-TurnOk i ids q f answer p.0 p.1 a)
  advance-Goes i ids none (selecting q f) (event e) p a w o =
      settle-Goes mi i ids (selecting q f) (still_first f e) q _ p.0 p.1 refl refl
        (react-Turned (piece_count mi) sha1 q f e p.1.ready o)
  advance-Goes i ids (some x) (selecting q f) (event e) p a w o = absurd (omega arith)
  advance-Goes i ids answer registering go p a w o = idle-Goes i ids _ answer p a
  advance-Goes i ids answer registering (connected setup) p a w o = idle-Goes i ids _ answer p a
  advance-Goes i ids answer registering (event e) p a w o = idle-Goes i ids _ answer p a
  advance-Goes i ids answer left go p a w o = idle-Goes i ids _ answer p a
  advance-Goes i ids answer left (connected setup) p a w o = idle-Goes i ids _ answer p a
  advance-Goes i ids answer left (event e) p a w o = idle-Goes i ids _ answer p a
  advance-Goes i ids answer connecting go p a w o = idle-Goes i ids _ answer p a
  advance-Goes i ids answer connecting (event e) p a w o = idle-Goes i ids _ answer p a
  advance-Goes i ids answer (looping q f) (connected setup) p a w o = idle-Goes i ids _ answer p a
  advance-Goes i ids answer (looping q f) (event e) p a w o = idle-Goes i ids _ answer p a
  advance-Goes i ids answer (asking q f) (connected setup) p a w o = idle-Goes i ids _ answer p a
  advance-Goes i ids answer (asking q f) (event e) p a w o = idle-Goes i ids _ answer p a
  advance-Goes i ids answer (selecting q f) go p a w o = idle-Goes i ids _ answer p a
  advance-Goes i ids answer (selecting q f) (connected setup) p a w o = idle-Goes i ids _ answer p a

-- ===== src/System/Events.antt =====
-- What a task sends on an event, and what that does to the channel.
use learntorrent.Base.{ℕ, ◌<◌, ◌≡◌, refl, Bool, Option, none, some, List, [], ◌∷◌, ◌++◌, All}
use learntorrent.Base.Outcome.{Outcome, ok, err, Returns}
use learntorrent.PeerErr.{PeerErr}
use learntorrent.Metainfo.{piece_count}
use learntorrent.PieceTracker.{PieceTracker}
use learntorrent.PieceKeeper.{
  PmMsg, running, pause, exit, deregister, have, bitfield, pick, piece_failed, piece_finished,
  register, without,
}
use learntorrent.Peer.{Peer, PeerSent, Session, to_keeper, to_peer, failure}
use learntorrent.Peer.Session.{
  IsReady, IsAcceptable, Tracks, Took, refused, took, on_msg_received-Took,
}
use learntorrent.Peer.Plain.{IsPlain, SendsPlain, on_msg_received-IsPlain}
use learntorrent.Peer.Balance.{EventBytes, All-append}
use learntorrent.Peer.Process.{
  complete, in_progress, PeerEvent, app_changed, torrent_changed, broken, message, SessionEnd,
  stopped, handled, react,
}
use learntorrent.System.{keeper_msgs}
use learntorrent.System.Invariant.{members, AllFine, picks, registers}

-- A piece of the torrent.
abbrev pub InTorrent : ℕ → ℕ → Type 0
InTorrent count pid = pid < count

module _ (count : ℕ) where
  -- The loop goes on with a task that is ready, or it ends.
  pub data Turned (p : Peer) : SessionEnd → Type 0 where
    goes_on :
        (e : SessionEnd)
        → e.result ≡ none
        → IsReady e.peer
        → e.peer.metainfo ≡ p.metainfo
        → e.peer.id ≡ p.id
        → All (IsAcceptable (InTorrent count) (piece_count p.metainfo)) e.sent
        → All IsPlain e.sent
        → Turned p e
    returns : Turned p (stopped p (some (ok tt)))
    fails : (x : PeerErr) → Turned p (stopped p (some (err x)))

  stays-Turned : (p : Peer) → IsReady p → Turned p (stopped p none)
  stays-Turned p r = goes_on _ refl r refl refl tt tt

  handled-Turned :
      (p : Peer) (o : Outcome PeerErr Session)
      → Took (InTorrent count) p o
      → Returns SendsPlain o
      → Turned p (handled p o (λ p'. stopped p' none))
  handled-Turned p _ (refused x) s = fails x
  handled-Turned p _ (took p' sent r b a m i) s =
      goes_on _ refl r m i (All-append _ sent [] a tt)
        (All-append IsPlain sent [] (s (p', sent) refl) tt)

  pub react-Turned :
      (sha1 : List ℕ → List ℕ) (p : Peer) (first_message : Bool) (e : PeerEvent)
      → IsReady p
      → EventBytes (InTorrent count) e
      → Turned p (react sha1 p first_message e (stopped p none) (λ p'. stopped p' none))
  unfolding react
  react-Turned sha1 p f (app_changed exit) r b = returns
  react-Turned sha1 p f (app_changed running) r b = stays-Turned p r
  react-Turned sha1 p f (app_changed pause) r b = stays-Turned p r
  react-Turned sha1 p f (torrent_changed complete) r b = returns
  react-Turned sha1 p f (torrent_changed in_progress) r b = stays-Turned p r
  react-Turned sha1 p f (broken x) r b = fails x
  react-Turned sha1 p f (message msg) r b =
      handled-Turned p _ (on_msg_received-Took (InTorrent count) sha1 p f msg r b)
        (on_msg_received-IsPlain sha1 p f msg)

-- Messages that a keeper for so many pieces handles at any time, and that no answer is due for.
pub record AreReports (count : ℕ) (ms : List PmMsg) : Type 0 where
  pub same_members : (ids : List ℕ) → members ms ids ≡ ids
  pub fine : (ids : List ℕ) → AllFine count ids ms
  pub no_picks : (i : ℕ) → picks i ms ≡ 0
  pub no_joins : (i : ℕ) → registers i ms ≡ 0

pub none-AreReports : (count : ℕ) → AreReports count []
none-AreReports count = record {
  same_members = λ ids. refl;
  fine = λ ids. tt;
  no_picks = λ i. refl;
  no_joins = λ i. refl;
}

pub keeper_msgs-AreReports :
    (count : ℕ) (sent : List PeerSent)
    → All (IsAcceptable (InTorrent count) count) sent
    → All IsPlain sent
    → AreReports count (keeper_msgs sent)
keeper_msgs-AreReports count [] a s = none-AreReports count
keeper_msgs-AreReports count (to_peer m ∷ sent) (f, a) (o, s) =
    keeper_msgs-AreReports count sent a s
keeper_msgs-AreReports count (to_keeper (have i pid) ∷ sent) (f, a) (o, s) =
    let more = keeper_msgs-AreReports count sent a s in
    record {
      same_members = more.same_members;
      fine = λ ids. (f, more.fine ids);
      no_picks = more.no_picks;
      no_joins = more.no_joins;
    }
keeper_msgs-AreReports count (to_keeper (bitfield i bits) ∷ sent) (f, a) (o, s) =
    let more = keeper_msgs-AreReports count sent a s in
    record {
      same_members = more.same_members;
      fine = λ ids. (f, more.fine ids);
      no_picks = more.no_picks;
      no_joins = more.no_joins;
    }
keeper_msgs-AreReports count (to_keeper (piece_failed pid) ∷ sent) (f, a) (o, s) =
    let more = keeper_msgs-AreReports count sent a s in
    record {
      same_members = more.same_members;
      fine = λ ids. (f, more.fine ids);
      no_picks = more.no_picks;
      no_joins = more.no_joins;
    }
keeper_msgs-AreReports count (to_keeper (piece_finished vp) ∷ sent) (f, a) (o, s) =
    let more = keeper_msgs-AreReports count sent a s in
    record {
      same_members = more.same_members;
      fine = λ ids. (tt, more.fine ids);
      no_picks = more.no_picks;
      no_joins = more.no_joins;
    }
keeper_msgs-AreReports count (to_keeper (pick i) ∷ sent) (f, a) (o, s) = absurd o
keeper_msgs-AreReports count (to_keeper (register i) ∷ sent) (f, a) (o, s) = absurd o
keeper_msgs-AreReports count (to_keeper (deregister i) ∷ sent) (f, a) (o, s) = absurd o

-- The last messages of a task.
pub record AreLast (count i : ℕ) (ms : List PmMsg) : Type 0 where
  pub leaves : (ids : List ℕ) → members ms ids ≡ without i ids
  pub fine : (ids : List ℕ) → AllFine count ids ms
  pub no_picks : (i : ℕ) → picks i ms ≡ 0
  pub no_joins : (i : ℕ) → registers i ms ≡ 0

pub deregister-AreLast : (count i : ℕ) → AreLast count i (deregister i ∷ [])
deregister-AreLast count i = record {
  leaves = λ ids. refl;
  fine = λ ids. (tt, tt);
  no_picks = λ j. refl;
  no_joins = λ j. refl;
}

pub failure-AreLast :
    (count i : ℕ) (t : Option PieceTracker)
    → Tracks count t
    → AreLast count i (keeper_msgs (failure t ++ to_keeper (deregister i) ∷ []))
failure-AreLast count i none a = deregister-AreLast count i
failure-AreLast count i (some pt) a = record {
  leaves = λ ids. refl;
  fine = λ ids. (a.1, (tt, tt));
  no_picks = λ j. refl;
  no_joins = λ j. refl;
}

-- ===== src/Peer/Life.antt =====
-- The life of a peer task: what it reports until it leaves.
use learntorrent.Base.{
  ℕ, ◌+◌, ◌^◌, ◌≤◌, ◌<◌, ◌≡◌, ◌⊎◌, refl, sym, ap, ◌∙◌, subst, Bool, true, false, Option, none, some,
  List, [], ◌∷◌, ◌++◌, length, All, arith, inl, inr, ◌≢◌, append_assoc,
}
use learntorrent.Base.Outcome.{Outcome, ok, err, panicked, out_of_fuel}
use learntorrent.PeerErr.{PeerErr}
use learntorrent.PieceTracker.{PieceTracker}
use learntorrent.PieceKeeper.{running, pause, exit, PieceMsg, deregister}
use learntorrent.Metainfo.{Metainfo, piece_count}
use learntorrent.Peer.{Peer, PeerSent, Session, to_keeper, failure, on_msg_received}
use learntorrent.Peer.Session.{
  reports, holding, Tracks, IsReady, IsAcceptable, Took, refused, took, on_msg_received-Took,
}
use learntorrent.Peer.Process.{
  complete, in_progress, PeerEvent, app_changed, torrent_changed, broken, message, Round,
  SessionEnd, head, asked, stopped, after, handled, process, react, farewell, start,
}
use learntorrent.Peer.{new}
use learntorrent.Peer.Process.{finish}
use learntorrent.Peer.Balance.{
  pieces, EventBytes, IsRound, Kept, trans-Kept, stay, head-Kept, reports-append, All-append,
}

-- Every piece is reported as often as it was handed out, but for one time if the task holds it.
abbrev pub AllButHeld : SessionEnd → Type 0
AllButHeld e =
    (pid : ℕ) → reports pid e.sent + holding pid e.peer.piece_tracker ≡ pieces pid e.received

-- The task waits, or its last message was that it leaves. It holds the piece that it was handed and
-- did not report, if any; after an error there is none.
abbrev pub Lives : SessionEnd → Type 0
Lives e =
    (e.result ≡ none) × AllButHeld e
    ⊎ (front : List PeerSent) × (e.sent ≡ front ++ to_keeper (deregister e.peer.id) ∷ [])
      × ((e.result ≡ some (ok tt)) × AllButHeld e
          ⊎ (x : PeerErr) × (e.result ≡ some (err x))
            × ((pid : ℕ) → reports pid e.sent ≡ pieces pid e.received))

reports-failure : (pid : ℕ) (t : Option PieceTracker) → reports pid (failure t) ≡ holding pid t
reports-failure pid none = refl
reports-failure pid (some pt) = omega arith

module _ (Known : ℕ → Type 0) where
  module _ (mi : Metainfo) (word : mi.piece_length < 2 ^ 32) where
    -- The end is no panic, and all before it is kept.
    record EndKept (p : Peer) (e : SessionEnd) : Type 0 where
      pub kept : Kept Known mi p e.peer e.sent e.received
      pub calm : (e.result ≢ some panicked) × (e.result ≢ some out_of_fuel)

    after-EndKept :
        (p p' : Peer) (sent : List PeerSent) (received : List PieceMsg) (e : SessionEnd)
        → Kept Known mi p p' sent received
        → EndKept p' e
        → EndKept p (after sent received e)
    after-EndKept p p' sent received e k o = record {
      kept = trans-Kept Known mi p p' e.peer sent e.sent received e.received k o.kept;
      calm = o.calm;
    }

    stopped-EndKept :
        (p : Peer) (result : Option (Outcome PeerErr (Unit {0})))
        → IsReady p
        → p.metainfo ≡ mi
        → (result ≢ some panicked) × (result ≢ some out_of_fuel)
        → EndKept p (stopped p result)
    stopped-EndKept p result r m c = record { kept = stay Known mi word p r m; calm = c }

    handled-EndKept :
        (p : Peer) (o : Outcome PeerErr Session) (next : Peer → SessionEnd)
        → IsReady p
        → p.metainfo ≡ mi
        → Took Known p o
        → ((p' : Peer) → IsReady p' → p'.metainfo ≡ mi → EndKept p' (next p'))
        → EndKept p (handled p o next)
    handled-EndKept p _ next r m (refused e) k =
        stopped-EndKept p (some (err e)) r m ((λ h. absurd (cc h)), (λ h. absurd (cc h)))
    handled-EndKept p _ next r m (took p' sent r' b a m' i') k =
        after-EndKept p p' sent [] (next p')
          (record {
            ready = r';
            same = m' ∙ m;
            same_id = i';
            balance = λ pid. omega (arith, b pid);
            acceptable = subst (λ x. All (IsAcceptable Known (piece_count x)) sent) m a;
          })
          (k p' r' (m' ∙ m))

    module _ (sha1 : List ℕ → List ℕ) where
      react-EndKept :
          (p : Peer) (first_message : Bool) (e : PeerEvent) (same : SessionEnd)
          (next : Peer → SessionEnd)
          → IsReady p
          → p.metainfo ≡ mi
          → EventBytes Known e
          → EndKept p same
          → ((p' : Peer) → IsReady p' → p'.metainfo ≡ mi → EndKept p' (next p'))
          → EndKept p (react sha1 p first_message e same next)
      unfolding react
      react-EndKept p f (app_changed exit) same next r m b s k =
          stopped-EndKept p (some (ok tt)) r m ((λ h. absurd (cc h)), (λ h. absurd (cc h)))
      react-EndKept p f (app_changed running) same next r m b s k = s
      react-EndKept p f (app_changed pause) same next r m b s k = s
      react-EndKept p f (torrent_changed complete) same next r m b s k =
          stopped-EndKept p (some (ok tt)) r m ((λ h. absurd (cc h)), (λ h. absurd (cc h)))
      react-EndKept p f (torrent_changed in_progress) same next r m b s k = s
      react-EndKept p f (broken e) same next r m b s k =
          stopped-EndKept p (some (err e)) r m ((λ h. absurd (cc h)), (λ h. absurd (cc h)))
      react-EndKept p f (message msg) same next r m b s k =
          handled-EndKept p (on_msg_received sha1 p f msg) next r m
            (on_msg_received-Took Known sha1 p f msg r b) k

      process-EndKept :
          (p : Peer) (first_message : Bool) (rounds : List Round)
          → IsReady p
          → p.metainfo ≡ mi
          → All (IsRound Known (piece_count mi)) rounds
          → EndKept p (process sha1 p first_message rounds)
      unfolding process
      process-EndKept p f [] r m a =
          stopped-EndKept p none r m ((λ h. absurd (cc h)), (λ h. absurd (cc h)))
      process-EndKept p f (x ∷ rounds) r m ((g, b), a) =
          let (p', sent) = head x.answer p in
          let k = head-Kept Known mi word p x.answer r m g in
          after-EndKept p p' sent (asked x.answer p) _ k (
            react-EndKept p' f x.event (process sha1 p' f rounds)
              (λ p''. process sha1 p'' false rounds) k.ready k.same b
              (process-EndKept p' f rounds k.ready k.same a)
              (λ p'' r' m'. process-EndKept p'' false rounds r' m' a))

  failure-IsAcceptable :
      (count : ℕ) (t : Option PieceTracker)
      → Tracks count t
      → All (IsAcceptable Known count) (failure t)
  failure-IsAcceptable count none a = tt
  failure-IsAcceptable count (some pt) a = (a.1, tt)

  module _ (mi : Metainfo) (word : mi.piece_length < 2 ^ 32) where
    said :
        (e : SessionEnd) (more : List PeerSent)
        → (finish e).sent ≡ e.sent ++ more
        → All (IsAcceptable Known (piece_count mi)) e.sent
        → All (IsAcceptable Known (piece_count mi)) more
        → All (IsAcceptable Known (piece_count mi)) (finish e).sent
    said e more sent a b =
        subst (All (IsAcceptable Known (piece_count mi))) (sym sent)
          (All-append (IsAcceptable Known (piece_count mi)) e.sent more a b)

    finish-Lives :
        (p : Peer) (e : SessionEnd)
        → EndKept mi word p e
        → ((pid : ℕ) → holding pid p.piece_tracker ≡ 0)
        → (result : Option (Outcome PeerErr (Unit {0}))) → e.result ≡ result
        → All (IsAcceptable Known (piece_count mi)) (finish e).sent × Lives (finish e)
    unfolding finish farewell
    finish-Lives p e k z none eq =
        let sent : (finish e).sent ≡ e.sent ++ [] = ap (λ t. e.sent ++ t) (rw (eq, farewell)) in
        (
          said e [] sent k.kept.acceptable tt,
          inl (
            eq,
            λ pid. omega (
              arith,
              z pid,
              k.kept.balance pid,
              ap (reports pid) sent,
              reports-append pid e.sent [],
            ),
          ),
        )
    finish-Lives p e k z (some (ok done)) eq =
        let leave = to_keeper (deregister e.peer.id) ∷ [] in
        let sent : (finish e).sent ≡ e.sent ++ leave = ap (λ t. e.sent ++ t) (rw (eq, farewell)) in
        (
          said e leave sent k.kept.acceptable (tt, tt),
          inr (
            e.sent,
            sent,
            inl (
              eq,
              λ pid. omega (
                arith,
                z pid,
                k.kept.balance pid,
                ap (reports pid) sent,
                reports-append pid e.sent leave,
              ),
            ),
          ),
        )
    finish-Lives p e k z (some (err x)) eq =
        let last = failure e.peer.piece_tracker in
        let leave = to_keeper (deregister e.peer.id) ∷ [] in
        let sent : (finish e).sent ≡ e.sent ++ (last ++ leave) =
          ap (λ t. e.sent ++ t) (rw (eq, farewell)) in
        let tracks =
          subst (λ m. Tracks (piece_count m) e.peer.piece_tracker) k.kept.same
            k.kept.ready.tracker in
        (
          said e (last ++ leave) sent k.kept.acceptable (
              All-append (IsAcceptable Known (piece_count mi)) last leave
                (failure-IsAcceptable (piece_count mi) e.peer.piece_tracker tracks) (tt, tt)),
          inr (
            e.sent ++ last,
            sent ∙ sym (append_assoc e.sent last leave),
            inr (
              x,
              eq,
              λ pid. omega (
                arith,
                z pid,
                k.kept.balance pid,
                ap (reports pid) sent,
                reports-append pid e.sent (last ++ leave),
                reports-append pid last leave,
                reports-failure pid e.peer.piece_tracker,
              ),
            ),
          ),
        )
    finish-Lives p e k z (some panicked) eq = absurd (k.calm.0 eq)
    finish-Lives p e k z (some out_of_fuel) eq = absurd (k.calm.1 eq)

  -- Let a torrent have 1 to 2 ^ 24 pieces of less than 2 ^ 32 bytes, and a hash for each. A peer
  -- task that starts on it, with a connection or without one, and receives any messages whose bit
  -- fields are made of bytes, answers of the Piece Keeper that name pieces of the torrent, and
  -- other events, does not panic. It waits, or its last message was that it leaves, and the
  -- messages that it sent name pieces of the torrent and bit fields that fit it; what is known of
  -- the piece IDs of have messages received is true of those sent. It reported each piece, as
  -- failed or as finished, just as often as it was handed that piece, but for one time if it still
  -- holds it; after an error, just as often.
  pub start-Lives :
      (sha1 : List ℕ → List ℕ) (mi : Metainfo) (id : ℕ) (setup : Option PeerErr)
      (rounds : List Round)
      → 0 < piece_count mi
      → piece_count mi ≤ 2 ^ 24
      → piece_count mi ≤ length mi.piece_hashes
      → mi.piece_length < 2 ^ 32
      → All (IsRound Known (piece_count mi)) rounds
      → let e = start sha1 (new id mi) setup rounds in
        All (IsAcceptable Known (piece_count mi)) e.sent × Lives e
  unfolding start new
  start-Lives sha1 mi id none rounds some_pieces small hashes word a =
      let r : IsReady (new id mi) = record {
        some_pieces = some_pieces;
        small = small;
        hashes = hashes;
        tracker = tt;
      } in
      finish-Lives mi word (new id mi) _
        (process-EndKept mi word sha1 (new id mi) true rounds r refl a) (λ pid. refl) _ refl
  start-Lives sha1 mi id (some x) rounds some_pieces small hashes word a =
      let r : IsReady (new id mi) = record {
        some_pieces = some_pieces;
        small = small;
        hashes = hashes;
        tracker = tt;
      } in
      finish-Lives mi word (new id mi) _
        (stopped-EndKept mi word (new id mi) (some (err x)) r refl
          ((λ h. absurd (cc h)), (λ h. absurd (cc h))))
        (λ pid. refl) _ refl

-- ===== src/Peer/Balance.antt =====
-- The pieces that a task is handed, and those that it reports.
use learntorrent.Base.{
  ◌∙◌, ℕ, ◌+◌, ◌^◌, ◌<◌, ◌≡◌, refl, ap, sym, subst, true, not, ◌&&◌, Option, none, some, List, [],
  ◌∷◌, ◌++◌, map, All, arith, Bool-cases, inl, inr, and-true, append-nil, ◌==◌,
}
use learntorrent.Base.Words.{sub32}
use learntorrent.PieceTracker.{PieceTracker, PendingBlockRequest, next_requests}
use learntorrent.PieceTracker
use learntorrent.PieceTracker.Invariant.{new-IsConsistent}
use learntorrent.PieceTracker.Requests.{next_requests-Requested}
use learntorrent.PieceKeeper.{AppState, running, pause, exit, PieceMsg, PmMsg, deregister}
use learntorrent.PieceKeeper
use learntorrent.Metainfo.{Metainfo, piece_count, get_piece_size}
use learntorrent.Peer.{
  Peer, PeerSent, to_keeper, idle, pick_piece, request_blocks, requests_for, take_piece, request_of,
  send_interested,
}
use learntorrent.Peer.Session.{
  same_piece, reports, holding, Tracks, IsReady, IsAcceptable, HasBytes,
}
use learntorrent.Peer.Process.{PeerEvent, message, Round, head, asked}

-- How often the answers hand out a piece.
abbrev pub pieces : ℕ → List PieceMsg → ℕ
pieces pid [] = 0
pieces pid (PieceKeeper.piece piece_id ∷ answers) = same_piece pid piece_id + pieces pid answers
pieces pid (PieceKeeper.none_available ∷ answers) = pieces pid answers

-- The Piece Keeper hands out pieces of the torrent.
abbrev pub IsAnswer : ℕ → PieceMsg → Type 0
IsAnswer count (PieceKeeper.piece pid) = pid < count
IsAnswer count PieceKeeper.none_available = Unit

pub reports-append :
    (pid : ℕ) (xs ys : List PeerSent) → reports pid (xs ++ ys) ≡ reports pid xs + reports pid ys
reports-append pid [] ys = omega arith
reports-append pid (to_keeper (PieceKeeper.piece_failed piece_id) ∷ xs) ys =
    omega (arith, reports-append pid xs ys)
reports-append pid (to_keeper (PieceKeeper.piece_finished vp) ∷ xs) ys =
    omega (arith, reports-append pid xs ys)
reports-append pid (_ ∷ xs) ys = reports-append pid xs ys

pieces-append :
    (pid : ℕ) (xs ys : List PieceMsg) → pieces pid (xs ++ ys) ≡ pieces pid xs + pieces pid ys
pieces-append pid [] ys = omega arith
pieces-append pid (PieceKeeper.piece piece_id ∷ xs) ys = omega (arith, pieces-append pid xs ys)
pieces-append pid (PieceKeeper.none_available ∷ xs) ys = pieces-append pid xs ys

pub All-append {ℓ κ} :
    {A : Type ℓ} (P : A → Type κ) (xs ys : List A) → All P xs → All P ys → All P (xs ++ ys)
All-append P [] ys a b = b
All-append P (x ∷ xs) ys (p, a) b = (p, All-append P xs ys a b)

-- The requests are no reports.
reports-request_of :
    (pid piece_id : ℕ) (rs : List PendingBlockRequest)
    → reports pid (map (request_of piece_id) rs) ≡ 0
reports-request_of pid piece_id [] = refl
reports-request_of pid piece_id (r ∷ rs) = reports-request_of pid piece_id rs

module _ (Known : ℕ → Type 0) where
  abbrev pub EventBytes : PeerEvent → Type 0
  EventBytes (message m) = HasBytes Known m
  EventBytes _ = Unit

  abbrev pub IsRound : ℕ → Round → Type 0
  IsRound count r = IsAnswer count r.answer × EventBytes r.event

  -- From a state to a later one, with what was sent and received between them.
  pub record Kept (mi : Metainfo) (p p' : Peer) (sent : List PeerSent) (received : List PieceMsg)
      : Type 0 where
    pub ready : IsReady p'
    pub same : p'.metainfo ≡ mi
    pub same_id : p'.id ≡ p.id
    pub balance :
        (pid : ℕ)
        → reports pid sent + holding pid p'.piece_tracker
          ≡ holding pid p.piece_tracker + pieces pid received
    pub acceptable : All (IsAcceptable Known (piece_count mi)) sent

  pub trans-Kept :
      (mi : Metainfo) (p p₁ p₂ : Peer) (s t : List PeerSent) (a b : List PieceMsg)
      → Kept mi p p₁ s a
      → Kept mi p₁ p₂ t b
      → Kept mi p p₂ (s ++ t) (a ++ b)
  trans-Kept mi p p₁ p₂ s t a b k l = record {
    ready = l.ready;
    same = l.same;
    same_id = l.same_id ∙ k.same_id;
    balance = λ pid.
        omega (arith, k.balance pid, l.balance pid, reports-append pid s t, pieces-append pid a b);
    acceptable = All-append (IsAcceptable Known (piece_count mi)) s t k.acceptable l.acceptable;
  }

  request_of-IsAcceptable :
      (count pid : ℕ) (rs : List PendingBlockRequest)
      → All (IsAcceptable Known count) (map (request_of pid) rs)
  request_of-IsAcceptable count pid [] = tt
  request_of-IsAcceptable count pid (r ∷ rs) = (tt, request_of-IsAcceptable count pid rs)

  module _ (mi : Metainfo) (word : mi.piece_length < 2 ^ 32) where
    size_fits : (pid : ℕ) → get_piece_size mi pid < 2 ^ 32
    unfolding get_piece_size
    size_fits pid = elim (Bool-cases (pid == sub32 (piece_count mi) 1)) [
      | inl e ↦ rw e (omega arith)
      | inr e ↦ rw e word
    ]

    take_piece-Kept :
        (p : Peer) (answer : PieceMsg)
        → IsReady p
        → p.metainfo ≡ mi
        → ((pid : ℕ) → holding pid p.piece_tracker ≡ 0)
        → IsAnswer (piece_count mi) answer
        → Kept mi p (take_piece p answer) (to_keeper (PieceKeeper.pick p.id) ∷ []) (answer ∷ [])
    unfolding take_piece PieceTracker.new
    take_piece-Kept p PieceKeeper.none_available r m h a = record {
      ready = r;
      same = m;
      same_id = refl;
      balance = λ pid. omega arith;
      acceptable = (tt, tt);
    }
    take_piece-Kept p (PieceKeeper.piece pid) r m h a = record {
      ready = record {
        some_pieces = r.some_pieces;
        small = r.small;
        hashes = r.hashes;
        tracker = (
          new-IsConsistent pid (get_piece_size p.metainfo pid)
              (subst (λ x. get_piece_size x pid < 2 ^ 32) (sym m) (size_fits pid)),
          subst (λ x. pid < piece_count x) (sym m) a,
          omega arith,
        );
      };
      same = m;
      same_id = refl;
      balance = λ pid. omega (arith, h pid);
      acceptable = (tt, tt);
    }

    idle-holding : (t : Option PieceTracker) → idle t ≡ true → (pid : ℕ) → holding pid t ≡ 0
    unfolding idle
    idle-holding none e pid = refl
    idle-holding (some pt) e pid = absurd (cc e)

    pub stay : (p : Peer) → IsReady p → p.metainfo ≡ mi → Kept mi p p [] []
    stay p r m = record {
      ready = r;
      same = m;
      same_id = refl;
      balance = λ pid. omega arith;
      acceptable = tt;
    }

    pick_piece-Kept :
        (p : Peer) (answer : PieceMsg)
        → IsReady p
        → p.metainfo ≡ mi
        → IsAnswer (piece_count mi) answer
        → Kept mi p (pick_piece answer p).0 (pick_piece answer p).1 (asked answer p)
    unfolding pick_piece asked
    pick_piece-Kept p answer r m a = elim (Bool-cases (not p.am_choked && idle p.piece_tracker)) [
      | inl e ↦
          let (_, free) = and-true (not p.am_choked) (idle p.piece_tracker) e in
          simp e (take_piece-Kept p answer r m (idle-holding p.piece_tracker free) a)
      | inr e ↦ simp e (stay p r m)
    ]

    requests_for-Kept :
        (p : Peer) (t : Option PieceTracker)
        → IsReady p
        → p.metainfo ≡ mi
        → Tracks (piece_count p.metainfo) t
        → ((pid : ℕ) → holding pid p.piece_tracker ≡ holding pid t)
        → Kept mi p (requests_for p t).0 (requests_for p t).1 []
    unfolding requests_for
    requests_for-Kept p none r m t h = record {
      ready = r;
      same = m;
      same_id = refl;
      balance = λ pid. omega arith;
      acceptable = tt;
    }
    requests_for-Kept p (some pt) r m (c, lt, few) h =
        let n = next_requests-Requested pt c few in
        record {
          ready = record {
            some_pieces = r.some_pieces;
            small = r.small;
            hashes = r.hashes;
            tracker = (n.consistent, omega (arith, n.same_piece, lt), n.window);
          };
          same = m;
          same_id = refl;
          balance = λ pid. omega (
            arith,
            h pid,
            reports-request_of pid pt.pid (next_requests pt).0,
            ap (same_piece pid) n.same_piece.0,
          );
          acceptable = request_of-IsAcceptable (piece_count mi) pt.pid (next_requests pt).0;
        }

    send_interested-Kept :
        (p : Peer)
        → IsReady p
        → p.metainfo ≡ mi
        → Kept mi p (send_interested p).0 (send_interested p).1 []
    unfolding send_interested
    send_interested-Kept p r m = elim (Bool-cases (not p.am_interested && p.am_choked)) [
      | inl e ↦ simp e (record {
        ready = record {
          some_pieces = r.some_pieces;
          small = r.small;
          hashes = r.hashes;
          tracker = r.tracker;
        };
        same = m;
        same_id = refl;
        balance = λ pid. omega arith;
        acceptable = (tt, tt);
      })
      | inr e ↦ simp e (stay p r m)
    ]

    pub head-Kept :
        (p : Peer) (answer : PieceMsg)
        → IsReady p
        → p.metainfo ≡ mi
        → IsAnswer (piece_count mi) answer
        → Kept mi p (head answer p).0 (head answer p).1 (asked answer p)
    unfolding head request_blocks
    head-Kept p answer r m a =
        let (p₁, picks) = pick_piece answer p in
        let (p₂, requests) = requests_for p₁ p₁.piece_tracker in
        let (p₃, interest) = send_interested p₂ in
        let k₁ = pick_piece-Kept p answer r m a in
        let k₂ =
          requests_for-Kept p₁ p₁.piece_tracker k₁.ready k₁.same k₁.ready.tracker (λ pid. refl) in
        let k₃ = send_interested-Kept p₂ k₂.ready k₂.same in
        subst (Kept mi p p₃ (picks ++ (requests ++ interest))) (append-nil (asked answer p)) (
          trans-Kept mi p p₁ p₃ picks (requests ++ interest) (asked answer p) [] k₁
            (trans-Kept mi p₁ p₂ p₃ requests interest [] [] k₂ k₃))

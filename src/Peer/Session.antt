-- ===== src/Peer/Session.antt =====
-- The handlers of the messages of a peer, and what they report to the Piece Keeper.
use learntorrent.Base.{
  ℕ, ◌+◌, ◌^◌, ◌≤◌, ◌<◌, ◌≡◌, refl, Bool, true, false, Option, none, some, List, [], ◌∷◌, length,
  All, arith, get_elem?_total, Bool-cases, inl, inr, ◌==◌, if◌then◌else◌, ap,
}
use learntorrent.Base.Words.{IsByte}
use learntorrent.Base.Outcome.{Outcome, ok, err, ◌>>=◌}
use learntorrent.PeerErr.{PeerErr}
use learntorrent.PieceTracker.{
  sort_blocks, contents, same_bytes, PieceTracker, CompletedBlockRequest, validate_piece,
}
use learntorrent.PieceTracker.Invariant.{IsConsistent}
use learntorrent.PieceTracker.Completed.{Received, unexpected, expected, request_completed-Received}
use learntorrent.PieceKeeper.{bitfield, have, piece_failed, piece_finished}
use learntorrent.PieceKeeper.Invariant.{Fits}
use learntorrent.Metainfo.{piece_count}
use learntorrent.Message.{Message, choke, unchoke}
use learntorrent.Peer.{
  Peer, PeerSent, Session, to_keeper, failure, on_bitfield_msg, on_choke_msg, on_unchoke_msg,
  on_have_msg, on_block_receive_msg, on_msg_received, after_block, block_for,
}
use learntorrent.Peer.Field.{verify_bitfield_lem}

-- One, if the two are the same piece.
unfoldable pub same_piece : ℕ → ℕ → ℕ
same_piece pid piece_id = if piece_id == pid then 1 else 0

-- How often a piece is reported, as failed or as finished.
abbrev pub reports : ℕ → List PeerSent → ℕ
reports pid [] = 0
reports pid (to_keeper (piece_failed piece_id) ∷ sent) = same_piece pid piece_id + reports pid sent
reports pid (to_keeper (piece_finished vp) ∷ sent) = same_piece pid vp.pid + reports pid sent
reports pid (_ ∷ sent) = reports pid sent

-- Whether it is the piece in progress.
abbrev pub holding : ℕ → Option PieceTracker → ℕ
holding pid none = 0
holding pid (some pt) = same_piece pid pt.pid

-- The piece in progress is one of the torrent's.
abbrev pub Tracks : ℕ → Option PieceTracker → Type 0
Tracks count none = Unit
Tracks count (some pt) = IsConsistent pt × (pt.pid < count) × (length pt.pending_requests ≤ 5)

pub record IsReady (p : Peer) : Type 0 where
  pub some_pieces : 0 < piece_count p.metainfo
  pub small : piece_count p.metainfo ≤ 2 ^ 24
  pub hashes : piece_count p.metainfo ≤ length p.metainfo.piece_hashes
  pub tracker : Tracks (piece_count p.metainfo) p.piece_tracker

module _ (Known : ℕ → Type 0) where
  -- What the Piece Keeper accepts of a message; of the piece ID of a `have`, what is known of those
  -- that the peer sends.
  abbrev pub IsAcceptable : ℕ → PeerSent → Type 0
  IsAcceptable count (to_keeper (bitfield id bits)) = Fits count bits
  IsAcceptable count (to_keeper (piece_failed pid)) = pid < count
  IsAcceptable count (to_keeper (piece_finished vp)) = vp.pid < count
  IsAcceptable count (to_keeper (have id piece_id)) = Known piece_id
  IsAcceptable count _ = Unit

  -- A message is refused, or it is taken.
  pub data Took (p : Peer) : Outcome PeerErr Session → Type 0 where
    refused : (e : PeerErr) → Took p (err e)
    took :
        (p' : Peer) (sent : List PeerSent)
        → IsReady p'
        → ((pid : ℕ)
            → reports pid sent + holding pid p'.piece_tracker ≡ holding pid p.piece_tracker)
        → All (IsAcceptable (piece_count p.metainfo)) sent
        → p'.metainfo ≡ p.metainfo
        → p'.id ≡ p.id
        → Took p (ok (p', sent))

  -- The bytes of a message, and its piece ID.
  abbrev pub HasBytes : Message → Type 0
  HasBytes (Message.bitfield bits) = All IsByte bits
  HasBytes (Message.have piece_id) = Known piece_id
  HasBytes _ = Unit

  with_tracker :
      (p : Peer) (pt : Option PieceTracker) (choked : Bool)
      → IsReady p
      → Tracks (piece_count p.metainfo) pt
      → IsReady (record p { am_choked = choked; piece_tracker = pt })
  with_tracker p pt choked r t = record {
    some_pieces = r.some_pieces;
    small = r.small;
    hashes = r.hashes;
    tracker = t;
  }

  bitfield-Took :
      (p : Peer) (first_message : Bool) (bits : List ℕ)
      → IsReady p
      → All IsByte bits
      → Took p (on_bitfield_msg p first_message bits)
  unfolding on_bitfield_msg
  bitfield-Took p false bits r b = refused _
  bitfield-Took p true bits r b =
      elim (verify_bitfield_lem (piece_count p.metainfo) bits r.some_pieces r.small b) [
        | inl e ↦ rw e (refused _)
        | inr (e, fits, spare) ↦ rw e (took p _ r (λ pid. omega arith) (fits, tt) refl refl)
      ]

  failed-Took :
      (p : Peer) (t : Option PieceTracker)
      → IsReady p
      → Tracks (piece_count p.metainfo) t
      → ((pid : ℕ) → holding pid p.piece_tracker ≡ holding pid t)
      → Took p (ok (record p { am_choked = true; piece_tracker = none }, failure t))
  failed-Took p none r t h =
      took _ _ (with_tracker p none true r tt) (λ pid. omega (arith, h pid)) tt refl refl
  failed-Took p (some pt) r t h =
      took _ _ (with_tracker p none true r tt) (λ pid. omega (arith, h pid)) (t.1, tt) refl refl

  module _ (sha1 : List ℕ → List ℕ) where
    checked-Took :
        (p : Peer) (pt : PieceTracker)
        → IsReady p
        → pt.pid < piece_count p.metainfo
        → ((pid : ℕ) → holding pid p.piece_tracker ≡ same_piece pid pt.pid)
        → Took p (after_block sha1 p (true, pt))
    unfolding after_block validate_piece
    checked-Took p pt r lt h =
        let (hash, e) = get_elem?_total p.metainfo.piece_hashes pt.pid (omega (arith, r.hashes)) in
        elim (Bool-cases (same_bytes hash (sha1 (contents (sort_blocks pt.completed_requests))))) [
          | inl s ↦ rw e (
              rw s (
                took _ _ (with_tracker p none p.am_choked r tt) (λ pid. omega (arith, h pid))
                  (lt, tt) refl refl))
          | inr s ↦ rw e (
              rw s (
                took _ _ (with_tracker p none p.am_choked r tt) (λ pid. omega (arith, h pid))
                  (lt, tt) refl refl))
        ]

    Received-Took :
        (p : Peer) (pt : PieceTracker) (br : CompletedBlockRequest)
        (o : Outcome PeerErr (Bool × PieceTracker))
        → IsReady p
        → Tracks (piece_count p.metainfo) (some pt)
        → ((pid : ℕ) → holding pid p.piece_tracker ≡ same_piece pid pt.pid)
        → Received pt br o
        → Took p (o >>= after_block sha1 p)
    unfolding after_block
    Received-Took p pt br _ r t h (unexpected n) = refused _
    Received-Took p pt br _ r t h (expected false pt' n c d l k s) =
        took _ _
          (with_tracker p (some pt') p.am_choked r
            (c, omega (arith, s.0, t.1), omega (arith, k, t)))
          (λ pid. omega (arith, h pid, ap (same_piece pid) s.0)) tt refl refl
    Received-Took p pt br _ r t h (expected true pt' n c d l k s) =
        checked-Took p pt' r (omega (arith, s.0, t.1))
          (λ pid. omega (arith, h pid, ap (same_piece pid) s.0))

    block-Took :
        (p : Peer) (t : Option PieceTracker) (index : ℕ) (br : CompletedBlockRequest)
        → IsReady p
        → Tracks (piece_count p.metainfo) t
        → ((pid : ℕ) → holding pid p.piece_tracker ≡ holding pid t)
        → Took p (block_for sha1 p t index br)
    unfolding block_for
    block-Took p none index br r t h = took p [] r (λ pid. omega arith) tt refl refl
    block-Took p (some pt) index br r t h = elim (Bool-cases (index == pt.pid)) [
      | inl e ↦ rw e (Received-Took p pt br _ r t h (request_completed-Received pt br t.0))
      | inr e ↦ rw e (refused _)
    ]

    -- For a task that is ready - the torrent has 1 to 2 ^ 24 pieces and a hash for each, and the
    -- tracker of the piece in progress is consistent - a message, whose bit field if any is made
    -- of bytes, does not panic the task. It is refused, or the task is ready afterwards, has
    -- reported the piece in progress, and no other, to the Piece Keeper exactly if it gave that
    -- piece up, and what it sent names pieces of the torrent and bit fields that fit it; what is
    -- known of the piece ID of a have message received is true of one sent.
    pub on_msg_received-Took :
        (p : Peer) (first_message : Bool) (msg : Message)
        → IsReady p
        → HasBytes msg
        → Took p (on_msg_received sha1 p first_message msg)
    unfolding on_msg_received on_choke_msg on_unchoke_msg on_have_msg on_block_receive_msg
    on_msg_received-Took p f choke r b = failed-Took p p.piece_tracker r r.tracker (λ pid. refl)
    on_msg_received-Took p f unchoke r b =
        took _ [] (with_tracker p p.piece_tracker false r r.tracker) (λ pid. omega arith) tt refl
          refl
    on_msg_received-Took p f (Message.have piece_id) r b =
        took p _ r (λ pid. omega arith) (b, tt) refl refl
    on_msg_received-Took p f (Message.bitfield bits) r b = bitfield-Took p f bits r b
    on_msg_received-Took p f (Message.piece index begin block) r b =
        block-Took p p.piece_tracker index _ r r.tracker (λ pid. refl)
    on_msg_received-Took p f _ r b = took p [] r (λ pid. omega arith) tt refl refl

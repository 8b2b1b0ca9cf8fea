-- ===== src/Peer/Plain.antt =====
-- What a task tells the Piece Keeper between the requests for pieces and its end.
use learntorrent.Base.{
  ℕ, Bool, true, false, Option, none, some, List, All, ◌==◌, Bool-cases, inl, inr,
}
use learntorrent.Base.Outcome.{ok, Returns, after_step, after_check, returned}
use learntorrent.PeerErr.{PeerErr}
use learntorrent.PieceTracker.{
  PieceTracker, ValidatedPiece, CompletedBlockRequest, request_completed, validate_piece,
}
use learntorrent.PieceKeeper.{pick, register, deregister}
use learntorrent.Metainfo.{piece_count}
use learntorrent.Message.{Message, choke, unchoke}
use learntorrent.Peer.{
  Peer, PeerSent, Session, to_keeper, failure, report, verify_bitfield, on_bitfield_msg,
  on_choke_msg, on_unchoke_msg, on_have_msg, on_block_receive_msg, on_msg_received, after_block,
  block_for,
}

-- A report, and no registration or request for a piece.
abbrev pub IsPlain : PeerSent → Type 0
IsPlain (to_keeper (pick i)) = ⊥
IsPlain (to_keeper (register i)) = ⊥
IsPlain (to_keeper (deregister i)) = ⊥
IsPlain _ = Unit

pub failure-IsPlain : (t : Option PieceTracker) → All IsPlain (failure t)
failure-IsPlain none = tt
failure-IsPlain (some pt) = (tt, tt)

report-IsPlain : (pid : ℕ) (valid : Option ValidatedPiece) → IsPlain (to_keeper (report pid valid))
report-IsPlain pid none = tt
report-IsPlain pid (some vp) = tt

abbrev pub SendsPlain : Session → Type 0
SendsPlain r = All IsPlain r.1

plainly : (r : Session) → SendsPlain r → Returns {E = PeerErr} SendsPlain (ok r)
plainly r a = returned SendsPlain r a

module _ (sha1 : List ℕ → List ℕ) where
  after_block-IsPlain :
      (p : Peer) (r : Bool × PieceTracker) → Returns SendsPlain (after_block sha1 p r)
  unfolding after_block
  after_block-IsPlain p (false, pt) = plainly _ tt
  after_block-IsPlain p (true, pt) =
      after_step (validate_piece sha1 p.metainfo.piece_hashes pt) _
        (λ valid _. plainly _ (report-IsPlain pt.pid valid, tt))

  block_for-IsPlain :
      (p : Peer) (t : Option PieceTracker) (index : ℕ) (br : CompletedBlockRequest)
      → Returns SendsPlain (block_for sha1 p t index br)
  unfolding block_for
  block_for-IsPlain p none index br = plainly _ tt
  block_for-IsPlain p (some pt) index br = elim (Bool-cases (index == pt.pid)) [
    | inl e ↦ rw e (after_step (request_completed pt br) _ (λ r _. after_block-IsPlain p r))
    | inr e ↦ rw e (λ a h. absurd (cc h))
  ]

  pub on_msg_received-IsPlain :
      (p : Peer) (first_message : Bool) (msg : Message)
      → Returns SendsPlain (on_msg_received sha1 p first_message msg)
  unfolding on_msg_received on_choke_msg on_unchoke_msg on_have_msg on_block_receive_msg
      on_bitfield_msg
  on_msg_received-IsPlain p f choke = plainly _ (failure-IsPlain p.piece_tracker)
  on_msg_received-IsPlain p f unchoke = plainly _ tt
  on_msg_received-IsPlain p f (Message.have piece_id) = plainly _ (tt, tt)
  on_msg_received-IsPlain p true (Message.bitfield bits) =
      after_check (verify_bitfield (piece_count p.metainfo) bits) _ (λ _. plainly _ (tt, tt))
  on_msg_received-IsPlain p false (Message.bitfield bits) = λ a h. absurd (cc h)
  on_msg_received-IsPlain p f (Message.piece index begin block) = block_for-IsPlain p _ index _
  on_msg_received-IsPlain p f _ = plainly _ tt

-- ===== src/PieceKeeper/Invariant.antt =====
-- The state of the keeper: where a piece is, queued, pending or finished.
use learntorrent.Base.{ℕ, ◌+◌, ◌*◌, ◌^◌, ◌≤◌, ◌<◌, ◌≡◌, ltb, to_nat, arith, length, All}
use learntorrent.Base.Words.{IsByte}
use learntorrent.Base.Maps.{Values, count}
use learntorrent.BitField.{BitField}
use learntorrent.PieceList
use learntorrent.PieceList.{PieceList}
use learntorrent.PieceList.Spec.{covers, IsCanonical, size}
use learntorrent.PieceKeeper.{PieceKeeper, new}

-- A bit field of bytes with a bit for every piece.
abbrev pub Fits : ℕ → BitField → Type 0
Fits piece_count bf = All IsByte bf × (piece_count ≤ 8 * length bf)

pub record IsConsistent (k : PieceKeeper) : Type 0 where
  pub small : k.piece_count ≤ 2 ^ 24
  pub queue : IsCanonical k.piece_queue
  pub finished : IsCanonical k.finished_pieces
  pub once :
      (p : ℕ)
      → to_nat (covers k.piece_queue p)
          + count p k.pending_pieces
          + to_nat (covers k.finished_pieces p)
        ≡ to_nat (ltb p k.piece_count)
  pub tally : k.missing_pieces + size k.finished_pieces ≡ k.piece_count
  pub fields : Values (Fits k.piece_count) k.peers_pieces

-- The keeper of a torrent with 1 to 2 ^ 24 pieces starts consistent.
pub new-IsConsistent :
    (num_pieces : ℕ) → 0 < num_pieces → num_pieces ≤ 2 ^ 24 → IsConsistent (new num_pieces)
unfolding new PieceList.new_full PieceList.new_empty
new-IsConsistent n pos h = record {
  small = h;
  queue = (omega arith, omega arith, omega arith, tt);
  finished = tt;
  once = λ p. ground arith;
  tally = omega arith;
  fields = tt;
}

-- ===== src/PieceTracker/Completed.antt =====
-- Receiving a block: `request_completed`.
use learntorrent.Base.{
  ℕ, suc, ◌+◌, ◌<◌, ◌≡◌, refl, Bool, ◌&&◌, none, some, List, [], ◌∷◌, ◌++◌, ◌==◌, to_nat, arith,
  length, remove, ◌⊎◌, inl, inr, Bool-cases,
}
use learntorrent.Base.Outcome.{Outcome, ok, err}
use learntorrent.PeerErr.{PeerErr, invalid_block}
use learntorrent.PieceTracker.{
  PendingBlockRequest, CompletedBlockRequest, PieceTracker, position, complete_at,
  request_completed,
}
use learntorrent.PieceTracker.Invariant.{
  IsConsistent, pending_bytes, completed_bytes, count_pending, count_completed-snoc,
  completed_bytes-snoc,
}

-- The pending request at `i` is the one for the block at `offset` of `size` bytes.
record Removes (pending : List PendingBlockRequest) (offset size i : ℕ) : Type 0 where
  counted :
      (o s : ℕ)
      → count_pending o s (remove pending i) + to_nat (offset == o && size == s)
        ≡ count_pending o s pending
  weighed : pending_bytes (remove pending i) + size ≡ pending_bytes pending
  fewer : length (remove pending i) + 1 ≡ length pending

position_lem :
    (pending : List PendingBlockRequest) (offset size : ℕ)
    → (position pending offset size ≡ none) × (count_pending offset size pending ≡ 0)
      ⊎ ((i : ℕ) × (position pending offset size ≡ some i) × Removes pending offset size i)
unfolding position
position_lem [] offset size = inl (refl, refl)
position_lem (r ∷ pending) offset size = elim (Bool-cases (r.offset == offset && r.size == size)) [
  | inl here ↦ inr (
    0,
    rw here,
    record {
      counted = λ o s. ground (arith, here);
      weighed = ground (arith, here);
      fewer = omega arith;
    },
  )
  | inr other ↦ elim (position_lem pending offset size) [
    | inl (e, n) ↦ inl (rw (other, e), rw other (omega (arith, n)))
    | inr (i, e, q) ↦ inr (
      suc i,
      rw (other, e),
      record {
        counted = λ o s. omega (arith, q.counted o s);
        weighed = omega (arith, q.weighed);
        fewer = omega (arith, q.fewer);
      },
    )
  ]
]

-- The outcome of `request_completed`: an error, and the block is not pending; or the block is
-- moved from the pending requests to the completed ones.
pub data Received (t : PieceTracker) (req : CompletedBlockRequest)
    : Outcome PeerErr (Bool × PieceTracker) → Type 0 where
  unexpected :
      count_pending req.offset req.size t.pending_requests ≡ 0 → Received t req (err invalid_block)
  expected :
      (done : Bool) (t' : PieceTracker)
      → 0 < count_pending req.offset req.size t.pending_requests
      → IsConsistent t'
      → done ≡ (completed_bytes t'.completed_requests == t.piece_size)
      → t'.completed_requests ≡ t.completed_requests ++ req ∷ []
      → length t'.pending_requests + 1 ≡ length t.pending_requests
      → (t'.pid ≡ t.pid) × (t'.piece_size ≡ t.piece_size) × (t'.offset ≡ t.offset)
      → Received t req (ok (done, t'))

complete_at-IsConsistent :
    (t : PieceTracker) (req : CompletedBlockRequest) (i : ℕ)
    → IsConsistent t
    → Removes t.pending_requests req.offset req.size i
    → IsConsistent (complete_at t req i)
complete_at-IsConsistent t req i c r =
    let sum = completed_bytes-snoc t.completed_requests req in
    record {
      word = c.word;
      in_piece = c.in_piece;
      aligned = c.aligned;
      once = λ o s.
          omega
            (arith, c.once o s, r.counted o s, count_completed-snoc o s t.completed_requests req);
      asked = omega (arith, c.asked, r.weighed, sum);
      left = omega (arith, c.left, c.asked, r.weighed, sum, c.in_piece, c.word);
    }

-- On a consistent tracker a block is refused exactly if it is not pending. Otherwise it is moved
-- to the completed blocks, the tracker stays consistent, and the answer is whether the completed
-- blocks now make up the piece.
pub request_completed-Received :
    (t : PieceTracker) (req : CompletedBlockRequest)
    → IsConsistent t
    → Received t req (request_completed t req)
unfolding request_completed
request_completed-Received t req c = elim (position_lem t.pending_requests req.offset req.size) [
  | inl (e, n) ↦ rw e (unexpected n)
  | inr (i, e, r) ↦
      let c' = complete_at-IsConsistent t req i c r in
      rw e (
        expected _ (complete_at t req i) (ground (arith, r.counted req.offset req.size)) c'
          (ground (arith, c'.left)) refl r.fewer (refl, refl, refl))
]

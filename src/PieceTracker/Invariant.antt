-- ===== src/PieceTracker/Invariant.antt =====
-- The state of a tracker: which blocks of the piece are pending and which are completed.
use learntorrent.Base.{
  ℕ, ◌+◌, ◌-◌, ◌%◌, ◌^◌, ◌≤◌, ◌<◌, ◌≡◌, Bool, ◌&&◌, List, [], ◌∷◌, ◌++◌, ltb, ◌==◌, if◌then◌else◌,
  to_nat, arith, ◌⊎◌, inl,
}
use learntorrent.PieceTracker.{
  PendingBlockRequest, CompletedBlockRequest, PieceTracker, block_len, new,
}

abbrev pub pending_bytes : List PendingBlockRequest → ℕ
pending_bytes [] = 0
pending_bytes (r ∷ rs) = r.size + pending_bytes rs

abbrev pub completed_bytes : List CompletedBlockRequest → ℕ
completed_bytes [] = 0
completed_bytes (r ∷ rs) = r.size + completed_bytes rs

-- How often the block at `offset` of `size` bytes is in a list.
abbrev pub count_pending : ℕ → ℕ → List PendingBlockRequest → ℕ
count_pending offset size [] = 0
count_pending offset size (r ∷ rs) =
    to_nat (r.offset == offset && r.size == size) + count_pending offset size rs

abbrev pub count_completed : ℕ → ℕ → List CompletedBlockRequest → ℕ
count_completed offset size [] = 0
count_completed offset size (r ∷ rs) =
    to_nat (r.offset == offset && r.size == size) + count_completed offset size rs

-- The block that begins at `offset` of a piece: a full one, or the last.
abbrev pub block_size : ℕ → ℕ → ℕ
block_size piece_size offset =
    if ltb block_len (piece_size - offset) then block_len else piece_size - offset

-- The blocks below `upto`: those that begin at multiples of the block length.
abbrev pub planned : ℕ → ℕ → ℕ → ℕ → Bool
planned piece_size upto offset size =
    offset % block_len == 0 && (ltb offset upto && size == block_size piece_size offset)

pub record IsConsistent (t : PieceTracker) : Type 0 where
  pub word : t.piece_size < 2 ^ 32
  pub in_piece : t.offset ≤ t.piece_size
  pub aligned : (t.offset % block_len ≡ 0) ⊎ (t.offset ≡ t.piece_size)
  pub once :
      (offset size : ℕ)
      → count_pending offset size t.pending_requests
          + count_completed offset size t.completed_requests
        ≡ to_nat (planned t.piece_size t.offset offset size)
  pub asked : pending_bytes t.pending_requests + completed_bytes t.completed_requests ≡ t.offset
  pub left : t.remaining_bytes + completed_bytes t.completed_requests ≡ t.piece_size

-- The tracker of a piece whose size fits 32 bits starts consistent.
pub new-IsConsistent :
    (pid piece_size : ℕ) → piece_size < 2 ^ 32 → IsConsistent (new pid piece_size)
unfolding new
new-IsConsistent pid piece_size h = record {
  word = h;
  in_piece = omega arith;
  aligned = inl (omega arith);
  once = λ offset size. ground arith;
  asked = omega arith;
  left = omega arith;
}

pub count_pending-snoc :
    (offset size : ℕ) (rs : List PendingBlockRequest) (r : PendingBlockRequest)
    → count_pending offset size (rs ++ r ∷ [])
      ≡ count_pending offset size rs + to_nat (r.offset == offset && r.size == size)
count_pending-snoc offset size [] r = omega arith
count_pending-snoc offset size (x ∷ rs) r = omega (arith, count_pending-snoc offset size rs r)

pub pending_bytes-snoc :
    (rs : List PendingBlockRequest) (r : PendingBlockRequest)
    → pending_bytes (rs ++ r ∷ []) ≡ pending_bytes rs + r.size
pending_bytes-snoc [] r = omega arith
pending_bytes-snoc (x ∷ rs) r = omega (arith, pending_bytes-snoc rs r)

pub count_completed-snoc :
    (offset size : ℕ) (rs : List CompletedBlockRequest) (r : CompletedBlockRequest)
    → count_completed offset size (rs ++ r ∷ [])
      ≡ count_completed offset size rs + to_nat (r.offset == offset && r.size == size)
count_completed-snoc offset size [] r = omega arith
count_completed-snoc offset size (x ∷ rs) r = omega (arith, count_completed-snoc offset size rs r)

pub completed_bytes-snoc :
    (rs : List CompletedBlockRequest) (r : CompletedBlockRequest)
    → completed_bytes (rs ++ r ∷ []) ≡ completed_bytes rs + r.size
completed_bytes-snoc [] r = omega arith
completed_bytes-snoc (x ∷ rs) r = omega (arith, completed_bytes-snoc rs r)

-- The set of planned blocks grows by the block at `upto`, if there is one.
pub planned-grow :
    (piece_size upto offset size : ℕ)
    → upto % block_len ≡ 0
    → upto < piece_size
    → to_nat (planned piece_size (upto + block_size piece_size upto) offset size)
      ≡ to_nat (planned piece_size upto offset size)
        + to_nat (upto == offset && block_size piece_size upto == size)
planned-grow piece_size upto offset size a h = ground arith

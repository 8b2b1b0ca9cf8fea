-- ===== src/Tests/Tracker.antt =====
-- The tracker on a piece of two blocks, which arrive in the other order.
use learntorrent.Base.{
  none, ◌≢◌, ◌⊎◌, zero, suc, refl, ◌≡◌, ap, suc, some, ◌≡◌, inr, ◌∷◌, length, arith, [], List, ℕ,
  replicate,
}
use learntorrent.Base.Outcome.{ok}
use learntorrent.PieceTracker.{
  ValidatedPiece, PieceTracker, CompletedBlockRequest, new, next_requests, request_completed,
  validate_piece, contents,
}
use learntorrent.PieceTracker.Invariant.{IsConsistent, new-IsConsistent}
use learntorrent.PieceTracker.Requests.{Requested, next_requests-Requested}
use learntorrent.PieceTracker.Completed.{Received, request_completed-Received}
use learntorrent.PieceTracker.Sorting.{Tiles}
use learntorrent.PieceTracker.Assembly.{validate_piece-assembled, Located}

length-replicate : (n x : ℕ) → length (replicate n x) ≡ n
length-replicate zero x = refl
length-replicate (suc n) x = ap suc (length-replicate n x)

abbrev first_block : CompletedBlockRequest
first_block = record { offset = 0; size = 16384; bytes = replicate 16384 7 }

abbrev last_block : CompletedBlockRequest
last_block = record { offset = 16384; size = 3616; bytes = replicate 3616 9 }

abbrev asked : PieceTracker
asked = record {
  pid = 1;
  piece_size = 20000;
  offset = 20000;
  pending_requests =
      record { offset = 0; size = 16384 } ∷ record { offset = 16384; size = 3616 } ∷ [];
  completed_requests = [];
  remaining_bytes = 20000;
}

abbrev full : PieceTracker
full = record {
  pid = 1;
  piece_size = 20000;
  offset = 20000;
  pending_requests = [];
  completed_requests = last_block ∷ first_block ∷ [];
  remaining_bytes = 0;
}

asked-IsConsistent : IsConsistent asked
asked-IsConsistent = record {
  word = omega arith;
  in_piece = omega arith;
  aligned = inr refl;
  once = λ offset size. ground arith;
  asked = omega arith;
  left = omega arith;
}

full-IsConsistent : IsConsistent full
full-IsConsistent = record {
  word = omega arith;
  in_piece = omega arith;
  aligned = inr refl;
  once = λ offset size. ground arith;
  asked = omega arith;
  left = omega arith;
}

next_requests-Requested_example : Requested (new 1 20000) (next_requests (new 1 20000))
unfolding new
next_requests-Requested_example =
    next_requests-Requested (new 1 20000) (new-IsConsistent 1 20000 (omega arith)) (omega arith)

request_completed-Received_example : Received asked last_block (request_completed asked last_block)
request_completed-Received_example = request_completed-Received asked last_block asked-IsConsistent

-- A hash function and the hashes of two pieces, for the test.
abbrev constant_hash : List ℕ → List ℕ
constant_hash xs = 1 ∷ 2 ∷ []

abbrev hashes : List (List ℕ)
hashes = (0 ∷ 0 ∷ []) ∷ (1 ∷ 2 ∷ []) ∷ []

validate_piece-assembled_example :
    (buffer : List ℕ) × (length buffer ≡ 20000)
    × Located buffer (last_block ∷ first_block ∷ [])
    × ((◌≡◌ {A = List ℕ} (1 ∷ 2 ∷ []) (constant_hash buffer))
          × ((vp : ValidatedPiece) × (validate_piece constant_hash hashes full ≡ ok (some vp))
              × (vp.pid ≡ 1)
              × Tiles 0 20000 vp.blocks
              × (contents vp.blocks ≡ buffer))
        ⊎ ((1 ∷ 2 ∷ []) ≢ constant_hash buffer)
          × (validate_piece constant_hash hashes full ≡ ok none))
validate_piece-assembled_example =
    validate_piece-assembled constant_hash hashes full (1 ∷ 2 ∷ []) full-IsConsistent (omega arith)
      (length-replicate 3616 9, (length-replicate 16384 7, tt)) refl

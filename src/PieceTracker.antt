-- ===== src/PieceTracker.antt =====
-- src/p2p/piece_tracker.rs: the blocks of the piece that a peer task downloads.
-- A `BytesMut` is a list of bytes.
pub mod Invariant
pub mod Requests
pub mod Completed
pub mod Sorting
pub mod Assembly
use learntorrent.Base.{
  ℕ, zero, suc, ◌+◌, Bool, true, false, ◌&&◌, Option, none, some, List, [], ◌∷◌, ◌++◌, ltb, leb,
  ◌==◌, if◌then◌else◌, length, get_elem?, take, drop, remove,
}
use learntorrent.Base.Words.{sub32, add32, sub64}
use learntorrent.Base.Outcome.{Outcome, ok, err, expect, ok_or, ◌>>=◌}
use learntorrent.PeerErr.{PeerErr, invalid_block}

abbrev pub block_len : ℕ
block_len = 16384

abbrev pub max_pending_requests : ℕ
max_pending_requests = 5

pub record PendingBlockRequest : Type 0 where
  pub offset : ℕ
  pub size : ℕ

pub record CompletedBlockRequest : Type 0 where
  pub offset : ℕ
  pub size : ℕ
  pub bytes : List ℕ

pub record ValidatedPiece : Type 0 where
  pub pid : ℕ
  pub blocks : List CompletedBlockRequest

pub record PieceTracker : Type 0 where
  pub pid : ℕ
  pub piece_size : ℕ
  pub offset : ℕ
  pub pending_requests : List PendingBlockRequest
  pub completed_requests : List CompletedBlockRequest
  pub remaining_bytes : ℕ

unfoldable pub new : ℕ → ℕ → PieceTracker
new piece_id piece_size = record {
  pid = piece_id;
  piece_size = piece_size;
  offset = 0;
  pending_requests = [];
  completed_requests = [];
  remaining_bytes = piece_size;
}

-- The next block to ask for: its request, and the tracker with the offset moved on.
unfoldable pub next_pending_request : PieceTracker → Option PendingBlockRequest × PieceTracker
next_pending_request t =
    let remaining = sub32 t.piece_size t.offset in
    if ltb block_len remaining
    then (
      some (record { offset = t.offset; size = block_len }),
      record t { offset = add32 t.offset block_len },
    )
    else if ltb 0 remaining
    then (
      some (record { offset = t.offset; size = remaining }),
      record t { offset = add32 t.offset remaining },
    )
    else (none, t)

abbrev pub push_pending : PieceTracker → PendingBlockRequest → PieceTracker
push_pending t r = record t { pending_requests = t.pending_requests ++ r ∷ [] }

queued_one :
    (PieceTracker → Option ℕ × PieceTracker)
    → ℕ
    → Option PendingBlockRequest × PieceTracker
    → Option ℕ × PieceTracker
queued_one continue queued (some r, t) = continue (push_pending t r)
queued_one continue queued (none, t) = (some queued, t)

-- `for queued in 0..new_requests`, with the rounds left; on `some queued` the loop was left early.
unfoldable pub queue_requests : ℕ → ℕ → PieceTracker → Option ℕ × PieceTracker
unfolding next_pending_request queued_one
queue_requests zero queued t = (none, t)
queue_requests (suc rounds) queued t =
    queued_one (queue_requests rounds (queued + 1)) queued (next_pending_request t)

abbrev new_slice : ℕ → Option ℕ → List PendingBlockRequest → List PendingBlockRequest
new_slice current_requests (some queued) pending = take queued pending
new_slice current_requests none pending = drop current_requests pending

new_requests_of : ℕ → Option ℕ × PieceTracker → List PendingBlockRequest × PieceTracker
new_requests_of current_requests (stopped, t) =
    (new_slice current_requests stopped t.pending_requests, t)

-- The slice of requests that the caller sends to the peer, and the tracker.
unfoldable pub next_requests : PieceTracker → List PendingBlockRequest × PieceTracker
unfolding queue_requests new_requests_of
next_requests t =
    let current_requests = length t.pending_requests in
    let new_requests = sub64 max_pending_requests current_requests in
    if ltb 0 new_requests
    then new_requests_of current_requests (queue_requests new_requests 0 t)
    else ([], t)

-- The index of the pending request with this offset and size.
unfoldable pub position : List PendingBlockRequest → ℕ → ℕ → Option ℕ
position [] offset size = none
position (r ∷ pending) offset size =
    if r.offset == offset && r.size == size
    then some 0
    else elim (position pending offset size) [ some i ↦ some (suc i) | none ↦ none ]

abbrev complete_at : PieceTracker → CompletedBlockRequest → ℕ → PieceTracker
complete_at t req index = record t {
  pending_requests = remove t.pending_requests index;
  completed_requests = t.completed_requests ++ req ∷ [];
  remaining_bytes = sub32 t.remaining_bytes req.size;
}

-- Whether all blocks have been downloaded.
unfoldable pub request_completed :
    PieceTracker → CompletedBlockRequest → Outcome PeerErr (Bool × PieceTracker)
unfolding position
request_completed t req = do
  index ← ok_or (position t.pending_requests req.offset req.size) invalid_block
  let t' = complete_at t req index
  ok (t'.remaining_bytes == 0, t')

-- `sort_by` on the offsets, a stable sort.
unfoldable pub insert_sorted :
    CompletedBlockRequest → List CompletedBlockRequest → List CompletedBlockRequest
insert_sorted b [] = b ∷ []
insert_sorted b (c ∷ blocks) =
    if leb b.offset c.offset then b ∷ c ∷ blocks else c ∷ insert_sorted b blocks

unfoldable pub sort_blocks : List CompletedBlockRequest → List CompletedBlockRequest
unfolding insert_sorted
sort_blocks [] = []
sort_blocks (b ∷ blocks) = insert_sorted b (sort_blocks blocks)

-- The buffer that the hasher sees.
unfoldable pub contents : List CompletedBlockRequest → List ℕ
contents [] = []
contents (b ∷ blocks) = b.bytes ++ contents blocks

-- The comparison of two hashes, `expected_hash == piece_hash.as_slice()`.
unfoldable pub same_bytes : List ℕ → List ℕ → Bool
same_bytes [] [] = true
same_bytes (x ∷ xs) (y ∷ ys) = x == y && same_bytes xs ys
same_bytes _ _ = false

-- SHA1 is the crate's. `piece_hashes` are those of the metainfo.
module _ (sha1 : List ℕ → List ℕ) (piece_hashes : List (List ℕ)) where
  unfoldable pub validate_piece : PieceTracker → Outcome PeerErr (Option ValidatedPiece)
  unfolding sort_blocks contents same_bytes
  validate_piece t = do
    let blocks = sort_blocks t.completed_requests
    expected_hash ← expect (get_elem? piece_hashes t.pid)
    ok (
        if same_bytes expected_hash (sha1 (contents blocks))
        then some (record { pid = t.pid; blocks = blocks })
        else none)

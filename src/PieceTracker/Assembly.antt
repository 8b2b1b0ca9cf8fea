-- ===== src/PieceTracker/Assembly.antt =====
-- Putting the piece together: the buffer that is hashed and `validate_piece`.
use learntorrent.Base.{
  take, drop, drop-append, take-append, append_assoc, subst, get_elem?, ℕ, ◌+◌, ◌≤◌, ◌≡◌, refl, ap,
  true, some, List, [], ◌∷◌, ◌++◌, leb, to_nat, arith, length, length-append, All, inl, inr,
  Bool-cases, none, ◌⊎◌, ◌≢◌,
}
use learntorrent.PieceTracker.{
  ok, ValidatedPiece, validate_piece, same_bytes, PendingBlockRequest, CompletedBlockRequest,
  PieceTracker, insert_sorted, sort_blocks, contents,
}
use learntorrent.PieceTracker.Invariant.{
  IsConsistent, completed_bytes, count_pending, planned, pending_bytes,
}
use learntorrent.PieceTracker.Sorting.{
  Tiles, sort_blocks-IsSorted, Tiles-count_completed, count-sort_blocks,
}

-- Every block's bytes stand in the buffer at the block's offset.
abbrev pub Located : List ℕ → List CompletedBlockRequest → Type 0
Located buffer blocks = All (λ b. take (length b.bytes) (drop b.offset buffer) ≡ b.bytes) blocks

abbrev pub IsSized : List CompletedBlockRequest → Type 0
IsSized blocks = All (λ b. length b.bytes ≡ b.size) blocks

insert_sorted-IsSized :
    (b : CompletedBlockRequest) (blocks : List CompletedBlockRequest)
    → length b.bytes ≡ b.size
    → IsSized blocks
    → IsSized (insert_sorted b blocks)
unfolding insert_sorted
insert_sorted-IsSized b [] h f = (h, tt)
insert_sorted-IsSized b (c ∷ blocks) h f = elim (Bool-cases (leb b.offset c.offset)) [
  | inl e ↦ rw e (h, f)
  | inr e ↦ rw e (f.0, insert_sorted-IsSized b blocks h f.1)
]

sort_blocks-IsSized :
    (blocks : List CompletedBlockRequest) → IsSized blocks → IsSized (sort_blocks blocks)
unfolding sort_blocks
sort_blocks-IsSized [] f = tt
sort_blocks-IsSized (b ∷ blocks) f =
    insert_sorted-IsSized b (sort_blocks blocks) f.0 (sort_blocks-IsSized blocks f.1)

length-contents :
    (pos ps : ℕ) (blocks : List CompletedBlockRequest)
    → Tiles pos ps blocks
    → IsSized blocks
    → pos + length (contents blocks) ≡ ps
unfolding contents
length-contents pos ps [] t z = omega (arith, t)
length-contents pos ps (b ∷ blocks) t z = omega (
  arith,
  length-append b.bytes (contents blocks),
  length-contents (pos + b.size) ps blocks t.2 z.1,
  z.0,
)

contents-Located :
    (front : List ℕ) (pos ps : ℕ) (blocks : List CompletedBlockRequest)
    → length front ≡ pos
    → Tiles pos ps blocks
    → IsSized blocks
    → Located (front ++ contents blocks) blocks
unfolding contents
contents-Located front pos ps [] e t z = tt
contents-Located front pos ps (b ∷ blocks) e t z =
    let inside : take (length b.bytes) (drop b.offset (front ++ contents (b ∷ blocks))) ≡ b.bytes =
      rw (t.0, ← e)
        (rw (drop-append front (contents (b ∷ blocks))) (take-append b.bytes (contents blocks))) in
    (
      inside,
      subst (λ buffer. Located buffer blocks) (append_assoc front b.bytes (contents blocks))
          (contents-Located (front ++ b.bytes) (pos + b.size) ps blocks
            (omega (arith, length-append front b.bytes, e, z.0)) t.2 z.1),
    )

no_pending :
    (ps upto : ℕ) (pending : List PendingBlockRequest)
    → ((o s : ℕ) → count_pending o s pending ≤ to_nat (planned ps upto o s))
    → upto ≤ ps
    → pending_bytes pending ≡ 0
    → pending ≡ []
no_pending ps upto [] n h z = refl
no_pending ps upto (r ∷ pending) n h z = absurd (ground (arith, n r.offset r.size))

pub assembled :
    (t : PieceTracker)
    → IsConsistent t
    → completed_bytes t.completed_requests ≡ t.piece_size
    → IsSized t.completed_requests
    → let blocks = sort_blocks t.completed_requests in
      (t.pending_requests ≡ [])
      × Tiles 0 t.piece_size blocks
      × (length (contents blocks) ≡ t.piece_size)
      × Located (contents blocks) blocks
assembled t c all z =
    let at_end : t.offset ≡ t.piece_size = omega (arith, c.asked, c.in_piece) in
    let none_left : t.pending_requests ≡ [] =
      no_pending t.piece_size t.offset t.pending_requests (λ o s. omega (arith, c.once o s))
        c.in_piece (omega (arith, c.asked, c.in_piece)) in
    let blocks = sort_blocks t.completed_requests in
    let tiles : Tiles 0 t.piece_size blocks =
      Tiles-count_completed t.piece_size 0 blocks (sort_blocks-IsSorted t.completed_requests)
        (inl (omega arith)) (omega arith)
        (λ o s. ground (
          arith,
          count-sort_blocks o s t.completed_requests,
          c.once o s,
          at_end,
          ap (count_pending o s) none_left,
        )) in
    let sized = sort_blocks-IsSized t.completed_requests z in
    (
      none_left,
      tiles,
      omega (arith, length-contents 0 t.piece_size blocks tiles sized),
      contents-Located [] 0 t.piece_size blocks refl tiles sized,
    )

same_bytes→eq : (xs ys : List ℕ) → same_bytes xs ys ≡ true → xs ≡ ys
unfolding same_bytes
same_bytes→eq [] [] h = refl
same_bytes→eq [] (y ∷ ys) h = cc
same_bytes→eq (x ∷ xs) [] h = cc
same_bytes→eq (x ∷ xs) (y ∷ ys) h = ground (arith, same_bytes→eq xs ys)

eq→same_bytes : (xs ys : List ℕ) → xs ≡ ys → same_bytes xs ys ≡ true
unfolding same_bytes
eq→same_bytes [] [] h = refl
eq→same_bytes [] (y ∷ ys) h = absurd (cc h)
eq→same_bytes (x ∷ xs) [] h = absurd (cc h)
eq→same_bytes (x ∷ xs) (y ∷ ys) h = ground (arith, h, eq→same_bytes xs ys (ap tail h))
  where
    tail : List ℕ → List ℕ
    tail [] = []
    tail (z ∷ zs) = zs

-- What stands in the buffer does not depend on the order of the blocks.
unsorted_first :
    (buffer : List ℕ) (b : CompletedBlockRequest) (blocks : List CompletedBlockRequest)
    → Located buffer (insert_sorted b blocks)
    → Located buffer (b ∷ blocks)
unfolding insert_sorted
unsorted_first buffer b [] h = h
unsorted_first buffer b (c ∷ blocks) h = elim (Bool-cases (leb b.offset c.offset)) [
  | inl e ↦ rw e at h
  | inr e ↦
      let (here, more) : Located buffer (c ∷ insert_sorted b blocks) = rw e at h in
      let (first, rest) = unsorted_first buffer b blocks more in (first, (here, rest))
]

unsorted :
    (buffer : List ℕ) (blocks : List CompletedBlockRequest)
    → Located buffer (sort_blocks blocks)
    → Located buffer blocks
unfolding sort_blocks
unsorted buffer [] h = tt
unsorted buffer (b ∷ blocks) h =
    let (first, rest) = unsorted_first buffer b (sort_blocks blocks) h in
    (first, unsorted buffer blocks rest)

-- For a consistent tracker whose completed blocks make up the piece in bytes, and have as many
-- bytes as their sizes say, and a hash for the piece: there are bytes, as many as the piece has,
-- in which every block that was received stands at its offset, whatever the order of arrival, and
-- `validate_piece` lets the piece through exactly if the hash is that of these bytes. It then
-- passes on blocks that tile the piece and make up these bytes, under the tracker's piece ID.
pub validate_piece-assembled :
    (sha1 : List ℕ → List ℕ) (piece_hashes : List (List ℕ)) (t : PieceTracker) (hash : List ℕ)
    → IsConsistent t
    → completed_bytes t.completed_requests ≡ t.piece_size
    → IsSized t.completed_requests
    → get_elem? piece_hashes t.pid ≡ some hash
    → (buffer : List ℕ) × (length buffer ≡ t.piece_size)
      × Located buffer t.completed_requests
      × ((hash ≡ sha1 buffer)
            × ((vp : ValidatedPiece) × (validate_piece sha1 piece_hashes t ≡ ok (some vp))
                × (vp.pid ≡ t.pid)
                × Tiles 0 t.piece_size vp.blocks
                × (contents vp.blocks ≡ buffer))
          ⊎ (hash ≢ sha1 buffer) × (validate_piece sha1 piece_hashes t ≡ ok none))
unfolding validate_piece
validate_piece-assembled sha1 piece_hashes t hash c all z e =
    let (_, tiles, size, located) = assembled t c all z in
    let buffer = contents (sort_blocks t.completed_requests) in
    (
      buffer,
      size,
      unsorted buffer t.completed_requests located,
      elim (Bool-cases (same_bytes hash (sha1 buffer))) [
        | inl s ↦ inl (same_bytes→eq hash (sha1 buffer) s, (_, rw e (rw s refl), refl, tiles, refl))
        | inr s ↦ inr ((λ q. absurd (cc (eq→same_bytes hash (sha1 buffer) q, s))), rw e (rw s refl))
      ],
    )

-- ===== src/PieceTracker/Sorting.antt =====
-- The sorting of `validate_piece`: the order of the blocks, and how they tile the piece.
use learntorrent.Base.{
  ℕ, ◌+◌, ◌-◌, ◌%◌, ◌≤◌, ◌<◌, ◌≡◌, refl, ◌∙◌, ◌&&◌, List, [], ◌∷◌, ltb, leb, ◌==◌, to_nat, arith,
  ◌⊎◌, inl, inr, Bool-cases,
}
use learntorrent.PieceTracker.{CompletedBlockRequest, block_len, insert_sorted, sort_blocks}
use learntorrent.PieceTracker.Invariant.{count_completed, block_size, planned}

-- The blocks follow one another without gap or overlap, from `pos` to the end of the piece.
abbrev pub Tiles : ℕ → ℕ → List CompletedBlockRequest → Type 0
Tiles pos piece_size [] = pos ≡ piece_size
Tiles pos piece_size (b ∷ blocks) =
    (b.offset ≡ pos) × (b.size ≡ block_size piece_size pos) × Tiles (pos + b.size) piece_size blocks

abbrev pub FromOffset : ℕ → List CompletedBlockRequest → Type 0
FromOffset lo [] = Unit
FromOffset lo (b ∷ blocks) = (lo ≤ b.offset) × FromOffset lo blocks

abbrev pub IsSorted : List CompletedBlockRequest → Type 0
IsSorted [] = Unit
IsSorted (b ∷ blocks) = FromOffset b.offset blocks × IsSorted blocks

FromOffset-weaken :
    (lo hi : ℕ) (blocks : List CompletedBlockRequest)
    → lo ≤ hi
    → FromOffset hi blocks
    → FromOffset lo blocks
FromOffset-weaken lo hi [] h f = tt
FromOffset-weaken lo hi (b ∷ blocks) h f = (omega (arith, f), FromOffset-weaken lo hi blocks h f.1)

insert_sorted-FromOffset :
    (lo : ℕ) (b : CompletedBlockRequest) (blocks : List CompletedBlockRequest)
    → lo ≤ b.offset
    → FromOffset lo blocks
    → FromOffset lo (insert_sorted b blocks)
unfolding insert_sorted
insert_sorted-FromOffset lo b [] h f = (h, tt)
insert_sorted-FromOffset lo b (c ∷ blocks) h f = elim (Bool-cases (leb b.offset c.offset)) [
  | inl e ↦ rw e (h, f)
  | inr e ↦ rw e (f.0, insert_sorted-FromOffset lo b blocks h f.1)
]

insert_sorted-IsSorted :
    (b : CompletedBlockRequest) (blocks : List CompletedBlockRequest)
    → IsSorted blocks
    → IsSorted (insert_sorted b blocks)
unfolding insert_sorted
insert_sorted-IsSorted b [] s = (tt, tt)
insert_sorted-IsSorted b (c ∷ blocks) s = elim (Bool-cases (leb b.offset c.offset)) [
  | inl e ↦
      rw e (
        ((ground (arith, e)), FromOffset-weaken b.offset c.offset blocks (ground (arith, e)) s.0),
        s,
      )
  | inr e ↦ rw e (
    insert_sorted-FromOffset c.offset b blocks (ground (arith, e)) s.0,
    insert_sorted-IsSorted b blocks s.1,
  )
]

pub sort_blocks-IsSorted : (blocks : List CompletedBlockRequest) → IsSorted (sort_blocks blocks)
unfolding sort_blocks
sort_blocks-IsSorted [] = tt
sort_blocks-IsSorted (b ∷ blocks) =
    insert_sorted-IsSorted b (sort_blocks blocks) (sort_blocks-IsSorted blocks)

count-insert_sorted :
    (o s : ℕ) (b : CompletedBlockRequest) (blocks : List CompletedBlockRequest)
    → count_completed o s (insert_sorted b blocks) ≡ count_completed o s (b ∷ blocks)
unfolding insert_sorted
count-insert_sorted o s b [] = refl
count-insert_sorted o s b (c ∷ blocks) = elim (Bool-cases (leb b.offset c.offset)) [
  | inl e ↦ rw e
  | inr e ↦ rw e (omega (arith, count-insert_sorted o s b blocks))
]

pub count-sort_blocks :
    (o s : ℕ) (blocks : List CompletedBlockRequest)
    → count_completed o s (sort_blocks blocks) ≡ count_completed o s blocks
unfolding sort_blocks
count-sort_blocks o s [] = refl
count-sort_blocks o s (b ∷ blocks) =
    count-insert_sorted o s b (sort_blocks blocks) ∙ omega (arith, count-sort_blocks o s blocks)

count_below :
    (lo o s : ℕ) (blocks : List CompletedBlockRequest)
    → FromOffset lo blocks
    → o < lo
    → count_completed o s blocks ≡ 0
count_below lo o s [] f h = refl
count_below lo o s (b ∷ blocks) f h = ground (arith, count_below lo o s blocks f.1 h)

planned-from :
    (ps pos o s : ℕ)
    → pos % block_len ≡ 0
    → pos < ps
    → to_nat (planned ps ps o s && leb pos o)
      ≡ to_nat (planned ps ps o s && leb (pos + block_size ps pos) o)
        + to_nat (pos == o && block_size ps pos == s)
planned-from ps pos o s a h = ground arith

pub Tiles-count_completed :
    (ps pos : ℕ) (blocks : List CompletedBlockRequest)
    → IsSorted blocks
    → (pos % block_len ≡ 0) ⊎ (pos ≡ ps)
    → pos ≤ ps
    → ((o s : ℕ) → count_completed o s blocks ≡ to_nat (planned ps ps o s && leb pos o))
    → Tiles pos ps blocks
Tiles-count_completed ps pos [] sorted a h n = ground (arith, n pos (block_size ps pos))
Tiles-count_completed ps pos (b ∷ blocks) sorted a h n =
    let is_planned = n b.offset b.size in
    let below : pos < ps = ground (arith, is_planned) in
    let al : pos % block_len ≡ 0 = ground (arith, a) in
    let at : b.offset ≡ pos = ground (
      arith,
      is_planned,
      n pos (block_size ps pos),
      count_below b.offset pos (block_size ps pos) blocks sorted.0,
    ) in
    let size : b.size ≡ block_size ps pos = ground (arith, is_planned, at) in
    (
      at,
      size,
      Tiles-count_completed ps (pos + b.size) blocks sorted.1
          (elim (Bool-cases (ltb block_len (ps - pos))) [
            | inl more ↦ inl (ground (arith, more, size))
            | inr last ↦ inr (ground (arith, last, size))
          ])
          (ground (arith, size)) (λ o s. ground (arith, n o s, planned-from ps pos o s al below)),
    )

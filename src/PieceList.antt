-- ===== src/PieceList.antt =====
-- src/piece_keeper/piece_list.rs: a set of pieces as a vector of inclusive ranges.
-- The struct's one field is `blocks`. An index out of bounds is a panic.
pub mod Spec
pub mod Union
pub mod Compact
pub mod Insert
pub mod Find
pub mod Next
pub mod Size
use learntorrent.Base.{
  ℕ, zero, suc, ◌+◌, ◌-◌, Bool, true, false, ◌&&◌, Option, none, some, List, [], ◌∷◌, ◌++◌, ltb,
  leb, ◌==◌, if◌then◌else◌, length, get_elem?, set, remove, insert_at,
}
use learntorrent.Base.Words.{sub32}
use learntorrent.Base.Outcome.{ok, panicked, expect, ◌>>=◌}
use learntorrent.BitField.{BitField, Panics, has_piece}

abbrev pub Block : Type 0
Block = ℕ × ℕ

abbrev pub PieceList : Type 0
PieceList = List Block

-- `Num pieces starts from 0`; the subtraction wraps.
unfoldable pub new_full : ℕ → PieceList
new_full num_pieces = (0, sub32 num_pieces 1) ∷ []

unfoldable pub new_empty : PieceList
new_empty = []

-- `for p in block.0..=block.1`, with the number of rounds left.
unfoldable pub find_in_block : BitField → ℕ → ℕ → Panics (Option ℕ)
find_in_block available zero p = ok none
find_in_block available (suc rounds) p =
    let rest = find_in_block available rounds (p + 1) in
    has_piece available p >>= λ h. if h then ok (some p) else rest

found : ℕ → Option ℕ → Panics (Option (ℕ × ℕ)) → Panics (Option (ℕ × ℕ))
found i (some p) rest = ok (some (i, p))
found i none rest = rest

-- The `find_map` over the blocks, `i` being the index of the first.
unfoldable pub find_block : BitField → PieceList → ℕ → Panics (Option (ℕ × ℕ))
unfolding found find_in_block
find_block available [] i = ok none
find_block available ((start, end) ∷ blocks) i =
    let rest = find_block available blocks (i + 1) in
    find_in_block available (end + 1 - start) start >>= λ r. found i r rest

-- The branches of `split_block_at` on the block that was read.
split_block : PieceList → ℕ → ℕ → Block → PieceList
split_block blocks i piece (start, end) =
    if piece == start
    then (if start == end then remove blocks i else set blocks i (start + 1, end))
    else if piece == end
    then set blocks i (start, end - 1)
    else insert_at (set blocks i (piece + 1, end)) i (start, piece - 1)

unfoldable pub split_block_at : PieceList → ℕ → ℕ → Panics PieceList
unfolding split_block
split_block_at blocks i piece = do
  block ← expect (get_elem? blocks i)
  ok (split_block blocks i piece block)

take_found : PieceList → Option (ℕ × ℕ) → Panics (Option ℕ × PieceList)
take_found blocks none = ok (none, blocks)
take_found blocks (some (i, piece)) = do
  blocks' ← split_block_at blocks i piece
  ok (some piece, blocks')

unfoldable pub next : PieceList → BitField → Panics (Option ℕ × PieceList)
unfolding take_found find_block split_block_at
next blocks available = find_block available blocks 0 >>= take_found blocks

-- `compact` joins the new block at `i` to a neighbour that it touches. `i` is the first block,
join_first : PieceList → ℕ → Block → Block → PieceList
join_first blocks i (head_start, head_end) (tail_start, tail_end) =
    if head_end == sub32 tail_start 1
    then remove (set blocks i (head_start, tail_end)) (i + 1)
    else blocks

-- the last one,
join_last : PieceList → ℕ → Block → Block → PieceList
join_last blocks i (head_start, head_end) (tail_start, tail_end) =
    if head_end == sub32 tail_start 1
    then remove (set blocks (i - 1) (head_start, tail_end)) i
    else blocks

-- or one between two others.
join_middle : PieceList → ℕ → Block → Block → Block → PieceList
join_middle blocks i (head_start, head_end) (middle_start, middle_end) (tail_start, tail_end) =
    if head_end == sub32 middle_start 1
    then (if middle_end == sub32 tail_start 1
        then remove (remove (set blocks (i - 1) (head_start, tail_end)) (i + 1)) i
        else remove (set blocks (i - 1) (head_start, middle_end)) i)
    else if middle_end == sub32 tail_start 1
    then remove (set blocks i (middle_start, tail_end)) (i + 1)
    else blocks

unfoldable pub compact : PieceList → ℕ → Panics PieceList
unfolding join_first join_last join_middle
compact blocks i =
    if length blocks == 1
    then ok blocks
    else if i == 0
    then (do
      head ← expect (get_elem? blocks i)
      tail ← expect (get_elem? blocks (i + 1))
      ok (join_first blocks i head tail))
    else if i == length blocks - 1
    then (do
      head ← expect (get_elem? blocks (i - 1))
      tail ← expect (get_elem? blocks i)
      ok (join_last blocks i head tail))
    else (do
      head ← expect (get_elem? blocks (i - 1))
      middle ← expect (get_elem? blocks i)
      tail ← expect (get_elem? blocks (i + 1))
      ok (join_middle blocks i head middle tail))

-- The loop of `insert`: `rest` are the blocks from index `i` on.
unfoldable pub insert_loop : PieceList → ℕ → PieceList → ℕ → Panics PieceList
unfolding compact
insert_loop blocks pid [] i = compact (blocks ++ (pid, pid) ∷ []) i
insert_loop blocks pid ((start, end) ∷ rest) i =
    let more = insert_loop blocks pid rest (i + 1) in
    if leb start pid && leb pid end
    then ok blocks
    else if ltb pid start
    then compact (insert_at blocks i (pid, pid)) i
    else more

unfoldable pub insert : PieceList → ℕ → Panics PieceList
unfolding insert_loop
insert blocks pid = insert_loop blocks pid blocks 0

contains_from : PieceList → ℕ → ℕ → Option ℕ
contains_from [] pid index = none
contains_from ((start, end) ∷ blocks) pid index =
    if leb start pid && leb pid end then some index else contains_from blocks pid (index + 1)

unfoldable pub contains : PieceList → ℕ → Option ℕ
unfolding contains_from
contains blocks pid = contains_from blocks pid 0

unfoldable pub all_finished : PieceList → ℕ → Bool
all_finished ((start, end) ∷ []) piece_count = start == 0 && end == sub32 piece_count 1
all_finished _ piece_count = false

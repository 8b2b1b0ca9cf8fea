-- ===== src/Tests/Pieces.antt =====
-- Piece lists and bit fields.
use learntorrent.Base.{All, length, ◌||◌, ◌==◌, false, [], ◌≡◌, ◌∷◌, arith, ℕ}
use learntorrent.Base.Outcome.{ok, ◌>>=◌}
use learntorrent.Base.Words.{IsByte}
use learntorrent.PieceList.{PieceList, insert, next}
use learntorrent.PieceList.Spec.{covers, IsCanonical}
use learntorrent.PieceList.Insert.{insert_lem}
use learntorrent.PieceList.Next.{Picked, next-Picked}
use learntorrent.BitField.{BitField, has_piece, set_piece, new_empty}
use learntorrent.BitField.Laws.{has_piece-set_piece, has_piece-new_empty}

abbrev two_blocks : PieceList
two_blocks = (2, 3) ∷ (5, 9) ∷ []

abbrev some_pieces : BitField
some_pieces = 1 ∷ 64 ∷ []

two_blocks-IsCanonical : IsCanonical two_blocks
two_blocks-IsCanonical =
    (omega arith, omega arith, omega arith, (omega arith, omega arith, omega arith, tt))

insert_lem_example :
    (blocks' : PieceList) × (insert two_blocks 4 ≡ ok blocks')
    × IsCanonical blocks'
    × ((q : ℕ) → covers blocks' q ≡ ((4 == q) || covers two_blocks q))
insert_lem_example = insert_lem two_blocks 4 two_blocks-IsCanonical (omega arith)

next-Picked_example : Picked two_blocks some_pieces (next two_blocks some_pieces)
next-Picked_example =
    next-Picked two_blocks some_pieces two_blocks-IsCanonical (omega arith, (omega arith, tt))

has_piece-set_piece_example :
    (bf' : BitField) × (set_piece some_pieces 3 ≡ ok bf')
    × (has_piece bf' 9 ≡ (has_piece some_pieces 9 >>= λ had. ok ((3 == 9) || had)))
    × (length bf' ≡ length some_pieces)
    × All IsByte bf'
has_piece-set_piece_example =
    has_piece-set_piece some_pieces 3 9 (omega arith, (omega arith, tt)) (omega arith) (omega arith)

has_piece-new_empty_example : has_piece (new_empty 13) 12 ≡ ok false
has_piece-new_empty_example = has_piece-new_empty 13 12 (omega arith) (omega arith)

-- ===== src/Metainfo/Sizes.antt =====
-- The sizes of the pieces together.
use learntorrent.Base.{ℕ, zero, suc, ◌+◌, ◌*◌, ◌-◌, ◌≤◌, ◌≡◌, min, arith}
use learntorrent.Base.Ceil.{mul_mono}
use learntorrent.Metainfo.{
  Metainfo, IsCounted, piece_count, piece_count-IsCeil, get_piece_size, get_piece_size_lem,
}

-- The bytes of the first pieces.
abbrev pub sizes_to : Metainfo → ℕ → ℕ
sizes_to mi zero = 0
sizes_to mi (suc n) = sizes_to mi n + get_piece_size mi n

sizes_to_lem :
    (mi : Metainfo) (n : ℕ)
    → IsCounted mi
    → n ≤ piece_count mi
    → sizes_to mi n ≡ min (n * mi.piece_length) mi.total_length
sizes_to_lem mi zero f h = omega arith
sizes_to_lem mi (suc n) f h =
    let lo = (piece_count-IsCeil mi f).2 (omega arith) in
    let before = mul_mono n (piece_count mi - 1) mi.piece_length (omega arith) in
    omega (arith, sizes_to_lem mi n f (omega arith), get_piece_size_lem mi n f h, lo, before)

-- For a torrent of less than 2 ^ 53 bytes, of at most 2 ^ 32 - 1 pieces of less than 2 ^ 32 bytes
-- each, the sizes of all the pieces that `piece_count` counts add up to the total length.
pub sizes_to-piece_count :
    (mi : Metainfo) → IsCounted mi → sizes_to mi (piece_count mi) ≡ mi.total_length
sizes_to-piece_count mi f =
    let hi = (piece_count-IsCeil mi f).1 in
    omega (arith, hi, sizes_to_lem mi (piece_count mi) f (omega arith))

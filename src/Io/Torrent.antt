-- ===== src/Io/Torrent.antt =====
-- A torrent that was read, and the pieces of it that are written.
use learntorrent.Base.{ℕ, ◌-◌, ◌*◌, ◌^◌, ◌≤◌, ◌<◌, ◌≡◌, refl, sym, subst, List, length, All, arith}
use learntorrent.Base.Ceil.{mul_mono}
use learntorrent.Base.Outcome.{ok}
use learntorrent.BeValue.{BeValue}
use learntorrent.PieceTracker.{ValidatedPiece, contents}
use learntorrent.Metainfo.{
  MultiFile, multi, Metainfo, piece_count, get_piece_size, get_piece_size_lem, as_slice, IsCounted,
  piece_count-IsCeil,
}
use learntorrent.Metainfo.Parse.{from_src_be}
use learntorrent.Metainfo.Files.{bytes_in, first_len, HasFiles, WellFormed, from_src_be_lem}
use learntorrent.Io.{IoPiece, split_piece}
use learntorrent.Io.Cut.{Sized, Lays}
use learntorrent.Io.Split.{IsWhole, split_piece-Lays}

pub piece-IsWhole :
    (mi : Metainfo) (vp : ValidatedPiece)
    → IsCounted mi
    → vp.pid < piece_count mi
    → get_piece_size mi vp.pid ≡ length (contents vp.blocks)
    → All Sized vp.blocks
    → IsWhole mi mi.total_length vp
piece-IsWhole mi vp f h size sized =
    let stop = get_piece_size_lem mi vp.pid f h in
    let (c, hi, last_piece) = piece_count-IsCeil mi f in
    let lo = last_piece (omega arith) in
    let before = mul_mono vp.pid (piece_count mi - 1) mi.piece_length (omega arith) in
    record {
      inside = omega (arith, stop, size);
      size = size;
      some_byte = omega (arith, stop, size, before, lo);
      short = omega (arith, stop, size, f.short);
      sized = sized;
    }

-- What the reading of a torrent of several files says of its places.
pub read_lem :
    (sha1 : List ℕ → List ℕ) (src : List ℕ) (v : BeValue) (mi : Metainfo) (mf : MultiFile)
    → from_src_be sha1 src v ≡ ok mi
    → mi.file_entries ≡ multi mf
    → bytes_in mf.file_entries < 2 ^ 53
    → bytes_in mf.file_entries ≤ (2 ^ 32 - 1) * mi.piece_length
    → 0 < first_len mf.file_entries
    → IsCounted mi × WellFormed mi × HasFiles (multi mf) mi.total_length
unfolding as_slice
read_lem sha1 src v mi mf read e exact few full =
    let fits : bytes_in mf.file_entries < 2 ^ 64 = omega arith in
    let slice : as_slice mi.file_entries ≡ mf.file_entries = rw e refl in
    let well =
      from_src_be_lem sha1 src v mi read (subst (λ fes. bytes_in fes < 2 ^ 64) (sym slice) fits)
        (subst (λ fes. 0 < first_len fes) (sym slice) full) in
    let files = subst (λ fs. HasFiles fs mi.total_length) e well.files in
    (
      record {
        exact = omega (arith, files.0);
        few = omega (arith, files.0);
        short = well.piece_length;
      },
      well,
      files,
    )

-- For a torrent of several files that is read without an error, has less than 2 ^ 53 bytes, at
-- most 2 ^ 32 - 1 pieces, and a first file that is not empty: the blocks of a piece that has a
-- hash, with as many bytes as `get_piece_size` says, are split without a panic into parts that
-- hold the bytes in order, each inside of its file, and that over all the files start at the piece
-- ID times the piece length and follow each other without a gap.
pub split_piece-from_src_be :
    (sha1 : List ℕ → List ℕ) (src : List ℕ) (v : BeValue) (mi : Metainfo) (mf : MultiFile)
    (vp : ValidatedPiece)
    → from_src_be sha1 src v ≡ ok mi
    → mi.file_entries ≡ multi mf
    → bytes_in mf.file_entries < 2 ^ 53
    → bytes_in mf.file_entries ≤ (2 ^ 32 - 1) * mi.piece_length
    → 0 < first_len mf.file_entries
    → vp.pid < length mi.piece_hashes
    → get_piece_size mi vp.pid ≡ length (contents vp.blocks)
    → All Sized vp.blocks
    → (io_pieces : List IoPiece) × (split_piece mi vp ≡ ok io_pieces)
      × Lays mf.file_entries (vp.pid * mi.piece_length) (contents vp.blocks) io_pieces
split_piece-from_src_be sha1 src v mi mf vp read e exact few full h size sized =
    let (counted, well, files) = read_lem sha1 src v mi mf read e exact few full in
    let whole = piece-IsWhole mi vp counted (omega (arith, well.hash_count, h)) size sized in
    split_piece-Lays mi mf vp e files.1 (omega arith)
      (subst (λ t. IsWhole mi t vp) (sym files.0) whole)

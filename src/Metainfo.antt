-- ===== src/Metainfo.antt =====
-- src/metainfo.rs: what the tasks know of a torrent, and the sizes of its pieces.
pub mod Parse
pub mod Files
pub mod Sizes
pub mod Load
use learntorrent.Base.{
  inr, inl, Bool-cases, min, zero, suc, true, false, ℕ, ◌+◌, ◌*◌, ◌≤◌, ◌<◌, ◌-◌, ◌^◌, ◌%◌, ◌≡◌,
  List, [], ◌∷◌, ◌==◌, if◌then◌else◌, arith,
}
use learntorrent.Base.Words.{sub32}
use learntorrent.Base.Float.{ceil_quotient}
use learntorrent.Base.Ceil.{mul_mono, one_less, IsCeil, ceil_quotient-IsCeil}

-- The file takes the bytes of the torrent from `start` to `end`.
pub record FileEntry : Type 0 where
  pub name : List ℕ
  pub len : ℕ
  pub start : ℕ
  pub end : ℕ

pub record MultiFile : Type 0 where
  pub dir_name : List ℕ
  pub file_entries : List FileEntry

pub data TorrentFileEntries : Type 0 where
  single : FileEntry → TorrentFileEntries
  multi : MultiFile → TorrentFileEntries

pub record Metainfo : Type 0 where
  pub trackers : List (List ℕ)
  pub info_hash : List ℕ
  pub piece_length : ℕ
  pub total_length : ℕ
  pub file_entries : TorrentFileEntries
  pub piece_hashes : List (List ℕ)

unfoldable pub as_slice : TorrentFileEntries → List FileEntry
as_slice (single fe) = fe ∷ []
as_slice (multi mf) = mf.file_entries

unfoldable pub piece_count : Metainfo → ℕ
piece_count mi = ceil_quotient mi.total_length mi.piece_length

unfoldable pub get_piece_size : Metainfo → ℕ → ℕ
get_piece_size mi piece =
    if piece == sub32 (piece_count mi) 1
    then sub32 (mi.total_length % 2 ^ 32) (sub32 (piece_count mi) 1 * mi.piece_length % 2 ^ 32)
    else mi.piece_length

last_size :
    (x l t : ℕ)
    → l < 2 ^ 32
    → x < t
    → t ≤ x + l
    → x + sub32 (t % 2 ^ 32) (x % 2 ^ 32) ≡ min (x + l) t
last_size x l t hl lo hi = omega arith

-- The torrent has less than 2 ^ 53 bytes and at most 2 ^ 32 - 1 pieces, of less than 2 ^ 32 bytes.
pub record IsCounted (mi : Metainfo) : Type 0 where
  pub exact : mi.total_length < 2 ^ 53
  pub few : mi.total_length ≤ (2 ^ 32 - 1) * mi.piece_length
  pub short : mi.piece_length < 2 ^ 32

-- The total length lies in the last piece.
pub piece_count-IsCeil :
    (mi : Metainfo) → IsCounted mi → IsCeil (piece_count mi) mi.total_length mi.piece_length
unfolding piece_count
piece_count-IsCeil mi f = ceil_quotient-IsCeil mi.total_length mi.piece_length f.exact f.short f.few

-- For a piece of a torrent of less than 2 ^ 53 bytes, of at most 2 ^ 32 - 1 pieces of less than 2
-- ^ 32 bytes each, the piece ends, by `get_piece_size`, a piece length after its start or at the
-- end of the torrent, whichever is first: the arithmetic that wraps and the `f64` that rounds lose
-- nothing.
pub get_piece_size_lem :
    (mi : Metainfo) (piece : ℕ)
    → IsCounted mi
    → piece < piece_count mi
    → piece * mi.piece_length + get_piece_size mi piece
      ≡ min (piece * mi.piece_length + mi.piece_length) mi.total_length
unfolding get_piece_size
get_piece_size_lem mi piece f h =
    let (c, hi, last_piece) = piece_count-IsCeil mi f in
    let lo = last_piece (omega arith) in
    elim (Bool-cases (piece == sub32 (piece_count mi) 1)) [
      | inl e ↦ rw e (
          last piece (piece_count mi) mi.piece_length mi.total_length
            (same piece (piece_count mi) h c e) (before (piece_count mi) h c) f.short lo
            (omega (arith, hi, one_less (piece_count mi) mi.piece_length (omega arith))))
      | inr e ↦ rw e (
          inner (piece * mi.piece_length) mi.piece_length mi.total_length (
            omega (
              arith,
              lo,
              mul_mono (suc piece) (piece_count mi - 1) mi.piece_length
                  (earlier piece (piece_count mi) h c e),
            )))
    ]
  where
    same : (p n : ℕ) → p < n → n < 2 ^ 32 → (p == sub32 n 1) ≡ true → n - 1 ≡ p
    same p n h c e = ground (arith, e)

    before : (n : ℕ) → piece < n → n < 2 ^ 32 → sub32 n 1 ≡ n - 1
    before n h c = omega arith

    earlier : (p n : ℕ) → p < n → n < 2 ^ 32 → (p == sub32 n 1) ≡ false → suc p ≤ n - 1
    earlier p n h c e = ground (arith, e)

    inner : (start l t : ℕ) → start + l < t → start + l ≡ min (start + l) t
    inner start l t h = omega arith

    last :
        (p n l t : ℕ)
        → n - 1 ≡ p
        → sub32 n 1 ≡ n - 1
        → l < 2 ^ 32
        → (n - 1) * l < t
        → t ≤ (n - 1) * l + l
        → p * l + sub32 (t % 2 ^ 32) (sub32 n 1 * l % 2 ^ 32) ≡ min (p * l + l) t
    last p n l t e e' hl lo hi = rw (e', e) (last_size (p * l) l t hl (rw e at lo) (rw e at hi))

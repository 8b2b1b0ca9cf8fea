-- ===== src/Io.antt =====
-- src/io.rs, src/io/linux.rs: the I/O task, which cuts a piece at the borders of the files and
-- writes the parts.
-- The kernel's queue is a parameter: what a submission answers, and the state it leaves.
pub mod Tiling
pub mod Cut
pub mod Split
pub mod Runs
pub mod Empty
pub mod Torrent
pub mod Disk
pub mod Saved
pub mod Fallback
pub mod Create
use learntorrent.Base.{
  ℕ, zero, suc, ◌+◌, ◌-◌, ◌*◌, ◌^◌, ◌%◌, Bool, true, false, ◌&&◌, Option, none, some, List, [], ◌∷◌,
  ltb, leb, ◌==◌, if◌then◌else◌, length, get_elem?, take, drop, map, min,
}
use learntorrent.Base.Int.{ℤ, pos, negsuc}
use learntorrent.Base.Words.{add64, sub64}
use learntorrent.Base.Outcome.{Outcome, ok, err, panicked, expect, ◌>>=◌}
use learntorrent.PieceTracker.{CompletedBlockRequest, ValidatedPiece, contents}
use learntorrent.Metainfo.{
  FileEntry, MultiFile, TorrentFileEntries, single, multi, Metainfo, get_piece_size,
}

-- `Io` stands for the error of a submission, which is the kernel's.
pub data IoErr : Type 0 where
  io uring : IoErr

pub record IoPiece : Type 0 where
  pub offset : ℕ
  pub blocks : List CompletedBlockRequest
  pub file_index : ℕ

pub data IoMsg : Type 0 where
  piece : ValidatedPiece → IoMsg
  exit : IoMsg

abbrev pub includes : FileEntry → ℕ → Bool
includes fe place = leb fe.start place && leb place fe.end

-- `enumerate` and `find`; `i` is the index of the first entry.
unfoldable pub find_file : ℕ → List FileEntry → ℕ → Option (ℕ × FileEntry)
find_file i [] place = none
find_file i (fe ∷ fes) place =
    if includes fe place then some (i, fe) else find_file (suc i) fes place

-- One round of the loop over the files: the part of the piece that the file takes, with what is left
-- of the piece and the place it goes to. A slice that is too long is a panic.
unfoldable pub cut : FileEntry → ℕ → List ℕ → ℕ → ℕ → Outcome IoErr (IoPiece × List ℕ × ℕ)
cut fe fe_index block current_pos piece_end =
    let len = add64 (sub64 (min fe.end piece_end) current_pos) 1 in
    if leb len (length block)
    then ok (
      record {
        offset = sub64 current_pos fe.start;
        blocks = record { offset = 0; size = len % 2 ^ 32; bytes = take len block } ∷ [];
        file_index = fe_index;
      },
      drop len block,
      add64 current_pos len,
    )
    else panicked

-- `for fe_index in start_i..=end_i`: `count` files from `fe_index` on.
unfoldable pub cut_files : ℕ → List FileEntry → ℕ → List ℕ → ℕ → ℕ → Outcome IoErr (List IoPiece)
unfolding cut
cut_files zero fes fe_index block current_pos piece_end = ok []
cut_files (suc count) fes fe_index block current_pos piece_end = do
  fe ← expect (get_elem? fes fe_index)
  (io_piece, block', current_pos') ← cut fe fe_index block current_pos piece_end
  io_pieces ← cut_files count fes (suc fe_index) block' current_pos' piece_end
  ok (io_piece ∷ io_pieces)

unfoldable pub split_overlapping :
    MultiFile → ValidatedPiece → ℕ → ℕ → ℕ → ℕ → Outcome IoErr (List IoPiece)
unfolding cut_files
split_overlapping fe vp start_i end_i piece_start piece_end =
    cut_files (suc end_i - start_i) fe.file_entries start_i (contents vp.blocks) piece_start
      piece_end

-- A file that includes the whole piece, or several of them.
unfoldable pub split_between :
    MultiFile → ValidatedPiece → ℕ → FileEntry → ℕ → ℕ → ℕ → Outcome IoErr (List IoPiece)
unfolding split_overlapping
split_between fe vp start_i start_fe end_i piece_start piece_end =
    if start_i == end_i
    then ok (
        record {
          offset = sub64 piece_start start_fe.start;
          blocks = vp.blocks;
          file_index = start_i;
        }
        ∷ [])
    else if ltb start_i end_i
    then split_overlapping fe vp start_i end_i piece_start piece_end
    else panicked

unfoldable pub split_piece : Metainfo → ValidatedPiece → Outcome IoErr (List IoPiece)
unfolding split_between find_file
split_piece mi vp = elim mi.file_entries [
  | single fe ↦ ok (
      record { offset = vp.pid * mi.piece_length % 2 ^ 64; blocks = vp.blocks; file_index = 0 }
      ∷ [])
  | multi fe ↦ do
    let piece_start : ℕ = vp.pid * mi.piece_length % 2 ^ 64
    let piece_end : ℕ = sub64 (add64 piece_start (get_piece_size mi vp.pid)) 1
    (start_i, start_fe) ← expect (find_file 0 fe.file_entries piece_start)
    (end_i, end_fe) ← expect (find_file 0 fe.file_entries piece_end)
    split_between fe vp start_i start_fe end_i piece_start piece_end
]

-- A block in memory: its bytes, and the number of them to write.
pub record IoVec : Type 0 where
  pub iov_base : List ℕ
  pub iov_len : ℕ

-- `opcode::Writev` on the file at `fd` of the torrent's files.
pub record Writev : Type 0 where
  pub fd : ℕ
  pub iovecs : List IoVec
  pub offset : ℕ

abbrev pub iovec : CompletedBlockRequest → IoVec
iovec cr = record { iov_base = cr.bytes; iov_len = cr.size }

abbrev pub write_sub : IoPiece → Writev
write_sub p = record { fd = p.file_index; iovecs = map iovec p.blocks; offset = p.offset }

-- The result is compared with -1.
abbrev pub checked : {S : Type 0} → ℤ → S → Outcome IoErr S
checked (negsuc zero) s = err uring
checked (negsuc (suc n)) s = ok s
checked (pos n) s = ok s

module _ {S : Type 0} (submit_and_wait : Writev → S → Outcome IoErr (ℤ × S)) (files : ℕ) where
  unfoldable pub on_piece_msg : IoPiece → S → Outcome IoErr S
  on_piece_msg io_piece s =
      if ltb io_piece.file_index files
      then (do (result, s') ← submit_and_wait (write_sub io_piece) s; checked result s')
      else panicked

  unfoldable pub write_all : List IoPiece → S → Outcome IoErr S
  unfolding on_piece_msg
  write_all [] s = ok s
  write_all (p ∷ pieces) s = do s' ← on_piece_msg p s; write_all pieces s'

  -- The task on the messages it receives; a channel that closes before `exit` is a panic.
  unfoldable pub start : Metainfo → List IoMsg → S → Outcome IoErr S
  unfolding split_piece write_all
  start mi [] s = panicked
  start mi (exit ∷ msgs) s = ok s
  start mi (piece p ∷ msgs) s = do
    io_pieces ← split_piece mi p
    s' ← write_all io_pieces s
    start mi msgs s'

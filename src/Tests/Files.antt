-- ===== src/Tests/Files.antt =====
-- A torrent of two files, and a piece that spans them.
use learntorrent.Base.{
  some, ◌+◌, none, ◌-◌, ℕ, ◌^◌, ◌≡◌, refl, List, [], ◌∷◌, ◌++◌, length, replicate, arith,
}
use learntorrent.Base.Int.{ℤ, pos}
use learntorrent.Base.Text.{bytes, same_text, is_utf8}
use learntorrent.Base.Float.{ceil_quotient}
use learntorrent.Base.Outcome.{Outcome, ok}
use learntorrent.BeValue.{
  BeValue, BeList, str, int, dict, nil, cons, end, entry, get, expect, get_dict, try_get, get_u32,
  contains, get_str_utf8, get_list, get_u64, get_str,
}
use learntorrent.PieceTracker.{CompletedBlockRequest, ValidatedPiece, contents}
use learntorrent.Metainfo.{MultiFile, multi, Metainfo, piece_count, get_piece_size}
use learntorrent.Metainfo.Parse.{from_src_be, file_list}
use learntorrent.Metainfo.Files.{bytes_in}
use learntorrent.Io.{IoPiece, IoErr, Writev, piece, exit, start, split_piece}
use learntorrent.Io.Split.{IsWhole}
use learntorrent.Io.Runs.{LaysAll, written, start-LaysAll}
use learntorrent.Io.Disk.{Disk, store}
use learntorrent.Io.Saved.{start-Saved}
use learntorrent.Io.Empty.{split_piece-empty}

abbrev file_of : List ℕ → ℕ → BeValue
file_of name len =
    dict
      (entry (bytes "length") (int (pos len))
        (entry (bytes "path") (BeValue.list (cons (str name) nil)) end))
      0 0

-- A torrent of files of 3 and 5 bytes, in pieces of 4 bytes.
abbrev torrent : BeList → BeValue
torrent files =
    dict
      (entry (bytes "info")
        (dict
          (entry (bytes "name") (str (bytes "d")) (
            entry (bytes "files") (BeValue.list files) (
              entry (bytes "piece length") (int (pos 4))
                (entry (bytes "pieces") (str (replicate 40 7)) end))))
          1 2)
        end)
      0 3

abbrev two_files : BeList
two_files = cons (file_of (bytes "a") 3) (cons (file_of (bytes "b") 5) nil)

abbrev two_entries : MultiFile
two_entries = record {
  dir_name = bytes "d";
  file_entries =
      record { name = bytes "a"; len = 3; start = 0; end = 2 }
      ∷ record { name = bytes "b"; len = 5; start = 3; end = 7 }
      ∷ [];
}

abbrev no_hash : List ℕ → List ℕ
no_hash s = replicate 20 (length s)

abbrev pub two_pieces : Metainfo
two_pieces = record {
  trackers = [];
  info_hash = replicate 20 1;
  piece_length = 4;
  total_length = 8;
  file_entries = multi two_entries;
  piece_hashes = replicate 20 7 ∷ replicate 20 7 ∷ [];
}

two_pieces_read : from_src_be no_hash (bytes "abc") (torrent two_files) ≡ ok two_pieces
unfolding from_src_be get expect get_dict try_get same_text get_u32 contains get_str_utf8 is_utf8
    get_list get_u64 get_str piece_count ceil_quotient
two_pieces_read = refl

abbrev block : ℕ → List ℕ → CompletedBlockRequest
block offset bs = record { offset = offset; size = length bs; bytes = bs }

abbrev first : ValidatedPiece
first = record { pid = 0; blocks = block 0 (10 ∷ 11 ∷ []) ∷ block 2 (12 ∷ 13 ∷ []) ∷ [] }

abbrev second : ValidatedPiece
second = record { pid = 1; blocks = block 0 (14 ∷ 15 ∷ 16 ∷ 17 ∷ []) ∷ [] }

first-IsWhole : IsWhole two_pieces (bytes_in two_entries.file_entries) first
unfolding bytes_in contents get_piece_size piece_count ceil_quotient
first-IsWhole = record {
  inside = omega arith;
  size = refl;
  some_byte = omega arith;
  short = omega arith;
  sized = (refl, (refl, tt));
}

second-IsWhole : IsWhole two_pieces (bytes_in two_entries.file_entries) second
unfolding bytes_in contents get_piece_size piece_count ceil_quotient
second-IsWhole = record {
  inside = omega arith;
  size = refl;
  some_byte = omega arith;
  short = omega arith;
  sized = (refl, tt);
}

-- A queue that keeps what is submitted.
abbrev keep : Writev → List Writev → Outcome IoErr (ℤ × List Writev)
keep w s = ok (pos 4, s ++ w ∷ [])

start-LaysAll_example :
    (ps : List IoPiece) × LaysAll two_pieces two_entries.file_entries (second ∷ first ∷ []) ps
    × (start keep 2 two_pieces (piece second ∷ piece first ∷ exit ∷ []) []
        ≡ ok (written keep (λ w s. s ++ w ∷ []) ps []))
unfolding bytes_in
start-LaysAll_example =
    start-LaysAll keep (λ w s. s ++ w ∷ []) (λ w s. (pos 4, refl, λ e. absurd (cc e))) two_pieces
      two_entries refl (refl, refl, (refl, refl, tt)) (omega arith) (second ∷ first ∷ [])
      (second-IsWhole, (first-IsWhole, tt)) [] []

-- A disk that takes every write; the second byte of the second piece is in the second file.
abbrev disk_writes : Writev → Disk → Outcome IoErr (ℤ × Disk)
disk_writes w s = ok (pos 0, store w s)

start-Saved_example :
    (disk : Disk) × (start disk_writes 2 two_pieces
        (piece second ∷ piece first ∷ exit ∷ [])
        (λ file place. none)
      ≡ ok disk)
    × (disk 1 (4 + 1 - 3) ≡ some 15)
unfolding bytes_in contents get_piece_size piece_count ceil_quotient
start-Saved_example =
    start-Saved no_hash (bytes "abc") (torrent two_files) two_pieces two_entries disk_writes
      (second ∷ first ∷ []) [] (λ file place. none) 0 second 1 1
      (record { name = bytes "b"; len = 5; start = 3; end = 7 }) two_pieces_read refl (omega arith)
      (omega arith) (omega arith) (λ w s. (pos 0, refl, λ e. absurd (cc e)))
      ((omega arith, refl, (refl, tt)), ((omega arith, refl, (refl, (refl, tt))), tt))
      ((refl, tt), (tt, tt)) refl (omega arith) refl (omega arith) (omega arith)

abbrev empty_first : MultiFile
empty_first = record {
  dir_name = bytes "d";
  file_entries =
      record { name = bytes "a"; len = 0; start = 0; end = 2 ^ 64 - 1 }
      ∷ record { name = bytes "b"; len = 8; start = 0; end = 7 }
      ∷ [];
}

abbrev empty_files : BeList
empty_files = cons (file_of (bytes "a") 0) (cons (file_of (bytes "b") 8) nil)

empty_first_read : file_list empty_files 0 ≡ ok empty_first.file_entries
unfolding file_list get expect get_dict same_text get_u64 get_list get_str_utf8 is_utf8
empty_first_read = refl

split_piece-empty_example :
    split_piece (record two_pieces { file_entries = multi empty_first }) second
    ≡ ok (record { offset = 4; blocks = second.blocks; file_index = 0 } ∷ [])
split_piece-empty_example =
    split_piece-empty empty_files (record two_pieces { file_entries = multi empty_first })
      empty_first (record { name = bytes "a"; len = 0; start = 0; end = 2 ^ 64 - 1 })
      (record { name = bytes "b"; len = 8; start = 0; end = 7 } ∷ []) second empty_first_read refl
      refl refl

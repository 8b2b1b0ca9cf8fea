-- ===== src/Tests/Load.antt =====
-- A torrent of one file and one piece, from its text.
use learntorrent.Base.{ℕ, ◌≡◌, refl, arith, List, [], ◌∷◌, replicate}
use learntorrent.Base.Float.{ceil_quotient}
use learntorrent.Base.Int.{pos}
use learntorrent.Base.Text.{bytes, same_text, is_utf8}
use learntorrent.Base.Outcome.{ok}
use learntorrent.BeValue.{
  BeValue, Entries, str, int, dict, entry, end, get, expect, get_dict, try_get, get_u32, contains,
  get_str_utf8, get_list, get_u64, get_str,
}
use learntorrent.Bencoding.Reads.{depth}
use learntorrent.Bencoding.Print.{onto, Placed, digits, digits_upto}
use learntorrent.Bencoding.RoundTrip.{parse_with-onto}
use learntorrent.Metainfo.{Metainfo, single, piece_count}
use learntorrent.Metainfo.Parse.{from_src_be}
use learntorrent.Metainfo.Load.{load, load-info_hash}

-- The sum of the bytes, in place of the hash.
abbrev info_vals : Entries
info_vals = entry (bytes "length") (int (pos 4)) (
    entry (bytes "name") (str (bytes "x")) (
      entry (bytes "piece length") (int (pos 4))
        (entry (bytes "pieces") (str (replicate 20 65)) end)))

abbrev torrent_vals : Entries
torrent_vals = entry (bytes "info") (dict info_vals 7 78) end

abbrev one_file : BeValue
one_file = dict torrent_vals 0 79

one_file-Placed : Placed one_file 0 []
unfolding Placed digits is_utf8 onto digits_upto get same_text
one_file-Placed = (
  refl,
  refl,
  (refl, tt),
  (
    refl,
    omega arith,
    (
      refl,
      refl,
      (refl, (refl, (refl, (refl, tt)))),
      (
        refl,
        omega arith,
        omega arith,
        (
          refl,
          omega arith,
          omega arith,
          (refl, omega arith, omega arith, (refl, omega arith, omega arith, tt)),
        ),
      ),
    ),
    tt,
  ),
)

abbrev kept : List ℕ → List ℕ
kept s = s

abbrev one_piece : Metainfo
one_piece = record {
  trackers = [];
  info_hash = bytes "d6:lengthi4e4:name1:x12:piece lengthi4e6:pieces20:AAAAAAAAAAAAAAAAAAAAe";
  piece_length = 4;
  total_length = 4;
  file_entries = single (record { name = bytes "x"; len = 4; start = 0; end = 4 });
  piece_hashes = replicate 20 65 ∷ [];
}

one_file_read : from_src_be kept (onto one_file []) one_file ≡ ok one_piece
unfolding from_src_be get expect get_dict try_get same_text get_u32 contains get_str_utf8 is_utf8
    get_list get_u64 get_str piece_count ceil_quotient onto digits digits_upto
one_file_read = refl

one_file_loaded : load kept (onto one_file []) ≡ ok one_piece
unfolding load
one_file_loaded =
    rw (parse_with-onto one_file [] (unfold depth in omega arith) one_file-Placed)
      (rw one_file_read refl)

load-info_hash_example : one_piece.info_hash ≡ onto (dict info_vals 7 78) []
load-info_hash_example =
    load-info_hash kept torrent_vals 0 79 info_vals 7 78 one_piece (unfold depth in omega arith)
      one_file-Placed (unfold get same_text in refl) one_file_loaded

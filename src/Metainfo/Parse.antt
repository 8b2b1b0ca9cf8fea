-- ===== src/Metainfo/Parse.antt =====
-- src/metainfo.rs: the fields of a torrent, read out of its bencoded values.
use learntorrent.Base.{
  ℕ, zero, suc, ◌-◌, ◌/◌, ◌%◌, Bool, Option, none, some, List, [], ◌∷◌, ◌++◌, leb, ◌==◌, ◌&&◌,
  if◌then◌else◌, length, take, drop,
}
use learntorrent.Base.Text.{bytes}
use learntorrent.Base.Words.{sub64, add64}
use learntorrent.Base.Outcome.{Outcome, ok, err, panicked, out_of_fuel, ◌>>=◌, ◌>>◌}
use learntorrent.BeValue.{
  BeValue, BeList, nil, cons, Dict, ResponseParseError, Parsed, contains, expect, try_get, get_dict,
  get_list, get_str, get_str_utf8, get_u64, get_u32,
}
use learntorrent.Metainfo.{FileEntry, TorrentFileEntries, single, multi, Metainfo, piece_count}

pub data MiErr : Type 0 where
  be_error : ResponseParseError → MiErr
  invalid_hashes_len : ℕ → MiErr
  invalid_file_path : MiErr

-- The conversion of the error by `?`.
abbrev pub be {ℓ} : {A : Type ℓ} → Outcome ResponseParseError A → Outcome MiErr A
be (ok a) = ok a
be (err e) = err (be_error e)
be panicked = panicked
be out_of_fuel = out_of_fuel

-- A compulsory field of a type.
abbrev field : {A : Type 0} → Dict → List ℕ → (BeValue → Parsed A) → Outcome MiErr A
field d k f = be (expect d k >>= f)

-- The loop over a list of URLs.
unfoldable pub push_urls : List (List ℕ) → BeList → Outcome MiErr (List (List ℕ))
push_urls trackers nil = ok trackers
push_urls trackers (cons url urls) = do
  u ← be (get_str_utf8 url)
  push_urls (trackers ++ u ∷ []) urls

-- The loop over a list of lists of URLs.
unfoldable pub push_lists : List (List ℕ) → BeList → Outcome MiErr (List (List ℕ))
unfolding push_urls
push_lists trackers nil = ok trackers
push_lists trackers (cons l ls) = do
  url_list ← be (get_list l)
  trackers' ← push_urls trackers url_list
  push_lists trackers' ls

abbrev over_list :
    (List (List ℕ) → BeList → Outcome MiErr (List (List ℕ)))
    → List (List ℕ)
    → Option BeList
    → Outcome MiErr (List (List ℕ))
over_list push trackers none = ok trackers
over_list push trackers (some l) = push trackers l

abbrev announced : Option (List ℕ) → List (List ℕ)
announced none = []
announced (some a) = a ∷ []

unfoldable pub parse_trackers : Dict → Outcome MiErr (List (List ℕ))
unfolding push_lists push_urls
parse_trackers torrent = do
  announce ← be (try_get torrent (bytes "announce") get_str_utf8)
  announce_list ← be (try_get torrent (bytes "announce-list") get_list)
  trackers ← over_list push_lists (announced announce) announce_list
  url_list ← be (try_get torrent (bytes "url-list") get_list)
  over_list push_urls trackers url_list

-- The file's path: one part, as text.
unfoldable pub file_path : BeList → Outcome MiErr (List ℕ)
file_path nil = err invalid_file_path
file_path (cons p nil) = be (get_str_utf8 p)
file_path (cons p (cons p' ps)) = panicked

-- One round of the loop over the files, with `file_offset`.
unfoldable pub file_entry : BeValue → ℕ → Outcome MiErr FileEntry
unfolding file_path
file_entry file file_offset = do
  d ← be (get_dict file)
  len ← field d (bytes "length") get_u64
  path ← field d (bytes "path") get_list
  name ← file_path path
  ok (record { name = name; len = len; start = file_offset; end = sub64 (add64 file_offset len) 1 })

unfoldable pub file_list : BeList → ℕ → Outcome MiErr (List FileEntry)
unfolding file_entry
file_list nil file_offset = ok []
file_list (cons file files) file_offset = do
  fe ← file_entry file file_offset
  entries ← file_list files (add64 file_offset fe.len)
  ok (fe ∷ entries)

unfoldable pub parse_files : Dict → Outcome MiErr TorrentFileEntries
unfolding file_list
parse_files info =
    if contains info (bytes "files")
    then (do
      dir_name ← field info (bytes "name") get_str_utf8
      files ← field info (bytes "files") get_list
      file_entries ← file_list files 0
      ok (multi (record { dir_name = dir_name; file_entries = file_entries })))
    else (do
      name ← field info (bytes "name") get_str_utf8
      len ← field info (bytes "length") get_u64
      ok (single (record { name = name; len = len; start = 0; end = len })))

-- `sum` of the lengths, which wraps.
unfoldable pub sum_len : List FileEntry → ℕ
sum_len [] = 0
sum_len (fe ∷ fes) = add64 fe.len (sum_len fes)

unfoldable pub total_of : TorrentFileEntries → ℕ
unfolding sum_len
total_of (single f) = f.len
total_of (multi mf) = sum_len mf.file_entries

-- `chunks(20)` of `20 * n` bytes.
unfoldable pub chunks_20 : ℕ → List ℕ → List (List ℕ)
chunks_20 zero s = []
chunks_20 (suc n) s = take 20 s ∷ chunks_20 n (drop 20 s)

-- A slice of the source; a range that does not fit is a panic.
abbrev pub slice : List ℕ → ℕ → ℕ → Outcome MiErr (List ℕ)
slice src start stop =
    if leb start stop && leb stop (length src)
    then ok (take (stop - start) (drop start src))
    else panicked

abbrev pub check_len : Bool → ℕ → Outcome MiErr (Unit {0})
check_len test len = if test then ok tt else err (invalid_hashes_len len)

module _ (sha1 : List ℕ → List ℕ) where
  unfoldable pub from_src_be : List ℕ → BeValue → Outcome MiErr Metainfo
  unfolding parse_trackers parse_files total_of chunks_20
  from_src_be src v = do
    torrent ← be (get_dict v)
    trackers ← parse_trackers torrent
    info ← field torrent (bytes "info") get_dict
    piece_length ← field info (bytes "piece length") get_u32
    info_slice ← slice src info.start info.stop
    file_entries ← parse_files info
    hashes ← field info (bytes "pieces") get_str
    check_len (length hashes % 20 == 0) (length hashes)
    let mi : Metainfo = record {
      trackers = trackers;
      info_hash = sha1 info_slice;
      piece_length = piece_length;
      total_length = total_of file_entries;
      file_entries = file_entries;
      piece_hashes = chunks_20 (length hashes / 20) hashes;
    }
    check_len (length mi.piece_hashes == piece_count mi) (length hashes)
    ok mi

-- ===== src/Metainfo/Files.antt =====
-- What the fields of a torrent are that was read without an error.
use learntorrent.Base.{
  ◌/◌, inr, sym, inl, subst, ℕ, zero, suc, ◌+◌, ◌*◌, ◌^◌, ◌%◌, ◌≤◌, ◌<◌, ◌≡◌, refl, ap, Bool, true,
  false, List, [], ◌∷◌, length, All, ◌==◌, ==→eq, ltb→lt, arith, Bool-cases, drop, ltb, length-take,
  length-drop,
}
use learntorrent.Base.Int.{pos, negsuc}
use learntorrent.Base.Text.{bytes}
use learntorrent.Base.Words.{sub64, add64}
use learntorrent.Base.Outcome.{
  ok, err, panicked, out_of_fuel, ◌>>=◌, Returns, after_step, after_check, returned,
}
use learntorrent.BeValue.{
  Parsed, BeValue, BeList, str, int, dict, nil, cons, Dict, expect, contains, get_dict, get_list,
  get_str, get_str_utf8, get_u64, get_u32,
}
use learntorrent.Metainfo.{
  FileEntry, TorrentFileEntries, single, multi, Metainfo, piece_count, as_slice,
}
use learntorrent.Metainfo.Parse.{
  file_path, be, file_entry, file_list, parse_files, parse_trackers, slice, check_len, sum_len,
  total_of, chunks_20, from_src_be,
}

-- The bytes of the files together.
unfoldable pub bytes_in : List FileEntry → ℕ
bytes_in [] = 0
bytes_in (fe ∷ fes) = fe.len + bytes_in fes

-- The files follow each other without a gap, the first at `place`, and the ends belong to them.
abbrev pub Tiles : List FileEntry → ℕ → Type 0
Tiles [] place = Unit
Tiles (fe ∷ fes) place =
    (fe.start ≡ place) × (fe.end + 1 ≡ place + fe.len) × Tiles fes (place + fe.len)

abbrev pub first_len : List FileEntry → ℕ
first_len [] = 1
first_len (fe ∷ fes) = fe.len

abbrev pub HasFiles : TorrentFileEntries → ℕ → Type 0
HasFiles (single fe) total = (fe.start ≡ 0) × (fe.len ≡ total)
HasFiles (multi mf) total = (bytes_in mf.file_entries ≡ total) × Tiles mf.file_entries 0

abbrev pub EntryAt : ℕ → FileEntry → Type 0
EntryAt place fe = (fe.start ≡ place) × (fe.end ≡ sub64 (add64 place fe.len) 1)

pub entry_at : (file : BeValue) (place : ℕ) → Returns (EntryAt place) (file_entry file place)
unfolding file_entry
entry_at file place = after_step (be (get_dict file)) _ (λ d _.
    after_step (be (expect d (bytes "length") >>= get_u64)) _ (λ len _.
      after_step (be (expect d (bytes "path") >>= get_list)) _ (λ path _.
        after_step (file_path path) _ (λ name _. returned (EntryAt place) _ (refl, refl)))))

-- Unless the places overflow, or the first file is at 0 and empty.
abbrev TilesIf : ℕ → List FileEntry → Type 0
TilesIf place fes = place + bytes_in fes < 2 ^ 64 → 0 < place + first_len fes → Tiles fes place

file_list-Tiles : (files : BeList) (place : ℕ) → Returns (TilesIf place) (file_list files place)
unfolding file_list bytes_in
file_list-Tiles nil place = returned (TilesIf place) [] (λ _ _. tt)
file_list-Tiles (cons file files) place = after_step (file_entry file place) _ (λ fe one.
    after_step (file_list files (add64 place fe.len)) _ (λ fes more.
      returned (TilesIf place) (fe ∷ fes) (λ b z.
        let (s, e) = entry_at file place fe one in
        let next : add64 place fe.len ≡ place + fe.len = omega arith in
        (
          s,
          omega (arith, e),
          subst (Tiles fes) next (
              file_list-Tiles files (add64 place fe.len) fes more (omega (arith, next))
                (omega (arith, next, z))),
        ))))

sum_len-bytes_in : (fes : List FileEntry) → bytes_in fes < 2 ^ 64 → sum_len fes ≡ bytes_in fes
unfolding sum_len bytes_in
sum_len-bytes_in [] h = refl
sum_len-bytes_in (fe ∷ fes) h = omega (arith, sum_len-bytes_in fes)

chunks_20-length : (n : ℕ) (s : List ℕ) → length (chunks_20 n s) ≡ n
unfolding chunks_20
chunks_20-length zero s = refl
chunks_20-length (suc n) s = ap suc (chunks_20-length n (drop 20 s))

-- A hash has 20 bytes.
abbrev pub IsHash : List ℕ → Type 0
IsHash s = length s ≡ 20

chunks_20-IsHash : (n : ℕ) (s : List ℕ) → n * 20 ≤ length s → All IsHash (chunks_20 n s)
unfolding chunks_20
chunks_20-IsHash zero s h = tt
chunks_20-IsHash (suc n) s h = (
  omega (arith, length-take 20 s),
  chunks_20-IsHash n (drop 20 s) (omega (arith, length-drop 20 s)),
)

parse_files-HasFiles :
    (info : Dict)
    → Returns
        (λ fs.
          bytes_in (as_slice fs) < 2 ^ 64 → 0 < first_len (as_slice fs) → HasFiles fs (total_of fs))
        (parse_files info)
unfolding parse_files total_of as_slice
parse_files-HasFiles info = elim (Bool-cases (contains info (bytes "files"))) [
  | inl e ↦ rw e (
      after_step (be (expect info (bytes "name") >>= get_str_utf8)) _ (λ dir_name _.
        after_step (be (expect info (bytes "files") >>= get_list)) _ (λ files _.
          after_step (file_list files 0) _ (λ fes h.
            returned _ (multi (record { dir_name = dir_name; file_entries = fes })) (λ b z. (
              sym (sum_len-bytes_in fes b),
              file_list-Tiles files 0 fes h (omega arith) (omega arith),
            ))))))
  | inr e ↦ rw e (
      after_step (be (expect info (bytes "name") >>= get_str_utf8)) _ (λ name _.
        after_step (be (expect info (bytes "length") >>= get_u64)) _ (λ len _.
          returned _ (single (record { name = name; len = len; start = 0; end = len }))
            (λ b z. (refl, refl)))))
]

pub record WellFormed (mi : Metainfo) : Type 0 where
  pub hash_count : length mi.piece_hashes ≡ piece_count mi
  pub hashes : All IsHash mi.piece_hashes
  pub piece_length : mi.piece_length < 2 ^ 32
  pub files : HasFiles mi.file_entries mi.total_length

field_u32 : (o : Parsed BeValue) → Returns (λ n. n < 2 ^ 32) (be (o >>= get_u32))
unfolding get_u32
field_u32 (ok (int (pos n))) k e = elim (Bool-cases (ltb n (2 ^ 32))) [
  | inl t ↦ subst (λ m. m < 2 ^ 32) (cc (rw t at e)) (ltb→lt n (2 ^ 32) t)
  | inr t ↦ absurd (cc (rw t at e))
]
field_u32 (ok (int (negsuc n))) k e = absurd (cc e)
field_u32 (ok (str s)) k e = absurd (cc e)
field_u32 (ok (dict vals start stop)) k e = absurd (cc e)
field_u32 (ok (BeValue.list vs)) k e = absurd (cc e)
field_u32 (err e') k e = absurd (cc e)
field_u32 panicked k e = absurd (cc e)
field_u32 out_of_fuel k e = absurd (cc e)

check_len-true : (test : Bool) (len : ℕ) → check_len test len ≡ ok tt → test ≡ true
check_len-true true len e = refl
check_len-true false len e = absurd (cc e)

pub from_src_be_lem :
    (sha1 : List ℕ → List ℕ) (src : List ℕ) (v : BeValue) (mi : Metainfo)
    → from_src_be sha1 src v ≡ ok mi
    → bytes_in (as_slice mi.file_entries) < 2 ^ 64
    → 0 < first_len (as_slice mi.file_entries)
    → WellFormed mi
unfolding from_src_be
from_src_be_lem sha1 src v = after_step (be (get_dict v)) _ (λ torrent _.
    after_step (parse_trackers torrent) _ (λ trackers _.
      after_step (be (expect torrent (bytes "info") >>= get_dict)) _ (λ info _.
        after_step (be (expect info (bytes "piece length") >>= get_u32)) _ (λ piece_length pl.
          after_step (slice src info.start info.stop) _ (λ info_slice _.
            after_step (parse_files info) _ (λ fs h.
              after_step (be (expect info (bytes "pieces") >>= get_str)) _ (λ hs _.
                after_check (check_len (length hs % 20 == 0) (length hs)) _ (λ m.
                  let mi : Metainfo = record {
                    trackers = trackers;
                    info_hash = sha1 info_slice;
                    piece_length = piece_length;
                    total_length = total_of fs;
                    file_entries = fs;
                    piece_hashes = chunks_20 (length hs / 20) hs;
                  } in
                  after_check (check_len (length mi.piece_hashes == piece_count mi) (length hs)) _
                    (λ c. returned _ mi (λ b z. record {
                      hash_count =
                          ==→eq (length mi.piece_hashes) (piece_count mi)
                            (check_len-true _ (length hs) c);
                      hashes = chunks_20-IsHash (length hs / 20) hs (omega arith);
                      piece_length = field_u32 (expect info (bytes "piece length")) piece_length pl;
                      files = parse_files-HasFiles info fs h b z;
                    }))))))))))

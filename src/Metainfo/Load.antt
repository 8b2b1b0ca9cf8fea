-- ===== src/Metainfo/Load.antt =====
-- src/main.rs: the torrent, from the bytes of its file. Reading the file and naming it are left out.
use learntorrent.Base.{
  ℕ, suc, ◌-◌, ◌≤◌, ◌≡◌, refl, sym, ap, ◌∙◌, subst, some, List, [], ◌∷◌, length, take, drop, leb,
  ◌&&◌, ◌==◌, ◌%◌, ◌/◌, arith, Bool-cases, inl, inr,
}
use learntorrent.Base.Text.{bytes}
use learntorrent.Base.Outcome.{
  Outcome, ok, err, panicked, out_of_fuel, ◌>>=◌, Returns, after_step, after_check, returned,
}
use learntorrent.BeValue.{Entries, dict, Dict, get, expect, get_dict, get_u32, get_str}
use learntorrent.Bencoding.{BeDecodeErr, parse_with, max_nesting_depth}
use learntorrent.Bencoding.Reads.{depth}
use learntorrent.Bencoding.Print.{onto, entries_onto, Placed}
use learntorrent.Bencoding.RoundTrip.{parse_with-onto}
use learntorrent.Bencoding.Places.{entry_place, slice_lem}
use learntorrent.Metainfo.{Metainfo, piece_count}
use learntorrent.Metainfo.Parse.{
  MiErr, be, from_src_be, parse_trackers, parse_files, slice, check_len, total_of, chunks_20,
}

pub data LoadErr : Type 0 where
  be_decode_error : BeDecodeErr → LoadErr
  mi_error : MiErr → LoadErr

-- The conversion of an error into a report.
abbrev pub wrap {ℓ κ} : {E : Type κ} {A : Type ℓ} → (E → LoadErr) → Outcome E A → Outcome LoadErr A
wrap f (ok a) = ok a
wrap f (err e) = err (f e)
wrap f panicked = panicked
wrap f out_of_fuel = out_of_fuel

unfoldable pub load : (List ℕ → List ℕ) → List ℕ → Outcome LoadErr Metainfo
load sha1 file_contents = do
  contents ← wrap be_decode_error (parse_with file_contents)
  wrap mi_error (from_src_be sha1 file_contents contents)

slice_ok :
    (src : List ℕ) (start stop : ℕ) (s : List ℕ)
    → slice src start stop ≡ ok s
    → s ≡ take (stop - start) (drop start src)
slice_ok src start stop s h = elim (Bool-cases (leb start stop && leb stop (length src))) [
  | inl e ↦ sym (cc (rw e at h))
  | inr e ↦ absurd (cc (rw e at h))
]

-- The source, as far as the dictionary says, is that of the dictionary.
slice-onto :
    (vals : Entries) (start stop : ℕ) (info : Entries) (from to : ℕ) (s : List ℕ)
    → Placed (dict vals start stop) 0 []
    → get vals (bytes "info") ≡ some (dict info from to)
    → slice (onto (dict vals start stop) []) from to ≡ ok s
    → s ≡ onto (dict info from to) []
unfolding Placed onto
slice-onto vals start stop info from to s (a, b, c, placed) e sliced =
    let d = dict info from to in
    let (front, tail, eq, pl) = entry_place vals (bytes "info") d 1 (b'e' ∷ []) e placed in
    let at : Placed d (length (b'd' ∷ front)) tail =
      subst (λ n. Placed d n tail) (omega arith) pl in
    slice_ok (b'd' ∷ entries_onto vals (b'e' ∷ [])) from to s sliced
    ∙ ap (λ t. take (to - from) (drop from (b'd' ∷ t))) eq
    ∙ slice_lem info from to (b'd' ∷ front) tail at

info_field :
    (vals : Entries) (start stop : ℕ) (info : Entries) (from to : ℕ)
    → get vals (bytes "info") ≡ some (dict info from to)
    → be (expect (record { vals = vals; start = start; stop = stop }) (bytes "info") >>= get_dict)
      ≡ ok (record { vals = info; start = from; stop = to })
unfolding expect get_dict
info_field vals start stop info from to e = rw (be, e) refl

info_hash_lem :
    (sha1 : List ℕ → List ℕ) (src : List ℕ) (vals : Entries) (start stop : ℕ) (info : Entries)
    (from to : ℕ)
    → get vals (bytes "info") ≡ some (dict info from to)
    → Returns
        (λ mi. (s : List ℕ) × (slice src from to ≡ ok s) × (mi.info_hash ≡ sha1 s))
        (from_src_be sha1 src (dict vals start stop))
unfolding from_src_be get_dict
info_hash_lem sha1 src vals start stop info from to e =
    after_step (parse_trackers (record { vals = vals; start = start; stop = stop })) _
      (λ trackers _. rw (info_field vals start stop info from to e) (
        let d : Dict = record { vals = info; start = from; stop = to } in
        after_step (be (expect d (bytes "piece length") >>= get_u32)) _ (λ piece_length _.
          after_step (slice src from to) _ (λ s sliced.
            after_step (parse_files d) _ (λ file_entries _.
              after_step (be (expect d (bytes "pieces") >>= get_str)) _ (λ hashes _.
                after_check (check_len (length hashes % 20 == 0) (length hashes)) _ (λ _.
                  let mi : Metainfo = record {
                    trackers = trackers;
                    info_hash = sha1 s;
                    piece_length = piece_length;
                    total_length = total_of file_entries;
                    file_entries = file_entries;
                    piece_hashes = chunks_20 (length hashes / 20) hashes;
                  } in
                  after_check (check_len (length mi.piece_hashes == piece_count mi) (length hashes))
                    _ (λ _. returned _ mi (s, sliced, refl)))))))))

wrap-ok : {E A : Type 0} (f : E → LoadErr) (o : Outcome E A) (a : A) → wrap f o ≡ ok a → o ≡ ok a
wrap-ok f (ok a') a h = cc h
wrap-ok f (err e) a h = absurd (cc h)
wrap-ok f panicked a h = absurd (cc h)
wrap-ok f out_of_fuel a h = absurd (cc h)

-- Let the text of a torrent be that of a dictionary with an `info` dictionary, at most 17 deep,
-- whose numbers are between -2 ^ 63 and 2 ^ 63, both excluded, whose strings and keys are shorter
-- than 2 ^ 63 bytes, whose dictionaries have different keys that are text and know their place in
-- the source. If it is loaded without an error, the info hash is the SHA1 of the bencoded text of
-- the `info` dictionary.
pub load-info_hash :
    (sha1 : List ℕ → List ℕ) (vals : Entries) (start stop : ℕ) (info : Entries) (from to : ℕ)
    (mi : Metainfo)
    → depth (dict vals start stop) ≤ suc max_nesting_depth
    → Placed (dict vals start stop) 0 []
    → get vals (bytes "info") ≡ some (dict info from to)
    → load sha1 (onto (dict vals start stop) []) ≡ ok mi
    → mi.info_hash ≡ sha1 (onto (dict info from to) [])
unfolding load
load-info_hash sha1 vals start stop info from to mi d p e h =
    let src = onto (dict vals start stop) [] in
    let read =
      wrap-ok mi_error (from_src_be sha1 src (dict vals start stop)) mi
        (rw (parse_with-onto (dict vals start stop) [] d p) at h) in
    let (s, sliced, hashed) = info_hash_lem sha1 src vals start stop info from to e mi read in
    hashed ∙ ap sha1 (slice-onto vals start stop info from to s p e sliced)

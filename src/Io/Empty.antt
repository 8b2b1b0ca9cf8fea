-- ===== src/Io/Empty.antt =====
-- Torrents whose first file is empty.
use learntorrent.Base.{
  ℕ, ◌-◌, ◌*◌, ◌^◌, ◌%◌, ◌<◌, ◌≡◌, refl, ap, ◌∙◌, true, some, List, [], ◌∷◌, arith,
}
use learntorrent.Base.Words.{add64, sub64}
use learntorrent.Base.Outcome.{ok, Returns, after_step, returned}
use learntorrent.BeValue.{BeList, nil, cons}
use learntorrent.PieceTracker.{ValidatedPiece}
use learntorrent.Metainfo.{FileEntry, MultiFile, multi, Metainfo, get_piece_size}
use learntorrent.Metainfo.Parse.{file_entry, file_list}
use learntorrent.Metainfo.Files.{entry_at}
use learntorrent.Io.{includes, find_file, split_piece, split_between}

-- The first entry goes from 0 to the last place there is.
abbrev FirstEmpty : List FileEntry → Type 0
FirstEmpty [] = Unit
FirstEmpty (fe ∷ fes) = fe.len ≡ 0 → (fe.start ≡ 0) × (fe.end ≡ 2 ^ 64 - 1)

file_list-FirstEmpty : (files : BeList) → Returns FirstEmpty (file_list files 0)
unfolding file_list
file_list-FirstEmpty nil = returned FirstEmpty [] tt
file_list-FirstEmpty (cons file files) = after_step (file_entry file 0) _ (λ fe one.
    after_step (file_list files (add64 0 fe.len)) _ (λ fes more.
      returned FirstEmpty (fe ∷ fes)
        (λ z. let (s, e) = entry_at file 0 fe one in (s, e ∙ ap (λ n. sub64 (add64 0 n) 1) z))))

find_file-first :
    (fe : FileEntry) (fes : List FileEntry) (place : ℕ)
    → fe.start ≡ 0
    → fe.end ≡ 2 ^ 64 - 1
    → place < 2 ^ 64
    → find_file 0 (fe ∷ fes) place ≡ some (0, fe)
unfolding find_file
find_file-first fe fes place s e h = rw all
  where
    all : includes fe place ≡ true
    all = ground (arith, s, e, h)

split_between-first :
    (mf : MultiFile) (vp : ValidatedPiece) (fe : FileEntry) (place stop : ℕ)
    → fe.start ≡ 0
    → place < 2 ^ 64
    → split_between mf vp 0 fe 0 place stop
      ≡ ok (record { offset = place; blocks = vp.blocks; file_index = 0 } ∷ [])
unfolding split_between
split_between-first mf vp fe place stop s h =
    let offset : sub64 place fe.start ≡ place = omega arith in rw offset refl

-- If the files of a torrent are read without an error and the first of several is empty, every
-- piece goes whole into the first file.
pub split_piece-empty :
    (files : BeList) (mi : Metainfo) (mf : MultiFile) (fe : FileEntry) (fes : List FileEntry)
    (vp : ValidatedPiece)
    → file_list files 0 ≡ ok (fe ∷ fes)
    → fe.len ≡ 0
    → mi.file_entries ≡ multi mf
    → mf.file_entries ≡ fe ∷ fes
    → split_piece mi vp
      ≡ ok (
          record { offset = vp.pid * mi.piece_length % 2 ^ 64; blocks = vp.blocks; file_index = 0 }
          ∷ [])
unfolding split_piece
split_piece-empty files mi mf fe fes vp made empty e e' =
    let (s, stop) = file_list-FirstEmpty files (fe ∷ fes) made empty in
    let place = vp.pid * mi.piece_length % 2 ^ 64 in
    let last = sub64 (add64 place (get_piece_size mi vp.pid)) 1 in
    let at : (p : ℕ) → p < 2 ^ 64 → find_file 0 mf.file_entries p ≡ some (0, fe) =
      λ p h. rw e' (find_file-first fe fes p s stop h) in
    rw (e, split_piece)
      (rw (at place (omega arith))
        (rw (at last (omega arith)) (split_between-first mf vp fe place last s (omega arith))))

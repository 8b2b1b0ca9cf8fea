-- ===== src/Io/Create.antt =====
-- `Io::new`: the files of a torrent are created. Paths are lists of bytes, joined by the standard
-- library; creating a file or a directory succeeds or not.
use learntorrent.Base.{ℕ, ◌≡◌, refl, ap, Bool, List, [], ◌∷◌, map, if◌then◌else◌}
use learntorrent.Base.Outcome.{
  Outcome, ok, err, ◌>>=◌, ◌>>◌, Returns, after_step, after_check, returned,
}
use learntorrent.Metainfo.{FileEntry, TorrentFileEntries, single, multi, as_slice}
use learntorrent.Io.{IoErr, io}

abbrev pub succeeds : Bool → Outcome IoErr (Unit {0})
succeeds success = if success then ok tt else err io

module _ (create create_dir_all : List ℕ → Bool) (join : List ℕ → List ℕ → List ℕ) where
  -- The loop over the entries.
  unfoldable pub create_files : List ℕ → List FileEntry → Outcome IoErr (List (List ℕ))
  create_files base_path [] = ok []
  create_files base_path (fe ∷ fes) =
      succeeds (create (join base_path fe.name))
      >> (do files ← create_files base_path fes; ok (join base_path fe.name ∷ files))

  -- The paths of the files, by their index.
  unfoldable pub files_of : TorrentFileEntries → Outcome IoErr (List (List ℕ))
  unfolding create_files
  files_of (single fe) = succeeds (create fe.name) >> ok (fe.name ∷ [])
  files_of (multi mf) =
      succeeds (create_dir_all mf.dir_name) >> create_files mf.dir_name mf.file_entries

  -- Where the file of an entry is.
  abbrev pub path_of : TorrentFileEntries → FileEntry → List ℕ
  path_of (single fe) entry = entry.name
  path_of (multi mf) entry = join mf.dir_name entry.name

  create_files_lem :
      (base_path : List ℕ) (fes : List FileEntry)
      → Returns
          (λ files. files ≡ map (λ fe. join base_path fe.name) fes)
          (create_files base_path fes)
  unfolding create_files
  create_files_lem base_path [] = returned _ [] refl
  create_files_lem base_path (fe ∷ fes) =
      after_check (succeeds (create (join base_path fe.name))) _ (λ _.
        after_step (create_files base_path fes) _ (λ files e.
          returned _ _
            (ap (λ t. join base_path fe.name ∷ t) (create_files_lem base_path fes files e))))

  -- The file of an index is that of the entry with the index.
  files_of_lem :
      (entries : TorrentFileEntries)
      → Returns (λ files. files ≡ map (path_of entries) (as_slice entries)) (files_of entries)
  unfolding files_of as_slice
  files_of_lem (single fe) = after_check (succeeds (create fe.name)) _ (λ _. returned _ _ refl)
  files_of_lem (multi mf) =
      after_check (succeeds (create_dir_all mf.dir_name)) _
        (λ _. create_files_lem mf.dir_name mf.file_entries)

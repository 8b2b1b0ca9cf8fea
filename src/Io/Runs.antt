-- ===== src/Io/Runs.antt =====
-- The I/O task over a whole run.
use learntorrent.Base.{
  zero, suc, suc, ℕ, ◌+◌, ◌^◌, ◌<◌, ◌≡◌, ◌≢◌, refl, sym, ap, ◌∙◌, List, [], ◌∷◌, ◌++◌, map, length,
  get_elem?-bound, All, lt→ltb,
}
use learntorrent.Base.Int.{ℤ, pos, negsuc}
use learntorrent.Base.Outcome.{Outcome, ok}
use learntorrent.PieceTracker.{ValidatedPiece, contents}
use learntorrent.Metainfo.{FileEntry, MultiFile, multi, Metainfo}
use learntorrent.Metainfo.Files.{bytes_in, Tiles}
use learntorrent.Io.Cut.{Lays}
use learntorrent.Io.Split.{IsWhole, starts_at, split_piece-Lays}
use learntorrent.Io.{
  IoPiece, IoErr, IoMsg, piece, exit, Writev, write_sub, checked, on_piece_msg, write_all, start,
}

-- Parts of several pieces, in the order of the pieces.
abbrev pub LaysAll : Metainfo → List FileEntry → List ValidatedPiece → List IoPiece → Type 0
LaysAll mi fes [] ps = ps ≡ []
LaysAll mi fes (vp ∷ vps) ps =
    (front : List IoPiece) × (back : List IoPiece) × (ps ≡ front ++ back)
    × Lays fes (starts_at mi vp) (contents vp.blocks) front
    × LaysAll mi fes vps back

IsFile : ℕ → IoPiece → Type 0
IsFile files p = p.file_index < files

Lays-IsFile :
    (fes : List FileEntry) (place : ℕ) (bs : List ℕ) (ps : List IoPiece)
    → Lays fes place bs ps
    → All (IsFile (length fes)) ps
unfolding IsFile
Lays-IsFile fes place bs [] l = tt
Lays-IsFile fes place bs (p ∷ ps) (fe, rest, e, at, fit, sized, eq, more) = (
  get_elem?-bound fes p.file_index fe e,
  Lays-IsFile fes (place + length (contents p.blocks)) rest ps more,
)

module _ {S : Type 0} (submit_and_wait : Writev → S → Outcome IoErr (ℤ × S)) where
  -- The state after the parts were submitted.
  abbrev pub written : (Writev → S → S) → List IoPiece → S → S
  written next [] s = s
  written next (p ∷ ps) s = written next ps (next (write_sub p) s)

  -- The kernel takes every submission and answers something else than -1.
  abbrev pub Accepts : (Writev → S → S) → Type 0
  Accepts next =
      (w : Writev) (s : S) → (r : ℤ) × (submit_and_wait w s ≡ ok (r, next w s)) × (r ≢ negsuc 0)

  module _ (next : Writev → S → S) (accepts : Accepts next) (files : ℕ) where
    on_piece_msg-ok :
        (p : IoPiece) (s : S)
        → p.file_index < files
        → on_piece_msg submit_and_wait files p s ≡ ok (next (write_sub p) s)
    unfolding on_piece_msg
    on_piece_msg-ok p s h =
        let (r, e, ne) = accepts (write_sub p) s in
        rw (lt→ltb p.file_index files h) (rw e (passes r (next (write_sub p) s) ne))
      where
        passes : (r : ℤ) (s : S) → r ≢ negsuc 0 → checked r s ≡ ok s
        passes (pos n) s ne = refl
        passes (negsuc zero) s ne = absurd (ne refl)
        passes (negsuc (suc n)) s ne = refl

    write_all-ok :
        (ps : List IoPiece) (s : S)
        → All (IsFile files) ps
        → write_all submit_and_wait files ps s ≡ ok (written next ps s)
    unfolding write_all IsFile
    write_all-ok [] s a = refl
    write_all-ok (p ∷ ps) s (h, a) =
        rw (on_piece_msg-ok p s h) (write_all-ok ps (next (write_sub p) s) a)

  pub written-append :
      (next : Writev → S → S) (ps qs : List IoPiece) (s : S)
      → written next (ps ++ qs) s ≡ written next qs (written next ps s)
  written-append next [] qs s = refl
  written-append next (p ∷ ps) qs s = written-append next ps qs (next (write_sub p) s)

  -- For a torrent of several files without gaps, of less than 2 ^ 64 bytes together, the I/O task
  -- ends without an error when it is sent any number of whole pieces of the torrent and then the
  -- exit message, if the kernel takes every submission and never answers -1. It submits just the
  -- parts of the pieces, in their order; the parts of a piece hold its bytes in order, each part
  -- lies inside of its file, and over all the files they start at the piece's place and follow
  -- each other without a gap.
  pub start-LaysAll :
      (next : Writev → S → S)
      → Accepts next
      → (mi : Metainfo) (mf : MultiFile) → mi.file_entries ≡ multi mf
      → Tiles mf.file_entries 0
      → bytes_in mf.file_entries < 2 ^ 64
      → (vps : List ValidatedPiece) → All (IsWhole mi (bytes_in mf.file_entries)) vps
      → (msgs : List IoMsg) (s : S)
      → (ps : List IoPiece) × LaysAll mi mf.file_entries vps ps
        × (start submit_and_wait (length mf.file_entries) mi (map piece vps ++ exit ∷ msgs) s
            ≡ ok (written next ps s))
  unfolding start
  start-LaysAll next accepts mi mf e tiles fits [] whole msgs s = ([], refl, refl)
  start-LaysAll next accepts mi mf e tiles fits (vp ∷ vps) (one, whole) msgs s =
      let (front, split, laid) = split_piece-Lays mi mf vp e tiles fits one in
      let files = Lays-IsFile mf.file_entries (starts_at mi vp) (contents vp.blocks) front laid in
      let (back, laid', run) =
        start-LaysAll next accepts mi mf e tiles fits vps whole msgs (written next front s) in
      (
        front ++ back,
        (front, back, refl, laid, laid'),
        rw split (
            rw (write_all-ok next accepts (length mf.file_entries) front s files)
              (run ∙ ap ok (sym (written-append next front back s)))),
      )

-- ===== src/Io/Saved.antt =====
-- The files after the pieces of a torrent have been written.
use learntorrent.Base.{
  ℕ, zero, suc, ◌+◌, ◌-◌, ◌*◌, ◌^◌, ◌≤◌, ◌<◌, ◌≡◌, ◌⊎◌, refl, sym, ap, ◌∙◌, subst, false, Option,
  some, List, [], ◌∷◌, ◌++◌, map, ◌==◌, length, get_elem?, All, arith, inl, inr,
}
use learntorrent.Base.Int.{ℤ}
use learntorrent.Base.Ceil.{mul_mono}
use learntorrent.Base.Outcome.{Outcome, ok}
use learntorrent.BeValue.{BeValue}
use learntorrent.PieceTracker.{ValidatedPiece, contents}
use learntorrent.Metainfo.{
  FileEntry, MultiFile, multi, Metainfo, IsCounted, get_piece_size, get_piece_size_lem, piece_count,
}
use learntorrent.Metainfo.Parse.{from_src_be}
use learntorrent.Metainfo.Files.{bytes_in, first_len}
use learntorrent.Io.{IoErr, IoMsg, piece, exit, Writev, start}
use learntorrent.Io.Cut.{Sized}
use learntorrent.Io.Split.{IsWhole, starts_at}
use learntorrent.Io.Runs.{Accepts, start-LaysAll}
use learntorrent.Io.Torrent.{read_lem, piece-IsWhole}
use learntorrent.Io.Disk.{Disk, store, over, overs, over_inside, order, over_outside, written_all}

-- No piece twice.
abbrev pub Distinct : List ValidatedPiece → Type 0
Distinct [] = Unit
Distinct (vp ∷ vps) = All (λ w. (w.pid == vp.pid) ≡ false) vps × Distinct vps

-- Not longer than the pieces are.
abbrev IsShort : Metainfo → ValidatedPiece → Type 0
IsShort mi vp = length (contents vp.blocks) ≤ mi.piece_length

-- Another piece has none of its places.
pieces_apart :
    (l p q x size : ℕ)
    → (p == q) ≡ false
    → x < l
    → size ≤ l
    → (q * l + x < p * l) ⊎ (p * l + size ≤ q * l + x)
pieces_apart l p q x size ne h s = elim (order q p) [
  | inl k ↦ inl (omega (arith, mul_mono (suc q) p l k))
  | inr k ↦ inr (omega (arith, mul_mono (suc p) q l (ground (arith, k, ne))))
]

overs_outside :
    (mi : Metainfo) (vps : List ValidatedPiece) (vp : ValidatedPiece) (x : ℕ) (old : Option ℕ)
    → All (λ w. (w.pid == vp.pid) ≡ false) vps
    → All (IsShort mi) vps
    → x < mi.piece_length
    → overs mi vps (starts_at mi vp + x) old ≡ old
overs_outside mi [] vp x old a s h = refl
overs_outside mi (w ∷ vps) vp x old (n, a) (t, s) h =
    overs_outside mi vps vp x _ a s h
    ∙ over_outside (starts_at mi w) (contents w.blocks) (starts_at mi vp + x) old
        (pieces_apart mi.piece_length w.pid vp.pid x _ n h t)

piece_inside :
    (mi : Metainfo) (vps : List ValidatedPiece) (w : ValidatedPiece) (x : ℕ) (old : Option ℕ)
    → All (λ v. (v.pid == w.pid) ≡ false) vps
    → All (IsShort mi) (w ∷ vps)
    → x < length (contents w.blocks)
    → overs mi (w ∷ vps) (starts_at mi w + x) old ≡ get_elem? (contents w.blocks) x
piece_inside mi vps w x old a (t, s) h =
    overs_outside mi vps w x _ a s (omega (arith, t))
    ∙ over_inside (starts_at mi w) (contents w.blocks) (starts_at mi w + x) old (omega arith)
        (omega arith)
    ∙ ap (get_elem? (contents w.blocks)) (omega arith)

overs_inside :
    (mi : Metainfo) (vps : List ValidatedPiece) (n : ℕ) (vp : ValidatedPiece) (x : ℕ)
    (old : Option ℕ)
    → Distinct vps
    → All (IsShort mi) vps
    → get_elem? vps n ≡ some vp
    → x < length (contents vp.blocks)
    → overs mi vps (starts_at mi vp + x) old ≡ get_elem? (contents vp.blocks) x
overs_inside mi [] n vp x old d s e h = absurd (cc e)
overs_inside mi (w ∷ vps) zero vp x old (a, d) (t, s) e h =
    let same : w ≡ vp = cc e in
    subst
      (λ y.
        overs mi vps (starts_at mi y + x)
          (over (starts_at mi w) (contents w.blocks) (starts_at mi y + x) old)
        ≡ get_elem? (contents y.blocks) x)
      same
      (piece_inside mi vps w x old a (t, s)
        (subst (λ y. x < length (contents y.blocks)) (sym same) h))
overs_inside mi (w ∷ vps) (suc n) vp x old (a, d) (t, s) e h = overs_inside mi vps n vp x _ d s e h

-- The bytes of a piece that has a hash, as many as `get_piece_size` says.
abbrev pub IsPiece : Metainfo → ValidatedPiece → Type 0
IsPiece mi vp =
    (vp.pid < length mi.piece_hashes)
    × (get_piece_size mi vp.pid ≡ length (contents vp.blocks))
    × All Sized vp.blocks

IsPiece-IsShort :
    (mi : Metainfo) (vp : ValidatedPiece)
    → IsCounted mi
    → length mi.piece_hashes ≡ piece_count mi
    → IsPiece mi vp
    → IsShort mi vp
IsPiece-IsShort mi vp c n (h, size, sized) =
    omega (arith, size, get_piece_size_lem mi vp.pid c (omega (arith, h, n)))

module _ (mi : Metainfo) (counted : IsCounted mi)
    (hashes : length mi.piece_hashes ≡ piece_count mi) where
  all-IsShort : (vps : List ValidatedPiece) → All (IsPiece mi) vps → All (IsShort mi) vps
  all-IsShort [] a = tt
  all-IsShort (vp ∷ vps) (p, a) = (IsPiece-IsShort mi vp counted hashes p, all-IsShort vps a)

  all-IsWhole :
      (vps : List ValidatedPiece) → All (IsPiece mi) vps → All (IsWhole mi mi.total_length) vps
  all-IsWhole [] a = tt
  all-IsWhole (vp ∷ vps) ((h, size, sized), a) =
      (piece-IsWhole mi vp counted (omega (arith, hashes, h)) size sized, all-IsWhole vps a)

-- For a torrent of several files that is read without an error, has less than 2 ^ 53 bytes, at
-- most 2 ^ 32 - 1 pieces, and a first file that is not empty: let the I/O task be sent different
-- pieces that have a hash, in any order, each with as many bytes as `get_piece_size` says, and
-- then the exit message, and let the kernel store what is submitted and never answer -1. Then the
-- task ends without an error, and each byte of each piece is in the file that has its place in the
-- torrent, as far behind the start of the file as that place is.
pub start-Saved :
    (sha1 : List ℕ → List ℕ) (src : List ℕ) (v : BeValue) (mi : Metainfo) (mf : MultiFile)
    (submit_and_wait : Writev → Disk → Outcome IoErr (ℤ × Disk)) (vps : List ValidatedPiece)
    (msgs : List IoMsg) (disk : Disk) (n : ℕ) (vp : ValidatedPiece) (x : ℕ) (i : ℕ) (fe : FileEntry)
    → from_src_be sha1 src v ≡ ok mi
    → mi.file_entries ≡ multi mf
    → bytes_in mf.file_entries < 2 ^ 53
    → bytes_in mf.file_entries ≤ (2 ^ 32 - 1) * mi.piece_length
    → 0 < first_len mf.file_entries
    → Accepts submit_and_wait store
    → All (IsPiece mi) vps
    → Distinct vps
    → get_elem? vps n ≡ some vp
    → x < length (contents vp.blocks)
    → get_elem? mf.file_entries i ≡ some fe
    → fe.start ≤ starts_at mi vp + x
    → starts_at mi vp + x < fe.start + fe.len
    → (disk' : Disk) × (start submit_and_wait
          (length mf.file_entries)
          mi
          (map piece vps ++ exit ∷ msgs)
          disk
        ≡ ok disk')
      × (disk' i (starts_at mi vp + x - fe.start) ≡ get_elem? (contents vp.blocks) x)
start-Saved sha1 src v mi mf submit vps msgs disk n vp x i fe read e exact few full accepts all d at
      h file lo hi =
    let (counted, well, files) = read_lem sha1 src v mi mf read e exact few full in
    let whole =
      subst (λ t. All (IsWhole mi t) vps) (sym files.0)
        (all-IsWhole mi counted well.hash_count vps all) in
    let (ps, laid, run) =
      start-LaysAll submit store accepts mi mf e files.1 (omega arith) vps whole msgs disk in
    (
      _,
      run,
      written_all submit mi mf.file_entries vps ps i fe (starts_at mi vp + x) disk files.1 laid file
            lo hi
          ∙ overs_inside mi vps n vp x _ d (all-IsShort mi counted well.hash_count vps all) at h,
    )

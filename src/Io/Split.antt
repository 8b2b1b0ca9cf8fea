-- ===== src/Io/Split.antt =====
-- A piece that is cut at the borders of the files.
use learntorrent.Base.{
  lt→ltb, ==→eq, ltb→lt, ℕ, suc, ◌+◌, ◌-◌, ◌*◌, ◌^◌, ◌%◌, ◌≤◌, ◌<◌, ◌≡◌, refl, sym, ap, ◌∙◌, subst,
  false, some, List, [], ◌∷◌, append-nil, ltb, ◌==◌, length, get_elem?, All, arith, Bool-cases, inl,
  inr,
}
use learntorrent.Base.Words.{add64, sub64}
use learntorrent.Base.Outcome.{ok}
use learntorrent.PieceTracker.{ValidatedPiece, contents}
use learntorrent.Metainfo.{FileEntry, MultiFile, multi, Metainfo, get_piece_size}
use learntorrent.Metainfo.Files.{bytes_in, Tiles}
use learntorrent.Io.Tiling.{tile_at, tile_before, find_file_lem}
use learntorrent.Io.{IoPiece, split_overlapping, split_between, split_piece}
use learntorrent.Io.Cut.{Sized, Lays, cut_files-Lays}

module _ (mf : MultiFile) (vp : ValidatedPiece) (tiles : Tiles mf.file_entries 0)
    (fits : bytes_in mf.file_entries < 2 ^ 64) (sized : All Sized vp.blocks) where
  split_between-Lays :
      (i j : ℕ) (fe fe' : FileEntry) (place stop : ℕ)
      → get_elem? mf.file_entries i ≡ some fe
      → get_elem? mf.file_entries j ≡ some fe'
      → fe.start ≤ place
      → place ≤ fe.end
      → fe'.start ≤ stop
      → stop ≤ fe'.end
      → place ≤ stop
      → place + length (contents vp.blocks) ≡ stop + 1
      → length (contents vp.blocks) < 2 ^ 32
      → (io_pieces : List IoPiece) × (split_between mf vp i fe j place stop ≡ ok io_pieces)
        × Lays mf.file_entries place (contents vp.blocks) io_pieces
  unfolding split_between
  split_between-Lays i j fe fe' place stop e e' a b c d o l w =
      let (last, from, upto) = tile_at mf.file_entries 0 i fe tiles e in
      elim (Bool-cases (i == j)) [
        | inl t ↦
            let e'' : get_elem? mf.file_entries j ≡ some fe =
              subst (λ n. get_elem? mf.file_entries n ≡ some fe) (==→eq i j t) e in
            let same : fe' ≡ fe = cc (sym e' ∙ e'') in
            let d' : stop ≤ fe.end = subst (λ x. stop ≤ x.end) same d in
            let offset : sub64 place fe.start ≡ place - fe.start = omega arith in
            (
              record { offset = place - fe.start; blocks = vp.blocks; file_index = i } ∷ [],
              rw t (rw offset refl),
              (
                fe,
                [],
                e,
                omega arith,
                omega arith,
                sized,
                sym (append-nil (contents vp.blocks)),
                refl,
              ),
            )
        | inr t ↦
            let i_j : i < j = before e e' a b c d o t in
            let (ps, run, laid) =
              cut_files-Lays mf.file_entries tiles fits (j - i) i j fe fe' (contents vp.blocks)
                place stop (omega arith) e e' a (omega arith) c d l w in
            let many : suc j - i ≡ suc (j - i) = omega arith in
            (ps, rw t (rw (lt→ltb i j i_j) (rw (many, split_overlapping) run)), laid)
      ]
    where
      before :
          get_elem? mf.file_entries i ≡ some fe
          → get_elem? mf.file_entries j ≡ some fe'
          → fe.start ≤ place
          → place ≤ fe.end
          → fe'.start ≤ stop
          → stop ≤ fe'.end
          → place ≤ stop
          → (i == j) ≡ false
          → i < j
      before e e' a b c d o t = elim (Bool-cases (ltb i j)) [
        | inl u ↦ ltb→lt i j u
        | inr u ↦
            let j_i : j < i = ground (arith, t, u) in
            let apart = tile_before mf.file_entries 0 j i fe' fe tiles j_i e' e in
            let (last, _, _) = tile_at mf.file_entries 0 j fe' tiles e' in absurd (omega arith)
      ]

-- The place where a piece starts.
abbrev pub starts_at : Metainfo → ValidatedPiece → ℕ
starts_at mi vp = vp.pid * mi.piece_length

-- Inside of the torrent, with the bytes that `get_piece_size` says.
pub record IsWhole (mi : Metainfo) (total : ℕ) (vp : ValidatedPiece) : Type 0 where
  pub inside : starts_at mi vp + length (contents vp.blocks) ≤ total
  pub size : get_piece_size mi vp.pid ≡ length (contents vp.blocks)
  pub some_byte : 0 < length (contents vp.blocks)
  pub short : length (contents vp.blocks) < 2 ^ 32
  pub sized : All Sized vp.blocks

-- For a torrent of several files without gaps, of less than 2 ^ 64 bytes together, a whole piece
-- of the torrent is split without a panic: the parts hold its bytes in order, each part lies
-- inside of its file, and over all the files they start at the piece's place and follow each other
-- without a gap.
pub split_piece-Lays :
    (mi : Metainfo) (mf : MultiFile) (vp : ValidatedPiece)
    → mi.file_entries ≡ multi mf
    → Tiles mf.file_entries 0
    → bytes_in mf.file_entries < 2 ^ 64
    → IsWhole mi (bytes_in mf.file_entries) vp
    → (io_pieces : List IoPiece) × (split_piece mi vp ≡ ok io_pieces)
      × Lays mf.file_entries (starts_at mi vp) (contents vp.blocks) io_pieces
unfolding split_piece
split_piece-Lays mi mf vp single? tiles fits whole =
    let fes = mf.file_entries in
    let place = starts_at mi vp in
    let stop = place + length (contents vp.blocks) - 1 in
    let start_eq : place % 2 ^ 64 ≡ place = omega arith in
    let stop_eq : sub64 (add64 place (length (contents vp.blocks))) 1 ≡ stop = omega arith in
    let (i, fe, found, at, a, b) = find_file_lem fes 0 0 place tiles (omega arith) (omega arith) in
    let (j, fe', found', at', a', b') =
      find_file_lem fes 0 0 stop tiles (omega arith) (omega arith) in
    rw (single?, split_piece)
      (rw start_eq (
        rw whole.size (
          rw stop_eq (
            rw (found ∙ ap (λ k. some (k, fe)) (zero-add i)) (
              rw (found' ∙ ap (λ k. some (k, fe')) (zero-add j)) (
                split_between-Lays mf vp tiles fits whole.sized i j fe fe' place stop at at' a b a'
                  b' (omega arith) (omega arith) whole.short))))))
  where
    zero-add : (k : ℕ) → 0 + k ≡ k
    zero-add k = omega arith

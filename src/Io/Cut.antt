-- ===== src/Io/Cut.antt =====
-- The parts of a piece that the files take.
use learntorrent.Base.{
  ℕ, zero, suc, ◌+◌, ◌-◌, ◌^◌, ◌%◌, ◌≤◌, ◌<◌, ◌≡◌, refl, sym, ap, ◌∙◌, subst, true, some, List, [],
  ◌∷◌, ◌++◌, append-nil, leb, length, get_elem?, get_elem?_total, get_elem?-bound, take, drop,
  length-take, length-drop, All, min, arith,
}
use learntorrent.Base.Words.{add64, sub64}
use learntorrent.Base.Outcome.{ok}
use learntorrent.PieceTracker.{CompletedBlockRequest, contents}
use learntorrent.Metainfo.{FileEntry}
use learntorrent.Metainfo.Files.{bytes_in, Tiles}
use learntorrent.Io.Tiling.{tile_at, tile_before, tile_next}
use learntorrent.Io.{IoPiece, cut, cut_files}

-- As many bytes are written as there are.
abbrev pub Sized : CompletedBlockRequest → Type 0
Sized b = b.size ≡ length b.bytes

-- The parts hold the bytes in order; a part lies inside of its file, and starts where the part before
-- it stopped, counted over all the files.
abbrev pub Lays : List FileEntry → ℕ → List ℕ → List IoPiece → Type 0
Lays fes place bs [] = bs ≡ []
Lays fes place bs (p ∷ ps) =
    (fe : FileEntry) × (rest : List ℕ) × (get_elem? fes p.file_index ≡ some fe)
    × (fe.start + p.offset ≡ place)
    × (p.offset + length (contents p.blocks) ≤ fe.len)
    × All Sized p.blocks
    × (bs ≡ contents p.blocks ++ rest)
    × Lays fes (place + length (contents p.blocks)) rest ps

-- One file's part, when it holds at least a place of the piece, or is empty.
cut-ok :
    (fe : FileEntry) (i : ℕ) (block : List ℕ) (place stop len : ℕ)
    → fe.start ≤ place
    → place + len ≤ fe.start + fe.len
    → fe.end + 1 ≡ fe.start + fe.len
    → min fe.end stop + 1 ≡ place + len
    → len ≤ length block
    → place + length block < 2 ^ 64
    → fe.start + fe.len < 2 ^ 64
    → cut fe i block place stop
      ≡ ok (
        record {
          offset = place - fe.start;
          blocks = record { offset = 0; size = len % 2 ^ 32; bytes = take len block } ∷ [];
          file_index = i;
        },
        drop len block,
        place + len,
      )
unfolding cut
cut-ok fe i block place stop len a b c m l w w' =
    let same : add64 (sub64 (min fe.end stop) place) 1 ≡ len = omega (arith, m) in
    rw same (rw (fits len (length block) l) (rw offset (rw next)))
  where
    fits : (n k : ℕ) → n ≤ k → leb n k ≡ true
    fits n k h = ground arith

    offset : sub64 place fe.start ≡ place - fe.start
    offset = omega arith

    next : add64 place len ≡ place + len
    next = omega arith

take-drop {ℓ} : {A : Type ℓ} (n : ℕ) (xs : List A) → take n xs ++ drop n xs ≡ xs
take-drop zero xs = refl
take-drop (suc n) [] = refl
take-drop (suc n) (x ∷ xs) = ap (λ t. x ∷ t) (take-drop n xs)

drop_all {ℓ} : {A : Type ℓ} (xs : List A) → drop (length xs) xs ≡ []
drop_all [] = refl
drop_all (x ∷ xs) = drop_all xs

abbrev part : FileEntry → ℕ → List ℕ → ℕ → ℕ → IoPiece
part fe i block place len = record {
  offset = place - fe.start;
  blocks = record { offset = 0; size = len % 2 ^ 32; bytes = take len block } ∷ [];
  file_index = i;
}

part-Lays :
    (fes : List FileEntry) (fe : FileEntry) (i : ℕ) (block : List ℕ) (place len : ℕ)
    (ps : List IoPiece)
    → get_elem? fes i ≡ some fe
    → fe.start ≤ place
    → place + len ≤ fe.start + fe.len
    → len ≤ length block
    → length block < 2 ^ 32
    → Lays fes (place + len) (drop len block) ps
    → Lays fes place block (part fe i block place len ∷ ps)
unfolding contents
part-Lays fes fe i block place len ps e a b l w more =
    let taken : length (take len block) ≡ len = omega (arith, length-take len block) in
    rw (append-nil (take len block)) (
      fe,
      drop len block,
      e,
      omega arith,
      rw taken (omega arith),
      (rw taken (omega arith), tt),
      sym (take-drop len block),
      rw taken more,
    )

module _ (fes : List FileEntry) (tiles : Tiles fes 0) (fits : bytes_in fes < 2 ^ 64) where
  one_round :
      (count i : ℕ) (fe : FileEntry) (block block' : List ℕ) (place place' stop : ℕ) (p : IoPiece)
      (ps : List IoPiece)
      → get_elem? fes i ≡ some fe
      → cut fe i block place stop ≡ ok (p, block', place')
      → cut_files count fes (suc i) block' place' stop ≡ ok ps
      → cut_files (suc count) fes i block place stop ≡ ok (p ∷ ps)
  unfolding cut_files
  one_round count i fe block block' place place' stop p ps e c more = rw e (rw c (rw more))

  pub cut_files-Lays :
      (count i j : ℕ) (fe fe' : FileEntry) (block : List ℕ) (place stop : ℕ)
      → i + count ≡ j
      → get_elem? fes i ≡ some fe
      → get_elem? fes j ≡ some fe'
      → fe.start ≤ place
      → place ≤ fe.start + fe.len
      → fe'.start ≤ stop
      → stop ≤ fe'.end
      → place + length block ≡ stop + 1
      → length block < 2 ^ 32
      → (io_pieces : List IoPiece) × (cut_files (suc count) fes i block place stop ≡ ok io_pieces)
        × Lays fes place block io_pieces
  cut_files-Lays zero i j fe fe' block place stop s e e' a b c d l w =
      let i_j : i ≡ j = omega arith in
      let e'' : get_elem? fes j ≡ some fe = subst (λ n. get_elem? fes n ≡ some fe) i_j e in
      let same : fe' ≡ fe = cc (sym e' ∙ e'') in
      let c' : fe.start ≤ stop = subst (λ x. x.start ≤ stop) same c in
      let d' : stop ≤ fe.end = subst (λ x. stop ≤ x.end) same d in
      let (last, from, upto) = tile_at fes 0 i fe tiles e in
      let len = length block in
      (
        part fe i block place len ∷ [],
        one_round zero i fe block (drop len block) place (place + len) stop
            (part fe i block place len) [] e
            (cut-ok fe i block place stop len a (omega arith) last (omega arith) (omega arith)
              (omega arith) (omega arith))
            (unfold cut_files in refl),
        part-Lays fes fe i block place len [] e a (omega arith) (omega arith) w (drop_all block),
      )
  cut_files-Lays (suc count) i j fe fe' block place stop s e e' a b c d l w =
      let (last, from, upto) = tile_at fes 0 i fe tiles e in
      let (last', from', upto') = tile_at fes 0 j fe' tiles e' in
      let apart = tile_before fes 0 i j fe fe' tiles (omega arith) e e' in
      let len = fe.start + fe.len - place in
      let (f, ef) = get_elem?_total fes (suc i) (omega (arith, get_elem?-bound fes j fe' e')) in
      let step = tile_next fes 0 i fe f tiles e ef in
      let (ps, more, laid) =
        cut_files-Lays count (suc i) j f fe' (drop len block) (place + len) stop (omega arith) ef e'
          (omega arith) (omega arith) c d (omega (arith, length-drop len block))
          (omega (arith, length-drop len block)) in
      (
        part fe i block place len ∷ ps,
        one_round (suc count) i fe block (drop len block) place (place + len) stop
            (part fe i block place len) ps e
            (cut-ok fe i block place stop len a (omega arith) last (omega arith) (omega arith)
              (omega arith) (omega arith))
            more,
        part-Lays fes fe i block place len ps e a (omega arith) (omega arith) w laid,
      )

-- ===== src/Io/Disk.antt =====
-- Files on a disk, and what the writes of pieces leave in them.
use learntorrent.Base.{
  ◌⊎◌, ℕ, zero, suc, ◌+◌, ◌-◌, ◌≤◌, ◌<◌, ◌≡◌, refl, sym, ap, ◌∙◌, true, false, ◌&&◌, Option, some,
  List, [], ◌∷◌, ◌++◌, map, ltb, leb, ◌==◌, ==→eq, if◌then◌else◌, length, length-append, get_elem?,
  get_elem?-append_right, take, All, arith, Bool-cases, inl, inr, ◌⊎◌,
}
use learntorrent.PieceTracker.{CompletedBlockRequest, contents}
use learntorrent.Metainfo.{FileEntry}
use learntorrent.Metainfo.Files.{Tiles}
use learntorrent.Base.Int.{ℤ}
use learntorrent.Base.Outcome.{Outcome}
use learntorrent.PieceTracker.{ValidatedPiece}
use learntorrent.Metainfo.{Metainfo}
use learntorrent.Io.{IoErr, IoPiece, IoVec, Writev, iovec, write_sub}
use learntorrent.Io.Tiling.{tile_before}
use learntorrent.Io.Split.{starts_at}
use learntorrent.Io.Cut.{Sized, Lays}
use learntorrent.Io.Runs.{written, written-append, LaysAll}

-- The byte at a place in a file, if it was written.
abbrev pub Disk : Type 0
Disk = ℕ → ℕ → Option ℕ

-- Bytes from a place on, over what was there.
abbrev pub over : ℕ → List ℕ → ℕ → Option ℕ → Option ℕ
over start bs place old =
    if leb start place && ltb place (start + length bs) then get_elem? bs (place - start) else old

abbrev pub gathered : List IoVec → List ℕ
gathered [] = []
gathered (v ∷ vs) = take v.iov_len v.iov_base ++ gathered vs

-- A write of the kernel that is complete.
abbrev pub store : Writev → Disk → Disk
store w disk file place =
    if file == w.fd
    then over w.offset (gathered w.iovecs) place (disk file place)
    else disk file place

take-length : (xs : List ℕ) → take (length xs) xs ≡ xs
take-length [] = refl
take-length (x ∷ xs) = ap (λ t. x ∷ t) (take-length xs)

pub gathered-iovec :
    (blocks : List CompletedBlockRequest)
    → All Sized blocks
    → gathered (map iovec blocks) ≡ contents blocks
unfolding contents
gathered-iovec [] a = refl
gathered-iovec (b ∷ blocks) (s, a) = rw (s, take-length b.bytes, gathered-iovec blocks a) refl

get_elem?-front : (xs ys : List ℕ) (i : ℕ) → i < length xs → get_elem? (xs ++ ys) i ≡ get_elem? xs i
get_elem?-front [] ys i h = absurd (omega arith)
get_elem?-front (x ∷ xs) ys zero h = refl
get_elem?-front (x ∷ xs) ys (suc i) h = get_elem?-front xs ys i (omega arith)

pub order : (a b : ℕ) → (a < b) ⊎ (b ≤ a)
order a zero = inr (omega arith)
order zero (suc b) = inl (omega arith)
order (suc a) (suc b) = elim (order a b) [ inl h ↦ inl (omega arith) | inr h ↦ inr (omega arith) ]

-- Inside of the bytes, and outside.
pub over_inside :
    (start : ℕ) (bs : List ℕ) (place : ℕ) (old : Option ℕ)
    → start ≤ place
    → place < start + length bs
    → over start bs place old ≡ get_elem? bs (place - start)
over_inside start bs place old h h' = rw (inside start place (start + length bs) h h') refl
  where
    inside : (a x b : ℕ) → a ≤ x → x < b → (leb a x && ltb x b) ≡ true
    inside a x b h h' = ground arith

pub over_outside :
    (start : ℕ) (bs : List ℕ) (place : ℕ) (old : Option ℕ)
    → (place < start) ⊎ (start + length bs ≤ place)
    → over start bs place old ≡ old
over_outside start bs place old h = rw (outside start place (start + length bs) h) refl
  where
    outside : (a x b : ℕ) → (x < a) ⊎ (b ≤ x) → (leb a x && ltb x b) ≡ false
    outside a x b (inl l) = ground arith
    outside a x b (inr l) = ground arith

pub over-append :
    (start : ℕ) (xs ys : List ℕ) (place : ℕ) (old : Option ℕ)
    → over start (xs ++ ys) place old ≡ over (start + length xs) ys place (over start xs place old)
over-append start xs ys place old = elim (order place start) [
  | inl l ↦
      over_outside start (xs ++ ys) place old (inl l)
      ∙ sym (
          over_outside (start + length xs) ys place _ (inl (omega arith))
          ∙ over_outside start xs place old (inl l))
  | inr l ↦ elim (order place (start + length xs)) [
    | inl m ↦
        over_inside start (xs ++ ys) place old l (omega (arith, size))
        ∙ get_elem?-front xs ys (place - start) (omega arith)
        ∙ sym (
            over_outside (start + length xs) ys place _ (inl m)
            ∙ over_inside start xs place old l m)
    | inr m ↦ elim (order place (start + length xs + length ys)) [
      | inl n ↦
          over_inside start (xs ++ ys) place old l (omega (arith, size))
          ∙ ap (get_elem? (xs ++ ys)) (omega arith)
          ∙ get_elem?-append_right xs ys (place - (start + length xs))
          ∙ sym (over_inside (start + length xs) ys place _ m n)
      | inr n ↦
          over_outside start (xs ++ ys) place old (inr (omega (arith, size)))
          ∙ sym (
              over_outside (start + length xs) ys place _ (inr n)
              ∙ over_outside start xs place old (inr m))
    ]
  ]
]
  where
    size : length (xs ++ ys) ≡ length xs + length ys
    size = length-append xs ys

over_shift :
    (base start : ℕ) (bs : List ℕ) (place : ℕ) (old : Option ℕ)
    → base ≤ place
    → over start bs (place - base) old ≡ over (base + start) bs place old
over_shift base start bs place old h = elim (order place (base + start)) [
  | inl l ↦
      over_outside start bs (place - base) old (inl (omega arith))
      ∙ sym (over_outside (base + start) bs place old (inl l))
  | inr l ↦ elim (order place (base + start + length bs)) [
    | inl m ↦
        over_inside start bs (place - base) old (omega arith) (omega arith)
        ∙ ap (get_elem? bs) (omega arith)
        ∙ sym (over_inside (base + start) bs place old l m)
    | inr m ↦
        over_outside start bs (place - base) old (inr (omega arith))
        ∙ sym (over_outside (base + start) bs place old (inr m))
  ]
]

pub over_nothing : (start place : ℕ) (old : Option ℕ) → over start [] place old ≡ old
over_nothing start place old = elim (order place start) [
  | inl l ↦ over_outside start [] place old (inl l)
  | inr l ↦ over_outside start [] place old (inr (omega arith))
]

same_entry : (fe k : FileEntry) (o : Option FileEntry) → o ≡ some fe → o ≡ some k → fe ≡ k
same_entry fe k o e e' = cc

-- The file of a part has no place of another file.
apart :
    (fes : List FileEntry) (start size i j : ℕ) (k fe : FileEntry) (place : ℕ)
    → Tiles fes 0
    → get_elem? fes j ≡ some k
    → k.start ≤ start
    → start + size ≤ k.start + k.len
    → get_elem? fes i ≡ some fe
    → fe.start ≤ place
    → place < fe.start + fe.len
    → (i == j) ≡ false
    → (place < start) ⊎ (start + size ≤ place)
apart fes start size i j k fe place t e at fit e' lo hi ne = elim (order i j) [
  | inl l ↦ inl (omega (arith, tile_before fes 0 i j fe k t l e' e))
  | inr l ↦ inr (omega (arith, tile_before fes 0 j i k fe t (ground (arith, ne)) e e'))
]

-- A part of a piece, seen from any file that has the place.
part_lem :
    (fes : List FileEntry) (start : ℕ) (p : IoPiece) (k : FileEntry) (i : ℕ) (fe : FileEntry)
    (place : ℕ) (disk : Disk)
    → Tiles fes 0
    → get_elem? fes p.file_index ≡ some k
    → k.start + p.offset ≡ start
    → p.offset + length (contents p.blocks) ≤ k.len
    → All Sized p.blocks
    → get_elem? fes i ≡ some fe
    → fe.start ≤ place
    → place < fe.start + fe.len
    → store (write_sub p) disk i (place - fe.start)
      ≡ over start (contents p.blocks) place (disk i (place - fe.start))
part_lem fes start p k i fe place disk t e at fit sized e' lo hi =
    rw (gathered-iovec p.blocks sized) (elim (Bool-cases (i == p.file_index)) [
      | inl h ↦
          let same =
            same_entry fe k (get_elem? fes i) e'
              (ap (get_elem? fes) (==→eq i p.file_index h) ∙ e) in
          rw h (
            over_shift fe.start p.offset (contents p.blocks) place (disk i (place - fe.start)) lo
            ∙ ap (λ x. over x (contents p.blocks) place (disk i (place - fe.start)))
                (ap (λ x. x.start + p.offset) same ∙ at))
      | inr h ↦ rw h (
          sym (
            over_outside start (contents p.blocks) place _ (
              apart fes start (length (contents p.blocks)) i p.file_index k fe place t e
                (omega (arith, at)) (omega (arith, at, fit)) e' lo hi h)))
    ])

-- The pieces one after another.
abbrev pub overs : Metainfo → List ValidatedPiece → ℕ → Option ℕ → Option ℕ
overs mi [] place old = old
overs mi (vp ∷ vps) place old =
    overs mi vps place (over (starts_at mi vp) (contents vp.blocks) place old)

module _ (submit_and_wait : Writev → Disk → Outcome IoErr (ℤ × Disk)) where
  written_lem :
      (fes : List FileEntry) (start : ℕ) (bs : List ℕ) (ps : List IoPiece) (i : ℕ) (fe : FileEntry)
      (place : ℕ) (disk : Disk)
      → Tiles fes 0
      → Lays fes start bs ps
      → get_elem? fes i ≡ some fe
      → fe.start ≤ place
      → place < fe.start + fe.len
      → written submit_and_wait store ps disk i (place - fe.start)
        ≡ over start bs place (disk i (place - fe.start))
  written_lem fes start bs [] i fe place disk t l e lo hi =
      sym (ap (λ x. over start x place (disk i (place - fe.start))) l ∙ over_nothing start place _)
  written_lem fes start bs (p ∷ ps) i fe place disk t (k, rest, e, at, fit, sized, eq, more) e' lo
        hi =
      let n = length (contents p.blocks) in
      written_lem fes (start + n) rest ps i fe place (store (write_sub p) disk) t more e' lo hi
      ∙ ap (over (start + n) rest place)
          (part_lem fes start p k i fe place disk t e at fit sized e' lo hi)
      ∙ sym (over-append start (contents p.blocks) rest place _)
      ∙ ap (λ x. over start x place (disk i (place - fe.start))) (sym eq)

  pub written_all :
      (mi : Metainfo) (fes : List FileEntry) (vps : List ValidatedPiece) (ps : List IoPiece) (i : ℕ)
      (fe : FileEntry) (place : ℕ) (disk : Disk)
      → Tiles fes 0
      → LaysAll mi fes vps ps
      → get_elem? fes i ≡ some fe
      → fe.start ≤ place
      → place < fe.start + fe.len
      → written submit_and_wait store ps disk i (place - fe.start)
        ≡ overs mi vps place (disk i (place - fe.start))
  written_all mi fes [] ps i fe place disk t l e lo hi =
      ap (λ x. written submit_and_wait store x disk i (place - fe.start)) l
  written_all mi fes (vp ∷ vps) ps i fe place disk t (front, back, eq, one, more) e lo hi =
      ap (λ x. written submit_and_wait store x disk i (place - fe.start)) eq
      ∙ ap (λ x. x i (place - fe.start)) (written-append submit_and_wait store front back disk)
      ∙ written_all mi fes vps back i fe place (written submit_and_wait store front disk) t more e
          lo hi
      ∙ ap (overs mi vps place) (
          written_lem fes (starts_at mi vp) (contents vp.blocks) front i fe place disk t one e lo
            hi)

-- ===== src/Io/Tiling.antt =====
-- Files that follow each other without a gap: which one includes a place.
use learntorrent.Base.{
  ℕ, zero, suc, ◌+◌, ◌≤◌, ◌<◌, ◌≡◌, refl, ap, ◌∙◌, subst, some, List, [], ◌∷◌, get_elem?, arith,
  Bool-cases, inl, inr,
}
use learntorrent.Metainfo.{FileEntry}
use learntorrent.Metainfo.Files.{bytes_in, Tiles}
use learntorrent.Io.{includes, find_file}

-- A file's ends, and where it lies among all.
pub tile_at :
    (fes : List FileEntry) (place i : ℕ) (fe : FileEntry)
    → Tiles fes place
    → get_elem? fes i ≡ some fe
    → (fe.end + 1 ≡ fe.start + fe.len)
      × (place ≤ fe.start)
      × (fe.start + fe.len ≤ place + bytes_in fes)
unfolding bytes_in
tile_at [] place i fe t e = absurd (cc e)
tile_at (f ∷ fes) place zero fe (s, n, t) e =
    let same : f ≡ fe = cc e in
    subst
      (λ x.
        (x.end + 1 ≡ x.start + x.len)
        × (place ≤ x.start)
        × (x.start + x.len ≤ place + (f.len + bytes_in fes)))
      same (omega arith, omega arith, omega arith)
tile_at (f ∷ fes) place (suc i) fe (s, n, t) e =
    let (a, b, c) = tile_at fes (place + f.len) i fe t e in (a, omega arith, omega arith)

-- A later file starts behind an earlier one, and the next one at once.
pub tile_before :
    (fes : List FileEntry) (place i j : ℕ) (fe fe' : FileEntry)
    → Tiles fes place
    → i < j
    → get_elem? fes i ≡ some fe
    → get_elem? fes j ≡ some fe'
    → fe.start + fe.len ≤ fe'.start
tile_before [] place i j fe fe' t h e e' = absurd (cc e)
tile_before (f ∷ fes) place i zero fe fe' t h e e' = absurd (omega arith)
tile_before (f ∷ fes) place zero (suc j) fe fe' (s, n, t) h e e' =
    let same : f ≡ fe = cc e in
    subst (λ x. x.start + x.len ≤ fe'.start) same
      (omega (arith, (tile_at fes (place + f.len) j fe' t e').1))
tile_before (f ∷ fes) place (suc i) (suc j) fe fe' (s, n, t) h e e' =
    tile_before fes (place + f.len) i j fe fe' t (omega arith) e e'

pub tile_next :
    (fes : List FileEntry) (place i : ℕ) (fe fe' : FileEntry)
    → Tiles fes place
    → get_elem? fes i ≡ some fe
    → get_elem? fes (suc i) ≡ some fe'
    → fe'.start ≡ fe.start + fe.len
tile_next [] place i fe fe' t e e' = absurd (cc e)
tile_next (f ∷ []) place zero fe fe' (s, n, t) e e' = absurd (cc e')
tile_next (f ∷ f' ∷ fes) place zero fe fe' (s, n, t) e e' =
    let same : f ≡ fe = cc e in
    let same' : f' ≡ fe' = cc e' in
    subst (λ x. fe'.start ≡ x.start + x.len) same
      (subst (λ x. x.start ≡ f.start + f.len) same' (omega (arith, t.0)))
tile_next (f ∷ fes) place (suc i) fe fe' (s, n, t) e e' =
    tile_next fes (place + f.len) i fe fe' t e e'

pub find_file_lem :
    (fes : List FileEntry) (i from place : ℕ)
    → Tiles fes from
    → from ≤ place
    → place < from + bytes_in fes
    → (k : ℕ) × (fe : FileEntry) × (find_file i fes place ≡ some (i + k, fe))
      × (get_elem? fes k ≡ some fe)
      × (fe.start ≤ place)
      × (place ≤ fe.end)
unfolding find_file bytes_in
find_file_lem [] i from place t lo hi = absurd (omega arith)
find_file_lem (f ∷ fes) i from place (s, n, t) lo hi = elim (Bool-cases (includes f place)) [
  | inl e ↦ (0, f, rw e (ap (λ k. some (k, f)) (omega arith)), refl, omega arith, ground (arith, e))
  | inr e ↦
      let beyond : f.start + f.len ≤ place = ground (arith, e, s, n) in
      let (k, fe, found, at, a, b) =
        find_file_lem fes (suc i) (from + f.len) place t (omega arith) (omega arith) in
      (suc k, fe, rw e (found ∙ ap (λ k. some (k, fe)) (omega arith)), at, a, b)
]

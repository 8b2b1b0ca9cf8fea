-- ===== src/PieceList/Union.antt =====
-- `insert` described by structural recursion, without indices.
use learntorrent.Base.{
  tests, inr, inl, Bool-cases, ℕ, ◌+◌, ◌^◌, ◌≤◌, ◌<◌, ◌≡◌, refl, ◌||◌, [], ◌∷◌, ltb, ◌==◌,
  if◌then◌else◌, arith,
}
use learntorrent.PieceList.{PieceList}
use learntorrent.PieceList.Spec.{in_block, covers, IsCanonicalFrom, weaken}

-- A block put in front of the others, joined to the first of them if it touches it.
unfoldable pub merge_next : ℕ → ℕ → PieceList → PieceList
merge_next s e [] = (s, e) ∷ []
merge_next s e ((s', e') ∷ blocks) =
    if e + 1 == s' then (s, e') ∷ blocks else (s, e) ∷ (s', e') ∷ blocks

unfoldable pub with_piece : ℕ → PieceList → PieceList
unfolding merge_next
with_piece pid [] = (pid, pid) ∷ []
with_piece pid ((s, e) ∷ blocks) =
    if in_block (s, e) pid
    then (s, e) ∷ blocks
    else if ltb pid s
    then merge_next pid pid ((s, e) ∷ blocks)
    else if e + 1 == pid
    then merge_next s pid blocks
    else (s, e) ∷ with_piece pid blocks

merge_next-canonical :
    (lo s e : ℕ) (blocks : PieceList)
    → lo ≤ s
    → s ≤ e
    → e < 2 ^ 32
    → IsCanonicalFrom (e + 1) blocks
    → IsCanonicalFrom lo (merge_next s e blocks)
unfolding merge_next
merge_next-canonical lo s e [] h1 h2 h3 c = (h1, h2, h3, tt)
merge_next-canonical lo s e ((s', e') ∷ blocks) h1 h2 h3 c = elim (Bool-cases (e + 1 == s')) [
  | inl eq ↦ rw eq (h1, omega arith, c.2, c.3)
  | inr ne ↦ rw ne (h1, h2, h3, (ground arith, c.1, c.2, c.3))
]

merge_next-covers :
    (s e q : ℕ) (blocks : PieceList)
    → s ≤ e
    → IsCanonicalFrom (e + 1) blocks
    → covers (merge_next s e blocks) q ≡ (in_block (s, e) q || covers blocks q)
unfolding merge_next
merge_next-covers s e q [] h c = refl
merge_next-covers s e q ((s', e') ∷ blocks) h c = ground arith

pub with_piece-canonical :
    (lo pid : ℕ) (blocks : PieceList)
    → lo ≤ pid
    → pid < 2 ^ 32
    → IsCanonicalFrom lo blocks
    → IsCanonicalFrom lo (with_piece pid blocks)
unfolding with_piece
with_piece-canonical lo pid [] h hp c = (h, omega arith, hp, tt)
with_piece-canonical lo pid ((s, e) ∷ blocks) h hp c = elim (Bool-cases (in_block (s, e) pid)) [
  | inl inside ↦ rw inside c
  | inr outside ↦ elim (Bool-cases (ltb pid s)) [
    | inl before ↦
        rw (outside, before)
          (merge_next-canonical lo pid pid ((s, e) ∷ blocks) h (omega arith) hp
            (omega tests, c.1, c.2, c.3))
    | inr after ↦ elim (Bool-cases (e + 1 == pid)) [
      | inl touches ↦
          rw (outside, after, touches)
            (merge_next-canonical lo s pid blocks c.0 (omega (tests, c.1)) hp
              (weaken (pid + 1) (e + 2) blocks (omega tests) c.3))
      | inr apart ↦
          rw (outside, after, apart)
            (c.0, c.1, c.2, with_piece-canonical (e + 2) pid blocks (ground arith) hp c.3)
    ]
  ]
]

-- The set of pieces grows by the one inserted.
pub with_piece-covers :
    (lo pid q : ℕ) (blocks : PieceList)
    → IsCanonicalFrom lo blocks
    → covers (with_piece pid blocks) q ≡ ((pid == q) || covers blocks q)
unfolding with_piece
with_piece-covers lo pid q [] c = ground arith
with_piece-covers lo pid q ((s, e) ∷ blocks) c = elim (Bool-cases (in_block (s, e) pid)) [
  | inl inside ↦ rw inside (ground arith)
  | inr outside ↦ elim (Bool-cases (ltb pid s)) [
    | inl before ↦
        rw (outside, before)
          (ground (
            arith,
            merge_next-covers pid pid q ((s, e) ∷ blocks) (omega arith)
                (omega tests, c.1, c.2, c.3),
          ))
    | inr after ↦ elim (Bool-cases (e + 1 == pid)) [
      | inl touches ↦
          rw (outside, after, touches)
            (ground (
              arith,
              merge_next-covers s pid q blocks (omega (tests, c.1))
                  (weaken (pid + 1) (e + 2) blocks (omega tests) c.3),
            ))
      | inr apart ↦
          rw (outside, after, apart) (ground (arith, with_piece-covers (e + 2) pid q blocks c.3))
    ]
  ]
]

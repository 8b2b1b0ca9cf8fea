-- ===== src/PieceList/Size.antt =====
-- The number of pieces in a canonical list.
use learntorrent.Base.{
  ℕ, ◌+◌, ◌-◌, ◌≤◌, ◌<◌, ◌≡◌, refl, true, false, [], ◌∷◌, ltb, ◌==◌, arith, Bool-cases, inl, inr,
}
use learntorrent.PieceList.{PieceList}
use learntorrent.PieceList.Spec.{covers, covers_below, IsCanonicalFrom, weaken, size, in_block}
use learntorrent.PieceList.Find.{IsBelow}
use learntorrent.PieceList.Union.{merge_next, with_piece}

-- Blocks that cover only pieces below `n` end below `n`.
pub IsBelow-covers :
    (lo n : ℕ) (blocks : PieceList)
    → IsCanonicalFrom lo blocks
    → ((p : ℕ) → covers blocks p ≡ true → p < n)
    → IsBelow n blocks
IsBelow-covers lo n [] c h = tt
IsBelow-covers lo n ((s, e) ∷ blocks) c h =
    (h e (ground (arith, c)), IsBelow-covers (e + 2) n blocks c.3 (λ p m. h p (ground (arith, m))))

merge_next-size :
    (s e : ℕ) (blocks : PieceList)
    → s ≤ e
    → IsCanonicalFrom (e + 1) blocks
    → size (merge_next s e blocks) ≡ (e + 1 - s) + size blocks
unfolding merge_next
merge_next-size s e [] h c = refl
merge_next-size s e ((s', e') ∷ blocks) h c = ground arith

pub with_piece-size :
    (lo pid : ℕ) (blocks : PieceList)
    → IsCanonicalFrom lo blocks
    → covers blocks pid ≡ false
    → size (with_piece pid blocks) ≡ size blocks + 1
unfolding with_piece
with_piece-size lo pid [] c h = omega arith
with_piece-size lo pid ((s, e) ∷ blocks) c h = elim (Bool-cases (in_block (s, e) pid)) [
  | inl inside ↦ absurd (cc (rw inside at h))
  | inr outside ↦ elim (Bool-cases (ltb pid s)) [
    | inl before ↦
        rw (outside, before)
          (ground (
            arith,
            before,
            merge_next-size pid pid ((s, e) ∷ blocks) (omega arith)
                (ground (arith, before), c.1, c.2, c.3),
          ))
    | inr after ↦ elim (Bool-cases (e + 1 == pid)) [
      | inl touches ↦
          rw (outside, after, touches)
            (ground (
              arith,
              touches,
              c,
              merge_next-size s pid blocks (ground (arith, touches, c))
                  (weaken (pid + 1) (e + 2) blocks (ground (arith, touches)) c.3),
            ))
      | inr apart ↦
          rw (outside, after, apart)
            (omega (arith, with_piece-size (e + 2) pid blocks c.3 (rw outside at h)))
    ]
  ]
]

pub size_le :
    (lo n : ℕ) (blocks : PieceList)
    → IsCanonicalFrom lo blocks
    → IsBelow n blocks
    → size blocks ≤ n - lo
size_le lo n [] c b = omega arith
size_le lo n ((s, e) ∷ blocks) c b = omega (arith, size_le (e + 2) n blocks c.3 b.1, c, b)

-- A list below `n` with as many pieces as there are from `lo` to `n` has all of them.
pub size_full :
    (lo n q : ℕ) (blocks : PieceList)
    → IsCanonicalFrom lo blocks
    → IsBelow n blocks
    → size blocks ≡ n - lo
    → lo ≤ q
    → q < n
    → covers blocks q ≡ true
size_full lo n q [] c b full l h = absurd (omega (arith, full))
size_full lo n q ((s, e) ∷ blocks) c b full l h =
    ground (arith, size_le (e + 2) n blocks c.3 b.1, c, b, full)

-- And the other way round.
pub size_all :
    (lo n : ℕ) (blocks : PieceList)
    → lo ≤ n
    → IsCanonicalFrom lo blocks
    → IsBelow n blocks
    → ((q : ℕ) → lo ≤ q → q < n → covers blocks q ≡ true)
    → size blocks ≡ n - lo
size_all lo n [] le c b all = ground (arith, all lo)
size_all lo n ((s, e) ∷ blocks) le c b all = ground (
  arith,
  c,
  b,
  size_le (e + 2) n blocks c.3 b.1,
  all lo,
  all (e + 1),
  covers_below (e + 2) blocks lo c.3,
  covers_below (e + 2) blocks (e + 1) c.3,
)

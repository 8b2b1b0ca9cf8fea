-- ===== src/PieceList/Insert.antt =====
-- `PieceList::insert` and `compact`, with their indices, against `with_piece`.
use learntorrent.Base.{
  ◌||◌, ltb→lt, ℕ, ◌+◌, ◌^◌, ◌<◌, ◌≡◌, refl, ap, [], ◌∷◌, ◌++◌, ltb, ◌==◌, if◌then◌else◌, arith,
  length, length-append, insert_at-append_right, true, false, append_assoc, Bool-cases, inl, inr,
  leb, ◌&&◌,
}
use learntorrent.Base.Outcome.{ok, ◌>>=◌}
use learntorrent.PieceList.{PieceList, compact, insert_loop, insert}
use learntorrent.PieceList.Spec.{covers, IsCanonicalFrom, IsCanonical, canonical_ext}
use learntorrent.PieceList.Union.{merge_next, with_piece, with_piece-canonical, with_piece-covers}
use learntorrent.PieceList.Compact.{compact_first, compact_last, compact_middle}

with_piece_past :
    (s e pid : ℕ) (rest : PieceList)
    → leb s pid && leb pid e ≡ false
    → ltb pid s ≡ false
    → with_piece pid ((s, e) ∷ rest)
      ≡ (if e + 1 == pid then merge_next s pid rest else (s, e) ∷ with_piece pid rest)
unfolding with_piece
with_piece_past s e pid rest outside after = rw (outside, after)

-- The loop, past a block `(hs, he)` that ends before `pid`.
insert_loop_lem :
    (before : PieceList) (hs he pid : ℕ) (rest : PieceList)
    → he < pid
    → pid < 2 ^ 32
    → IsCanonicalFrom (he + 2) rest
    → insert_loop (before ++ (hs, he) ∷ rest) pid rest (length before + 1)
      ≡ ok (
          before
          ++ (if he + 1 == pid then merge_next hs pid rest else (hs, he) ∷ with_piece pid rest))
unfolding insert_loop
insert_loop_lem before hs he pid [] h hp c =
    rw (append_assoc before ((hs, he) ∷ []) ((pid, pid) ∷ []))
      (unfold with_piece in compact_last before hs he pid h hp)
insert_loop_lem before hs he pid ((s, e) ∷ rest) h hp c =
    elim (Bool-cases (leb s pid && leb pid e)) [
      | inl inside ↦ rw inside (unfold with_piece in rw (apart inside, inside))
      | inr outside ↦ elim (Bool-cases (ltb pid s)) [
        | inl first ↦
            rw (outside, first)
              (rw (insert_at-append_right before ((hs, he) ∷ (s, e) ∷ rest) 1 (pid, pid)) (
                unfold with_piece in
                rw (outside, first)
                  (compact_middle before hs he pid s e rest h (ltb→lt _ _ first)
                    (omega (arith, c)))))
        | inr after ↦
            rw (outside, after)
              (rw (further outside after, with_piece_past s e pid rest outside after)
                (rw
                  (
                    append_assoc before ((hs, he) ∷ []) ((s, e) ∷ rest),
                    length-append before ((hs, he) ∷ []),
                    append_assoc before ((hs, he) ∷ []) _,
                  )
                  at
                  (insert_loop_lem (before ++ (hs, he) ∷ []) s e pid rest (ground arith) hp c.3)))
      ]
    ]
  where
    apart : leb s pid && leb pid e ≡ true → (he + 1 == pid) ≡ false
    apart i = ground (arith, c)

    further : leb s pid && leb pid e ≡ false → ltb pid s ≡ false → (he + 1 == pid) ≡ false
    further o a = ground (arith, c)

-- On a canonical list and a piece below 2 ^ 32, `insert` never indexes out of bounds, and its
-- result is that of the recursive union with one piece.
pub insert-with_piece :
    (blocks : PieceList) (pid : ℕ)
    → IsCanonical blocks
    → pid < 2 ^ 32
    → insert blocks pid ≡ ok (with_piece pid blocks)
unfolding insert
insert-with_piece [] pid c hp = unfold insert_loop with_piece compact in refl
insert-with_piece ((s, e) ∷ rest) pid c hp = elim (Bool-cases (leb s pid && leb pid e)) [
  | inl inside ↦ unfold insert_loop with_piece in rw inside
  | inr outside ↦ elim (Bool-cases (ltb pid s)) [
    | inl first ↦
        unfold insert_loop with_piece in
        rw (outside, first) (compact_first pid s e rest (ltb→lt _ _ first) (omega (arith, c)))
    | inr after ↦ rw (with_piece_past s e pid rest outside after) (
        unfold insert_loop in
        rw (outside, after) (insert_loop_lem [] s e pid rest (ground arith) hp c.3))
  ]
]

-- Inserting a piece below 2 ^ 32 into a canonical list succeeds; the result is canonical, and it
-- covers the pieces that the list covered and the one inserted.
pub insert_lem :
    (blocks : PieceList) (pid : ℕ)
    → IsCanonical blocks
    → pid < 2 ^ 32
    → (blocks' : PieceList) × (insert blocks pid ≡ ok blocks')
      × IsCanonical blocks'
      × ((q : ℕ) → covers blocks' q ≡ ((pid == q) || covers blocks q))
insert_lem blocks pid c hp = (
  with_piece pid blocks,
  insert-with_piece blocks pid c hp,
  with_piece-canonical 0 pid blocks (omega arith) hp c,
  λ q. with_piece-covers 0 pid q blocks c,
)

-- On a canonical list the order in which two pieces below 2 ^ 32 are inserted does not show in the
-- result.
pub insert_comm :
    (blocks : PieceList) (p q : ℕ)
    → IsCanonical blocks
    → p < 2 ^ 32
    → q < 2 ^ 32
    → (insert blocks p >>= λ b. insert b q) ≡ (insert blocks q >>= λ b. insert b p)
insert_comm blocks p q c hp hq =
    rw (insert-with_piece blocks p c hp, insert-with_piece blocks q c hq)
      (rw (insert-with_piece _ q cp hq, insert-with_piece _ p cq hp)
        (ap ok (
          canonical_ext 0 _ _ (with_piece-canonical 0 q _ (omega arith) hq cp)
            (with_piece-canonical 0 p _ (omega arith) hp cq) same)))
  where
    cp : IsCanonical (with_piece p blocks)
    cp = with_piece-canonical 0 p blocks (omega arith) hp c

    cq : IsCanonical (with_piece q blocks)
    cq = with_piece-canonical 0 q blocks (omega arith) hq c

    same :
        (r : ℕ)
        → covers (with_piece q (with_piece p blocks)) r
          ≡ covers (with_piece p (with_piece q blocks)) r
    same r = ground (
      arith,
      with_piece-covers 0 q r _ cp,
      with_piece-covers 0 p r _ cq,
      with_piece-covers 0 p r _ c,
      with_piece-covers 0 q r _ c,
    )

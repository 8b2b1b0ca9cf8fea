-- ===== src/PieceList/Compact.antt =====
-- `PieceList::compact` on each of its branches, against `merge_next`.
use learntorrent.Base.{
  suc, ℕ, ◌+◌, ◌-◌, ◌^◌, ◌<◌, ◌≡◌, ap, [], ◌∷◌, ◌++◌, ◌==◌, if◌then◌else◌, arith, length, get_elem?,
  set, remove, length-append, get_elem?-append_right, set-append_right, remove-append_right, true,
  false, Bool-cases, inl, inr,
}
use learntorrent.Base.Words.{sub32}
use learntorrent.Base.Outcome.{ok}
use learntorrent.PieceList.{Block, PieceList, compact, join_last, join_middle}
use learntorrent.PieceList.Union.{merge_next}

-- `compact` at the first of several blocks,
pub compact_first :
    (pid s e : ℕ) (blocks : PieceList)
    → pid < s
    → s < 2 ^ 32
    → compact ((pid, pid) ∷ (s, e) ∷ blocks) 0 ≡ ok (merge_next pid pid ((s, e) ∷ blocks))
unfolding compact merge_next
compact_first pid s e blocks h hs = ground arith

-- Indices into `before ++ ys`, as the source computes them from the index of the second of `ys`.
module _ (before ys : PieceList) where
  at_head : get_elem? (before ++ ys) (length before + 1 - 1) ≡ get_elem? ys 0
  at_head = rw (back_one (length before)) (get_elem?-append_right before ys 0)
    where
      back_one : (n : ℕ) → n + 1 - 1 ≡ n + 0
      back_one n = omega arith

  at_tail : get_elem? (before ++ ys) (length before + 1 + 1) ≡ get_elem? ys 2
  at_tail = rw (on_one (length before)) (get_elem?-append_right before ys 2)
    where
      on_one : (n : ℕ) → n + 1 + 1 ≡ n + 2
      on_one n = omega arith

  set_head : (v : Block) → set (before ++ ys) (length before + 1 - 1) v ≡ before ++ set ys 0 v
  set_head v = rw (back_one (length before)) (set-append_right before ys 0 v)
    where
      back_one : (n : ℕ) → n + 1 - 1 ≡ n + 0
      back_one n = omega arith

  remove_tail : remove (before ++ ys) (length before + 1 + 1) ≡ before ++ remove ys 2
  remove_tail = rw (on_one (length before)) (remove-append_right before ys 2)
    where
      on_one : (n : ℕ) → n + 1 + 1 ≡ n + 2
      on_one n = omega arith

pub touches : (he pid : ℕ) → he < pid → pid < 2 ^ 32 → (he == sub32 pid 1) ≡ (he + 1 == pid)
touches he pid h hp = ground arith

join_last_lem :
    (before : PieceList) (hs he pid : ℕ)
    → he < pid
    → pid < 2 ^ 32
    → join_last (before ++ (hs, he) ∷ (pid, pid) ∷ []) (length before + 1) (hs, he) (pid, pid)
      ≡ before ++ (if he + 1 == pid then (hs, pid) ∷ [] else (hs, he) ∷ (pid, pid) ∷ [])
unfolding join_last
join_last_lem before hs he pid h hp = elim (Bool-cases (he + 1 == pid)) [
  | inl e ↦
      rw (touches he pid h hp, e, set_head before ((hs, he) ∷ (pid, pid) ∷ []) (hs, pid))
        (remove-append_right before ((hs, pid) ∷ (pid, pid) ∷ []) 1)
  | inr e ↦ rw (touches he pid h hp, e)
]

-- at the last one,
pub compact_last :
    (before : PieceList) (hs he pid : ℕ)
    → he < pid
    → pid < 2 ^ 32
    → compact (before ++ (hs, he) ∷ (pid, pid) ∷ []) (length before + 1)
      ≡ ok (before ++ (if he + 1 == pid then (hs, pid) ∷ [] else (hs, he) ∷ (pid, pid) ∷ []))
unfolding compact
compact_last before hs he pid h hp =
    let ys : PieceList = (hs, he) ∷ (pid, pid) ∷ [] in
    let len : length (before ++ ys) ≡ length before + 2 = length-append before ys in
    rw (len, several (length before), not_first (length before), is_last (length before))
      (rw (at_head before ys, get_elem?-append_right before ys 1)
        (ap ok (join_last_lem before hs he pid h hp)))
  where
    several : (n : ℕ) → (n + 2 == 1) ≡ false
    several n = ground arith

    not_first : (n : ℕ) → (n + 1 == 0) ≡ false
    not_first n = ground arith

    is_last : (n : ℕ) → (n + 1 == n + 2 - 1) ≡ true
    is_last n = ground arith

join_middle_lem :
    (before : PieceList) (hs he pid s e : ℕ) (blocks : PieceList)
    → he < pid
    → pid < s
    → s < 2 ^ 32
    → join_middle
        (before ++ (hs, he) ∷ (pid, pid) ∷ (s, e) ∷ blocks)
        (length before + 1)
        (hs, he)
        (pid, pid)
        (s, e)
      ≡ before
        ++ (if he + 1 == pid
            then merge_next hs pid ((s, e) ∷ blocks)
            else (hs, he) ∷ merge_next pid pid ((s, e) ∷ blocks))
unfolding join_middle merge_next
join_middle_lem before hs he pid s e blocks h h' hs' =
    rw (touches he pid h (omega arith), touches pid s h' hs')
      (elim (Bool-cases (he + 1 == pid)) [
        | inl a ↦ elim (Bool-cases (pid + 1 == s)) [
          | inl b ↦
              rw (a, b)
                (rw (set_head before ys (hs, e))
                  (rw (remove_tail before _) (remove-append_right before _ 1)))
          | inr b ↦ rw (a, b) (rw (set_head before ys (hs, pid)) (remove-append_right before _ 1))
        ]
        | inr a ↦ elim (Bool-cases (pid + 1 == s)) [
          | inl b ↦ rw (a, b) (rw (set-append_right before ys 1 (pid, e)) (remove_tail before _))
          | inr b ↦ rw (a, b)
        ]
      ])
  where
    ys : PieceList
    ys = (hs, he) ∷ (pid, pid) ∷ (s, e) ∷ blocks

-- and at one in the middle.
pub compact_middle :
    (before : PieceList) (hs he pid s e : ℕ) (blocks : PieceList)
    → he < pid
    → pid < s
    → s < 2 ^ 32
    → compact (before ++ (hs, he) ∷ (pid, pid) ∷ (s, e) ∷ blocks) (length before + 1)
      ≡ ok (
          before
          ++ (if he + 1 == pid
              then merge_next hs pid ((s, e) ∷ blocks)
              else (hs, he) ∷ merge_next pid pid ((s, e) ∷ blocks)))
unfolding compact
compact_middle before hs he pid s e blocks h h' hs' =
    let ys : PieceList = (hs, he) ∷ (pid, pid) ∷ (s, e) ∷ blocks in
    let len : length (before ++ ys) ≡ length before + suc (suc (suc (length blocks))) =
      length-append before ys in
    rw
      (
        len,
        several (length before) (length blocks),
        not_first (length before),
        not_last (length before) (length blocks),
      )
      (rw (at_head before ys, get_elem?-append_right before ys 1, at_tail before ys)
        (ap ok (join_middle_lem before hs he pid s e blocks h h' hs')))
  where
    several : (n m : ℕ) → (n + suc (suc (suc m)) == 1) ≡ false
    several n m = ground arith

    not_first : (n : ℕ) → (n + 1 == 0) ≡ false
    not_first n = ground arith

    not_last : (n m : ℕ) → (n + 1 == n + suc (suc (suc m)) - 1) ≡ false
    not_last n m = ground arith

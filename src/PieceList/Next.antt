-- ===== src/PieceList/Next.antt =====
-- `PieceList::next` and `split_block_at`, in terms of the pieces that a list covers.
use learntorrent.Base.{
  insert_at-append_at, set-append_at, remove-append_at, get_elem?-append_at, subst, ℕ, ◌+◌, ◌-◌,
  ◌*◌, ◌≤◌, ◌≡◌, ap, true, false, not, ◌&&◌, none, some, [], ◌∷◌, ◌++◌, ◌==◌, if◌then◌else◌, arith,
  length, inl, inr, Bool-cases, Option, ◌∙◌, sym,
}
use learntorrent.Base.Outcome.{ok}
use learntorrent.BitField.{BitField, Panics}
use native.Mathlib.Nat.{zero-add}
use learntorrent.BitField.Laws.{bit}
use learntorrent.PieceList.{PieceList, find_block, split_block_at, take_found, next}
use learntorrent.PieceList.Spec.{
  covers-append, weaken, covers, covers_below, IsCanonicalFrom, IsCanonical,
}
use learntorrent.PieceList.Find.{IsBelow, Unavailable, find_block_lem}

-- What `split_block` leaves of a block without the piece `p`, before the blocks after it.
abbrev cut : ℕ → ℕ → ℕ → PieceList → PieceList
cut s e p after =
    if p == s
    then (if s == e then after else (s + 1, e) ∷ after)
    else if p == e
    then (s, e - 1) ∷ after
    else (s, p - 1) ∷ (p + 1, e) ∷ after

split_block_at_lem :
    (before : PieceList) (s e p : ℕ) (after : PieceList)
    → split_block_at (before ++ (s, e) ∷ after) (length before) p ≡ ok (before ++ cut s e p after)
unfolding split_block_at
split_block_at_lem before s e p after =
    let blocks : PieceList = (s, e) ∷ after in
    rw (get_elem?-append_at before blocks) (
      ap ok (elim (Bool-cases (p == s)) [
        | inl first ↦ elim (Bool-cases (s == e)) [
          | inl only ↦ rw (first, only) (remove-append_at before blocks)
          | inr more ↦ rw (first, more) (set-append_at before blocks (s + 1, e))
        ]
        | inr other ↦ elim (Bool-cases (p == e)) [
          | inl last ↦ rw (other, last) (set-append_at before blocks (s, e - 1))
          | inr inner ↦
              rw (other, inner)
                (rw (set-append_at before blocks (p + 1, e))
                  (insert_at-append_at before ((p + 1, e) ∷ after) (s, p - 1)))
        ]
      ]))

cut-canonical :
    (lo s e p : ℕ) (before after : PieceList)
    → s ≤ p
    → p ≤ e
    → IsCanonicalFrom lo (before ++ (s, e) ∷ after)
    → IsCanonicalFrom lo (before ++ cut s e p after)
cut-canonical lo s e p [] after h h' c = elim (Bool-cases (p == s)) [
  | inl first ↦ elim (Bool-cases (s == e)) [
    | inl only ↦ rw (first, only) (weaken lo (e + 2) after (omega (arith, c)) c.3)
    | inr more ↦ rw (first, more) (omega (arith, c), ground (arith, c), c.2, c.3)
  ]
  | inr other ↦ elim (Bool-cases (p == e)) [
    | inl last ↦
        rw (other, last)
          (
            c.0,
            ground (arith, c),
            omega (arith, c),
            weaken (e - 1 + 2) (e + 2) after (omega arith) c.3,
          )
    | inr inner ↦
        rw (other, inner)
          (
            c.0,
            ground (arith, c),
            omega (arith, c),
            (ground (arith, other), ground (arith, c), c.2, c.3),
          )
  ]
]
cut-canonical lo s e p ((s', e') ∷ before) after h h' c =
    (c.0, c.1, c.2, cut-canonical (e' + 2) s e p before after h h' c.3)

starts_above :
    (lo s e : ℕ) (before after : PieceList) → IsCanonicalFrom lo (before ++ (s, e) ∷ after) → lo ≤ s
starts_above lo s e [] after c = c.0
starts_above lo s e ((s', e') ∷ before) after c =
    omega (arith, starts_above (e' + 2) s e before after c.3, c.0, c.1)

cut-covers :
    (lo s e p q : ℕ) (before after : PieceList)
    → s ≤ p
    → p ≤ e
    → IsCanonicalFrom lo (before ++ (s, e) ∷ after)
    → covers (before ++ cut s e p after) q ≡ (not (q == p) && covers (before ++ (s, e) ∷ after) q)
cut-covers lo s e p q [] after h h' c = elim (Bool-cases (p == s)) [
  | inl first ↦ elim (Bool-cases (s == e)) [
    | inl only ↦ rw (first, only) (ground (arith, covers_below (e + 2) after q c.3))
    | inr more ↦ rw (first, more) (ground (arith, covers_below (e + 2) after q c.3))
  ]
  | inr other ↦ elim (Bool-cases (p == e)) [
    | inl last ↦ rw (other, last) (ground (arith, covers_below (e + 2) after q c.3))
    | inr inner ↦ rw (other, inner) (ground (arith, covers_below (e + 2) after q c.3))
  ]
]
cut-covers lo s e p q ((s', e') ∷ before) after h h' c = ground (
  arith,
  starts_above (e' + 2) s e before after c.3,
  cut-covers (e' + 2) s e p q before after h h' c.3,
)

covers_at :
    (s e p : ℕ) (before after : PieceList)
    → s ≤ p
    → p ≤ e
    → covers (before ++ (s, e) ∷ after) p ≡ true
covers_at s e p before after h h' = rw (covers-append before ((s, e) ∷ after) p) (ground arith)

next_step :
    (blocks : PieceList) (available : BitField) (p : ℕ) (before : PieceList) (s e : ℕ)
    (after : PieceList)
    → find_block available blocks 0 ≡ ok (some (0 + length before, p))
    → blocks ≡ before ++ (s, e) ∷ after
    → next blocks available ≡ ok (some p, before ++ cut s e p after)
unfolding next take_found
next_step blocks available p before s e after finds parts =
    rw finds (rw (parts, zero-add) (rw (split_block_at_lem before s e p after)))

-- The result of `next` on a canonical list whose pieces all have a bit in the peer's bit field.
-- Either no piece of the list is available, and the list stays as it is; or `next` answers the least
-- piece of the list that is available, and the list loses that piece and stays canonical.
pub data Picked (blocks : PieceList) (available : BitField)
    : Panics (Option ℕ × PieceList) → Type 0 where
  nothing :
      ((q : ℕ) → covers blocks q ≡ true → bit available q ≡ false)
      → Picked blocks available (ok (none, blocks))
  picked :
      (p : ℕ) (blocks' : PieceList)
      → covers blocks p ≡ true
      → bit available p ≡ true
      → Unavailable available blocks p
      → IsCanonical blocks'
      → ((q : ℕ) → covers blocks' q ≡ (not (q == p) && covers blocks q))
      → Picked blocks available (ok (some p, blocks'))

-- On a canonical list whose pieces all have a bit in the bit field, `next` answers none and keeps
-- the list if no piece of the list is available; otherwise it answers the least available piece of
-- the list, and the list loses that piece only and stays canonical.
pub next-Picked :
    (blocks : PieceList) (available : BitField)
    → IsCanonical blocks
    → IsBelow (8 * length available) blocks
    → Picked blocks available (next blocks available)
unfolding next
next-Picked blocks available c b = elim (find_block_lem available 0 0 blocks c b) [
  | inl (e, n) ↦ rw e (nothing (λ q. n (q + 1) q (omega arith)))
  | inr (p, r) ↦
      let c' : IsCanonical (r.before ++ (r.start, r.end) ∷ r.after) = subst IsCanonical r.parts c in
      subst (Picked blocks available)
        (sym (next_step blocks available p r.before r.start r.end r.after r.finds r.parts))
        (picked p _
          (ap (λ t. covers t p) r.parts ∙ covers_at r.start r.end p r.before r.after r.from r.upto)
          r.hit r.least (cut-canonical 0 r.start r.end p r.before r.after r.from r.upto c')
          (λ q.
            cut-covers 0 r.start r.end p q r.before r.after r.from r.upto c'
            ∙ sym (ap (λ t. not (q == p) && covers t q) r.parts)))
]

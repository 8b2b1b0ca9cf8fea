-- ===== src/PieceList/Find.antt =====
-- The search of `PieceList::next`: the first block with an available piece, and that piece.
use learntorrent.Base.{
  leb, ==→eq, subst, ℕ, zero, suc, ◌+◌, ◌-◌, ◌*◌, ◌≤◌, ◌<◌, ◌≡◌, refl, ap, true, false, ◌&&◌, none,
  some, [], ◌∷◌, ◌++◌, ◌==◌, arith, length, ◌⊎◌, inl, inr, Bool-cases, ◌∙◌,
}
use learntorrent.Base.Outcome.{ok}
use learntorrent.BitField.{BitField}
use learntorrent.BitField.Laws.{bit, has_piece-bit}
use learntorrent.PieceList.{PieceList, found, find_in_block, find_block}
use learntorrent.PieceList.Spec.{covers, covers_below, IsCanonicalFrom}

-- Every block ends below `hi`.
abbrev pub IsBelow : ℕ → PieceList → Type 0
IsBelow hi [] = Unit
IsBelow hi ((s, e) ∷ blocks) = (e < hi) × IsBelow hi blocks

-- What a canonical list covers up to the end of its first block lies in that block.
start_below :
    (lo s e q : ℕ) (blocks : PieceList)
    → IsCanonicalFrom lo ((s, e) ∷ blocks)
    → q ≤ e
    → covers ((s, e) ∷ blocks) q ≡ true
    → s ≤ q
start_below lo s e q blocks c h m = ground (arith, covers_below (e + 2) blocks q c.3)

module _ (available : BitField) where
  abbrev pub NoneIn : ℕ → ℕ → Type 0
  NoneIn lo hi = (q : ℕ) → lo ≤ q → q < hi → bit available q ≡ false

  find_in_block_lem :
      (rounds p : ℕ)
      → p + rounds ≤ 8 * length available
      → (find_in_block available rounds p ≡ ok none) × NoneIn p (p + rounds)
        ⊎ ((r : ℕ) × (find_in_block available rounds p ≡ ok (some r))
            × (p ≤ r)
            × (r < p + rounds)
            × (bit available r ≡ true)
            × NoneIn p r)
  unfolding find_in_block
  find_in_block_lem zero p h = inl (refl, λ q lo hi. absurd (omega arith))
  find_in_block_lem (suc rounds) p h = elim (Bool-cases (bit available p)) [
    | inl hit ↦ inr (
      p,
      rw (has_piece-bit available p (omega arith), hit),
      omega arith,
      omega arith,
      hit,
      λ q lo hi. absurd (omega arith),
    )
    | inr miss ↦ elim (find_in_block_lem rounds (p + 1) (omega arith)) [
      | inl (e, n) ↦ inl (
        rw (has_piece-bit available p (omega arith), miss) e,
        from_here p miss (p + suc rounds) (λ q lo hi. n q lo (omega arith)),
      )
      | inr (r, e, lo, hi, hit, n) ↦ inr (
        r,
        rw (has_piece-bit available p (omega arith), miss) e,
        omega arith,
        omega arith,
        hit,
        from_here p miss r n,
      )
    ]
  ]
    where
      from_here : (p : ℕ) → bit available p ≡ false → (hi : ℕ) → NoneIn (p + 1) hi → NoneIn p hi
      from_here p miss hi n q lo lt = elim (Bool-cases (p == q)) [
        | inl same ↦ subst (λ t. bit available t ≡ false) (==→eq p q same) miss
        | inr other ↦ n q (ground arith) lt
      ]

  -- No piece of the list below `hi` is available.
  abbrev pub Unavailable : PieceList → ℕ → Type 0
  Unavailable blocks hi = (q : ℕ) → q < hi → covers blocks q ≡ true → bit available q ≡ false

  -- `find_block` found the piece `p` in a block of `blocks`.
  pub record Hit (blocks : PieceList) (i p : ℕ) : Type 0 where
    pub before : PieceList
    pub start : ℕ
    pub end : ℕ
    pub after : PieceList
    pub parts : blocks ≡ before ++ (start, end) ∷ after
    pub finds : find_block available blocks i ≡ ok (some (i + length before, p))
    pub from : start ≤ p
    pub upto : p ≤ end
    pub hit : bit available p ≡ true
    pub least : Unavailable blocks p

  here_or_there :
      (s e q : ℕ) (blocks : PieceList)
      → NoneIn s (s + (e + 1 - s))
      → (covers blocks q ≡ true → bit available q ≡ false)
      → covers ((s, e) ∷ blocks) q ≡ true
      → bit available q ≡ false
  here_or_there s e q blocks n m h = elim (Bool-cases (leb s q && leb q e)) [
    | inl inside ↦ n q (ground (arith, inside)) (ground (arith, inside))
    | inr outside ↦ m (rw outside at h)
  ]

  pub find_block_lem :
      (lo i : ℕ) (blocks : PieceList)
      → IsCanonicalFrom lo blocks
      → IsBelow (8 * length available) blocks
      → (find_block available blocks i ≡ ok none) × ((hi : ℕ) → Unavailable blocks hi)
        ⊎ ((p : ℕ) × Hit blocks i p)
  unfolding find_block found
  find_block_lem lo i [] c b = inl (refl, λ hi q lt h. cc)
  find_block_lem lo i ((s, e) ∷ blocks) c b =
      elim (find_in_block_lem (e + 1 - s) s (omega (arith, c, b))) [
        | inr (p, f, lo', hi', h, n) ↦ inr (
          p,
          record {
            before = [];
            start = s;
            end = e;
            after = blocks;
            parts = refl;
            finds = rw f (ap (λ k. ok (some (k, p))) (omega arith));
            from = lo';
            upto = omega arith;
            hit = h;
            least = λ q lt m. n q (start_below lo s e q blocks c (omega arith) m) lt;
          },
        )
        | inl (f, n) ↦ elim (find_block_lem (e + 2) (i + 1) blocks c.3 b.1) [
          | inl (g, m) ↦ inl (rw f g, λ hi q lt h. here_or_there s e q blocks n (m hi q lt) h)
          | inr (p, r) ↦ inr (
            p,
            record {
              before = (s, e) ∷ r.before;
              start = r.start;
              end = r.end;
              after = r.after;
              parts = ap (λ t. (s, e) ∷ t) r.parts;
              finds = rw f (r.finds ∙ ap (λ k. ok (some (k, p))) (omega arith));
              from = r.from;
              upto = r.upto;
              hit = r.hit;
              least = λ q lt h. here_or_there s e q blocks n (r.least q lt) h;
            },
          )
        ]
      ]

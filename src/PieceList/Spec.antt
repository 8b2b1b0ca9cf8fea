-- ===== src/PieceList/Spec.antt =====
-- The set that a piece list stands for, and the canonical form in which the program keeps it.
use learntorrent.Base.{
  ◌∙◌, sym, ℕ, suc, ◌+◌, ◌-◌, ◌^◌, ◌≤◌, ◌<◌, ◌≡◌, refl, Bool, true, false, ◌&&◌, ◌||◌, Option, none,
  some, [], ◌∷◌, ◌++◌, leb, arith, ◌⊎◌, inl, inr, ap, get_elem?, Bool-cases,
}
use learntorrent.PieceList.{Block, PieceList, contains_from, contains}

abbrev pub in_block : Block → ℕ → Bool
in_block (start, end) q = leb start q && leb q end

abbrev pub covers : PieceList → ℕ → Bool
covers [] q = false
covers (b ∷ blocks) q = in_block b q || covers blocks q

-- Blocks are non-empty, hold `u32`s, ascend, and leave a gap between one another; all start at
-- `lo` or above.
abbrev pub IsCanonicalFrom : ℕ → PieceList → Type 0
IsCanonicalFrom lo [] = Unit
IsCanonicalFrom lo ((start, end) ∷ blocks) =
    (lo ≤ start) × (start ≤ end) × (end < 2 ^ 32) × IsCanonicalFrom (end + 2) blocks

abbrev pub IsCanonical : PieceList → Type 0
IsCanonical blocks = IsCanonicalFrom 0 blocks

pub weaken :
    (lo hi : ℕ) (blocks : PieceList)
    → lo ≤ hi
    → IsCanonicalFrom hi blocks
    → IsCanonicalFrom lo blocks
weaken lo hi [] le c = tt
weaken lo hi (b ∷ blocks) le c = (omega arith, c.1, c.2, c.3)

-- Nothing below the lower bound is covered.
pub covers_below :
    (lo : ℕ) (blocks : PieceList) (q : ℕ)
    → IsCanonicalFrom lo blocks
    → q < lo
    → covers blocks q ≡ false
covers_below lo [] q c h = refl
covers_below lo ((start, end) ∷ blocks) q c h =
    ground (arith, covers_below (end + 2) blocks q c.3 (omega arith))

pub covers-append : (xs ys : PieceList) (q : ℕ) → covers (xs ++ ys) q ≡ (covers xs q || covers ys q)
covers-append [] ys q = refl
covers-append (x ∷ xs) ys q = ground (arith, covers-append xs ys q)

-- The number of pieces in the list.
abbrev pub size : PieceList → ℕ
size [] = 0
size ((start, end) ∷ blocks) = (end + 1 - start) + size blocks

found_index : Option ℕ → Bool
found_index none = false
found_index (some i) = true

contains_from-covers :
    (blocks : PieceList) (q i : ℕ) → found_index (contains_from blocks q i) ≡ covers blocks q
unfolding contains_from found_index
contains_from-covers [] q i = refl
contains_from-covers ((start, end) ∷ blocks) q i =
    ground (arith, contains_from-covers blocks q (i + 1))

-- The outcome of a search: the index found, with the block there, or no block covers the piece.
abbrev pub Search : PieceList → ℕ → ℕ → Option ℕ → Type 0
Search blocks q i r =
    (r ≡ none) × (covers blocks q ≡ false)
    ⊎ ((j : ℕ) × (b : Block) × (r ≡ some (i + j))
        × (get_elem? blocks j ≡ some b)
        × (in_block b q ≡ true)
        × (covers blocks q ≡ true))

contains_from-Search : (blocks : PieceList) (q i : ℕ) → Search blocks q i (contains_from blocks q i)
unfolding contains_from
contains_from-Search [] q i = inl (refl, refl)
contains_from-Search ((start, end) ∷ blocks) q i = elim (Bool-cases (leb start q && leb q end)) [
  | inl e ↦ inr (0, (start, end), rw e (ap some (omega arith)), refl, e, rw e)
  | inr e ↦ elim (contains_from-Search blocks q (i + 1)) [
    | inl (r, c) ↦ inl (rw e r, rw e c)
    | inr (j, b, r, g, m, c) ↦ inr (suc j, b, rw e (r ∙ ap some (omega arith)), g, m, rw e c)
  ]
]

-- `contains` answers none exactly if no block covers the piece; otherwise it answers the index of
-- a block, and that block covers the piece.
pub contains_lem : (blocks : PieceList) (q : ℕ) → Search blocks q 0 (contains blocks q)
unfolding contains
contains_lem blocks q = contains_from-Search blocks q 0

-- A list cannot cover the start of a block that begins below all of its own.
same_start :
    (s e s' e' lo : ℕ) (xs ys : PieceList)
    → IsCanonicalFrom lo ((s, e) ∷ xs)
    → IsCanonicalFrom lo ((s', e') ∷ ys)
    → ((q : ℕ) → covers ((s, e) ∷ xs) q ≡ covers ((s', e') ∷ ys) q)
    → s' ≤ s
same_start s e s' e' lo xs ys cx cy h = ground (arith, h s, covers_below (e' + 2) ys s cy.3)

same_end :
    (s e s' e' lo : ℕ) (xs ys : PieceList)
    → s ≡ s'
    → IsCanonicalFrom lo ((s, e) ∷ xs)
    → IsCanonicalFrom lo ((s', e') ∷ ys)
    → ((q : ℕ) → covers ((s, e) ∷ xs) q ≡ covers ((s', e') ∷ ys) q)
    → e' ≤ e
same_end s e s' e' lo xs ys p cx cy h =
    ground (arith, h (e + 1), covers_below (e + 2) xs (e + 1) cx.3)

same_tail :
    (s e s' e' lo : ℕ) (xs ys : PieceList)
    → s ≡ s'
    → e ≡ e'
    → IsCanonicalFrom lo ((s, e) ∷ xs)
    → IsCanonicalFrom lo ((s', e') ∷ ys)
    → ((q : ℕ) → covers ((s, e) ∷ xs) q ≡ covers ((s', e') ∷ ys) q)
    → (q : ℕ) → covers xs q ≡ covers ys q
same_tail s e s' e' lo xs ys p r cx cy h q =
    ground (arith, h q, covers_below (e + 2) xs q cx.3, covers_below (e' + 2) ys q cy.3)

-- Two canonical lists that cover the same pieces are equal.
pub canonical_ext :
    (lo : ℕ) (xs ys : PieceList)
    → IsCanonicalFrom lo xs
    → IsCanonicalFrom lo ys
    → ((q : ℕ) → covers xs q ≡ covers ys q)
    → xs ≡ ys
canonical_ext lo [] [] cx cy h = refl
canonical_ext lo [] ((s, e) ∷ ys) cx cy h = ground (arith, h s)
canonical_ext lo ((s, e) ∷ xs) [] cx cy h = ground (arith, h s)
canonical_ext lo ((s, e) ∷ xs) ((s', e') ∷ ys) cx cy h =
    let flip : (q : ℕ) → covers ((s', e') ∷ ys) q ≡ covers ((s, e) ∷ xs) q = λ q. sym (h q) in
    let same_s : s ≡ s' =
      omega
        (arith, same_start s e s' e' lo xs ys cx cy h, same_start s' e' s e lo ys xs cy cx flip) in
    let same_e : e ≡ e' = omega (
      arith,
      same_end s e s' e' lo xs ys same_s cx cy h,
      same_end s' e' s e lo ys xs (sym same_s) cy cx flip,
    ) in
    let tails =
      canonical_ext (e + 2) xs ys cx.3 (weaken (e + 2) (e' + 2) ys (omega arith) cy.3)
        (same_tail s e s' e' lo xs ys same_s same_e cx cy h) in
    cc

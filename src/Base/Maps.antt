-- ===== src/Base/Maps.antt =====
-- A `HashMap` with number keys as an association list, and the helpers of `Vec<u32>`.
use Prim.Native.Nat.{ℕ, zero, suc, ◌+◌}
use mathlib.Core.Path.{◌≡◌, refl}
use mathlib.Core.Bool.{Bool, true, false, ◌||◌}
use mathlib.Core.Option.{Option, none, some}
use mathlib.Core.List.{List, [], ◌∷◌, ◌++◌}
use native.Mathlib.Omega.{arith}
use Prim.Native.Nat.{◌<◌}
use mathlib.Core.Path.{subst}
use mathlib.Core.Logic.{◌⊎◌, inl, inr}
use learntorrent.Base.Tests.{Bool-cases, ◌==◌, if◌then◌else◌, to_nat}
use learntorrent.Base.Lists.{get_elem?, remove}

module _ {ℓ} {V : Type ℓ} where
  unfoldable pub lookup : ℕ → List (ℕ × V) → Option V
  lookup k [] = none
  lookup k ((j, v) ∷ m) = if j == k then some v else lookup k m

  unfoldable pub insert : ℕ → V → List (ℕ × V) → List (ℕ × V)
  insert k v [] = (k, v) ∷ []
  insert k v ((j, w) ∷ m) = if j == k then (k, v) ∷ m else (j, w) ∷ insert k v m

  unfoldable pub delete : ℕ → List (ℕ × V) → List (ℕ × V)
  delete k [] = []
  delete k ((j, w) ∷ m) = if j == k then delete k m else (j, w) ∷ delete k m

module _ {ℓ κ} {V : Type ℓ} (P : V → Type κ) where
  -- Every value of the map satisfies `P`.
  abbrev pub Values : List (ℕ × V) → Type κ
  Values [] = Unit {κ}
  Values ((k, v) ∷ m) = P v × Values m

  pub insert-Values : (k : ℕ) (v : V) (m : List (ℕ × V)) → P v → Values m → Values (insert k v m)
  unfolding insert
  insert-Values k v [] h a = (h, tt)
  insert-Values k v ((j, w) ∷ m) h a = elim (Bool-cases (j == k)) [
    | inl e ↦ rw e (h, a.1)
    | inr e ↦ rw e (a.0, insert-Values k v m h a.1)
  ]

  pub delete-Values : (k : ℕ) (m : List (ℕ × V)) → Values m → Values (delete k m)
  unfolding delete
  delete-Values k [] a = tt
  delete-Values k ((j, w) ∷ m) a = elim (Bool-cases (j == k)) [
    | inl e ↦ rw e (delete-Values k m a.1)
    | inr e ↦ rw e (a.0, delete-Values k m a.1)
  ]

  same : (w v : V) → some w ≡ some v → w ≡ v
  same w v h = cc

  pub lookup-Values : (k : ℕ) (v : V) (m : List (ℕ × V)) → lookup k m ≡ some v → Values m → P v
  unfolding lookup
  lookup-Values k v [] e a = cc
  lookup-Values k v ((j, w) ∷ m) e a = elim (Bool-cases (j == k)) [
    | inl h ↦ subst P (same w v (rw h at e)) a.0
    | inr h ↦ lookup-Values k v m (rw h at e) a.1
  ]

-- `Vec::contains`.
unfoldable pub has : ℕ → List ℕ → Bool
has x [] = false
has x (y ∷ ys) = y == x || has x ys

-- `iter().position(|&y| y == x)`.
unfoldable pub position : ℕ → List ℕ → Option ℕ
position x [] = none
position x (y ∷ ys) =
    if y == x then some 0 else elim (position x ys) [ some i ↦ some (suc i) | none ↦ none ]

abbrev pub count : ℕ → List ℕ → ℕ
count x [] = 0
count x (y ∷ ys) = to_nat (y == x) + count x ys

pub has-count :
    (x : ℕ) (ys : List ℕ)
    → (has x ys ≡ true) × (0 < count x ys) ⊎ (has x ys ≡ false) × (count x ys ≡ 0)
unfolding has
has-count x [] = inr (refl, refl)
has-count x (y ∷ ys) = elim (has-count x ys) [
  | inl (h, c) ↦ inl (ground (arith, h), omega (arith, c))
  | inr (h, c) ↦ elim (Bool-cases (y == x)) [
    | inl e ↦ inl (ground (arith, e), ground (arith, e))
    | inr e ↦ inr (ground (arith, e, h), ground (arith, e, c))
  ]
]

-- `position` finds an element exactly if there is one; removing it there takes one away.
pub position_lem :
    (x : ℕ) (ys : List ℕ)
    → (position x ys ≡ none) × (count x ys ≡ 0)
      ⊎ ((i : ℕ) × (position x ys ≡ some i)
          × ((q : ℕ) → count q (remove ys i) + to_nat (x == q) ≡ count q ys))
unfolding position
position_lem x [] = inl (refl, refl)
position_lem x (y ∷ ys) = elim (Bool-cases (y == x)) [
  | inl e ↦ inr (0, rw e, λ q. ground (arith, e))
  | inr e ↦ elim (position_lem x ys) [
    | inl (n, c) ↦ inl (rw (e, n), rw e (omega (arith, c)))
    | inr (i, s, c) ↦ inr (suc i, rw (e, s), λ q. omega (arith, c q))
  ]
]

pub count-snoc : (q x : ℕ) (ys : List ℕ) → count q (ys ++ x ∷ []) ≡ count q ys + to_nat (x == q)
count-snoc q x [] = omega arith
count-snoc q x (y ∷ ys) = omega (arith, count-snoc q x ys)

pub count-get_elem? : (x i : ℕ) (ys : List ℕ) → get_elem? ys i ≡ some x → 0 < count x ys
count-get_elem? x i [] h = cc
count-get_elem? x zero (y ∷ ys) h = ground (arith, h)
count-get_elem? x (suc i) (y ∷ ys) h = omega (arith, count-get_elem? x i ys h)

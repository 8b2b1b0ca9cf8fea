-- ===== src/Base/Lists.antt =====
-- Lists measured and indexed by native numbers, under the library's names, and `Vec::remove`
-- and `Vec::insert` of the source's standard library.
use Prim.Native.Nat.{ℕ, zero, suc, ◌+◌, ◌-◌, ◌≤◌, ◌<◌, min}
use mathlib.Core.Path.{◌≡◌, refl, ap}
use mathlib.Core.Logic.{◌≢◌}
use mathlib.Core.List.{List, [], ◌∷◌, ◌++◌}
use mathlib.Core.Option.{Option, none, some}
use native.Mathlib.Omega.{arith}

zero-add : (n : ℕ) → 0 + n ≡ n
zero-add n = omega arith

suc-add : (n m : ℕ) → suc n + m ≡ suc (n + m)
suc-add n m = omega arith

module _ {ℓ} {A : Type ℓ} where
  abbrev pub length : List A → ℕ
  length [] = 0
  length (x ∷ xs) = suc (length xs)

  abbrev pub get_elem? : List A → ℕ → Option A
  get_elem? [] i = none
  get_elem? (x ∷ xs) zero = some x
  get_elem? (x ∷ xs) (suc i) = get_elem? xs i

  -- A write out of bounds changes nothing: every caller reads the index first.
  abbrev pub set : List A → ℕ → A → List A
  set [] i v = []
  set (x ∷ xs) zero v = v ∷ xs
  set (x ∷ xs) (suc i) v = x ∷ set xs i v

  -- `Vec::remove`, its result dropped.
  abbrev pub remove : List A → ℕ → List A
  remove [] i = []
  remove (x ∷ xs) zero = xs
  remove (x ∷ xs) (suc i) = x ∷ remove xs i

  -- `Vec::insert`.
  abbrev pub insert_at : List A → ℕ → A → List A
  insert_at xs zero v = v ∷ xs
  insert_at [] (suc i) v = v ∷ []
  insert_at (x ∷ xs) (suc i) v = x ∷ insert_at xs i v

  abbrev pub get_or : List A → ℕ → A → A
  get_or [] i d = d
  get_or (x ∷ xs) zero d = x
  get_or (x ∷ xs) (suc i) d = get_or xs i d

  abbrev pub take : ℕ → List A → List A
  take zero xs = []
  take (suc n) [] = []
  take (suc n) (x ∷ xs) = x ∷ take n xs

  abbrev pub drop : ℕ → List A → List A
  drop zero xs = xs
  drop (suc n) [] = []
  drop (suc n) (x ∷ xs) = drop n xs

  abbrev pub replicate : ℕ → A → List A
  replicate zero a = []
  replicate (suc n) a = a ∷ replicate n a

  abbrev pub All {κ} : (A → Type κ) → List A → Type κ
  All P [] = Unit {κ}
  All P (x ∷ xs) = P x × All P xs

module _ {ℓ} {A : Type ℓ} where
  pub length-append : (xs ys : List A) → length (xs ++ ys) ≡ length xs + length ys
  length-append [] ys = omega arith
  length-append (x ∷ xs) ys = omega (arith, length-append xs ys)

  pub take-append : (xs ys : List A) → take (length xs) (xs ++ ys) ≡ xs
  take-append [] ys = refl
  take-append (x ∷ xs) ys = ap (λ t. x ∷ t) (take-append xs ys)

  pub drop-append : (xs ys : List A) → drop (length xs) (xs ++ ys) ≡ ys
  drop-append [] ys = refl
  drop-append (x ∷ xs) ys = drop-append xs ys

  pub length-take : (n : ℕ) (xs : List A) → length (take n xs) ≡ min n (length xs)
  length-take zero xs = omega arith
  length-take (suc n) [] = omega arith
  length-take (suc n) (x ∷ xs) = omega (arith, length-take n xs)

  pub length-drop : (n : ℕ) (xs : List A) → length (drop n xs) ≡ length xs - n
  length-drop zero xs = omega arith
  length-drop (suc n) [] = omega arith
  length-drop (suc n) (x ∷ xs) = omega (arith, length-drop n xs)

  pub length-replicate : (n : ℕ) (a : A) → length (replicate n a) ≡ n
  length-replicate zero a = refl
  length-replicate (suc n) a = ap suc (length-replicate n a)

  pub length-set : (xs : List A) (i : ℕ) (v : A) → length (set xs i v) ≡ length xs
  length-set [] i v = refl
  length-set (x ∷ xs) zero v = refl
  length-set (x ∷ xs) (suc i) v = ap suc (length-set xs i v)

  pub get_elem?-set_self :
      (xs : List A) (i : ℕ) (v : A) → i < length xs → get_elem? (set xs i v) i ≡ some v
  get_elem?-set_self [] i v h = elim h [ ]
  get_elem?-set_self (x ∷ xs) zero v h = refl
  get_elem?-set_self (x ∷ xs) (suc i) v h = get_elem?-set_self xs i v (omega arith)

  pub get_elem?-set_ne :
      (xs : List A) (i j : ℕ) (v : A) → i ≢ j → get_elem? (set xs i v) j ≡ get_elem? xs j
  get_elem?-set_ne [] i j v h = refl
  get_elem?-set_ne (x ∷ xs) zero zero v h = absurd (h refl)
  get_elem?-set_ne (x ∷ xs) zero (suc j) v h = refl
  get_elem?-set_ne (x ∷ xs) (suc i) zero v h = refl
  get_elem?-set_ne (x ∷ xs) (suc i) (suc j) v h = get_elem?-set_ne xs i j v (λ e. h (ap suc e))

  pub get_elem?_total : (xs : List A) (i : ℕ) → i < length xs → (a : A) × (get_elem? xs i ≡ some a)
  get_elem?_total [] i h = elim h [ ]
  get_elem?_total (x ∷ xs) zero h = (x, refl)
  get_elem?_total (x ∷ xs) (suc i) h = get_elem?_total xs i (omega arith)

  pub get_elem?-bound : (xs : List A) (i : ℕ) (a : A) → get_elem? xs i ≡ some a → i < length xs
  get_elem?-bound [] i a e = absurd (cc e)
  get_elem?-bound (x ∷ xs) zero a e = omega arith
  get_elem?-bound (x ∷ xs) (suc i) a e = omega (arith, get_elem?-bound xs i a e)

  pub get_elem?-none : (xs : List A) (i : ℕ) → length xs ≤ i → get_elem? xs i ≡ none
  get_elem?-none [] i h = refl
  get_elem?-none (x ∷ xs) zero h = absurd (omega arith)
  get_elem?-none (x ∷ xs) (suc i) h = get_elem?-none xs i (omega arith)

module _ {ℓ} {A : Type ℓ} where
  pub get_elem?-append_right :
      (xs ys : List A) (k : ℕ) → get_elem? (xs ++ ys) (length xs + k) ≡ get_elem? ys k
  get_elem?-append_right [] ys k = rw zero-add
  get_elem?-append_right (x ∷ xs) ys k = rw suc-add (get_elem?-append_right xs ys k)

  pub set-append_right :
      (xs ys : List A) (k : ℕ) (v : A) → set (xs ++ ys) (length xs + k) v ≡ xs ++ set ys k v
  set-append_right [] ys k v = rw zero-add
  set-append_right (x ∷ xs) ys k v = rw suc-add (ap (λ t. x ∷ t) (set-append_right xs ys k v))

  pub remove-append_right :
      (xs ys : List A) (k : ℕ) → remove (xs ++ ys) (length xs + k) ≡ xs ++ remove ys k
  remove-append_right [] ys k = rw zero-add
  remove-append_right (x ∷ xs) ys k = rw suc-add (ap (λ t. x ∷ t) (remove-append_right xs ys k))

  pub insert_at-append_right :
      (xs ys : List A) (k : ℕ) (v : A)
      → insert_at (xs ++ ys) (length xs + k) v ≡ xs ++ insert_at ys k v
  insert_at-append_right [] ys k v = rw zero-add
  insert_at-append_right (x ∷ xs) ys k v =
      rw suc-add (ap (λ t. x ∷ t) (insert_at-append_right xs ys k v))

module _ {ℓ} {A : Type ℓ} where
  pub get_elem?-append_at : (xs ys : List A) → get_elem? (xs ++ ys) (length xs) ≡ get_elem? ys 0
  get_elem?-append_at [] ys = refl
  get_elem?-append_at (x ∷ xs) ys = get_elem?-append_at xs ys

  pub set-append_at : (xs ys : List A) (v : A) → set (xs ++ ys) (length xs) v ≡ xs ++ set ys 0 v
  set-append_at [] ys v = refl
  set-append_at (x ∷ xs) ys v = ap (λ t. x ∷ t) (set-append_at xs ys v)

  pub remove-append_at : (xs ys : List A) → remove (xs ++ ys) (length xs) ≡ xs ++ remove ys 0
  remove-append_at [] ys = refl
  remove-append_at (x ∷ xs) ys = ap (λ t. x ∷ t) (remove-append_at xs ys)

  pub insert_at-append_at :
      (xs ys : List A) (v : A) → insert_at (xs ++ ys) (length xs) v ≡ xs ++ v ∷ ys
  insert_at-append_at [] ys v = refl
  insert_at-append_at (x ∷ xs) ys v = ap (λ t. x ∷ t) (insert_at-append_at xs ys v)

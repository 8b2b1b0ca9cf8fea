-- ===== src/Bencoding/Reads.antt =====
-- What a call of the parser reads: numbers and strings.
use learntorrent.Base.{
  if◌then◌else◌, ◌⊎◌, ℕ, zero, suc, ◌+◌, ◌^◌, ◌≤◌, ◌≡◌, refl, max, true, false, none, some, List,
  [], ◌∷◌, ltb, ◌==◌, length, arith, Bool-cases, Option-cases, inl, inr,
}
use learntorrent.Base.Int.{pos, neg_ℕ, ℤ}
use learntorrent.Base.Text.{is_digit, parse_u64}
use learntorrent.Base.Outcome.{Outcome, ok, err, panicked, ok_or, ◌>>=◌, ◌>>◌}
use learntorrent.BeValue.{BeValue, BeList, Entries, str, int, dict, nil, cons, end, entry}
use learntorrent.Bencoding.{
  is_byte, with_capacity, to_i64, invalid_str_len, BeDecodeErr, Parser, Read, peek, next, skip,
  expect, take_digits, parse_digits, parse_num, parse_int, read_bytes, parse_str,
}

-- How many values are inside one another.
unfoldable mutual
  pub depth : BeValue → ℕ
  depth (str s) = 1
  depth (int i) = 1
  depth (dict vals start stop) = suc (entries_depth vals)
  depth (BeValue.list vs) = suc (items_depth vs)

  pub items_depth : BeList → ℕ
  items_depth nil = 0
  items_depth (cons v vs) = max (depth v) (items_depth vs)

  pub entries_depth : Entries → ℕ
  entries_depth end = 0
  entries_depth (entry k v vals) = max (depth v) (entries_depth vals)

-- A call on `p` fails, or it returns a value with `P` and the parser at a later place of the source,
-- `least` bytes on at least.
pub data Reads {A : Type 0} (least : ℕ) (p : Parser) (P : A → Type 0) : Read A → Type 0 where
  failed : (e : BeDecodeErr) → Reads least p P (err e)
  crashed : Reads least p P panicked
  done :
      (a : A) (p' : Parser)
      → P a
      → length p'.rest + least ≤ length p.rest
      → p'.pos + length p'.rest ≡ p.pos + length p.rest
      → Reads least p P (ok (a, p'))

-- What follows a call goes on from where that call stopped.
pub later :
    {A : Type 0} {P : A → Type 0} {r : Read A} (i j : ℕ) (p p' : Parser)
    → Reads j p' P r
    → length p'.rest + i ≤ length p.rest
    → p'.pos + length p'.rest ≡ p.pos + length p.rest
    → Reads (i + j) p P r
later i j p p' (failed e) h e' = failed e
later i j p p' crashed h e' = crashed
later i j p p' (done a p'' pa m eq) h e' = done a p'' pa (omega arith) (omega arith)

pub bind :
    {A B : Type 0} {P : A → Type 0} {Q : B → Type 0} {m : Read A} (f : A × Parser → Read B)
    (i j : ℕ) (p : Parser)
    → Reads i p P m
    → ((a : A) (p' : Parser) → P a → length p'.rest + i ≤ length p.rest → Reads j p' Q (f (a, p')))
    → Reads (i + j) p Q (m >>= f)
bind f i j p (failed e) k = failed e
bind f i j p crashed k = crashed
bind f i j p (done a p' pa m eq) k = later i j p p' (k a p' pa m) m eq

-- Fewer bytes are asked for.
pub weaken :
    {A : Type 0} {P : A → Type 0} {r : Read A} (i j : ℕ) (p : Parser)
    → j ≤ i
    → Reads i p P r
    → Reads j p P r
weaken i j p h (failed e) = failed e
weaken i j p h crashed = crashed
weaken i j p h (done a p' pa m eq) = done a p' pa (omega arith) eq

pub widen :
    {A : Type 0} {P Q : A → Type 0} {r : Read A} {i : ℕ} (p : Parser)
    → ((a : A) → P a → Q a)
    → Reads i p P r
    → Reads i p Q r
widen p k (failed e) = failed e
widen p k crashed = crashed
widen p k (done a p' pa m eq) = done a p' (k a pa) m eq

abbrev pub Any : {A : Type 0} → A → Type 0
Any a = Unit

-- The rest of the block, after a value of which nothing is known.
abbrev returns : {A B : Type 0} → (A → B) → A × Parser → Read B
returns g (a, p) = ok (g a, p)

pub step :
    {A B : Type 0} {P : A → Type 0} {m : Read A} (g : A → B) (Q : B → Type 0) (i : ℕ) (p : Parser)
    → Reads i p P m
    → ((a : A) → P a → Q (g a))
    → Reads i p Q (m >>= returns g)
step g Q i p (failed e) k = failed e
step g Q i p crashed k = crashed
step g Q i p (done a p' pa m eq) k = done (g a) p' (k a pa) m eq

take_digits-Reads :
    (xs : List ℕ) (n : ℕ) → Reads 0 (record { rest = xs; pos = n }) Any (take_digits xs n)
unfolding take_digits
take_digits-Reads [] n = failed _
take_digits-Reads (b ∷ rest) n = elim (Bool-cases (is_digit b)) [
  | inl e ↦ rw e (
      later 0 0 (record { rest = b ∷ rest; pos = n }) (record { rest = rest; pos = n + 1 })
        (step (λ ds. b ∷ ds) Any 0 _ (take_digits-Reads rest (n + 1)) (λ ds _. tt)) (omega arith)
        (omega arith))
  | inr e ↦ rw e (done [] _ tt (omega arith) refl)
]

parse_digits-Reads : (p : Parser) → Reads 0 p Any (parse_digits p)
unfolding parse_digits
parse_digits-Reads p =
    bind _ 0 0 p (take_digits-Reads p.rest p.pos)
      (λ ds p' _ _. number ds p' (Option-cases (parse_u64 ds)))
  where
    number :
        (ds : List ℕ) (p' : Parser)
        → (parse_u64 ds ≡ none) ⊎ ((n : ℕ) × (parse_u64 ds ≡ some n))
        → Reads 0 p' Any (ok_or (parse_u64 ds) invalid_str_len >>= λ num. ok (num, p'))
    number ds p' (inl e) = rw e (failed _)
    number ds p' (inr (n, e)) = rw e (done n p' tt (omega arith) refl)

-- A byte that is read.
pub data Moves (p : Parser) : Outcome BeDecodeErr Parser → Type 0 where
  stays : (e : BeDecodeErr) → Moves p (err e)
  falls : Moves p panicked
  moves : (p' : Parser) → length p'.rest + 1 ≡ length p.rest → p'.pos ≡ p.pos + 1 → Moves p (ok p')

pub after :
    {A : Type 0} {P : A → Type 0} {m : Outcome BeDecodeErr Parser} (f : Parser → Read A) (j : ℕ)
    (p : Parser)
    → Moves p m
    → ((p' : Parser) → length p'.rest + 1 ≡ length p.rest → Reads j p' P (f p'))
    → Reads (1 + j) p P (m >>= f)
after f j p (stays e) k = failed e
after f j p falls k = crashed
after f j p (moves p' len at) k = later 1 j p p' (k p' len) (omega arith) (omega arith)

pub expect-Moves :
    (c : ℕ) (xs : List ℕ) (n : ℕ)
    → Moves (record { rest = xs; pos = n }) (expect c (record { rest = xs; pos = n }))
unfolding expect
expect-Moves c [] n = stays _
expect-Moves c (b ∷ xs) n = elim (Bool-cases (b == c)) [
  | inl e ↦ rw e (moves _ (omega arith) refl)
  | inr e ↦ rw e (stays _)
]

pub skip-Moves :
    (xs : List ℕ) (n : ℕ)
    → Moves (record { rest = xs; pos = n }) (skip (record { rest = xs; pos = n }))
skip-Moves [] n = falls
skip-Moves (b ∷ xs) n = moves _ (omega arith) refl

parse_num-Reads : (signed : ℕ → ℤ) (p : Parser) → Reads 1 p Any (parse_num signed p)
unfolding parse_num
parse_num-Reads signed p =
    bind _ 0 1 p (parse_digits-Reads p) (λ n p₁ _ _. in_range n p₁ (Bool-cases (ltb n (2 ^ 63))))
  where
    in_range :
        (n : ℕ) (p₁ : Parser)
        → (ltb n (2 ^ 63) ≡ true) ⊎ (ltb n (2 ^ 63) ≡ false)
        → Reads 1 p₁ Any (to_i64 n >>= λ num. expect b'e' p₁ >>= λ p₂. ok (signed num, p₂))
    in_range n p₁ (inl e) =
        rw e (
          after _ 0 p₁ (expect-Moves b'e' p₁.rest p₁.pos) (λ p₂ _. done _ p₂ tt (omega arith) refl))
    in_range n p₁ (inr e) = rw e (failed _)

pub parse_int-Reads : (p : Parser) → Reads 1 p Any (parse_int p)
unfolding parse_int
parse_int-Reads p = after _ 0 p (skip-Moves p.rest p.pos) (λ p₁ _. signed p₁.rest p₁.pos)
  where
    signed :
        (xs : List ℕ) (n : ℕ)
        → Reads 0
            (record { rest = xs; pos = n })
            Any
            (if is_byte b'-' (peek (record { rest = xs; pos = n }))
              then parse_num neg_ℕ (next (record { rest = xs; pos = n })).1
              else parse_num pos (record { rest = xs; pos = n }))
    signed [] n = weaken 1 0 _ (omega arith) (parse_num-Reads pos _)
    signed (b ∷ xs) n = elim (Bool-cases (b == b'-')) [
      | inl e ↦ rw e (
          weaken 1 0 _ (omega arith) (
            later 0 1 _ _ (parse_num-Reads neg_ℕ (record { rest = xs; pos = n + 1 })) (omega arith)
              (omega arith)))
      | inr e ↦ rw e (weaken 1 0 _ (omega arith) (parse_num-Reads pos _))
    ]

read_bytes-Reads :
    (len : ℕ) (xs : List ℕ) (n : ℕ)
    → Reads 0 (record { rest = xs; pos = n }) Any (read_bytes len xs n)
unfolding read_bytes
read_bytes-Reads zero xs n = done [] _ tt (omega arith) refl
read_bytes-Reads (suc len) [] n = failed _
read_bytes-Reads (suc len) (b ∷ xs) n =
    later 0 0 (record { rest = b ∷ xs; pos = n }) (record { rest = xs; pos = n + 1 })
      (step (λ ds. b ∷ ds) Any 0 _ (read_bytes-Reads len xs (n + 1)) (λ ds _. tt)) (omega arith)
      (omega arith)

pub parse_str-Reads : (p : Parser) → Reads 1 p Any (parse_str p)
unfolding parse_str
parse_str-Reads p = bind _ 0 1 p (parse_digits-Reads p) (λ len p₁ _ _.
    after _ 0 p₁ (expect-Moves b':' p₁.rest p₁.pos)
      (λ p₂ _. sized len p₂ (Bool-cases (ltb len (2 ^ 63)))))
  where
    sized :
        (len : ℕ) (p₂ : Parser)
        → (ltb len (2 ^ 63) ≡ true) ⊎ (ltb len (2 ^ 63) ≡ false)
        → Reads 0 p₂ Any (with_capacity len >> read_bytes len p₂.rest p₂.pos)
    sized len p₂ (inl e) = rw e (read_bytes-Reads len p₂.rest p₂.pos)
    sized len p₂ (inr e) = rw e crashed

-- ===== src/BitField/Laws.antt =====
-- A bit field as a set of pieces: what `has_piece` answers after `new_empty` and `set_piece`.
use learntorrent.Base.{
  ◌*◌, ℕ, zero, suc, ◌/◌, ◌%◌, ◌^◌, ◌≤◌, ◌<◌, bit_and, bit_or, ◌≡◌, refl, ap, Bool, true, false,
  not, ◌&&◌, ◌||◌, List, [], ◌∷◌, ltb, ◌==◌, if◌then◌else◌, length, get_elem?, set, All, arith,
  Bool-cases, inl, inr, length-set, some, to_nat, ltb→lt, get_or, ◌∙◌, ==→eq, get_elem?-none,
  replicate, length-replicate,
}
use learntorrent.Base.Words.{IsByte}
use learntorrent.Base.Outcome.{ok, panicked, ◌>>=◌}
use learntorrent.BitField.{BitField, byte_mask, has_piece, set_piece, new_empty}
use learntorrent.Base.Float.{bytes_for, bytes_for_exact}

-- One bit of one byte.
and-eq-true : (a b : Bool) → (a && b) ≡ true → (a ≡ true) × (b ≡ true)
and-eq-true true b h = (refl, h)
and-eq-true false b h = cc

abbrev pub test_bit : ℕ → ℕ → Bool
test_bit byte k = not (bit_and byte (128 / 2 ^ k) == 0)

set_bit_at : ℕ → ℕ → ℕ → Bool
set_bit_at byte j k =
    let after = bit_or byte (128 / 2 ^ j) in
    (to_nat (test_bit after k) == to_nat ((j == k) || test_bit byte k)) && ltb after 256

-- The table of all cases is checked by evaluation.
unfoldable pub every : (ℕ → Bool) → ℕ → Bool
every holds zero = true
every holds (suc bound) = every holds bound && holds bound

pub every-at :
    (holds : ℕ → Bool) (bound k : ℕ) → k < bound → every holds bound ≡ true → holds k ≡ true
unfolding every
every-at holds zero k below e = absurd (omega arith)
every-at holds (suc bound) k below e =
    let earlier = every-at holds bound k in ground (arith, earlier)

set_bit_table : every (λ k. every (λ j. every (λ b. set_bit_at b j k) 256) 8) 8 ≡ true
unfolding every set_bit_at
set_bit_table = refl

set_bit_at_lem : (b j k : ℕ) → b < 256 → j < 8 → k < 8 → set_bit_at b j k ≡ true
set_bit_at_lem b j k hb hj hk =
    let t = every-at (λ k. every (λ j. every (λ b. set_bit_at b j k) 256) 8) 8 k hk set_bit_table in
    let u = every-at (λ j. every (λ b. set_bit_at b j k) 256) 8 j hj t in
    every-at (λ b. set_bit_at b j k) 256 b hb u

pub to_nat-eq : (a b : Bool) → (to_nat a == to_nat b) ≡ true → a ≡ b
to_nat-eq true true h = refl
to_nat-eq true false h = cc
to_nat-eq false true h = cc
to_nat-eq false false h = refl

test_bit-bit_or :
    (b j k : ℕ)
    → b < 256
    → j < 8
    → k < 8
    → (test_bit (bit_or b (128 / 2 ^ j)) k ≡ ((j == k) || test_bit b k))
      × (bit_or b (128 / 2 ^ j) < 256)
unfolding set_bit_at
test_bit-bit_or b j k hb hj hk =
    let t = and-eq-true _ _ (set_bit_at_lem b j k hb hj hk) in (to_nat-eq _ _ t.0, ltb→lt _ _ t.1)

-- The answer of `has_piece` at an index that is in range.
abbrev pub bit : BitField → ℕ → Bool
bit inner id = test_bit (get_or inner (id / 8) 0) (id % 8)

get_elem?-get_or : (xs : List ℕ) (i : ℕ) → i < length xs → get_elem? xs i ≡ some (get_or xs i 0)
get_elem?-get_or [] i h = elim h [ ]
get_elem?-get_or (x ∷ xs) zero h = refl
get_elem?-get_or (x ∷ xs) (suc i) h = get_elem?-get_or xs i (omega arith)

pub has_piece-bit : (bf : BitField) (id : ℕ) → id / 8 < length bf → has_piece bf id ≡ ok (bit bf id)
unfolding has_piece
has_piece-bit bf id h = rw (get_elem?-get_or bf (id / 8) h) refl

All-get_or : (xs : List ℕ) (i : ℕ) → All IsByte xs → get_or xs i 0 < 256
All-get_or [] i h = omega arith
All-get_or (x ∷ xs) zero h = h.0
All-get_or (x ∷ xs) (suc i) h = All-get_or xs i h.1

All-set : (xs : List ℕ) (i v : ℕ) → All IsByte xs → v < 256 → All IsByte (set xs i v)
All-set [] i v h hv = h
All-set (x ∷ xs) zero v h hv = (hv, h.1)
All-set (x ∷ xs) (suc i) v h hv = (h.0, All-set xs i v h.1 hv)

get_or-set :
    (xs : List ℕ) (i j v : ℕ)
    → i < length xs
    → get_or (set xs i v) j 0 ≡ (if i == j then v else get_or xs j 0)
get_or-set [] i j v h = elim h [ ]
get_or-set (x ∷ xs) zero zero v h = refl
get_or-set (x ∷ xs) zero (suc j) v h = ground arith
get_or-set (x ∷ xs) (suc i) zero v h = ground arith
get_or-set (x ∷ xs) (suc i) (suc j) v h = get_or-set xs i j v (omega arith) ∙ ground arith

-- `set_piece` in range.
pub set_piece_lem :
    (bf : BitField) (id : ℕ)
    → id / 8 < length bf
    → set_piece bf id ≡ ok (set bf (id / 8) (bit_or (get_or bf (id / 8) 0) (byte_mask id)))
unfolding set_piece
set_piece_lem bf id h = rw (get_elem?-get_or bf (id / 8) h) refl

bit-set_same :
    (byte id q : ℕ)
    → byte < 256
    → id / 8 ≡ q / 8
    → test_bit (bit_or byte (byte_mask id)) (q % 8) ≡ ((id == q) || test_bit byte (q % 8))
unfolding byte_mask
bit-set_same byte id q hb e =
    (test_bit-bit_or byte (id % 8) (q % 8) hb (omega arith) (omega arith)).0
    ∙ ap (λ t. t || test_bit byte (q % 8)) (ground arith)

set_byte :
    (bf : BitField) (id : ℕ) → All IsByte bf → bit_or (get_or bf (id / 8) 0) (byte_mask id) < 256
unfolding byte_mask
set_byte bf id hb =
    (test_bit-bit_or (get_or bf (id / 8) 0) (id % 8) 0 (All-get_or bf (id / 8) hb) (omega arith)
      (omega arith)).1

ne→==_false : (id q : ℕ) → (id / 8 == q / 8) ≡ false → (id == q) ≡ false
ne→==_false id q h = ground arith

bit-set :
    (bf : BitField) (id q : ℕ)
    → All IsByte bf
    → id / 8 < length bf
    → bit (set bf (id / 8) (bit_or (get_or bf (id / 8) 0) (byte_mask id))) q
      ≡ ((id == q) || bit bf q)
bit-set bf id q hb h = elim (Bool-cases (id / 8 == q / 8)) [
  | inl same ↦
      rw (get_or-set bf (id / 8) (q / 8) _ h, same)
        (bit-set_same (get_or bf (id / 8) 0) id q (All-get_or bf (id / 8) hb) (==→eq _ _ same)
          ∙ rw (==→eq _ _ same))
  | inr other ↦ rw (get_or-set bf (id / 8) (q / 8) _ h, other) (rw (ne→==_false id q other))
]

-- On a field of bytes, setting a piece in range succeeds; afterwards that piece is there and every
-- other index in range answers as before. The field keeps its length and stays a list of bytes.
pub has_piece-set_piece :
    (bf : BitField) (id q : ℕ)
    → All IsByte bf
    → id / 8 < length bf
    → q / 8 < length bf
    → (bf' : BitField) × (set_piece bf id ≡ ok bf')
      × (has_piece bf' q ≡ (has_piece bf q >>= λ had. ok ((id == q) || had)))
      × (length bf' ≡ length bf)
      × All IsByte bf'
has_piece-set_piece bf id q hb h hq =
    let after = set bf (id / 8) (bit_or (get_or bf (id / 8) 0) (byte_mask id)) in
    let len : length after ≡ length bf = length-set bf (id / 8) _ in
    (
      after,
      set_piece_lem bf id h,
      has_piece-bit after q (omega (arith, len))
          ∙ ap ok (bit-set bf id q hb h)
          ∙ rw (has_piece-bit bf q hq),
      len,
      All-set bf (id / 8) _ hb (set_byte bf id hb),
    )

-- For an index past the last byte both `has_piece` and `set_piece` panic.
pub out_of_range :
    (bf : BitField) (id : ℕ)
    → length bf ≤ id / 8
    → (has_piece bf id ≡ panicked) × (set_piece bf id ≡ panicked)
unfolding has_piece set_piece
out_of_range bf id h = rw (get_elem?-none bf (id / 8) h) (refl, refl)

get_or-replicate : (n i : ℕ) → get_or {A = ℕ} (replicate n 0) i 0 ≡ 0
get_or-replicate zero i = refl
get_or-replicate (suc n) zero = refl
get_or-replicate (suc n) (suc i) = get_or-replicate n i

no_bits_table : every (λ k. not (test_bit 0 k)) 8 ≡ true
unfolding every
no_bits_table = refl

bit-replicate : (n q : ℕ) → bit (replicate n 0) q ≡ false
bit-replicate n q =
    rw (get_or-replicate n (q / 8))
      (not-eq-true _ (every-at (λ k. not (test_bit 0 k)) 8 (q % 8) (omega arith) no_bits_table))
  where
    not-eq-true : (b : Bool) → not b ≡ true → b ≡ false
    not-eq-true true h = cc
    not-eq-true false h = refl

-- For up to 2 ^ 24 pieces a new field has a bit for every piece, and none is set.
pub has_piece-new_empty :
    (num q : ℕ) → num ≤ 2 ^ 24 → q < num → has_piece (new_empty num) q ≡ ok false
unfolding new_empty
has_piece-new_empty num q h hq =
    let nought : ℕ = 0 in
    has_piece-bit (replicate (bytes_for num) 0) q
      (omega (arith, length-replicate (bytes_for num) nought, bytes_for_exact num h))
    ∙ ap ok (bit-replicate (bytes_for num) q)

All-replicate : (n : ℕ) → All IsByte (replicate n 0)
All-replicate zero = tt
All-replicate (suc n) = (omega arith, All-replicate n)

-- A new field for up to 2 ^ 24 pieces consists of bytes, with a bit for every piece.
pub new_empty_shape :
    (num : ℕ) → num ≤ 2 ^ 24 → All IsByte (new_empty num) × (num ≤ 8 * length (new_empty num))
unfolding new_empty
new_empty_shape num h =
    let nought : ℕ = 0 in
    (
      All-replicate (bytes_for num),
      omega (arith, length-replicate (bytes_for num) nought, bytes_for_exact num h),
    )

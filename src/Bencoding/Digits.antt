-- ===== src/Bencoding/Digits.antt =====
-- Decimal digits, written and read.
use learntorrent.Base.{
  ℕ, zero, suc, ◌+◌, ◌-◌, ◌*◌, ◌/◌, ◌%◌, ◌^◌, ◌≤◌, ◌<◌, ◌≡◌, refl, sym, ap, ◌∙◌, true, false, some,
  List, [], ◌∷◌, ◌++◌, ltb, length, arith, Bool-cases, inl, inr, length-append,
}
use learntorrent.Base.Text.{is_digit, decimal, parse_u64}
use learntorrent.Base.Outcome.{ok}
use learntorrent.Bencoding.{take_digits, parse_digits}
use learntorrent.Bencoding.Print.{digits, digits_upto}

decimal-snoc :
    (acc : ℕ) (ds : List ℕ) (d : ℕ) → decimal acc (ds ++ d ∷ []) ≡ 10 * decimal acc ds + (d - b'0')
unfolding decimal
decimal-snoc acc [] d = refl
decimal-snoc acc (x ∷ ds) d = decimal-snoc (10 * acc + (x - b'0')) ds d

decimal-digits_upto : (most n : ℕ) → n < most → decimal 0 (digits_upto most n) ≡ n
unfolding digits_upto decimal
decimal-digits_upto zero n h = absurd (omega arith)
decimal-digits_upto (suc most) n h = elim (Bool-cases (ltb n 10)) [
  | inl e ↦ rw (e, digits_upto) (omega arith)
  | inr e ↦
      let ten : 10 ≤ n = ground (arith, e) in
      rw (e, digits_upto)
        (decimal-snoc 0 (digits_upto most (n / 10)) (n % 10 + b'0')
          ∙ omega (arith, decimal-digits_upto most (n / 10) (omega arith)))
]

-- All are digits, and there is one.
abbrev pub IsDigits : List ℕ → Type 0
IsDigits [] = Unit
IsDigits (d ∷ ds) = (is_digit d ≡ true) × IsDigits ds

IsDigits-append : (xs ys : List ℕ) → IsDigits xs → IsDigits ys → IsDigits (xs ++ ys)
IsDigits-append [] ys a b = b
IsDigits-append (x ∷ xs) ys a b = (a.0, IsDigits-append xs ys a.1 b)

digits_upto-IsDigits : (most n : ℕ) → IsDigits (digits_upto most n)
unfolding digits_upto
digits_upto-IsDigits zero n = tt
digits_upto-IsDigits (suc most) n = elim (Bool-cases (ltb n 10)) [
  | inl e ↦ rw (e, digits_upto) (ground (arith, e), tt)
  | inr e ↦
      rw (e, digits_upto)
        (IsDigits-append (digits_upto most (n / 10)) _ (digits_upto-IsDigits most (n / 10))
          (ground arith, tt))
]

pub digits-IsDigits : (n : ℕ) → IsDigits (digits n)
unfolding digits
digits-IsDigits n = digits_upto-IsDigits (suc n) n

length_pos : (most n : ℕ) → 0 < length (digits_upto (suc most) n)
unfolding digits_upto
length_pos most n = elim (Bool-cases (ltb n 10)) [
  | inl e ↦ rw (e, digits_upto) (omega arith)
  | inr e ↦
      rw (e, digits_upto)
        (omega (arith, length-append (digits_upto most (n / 10)) ((n % 10 + b'0') ∷ [])))
]

-- The first digit.
pub digits-cons : (n : ℕ) → (d : ℕ) × (ds : List ℕ) × (digits n ≡ d ∷ ds) × (is_digit d ≡ true)
unfolding digits
digits-cons n = split (digits_upto (suc n) n) (length_pos n n) (digits_upto-IsDigits (suc n) n)
  where
    split :
        (xs : List ℕ)
        → 0 < length xs
        → IsDigits xs
        → (d : ℕ) × (ds : List ℕ) × (xs ≡ d ∷ ds) × (is_digit d ≡ true)
    split [] h a = elim h [ ]
    split (d ∷ ds) h a = (d, ds, refl, a.0)

parse_u64-cons :
    (d : ℕ) (ds : List ℕ) (n : ℕ)
    → decimal 0 (d ∷ ds) ≡ n
    → n < 2 ^ 64
    → parse_u64 (d ∷ ds) ≡ some n
unfolding parse_u64
parse_u64-cons d ds n e h = rw e (ground arith)

pub decimal-digits : (n : ℕ) → decimal 0 (digits n) ≡ n
unfolding digits
decimal-digits n = decimal-digits_upto (suc n) n (omega arith)

pub parse_u64-digits : (n : ℕ) → n < 2 ^ 64 → parse_u64 (digits n) ≡ some n
parse_u64-digits n h =
    let (d, ds, e, i) = digits-cons n in
    rw e (parse_u64-cons d ds n (ap (decimal 0) (sym e) ∙ decimal-digits n) h)

pub take_digits-append :
    (ds : List ℕ) (c : ℕ) (rest : List ℕ) (n m : ℕ)
    → IsDigits ds
    → is_digit c ≡ false
    → n + length ds ≡ m
    → take_digits (ds ++ c ∷ rest) n ≡ ok (ds, record { rest = c ∷ rest; pos = m })
unfolding take_digits
take_digits-append [] c rest n m a e h =
    rw e (ap (λ k. ok ([], record { rest = c ∷ rest; pos = k })) (omega arith))
take_digits-append (d ∷ ds) c rest n m a e h =
    rw a.0 (rw (take_digits-append ds c rest (n + 1) m a.1 e (omega arith)))

-- A number is read back, up to the byte after it.
pub parse_digits-digits :
    (k c : ℕ) (rest : List ℕ) (n m : ℕ)
    → k < 2 ^ 64
    → is_digit c ≡ false
    → n + length (digits k) ≡ m
    → parse_digits (record { rest = digits k ++ c ∷ rest; pos = n })
      ≡ ok (k, record { rest = c ∷ rest; pos = m })
unfolding parse_digits
parse_digits-digits k c rest n m h e at =
    rw (take_digits-append (digits k) c rest n m (digits-IsDigits k) e at)
      (rw (parse_u64-digits k h))

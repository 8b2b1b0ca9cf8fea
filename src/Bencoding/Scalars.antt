-- ===== src/Bencoding/Scalars.antt =====
-- The parser's numbers and strings on what the format's description writes.
use learntorrent.Base.{
  ℕ, suc, ◌+◌, ◌^◌, ◌≤◌, ◌<◌, ◌≡◌, refl, ap, true, false, some, List, [], ◌∷◌, ◌++◌, ltb, ◌==◌,
  length, length-append, arith,
}
use learntorrent.Base.Int.{ℤ, pos, negsuc, neg_ℕ}
use learntorrent.Base.Text.{is_digit}
use learntorrent.Base.Outcome.{ok, ◌>>=◌}
use learntorrent.BeValue.{BeValue, BeList, Entries, str, int, dict, nil, cons, end, entry}
use learntorrent.Bencoding.{
  is_byte, Parser, Read, peek, expect, parse_num, parse_int, read_bytes, parse_str, parse_tagged,
  parse_value, max_nesting_depth,
}
use learntorrent.Bencoding.Print.{
  digits, str_onto, int_onto, onto, items_onto, entries_onto, magnitude,
}
use learntorrent.Bencoding.Digits.{digits-cons, parse_digits-digits}

read_bytes-append :
    (s rest : List ℕ) (n m : ℕ)
    → n + length s ≡ m
    → read_bytes (length s) (s ++ rest) n ≡ ok (s, record { rest = rest; pos = m })
unfolding read_bytes
read_bytes-append [] rest n m h = ap (λ k. ok ([], record { rest = rest; pos = k })) (omega arith)
read_bytes-append (b ∷ s) rest n m h = rw (read_bytes-append s rest (n + 1) m (omega arith))

pub parse_str-onto :
    (s rest : List ℕ) (n m : ℕ)
    → length s < 2 ^ 63
    → m + length rest ≡ n + length (str_onto s rest)
    → parse_str (record { rest = str_onto s rest; pos = n })
      ≡ ok (s, record { rest = rest; pos = m })
unfolding parse_str expect
parse_str-onto s rest n m h e =
    let len = length-append (digits (length s)) (b':' ∷ (s ++ rest)) in
    rw
      (parse_digits-digits (length s) b':' (s ++ rest) n (n + length (digits (length s)))
        (omega arith) refl refl)
      (rw (short (length s) h) (
        read_bytes-append s rest (n + length (digits (length s)) + 1) m
          (omega (arith, len, e, length-append s rest))))
  where
    short : (k : ℕ) → k < 2 ^ 63 → ltb k (2 ^ 63) ≡ true
    short k h = ground arith

parse_num-digits :
    (signed : ℕ → ℤ) (k : ℕ) (rest : List ℕ) (n m : ℕ)
    → k < 2 ^ 63
    → m + length rest ≡ n + length (digits k ++ b'e' ∷ rest)
    → parse_num signed (record { rest = digits k ++ b'e' ∷ rest; pos = n })
      ≡ ok (signed k, record { rest = rest; pos = m })
unfolding parse_num expect
parse_num-digits signed k rest n m h e =
    rw (parse_digits-digits k b'e' rest n (n + length (digits k)) (omega arith) refl refl) (
      rw (short k h) (
        ap (λ p. ok (signed k, record { rest = rest; pos = p }))
          (omega (arith, e, length-append (digits k) (b'e' ∷ rest)))))
  where
    short : (k : ℕ) → k < 2 ^ 63 → ltb k (2 ^ 63) ≡ true
    short k h = ground arith

-- A number does not start with a minus sign, unless it is negative.
first_digit : (d : ℕ) → is_digit d ≡ true → (d == b'-') ≡ false
first_digit d h = ground (arith, h)

pub no_sign :
    (k n : ℕ) (rest : List ℕ)
    → is_byte b'-' (peek (record { rest = digits k ++ rest; pos = n })) ≡ false
no_sign k n rest = let (d, ds, e, isd) = digits-cons k in rw e (first_digit d isd)

pub parse_int-onto :
    (i : ℤ) (rest : List ℕ) (n m : ℕ)
    → magnitude i < 2 ^ 63
    → m + length rest ≡ n + 1 + length (int_onto i (b'e' ∷ rest))
    → parse_int (record { rest = b'i' ∷ int_onto i (b'e' ∷ rest); pos = n })
      ≡ ok (i, record { rest = rest; pos = m })
unfolding parse_int
parse_int-onto (pos k) rest n m h e =
    rw (no_sign k (n + 1) (b'e' ∷ rest)) (parse_num-digits pos k rest (n + 1) m h e)
parse_int-onto (negsuc k) rest n m h e =
    parse_num-digits neg_ℕ (suc k) rest (n + 1 + 1) m h (omega (arith, e))

-- A value's first byte does not end a list.
pub onto_head :
    (v : BeValue) (rest : List ℕ)
    → (b : ℕ) × (xs : List ℕ) × (onto v rest ≡ b ∷ xs) × ((b == b'e') ≡ false)
unfolding onto
onto_head (str s) rest =
    let (d, ds, e, isd) = digits-cons (length s) in
    (d, ds ++ b':' ∷ (s ++ rest), ap (λ t. t ++ b':' ∷ (s ++ rest)) e, ground (arith, isd))
onto_head (int i) rest = (_, _, refl, refl)
onto_head (dict vals start stop) rest = (_, _, refl, refl)
onto_head (BeValue.list vs) rest = (_, _, refl, refl)

pub str_head :
    (s rest : List ℕ) → (b : ℕ) × (xs : List ℕ) × (str_onto s rest ≡ b ∷ xs) × (is_digit b ≡ true)
str_head s rest =
    let (d, ds, e, isd) = digits-cons (length s) in
    (d, ds ++ b':' ∷ (s ++ rest), ap (λ t. t ++ b':' ∷ (s ++ rest)) e, isd)

-- A value takes a byte at least.
longer : (d : List ℕ) (c : ℕ) (s rest : List ℕ) → length rest < length (d ++ c ∷ (s ++ rest))
longer d c s rest = omega (arith, length-append d (c ∷ (s ++ rest)), length-append s rest)

mutual
  unfolding onto

  pub onto-longer : (v : BeValue) (rest : List ℕ) → length rest < length (onto v rest)
  onto-longer (str s) rest = longer (digits (length s)) b':' s rest
  onto-longer (int (pos k)) rest = omega (arith, length-append (digits k) (b'e' ∷ rest))
  onto-longer (int (negsuc k)) rest = omega (arith, length-append (digits (suc k)) (b'e' ∷ rest))
  onto-longer (dict vals start stop) rest = omega (arith, entries_onto-longer vals (b'e' ∷ rest))
  onto-longer (BeValue.list vs) rest = omega (arith, items_onto-longer vs (b'e' ∷ rest))

  items_onto-longer : (vs : BeList) (rest : List ℕ) → length rest ≤ length (items_onto vs rest)
  items_onto-longer nil rest = omega arith
  items_onto-longer (cons v vs) rest =
      omega (arith, onto-longer v (items_onto vs rest), items_onto-longer vs rest)

  entries_onto-longer :
      (vals : Entries) (rest : List ℕ) → length rest ≤ length (entries_onto vals rest)
  entries_onto-longer end rest = omega arith
  entries_onto-longer (entry k v vals) rest =
      let tail = entries_onto vals rest in
      omega (
        arith,
        longer (digits (length k)) b':' k (onto v tail),
        onto-longer v tail,
        entries_onto-longer vals rest,
      )

pub str_onto-longer : (s rest : List ℕ) → length rest < length (str_onto s rest)
str_onto-longer s rest = longer (digits (length s)) b':' s rest

-- A digit starts a string.
pub dispatch :
    (parse : Parser → Read BeValue) (b : ℕ) (q : Parser) (r : Read (List ℕ))
    → is_digit b ≡ true
    → parse_str q ≡ r
    → parse_tagged parse q (some b) ≡ (r >>= λ (s, p). ok (str s, p))
unfolding parse_tagged
dispatch parse b q r isd one = rw (is_i b isd) (rw (is_l b isd) (rw (is_d b isd) (rw isd (rw one))))
  where
    is_i : (d : ℕ) → is_digit d ≡ true → (d == b'i') ≡ false
    is_i d h = ground (arith, h)

    is_l : (d : ℕ) → is_digit d ≡ true → (d == b'l') ≡ false
    is_l d h = ground (arith, h)

    is_d : (d : ℕ) → is_digit d ≡ true → (d == b'd') ≡ false
    is_d d h = ground (arith, h)

pub parse_value-parse_tagged :
    (levels recursion_depth : ℕ) (p : Parser)
    → recursion_depth ≤ max_nesting_depth
    → parse_value (suc levels) recursion_depth p
      ≡ parse_tagged (parse_value levels (recursion_depth + 1)) p (peek p)
unfolding parse_value
parse_value-parse_tagged levels r p h = rw (deep r h, parse_value) refl
  where
    deep : (r : ℕ) → r ≤ max_nesting_depth → ltb max_nesting_depth r ≡ false
    deep r h = ground arith

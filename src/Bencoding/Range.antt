-- ===== src/Bencoding/Range.antt =====
-- Integers that the parser refuses for their size.
use learntorrent.Base.{
  ℕ, suc, ◌+◌, ◌^◌, ◌≤◌, ◌≡◌, refl, false, none, List, [], ◌∷◌, ◌++◌, ltb, if◌then◌else◌, length,
  arith, inl, inr, Bool-cases,
}
use learntorrent.Base.Int.{ℤ, pos, negsuc, neg_ℕ}
use learntorrent.Base.Text.{decimal, parse_u64, is_digit}
use learntorrent.Base.Outcome.{err}
use learntorrent.BeValue.{int}
use learntorrent.Bencoding.{
  BeDecodeErr, invalid_num, invalid_str_len, parse_num, parse_int, parse_digits, parse_tagged,
  parse_with, max_nesting_depth,
}
use learntorrent.Bencoding.Print.{digits, int_onto, onto, magnitude}
use learntorrent.Bencoding.Digits.{
  parse_digits-digits, digits-IsDigits, decimal-digits, take_digits-append,
}
use learntorrent.Bencoding.Scalars.{parse_value-parse_tagged, no_sign}

-- Too large for an i64, or even for a u64.
abbrev pub too_large : ℕ → BeDecodeErr
too_large n = if ltb n (2 ^ 64) then invalid_num else invalid_str_len

parse_u64-large : (ds : List ℕ) (n : ℕ) → decimal 0 ds ≡ n → 2 ^ 64 ≤ n → parse_u64 ds ≡ none
unfolding parse_u64
parse_u64-large [] n e h = refl
parse_u64-large (d ∷ ds) n e h = rw e (ground arith)

parse_digits-large :
    (k n c : ℕ) (rest : List ℕ)
    → 2 ^ 64 ≤ k
    → is_digit c ≡ false
    → parse_digits (record { rest = digits k ++ c ∷ rest; pos = n }) ≡ err invalid_str_len
unfolding parse_digits
parse_digits-large k n c rest h e =
    rw (take_digits-append (digits k) c rest n (n + length (digits k)) (digits-IsDigits k) e refl)
      (rw (parse_u64-large (digits k) k (decimal-digits k) h) refl)

parse_num-large :
    (signed : ℕ → ℤ) (k n : ℕ) (rest : List ℕ)
    → 2 ^ 63 ≤ k
    → parse_num signed (record { rest = digits k ++ b'e' ∷ rest; pos = n }) ≡ err (too_large k)
unfolding parse_num
parse_num-large signed k n rest h = elim (Bool-cases (ltb k (2 ^ 64))) [
  | inl e ↦
      rw (parse_digits-digits k b'e' rest n (n + length (digits k)) (ground (arith, e)) refl refl)
        (rw (long k h, e) refl)
  | inr e ↦ rw (parse_digits-large k n b'e' rest (ground (arith, e)) refl, e) refl
]
  where
    long : (k : ℕ) → 2 ^ 63 ≤ k → ltb k (2 ^ 63) ≡ false
    long k h = ground arith

parse_int-large :
    (i : ℤ) (rest : List ℕ) (n : ℕ)
    → 2 ^ 63 ≤ magnitude i
    → parse_int (record { rest = b'i' ∷ int_onto i (b'e' ∷ rest); pos = n })
      ≡ err (too_large (magnitude i))
unfolding parse_int
parse_int-large (pos k) rest n h =
    rw (no_sign k (n + 1) (b'e' ∷ rest)) (parse_num-large pos k (n + 1) rest h)
parse_int-large (negsuc k) rest n h = parse_num-large neg_ℕ (suc k) (n + 1 + 1) rest h

-- The text of an integer whose magnitude is 2 ^ 63 or more, among them -2 ^ 63, which is an i64,
-- is refused, whatever follows it: as an invalid number, or from 2 ^ 64 on with the error for the
-- length of a string.
pub parse_with-too_large :
    (i : ℤ) (rest : List ℕ)
    → 2 ^ 63 ≤ magnitude i
    → parse_with (onto (int i) rest) ≡ err (too_large (magnitude i))
unfolding parse_with onto parse_tagged
parse_with-too_large i rest h =
    let src : List ℕ = b'i' ∷ int_onto i (b'e' ∷ rest) in
    rw
      (parse_value-parse_tagged (max_nesting_depth + 1) 0 (record { rest = src; pos = 0 })
        (omega arith))
      (rw (parse_int-large i rest 0 h) refl)

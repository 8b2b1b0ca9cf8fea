-- ===== src/Bencoding/Huge.antt =====
-- Strings whose length no allocation has.
use learntorrent.Base.{
  ℕ, ◌+◌, ◌^◌, ◌≤◌, ◌<◌, ◌≡◌, refl, ap, ◌∙◌, true, false, List, ◌∷◌, ◌++◌, ltb, length, arith,
}
use learntorrent.Base.Text.{is_digit}
use learntorrent.Base.Outcome.{panicked, ok, ◌>>=◌}
use learntorrent.Bencoding.{expect, parse_str, parse_value, parse_with, max_nesting_depth}
use learntorrent.Bencoding.Print.{digits}
use learntorrent.Bencoding.Digits.{digits-cons, parse_digits-digits}
use learntorrent.Bencoding.Scalars.{dispatch, parse_value-parse_tagged}

parse_str_huge :
    (len : ℕ) (rest : List ℕ)
    → 2 ^ 63 ≤ len
    → len < 2 ^ 64
    → parse_str (record { rest = digits len ++ b':' ∷ rest; pos = 0 }) ≡ panicked
unfolding parse_str expect
parse_str_huge len rest h h' =
    rw (parse_digits-digits len b':' rest 0 (length (digits len)) h' refl (omega arith))
      (rw (huge len h))
  where
    huge : (k : ℕ) → 2 ^ 63 ≤ k → ltb k (2 ^ 63) ≡ false
    huge k h = ground arith

-- A text that starts with a string of at least 2 ^ 63 and less than 2 ^ 64 bytes, by its length,
-- makes the parser panic.
pub parse_with_huge :
    (len : ℕ) (rest : List ℕ)
    → 2 ^ 63 ≤ len
    → len < 2 ^ 64
    → parse_with (digits len ++ b':' ∷ rest) ≡ panicked
unfolding parse_with
parse_with_huge len rest h h' =
    let (d, ds, e, isd) = digits-cons len in
    starts (digits len ++ b':' ∷ rest) d (ds ++ b':' ∷ rest) (ap (λ t. t ++ b':' ∷ rest) e) isd
      (parse_str_huge len rest h h')
  where
    starts :
        (src : List ℕ) (d : ℕ) (ds : List ℕ)
        → src ≡ d ∷ ds
        → is_digit d ≡ true
        → parse_str (record { rest = src; pos = 0 }) ≡ panicked
        → (parse_value (max_nesting_depth + 2) 0 (record { rest = src; pos = 0 }) >>= λ (v, p).
            ok v)
          ≡ panicked
    starts src d ds e isd one = rw e (
        ap (λ r. r >>= λ (v, p). ok v)
          (parse_value-parse_tagged (max_nesting_depth + 1) 0 (record { rest = d ∷ ds; pos = 0 })
              (omega arith)
            ∙ dispatch (parse_value (max_nesting_depth + 1) 1) d (record { rest = d ∷ ds; pos = 0 })
                panicked isd (rw e at one)))

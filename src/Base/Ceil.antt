-- ===== src/Base/Ceil.antt =====
-- The rounded quotient of Base.Float against the exact one.
use Prim.Native.Nat.{ℕ, ◌+◌, ◌*◌, ◌/◌, ◌%◌, ◌^◌, ◌≤◌, ◌<◌, ◌-◌, zero, suc}
use mathlib.Core.Path.{◌≡◌, refl, sym, ap, subst}
use mathlib.Core.Logic.{◌⊎◌, inl, inr}
use native.Mathlib.Omega.{arith}
use native.Mathlib.Nat.{mul_comm, pow-suc}
use learntorrent.Base.Tests.{ltb, if◌then◌else◌, Bool-cases}
use learntorrent.Base.Float.{round_div, f64_of_u64, scale, rounded_up, ceil_quotient}

pub mul_mono : (a b c : ℕ) → a ≤ b → a * c ≤ b * c
mul_mono zero b c h = omega arith
mul_mono (suc a) zero c h = absurd (omega arith)
mul_mono (suc a) (suc b) c h = omega (arith, mul_mono a b c (omega arith))

rounded : ℕ → ℕ → ℕ → ℕ
rounded q r m = if ltb (2 * r) m then q else if ltb m (2 * r) then q + 1 else q + q % 2

rounded_near : (q r m : ℕ) → rounded q r m ≤ q + 1
unfolding rounded
rounded_near q r m = ground arith

rounded_none : (q r m : ℕ) → 0 < m → r ≡ 0 → rounded q r m ≡ q
unfolding rounded
rounded_none q r m p e = ground arith

rounded_low : (q r m : ℕ) → q ≤ rounded q r m
unfolding rounded
rounded_low q r m = ground arith

rounded_up_lem : (q r m : ℕ) → m < 2 * r → rounded q r m ≡ q + 1
unfolding rounded
rounded_up_lem q r m h = ground arith

compare_lem : (a b : ℕ) → (a < b) ⊎ ((a ≡ b) ⊎ (b < a))
compare_lem zero zero = inr (inl refl)
compare_lem zero (suc b) = inl (omega arith)
compare_lem (suc a) zero = inr (inr (omega arith))
compare_lem (suc a) (suc b) = elim (compare_lem a b) [
  | inl l ↦ inl (omega arith)
  | inr (inl e) ↦ inr (inl (ap suc e))
  | inr (inr g) ↦ inr (inr (omega arith))
]

-- A quotient below or at a bound is rounded to one.
round_div_le : (n m t : ℕ) → 0 < m → n ≤ t * m → round_div n m ≤ t
unfolding rounded
round_div_le n m t p h = go (n / m) (n % m) (omega (arith, mul_comm m (n / m))) (omega arith)
  where
    go : (q r : ℕ) → q * m + r ≡ n → r < m → rounded q r m ≤ t
    go q r e l = elim (compare_lem q t) [
      | inl a ↦ omega (arith, rounded_near q r m)
      | inr (inl b) ↦ omega (arith, rounded_none q r m p (omega (arith, ap (λ x. x * m) b)))
      | inr (inr c) ↦ absurd (omega (arith, mul_mono (suc t) q m c))
    ]

round_div_gt : (n m t r : ℕ) → 0 < m → t * m + r ≤ n → m < 2 * r → t < round_div n m
unfolding rounded
round_div_gt n m t r₀ p h big = go (n / m) (n % m) (omega (arith, mul_comm m (n / m))) (omega arith)
  where
    go : (q r : ℕ) → q * m + r ≡ n → r < m → t < rounded q r m
    go q r e l = elim (compare_lem t q) [
      | inl a ↦ omega (arith, rounded_low q r m)
      | inr (inl b) ↦ omega (arith, rounded_up_lem q r m (omega (arith, ap (λ x. x * m) b)))
      | inr (inr c) ↦ absurd (omega (arith, mul_mono (suc q) t m c))
    ]

-- The quotient by `m` of a number between `k * m` and `(k + 1) * m`.
quotient_lem : (x m k : ℕ) → k * m ≤ x → x < suc k * m → x / m ≡ k
quotient_lem x m k lo hi = go (x / m) (x % m) (omega (arith, mul_comm m (x / m))) (omega arith)
  where
    go : (q r : ℕ) → q * m + r ≡ x → r < m → q ≡ k
    go q r e l = elim (compare_lem q k) [
      | inl a ↦ absurd (omega (arith, mul_mono (suc q) k m a))
      | inr (inl b) ↦ b
      | inr (inr c) ↦ absurd (omega (arith, mul_mono (suc k) q m c))
    ]

f64_of_u64_exact : (n : ℕ) → n < 2 ^ 53 → f64_of_u64 12 1 n ≡ n
unfolding f64_of_u64
f64_of_u64_exact n h = elim (Bool-cases (ltb n (2 ^ 53 * 1))) [
  | inl e ↦ rw e (ground arith)
  | inr e ↦ absurd (ground (arith, e))
]

double_pow : (n s : ℕ) → n * 2 ^ suc s ≡ 2 * n * 2 ^ s
double_pow n s = omega (arith, ap (λ x. n * x) (pow-suc 2 s))

scale_lem : (rounds n m : ℕ) → 2 ^ 52 * m ≤ n * 2 ^ rounds → 2 ^ 52 * m ≤ n * 2 ^ scale rounds n m
unfolding scale
scale_lem zero n m h = h
scale_lem (suc rounds) n m h = elim (Bool-cases (ltb n (2 ^ 52 * m))) [
  | inl e ↦ rw e (
      omega (
        arith,
        double_pow n (scale rounds (2 * n) m),
        scale_lem rounds (2 * n) m (omega (arith, double_pow n rounds)),
      ))
  | inr e ↦ rw e (ground (arith, e))
]

-- With 53 bits before the point, a quotient of integers is never rounded past an integer.
rounded_up_exact :
    (s n m k : ℕ)
    → n < 2 ^ 53
    → 2 ^ 52 * m ≤ n * 2 ^ s
    → k * m < n
    → n ≤ suc k * m
    → rounded_up s n m ≡ suc k
unfolding rounded_up
rounded_up_exact s n m k h big lo hi = go (2 ^ s) big
  where
    go : (p : ℕ) → 2 ^ 52 * m ≤ n * p → (round_div (n * p) m + p - 1) / p ≡ suc k
    go p big =
        let above = mul_mono n (2 ^ 53 - 1) p (omega arith) in
        let above' = mul_mono n (suc k * m) p hi in
        let below = mul_mono (suc (k * m)) n p lo in
        let up = round_div_le (n * p) m (suc k * p) (omega arith) (omega (arith, above')) in
        let down =
          round_div_gt (n * p) m (k * p) p (omega arith) (omega (arith, below))
            (omega (arith, above, big)) in
        quotient_lem (round_div (n * p) m + p - 1) p (suc k) (omega (arith, down))
          (omega (arith, up))

-- The quotient rounded up, where it is above 0 and fits 32 bits, and the dividend 53 bits.
pub ceil_quotient_exact :
    (n m k : ℕ)
    → n < 2 ^ 53
    → m < 2 ^ 32
    → k * m < n
    → n ≤ suc k * m
    → suc k < 2 ^ 32
    → ceil_quotient n m ≡ suc k
unfolding ceil_quotient
ceil_quotient_exact n zero k h w lo hi c = absurd (omega arith)
ceil_quotient_exact n (suc m) k h w lo hi c =
    let large = mul_mono 1 n (2 ^ 85) (omega arith) in
    let fits = scale_lem 85 n (suc m) (omega (arith, large)) in
    let up = rounded_up_exact (scale 85 n (suc m)) n (suc m) k h fits lo hi in
    rw (f64_of_u64_exact n h, up) (ground arith)

few_lem : (q m n : ℕ) → q * m < n → n ≤ (2 ^ 32 - 1) * m → suc q < 2 ^ 32
few_lem q m n lo c = elim (compare_lem q (2 ^ 32 - 1)) [
  | inl l ↦ omega arith
  | inr (inl e) ↦ absurd (omega (arith, ap (λ x. x * m) e))
  | inr (inr g) ↦ absurd (omega (arith, mul_mono (2 ^ 32) q m (omega (arith, g))))
]

less_one : (q : ℕ) → suc q - 1 ≡ q
less_one q = omega arith

pub one_less : (n m : ℕ) → 0 < n → n * m ≡ (n - 1) * m + m
one_less zero m h = absurd (omega arith)
one_less (suc n) m h = rw (less_one n) (omega arith)

-- The quotient is the least count of `m`s that has `n`.
abbrev pub IsCeil : ℕ → ℕ → ℕ → Type 0
IsCeil c n m = (c < 2 ^ 32) × (n ≤ c * m) × (0 < c → (c - 1) * m < n)

pub ceil_quotient-IsCeil :
    (n m : ℕ) → n < 2 ^ 53 → m < 2 ^ 32 → n ≤ (2 ^ 32 - 1) * m → IsCeil (ceil_quotient n m) n m
unfolding ceil_quotient
ceil_quotient-IsCeil zero zero h w c = (omega arith, omega arith, λ pos. omega arith)
ceil_quotient-IsCeil zero (suc m) h w c = (omega arith, omega arith, λ pos. absurd (omega arith))
ceil_quotient-IsCeil (suc n) zero h w c = absurd (omega arith)
ceil_quotient-IsCeil (suc n) (suc m) h w c =
    let lo : n / suc m * suc m < suc n = omega (arith, mul_comm (suc m) (n / suc m)) in
    let hi : suc n ≤ suc (n / suc m) * suc m = omega (arith, mul_comm (suc m) (n / suc m)) in
    let few = few_lem (n / suc m) (suc m) (suc n) lo c in
    subst (λ q. IsCeil q (suc n) (suc m))
      (sym (ceil_quotient_exact (suc n) (suc m) (n / suc m) h w lo hi few))
      (few, hi, λ pos. rw (less_one (n / suc m)) lo)

-- ===== src/Base/Float.antt =====
-- IEEE 754 rounding, as far as the program uses `f32` and `f64`: on unsigned integers and their
-- quotients, always followed by `ceil` and a cast back to an integer.
use Prim.Native.Nat.{ℕ, ◌+◌, ◌*◌, ◌/◌, ◌%◌, ◌^◌, ◌≤◌, ◌-◌, zero, suc, min}
use mathlib.Core.Path.{◌≡◌}
use native.Mathlib.Omega.{arith}
use learntorrent.Base.Tests.{ltb, ◌==◌, if◌then◌else◌}

-- `n / m` rounded to the nearest integer, ties to even.
abbrev pub round_div : ℕ → ℕ → ℕ
round_div n m =
    let q = n / m in
    let r = n % m in if ltb (2 * r) m then q else if ltb m (2 * r) then q + 1 else q + q % 2

-- `n as f32` for a `u32`: 24 significant bits.
unfoldable pub f32_of_u32 : ℕ → ℕ
f32_of_u32 n =
    if ltb n (2 ^ 24)
    then n
    else if ltb n (2 ^ 25)
    then round_div n 2 * 2
    else if ltb n (2 ^ 26)
    then round_div n 4 * 4
    else if ltb n (2 ^ 27)
    then round_div n 8 * 8
    else if ltb n (2 ^ 28)
    then round_div n 16 * 16
    else if ltb n (2 ^ 29)
    then round_div n 32 * 32
    else if ltb n (2 ^ 30)
    then round_div n 64 * 64
    else if ltb n (2 ^ 31)
    then round_div n 128 * 128
    else round_div n 256 * 256

-- `(n as f32 / 8f32).ceil() as usize`; the division by a power of two is exact.
unfoldable pub bytes_for : ℕ → ℕ
unfolding f32_of_u32
bytes_for n = (f32_of_u32 n + 7) / 8

-- Up to 2 ^ 24 pieces the `f32` is exact.
pub bytes_for_exact : (n : ℕ) → n ≤ 2 ^ 24 → bytes_for n ≡ (n + 7) / 8
unfolding bytes_for
bytes_for_exact n h = ground arith

-- `n as f64` for a `u64`, with 53 significant bits: `unit` is the distance of the numbers that can be
-- told apart.
unfoldable pub f64_of_u64 : ℕ → ℕ → ℕ → ℕ
f64_of_u64 zero unit n = n
f64_of_u64 (suc rounds) unit n =
    let coarser = f64_of_u64 rounds (2 * unit) n in
    if ltb n (2 ^ 53 * unit) then round_div n unit * unit else coarser

-- How often `n / m` is doubled to have 53 bits before the point.
unfoldable pub scale : ℕ → ℕ → ℕ → ℕ
scale zero n m = 0
scale (suc rounds) n m =
    let more = scale rounds (2 * n) m in if ltb n (2 ^ 52 * m) then suc more else 0

-- The quotient, rounded to 53 bits `2 ^ s` times as large, and rounded up to an integer. A quotient
-- of more bits is above every `u32`.
unfoldable pub rounded_up : ℕ → ℕ → ℕ → ℕ
rounded_up s n m = (round_div (n * 2 ^ s) m + 2 ^ s - 1) / 2 ^ s

-- `(n as f64 / m as f64).ceil() as u32`: the cast saturates, and sends the NaN of 0 / 0 to 0. A `u64`
-- over a `u32` is doubled 84 times at most.
unfoldable pub ceil_quotient : ℕ → ℕ → ℕ
unfolding f64_of_u64 scale rounded_up
ceil_quotient n zero = if n == 0 then 0 else 2 ^ 32 - 1
ceil_quotient n (suc m) =
    let x = f64_of_u64 12 1 n in
    if x == 0 then 0 else min (2 ^ 32 - 1) (rounded_up (scale 85 x (suc m)) x (suc m))

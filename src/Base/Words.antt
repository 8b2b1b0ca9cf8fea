-- ===== src/Base/Words.antt =====
-- Machine words as native numbers: wrapping arithmetic of the release profile, and big-endian bytes.
use Prim.Native.Nat.{ℕ, ◌+◌, ◌-◌, ◌*◌, ◌/◌, ◌%◌, ◌^◌, ◌<◌}
use mathlib.Core.Path.{◌≡◌}
use mathlib.Core.List.{List, [], ◌∷◌, ◌++◌}
use native.Mathlib.Omega.{arith}

abbrev pub IsByte : ℕ → Type 0
IsByte b = b < 256

abbrev pub IsU32 : ℕ → Type 0
IsU32 v = v < 2 ^ 32

abbrev pub IsU64 : ℕ → Type 0
IsU64 v = v < 2 ^ 64

-- Subtraction and addition of `u32` and `u64` values, which wrap.
abbrev pub sub32 : ℕ → ℕ → ℕ
sub32 a b = (a + 2 ^ 32 - b) % 2 ^ 32

abbrev pub add32 : ℕ → ℕ → ℕ
add32 a b = (a + b) % 2 ^ 32

abbrev pub sub64 : ℕ → ℕ → ℕ
sub64 a b = (a + 2 ^ 64 - b) % 2 ^ 64

abbrev pub add64 : ℕ → ℕ → ℕ
add64 a b = (a + b) % 2 ^ 64

-- `to_be_bytes` and `from_be_bytes`.
abbrev pub u16_bytes : ℕ → List ℕ
u16_bytes v = (v / 256 % 256) ∷ (v % 256) ∷ []

abbrev pub u32_bytes : ℕ → List ℕ
u32_bytes v = (v / 2 ^ 24 % 256) ∷ (v / 2 ^ 16 % 256) ∷ (v / 256 % 256) ∷ (v % 256) ∷ []

abbrev pub u64_bytes : ℕ → List ℕ
u64_bytes v = u32_bytes (v / 2 ^ 32) ++ u32_bytes (v % 2 ^ 32)

abbrev pub be16 : ℕ → ℕ → ℕ
be16 a b = a * 256 + b

abbrev pub be32 : ℕ → ℕ → ℕ → ℕ → ℕ
be32 a b c d = a * 2 ^ 24 + b * 2 ^ 16 + c * 256 + d

pub be32-u32_bytes :
    (v : ℕ) → IsU32 v → be32 (v / 2 ^ 24 % 256) (v / 2 ^ 16 % 256) (v / 256 % 256) (v % 256) ≡ v
be32-u32_bytes v h = omega arith

pub be16-u16_bytes : (v : ℕ) → v < 2 ^ 16 → be16 (v / 256 % 256) (v % 256) ≡ v
be16-u16_bytes v h = omega arith

-- ===== src/Base/Ints.antt =====
-- Signed integers, and fixed-width unsigned integers and their big-endian bytes (Go's encoding/binary.BigEndian).
use Prim.Native.Nat.{ℕ, ◌+◌, ◌*◌, ◌/◌, ◌%◌, ◌^◌, ◌<◌}
use mathlib.Core.Path.{◌≡◌}
use mathlib.Core.List.{List, [], ◌∷◌}
use native.Mathlib.Omega.{arith}

-- `negsuc n` is -(n + 1).
pub data ℤ : Type 0 where
  pos : ℕ → ℤ
  negsuc : ℕ → ℤ

-- the low byte of x >> 8 * k
abbrev pub byte_at : ℕ → ℕ → ℕ
byte_at k x = x / 256 ^ k % 256

-- PutUint16 of uint16(x)
abbrev pub be16 : ℕ → List ℕ
be16 x = byte_at 1 x ∷ byte_at 0 x ∷ []

-- PutUint32 of uint32(x)
abbrev pub be32 : ℕ → List ℕ
be32 x = byte_at 3 x ∷ byte_at 2 x ∷ byte_at 1 x ∷ byte_at 0 x ∷ []

-- PutUint64 of uint64(x)
abbrev pub be64 : ℕ → List ℕ
be64 x =
    byte_at 7 x
    ∷ byte_at 6 x
    ∷ byte_at 5 x
    ∷ byte_at 4 x
    ∷ byte_at 3 x
    ∷ byte_at 2 x
    ∷ byte_at 1 x
    ∷ byte_at 0 x
    ∷ []

pub be16_value : (x : ℕ) → x < 2 ^ 16 → byte_at 1 x * 256 + byte_at 0 x ≡ x
be16_value x h = omega arith

pub be16_inj : (x y : ℕ) → x < 2 ^ 16 → y < 2 ^ 16 → be16 x ≡ be16 y → x ≡ y
be16_inj x y hx hy e = ground arith

pub be32_inj : (x y : ℕ) → x < 2 ^ 32 → y < 2 ^ 32 → be32 x ≡ be32 y → x ≡ y
be32_inj x y hx hy e = ground arith

pub be64_inj : (x y : ℕ) → x < 2 ^ 64 → y < 2 ^ 64 → be64 x ≡ be64 y → x ≡ y
be64_inj x y hx hy e = ground arith

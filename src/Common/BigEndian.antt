-- ===== src/Common/BigEndian.antt =====
-- Byte strings, as lists of numbers, and big-endian integers.
use Prim.Native.Nat.{ℕ, ◌+◌, ◌*◌, ◌/◌, ◌%◌, ◌^◌, ◌<◌}
use Prim.Native.Char.{code}
use Prim.Native.String.{String}
use mathlib.Core.Path.{◌≡◌, refl, ap}
use mathlib.Core.List.{List, [], ◌∷◌, ◌++◌}
use native.Mathlib.Omega.{arith}
use iroh_hyde_auth.Common.Lists.{length, append_cancel}

abbrev pub Bytes : Type 0
Bytes = List ℕ

-- The code points of a text, which are its bytes where it is ASCII.
abbrev pub codes : String → Bytes
codes String.[] = []
codes (String.◌∷◌ c s) = code c ∷ codes s

abbrev pub IsU32 : ℕ → Type 0
IsU32 n = n < 2 ^ 32

abbrev pub IsU64 : ℕ → Type 0
IsU64 n = n < 2 ^ 64

-- `u32::to_be_bytes`
unfoldable pub u32_to_be_bytes : ℕ → Bytes
u32_to_be_bytes n = (n / 2 ^ 24 % 256) ∷ (n / 2 ^ 16 % 256) ∷ (n / 2 ^ 8 % 256) ∷ (n % 256) ∷ []

-- `u32::from_be_bytes`, on an array of four bytes
unfoldable pub u32_from_be_bytes : Bytes → ℕ
u32_from_be_bytes (a ∷ b ∷ c ∷ d ∷ []) = a * 2 ^ 24 + b * 2 ^ 16 + c * 2 ^ 8 + d
u32_from_be_bytes _ = 0

-- `u64::to_be_bytes`: the two halves, the high one first
unfoldable pub u64_to_be_bytes : ℕ → Bytes
unfolding u32_to_be_bytes
u64_to_be_bytes n = u32_to_be_bytes (n / 2 ^ 32 % 2 ^ 32) ++ u32_to_be_bytes (n % 2 ^ 32)

pub length-u32_to_be_bytes : (n : ℕ) → length (u32_to_be_bytes n) ≡ 4
unfolding u32_to_be_bytes
length-u32_to_be_bytes n = refl

pub length-u64_to_be_bytes : (n : ℕ) → length (u64_to_be_bytes n) ≡ 8
unfolding u64_to_be_bytes
length-u64_to_be_bytes n = refl

pub u32_from_be_bytes-to_be_bytes : (n : ℕ) → IsU32 n → u32_from_be_bytes (u32_to_be_bytes n) ≡ n
unfolding u32_from_be_bytes u32_to_be_bytes
u32_from_be_bytes-to_be_bytes n h = omega arith

pub u32_to_be_bytes_injective :
    (m n : ℕ) → IsU32 m → IsU32 n → u32_to_be_bytes m ≡ u32_to_be_bytes n → m ≡ n
u32_to_be_bytes_injective m n hm hn e = omega (
  arith,
  u32_from_be_bytes-to_be_bytes m hm,
  u32_from_be_bytes-to_be_bytes n hn,
  ap u32_from_be_bytes e,
)

pub u64_to_be_bytes_injective :
    (m n : ℕ) → IsU64 m → IsU64 n → u64_to_be_bytes m ≡ u64_to_be_bytes n → m ≡ n
unfolding u64_to_be_bytes
u64_to_be_bytes_injective m n hm hn e =
    let halves =
      append_cancel (u32_to_be_bytes (m / 2 ^ 32 % 2 ^ 32)) (u32_to_be_bytes (n / 2 ^ 32 % 2 ^ 32))
        refl e in
    omega (
      arith,
      u32_to_be_bytes_injective (m / 2 ^ 32 % 2 ^ 32) (n / 2 ^ 32 % 2 ^ 32) (omega arith)
          (omega arith) halves.0,
      u32_to_be_bytes_injective (m % 2 ^ 32) (n % 2 ^ 32) (omega arith) (omega arith) halves.1,
    )

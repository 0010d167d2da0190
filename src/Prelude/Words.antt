-- ===== src/Prelude/Words.antt =====
-- Machine words: `uint32_t` and `size_t` values are numbers with their range written out, and a
-- `uint32_t` is sent as the four bytes that it occupies in memory (little endian).
use Prim.Native.Nat.{ℕ, ◌+◌, ◌-◌, ◌*◌, ◌/◌, ◌%◌, ◌^◌, ◌<◌}
use mathlib.Core.Path.{◌≡◌, refl}
use mathlib.Core.List.{List, [], ◌∷◌}
use native.Mathlib.Omega.{arith}
use compute_web_app.Prelude.Lists.{length}

abbrev pub u32_mod : ℕ
u32_mod = 2 ^ 32

-- uint32_t(-1)
abbrev pub u32_max : ℕ
u32_max = 2 ^ 32 - 1

-- size_t(-1)
abbrev pub size_max : ℕ
size_max = 2 ^ 64 - 1

unfoldable pub u32_bytes : ℕ → List ℕ
u32_bytes n = n % 256 ∷ n / 2 ^ 8 % 256 ∷ n / 2 ^ 16 % 256 ∷ n / 2 ^ 24 % 256 ∷ []

-- The value of four bytes; the bytes of a variable are always four.
unfoldable pub u32_of_bytes : List ℕ → ℕ
u32_of_bytes (a ∷ b ∷ c ∷ d ∷ []) = a + b * 2 ^ 8 + c * 2 ^ 16 + d * 2 ^ 24
u32_of_bytes _ = 0

pub length-u32_bytes : (n : ℕ) → length (u32_bytes n) ≡ 4
unfolding u32_bytes
length-u32_bytes n = refl

pub u32_of_bytes-u32_bytes : (n : ℕ) → n < u32_mod → u32_of_bytes (u32_bytes n) ≡ n
unfolding u32_bytes u32_of_bytes
u32_of_bytes-u32_bytes n h = omega arith

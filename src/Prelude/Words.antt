-- ===== src/Prelude/Words.antt =====
-- Machine words. An `int32_t` and a `uint32_t` are one 32-bit pattern, a number below 2^32; a
-- `uint64_t` is a number below 2^64. `-1` is the pattern with every bit set.
use Prim.Native.Nat.{ℕ, ◌+◌, ◌-◌, ◌*◌, ◌/◌, ◌%◌, ◌<◌}
use mathlib.Core.Path.{◌≡◌, refl}
use mathlib.Core.Bool.{Bool}
use mathlib.Core.List.{List, [], ◌∷◌}
use mathlib.Core.Option.{Option, none, some}
use native.Mathlib.Omega.{arith}
use godot_godaemon_multiplay.Prelude.Tests.{ltb, if◌then◌else◌}
use godot_godaemon_multiplay.Prelude.Lists.{length}

abbrev pub u32 : ℕ → ℕ
u32 n = n % 4294967296

-- `(uint32_t)-1`, which is also the pattern of the `int` -1.
abbrev pub minus_one : ℕ
minus_one = 4294967295

-- `(uint64_t)-1`.
abbrev pub minus_one64 : ℕ
minus_one64 = 18446744073709551615

-- `p < 0` on an `int`, by its pattern.
abbrev pub is_negative : ℕ → Bool
is_negative p = ltb 2147483647 p

-- Godot's `ABS` on an `int32_t`; the most negative value keeps its pattern.
abbrev pub abs32 : ℕ → ℕ
abs32 p = if is_negative p then u32 (4294967296 - p) else p

-- The four bytes of a `uint32_t` in memory, the lowest first.
unfoldable pub bytes_of_u32 : ℕ → List ℕ
bytes_of_u32 n = (n % 256) ∷ (n / 256 % 256) ∷ (n / 65536 % 256) ∷ (n / 16777216 % 256) ∷ []

-- A `uint32_t` read from the first four bytes of a buffer; `none` where fewer are there.
unfoldable pub u32_of_bytes : List ℕ → Option ℕ
u32_of_bytes (a ∷ b ∷ c ∷ d ∷ rest) = some (a + 256 * b + 65536 * c + 16777216 * d)
u32_of_bytes _ = none

pub u32_of_bytes-bytes_of_u32 : (n : ℕ) → n < 4294967296 → u32_of_bytes (bytes_of_u32 n) ≡ some n
unfolding u32_of_bytes bytes_of_u32
u32_of_bytes-bytes_of_u32 n h = ground arith

pub length-bytes_of_u32 : (n : ℕ) → length (bytes_of_u32 n) ≡ 4
unfolding bytes_of_u32
length-bytes_of_u32 n = refl

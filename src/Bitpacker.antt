-- ===== src/Bitpacker.antt =====
-- `Bitpacker` (demo/addons/godaemon_multiplayer/util/bitpacker.gd): fields of bits in one `int`, which is
-- a 64-bit pattern, as are the numbers given to it. A result `none` is an assertion that fails, which a
-- negative count of bits makes happen too.
pub mod RoundTrip
use godot_godaemon_multiplay.Prelude.{
  ℕ, ◌+◌, ◌-◌, ◌*◌, ◌/◌, ◌%◌, ◌^◌, ◌&&◌, ◌||◌, Bool, not, Option, none, some, bit_and, bit_or, leb,
  ltb, if◌then◌else◌,
}

pub record Bitpacker : Type 0 where
  pub value : ℕ
  pub idx : ℕ

-- `>>`, which keeps the sign.
unfoldable pub shift_right : ℕ → ℕ → ℕ
shift_right n k =
    if leb 9223372036854775808 n
    then n / 2 ^ k + (18446744073709551616 - 2 ^ (64 - k))
    else n / 2 ^ k

-- `<<`.
unfoldable pub shift_left : ℕ → ℕ → ℕ
shift_left n k = n * 2 ^ k % 18446744073709551616

-- `2 ** bits` as an `int`: from 63 bits on it is too large for one, and what is there instead is the
-- engine's.
unfoldable pub power : (ℕ → ℕ) → ℕ → ℕ
power overflowed bits = if leb bits 62 then 2 ^ bits else overflowed bits

-- `<` of two signed numbers.
unfoldable pub is_less : ℕ → ℕ → Bool
is_less a b =
    if leb 9223372036854775808 a
    then leb b 9223372036854775807 || ltb a b
    else leb b 9223372036854775807 && ltb a b

module _ (overflowed : ℕ → ℕ) where
  unfoldable pub write : ℕ → ℕ → Bitpacker → Option Bitpacker
  write bits number packer =
      if not (leb 9223372036854775808 number)
        && (ltb 0 bits && (leb (packer.idx + bits) 64 && is_less number (power overflowed bits)))
      then some (record {
        value = bit_or packer.value (shift_left number packer.idx);
        idx = packer.idx + bits;
      })
      else none

  unfoldable pub read : ℕ → Bitpacker → Option (ℕ × Bitpacker)
  read bits packer =
      let bitmask = shift_left (power overflowed bits + 18446744073709551615) packer.idx in
      if ltb 0 bits && leb (packer.idx + bits) 64
      then some (
        shift_right (bit_and packer.value bitmask) packer.idx,
        record packer { idx = packer.idx + bits },
      )
      else none

unfoldable pub writer : Bitpacker
writer = record { value = 0; idx = 0 }

unfoldable pub reader : ℕ → Bitpacker
reader number = record { value = number; idx = 0 }

-- ===== src/Engine.antt =====
-- The engine's byte arrays and conversions, as the GDScript under demo/ uses them. An `int` is a 64-bit
-- pattern, and so is a `float`; a byte is a number below 256.
use godot_godaemon_multiplay.Prelude.{
  ℕ, zero, suc, ◌+◌, ◌-◌, ◌*◌, ◌/◌, ◌%◌, ◌^◌, Bool, List, [], ◌∷◌, ◌++◌, drop, Option, none, some,
  length, ltb, if◌then◌else◌, ℤ, pos, negsuc, ◌+ℤ◌,
}

-- The engine, for a type of values.
pub record Engine (V : Type 0) : Type 0 where
  -- what stands in memory that `resize` adds
  pub fresh_byte : ℕ → ℕ
  -- the conversions of a `float` to and from its 32-bit and 16-bit forms
  pub to_single : ℕ → ℕ
  pub of_single : ℕ → ℕ
  pub to_half : ℕ → ℕ
  pub of_half : ℕ → ℕ
  -- `var_to_bytes` and `var_to_bytes_with_objects`
  pub var_to_bytes : V → List ℕ
  pub var_to_bytes_with_objects : V → List ℕ
  -- `decode_var_size` and `decode_var` at a position
  pub decode_var_size : List ℕ → ℤ → ℕ
  pub decode_var : List ℕ → ℤ → Bool → V
  -- `null`, an array and a byte array as values, and what a value is
  pub null : V
  pub of_array : List V → V
  pub of_bytes : List ℕ → V
  pub to_array : V → Option (List V)
  pub to_bytes : V → Option (List ℕ)

-- `resize` to at least 0.
unfoldable pub resize : (ℕ → ℕ) → ℕ → List ℕ → List ℕ
resize fresh zero array = []
resize fresh (suc n) [] = fresh n ∷ resize fresh n []
resize fresh (suc n) (x ∷ array) = x ∷ resize fresh n array

-- The lowest bytes of a number, the lowest first, as `encode_u8` to `encode_u64` and their signed
-- twins write them.
unfoldable pub encode : ℕ → ℕ → List ℕ
encode zero value = []
encode (suc n) value = (value % 256) ∷ encode n (value / 256)

unfoldable pub decode : List ℕ → ℕ
decode [] = 0
decode (b ∷ rest) = b + 256 * decode rest

-- Bytes written over an array from a position on.
unfoldable pub overwrite : ℕ → List ℕ → List ℕ → List ℕ
overwrite zero [] array = array
overwrite zero (b ∷ bytes) [] = []
overwrite zero (b ∷ bytes) (x ∷ array) = b ∷ overwrite zero bytes array
overwrite (suc i) bytes [] = []
overwrite (suc i) bytes (x ∷ array) = x ∷ overwrite i bytes array

-- So many bytes from a position on, as far as there are any.
unfoldable pub bytes_at : ℕ → ℕ → List ℕ → List ℕ
bytes_at i zero array = []
bytes_at i (suc n) [] = []
bytes_at zero (suc n) (x ∷ array) = x ∷ bytes_at zero n array
bytes_at (suc i) (suc n) (x ∷ array) = bytes_at i (suc n) array

-- What `encode_u8` and its like do at a position: at a negative one they leave the array alone.
unfoldable pub encode_at : ℤ → List ℕ → List ℕ → List ℕ
encode_at (pos i) bytes array = overwrite i bytes array
encode_at (negsuc k) bytes array = array

-- What `decode_u8` and its like give at a position: at a negative one the value `missing`, a zero.
unfoldable pub decode_at : {A : Type 0} → A → (List ℕ → A) → ℤ → ℕ → List ℕ → A
decode_at missing convert (pos i) size array = convert (bytes_at i size array)
decode_at missing convert (negsuc k) size array = missing

-- The place that an index means: a negative one counts from the end, and one outside is an error.
unfoldable pub index_of : ℤ → ℕ → Option ℕ
index_of (pos i) count = if ltb i count then some i else none
index_of (negsuc k) count = if ltb k count then some (count - suc k) else none

-- `for i in bytes.size(): array[at + i] = bytes[i]`.
unfoldable pub set_bytes : ℤ → List ℕ → List ℕ → Option (List ℕ)
set_bytes at [] array = some array
set_bytes at (b ∷ rest) array = elim (index_of at (length array)) [
  | none ↦ none
  | some i ↦ set_bytes (at +ℤ pos 1) rest (overwrite i (b ∷ []) array)
]

-- `for i in n: bytes[i] = array[at + i]`.
unfoldable pub get_bytes : ℤ → ℕ → List ℕ → Option (List ℕ)
get_bytes at zero array = some []
get_bytes at (suc n) array = elim (index_of at (length array)) [
  | none ↦ none
  | some i ↦ elim (get_bytes (at +ℤ pos 1) n array) [
    | none ↦ none
    | some rest ↦ some (bytes_at i 1 array ++ rest)
  ]
]

-- `slice` from a position on: a negative one counts from the end.
unfoldable pub slice_from : ℤ → List ℕ → List ℕ
slice_from (pos i) array = drop i array
slice_from (negsuc k) array = drop (length array - suc k) array

-- The pattern of the `int` that a signed number of so many bits gives.
unfoldable pub sign_extend : ℕ → ℕ → ℕ
sign_extend bits n = if ltb n (2 ^ (bits - 1)) then n else n + (18446744073709551616 - 2 ^ bits)

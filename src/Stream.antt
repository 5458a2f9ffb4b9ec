-- ===== src/Stream.antt =====
-- `PackedByteStream` (demo/addons/godaemon_multiplayer/util/packed_byte_stream.gd): numbers, byte arrays
-- and values written to and read from a byte array at a cursor. The cursor and the sizes given to
-- `allocate` and `read_bytes` are signed, and their sums do not overflow an `int`. An index outside the
-- array ends the call with an error of the script; behind the test only the first index of a loop can
-- be one, so that nothing has changed then.
pub mod Loops
pub mod Cursor
pub mod Fields
pub mod RoundTrip
pub mod Bounds
use godot_godaemon_multiplay.Prelude.{
  ℕ, ◌==◌, Bool, true, false, Option, none, some, List, [], length, if◌then◌else◌, ℤ, pos, negsuc,
  ◌+ℤ◌, exceeds,
}
use godot_godaemon_multiplay.Engine.{
  Engine, resize, encode, decode, encode_at, decode_at, set_bytes, get_bytes, sign_extend,
}

pub record PackedByteStream : Type 0 where
  pub data_bytes : List ℕ
  pub c : ℤ
  pub valid : Bool

unfoldable pub new_stream : PackedByteStream
new_stream = record { data_bytes = []; c = pos 0; valid = true }

unfoldable pub setup_read : List ℕ → PackedByteStream → PackedByteStream
setup_read array s = record s { c = pos 0; data_bytes = array }

-- What every write of a number does with its bytes: the test of the room, the bytes, the cursor.
unfoldable pub write_raw : List ℕ → PackedByteStream → PackedByteStream
write_raw bytes s =
    if exceeds (s.c +ℤ pos (length bytes)) (length s.data_bytes)
    then record s { valid = false }
    else record s { data_bytes = encode_at s.c bytes s.data_bytes; c = s.c +ℤ pos (length bytes) }

-- What every read of a number does: with too few bytes left it gives the value `missing`.
unfoldable pub read_raw :
    {A : Type 0} → A → (List ℕ → A) → ℕ → PackedByteStream → A × PackedByteStream
read_raw missing convert size s =
    if exceeds (s.c +ℤ pos size) (length s.data_bytes)
    then (missing, record s { valid = false })
    else (decode_at missing convert s.c size s.data_bytes, record s { c = s.c +ℤ pos size })

unfoldable pub write_bytes : List ℕ → PackedByteStream → PackedByteStream
write_bytes bytes s =
    if exceeds (s.c +ℤ pos (length bytes)) (length s.data_bytes)
    then record s { valid = false }
    else elim (set_bytes s.c bytes s.data_bytes) [
      | none ↦ s
      | some array ↦ record s { data_bytes = array; c = s.c +ℤ pos (length bytes) }
    ]

unfoldable pub write_u8 : ℕ → PackedByteStream → PackedByteStream
write_u8 value s = write_raw (encode 1 value) s

unfoldable pub write_u16 : ℕ → PackedByteStream → PackedByteStream
write_u16 value s = write_raw (encode 2 value) s

unfoldable pub write_u32 : ℕ → PackedByteStream → PackedByteStream
write_u32 value s = write_raw (encode 4 value) s

unfoldable pub write_s8 : ℕ → PackedByteStream → PackedByteStream
write_s8 value s = write_raw (encode 1 value) s

unfoldable pub write_s16 : ℕ → PackedByteStream → PackedByteStream
write_s16 value s = write_raw (encode 2 value) s

unfoldable pub write_s32 : ℕ → PackedByteStream → PackedByteStream
write_s32 value s = write_raw (encode 4 value) s

unfoldable pub write_s64 : ℕ → PackedByteStream → PackedByteStream
write_s64 value s = write_raw (encode 8 value) s

unfoldable pub write_u64 : ℕ → PackedByteStream → PackedByteStream
write_u64 value s = write_s64 value s

unfoldable pub write_double : ℕ → PackedByteStream → PackedByteStream
write_double value s = write_raw (encode 8 value) s

unfoldable pub write_signed : ℕ → ℕ → PackedByteStream → PackedByteStream
write_signed value bytes s =
    if bytes == 1
    then write_s8 value s
    else if bytes == 2
    then write_s16 value s
    else if bytes == 4
    then write_s32 value s
    else if bytes == 8
    then write_s64 value s
    else record s { valid = false }

unfoldable pub write_unsigned : ℕ → ℕ → PackedByteStream → PackedByteStream
write_unsigned value bytes s =
    if bytes == 1
    then write_u8 value s
    else if bytes == 2
    then write_u16 value s
    else if bytes == 4
    then write_u32 value s
    else if bytes == 8
    then write_u64 value s
    else record s { valid = false }

-- `resize` refuses a negative size and leaves the result empty, and the loop makes no step then.
unfoldable pub read_bytes : ℤ → PackedByteStream → List ℕ × PackedByteStream
read_bytes size s =
    if exceeds (s.c +ℤ size) (length s.data_bytes)
    then ([], record s { valid = false })
    else elim size [
      | negsuc k ↦ ([], record s { c = s.c +ℤ negsuc k })
      | pos n ↦ elim (get_bytes s.c n s.data_bytes) [
        | none ↦ ([], s)
        | some bytes ↦ (bytes, record s { c = s.c +ℤ pos n })
      ]
    ]

unfoldable pub read_u8 : PackedByteStream → ℕ × PackedByteStream
read_u8 s = read_raw 0 decode 1 s

unfoldable pub read_u16 : PackedByteStream → ℕ × PackedByteStream
read_u16 s = read_raw 0 decode 2 s

unfoldable pub read_u32 : PackedByteStream → ℕ × PackedByteStream
read_u32 s = read_raw 0 decode 4 s

unfoldable pub read_s8 : PackedByteStream → ℕ × PackedByteStream
read_s8 s = read_raw 0 (λ bytes. sign_extend 8 (decode bytes)) 1 s

unfoldable pub read_s16 : PackedByteStream → ℕ × PackedByteStream
read_s16 s = read_raw 0 (λ bytes. sign_extend 16 (decode bytes)) 2 s

unfoldable pub read_s32 : PackedByteStream → ℕ × PackedByteStream
read_s32 s = read_raw 0 (λ bytes. sign_extend 32 (decode bytes)) 4 s

unfoldable pub read_s64 : PackedByteStream → ℕ × PackedByteStream
read_s64 s = read_raw 0 (λ bytes. sign_extend 64 (decode bytes)) 8 s

unfoldable pub read_u64 : PackedByteStream → ℕ × PackedByteStream
read_u64 s = read_s64 s

unfoldable pub read_double : PackedByteStream → ℕ × PackedByteStream
read_double s = read_raw 0 decode 8 s

unfoldable pub read_signed : ℕ → PackedByteStream → ℕ × PackedByteStream
read_signed bytes s =
    if bytes == 1
    then read_s8 s
    else if bytes == 2
    then read_s16 s
    else if bytes == 4
    then read_s32 s
    else if bytes == 8
    then read_s64 s
    else (0, record s { valid = false })

unfoldable pub read_unsigned : ℕ → PackedByteStream → ℕ × PackedByteStream
read_unsigned bytes s =
    if bytes == 1
    then read_u8 s
    else if bytes == 2
    then read_u16 s
    else if bytes == 4
    then read_u32 s
    else if bytes == 8
    then read_u64 s
    else (0, record s { valid = false })

module _ {V : Type 0} (engine : Engine V) where
  unfoldable pub setup_write : ℕ → PackedByteStream → PackedByteStream
  setup_write size s = record s { c = pos 0; data_bytes = resize engine.fresh_byte size [] }

  -- `resize` refuses a negative size and leaves the array alone.
  unfoldable pub allocate : ℤ → PackedByteStream → PackedByteStream
  allocate size s = elim (pos (length s.data_bytes) +ℤ size) [
    | negsuc k ↦ s
    | pos n ↦ record s { data_bytes = resize engine.fresh_byte n s.data_bytes }
  ]

  unfoldable pub write_float : ℕ → PackedByteStream → PackedByteStream
  write_float value s = write_raw (encode 4 (engine.to_single value)) s

  unfoldable pub write_half : ℕ → PackedByteStream → PackedByteStream
  write_half value s = write_raw (encode 2 (engine.to_half value)) s

  unfoldable pub write_variant : V → Bool → PackedByteStream → PackedByteStream
  write_variant value allow_objects s =
      write_bytes
        (if allow_objects
          then engine.var_to_bytes_with_objects value
          else engine.var_to_bytes value)
        s

  unfoldable pub read_float : PackedByteStream → ℕ × PackedByteStream
  read_float s = read_raw 0 (λ bytes. engine.of_single (decode bytes)) 4 s

  unfoldable pub read_half : PackedByteStream → ℕ × PackedByteStream
  read_half s = read_raw 0 (λ bytes. engine.of_half (decode bytes)) 2 s

  unfoldable pub read_variant : Bool → PackedByteStream → V × PackedByteStream
  read_variant allow_objects s =
      let size = engine.decode_var_size s.data_bytes s.c in
      if exceeds (s.c +ℤ pos size) (length s.data_bytes)
      then (engine.null, record s { valid = false })
      else (engine.decode_var s.data_bytes s.c allow_objects, record s { c = s.c +ℤ pos size })

  unfoldable pub get_var_size : V → Bool → ℕ
  get_var_size value allow_objects =
      length (
        if allow_objects then engine.var_to_bytes_with_objects value else engine.var_to_bytes value)

-- ===== src/Stream/Fields.antt =====
-- Fields: numbers of every kind and byte arrays, as one call of the stream each.
use godot_godaemon_multiplay.Prelude.{ℕ, pos, ◌+◌, ◌%◌, List, [], ◌∷◌, ◌++◌, length}
use godot_godaemon_multiplay.Engine.{Engine, encode, sign_extend}
use godot_godaemon_multiplay.Stream.{
  PackedByteStream, write_bytes, read_bytes, write_u8, write_u16, write_u32, write_u64, write_s8,
  write_s16, write_s32, write_s64, write_double, write_float, write_half, read_u8, read_u16,
  read_u32, read_u64, read_s8, read_s16, read_s32, read_s64, read_double, read_float, read_half,
}

-- The kinds of numbers that the stream has methods for.
pub data Kind : Type 0 where
  u8 u16 u32 u64 s8 s16 s32 s64 double float half : Kind

abbrev pub kind_width : Kind → ℕ
kind_width u8 = 1
kind_width u16 = 2
kind_width u32 = 4
kind_width u64 = 8
kind_width s8 = 1
kind_width s16 = 2
kind_width s32 = 4
kind_width s64 = 8
kind_width double = 8
kind_width float = 4
kind_width half = 2

-- A field with its value, and what a reader has to know of it.
pub data Field : Type 0 where
  number : Kind → ℕ → Field
  blob : List ℕ → Field

pub data Shape : Type 0 where
  number_shape : Kind → Shape
  blob_shape : ℕ → Shape

abbrev pub shape_of : Field → Shape
shape_of (number kind value) = number_shape kind
shape_of (blob bytes) = blob_shape (length bytes)

abbrev pub width : Field → ℕ
width (number kind value) = kind_width kind
width (blob bytes) = length bytes

abbrev pub total_width : List Field → ℕ
total_width [] = 0
total_width (field ∷ rest) = width field + total_width rest

module _ {V : Type 0} (engine : Engine V) where
  abbrev pub write_number : Kind → ℕ → PackedByteStream → PackedByteStream
  write_number u8 value s = write_u8 value s
  write_number u16 value s = write_u16 value s
  write_number u32 value s = write_u32 value s
  write_number u64 value s = write_u64 value s
  write_number s8 value s = write_s8 value s
  write_number s16 value s = write_s16 value s
  write_number s32 value s = write_s32 value s
  write_number s64 value s = write_s64 value s
  write_number double value s = write_double value s
  write_number float value s = write_float engine value s
  write_number half value s = write_half engine value s

  abbrev pub read_number : Kind → PackedByteStream → ℕ × PackedByteStream
  read_number u8 s = read_u8 s
  read_number u16 s = read_u16 s
  read_number u32 s = read_u32 s
  read_number u64 s = read_u64 s
  read_number s8 s = read_s8 s
  read_number s16 s = read_s16 s
  read_number s32 s = read_s32 s
  read_number s64 s = read_s64 s
  read_number double s = read_double s
  read_number float s = read_float engine s
  read_number half s = read_half engine s

  -- What is left of a number: the bits that its kind has room for, with the sign spread for a
  -- signed kind, and a float rounded by the engine's conversions.
  abbrev pub kept_number : Kind → ℕ → ℕ
  kept_number u8 value = value % 256
  kept_number u16 value = value % 65536
  kept_number u32 value = value % 4294967296
  kept_number u64 value = sign_extend 64 (value % 18446744073709551616)
  kept_number s8 value = sign_extend 8 (value % 256)
  kept_number s16 value = sign_extend 16 (value % 65536)
  kept_number s32 value = sign_extend 32 (value % 4294967296)
  kept_number s64 value = sign_extend 64 (value % 18446744073709551616)
  kept_number double value = value % 18446744073709551616
  kept_number float value = engine.of_single (engine.to_single value % 4294967296)
  kept_number half value = engine.of_half (engine.to_half value % 65536)

  abbrev pub kept : Field → Field
  kept (number kind value) = number kind (kept_number kind value)
  kept (blob bytes) = blob bytes

  abbrev pub write_field : Field → PackedByteStream → PackedByteStream
  write_field (number kind value) s = write_number kind value s
  write_field (blob bytes) s = write_bytes bytes s

  abbrev pub read_field : Shape → PackedByteStream → Field × PackedByteStream
  read_field (number_shape kind) s = (number kind (read_number kind s).0, (read_number kind s).1)
  read_field (blob_shape size) s = (blob (read_bytes (pos size) s).0, (read_bytes (pos size) s).1)

  abbrev pub write_fields : List Field → PackedByteStream → PackedByteStream
  write_fields [] s = s
  write_fields (field ∷ rest) s = write_fields rest (write_field field s)

  abbrev pub read_fields : List Shape → PackedByteStream → List Field × PackedByteStream
  read_fields [] s = ([], s)
  read_fields (shape ∷ rest) s =
      let (field, t) = read_field shape s in
      let (fields, u) = read_fields rest t in (field ∷ fields, u)

  -- The bytes that a field becomes.
  abbrev pub number_bytes : Kind → ℕ → List ℕ
  number_bytes float value = encode 4 (engine.to_single value)
  number_bytes half value = encode 2 (engine.to_half value)
  number_bytes kind value = encode (kind_width kind) value

  abbrev pub field_bytes : Field → List ℕ
  field_bytes (number kind value) = number_bytes kind value
  field_bytes (blob bytes) = bytes

  -- The bytes of fields, one after the other.
  abbrev pub fields_bytes : List Field → List ℕ
  fields_bytes [] = []
  fields_bytes (field ∷ rest) = field_bytes field ++ fields_bytes rest

-- ===== src/Stream/RoundTrip.antt =====
-- Fields written and read back.
use godot_godaemon_multiplay.Prelude.{
  ℕ, pos, ◌%◌, ◌≤◌, ◌≡◌, refl, sym, ◌∙◌, subst, ap, true, List, [], ◌∷◌, ◌++◌, map, length, arith,
  append_assoc, append-nil, length-append, drop,
}
use godot_godaemon_multiplay.Engine.{Engine, encode, decode, sign_extend}
use godot_godaemon_multiplay.Stream.{
  PackedByteStream, new_stream, setup_write, setup_read, write_raw, read_raw, write_u8, write_u16,
  write_u32, write_u64, write_s8, write_s16, write_s32, write_s64, write_double, write_float,
  write_half, read_u8, read_u16, read_u32, read_u64, read_s8, read_s16, read_s32, read_s64,
  read_double, read_float, read_half,
}
use godot_godaemon_multiplay.Stream.Cursor.{
  length-encode, decode-encode, length-resize, range, length-drop, length-write_raw, StandsAt,
  write_raw-StandsAt, read_raw-StandsAt,
}
use godot_godaemon_multiplay.Stream.Loops.{length-write_bytes, write_bytes-raw, read_bytes-raw}
use godot_godaemon_multiplay.Stream.Fields.{
  Kind, u8, u16, u32, u64, s8, s16, s32, s64, double, float, half, kind_width, Field, number, blob,
  shape_of, width, total_width, write_number, read_number, kept_number, kept, write_field,
  read_field, write_fields, read_fields, number_bytes, field_bytes, fields_bytes,
}

empty_of_length : (xs : List ℕ) → length xs ≡ 0 → xs ≡ []
empty_of_length [] h = refl
empty_of_length (x ∷ xs) h = absurd (omega arith)

module _ {V : Type 0} (engine : Engine V) where
  length-number_bytes :
      (kind : Kind) (value : ℕ) → length (number_bytes engine kind value) ≡ kind_width kind
  length-number_bytes u8 value = length-encode 1 value
  length-number_bytes u16 value = length-encode 2 value
  length-number_bytes u32 value = length-encode 4 value
  length-number_bytes u64 value = length-encode 8 value
  length-number_bytes s8 value = length-encode 1 value
  length-number_bytes s16 value = length-encode 2 value
  length-number_bytes s32 value = length-encode 4 value
  length-number_bytes s64 value = length-encode 8 value
  length-number_bytes double value = length-encode 8 value
  length-number_bytes float value = length-encode 4 _
  length-number_bytes half value = length-encode 2 _

  length-field_bytes : (field : Field) → length (field_bytes engine field) ≡ width field
  length-field_bytes (number kind value) = length-number_bytes kind value
  length-field_bytes (blob bytes) = refl

  write_number-raw :
      (kind : Kind) (value : ℕ) (s : PackedByteStream)
      → write_number engine kind value s ≡ write_raw (number_bytes engine kind value) s
  unfolding write_u8 write_u16 write_u32 write_u64 write_s8 write_s16 write_s32 write_s64
      write_double write_float write_half
  write_number-raw u8 value s = refl
  write_number-raw u16 value s = refl
  write_number-raw u32 value s = refl
  write_number-raw u64 value s = refl
  write_number-raw s8 value s = refl
  write_number-raw s16 value s = refl
  write_number-raw s32 value s = refl
  write_number-raw s64 value s = refl
  write_number-raw double value s = refl
  write_number-raw float value s = refl
  write_number-raw half value s = refl

  write_field-raw :
      (field : Field) (s : PackedByteStream) (i : ℕ)
      → s.c ≡ pos i
      → write_field engine field s ≡ write_raw (field_bytes engine field) s
  write_field-raw (number kind value) s i e = write_number-raw kind value s
  write_field-raw (blob bytes) s i e = write_bytes-raw bytes s i e

  length-write_field :
      (field : Field) (s : PackedByteStream)
      → length (write_field engine field s).data_bytes ≡ length s.data_bytes
  length-write_field (number kind value) s =
      ap (λ t. length t.data_bytes) (write_number-raw kind value s)
      ∙ length-write_raw (number_bytes engine kind value) s
  length-write_field (blob bytes) s = length-write_bytes bytes s

  -- A number's bytes at the cursor, read as a number.
  read_raw-number :
      (convert : ℕ → ℕ) (n value : ℕ) (done rest : List ℕ) (s : PackedByteStream)
      → StandsAt done (encode n value ++ rest) s
      → ((read_raw 0 (λ bytes. convert (decode bytes)) n s).0 ≡ convert (value % range n))
        × StandsAt
            (done ++ encode n value)
            rest
            (read_raw 0 (λ bytes. convert (decode bytes)) n s).1
  read_raw-number convert n value done rest s at =
      let (e, after) =
        read_raw-StandsAt 0 (λ bytes. convert (decode bytes)) done (encode n value) rest n s at
          (length-encode n value) in
      (e ∙ ap convert (decode-encode n value), after)

  pub read_number-StandsAt :
      (kind : Kind) (value : ℕ) (done rest : List ℕ) (s : PackedByteStream)
      → StandsAt done (number_bytes engine kind value ++ rest) s
      → ((read_number engine kind s).0 ≡ kept_number engine kind value)
        × StandsAt (done ++ number_bytes engine kind value) rest (read_number engine kind s).1
  unfolding read_u8 read_u16 read_u32 read_u64 read_s8 read_s16 read_s32 read_s64 read_double
      read_float read_half
  read_number-StandsAt u8 value done rest s at = read_raw-number (λ x. x) 1 value done rest s at
  read_number-StandsAt u16 value done rest s at = read_raw-number (λ x. x) 2 value done rest s at
  read_number-StandsAt u32 value done rest s at = read_raw-number (λ x. x) 4 value done rest s at
  read_number-StandsAt u64 value done rest s at =
      read_raw-number (sign_extend 64) 8 value done rest s at
  read_number-StandsAt s8 value done rest s at =
      read_raw-number (sign_extend 8) 1 value done rest s at
  read_number-StandsAt s16 value done rest s at =
      read_raw-number (sign_extend 16) 2 value done rest s at
  read_number-StandsAt s32 value done rest s at =
      read_raw-number (sign_extend 32) 4 value done rest s at
  read_number-StandsAt s64 value done rest s at =
      read_raw-number (sign_extend 64) 8 value done rest s at
  read_number-StandsAt double value done rest s at = read_raw-number (λ x. x) 8 value done rest s at
  read_number-StandsAt float value done rest s at =
      read_raw-number engine.of_single 4 (engine.to_single value) done rest s at
  read_number-StandsAt half value done rest s at =
      read_raw-number engine.of_half 2 (engine.to_half value) done rest s at

  read_field-StandsAt :
      (field : Field) (done rest : List ℕ) (s : PackedByteStream)
      → StandsAt done (field_bytes engine field ++ rest) s
      → ((read_field engine (shape_of field) s).0 ≡ kept engine field)
        × StandsAt (done ++ field_bytes engine field) rest (read_field engine (shape_of field) s).1
  read_field-StandsAt (number kind value) done rest s at =
      let (e, after) = read_number-StandsAt kind value done rest s at in (ap (number kind) e, after)
  read_field-StandsAt (blob bytes) done rest s at =
      let (e, after) =
        subst (λ r. (r.0 ≡ bytes) × StandsAt (done ++ bytes) rest r.1)
          (sym (read_bytes-raw (length bytes) s (length done) at.cursor_is))
          (read_raw-StandsAt [] (λ bytes. bytes) done bytes rest (length bytes) s at refl) in
      (ap blob e, after)

  write_fields-StandsAt :
      (fields : List Field) (done room : List ℕ) (s : PackedByteStream)
      → StandsAt done room s
      → total_width fields ≤ length room
      → (rest : List ℕ) × StandsAt
          (done ++ fields_bytes engine fields)
          rest
          (write_fields engine fields s)
  write_fields-StandsAt [] done room s at fits =
      (room, subst (λ xs. StandsAt xs room s) (sym (append-nil done)) at)
  write_fields-StandsAt (field ∷ fields) done room s at fits =
      let bytes = field_bytes engine field in
      let next =
        subst (λ t. StandsAt (done ++ bytes) (drop (length bytes) room) t)
          (sym (write_field-raw field s (length done) at.cursor_is))
          (write_raw-StandsAt done room bytes s at (omega (arith, length-field_bytes field))) in
      let (rest, after) =
        write_fields-StandsAt fields (done ++ bytes) (drop (length bytes) room)
          (write_field engine field s) next
          (omega (arith, length-field_bytes field, length-drop (length bytes) room)) in
      (
        rest,
        subst (λ xs. StandsAt xs rest (write_fields engine fields (write_field engine field s)))
            (append_assoc done bytes (fields_bytes engine fields)) after,
      )

  pub read_fields-StandsAt :
      (fields : List Field) (done rest : List ℕ) (s : PackedByteStream)
      → StandsAt done (fields_bytes engine fields ++ rest) s
      → ((read_fields engine (map shape_of fields) s).0 ≡ map (kept engine) fields)
        × StandsAt
            (done ++ fields_bytes engine fields)
            rest
            (read_fields engine (map shape_of fields) s).1
  read_fields-StandsAt [] done rest s at =
      (refl, subst (λ xs. StandsAt xs rest s) (sym (append-nil done)) at)
  read_fields-StandsAt (field ∷ fields) done rest s at =
      let bytes = field_bytes engine field in
      let (e, next) = read_field-StandsAt field done (fields_bytes engine fields ++ rest) s (
        subst (λ xs. StandsAt done xs s) (append_assoc bytes (fields_bytes engine fields) rest)
          at) in
      let (f, after) =
        read_fields-StandsAt fields (done ++ bytes) rest (read_field engine (shape_of field) s).1
          next in
      (
        rw (e, f) refl,
        subst
            (λ xs.
              StandsAt xs rest
                (read_fields engine (map shape_of fields)
                  (read_field engine (shape_of field) s).1).1)
            (append_assoc done bytes (fields_bytes engine fields)) after,
      )

  length-fields_bytes :
      (fields : List Field) → length (fields_bytes engine fields) ≡ total_width fields
  length-fields_bytes [] = refl
  length-fields_bytes (field ∷ rest) = omega (
    arith,
    length-append (field_bytes engine field) (fields_bytes engine rest),
    length-field_bytes field,
    length-fields_bytes rest,
  )

  length-write_fields :
      (fields : List Field) (s : PackedByteStream)
      → length (write_fields engine fields s).data_bytes ≡ length s.data_bytes
  length-write_fields [] s = refl
  length-write_fields (field ∷ rest) s =
      length-write_fields rest (write_field engine field s) ∙ length-write_field field s

  -- Fields that fill an array.
  pub fields_fill :
      (fields : List Field)
      → let written =
          write_fields engine fields (setup_write engine (total_width fields) new_stream) in
        (written.data_bytes ≡ fields_bytes engine fields) × (written.valid ≡ true)
  unfolding setup_write new_stream
  fields_fill fields =
      let size = total_width fields in
      let start = setup_write engine size new_stream in
      let written = write_fields engine fields start in
      let room = length-resize engine.fresh_byte size [] in
      let (rest, end) =
        write_fields-StandsAt fields [] start.data_bytes start
          (record { array_is = refl; cursor_is = refl; is_valid = refl }) (omega (arith, room)) in
      let none_left : rest ≡ [] = empty_of_length rest (
        omega (
          arith,
          ap length end.array_is,
          length-write_fields fields start,
          room,
          length-append (fields_bytes engine fields) rest,
          length-fields_bytes fields,
        )) in
      (
        subst (λ xs. written.data_bytes ≡ fields_bytes engine fields ++ xs) none_left end.array_is
            ∙ append-nil (fields_bytes engine fields),
        end.is_valid,
      )

  -- Any numbers and byte arrays that are written to a stream that was set up with room for them
  -- are read back in order, and the stream is valid at both ends and of the size it was set up
  -- with. Of a number the bits that its kind has room for come back, with the sign spread for a
  -- signed kind, and a float as the engine's conversions round it.
  pub read_fields-write_fields :
      (fields : List Field) (size : ℕ)
      → total_width fields ≤ size
      → let written = write_fields engine fields (setup_write engine size new_stream) in
        let back =
          read_fields engine (map shape_of fields) (setup_read written.data_bytes new_stream) in
        (written.valid ≡ true)
        × (length written.data_bytes ≡ size)
        × (back.0 ≡ map (kept engine) fields)
        × (back.1.valid ≡ true)
        × (back.1.c ≡ pos (total_width fields))
  unfolding setup_write setup_read new_stream
  read_fields-write_fields fields size fits =
      let start = setup_write engine size new_stream in
      let written = write_fields engine fields start in
      let room = length-resize engine.fresh_byte size [] in
      let (rest, end) =
        write_fields-StandsAt fields [] start.data_bytes start
          (record { array_is = refl; cursor_is = refl; is_valid = refl }) (omega (arith, room)) in
      let (e, back) =
        read_fields-StandsAt fields [] rest (setup_read written.data_bytes new_stream)
          (record { array_is = end.array_is; cursor_is = refl; is_valid = refl }) in
      (
        end.is_valid,
        omega (arith, length-write_fields fields start, room),
        e,
        back.is_valid,
        back.cursor_is ∙ ap pos (length-fields_bytes fields),
      )

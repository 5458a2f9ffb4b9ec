-- ===== src/Stream/Bounds.antt =====
-- The bounds of the stream: every method leaves the cursor in the array.
use godot_godaemon_multiplay.Prelude.{
  ℕ, suc, ◌-◌, ℤ, pos, negsuc, ◌+ℤ◌, ◌+◌, ◌≤◌, ◌<◌, ◌≡◌, refl, sym, subst, inl, inr, Bool, true,
  false, List, [], ◌∷◌, length, ltb, if◌then◌else◌, ◌==◌, arith, Bool-cases,
}
use godot_godaemon_multiplay.Engine.{Engine, resize, decode, sign_extend}
use godot_godaemon_multiplay.Stream.{
  PackedByteStream, setup_write, setup_read, allocate, write_bytes, write_signed, write_unsigned,
  write_variant, read_signed, read_unsigned, read_variant, read_bytes, write_u8, write_u16,
  write_u32, write_u64, write_s8, write_s16, write_s32, write_s64, read_u8, read_u16, read_u32,
  read_u64, read_s8, read_s16, read_s32, read_s64, read_double, read_float, read_half, write_double,
  write_float, write_half,
}
use godot_godaemon_multiplay.Stream.Cursor.{
  length-resize, IsWithin, Guarded, write_raw-Guarded, read_raw-Guarded,
}
use godot_godaemon_multiplay.Stream.Loops.{write_bytes-raw, read_bytes-raw}
use godot_godaemon_multiplay.Stream.Fields.{
  Kind, u8, u16, u32, u64, s8, s16, s32, s64, double, float, half, write_number, read_number,
}

-- A call of the stream. The numbers of `signed_written` and its like are a value and a count of bytes.
pub data Call (V : Type 0) : Type 0 where
  writing_set_up : ℕ → Call V
  allocated read_bytes_called : ℤ → Call V
  reading_set_up bytes_written : List ℕ → Call V
  number_written : Kind → ℕ → Call V
  number_read : Kind → Call V
  signed_written unsigned_written : ℕ → ℕ → Call V
  signed_read unsigned_read : ℕ → Call V
  variant_written : V → Bool → Call V
  variant_read : Bool → Call V

Guarded-if :
    (b : Bool) (s t u : PackedByteStream)
    → Guarded s t
    → Guarded s u
    → Guarded s (if b then t else u)
Guarded-if true s t u h k = h
Guarded-if false s t u h k = k

module _ {V : Type 0} (engine : Engine V) where
  abbrev pub call : Call V → PackedByteStream → PackedByteStream
  call (writing_set_up size) s = setup_write engine size s
  call (allocated size) s = allocate engine size s
  call (read_bytes_called size) s = (read_bytes size s).1
  call (reading_set_up array) s = setup_read array s
  call (bytes_written bytes) s = write_bytes bytes s
  call (number_written kind value) s = write_number engine kind value s
  call (number_read kind) s = (read_number engine kind s).1
  call (signed_written value bytes) s = write_signed value bytes s
  call (unsigned_written value bytes) s = write_unsigned value bytes s
  call (signed_read bytes) s = (read_signed bytes s).1
  call (unsigned_read bytes) s = (read_unsigned bytes s).1
  call (variant_written value objects) s = write_variant engine value objects s
  call (variant_read objects) s = (read_variant engine objects s).1

  write_number-Guarded :
      (kind : Kind) (value : ℕ) (s : PackedByteStream)
      → IsWithin s
      → Guarded s (write_number engine kind value s)
  unfolding write_u8 write_u16 write_u32 write_u64 write_s8 write_s16 write_s32 write_s64
      write_double write_float write_half
  write_number-Guarded u8 value s w = write_raw-Guarded _ s w
  write_number-Guarded u16 value s w = write_raw-Guarded _ s w
  write_number-Guarded u32 value s w = write_raw-Guarded _ s w
  write_number-Guarded u64 value s w = write_raw-Guarded _ s w
  write_number-Guarded s8 value s w = write_raw-Guarded _ s w
  write_number-Guarded s16 value s w = write_raw-Guarded _ s w
  write_number-Guarded s32 value s w = write_raw-Guarded _ s w
  write_number-Guarded s64 value s w = write_raw-Guarded _ s w
  write_number-Guarded double value s w = write_raw-Guarded _ s w
  write_number-Guarded float value s w = write_raw-Guarded _ s w
  write_number-Guarded half value s w = write_raw-Guarded _ s w

  read_number-Guarded :
      (kind : Kind) (s : PackedByteStream) → IsWithin s → Guarded s (read_number engine kind s).1
  unfolding read_u8 read_u16 read_u32 read_u64 read_s8 read_s16 read_s32 read_s64 read_double
      read_float read_half
  read_number-Guarded u8 s w = read_raw-Guarded 0 decode 1 s w
  read_number-Guarded u16 s w = read_raw-Guarded 0 decode 2 s w
  read_number-Guarded u32 s w = read_raw-Guarded 0 decode 4 s w
  read_number-Guarded u64 s w = read_raw-Guarded 0 (λ bytes. sign_extend 64 (decode bytes)) 8 s w
  read_number-Guarded s8 s w = read_raw-Guarded 0 (λ bytes. sign_extend 8 (decode bytes)) 1 s w
  read_number-Guarded s16 s w = read_raw-Guarded 0 (λ bytes. sign_extend 16 (decode bytes)) 2 s w
  read_number-Guarded s32 s w = read_raw-Guarded 0 (λ bytes. sign_extend 32 (decode bytes)) 4 s w
  read_number-Guarded s64 s w = read_raw-Guarded 0 (λ bytes. sign_extend 64 (decode bytes)) 8 s w
  read_number-Guarded double s w = read_raw-Guarded 0 decode 8 s w
  read_number-Guarded float s w =
      read_raw-Guarded 0 (λ bytes. engine.of_single (decode bytes)) 4 s w
  read_number-Guarded half s w = read_raw-Guarded 0 (λ bytes. engine.of_half (decode bytes)) 2 s w

  write_signed-Guarded :
      (value bytes : ℕ) (s : PackedByteStream) → IsWithin s → Guarded s (write_signed value bytes s)
  unfolding write_signed
  write_signed-Guarded value bytes s w =
      Guarded-if (bytes == 1) s _ _ (write_number-Guarded s8 value s w) (
        Guarded-if (bytes == 2) s _ _ (write_number-Guarded s16 value s w) (
          Guarded-if (bytes == 4) s _ _ (write_number-Guarded s32 value s w)
            (Guarded-if (bytes == 8) s _ _ (write_number-Guarded s64 value s w) (inl refl))))

  write_unsigned-Guarded :
      (value bytes : ℕ) (s : PackedByteStream)
      → IsWithin s
      → Guarded s (write_unsigned value bytes s)
  unfolding write_unsigned
  write_unsigned-Guarded value bytes s w =
      Guarded-if (bytes == 1) s _ _ (write_number-Guarded u8 value s w) (
        Guarded-if (bytes == 2) s _ _ (write_number-Guarded u16 value s w) (
          Guarded-if (bytes == 4) s _ _ (write_number-Guarded u32 value s w)
            (Guarded-if (bytes == 8) s _ _ (write_number-Guarded u64 value s w) (inl refl))))

  Guarded-if_1 :
      {A : Type 0} (b : Bool) (s : PackedByteStream) (x y : A × PackedByteStream)
      → Guarded s x.1
      → Guarded s y.1
      → Guarded s (if b then x else y).1
  Guarded-if_1 true s x y h k = h
  Guarded-if_1 false s x y h k = k

  read_signed-Guarded :
      (bytes : ℕ) (s : PackedByteStream) → IsWithin s → Guarded s (read_signed bytes s).1
  unfolding read_signed
  read_signed-Guarded bytes s w = Guarded-if_1 (bytes == 1) s _ _ (read_number-Guarded s8 s w) (
      Guarded-if_1 (bytes == 2) s _ _ (read_number-Guarded s16 s w) (
        Guarded-if_1 (bytes == 4) s _ _ (read_number-Guarded s32 s w)
          (Guarded-if_1 (bytes == 8) s _ _ (read_number-Guarded s64 s w) (inl refl))))

  read_unsigned-Guarded :
      (bytes : ℕ) (s : PackedByteStream) → IsWithin s → Guarded s (read_unsigned bytes s).1
  unfolding read_unsigned
  read_unsigned-Guarded bytes s w = Guarded-if_1 (bytes == 1) s _ _ (read_number-Guarded u8 s w) (
      Guarded-if_1 (bytes == 2) s _ _ (read_number-Guarded u16 s w) (
        Guarded-if_1 (bytes == 4) s _ _ (read_number-Guarded u32 s w)
          (Guarded-if_1 (bytes == 8) s _ _ (read_number-Guarded u64 s w) (inl refl))))

  read_variant-Guarded :
      (objects : Bool) (s : PackedByteStream)
      → IsWithin s
      → Guarded s (read_variant engine objects s).1
  unfolding read_variant
  read_variant-Guarded objects s (i, e, inside) =
      let size = engine.decode_var_size s.data_bytes (pos i) in
      elim (Bool-cases (ltb (length s.data_bytes) (i + size))) [
        | inl over ↦ inl (rw (e, over) refl)
        | inr fits ↦ inr (rw (e, fits) (refl, (i + size, refl, ground arith)))
      ]

  -- The cursor is in the array, and an invalid stream stays so.
  abbrev pub StaysInBounds : PackedByteStream → PackedByteStream → Type 0
  StaysInBounds s t = IsWithin t × (s.valid ≡ false → t.valid ≡ false)

  Guarded-StaysInBounds : (s t : PackedByteStream) → IsWithin s → Guarded s t → StaysInBounds s t
  Guarded-StaysInBounds s t h (inl marked) =
      subst (λ u. StaysInBounds s u) (sym marked) (h, λ _. refl)
  Guarded-StaysInBounds s t h (inr (same, inside)) = (inside, λ e. ground (arith, same, e))

  -- The size that a call is given is not negative.
  abbrev pub HasCount : Call V → Type 0
  HasCount (allocated (negsuc k)) = ⊥
  HasCount (read_bytes_called (negsuc k)) = ⊥
  HasCount _ = Unit {0}

  call-StaysInBounds :
      (k : Call V) (s : PackedByteStream) → HasCount k → IsWithin s → StaysInBounds s (call k s)
  unfolding setup_write setup_read allocate write_variant
  call-StaysInBounds (writing_set_up size) s _ h = ((0, refl, omega arith), λ e. e)
  call-StaysInBounds (allocated (negsuc k)) s bad h = absurd bad
  call-StaysInBounds (allocated (pos size)) s _ (i, e, inside) = (
    (
      i,
      e,
      omega (
        arith,
        inside,
        length-resize engine.fresh_byte (length s.data_bytes + size) s.data_bytes,
      ),
    ),
    λ e. e,
  )
  call-StaysInBounds (reading_set_up array) s _ h = ((0, refl, omega arith), λ e. e)
  call-StaysInBounds (read_bytes_called (negsuc k)) s bad h = absurd bad
  call-StaysInBounds (read_bytes_called (pos size)) s _ h =
      subst (λ r. StaysInBounds s r.1) (sym (read_bytes-raw size s h.0 h.1))
        (Guarded-StaysInBounds s _ h (read_raw-Guarded [] (λ bytes. bytes) size s h))
  call-StaysInBounds (bytes_written bytes) s _ h =
      subst (λ t. StaysInBounds s t) (sym (write_bytes-raw bytes s h.0 h.1))
        (Guarded-StaysInBounds s _ h (write_raw-Guarded bytes s h))
  call-StaysInBounds (number_written kind value) s _ h =
      Guarded-StaysInBounds s _ h (write_number-Guarded kind value s h)
  call-StaysInBounds (number_read kind) s _ h =
      Guarded-StaysInBounds s _ h (read_number-Guarded kind s h)
  call-StaysInBounds (signed_written value bytes) s _ h =
      Guarded-StaysInBounds s _ h (write_signed-Guarded value bytes s h)
  call-StaysInBounds (unsigned_written value bytes) s _ h =
      Guarded-StaysInBounds s _ h (write_unsigned-Guarded value bytes s h)
  call-StaysInBounds (signed_read bytes) s _ h =
      Guarded-StaysInBounds s _ h (read_signed-Guarded bytes s h)
  call-StaysInBounds (unsigned_read bytes) s _ h =
      Guarded-StaysInBounds s _ h (read_unsigned-Guarded bytes s h)
  call-StaysInBounds (variant_written value objects) s _ h =
      subst (λ t. StaysInBounds s t) (sym (write_bytes-raw _ s h.0 h.1))
        (Guarded-StaysInBounds s _ h (write_raw-Guarded _ s h))
  call-StaysInBounds (variant_read objects) s _ h =
      Guarded-StaysInBounds s _ h (read_variant-Guarded objects s h)

  abbrev pub calls : List (Call V) → PackedByteStream → PackedByteStream
  calls [] s = s
  calls (k ∷ rest) s = calls rest (call k s)

  -- No call is given a negative size.
  abbrev pub HaveCounts : List (Call V) → Type 0
  HaveCounts [] = Unit {0}
  HaveCounts (k ∷ rest) = HasCount k × HaveCounts rest

  -- Whatever calls are made of a stream whose cursor is within its array, where none gives
  -- `allocate` or `read_bytes` a negative size, the cursor stays within the array, and a stream
  -- that was marked as invalid stays so.
  pub calls-StaysInBounds :
      (ks : List (Call V)) (s : PackedByteStream)
      → HaveCounts ks
      → IsWithin s
      → StaysInBounds s (calls ks s)
  calls-StaysInBounds [] s _ h = (h, λ e. e)
  calls-StaysInBounds (k ∷ rest) s (count, counts) h =
      let (inside, marked) = call-StaysInBounds k s count h in
      let (at_end, still) = calls-StaysInBounds rest (call k s) counts inside in
      (at_end, λ e. still (marked e))

  -- A negative size is not refused. On a valid stream with the cursor i within the array, and
  -- for a k of at least i such that the array has more than k bytes and at most k + i,
  -- `read_bytes` of -(k + 1) gives no bytes and moves the cursor to i - (k + 1), which is below
  -- 0, and `allocate` of -(k + 1) leaves the cursor where it is, beyond the end of the array;
  -- the stream stays valid both times.
  pub negative_sizes_unguarded :
      (k i : ℕ) (s : PackedByteStream)
      → s.valid ≡ true
      → s.c ≡ pos i
      → i ≤ k
      → k < length s.data_bytes
      → i ≤ length s.data_bytes
      → length s.data_bytes ≤ k + i
      → let (bytes, t) = read_bytes (negsuc k) s in
        let u = allocate engine (negsuc k) s in
        (bytes ≡ [])
        × (t.valid ≡ true)
        × (t.c ≡ negsuc (k - i))
        × (u.valid ≡ true)
        × (u.c ≡ pos i)
        × (length u.data_bytes < i)
  unfolding read_bytes allocate
  negative_sizes_unguarded k i s ok e low fits inside over =
      let back : pos i +ℤ negsuc k ≡ negsuc (k - i) = ground arith in
      let shorter = resize engine.fresh_byte (length s.data_bytes - suc k) s.data_bytes in
      let cut : allocate engine (negsuc k) s ≡ record s { data_bytes = shorter } =
        ground (arith, fits) in
      let (valid, cursor, beyond) =
        subst (λ u. (u.valid ≡ true) × (u.c ≡ pos i) × (length u.data_bytes < i)) (sym cut)
          (
            ok,
            e,
            omega
                (arith, length-resize engine.fresh_byte (length s.data_bytes - suc k) s.data_bytes),
          ) in
      (rw (e, back) refl, rw (e, back) ok, rw (e, back) refl, valid, cursor, beyond)

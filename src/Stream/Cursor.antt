-- ===== src/Stream/Cursor.antt =====
-- Bytes written at the cursor, and bytes read from there.
use godot_godaemon_multiplay.Prelude.{
  ℕ, ℤ, pos, negsuc, ◌+ℤ◌, exceeds, zero, suc, ◌+◌, ◌-◌, ◌*◌, ◌/◌, ◌%◌, ◌≤◌, ◌≡◌, refl, sym, ◌∙◌,
  subst, ap, true, false, List, [], ◌∷◌, ◌++◌, length, ltb, Bool-cases, ◌⊎◌, inl, inr, arith,
  append_assoc, length-append, drop,
}
use native.Mathlib.Nat.{mod-add-div, div-div-eq-div-mul, mul_assoc}
use godot_godaemon_multiplay.Engine.{
  resize, encode, decode, overwrite, bytes_at, encode_at, decode_at,
}
use godot_godaemon_multiplay.Stream.{PackedByteStream, write_raw, read_raw}
use godot_godaemon_multiplay.Stream.Loops.{length-overwrite}

pub length-encode : (n value : ℕ) → length (encode n value) ≡ n
unfolding encode
length-encode zero value = refl
length-encode (suc n) value = ap suc (length-encode n (value / 256))

-- `256 ^ n`, one byte at a time.
abbrev pub range : ℕ → ℕ
range zero = 1
range (suc n) = 256 * range n

pub decode-encode : (n value : ℕ) → decode (encode n value) ≡ value % range n
unfolding encode decode
decode-encode zero value = ground arith
decode-encode (suc n) value =
    let q = value / 256 in
    let e : 256 * range n * (value / (256 * range n)) ≡ 256 * (range n * (q / range n)) =
      subst (λ k. 256 * range n * k ≡ 256 * (range n * (q / range n)))
        (div-div-eq-div-mul value 256 (range n)) (mul_assoc 256 (range n) (q / range n)) in
    omega (arith, e, decode-encode n q, mod-add-div q (range n), mod-add-div value (256 * range n))

pub length-resize : (fresh : ℕ → ℕ) (n : ℕ) (array : List ℕ) → length (resize fresh n array) ≡ n
unfolding resize
length-resize fresh zero array = refl
length-resize fresh (suc n) [] = ap suc (length-resize fresh n [])
length-resize fresh (suc n) (x ∷ array) = ap suc (length-resize fresh n array)

pub length-drop : (n : ℕ) (array : List ℕ) → length (drop n array) ≡ length array - n
length-drop zero array = omega arith
length-drop (suc n) [] = omega arith
length-drop (suc n) (x ∷ array) = omega (arith, length-drop n array)

overwrite_here :
    (bytes array : List ℕ)
    → length bytes ≤ length array
    → overwrite 0 bytes array ≡ bytes ++ drop (length bytes) array
unfolding overwrite
overwrite_here [] array h = refl
overwrite_here (b ∷ bytes) [] h = absurd (omega arith)
overwrite_here (b ∷ bytes) (x ∷ array) h =
    ap (λ xs. b ∷ xs) (overwrite_here bytes array (omega arith))

overwrite-append :
    (done bytes room : List ℕ)
    → length bytes ≤ length room
    → overwrite (length done) bytes (done ++ room) ≡ done ++ bytes ++ drop (length bytes) room
unfolding overwrite
overwrite-append [] bytes room h = overwrite_here bytes room h
overwrite-append (x ∷ done) bytes room h = ap (λ xs. x ∷ xs) (overwrite-append done bytes room h)

bytes_here : (bytes rest : List ℕ) → bytes_at 0 (length bytes) (bytes ++ rest) ≡ bytes
unfolding bytes_at
bytes_here [] rest = refl
bytes_here (b ∷ bytes) rest = ap (λ xs. b ∷ xs) (bytes_here bytes rest)

bytes_at-append :
    (done bytes rest : List ℕ)
    → bytes_at (length done) (length bytes) (done ++ (bytes ++ rest)) ≡ bytes
unfolding bytes_at
bytes_at-append [] bytes rest = bytes_here bytes rest
bytes_at-append (x ∷ done) [] rest = refl
bytes_at-append (x ∷ done) (b ∷ bytes) rest = bytes_at-append done (b ∷ bytes) rest

-- The stream is valid and its cursor stands between the two parts of its array.
pub record StandsAt (done rest : List ℕ) (s : PackedByteStream) : Type 0 where
  pub array_is : s.data_bytes ≡ done ++ rest
  pub cursor_is : s.c ≡ pos (length done)
  pub is_valid : s.valid ≡ true

pub write_raw-StandsAt :
    (done room bytes : List ℕ) (s : PackedByteStream)
    → StandsAt done room s
    → length bytes ≤ length room
    → StandsAt (done ++ bytes) (drop (length bytes) room) (write_raw bytes s)
unfolding write_raw encode_at
write_raw-StandsAt done room bytes s at fits =
    let stays : ltb (length s.data_bytes) (length done + length bytes) ≡ false =
      ground (arith, at.array_is, length-append done room) in
    rw (at.cursor_is, stays)
      (record {
        array_is =
            subst
              (λ xs. overwrite (length done) bytes xs ≡ (done ++ bytes) ++ drop (length bytes) room)
              (sym at.array_is) (overwrite-append done bytes room fits);
        cursor_is = ap pos (omega (arith, length-append done bytes));
        is_valid = at.is_valid;
      })

pub read_raw-StandsAt :
    {A : Type 0} (missing : A) (convert : List ℕ → A) (done bytes rest : List ℕ) (size : ℕ)
    (s : PackedByteStream)
    → StandsAt done (bytes ++ rest) s
    → length bytes ≡ size
    → ((read_raw missing convert size s).0 ≡ convert bytes)
      × StandsAt (done ++ bytes) rest (read_raw missing convert size s).1
unfolding read_raw decode_at
read_raw-StandsAt missing convert done bytes rest size s at fit =
    let stays : ltb (length s.data_bytes) (length done + size) ≡ false =
      ground (arith, at.array_is, length-append done (bytes ++ rest), length-append bytes rest) in
    let taken : bytes_at (length done) size s.data_bytes ≡ bytes =
      subst (λ n. bytes_at (length done) n s.data_bytes ≡ bytes) fit
        (subst (λ xs. bytes_at (length done) (length bytes) xs ≡ bytes) (sym at.array_is)
          (bytes_at-append done bytes rest)) in
    rw (at.cursor_is, stays)
      (
        ap convert taken,
        record {
          array_is = at.array_is ∙ sym (append_assoc done bytes rest);
          cursor_is = ap pos (omega (arith, length-append done bytes));
          is_valid = at.is_valid;
        },
      )

-- The cursor is in the array.
abbrev pub IsWithin : PackedByteStream → Type 0
IsWithin s = (n : ℕ) × (s.c ≡ pos n) × (n ≤ length s.data_bytes)

-- A write or a read either goes through, within the array, or only marks the stream as invalid.
abbrev pub Guarded : PackedByteStream → PackedByteStream → Type 0
Guarded s t = (t ≡ record s { valid = false }) ⊎ ((t.valid ≡ s.valid) × IsWithin t)

pub write_raw-Guarded :
    (bytes : List ℕ) (s : PackedByteStream) → IsWithin s → Guarded s (write_raw bytes s)
unfolding write_raw encode_at
write_raw-Guarded bytes s (i, e, inside) =
    elim (Bool-cases (ltb (length s.data_bytes) (i + length bytes))) [
      | inl over ↦ inl (rw (e, over) refl)
      | inr fits ↦ inr (
          rw (e, fits)
            (refl, (i + length bytes, refl, ground (arith, length-overwrite i bytes s.data_bytes))))
    ]

pub read_raw-Guarded :
    {A : Type 0} (missing : A) (convert : List ℕ → A) (size : ℕ) (s : PackedByteStream)
    → IsWithin s
    → Guarded s (read_raw missing convert size s).1
unfolding read_raw decode_at
read_raw-Guarded missing convert size s (i, e, inside) =
    elim (Bool-cases (ltb (length s.data_bytes) (i + size))) [
      | inl over ↦ inl (rw (e, over) refl)
      | inr fits ↦ inr (rw (e, fits) (refl, (i + size, refl, ground arith)))
    ]

length-encode_at :
    (at : ℤ) (bytes array : List ℕ) → length (encode_at at bytes array) ≡ length array
unfolding encode_at
length-encode_at (pos i) bytes array = length-overwrite i bytes array
length-encode_at (negsuc k) bytes array = refl

pub length-write_raw :
    (bytes : List ℕ) (s : PackedByteStream)
    → length (write_raw bytes s).data_bytes ≡ length s.data_bytes
unfolding write_raw
length-write_raw bytes s =
    elim (Bool-cases (exceeds (s.c +ℤ pos (length bytes)) (length s.data_bytes))) [
      | inl over ↦ rw over refl
      | inr fits ↦ rw fits (length-encode_at s.c bytes s.data_bytes)
    ]

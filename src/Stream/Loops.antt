-- ===== src/Stream/Loops.antt =====
-- The loops of `write_bytes` and `read_bytes`, which within the array do what a write or a read of a
-- number does.
use godot_godaemon_multiplay.Prelude.{
  ℕ, ◌<◌, Option-cases, append-nil, some, ℤ, pos, ◌+ℤ◌, exceeds, zero, suc, ◌+◌, ◌≤◌, ◌≡◌, refl,
  sym, ◌∙◌, ap, List, [], ◌∷◌, ◌++◌, length, ltb, Bool-cases, inl, inr, arith,
}
use godot_godaemon_multiplay.Engine.{
  overwrite, bytes_at, encode_at, decode_at, index_of, set_bytes, get_bytes,
}
use godot_godaemon_multiplay.Stream.{PackedByteStream, write_raw, read_raw, write_bytes, read_bytes}

pub length-overwrite :
    (i : ℕ) (bytes array : List ℕ) → length (overwrite i bytes array) ≡ length array
unfolding overwrite
length-overwrite zero [] array = refl
length-overwrite zero (b ∷ bytes) [] = refl
length-overwrite zero (b ∷ bytes) (x ∷ array) = ap suc (length-overwrite zero bytes array)
length-overwrite (suc i) bytes [] = refl
length-overwrite (suc i) bytes (x ∷ array) = ap suc (length-overwrite i bytes array)

overwrite_nothing : (i : ℕ) (array : List ℕ) → overwrite i [] array ≡ array
unfolding overwrite
overwrite_nothing zero array = refl
overwrite_nothing (suc i) [] = refl
overwrite_nothing (suc i) (x ∷ array) = ap (λ xs. x ∷ xs) (overwrite_nothing i array)

overwrite_next :
    (i b : ℕ) (bytes array : List ℕ)
    → overwrite (suc i) bytes (overwrite i (b ∷ []) array) ≡ overwrite i (b ∷ bytes) array
unfolding overwrite
overwrite_next zero b bytes [] = refl
overwrite_next zero b bytes (x ∷ array) = refl
overwrite_next (suc i) b bytes [] = refl
overwrite_next (suc i) b bytes (x ∷ array) = ap (λ xs. x ∷ xs) (overwrite_next i b bytes array)

-- The loop of `write_bytes` within the array.
set_bytes_within :
    (i : ℕ) (bytes array : List ℕ)
    → i + length bytes ≤ length array
    → set_bytes (pos i) bytes array ≡ some (overwrite i bytes array)
unfolding set_bytes index_of
set_bytes_within i [] array h = ap some (sym (overwrite_nothing i array))
set_bytes_within i (b ∷ rest) array h =
    let later =
      set_bytes_within (suc i) rest (overwrite i (b ∷ []) array)
        (omega (arith, length-overwrite i (b ∷ []) array)) in
    ground (arith, later, overwrite_next i b rest array)

bytes_at_next :
    (i n : ℕ) (array : List ℕ)
    → i < length array
    → bytes_at i 1 array ++ bytes_at (suc i) n array ≡ bytes_at i (suc n) array
unfolding bytes_at
bytes_at_next i n [] h = absurd (omega arith)
bytes_at_next zero zero (x ∷ array) h = refl
bytes_at_next zero (suc n) (x ∷ array) h = refl
bytes_at_next (suc i) zero (x ∷ array) h = append-nil (bytes_at i 1 array)
bytes_at_next (suc i) (suc n) (x ∷ array) h = bytes_at_next i (suc n) array (omega arith)

-- The loop of `read_bytes` within the array.
get_bytes_within :
    (i n : ℕ) (array : List ℕ)
    → i + n ≤ length array
    → get_bytes (pos i) n array ≡ some (bytes_at i n array)
unfolding get_bytes index_of
get_bytes_within i zero array h = unfold bytes_at in refl
get_bytes_within i (suc n) array h =
    let later = get_bytes_within (suc i) n array (omega arith) in
    ground (arith, later, bytes_at_next i n array (omega arith))

-- At a cursor that is not negative the loops do what a write or a read of a number does.
pub write_bytes-raw :
    (bytes : List ℕ) (s : PackedByteStream) (i : ℕ)
    → s.c ≡ pos i
    → write_bytes bytes s ≡ write_raw bytes s
unfolding write_bytes write_raw encode_at
write_bytes-raw bytes s i e = elim (Bool-cases (ltb (length s.data_bytes) (i + length bytes))) [
  | inl over ↦ rw e (ground (arith, over))
  | inr fits ↦ rw e (ground (arith, fits, set_bytes_within i bytes s.data_bytes (ground arith)))
]

pub read_bytes-raw :
    (n : ℕ) (s : PackedByteStream) (i : ℕ)
    → s.c ≡ pos i
    → read_bytes (pos n) s ≡ read_raw [] (λ bytes. bytes) n s
unfolding read_bytes read_raw decode_at
read_bytes-raw n s i e = elim (Bool-cases (ltb (length s.data_bytes) (i + n))) [
  | inl over ↦ rw e (ground (arith, over))
  | inr fits ↦ rw e (ground (arith, fits, get_bytes_within i n s.data_bytes (ground arith)))
]

length-set_bytes :
    (at : ℤ) (bytes array out : List ℕ)
    → set_bytes at bytes array ≡ some out
    → length out ≡ length array
unfolding set_bytes
length-set_bytes at [] array out h = ground (arith, h)
length-set_bytes at (b ∷ rest) array out h = elim (Option-cases (index_of at (length array))) [
  | inl missing ↦ absurd (ground (arith, h, missing))
  | inr (i, found) ↦
      length-set_bytes (at +ℤ pos 1) rest (overwrite i (b ∷ []) array) out
        (ground (arith, h, found))
      ∙ length-overwrite i (b ∷ []) array
]

pub length-write_bytes :
    (bytes : List ℕ) (s : PackedByteStream)
    → length (write_bytes bytes s).data_bytes ≡ length s.data_bytes
unfolding write_bytes
length-write_bytes bytes s =
    elim (Bool-cases (exceeds (s.c +ℤ pos (length bytes)) (length s.data_bytes))) [
      | inl over ↦ rw over refl
      | inr fits ↦ elim (Option-cases (set_bytes s.c bytes s.data_bytes)) [
        | inl missing ↦ rw (fits, missing) refl
        | inr (out, done) ↦ rw (fits, done) (length-set_bytes s.c bytes s.data_bytes out done)
      ]
    ]

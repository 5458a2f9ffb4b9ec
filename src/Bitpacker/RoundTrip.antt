-- ===== src/Bitpacker/RoundTrip.antt =====
-- Fields packed into a number and read back.
use godot_godaemon_multiplay.Prelude.{
  ℕ, zero, suc, ◌+◌, ◌-◌, ◌*◌, ◌/◌, ◌%◌, ◌^◌, ◌≤◌, ◌<◌, ◌≡◌, refl, sym, ◌∙◌, ap, Option, none, some,
  List, [], ◌∷◌, map, arith, bit_and, bit_or, or_shifted, and_shifted, pow_pos,
}
use native.Mathlib.Nat.{
  pow-succ', div-one, pow-le-pow_right, mul_assoc, mul_comm, add-mul, mul-le-mul_right,
  mul-div_cancel, add-mul-mod_self_left, mod-eq_of_lt, mod-lt, div-eq_of_lt, add-mul-div_left,
  div-div-eq-div-mul,
}
use godot_godaemon_multiplay.Bitpacker.{
  Bitpacker, shift_left, shift_right, power, is_less, write, read, writer, reader,
}

pow-add : (b i : ℕ) → 2 ^ (b + i) ≡ 2 ^ b * 2 ^ i
pow-add zero i = let e : 0 + i ≡ i = omega arith in omega (arith, ap (λ n. 2 ^ n) e)
pow-add (suc b) i =
    let e : suc b + i ≡ suc (b + i) = omega arith in
    ap (λ n. 2 ^ n) e
    ∙ pow-succ' 2 (b + i)
    ∙ ap (λ x. 2 * x) (pow-add b i)
    ∙ sym (mul_assoc 2 (2 ^ b) (2 ^ i))
    ∙ ap (λ x. x * 2 ^ i) (sym (pow-succ' 2 b))

-- The room that a field takes above `i` bits.
field_room : (v b i : ℕ) → v < 2 ^ b → v * 2 ^ i + 2 ^ i ≤ 2 ^ (b + i)
field_room v b i h = omega (
  arith,
  pow-add b i,
  add-mul v 1 (2 ^ i),
  mul-le-mul_right {m = v + 1} {n = 2 ^ b} (2 ^ i) (omega arith),
)

below_sign : (b i : ℕ) → b + i ≤ 63 → 2 ^ (b + i) ≤ 9223372036854775808
below_sign b i h = pow-le-pow_right {n = 2} (omega arith) {i = b + i} {j = 63} h

abbrev pub total_bits : List (ℕ × ℕ) → ℕ
total_bits [] = 0
total_bits ((bits, number) ∷ rest) = bits + total_bits rest

-- Every field has from 1 to 62 bits, and room for its number.
abbrev pub Fit : List (ℕ × ℕ) → Type 0
Fit [] = Unit {0}
Fit ((bits, number) ∷ rest) = (0 < bits) × (bits ≤ 62) × (number < 2 ^ bits) × Fit rest

abbrev pub write_all : (ℕ → ℕ) → List (ℕ × ℕ) → Bitpacker → Option Bitpacker
write_all overflowed [] packer = some packer
write_all overflowed ((bits, number) ∷ rest) packer = elim (write overflowed bits number packer) [
  | none ↦ none
  | some next ↦ write_all overflowed rest next
]

abbrev pub read_all : (ℕ → ℕ) → List ℕ → Bitpacker → Option (List ℕ)
read_all overflowed [] packer = some []
read_all overflowed (bits ∷ rest) packer = elim (read overflowed bits packer) [
  | none ↦ none
  | some (number, next) ↦ elim (read_all overflowed rest next) [
    | none ↦ none
    | some numbers ↦ some (number ∷ numbers)
  ]
]

-- The number that fields make up, the first one lowest.
abbrev composed : List (ℕ × ℕ) → ℕ
composed [] = 0
composed ((bits, number) ∷ rest) = number + 2 ^ bits * composed rest

write_eq :
    (overflowed : ℕ → ℕ) (bits number value idx : ℕ)
    → 0 < bits
    → bits ≤ 62
    → number < 2 ^ bits
    → bits + idx ≤ 63
    → value < 2 ^ idx
    → write overflowed bits number (record { value = value; idx = idx })
      ≡ some (record { value = value + number * 2 ^ idx; idx = idx + bits })
unfolding write shift_left power is_less
write_eq overflowed bits number value idx some_bits narrow fits room low =
    let kept : number * 2 ^ idx % 18446744073709551616 ≡ number * 2 ^ idx =
      mod-eq_of_lt (omega (arith, field_room number bits idx fits, below_sign bits idx room)) in
    let positive : 2 ^ bits ≤ 4611686018427387904 =
      pow-le-pow_right {n = 2} (omega arith) {i = bits} {j = 62} narrow in
    let e = ap (bit_or value) kept ∙ or_shifted idx value number low in ground (arith, e, positive)

-- The mask of a field.
mask_eq :
    (bits idx : ℕ)
    → 0 < bits
    → bits + idx ≤ 63
    → (2 ^ bits + 18446744073709551615) * 2 ^ idx % 18446744073709551616 ≡ (2 ^ bits - 1) * 2 ^ idx
mask_eq bits idx some_bits room =
    let e : (2 ^ bits + 18446744073709551615) * 2 ^ idx
        ≡ (2 ^ bits - 1) * 2 ^ idx + 18446744073709551616 * 2 ^ idx =
      ap (λ n. n * 2 ^ idx) (omega (arith, pow_pos bits))
      ∙ add-mul (2 ^ bits - 1) 18446744073709551616 (2 ^ idx) in
    ap (λ n. n % 18446744073709551616) e
    ∙ add-mul-mod_self_left ((2 ^ bits - 1) * 2 ^ idx) 18446744073709551616 (2 ^ idx)
    ∙ mod-eq_of_lt (
        omega (
          arith,
          field_room (2 ^ bits - 1) bits idx (omega (arith, pow_pos bits)),
          below_sign bits idx room,
        ))

read_eq :
    (overflowed : ℕ → ℕ) (bits value idx : ℕ)
    → 0 < bits
    → bits ≤ 62
    → bits + idx ≤ 63
    → read overflowed bits (record { value = value; idx = idx })
      ≡ some (value / 2 ^ idx % 2 ^ bits, record { value = value; idx = idx + bits })
unfolding read shift_left shift_right power
read_eq overflowed bits value idx some_bits narrow room =
    let field = value / 2 ^ idx % 2 ^ bits in
    let masked : bit_and value ((2 ^ bits + 18446744073709551615) * 2 ^ idx % 18446744073709551616)
        ≡ field * 2 ^ idx =
      ap (bit_and value) (mask_eq bits idx some_bits room) ∙ and_shifted idx bits value in
    let small : field * 2 ^ idx < 9223372036854775808 = omega (
      arith,
      field_room field bits idx (mod-lt (value / 2 ^ idx) (pow_pos bits)),
      below_sign bits idx room,
      pow_pos idx,
    ) in
    let back : field * 2 ^ idx / 2 ^ idx ≡ field = mul-div_cancel field (pow_pos idx) in
    ground (arith, masked, small, back, narrow)

swapped : (b i : ℕ) → b + i ≡ i + b
swapped b i = omega arith

-- What is left of a composed number behind its first field, and that field.
composed_head :
    (bits number rest : ℕ) → number < 2 ^ bits → (number + 2 ^ bits * rest) % 2 ^ bits ≡ number
composed_head bits number rest h = add-mul-mod_self_left number (2 ^ bits) rest ∙ mod-eq_of_lt h

composed_tail :
    (bits number rest : ℕ) → number < 2 ^ bits → (number + 2 ^ bits * rest) / 2 ^ bits ≡ rest
composed_tail bits number rest h =
    omega (
      arith,
      add-mul-div_left number rest (pow_pos bits),
      div-eq_of_lt {n = number} {m = 2 ^ bits} h,
    )

-- Fields written above a number stand above it as one.
composed_above :
    (bits number rest idx : ℕ)
    → number * 2 ^ idx + rest * 2 ^ (idx + bits) ≡ (number + 2 ^ bits * rest) * 2 ^ idx
composed_above bits number rest idx =
    let e : rest * 2 ^ (idx + bits) ≡ 2 ^ bits * rest * 2 ^ idx =
      ap (λ x. rest * x) (pow-add idx bits ∙ mul_comm (2 ^ idx) (2 ^ bits))
      ∙ sym (mul_assoc rest (2 ^ bits) (2 ^ idx))
      ∙ ap (λ x. x * 2 ^ idx) (mul_comm rest (2 ^ bits)) in
    omega (arith, e, add-mul number (2 ^ bits * rest) (2 ^ idx))

write_all_eq :
    (overflowed : ℕ → ℕ) (fields : List (ℕ × ℕ)) (value idx : ℕ)
    → Fit fields
    → total_bits fields + idx ≤ 63
    → value < 2 ^ idx
    → write_all overflowed fields (record { value = value; idx = idx })
      ≡ some (record { value = value + composed fields * 2 ^ idx; idx = idx + total_bits fields })
write_all_eq overflowed [] value idx fit room low = ground arith
write_all_eq overflowed ((bits, number) ∷ rest) value idx (some_bits, narrow, fits, others) room
      low =
    let first = write_eq overflowed bits number value idx some_bits narrow fits (omega arith) low in
    let above : value + number * 2 ^ idx < 2 ^ (idx + bits) =
      omega (arith, field_room number bits idx fits, ap (λ n. 2 ^ n) (swapped bits idx)) in
    let later =
      write_all_eq overflowed rest (value + number * 2 ^ idx) (idx + bits) others (omega arith)
        above in
    let sum : value + number * 2 ^ idx + composed rest * 2 ^ (idx + bits)
        ≡ value + (number + 2 ^ bits * composed rest) * 2 ^ idx =
      omega (arith, composed_above bits number (composed rest) idx) in
    ground (arith, first, later, sum)

read_all_eq :
    (overflowed : ℕ → ℕ) (fields : List (ℕ × ℕ)) (value idx : ℕ)
    → Fit fields
    → total_bits fields + idx ≤ 63
    → value / 2 ^ idx ≡ composed fields
    → read_all overflowed (map (λ field. field.0) fields) (record { value = value; idx = idx })
      ≡ some (map (λ field. field.1) fields)
read_all_eq overflowed [] value idx fit room e = refl
read_all_eq overflowed ((bits, number) ∷ rest) value idx (some_bits, narrow, fits, others) room e =
    let first = read_eq overflowed bits value idx some_bits narrow (omega arith) in
    let field : value / 2 ^ idx % 2 ^ bits ≡ number =
      ap (λ x. x % 2 ^ bits) e ∙ composed_head bits number (composed rest) fits in
    let behind : value / 2 ^ (idx + bits) ≡ composed rest =
      ap (λ x. value / x) (pow-add idx bits)
      ∙ sym (div-div-eq-div-mul value (2 ^ idx) (2 ^ bits))
      ∙ ap (λ x. x / 2 ^ bits) e
      ∙ composed_tail bits number (composed rest) fits in
    ground (
      arith,
      first,
      field,
      read_all_eq overflowed rest value (idx + bits) others (omega arith) behind,
    )

-- Fields of at most 63 bits in all, each of 1 to 62 bits and with a number that fits, are written
-- without a failed assertion, and a reader of the packed number reads the same numbers in order.
pub read_all-write_all :
    (overflowed : ℕ → ℕ) (fields : List (ℕ × ℕ))
    → Fit fields
    → total_bits fields ≤ 63
    → (packer : Bitpacker) × (write_all overflowed fields writer ≡ some packer)
      × (read_all overflowed (map (λ field. field.0) fields) (reader packer.value)
          ≡ some (map (λ field. field.1) fields))
unfolding writer reader
read_all-write_all overflowed fields fit room =
    let value = composed fields * 2 ^ 0 in
    (
      record { value = 0 + value; idx = 0 + total_bits fields },
      write_all_eq overflowed fields 0 0 fit (omega arith) (omega arith),
      read_all_eq overflowed fields (0 + value) 0 fit (omega arith)
          (omega (arith, div-one (0 + value))),
    )

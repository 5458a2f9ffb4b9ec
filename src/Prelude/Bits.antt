-- ===== src/Prelude/Bits.antt =====
-- Binary digits: fields of a number set by `|` and read by `&`, as arithmetic.
use Prim.Native.Nat.{
  ℕ, zero, suc, ◌+◌, ◌-◌, ◌*◌, ◌/◌, ◌%◌, ◌^◌, ◌≤◌, ◌<◌, min, max, digits, bitwise, bit_and, bit_or,
  bit_and-bitwise, bit_or-bitwise,
}
use mathlib.Core.Path.{◌≡◌, refl, sym, ap, ◌∙◌, subst}
use native.Mathlib.Omega.{arith}
use native.Mathlib.Nat.{
  pow-suc, pow-succ', div-one, one-le-pow, mul_assoc, mod-add-div, div-div-eq-div-mul,
}

-- One digit of an operation whose result on an empty first number is `z`.
module _ (z : ℕ → ℕ) (f : ℕ → ℕ → ℕ) (out : (b : ℕ) → z b ≡ z (b / 2) * 2 + f 0 (b % 2)) where
  enough_digits : (n m a b : ℕ) → a ≤ n → a ≤ m → digits z f n a b ≡ digits z f m a b
  enough_digits zero m zero b h k = zero_digits m b
    where
      zero_digits : (m b : ℕ) → z b ≡ digits z f m zero b
      zero_digits zero b = refl
      zero_digits (suc m) b = refl
  enough_digits zero m (suc a) b h k = absurd (omega arith)
  enough_digits (suc n) zero zero b h k = refl
  enough_digits (suc n) (suc m) zero b h k = refl
  enough_digits (suc n) zero (suc a) b h k = absurd (omega arith)
  enough_digits (suc n) (suc m) (suc a) b h k =
      ap (λ x. x * 2 + f (suc a % 2) (b % 2))
        (enough_digits n m (suc a / 2) (b / 2) (omega arith) (omega arith))

  lowest_digit : (a b : ℕ) → bitwise z f a b ≡ bitwise z f (a / 2) (b / 2) * 2 + f (a % 2) (b % 2)
  lowest_digit zero b = out b
  lowest_digit (suc a) b =
      ap (λ x. x * 2 + f (suc a % 2) (b % 2))
        (enough_digits a (suc a / 2) (suc a / 2) (b / 2) (omega arith) (omega arith))

or_digit : (a b : ℕ) → bit_or a b ≡ bit_or (a / 2) (b / 2) * 2 + max (a % 2) (b % 2)
or_digit a b =
    bit_or-bitwise a b
    ∙ lowest_digit (λ b. b) max (λ b. omega arith) a b
    ∙ ap (λ x. x * 2 + max (a % 2) (b % 2)) (sym (bit_or-bitwise (a / 2) (b / 2)))

and_digit : (a b : ℕ) → bit_and a b ≡ bit_and (a / 2) (b / 2) * 2 + min (a % 2) (b % 2)
and_digit a b =
    bit_and-bitwise a b
    ∙ lowest_digit (λ b. 0) min (λ b. omega arith) a b
    ∙ ap (λ x. x * 2 + min (a % 2) (b % 2)) (sym (bit_and-bitwise (a / 2) (b / 2)))

pub pow_pos : (i : ℕ) → 0 < 2 ^ i
pow_pos i = one-le-pow i 2 (omega arith)

shift_once : (v i : ℕ) → v * 2 ^ suc i ≡ v * 2 ^ i * 2
shift_once v i = ap (λ x. v * x) (pow-suc 2 i) ∙ sym (mul_assoc v (2 ^ i) 2)

twice_half : (n : ℕ) → n * 2 / 2 ≡ n
twice_half n = omega arith

-- A field above what is there.
pub or_shifted : (i value v : ℕ) → value < 2 ^ i → bit_or value (v * 2 ^ i) ≡ value + v * 2 ^ i
or_shifted zero zero v h = bit_or-bitwise 0 (v * 1) ∙ omega arith
or_shifted zero (suc value) v h = absurd (omega arith)
or_shifted (suc i) value v h =
    let e = shift_once v i in
    let half : bit_or (value / 2) (v * 2 ^ i) ≡ value / 2 + v * 2 ^ i =
      or_shifted i (value / 2) v (omega (arith, pow-suc 2 i)) in
    subst (λ x. bit_or value x ≡ value + x) (sym e)
      (omega (
        arith,
        or_digit value (v * 2 ^ i * 2),
        half,
        ap (bit_or (value / 2)) (twice_half (v * 2 ^ i)),
      ))

no_digits : (n a : ℕ) → digits (λ b. 0) min n a 0 ≡ 0
no_digits zero a = refl
no_digits (suc n) zero = refl
no_digits (suc n) (suc a) = omega (arith, no_digits n (suc a / 2))

mod_double : (value p : ℕ) → value % (2 * p) ≡ value / 2 % p * 2 + value % 2
mod_double value p =
    let q = value / 2 in
    let e : 2 * p * (value / (2 * p)) ≡ 2 * (p * (q / p)) =
      subst (λ k. 2 * p * k ≡ 2 * (p * (q / p))) (div-div-eq-div-mul value 2 p)
        (mul_assoc 2 p (q / p)) in
    omega (arith, e, mod-add-div q p, mod-add-div value (2 * p))

-- The lowest bits.
pub and_mask : (bits value : ℕ) → bit_and value (2 ^ bits - 1) ≡ value % 2 ^ bits
and_mask zero value = omega (arith, bit_and-bitwise value 0, no_digits value value)
and_mask (suc bits) value =
    let p = 2 ^ bits in
    let half : (2 ^ suc bits - 1) / 2 ≡ p - 1 = omega (arith, pow-suc 2 bits, pow_pos bits) in
    omega (
      arith,
      and_digit value (2 ^ suc bits - 1),
      ap (bit_and (value / 2)) half,
      and_mask bits (value / 2),
      mod_double value p,
      ap (λ x. value % x) (pow-succ' 2 bits),
      pow-suc 2 bits,
      pow_pos bits,
    )

-- A field.
pub and_shifted :
    (i bits value : ℕ) → bit_and value ((2 ^ bits - 1) * 2 ^ i) ≡ value / 2 ^ i % 2 ^ bits * 2 ^ i
and_shifted zero bits value =
    let mask = 2 ^ bits - 1 in
    let e : mask * 1 ≡ mask = omega arith in
    subst (λ x. bit_and value x ≡ value / 1 % 2 ^ bits * 1) (sym e)
      (omega (arith, and_mask bits value, ap (λ x. x % 2 ^ bits) (div-one value)))
and_shifted (suc i) bits value =
    let mask = 2 ^ bits - 1 in
    let field = value / 2 / 2 ^ i % 2 ^ bits in
    let e : value / 2 ^ suc i ≡ value / 2 / 2 ^ i =
      ap (λ x. value / x) (pow-succ' 2 i) ∙ sym (div-div-eq-div-mul value 2 (2 ^ i)) in
    subst (λ x. bit_and value x ≡ value / 2 ^ suc i % 2 ^ bits * 2 ^ suc i)
      (sym (shift_once mask i))
      (subst (λ x. bit_and value (mask * 2 ^ i * 2) ≡ x % 2 ^ bits * 2 ^ suc i) (sym e)
        (omega (
          arith,
          and_digit value (mask * 2 ^ i * 2),
          ap (bit_and (value / 2)) (twice_half (mask * 2 ^ i)),
          and_shifted i bits (value / 2),
          shift_once field i,
        )))

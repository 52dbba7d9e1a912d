-- ===== src/Prelude/Bits.antt =====
-- `|` and `&` on machine words as arithmetic: disjoint fields add up, and masks on a byte.
use Prim.Native.Nat.{digits, min, bit_and, bit_or, bit_or-bitwise, bit_and-bitwise}
use native.Mathlib.Numerals.{towards_suc}
use native.Mathlib.Nat.{pow-suc}
use galax_ia_sdk.Prelude.{
  ℕ, zero, suc, ◌+◌, ◌*◌, ◌/◌, ◌%◌, ◌^◌, ◌≤◌, ◌<◌, ◌≡◌, refl, ap, Bool, true, max, arith, ◌==◌,
  ◌&&◌,
}

-- The fuel of the library's recursion on binary digits does not matter once it covers the number.
module _ (z : ℕ → ℕ) (f : ℕ → ℕ → ℕ) where
  more_fuel : (n m a b : ℕ) → a ≤ n → a ≤ m → digits z f n a b ≡ digits z f m a b
  more_fuel zero zero a b p q = refl
  more_fuel zero (suc m) zero b p q = refl
  more_fuel zero (suc m) (suc a) b p q = absurd (omega arith)
  more_fuel (suc n) zero zero b p q = refl
  more_fuel (suc n) zero (suc a) b p q = absurd (omega arith)
  more_fuel (suc n) (suc m) zero b p q = refl
  more_fuel (suc n) (suc m) (suc a) b p q =
      rw (more_fuel n m (suc a / 2) (b / 2) (omega arith) (omega arith))

or_lowest_digit : (a b : ℕ) → bit_or a b ≡ bit_or (a / 2) (b / 2) * 2 + max (a % 2) (b % 2)
or_lowest_digit zero b = simp bit_or-bitwise (omega arith)
or_lowest_digit (suc a) b = omega (
  arith,
  bit_or-bitwise (suc a) b,
  bit_or-bitwise (suc a / 2) (b / 2),
  more_fuel (λ y. y) max a (suc a / 2) (suc a / 2) (b / 2) (omega arith) (omega arith),
)

and_lowest_digit : (a b : ℕ) → bit_and a b ≡ bit_and (a / 2) (b / 2) * 2 + min (a % 2) (b % 2)
and_lowest_digit zero b = simp bit_and-bitwise (omega arith)
and_lowest_digit (suc a) b = omega (
  arith,
  bit_and-bitwise (suc a) b,
  bit_and-bitwise (suc a / 2) (b / 2),
  more_fuel (λ y. 0) min a (suc a / 2) (suc a / 2) (b / 2) (omega arith) (omega arith),
)

and-zero_below : (n a : ℕ) → a ≤ n → bit_and a 0 ≡ 0
and-zero_below n zero h = simp bit_and-bitwise (omega arith)
and-zero_below zero (suc a) h = absurd (omega arith)
and-zero_below (suc n) (suc a) h =
    omega (arith, and_lowest_digit (suc a) 0, and-zero_below n (suc a / 2) (omega arith))

-- `& 0x07` and `& 0x7f`, on a number of any width
low_three_bits : (a : ℕ) → bit_and a 0x07 ≡ a % 8
low_three_bits a = omega (
  arith,
  and_lowest_digit a 7,
  and_lowest_digit (a / 2) 3,
  and_lowest_digit (a / 2 / 2) 1,
  and-zero_below (a / 2 / 2 / 2) (a / 2 / 2 / 2) (omega arith),
)

pub low_seven_bits : (a : ℕ) → bit_and a 0x7f ≡ a % 128
low_seven_bits a = omega (
  arith,
  and_lowest_digit a 127,
  and_lowest_digit (a / 2) 63,
  and_lowest_digit (a / 2 / 2) 31,
  and_lowest_digit (a / 2 / 2 / 2) 15,
  low_three_bits (a / 2 / 2 / 2 / 2),
)

times_pow_suc : (q k : ℕ) → q * 2 ^ suc k ≡ 2 * (q * 2 ^ k)
times_pow_suc q k = omega (arith, ap (λ (t : ℕ). q * t) (pow-suc 2 k))

-- A field that starts at bit `k` is added to a number below bit `k`.
pub or-disjoint : (k r q : ℕ) → r < 2 ^ k → bit_or r (q * 2 ^ k) ≡ r + q * 2 ^ k
or-disjoint zero zero q h = simp bit_or-bitwise (omega arith)
or-disjoint zero (suc r) q h = absurd (omega arith)
or-disjoint (suc k) r q h = ground (
  arith,
  or_lowest_digit r (q * 2 ^ suc k),
  times_pow_suc q k,
  pow-suc 2 k,
  or-disjoint k (r / 2) q (omega (arith, pow-suc 2 k)),
)

pub pow_add_seven : (s : ℕ) → 2 ^ (s + 7) ≡ 128 * 2 ^ s
pow_add_seven s = simp towards_suc (omega arith)

-- Over a byte a mask is checked value by value.
pub same_below : ℕ → (ℕ → ℕ) → (ℕ → ℕ) → Bool
same_below zero f g = true
same_below (suc n) f g = f n == g n && same_below n f g

pub same_below_sound : (n : ℕ) (f g : ℕ → ℕ) (x : ℕ) → same_below n f g ≡ true → x < n → f x ≡ g x
unfolding same_below
same_below_sound zero f g x h lt = absurd (omega arith)
same_below_sound (suc n) f g x h lt = ground (arith, same_below_sound n f g x)

high_table : same_below 256 (λ b. bit_and b 0x80) (λ b. b / 128 * 128) ≡ true
unfolding same_below
high_table = refl

set_table : same_below 128 (λ b. bit_or b 0x80) (λ b. b + 128) ≡ true
unfolding same_below
set_table = refl

pub high_bit : (b : ℕ) → b < 256 → bit_and b 0x80 ≡ b / 128 * 128
high_bit b h = same_below_sound 256 (λ b. bit_and b 0x80) (λ b. b / 128 * 128) b high_table h

pub set_high_bit : (b : ℕ) → b < 128 → bit_or b 0x80 ≡ b + 128
set_high_bit b h = same_below_sound 128 (λ b. bit_or b 0x80) (λ b. b + 128) b set_table h

-- ===== src/Text/Decimal.antt =====
-- `to_string` of integers, and that the digits determine the number.
use galax_ia_sdk.Prelude.{
  ℕ, zero, suc, ◌+◌, ◌-◌, ◌*◌, ◌/◌, ◌%◌, ◌^◌, ◌≤◌, ◌<◌, ◌≡◌, refl, ap, ◌∙◌, sym, [], ◌∷◌, arith,
  ltb, ◌==◌, if◌then◌else◌, Bool-cases, inl, inr, All, true, false, ==_iff, ◌≢◌, length,
}
use galax_ia_sdk.Prelude.Int.{ℤ, pos, negsuc}
use galax_ia_sdk.Text.{Text, IsText}
use galax_ia_sdk.Text.Utf8.{as_bytes}
use native.Mathlib.Nat.{pow-suc}

-- Digits, the last one first pushed; the fuel bounds the number of digits.
unfoldable pub digits_from : ℕ → ℕ → Text → Text
digits_from zero n out = out
digits_from (suc fuel) n out =
    let last = (48 + n % 10) ∷ out in
    let more = digits_from fuel (n / 10) last in if n / 10 == 0 then last else more

-- A number below 10 ^ 20, so any u64, has at most 20 digits.
unfoldable pub print_ℕ : ℕ → Text
unfolding digits_from
print_ℕ n = digits_from 20 n []

unfoldable pub print_ℤ : ℤ → Text
unfolding print_ℕ
print_ℤ (pos n) = print_ℕ n
print_ℤ (negsuc n) = 45 ∷ print_ℕ (suc n)

-- The value of a row of digits, after a value that stands before it.
unfoldable pub value_from : ℕ → Text → ℕ
value_from acc [] = acc
value_from acc (d ∷ ds) = value_from (acc * 10 + (d - 48)) ds

value_from_digit : (n : ℕ) (acc : ℕ) (out : Text) → acc ≡ n → value_from acc out ≡ value_from n out
value_from_digit n acc out e = ap (λ (a : ℕ). value_from a out) e

value_from-digits_from :
    (fuel n : ℕ) (out : Text)
    → n < 10 ^ fuel
    → 0 < fuel
    → value_from 0 (digits_from fuel n out) ≡ value_from n out
unfolding digits_from value_from
value_from-digits_from zero n out h more = absurd (omega arith)
value_from-digits_from (suc fuel) n out h some_fuel = elim (Bool-cases (n / 10 == 0)) [
  | inl small ↦ rw small (value_from_digit n _ out (omega (arith, (==_iff (n / 10) 0).0 small)))
  | inr more ↦ rw more (
      value_from-digits_from fuel (n / 10) ((48 + n % 10) ∷ out) (omega (arith, pow-suc 10 fuel))
        (room fuel n h more)
      ∙ value_from_digit n _ out (omega arith))
]
  where
    room : (f n : ℕ) → n < 10 ^ suc f → (n / 10 == 0) ≡ false → 0 < f
    room zero n h more = absurd (ground arith)
    room (suc f) n h more = omega arith

-- Reading the digits back gives the number.
pub value_from-print_ℕ : (n : ℕ) → n < 10 ^ 20 → value_from 0 (print_ℕ n) ≡ n
unfolding print_ℕ
value_from-print_ℕ n h =
    value_from-digits_from 20 n [] h (omega arith) ∙ (unfold value_from in refl)

abbrev pub IsDigit : ℕ → Type 0
IsDigit c = (48 ≤ c) × (c ≤ 57)

digits_from-IsDigit :
    (fuel n : ℕ) (out : Text) → All IsDigit out → All IsDigit (digits_from fuel n out)
unfolding digits_from
digits_from-IsDigit zero n out h = h
digits_from-IsDigit (suc fuel) n out h = elim (Bool-cases (n / 10 == 0)) [
  | inl small ↦ rw small ((omega arith, omega arith), h)
  | inr more ↦ rw more (digits_from-IsDigit fuel (n / 10) _ ((omega arith, omega arith), h))
]

pub print_ℕ-IsDigit : (n : ℕ) → All IsDigit (print_ℕ n)
unfolding print_ℕ
print_ℕ-IsDigit n = digits_from-IsDigit 20 n [] tt

-- In the range of an i64.
abbrev pub IsI64 : ℤ → Type 0
IsI64 (pos n) = n < 2 ^ 63
IsI64 (negsuc n) = n < 2 ^ 63

not_minus : (t u : Text) → All IsDigit t → t ≢ 45 ∷ u
not_minus [] u h e = cc
not_minus (c ∷ cs) u ((low, high), h) e = absurd (ground arith)

print_ℕ_injective : (n m : ℕ) → n < 10 ^ 20 → m < 10 ^ 20 → print_ℕ n ≡ print_ℕ m → n ≡ m
print_ℕ_injective n m hn hm e =
    sym (value_from-print_ℕ n hn) ∙ ap (value_from 0) e ∙ value_from-print_ℕ m hm

-- Integers with the same print are the same.
pub print_ℤ_injective : (a b : ℤ) → IsI64 a → IsI64 b → print_ℤ a ≡ print_ℤ b → a ≡ b
unfolding print_ℤ
print_ℤ_injective (pos n) (pos m) ha hb e =
    ap pos (print_ℕ_injective n m (omega arith) (omega arith) e)
print_ℤ_injective (pos n) (negsuc m) ha hb e = absurd (not_minus _ _ (print_ℕ-IsDigit n) e)
print_ℤ_injective (negsuc n) (pos m) ha hb e = absurd (not_minus _ _ (print_ℕ-IsDigit m) (sym e))
print_ℤ_injective (negsuc n) (negsuc m) ha hb e =
    let same : suc n ≡ suc m =
      print_ℕ_injective (suc n) (suc m) (omega arith) (omega arith) (ground arith) in
    ap negsuc (omega arith)

length-digits_from : (fuel n : ℕ) (out : Text) → length (digits_from fuel n out) ≤ fuel + length out
unfolding digits_from
length-digits_from zero n out = omega arith
length-digits_from (suc fuel) n out =
    ground (arith, length-digits_from fuel (n / 10) ((48 + n % 10) ∷ out))

ascii_bytes : (t : Text) → All IsDigit t → as_bytes t ≡ t
unfolding as_bytes
ascii_bytes [] h = refl
ascii_bytes (c ∷ cs) ((low, high), h) =
    let small : ltb c 0x80 ≡ true = ground arith in rw small (ap (◌∷◌ c) (ascii_bytes cs h))

digits_text : (t : Text) → All IsDigit t → IsText t
digits_text [] h = tt
digits_text (c ∷ cs) ((low, high), h) = (omega arith, digits_text cs h)

-- A printed integer is a short text.
pub print_ℤ-IsText : (i : ℤ) → IsText (print_ℤ i)
unfolding print_ℤ
print_ℤ-IsText (pos n) = digits_text _ (print_ℕ-IsDigit n)
print_ℤ-IsText (negsuc n) = (omega arith, digits_text _ (print_ℕ-IsDigit (suc n)))

minus_bytes : (t : Text) → as_bytes (45 ∷ t) ≡ 45 ∷ as_bytes t
unfolding as_bytes
minus_bytes t = refl

pub length-print_ℤ : (i : ℤ) → length (as_bytes (print_ℤ i)) ≤ 21
unfolding print_ℤ
length-print_ℤ (pos n) =
    rw (ascii_bytes (print_ℕ n) (print_ℕ-IsDigit n)) (omega (arith, length-digits_from 20 n []))
length-print_ℤ (negsuc n) =
    rw (minus_bytes (print_ℕ (suc n)), ascii_bytes (print_ℕ (suc n)) (print_ℕ-IsDigit (suc n)))
      (omega (arith, length-digits_from 20 (suc n) []))

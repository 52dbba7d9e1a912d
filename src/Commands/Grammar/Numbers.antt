-- ===== src/Commands/Grammar/Numbers.antt =====
-- Integers and numbers in commands.rs: what a token of them is and what its value is.
use galax_ia_sdk.Prelude.{
  ℕ, zero, suc, ◌-◌, ◌^◌, ◌≤◌, ◌<◌, ◌≡◌, ◌≢◌, ◌⊎◌, inl, inr, refl, ap, sym, ◌∙◌, subst, Bool, true,
  false, Option, none, some, [], ◌∷◌, ◌++◌, arith, length, ltb, leb, ltb→lt, ◌==◌, ==_iff, ◌||◌,
  not, all, All, Bool-cases, if◌then◌else◌,
}
use galax_ia_sdk.Prelude.Int.{ℤ, pos, negsuc}
use galax_ia_sdk.Prelude.Lex.{list_eq}
use galax_ia_sdk.Prelude.Result.{ok, passed, ok_injective}
use galax_ia_sdk.Text.{Text}
use galax_ia_sdk.Text.Decimal.{value_from, IsDigit}
use galax_ia_sdk.Commands.{is_ascii_digit, max_scalar_chars}
use galax_ia_sdk.Commands.Grammar.{
  bad_integer, bad_number, ArgValue, integer_arg, number_arg, parse_integer, parse_number,
  integer_or, strip_minus, split_once, canonical_digits, canonical_number, fraction_ok,
}

-- Digits without a zero in front of others.
abbrev pub NoLeadingZero : Text → Type 0
NoLeadingZero [] = ⊥
NoLeadingZero (c ∷ []) = Unit
NoLeadingZero (c ∷ d ∷ cs) = c ≢ 48

abbrev pub Canonical : Text → Type 0
Canonical digits = All IsDigit digits × NoLeadingZero digits

abbrev pub minus : ℕ → ℤ
minus zero = pos 0
minus (suc n) = negsuc n

-- An integer of 64 bits in digits, with a minus sign or none.
pub record IntegerToken (token : Text) (v : ArgValue) : Type 0 where
  pub digits : Text
  pub canonical : Canonical digits
  pub short : length token ≤ 32
  pub signed :
      ((token ≡ digits)
        × (v ≡ integer_arg (pos (value_from 0 digits)))
        × (value_from 0 digits < 2 ^ 63))
      ⊎ ((token ≡ 45 ∷ digits)
          × (v ≡ integer_arg (minus (value_from 0 digits)))
          × (value_from 0 digits ≤ 2 ^ 63))

abbrev pub decimal : Text → Option Text → Text
decimal whole none = whole
decimal whole (some fraction) = whole ++ 46 ∷ fraction

abbrev pub Fraction : Option Text → Type 0
Fraction none = Unit
Fraction (some fraction) = (0 < length fraction) × All IsDigit fraction

-- digits of zeros and a point only
abbrev pub is_zero : Text → Bool
is_zero = all (λ c. c == 48 || c == 46)

-- A number in digits, with a point and more digits or none and a minus sign or none; the sign of a
-- zero is dropped.
pub record NumberToken (token : Text) (v : ArgValue) : Type 0 where
  pub whole : Text
  pub fraction : Option Text
  pub canonical : Canonical whole
  pub digits : Fraction fraction
  pub short : length token ≤ 32
  pub signed :
      ((token ≡ decimal whole fraction) × (v ≡ number_arg token))
      ⊎ ((token ≡ 45 ∷ decimal whole fraction)
          × (v
              ≡ number_arg
                  (if is_zero (decimal whole fraction) then decimal whole fraction else token)))

strip_minus_lem :
    (t : Text)
    → (((strip_minus t).0 ≡ false) × (t ≡ (strip_minus t).1))
      ⊎ (((strip_minus t).0 ≡ true) × (t ≡ 45 ∷ (strip_minus t).1))
unfolding strip_minus
strip_minus_lem [] = inl (refl, refl)
strip_minus_lem (c ∷ cs) = elim (Bool-cases (c == 45)) [
  | inl same ↦ rw same (inr (refl, ap (λ d. d ∷ cs) ((==_iff c 45).0 same)))
  | inr other ↦ rw other (inl (refl, refl))
]

all_digits_lem : (t : Text) → all is_ascii_digit t ≡ true → All IsDigit t
all_digits_lem [] h = tt
all_digits_lem (c ∷ cs) h = (ground arith, all_digits_lem cs (ground arith))

canonical_lem : (t : Text) → canonical_digits t ≡ true → Canonical t
unfolding canonical_digits list_eq
canonical_lem [] h = cc
canonical_lem (c ∷ []) h = (all_digits_lem (c ∷ []) (ground arith), tt)
canonical_lem (c ∷ d ∷ cs) h = (all_digits_lem (c ∷ d ∷ cs) (ground arith), λ e. ground arith)

-- What holds behind a guard that did not refuse.
neither : (a b : Bool) → not a || b ≡ false → (a ≡ true) × (b ≡ false)
neither a b h = ground arith

int_pos :
    (name : Text) (n : ℕ) (v : ArgValue) (b : Bool)
    → ltb n (2 ^ 63) ≡ b
    → integer_or name (if b then some (pos n) else none) ≡ ok v
    → (v ≡ integer_arg (pos n)) × (n < 2 ^ 63)
int_pos name n v true e h = (sym (ok_injective h), ltb→lt n (2 ^ 63) e)
int_pos name n v false e h = cc

int_neg :
    (name : Text) (n : ℕ) (v : ArgValue) (a b : Bool)
    → n == 0 ≡ a
    → leb n (2 ^ 63) ≡ b
    → integer_or name (if a then some (pos 0) else if b then some (negsuc (n - 1)) else none) ≡ ok v
    → (v ≡ integer_arg (minus n)) × (n ≤ 2 ^ 63)
int_neg name zero v true b p q h = (sym (ok_injective h), omega arith)
int_neg name zero v false b p q h = absurd (ground arith)
int_neg name (suc n) v true b p q h = absurd (ground arith)
int_neg name (suc n) v false true p q h =
    let same : suc n - 1 ≡ n = omega arith in
    (sym (ok_injective h) ∙ ap (λ k. integer_arg (negsuc k)) same, ground arith)
int_neg name (suc n) v false false p q h = cc

pub parse_integer-IntegerToken :
    (name token : Text) (v : ArgValue) → parse_integer name token ≡ ok v → IntegerToken token v
unfolding parse_integer
parse_integer-IntegerToken name token v h =
    let digits = (strip_minus token).1 in
    let (good, later) =
      passed (not (canonical_digits digits) || ltb max_scalar_chars (length token))
        (bad_integer name) _ h in
    let (well_formed, few) = neither (canonical_digits digits) _ good in
    record {
      digits = digits;
      canonical = canonical_lem digits well_formed;
      short = ground arith;
      signed = elim (strip_minus_lem token) [
        | inl (plain, same) ↦
            let (value, fits) = int_pos name (value_from 0 digits) v _ refl (rw plain at later) in
            inl (same, value, fits)
        | inr (negative, same) ↦
            let (value, fits) =
              int_neg name (value_from 0 digits) v _ _ refl refl (rw negative at later) in
            inr (same, value, fits)
      ];
    }

split_once_lem : (t : Text) → t ≡ decimal (split_once 46 t).0 (split_once 46 t).1
unfolding split_once
split_once_lem [] = refl
split_once_lem (c ∷ cs) = elim (Bool-cases (c == 46)) [
  | inl same ↦ rw same (ap (λ d. d ∷ cs) ((==_iff c 46).0 same))
  | inr other ↦ rw other (longer (split_once 46 cs).0 (split_once 46 cs).1 (split_once_lem cs))
]
  where
    longer :
        (whole : Text) (fraction : Option Text)
        → cs ≡ decimal whole fraction
        → c ∷ cs ≡ decimal (c ∷ whole) fraction
    longer whole none e = ap (◌∷◌ c) e
    longer whole (some fraction) e = ap (◌∷◌ c) e

fraction_lem : (f : Option Text) → fraction_ok f ≡ true → Fraction f
fraction_lem none h = tt
fraction_lem (some []) h = cc
fraction_lem (some (c ∷ cs)) h = (omega arith, all_digits_lem (c ∷ cs) h)

pub parse_number-NumberToken :
    (name token : Text) (v : ArgValue) → parse_number name token ≡ ok v → NumberToken token v
unfolding parse_number canonical_number
parse_number-NumberToken name token v h =
    let body = (strip_minus token).1 in
    let whole = (split_once 46 body).0 in
    let fraction = (split_once 46 body).1 in
    let (short, h1) = passed (ltb max_scalar_chars (length token)) (bad_number name) _ h in
    let (good, h2) =
      passed (not (canonical_digits whole) || not (fraction_ok fraction)) (bad_number name) _ h1 in
    let (well_formed, behind) = neither (canonical_digits whole) _ good in
    let parts = split_once_lem body in
    record {
      whole = whole;
      fraction = fraction;
      canonical = canonical_lem whole well_formed;
      digits = fraction_lem fraction (ground arith);
      short = ground arith;
      signed = elim (strip_minus_lem token) [
        | inl (plain, same) ↦ inl (same ∙ parts, sym (ok_injective (rw plain at h2)))
        | inr (negative, same) ↦ inr (
          same ∙ ap (◌∷◌ 45) parts,
          subst (λ t. v ≡ number_arg (if is_zero t then t else token)) parts
              (sym (ok_injective (rw negative at h2))),
        )
      ];
    }

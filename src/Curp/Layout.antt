-- ===== src/Curp/Layout.antt =====
-- The date in a population key, described by itself.
use galax_ia_sdk.Prelude.{
  and-true, ℕ, zero, suc, ◌+◌, ◌-◌, ◌*◌, ◌%◌, ◌≤◌, ◌<◌, ◌≡◌, ◌≢◌, ◌⊎◌, inl, inr, refl, ap, sym, ◌∙◌,
  Bool, true, false, Option, none, some, List, [], ◌∷◌, arith, length, take, drop, get_elem?, leb,
  ◌==◌, ==_iff, if◌then◌else◌, any, Bool-cases,
}
use galax_ia_sdk.Prelude.Int.{ℤ, pos}
use galax_ia_sdk.Text.{Text}
use galax_ia_sdk.Text.Decimal.{value_from, IsDigit}
use galax_ia_sdk.Curp.{
  is_ascii_digit, parse_i32, shape_at, shape_from, coded_year, coded_date, is_real_date, is_leap,
  days_in, digit_at, year_after,
}

-- Two digits of a key and their number.
pub record TwoDigits (t : Text) (i n : ℕ) : Type 0 where
  pub a : ℕ
  pub b : ℕ
  pub first : get_elem? t i ≡ some a
  pub second : get_elem? t (suc i) ≡ some b
  pub first_digit : IsDigit a
  pub second_digit : IsDigit b
  pub value : n ≡ 10 * (a - 48) + (b - 48)

abbrev pub IsLeap : ℕ → Type 0
IsLeap year = ((year % 4 ≡ 0) × (year % 100 ≢ 0)) ⊎ (year % 400 ≡ 0)

abbrev pub among : ℕ → List ℕ → Bool
among m = any (λ x. x == m)

-- The calendar: 31 days, 30 days, and February.
abbrev pub IsDate : ℕ → ℕ → ℕ → Type 0
IsDate year month day =
    (1 ≤ year)
    × (1 ≤ day)
    × (((among month (1 ∷ 3 ∷ 5 ∷ 7 ∷ 8 ∷ 10 ∷ 12 ∷ []) ≡ true) × (day ≤ 31))
        ⊎ (((among month (4 ∷ 6 ∷ 9 ∷ 11 ∷ []) ≡ true) × (day ≤ 30))
            ⊎ (((month ≡ 2) × (day ≤ 28)) ⊎ ((month ≡ 2) × (day ≡ 29) × IsLeap year))))

-- The character before the last tells the century.
abbrev pub Century : Text → ℕ → Type 0
Century t century =
    (c : ℕ) × (get_elem? t 16 ≡ some c)
    × ((IsDigit c × (century ≡ 1900)) ⊎ ((65 ≤ c) × (c ≤ 74) × (century ≡ 2000)))

pub record HasDate (t : Text) : Type 0 where
  pub century : ℕ
  pub year : ℕ
  pub month : ℕ
  pub day : ℕ
  pub coded_century : Century t century
  pub coded_year : TwoDigits t 4 year
  pub coded_month : TwoDigits t 6 month
  pub coded_day : TwoDigits t 8 day
  pub real : IsDate (century + year) month day

pub at_index : (t : Text) (i : ℕ) → i < length t → (c : ℕ) × (get_elem? t i ≡ some c)
at_index [] i h = absurd (omega arith)
at_index (c ∷ cs) zero h = (c, refl)
at_index (c ∷ cs) (suc i) h = at_index cs i (omega arith)

pub two_at :
    (t : Text) (i : ℕ)
    → suc i < length t
    → (a b : ℕ) × (get_elem? t i ≡ some a)
      × (get_elem? t (suc i) ≡ some b)
      × (take 2 (drop i t) ≡ a ∷ b ∷ [])
two_at [] i h = absurd (omega arith)
two_at (c ∷ []) i h = absurd (omega arith)
two_at (c ∷ d ∷ cs) zero h = (c, d, refl, refl, refl)
two_at (c ∷ d ∷ cs) (suc i) h = two_at (d ∷ cs) i (omega arith)

shape_lem :
    (t : Text) (k i c : ℕ)
    → shape_from k t ≡ true
    → get_elem? t i ≡ some c
    → shape_at (k + i) c ≡ true
unfolding shape_from
shape_lem [] k i c h e = cc
shape_lem (d ∷ ds) k zero c h e =
    let same : d ≡ c = some_injective e in
    let here : shape_at k d ≡ true = (and-true (shape_at k d) _ h).0 in
    let first : k ≡ k + 0 = omega arith in
    ap (λ j. shape_at j c) (sym first) ∙ ap (shape_at k) (sym same) ∙ here
  where
    some_injective : {x y : ℕ} → Path (Option ℕ) (some x) (some y) → x ≡ y
    some_injective p = cc
shape_lem (d ∷ ds) k (suc i) c h e =
    let shift : k + 1 + i ≡ k + suc i = omega arith in
    ap (λ j. shape_at j c) (sym shift) ∙ shape_lem ds (k + 1) i c (and-true (shape_at k d) _ h).1 e

pub shape_at_lem :
    (t : Text) (i c : ℕ) → shape_from 0 t ≡ true → get_elem? t i ≡ some c → shape_at i c ≡ true
shape_at_lem t i c h e =
    let start : 0 + i ≡ i = omega arith in
    ap (λ j. shape_at j c) (sym start) ∙ shape_lem t 0 i c h e

parse_two :
    (a b : ℕ)
    → is_ascii_digit a ≡ true
    → is_ascii_digit b ≡ true
    → parse_i32 (a ∷ b ∷ []) ≡ some (pos (10 * (a - 48) + (b - 48)))
unfolding parse_i32 value_from
parse_two a b h k = ground arith

-- Two digits where the shape wants them are read as their number.
two_digits :
    (t : Text) (i : ℕ)
    → shape_from 0 t ≡ true
    → suc i < length t
    → ((c : ℕ) → shape_at i c ≡ is_ascii_digit c)
    → ((c : ℕ) → shape_at (suc i) c ≡ is_ascii_digit c)
    → (n : ℕ) × TwoDigits t i n × (parse_i32 (take 2 (drop i t)) ≡ some (pos n))
two_digits t i shape h digit digit' =
    let (a, b, first, second, cut) = two_at t i h in
    let is_a = sym (digit a) ∙ shape_at_lem t i a shape first in
    let is_b = sym (digit' b) ∙ shape_at_lem t (suc i) b shape second in
    (
      10 * (a - 48) + (b - 48),
      record {
        a = a;
        b = b;
        first = first;
        second = second;
        first_digit = ground arith;
        second_digit = ground arith;
        value = refl;
      },
      ap parse_i32 cut ∙ parse_two a b is_a is_b,
    )

leap_lem : (year : ℕ) → is_leap year ≡ true → IsLeap year
unfolding is_leap
leap_lem year h = elim (Bool-cases (year % 400 == 0)) [
  | inl long ↦ inr ((==_iff (year % 400) 0).0 long)
  | inr other ↦ inl (ground arith, λ e. ground arith)
]

date_lem :
    (year month day : ℕ)
    → is_real_date (pos year) (pos month) (pos day) ≡ true
    → IsDate year month day
unfolding is_real_date days_in
date_lem year month day h = (ground arith, ground arith, months)
  where
    months :
        ((among month (1 ∷ 3 ∷ 5 ∷ 7 ∷ 8 ∷ 10 ∷ 12 ∷ []) ≡ true) × (day ≤ 31))
        ⊎ (((among month (4 ∷ 6 ∷ 9 ∷ 11 ∷ []) ≡ true) × (day ≤ 30))
            ⊎ (((month ≡ 2) × (day ≤ 28)) ⊎ ((month ≡ 2) × (day ≡ 29) × IsLeap year)))
    months = elim (Bool-cases (month == 2)) [
      | inl february ↦ elim (Bool-cases (leb day 28)) [
        | inl early ↦ inr (inr (inl (ground arith, ground arith)))
        | inr late ↦ elim (Bool-cases (is_leap year)) [
          | inl leap ↦ inr (inr (inr (ground arith, ground arith, leap_lem year leap)))
          | inr common ↦ absurd (ground arith)
        ]
      ]
      | inr other ↦ elim (Bool-cases (among month (4 ∷ 6 ∷ 9 ∷ 11 ∷ []))) [
        | inl short ↦ inr (inl (short, ground arith))
        | inr long ↦ inl (ground arith, ground arith)
      ]
    ]

digit_at_lem : (t : Text) (c : ℕ) → get_elem? t 16 ≡ some c → digit_at 16 t ≡ is_ascii_digit c
digit_at_lem t c e = ap (λ (o : Option ℕ). elim o [ none ↦ false | some d ↦ is_ascii_digit d ]) e

century_lem :
    (t : Text)
    → shape_from 0 t ≡ true
    → 16 < length t
    → (century : ℕ) × Century t century
      × ((yy : ℤ)
          → (if digit_at 16 t then year_after 1900 yy else year_after 2000 yy)
            ≡ year_after century yy)
century_lem t shape h =
    let (c, e) = at_index t 16 h in
    let ok_shape : shape_at 16 c ≡ true = shape_lem t 0 16 c shape e in
    elim (Bool-cases (is_ascii_digit c)) [
      | inl digit ↦
          (1900, (c, e, inl (ground arith, refl)), λ yy. rw (digit_at_lem t c e, digit) refl)
      | inr letter ↦ (
        2000,
        (c, e, inr (ground arith, ground arith, refl)),
        λ yy. rw (digit_at_lem t c e, letter) refl,
      )
    ]

pub coded_date-HasDate :
    (t : Text) → length t ≡ 18 → shape_from 0 t ≡ true → coded_date t ≡ true → HasDate t
unfolding coded_date coded_year
coded_date-HasDate t size shape h =
    let (yy, year, p) = two_digits t 4 shape (omega arith) (λ c. refl) (λ c. refl) in
    let (month, months, q) = two_digits t 6 shape (omega arith) (λ c. refl) (λ c. refl) in
    let (day, days, r) = two_digits t 8 shape (omega arith) (λ c. refl) (λ c. refl) in
    let (century, coded, same) = century_lem t shape (omega arith) in
    record {
      century = century;
      year = yy;
      month = month;
      day = day;
      coded_century = coded;
      coded_year = year;
      coded_month = months;
      coded_day = days;
      real = date_lem (century + yy) month day (rw (same, p, q, r) at h);
    }

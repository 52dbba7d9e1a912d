-- ===== src/Curp/Checks.antt =====
-- What a key that passes `validate_curp` is.
use galax_ia_sdk.Prelude.{
  ◌∙◌, ℕ, suc, ◌+◌, ◌-◌, ◌%◌, ◌≤◌, ◌≡◌, refl, ap, sym, subst, Bool, true, false, Option, none, some,
  List, [], ◌∷◌, ◌++◌, arith, length, take, ltb, ◌==◌, ==_iff, ◌&&◌, not, get_elem?, Bool-cases,
  inl, inr,
}
use galax_ia_sdk.Curp.Sums.{Values, dot, weights, down, weighted-dot}
use galax_ia_sdk.Curp.Layout.{HasDate, coded_date-HasDate}
use galax_ia_sdk.Curp.States.{HasState, entidad_code-HasState}
use galax_ia_sdk.Prelude.Int.{ℤ}
use galax_ia_sdk.Prelude.Result.{ok, passed, ok_injective}
use galax_ia_sdk.Text.{Text, codes}
use galax_ia_sdk.Prelude.Lex.{list_eq}
use galax_ia_sdk.Curp.Compute.{
  Computed, Warning, finished, compute_from, with_entity, with_date, differentiator_of,
  compute_curp, few_fields, no_paterno, no_nombre, not_a_date, bad_sexo, bad_differentiator,
}
use galax_ia_sdk.Curp.{
  is_empty, valid_differentiator, bad_shape, bad_date, bad_entity, bad_digit, check_digit, digit_of,
  weighted, same_digit, valid_shape, validate_curp, coded_date, entidad_code, slice, is_some,
  is_real_date, shape_from,
}

-- The digit that completes a key of 17 characters: with it, the sum of the values of the characters
-- with the weights from 18 down to 2 is a multiple of ten.
pub record Completes (curp17 : Text) (digit : ℕ) : Type 0 where
  pub values : List ℕ
  pub spelled : Values curp17 values
  pub size : length curp17 ≡ 17
  pub is_digit : (48 ≤ digit) × (digit ≤ 57)
  pub tenfold : (dot weights values + (digit - 48)) % 10 ≡ 0

digit_of-Completes :
    (curp17 : Text) (o : Option ℕ) (digit : ℕ)
    → length curp17 ≡ 17
    → weighted 18 curp17 ≡ o
    → digit_of o ≡ some digit
    → Completes curp17 digit
digit_of-Completes curp17 none digit size w h = absurd (none_some h)
  where
    none_some : {x : ℕ} → Path (Option ℕ) none (some x) → ⊥
    none_some q = cc
digit_of-Completes curp17 (some sum) digit size w h =
    let e : 48 + (10 - sum % 10) % 10 ≡ digit = ground arith in
    let (values, spelled, same) = weighted-dot curp17 18 sum w in
    let total : sum ≡ dot weights values = same ∙ ap (λ n. dot (down n 18) values) size in
    record {
      values = values;
      spelled = spelled;
      size = size;
      is_digit = omega arith;
      tenfold = omega (arith, total, e);
    }

check_digit-Completes :
    (curp17 : Text) (digit : ℕ) → check_digit curp17 ≡ some digit → Completes curp17 digit
unfolding check_digit
check_digit-Completes curp17 digit h = elim (Bool-cases (length curp17 == 17)) [
  | inl fits ↦
      digit_of-Completes curp17 (weighted 18 curp17) digit ((==_iff (length curp17) 17).0 fits) refl
        (rw fits at h)
  | inr short ↦ absurd (none_some (rw short at h))
]
  where
    none_some : {x : ℕ} → Path (Option ℕ) none (some x) → ⊥
    none_some q = cc

-- What a valid key promises.
pub record IsValid (curp : Text) : Type 0 where
  pub size : length curp ≡ 18
  pub date : HasDate curp
  pub state : HasState curp
  pub digit : ℕ
  pub last : get_elem? curp 17 ≡ some digit
  pub completes : Completes (take 17 curp) digit

has_last : (t : Text) (n : ℕ) → length t ≡ suc n → (c : ℕ) × (get_elem? t n ≡ some c)
has_last [] n e = absurd (omega arith)
has_last (c ∷ cs) ℕ.zero e = (c, refl)
has_last (c ∷ cs) (suc n) e = has_last cs n (omega arith)

same_digit_lem : (a : Option ℕ) (c : ℕ) → same_digit a (some c) ≡ true → a ≡ some c
same_digit_lem none c h = absurd (ground arith)
same_digit_lem (some a) c h = ap some ((==_iff a c).0 h)

-- A key that is accepted comes back as it is and has 18 characters: two digits each for a year,
-- a month and a day that are a date of the calendar in the century that the character before the
-- last tells, the two letters of one of the 33 states, and a last digit that makes the sum of
-- the values with the weights from 18 down a multiple of ten.
pub validate_curp-IsValid :
    (curp out : Text) → validate_curp curp ≡ ok out → (out ≡ curp) × IsValid curp
unfolding validate_curp valid_shape
validate_curp-IsValid curp out h =
    let (shape, h1) = passed _ bad_shape _ h in
    let (date, h2) = passed _ bad_date _ h1 in
    let (entity, h3) = passed _ bad_entity _ h2 in
    let (same, h4) = passed _ bad_digit _ h3 in
    let (size, layout) = sized (length curp) (shape_from 0 curp) shape in
    let (digit, last) = has_last curp 17 size in
    (
      sym (ok_injective h4),
      record {
        size = size;
        date = coded_date-HasDate curp size layout (double (coded_date curp) date);
        state =
            entidad_code-HasState curp size layout
              (double (is_some (entidad_code (slice 11 13 curp))) entity);
        digit = digit;
        last = last;
        completes = check_digit-Completes (take 17 curp) digit (
            same_digit_lem (check_digit (take 17 curp)) digit
              (subst (λ o. same_digit (check_digit (take 17 curp)) o ≡ true) last (double _ same)));
      },
    )
  where
    double : (b : Bool) → not b ≡ false → b ≡ true
    double b e = ground arith

    sized : (n : ℕ) (b : Bool) → not (n == 18 && b) ≡ false → (n ≡ 18) × (b ≡ true)
    sized n b e = (ground arith, ground arith)

-- What a computed key promises.
pub record IsComputed (curp : Text) : Type 0 where
  pub curp17 : Text
  pub digit : ℕ
  pub whole : curp ≡ curp17 ++ (digit ∷ [])
  pub completes : Completes curp17 digit

finished-IsComputed :
    (curp17 : Text) (warnings : List Warning) (o : Option ℕ) (c : Computed)
    → check_digit curp17 ≡ o
    → finished curp17 warnings o ≡ ok c
    → IsComputed c.curp
finished-IsComputed curp17 warnings none c p h = cc
finished-IsComputed curp17 warnings (some digit) c p h = record {
  curp17 = curp17;
  digit = digit;
  whole = ap (λ (x : Computed). x.curp) (sym (ok_injective h));
  completes = check_digit-Completes curp17 digit p;
}

with_entity-IsComputed :
    (nombre paterno materno : Text) (year month day : ℤ) (sexo entity_name given : Text)
    (o : Option Text) (c : Computed)
    → with_entity nombre paterno materno year month day sexo entity_name given o ≡ ok c
    → IsComputed c.curp
with_entity-IsComputed nombre paterno materno year month day sexo entity_name given none c h = cc
with_entity-IsComputed nombre paterno materno year month day sexo entity_name given (some entity) c
      h =
    let (fits, k) =
      passed (not (valid_differentiator (differentiator_of given year) year)) bad_differentiator _
        h in
    finished-IsComputed _ _ _ c refl k

compute_from-IsComputed :
    (nombre paterno materno : Text) (year month day : ℤ) (sexo entity_name given : Text)
    (c : Computed)
    → compute_from nombre paterno materno year month day sexo entity_name given ≡ ok c
    → IsComputed c.curp
unfolding compute_from
compute_from-IsComputed nombre paterno materno year month day sexo entity_name given c h =
    let (a, h1) = passed (is_empty paterno) no_paterno _ h in
    let (b, h2) = passed (is_empty nombre) no_nombre _ h1 in
    let (d, h3) = passed (not (is_real_date year month day)) not_a_date _ h2 in
    let (s, h4) =
      passed (not (list_eq sexo (codes "H")) && not (list_eq sexo (codes "M"))) bad_sexo _ h3 in
    with_entity-IsComputed nombre paterno materno year month day sexo entity_name given
      (entidad_code entity_name) c h4

with_date-IsComputed :
    (nombre paterno materno sexo entity_name given : Text) (year month day : Option ℤ)
    (c : Computed)
    → with_date nombre paterno materno sexo entity_name given year month day ≡ ok c
    → IsComputed c.curp
with_date-IsComputed nombre paterno materno sexo entity_name given (some year) (some month)
      (some day) c h =
    compute_from-IsComputed nombre paterno materno year month day sexo entity_name given c h
with_date-IsComputed nombre paterno materno sexo entity_name given none month day c h = cc
with_date-IsComputed nombre paterno materno sexo entity_name given (some year) none day c h = cc
with_date-IsComputed nombre paterno materno sexo entity_name given (some year) (some month) none c
      h =
    cc

-- A key that is computed from the fields of a person ends in the digit that makes its weighted
-- sum a multiple of ten.
pub compute_curp-IsComputed :
    (fields : List Text) (c : Computed) → compute_curp fields ≡ ok c → IsComputed c.curp
unfolding compute_curp
compute_curp-IsComputed fields c h =
    let (enough, h1) = passed (ltb (length fields) 8) few_fields _ h in
    with_date-IsComputed _ _ _ _ _ _ _ _ _ c h1

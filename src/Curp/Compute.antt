-- ===== src/Curp/Compute.antt =====
-- `compute_curp`: the key from the fields of a person.
use galax_ia_sdk.Prelude.{
  ℕ, ◌+◌, ◌/◌, ◌%◌, Bool, true, false, Option, none, some, List, [], ◌∷◌, ◌++◌, length, ltb,
  if◌then◌else◌, ◌&&◌, not, get_elem?,
}
use galax_ia_sdk.Prelude.Int.{ℤ, pos, negsuc, ltb_ℤ}
use galax_ia_sdk.Prelude.Lex.{list_eq}
use galax_ia_sdk.Prelude.Result.{Result, ok, err}
use galax_ia_sdk.Text.{Text, codes}
use galax_ia_sdk.Text.Trim.{trim}
use galax_ia_sdk.Curp.Catalogue.{inconvenient}
use galax_ia_sdk.Curp.{
  contains, is_empty, normalize_name_part, significant_word, first_internal_vowel,
  first_internal_consonant, entidad_code, is_real_date, valid_differentiator, parse_i32,
  check_digit,
}

pub data ComputeError : Type 0 where
  few_fields : ComputeError
  not_integers : ComputeError
  no_paterno : ComputeError
  no_nombre : ComputeError
  not_a_date : ComputeError
  bad_sexo : ComputeError
  unknown_entity : Text → ComputeError
  bad_differentiator : ComputeError
  no_digit : ComputeError

pub data Warning : Type 0 where
  replaced_word : Warning
  no_materno : Warning
  assumed_differentiator : Text → Warning

pub record Computed : Type 0 where
  pub curp : Text
  pub warnings : List Warning

-- `fields[i]` of a list that is long enough; an absent field is empty
abbrev pub field_at : List Text → ℕ → Text
field_at fields i = elim (get_elem? fields i) [ none ↦ [] | some t ↦ t ]

abbrev pub head_or : ℕ → Text → ℕ
head_or d [] = d
head_or d (c ∷ cs) = c

-- `{n:02}` of a number below 100
abbrev pub two_digits : ℕ → Text
two_digits n = (48 + n / 10 % 10) ∷ (48 + n % 10) ∷ []

abbrev pub magnitude : ℤ → ℕ
magnitude (pos n) = n
magnitude (negsuc n) = 0

-- the first four letters, and whether they made a word that is replaced
abbrev pub first_four : Text → Text → Text → Text × Bool
first_four paterno materno nombre =
    let a = head_or 88 paterno in
    let b = first_internal_vowel paterno in
    let c = head_or 88 materno in
    let d = head_or 88 nombre in
    if contains inconvenient (a ∷ b ∷ c ∷ d ∷ [])
    then (a ∷ 88 ∷ c ∷ d ∷ [], true)
    else (a ∷ b ∷ c ∷ d ∷ [], false)

abbrev pub differentiator_of : Text → ℤ → Text
differentiator_of given year =
    if is_empty given then (if ltb_ℤ year (pos 2000) then codes "0" else codes "A") else given

abbrev pub when : Bool → Warning → List Warning → List Warning
when true w ws = w ∷ ws
when false w ws = ws

-- the first seventeen characters
unfoldable pub curp17_of : Text → Text → Text → ℤ → ℤ → ℤ → Text → Text → Text → Text
curp17_of nombre paterno materno year month day sexo entity differentiator =
    (first_four paterno materno nombre).0
    ++ (two_digits (magnitude year % 100)
        ++ (two_digits (magnitude month)
            ++ (two_digits (magnitude day)
                ++ (sexo
                    ++ (entity
                        ++ (first_internal_consonant paterno
                            ∷ (if is_empty materno then 88 else first_internal_consonant materno)
                            ∷ first_internal_consonant nombre
                            ∷ differentiator))))))

abbrev pub finished : Text → List Warning → Option ℕ → Result Computed ComputeError
finished curp17 warnings none = err no_digit
finished curp17 warnings (some digit) =
    ok (record { curp = curp17 ++ (digit ∷ []); warnings = warnings })

-- the checks behind the entity
abbrev pub with_entity :
    Text → Text → Text → ℤ → ℤ → ℤ → Text → Text → Text → Option Text → Result Computed ComputeError
with_entity nombre paterno materno year month day sexo entity_name given none =
    err (unknown_entity entity_name)
with_entity nombre paterno materno year month day sexo entity_name given (some entity) =
    let differentiator = differentiator_of given year in
    let curp17 = curp17_of nombre paterno materno year month day sexo entity differentiator in
    let warnings = when (first_four paterno materno nombre).1 replaced_word (
      when (is_empty materno) no_materno
        (when (is_empty given) (assumed_differentiator differentiator) [])) in
    if not (valid_differentiator differentiator year)
    then err bad_differentiator
    else finished curp17 warnings (check_digit curp17)

-- the checks behind the dates, in the order of the source
unfoldable pub compute_from :
    Text → Text → Text → ℤ → ℤ → ℤ → Text → Text → Text → Result Computed ComputeError
compute_from nombre paterno materno year month day sexo entity_name given =
    if is_empty paterno
    then err no_paterno
    else if is_empty nombre
    then err no_nombre
    else if not (is_real_date year month day)
    then err not_a_date
    else if not (list_eq sexo (codes "H")) && not (list_eq sexo (codes "M"))
    then err bad_sexo
    else with_entity nombre paterno materno year month day sexo entity_name given
        (entidad_code entity_name)

abbrev pub with_date :
    Text
    → Text
    → Text
    → Text
    → Text
    → Text
    → Option ℤ
    → Option ℤ
    → Option ℤ
    → Result Computed ComputeError
with_date nombre paterno materno sexo entity_name given (some year) (some month) (some day) =
    compute_from nombre paterno materno year month day sexo entity_name given
with_date nombre paterno materno sexo entity_name given _ _ _ = err not_integers

unfoldable pub compute_curp : List Text → Result Computed ComputeError
compute_curp fields =
    if ltb (length fields) 8
    then err few_fields
    else with_date (significant_word (normalize_name_part (field_at fields 0)))
        (significant_word (normalize_name_part (field_at fields 1)))
        (if is_empty (trim (field_at fields 2))
          then []
          else significant_word (normalize_name_part (field_at fields 2)))
        (trim (field_at fields 6)) (field_at fields 7) (trim (field_at fields 8))
        (parse_i32 (field_at fields 3)) (parse_i32 (field_at fields 4))
        (parse_i32 (field_at fields 5))

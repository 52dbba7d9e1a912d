-- ===== src/Tests/Curp.antt =====
-- packages/satellite-capabilities-wasm/src/lib.rs on concrete inputs.
use galax_ia_sdk.Prelude.{◌≡◌, refl, List, [], ◌∷◌}
use galax_ia_sdk.Prelude.Lex.{list_eq}
use galax_ia_sdk.Prelude.Result.{ok, err}
use galax_ia_sdk.Text.{Text, codes}
use galax_ia_sdk.Text.Decimal.{value_from}
use galax_ia_sdk.Text.Trim.{trim, trim_start, trim_end}
use galax_ia_sdk.Curp.{
  bad_digit, strip_diacritics, normalize_name_part, split_words, find_word, significant_word,
  find_or_x, first_internal_vowel, first_internal_consonant, code_of_code, code_of_name,
  entidad_code, is_leap, days_in, is_real_date, checksum_value, weighted, check_digit,
  valid_differentiator, parse_i32, shape_from, valid_shape, coded_year, coded_date, validate_curp,
  validate_curp_encoded,
}
use galax_ia_sdk.Curp.Compute.{Computed, curp17_of, compute_from, compute_curp}
use galax_ia_sdk.Curp.Checks.{IsComputed, compute_curp-IsComputed, IsValid, validate_curp-IsValid}

abbrev key : Text
key = codes "HEGG560427MVZRRL04"

valid_run : validate_curp_encoded (codes " hegg560427mvzrrl04 ") ≡ ok key
unfolding validate_curp_encoded trim trim_start trim_end validate_curp valid_shape shape_from
    coded_date coded_year parse_i32 value_from is_real_date days_in is_leap entidad_code
    strip_diacritics code_of_code list_eq check_digit weighted checksum_value
valid_run = refl

key_run : validate_curp key ≡ ok key
unfolding trim trim_start trim_end validate_curp valid_shape shape_from coded_date coded_year
    parse_i32 value_from is_real_date days_in is_leap entidad_code strip_diacritics code_of_code
    list_eq check_digit weighted checksum_value
key_run = refl

wrong_run : validate_curp (codes "HEGG560427MVZRRL05") ≡ err bad_digit
unfolding trim trim_start trim_end validate_curp valid_shape shape_from coded_date coded_year
    parse_i32 value_from is_real_date days_in is_leap entidad_code strip_diacritics code_of_code
    list_eq check_digit weighted checksum_value
wrong_run = refl

-- An upper-case Ñ becomes an X, a lower-case one is lost.
upper_run : normalize_name_part (codes "MUÑOZ") ≡ codes "MUXOZ"
unfolding normalize_name_part strip_diacritics trim trim_start trim_end
upper_run = refl

lower_run : normalize_name_part (codes "muñoz") ≡ codes "MUOZ"
unfolding normalize_name_part strip_diacritics trim trim_start trim_end
lower_run = refl

abbrev person : List Text
person =
    codes "Gloria"
    ∷ codes "Hernández"
    ∷ codes "García"
    ∷ codes "1956"
    ∷ codes "4"
    ∷ codes "27"
    ∷ codes "M"
    ∷ codes "Veracruz"
    ∷ codes "0"
    ∷ []

abbrev computed : Computed
computed = record { curp = key; warnings = [] }

person_run : compute_curp person ≡ ok computed
unfolding compute_curp compute_from curp17_of normalize_name_part significant_word split_words
    find_word first_internal_vowel first_internal_consonant find_or_x trim trim_start trim_end
    parse_i32 value_from is_real_date days_in is_leap entidad_code strip_diacritics code_of_code
    code_of_name list_eq check_digit weighted checksum_value valid_differentiator
person_run = refl

validate_curp-IsValid_example : (key ≡ key) × IsValid key
validate_curp-IsValid_example = validate_curp-IsValid key key key_run

compute_curp-IsComputed_example : IsComputed key
compute_curp-IsComputed_example = compute_curp-IsComputed person computed person_run

-- ===== src/Curp.antt =====
-- packages/satellite-capabilities-wasm/src/lib.rs: the Mexican population key, computed from the
-- fields of a person and checked. An answer that the source writes as text after `OK:` or `ERR:` is a
-- result with the values that the text shows.

pub mod Catalogue
pub mod Sums
pub mod Layout
pub mod States
pub mod Checks
pub mod Compute
use galax_ia_sdk.Prelude.{
  ℕ, zero, suc, ◌+◌, ◌-◌, ◌*◌, ◌/◌, ◌%◌, ◌^◌, Bool, true, false, Option, none, some, List, [], ◌∷◌,
  ◌++◌, map, length, take, drop, ltb, leb, ◌==◌, if◌then◌else◌, ◌&&◌, ◌||◌, not, all, any,
  get_elem?,
}
use galax_ia_sdk.Prelude.Int.{ℤ, pos, negsuc, ltb_ℤ}
use galax_ia_sdk.Prelude.Lex.{list_eq}
use galax_ia_sdk.Prelude.Result.{Result, ok, err}
use galax_ia_sdk.Text.{Text, codes}
use galax_ia_sdk.Curp.Catalogue.{connectors, entries}
use galax_ia_sdk.Text.Decimal.{value_from}
use galax_ia_sdk.Text.Trim.{trim, is_whitespace}

abbrev pub is_ascii_uppercase : ℕ → Bool
is_ascii_uppercase c = leb 65 c && leb c 90

abbrev pub is_ascii_digit : ℕ → Bool
is_ascii_digit c = leb 48 c && leb c 57

abbrev pub contains : List Text → Text → Bool
contains l t = any (λ x. list_eq x t) l

abbrev pub is_vowel : ℕ → Bool
is_vowel c = c == 65 || c == 69 || c == 73 || c == 79 || c == 85

abbrev pub to_ascii_uppercase : ℕ → ℕ
to_ascii_uppercase c = if leb 97 c && leb c 122 then c - 32 else c

abbrev pub without_accent : ℕ → ℕ
without_accent c =
    if c == 0xc1 || c == 0xe1
    then 65
    else if c == 0xc9 || c == 0xe9
    then 69
    else if c == 0xcd || c == 0xed
    then 73
    else if c == 0xd3 || c == 0xf3
    then 79
    else if c == 0xda || c == 0xfa || c == 0xdc || c == 0xfc
    then 85
    else to_ascii_uppercase c

unfoldable pub strip_diacritics : Text → Text
strip_diacritics t = map without_accent t

abbrev pub filter : (ℕ → Bool) → Text → Text
filter p [] = []
filter p (c ∷ cs) = if p c then c ∷ filter p cs else filter p cs

unfoldable pub normalize_name_part : Text → Text
normalize_name_part value =
    filter (λ c. is_ascii_uppercase c || c == 32)
      (map (λ (c : ℕ). if c == 0xd1 then 88 else c) (strip_diacritics (trim value)))

abbrev pub is_empty : {A : Type 0} → List A → Bool
is_empty [] = true
is_empty (x ∷ xs) = false

-- a word that is not empty, before the others
abbrev pub push_word : Text → List Text → List Text
push_word [] words = words
push_word (c ∷ cs) words = (c ∷ cs) ∷ words

-- `split_whitespace`, the current word given
unfoldable pub split_words : Text → Text → List Text
split_words word [] = push_word word []
split_words word (c ∷ cs) =
    let ended = push_word word (split_words [] cs) in
    let longer = split_words (word ++ (c ∷ [])) cs in if is_whitespace c then ended else longer

abbrev pub first_or : Text → List Text → Text
first_or d [] = d
first_or d (w ∷ ws) = w

unfoldable pub find_word : List Text → Option Text
find_word [] = none
find_word (w ∷ ws) = if contains connectors w then find_word ws else some w

unfoldable pub significant_word : Text → Text
significant_word value =
    let words = split_words [] value in
    elim (find_word words) [ some w ↦ w | none ↦ first_or [] words ]

-- `chars().skip(1).find(…).unwrap_or('X')`
unfoldable pub find_or_x : (ℕ → Bool) → Text → ℕ
find_or_x p [] = 88
find_or_x p (c ∷ cs) = if p c then c else find_or_x p cs

unfoldable pub first_internal_vowel : Text → ℕ
first_internal_vowel word = find_or_x is_vowel (drop 1 word)

unfoldable pub first_internal_consonant : Text → ℕ
first_internal_consonant word = find_or_x (λ c. not (is_vowel c)) (drop 1 word)

unfoldable pub code_of_code : Text → List (Text × Text) → Option Text
code_of_code t [] = none
code_of_code t ((name, code) ∷ more) = if list_eq code t then some code else code_of_code t more

unfoldable pub code_of_name : Text → List (Text × Text) → Option Text
code_of_name t [] = none
code_of_name t ((name, code) ∷ more) = if list_eq name t then some code else code_of_name t more

abbrev pub or_name : Option Text → Text → Option Text
or_name (some code) t = some code
or_name none t = code_of_name t entries

-- A text of two bytes is two letters: a code has no others.
unfoldable pub entidad_code : Text → Option Text
entidad_code value =
    let normalized = strip_diacritics (trim value) in
    or_name (if length normalized == 2 then code_of_code normalized entries else none) normalized

unfoldable pub is_leap : ℕ → Bool
is_leap year = year % 4 == 0 && (not (year % 100 == 0) || year % 400 == 0)

unfoldable pub days_in : ℕ → ℕ → ℕ
days_in year month =
    if month == 2
    then (if is_leap year then 29 else 28)
    else if month == 4 || month == 6 || month == 9 || month == 11
    then 30
    else 31

unfoldable pub is_real_date : ℤ → ℤ → ℤ → Bool
is_real_date (pos year) (pos month) (pos day) =
    leb 1 year && leb 1 month && leb month 12 && leb 1 day && leb day (days_in year month)
is_real_date _ _ _ = false

unfoldable pub checksum_value : ℕ → Option ℕ
checksum_value c =
    if is_ascii_digit c
    then some (c - 48)
    else if leb 65 c && leb c 78
    then some (10 + (c - 65))
    else if c == 38
    then some 24
    else if leb 79 c && leb c 90
    then some (25 + (c - 79))
    else none

abbrev pub plus_value : ℕ → Option ℕ → Option ℕ → Option ℕ
plus_value weight none rest = none
plus_value weight (some v) none = none
plus_value weight (some v) (some rest) = some (v * weight + rest)

-- The weights go down from 18.
unfoldable pub weighted : ℕ → Text → Option ℕ
weighted weight [] = some 0
weighted weight (c ∷ cs) = plus_value weight (checksum_value c) (weighted (weight - 1) cs)

abbrev pub digit_of : Option ℕ → Option ℕ
digit_of none = none
digit_of (some sum) = some (48 + (10 - sum % 10) % 10)

unfoldable pub check_digit : Text → Option ℕ
check_digit curp17 = if length curp17 == 17 then digit_of (weighted 18 curp17) else none

unfoldable pub valid_differentiator : Text → ℤ → Bool
valid_differentiator (c ∷ []) year =
    if ltb_ℤ year (pos 2000) then is_ascii_digit c else leb 65 c && leb c 74
valid_differentiator _ year = false

-- `parse::<i32>`: an optional sign and digits, in range
abbrev pub in_i32 : Bool → Text → Option ℤ
in_i32 negative digits =
    let n = value_from 0 digits in
    if is_empty digits || not (all is_ascii_digit digits)
    then none
    else if negative
    then (if n == 0 then some (pos 0) else if leb n (2 ^ 31) then some (negsuc (n - 1)) else none)
    else if ltb n (2 ^ 31)
    then some (pos n)
    else none

unfoldable pub parse_i32 : Text → Option ℤ
parse_i32 [] = none
parse_i32 (c ∷ cs) =
    if c == 45 then in_i32 true cs else if c == 43 then in_i32 false cs else in_i32 false (c ∷ cs)

pub data CurpError : Type 0 where
  bad_shape : CurpError
  bad_date : CurpError
  bad_entity : CurpError
  bad_digit : CurpError

abbrev pub shape_at : ℕ → ℕ → Bool
shape_at i c =
    if (leb 4 i && leb i 9) || i == 17
    then is_ascii_digit c
    else if i == 10
    then c == 72 || c == 77
    else if i == 16
    then is_ascii_digit c || (leb 65 c && leb c 74)
    else is_ascii_uppercase c

unfoldable pub shape_from : ℕ → Text → Bool
shape_from i [] = true
shape_from i (c ∷ cs) = shape_at i c && shape_from (i + 1) cs

unfoldable pub valid_shape : Text → Bool
valid_shape curp = length curp == 18 && shape_from 0 curp

-- `&curp[a..b]` of a text of one-byte characters
abbrev pub slice : ℕ → ℕ → Text → Text
slice a b t = take (b - a) (drop a t)

abbrev pub or_minus_one : Option ℤ → ℤ
or_minus_one none = negsuc 0
or_minus_one (some i) = i

-- `base + yy`, where `yy` is -1 or a number of two digits
abbrev pub year_after : ℕ → ℤ → ℤ
year_after base (pos n) = pos (base + n)
year_after base (negsuc n) = pos (base - suc n)

abbrev pub digit_at : ℕ → Text → Bool
digit_at i t = elim (get_elem? t i) [ none ↦ false | some c ↦ is_ascii_digit c ]

unfoldable pub coded_year : Text → ℤ
coded_year curp =
    let yy = or_minus_one (parse_i32 (slice 4 6 curp)) in
    if digit_at 16 curp then year_after 1900 yy else year_after 2000 yy

unfoldable pub coded_date : Text → Bool
coded_date curp =
    is_real_date (coded_year curp) (or_minus_one (parse_i32 (slice 6 8 curp)))
      (or_minus_one (parse_i32 (slice 8 10 curp)))

abbrev pub is_some : {A : Type 0} → Option A → Bool
is_some none = false
is_some (some a) = true

abbrev pub same_digit : Option ℕ → Option ℕ → Bool
same_digit none none = true
same_digit (some a) (some b) = a == b
same_digit _ _ = false

-- `validate_curp_encoded` behind the trimming: the key that is valid, or what is wrong with it
unfoldable pub validate_curp : Text → Result Text CurpError
validate_curp curp =
    if not (valid_shape curp)
    then err bad_shape
    else if not (coded_date curp)
    then err bad_date
    else if not (is_some (entidad_code (slice 11 13 curp)))
    then err bad_entity
    else if not (same_digit (check_digit (take 17 curp)) (get_elem? curp 17))
    then err bad_digit
    else ok curp

unfoldable pub validate_curp_encoded : Text → Result Text CurpError
validate_curp_encoded value = validate_curp (map to_ascii_uppercase (trim value))

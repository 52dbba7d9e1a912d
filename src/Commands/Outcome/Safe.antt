-- ===== src/Commands/Outcome/Safe.antt =====
-- What a node can make a person see with the result of a command.
use galax_ia_sdk.Prelude.{
  ℕ, suc, ◌≡◌, refl, sym, subst, Bool, true, false, Option, none, some, [], ◌∷◌, arith, ◌==◌, ◌&&◌,
  ◌||◌, not, all, All, Bool-cases, inl, inr, if◌then◌else◌,
}
use galax_ia_sdk.Prelude.Int.{ℤ, pos, negsuc}
use galax_ia_sdk.Prelude.Lex.{list_eq}
use galax_ia_sdk.Prelude.Result.{Result, ok, err, passed, ok_injective}
use galax_ia_sdk.Text.{Text, codes}
use galax_ia_sdk.Text.Decimal.{print_ℤ, print_ℕ, print_ℕ-IsDigit, IsDigit}
use galax_ia_sdk.Protocol.{
  CommandDescriptor, CommandResult, CommandArgType, unspecified, string, integer, number, boolean,
  enum, arg_type_of, DynamicValue, unset, boolean_value, integer_value, number_value, string_value,
  bytes_value, list_value, object_value, artifact_ref, DynamicObject, empty, field,
}
use galax_ia_sdk.Commands.{is_ascii_digit, is_empty}
use galax_ia_sdk.Commands.Grammar.{
  ArgValue, string_arg, integer_arg, number_arg, boolean_arg, enum_arg, ParseError, bad_number,
  parse_number, canonical_number, canonical_digits, fraction_ok, split_once, strip_minus,
}
use galax_ia_sdk.Commands.Outcome.{
  Refusal, result_too_long, integer_text, number_text, typed_result, checked_result, only_field,
  only_value, not_a_boolean, validate_result,
}

-- a character of a number
abbrev pub plain_char : ℕ → Bool
plain_char c = is_ascii_digit c || c == 45 || c == 46

-- a number, or a truth value
abbrev pub safe_text : Text → Bool
safe_text t = all plain_char t || list_eq t (codes "true") || list_eq t (codes "false")

digits_plain : (t : Text) → All IsDigit t → all plain_char t ≡ true
digits_plain [] h = refl
digits_plain (c ∷ cs) ((low, high), h) = ground (arith, digits_plain cs h)

print_plain : (i : ℤ) → all plain_char (print_ℤ i) ≡ true
unfolding print_ℤ
print_plain (pos n) = digits_plain (print_ℕ n) (print_ℕ-IsDigit n)
print_plain (negsuc n) = digits_plain (print_ℕ (suc n)) (print_ℕ-IsDigit (suc n))

ascii_plain : (t : Text) → all is_ascii_digit t ≡ true → all plain_char t ≡ true
ascii_plain [] h = refl
ascii_plain (c ∷ cs) h = ground (arith, ascii_plain cs)

canonical_plain : (t : Text) → canonical_digits t ≡ true → all plain_char t ≡ true
unfolding canonical_digits
canonical_plain t h = ascii_plain t (ground arith)

both : (a b : Bool) → a && b ≡ true → (a ≡ true) × (b ≡ true)
both a b e = ground arith

join : (a b : Bool) → a ≡ true → b ≡ true → a && b ≡ true
join a b p q = ground arith

dot_case :
    (c : ℕ) (cs : Text)
    → (c == 46) ≡ true
    → not (is_empty cs) && all is_ascii_digit cs ≡ true
    → all plain_char (c ∷ cs) ≡ true
dot_case c cs dot f =
    let digits = (both (not (is_empty cs)) (all is_ascii_digit cs) f).1 in
    ground (arith, ascii_plain cs digits)

-- A text whose parts around the point are plain is plain.
split_plain :
    (t : Text)
    → all plain_char (split_once 46 t).0 ≡ true
    → fraction_ok (split_once 46 t).1 ≡ true
    → all plain_char t ≡ true
unfolding split_once
split_plain [] h f = refl
split_plain (c ∷ cs) h f = elim (Bool-cases (c == 46)) [
  | inl dot ↦ dot_case c cs dot (rw dot at f)
  | inr other ↦
      let (head, tail) = both (plain_char c) _ (rw other at h) in
      join (plain_char c) _ head (split_plain cs tail (rw other at f))
]

strip_plain : (t : Text) → all plain_char (strip_minus t).1 ≡ true → all plain_char t ≡ true
unfolding strip_minus
strip_plain [] h = refl
strip_plain (c ∷ cs) h = ground arith

canonical_number_plain :
    (t : Text) → all plain_char t ≡ true → all plain_char (canonical_number t) ≡ true
unfolding canonical_number strip_minus
canonical_number_plain [] h = refl
canonical_number_plain (c ∷ cs) h = ground arith

parse_number_plain :
    (arg token : Text) (v : ArgValue) (out : Text)
    → parse_number arg token ≡ ok v
    → number_text (ok v) ≡ ok out
    → all plain_char out ≡ true
unfolding parse_number
parse_number_plain arg token v out h k =
    let (short, h1) = passed _ (bad_number arg) _ h in
    let (good, h2) = passed _ (bad_number arg) _ h1 in
    let (whole, fraction) =
      neither (canonical_digits (split_once 46 (strip_minus token).1).0) _ good in
    let token_plain =
      strip_plain token (split_plain (strip_minus token).1 (canonical_plain _ whole) fraction) in
    let text : ok (canonical_number token) ≡ ok out =
      subst (λ w. number_text (ok w) ≡ ok out) (sym (ok_injective h2)) k in
    subst (λ t. all plain_char t ≡ true) (ok_injective text)
      (canonical_number_plain token token_plain)
  where
    neither : (a b : Bool) → (not a || not b) ≡ false → (a ≡ true) × (b ≡ true)
    neither a b e = ground arith

number_lem :
    (r : Result ArgValue ParseError) (token out : Text)
    → parse_number (codes "result") token ≡ r
    → number_text r ≡ ok out
    → all plain_char out ≡ true
number_lem (err e) token out p h = cc
number_lem (ok v) token out p h = parse_number_plain (codes "result") token v out p h

integer_lem :
    (r : Result ArgValue ParseError) (out : Text)
    → integer_text r ≡ ok out
    → all plain_char out ≡ true
integer_lem (err e) out h = cc
integer_lem (ok (integer_arg i)) out h =
    subst (λ t. all plain_char t ≡ true) (ok_injective h) (print_plain i)
integer_lem (ok (string_arg t)) out h = cc
integer_lem (ok (number_arg t)) out h = cc
integer_lem (ok (boolean_arg b)) out h = cc
integer_lem (ok (enum_arg t)) out h = cc

plain_safe : (t : Text) → all plain_char t ≡ true → safe_text t ≡ true
plain_safe t h = rw h

typed_result_safe :
    (t : CommandArgType) (text out : Text) → typed_result t text ≡ ok out → safe_text out ≡ true
unfolding typed_result
typed_result_safe integer text out h = plain_safe out (integer_lem _ out h)
typed_result_safe number text out h = plain_safe out (number_lem _ text out refl h)
typed_result_safe boolean text out h =
    truth text out (list_eq text (codes "true")) (list_eq text (codes "false")) refl refl h
  where
    shown :
        (text : Text) (b : Bool)
        → list_eq text (codes "true") ≡ true
        → (all plain_char text || list_eq text (codes "true") || b) ≡ true
    shown text b p = ground arith

    last : (a b : Bool) {c : Bool} → c ≡ true → (a || b || c) ≡ true
    last a b p = ground arith

    truth :
        (text out : Text) (a b : Bool)
        → list_eq text (codes "true") ≡ a
        → list_eq text (codes "false") ≡ b
        → (if a || b then ok text else err not_a_boolean) ≡ ok out
        → safe_text out ≡ true
    truth text out true b p q h =
        subst (λ t. safe_text t ≡ true) (ok_injective h)
          (shown text (list_eq text (codes "false")) p)
    truth text out false true p q h =
        subst (λ t. safe_text t ≡ true) (ok_injective h)
          (last (all plain_char text) (list_eq text (codes "true")) q)
    truth text out false false p q h = cc
typed_result_safe string text out h = cc
typed_result_safe enum text out h = cc
typed_result_safe unspecified text out h = cc

checked_safe :
    (spec : Option CommandResult) (text out : Text)
    → checked_result spec text ≡ ok out
    → safe_text out ≡ true
checked_safe none text out h = cc
checked_safe (some spec) text out h =
    let (short, k) = passed _ result_too_long _ h in
    typed_result_safe (arg_type_of spec.result_type) text out k

value_safe :
    (d : CommandDescriptor) (key : Text) (v : DynamicValue) (out : Text)
    → only_value d key v ≡ ok out
    → safe_text out ≡ true
value_safe d key (string_value text) out h = elim (Bool-cases (list_eq key (codes "result"))) [
  | inl named ↦ checked_safe d.result text out (rw named at h)
  | inr other ↦ absurd (err_ok (rw other at h))
]
  where
    err_ok : {e : Refusal} {w : Text} → Path (Result Text Refusal) (err e) (ok w) → ⊥
    err_ok q = cc
value_safe d key unset out h = cc
value_safe d key (boolean_value b) out h = cc
value_safe d key (integer_value i) out h = cc
value_safe d key (number_value n) out h = cc
value_safe d key (bytes_value b) out h = cc
value_safe d key (list_value l) out h = cc
value_safe d key (object_value o) out h = cc
value_safe d key (artifact_ref a) out h = cc

only_safe :
    (d : CommandDescriptor) (fields : DynamicObject) (out : Text)
    → only_field d fields ≡ ok out
    → safe_text out ≡ true
only_safe d empty out h = cc
only_safe d (field key v empty) out h = value_safe d key v out h
only_safe d (field key v (field other w more)) out h = cc

-- Whatever value a node answers, an accepted result is shown as digits, signs and points only,
-- or as true or false.
pub validate_result_safe :
    (d : CommandDescriptor) (v : DynamicValue) (out : Text)
    → validate_result d v ≡ ok out
    → safe_text out ≡ true
unfolding validate_result
validate_result_safe d (object_value fields) out h = only_safe d fields out h
validate_result_safe d unset out h = cc
validate_result_safe d (boolean_value b) out h = cc
validate_result_safe d (integer_value i) out h = cc
validate_result_safe d (number_value n) out h = cc
validate_result_safe d (string_value t) out h = cc
validate_result_safe d (bytes_value b) out h = cc
validate_result_safe d (list_value l) out h = cc
validate_result_safe d (artifact_ref a) out h = cc

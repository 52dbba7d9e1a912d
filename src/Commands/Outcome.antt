-- ===== src/Commands/Outcome.antt =====
-- What a call of a command carries and what a node may answer: `args_value`, `command_args_digest`
-- and `validate_result` of commands.rs. `parse_f64` is the bit pattern of `str::parse::<f64>`, a
-- parameter.
pub mod Safe
use galax_ia_sdk.Prelude.{
  ℕ, zero, suc, ◌+◌, ◌-◌, ◌*◌, ◌^◌, Bool, true, false, Option, none, some, List, [], ◌∷◌, ◌++◌,
  length, ltb, leb, ◌==◌, max, if◌then◌else◌, ◌&&◌, ◌||◌, not, all, any,
}
use galax_ia_sdk.Prelude.Int.{ℤ, pos, negsuc}
use galax_ia_sdk.Prelude.Lex.{list_eq}
use galax_ia_sdk.Prelude.Result.{Result, ok, err, ◌>>=◌}
use galax_ia_sdk.Text.{Text, Bytes, codes}
use galax_ia_sdk.Text.Decimal.{print_ℤ, value_from}
use galax_ia_sdk.Protocol.{
  CommandArg, CommandResult, CommandDescriptor, CommandArgType, unspecified, string, integer,
  number, boolean, enum, arg_type_of, DynamicValue, boolean_value, integer_value, number_value,
  string_value, object_value, DynamicObject, empty, field,
}
use galax_ia_sdk.Authorization.{DigestError, value_digest, domain_command_args}
use galax_ia_sdk.Commands.{
  is_ascii_digit, is_ascii_uppercase, contains, is_empty, max_line_chars, max_scalar_chars,
}
use galax_ia_sdk.Commands.Grammar.{
  ArgValue, string_arg, integer_arg, number_arg, boolean_arg, enum_arg, ParseError, Parsed,
  parse_integer, parse_number, as_usize,
}

module _ (parse_f64 : Text → Option ℕ) where
  abbrev pub number_or_zero : Option ℕ → ℕ
  number_or_zero none = 0
  number_or_zero (some bits) = bits

  abbrev pub arg_dynamic : ArgValue → DynamicValue
  arg_dynamic (string_arg s) = string_value s
  arg_dynamic (enum_arg s) = string_value s
  arg_dynamic (integer_arg i) = integer_value i
  arg_dynamic (number_arg text) = number_value (number_or_zero (parse_f64 text))
  arg_dynamic (boolean_arg b) = boolean_value b

  unfoldable pub arg_fields : Parsed → DynamicObject
  arg_fields [] = empty
  arg_fields ((name, value) ∷ more) = field name (arg_dynamic value) (arg_fields more)

  unfoldable pub args_value : Parsed → DynamicValue
  args_value args = object_value (arg_fields args)

unfoldable pub command_args_digest :
    (Bytes → Bytes) → Text → DynamicValue → Result Bytes DigestError
command_args_digest sha256 tool args =
    value_digest sha256 domain_command_args
      (object_value (field (codes "args") args (field (codes "tool") (string_value tool) empty)))

pub data Refusal : Type 0 where
  not_an_object : Refusal
  wrong_fields : Refusal
  no_result_text : Refusal
  no_result_spec : Refusal
  result_too_long : Refusal
  not_an_integer : Refusal
  not_a_number : Refusal
  not_a_boolean : Refusal
  no_such_type : Refusal

abbrev pub integer_text : Result ArgValue ParseError → Result Text Refusal
integer_text (ok (integer_arg i)) = ok (print_ℤ i)
integer_text _ = err not_an_integer

abbrev pub number_text : Result ArgValue ParseError → Result Text Refusal
number_text (ok (number_arg t)) = ok t
number_text _ = err not_a_number

unfoldable pub typed_result : CommandArgType → Text → Result Text Refusal
typed_result integer text = integer_text (parse_integer (codes "result") text)
typed_result number text = number_text (parse_number (codes "result") text)
typed_result boolean text =
    if list_eq text (codes "true") || list_eq text (codes "false")
    then ok text
    else err not_a_boolean
typed_result _ text = err no_such_type

abbrev pub checked_result : Option CommandResult → Text → Result Text Refusal
checked_result none text = err no_result_spec
checked_result (some spec) text =
    if ltb (as_usize spec.max_chars) (length text)
    then err result_too_long
    else typed_result (arg_type_of spec.result_type) text

abbrev pub only_value : CommandDescriptor → Text → DynamicValue → Result Text Refusal
only_value d key (string_value text) =
    if list_eq key (codes "result") then checked_result d.result text else err no_result_text
only_value d key _ = err no_result_text

abbrev pub only_field : CommandDescriptor → DynamicObject → Result Text Refusal
only_field d empty = err wrong_fields
only_field d (field key v empty) = only_value d key v
only_field d (field key v (field other w more)) = err wrong_fields

unfoldable pub validate_result : CommandDescriptor → DynamicValue → Result Text Refusal
validate_result d (object_value fields) = only_field d fields
validate_result d _ = err not_an_object

-- ===== src/Commands.antt =====
-- rust/fhs/src/commands.rs: chat commands that nodes declare. Here: the checks of texts and names.
-- `listed` is the test of the Unicode crate, that the category of a character is
-- one of those that `is_printable` lists; `from_slice` is serde's reader of the registry's JSON. A
-- message of an error is a constructor with the values that the message shows.
pub mod Registry
pub mod Descriptors
pub mod Grammar
pub mod Outcome
pub mod Table
use galax_ia_sdk.Prelude.{
  ℕ, zero, suc, ◌+◌, ◌-◌, ◌*◌, ◌/◌, ◌%◌, ◌^◌, Bool, true, false, Option, none, some, List, [], ◌∷◌,
  ◌++◌, length, ltb, leb, ◌==◌, if◌then◌else◌, ◌&&◌, ◌||◌, not, all, any,
}
use galax_ia_sdk.Prelude.Dict.{Dict, get, list_key}
use galax_ia_sdk.Prelude.Lex.{list_eq}
use galax_ia_sdk.Prelude.Result.{Result, ok, err, ◌>>=◌}
use galax_ia_sdk.Text.{Text, Bytes, codes}
use galax_ia_sdk.Authorization.{framed}

abbrev pub domain_contract : Bytes
domain_contract = codes "fhs/cmd/contract"

abbrev pub domain_registry : Bytes
domain_registry = codes "fhs/cmd/registry"

abbrev pub max_commands : ℕ
max_commands = 8

abbrev pub max_args : ℕ
max_args = 4

abbrev pub max_commands_bytes : ℕ
max_commands_bytes = 4096

abbrev pub max_line_chars : ℕ
max_line_chars = 2048

abbrev pub max_summary_chars : ℕ
max_summary_chars = 120

abbrev pub max_description_chars : ℕ
max_description_chars = 80

abbrev pub max_allowed_chars : ℕ
max_allowed_chars = 128

abbrev pub max_string_length : ℕ
max_string_length = 1024

abbrev pub max_nesting : ℕ
max_nesting = 64

abbrev pub max_enum_values : ℕ
max_enum_values = 16

abbrev pub max_enum_value_chars : ℕ
max_enum_value_chars = 64

abbrev pub max_result_chars : ℕ
max_result_chars = 64

abbrev pub max_scalar_chars : ℕ
max_scalar_chars = 32

abbrev pub reserved_names : List Text
reserved_names = codes "ayuda" ∷ codes "help" ∷ codes "comandos" ∷ []

pub data ArgFault : Type 0 where
  arg_name : ArgFault
  description : ArgFault
  max_length : ArgFault
  allowed_chars : ArgFault
  nesting : ArgFault
  enum_in_string : ArgFault
  rest_not_last : ArgFault
  enum_count : ArgFault
  enum_not_canonical : ArgFault
  string_in_enum : ArgFault
  limits_in_scalar : ArgFault
  no_type : ArgFault

pub data DescriptorError : Type 0 where
  registry_json : DescriptorError
  registry_version : ℕ → DescriptorError
  registry_empty : DescriptorError
  capability : Text → DescriptorError
  tools_count : Text → DescriptorError
  tools_invalid : Text → DescriptorError
  admission_unknown : Text → Text → DescriptorError
  many_codes : Text → DescriptorError
  error_code : Text → Text → DescriptorError
  arg_fault : Text → Text → ArgFault → DescriptorError
  command_name : Text → DescriptorError
  not_registered : Text → Text → DescriptorError
  not_announced : Text → Text → DescriptorError
  tool_not_allowed : Text → Text → Text → DescriptorError
  summary : Text → DescriptorError
  many_args : Text → DescriptorError
  repeated_arg : Text → Text → DescriptorError
  required_after_optional : Text → DescriptorError
  no_result : Text → DescriptorError
  result_invalid : Text → DescriptorError
  many_commands : DescriptorError
  too_big : ℕ → DescriptorError
  not_sorted : DescriptorError

abbrev hex_digit : ℕ → ℕ
hex_digit d = if ltb d 10 then 48 + d else 87 + d

unfoldable pub to_hex : Bytes → Text
to_hex [] = []
to_hex (b ∷ bs) = hex_digit (b / 16) ∷ hex_digit (b % 16) ∷ to_hex bs

abbrev pub is_ascii_lowercase : ℕ → Bool
is_ascii_lowercase c = leb 97 c && leb c 122

abbrev pub is_ascii_uppercase : ℕ → Bool
is_ascii_uppercase c = leb 65 c && leb c 90

abbrev pub is_ascii_digit : ℕ → Bool
is_ascii_digit c = leb 48 c && leb c 57

abbrev pub contains : List Text → Text → Bool
contains l t = any (λ x. list_eq x t) l

unfoldable pub is_ident : Text → ℕ → ℕ → Bool
is_ident [] most extra = false
is_ident (c ∷ cs) most extra =
    is_ascii_lowercase c
    && leb (length (c ∷ cs)) most
    && all (λ d. is_ascii_lowercase d || is_ascii_digit d || d == extra) cs

abbrev pub is_command_name : Text → Bool
is_command_name name = is_ident name 24 45

abbrev pub is_arg_name : Text → Bool
is_arg_name name = is_ident name 24 95

abbrev pub is_tool_name : Text → Bool
is_tool_name name = is_ident name 32 95

abbrev pub is_empty : {A : Type 0} → List A → Bool
is_empty [] = true
is_empty (x ∷ xs) = false

module _ (listed : ℕ → Bool) where
  abbrev pub is_printable : ℕ → Bool
  is_printable c = c == 32 || listed c

  unfoldable pub is_plain_text : Text → ℕ → Bool
  is_plain_text text max_chars = leb (length text) max_chars && all is_printable text

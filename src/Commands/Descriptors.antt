-- ===== src/Commands/Descriptors.antt =====
-- The validation of the descriptors of a beacon, and the fingerprint of a contract. The codec of
-- prost is a parameter: `encode` for `encode_to_vec`, whose length is `encoded_len`, and
-- `encoded_len_varint`.
use galax_ia_sdk.Prelude.{
  ℕ, ◌+◌, Bool, true, false, Option, none, some, List, [], ◌∷◌, map, length, ltb, leb, ◌==◌,
  if◌then◌else◌, ◌&&◌, ◌||◌, not, all,
}
use galax_ia_sdk.Prelude.Int.{ℤ, pos, negsuc}
use galax_ia_sdk.Prelude.Dict.{get, list_key}
use galax_ia_sdk.Prelude.Lex.{lex_lt}
use galax_ia_sdk.Text.{Text, Bytes}
use galax_ia_sdk.Text.Utf8.{as_bytes}
use galax_ia_sdk.Protocol.{
  CommandArg, CommandResult, CommandDescriptor, CommandArgType, unspecified, string, integer,
  number, boolean, enum, arg_type_of,
}
use galax_ia_sdk.Authorization.{framed}
use galax_ia_sdk.Commands.{
  ArgFault, arg_name, description, max_length, allowed_chars, nesting, enum_in_string,
  rest_not_last, enum_count, enum_not_canonical, string_in_enum, limits_in_scalar, no_type,
  DescriptorError, arg_fault, command_name, not_registered, not_announced, tool_not_allowed,
  summary, many_args, repeated_arg, required_after_optional, no_result, result_invalid,
  many_commands, too_big, not_sorted, is_printable, is_plain_text, is_arg_name, is_command_name,
  contains, is_empty, reserved_names, max_description_chars, max_string_length, max_allowed_chars,
  max_nesting, max_enum_values, max_enum_value_chars, max_summary_chars, max_args, max_result_chars,
  max_commands, max_commands_bytes, domain_contract, to_hex,
}
use galax_ia_sdk.Commands.Registry.{Registry, RegistryEntry}

-- `(low..=high).contains(&i)`
abbrev pub in_range : ℕ → ℕ → ℤ → Bool
in_range low high (pos n) = leb low n && leb n high
in_range low high (negsuc n) = false

abbrev pub is_zero : ℤ → Bool
is_zero (pos n) = n == 0
is_zero (negsuc n) = false

-- `windows(2).all(|w| w[0] < w[1])`
unfoldable pub increasing : List Bytes → Bool
increasing [] = true
increasing (x ∷ []) = true
increasing (x ∷ y ∷ more) = lex_lt x y && increasing (y ∷ more)

unfoldable pub increasing_chars : Text → Bool
increasing_chars [] = true
increasing_chars (x ∷ []) = true
increasing_chars (x ∷ y ∷ more) = ltb x y && increasing_chars (y ∷ more)

abbrev pub is_scalar_result : CommandArgType → Bool
is_scalar_result number = true
is_scalar_result integer = true
is_scalar_result boolean = true
is_scalar_result _ = false

-- no bound of a STRING argument is set
abbrev pub has_bounds : CommandArg → Bool
has_bounds arg =
    not (is_zero arg.max_length)
    || not (is_empty arg.allowed_chars)
    || not (is_zero arg.max_nesting)
    || arg.rest

abbrev pub fault_or : Bool → ArgFault → Option ArgFault → Option ArgFault
fault_or true fault next = some fault
fault_or false fault next = next

module _ (listed : ℕ → Bool) where
  unfoldable pub canonical_chars : Text → Bool
  canonical_chars chars =
      leb (length chars) max_allowed_chars
      && increasing_chars chars
      && all (is_printable listed) chars

  abbrev pub enum_value_ok : Text → Bool
  enum_value_ok v =
      leb 1 (length v)
      && leb (length v) max_enum_value_chars
      && all (λ c. is_printable listed c && not (c == 32)) v

  -- the `match` on the type of an argument: the first check that fails
  unfoldable pub type_fault : CommandArgType → CommandArg → Bool → Option ArgFault
  type_fault string arg last =
      fault_or (not (in_range 1 max_string_length arg.max_length)) max_length (
        fault_or (not (canonical_chars arg.allowed_chars)) allowed_chars (
          fault_or (not (in_range 0 max_nesting arg.max_nesting)) nesting (
            fault_or (not (is_empty arg.enum_values)) enum_in_string
              (fault_or (arg.rest && not last) rest_not_last none))))
  type_fault enum arg last =
      fault_or (is_empty arg.enum_values || ltb max_enum_values (length arg.enum_values)) enum_count
        (fault_or
          (not (increasing (map as_bytes arg.enum_values))
            || not (all enum_value_ok arg.enum_values))
          enum_not_canonical (fault_or (has_bounds arg) string_in_enum none))
  type_fault integer arg last =
      fault_or (has_bounds arg || not (is_empty arg.enum_values)) limits_in_scalar none
  type_fault number arg last =
      fault_or (has_bounds arg || not (is_empty arg.enum_values)) limits_in_scalar none
  type_fault boolean arg last =
      fault_or (has_bounds arg || not (is_empty arg.enum_values)) limits_in_scalar none
  type_fault unspecified arg last = some no_type

  -- `validate_arg`: `none` is `Ok(())`
  unfoldable pub validate_arg : CommandArg → Bool → Option ArgFault
  validate_arg arg last = fault_or (not (is_arg_name arg.name)) arg_name (
      fault_or (not (is_plain_text listed arg.description max_description_chars)) description
        (type_fault (arg_type_of arg.arg_type) arg last))

  abbrev pub or_fault :
      Text → CommandArg → Option ArgFault → Option DescriptorError → Option DescriptorError
  or_fault command arg (some fault) next = some (arg_fault command arg.name fault)
  or_fault command arg none next = next

  -- The loop over the arguments: the names so far, and whether an optional one was seen.
  unfoldable pub validate_args : Text → List Text → Bool → List CommandArg → Option DescriptorError
  validate_args command names seen_optional [] = none
  validate_args command names seen_optional (arg ∷ more) =
      let next =
        validate_args command (arg.name ∷ names) (seen_optional || not arg.required) more in
      if contains names arg.name
      then some (repeated_arg command arg.name)
      else or_fault command arg (validate_arg arg (is_empty more))
          (if arg.required && seen_optional then some (required_after_optional command) else next)

  unfoldable pub validate_result_spec : Text → Option CommandResult → Option DescriptorError
  validate_result_spec command none = some (no_result command)
  validate_result_spec command (some r) =
      if not (is_scalar_result (arg_type_of r.result_type))
        || not (in_range 1 max_result_chars r.max_chars)
      then some (result_invalid command)
      else none

  abbrev pub or_else : Option DescriptorError → Option DescriptorError → Option DescriptorError
  or_else (some e) next = some e
  or_else none next = next

  -- what is checked once the entry of the registry is known
  unfoldable pub validate_entry :
      CommandDescriptor → List Text → Option RegistryEntry → Option DescriptorError
  validate_entry d beacon_capabilities none = some (not_registered d.name d.capability_id)
  validate_entry d beacon_capabilities (some entry) =
      if not (contains beacon_capabilities d.capability_id)
      then some (not_announced d.name d.capability_id)
      else if not (contains entry.tools d.tool_name)
      then some (tool_not_allowed d.name d.tool_name d.capability_id)
      else if not (is_plain_text listed d.summary max_summary_chars)
      then some (summary d.name)
      else if ltb max_args (length d.args)
      then some (many_args d.name)
      else or_else (validate_args d.name [] false d.args) (validate_result_spec d.name d.result)

  unfoldable pub validate_descriptor :
      CommandDescriptor → List Text → Registry → Option DescriptorError
  validate_descriptor d beacon_capabilities registry =
      if not (is_command_name d.name) || contains reserved_names d.name
      then some (command_name d.name)
      else validate_entry d beacon_capabilities (get d.capability_id registry.entries)

  unfoldable pub validate_each :
      List CommandDescriptor → List Text → Registry → Option DescriptorError
  validate_each [] beacon_capabilities registry = none
  validate_each (d ∷ ds) beacon_capabilities registry =
      or_else (validate_descriptor d beacon_capabilities registry)
        (validate_each ds beacon_capabilities registry)

  module _ (encode : CommandDescriptor → Bytes) (encoded_len_varint : ℕ → ℕ) where
    unfoldable pub encoded_size : List CommandDescriptor → ℕ
    encoded_size [] = 0
    encoded_size (d ∷ ds) =
        let len = length (encode d) in 1 + encoded_len_varint len + len + encoded_size ds

    -- `none` is `Ok(())`
    unfoldable pub validate_descriptors :
        List CommandDescriptor → List Text → Registry → Option DescriptorError
    validate_descriptors commands beacon_capabilities registry =
        if ltb max_commands (length commands)
        then some many_commands
        else if ltb max_commands_bytes (encoded_size commands)
        then some (too_big (encoded_size commands))
        else if not (increasing (map (λ c. as_bytes c.name) commands))
        then some not_sorted
        else validate_each commands beacon_capabilities registry

-- The contract without its texts.
abbrev pub without_description : CommandArg → CommandArg
without_description a = record a { description = [] }

abbrev pub contract : CommandDescriptor → CommandDescriptor
contract d = record d { summary = []; args = map without_description d.args }

unfoldable pub fingerprint :
    (Bytes → Bytes) → (CommandDescriptor → Bytes) → CommandDescriptor → Text
fingerprint sha256 encode d = to_hex (framed sha256 domain_contract (encode (contract d)))

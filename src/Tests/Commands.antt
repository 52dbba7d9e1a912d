-- ===== src/Tests/Commands.antt =====
-- rust/fhs/src/commands.rs on concrete inputs: one node that declares `/calc`.
use galax_ia_sdk.Prelude.{ℕ, ◌≡◌, refl, Bool, true, none, some, [], ◌∷◌, All}
use galax_ia_sdk.Prelude.Int.{pos}
use galax_ia_sdk.Prelude.Dict.{get}
use galax_ia_sdk.Prelude.Lex.{list_eq}
use galax_ia_sdk.Prelude.Result.{ok, err}
use galax_ia_sdk.Prelude.Sort.{sort_on}
use galax_ia_sdk.Text.{Text, Bytes, codes}
use galax_ia_sdk.Text.Utf8.{as_bytes}
use galax_ia_sdk.Text.Trim.{trim_start, trim_end}
use galax_ia_sdk.Text.Decimal.{value_from}
use galax_ia_sdk.Protocol.{
  CommandArg, CommandDescriptor, DynamicValue, string_value, object_value, field, empty,
}
use galax_ia_sdk.PeerCache.{PeerEntry, unknown, one_half}
use galax_ia_sdk.Authorization.{framed}
use galax_ia_sdk.Commands.{is_ident, is_plain_text, to_hex}
use galax_ia_sdk.Commands.Registry.{Registry, open_admission, split_on}
use galax_ia_sdk.Commands.Descriptors.{
  validate_descriptors, validate_each, validate_descriptor, validate_entry, validate_args,
  validate_arg, validate_result_spec, type_fault, canonical_chars, increasing, increasing_chars,
  encoded_size, fingerprint,
}
use galax_ia_sdk.Commands.Grammar.{
  string_arg, command, classify_line, until, parse_args, parse_from, parse_value, parse_typed,
  parse_string, next_token, find_char, nesting_from, parse_number, canonical_digits, split_once,
  strip_minus, canonical_number, bad_char, usage, usage_args,
}
use galax_ia_sdk.Commands.Grammar.Arguments.{Line, parse_args-Line}
use galax_ia_sdk.Commands.Outcome.{validate_result, typed_result}
use galax_ia_sdk.Commands.Outcome.Safe.{safe_text, validate_result_safe}
use galax_ia_sdk.Commands.Table.{
  Policy, all_nodes, CommandTable, ActiveCommand, active, resolve, resolved, from_peers, add_peers,
  add_peer, add_commands, admits, push_offer, update, entries_of, entry_of, dedup, version_at_least,
  parse_u32,
}
use galax_ia_sdk.Commands.Table.Entries.{IsNode}
use galax_ia_sdk.Commands.Table.Peers.{resolve-IsNode}

abbrev expression : CommandArg
expression = record {
  name = codes "expression";
  description = [];
  arg_type = pos 1;
  required = true;
  rest = true;
  max_length = pos 64;
  allowed_chars = codes "()+123";
  enum_values = [];
  max_nesting = pos 2;
}

abbrev calc : CommandDescriptor
calc = record {
  name = codes "calc";
  capability_id = codes "math.calc";
  tool_name = codes "evaluate";
  summary = [];
  args = expression ∷ [];
  result = some (record { result_type = pos 3; max_chars = pos 32 });
}

line_run : classify_line (codes " /CALC 1+2 ") ≡ command (codes "calc") (codes " 1+2")
unfolding classify_line trim_start trim_end until
line_run = refl

args_run :
    parse_args calc (codes " (1+2) ") ≡ ok ((codes "expression", string_arg (codes "(1+2)")) ∷ [])
unfolding parse_args parse_from parse_value parse_typed parse_string next_token trim_start trim_end
    until find_char nesting_from
args_run = refl

bad_char_run : parse_args calc (codes " 1*2") ≡ err (bad_char (codes "expression") 42)
unfolding parse_args parse_from parse_value parse_typed parse_string next_token trim_start trim_end
    until find_char nesting_from
bad_char_run = refl

usage_run : usage calc ≡ codes "/calc <expression...>"
unfolding usage usage_args
usage_run = refl

parse_args-Line_example :
    Line calc.args (codes " (1+2) ") ((codes "expression", string_arg (codes "(1+2)")) ∷ [])
parse_args-Line_example =
    parse_args-Line calc (codes " (1+2) ") ((codes "expression", string_arg (codes "(1+2)")) ∷ [])
      args_run

abbrev answer : Text → DynamicValue
answer text = object_value (field (codes "result") (string_value text) empty)

answer_run : validate_result calc (answer (codes "-0.0")) ≡ ok (codes "0.0")
unfolding validate_result typed_result parse_number canonical_digits split_once strip_minus
    canonical_number list_eq
answer_run = refl

validate_result_safe_example : safe_text (codes "0.0") ≡ true
validate_result_safe_example =
    validate_result_safe calc (answer (codes "-0.0")) (codes "0.0") answer_run

abbrev registry : Registry
registry = record {
  version = 1;
  entries =
      (
        codes "math.calc",
        record { tools = codes "evaluate" ∷ []; admission = open_admission; error_codes = [] },
      )
      ∷ [];
  digest = [];
}

abbrev policy : Policy
policy = record { open_nodes = all_nodes; trusted_nodes = [] }

abbrev node : PeerEntry
node = record {
  did = codes "did:key:zCalc";
  beacon = record {
    fhs_version = codes "0.2";
    provider = none;
    capabilities = codes "math.calc" ∷ [];
    agent_capabilities = [];
    commands = calc ∷ [];
    unread = [];
  };
  multiaddrs = [];
  trust_level = codes "community";
  reputation_score = one_half;
  peer_type = unknown;
  capabilities = codes "math.calc" ∷ [];
  last_seen_ms = pos 0;
  expires_at_ms = pos 90000;
  advert_expires_ms = pos 60000;
  advert_timestamp_ms = pos 0;
}

abbrev encode : CommandDescriptor → Bytes
encode d = as_bytes d.name

abbrev one_byte : ℕ → ℕ
one_byte n = 1

abbrev plain_hash : Bytes → Bytes
plain_hash b = 7 ∷ []

abbrev listed : ℕ → Bool
listed c = true

abbrev in_force : ActiveCommand
in_force = record { descriptor = calc; contract = codes "07"; nodes = codes "did:key:zCalc" ∷ [] }

abbrev table : CommandTable
table = record { entries = (codes "calc", active in_force) ∷ []; rejected = [] }

valid_run :
    validate_descriptors listed encode one_byte (calc ∷ []) (codes "math.calc" ∷ []) registry ≡ none
unfolding validate_descriptors validate_each validate_descriptor validate_entry validate_args
    validate_arg validate_result_spec type_fault canonical_chars increasing increasing_chars
    encoded_size is_ident is_plain_text list_eq get as_bytes
valid_run = refl

table_run :
    from_peers listed encode one_byte plain_hash registry policy (node ∷ []) (pos 1000) ≡ some table
unfolding from_peers add_peers add_peer add_commands admits push_offer update entries_of entry_of
    dedup version_at_least parse_u32 split_on value_from fingerprint to_hex framed get list_eq
    sort_on
table_run = rw valid_run refl

resolve_run : resolve table (codes "calc") ≡ resolved in_force
unfolding resolve get list_eq
resolve_run = refl

resolve-IsNode_example :
    (calc.name ≡ codes "calc")
    × (fingerprint plain_hash encode calc ≡ codes "07")
    × All
        (IsNode encode plain_hash registry policy (codes "calc") (codes "07"))
        (codes "did:key:zCalc" ∷ [])
resolve-IsNode_example =
    resolve-IsNode listed encode one_byte plain_hash registry policy (node ∷ []) (pos 1000) table
      (codes "calc") in_force table_run resolve_run

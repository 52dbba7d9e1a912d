-- ===== src/Commands/Registry.antt =====
-- The closed registry of commands.rs. `from_slice` is serde's reader of its JSON, a parameter.
use galax_ia_sdk.Prelude.{
  ℕ, Bool, true, false, Option, none, some, List, [], ◌∷◌, ◌++◌, length, ltb, leb, ◌==◌,
  if◌then◌else◌, ◌&&◌, ◌||◌, not, all,
}
use galax_ia_sdk.Prelude.Dict.{Dict, get, list_key}
use galax_ia_sdk.Prelude.Lex.{list_eq}
use galax_ia_sdk.Prelude.Result.{Result, ok, err, ◌>>=◌}
use galax_ia_sdk.Text.{Text, Bytes, codes}
use galax_ia_sdk.Authorization.{framed}
use galax_ia_sdk.Commands.{
  DescriptorError, registry_json, registry_version, registry_empty, capability, tools_count,
  tools_invalid, admission_unknown, many_codes, error_code, is_ascii_lowercase, is_ascii_uppercase,
  is_ascii_digit, is_tool_name, contains, is_empty, is_plain_text, to_hex, domain_registry,
}

pub data Admission : Type 0 where
  open_admission : Admission
  trusted : Admission

pub record RegistryEntry : Type 0 where
  pub tools : List Text
  pub admission : Admission
  pub error_codes : Dict Text Text

pub record RawEntry : Type 0 where
  pub tools : List Text
  pub admission : Text
  pub error_codes : Dict Text Text

pub record RawRegistry : Type 0 where
  pub registry_version : ℕ
  pub entries : Dict Text RawEntry

pub record Registry : Type 0 where
  pub version : ℕ
  pub entries : Dict Text RegistryEntry
  pub digest : Text

-- `split('.')`: at least one part, the current one given
unfoldable pub split_on : ℕ → Text → Text → List Text
split_on sep part [] = part ∷ []
split_on sep part (c ∷ cs) =
    let next = split_on sep [] cs in
    let more = split_on sep (part ++ (c ∷ [])) cs in if c == sep then part ∷ next else more

unfoldable pub is_label : Text → Bool
is_label [] = false
is_label (c ∷ cs) = is_ascii_lowercase c && all (λ d. is_ascii_lowercase d || is_ascii_digit d) cs

unfoldable pub is_capability_id : Text → Bool
is_capability_id id = let parts = split_on 46 [] id in leb 2 (length parts) && all is_label parts

unfoldable pub is_error_code : Text → Bool
is_error_code [] = false
is_error_code (c ∷ cs) =
    is_ascii_uppercase c
    && leb (length (c ∷ cs)) 32
    && all (λ d. is_ascii_uppercase d || is_ascii_digit d || d == 95) cs

unfoldable pub distinct : List Text → Bool
distinct [] = true
distinct (t ∷ ts) = not (contains ts t) && distinct ts

abbrev pub admission_of : Text → Option Admission
admission_of text =
    if list_eq text (codes "open")
    then some open_admission
    else if list_eq text (codes "trusted")
    then some trusted
    else none

unfoldable pub error_text : Registry → Text → Text → Option Text
error_text r capability_id error = elim (get capability_id r.entries) [
  | none ↦ none
  | some entry ↦ get error entry.error_codes
]

module _ (listed : ℕ → Bool) where
  -- the loop over the error codes of an entry
  unfoldable pub check_codes : Text → Dict Text Text → Option DescriptorError
  check_codes capability_id [] = none
  check_codes capability_id ((code, text) ∷ more) =
      let rest = check_codes capability_id more in
      if not (is_error_code code) || is_empty text || not (is_plain_text listed text 120)
      then some (error_code capability_id code)
      else rest

  abbrev pub with_admission :
      Text → RawEntry → Option Admission → Result RegistryEntry DescriptorError
  with_admission capability_id entry none = err (admission_unknown capability_id entry.admission)
  with_admission capability_id entry (some admission) =
      if ltb 16 (length entry.error_codes)
      then err (many_codes capability_id)
      else elim (check_codes capability_id entry.error_codes) [
        | some e ↦ err e
        | none ↦
            ok (record {
              tools = entry.tools;
              admission = admission;
              error_codes = entry.error_codes;
            })
      ]

  unfoldable pub check_entry : Text → RawEntry → Result RegistryEntry DescriptorError
  check_entry capability_id entry =
      if not (is_capability_id capability_id)
      then err (capability capability_id)
      else if is_empty entry.tools || ltb 8 (length entry.tools)
      then err (tools_count capability_id)
      else if not (distinct entry.tools) || not (all is_tool_name entry.tools)
      then err (tools_invalid capability_id)
      else with_admission capability_id entry (admission_of entry.admission)

  unfoldable pub check_entries :
      Dict Text RawEntry → Result (Dict Text RegistryEntry) DescriptorError
  check_entries [] = ok []
  check_entries ((capability_id, entry) ∷ more) = do
    first ← check_entry capability_id entry
    rest ← check_entries more
    ok ((capability_id, first) ∷ rest)

  module _ (sha256 : Bytes → Bytes) (from_slice : Bytes → Option RawRegistry) where
    abbrev pub of_raw : Bytes → Option RawRegistry → Result Registry DescriptorError
    of_raw bytes none = err registry_json
    of_raw bytes (some raw) =
        if not (raw.registry_version == 1)
        then err (registry_version raw.registry_version)
        else if is_empty raw.entries
        then err registry_empty
        else check_entries raw.entries >>= λ entries. ok (record {
          version = raw.registry_version;
          entries = entries;
          digest = to_hex (framed sha256 domain_registry bytes);
        })

    -- `Registry::parse`
    unfoldable pub parse : Bytes → Result Registry DescriptorError
    parse bytes = of_raw bytes (from_slice bytes)

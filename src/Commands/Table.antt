-- ===== src/Commands/Table.antt =====
-- The table of the commands in force, from the advertisements that are alive and admitted. A
-- `BTreeMap` is a list in the order of its keys. `none` is a panic: an entry that an index or an
-- `expect` takes for granted.
pub mod Groups
pub mod Entries
pub mod Peers
use galax_ia_sdk.Prelude.{
  ℕ, zero, suc, ◌+◌, ◌*◌, ◌^◌, Bool, true, false, Option, none, some, List, [], ◌∷◌, ◌++◌, map,
  length, ltb, leb, ◌==◌, if◌then◌else◌, ◌&&◌, ◌||◌, not, all,
}
use galax_ia_sdk.Prelude.Int.{ℤ, ltb_ℤ}
use galax_ia_sdk.Prelude.Dict.{Dict, get, list_key}
use galax_ia_sdk.Prelude.Lex.{lex_lt, list_eq}
use galax_ia_sdk.Prelude.Sort.{sort_on}
use galax_ia_sdk.Text.{Text, Bytes, codes}
use galax_ia_sdk.Text.Utf8.{as_bytes}
use galax_ia_sdk.Text.Decimal.{value_from}
use galax_ia_sdk.Protocol.{CommandDescriptor, CommandSummary}
use galax_ia_sdk.PeerCache.{PeerEntry}
use galax_ia_sdk.Commands.{DescriptorError, contains, is_empty, is_ascii_digit}
use galax_ia_sdk.Commands.Registry.{
  Admission, open_admission, trusted, Registry, RegistryEntry, split_on,
}
use galax_ia_sdk.Commands.Descriptors.{validate_descriptors, fingerprint}
use galax_ia_sdk.Commands.Grammar.{usage}

pub data OpenNodes : Type 0 where
  no_nodes : OpenNodes
  all_nodes : OpenNodes
  listed_nodes : List Text → OpenNodes

pub record Policy : Type 0 where
  pub open_nodes : OpenNodes
  pub trusted_nodes : List Text

abbrev pub opened : OpenNodes → Text → Bool
opened no_nodes did = false
opened all_nodes did = true
opened (listed_nodes dids) did = contains dids did

unfoldable pub admits : Policy → Admission → Text → Bool
admits policy open_admission did = opened policy.open_nodes did
admits policy trusted did = contains policy.trusted_nodes did

pub record ActiveCommand : Type 0 where
  pub descriptor : CommandDescriptor
  pub contract : Text
  pub nodes : List Text

pub data Entry : Type 0 where
  active : ActiveCommand → Entry
  conflict : ℕ → Entry

pub data Resolution : Type 0 where
  resolved : ActiveCommand → Resolution
  in_conflict : ℕ → Resolution
  unknown : Resolution

pub data Discarded : Type 0 where
  old_version : Discarded
  invalid : DescriptorError → Discarded

pub record CommandTable : Type 0 where
  pub entries : Dict Text Entry
  pub rejected : List (Text × Discarded)

-- `parse::<u32>` of a part: digits with an optional plus sign
unfoldable pub parse_u32 : Text → Option ℕ
parse_u32 [] = none
parse_u32 (c ∷ cs) =
    let digits = if c == 43 then cs else c ∷ cs in
    if not (is_empty digits) && all is_ascii_digit digits && ltb (value_from 0 digits) (2 ^ 32)
    then some (value_from 0 digits)
    else none

-- `(major, minor) >= (0, 2)`
abbrev pub at_least : Option ℕ → Option ℕ → Bool
at_least (some major) (some minor) = ltb 0 major || leb 2 minor
at_least (some major) none = false
at_least none minor = false

abbrev pub version_parts : List Text → Bool
version_parts [] = false
version_parts (major ∷ []) = false
version_parts (major ∷ minor ∷ more) = at_least (parse_u32 major) (parse_u32 minor)

unfoldable pub version_at_least : Text → Bool
version_at_least version = version_parts (split_on 46 [] version)

abbrev pub Offer : Type 0
Offer = Text × CommandDescriptor

abbrev pub Groups : Type 0
Groups = Dict Text (Dict Text (List Offer))

-- `entry(key).or_default()` and a change of the value, in the order of the keys
unfoldable pub update {ℓ} : {V : Type ℓ} → Text → V → (V → V) → Dict Text V → Dict Text V
update key default f [] = (key, f default) ∷ []
update key default f ((k, v) ∷ m) =
    let later = update key default f m in
    if list_eq k key
    then (k, f v) ∷ m
    else if lex_lt (as_bytes key) (as_bytes k)
    then (key, f default) ∷ (k, v) ∷ m
    else (k, v) ∷ later

unfoldable pub push_offer : Text → Text → Offer → Groups → Groups
push_offer name contract offer groups =
    update name []
      (λ by_contract. update contract [] (λ offers. offers ++ (offer ∷ [])) by_contract) groups

abbrev pub offer_key : Offer → Bytes
offer_key o = as_bytes o.0

-- A `BTreeSet` of a sorted list.
unfoldable pub dedup : List Text → List Text
dedup [] = []
dedup (t ∷ []) = t ∷ []
dedup (t ∷ u ∷ ts) = let rest = dedup (u ∷ ts) in if list_eq t u then rest else t ∷ rest

abbrev pub active_of : Text → List Offer → Option Entry
active_of contract [] = none
active_of contract (o ∷ os) = some (
    active (record {
      descriptor = o.1;
      contract = contract;
      nodes = dedup (map (λ (p : Offer). p.0) (o ∷ os));
    }))

unfoldable pub count_offers : Dict Text (List Offer) → ℕ
count_offers [] = 0
count_offers ((contract, offers) ∷ more) = length offers + count_offers more

unfoldable pub entry_of : Dict Text (List Offer) → Option Entry
entry_of [] = none
entry_of ((contract, offers) ∷ []) = active_of contract (sort_on offer_key offers)
entry_of (first ∷ second ∷ more) = some (conflict (count_offers (first ∷ second ∷ more)))

abbrev pub cons_entry : Text → Option Entry → Option (Dict Text Entry) → Option (Dict Text Entry)
cons_entry name none rest = none
cons_entry name (some e) none = none
cons_entry name (some e) (some rest) = some ((name, e) ∷ rest)

unfoldable pub entries_of : Groups → Option (Dict Text Entry)
entries_of [] = some []
entries_of ((name, group) ∷ groups) = cons_entry name (entry_of group) (entries_of groups)

module _ (listed : ℕ → Bool) (encode : CommandDescriptor → Bytes) (encoded_len_varint : ℕ → ℕ)
    (sha256 : Bytes → Bytes) (registry : Registry) (policy : Policy) where
  abbrev pub add_admitted : Text → CommandDescriptor → Option RegistryEntry → Groups → Option Groups
  add_admitted did d none groups = none
  add_admitted did d (some entry) groups =
      if admits policy entry.admission did
      then some (push_offer d.name (fingerprint sha256 encode d) (did, d) groups)
      else some groups

  abbrev pub then_groups : Option Groups → (Groups → Option Groups) → Option Groups
  then_groups none f = none
  then_groups (some groups) f = f groups

  -- the loop over the commands of a peer
  unfoldable pub add_commands : Text → List CommandDescriptor → Groups → Option Groups
  add_commands did [] groups = some groups
  add_commands did (d ∷ ds) groups =
      then_groups (add_admitted did d (get d.capability_id registry.entries) groups)
        (add_commands did ds)

  abbrev pub Built : Type 0
  Built = Groups × List (Text × Discarded)

  abbrev pub with_groups : List (Text × Discarded) → Option Groups → Option Built
  with_groups rejected none = none
  with_groups rejected (some groups) = some (groups, rejected)

  abbrev pub judge : PeerEntry → Built → Option DescriptorError → Option Built
  judge peer (groups, rejected) (some e) = some (groups, rejected ++ ((peer.did, invalid e) ∷ []))
  judge peer (groups, rejected) none =
      with_groups rejected (add_commands peer.did peer.beacon.commands groups)

  unfoldable pub add_peer : ℤ → PeerEntry → Built → Option Built
  add_peer now_ms peer (groups, rejected) =
      if is_empty peer.beacon.commands || not (ltb_ℤ now_ms peer.advert_expires_ms)
      then some (groups, rejected)
      else if not (version_at_least peer.beacon.fhs_version)
      then some (groups, rejected ++ ((peer.did, old_version) ∷ []))
      else judge peer (groups, rejected)
          (validate_descriptors listed encode encoded_len_varint peer.beacon.commands
            peer.beacon.capabilities registry)

  abbrev pub then_built : Option Built → (Built → Option Built) → Option Built
  then_built none f = none
  then_built (some b) f = f b

  unfoldable pub add_peers : ℤ → List PeerEntry → Built → Option Built
  add_peers now_ms [] built = some built
  add_peers now_ms (peer ∷ peers) built =
      then_built (add_peer now_ms peer built) (add_peers now_ms peers)

  abbrev pub with_entries : List (Text × Discarded) → Option (Dict Text Entry) → Option CommandTable
  with_entries rejected none = none
  with_entries rejected (some entries) = some (record { entries = entries; rejected = rejected })

  abbrev pub table_of : Option Built → Option CommandTable
  table_of none = none
  table_of (some (groups, rejected)) = with_entries rejected (entries_of groups)

  unfoldable pub from_peers : List PeerEntry → ℤ → Option CommandTable
  from_peers peers now_ms = table_of (add_peers now_ms peers ([], []))

abbrev pub resolution_of : Option Entry → Resolution
resolution_of none = unknown
resolution_of (some (active c)) = resolved c
resolution_of (some (conflict n)) = in_conflict n

unfoldable pub resolve : CommandTable → Text → Resolution
resolve t name = resolution_of (get name t.entries)

-- `nodes_count` as a number of 32 bits: there are fewer nodes than that.
abbrev pub summary_of : Text × Entry → CommandSummary
summary_of (name, active c) = record {
  name = name;
  usage = usage c.descriptor;
  summary = c.descriptor.summary;
  nodes_count = length c.nodes;
  conflict = false;
}
summary_of (name, conflict n) = record {
  name = name;
  usage = [];
  summary = [];
  nodes_count = n;
  conflict = true;
}

unfoldable pub summaries : CommandTable → List CommandSummary
summaries t = map summary_of t.entries

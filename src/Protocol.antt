-- ===== src/Protocol.antt =====
-- rust/fhs/proto/fhs-protocol.proto: the messages that the modelled code reads. An `int64` is an
-- integer in its range; a `double` or a `float` is its bit pattern, which determines it.
use galax_ia_sdk.Prelude.{ℕ, Bool, Option, List, ◌==◌, if◌then◌else◌}
use galax_ia_sdk.Prelude.Int.{ℤ, pos, negsuc}
use galax_ia_sdk.Text.{Text, Bytes}

pub record InlineArtifact : Type 0 where
  pub content : Bytes
  pub filename : Text

pub record IpfsArtifact : Type 0 where
  pub cid : Text
  pub network : Text
  pub gateway_url : Text
  pub filename : Text
  pub retention : Text

-- `ArtifactRef` with its `oneof transport`
pub data ArtifactRef : Type 0 where
  no_transport : ArtifactRef
  inline : InlineArtifact → ArtifactRef
  ipfs : IpfsArtifact → ArtifactRef

-- `unset` is a `DynamicValue` with no `kind`. The fields of an object stand in some order; a map
-- holds no key twice.
mutual
  pub data DynamicValue : Type 0 where
    unset : DynamicValue
    boolean_value : Bool → DynamicValue
    integer_value : ℤ → DynamicValue
    number_value : ℕ → DynamicValue
    string_value : Text → DynamicValue
    bytes_value : Bytes → DynamicValue
    list_value : DynamicList → DynamicValue
    object_value : DynamicObject → DynamicValue
    artifact_ref : ArtifactRef → DynamicValue

  pub data DynamicList : Type 0 where
    nil : DynamicList
    cons : DynamicValue → DynamicList → DynamicList

  pub data DynamicObject : Type 0 where
    empty : DynamicObject
    field : Text → DynamicValue → DynamicObject → DynamicObject

-- The enumerations are their `int32`.
pub record AuthorizationItem : Type 0 where
  pub item_id : Text
  pub capability_id : Text
  pub provider_did : Text
  pub provider_name : Text
  pub trust_level : Text
  pub policy_version : Text
  pub data_class : ℤ
  pub data_summary : Text
  pub payload_digest : Bytes
  pub destination : ℤ
  pub retention : ℤ
  pub depends_on : List Text
  pub first_time_node : Bool
  pub public_network : Bool
  pub failover : Bool
  pub side_effects : Bool
  pub retry : Bool
  pub implicit : Bool
  pub contract_fingerprint : Text
  pub tool_name : Text
  pub registry_digest : Text

-- An enumeration of an argument or a provider is its `int32`, which may name no constant.
pub record ProviderIdentity : Type 0 where
  pub id : Text
  pub provider_type : ℤ
  pub visibility : ℤ
  pub name : Text
  pub description : Text
  pub region : Text
  pub tags : List Text
  pub ephemeral : Bool
  pub delegated_by : Text
  pub lease_seconds : ℤ

pub record CommandArg : Type 0 where
  pub name : Text
  pub description : Text
  pub arg_type : ℤ
  pub required : Bool
  pub rest : Bool
  pub max_length : ℤ
  pub allowed_chars : Text
  pub enum_values : List Text
  pub max_nesting : ℤ

pub record CommandResult : Type 0 where
  pub result_type : ℤ
  pub max_chars : ℤ

pub record CommandDescriptor : Type 0 where
  pub name : Text
  pub capability_id : Text
  pub tool_name : Text
  pub summary : Text
  pub args : List CommandArg
  pub result : Option CommandResult

-- Of a capability the code reads its id; `unread` stands for what no code reads, encoded.
pub record Beacon : Type 0 where
  pub fhs_version : Text
  pub provider : Option ProviderIdentity
  pub capabilities : List Text
  pub agent_capabilities : List Text
  pub commands : List CommandDescriptor
  pub unread : Bytes

pub record NodeAdvertiseMessage : Type 0 where
  pub did : Text
  pub beacon : Option Beacon
  pub multiaddrs : List Text
  pub timestamp : ℤ
  pub ttl_seconds : ℤ
  pub ephemeral : Bool
  pub delegated_by : Text
  pub trust_level : Text
  pub signature : Bytes

pub record MissionOfferMessage : Type 0 where
  pub mission_id : Text
  pub navigator_did : Text
  pub navigator_multiaddrs : List Text
  pub mission_type : Text
  pub required_capabilities : List Text
  pub preferred_model : Text
  pub scope : Text
  pub bid_deadline_ms : ℤ
  pub timestamp : ℤ
  pub signature : Bytes

pub record MissionBidMessage : Type 0 where
  pub mission_id : Text
  pub provider_did : Text
  pub provider_multiaddrs : List Text
  pub provider_type : Text
  pub offered_capabilities : List Text
  pub offered_model : Text
  pub reputation_score : ℕ
  pub estimated_latency_ms : ℤ
  pub trust_level : Text
  pub timestamp : ℤ
  pub signature : Bytes

pub record MissionAssignMessage : Type 0 where
  pub mission_id : Text
  pub navigator_did : Text
  pub assigned_provider : Text
  pub timestamp : ℤ
  pub signature : Bytes

pub record DhtBeaconRecord : Type 0 where
  pub did : Text
  pub beacon : Option Beacon
  pub multiaddrs : List Text
  pub published_at : ℤ
  pub expires_at : ℤ
  pub fhs_version : Text
  pub signature : Bytes

-- `P` is the type of the messages of the `oneof payload`.
pub record Envelope (P : Type 0) : Type 0 where
  pub message_id : Text
  pub source_peer_id : Text
  pub dest_peer_id : Text
  pub timestamp : ℤ
  pub version : Text
  pub signature : Bytes
  pub payload : Option P

pub record CommandSummary : Type 0 where
  pub name : Text
  pub usage : Text
  pub summary : Text
  pub nodes_count : ℕ
  pub conflict : Bool

-- `CommandArgType::try_from(…).unwrap_or(Unspecified)`
pub data CommandArgType : Type 0 where
  unspecified : CommandArgType
  string : CommandArgType
  integer : CommandArgType
  number : CommandArgType
  boolean : CommandArgType
  enum : CommandArgType

abbrev pub arg_type_of : ℤ → CommandArgType
arg_type_of (negsuc n) = unspecified
arg_type_of (pos n) =
    if n == 1
    then string
    else if n == 2
    then integer
    else if n == 3
    then number
    else if n == 4
    then boolean
    else if n == 5
    then enum
    else unspecified

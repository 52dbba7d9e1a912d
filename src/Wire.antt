-- ===== src/Wire.antt =====
-- rust/fhs/src/p2p/wire.rs: the signed messages that a node publishes and those that it accepts. The
-- clock and the fresh id of an envelope are arguments, and so are the codecs of prost.
pub mod Verified
pub mod RoundTrip
use galax_ia_sdk.Prelude.{
  ℕ, ◌*◌, Bool, true, false, Option, none, some, List, [], ◌∷◌, ◌++◌, map, if◌then◌else◌, not,
}
use galax_ia_sdk.Prelude.Int.{ℤ, pos, ◌+ℤ◌, wrap_i64}
use galax_ia_sdk.Prelude.Result.{Result, ok, err, ok_or, ◌>>=◌}
use galax_ia_sdk.Text.{Text, Bytes, codes}
use galax_ia_sdk.Text.Utf8.{as_bytes}
use galax_ia_sdk.Protocol.{
  ProviderIdentity, Beacon, NodeAdvertiseMessage, DhtBeaconRecord, MissionOfferMessage,
  MissionBidMessage, MissionAssignMessage, Envelope,
}
use galax_ia_sdk.PeerCache.{is_empty}
use galax_ia_sdk.Signing.{
  Crypto, node_advertise_payload, dht_beacon_payload, mission_offer_payload, mission_bid_payload,
  mission_assign_payload, verify_node_advertise, verify_mission_offer, verify_mission_bid,
  verify_mission_assign,
}
use galax_ia_sdk.Signing.Envelopes.{envelope_payload}

abbrev pub topic_nodes_advertise : Text
topic_nodes_advertise = codes "fhs/v1/nodes/advertise"

abbrev pub topic_missions_offer : Text
topic_missions_offer = codes "fhs/v1/missions/offer"

abbrev pub topic_missions_bid : Text
topic_missions_bid = codes "fhs/v1/missions/bid"

abbrev pub topic_missions_assign : Text
topic_missions_assign = codes "fhs/v1/missions/assign"

abbrev pub topic_reputation_update : Text
topic_reputation_update = codes "fhs/v1/reputation/update"

abbrev pub fhs_wire_version : Text
fhs_wire_version = codes "0.2"

-- what prost generates for a message
pub record Codec (M : Type 0) : Type 0 where
  pub decode : Bytes → Option M
  pub encode : M → Bytes

-- The DID of a node and its signature of a text.
pub record Signer : Type 0 where
  pub did : Text
  pub sign : Text → Bytes

-- The enumerations are their `int32`.
abbrev pub provider_of : Text → ℤ → ℤ → Text → Text → List Text → ProviderIdentity
provider_of id provider_type visibility name description tags = record {
  id = id;
  provider_type = provider_type;
  visibility = visibility;
  name = name;
  description = description;
  region = [];
  tags = tags;
  ephemeral = false;
  delegated_by = [];
  lease_seconds = pos 0;
}

abbrev pub beacon_of : ProviderIdentity → List Text → Beacon
beacon_of provider capabilities = record {
  fhs_version = fhs_wire_version;
  provider = some provider;
  capabilities = capabilities;
  agent_capabilities = [];
  commands = [];
  unread = [];
}

abbrev pub multi : ℤ
multi = pos 4

abbrev pub community : ℤ
community = pos 3

unfoldable pub navigator_beacon : Text → Beacon
navigator_beacon name = beacon_of (provider_of (codes "navigator") multi community name [] []) []

unfoldable pub provider_beacon : Text → ℤ → Text → Text → List Text → List Text → Beacon
provider_beacon did provider_type name description capabilities tags =
    beacon_of (provider_of did provider_type community name description tags) capabilities

-- the message of `signed_node_advertise`, signed
unfoldable pub own_advertise : Crypto → Signer → ℤ → Beacon → List Text → ℤ → NodeAdvertiseMessage
own_advertise c identity now beacon multiaddrs ttl_seconds =
    let message : NodeAdvertiseMessage = record {
      did = identity.did;
      beacon = some beacon;
      multiaddrs = multiaddrs;
      timestamp = now;
      ttl_seconds = ttl_seconds;
      ephemeral = false;
      delegated_by = [];
      trust_level = codes "community";
      signature = [];
    } in
    record message { signature = identity.sign (node_advertise_payload c message) }

abbrev pub dht_beacon_ttl_ms : ℕ
dht_beacon_ttl_ms = 24 * 60 * 60 * 1000

unfoldable pub dht_beacon_key : Text → Bytes
dht_beacon_key did = as_bytes (codes "/fhs/beacon/" ++ did)

unfoldable pub own_dht_beacon : Crypto → Signer → ℤ → Beacon → List Text → DhtBeaconRecord
own_dht_beacon c identity published_at beacon multiaddrs =
    let message : DhtBeaconRecord = record {
      did = identity.did;
      beacon = some beacon;
      multiaddrs = multiaddrs;
      published_at = published_at;
      expires_at = wrap_i64 (published_at +ℤ pos dht_beacon_ttl_ms);
      fhs_version = fhs_wire_version;
      signature = [];
    } in
    record message { signature = identity.sign (dht_beacon_payload c message) }

unfoldable pub own_offer : Signer → ℤ → MissionOfferMessage → MissionOfferMessage
own_offer identity now given =
    let message = record given { navigator_did = identity.did; timestamp = now; signature = [] } in
    record message { signature = identity.sign (mission_offer_payload message) }

unfoldable pub own_bid : Signer → ℤ → MissionBidMessage → MissionBidMessage
own_bid identity now given =
    let message = record given { provider_did = identity.did; timestamp = now; signature = [] } in
    record message { signature = identity.sign (mission_bid_payload message) }

unfoldable pub own_assign : Signer → ℤ → Text → Text → MissionAssignMessage
own_assign identity now mission_id assigned_provider =
    let message : MissionAssignMessage = record {
      mission_id = mission_id;
      navigator_did = identity.did;
      assigned_provider = assigned_provider;
      timestamp = now;
      signature = [];
    } in
    record message { signature = identity.sign (mission_assign_payload message) }

pub data Rejected : Type 0 where
  decode : Rejected
  missing_signature : Rejected
  bad_signature : Rejected

-- the checks that the four `verified_…` functions make of their decoded message
abbrev pub accepted : {M : Type 0} → M → Bytes → Bool → Result M Rejected
accepted message signature valid =
    if is_empty signature
    then err missing_signature
    else if not valid
    then err bad_signature
    else ok message

module _ (c : Crypto) where
  unfoldable pub verified_node_advertise :
      Codec NodeAdvertiseMessage → Bytes → Result NodeAdvertiseMessage Rejected
  verified_node_advertise codec bytes =
      ok_or (codec.decode bytes) decode
      >>= (λ message. accepted message message.signature (verify_node_advertise c message))

  unfoldable pub verified_mission_bid :
      Codec MissionBidMessage → Bytes → Result MissionBidMessage Rejected
  verified_mission_bid codec bytes =
      ok_or (codec.decode bytes) decode
      >>= (λ message. accepted message message.signature (verify_mission_bid c message))

  unfoldable pub verified_mission_offer :
      Codec MissionOfferMessage → Bytes → Result MissionOfferMessage Rejected
  verified_mission_offer codec bytes =
      ok_or (codec.decode bytes) decode
      >>= (λ message. accepted message message.signature (verify_mission_offer c message))

  unfoldable pub verified_mission_assign :
      Codec MissionAssignMessage → Bytes → Result MissionAssignMessage Rejected
  verified_mission_assign codec bytes =
      ok_or (codec.decode bytes) decode
      >>= (λ message. accepted message message.signature (verify_mission_assign c message))

  -- A fresh envelope, signed over the encoding of its payload.
  unfoldable pub sealed_envelope :
      {P : Type 0} → (P → Bytes) → Signer → Text → ℤ → Text → P → Envelope P
  sealed_envelope {P} encode_payload identity fresh_id now dest_peer_id payload =
      let envelope : Envelope P = record {
        message_id = fresh_id;
        source_peer_id = identity.did;
        dest_peer_id = dest_peer_id;
        timestamp = now;
        version = fhs_wire_version;
        signature = [];
        payload = some payload;
      } in
      record envelope { signature = identity.sign (envelope_payload c encode_payload envelope) }

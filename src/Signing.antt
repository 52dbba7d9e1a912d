-- ===== src/Signing.antt =====
-- rust/fhs/src/signing.rs: the texts that FHS messages sign and the check of their signatures. The
-- crates it calls (base58, Ed25519, SHA-256, hexadecimal, the Protobuf encoding of a beacon) are the
-- record `Crypto`.
pub mod Payloads
pub mod Raw
pub mod Envelopes
use galax_ia_sdk.Prelude.{
  ℕ, ◌≡◌, Bool, true, false, Option, none, some, List, [], ◌∷◌, ◌++◌, length, take, drop, ◌==◌,
  if◌then◌else◌, not, ◌||◌,
}
use galax_ia_sdk.Prelude.Int.{ℤ}
use galax_ia_sdk.Prelude.Lex.{list_eq}
use galax_ia_sdk.Prelude.Result.{Result, ok, err, ok_or, ◌>>=◌}
use galax_ia_sdk.Prelude.Sort.{sort_on}
use galax_ia_sdk.Text.{Text, Bytes, codes}
use galax_ia_sdk.Text.Utf8.{as_bytes}
use galax_ia_sdk.Text.Decimal.{print_ℤ}
use galax_ia_sdk.Protocol.{
  Beacon, NodeAdvertiseMessage, DhtBeaconRecord, MissionOfferMessage, MissionBidMessage,
  MissionAssignMessage,
}
use galax_ia_sdk.PeerCache.{or_empty}

pub record Crypto : Type 1 where
  pub Key : Type 0
  pub Sig : Type 0
  pub base58 : Text → Option Bytes
  pub from_bytes : Bytes → Option Key
  pub from_slice : Bytes → Option Sig
  pub checks : Key → Bytes → Sig → Bool
  pub sha256 : Bytes → Bytes
  pub hex : Bytes → Text
  pub encode_beacon : Beacon → Bytes

abbrev pub did_key_prefix : Text
did_key_prefix = codes "did:key:z"

abbrev pub ed25519_multicodec : Bytes
ed25519_multicodec = 0xed ∷ 0x01 ∷ []

pub data DidError : Type 0 where
  not_did_key : DidError
  base58_fault : DidError
  not_ed25519 : DidError

-- `str::strip_prefix`
unfoldable pub strip_prefix : Text → Text → Option Text
strip_prefix [] t = some t
strip_prefix (c ∷ cs) [] = none
strip_prefix (c ∷ cs) (d ∷ t) = if c == d then strip_prefix cs t else none

-- the key behind the two bytes of the multicodec
abbrev pub ed25519_key : Bytes → Result Bytes DidError
ed25519_key bytes =
    if not (length bytes == 34) || not (list_eq (take 2 bytes) ed25519_multicodec)
    then err not_ed25519
    else ok (drop 2 bytes)

-- fields joined by colons, the first one given apart
unfoldable pub colons : Text → List Text → Text
colons first [] = first
colons first (t ∷ ts) = colons (first ++ 58 ∷ t) ts

-- `join(",")`
unfoldable pub join_commas : List Text → Text
join_commas [] = []
join_commas (t ∷ []) = t
join_commas (t ∷ u ∷ ts) = t ++ 44 ∷ join_commas (u ∷ ts)

module _ (c : Crypto) where
  unfoldable pub did_public_key : Text → Result Bytes DidError
  did_public_key did =
      ok_or (strip_prefix did_key_prefix did) not_did_key
      >>= (λ encoded. ok_or (c.base58 encoded) base58_fault >>= ed25519_key)

  abbrev pub verifying_key : Result Bytes DidError → Option c.Key
  verifying_key (ok key) = c.from_bytes key
  verifying_key (err e) = none

  abbrev pub signed_by : Option c.Key → Option c.Sig → Bytes → Bool
  signed_by none s message = false
  signed_by (some k) none message = false
  signed_by (some k) (some s) message = c.checks k message s

  unfoldable pub verify : Text → Text → Bytes → Bool
  verify signer_did payload signature =
      signed_by (verifying_key (did_public_key signer_did)) (c.from_slice signature)
        (as_bytes payload)

  unfoldable pub beacon_sha256 : Option Beacon → Text
  beacon_sha256 beacon = c.hex (c.sha256 (c.encode_beacon (or_empty beacon)))

  unfoldable pub node_advertise_payload : NodeAdvertiseMessage → Text
  node_advertise_payload m =
      colons m.did (beacon_sha256 m.beacon ∷ print_ℤ m.timestamp ∷ print_ℤ m.ttl_seconds ∷ [])

  unfoldable pub dht_beacon_payload : DhtBeaconRecord → Text
  dht_beacon_payload r =
      colons r.did (beacon_sha256 r.beacon ∷ print_ℤ r.published_at ∷ print_ℤ r.expires_at ∷ [])

unfoldable pub mission_offer_payload : MissionOfferMessage → Text
mission_offer_payload m =
    colons m.mission_id
      (m.navigator_did ∷ m.mission_type ∷ print_ℤ m.bid_deadline_ms ∷ print_ℤ m.timestamp ∷ [])

-- `sort` compares strings by their bytes.
unfoldable pub mission_bid_payload : MissionBidMessage → Text
mission_bid_payload m = colons m.mission_id (
    m.provider_did
    ∷ join_commas (sort_on as_bytes m.offered_capabilities)
    ∷ print_ℤ m.timestamp
    ∷ [])

unfoldable pub mission_assign_payload : MissionAssignMessage → Text
mission_assign_payload m =
    colons m.mission_id (m.navigator_did ∷ m.assigned_provider ∷ print_ℤ m.timestamp ∷ [])

module _ (c : Crypto) where
  unfoldable pub verify_node_advertise : NodeAdvertiseMessage → Bool
  verify_node_advertise m = verify c m.did (node_advertise_payload c m) m.signature

  unfoldable pub verify_dht_beacon : DhtBeaconRecord → Bool
  verify_dht_beacon r = verify c r.did (dht_beacon_payload c r) r.signature

  unfoldable pub verify_mission_offer : MissionOfferMessage → Bool
  verify_mission_offer m = verify c m.navigator_did (mission_offer_payload m) m.signature

  unfoldable pub verify_mission_bid : MissionBidMessage → Bool
  verify_mission_bid m = verify c m.provider_did (mission_bid_payload m) m.signature

  unfoldable pub verify_mission_assign : MissionAssignMessage → Bool
  verify_mission_assign m = verify c m.navigator_did (mission_assign_payload m) m.signature

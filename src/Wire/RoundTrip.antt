-- ===== src/Wire/RoundTrip.antt =====
-- A message that a node signs is accepted by the node that receives it.
use galax_ia_sdk.Prelude.{ℕ, ◌≡◌, ap, ◌∙◌, true, false, some, List, [], ◌^◌, ◌<◌, length, All}
use galax_ia_sdk.Prelude.Int.{ℤ}
use galax_ia_sdk.Prelude.Result.{ok}
use galax_ia_sdk.Text.{Text, Bytes}
use galax_ia_sdk.Protocol.{
  Beacon, NodeAdvertiseMessage, MissionOfferMessage, MissionBidMessage, MissionAssignMessage,
  Envelope,
}
use galax_ia_sdk.PeerCache.{is_empty}
use galax_ia_sdk.Signing.{
  Crypto, verify, verify_node_advertise, verify_mission_offer, verify_mission_bid,
  verify_mission_assign, node_advertise_payload, mission_offer_payload, mission_bid_payload,
  mission_assign_payload,
}
use galax_ia_sdk.Signing.Raw.{Prost, raw_envelope_payload, is_payload_tag}
use galax_ia_sdk.Signing.Raw.Scan.{Consumes}
use galax_ia_sdk.Signing.Raw.Written.{
  Writer, Field, bytes, IsHeader, put, put_all, raw_envelope_payload-put_all,
}
use galax_ia_sdk.Signing.Envelopes.{
  verify_envelope_bytes, Verified-verify_envelope_bytes, envelope_signed, envelope_payload,
  envelope_signature_payload,
}
use galax_ia_sdk.Wire.{
  Codec, Signer, own_advertise, own_offer, own_bid, own_assign, verified_node_advertise,
  verified_mission_bid, verified_mission_offer, verified_mission_assign, sealed_envelope,
}
use galax_ia_sdk.Wire.Verified.{
  verified_node_advertise_iff, verified_mission_bid_iff, verified_mission_offer_iff,
  verified_mission_assign_iff,
}

-- Ed25519: what the node signs is verified by the key of its DID, and a signature is not empty.
pub record Honest (c : Crypto) (identity : Signer) : Type 0 where
  pub verifies : (t : Text) → verify c identity.did t (identity.sign t) ≡ true
  pub present : (t : Text) → is_empty (identity.sign t) ≡ false
  pub named : is_empty identity.did ≡ false

module _ (c : Crypto) (identity : Signer) (h : Honest c identity) (now : ℤ) where
  -- An advertisement that a node signs is accepted as it was sent.
  pub own_advertise-verified :
      (codec : Codec NodeAdvertiseMessage) (beacon : Beacon) (addrs : List Text) (ttl : ℤ)
      → codec.decode (codec.encode (own_advertise c identity now beacon addrs ttl))
        ≡ some (own_advertise c identity now beacon addrs ttl)
      → verified_node_advertise c codec
          (codec.encode (own_advertise c identity now beacon addrs ttl))
        ≡ ok (own_advertise c identity now beacon addrs ttl)
  unfolding own_advertise verify_node_advertise node_advertise_payload
  own_advertise-verified codec beacon addrs ttl back =
      (verified_node_advertise_iff c _ codec _).1
        (record { decoded = back; has_signature = h.present _; is_valid = h.verifies _ })

  pub own_offer-verified :
      (codec : Codec MissionOfferMessage) (given : MissionOfferMessage)
      → codec.decode (codec.encode (own_offer identity now given))
        ≡ some (own_offer identity now given)
      → verified_mission_offer c codec (codec.encode (own_offer identity now given))
        ≡ ok (own_offer identity now given)
  unfolding own_offer verify_mission_offer mission_offer_payload
  own_offer-verified codec given back =
      (verified_mission_offer_iff c _ codec _).1
        (record { decoded = back; has_signature = h.present _; is_valid = h.verifies _ })

  -- A bid that a node signs is accepted as it was sent.
  pub own_bid-verified :
      (codec : Codec MissionBidMessage) (given : MissionBidMessage)
      → codec.decode (codec.encode (own_bid identity now given)) ≡ some (own_bid identity now given)
      → verified_mission_bid c codec (codec.encode (own_bid identity now given))
        ≡ ok (own_bid identity now given)
  unfolding own_bid verify_mission_bid mission_bid_payload
  own_bid-verified codec given back =
      (verified_mission_bid_iff c _ codec _).1
        (record { decoded = back; has_signature = h.present _; is_valid = h.verifies _ })

  pub own_assign-verified :
      (codec : Codec MissionAssignMessage) (mission provider : Text)
      → codec.decode (codec.encode (own_assign identity now mission provider))
        ≡ some (own_assign identity now mission provider)
      → verified_mission_assign c codec (codec.encode (own_assign identity now mission provider))
        ≡ ok (own_assign identity now mission provider)
  unfolding own_assign verify_mission_assign mission_assign_payload
  own_assign-verified codec mission provider back =
      (verified_mission_assign_iff c _ codec _).1
        (record { decoded = back; has_signature = h.present _; is_valid = h.verifies _ })

  -- A sealed envelope, encoded as header fields before its payload, is accepted as it was sent.
  pub sealed_envelope-verified :
      {P : Type 0} (p : Prost) (w : Writer p) (codec : Codec (Envelope P)) (encode : P → Bytes)
      (id dest : Text) (message : P) (header : List Field) (tag : ℕ)
      → Consumes p
      → codec.decode (codec.encode (sealed_envelope c encode identity id now dest message))
        ≡ some (sealed_envelope c encode identity id now dest message)
      → codec.encode (sealed_envelope c encode identity id now dest message)
        ≡ put_all w header (put w (bytes tag (encode message)) [])
      → All IsHeader header
      → is_payload_tag tag ≡ true
      → length (encode message) < 2 ^ 64
      → verify_envelope_bytes c p codec.decode
          (codec.encode (sealed_envelope c encode identity id now dest message))
        ≡ ok (some (sealed_envelope c encode identity id now dest message))
  unfolding sealed_envelope envelope_signed envelope_payload envelope_signature_payload
  sealed_envelope-verified p w codec encode id dest message header tag reads back layout ok_header
        is_payload fits =
      Verified-verify_envelope_bytes c p codec.decode _
        (sealed_envelope c encode identity id now dest message)
        (record {
          decoded = back;
          has_signature = h.present _;
          has_source = h.named;
          payload = encode message;
          raw =
              ap (raw_envelope_payload p) layout
              ∙ raw_envelope_payload-put_all w reads tag (encode message) [] fits is_payload header
                  ok_header;
          signed = h.verifies _;
        })

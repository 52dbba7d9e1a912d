-- ===== src/Wire/Verified.antt =====
-- What a message that a node accepts has been through.
use galax_ia_sdk.Prelude.{
  ◌≡◌, refl, ap, ◌∙◌, sym, Bool, true, false, Option, none, some, [], ◌∷◌, ◌↔◌,
}
use galax_ia_sdk.Prelude.Result.{Result, ok, ok_or, ◌>>=◌, ok_injective}
use galax_ia_sdk.Text.{Bytes}
use galax_ia_sdk.Protocol.{
  NodeAdvertiseMessage, MissionOfferMessage, MissionBidMessage, MissionAssignMessage,
}
use galax_ia_sdk.PeerCache.{is_empty}
use galax_ia_sdk.Signing.{
  Crypto, verify_node_advertise, verify_mission_offer, verify_mission_bid, verify_mission_assign,
}
use galax_ia_sdk.Wire.{
  Codec, Rejected, decode, accepted, verified_node_advertise, verified_mission_bid,
  verified_mission_offer, verified_mission_assign,
}

-- The bytes decode to the message, which has a signature that is valid.
pub record IsSigned {M : Type 0} (codec : Codec M) (bytes : Bytes) (m : M) (signature : Bytes)
    (valid : Bool) : Type 0 where
  pub decoded : codec.decode bytes ≡ some m
  pub has_signature : is_empty signature ≡ false
  pub is_valid : valid ≡ true

module _ {M : Type 0} (codec : Codec M) (signature : M → Bytes) (valid : M → Bool)
    (bytes : Bytes) where
  abbrev checked : Option M → Result M Rejected
  checked o = ok_or o decode >>= (λ m. accepted m (signature m) (valid m))

  accepted-inv :
      (x m : M) (s : Bytes) (v : Bool)
      → accepted x s v ≡ ok m
      → (x ≡ m) × (is_empty s ≡ false) × (v ≡ true)
  accepted-inv x m [] v h = cc
  accepted-inv x m (b ∷ s) true h = (ok_injective h, refl, refl)
  accepted-inv x m (b ∷ s) false h = cc

  -- exactly the signed messages are accepted
  pub checked_iff :
      (m : M)
      → (checked (codec.decode bytes) ≡ ok m) ↔ IsSigned codec bytes m (signature m) (valid m)
  checked_iff m =
      ((λ h. from (codec.decode bytes) refl h), λ s. rw (s.decoded, s.has_signature, s.is_valid))
    where
      from :
          (o : Option M)
          → codec.decode bytes ≡ o
          → checked o ≡ ok m
          → IsSigned codec bytes m (signature m) (valid m)
      from none d h = cc
      from (some x) d h =
          let (same, present, good) = accepted-inv x m (signature x) (valid x) h in
          record {
            decoded = d ∙ ap some same;
            has_signature = ap (λ y. is_empty (signature y)) (sym same) ∙ present;
            is_valid = ap valid (sym same) ∙ good;
          }

module _ (c : Crypto) (bytes : Bytes) where
  -- An advertisement is accepted exactly when its bytes decode to it, it has a signature, and the
  -- key of its own DID verifies that.
  pub verified_node_advertise_iff :
      (codec : Codec NodeAdvertiseMessage) (m : NodeAdvertiseMessage)
      → (verified_node_advertise c codec bytes ≡ ok m)
        ↔ IsSigned codec bytes m m.signature (verify_node_advertise c m)
  unfolding verified_node_advertise
  verified_node_advertise_iff codec m =
      checked_iff codec (λ x. x.signature) (verify_node_advertise c) bytes m

  pub verified_mission_bid_iff :
      (codec : Codec MissionBidMessage) (m : MissionBidMessage)
      → (verified_mission_bid c codec bytes ≡ ok m)
        ↔ IsSigned codec bytes m m.signature (verify_mission_bid c m)
  unfolding verified_mission_bid
  verified_mission_bid_iff codec m =
      checked_iff codec (λ x. x.signature) (verify_mission_bid c) bytes m

  pub verified_mission_offer_iff :
      (codec : Codec MissionOfferMessage) (m : MissionOfferMessage)
      → (verified_mission_offer c codec bytes ≡ ok m)
        ↔ IsSigned codec bytes m m.signature (verify_mission_offer c m)
  unfolding verified_mission_offer
  verified_mission_offer_iff codec m =
      checked_iff codec (λ x. x.signature) (verify_mission_offer c) bytes m

  pub verified_mission_assign_iff :
      (codec : Codec MissionAssignMessage) (m : MissionAssignMessage)
      → (verified_mission_assign c codec bytes ≡ ok m)
        ↔ IsSigned codec bytes m m.signature (verify_mission_assign c m)
  unfolding verified_mission_assign
  verified_mission_assign_iff codec m =
      checked_iff codec (λ x. x.signature) (verify_mission_assign c) bytes m

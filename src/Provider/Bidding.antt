-- ===== src/Provider/Bidding.antt =====
-- `bid_loop` of rust/fhs/src/p2p/provider.rs, and the way of a bid to the navigator that asked.
use galax_ia_sdk.Prelude.{
  ◌≡◌, refl, ap, ◌∙◌, false, Option, none, some, List, [], ◌∷◌, if◌then◌else◌,
}
use galax_ia_sdk.Prelude.Int.{ℤ, pos}
use galax_ia_sdk.Prelude.Lex.{list_eq, list_eq_self}
use galax_ia_sdk.Prelude.Dict.{get, list_key, get-insert}
use galax_ia_sdk.Text.{Text, Bytes}
use galax_ia_sdk.Protocol.{MissionOfferMessage, MissionBidMessage}
use galax_ia_sdk.PeerCache.{is_empty}
use galax_ia_sdk.Signing.{Crypto}
use galax_ia_sdk.Wire.{Codec, Signer, own_bid, topic_missions_bid}
use galax_ia_sdk.Wire.RoundTrip.{Honest, own_bid-verified}
use galax_ia_sdk.Node.Collector.{OpenBidWindow, push, deliver, deliver_to}
use galax_ia_sdk.Node.State.{Actor, Effect, publishes}
use galax_ia_sdk.Node.Gossip.{Codecs, take_bid, branch_of, handle_gossip}
use galax_ia_sdk.Provider.{BidTerms, Provider}

-- the bid before it is signed
unfoldable pub bid_with : MissionOfferMessage → List Text → BidTerms → MissionBidMessage
bid_with offer own_addrs terms = record {
  mission_id = offer.mission_id;
  provider_did = [];
  provider_multiaddrs = own_addrs;
  provider_type = terms.provider_type;
  offered_capabilities = terms.offered_capabilities;
  offered_model = terms.offered_model;
  reputation_score = terms.reputation_score;
  estimated_latency_ms = terms.estimated_latency_ms;
  trust_level = terms.trust_level;
  timestamp = pos 0;
  signature = [];
}

abbrev pub bid_on :
    Codec MissionBidMessage
    → Signer
    → ℤ
    → List Text
    → MissionOfferMessage
    → Option BidTerms
    → List Effect
bid_on codec identity now own_addrs offer none = []
bid_on codec identity now own_addrs offer (some terms) =
    publishes topic_missions_bid
      (codec.encode (own_bid identity now (bid_with offer own_addrs terms)))
    ∷ []

-- one turn of the loop: what it publishes for an offer
unfoldable pub bid_turn :
    Codec MissionBidMessage → Signer → ℤ → List Text → Provider → MissionOfferMessage → List Effect
bid_turn codec identity now own_addrs p offer =
    if is_empty offer.mission_id
    then []
    else bid_on codec identity now own_addrs offer (p.bid offer)

-- A provider that bids for an offer publishes one message on the topic of the bids; a navigator
-- with an open window for the mission that gets it, at any time, adds exactly that bid to the
-- window.
pub bid_turn-delivered :
    (c : Crypto) (codecs : Codecs) (identity : Signer) (sent arrived : ℤ) (own_addrs : List Text)
    (p : Provider) (offer : MissionOfferMessage) (terms : BidTerms) (a : Actor) (w : OpenBidWindow)
    → Honest c identity
    → codecs.bid.decode (codecs.bid.encode (own_bid identity sent (bid_with offer own_addrs terms)))
      ≡ some (own_bid identity sent (bid_with offer own_addrs terms))
    → is_empty offer.mission_id ≡ false
    → p.bid offer ≡ some terms
    → get offer.mission_id a.bids ≡ some w
    → (bytes : Bytes) × (bid_turn codecs.bid identity sent own_addrs p offer
        ≡ publishes topic_missions_bid bytes ∷ [])
      × (get offer.mission_id (handle_gossip c codecs arrived a topic_missions_bid bytes).0.bids
          ≡ some (push (own_bid identity sent (bid_with offer own_addrs terms)) w))
unfolding bid_turn handle_gossip branch_of list_eq deliver own_bid bid_with
bid_turn-delivered c codecs identity sent arrived own_addrs p offer terms a w h back named bids_it
      opened =
    let bid = own_bid identity sent (bid_with offer own_addrs terms) in
    (
      codecs.bid.encode bid,
      rw (named, bids_it) refl,
      ap (λ r. get offer.mission_id (take_bid a r).bids)
            (own_bid-verified c identity h sent codecs.bid (bid_with offer own_addrs terms) back)
          ∙ ap (λ o. get offer.mission_id (deliver_to a.bids bid o).0) opened
          ∙ get-insert offer.mission_id offer.mission_id (push bid w) a.bids
          ∙ rw (list_eq_self offer.mission_id) refl,
    )

-- ===== src/Node/Gossip.antt =====
-- `handle_gossip` and `replay_advertises` of rust/fhs/src/p2p/node.rs.
use galax_ia_sdk.Prelude.{Bool, true, false, List, [], ◌∷◌, if◌then◌else◌}
use galax_ia_sdk.Prelude.Int.{ℤ, pos, negsuc, ◌+ℤ◌, ◌*ℤ◌, ltb_ℤ, wrap_i64}
use galax_ia_sdk.Prelude.Lex.{list_eq}
use galax_ia_sdk.Prelude.Result.{Result, ok, err}
use galax_ia_sdk.Prelude.Dict.{Dict, insert, retain, list_key}
use galax_ia_sdk.Text.{Text, Bytes}
use galax_ia_sdk.Protocol.{
  NodeAdvertiseMessage, MissionOfferMessage, MissionBidMessage, MissionAssignMessage,
}
use galax_ia_sdk.PeerCache.{upsert_at}
use galax_ia_sdk.Signing.{Crypto}
use galax_ia_sdk.Wire.{
  Codec, Rejected, verified_node_advertise, verified_mission_bid, verified_mission_offer,
  verified_mission_assign, topic_nodes_advertise, topic_missions_offer, topic_missions_bid,
  topic_missions_assign,
}
use galax_ia_sdk.Node.{is_bootstrap}
use galax_ia_sdk.Node.Collector.{deliver}
use galax_ia_sdk.Node.State.{Actor, Effect, publishes, sends_offer, sends_assign}

-- the codecs that prost generates
pub record Codecs : Type 0 where
  pub advertise : Codec NodeAdvertiseMessage
  pub offer : Codec MissionOfferMessage
  pub bid : Codec MissionBidMessage
  pub assign : Codec MissionAssignMessage

-- `ttl_seconds.max(0)`
abbrev pub at_least_zero : ℤ → ℤ
at_least_zero (pos n) = pos n
at_least_zero (negsuc n) = pos 0

-- The sum is unchecked: it wraps in a release build, as here, and panics in a debug build.
unfoldable pub replay_expiry : NodeAdvertiseMessage → ℤ
replay_expiry m = wrap_i64 (m.timestamp +ℤ at_least_zero m.ttl_seconds *ℤ pos 1000)

abbrev pub remembered :
    Bool → NodeAdvertiseMessage → Bytes → Dict Text (Bytes × ℤ) → Dict Text (Bytes × ℤ)
remembered true m bytes latest = insert m.did (bytes, replay_expiry m) latest
remembered false m bytes latest = latest

-- A verified advertisement, of this node's own DID or of another.
abbrev pub heard : Bool → Actor → NodeAdvertiseMessage → Bytes → ℤ → Actor
heard true a m bytes now = a
heard false a m bytes now = record a {
  peers = (upsert_at a.peers m now).0;
  latest_advertises = remembered (is_bootstrap a.role) m bytes a.latest_advertises;
}

abbrev pub take_advertise : Actor → Bytes → ℤ → Result NodeAdvertiseMessage Rejected → Actor
take_advertise a bytes now (err reason) = a
take_advertise a bytes now (ok m) = heard (list_eq m.did a.did) a m bytes now

abbrev pub take_bid : Actor → Result MissionBidMessage Rejected → Actor
take_bid a (err reason) = a
take_bid a (ok bid) = record a { bids = (deliver a.bids bid).0 }

abbrev pub pass_offer : Result MissionOfferMessage Rejected → List Effect
pass_offer (err reason) = []
pass_offer (ok offer) = sends_offer offer ∷ []

abbrev pub pass_assign : Result MissionAssignMessage Rejected → List Effect
pass_assign (err reason) = []
pass_assign (ok assign) = sends_assign assign ∷ []

-- the branch that a topic takes
pub data Branch : Type 0 where
  advertises : Branch
  bids : Branch
  offers : Branch
  assigns : Branch
  no_branch : Branch

unfoldable pub branch_of : Text → Branch
branch_of topic =
    if list_eq topic topic_nodes_advertise
    then advertises
    else if list_eq topic topic_missions_bid
    then bids
    else if list_eq topic topic_missions_offer
    then offers
    else if list_eq topic topic_missions_assign
    then assigns
    else no_branch

module _ (c : Crypto) (codecs : Codecs) (now : ℤ) (a : Actor) (bytes : Bytes) where
  abbrev pub gossip_on : Branch → Actor × List Effect
  gossip_on advertises =
      (take_advertise a bytes now (verified_node_advertise c codecs.advertise bytes), [])
  gossip_on bids = (take_bid a (verified_mission_bid c codecs.bid bytes), [])
  gossip_on offers = (a, pass_offer (verified_mission_offer c codecs.offer bytes))
  gossip_on assigns = (a, pass_assign (verified_mission_assign c codecs.assign bytes))
  gossip_on no_branch = (a, [])

unfoldable pub handle_gossip : Crypto → Codecs → ℤ → Actor → Text → Bytes → Actor × List Effect
handle_gossip c codecs now a topic bytes = gossip_on c codecs now a bytes (branch_of topic)

abbrev pub unexpired : ℤ → Bytes × ℤ → Bool
unexpired now (bytes, expires) = ltb_ℤ now expires

abbrev pub replays : Dict Text (Bytes × ℤ) → List Effect
replays [] = []
replays ((did, (bytes, expires)) ∷ latest) = publishes topic_nodes_advertise bytes ∷ replays latest

unfoldable pub replay_advertises : ℤ → Actor → Actor × List Effect
replay_advertises now a =
    let latest = retain (unexpired now) a.latest_advertises in
    (record a { latest_advertises = latest }, replays latest)

-- ===== src/Node/Quiet.antt =====
-- The commands and events of the actor that touch no connection and answer no caller.
use galax_ia_sdk.Prelude.{
  ℕ, suc, ◌+◌, ◌≡◌, refl, Bool, true, false, List, [], ◌∷◌, ◌++◌, arith, if◌then◌else◌, ◌==◌, map,
}
use galax_ia_sdk.Prelude.Int.{ℤ}
use galax_ia_sdk.Prelude.Lex.{list_eq}
use galax_ia_sdk.Prelude.Result.{Result, ok, err}
use galax_ia_sdk.Prelude.Dict.{Dict}
use galax_ia_sdk.Text.{Text, Bytes}
use galax_ia_sdk.Protocol.{
  NodeAdvertiseMessage, MissionOfferMessage, MissionBidMessage, MissionAssignMessage,
}
use galax_ia_sdk.Limits.{PeerId}
use galax_ia_sdk.Signing.{Crypto}
use galax_ia_sdk.Wire.{
  Rejected, verified_node_advertise, verified_mission_bid, verified_mission_offer,
  verified_mission_assign,
}
use galax_ia_sdk.Node.{Multiaddr}
use galax_ia_sdk.Node.State.{
  OpenConnection, Actor, Effect, publishes, answers, reports, puts_record, adds_address,
  peer_connected, sends_offer, sends_assign,
}
use galax_ia_sdk.Node.Gossip.{
  Codecs, handle_gossip, replay_advertises, replays, take_advertise, take_bid, pass_offer,
  pass_assign, heard, Branch, advertises, bids, offers, assigns, no_branch, branch_of, gossip_on,
}

-- how often a caller is answered
unfoldable pub answered : ℕ → List Effect → ℕ
answered k [] = 0
answered k (answers reply result ∷ es) =
    let more = answered k es in if reply == k then suc more else more
answered k (publishes topic bytes ∷ es) = answered k es
answered k (reports reply status ∷ es) = answered k es
answered k (puts_record key value ∷ es) = answered k es
answered k (adds_address peer addr ∷ es) = answered k es
answered k (peer_connected ∷ es) = answered k es
answered k (sends_offer m ∷ es) = answered k es
answered k (sends_assign m ∷ es) = answered k es

pub answered-append :
    (k : ℕ) (es fs : List Effect) → answered k (es ++ fs) ≡ answered k es + answered k fs
unfolding answered
answered-append k [] fs = omega arith
answered-append k (answers reply result ∷ es) fs = ground (arith, answered-append k es fs)
answered-append k (publishes topic bytes ∷ es) fs = answered-append k es fs
answered-append k (reports reply status ∷ es) fs = answered-append k es fs
answered-append k (puts_record key value ∷ es) fs = answered-append k es fs
answered-append k (adds_address peer addr ∷ es) fs = answered-append k es fs
answered-append k (peer_connected ∷ es) fs = answered-append k es fs
answered-append k (sends_offer m ∷ es) fs = answered-append k es fs
answered-append k (sends_assign m ∷ es) fs = answered-append k es fs

-- The connections, the connected peers and the pending dials.
abbrev pub Frame : Type 0
Frame = Dict ℕ OpenConnection × List PeerId × Dict ℕ ℕ

abbrev pub frame_of : Actor → Frame
frame_of a = (a.connections, a.connected, a.pending_dials)

pub record Quiet (a : Actor) (r : Actor × List Effect) : Type 0 where
  pub frame : frame_of r.0 ≡ frame_of a
  pub silent : (k : ℕ) → answered k r.1 ≡ 0

pub if-Quiet :
    (a : Actor) (b : Bool) (x y : Actor × List Effect)
    → Quiet a x
    → Quiet a y
    → Quiet a (if b then x else y)
if-Quiet a true x y p q = p
if-Quiet a false x y p q = q

-- a change of the other fields, with no effect
pub still : (a a' : Actor) → frame_of a' ≡ frame_of a → Quiet a (a', [])
unfolding answered
still a a' e = record { frame = e; silent = λ k. refl }

heard-frame :
    (a : Actor) (m : NodeAdvertiseMessage) (bytes : Bytes) (now : ℤ) (own : Bool)
    → frame_of (heard own a m bytes now) ≡ frame_of a
heard-frame a m bytes now true = refl
heard-frame a m bytes now false = refl

take_advertise-frame :
    (a : Actor) (bytes : Bytes) (now : ℤ) (r : Result NodeAdvertiseMessage Rejected)
    → frame_of (take_advertise a bytes now r) ≡ frame_of a
take_advertise-frame a bytes now (err reason) = refl
take_advertise-frame a bytes now (ok m) = heard-frame a m bytes now (list_eq m.did a.did)

take_bid-frame :
    (a : Actor) (r : Result MissionBidMessage Rejected) → frame_of (take_bid a r) ≡ frame_of a
take_bid-frame a (err reason) = refl
take_bid-frame a (ok bid) = refl

pass_offer-Quiet : (a : Actor) (r : Result MissionOfferMessage Rejected) → Quiet a (a, pass_offer r)
unfolding answered
pass_offer-Quiet a (err reason) = record { frame = refl; silent = λ k. refl }
pass_offer-Quiet a (ok offer) = record { frame = refl; silent = λ k. refl }

pass_assign-Quiet :
    (a : Actor) (r : Result MissionAssignMessage Rejected) → Quiet a (a, pass_assign r)
unfolding answered
pass_assign-Quiet a (err reason) = record { frame = refl; silent = λ k. refl }
pass_assign-Quiet a (ok assign) = record { frame = refl; silent = λ k. refl }

gossip_on-Quiet :
    (c : Crypto) (codecs : Codecs) (now : ℤ) (a : Actor) (bytes : Bytes) (b : Branch)
    → Quiet a (gossip_on c codecs now a bytes b)
gossip_on-Quiet c codecs now a bytes advertises =
    still a (take_advertise a bytes now (verified_node_advertise c codecs.advertise bytes))
      (take_advertise-frame a bytes now (verified_node_advertise c codecs.advertise bytes))
gossip_on-Quiet c codecs now a bytes bids =
    still a (take_bid a (verified_mission_bid c codecs.bid bytes))
      (take_bid-frame a (verified_mission_bid c codecs.bid bytes))
gossip_on-Quiet c codecs now a bytes offers =
    pass_offer-Quiet a (verified_mission_offer c codecs.offer bytes)
gossip_on-Quiet c codecs now a bytes assigns =
    pass_assign-Quiet a (verified_mission_assign c codecs.assign bytes)
gossip_on-Quiet c codecs now a bytes no_branch = still a a refl

pub handle_gossip-Quiet :
    (c : Crypto) (codecs : Codecs) (now : ℤ) (a : Actor) (topic : Text) (bytes : Bytes)
    → Quiet a (handle_gossip c codecs now a topic bytes)
unfolding handle_gossip
handle_gossip-Quiet c codecs now a topic bytes =
    gossip_on-Quiet c codecs now a bytes (branch_of topic)

replays-silent : (k : ℕ) (latest : Dict Text (Bytes × ℤ)) → answered k (replays latest) ≡ 0
unfolding answered
replays-silent k [] = refl
replays-silent k ((did, (bytes, expires)) ∷ latest) = replays-silent k latest

pub replay_advertises-Quiet : (now : ℤ) (a : Actor) → Quiet a (replay_advertises now a)
unfolding replay_advertises
replay_advertises-Quiet now a = record { frame = refl; silent = λ k. replays-silent k _ }

pub addresses-silent :
    (k : ℕ) (peer : PeerId) (addrs : List Multiaddr)
    → answered k (map (adds_address peer) addrs) ≡ 0
unfolding answered
addresses-silent k peer [] = refl
addresses-silent k peer (addr ∷ addrs) = addresses-silent k peer addrs

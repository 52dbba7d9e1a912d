-- ===== src/Tests/Node.antt =====
-- rust/fhs/src/p2p/node.rs on concrete inputs.
use galax_ia_sdk.Prelude.{
  ℕ, Bool, Option, ◌≡◌, ◌↔◌, ◌<◌, ◌+◌, refl, All, any, not, true, false, none, some, List, [], ◌∷◌,
  ◌++◌,
}
use galax_ia_sdk.Prelude.Int.{pos, ◌-ℤ◌, checked_i64, ◌*ℤ◌, ◌+ℤ◌}
use galax_ia_sdk.Prelude.Dict.{get, has_key, nat_key, list_key}
use galax_ia_sdk.Prelude.Lex.{list_eq}
use galax_ia_sdk.Text.{Text, Bytes, codes}
use galax_ia_sdk.Protocol.{NodeAdvertiseMessage, MissionBidMessage, DhtBeaconRecord}
use galax_ia_sdk.PeerCache.{upsert_at, fresh, advert_expiry, is_replay}
use galax_ia_sdk.Prelude.Sort.{sort_on}
use galax_ia_sdk.Text.Decimal.{print_ℤ}
use galax_ia_sdk.Text.Utf8.{as_bytes}
use galax_ia_sdk.Signing.{
  verify_mission_bid, verify, did_public_key, strip_prefix, mission_bid_payload, colons,
  verify_node_advertise, node_advertise_payload, beacon_sha256, join_commas,
}
use galax_ia_sdk.Wire.{verified_mission_bid, verified_node_advertise}
use galax_ia_sdk.Node.Collector.{deliver}
use galax_ia_sdk.Node.Gossip.{handle_gossip, branch_of}
use galax_ia_sdk.Node.Events.{established}
use galax_ia_sdk.Prelude.Dict.{insert, remove, get}
use galax_ia_sdk.Node.Connections.{tally}
use galax_ia_sdk.Wire.{
  own_advertise, own_bid, navigator_beacon, topic_nodes_advertise, topic_missions_bid,
}
use galax_ia_sdk.Mission.{select_winning_bid, covers, allow, filter_allowed}
use galax_ia_sdk.Mission.Choice.{Among, here}
use galax_ia_sdk.Node.{bootstrap, Multiaddr}
use galax_ia_sdk.Node.Collector.{OpenBidWindow, open_window, preferred_arrived}
use galax_ia_sdk.Node.Collector.Replay.{
  Call, opens, delivers, closes, run, spec_run, Holds, Windows, run-Holds, bids_for,
}
use galax_ia_sdk.Node.Collector.Early.{early_close}
use galax_ia_sdk.Node.State.{message, connection_established, dial, dialer, member}
use galax_ia_sdk.Node.Gossip.{Codecs}
use galax_ia_sdk.Node.Events.{Swarm, handle_command, handle_event}
use galax_ia_sdk.Node.Reach.{World, start, advanced, Reach, begin, next, command, event, times}
use galax_ia_sdk.Node.Reach
use galax_ia_sdk.Node.Loops.{
  Beacons, Event, advertises, puts, Carries, run_loops, set_advertise_beacon, is_publish,
  is_advertise, unseen_of, set_advertise_beacon-Follows,
}
use galax_ia_sdk.Node.Quiet.{answered}
use galax_ia_sdk.Node.World.{connections_with, waiting}
use galax_ia_sdk.Node.Answers.{Reach-connected, Reach-answered}
use galax_ia_sdk.Node.Heard.{Trusted}
use galax_ia_sdk.Node.Trust.{Reach-Trusted}
use galax_ia_sdk.Tests.Signing.{crypto, bid, node}

-- calls for two missions, of which one gets a bid and is closed
abbrev calls : List Call
calls = opens (codes "x") none ∷ delivers bid ∷ closes (codes "x") ∷ []

abbrev nothing_open : Windows
nothing_open k = none

nothing-Holds : Holds [] nothing_open
unfolding get
nothing-Holds k = refl

run-Holds_example :
    ((run [] calls).1 ≡ (spec_run nothing_open calls).1)
    × Holds (run [] calls).0 (spec_run nothing_open calls).0
run-Holds_example = run-Holds calls [] nothing_open nothing-Holds

collected_run : bids_for (codes "m") calls ≡ bid ∷ []
unfolding bids_for list_eq
collected_run = refl

-- Another mission is opened and closed while the window of the bid stands open.
abbrev meanwhile : List Call
meanwhile = opens (codes "x") none ∷ delivers bid ∷ closes (codes "x") ∷ []

abbrev window : OpenBidWindow
window = record { bids = bid ∷ []; preferred_provider = some (codes "did:key:zP") }

covers_run : covers (codes "ocr" ∷ []) bid.offered_capabilities ≡ true
unfolding covers list_eq
covers_run = refl

abbrev allowed_dids : Option (List Text)
allowed_dids = some (codes "did:key:zP" ∷ [])

abbrev is_connected : Text → Bool
is_connected did = list_eq did (codes "did:key:zP")

bid-Among : Among bid (allow allowed_dids is_connected window.bids)
unfolding filter_allowed list_eq
bid-Among = here []

early_close_example :
    (preferred_arrived window ≡ true)
    × (select_winning_bid
          (allow allowed_dids is_connected (window.bids ++ bid ∷ []))
          (codes "ocr" ∷ [])
          (some (codes "did:key:zP"))
        ≡ select_winning_bid
            (allow allowed_dids is_connected window.bids)
            (codes "ocr" ∷ [])
            (some (codes "did:key:zP")))
early_close_example =
    early_close window (codes "did:key:zP") (codes "ocr" ∷ []) (bid ∷ []) allowed_dids is_connected
      bid refl bid-Among refl covers_run

abbrev advertised : NodeAdvertiseMessage
advertised =
    own_advertise crypto node (pos 1790000000000) (navigator_beacon (codes "n")) [] (pos 60)

abbrev signed_bid : MissionBidMessage
signed_bid = own_bid node (pos 1790000000500) bid

abbrev codecs : Codecs
codecs = record {
  advertise = record { decode = λ b. some advertised; encode = λ m. [] };
  offer = record { decode = λ b. none; encode = λ m. [] };
  bid = record { decode = λ b. some signed_bid; encode = λ m. [] };
  assign = record { decode = λ b. none; encode = λ m. [] };
}

-- a bootstrap that a peer connects to
abbrev idle : World
idle = start (codes "did:key:zB") 1 bootstrap

abbrev joined : World
joined =
    advanced idle
      (handle_event crypto codecs (pos 0) idle.actor (connection_established 5 0 (dialer []))) []

fresh_lem : has_key 0 idle.actor.connections ≡ false
unfolding has_key
fresh_lem = refl

joined-Reach : Reach crypto codecs joined
joined-Reach =
    next (begin (codes "did:key:zB") 1 bootstrap)
      (event idle (connection_established 5 0 (dialer [])) (pos 0) fresh_lem)

Reach-connected_example :
    (member 5 joined.actor.connected ≡ true) ↔ (0 < connections_with 5 joined.actor.connections)
Reach-connected_example = Reach-connected crypto codecs joined 5 joined-Reach

-- Caller 3 asks for two dials, with the ids 0 and 1; the first is established.
abbrev swarm : Swarm
swarm = record {
  listeners = [];
  external_addresses = [];
  topics = [];
  all_peers = [];
  mesh_peers = λ topic. [];
}

abbrev somewhere : Multiaddr
somewhere = []

abbrev swarm_dial : ℕ → Multiaddr → ℕ × Option Text
swarm_dial id addr = (id, none)

abbrev dialled : World
dialled = advanced idle (handle_command swarm (swarm_dial 0) idle.actor (dial somewhere 3)) (3 ∷ [])

abbrev dialled_twice : World
dialled_twice =
    advanced dialled (handle_command swarm (swarm_dial 1) dialled.actor (dial somewhere 3)) (3 ∷ [])

abbrev reached : World
reached =
    advanced dialled_twice
      (handle_event crypto codecs (pos 0) dialled_twice.actor
        (connection_established 5 0 (dialer [])))
      []

no_dial_lem : has_key 0 idle.actor.pending_dials ≡ false
unfolding has_key
no_dial_lem = refl

one_dial_lem : has_key 1 dialled.actor.pending_dials ≡ false
unfolding has_key handle_command insert
one_dial_lem = refl

new_connection_lem : has_key 0 dialled_twice.actor.connections ≡ false
unfolding has_key handle_command
new_connection_lem = refl

reached-Reach : Reach crypto codecs reached
reached-Reach =
    next
      (next
        (next (begin (codes "did:key:zB") 1 bootstrap)
          (command idle (dial somewhere 3) swarm (swarm_dial 0) no_dial_lem))
        (command dialled (dial somewhere 3) swarm (swarm_dial 1) one_dial_lem))
      (event dialled_twice (connection_established 5 0 (dialer [])) (pos 0) new_connection_lem)

Reach-answered_example :
    times 3 reached.asked ≡ answered 3 reached.log + waiting 3 reached.actor.pending_dials
Reach-answered_example = Reach-answered crypto codecs reached 3 reached-Reach

-- Of its two dials one is answered and one is waiting.
asked_run :
    (times 3 reached.asked ≡ 2)
    × (answered 3 reached.log ≡ 1)
    × (waiting 3 reached.actor.pending_dials ≡ 1)
unfolding times answered handle_command handle_event established has_key insert remove get tally
asked_run = (refl, refl, refl)

-- it hears the advertisement of another node and, with a window open, a bid
abbrev heard : World
heard =
    advanced joined
      (handle_event crypto codecs (pos 1790000000000) joined.actor
        (message topic_nodes_advertise (1 ∷ [])))
      []

abbrev asking : World
asking =
    advanced heard (record heard.actor { bids = open_window heard.actor.bids (codes "m") none }, [])
      []

abbrev offered : World
offered =
    advanced asking
      (handle_event crypto codecs (pos 1790000001000) asking.actor
        (message topic_missions_bid (2 ∷ [])))
      []

offered-Reach : Reach crypto codecs offered
offered-Reach =
    next
      (next
        (next joined-Reach
          (event joined (message topic_nodes_advertise (1 ∷ [])) (pos 1790000000000) tt))
        (galax_ia_sdk.Node.Reach.opens heard (codes "m") none))
      (event asking (message topic_missions_bid (2 ∷ [])) (pos 1790000001000) tt)

Reach-Trusted_example : Trusted crypto codecs offered.actor
Reach-Trusted_example = Reach-Trusted crypto codecs offered-Reach

offered_run :
    (has_key (codes "did:key:zK") offered.actor.peers ≡ true)
    × (has_key (codes "did:key:zK") offered.actor.latest_advertises ≡ true)
    × (get (codes "m") offered.actor.bids
        ≡ some (record { bids = signed_bid ∷ []; preferred_provider = none }))
unfolding has_key get insert remove handle_event handle_gossip branch_of list_eq
    verified_mission_bid verify_mission_bid verify did_public_key strip_prefix as_bytes
    mission_bid_payload colons verified_node_advertise verify_node_advertise node_advertise_payload
    own_advertise own_bid navigator_beacon upsert_at open_window deliver established beacon_sha256
    join_commas sort_on print_ℤ fresh ◌-ℤ◌ advert_expiry checked_i64 ◌*ℤ◌ ◌+ℤ◌ is_replay
offered_run = (refl, refl, refl)

-- a loop that has seen its beacon, a new beacon, and a turn of each loop
abbrev calm : Beacons
calm = record {
  advertise = some (record { beacon = navigator_beacon (codes "n"); unseen = false });
  dht = none;
}

abbrev turns : List Event
turns = puts (pos 4) [] ∷ advertises (pos 5) [] ∷ []

abbrev print_address : Multiaddr → Text
print_address a = codes "/"

abbrev encode_advertise : NodeAdvertiseMessage → Bytes
encode_advertise m = m.signature

abbrev encode_record : DhtBeaconRecord → Bytes
encode_record m = m.signature

set_advertise_beacon-Follows_example :
    All
      (Carries crypto node 1 [] print_address encode_advertise encode_record
        (navigator_beacon (codes "m")))
      (run_loops crypto node 1 [] print_address encode_advertise encode_record turns
        (set_advertise_beacon (navigator_beacon (codes "m")) calm)).1
    × (any is_publish
          (run_loops crypto node 1 [] print_address encode_advertise encode_record turns
            (set_advertise_beacon (navigator_beacon (codes "m")) calm)).1
        ≡ any is_advertise turns)
    × (unseen_of
          (run_loops crypto node 1 [] print_address encode_advertise encode_record turns
            (set_advertise_beacon (navigator_beacon (codes "m")) calm)).0.advertise
        ≡ not (any is_advertise turns))
set_advertise_beacon-Follows_example =
    set_advertise_beacon-Follows crypto node 1 [] print_address encode_advertise encode_record
      (navigator_beacon (codes "m")) calm
      (record { beacon = navigator_beacon (codes "n"); unseen = false }) turns refl tt

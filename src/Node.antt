-- ===== src/Node.antt =====
-- rust/fhs/src/p2p/node.rs: the node. An actor owns the network swarm and handles one command or one
-- event at a time; what it sends out is a list of effects. A multiaddress is the list of its
-- protocols, of which the code looks at `/p2p/<id>` only.
pub mod Collector
pub mod State
pub mod Gossip
pub mod Events
pub mod Connections
pub mod Quiet
pub mod World
pub mod Reach
pub mod Answers
pub mod Heard
pub mod Trust
pub mod Bootstrap
pub mod Loops
pub mod Handle
use galax_ia_sdk.Prelude.{
  ℕ, Bool, true, false, Option, none, some, List, [], ◌∷◌, ◌++◌, map, any, if◌then◌else◌,
}
use galax_ia_sdk.Text.{Text}
use galax_ia_sdk.Limits.{PeerId}
use galax_ia_sdk.Wire.{
  topic_nodes_advertise, topic_missions_offer, topic_missions_bid, topic_missions_assign,
  topic_reputation_update,
}

pub data Role : Type 0 where
  navigator : Role
  provider : Role
  bootstrap : Role

abbrev pub topics : Role → List Text
topics navigator = topic_nodes_advertise ∷ topic_missions_bid ∷ []
topics provider = topic_missions_offer ∷ topic_missions_assign ∷ []
topics bootstrap =
    topic_nodes_advertise ∷ topic_missions_offer ∷ topic_missions_bid ∷ topic_missions_assign
    ∷ topic_reputation_update ∷ []

pub data KadMode : Type 0 where
  server : KadMode
  client : KadMode

abbrev pub kad_mode : Role → KadMode
kad_mode bootstrap = server
kad_mode navigator = client
kad_mode provider = client

abbrev pub is_bootstrap : Role → Bool
is_bootstrap bootstrap = true
is_bootstrap navigator = false
is_bootstrap provider = false

pub data Protocol : Type 0 where
  p2p : PeerId → Protocol
  other : Text → Protocol

abbrev pub Multiaddr : Type 0
Multiaddr = List Protocol

-- the first `/p2p/<id>` of an address
unfoldable pub peer_id_of : Multiaddr → Option PeerId
peer_id_of [] = none
peer_id_of (p2p peer ∷ addr) = some peer
peer_id_of (other t ∷ addr) = peer_id_of addr

abbrev pub is_p2p : Protocol → Bool
is_p2p (p2p peer) = true
is_p2p (other t) = false

unfoldable pub with_peer_id : Multiaddr → PeerId → Multiaddr
with_peer_id addr peer = if any is_p2p addr then addr else addr ++ p2p peer ∷ []

-- the addresses to announce: those given, or those that the node listens on
abbrev pub announced : List Multiaddr → List Multiaddr → List Multiaddr
announced [] listen = listen
announced (a ∷ announce) listen = a ∷ announce

unfoldable pub own_addrs : List Multiaddr → List Multiaddr → PeerId → List Multiaddr
own_addrs announce listen peer = map (λ a. with_peer_id a peer) (announced announce listen)

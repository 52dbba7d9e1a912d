-- ===== src/Node/State.antt =====
-- The state of the actor of rust/fhs/src/p2p/node.rs, what it is told and what it sends out.
use galax_ia_sdk.Prelude.{ℕ, Bool, true, false, List, [], ◌∷◌, ◌==◌, ◌&&◌, if◌then◌else◌, any}
use galax_ia_sdk.Prelude.Int.{ℤ}
use galax_ia_sdk.Prelude.Lex.{list_eq}
use galax_ia_sdk.Prelude.Result.{Result}
use galax_ia_sdk.Prelude.Dict.{Dict}
use galax_ia_sdk.Text.{Text, Bytes}
use galax_ia_sdk.Protocol.{MissionOfferMessage, MissionAssignMessage}
use galax_ia_sdk.Limits.{PeerId}
use galax_ia_sdk.PeerCache.{Cache}
use galax_ia_sdk.Node.{Role, Protocol, p2p, other, Multiaddr}
use galax_ia_sdk.Node.Collector.{BidCollector}

pub data Direction : Type 0 where
  outbound : Direction
  inbound : Direction

pub record OpenConnection : Type 0 where
  pub peer : PeerId
  pub remote_addr : Text
  pub direction : Direction
  pub opened_at_ms : ℤ

-- Connections have numbers as their ids; a pending dial names the caller that waits for it.
-- `connected` is a set: a peer stands in it once.
pub record Actor : Type 0 where
  pub did : Text
  pub peer_id : PeerId
  pub role : Role
  pub peers : Cache
  pub bids : BidCollector
  pub pending_dials : Dict ℕ ℕ
  pub connections : Dict ℕ OpenConnection
  pub connected : List PeerId
  pub listen_addrs : List Multiaddr
  pub latest_advertises : Dict Text (Bytes × ℤ)

pub record ConnectionInfo : Type 0 where
  pub peer : PeerId
  pub remote_addr : Text
  pub direction : Direction
  pub opened_at : Text

pub record TopicStatus : Type 0 where
  pub subscribers : ℕ
  pub mesh : ℕ

pub record NodeStatus : Type 0 where
  pub peer_id : PeerId
  pub multiaddrs : List Multiaddr
  pub peer_count : ℕ
  pub connections : List ConnectionInfo
  pub pubsub : List (Text × TopicStatus)

pub data Command : Type 0 where
  publish : Text → Bytes → Command
  dial : Multiaddr → ℕ → Command
  status : ℕ → Command
  put_record : Bytes → Bytes → Command

-- the two ends of `ConnectedPoint`, with the address that is logged
pub data ConnectedPoint : Type 0 where
  dialer : Text → ConnectedPoint
  listener : Text → ConnectedPoint

pub data SwarmEvent : Type 0 where
  new_listen_addr : Multiaddr → SwarmEvent
  expired_listen_addr : Multiaddr → SwarmEvent
  connection_established : PeerId → ℕ → ConnectedPoint → SwarmEvent
  connection_closed : PeerId → ℕ → ℕ → SwarmEvent
  outgoing_connection_error : ℕ → Text → SwarmEvent
  message : Text → Bytes → SwarmEvent
  subscribed : PeerId → Text → SwarmEvent
  identify_received : PeerId → List Text → List Multiaddr → SwarmEvent
  ignored : SwarmEvent

pub data Effect : Type 0 where
  publishes : Text → Bytes → Effect
  answers : ℕ → Result PeerId Text → Effect
  reports : ℕ → NodeStatus → Effect
  puts_record : Bytes → Bytes → Effect
  adds_address : PeerId → Multiaddr → Effect
  peer_connected : Effect
  sends_offer : MissionOfferMessage → Effect
  sends_assign : MissionAssignMessage → Effect

abbrev pub protocol_eq : Protocol → Protocol → Bool
protocol_eq (p2p a) (p2p b) = a == b
protocol_eq (other s) (other t) = list_eq s t
protocol_eq (p2p a) (other t) = false
protocol_eq (other s) (p2p b) = false

abbrev pub addr_eq : Multiaddr → Multiaddr → Bool
addr_eq [] [] = true
addr_eq [] (q ∷ b) = false
addr_eq (p ∷ a) [] = false
addr_eq (p ∷ a) (q ∷ b) = protocol_eq p q && addr_eq a b

abbrev pub without_addr : Multiaddr → List Multiaddr → List Multiaddr
without_addr addr [] = []
without_addr addr (a ∷ addrs) =
    if addr_eq a addr then without_addr addr addrs else a ∷ without_addr addr addrs

-- the set of the connected peers
unfoldable pub member : PeerId → List PeerId → Bool
member peer set = any (λ p. p == peer) set

unfoldable pub add_peer : PeerId → List PeerId → List PeerId
add_peer peer set = if member peer set then set else peer ∷ set

unfoldable pub drop_peer : PeerId → List PeerId → List PeerId
drop_peer peer [] = []
drop_peer peer (p ∷ set) = if p == peer then drop_peer peer set else p ∷ drop_peer peer set

-- ===== src/Node/Events.antt =====
-- `handle_command`, `handle_event` and `status` of rust/fhs/src/p2p/node.rs. What the swarm knows or
-- answers is an argument.
use galax_ia_sdk.Prelude.{
  ℕ, Option, none, some, List, [], ◌∷◌, ◌++◌, map, length, any, ◌==◌, ◌&&◌, if◌then◌else◌,
}
use galax_ia_sdk.Prelude.Int.{ℤ}
use galax_ia_sdk.Prelude.Lex.{list_eq}
use galax_ia_sdk.Prelude.Result.{Result, ok, err}
use galax_ia_sdk.Prelude.Dict.{get, insert, remove, nat_key}
use galax_ia_sdk.Text.{Text, codes}
use galax_ia_sdk.Limits.{PeerId}
use galax_ia_sdk.PeerCache.Civil.{iso8601}
use galax_ia_sdk.Signing.{Crypto}
use galax_ia_sdk.Wire.{topic_nodes_advertise}
use galax_ia_sdk.Node.{Multiaddr, with_peer_id, is_bootstrap}
use galax_ia_sdk.Node.State.{
  Direction, outbound, inbound, OpenConnection, Actor, ConnectionInfo, NodeStatus, Command, publish,
  dial, status, put_record, ConnectedPoint, dialer, listener, SwarmEvent, new_listen_addr,
  expired_listen_addr, connection_established, connection_closed, outgoing_connection_error,
  message, subscribed, identify_received, ignored, Effect, publishes, answers, reports, puts_record,
  adds_address, peer_connected, without_addr, add_peer, drop_peer,
}
use galax_ia_sdk.Node.Gossip.{Codecs, handle_gossip, replay_advertises}

-- What the swarm tells of itself: its addresses, the topics it takes part in, the topics of its
-- peers, and the mesh of each topic.
pub record Swarm : Type 0 where
  pub listeners : List Multiaddr
  pub external_addresses : List Multiaddr
  pub topics : List Text
  pub all_peers : List (PeerId × List Text)
  pub mesh_peers : Text → List PeerId

abbrev pub count_subscribed : Text → List (PeerId × List Text) → ℕ
count_subscribed topic [] = 0
count_subscribed topic ((peer, topics) ∷ peers) =
    let more = count_subscribed topic peers in
    if any (λ t. list_eq t topic) topics then ℕ.suc more else more

abbrev pub info_of : ℕ × OpenConnection → ConnectionInfo
info_of (id, c) = record {
  peer = c.peer;
  remote_addr = c.remote_addr;
  direction = c.direction;
  opened_at = iso8601 c.opened_at_ms;
}

unfoldable pub status_of : Swarm → Actor → NodeStatus
status_of swarm a = record {
  peer_id = a.peer_id;
  multiaddrs = map (λ x. with_peer_id x a.peer_id) (swarm.listeners ++ swarm.external_addresses);
  peer_count = length a.connected;
  connections = map info_of a.connections;
  pubsub =
      map
        (λ topic. (
          topic,
          record {
            subscribers = count_subscribed topic swarm.all_peers;
            mesh = length (swarm.mesh_peers topic);
          },
        ))
        swarm.topics;
}

-- the answer of `swarm.dial`: the id of the connection, and an error if it failed at once
abbrev pub dialled : Actor → ℕ → ℕ × Option Text → Actor × List Effect
dialled a reply (id, none) = (record a { pending_dials = insert id reply a.pending_dials }, [])
dialled a reply (id, some error) = (a, answers reply (err error) ∷ [])

unfoldable pub handle_command :
    Swarm → (Multiaddr → ℕ × Option Text) → Actor → Command → Actor × List Effect
handle_command swarm swarm_dial a (publish topic bytes) = (a, publishes topic bytes ∷ [])
handle_command swarm swarm_dial a (dial addr reply) = dialled a reply (swarm_dial addr)
handle_command swarm swarm_dial a (status reply) = (a, reports reply (status_of swarm a) ∷ [])
handle_command swarm swarm_dial a (put_record key value) = (a, puts_record key value ∷ [])

abbrev pub remote_of : ConnectedPoint → Text
remote_of (dialer address) = address
remote_of (listener send_back_addr) = send_back_addr

abbrev pub direction_of : ConnectedPoint → Direction
direction_of (dialer address) = outbound
direction_of (listener send_back_addr) = inbound

-- the reply that waits for a connection, if one does
abbrev pub answer : Option ℕ → Result PeerId Text → List Effect
answer none result = []
answer (some reply) result = answers reply result ∷ []

abbrev pub kad_protocol : Text
kad_protocol = codes "/ipfs/kad/1.0.0"

unfoldable pub established : ℤ → Actor → PeerId → ℕ → ConnectedPoint → Actor × List Effect
established now a peer_id connection_id endpoint = (
  record a {
    connections =
        insert connection_id
          (record {
            peer = peer_id;
            remote_addr = remote_of endpoint;
            direction = direction_of endpoint;
            opened_at_ms = now;
          })
          a.connections;
    connected = add_peer peer_id a.connected;
    pending_dials = remove connection_id a.pending_dials;
  },
  answer (get connection_id a.pending_dials) (ok peer_id) ++ peer_connected ∷ [],
)

unfoldable pub connection_lost : Actor → PeerId → ℕ → ℕ → Actor
connection_lost a peer_id connection_id num_established = record a {
  connections = remove connection_id a.connections;
  connected = if num_established == 0 then drop_peer peer_id a.connected else a.connected;
}

module _ (c : Crypto) (codecs : Codecs) (now : ℤ) where
  unfoldable pub handle_event : Actor → SwarmEvent → Actor × List Effect
  handle_event a (new_listen_addr address) =
      (record a { listen_addrs = a.listen_addrs ++ address ∷ [] }, [])
  handle_event a (expired_listen_addr address) =
      (record a { listen_addrs = without_addr address a.listen_addrs }, [])
  handle_event a (connection_established peer_id connection_id endpoint) =
      established now a peer_id connection_id endpoint
  handle_event a (connection_closed peer_id connection_id num_established) =
      (connection_lost a peer_id connection_id num_established, [])
  handle_event a (outgoing_connection_error connection_id error) = (
    record a { pending_dials = remove connection_id a.pending_dials },
    answer (get connection_id a.pending_dials) (err error),
  )
  handle_event a (message topic bytes) = handle_gossip c codecs now a topic bytes
  handle_event a (subscribed peer_id topic) =
      if is_bootstrap a.role && list_eq topic topic_nodes_advertise
      then replay_advertises now a
      else (a, [])
  handle_event a (identify_received peer_id protocols listen_addrs) = (
    a,
    if any (λ p. list_eq p kad_protocol) protocols
        then map (adds_address peer_id) listen_addrs
        else [],
  )
  handle_event a ignored = (a, [])

-- ===== src/Node/Trust.antt =====
-- What the actor keeps, after any commands, events and calls of the other tasks.
use galax_ia_sdk.Prelude.{ℕ, refl, Bool, true, false, Option, none, some, [], if◌then◌else◌, ◌&&◌}
use galax_ia_sdk.Prelude.Int.{ℤ}
use galax_ia_sdk.Prelude.Lex.{list_eq}
use galax_ia_sdk.Prelude.Dict.{list_key, All-insert, All-retain, All-remove}
use galax_ia_sdk.Text.{Text, Bytes}
use galax_ia_sdk.PeerCache.{live, alive}
use galax_ia_sdk.Signing.{Crypto}
use galax_ia_sdk.Wire.{topic_nodes_advertise, verified_node_advertise, verified_mission_bid}
use galax_ia_sdk.Node.{Multiaddr, is_bootstrap}
use galax_ia_sdk.Node.Collector.{open_window, close_window}
use galax_ia_sdk.Node.State.{
  Actor, Command, publish, dial, status, put_record, SwarmEvent, new_listen_addr,
  expired_listen_addr, connection_established, connection_closed, outgoing_connection_error,
  message, subscribed, identify_received, ignored,
}
use galax_ia_sdk.Node.Gossip.{
  Codecs, Branch, advertises, bids, offers, assigns, no_branch, branch_of, gossip_on, handle_gossip,
  replay_advertises, unexpired,
}
use galax_ia_sdk.Node.Events.{
  Swarm, handle_command, handle_event, dialled, established, connection_lost,
}
use galax_ia_sdk.Node.Reach.{World, Step, command, event, opens, closes, sweeps, Reach, begin, next}
use galax_ia_sdk.Node.Heard.{
  Vouched, Relayed, Offered, Trusted, take_advertise-Trusted, take_bid-Trusted,
}

module _ (c : Crypto) (codecs : Codecs) where
  gossip_on-Trusted :
      (now : ℤ) (a : Actor) (bytes : Bytes) (b : Branch)
      → Trusted c codecs a
      → Trusted c codecs (gossip_on c codecs now a bytes b).0
  gossip_on-Trusted now a bytes advertises t =
      take_advertise-Trusted c codecs a bytes now (verified_node_advertise c codecs.advertise bytes)
        refl t
  gossip_on-Trusted now a bytes bids t =
      take_bid-Trusted c codecs a bytes (verified_mission_bid c codecs.bid bytes) refl t
  gossip_on-Trusted now a bytes offers t = t
  gossip_on-Trusted now a bytes assigns t = t
  gossip_on-Trusted now a bytes no_branch t = t

  replayed-Trusted :
      (now : ℤ) (a : Actor) (b : Bool)
      → Trusted c codecs a
      → Trusted c codecs (if b then replay_advertises now a else (a, [])).0
  unfolding replay_advertises
  replayed-Trusted now a false t = t
  replayed-Trusted now a true t = record {
    peers = t.peers;
    latest = All-retain (Relayed c codecs a.did) (unexpired now) a.latest_advertises t.latest;
    bids = t.bids;
  }

  event-Trusted :
      (now : ℤ) (a : Actor) (e : SwarmEvent)
      → Trusted c codecs a
      → Trusted c codecs (handle_event c codecs now a e).0
  unfolding handle_event handle_gossip established connection_lost
  event-Trusted now a (message topic bytes) t = gossip_on-Trusted now a bytes (branch_of topic) t
  event-Trusted now a (subscribed peer topic) t =
      replayed-Trusted now a (is_bootstrap a.role && list_eq topic topic_nodes_advertise) t
  event-Trusted now a (new_listen_addr address) t = record {
    peers = t.peers;
    latest = t.latest;
    bids = t.bids;
  }
  event-Trusted now a (expired_listen_addr address) t = record {
    peers = t.peers;
    latest = t.latest;
    bids = t.bids;
  }
  event-Trusted now a (connection_established peer id endpoint) t = record {
    peers = t.peers;
    latest = t.latest;
    bids = t.bids;
  }
  event-Trusted now a (connection_closed peer id left) t = record {
    peers = t.peers;
    latest = t.latest;
    bids = t.bids;
  }
  event-Trusted now a (outgoing_connection_error id error) t = record {
    peers = t.peers;
    latest = t.latest;
    bids = t.bids;
  }
  event-Trusted now a (identify_received peer protocols addrs) t = t
  event-Trusted now a ignored t = t

  dialled-Trusted :
      (a : Actor) (reply : ℕ) (r : ℕ × Option Text)
      → Trusted c codecs a
      → Trusted c codecs (dialled a reply r).0
  dialled-Trusted a reply (id, none) t = record {
    peers = t.peers;
    latest = t.latest;
    bids = t.bids;
  }
  dialled-Trusted a reply (id, some error) t = t

  command-Trusted :
      (a : Actor) (k : Command) (swarm : Swarm) (swarm_dial : Multiaddr → ℕ × Option Text)
      → Trusted c codecs a
      → Trusted c codecs (handle_command swarm swarm_dial a k).0
  unfolding handle_command
  command-Trusted a (publish topic bytes) swarm swarm_dial t = t
  command-Trusted a (dial addr reply) swarm swarm_dial t =
      dialled-Trusted a reply (swarm_dial addr) t
  command-Trusted a (status reply) swarm swarm_dial t = t
  command-Trusted a (put_record key value) swarm swarm_dial t = t

  Step-Trusted :
      {w u : World} → Step c codecs w u → Trusted c codecs w.actor → Trusted c codecs u.actor
  unfolding open_window close_window live
  Step-Trusted (command w k swarm swarm_dial f) t = command-Trusted w.actor k swarm swarm_dial t
  Step-Trusted (event w e now p) t = event-Trusted now w.actor e t
  Step-Trusted (opens w mission preferred) t = record {
    peers = t.peers;
    latest = t.latest;
    bids =
        All-insert (Offered c codecs) mission (record { bids = []; preferred_provider = preferred })
          w.actor.bids tt t.bids;
  }
  Step-Trusted (closes w mission) t = record {
    peers = t.peers;
    latest = t.latest;
    bids = All-remove (Offered c codecs) mission w.actor.bids t.bids;
  }
  Step-Trusted (sweeps w now) t = record {
    peers = All-retain (Vouched c codecs w.actor.did) (alive now) w.actor.peers t.peers;
    latest = t.latest;
    bids = t.bids;
  }

  -- After any commands, events and calls of other tasks: each provider in the cache stands for
  -- an advertisement that its own DID signed, and is not the node itself; the advertisements
  -- that are kept to be sent on carry the signature of their DID; and each bid in an open window
  -- is for its mission and signed by its provider.
  pub Reach-Trusted : {w : World} → Reach c codecs w → Trusted c codecs w.actor
  Reach-Trusted (begin did peer_id role) = record { peers = tt; latest = tt; bids = tt }
  Reach-Trusted (next r s) = Step-Trusted s (Reach-Trusted r)

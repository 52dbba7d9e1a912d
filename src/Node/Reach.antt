-- ===== src/Node/Reach.antt =====
-- The actor of rust/fhs/src/p2p/node.rs under any order of commands and events.
use galax_ia_sdk.Prelude.{
  ℕ, suc, ◌+◌, ◌≡◌, ap, sym, subst, false, Option, List, [], ◌∷◌, ◌++◌, arith, if◌then◌else◌,
}
use galax_ia_sdk.Prelude.Int.{ℤ}
use galax_ia_sdk.Prelude.Dict.{◌==◌, has_key, nat_key}
use galax_ia_sdk.Text.{Text}
use galax_ia_sdk.Limits.{PeerId}
use galax_ia_sdk.Signing.{Crypto}
use galax_ia_sdk.Node.{Multiaddr, Role}
use galax_ia_sdk.Node.State.{Actor, Command, dial, SwarmEvent, Effect}
use galax_ia_sdk.PeerCache.{live}
use galax_ia_sdk.Node.Collector.{open_window, close_window}
use galax_ia_sdk.Node.Gossip.{Codecs}
use galax_ia_sdk.Node.Events.{Swarm, handle_command, handle_event}
use galax_ia_sdk.Node.Quiet.{answered, answered-append, frame_of, Quiet}
use galax_ia_sdk.Node.World.{Possible, NetInv, waiting}

-- The actor, all it has sent out, and the callers that asked it to dial.
pub record World : Type 0 where
  pub actor : Actor
  pub log : List Effect
  pub asked : List ℕ

-- the actor that `start` runs
abbrev pub start : Text → PeerId → Role → World
start did peer_id role = record {
  actor = record {
    did = did;
    peer_id = peer_id;
    role = role;
    peers = [];
    bids = [];
    pending_dials = [];
    connections = [];
    connected = [];
    listen_addrs = [];
    latest_advertises = [];
  };
  log = [];
  asked = [];
}

abbrev pub advanced : World → Actor × List Effect → List ℕ → World
advanced w r callers = record { actor = r.0; log = w.log ++ r.1; asked = w.asked ++ callers }

abbrev pub callers_of : Command → List ℕ
callers_of (dial addr reply) = reply ∷ []
callers_of _ = []

-- A swarm gives a dial the id of no other dial that is pending.
abbrev pub FreshDial : Actor → (Multiaddr → ℕ × Option Text) → Command → Type 0
FreshDial a swarm_dial (dial addr reply) = has_key (swarm_dial addr).0 a.pending_dials ≡ false
FreshDial a swarm_dial _ = Unit

module _ (c : Crypto) (codecs : Codecs) where
  pub data Step : World → World → Type 0 where
    command :
        (w : World) (k : Command) (swarm : Swarm) (swarm_dial : Multiaddr → ℕ × Option Text)
        → FreshDial w.actor swarm_dial k
        → Step w (advanced w (handle_command swarm swarm_dial w.actor k) (callers_of k))
    event :
        (w : World) (e : SwarmEvent) (now : ℤ)
        → Possible w.actor e
        → Step w (advanced w (handle_event c codecs now w.actor e) [])
    -- other tasks open and close windows for bids, and read the cache, which drops what expired
    opens :
        (w : World) (mission : Text) (preferred : Option Text)
        → Step w (
            advanced w
              (record w.actor { bids = open_window w.actor.bids mission preferred }, [])
              [])
    closes :
        (w : World) (mission : Text)
        → Step w
            (advanced w (record w.actor { bids = (close_window w.actor.bids mission).0 }, []) [])
    sweeps :
        (w : World) (now : ℤ)
        → Step w (advanced w (record w.actor { peers = live w.actor.peers now }, []) [])

  pub data Reach : World → Type 0 where
    begin : (did : Text) (peer_id : PeerId) (role : Role) → Reach (start did peer_id role)
    next : {w v : World} → Reach w → Step w v → Reach v

-- how often a caller stands in a list
unfoldable pub times : ℕ → List ℕ → ℕ
times k [] = 0
times k (r ∷ rs) = let more = times k rs in if r == k then suc more else more

times-append : (k : ℕ) (xs ys : List ℕ) → times k (xs ++ ys) ≡ times k xs + times k ys
unfolding times
times-append k [] ys = omega arith
times-append k (x ∷ xs) ys = ground (arith, times-append k xs ys)

pub record Inv (w : World) : Type 0 where
  pub net : NetInv (frame_of w.actor)
  pub owed : (k : ℕ) → times k w.asked ≡ answered k w.log + waiting k w.actor.pending_dials

-- A step keeps the invariant when its connections do, and it answers whom it takes from the
-- pending dials.
pub step-Inv :
    (w : World) (r : Actor × List Effect) (callers : List ℕ)
    → Inv w
    → NetInv (frame_of r.0)
    → ((k : ℕ)
        → answered k r.1 + waiting k r.0.pending_dials
          ≡ times k callers + waiting k w.actor.pending_dials)
    → Inv (advanced w r callers)
step-Inv w r callers v net balance = record {
  net = net;
  owed = λ k.
      omega
        (arith, times-append k w.asked callers, answered-append k w.log r.1, v.owed k, balance k);
}

pub Quiet-Inv :
    (w : World) (r : Actor × List Effect) → Inv w → Quiet w.actor r → Inv (advanced w r [])
unfolding times
Quiet-Inv w r v q =
    step-Inv w r [] v (subst NetInv (sym q.frame) v.net)
      (λ k. omega (arith, q.silent k, ap (λ f. waiting k f.2) q.frame))

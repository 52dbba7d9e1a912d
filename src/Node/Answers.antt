-- ===== src/Node/Answers.antt =====
-- The connected peers and the answers of the actor, by induction on its steps.
use galax_ia_sdk.Prelude.{
  ℕ, ◌+◌, ◌<◌, ◌≡◌, ◌↔◌, refl, ap, ◌∙◌, sym, subst, Bool, true, false, Option, none, some, List, [],
  ◌∷◌, ◌++◌, arith, if◌then◌else◌, ◌&&◌, ltb→lt, lt→ltb, map, any,
}
use galax_ia_sdk.Prelude.Int.{ℤ}
use galax_ia_sdk.Prelude.Lex.{list_eq}
use galax_ia_sdk.Prelude.Result.{Result, ok, err}
use galax_ia_sdk.Prelude.Dict.{
  Dict, ◌==◌, get, remove, has_key, nat_key, DistinctKeys, insert-DistinctKeys,
}
use galax_ia_sdk.Text.{Text}
use galax_ia_sdk.Limits.{PeerId}
use galax_ia_sdk.Signing.{Crypto}
use galax_ia_sdk.Wire.{topic_nodes_advertise}
use galax_ia_sdk.Node.{Multiaddr, Role, is_bootstrap}
use galax_ia_sdk.Node.State.{
  OpenConnection, Actor, Command, publish, dial, status, put_record, SwarmEvent, new_listen_addr,
  expired_listen_addr, connection_established, connection_closed, outgoing_connection_error,
  message, subscribed, identify_received, ignored, peer_connected, adds_address, member,
  ConnectedPoint,
}
use galax_ia_sdk.Node.Gossip.{Codecs}
use galax_ia_sdk.Node.Events.{
  Swarm, connection_lost, handle_command, handle_event, answer, dialled, established, kad_protocol,
}
use galax_ia_sdk.Node.Connections.{
  tally, tally-insert, tally-remove, remove_nothing, remove-DistinctKeys,
}
use galax_ia_sdk.Node.Quiet.{
  answered, frame_of, Quiet, if-Quiet, still, handle_gossip-Quiet, replay_advertises-Quiet,
  addresses-silent,
}
use galax_ia_sdk.Node.Reach.{
  World, start, advanced, callers_of, FreshDial, Step, command, event, opens, closes, sweeps, Reach,
  begin, next, times, Inv, step-Inv, Quiet-Inv,
}
use galax_ia_sdk.Node.World.{
  connections_with, Possible, NetInv, waiting, established-NetInv, closed-NetInv,
}

-- The reply that waits for an id is answered, and only that.
answer-balance :
    (k id : ℕ) (pending : Dict ℕ ℕ) (result : Result PeerId Text) (o : Option ℕ)
    → get id pending ≡ o
    → DistinctKeys pending
    → answered k (answer o result) + waiting k (remove id pending) ≡ waiting k pending
unfolding answered
answer-balance k id pending result none e d =
    omega (arith, ap (waiting k) (remove_nothing id pending e))
answer-balance k id pending result (some reply) e d =
    ground (arith, tally-remove (λ x. x == k) id reply pending d e)

answer_then :
    (k : ℕ) (o : Option ℕ) (result : Result PeerId Text)
    → answered k (answer o result ++ peer_connected ∷ []) ≡ answered k (answer o result)
unfolding answered
answer_then k none result = refl
answer_then k (some reply) result = refl

identified-Quiet :
    (a : Actor) (peer : PeerId) (addrs : List Multiaddr) (serves : Bool)
    → Quiet a (a, if serves then map (adds_address peer) addrs else [])
unfolding answered
identified-Quiet a peer addrs true = record {
  frame = refl;
  silent = λ k. addresses-silent k peer addrs;
}
identified-Quiet a peer addrs false = still a a refl

established-Inv :
    (w : World) (now : ℤ) (peer id : ℕ) (endpoint : ConnectedPoint)
    → has_key id w.actor.connections ≡ false
    → Inv w
    → Inv (advanced w (established now w.actor peer id endpoint) [])
unfolding established times
established-Inv w now peer id endpoint fresh v =
    let pending = w.actor.pending_dials in
    step-Inv w (established now w.actor peer id endpoint) [] v
      (established-NetInv now w.actor peer id endpoint fresh v.net)
      (λ k. omega (
        arith,
        answer_then k (get id pending) (ok peer),
        answer-balance k id pending (ok peer) (get id pending) refl v.net.distinct_dials,
      ))

closed-Inv :
    (w : World) (conn : OpenConnection) (peer id left : ℕ)
    → get id w.actor.connections ≡ some conn
    → conn.peer ≡ peer
    → left ≡ connections_with peer (remove id w.actor.connections)
    → Inv w
    → Inv (advanced w (connection_lost w.actor peer id left, []) [])
unfolding connection_lost answered times
closed-Inv w conn peer id left held same count v =
    step-Inv w (connection_lost w.actor peer id left, []) [] v
      (subst (λ q. NetInv (frame_of (connection_lost w.actor q id left))) same
        (closed-NetInv w.actor conn id left held
          (count ∙ ap (λ q. connections_with q (remove id w.actor.connections)) (sym same)) v.net))
      (λ k. refl)

failed-Inv :
    (w : World) (id : ℕ) (error : Text)
    → Inv w
    → Inv (
        advanced w
          (
            record w.actor { pending_dials = remove id w.actor.pending_dials },
            answer (get id w.actor.pending_dials) (err error),
          )
          [])
unfolding times
failed-Inv w id error v =
    let pending = w.actor.pending_dials in
    step-Inv w _ [] v
      (record {
        distinct = v.net.distinct;
        exact = v.net.exact;
        distinct_dials = remove-DistinctKeys id pending v.net.distinct_dials;
      })
      (λ k.
        omega (
          arith,
          answer-balance k id pending (err error) (get id pending) refl v.net.distinct_dials,
        ))

-- A dial that fails at once is answered, another waits.
dialled-Inv :
    (w : World) (reply : ℕ) (r : ℕ × Option Text)
    → has_key r.0 w.actor.pending_dials ≡ false
    → Inv w
    → Inv (advanced w (dialled w.actor reply r) (reply ∷ []))
unfolding answered times
dialled-Inv w reply (id, none) fresh v =
    let pending = w.actor.pending_dials in
    step-Inv w (dialled w.actor reply (id, none)) (reply ∷ []) v
      (record {
        distinct = v.net.distinct;
        exact = v.net.exact;
        distinct_dials = insert-DistinctKeys id reply pending v.net.distinct_dials;
      })
      (λ k. ground (arith, tally-insert (λ x. x == k) id reply pending fresh))
dialled-Inv w reply (id, some error) fresh v =
    step-Inv w (dialled w.actor reply (id, some error)) (reply ∷ []) v v.net (λ k. ground arith)

module _ (c : Crypto) (codecs : Codecs) where
  event-Inv :
      (w : World) (e : SwarmEvent) (now : ℤ)
      → Possible w.actor e
      → Inv w
      → Inv (advanced w (handle_event c codecs now w.actor e) [])
  unfolding handle_event
  event-Inv w (new_listen_addr address) now p v = Quiet-Inv w _ v (still w.actor _ refl)
  event-Inv w (expired_listen_addr address) now p v = Quiet-Inv w _ v (still w.actor _ refl)
  event-Inv w (connection_established peer id endpoint) now p v =
      established-Inv w now peer id endpoint p v
  event-Inv w (connection_closed peer id left) now (conn, held, same, count) v =
      closed-Inv w conn peer id left held same count v
  event-Inv w (outgoing_connection_error id error) now p v = failed-Inv w id error v
  event-Inv w (message topic bytes) now p v =
      Quiet-Inv w _ v (handle_gossip-Quiet c codecs now w.actor topic bytes)
  event-Inv w (subscribed peer topic) now p v = Quiet-Inv w _ v (
      if-Quiet w.actor (is_bootstrap w.actor.role && list_eq topic topic_nodes_advertise) _ _
        (replay_advertises-Quiet now w.actor) (still w.actor w.actor refl))
  event-Inv w (identify_received peer protocols addrs) now p v =
      Quiet-Inv w _ v
        (identified-Quiet w.actor peer addrs (any (λ p. list_eq p kad_protocol) protocols))
  event-Inv w ignored now p v = Quiet-Inv w _ v (still w.actor w.actor refl)

  command-Inv :
      (w : World) (k : Command) (swarm : Swarm) (swarm_dial : Multiaddr → ℕ × Option Text)
      → FreshDial w.actor swarm_dial k
      → Inv w
      → Inv (advanced w (handle_command swarm swarm_dial w.actor k) (callers_of k))
  unfolding handle_command answered
  command-Inv w (publish topic bytes) swarm swarm_dial f v =
      Quiet-Inv w _ v (record { frame = refl; silent = λ k. refl })
  command-Inv w (status reply) swarm swarm_dial f v =
      Quiet-Inv w _ v (record { frame = refl; silent = λ k. refl })
  command-Inv w (put_record key value) swarm swarm_dial f v =
      Quiet-Inv w _ v (record { frame = refl; silent = λ k. refl })
  command-Inv w (dial addr reply) swarm swarm_dial f v = dialled-Inv w reply (swarm_dial addr) f v

  Step-Inv : {w u : World} → Step c codecs w u → Inv w → Inv u
  Step-Inv (command w k swarm swarm_dial f) v = command-Inv w k swarm swarm_dial f v
  Step-Inv (event w e now p) v = event-Inv w e now p v
  Step-Inv (opens w mission preferred) v = Quiet-Inv w _ v (still w.actor _ refl)
  Step-Inv (closes w mission) v = Quiet-Inv w _ v (still w.actor _ refl)
  Step-Inv (sweeps w now) v = Quiet-Inv w _ v (still w.actor _ refl)

  start-Inv : (did : Text) (peer_id : PeerId) (role : Role) → Inv (start did peer_id role)
  unfolding answered times tally member
  start-Inv did peer_id role = record {
    net = record { distinct = tt; exact = λ peer. refl; distinct_dials = tt };
    owed = λ k. refl;
  }

  Reach-Inv : {w : World} → Reach c codecs w → Inv w
  Reach-Inv (begin did peer_id role) = start-Inv did peer_id role
  Reach-Inv (next r s) = Step-Inv s (Reach-Inv r)

  -- After any commands and events, if connections have fresh ids and a closed one comes with the
  -- number of those that are left with its peer, the connected peers are exactly those with an
  -- open connection.
  pub Reach-connected :
      (w : World) (peer : PeerId)
      → Reach c codecs w
      → (member peer w.actor.connected ≡ true) ↔ (0 < connections_with peer w.actor.connections)
  Reach-connected w peer r =
      let same = (Reach-Inv r).net.exact peer in
      ((λ h. ltb→lt _ _ (sym same ∙ h)), λ h. same ∙ lt→ltb _ _ h)

  -- After any commands and events, if pending dials have different ids, each caller has been
  -- answered as often as it asked for a dial, less the dials of it that are still pending.
  pub Reach-answered :
      (w : World) (caller : ℕ)
      → Reach c codecs w
      → times caller w.asked ≡ answered caller w.log + waiting caller w.actor.pending_dials
  Reach-answered w caller r = (Reach-Inv r).owed caller

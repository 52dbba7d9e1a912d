-- ===== src/Node/Loops.antt =====
-- The loops of rust/fhs/src/p2p/node.rs that publish what the node says of itself: `advertise_loop`
-- and `dht_beacon_loop`, with `set_advertise_beacon`, which changes the beacon while they run. A
-- turn of a loop starts at a timer, at a connection or at a change of the beacon; the waits before
-- the first turn are left out. Both watch channels live as long as the handle.
use galax_ia_sdk.Prelude.{
  ◌≡◌, refl, Bool, true, false, Option, none, some, List, [], ◌∷◌, ◌++◌, map, not, ◌&&◌, ◌∙◌, any,
  ap, All,
}
use galax_ia_sdk.Prelude.Int.{ℤ, pos}
use galax_ia_sdk.Text.{Text, Bytes}
use galax_ia_sdk.Protocol.{Beacon, NodeAdvertiseMessage, DhtBeaconRecord}
use galax_ia_sdk.Limits.{PeerId}
use galax_ia_sdk.Signing.{Crypto}
use galax_ia_sdk.Wire.{Signer, own_advertise, own_dht_beacon, dht_beacon_key, topic_nodes_advertise}
use galax_ia_sdk.Node.{Multiaddr, own_addrs}
use galax_ia_sdk.Node.State.{Command, publish, put_record}

abbrev pub advertise_ttl_seconds : ℤ
advertise_ttl_seconds = pos 60

-- a `watch` channel with its receiver: the value, and whether the receiver has yet to see it
pub record Watch : Type 0 where
  pub beacon : Beacon
  pub unseen : Bool

abbrev pub send_replace : Beacon → Option Watch → Option Watch
send_replace b none = none
send_replace b (some w) = some (record { beacon = b; unseen = true })

-- the two channels of `NodeHandle`; a loop that does not run has none
pub record Beacons : Type 0 where
  pub advertise : Option Watch
  pub dht : Option Watch

unfoldable pub set_advertise_beacon : Beacon → Beacons → Beacons
set_advertise_beacon b bs = record {
  advertise = send_replace b bs.advertise;
  dht = send_replace b bs.dht;
}

abbrev pub unseen_of : Option Watch → Bool
unseen_of none = false
unseen_of (some w) = w.unseen

abbrev pub seen : Watch → Watch
seen w = record { beacon = w.beacon; unseen = false }

-- what happens in turn: a new beacon, or a turn of a loop at a time and with the addresses then
pub data Event : Type 0 where
  sets : Beacon → Event
  advertises : ℤ → List Multiaddr → Event
  puts : ℤ → List Multiaddr → Event

abbrev pub turned : (Watch → Watch × Command) → Option Watch → Option Watch × List Command
turned go none = (none, [])
turned go (some w) = (some (go w).0, (go w).1 ∷ [])

abbrev pub NoSets : List Event → Type 0
NoSets [] = Unit
NoSets (sets b ∷ es) = ⊥
NoSets (e ∷ es) = NoSets es

abbrev pub is_advertise : Event → Bool
is_advertise (advertises now listen) = true
is_advertise _ = false

abbrev pub is_publish : Command → Bool
is_publish (publish topic bytes) = true
is_publish _ = false

abbrev Bears : Beacon → Option Watch → Type 0
Bears b none = Unit
Bears b (some w) = w.beacon ≡ b

and_self : (b : Bool) → b ≡ (b && true)
and_self true = refl
and_self false = refl

and_none : (b : Bool) → false ≡ (b && false)
and_none true = refl
and_none false = refl

module _ (c : Crypto) (identity : Signer) (peer : PeerId) (announce : List Multiaddr)
    (to_string : Multiaddr → Text) (encode_advertise : NodeAdvertiseMessage → Bytes)
    (encode_record : DhtBeaconRecord → Bytes) where
  abbrev addrs : List Multiaddr → List Text
  addrs listen = map to_string (own_addrs announce listen peer)

  unfoldable pub advertise_turn : ℤ → List Multiaddr → Watch → Watch × Command
  advertise_turn now listen w = (
    seen w,
    publish topic_nodes_advertise (
        encode_advertise
          (own_advertise c identity now w.beacon (addrs listen) advertise_ttl_seconds)),
  )

  unfoldable pub dht_turn : ℤ → List Multiaddr → Watch → Watch × Command
  dht_turn now listen w = (
    seen w,
    put_record (dht_beacon_key identity.did)
        (encode_record (own_dht_beacon c identity now w.beacon (addrs listen))),
  )

  unfoldable pub on_event : Event → Beacons → Beacons × List Command
  on_event (sets b) bs = (set_advertise_beacon b bs, [])
  on_event (advertises now listen) bs =
      let t = turned (advertise_turn now listen) bs.advertise in
      (record bs { advertise = t.0 }, t.1)
  on_event (puts now listen) bs =
      let t = turned (dht_turn now listen) bs.dht in (record bs { dht = t.0 }, t.1)

  unfoldable pub run_loops : List Event → Beacons → Beacons × List Command
  run_loops [] bs = (bs, [])
  run_loops (e ∷ es) bs =
      let t = on_event e bs in let more = run_loops es t.0 in (more.0, t.1 ++ more.1)

  -- what a command says when it is of a loop and carries a beacon
  abbrev pub Carries : Beacon → Command → Type 0
  Carries b (publish topic bytes) =
      (topic ≡ topic_nodes_advertise)
      × ((now : ℤ) × (listen : List Multiaddr) × (bytes
            ≡ encode_advertise
                (own_advertise c identity now b (addrs listen) advertise_ttl_seconds)))
  Carries b (put_record key value) =
      (key ≡ dht_beacon_key identity.did)
      × ((now : ℤ) × (listen : List Multiaddr) × (value
            ≡ encode_record (own_dht_beacon c identity now b (addrs listen))))
  Carries b _ = ⊥

  -- what the loops do between two changes of the beacon
  record Follows (b : Beacon) (bs : Beacons) (es : List Event) : Type 0 where
    carries : All (Carries b) (run_loops es bs).1
    published : any is_publish (run_loops es bs).1 ≡ any is_advertise es
    woken :
        unseen_of (run_loops es bs).0.advertise
        ≡ (unseen_of bs.advertise && not (any is_advertise es))

  advertised :
      (now : ℤ) (listen : List Multiaddr) (x b : Beacon)
      → x ≡ b
      → encode_advertise (own_advertise c identity now x (addrs listen) advertise_ttl_seconds)
        ≡ encode_advertise (own_advertise c identity now b (addrs listen) advertise_ttl_seconds)
  advertised now listen x b e =
      ap
        (λ y.
          encode_advertise (own_advertise c identity now y (addrs listen) advertise_ttl_seconds))
        e

  recorded :
      (now : ℤ) (listen : List Multiaddr) (x b : Beacon)
      → x ≡ b
      → encode_record (own_dht_beacon c identity now x (addrs listen))
        ≡ encode_record (own_dht_beacon c identity now b (addrs listen))
  recorded now listen x b e =
      ap (λ y. encode_record (own_dht_beacon c identity now y (addrs listen))) e

  run-Follows :
      (b : Beacon) (es : List Event) (w : Watch) (dht : Option Watch)
      → NoSets es
      → w.beacon ≡ b
      → Bears b dht
      → Follows b (record { advertise = some w; dht = dht }) es
  unfolding run_loops on_event advertise_turn dht_turn
  run-Follows b [] w dht still same same' = record {
    carries = tt;
    published = refl;
    woken = and_self w.unseen;
  }
  run-Follows b (sets b' ∷ es) w dht still same same' = elim still [ ]
  run-Follows b (advertises now listen ∷ es) w dht still same same' =
      let more = run-Follows b es (seen w) dht still same same' in
      record {
        carries = ((refl, (now, listen, advertised now listen w.beacon b same)), more.carries);
        published = refl;
        woken = more.woken ∙ and_none w.unseen;
      }
  run-Follows b (puts now listen ∷ es) w none still same same' =
      let more = run-Follows b es w none still same same' in
      record { carries = more.carries; published = more.published; woken = more.woken }
  run-Follows b (puts now listen ∷ es) w (some v) still same same' =
      let more = run-Follows b es w (some (seen v)) still same same' in
      record {
        carries = ((refl, (now, listen, recorded now listen v.beacon b same')), more.carries);
        published = more.published;
        woken = more.woken;
      }

  -- After `set_advertise_beacon` on a node that advertises itself, until it is called again:
  -- every advertisement and every record of the DHT carries the new beacon, an advertisement
  -- goes out as soon as its loop has a turn, and until then the change of the beacon wakes that
  -- loop.
  pub set_advertise_beacon-Follows :
      (b : Beacon) (bs : Beacons) (w : Watch) (es : List Event)
      → bs.advertise ≡ some w
      → NoSets es
      → All (Carries b) (run_loops es (set_advertise_beacon b bs)).1
        × (any is_publish (run_loops es (set_advertise_beacon b bs)).1 ≡ any is_advertise es)
        × (unseen_of (run_loops es (set_advertise_beacon b bs)).0.advertise
            ≡ not (any is_advertise es))
  unfolding set_advertise_beacon
  set_advertise_beacon-Follows b bs w es runs still =
      let woken : Watch = record { beacon = b; unseen = true } in
      let f = run-Follows b es woken (send_replace b bs.dht) still refl (bears b bs.dht) in
      rw runs (f.carries, f.published, f.woken)
    where
      bears : (b : Beacon) (o : Option Watch) → Bears b (send_replace b o)
      bears b none = tt
      bears b (some w) = refl

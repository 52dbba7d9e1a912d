-- ===== src/Node/Heard.antt =====
-- Where the knowledge of a node comes from: everything that it keeps was signed by whom it is about.
use galax_ia_sdk.Prelude.{
  ◌≡◌, ◌≢◌, ◌⊎◌, inl, inr, refl, sym, subst, Bool, true, false, Option, none, some, [], ◌∷◌, ◌++◌,
  if◌then◌else◌, All, not, ◌||◌,
}
use galax_ia_sdk.Prelude.Int.{ℤ}
use galax_ia_sdk.Prelude.Lex.{list_eq, list_eq_iff}
use galax_ia_sdk.Prelude.Result.{Result, ok, err}
use galax_ia_sdk.Prelude.Dict.{Dict, get, insert, list_key, All-insert, All-get}
use galax_ia_sdk.Text.{Text, Bytes}
use galax_ia_sdk.Protocol.{NodeAdvertiseMessage, MissionBidMessage}
use galax_ia_sdk.PeerCache.{
  PeerEntry, Cache, upsert_at, store, entry_of, advert_expiry, is_replay, is_empty, fresh,
}
use galax_ia_sdk.Mission.{Bids}
use galax_ia_sdk.Signing.{Crypto, verify_node_advertise, verify_mission_bid}
use galax_ia_sdk.Wire.{Rejected, verified_node_advertise, verified_mission_bid}
use galax_ia_sdk.Wire.Verified.{IsSigned, verified_node_advertise_iff, verified_mission_bid_iff}
use galax_ia_sdk.Node.{is_bootstrap}
use galax_ia_sdk.Node.Collector.{OpenBidWindow, BidCollector, deliver, deliver_to, push}
use galax_ia_sdk.Node.State.{Actor}
use galax_ia_sdk.Node.Gossip.{Codecs, remembered, heard, take_advertise, take_bid, replay_expiry}

-- What `upsert_at` does to the cache: nothing, or it stores the entry of the advertisement.
upsert_at-stores :
    (c : Cache) (m : NodeAdvertiseMessage) (now : ℤ)
    → ((upsert_at c m now).0 ≡ c)
      ⊎ ((expiry : ℤ) × ((upsert_at c m now).0 ≡ insert m.did (entry_of m now expiry) c))
unfolding upsert_at
upsert_at-stores c m now = guarded (is_empty m.did || not (fresh m now)) (advert_expiry m)
  where
    Stores : Cache × Bool → Type 0
    Stores r = (r.0 ≡ c) ⊎ ((expiry : ℤ) × (r.0 ≡ insert m.did (entry_of m now expiry) c))

    stored :
        (replay : Bool) (expiry : ℤ)
        → Stores (if replay then (c, false) else (insert m.did (entry_of m now expiry) c, true))
    stored true expiry = inl refl
    stored false expiry = inr (expiry, refl)

    checked : (o : Option ℤ) → Stores (store c m now o)
    checked none = inl refl
    checked (some expiry) = stored (is_replay m (get m.did c)) expiry

    guarded : (b : Bool) (o : Option ℤ) → Stores (if b then (c, false) else store c m now o)
    guarded true o = inl refl
    guarded false o = checked o

module _ (c : Crypto) (codecs : Codecs) where
  -- some bytes carry the advertisement, signed by its DID
  abbrev pub Announced : NodeAdvertiseMessage → Type 0
  Announced m =
      (bytes : Bytes) × IsSigned codecs.advertise bytes m m.signature (verify_node_advertise c m)

  -- An entry of the cache is that of an advertisement signed by its DID, which is another node's.
  abbrev pub Vouched : Text → Text × PeerEntry → Type 0
  Vouched own (did, e) =
      (m : NodeAdvertiseMessage) × Announced m
      × (m.did ≡ did)
      × (did ≢ own)
      × ((now : ℤ) × (expiry : ℤ) × (e ≡ entry_of m now expiry))

  -- The bytes to be sent on are those of an advertisement signed by their DID.
  abbrev pub Relayed : Text → Text × (Bytes × ℤ) → Type 0
  Relayed own (did, (bytes, expires)) =
      (m : NodeAdvertiseMessage) × IsSigned codecs.advertise bytes m m.signature
        (verify_node_advertise c m)
      × (m.did ≡ did)
      × (did ≢ own)

  abbrev pub SignedBid : MissionBidMessage → Type 0
  SignedBid b = (bytes : Bytes) × IsSigned codecs.bid bytes b b.signature (verify_mission_bid c b)

  -- The bids of an open window are signed by their providers and are for its mission.
  abbrev pub Offered : Text × OpenBidWindow → Type 0
  Offered (mission, w) = All (λ b. SignedBid b × (b.mission_id ≡ mission)) w.bids

  pub record Trusted (a : Actor) : Type 0 where
    pub peers : All (Vouched a.did) a.peers
    pub latest : All (Relayed a.did) a.latest_advertises
    pub bids : All Offered a.bids

  upsert_at-Vouched :
      (own : Text) (cache : Cache) (m : NodeAdvertiseMessage) (now : ℤ)
      → Announced m
      → m.did ≢ own
      → All (Vouched own) cache
      → All (Vouched own) (upsert_at cache m now).0
  upsert_at-Vouched own cache m now signed other h = elim (upsert_at-stores cache m now) [
    | inl same ↦ subst (All (Vouched own)) (sym same) h
    | inr (expiry, stored) ↦ subst (All (Vouched own)) (sym stored) (
        All-insert (Vouched own) m.did (entry_of m now expiry) cache
          (m, signed, refl, other, (now, expiry, refl)) h)
  ]

  remembered-Relayed :
      (own : Text) (b : Bool) (m : NodeAdvertiseMessage) (bytes : Bytes)
      (latest : Dict Text (Bytes × ℤ))
      → IsSigned codecs.advertise bytes m m.signature (verify_node_advertise c m)
      → m.did ≢ own
      → All (Relayed own) latest
      → All (Relayed own) (remembered b m bytes latest)
  remembered-Relayed own false m bytes latest s other h = h
  remembered-Relayed own true m bytes latest s other h =
      All-insert (Relayed own) m.did (bytes, replay_expiry m) latest (m, s, refl, other) h

  heard-Trusted :
      (a : Actor) (m : NodeAdvertiseMessage) (bytes : Bytes) (now : ℤ) (own : Bool)
      → list_eq m.did a.did ≡ own
      → IsSigned codecs.advertise bytes m m.signature (verify_node_advertise c m)
      → Trusted a
      → Trusted (heard own a m bytes now)
  heard-Trusted a m bytes now true e s t = t
  heard-Trusted a m bytes now false e s t =
      let other : m.did ≢ a.did = λ same. (let f = (list_eq_iff m.did a.did).1 same in cc) in
      record {
        peers = upsert_at-Vouched a.did a.peers m now (bytes, s) other t.peers;
        latest =
            remembered-Relayed a.did (is_bootstrap a.role) m bytes a.latest_advertises s other
              t.latest;
        bids = t.bids;
      }

  pub take_advertise-Trusted :
      (a : Actor) (bytes : Bytes) (now : ℤ) (r : Result NodeAdvertiseMessage Rejected)
      → verified_node_advertise c codecs.advertise bytes ≡ r
      → Trusted a
      → Trusted (take_advertise a bytes now r)
  take_advertise-Trusted a bytes now (err reason) e t = t
  take_advertise-Trusted a bytes now (ok m) e t =
      heard-Trusted a m bytes now (list_eq m.did a.did) refl
        ((verified_node_advertise_iff c bytes codecs.advertise m).0 e) t

  All-snoc :
      (P : MissionBidMessage → Type 0) (bs : Bids) (b : MissionBidMessage)
      → All P bs
      → P b
      → All P (bs ++ b ∷ [])
  All-snoc P [] b h p = (p, tt)
  All-snoc P (x ∷ bs) b (q, h) p = (q, All-snoc P bs b h p)

  deliver_to-Offered :
      (open_bids : BidCollector) (b : MissionBidMessage) (o : Option OpenBidWindow)
      → get b.mission_id open_bids ≡ o
      → SignedBid b
      → All Offered open_bids
      → All Offered (deliver_to open_bids b o).0
  deliver_to-Offered open_bids b none e s h = h
  deliver_to-Offered open_bids b (some w) e s h =
      All-insert Offered b.mission_id (push b w) open_bids
        (All-snoc (λ x. SignedBid x × (x.mission_id ≡ b.mission_id)) w.bids b
          (All-get Offered b.mission_id w open_bids h e) (s, refl))
        h

  pub take_bid-Trusted :
      (a : Actor) (bytes : Bytes) (r : Result MissionBidMessage Rejected)
      → verified_mission_bid c codecs.bid bytes ≡ r
      → Trusted a
      → Trusted (take_bid a r)
  unfolding deliver
  take_bid-Trusted a bytes (err reason) e t = t
  take_bid-Trusted a bytes (ok b) e t = record {
    peers = t.peers;
    latest = t.latest;
    bids =
        deliver_to-Offered a.bids b (get b.mission_id a.bids) refl
          (bytes, (verified_mission_bid_iff c bytes codecs.bid b).0 e) t.bids;
  }

-- ===== src/Mission/Cycle.antt =====
-- What a mission cycle publishes and who can win it.
use galax_ia_sdk.Prelude.{
  ◌≡◌, ap, sym, ◌∙◌, Bool, true, Option, none, some, List, [], ◌∷◌, ◌&&◌, ◌||◌, not, arith,
}
use galax_ia_sdk.Text.{Text}
use galax_ia_sdk.Protocol.{MissionBidMessage}
use galax_ia_sdk.Mission.{
  Bids, MissionRequest, WinningBid, covers, contains, filter_allowed, allowed_bid, allow,
  select_winning_bid, Published, offer, assign, offer_of, or_default, run_mission_cycle, concluded,
  is_empty,
}
use galax_ia_sdk.Mission.Choice.{Among, filter-Among}
use galax_ia_sdk.Mission.Selection.{select_winning_bid-Among}

-- The bids that count are among those collected.
allow-Among :
    (allowed : Option (List Text)) (connected : Text → Bool) (bids : Bids) (b : MissionBidMessage)
    → Among b (allow allowed connected bids)
    → Among b bids
unfolding filter_allowed
allow-Among none connected bids b m = m
allow-Among (some dids) connected bids b m = (filter-Among (allowed_bid dids connected) b bids m).0

module _ (fresh_id : Text) (multiaddrs : List Text) (collected : Text → Bids)
    (connected : Text → Bool) (request : MissionRequest) (out : List Published) (w : WinningBid)
    (won : run_mission_cycle fresh_id multiaddrs collected connected request ≡ (out, some w)) where
  -- the id of the mission
  abbrev id : Text
  id = or_default request.mission_id fresh_id

  abbrev counted : Bids
  counted = allow request.allowed_provider_dids connected (collected id)

  winner_parts :
      (o : Option MissionBidMessage)
      → concluded (offer (offer_of id multiaddrs request)) id o ≡ (out, some w)
      → (o ≡ some w.bid)
        × (w.mission_id ≡ id)
        × (out ≡ offer (offer_of id multiaddrs request) ∷ assign id w.bid.provider_did ∷ [])
  winner_parts none h = absurd (ground arith)
  winner_parts (some b) h =
      let same : Path WinningBid (record { mission_id = id; bid = b }) w = ground arith in
      (
        ap (λ x. some x.bid) same,
        sym (ap (λ x. x.mission_id) same),
        sym (ap (λ x. x.0) h)
            ∙ ap
                (λ (x : WinningBid).
                  offer (offer_of id multiaddrs request) ∷ assign id x.bid.provider_did ∷ [])
                same,
      )

  chosen :
      (select_winning_bid counted request.required_capabilities request.preferred_provider
        ≡ some w.bid)
      × (w.mission_id ≡ id)
      × (out ≡ offer (offer_of id multiaddrs request) ∷ assign id w.bid.provider_did ∷ [])
  unfolding run_mission_cycle
  chosen =
      winner_parts
        (select_winning_bid counted request.required_capabilities request.preferred_provider) won

  -- A cycle with a winner publishes the offer and then the assignment of that winner, under one
  -- mission id; the winner is one of the bids collected under that id and offers every required
  -- capability.
  pub run_mission_cycle-Among :
      (w.mission_id ≡ id)
      × (out ≡ offer (offer_of id multiaddrs request) ∷ assign id w.bid.provider_did ∷ [])
      × Among w.bid (collected id)
      × (covers request.required_capabilities w.bid.offered_capabilities ≡ true)
  run_mission_cycle-Among =
      let (sel, same_id, trace) = chosen in
      let (m, able) =
        select_winning_bid-Among counted request.required_capabilities request.preferred_provider
          w.bid sel in
      (
        same_id,
        trace,
        allow-Among request.allowed_provider_dids connected (collected id) w.bid m,
        able,
      )

  -- When a mission cycle with a list of allowed providers has a winner, the winner is on the
  -- list and has a live connection or an address.
  pub run_mission_cycle_allowed :
      (dids : List Text)
      → request.allowed_provider_dids ≡ some dids
      → (contains dids w.bid.provider_did ≡ true)
        × ((connected w.bid.provider_did || not (is_empty w.bid.provider_multiaddrs)) ≡ true)
  unfolding filter_allowed
  run_mission_cycle_allowed dids listed =
      let (sel, same_id, trace) = chosen in
      let (m, able) =
        select_winning_bid-Among counted request.required_capabilities request.preferred_provider
          w.bid sel in
      let held =
        (filter-Among (allowed_bid dids connected) w.bid (collected id) (rw listed at m)).1 in
      both (contains dids w.bid.provider_did) _ held
    where
      both : (a b : Bool) → a && b ≡ true → (a ≡ true) × (b ≡ true)
      both a b e = ground arith

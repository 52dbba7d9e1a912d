-- ===== src/Tests/Mission.antt =====
-- rust/fhs/src/p2p/mission.rs on concrete inputs.
use galax_ia_sdk.Prelude.{ℕ, ◌≡◌, ◌≢◌, refl, Bool, true, Option, none, some, List, [], ◌∷◌, arith}
use galax_ia_sdk.Prelude.Int.{pos}
use galax_ia_sdk.Prelude.Lex.{list_eq}
use galax_ia_sdk.Text.{Text, codes}
use galax_ia_sdk.Protocol.{MissionBidMessage}
use galax_ia_sdk.Mission.{
  Bids, MissionRequest, WinningBid, covers, trust_rank, total_key, cmp_bids, eligible, find, min_by,
  min_from, select_winning_bid, filter_allowed, Published, offer, assign, offer_of,
  run_mission_cycle,
}
use galax_ia_sdk.Mission.Choice.{Among, here, there}
use galax_ia_sdk.Mission.Selection.{NotWorse, select_winning_bid-Among, select_winning_bid_best}

abbrev ocr : Text
ocr = codes "document.ocr"

abbrev bid : Text → Text → ℕ → ℕ → MissionBidMessage
bid did trust reputation latency = record {
  mission_id = codes "m1";
  provider_did = did;
  provider_multiaddrs = [];
  provider_type = codes "satellite";
  offered_capabilities = ocr ∷ [];
  offered_model = [];
  reputation_score = reputation;
  estimated_latency_ms = pos latency;
  trust_level = trust;
  timestamp = pos 0;
  signature = [];
}

-- 0.5 and 0.1 as bit patterns
abbrev a : MissionBidMessage
a = bid (codes "a") (codes "community") 0x3f000000 50

abbrev b : MissionBidMessage
b = bid (codes "b") (codes "standard") 0x3dcccccd 900

abbrev c : MissionBidMessage
c = bid (codes "c") (codes "standard") 0x3dcccccd 100

abbrev bids : Bids
bids = a ∷ b ∷ c ∷ []

preferred_run : select_winning_bid bids (ocr ∷ []) (some (codes "a")) ≡ some a
unfolding select_winning_bid eligible find covers list_eq
preferred_run = refl

best_run : select_winning_bid bids (ocr ∷ []) (some (codes "absent")) ≡ some c
unfolding select_winning_bid eligible find covers list_eq min_by min_from cmp_bids trust_rank
    total_key
best_run = refl

covers_run : covers (ocr ∷ []) (ocr ∷ []) ≡ true
unfolding covers list_eq
covers_run = refl

select_winning_bid-Among_example : Among a bids × (covers (ocr ∷ []) a.offered_capabilities ≡ true)
select_winning_bid-Among_example =
    select_winning_bid-Among bids (ocr ∷ []) (some (codes "a")) a preferred_run

absent_lem :
    (did : Text) → Path (Option Text) (some (codes "absent")) (some did) → c.provider_did ≢ did
absent_lem did p q = ground arith

select_winning_bid_best_example : NotWorse c b
select_winning_bid_best_example =
    select_winning_bid_best bids (ocr ∷ []) (some (codes "absent")) c best_run b absent_lem
      (there a (here (c ∷ []))) covers_run

none_run : select_winning_bid bids (codes "x.y" ∷ []) none ≡ none
unfolding select_winning_bid eligible covers list_eq min_by
none_run = refl

abbrev request : MissionRequest
request = record {
  mission_type = codes "tool_call";
  required_capabilities = ocr ∷ [];
  preferred_model = none;
  preferred_provider = none;
  bid_deadline_ms = pos 2000;
  mission_id = none;
  allowed_provider_dids = some (codes "a" ∷ codes "b" ∷ []);
}

abbrev collected : Text → Bids
collected id = bids

abbrev connected : Text → Bool
connected did = true

abbrev trace : List Published
trace = offer (offer_of (codes "m1") [] request) ∷ assign (codes "m1") (codes "b") ∷ []

abbrev winning : WinningBid
winning = record { mission_id = codes "m1"; bid = b }

cycle_run : run_mission_cycle (codes "m1") [] collected connected request ≡ (trace, some winning)
unfolding run_mission_cycle filter_allowed select_winning_bid eligible covers list_eq min_by
    min_from cmp_bids trust_rank total_key
cycle_run = refl

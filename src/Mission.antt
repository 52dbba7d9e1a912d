-- ===== src/Mission.antt =====
-- rust/fhs/src/p2p/mission.rs: the mission cycle, from an offer over the bids to the assignment. A
-- score is the bit pattern of an f32. What the cycle takes from the node is an argument: a fresh id,
-- its addresses, the bids that the collector returns and the test for a live connection.
pub mod Choice
pub mod Selection
pub mod Cycle
use galax_ia_sdk.Prelude.{
  ℕ, ◌+◌, ◌-◌, ◌*◌, ◌^◌, Bool, true, false, Option, none, some, List, [], ◌∷◌, ltb, ◌==◌,
  if◌then◌else◌, ◌&&◌, ◌||◌, not, all, any,
}
use galax_ia_sdk.Prelude.Int.{ℤ, pos, ltb_ℤ}
use galax_ia_sdk.Prelude.Lex.{list_eq}
use galax_ia_sdk.Text.{Text, codes}
use galax_ia_sdk.Protocol.{MissionBidMessage, MissionOfferMessage}

pub record MissionRequest : Type 0 where
  pub mission_type : Text
  pub required_capabilities : List Text
  pub preferred_model : Option Text
  pub preferred_provider : Option Text
  pub bid_deadline_ms : ℤ
  pub mission_id : Option Text
  pub allowed_provider_dids : Option (List Text)

pub record WinningBid : Type 0 where
  pub mission_id : Text
  pub bid : MissionBidMessage

unfoldable pub trust_rank : Text → ℕ
trust_rank level =
    if list_eq level (codes "delegated")
    then 4
    else if list_eq level (codes "standard")
    then 3
    else if list_eq level (codes "community")
    then 2
    else if list_eq level (codes "unverified")
    then 1
    else 0

abbrev pub contains : List Text → Text → Bool
contains l t = any (λ x. list_eq x t) l

unfoldable pub covers : List Text → List Text → Bool
covers required offered = all (contains offered) required

-- `f32::total_cmp`: the order of the bit patterns, the negative ones below and turned round
unfoldable pub total_key : ℕ → ℕ
total_key bits = if ltb bits (2 ^ 31) then 2 ^ 31 + bits else 2 ^ 32 - 1 - bits

pub data Ordering : Type 0 where
  less : Ordering
  equal : Ordering
  greater : Ordering

abbrev pub then_with : Ordering → Ordering → Ordering
then_with equal o = o
then_with less o = less
then_with greater o = greater

abbrev pub cmp : ℕ → ℕ → Ordering
cmp a b = if ltb a b then less else if a == b then equal else greater

abbrev pub cmp_ℤ : ℤ → ℤ → Ordering
cmp_ℤ a b = if ltb_ℤ a b then less else if ltb_ℤ b a then greater else equal

-- the comparison of `min_by`: trust, then reputation, both highest first, then latency
unfoldable pub cmp_bids : MissionBidMessage → MissionBidMessage → Ordering
cmp_bids a b =
    then_with
      (then_with (cmp (trust_rank b.trust_level) (trust_rank a.trust_level))
        (cmp (total_key b.reputation_score) (total_key a.reputation_score)))
      (cmp_ℤ a.estimated_latency_ms b.estimated_latency_ms)

abbrev pub Bids : Type 0
Bids = List MissionBidMessage

abbrev pub filter : (MissionBidMessage → Bool) → Bids → Bids
filter p [] = []
filter p (b ∷ bs) = if p b then b ∷ filter p bs else filter p bs

unfoldable pub eligible : List Text → Bids → Bids
eligible required bids = filter (λ b. covers required b.offered_capabilities) bids

unfoldable pub find : (MissionBidMessage → Bool) → Bids → Option MissionBidMessage
find p [] = none
find p (b ∷ bs) = if p b then some b else find p bs

-- `min_by` keeps the first of equal elements.
abbrev pub keep_min : MissionBidMessage → MissionBidMessage → Ordering → MissionBidMessage
keep_min best b greater = b
keep_min best b less = best
keep_min best b equal = best

unfoldable pub min_from : MissionBidMessage → Bids → MissionBidMessage
min_from best [] = best
min_from best (b ∷ bs) = min_from (keep_min best b (cmp_bids best b)) bs

unfoldable pub min_by : Bids → Option MissionBidMessage
min_by [] = none
min_by (b ∷ bs) = some (min_from b bs)

abbrev pub find_preferred : Option Text → Bids → Option MissionBidMessage
find_preferred none bids = none
find_preferred (some did) bids = find (λ b. list_eq b.provider_did did) bids

abbrev pub or_best : Option MissionBidMessage → Bids → Option MissionBidMessage
or_best (some b) bids = some b
or_best none bids = min_by bids

unfoldable pub select_winning_bid : Bids → List Text → Option Text → Option MissionBidMessage
select_winning_bid bids required preferred =
    let able = eligible required bids in or_best (find_preferred preferred able) able

abbrev pub is_empty : List Text → Bool
is_empty [] = true
is_empty (t ∷ ts) = false

abbrev pub allowed_bid : List Text → (Text → Bool) → MissionBidMessage → Bool
allowed_bid allowed connected b =
    contains allowed b.provider_did
    && (connected b.provider_did || not (is_empty b.provider_multiaddrs))

unfoldable pub filter_allowed : Bids → List Text → (Text → Bool) → Bids
filter_allowed bids allowed connected = filter (allowed_bid allowed connected) bids

-- What the cycle publishes, in order; the node signs each message.
pub data Published : Type 0 where
  offer : MissionOfferMessage → Published
  assign : Text → Text → Published

abbrev pub or_default : {A : Type 0} → Option A → A → A
or_default (some a) d = a
or_default none d = d

abbrev pub allow : Option (List Text) → (Text → Bool) → Bids → Bids
allow none connected bids = bids
allow (some allowed) connected bids = filter_allowed bids allowed connected

unfoldable pub offer_of : Text → List Text → MissionRequest → MissionOfferMessage
offer_of mission_id multiaddrs request = record {
  mission_id = mission_id;
  navigator_did = [];
  navigator_multiaddrs = multiaddrs;
  mission_type = request.mission_type;
  required_capabilities = request.required_capabilities;
  preferred_model = or_default request.preferred_model [];
  scope = [];
  bid_deadline_ms = request.bid_deadline_ms;
  timestamp = pos 0;
  signature = [];
}

-- the end of the cycle, with the winner or without one
abbrev pub concluded :
    Published → Text → Option MissionBidMessage → List Published × Option WinningBid
concluded first mission_id none = (first ∷ [], none)
concluded first mission_id (some winner) = (
  first ∷ assign mission_id winner.provider_did ∷ [],
  some (record { mission_id = mission_id; bid = winner }),
)

-- `collected` is what `bids.collect` answers for the id, and `fresh_id` a new UUID.
unfoldable pub run_mission_cycle :
    Text
    → List Text
    → (Text → Bids)
    → (Text → Bool)
    → MissionRequest
    → List Published × Option WinningBid
run_mission_cycle fresh_id multiaddrs collected connected request =
    let mission_id = or_default request.mission_id fresh_id in
    let bids = allow request.allowed_provider_dids connected (collected mission_id) in
    concluded (offer (offer_of mission_id multiaddrs request)) mission_id
      (select_winning_bid bids request.required_capabilities request.preferred_provider)

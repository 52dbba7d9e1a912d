-- ===== src/Node/Collector.antt =====
-- `BidCollector` of rust/fhs/src/p2p/node.rs: the bids of a mission while its window is open. The
-- lock makes each call one step; `collect` opens a window, waits, and closes it.
pub mod Replay
pub mod Early
use galax_ia_sdk.Prelude.{
  ℕ, Bool, true, false, Option, none, some, List, [], ◌∷◌, ◌++◌, any, if◌then◌else◌,
}
use galax_ia_sdk.Prelude.Dict.{Dict, get, insert, remove, list_key}
use galax_ia_sdk.Prelude.Lex.{list_eq}
use galax_ia_sdk.Text.{Text}
use galax_ia_sdk.Protocol.{MissionBidMessage}
use galax_ia_sdk.Mission.{Bids}

pub record OpenBidWindow : Type 0 where
  pub bids : Bids
  pub preferred_provider : Option Text

abbrev pub BidCollector : Type 0
BidCollector = Dict Text OpenBidWindow

-- the start of `collect`
unfoldable pub open_window : BidCollector → Text → Option Text → BidCollector
open_window windows mission_id preferred =
    insert mission_id (record { bids = []; preferred_provider = preferred }) windows

abbrev pub bid_of : Text → MissionBidMessage → Bool
bid_of did b = list_eq b.provider_did did

unfoldable pub preferred_arrived : OpenBidWindow → Bool
preferred_arrived window = elim window.preferred_provider [
  | none ↦ false
  | some preferred ↦ any (bid_of preferred) window.bids
]

-- one turn of the loop of `collect` before it waits: whether it stops
abbrev pub stops : Option OpenBidWindow → Bool
stops none = true
stops (some window) = preferred_arrived window

abbrev pub bids_or_none : Option OpenBidWindow → Bids
bids_or_none none = []
bids_or_none (some window) = window.bids

-- the end of `collect`
unfoldable pub close_window : BidCollector → Text → BidCollector × Bids
close_window windows mission_id = (remove mission_id windows, bids_or_none (get mission_id windows))

abbrev pub push : MissionBidMessage → OpenBidWindow → OpenBidWindow
push bid window = record {
  bids = window.bids ++ bid ∷ [];
  preferred_provider = window.preferred_provider;
}

abbrev pub deliver_to :
    BidCollector → MissionBidMessage → Option OpenBidWindow → BidCollector × Bool
deliver_to windows bid none = (windows, false)
deliver_to windows bid (some window) = (insert bid.mission_id (push bid window) windows, true)

unfoldable pub deliver : BidCollector → MissionBidMessage → BidCollector × Bool
deliver windows bid = deliver_to windows bid (get bid.mission_id windows)

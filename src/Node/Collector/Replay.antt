-- ===== src/Node/Collector/Replay.antt =====
-- The collector against its specification: a function from missions to the bids of open windows.
use galax_ia_sdk.Prelude.{
  ◌≡◌, refl, ap, ◌∙◌, sym, Bool, true, false, Option, none, some, List, [], ◌∷◌, ◌++◌,
  if◌then◌else◌, Bool-cases, inl, inr,
}
use galax_ia_sdk.Prelude.Dict.{get, list_key, get-insert, get-remove}
use galax_ia_sdk.Prelude.Lex.{list_eq, list_eq_iff}
use galax_ia_sdk.Text.{Text}
use galax_ia_sdk.Protocol.{MissionBidMessage}
use galax_ia_sdk.Mission.{Bids}
use galax_ia_sdk.Node.Collector.{
  OpenBidWindow, BidCollector, open_window, close_window, deliver, deliver_to, push, bids_or_none,
}

-- A call of one of the tasks that share the collector.
pub data Call : Type 0 where
  opens : Text → Option Text → Call
  delivers : MissionBidMessage → Call
  closes : Text → Call

-- What a call answers: whether a bid found its window, and the bids of a closed one.
pub data Answer : Type 0 where
  opened : Answer
  delivered : Bool → Answer
  closed : Bids → Answer

abbrev pub call : BidCollector → Call → BidCollector × Answer
call c (opens mission preferred) = (open_window c mission preferred, opened)
call c (delivers bid) = let r = deliver c bid in (r.0, delivered r.1)
call c (closes mission) = let r = close_window c mission in (r.0, closed r.1)

abbrev pub run : BidCollector → List Call → BidCollector × List Answer
run c [] = (c, [])
run c (k ∷ ks) = let r = call c k in let more = run r.0 ks in (more.0, r.1 ∷ more.1)

-- The specification: each mission has a window or none.
abbrev pub Windows : Type 0
Windows = Text → Option OpenBidWindow

abbrev pub set : Windows → Text → Option OpenBidWindow → Windows
set s k o j = if list_eq k j then o else s j

abbrev pub pushed : MissionBidMessage → Option OpenBidWindow → Option OpenBidWindow
pushed bid none = none
pushed bid (some window) =
    some (record { bids = window.bids ++ bid ∷ []; preferred_provider = window.preferred_provider })

abbrev pub is_open : Option OpenBidWindow → Bool
is_open none = false
is_open (some window) = true

-- the bids that wait in a window
abbrev pub waiting : Option OpenBidWindow → Bids
waiting none = []
waiting (some window) = window.bids

abbrev pub spec_call : Windows → Call → Windows × Answer
spec_call s (opens mission preferred) =
    (set s mission (some (record { bids = []; preferred_provider = preferred })), opened)
spec_call s (delivers bid) =
    (set s bid.mission_id (pushed bid (s bid.mission_id)), delivered (is_open (s bid.mission_id)))
spec_call s (closes mission) = (set s mission none, closed (waiting (s mission)))

abbrev pub spec_run : Windows → List Call → Windows × List Answer
spec_run s [] = (s, [])
spec_run s (k ∷ ks) = let r = spec_call s k in let more = spec_run r.0 ks in (more.0, r.1 ∷ more.1)

-- The collector holds what the specification says.
abbrev pub Holds : BidCollector → Windows → Type 0
Holds c s = (k : Text) → get k c ≡ s k

deliver_to-Holds :
    (c : BidCollector) (bid : MissionBidMessage) (o : Option OpenBidWindow) (k : Text)
    → get bid.mission_id c ≡ o
    → get k (deliver_to c bid o).0 ≡ (if list_eq bid.mission_id k then pushed bid o else get k c)
deliver_to-Holds c bid none k e = elim (Bool-cases (list_eq bid.mission_id k)) [
  | inl same ↦ rw same (ap (λ j. get j c) (sym ((list_eq_iff bid.mission_id k).0 same)) ∙ e)
  | inr other ↦ rw other refl
]
deliver_to-Holds c bid (some w) k e = get-insert bid.mission_id k (push bid w) c

delivered-is_open :
    (c : BidCollector) (bid : MissionBidMessage) (o : Option OpenBidWindow)
    → (deliver_to c bid o).1 ≡ is_open o
delivered-is_open c bid none = refl
delivered-is_open c bid (some w) = refl

bids_or_none-waiting : (o : Option OpenBidWindow) → bids_or_none o ≡ waiting o
bids_or_none-waiting none = refl
bids_or_none-waiting (some w) = refl

set-agrees :
    (c : BidCollector) (s : Windows) (k : Text) (o : Option OpenBidWindow) (j : Text)
    → Holds c s
    → (if list_eq k j then o else get j c) ≡ set s k o j
set-agrees c s k o j h = ap (λ x. if list_eq k j then o else x) (h j)

call-Holds :
    (c : BidCollector) (s : Windows) (k : Call)
    → Holds c s
    → Holds (call c k).0 (spec_call s k).0 × ((call c k).1 ≡ (spec_call s k).1)
unfolding open_window close_window deliver
call-Holds c s (opens m preferred) h =
    let w : OpenBidWindow = record { bids = []; preferred_provider = preferred } in
    ((λ j. get-insert m j w c ∙ set-agrees c s m (some w) j h), refl)
call-Holds c s (closes m) h = (
  (λ j. get-remove m j c ∙ set-agrees c s m none j h),
  ap closed (bids_or_none-waiting (get m c) ∙ ap waiting (h m)),
)
call-Holds c s (delivers bid) h = (
  (λ j.
      deliver_to-Holds c bid (get bid.mission_id c) j refl
      ∙ ap (λ o. if list_eq bid.mission_id j then pushed bid o else get j c) (h bid.mission_id)
      ∙ set-agrees c s bid.mission_id (pushed bid (s bid.mission_id)) j h),
  ap delivered (delivered-is_open c bid (get bid.mission_id c) ∙ ap is_open (h bid.mission_id)),
)

-- A run of calls on a collector that holds what a specification says gives the answers of the
-- specification, and ends in a collector that holds what the specification then says.
pub run-Holds :
    (calls : List Call) (c : BidCollector) (s : Windows)
    → Holds c s
    → ((run c calls).1 ≡ (spec_run s calls).1) × Holds (run c calls).0 (spec_run s calls).0
run-Holds [] c s h = (refl, h)
run-Holds (k ∷ ks) c s h =
    let (h', same) = call-Holds c s k h in
    let (answers, h'') = run-Holds ks (call c k).0 (spec_call s k).0 h' in
    ((λ i. same i ∷ answers i), h'')

-- Calls of others: none opens or closes the window of the mission.
abbrev pub LeavesOpen : Text → Call → Type 0
LeavesOpen m (opens mission preferred) = list_eq mission m ≡ false
LeavesOpen m (closes mission) = list_eq mission m ≡ false
LeavesOpen m (delivers bid) = Unit

-- the bids of a mission among the calls, in their order
unfoldable pub bids_for : Text → List Call → Bids
bids_for m [] = []
bids_for m (opens mission preferred ∷ ks) = bids_for m ks
bids_for m (closes mission ∷ ks) = bids_for m ks
bids_for m (delivers bid ∷ ks) =
    let rest = bids_for m ks in if list_eq bid.mission_id m then bid ∷ rest else rest

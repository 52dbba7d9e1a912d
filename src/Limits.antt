-- ===== src/Limits.antt =====
-- rust/fhs/src/p2p/limits.rs: admission of inbound streams. A `PeerId` is only compared for
-- equality, so a number stands for it. The mutex makes each call one step on the state.
pub mod Admission
pub mod Reach
use galax_ia_sdk.Prelude.{ℕ, ◌+◌, Bool, Option, none, some, List, leb, if◌then◌else◌}
use galax_ia_sdk.Prelude.Result.{Result, ok, err, checked_sub}
use galax_ia_sdk.Prelude.Dict.{Dict, get, insert, remove, ◌==◌, nat_key}

abbrev pub PeerId : Type 0
PeerId = ℕ

abbrev pub max_inbound_streams : ℕ
max_inbound_streams = 64

abbrev pub max_inbound_streams_per_peer : ℕ
max_inbound_streams_per_peer = 8

pub data Rejected : Type 0 where
  node_full : ℕ → Rejected
  peer_full : ℕ → Rejected

-- the fields behind the mutex of `StreamLimiter`
pub record State : Type 0 where
  pub total : ℕ
  pub per_peer : Dict PeerId ℕ

-- A permit names the peer whose place it holds.
pub record StreamPermit : Type 0 where
  pub peer : PeerId

abbrev pub init : State
init = record { total = 0; per_peer = List.[] }

-- `per_peer.get(&peer).copied().unwrap_or(0)`
abbrev pub or_zero : Option ℕ → ℕ
or_zero none = 0
or_zero (some n) = n

unfoldable pub open_of : State → PeerId → ℕ
open_of s peer = or_zero (get peer s.per_peer)

-- The state comes back beside the verdict: a rejection leaves it as it was.
unfoldable pub try_admit : State → PeerId → State × Result StreamPermit Rejected
unfolding open_of
try_admit s peer =
    if leb max_inbound_streams s.total
    then (s, err (node_full s.total))
    else if leb max_inbound_streams_per_peer (open_of s peer)
    then (s, err (peer_full (open_of s peer)))
    else (
      record { total = s.total + 1; per_peer = insert peer (open_of s peer + 1) s.per_peer },
      ok (record { peer = peer }),
    )

-- the entry of a peer with `left` places; the last place takes the entry with it
unfoldable pub give_back : Dict PeerId ℕ → PeerId → ℕ → Dict PeerId ℕ
give_back m peer left = if left == 0 then remove peer (insert peer left m) else insert peer left m

-- what `drop` does with the entry of the peer
unfoldable pub release_entry : Dict PeerId ℕ → PeerId → Option ℕ → Option (Dict PeerId ℕ)
release_entry m peer none = some m
release_entry m peer (some n) = elim (checked_sub n 1) [
  | none ↦ none
  | some left ↦ some (give_back m peer left)
]

abbrev with_entries : ℕ → Option (Dict PeerId ℕ) → Option State
with_entries left none = none
with_entries left (some m) = some (record { total = left; per_peer = m })

-- `Drop for StreamPermit`; `none` is a subtraction that overflows
unfoldable pub drop : State → StreamPermit → Option State
unfolding release_entry
drop s permit = elim (checked_sub s.total 1) [
  | none ↦ none
  | some left ↦
      with_entries left (release_entry s.per_peer permit.peer (get permit.peer s.per_peer))
]

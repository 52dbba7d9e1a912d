-- ===== src/Client/Dial.antt =====
-- `dial_provider` of rust/fhs/src/p2p/client.rs.
use galax_ia_sdk.Prelude.{
  ℕ, Bool, true, false, Option, none, some, List, [], ◌∷◌, ◌++◌, ◌==◌, if◌then◌else◌,
}
use galax_ia_sdk.Prelude.Result.{Result, ok, err}
use galax_ia_sdk.Prelude.Sort.{sort_on}
use galax_ia_sdk.Text.{Text}
use galax_ia_sdk.Limits.{PeerId}
use galax_ia_sdk.Node.{Multiaddr, peer_id_of}
use galax_ia_sdk.Client.{
  Failure, invalid_multiaddr, other_peer_id, reached_other, dial_error, no_answer, bad_did,
  no_addresses, failures, MissionError, not_dialled, is_loopback,
}

-- the end of `node.dial` under the time limit of an attempt
pub data Dialled : Type 0 where
  reached : PeerId → Dialled
  refused : Text → Dialled
  silent : Dialled

-- What the node answers: the peer id of a DID, its live connections, the parser of multiaddresses
-- and the outcome of a dial.
pub record Network : Type 0 where
  pub peer_id_of_did : Text → Result PeerId Text
  pub is_connected : PeerId → Bool
  pub parse : Text → Option Multiaddr
  pub dial : Multiaddr → Dialled

-- `sort_by_key` on a Bool: false before true
abbrev pub loopback_key : Text → List ℕ
loopback_key addr = if is_loopback addr then 1 ∷ [] else 0 ∷ []

unfoldable pub ordered : List Text → List Text
ordered addrs = sort_on loopback_key addrs

-- an attempt fails, or reaches a peer
pub data Attempt : Type 0 where
  failed : Failure → Attempt
  success : PeerId → Attempt

abbrev pub judge : Text → PeerId → Dialled → Attempt
judge raw expected (reached peer) =
    if peer == expected then success peer else failed (reached_other raw peer)
judge raw expected (refused error) = failed (dial_error raw error)
judge raw expected silent = failed (no_answer raw)

-- the address names another peer than the expected one
abbrev pub names_other : PeerId → Option PeerId → Bool
names_other expected none = false
names_other expected (some peer) = if peer == expected then false else true

module _ (n : Network) where
  -- The attempt at one address, and the addresses that it dials: one or none.
  abbrev pub attempt_at : Text → PeerId → Option Multiaddr → Attempt × List Multiaddr
  attempt_at raw expected none = (failed (invalid_multiaddr raw), [])
  attempt_at raw expected (some addr) =
      if names_other expected (peer_id_of addr)
      then (failed (other_peer_id raw), [])
      else (judge raw expected (n.dial addr), addr ∷ [])

  pub record Dials : Type 0 where
    pub result : Result PeerId (List Failure)
    pub dialled : List Multiaddr

  abbrev pub add_failure : Failure → Result PeerId (List Failure) → Result PeerId (List Failure)
  add_failure f (ok peer) = ok peer
  add_failure f (err fs) = err (f ∷ fs)

  abbrev pub then_dials : Attempt × List Multiaddr → Dials → Dials
  then_dials (success peer, dialled) rest = record { result = ok peer; dialled = dialled }
  then_dials (failed f, dialled) rest = record {
    result = add_failure f rest.result;
    dialled = dialled ++ rest.dialled;
  }

  unfoldable pub try_all : PeerId → List Text → Dials
  try_all expected [] = record { result = err []; dialled = [] }
  try_all expected (raw ∷ raws) =
      then_dials (attempt_at raw expected (n.parse raw)) (try_all expected raws)

  abbrev pub of_failures : Text → Result PeerId (List Failure) → Result PeerId MissionError
  of_failures provider (ok peer) = ok peer
  of_failures provider (err fs) = err (not_dialled provider (failures fs))

  abbrev pub dial_addrs : Text → PeerId → List Text → Result PeerId MissionError × List Multiaddr
  dial_addrs provider expected [] = (err (not_dialled provider no_addresses), [])
  dial_addrs provider expected (a ∷ addrs) =
      let d = try_all expected (ordered (a ∷ addrs)) in (of_failures provider d.result, d.dialled)

  abbrev pub dial_expected :
      Text → List Text → Result PeerId Text → Result PeerId MissionError × List Multiaddr
  dial_expected provider addrs (err detail) = (err (not_dialled provider (bad_did detail)), [])
  dial_expected provider addrs (ok expected) =
      if n.is_connected expected then (ok expected, []) else dial_addrs provider expected addrs

  -- the result, and the addresses dialled in their order
  unfoldable pub dial_provider : Text → List Text → Result PeerId MissionError × List Multiaddr
  dial_provider provider addrs = dial_expected provider addrs (n.peer_id_of_did provider)

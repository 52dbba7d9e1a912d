-- ===== src/Node/Handle.antt =====
-- `NodeHandle` of rust/fhs/src/p2p/node.rs, as the other tasks of the node call it.
use galax_ia_sdk.Prelude.{ℕ, Bool, Option, none, some}
use galax_ia_sdk.Prelude.Result.{Result, ok, err}
use galax_ia_sdk.Text.{Text}
use galax_ia_sdk.Limits.{PeerId, Rejected, StreamPermit, try_admit}
use galax_ia_sdk.Limits as Limits
use galax_ia_sdk.Node.State.{Actor, member}

abbrev pub dial_timeout_seconds : ℕ
dial_timeout_seconds = 10

-- how the wait for the answer to a dial ends: the command or its reply has no other end, the time
-- is up, or the actor answers
pub data Waited : Type 0 where
  no_actor : Waited
  dropped : Waited
  timed_out : Waited
  answered : Result PeerId Text → Waited

pub data DialError : Type 0 where
  stopped : DialError
  no_answer : ℕ → DialError
  refused : Text → DialError

abbrev pub dial_outcome : Waited → Result PeerId DialError
dial_outcome no_actor = err stopped
dial_outcome dropped = err stopped
dial_outcome timed_out = err (no_answer dial_timeout_seconds)
dial_outcome (answered (ok peer)) = ok peer
dial_outcome (answered (err why)) = err (refused why)

abbrev pub is_connected : Actor → PeerId → Bool
is_connected a peer = member peer a.connected

abbrev pub permit_of : Result StreamPermit Rejected → Option StreamPermit
permit_of (ok permit) = some permit
permit_of (err rejected) = none

-- a place among the streams that come in, if there is one
unfoldable pub admit_stream : Limits.State → PeerId → Limits.State × Option StreamPermit
admit_stream s peer = let t = try_admit s peer in (t.0, permit_of t.1)

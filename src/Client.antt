-- ===== src/Client.antt =====
-- rust/fhs/src/p2p/client.rs: a mission from end to end, as the navigator runs it. What the network
-- answers is an argument: the outcome of each dial, of a stream and of each write, and the envelopes
-- that `read_verified` yields. A message is formatted at the end, so an error keeps its parts.
pub mod Dial
pub mod Session
pub mod Calls
pub mod Order
pub mod Reached
pub mod Called
pub mod Sends
pub mod Chatted
use galax_ia_sdk.Prelude.{
  ℕ, Bool, true, false, Option, none, some, List, [], ◌∷◌, get_elem?, if◌then◌else◌, ◌||◌,
}
use galax_ia_sdk.Prelude.Lex.{list_eq}
use galax_ia_sdk.Text.{Text, codes}
use galax_ia_sdk.Commands.Registry.{split_on}
use galax_ia_sdk.Framing.{FrameError}
use galax_ia_sdk.Limits.{PeerId}
use galax_ia_sdk.Signing.{strip_prefix}

-- why one address was not taken
pub data Failure : Type 0 where
  invalid_multiaddr : Text → Failure
  other_peer_id : Text → Failure
  reached_other : Text → PeerId → Failure
  dial_error : Text → Text → Failure
  no_answer : Text → Failure

pub data DialDetail : Type 0 where
  bad_did : Text → DialDetail
  no_addresses : DialDetail
  failures : List Failure → DialDetail

-- what `payload_case` names
pub data Case : Type 0 where
  case_nothing : Case
  case_handshake_ack : Case
  case_error : Case
  case_chat_delta : Case
  case_chat_completed : Case
  case_chat_error : Case
  case_dispatch_ack : Case
  case_tool_result : Case
  case_tool_error : Case
  case_other : Case

pub data UnexpectedDetail : Type 0 where
  not_handshake_ack : Case → UnexpectedDetail
  signed_by_other : Text → UnexpectedDetail
  of_other_mission : UnexpectedDetail

pub data MissionError : Type 0 where
  no_bids : Text → MissionError
  not_dialled : Text → DialDetail → MissionError
  no_stream : Text → Text → MissionError
  frame : FrameError → MissionError
  closed : Text → MissionError
  unexpected : Text → UnexpectedDetail → MissionError
  remote : Text → Text → MissionError
  timeout : Text → MissionError

-- `nth(2).unwrap_or_default()`
abbrev pub or_empty_text : Option Text → Text
or_empty_text none = []
or_empty_text (some t) = t

abbrev pub starts : Option Text → Bool
starts none = false
starts (some rest) = true

abbrev pub loopback_host : Text → Bool
loopback_host host =
    list_eq host (codes "localhost")
    || list_eq host (codes "::1")
    || starts (strip_prefix (codes "127.") host)

unfoldable pub is_loopback : Text → Bool
is_loopback addr = loopback_host (or_empty_text (get_elem? (split_on 47 [] addr) 2))

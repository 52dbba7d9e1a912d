-- ===== src/Client/Session.antt =====
-- `open_session` of rust/fhs/src/p2p/client.rs. Their frames are lists of what
-- was sent to which peer.
use galax_ia_sdk.Prelude.{
  ℕ, Bool, true, false, Option, none, some, List, [], ◌∷◌, ◌++◌, if◌then◌else◌,
}
use galax_ia_sdk.Prelude.Result.{Result, ok, err}
use galax_ia_sdk.Text.{Text}
use galax_ia_sdk.Protocol.{DynamicValue, Envelope}
use galax_ia_sdk.Framing.{FrameError}
use galax_ia_sdk.Limits.{PeerId}
use galax_ia_sdk.Client.{
  Case, case_nothing, case_handshake_ack, case_error, case_chat_delta, case_chat_completed,
  case_chat_error, case_dispatch_ack, case_tool_result, case_tool_error, case_other, MissionError,
  no_stream, frame, closed, unexpected, not_handshake_ack, timeout,
}
use galax_ia_sdk.Client.Dial.{Network, dial_provider}

-- The payloads that the client reads, with the fields that it reads; a call of a tool that a model
-- asks for is named.
pub data Payload : Type 0 where
  handshake_ack : Payload
  error : Text → Payload
  chat_delta : Text → Payload
  chat_completed : Text → List Text → Payload
  chat_error : Text → Payload
  dispatch_ack : Payload
  tool_result : Text → Option DynamicValue → Payload
  tool_error : Text → Payload
  other : Payload

-- What `read_verified` yields, an envelope with the milliseconds since the start.
pub data Received : Type 0 where
  envelope : ℕ → Envelope Payload → Received
  ended : Received
  failed : FrameError → Received

-- What the client writes to its stream.
pub data Sent : Type 0 where
  handshake : Sent
  chat_request : Text → Text → Sent
  tool_call : Text → Text → DynamicValue → Sent

abbrev pub payload_case : Option Payload → Case
payload_case none = case_nothing
payload_case (some handshake_ack) = case_handshake_ack
payload_case (some (error m)) = case_error
payload_case (some (chat_delta d)) = case_chat_delta
payload_case (some (chat_completed content calls)) = case_chat_completed
payload_case (some (chat_error e)) = case_chat_error
payload_case (some dispatch_ack) = case_dispatch_ack
payload_case (some (tool_result mission value)) = case_tool_result
payload_case (some (tool_error e)) = case_tool_error
payload_case (some other) = case_other

-- The stream to a peer: whether it opens, whether each of the two writes works, and what comes in.
pub record Streams : Type 0 where
  pub open_stream : PeerId → Option Text
  pub handshake_write : Option FrameError
  pub request_write : Option FrameError
  pub incoming : PeerId → List Received

-- `none` is a wait that has no end before the time limit.
abbrev pub Waiting : Type 0 → Type 0
Waiting A = Option (Result A MissionError)

abbrev pub is_handshake_ack : Case → Bool
is_handshake_ack case_handshake_ack = true
is_handshake_ack _ = false

-- after the handshake was written
abbrev pub acknowledged : Text → List Received → Waiting (List Received)
acknowledged provider [] = none
acknowledged provider (ended ∷ rest) = some (err (closed provider))
acknowledged provider (failed e ∷ rest) = some (err (frame e))
acknowledged provider (envelope ms e ∷ rest) =
    let kind = payload_case e.payload in
    if is_handshake_ack kind
    then some (ok rest)
    else some (err (unexpected provider (not_handshake_ack kind)))

-- a session with the peer it was opened with, and what was sent on the way
pub record Session : Type 0 where
  pub peer : PeerId
  pub rest : List Received

abbrev pub with_peer : PeerId → Waiting (List Received) → Waiting Session
with_peer peer none = none
with_peer peer (some (err e)) = some (err e)
with_peer peer (some (ok rest)) = some (ok (record { peer = peer; rest = rest }))

abbrev pub Frames : Type 0
Frames = List (PeerId × Sent)

module _ (n : Network) (s : Streams) where
  abbrev pub shake : Text → PeerId → Option FrameError → Frames × Waiting Session
  shake provider peer (some e) = ([], some (err (frame e)))
  shake provider peer none =
      ((peer, handshake) ∷ [], with_peer peer (acknowledged provider (s.incoming peer)))

  abbrev pub stream_to : Text → PeerId → Option Text → Frames × Waiting Session
  stream_to provider peer (some e) = ([], some (err (no_stream provider e)))
  stream_to provider peer none = shake provider peer s.handshake_write

  abbrev pub session_with : Text → Result PeerId MissionError → Frames × Waiting Session
  session_with provider (err e) = ([], some (err e))
  session_with provider (ok peer) = stream_to provider peer (s.open_stream peer)

  unfoldable pub open_session : Text → List Text → Frames × Waiting Session
  open_session provider addrs = session_with provider (dial_provider n provider addrs).0

  abbrev pub write_request :
      Sent → Frames → Session → Option FrameError → Frames × Waiting (List Received)
  write_request request sent session (some e) = (sent, some (err (frame e)))
  write_request request sent session none =
      (sent ++ (session.peer, request) ∷ [], some (ok session.rest))

  -- the request goes out on an open session
  abbrev pub requested : Sent → Frames × Waiting Session → Frames × Waiting (List Received)
  requested request (sent, none) = (sent, none)
  requested request (sent, some (err e)) = (sent, some (err e))
  requested request (sent, some (ok session)) = write_request request sent session s.request_write

-- the answers are read once the request is out
abbrev pub then_read :
    {A : Type 0} → (List Received → Waiting A) → Waiting (List Received) → Waiting A
then_read loop none = none
then_read loop (some (err e)) = some (err e)
then_read loop (some (ok rest)) = loop rest

-- `tokio::time::timeout`
abbrev pub at_limit : {A : Type 0} → Text → Waiting A → Result A MissionError
at_limit provider none = err (timeout provider)
at_limit provider (some r) = r

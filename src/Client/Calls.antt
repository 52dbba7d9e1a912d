-- ===== src/Client/Calls.antt =====
-- `chat` and `call_tool` of rust/fhs/src/p2p/client.rs.
use galax_ia_sdk.Prelude.{ℕ, Bool, Option, none, some, List, [], ◌∷◌, ◌++◌, if◌then◌else◌, not}
use galax_ia_sdk.Prelude.Int.{ℤ, pos}
use galax_ia_sdk.Prelude.Lex.{list_eq}
use galax_ia_sdk.Prelude.Result.{Result, ok, err}
use galax_ia_sdk.Text.{Text, codes}
use galax_ia_sdk.Protocol.{DynamicValue}
use galax_ia_sdk.Mission.{Bids, MissionRequest, WinningBid, Published, run_mission_cycle}
use galax_ia_sdk.Client.{
  MissionError, no_bids, frame, closed, unexpected, signed_by_other, of_other_mission, remote,
}
use galax_ia_sdk.Client.Dial.{Network}
use galax_ia_sdk.Client.Session.{
  Payload, error, chat_delta, chat_completed, chat_error, dispatch_ack, tool_result, tool_error,
  handshake_ack, other, Received, envelope, ended, failed, Sent, chat_request, tool_call, Streams,
  Waiting, Frames, open_session, requested, then_read, at_limit,
}

pub record ChatOutcome : Type 0 where
  pub content : Text
  pub tool_calls : List Text
  pub provider : Text
  pub dispatch_ms : Option ℕ

pub record ToolOutcome : Type 0 where
  pub result : Option DynamicValue
  pub provider : Text
  pub dispatch_ms : Option ℕ

-- the text so far, or the completed one when nothing came before
abbrev pub or_content : Text → Text → Text
or_content [] completed = completed
or_content (c ∷ content) completed = c ∷ content

-- the deltas that `on_delta` gets, and the result
abbrev pub Shown : Type 0
Shown = List Text × Waiting ChatOutcome

abbrev pub show : Text → Shown → Shown
show [] r = r
show (c ∷ delta) (shown, r) = ((c ∷ delta) ∷ shown, r)

module _ (provider : Text) where
  -- the content and the time so far, and how to go on
  abbrev pub chat_on : (Text → Option ℕ → Shown) → Text → Option ℕ → ℕ → Option Payload → Shown
  chat_on go content dispatch ms (some dispatch_ack) = go content (some ms)
  chat_on go content dispatch ms (some (chat_delta delta)) =
      show delta (go (content ++ delta) dispatch)
  chat_on go content dispatch ms (some (chat_completed completed calls)) = (
    [],
    some (
        ok (record {
          content = or_content content completed;
          tool_calls = calls;
          provider = provider;
          dispatch_ms = dispatch;
        })),
  )
  chat_on go content dispatch ms (some (chat_error e)) = ([], some (err (remote provider e)))
  chat_on go content dispatch ms (some (error m)) = ([], some (err (remote provider m)))
  chat_on go content dispatch ms (some handshake_ack) = go content dispatch
  chat_on go content dispatch ms (some (tool_result mission value)) = go content dispatch
  chat_on go content dispatch ms (some (tool_error e)) = go content dispatch
  chat_on go content dispatch ms (some other) = go content dispatch
  chat_on go content dispatch ms none = go content dispatch

  unfoldable pub chat_loop : Text → Option ℕ → List Received → Shown
  chat_loop content dispatch [] = ([], none)
  chat_loop content dispatch (ended ∷ rest) = ([], some (err (closed provider)))
  chat_loop content dispatch (failed e ∷ rest) = ([], some (err (frame e)))
  chat_loop content dispatch (envelope ms e ∷ rest) =
      chat_on (λ c d. chat_loop c d rest) content dispatch ms e.payload

  module _ (mission_id : Text) where
    abbrev pub call_on :
        (Option ℕ → Waiting ToolOutcome) → Option ℕ → ℕ → Option Payload → Waiting ToolOutcome
    call_on go dispatch ms (some dispatch_ack) = go (some ms)
    call_on go dispatch ms (some (tool_result mission value)) =
        if not (list_eq mission mission_id)
        then some (err (unexpected provider of_other_mission))
        else some (ok (record { result = value; provider = provider; dispatch_ms = dispatch }))
    call_on go dispatch ms (some (tool_error e)) = some (err (remote provider e))
    call_on go dispatch ms (some (error m)) = some (err (remote provider m))
    call_on go dispatch ms (some handshake_ack) = go dispatch
    call_on go dispatch ms (some (chat_delta delta)) = go dispatch
    call_on go dispatch ms (some (chat_completed completed calls)) = go dispatch
    call_on go dispatch ms (some (chat_error e)) = go dispatch
    call_on go dispatch ms (some other) = go dispatch
    call_on go dispatch ms none = go dispatch

    unfoldable pub call_loop : Option ℕ → List Received → Waiting ToolOutcome
    call_loop dispatch [] = none
    call_loop dispatch (ended ∷ rest) = some (err (closed provider))
    call_loop dispatch (failed e ∷ rest) = some (err (frame e))
    call_loop dispatch (envelope ms e ∷ rest) =
        if not (list_eq e.source_peer_id provider)
        then some (err (unexpected provider (signed_by_other e.source_peer_id)))
        else call_on (λ d. call_loop d rest) dispatch ms e.payload

abbrev pub read_chat : Text → Waiting (List Received) → Shown
read_chat provider none = ([], none)
read_chat provider (some (err e)) = ([], some (err e))
read_chat provider (some (ok rest)) = chat_loop provider [] none rest

pub record ChatRequest : Type 0 where
  pub model : Text
  pub preferred_provider : Option Text
  pub allowed_provider_dids : Option (List Text)

pub record ToolRequest : Type 0 where
  pub capability : Text
  pub extra_capabilities : List Text
  pub tool_name : Text
  pub arguments : DynamicValue
  pub preferred_provider : Option Text
  pub mission_id : Option Text
  pub allowed_provider_dids : Option (List Text)

abbrev pub default_bid_deadline_ms : ℤ
default_bid_deadline_ms = pos 2000

abbrev pub model_of : Text → Option Text
model_of [] = none
model_of (c ∷ model) = some (c ∷ model)

abbrev pub chat_mission : ChatRequest → MissionRequest
chat_mission r = record {
  mission_type = codes "chat";
  required_capabilities = codes "chat" ∷ [];
  preferred_model = model_of r.model;
  preferred_provider = r.preferred_provider;
  bid_deadline_ms = default_bid_deadline_ms;
  mission_id = none;
  allowed_provider_dids = r.allowed_provider_dids;
}

abbrev pub tool_mission : ToolRequest → MissionRequest
tool_mission r = record {
  mission_type = codes "tool_call";
  required_capabilities = r.capability ∷ r.extra_capabilities;
  preferred_model = none;
  preferred_provider = r.preferred_provider;
  bid_deadline_ms = default_bid_deadline_ms;
  mission_id = r.mission_id;
  allowed_provider_dids = r.allowed_provider_dids;
}

-- What the node of the client brings to the mission cycle.
pub record Cycle : Type 0 where
  pub fresh_id : Text
  pub multiaddrs : List Text
  pub collected : Text → Bids
  pub connected : Text → Bool

module _ (n : Network) (s : Streams) (y : Cycle) where
  abbrev pub cycle : MissionRequest → List Published × Option WinningBid
  cycle request = run_mission_cycle y.fresh_id y.multiaddrs y.collected y.connected request

  -- the request on a session with the winner
  abbrev pub sent_to : WinningBid → Sent → Frames × Waiting (List Received)
  sent_to w request =
      requested n s request (open_session n s w.bid.provider_did w.bid.provider_multiaddrs)

  abbrev pub chat_with :
      ChatRequest → Option WinningBid → Frames × List Text × Result ChatOutcome MissionError
  chat_with r none = ([], [], err (no_bids (codes "chat")))
  chat_with r (some w) =
      let provider = w.bid.provider_did in
      let (sent, opened) = sent_to w (chat_request w.mission_id r.model) in
      let (shown, result) = read_chat provider opened in (sent, shown, at_limit provider result)

  unfoldable pub chat : ChatRequest → Frames × List Text × Result ChatOutcome MissionError
  chat r = chat_with r (cycle (chat_mission r)).1

  abbrev pub call_with : ToolRequest → Option WinningBid → Frames × Result ToolOutcome MissionError
  call_with r none = ([], err (no_bids r.capability))
  call_with r (some w) =
      let provider = w.bid.provider_did in
      let (sent, opened) = sent_to w (tool_call w.mission_id r.tool_name r.arguments) in
      (sent, at_limit provider (then_read (call_loop provider w.mission_id none) opened))

  unfoldable pub call_tool : ToolRequest → Frames × Result ToolOutcome MissionError
  call_tool r = call_with r (cycle (tool_mission r)).1

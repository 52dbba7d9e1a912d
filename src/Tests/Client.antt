-- ===== src/Tests/Client.antt =====
-- rust/fhs/src/p2p/client.rs on concrete inputs.
use galax_ia_sdk.Prelude.{◌≡◌, refl, true, none, some, List, [], ◌∷◌, All}
use galax_ia_sdk.Prelude.Int.{pos}
use galax_ia_sdk.Prelude.Lex.{list_eq, lex_lt}
use galax_ia_sdk.Prelude.Result.{ok}
use galax_ia_sdk.Prelude.Sort.{sort_on, place}
use galax_ia_sdk.Text.{Text, codes}
use galax_ia_sdk.Protocol.{integer_value, Envelope}
use galax_ia_sdk.Mission.{
  WinningBid, run_mission_cycle, filter_allowed, select_winning_bid, eligible, covers, min_by,
  min_from,
}
use galax_ia_sdk.Commands.Registry.{split_on}
use galax_ia_sdk.Signing.{strip_prefix}
use galax_ia_sdk.Client.{is_loopback}
use galax_ia_sdk.Client.Dial.{Network, reached, dial_provider, ordered}
use galax_ia_sdk.Client.Session.{
  Payload, handshake_ack, dispatch_ack, tool_result, Received, envelope, Streams, open_session,
}
use galax_ia_sdk.Client.Calls.{
  ToolRequest, ToolOutcome, Cycle, call_tool, call_loop, cycle, tool_mission,
}
use galax_ia_sdk.Client.Called.{FromPeer, call_tool-FromPeer}
use galax_ia_sdk.Client.Sends.{Allowed, call_tool-Allowed}
use galax_ia_sdk.Tests.Signing.{bid}

abbrev provider : Text
provider = codes "did:key:zP"

-- a network in which the provider is connected already
abbrev network : Network
network = record {
  peer_id_of_did = λ did. ok 5;
  is_connected = λ peer. true;
  parse = λ t. none;
  dial = λ addr. reached 5;
}

abbrev from_provider : Payload → Envelope Payload
from_provider p = record {
  message_id = [];
  source_peer_id = provider;
  dest_peer_id = [];
  timestamp = pos 0;
  version = [];
  signature = [];
  payload = some p;
}

abbrev answers : List Received
answers =
    envelope 1 (from_provider handshake_ack)
    ∷ envelope 7 (from_provider dispatch_ack)
    ∷ envelope 9 (from_provider (tool_result (codes "m") (some (integer_value (pos 4)))))
    ∷ []

abbrev streams : Streams
streams = record {
  open_stream = λ peer. none;
  handshake_write = none;
  request_write = none;
  incoming = λ peer. answers;
}

abbrev auction : Cycle
auction = record {
  fresh_id = codes "m";
  multiaddrs = [];
  collected = λ id. bid ∷ [];
  connected = λ did. true;
}

abbrev request : ToolRequest
request = record {
  capability = codes "ocr";
  extra_capabilities = [];
  tool_name = codes "read";
  arguments = integer_value (pos 2);
  preferred_provider = none;
  mission_id = none;
  allowed_provider_dids = some (provider ∷ []);
}

abbrev outcome : ToolOutcome
outcome = record {
  result = some (integer_value (pos 4));
  provider = provider;
  dispatch_ms = some 7;
}

call_run : (call_tool network streams auction request).1 ≡ ok outcome
unfolding call_tool call_loop open_session dial_provider run_mission_cycle filter_allowed
    select_winning_bid eligible covers list_eq min_by min_from
call_run = refl

call_tool-FromPeer_example :
    (w : WinningBid) × ((cycle network streams auction (tool_mission request)).1 ≡ some w)
    × FromPeer network streams w outcome
call_tool-FromPeer_example = call_tool-FromPeer network streams auction request outcome call_run

call_tool-Allowed_example :
    All
      (Allowed network streams auction (provider ∷ []))
      (call_tool network streams auction request).0
call_tool-Allowed_example = call_tool-Allowed network streams auction request (provider ∷ []) refl

order_run :
    ordered (
      codes "/ip4/127.0.0.1/tcp/1"
      ∷ codes "/ip4/10.0.0.2/tcp/1"
      ∷ codes "/dns4/localhost/tcp/1"
      ∷ [])
    ≡ codes "/ip4/10.0.0.2/tcp/1"
      ∷ codes "/ip4/127.0.0.1/tcp/1"
      ∷ codes "/dns4/localhost/tcp/1"
      ∷ []
unfolding ordered sort_on place is_loopback lex_lt list_eq strip_prefix split_on
order_run = refl

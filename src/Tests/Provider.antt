-- ===== src/Tests/Provider.antt =====
-- rust/fhs/src/p2p/provider.rs on concrete inputs.
use galax_ia_sdk.Prelude.{
  ◌≡◌, ◌≤◌, ◌++◌, length, replicate, refl, true, false, none, some, List, [], ◌∷◌,
}
use galax_ia_sdk.Prelude.Int.{pos}
use galax_ia_sdk.Prelude.Dict.{get, list_key}
use galax_ia_sdk.Prelude.Lex.{list_eq}
use galax_ia_sdk.Text.{Bytes, codes}
use galax_ia_sdk.Protocol.{MissionOfferMessage, MissionBidMessage}
use galax_ia_sdk.Node.{navigator}
use galax_ia_sdk.Node.Collector.{OpenBidWindow, push}
use galax_ia_sdk.Node.State.{Actor, publishes}
use galax_ia_sdk.Node.Gossip.{Codecs, handle_gossip}
use galax_ia_sdk.Node.Reach.{start}
use galax_ia_sdk.Wire.{own_bid, topic_missions_bid}
use galax_ia_sdk.Provider.{
  BidTerms, new_terms, Provider, reply, send, send_all, Received, envelope, ended, handshake,
  tool_call, run_stream, serve_stream,
}
use galax_ia_sdk.Provider.Bidding.{bid_with, bid_turn, bid_turn-delivered}
use galax_ia_sdk.Limits.{PeerId, max_inbound_streams, max_inbound_streams_per_peer}
use galax_ia_sdk.Limits.Reach.{count}
use galax_ia_sdk.Provider.Serving.{Incoming, arrives, finishes, Serving, serve, serve-limits}
use galax_ia_sdk.Provider.Replies.{Faithful, full_script, run_stream-Faithful}
use galax_ia_sdk.Tests.Signing.{crypto, node, node-Honest}

abbrev terms : BidTerms
terms = new_terms (codes "satellite") (codes "ocr" ∷ []) (pos 50)

abbrev echo : Provider
echo = record {
  bid = λ offer. some terms;
  tools = [];
  handle = λ request. reply (codes "tool_result") (codes "m") ∷ [];
}

abbrev stream : List Received
stream = envelope handshake ∷ envelope (tool_call (codes "m")) ∷ ended ∷ []

run_stream-Faithful_example :
    Faithful
      (run_stream echo (pos 0) stream (true ∷ false ∷ [])).0
      (full_script echo (pos 0) stream)
run_stream-Faithful_example = run_stream-Faithful echo (pos 0) stream (true ∷ false ∷ [])

broken_run : (run_stream echo (pos 0) stream (true ∷ false ∷ [])).0.broken ≡ true
unfolding run_stream serve_stream send_all send
broken_run = refl

abbrev offer : MissionOfferMessage
offer = record {
  mission_id = codes "m";
  navigator_did = [];
  navigator_multiaddrs = [];
  mission_type = codes "tool_call";
  required_capabilities = codes "ocr" ∷ [];
  preferred_model = [];
  scope = [];
  bid_deadline_ms = pos 2000;
  timestamp = pos 0;
  signature = [];
}

abbrev signed : MissionBidMessage
signed = own_bid node (pos 1) (bid_with offer [] terms)

abbrev codecs : Codecs
codecs = record {
  advertise = record { decode = λ b. none; encode = λ m. [] };
  offer = record { decode = λ b. none; encode = λ m. [] };
  bid = record { decode = λ b. some signed; encode = λ m. 1 ∷ [] };
  assign = record { decode = λ b. none; encode = λ m. [] };
}

abbrev window : OpenBidWindow
window = record { bids = []; preferred_provider = none }

abbrev asking : Actor
asking = record (start (codes "did:key:zN") 1 navigator).actor { bids = (codes "m", window) ∷ [] }

window_run : get (codes "m") asking.bids ≡ some window
unfolding get list_eq
window_run = refl

bid_turn-delivered_example :
    (bytes : Bytes) × (bid_turn codecs.bid node (pos 1) [] echo offer
      ≡ publishes topic_missions_bid bytes ∷ [])
    × (get (codes "m") (handle_gossip crypto codecs (pos 2) asking topic_missions_bid bytes).0.bids
        ≡ some (push signed window))
bid_turn-delivered_example =
    bid_turn-delivered crypto codecs node (pos 1) (pos 2) [] echo offer terms asking window
      node-Honest refl refl refl window_run

-- one peer opens nine streams, of which the ninth is dropped; then a task ends and a tenth comes in
abbrev nine : List Incoming
nine = replicate 9 (arrives 7)

serve-limits_example :
    (w : Serving) × (serve
        (nine ++ finishes 3 ∷ arrives 7 ∷ arrives 7 ∷ [])
        galax_ia_sdk.Limits.Reach.start
      ≡ some w)
    × (length w.held ≤ max_inbound_streams)
    × ((q : PeerId) → count q w.held ≤ max_inbound_streams_per_peer)
serve-limits_example = serve-limits (nine ++ finishes 3 ∷ arrives 7 ∷ arrives 7 ∷ [])

-- ===== src/Provider.antt =====
-- rust/fhs/src/p2p/provider.rs: the side of a provider. It bids for offers and answers the requests
-- of a stream. Its own behaviour is the record `Provider`; whether a write works is an argument.
pub mod Bidding
pub mod Replies
pub mod Serving
use galax_ia_sdk.Prelude.{
  ℕ, ◌*◌, Bool, true, false, Option, none, some, List, [], ◌∷◌, ◌++◌, if◌then◌else◌,
}
use galax_ia_sdk.Prelude.Int.{ℤ, pos, ◌+ℤ◌}
use galax_ia_sdk.Prelude.Result.{Result, ok, err}
use galax_ia_sdk.Text.{Text, codes}
use galax_ia_sdk.Protocol.{MissionOfferMessage, MissionBidMessage}
use galax_ia_sdk.PeerCache.{is_empty, one_half}
use galax_ia_sdk.Framing.{FrameError}

abbrev pub lease_seconds : ℕ
lease_seconds = 300

abbrev pub heartbeat_seconds : ℕ
heartbeat_seconds = 30

pub record BidTerms : Type 0 where
  pub provider_type : Text
  pub offered_capabilities : List Text
  pub offered_model : Text
  pub reputation_score : ℕ
  pub estimated_latency_ms : ℤ
  pub trust_level : Text

-- `BidTerms::new`: the score 0.5 is the bit pattern of an f32.
unfoldable pub new_terms : Text → List Text → ℤ → BidTerms
new_terms provider_type capabilities estimated_latency_ms = record {
  provider_type = provider_type;
  offered_capabilities = capabilities;
  offered_model = [];
  reputation_score = 0x3f000000;
  estimated_latency_ms = estimated_latency_ms;
  trust_level = codes "community";
}

-- What the navigator sends on a stream; a request for a chat or for tools is its mission.
pub data Asked : Type 0 where
  handshake : Asked
  chat_request : Text → Asked
  tool_call : Text → Asked
  tool_list : Text → Asked
  ping : Asked
  chat_cancel : Asked
  tool_cancel : Asked
  other : Asked
  nothing : Asked

pub data Request : Type 0 where
  chat : Text → Request
  tools : Text → Request

-- What the provider answers; `reply` is a payload that its own `handle` sends.
pub data Answer : Type 0 where
  handshake_ack : ℤ → Answer
  tool_list_resp : Text → List Text → Answer
  pong : ℤ → Answer
  wrong_first : Answer
  wrong_type : Answer
  reply : Text → Text → Answer

pub record Provider : Type 0 where
  pub bid : MissionOfferMessage → Option BidTerms
  pub tools : List Text
  pub handle : Request → List Answer

-- `Reply`: what has been written, the outcomes of the writes to come, and whether one failed
pub record Reply : Type 0 where
  pub sent : List Answer
  pub writes : List Bool
  pub broken : Bool

abbrev pub write : Answer → List Answer → List Bool → Reply
write a sent [] = record { sent = sent ++ a ∷ []; writes = []; broken = false }
write a sent (true ∷ writes) = record { sent = sent ++ a ∷ []; writes = writes; broken = false }
write a sent (false ∷ writes) = record { sent = sent; writes = writes; broken = true }

unfoldable pub send : Answer → Reply → Reply
send a r = if r.broken then r else write a r.sent r.writes

unfoldable pub send_all : List Answer → Reply → Reply
send_all [] r = r
send_all (a ∷ answers) r = send_all answers (send a r)

-- What `read_verified` yields.
pub data Received : Type 0 where
  envelope : Asked → Received
  ended : Received
  failed : FrameError → Received

-- `none` is a wait for more.
abbrev pub End : Type 0
End = Option (Result Unit FrameError)

-- what the messages of a stream come to: the answers, and whether the stream goes on
pub record Served : Type 0 where
  pub answers : List Answer
  pub goes_on : Bool

module _ (p : Provider) (now : ℤ) where
  abbrev pub serve_one : Asked → Served
  serve_one (chat_request mission) = record { answers = p.handle (chat mission); goes_on = true }
  serve_one (tool_call mission) = record { answers = p.handle (tools mission); goes_on = true }
  serve_one (tool_list mission) = record {
    answers = tool_list_resp mission p.tools ∷ [];
    goes_on = true;
  }
  serve_one ping = record { answers = pong now ∷ []; goes_on = true }
  serve_one chat_cancel = record { answers = []; goes_on = false }
  serve_one tool_cancel = record { answers = []; goes_on = false }
  serve_one handshake = record { answers = wrong_type ∷ []; goes_on = false }
  serve_one other = record { answers = wrong_type ∷ []; goes_on = false }
  serve_one nothing = record { answers = wrong_type ∷ []; goes_on = false }

  abbrev pub done : End
  done = some (ok tt)

  -- one turn of the loop: the loop stops when a write failed
  abbrev pub turn : (Reply → Reply × End) → Bool → Reply → Reply × End
  turn go false r = (r, done)
  turn go true r = if r.broken then (r, done) else go r

  unfoldable pub serve_stream : List Received → Reply → Reply × End
  serve_stream [] r = (r, none)
  serve_stream (ended ∷ rest) r = (r, done)
  serve_stream (failed e ∷ rest) r = (r, some (err e))
  serve_stream (envelope asked ∷ rest) r =
      let one = serve_one asked in
      turn (λ s. serve_stream rest s) one.goes_on (send_all one.answers r)

  abbrev pub first_ack : Answer
  first_ack = handshake_ack (now +ℤ pos (lease_seconds * 1000))

  -- the first message has to be a handshake
  abbrev pub greeted : Asked → List Received → Reply → Reply × End
  greeted handshake rest r = turn (λ s. serve_stream rest s) true (send first_ack r)
  greeted (chat_request mission) rest r = (send wrong_first r, done)
  greeted (tool_call mission) rest r = (send wrong_first r, done)
  greeted (tool_list mission) rest r = (send wrong_first r, done)
  greeted ping rest r = (send wrong_first r, done)
  greeted chat_cancel rest r = (send wrong_first r, done)
  greeted tool_cancel rest r = (send wrong_first r, done)
  greeted other rest r = (send wrong_first r, done)
  greeted nothing rest r = (send wrong_first r, done)

  unfoldable pub run_stream : List Received → List Bool → Reply × End
  run_stream rs writes = first rs (record { sent = []; writes = writes; broken = false })
    where
      first : List Received → Reply → Reply × End
      first [] r = (r, none)
      first (ended ∷ rest) r = (r, done)
      first (failed e ∷ rest) r = (r, some (err e))
      first (envelope asked ∷ rest) r = greeted asked rest r

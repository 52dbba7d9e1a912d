-- ===== src/Client/Called.antt =====
-- Whose answer a call of a tool returns.
use galax_ia_sdk.Prelude.{
  ℕ, ◌≡◌, refl, ap, ◌∙◌, sym, subst, Bool, true, false, Option, none, some, List, [], ◌∷◌,
  if◌then◌else◌, not,
}
use galax_ia_sdk.Prelude.Lex.{list_eq, list_eq_iff}
use galax_ia_sdk.Prelude.Result.{Result, ok, err}
use galax_ia_sdk.Text.{Text}
use galax_ia_sdk.Protocol.{DynamicValue, Envelope}
use galax_ia_sdk.Limits.{PeerId}
use galax_ia_sdk.Framing.{FrameError}
use galax_ia_sdk.Mission.{WinningBid}
use galax_ia_sdk.Client.{MissionError}
use galax_ia_sdk.Client.Dial.{Network, dial_provider}
use galax_ia_sdk.Client.Reached.{dial_provider-expected}
use galax_ia_sdk.Client.Session.{
  Payload, handshake_ack, error, chat_delta, chat_completed, chat_error, dispatch_ack, tool_result,
  tool_error, other, Received, envelope, ended, failed, Sent, tool_call, Streams, Waiting, Session,
  Frames, open_session, session_with, stream_to, shake, with_peer, acknowledged, requested,
  write_request, then_read, at_limit, is_handshake_ack, payload_case,
}
use galax_ia_sdk.Client.Calls.{
  ToolOutcome, ToolRequest, Cycle, call_on, call_loop, call_with, call_tool, cycle, tool_mission,
}

-- The envelope that a tool outcome comes from: signed by the provider, with the result of the
-- mission.
pub data Answered (provider mission_id : Text) (result : Option DynamicValue)
    : List Received → Type 0 where
  here :
      (ms : ℕ) (e : Envelope Payload) (rest : List Received)
      → e.source_peer_id ≡ provider
      → e.payload ≡ some (tool_result mission_id result)
      → Answered provider mission_id result (envelope ms e ∷ rest)
  later :
      (r : Received) {rest : List Received}
      → Answered provider mission_id result rest
      → Answered provider mission_id result (r ∷ rest)

module _ (provider mission_id : Text) where
  abbrev From : ToolOutcome → List Received → Type 0
  From o rs = (o.provider ≡ provider) × Answered provider mission_id o.result rs

  of_negated : (b : Bool) → not b ≡ false → b ≡ true
  of_negated true e = refl
  of_negated false e = cc

  some_ok : {x y : ToolOutcome} → Path (Waiting ToolOutcome) (some (ok x)) (some (ok y)) → x ≡ y
  some_ok q = cc

  unguarded :
      (b : Bool) (e : MissionError) (r : Waiting ToolOutcome) (o : ToolOutcome)
      → (if b then some (err e) else r) ≡ some (ok o)
      → (b ≡ false) × (r ≡ some (ok o))
  unguarded true e r o q = cc
  unguarded false e r o q = (refl, q)

  skip_one : (r : Received) {rs : List Received} (o : ToolOutcome) → From o rs → From o (r ∷ rs)
  skip_one r o (p, a) = (p, later r a)

  call_on-From :
      (rest : List Received) (dispatch : Option ℕ) (ms : ℕ) (e : Envelope Payload)
      (p : Option Payload) (o : ToolOutcome)
      → e.source_peer_id ≡ provider
      → e.payload ≡ p
      → ((d : Option ℕ) → call_loop provider mission_id d rest ≡ some (ok o) → From o rest)
      → call_on provider mission_id (λ d. call_loop provider mission_id d rest) dispatch ms p
        ≡ some (ok o)
      → From o (envelope ms e ∷ rest)
  call_on-From rest dispatch ms e (some (tool_result mission value)) o src q ih h =
      let (same, r) = unguarded (not (list_eq mission mission_id)) _ _ o h in
      let mine : mission ≡ mission_id =
        (list_eq_iff mission mission_id).0 (of_negated (list_eq mission mission_id) same) in
      let got = some_ok r in
      (
        sym (ap (λ x. x.provider) got),
        here ms e rest src (
            q
            ∙ ap (λ x. some (tool_result x value)) mine
            ∙ ap (λ x. some (tool_result mission_id x.result)) got),
      )
  call_on-From rest dispatch ms e (some dispatch_ack) o src q ih h =
      skip_one (envelope ms e) o (ih (some ms) h)
  call_on-From rest dispatch ms e (some (tool_error m)) o src q ih h = cc
  call_on-From rest dispatch ms e (some (error m)) o src q ih h = cc
  call_on-From rest dispatch ms e (some handshake_ack) o src q ih h =
      skip_one (envelope ms e) o (ih dispatch h)
  call_on-From rest dispatch ms e (some (chat_delta d)) o src q ih h =
      skip_one (envelope ms e) o (ih dispatch h)
  call_on-From rest dispatch ms e (some (chat_completed x y)) o src q ih h =
      skip_one (envelope ms e) o (ih dispatch h)
  call_on-From rest dispatch ms e (some (chat_error m)) o src q ih h =
      skip_one (envelope ms e) o (ih dispatch h)
  call_on-From rest dispatch ms e (some other) o src q ih h =
      skip_one (envelope ms e) o (ih dispatch h)
  call_on-From rest dispatch ms e none o src q ih h = skip_one (envelope ms e) o (ih dispatch h)

  -- The loop returns only a result of the mission in an envelope of the provider.
  pub call_loop-Answered :
      (rs : List Received) (dispatch : Option ℕ) (o : ToolOutcome)
      → call_loop provider mission_id dispatch rs ≡ some (ok o)
      → (o.provider ≡ provider) × Answered provider mission_id o.result rs
  unfolding call_loop
  call_loop-Answered [] dispatch o h = cc
  call_loop-Answered (ended ∷ rest) dispatch o h = cc
  call_loop-Answered (failed e ∷ rest) dispatch o h = cc
  call_loop-Answered (envelope ms e ∷ rest) dispatch o h =
      let (mine, r) = unguarded (not (list_eq e.source_peer_id provider)) _ _ o h in
      call_on-From rest dispatch ms e e.payload o
        ((list_eq_iff e.source_peer_id provider).0
          (of_negated (list_eq e.source_peer_id provider) mine))
        refl (λ d q. call_loop-Answered rest d o q) r

module _ (n : Network) (s : Streams) where
  -- A session reads on behind one frame of the peer of the DID.
  abbrev Reads : Text → Frames × Waiting Session → Type 0
  Reads did r =
      (x : Session)
      → r.1 ≡ some (ok x)
      → (n.peer_id_of_did did ≡ ok x.peer) × (ack : Received) × (s.incoming x.peer ≡ ack ∷ x.rest)

  ok_some : {A : Type 0} (a b : A) → Path (Waiting A) (some (ok a)) (some (ok b)) → a ≡ b
  ok_some a b q = cc

  acknowledged-rest :
      (did : Text) (rs rest : List Received)
      → acknowledged did rs ≡ some (ok rest)
      → (ack : Received) × (rs ≡ ack ∷ rest)
  acknowledged-rest did [] rest h = cc
  acknowledged-rest did (ended ∷ rs) rest h = cc
  acknowledged-rest did (failed e ∷ rs) rest h = cc
  acknowledged-rest did (envelope ms e ∷ rs) rest h =
      go (is_handshake_ack (payload_case e.payload)) _ h
    where
      go :
          (b : Bool) (w : MissionError)
          → Path
              (Waiting (List Received))
              (if b then some (ok rs) else some (err w))
              (some (ok rest))
          → (ack : Received) × (Path (List Received) (envelope ms e ∷ rs) (ack ∷ rest))
      go true w q = (envelope ms e, ap (◌∷◌ (envelope ms e)) (cc))
      go false w q = cc

  shake-Reads :
      (did : Text) (peer : PeerId) (o : Option FrameError)
      → n.peer_id_of_did did ≡ ok peer
      → Reads did (shake n s did peer o)
  shake-Reads did peer (some e) h x q = cc
  shake-Reads did peer none h x q = go (acknowledged did (s.incoming peer)) refl q
    where
      go :
          (r : Waiting (List Received))
          → acknowledged did (s.incoming peer) ≡ r
          → with_peer peer r ≡ some (ok x)
          → (n.peer_id_of_did did ≡ ok x.peer)
            × (ack : Received) × (s.incoming x.peer ≡ ack ∷ x.rest)
      go none e q = cc
      go (some (err w)) e q = cc
      go (some (ok rest)) e q =
          let same = ok_some (record { peer = peer; rest = rest }) x q in
          let (ack, all) = acknowledged-rest did (s.incoming peer) rest e in
          (
            h ∙ ap (λ y. ok y.peer) same,
            ack,
            ap (λ y. s.incoming y.peer) (sym same) ∙ all ∙ ap (λ y. ack ∷ y.rest) same,
          )

  stream_to-Reads :
      (did : Text) (peer : PeerId) (o : Option Text)
      → n.peer_id_of_did did ≡ ok peer
      → Reads did (stream_to n s did peer o)
  stream_to-Reads did peer (some e) h x q = cc
  stream_to-Reads did peer none h x q = shake-Reads did peer s.handshake_write h x q

  open_session-Reads : (did : Text) (addrs : List Text) → Reads did (open_session n s did addrs)
  unfolding open_session
  open_session-Reads did addrs x q = go (dial_provider n did addrs).0 refl q
    where
      go :
          (r : Result PeerId MissionError)
          → (dial_provider n did addrs).0 ≡ r
          → (session_with n s did r).1 ≡ some (ok x)
          → (n.peer_id_of_did did ≡ ok x.peer)
            × (ack : Received) × (s.incoming x.peer ≡ ack ∷ x.rest)
      go (err e) d h = cc
      go (ok peer) d h =
          stream_to-Reads did peer (s.open_stream peer)
            (dial_provider-expected n did addrs peer d).0 x h

  at_limit-ok :
      (did : Text) (r : Waiting ToolOutcome) (o : ToolOutcome)
      → at_limit did r ≡ ok o
      → r ≡ some (ok o)
  at_limit-ok did none o h = cc
  at_limit-ok did (some r) o h = ap some h

  -- What a tool outcome of a winner goes back to.
  abbrev pub FromPeer : WinningBid → ToolOutcome → Type 0
  FromPeer w o =
      (o.provider ≡ w.bid.provider_did)
      × (peer : PeerId) × (n.peer_id_of_did w.bid.provider_did ≡ ok peer)
      × Answered w.bid.provider_did w.mission_id o.result (s.incoming peer)

  read-FromPeer :
      (w : WinningBid) (request : Sent) (r : Frames × Waiting Session) (o : ToolOutcome)
      → Reads w.bid.provider_did r
      → then_read (call_loop w.bid.provider_did w.mission_id none) (requested n s request r).1
        ≡ some (ok o)
      → FromPeer w o
  read-FromPeer w request (sent, none) o reads h = cc
  read-FromPeer w request (sent, some (err e)) o reads h = cc
  read-FromPeer w request (sent, some (ok x)) o reads h = go s.request_write h
    where
      go :
          (r : Option FrameError)
          → then_read
              (call_loop w.bid.provider_did w.mission_id none)
              (write_request n s request sent x r).1
            ≡ some (ok o)
          → FromPeer w o
      go (some e) q = cc
      go none q =
          let (same, a) = call_loop-Answered w.bid.provider_did w.mission_id x.rest none o q in
          let (peer, ack, all) = reads x refl in
          (
            same,
            x.peer,
            peer,
            subst (Answered w.bid.provider_did w.mission_id o.result) (sym all) (later ack a),
          )

  -- A tool outcome is that of the winner of the mission cycle: an envelope from the peer of the
  -- winner's DID, signed as that DID, carried the result under the id of the mission.
  pub call_tool-FromPeer :
      (y : Cycle) (r : ToolRequest) (o : ToolOutcome)
      → (call_tool n s y r).1 ≡ ok o
      → (w : WinningBid) × ((cycle n s y (tool_mission r)).1 ≡ some w) × FromPeer w o
  unfolding call_tool
  call_tool-FromPeer y r o h = go (cycle n s y (tool_mission r)).1 refl h
    where
      go :
          (x : Option WinningBid)
          → (cycle n s y (tool_mission r)).1 ≡ x
          → (call_with n s y r x).1 ≡ ok o
          → (w : WinningBid) × ((cycle n s y (tool_mission r)).1 ≡ some w) × FromPeer w o
      go none e q = cc
      go (some w) e q = (
        w,
        e,
        read-FromPeer w (tool_call w.mission_id r.tool_name r.arguments)
            (open_session n s w.bid.provider_did w.bid.provider_multiaddrs) o
            (open_session-Reads w.bid.provider_did w.bid.provider_multiaddrs)
            (at_limit-ok w.bid.provider_did _ o q),
      )

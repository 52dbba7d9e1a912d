-- ===== src/Client/Sends.antt =====
-- To whom the frames of a call of a tool go.
use galax_ia_sdk.Prelude.{◌≡◌, refl, ap, ◌∙◌, true, Option, none, some, List, [], ◌∷◌, ◌++◌, All}
use galax_ia_sdk.Prelude.Result.{Result, ok, err}
use galax_ia_sdk.Text.{Text}
use galax_ia_sdk.Limits.{PeerId}
use galax_ia_sdk.Framing.{FrameError}
use galax_ia_sdk.Mission.{WinningBid, Published, contains}
use galax_ia_sdk.Mission.Cycle.{run_mission_cycle_allowed}
use galax_ia_sdk.Client.{MissionError}
use galax_ia_sdk.Client.Dial.{Network, dial_provider}
use galax_ia_sdk.Client.Reached.{dial_provider-expected}
use galax_ia_sdk.Client.Session.{
  Received, Sent, tool_call, Streams, Waiting, Session, Frames, open_session, session_with,
  stream_to, shake, with_peer, acknowledged, requested, write_request,
}
use galax_ia_sdk.Client.Calls.{ToolRequest, Cycle, call_with, call_tool, cycle, tool_mission}

module _ (n : Network) (s : Streams) where
  -- A frame that goes to the peer of a DID.
  abbrev pub ToDid : Text → PeerId × Sent → Type 0
  ToDid did f = n.peer_id_of_did did ≡ ok f.0

  abbrev SessionTo : Text → Frames × Waiting Session → Type 0
  SessionTo did r =
      All (ToDid did) r.0 × ((x : Session) → r.1 ≡ some (ok x) → n.peer_id_of_did did ≡ ok x.peer)

  with_peer-ok :
      (peer : PeerId) (r : Waiting (List Received)) (x : Session)
      → with_peer peer r ≡ some (ok x)
      → peer ≡ x.peer
  with_peer-ok peer none x h = cc
  with_peer-ok peer (some (err e)) x h = cc
  with_peer-ok peer (some (ok rest)) x h = session_peer h
    where
      session_peer :
          {a b : Session} → Path (Waiting Session) (some (ok a)) (some (ok b)) → a.peer ≡ b.peer
      session_peer q = cc

  shake-SessionTo :
      (did : Text) (peer : PeerId) (o : Option FrameError)
      → n.peer_id_of_did did ≡ ok peer
      → SessionTo did (shake n s did peer o)
  shake-SessionTo did peer (some e) h = (tt, λ x q. cc)
  shake-SessionTo did peer none h =
      ((h, tt), λ x q. h ∙ ap ok (with_peer-ok peer (acknowledged did (s.incoming peer)) x q))

  stream_to-SessionTo :
      (did : Text) (peer : PeerId) (o : Option Text)
      → n.peer_id_of_did did ≡ ok peer
      → SessionTo did (stream_to n s did peer o)
  stream_to-SessionTo did peer (some e) h = (tt, λ x q. cc)
  stream_to-SessionTo did peer none h = shake-SessionTo did peer s.handshake_write h

  open_session-SessionTo :
      (did : Text) (addrs : List Text) → SessionTo did (open_session n s did addrs)
  unfolding open_session
  open_session-SessionTo did addrs = go (dial_provider n did addrs).0 refl
    where
      go :
          (r : Result PeerId MissionError)
          → (dial_provider n did addrs).0 ≡ r
          → SessionTo did (session_with n s did r)
      go (err e) q = (tt, λ x p. cc)
      go (ok peer) q =
          stream_to-SessionTo did peer (s.open_stream peer)
            (dial_provider-expected n did addrs peer q).0

  All-snoc :
      (did : Text) (fs : Frames) (f : PeerId × Sent)
      → All (ToDid did) fs
      → ToDid did f
      → All (ToDid did) (fs ++ f ∷ [])
  All-snoc did [] f h p = (p, tt)
  All-snoc did (x ∷ fs) f (q, h) p = (q, All-snoc did fs f h p)

  write_request-ToDid :
      (did : Text) (request : Sent) (sent : Frames) (x : Session) (o : Option FrameError)
      → All (ToDid did) sent
      → n.peer_id_of_did did ≡ ok x.peer
      → All (ToDid did) (write_request n s request sent x o).0
  write_request-ToDid did request sent x (some e) h p = h
  write_request-ToDid did request sent x none h p = All-snoc did sent (x.peer, request) h p

  pub requested-ToDid :
      (did : Text) (request : Sent) (r : Frames × Waiting Session)
      → SessionTo did r
      → All (ToDid did) (requested n s request r).0
  requested-ToDid did request (sent, none) (h, k) = h
  requested-ToDid did request (sent, some (err e)) (h, k) = h
  requested-ToDid did request (sent, some (ok x)) (h, k) =
      write_request-ToDid did request sent x s.request_write h (k x refl)

  module _ (y : Cycle) where
    -- frames to an allowed node
    abbrev pub Allowed : List Text → PeerId × Sent → Type 0
    Allowed dids f = (did : Text) × (contains dids did ≡ true) × ToDid did f

    call_with-ToDid :
        (r : ToolRequest) (w : WinningBid)
        → All (ToDid w.bid.provider_did) (call_with n s y r (some w)).0
    call_with-ToDid r w =
        requested-ToDid w.bid.provider_did (tool_call w.mission_id r.tool_name r.arguments)
          (open_session n s w.bid.provider_did w.bid.provider_multiaddrs)
          (open_session-SessionTo w.bid.provider_did w.bid.provider_multiaddrs)

    weaken :
        (dids : List Text) (did : Text) (fs : Frames)
        → contains dids did ≡ true
        → All (ToDid did) fs
        → All (Allowed dids) fs
    weaken dids did [] c h = tt
    weaken dids did (f ∷ fs) c (p, h) = ((did, c, p), weaken dids did fs c h)

    -- When a request lists the DIDs that may receive it, every frame of the call of the tool
    -- goes to the peer of a DID on the list, whatever the network answers.
    pub call_tool-Allowed :
        (r : ToolRequest) (dids : List Text)
        → r.allowed_provider_dids ≡ some dids
        → All (Allowed dids) (call_tool n s y r).0
    unfolding call_tool
    call_tool-Allowed r dids listed = go (cycle n s y (tool_mission r)) refl
      where
        go :
            (o : List Published × Option WinningBid)
            → cycle n s y (tool_mission r) ≡ o
            → All (Allowed dids) (call_with n s y r o.1).0
        go (out, none) e = tt
        go (out, some w) e =
            weaken dids w.bid.provider_did (call_with n s y r (some w)).0
              (run_mission_cycle_allowed y.fresh_id y.multiaddrs y.collected y.connected
                (tool_mission r) out w e dids listed).0
              (call_with-ToDid r w)

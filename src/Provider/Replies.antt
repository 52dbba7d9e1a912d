-- ===== src/Provider/Replies.antt =====
-- What a provider answers on a stream, when any of its writes may fail.
use galax_ia_sdk.Prelude.{
  ◌≡◌, refl, ap, ◌∙◌, sym, Bool, true, false, List, [], ◌∷◌, ◌++◌, append_assoc, append-nil,
  if◌then◌else◌, subst,
}
use galax_ia_sdk.Prelude.Int.{ℤ, pos, ◌+ℤ◌}
use galax_ia_sdk.Provider.{
  Asked, handshake, chat_request, tool_call, tool_list, ping, chat_cancel, tool_cancel, other,
  nothing, Answer, wrong_first, Provider, Reply, write, send, send_all, Received, envelope, ended,
  failed, End, serve_one, done, turn, serve_stream, run_stream, chat, tools, handshake_ack,
  tool_list_resp, pong, wrong_type,
}

-- The protocol, stated by itself: what a message in the middle of a stream is answered, and
-- whether it leaves the stream open.
module _ (p : Provider) (now : ℤ) where
  abbrev pub answers_to : Asked → List Answer
  answers_to handshake = wrong_type ∷ []
  answers_to (chat_request mission) = p.handle (chat mission)
  answers_to (tool_call mission) = p.handle (tools mission)
  answers_to (tool_list mission) = tool_list_resp mission p.tools ∷ []
  answers_to ping = pong now ∷ []
  answers_to chat_cancel = []
  answers_to tool_cancel = []
  answers_to other = wrong_type ∷ []
  answers_to nothing = wrong_type ∷ []

abbrev pub leaves_open : Asked → Bool
leaves_open (chat_request mission) = true
leaves_open (tool_call mission) = true
leaves_open (tool_list mission) = true
leaves_open ping = true
leaves_open _ = false

-- a lease of five minutes from now on
abbrev pub lease_ack : ℤ → Answer
lease_ack now = handshake_ack (now +ℤ pos 300000)

module _ (p : Provider) (now : ℤ) where
  -- The script of a stream: the answers to its requests, in their order, up to its end.
  unfoldable pub script : List Received → List Answer
  script [] = []
  script (ended ∷ rest) = []
  script (failed e ∷ rest) = []
  script (envelope asked ∷ rest) =
      let more = script rest in answers_to p now asked ++ (if leaves_open asked then more else [])

  abbrev pub is_handshake : Asked → Bool
  is_handshake handshake = true
  is_handshake _ = false

  -- The whole script, with the first message.
  unfoldable pub full_script : List Received → List Answer
  full_script [] = []
  full_script (ended ∷ rest) = []
  full_script (failed e ∷ rest) = []
  full_script (envelope asked ∷ rest) =
      let more = script rest in
      if is_handshake asked then lease_ack now ∷ more else wrong_first ∷ []

-- What was written is a start of the script, and all of it unless a write failed.
pub record Faithful (r : Reply) (ideal : List Answer) : Type 0 where
  pub missing : List Answer
  pub start : ideal ≡ r.sent ++ missing
  pub complete : r.broken ≡ false → r.sent ≡ ideal

stopped :
    (sent : List Answer) (writes : List Bool) (ideal more : List Answer)
    → Faithful (record { sent = sent; writes = writes; broken = true }) ideal
    → Faithful (record { sent = sent; writes = writes; broken = true }) (ideal ++ more)
stopped sent writes ideal more f = record {
  missing = f.missing ++ more;
  start = ap (λ x. x ++ more) f.start ∙ append_assoc sent f.missing more;
  complete = λ e. absurd (cc);
}

write-Faithful :
    (a : Answer) (sent : List Answer) (writes : List Bool)
    → Faithful (write a sent writes) (sent ++ a ∷ [])
write-Faithful a sent [] = record { missing = []; start = sym (append-nil _); complete = λ e. refl }
write-Faithful a sent (true ∷ writes) = record {
  missing = [];
  start = sym (append-nil _);
  complete = λ e. refl;
}
write-Faithful a sent (false ∷ writes) = record {
  missing = a ∷ [];
  start = refl;
  complete = λ e. absurd (cc);
}

send-Faithful :
    (a : Answer) (sent : List Answer) (writes : List Bool) (broken : Bool) (ideal : List Answer)
    → Faithful (record { sent = sent; writes = writes; broken = broken }) ideal
    → Faithful (send a (record { sent = sent; writes = writes; broken = broken })) (ideal ++ a ∷ [])
unfolding send
send-Faithful a sent writes true ideal f = stopped sent writes ideal (a ∷ []) f
send-Faithful a sent writes false ideal f =
    let w = write-Faithful a sent writes in
    let all : sent ++ a ∷ [] ≡ ideal ++ a ∷ [] = ap (λ x. x ++ a ∷ []) (f.complete refl) in
    record { missing = w.missing; start = sym all ∙ w.start; complete = λ e. w.complete e ∙ all }

send_all-Faithful :
    (answers : List Answer) (r : Reply) (ideal : List Answer)
    → Faithful r ideal
    → Faithful (send_all answers r) (ideal ++ answers)
unfolding send_all
send_all-Faithful [] r ideal f = record {
  missing = f.missing;
  start = append-nil ideal ∙ f.start;
  complete = λ e. f.complete e ∙ sym (append-nil ideal);
}
send_all-Faithful (a ∷ answers) r ideal f =
    let g =
      send_all-Faithful answers (send a r) (ideal ++ a ∷ [])
        (send-Faithful a r.sent r.writes r.broken ideal f) in
    let same = append_assoc ideal (a ∷ []) answers in
    record { missing = g.missing; start = sym same ∙ g.start; complete = λ e. g.complete e ∙ same }

turn-Faithful :
    (p : Provider) (now : ℤ) (go : Reply → Reply × End) (goes_on : Bool) (r : Reply)
    (ideal more : List Answer)
    → Faithful r ideal
    → ((s : Reply) → Faithful s ideal → Faithful (go s).0 (ideal ++ more))
    → Faithful (turn p now go goes_on r).0 (ideal ++ (if goes_on then more else []))
turn-Faithful p now go false r ideal more f ih = record {
  missing = f.missing;
  start = append-nil ideal ∙ f.start;
  complete = λ e. f.complete e ∙ sym (append-nil ideal);
}
turn-Faithful p now go true r ideal more f ih = open_or_not r.broken refl
  where
    open_or_not :
        (b : Bool) → r.broken ≡ b → Faithful (if b then (r, done p now) else go r).0 (ideal ++ more)
    open_or_not true e = record {
      missing = f.missing ++ more;
      start = ap (λ x. x ++ more) f.start ∙ append_assoc r.sent f.missing more;
      complete = λ q. absurd (cc);
    }
    open_or_not false e = ih r f

module _ (p : Provider) (now : ℤ) where
  unchanged : (r : Reply) (ideal : List Answer) → Faithful r ideal → Faithful r (ideal ++ [])
  unchanged r ideal f = record {
    missing = f.missing;
    start = append-nil ideal ∙ f.start;
    complete = λ e. f.complete e ∙ sym (append-nil ideal);
  }

  regroup :
      (r : Reply) (a b c : List Answer) → Faithful r ((a ++ b) ++ c) → Faithful r (a ++ (b ++ c))
  regroup r a b c f = record {
    missing = f.missing;
    start = sym (append_assoc a b c) ∙ f.start;
    complete = λ e. f.complete e ∙ append_assoc a b c;
  }

  serve_one-answers_to : (asked : Asked) → (serve_one p now asked).answers ≡ answers_to p now asked
  serve_one-answers_to handshake = refl
  serve_one-answers_to (chat_request mission) = refl
  serve_one-answers_to (tool_call mission) = refl
  serve_one-answers_to (tool_list mission) = refl
  serve_one-answers_to ping = refl
  serve_one-answers_to chat_cancel = refl
  serve_one-answers_to tool_cancel = refl
  serve_one-answers_to other = refl
  serve_one-answers_to nothing = refl

  serve_one-leaves_open : (asked : Asked) → (serve_one p now asked).goes_on ≡ leaves_open asked
  serve_one-leaves_open handshake = refl
  serve_one-leaves_open (chat_request mission) = refl
  serve_one-leaves_open (tool_call mission) = refl
  serve_one-leaves_open (tool_list mission) = refl
  serve_one-leaves_open ping = refl
  serve_one-leaves_open chat_cancel = refl
  serve_one-leaves_open tool_cancel = refl
  serve_one-leaves_open other = refl
  serve_one-leaves_open nothing = refl

  serve_stream-Faithful :
      (rs : List Received) (r : Reply) (ideal : List Answer)
      → Faithful r ideal
      → Faithful (serve_stream p now rs r).0 (ideal ++ script p now rs)
  unfolding serve_stream script
  serve_stream-Faithful [] r ideal f = unchanged r ideal f
  serve_stream-Faithful (ended ∷ rest) r ideal f = unchanged r ideal f
  serve_stream-Faithful (failed e ∷ rest) r ideal f = unchanged r ideal f
  serve_stream-Faithful (envelope asked ∷ rest) r ideal f =
      let one = serve_one p now asked in
      let out =
        (turn p now (λ s. serve_stream p now rest s) one.goes_on (send_all one.answers r)).0 in
      let as_served = regroup out ideal one.answers _ (
        turn-Faithful p now (λ s. serve_stream p now rest s) one.goes_on (send_all one.answers r)
          (ideal ++ one.answers) (script p now rest) (send_all-Faithful one.answers r ideal f)
          (λ s g. serve_stream-Faithful rest s (ideal ++ one.answers) g)) in
      subst
        (λ answers.
          Faithful out
            (ideal ++ (answers ++ (if leaves_open asked then script p now rest else []))))
        (serve_one-answers_to asked)
        (subst (λ b. Faithful out (ideal ++ (one.answers ++ (if b then script p now rest else []))))
          (serve_one-leaves_open asked) as_served)

  initial-Faithful :
      (writes : List Bool) → Faithful (record { sent = []; writes = writes; broken = false }) []
  initial-Faithful writes = record { missing = []; start = refl; complete = λ e. refl }

  refused-Faithful :
      (writes : List Bool)
      → Faithful
          (send wrong_first (record { sent = []; writes = writes; broken = false }))
          (wrong_first ∷ [])
  refused-Faithful writes = send-Faithful wrong_first [] writes false [] (initial-Faithful writes)

  -- On any stream and whichever writes fail, what the provider writes is a start of the script
  -- of the protocol (the acknowledgement of the handshake, then the answers to each request in
  -- the order of the requests, or one error when the first message is no handshake), and it is
  -- all of it if no write failed.
  pub run_stream-Faithful :
      (rs : List Received) (writes : List Bool)
      → Faithful (run_stream p now rs writes).0 (full_script p now rs)
  unfolding run_stream full_script
  run_stream-Faithful [] writes = initial-Faithful writes
  run_stream-Faithful (ended ∷ rest) writes = initial-Faithful writes
  run_stream-Faithful (failed e ∷ rest) writes = initial-Faithful writes
  run_stream-Faithful (envelope handshake ∷ rest) writes =
      turn-Faithful p now (λ s. serve_stream p now rest s) true
        (send (lease_ack now) (record { sent = []; writes = writes; broken = false }))
        (lease_ack now ∷ []) (script p now rest)
        (send-Faithful (lease_ack now) [] writes false [] (initial-Faithful writes))
        (λ s g. serve_stream-Faithful rest s (lease_ack now ∷ []) g)
  run_stream-Faithful (envelope (chat_request mission) ∷ rest) writes = refused-Faithful writes
  run_stream-Faithful (envelope (tool_call mission) ∷ rest) writes = refused-Faithful writes
  run_stream-Faithful (envelope (tool_list mission) ∷ rest) writes = refused-Faithful writes
  run_stream-Faithful (envelope ping ∷ rest) writes = refused-Faithful writes
  run_stream-Faithful (envelope chat_cancel ∷ rest) writes = refused-Faithful writes
  run_stream-Faithful (envelope tool_cancel ∷ rest) writes = refused-Faithful writes
  run_stream-Faithful (envelope other ∷ rest) writes = refused-Faithful writes
  run_stream-Faithful (envelope nothing ∷ rest) writes = refused-Faithful writes

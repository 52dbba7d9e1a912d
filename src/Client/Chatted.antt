-- ===== src/Client/Chatted.antt =====
-- The text that a chat returns.
use galax_ia_sdk.Prelude.{
  ℕ, ◌≡◌, ◌≢◌, refl, ◌∙◌, sym, subst, Option, none, some, List, [], ◌∷◌, ◌++◌, append_assoc,
  append-nil,
}
use galax_ia_sdk.Prelude.Result.{ok}
use galax_ia_sdk.Text.{Text}
use galax_ia_sdk.Client.Session.{
  Payload, handshake_ack, error, chat_delta, chat_completed, chat_error, dispatch_ack, tool_result,
  tool_error, other, Received, envelope, ended, failed, Waiting,
}
use galax_ia_sdk.Client.Calls.{ChatOutcome, Shown, show, or_content, chat_on, chat_loop}

unfoldable pub concat : List Text → Text
concat [] = []
concat (t ∷ ts) = t ++ concat ts

-- What is returned when some text came in deltas is that text.
abbrev Told : Text → Shown → Type 0
Told content r =
    (o : ChatOutcome)
    → r.1 ≡ some (ok o)
    → content ++ concat r.0 ≢ []
    → o.content ≡ content ++ concat r.0

show-Told :
    (content delta : Text) (r : Shown) → Told (content ++ delta) r → Told content (show delta r)
unfolding concat
show-Told content [] r t = subst (λ c. Told c r) (append-nil content) t
show-Told content (c ∷ delta) (shown, result) t = λ o h some_text.
    let same = append_assoc content (c ∷ delta) (concat shown) in
    t o h (λ e. some_text (sym same ∙ e)) ∙ same

completed-Told :
    (content completed : Text) (o : ChatOutcome)
    → or_content content completed ≡ o.content
    → content ≢ []
    → o.content ≡ content
completed-Told [] completed o h some_text = absurd (some_text refl)
completed-Told (c ∷ content) completed o h some_text = sym h

module _ (provider : Text) where
  chat_on-Told :
      (go : Text → Option ℕ → Shown) (content : Text) (dispatch : Option ℕ) (ms : ℕ)
      (p : Option Payload)
      → ((c : Text) (d : Option ℕ) → Told c (go c d))
      → Told content (chat_on provider go content dispatch ms p)
  unfolding concat
  chat_on-Told go content dispatch ms (some dispatch_ack) ih = ih content (some ms)
  chat_on-Told go content dispatch ms (some (chat_delta delta)) ih =
      show-Told content delta (go (content ++ delta) dispatch) (ih (content ++ delta) dispatch)
  chat_on-Told go content dispatch ms (some (chat_completed completed calls)) ih = λ o h some_text.
      let same : or_content content completed ≡ o.content = content_of h in
      completed-Told content completed o same (λ e. some_text (append-nil content ∙ e))
      ∙ sym (append-nil content)
    where
      content_of :
          {x y : ChatOutcome}
          → Path (Waiting ChatOutcome) (some (ok x)) (some (ok y))
          → x.content ≡ y.content
      content_of q = cc
  chat_on-Told go content dispatch ms (some (chat_error e)) ih = λ o h some_text. cc
  chat_on-Told go content dispatch ms (some (error m)) ih = λ o h some_text. cc
  chat_on-Told go content dispatch ms (some handshake_ack) ih = ih content dispatch
  chat_on-Told go content dispatch ms (some (tool_result mission value)) ih = ih content dispatch
  chat_on-Told go content dispatch ms (some (tool_error e)) ih = ih content dispatch
  chat_on-Told go content dispatch ms (some other) ih = ih content dispatch
  chat_on-Told go content dispatch ms none ih = ih content dispatch

  loop-Told :
      (rs : List Received) (content : Text) (dispatch : Option ℕ)
      → Told content (chat_loop provider content dispatch rs)
  unfolding chat_loop
  loop-Told [] content dispatch = λ o h some_text. cc
  loop-Told (ended ∷ rs) content dispatch = λ o h some_text. cc
  loop-Told (failed e ∷ rs) content dispatch = λ o h some_text. cc
  loop-Told (envelope ms e ∷ rs) content dispatch =
      chat_on-Told (λ c d. chat_loop provider c d rs) content dispatch ms e.payload
        (λ c d. loop-Told rs c d)

  -- A chat that ends well after some text was shown returns exactly the text that was shown, in
  -- its order.
  pub chat_loop-concat :
      (rs : List Received) (o : ChatOutcome)
      → (chat_loop provider [] none rs).1 ≡ some (ok o)
      → concat (chat_loop provider [] none rs).0 ≢ []
      → o.content ≡ concat (chat_loop provider [] none rs).0
  chat_loop-concat rs o h some_text = loop-Told rs [] none o h some_text

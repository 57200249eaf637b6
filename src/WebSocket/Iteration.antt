-- ===== src/WebSocket/Iteration.antt =====
-- The iteration over the messages of a `WebSocketConnection` of cycletls/websocket.py.
use cycletls_python.Base.{
  if_true, ℕ, zero, suc, String, Bool, true, false, List, [], ◌∷◌, none, some, ◌≡◌, refl, ap, ◌∙◌,
  if◌then◌else◌,
}
use cycletls_python.Exec.{on_some}
use cycletls_python.Errors.{Class, websocket_module_error, Result, ok, err}
use cycletls_python.Library.{Log, Go, ws_receive, free_string}
use cycletls_python.WebSocket.Message.{
  MessageReply, WebSocketMessage, text_type, words, message_of, type_of_code, decode_content,
}
use cycletls_python.WebSocket.{WebSocketConnection, receive, receive_message, take_pointer}

-- except WebSocketError
abbrev is_websocket_error : Class → Bool
is_websocket_error websocket_module_error = true
is_websocket_error c = false

-- what the loop makes of one call, with what the rest of it yields: a WebSocketError ends it
abbrev yielded :
    Result WebSocketMessage
    → WebSocketConnection
    → List WebSocketMessage × Result (Unit {0}) × WebSocketConnection
    → List WebSocketMessage × Result (Unit {0}) × WebSocketConnection
yielded (ok m) t rest = (m ∷ rest.0, rest.1, rest.2)
yielded (err e) t rest = if is_websocket_error e.class then ([], ok tt, t) else ([], err e, t)

module _ (go : Go) (unpack : List ℕ → Result MessageReply)
    (b64decode : String → Result (List ℕ)) where
  -- __iter__, up to `n` reads: the messages that it yields, how it stops, and the connection
  unfoldable pub iterate :
      ℕ → WebSocketConnection → List WebSocketMessage × Result (Unit {0}) × WebSocketConnection
  iterate zero s = ([], ok tt, s)
  iterate (suc n) s =
      let rest = iterate n (receive go unpack b64decode s).1 in
      if s.connected
      then yielded (receive go unpack b64decode s).0 (receive go unpack b64decode s).1 rest
      else ([], ok tt, s)

-- The text message that has no text.
abbrev pub empty_text : WebSocketMessage
empty_text = record { type = text_type; content = words "" }

-- Each read is answered with an error: a reply without a type and without data.
abbrev pub IsFailing : Go → (List ℕ → Result MessageReply) → ℕ → Type 0
IsFailing go unpack h =
    (log : Log)
    → (p : ℕ) × (r : MessageReply) × (go.pointer (ws_receive h ∷ log) ≡ some p)
      × (unpack (go.bytes (ws_receive h ∷ log) p) ≡ ok r)
      × (r.type ≡ none)
      × (r.content ≡ none)

-- `n` copies
abbrev pub repeat {ℓ} : {A : Type ℓ} → ℕ → A → List A
repeat zero a = []
repeat (suc n) a = a ∷ repeat n a

message_of_failure :
    (b64decode : String → Result (List ℕ)) (r : MessageReply)
    → r.type ≡ none
    → r.content ≡ none
    → message_of b64decode r ≡ ok empty_text
unfolding message_of type_of_code decode_content
message_of_failure b64decode r t c = rw (t, c) refl

module _ (go : Go) (unpack : List ℕ → Result MessageReply) (b64decode : String → Result (List ℕ))
    (h : ℕ) where
  abbrev after_read : ℕ → WebSocketConnection → WebSocketConnection
  after_read p s = record s { log = free_string p ∷ ws_receive h ∷ s.log }

  receive_failure :
      (s : WebSocketConnection) (p : ℕ) (r : MessageReply)
      → go.load ≡ ok tt
      → go.exports "wsReceive" ≡ true
      → go.pointer (ws_receive h ∷ s.log) ≡ some p
      → unpack (go.bytes (ws_receive h ∷ s.log) p) ≡ ok r
      → r.type ≡ none
      → r.content ≡ none
      → receive_message go unpack b64decode h s ≡ (ok empty_text, after_read p s)
  unfolding receive_message take_pointer
  receive_failure s p r l x q u t c = rw (l, x, q, u, message_of_failure b64decode r t c) refl

  receive_open :
      (s : WebSocketConnection)
      → s.connected ≡ true
      → s.handle ≡ some h
      → receive go unpack b64decode s ≡ receive_message go unpack b64decode h s
  unfolding receive
  receive_open s c e = on_some s.handle _ _ e ∙ if_true s.connected _ _ c

  -- When each read fails, the iteration over an open connection does not end: it yields one empty
  -- text message for each read, however many there are.
  pub failing_never_ends :
      go.load ≡ ok tt
      → go.exports "wsReceive" ≡ true
      → IsFailing go unpack h
      → (n : ℕ) (s : WebSocketConnection) → s.connected ≡ true
      → s.handle ≡ some h
      → (iterate go unpack b64decode n s).0 ≡ repeat n empty_text
  unfolding iterate
  failing_never_ends l x f zero s c e = refl
  failing_never_ends l x f (suc n) s c e =
      let (p, r, q, u, t, m) = f s.log in
      let received = receive_open s c e ∙ receive_failure s p r l x q u t m in
      ap {A = List WebSocketMessage × Result (Unit {0}) × WebSocketConnection} (λ i. i.0)
        (if_true s.connected _ _ c)
      ∙ ap {A = Result WebSocketMessage × WebSocketConnection}
          (λ o. (yielded o.0 o.1 (iterate go unpack b64decode n o.1)).0) received
      ∙ ap (λ ms. empty_text ∷ ms) (failing_never_ends l x f n (after_read p s) c e)

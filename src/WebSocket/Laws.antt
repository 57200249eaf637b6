-- ===== src/WebSocket/Laws.antt =====
-- What every operation of `WebSocketConnection` of cycletls/websocket.py keeps.
use cycletls_python.Base.{
  ℕ, String, Bool, true, false, List, ◌∷◌, Option, none, some, ◌≡◌, refl, ◌≢◌, zero, suc,
  if◌then◌else◌, eqb, length, Bool-cases, inl, inr, [],
}
use cycletls_python.Errors.{Result, Result-cases, ok}
use cycletls_python.Exec.{if_keeps, on_keeps}
use cycletls_python.Values.{Atom}
use cycletls_python.Dict.{Dict}
use cycletls_python.Library.{
  Go, Call, ws_connect, ws_send, ws_receive, ws_close, free_string, IsClean, start, plain, null,
  freed, allocates, is_free,
}
use cycletls_python.WebSocket.{
  WebSocketConnection, init, options, connect, open_socket, close, release, send, send_message,
  receive, receive_message, take_pointer, is_failure, text_type, binary_type,
}
use cycletls_python.WebSocket.Message.{
  MessageReply, Content, data_bytes, type_code, text_type, binary_type,
}

-- The states that the operations leave.
abbrev pub called : Call → WebSocketConnection → WebSocketConnection
called c s = record s { log = c ∷ s.log }

abbrev pub opened : ℕ → WebSocketConnection → WebSocketConnection
opened h s = record s { handle = some h; connected = true }

module _ {ℓ} (go : Go) (P : WebSocketConnection → Type ℓ) (s : WebSocketConnection) where
  open_socket_keeps :
      P s
      → P (called (ws_connect (options s)) s)
      → ((h : ℕ) → eqb h 0 ≡ false → P (opened h (called (ws_connect (options s)) s)))
      → P (open_socket go s).1
  unfolding open_socket
  open_socket_keeps kept failed done = elim (Result-cases go.load) [
    | inr (e, p) ↦ rw p kept
    | inl (a, p) ↦ elim (Bool-cases (go.exports "wsConnect")) [
      | inr q ↦ rw (p, q) kept
      | inl q ↦ elim (Bool-cases (eqb (go.handle (ws_connect (options s) ∷ s.log)) 0)) [
        | inl t ↦ rw (p, q, t) failed
        | inr t ↦ rw (p, q, t) (done _ t)
      ]
    ]
  ]

  pub connect_keeps :
      P s
      → P (called (ws_connect (options s)) s)
      → ((h : ℕ) → eqb h 0 ≡ false → P (opened h (called (ws_connect (options s)) s)))
      → P (connect go s).1
  unfolding connect
  connect_keeps kept failed done =
      if_keeps P s.connected (ok tt, s) (open_socket go s) kept (open_socket_keeps kept failed done)

  release_keeps :
      (h : ℕ)
      → P s
      → P (record s { handle = none; connected = false; log = ws_close h ∷ s.log })
      → P (record s { handle = none; connected = false })
      → P (release go h s).1
  unfolding release
  release_keeps h kept closed dropped = elim (Result-cases go.load) [
    | inr (e, p) ↦ rw p kept
    | inl (a, p) ↦ elim (Bool-cases (go.exports "wsClose")) [
      | inr q ↦ rw (p, q) dropped
      | inl q ↦ rw (p, q) closed
    ]
  ]

  pub close_keeps :
      P s
      → ((h : ℕ)
          → s.handle ≡ some h
          → P (record s { handle = none; connected = false; log = ws_close h ∷ s.log }))
      → P (record s { handle = none; connected = false })
      → P (close go s).1
  unfolding close
  close_keeps kept closed dropped =
      on_keeps P s.handle (ok tt, s) _ kept
        (λ h e. if_keeps P s.connected _ _ (release_keeps h kept (closed h e) dropped) kept)

  send_message_keeps :
      (h : ℕ) (content : Content) (binary : Bool)
      → P s
      → ((t n : ℕ) (bs : List ℕ) → P (called (ws_send h t bs n) s))
      → P (send_message go h content binary s).1
  unfolding send_message
  send_message_keeps h content binary kept sent = elim (Result-cases go.load) [
    | inr (e, p) ↦ rw p kept
    | inl (a, p) ↦ elim (Bool-cases (go.exports "wsSend")) [
      | inr q ↦ rw (p, q) kept
      | inl q ↦
          elim (Bool-cases (
            is_failure (
              go.code (
                ws_send h (type_code (if binary then binary_type else text_type))
                  (data_bytes content) (length (data_bytes content))
                ∷ s.log)))) [
                  | inl t ↦ rw (p, q, t) (sent _ _ _)
                  | inr t ↦ rw (p, q, t) (sent _ _ _)
                ]
    ]
  ]

  pub send_keeps :
      (content : Content) (binary : Bool)
      → P s
      → ((h t n : ℕ) (bs : List ℕ) → P (called (ws_send h t bs n) s))
      → P (send go content binary s).1
  unfolding send
  send_keeps content binary kept sent =
      on_keeps P s.handle _ _ kept
        (λ h e. if_keeps P s.connected _ _ (send_message_keeps h content binary kept (sent h)) kept)

module _ {ℓ} (go : Go) (unpack : List ℕ → Result MessageReply)
    (b64decode : String → Result (List ℕ)) (P : WebSocketConnection → Type ℓ) where
  -- A pointer that is not NULL is freed before anything else.
  take_pointer_keeps :
      (o : Option ℕ) (s : WebSocketConnection)
      → (o ≡ none → P s)
      → ((p : ℕ) → o ≡ some p → P (called (free_string p) s))
      → P (take_pointer go unpack b64decode o s).1
  unfolding take_pointer
  take_pointer_keeps none s n f = n refl
  take_pointer_keeps (some p) s n f = elim (Result-cases (unpack (go.bytes s.log p))) [
    | inl (r, e) ↦ rw e (f p refl)
    | inr (x, e) ↦ rw e (f p refl)
  ]

  receive_message_keeps :
      (h : ℕ) (s : WebSocketConnection)
      → P s
      → (go.pointer (ws_receive h ∷ s.log) ≡ none → P (called (ws_receive h) s))
      → ((p : ℕ)
          → go.pointer (ws_receive h ∷ s.log) ≡ some p
          → P (called (free_string p) (called (ws_receive h) s)))
      → P (receive_message go unpack b64decode h s).1
  unfolding receive_message
  receive_message_keeps h s kept n f = elim (Result-cases go.load) [
    | inr (e, p) ↦ rw p kept
    | inl (a, p) ↦ elim (Bool-cases (go.exports "wsReceive")) [
      | inr q ↦ rw (p, q) kept
      | inl q ↦ rw (p, q) (take_pointer_keeps _ (called (ws_receive h) s) n f)
    ]
  ]

  pub receive_keeps :
      (s : WebSocketConnection)
      → P s
      → ((h : ℕ) → go.pointer (ws_receive h ∷ s.log) ≡ none → P (called (ws_receive h) s))
      → ((h p : ℕ)
          → go.pointer (ws_receive h ∷ s.log) ≡ some p
          → P (called (free_string p) (called (ws_receive h) s)))
      → P (receive go unpack b64decode s).1
  unfolding receive
  receive_keeps s kept n f =
      on_keeps P s.handle _ _ kept
        (λ h e. if_keeps P s.connected _ _ (receive_message_keeps h s kept (n h) (f h)) kept)

-- A connection that counts as connected has a handle that is not 0, and every string that the
-- library handed out has been freed once.
pub record IsValid (go : Go) (s : WebSocketConnection) : Type 0 where
  pub active : s.connected ≡ true → (h : ℕ) × (s.handle ≡ some h) × (h ≢ 0)
  pub clean : IsClean go s.log

pub data Operation : Type 0 where
  connecting receiving closing : Operation
  sending : Content → Bool → Operation

nonzero : (h : ℕ) → eqb h 0 ≡ false → h ≢ 0
nonzero zero e z = cc
nonzero (suc h) e z = cc

module _ (go : Go) (unpack : List ℕ → Result MessageReply)
    (b64decode : String → Result (List ℕ)) where
  -- The connection after one call, whether it returned or raised.
  unfoldable pub step : Operation → WebSocketConnection → WebSocketConnection
  step connecting s = (connect go s).1
  step (sending content binary) s = (send go content binary s).1
  step receiving s = (receive go unpack b64decode s).1
  step closing s = (close go s).1

  unfoldable pub run : List Operation → WebSocketConnection → WebSocketConnection
  unfolding step
  run [] s = s
  run (o ∷ os) s = run os (step o s)

  step-IsValid : (o : Operation) (s : WebSocketConnection) → IsValid go s → IsValid go (step o s)
  unfolding step allocates is_free
  step-IsValid connecting s v =
      connect_keeps go (IsValid go) s v
        (record { active = v.active; clean = plain refl refl v.clean })
        (λ h e. record { active = λ c. (h, refl, nonzero h e); clean = plain refl refl v.clean })
  step-IsValid (sending content binary) s v =
      send_keeps go (IsValid go) s content binary v
        (λ h t n bs. record { active = v.active; clean = plain refl refl v.clean })
  step-IsValid closing s v =
      close_keeps go (IsValid go) s v
        (λ h e. record { active = λ c. cc; clean = plain refl refl v.clean })
        (record { active = λ c. cc; clean = v.clean })
  step-IsValid receiving s v =
      receive_keeps go unpack b64decode (IsValid go) s v
        (λ h n. record { active = v.active; clean = null n refl v.clean })
        (λ h p n. record { active = v.active; clean = freed n refl v.clean })

  run-IsValid :
      (os : List Operation) (s : WebSocketConnection) → IsValid go s → IsValid go (run os s)
  unfolding run
  run-IsValid [] s v = v
  run-IsValid (o ∷ os) s v = run-IsValid os (step o s) (step-IsValid o s v)

  -- Whatever is called in whatever order on a new WebSocket connection, and whatever raises on
  -- the way: a connection that counts as connected has a handle that is not 0, and each string
  -- that the library handed out was freed once, before the next call.
  pub socket-IsValid :
      (os : List Operation) (url : String) (headers : Dict Atom)
      → IsValid go (run os (init url headers))
  unfolding init
  socket-IsValid os url headers = run-IsValid os _ (record { active = λ c. cc; clean = start })

-- ===== src/WebSocket.antt =====
-- `WebSocketConnection` of cycletls/websocket.py.
pub mod Message
pub mod Laws
pub mod Iteration
pub mod Tests
use cycletls_python.Base.{
  ℕ, suc, ℤ, pos, negsuc, String, Bool, true, false, not, List, [], ◌∷◌, Option, none, some, ◌==◌,
  if◌then◌else◌, eqb, or_default, length,
}
use cycletls_python.Dict.{Dict, set}
use cycletls_python.Errors.{Error, error, websocket_module_error, Result, ok, err}
use cycletls_python.Exec.{Exec, pure, raise, lift, gets, modify, guard, on, ◌>>=◌, ◌>>◌}
use cycletls_python.Text.{join, decimal}
use cycletls_python.Values.{Atom, str, int, Value, atom, dict, text}
use cycletls_python.WebSocket.Message.{
  MessageReply, WebSocketMessage, Content, data_bytes, type_code, text_type, binary_type,
  message_of,
}
use cycletls_python.Library.{Log, Go, ws_connect, ws_send, ws_receive, ws_close, free_string}

pub record WebSocketConnection : Type 0 where
  pub url : String
  pub headers : Dict Atom
  pub ja3 : Option String
  pub user_agent : Option String
  pub proxy : Option String
  pub timeout : ℤ
  pub handle : Option ℕ
  pub connected : Bool
  pub log : Log

-- __init__ with an address and headers
unfoldable pub init : String → Dict Atom → WebSocketConnection
init url headers = record {
  url = url;
  headers = headers;
  ja3 = none;
  user_agent = none;
  proxy = none;
  timeout = pos 30;
  handle = none;
  connected = false;
  log = [];
}

-- if s: options[key] = s
unfoldable pub set_if : String → Option String → Dict Value → Dict Value
set_if key none d = d
set_if key (some s) d = if s == "" then d else set key (text s) d

-- options
unfoldable pub options : WebSocketConnection → Dict Value
unfolding set_if
options s = set_if "proxy" s.proxy (
    set_if "userAgent" s.user_agent (
      set_if "ja3" s.ja3 (
        ("url", text s.url)
        ∷ ("headers", dict s.headers)
        ∷ ("timeout", atom (int s.timeout))
        ∷ [])))

-- a code in a message
unfoldable pub code_text : ℤ → String
code_text (pos n) = decimal n
code_text (negsuc n) = join ("-" ∷ decimal (suc n) ∷ [])

-- result != 0
unfoldable pub is_failure : ℤ → Bool
is_failure (pos n) = not (eqb n 0)
is_failure (negsuc n) = true

abbrev pub not_connected : Error
not_connected = error websocket_module_error "WebSocket is not connected"

module _ (go : Go) where
  -- connect(), past the test of `_connected`
  unfoldable pub open_socket : Exec WebSocketConnection (Unit {0})
  unfolding options
  open_socket = do
    lift go.load
    guard (not (go.exports "wsConnect")) (
        error websocket_module_error
          "WebSocket support requires rebuilding the Go library with WebSocket exports. The current library does not have wsConnect exported.")
    modify (λ s. record s { log = ws_connect (options s) ∷ s.log })
    handle ← gets (λ s. go.handle s.log)
    url ← gets (λ s. s.url)
    guard (eqb handle 0) (error websocket_module_error (join ("Failed to connect to " ∷ url ∷ [])))
    modify (λ s. record s { handle = some handle; connected = true })

  -- connect()
  unfoldable pub connect : Exec WebSocketConnection (Unit {0})
  unfolding open_socket
  connect s = if s.connected then (ok tt, s) else open_socket s

  -- send(), past its test
  unfoldable pub send_message : ℕ → Content → Bool → Exec WebSocketConnection (Unit {0})
  unfolding data_bytes type_code is_failure code_text
  send_message handle content binary = do
    lift go.load
    guard (not (go.exports "wsSend"))
        (error websocket_module_error "WebSocket send not supported in this library build")
    modify (λ s. record s {
      log =
          ws_send handle (type_code (if binary then binary_type else text_type))
            (data_bytes content) (length (data_bytes content))
          ∷ s.log;
    })
    result ← gets (λ s. go.code s.log)
    guard (is_failure result) (
        error websocket_module_error
          (join ("Failed to send WebSocket message: error code " ∷ code_text result ∷ [])))

  -- send()
  unfoldable pub send : Content → Bool → Exec WebSocketConnection (Unit {0})
  unfolding send_message
  send content binary s =
      on s.handle (err not_connected, s)
        (λ handle.
          if s.connected then send_message handle content binary s else (err not_connected, s))

  -- close(), past its test
  unfoldable pub release : ℕ → Exec WebSocketConnection (Unit {0})
  release handle = do
    lift go.load
    modify (λ s. record s { log = if go.exports "wsClose" then ws_close handle ∷ s.log else s.log })
    modify (λ s. record s { handle = none; connected = false })

  -- close()
  unfoldable pub close : Exec WebSocketConnection (Unit {0})
  unfolding release
  close s = on s.handle (ok tt, s) (λ handle. if s.connected then release handle s else (ok tt, s))

  -- base64.b64decode, alone and before ormsgpack.unpackb
  module _ (unpack : List ℕ → Result MessageReply) (b64decode : String → Result (List ℕ)) where
    -- receive(), from the pointer on
    unfoldable pub take_pointer : Option ℕ → Exec WebSocketConnection WebSocketMessage
    unfolding message_of
    take_pointer none = raise (error websocket_module_error "Failed to receive WebSocket message")
    take_pointer (some p) = do
      content ← gets (λ s. go.bytes s.log p)
      modify (λ s. record s { log = free_string p ∷ s.log })
      reply ← lift (unpack content)
      lift (message_of b64decode reply)

    -- receive(), past its test
    unfoldable pub receive_message : ℕ → Exec WebSocketConnection WebSocketMessage
    unfolding take_pointer
    receive_message handle = do
      lift go.load
      guard (not (go.exports "wsReceive"))
          (error websocket_module_error "WebSocket receive not supported in this library build")
      modify (λ s. record s { log = ws_receive handle ∷ s.log })
      pointer ← gets (λ s. go.pointer s.log)
      take_pointer pointer

    -- receive()
    unfoldable pub receive : Exec WebSocketConnection WebSocketMessage
    unfolding receive_message
    receive s =
        on s.handle (err not_connected, s)
          (λ handle. if s.connected then receive_message handle s else (err not_connected, s))

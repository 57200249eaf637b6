-- ===== src/WebSocket/Tests.antt =====
-- A WebSocket against a library that answers from a script.
use cycletls_python.Base.{
  none, suc, ℕ, pos, String, true, false, ◌&&◌, List, [], ◌∷◌, some, ◌≡◌, refl, length, or_default,
}
use cycletls_python.Errors.{Result, ok}
use cycletls_python.Library.{Go}
use cycletls_python.WebSocket.Message.{
  MessageReply, WebSocketMessage, words, raw, binary_type, type_code, message_of, message_of_lem,
  is_binary, is_words,
}
use cycletls_python.WebSocket.{WebSocketConnection, init, receive, connect}
use cycletls_python.WebSocket.Iteration.{iterate, failing_never_ends, empty_text}
use cycletls_python.WebSocket.Laws.{
  IsValid, connecting, receiving, closing, sending, run, socket-IsValid,
}

-- A library with every export, whose calls succeed.
abbrev scripted : Go
scripted = record {
  load = ok tt;
  exports = λ name. true;
  handle = λ log. 7;
  code = λ log. pos 0;
  pointer = λ log. some (length log);
  bytes = λ log p. p ∷ [];
}

abbrev binary_reply : MessageReply
binary_reply = record { type = some 2; content = some (words "AQI="); error_text = none }

abbrev unpack : List ℕ → Result MessageReply
unpack bs = ok binary_reply

abbrev b64decode : String → Result (List ℕ)
b64decode s = ok (1 ∷ 2 ∷ [])

receive_test :
    (receive scripted unpack b64decode (connect scripted (init "wss://a.test" [])).1).0
    ≡ ok (record { type = binary_type; content = raw (1 ∷ 2 ∷ []) })
unfolding receive connect init
receive_test = refl

socket-IsValid_example : IsValid scripted (
    run scripted unpack b64decode
      (connecting ∷ sending (words "hi") false ∷ receiving ∷ closing ∷ receiving ∷ [])
      (init "wss://a.test" []))
socket-IsValid_example = socket-IsValid scripted unpack b64decode _ "wss://a.test" []

abbrev received : WebSocketMessage
received = record { type = binary_type; content = raw (1 ∷ 2 ∷ []) }

message_of_lem_test :
    (type_code received.type ≡ or_default binary_reply.type 1)
    × ((is_binary received && is_words received.content) ≡ false)
unfolding message_of
message_of_lem_test = message_of_lem b64decode binary_reply received refl

-- A library whose every read fails.
abbrev failed_reply : List ℕ → Result MessageReply
failed_reply bs = ok (record { type = none; content = none; error_text = some "EOF" })

abbrev open_socket : WebSocketConnection
open_socket = (connect scripted (init "wss://a.test" [])).1

failing_never_ends_example :
    (iterate scripted failed_reply b64decode 3 open_socket).0
    ≡ empty_text ∷ empty_text ∷ empty_text ∷ []
unfolding connect init
failing_never_ends_example =
    failing_never_ends scripted failed_reply b64decode 7 refl refl
      (λ log. (suc (length log), _, refl, refl, refl, refl)) 3 open_socket refl refl

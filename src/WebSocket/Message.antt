-- ===== src/WebSocket/Message.antt =====
-- The messages of cycletls/websocket.py: their types, what is sent of one and what is read.
use cycletls_python.Base.{
  ℕ, String, Bool, true, List, [], ◌∷◌, Option, ◌≡◌, refl, sym, ap, ◌∙◌, if◌then◌else◌, eqb,
  or_default, arith, false, ◌&&◌,
}
use cycletls_python.Errors.{error, value_error, Result, ok, err, ◌>>=◌, bind-ok, ok_inj}
use cycletls_python.Text.{join, decimal}
use cycletls_python.Text.Utf8.{encode}

pub data MessageType : Type 0 where
  text_type binary_type close_type ping_type pong_type : MessageType

-- int(msg_type)
unfoldable pub type_code : MessageType → ℕ
type_code text_type = 1
type_code binary_type = 2
type_code close_type = 8
type_code ping_type = 9
type_code pong_type = 10

-- MessageType(code)
unfoldable pub type_of_code : ℕ → Result MessageType
type_of_code n =
    if eqb n 1
    then ok text_type
    else if eqb n 2
    then ok binary_type
    else if eqb n 8
    then ok close_type
    else if eqb n 9
    then ok ping_type
    else if eqb n 10
    then ok pong_type
    else err (error value_error (join (decimal n ∷ " is not a valid MessageType" ∷ [])))

-- str or bytes
pub data Content : Type 0 where
  words : String → Content
  raw : List ℕ → Content

pub record WebSocketMessage : Type 0 where
  pub type : MessageType
  pub content : Content

-- is_text, is_binary, is_close
unfoldable pub is_text : WebSocketMessage → Bool
unfolding type_code
is_text m = eqb (type_code m.type) 1

unfoldable pub is_binary : WebSocketMessage → Bool
unfolding type_code
is_binary m = eqb (type_code m.type) 2

unfoldable pub is_close : WebSocketMessage → Bool
unfolding type_code
is_close m = eqb (type_code m.type) 8

-- The dictionary that the Go side answers with; `none` is a key that is not there. A failed read
-- is answered with the error alone.
pub record MessageReply : Type 0 where
  pub type : Option ℕ
  pub content : Option Content
  pub error_text : Option String

-- data_bytes
unfoldable pub data_bytes : Content → List ℕ
data_bytes (words s) = encode s
data_bytes (raw bs) = bs

-- the data of a message: that of a binary one is base64 when it comes as a text
unfoldable pub decode_content : (String → Result (List ℕ)) → MessageType → Content → Result Content
decode_content b64decode binary_type (words s) = do bs ← b64decode s; ok (raw bs)
decode_content b64decode t c = ok c

-- the message of a reply
unfoldable pub message_of : (String → Result (List ℕ)) → MessageReply → Result WebSocketMessage
unfolding type_of_code decode_content
message_of b64decode r = do
  type ← type_of_code (or_default r.type 1)
  content ← decode_content b64decode type (or_default r.content (words ""))
  ok (record { type = type; content = content })

code_of_type : (n : ℕ) (t : MessageType) → type_of_code n ≡ ok t → type_code t ≡ n
unfolding type_of_code type_code
code_of_type n text_type e = ground arith
code_of_type n binary_type e = ground arith
code_of_type n close_type e = ground arith
code_of_type n ping_type e = ground arith
code_of_type n pong_type e = ground arith

abbrev pub is_words : Content → Bool
is_words (words s) = true
is_words (raw bs) = false

decode_content_lem :
    (b64decode : String → Result (List ℕ)) (t : MessageType) (before after : Content)
    → decode_content b64decode t before ≡ ok after
    → (eqb (type_code t) 2 && is_words after) ≡ false
unfolding decode_content type_code
decode_content_lem b binary_type (raw bs) after e = rw (sym (ok_inj e)) refl
decode_content_lem b binary_type (words s) after e =
    let (bs, p, e') = bind-ok (b s) _ e in ap is_words (sym (ok_inj e'))
decode_content_lem b text_type before after e = refl
decode_content_lem b close_type before after e = refl
decode_content_lem b ping_type before after e = refl
decode_content_lem b pong_type before after e = refl

-- A message that is received keeps the code of its reply, 1 when there is none, and a binary
-- message does not hold a text.
pub message_of_lem :
    (b64decode : String → Result (List ℕ)) (r : MessageReply) (m : WebSocketMessage)
    → message_of b64decode r ≡ ok m
    → (type_code m.type ≡ or_default r.type 1) × ((is_binary m && is_words m.content) ≡ false)
unfolding message_of is_binary
message_of_lem b64decode r m e =
    let (t, p, e') = bind-ok (type_of_code (or_default r.type 1)) _ e in
    let (c, q, e'') = bind-ok (decode_content b64decode t (or_default r.content (words ""))) _ e' in
    let same = ok_inj e'' in
    (
      ap (λ x. type_code x.type) (sym same) ∙ code_of_type _ t p,
      ap (λ x. eqb (type_code x.type) 2 && is_words x.content) (sym same)
          ∙ decode_content_lem b64decode t _ c q,
    )

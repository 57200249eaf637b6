-- ===== src/Library.antt =====
-- The Go shared library as cycletls/_ffi.py, cycletls/sse.py and cycletls/websocket.py call it.
-- The library itself, and msgpack and base64 in front of it, are parameters: what a call gives
-- back is a function of all the calls so far, so nothing is said of it but that it has been made.
use cycletls_python.Base.{ℕ, ℤ, String, Bool, true, false, List, [], ◌∷◌, Option, none, some, ◌≡◌}
use cycletls_python.Dict.{Dict}
use cycletls_python.Errors.{Result}
use cycletls_python.Values.{Value, Payload}

-- One call, with the data before it is packed. A Bool tells the zero-copy form of a call (true)
-- from its base64 form.
pub data Call : Type 0 where
  get_request : Bool → Payload → Call
  send_batch : Bool → List Payload → Call
  submit : Bool → Payload → Call
  check : Bool → ℕ → Call
  submit_notify : Payload → ℕ → Call
  async_result : ℕ → Call
  ws_connect sse_connect : Dict Value → Call
  ws_send : ℕ → ℕ → List ℕ → ℕ → Call
  ws_receive ws_close sse_next_event sse_close : ℕ → Call
  free_string : ℕ → Call
  open_pipe : ℕ → ℕ → Call
  close_fd : ℕ → Call

-- The calls so far, the newest first.
abbrev pub Log : Type 0
Log = List Call

-- What the newest call of a log gives back: a handle, a code, or a pointer, `none` for NULL; and
-- the bytes that stand at a pointer.
pub record Go : Type 0 where
  pub load : Result (Unit {0})
  pub exports : String → Bool
  pub handle : Log → ℕ
  pub code : Log → ℤ
  pub pointer : Log → Option ℕ
  pub bytes : Log → ℕ → List ℕ

-- The calls that hand out a string to be freed.
unfoldable pub allocates : Call → Bool
allocates (get_request z p) = true
allocates (send_batch z ps) = true
allocates (check z h) = true
allocates (async_result h) = true
allocates (ws_receive h) = true
allocates (sse_next_event h) = true
allocates c = false

unfoldable pub is_free : Call → Bool
is_free (free_string p) = true
is_free c = false

-- A log in which each string that was handed out is freed once, before the next call, and nothing
-- else is freed.
pub data IsClean (go : Go) : Log → Type 0 where
  start : IsClean go []
  plain :
      {c : Call} {log : Log}
      → allocates c ≡ false
      → is_free c ≡ false
      → IsClean go log
      → IsClean go (c ∷ log)
  null :
      {c : Call} {log : Log}
      → go.pointer (c ∷ log) ≡ none
      → is_free c ≡ false
      → IsClean go log
      → IsClean go (c ∷ log)
  freed :
      {c : Call} {log : Log} {p : ℕ}
      → go.pointer (c ∷ log) ≡ some p
      → allocates c ≡ true
      → IsClean go log
      → IsClean go (free_string p ∷ c ∷ log)

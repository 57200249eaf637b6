-- ===== src/Sse.antt =====
-- `SSEConnection` of cycletls/sse.py.
pub mod Laws
pub mod Streams
pub mod Tracking
pub mod Tests
use cycletls_python.Base.{
  ℕ, ℤ, pos, String, Bool, true, false, not, ◌||◌, List, [], ◌∷◌, ◌++◌, Option, none, some, ◌==◌,
  if◌then◌else◌, eqb, or_default, map, is_some,
}
use cycletls_python.Dict.{Dict, set, update}
use cycletls_python.Errors.{Error, error, sse_module_error, Result, ok, err}
use cycletls_python.Exec.{Exec, pure, raise, lift, gets, modify, guard, on, ◌>>=◌, ◌>>◌}
use cycletls_python.Text.{join}
use cycletls_python.Values.{Atom, str, int, Value, atom, dict, text}
use cycletls_python.Library.{Log, Go, sse_connect, sse_next_event, sse_close, free_string}

pub record SseEvent : Type 0 where
  pub data_text : String
  pub event : String
  pub id : Option String
  pub retry : Option ℤ

-- The dictionary that the Go side answers with; `none` is a key that is not there.
pub record EventReply : Type 0 where
  pub eof : Option Bool
  pub error_text : Option String
  pub data_text : Option String
  pub event : Option String
  pub id : Option String
  pub retry : Option ℤ

pub record SseConnection : Type 0 where
  pub url : String
  pub headers : Dict Atom
  pub ja3 : Option String
  pub user_agent : Option String
  pub proxy : Option String
  pub timeout : ℤ
  pub last_event_id : Option String
  pub handle : Option ℕ
  pub connected : Bool
  pub retry_time : ℤ
  pub log : Log

-- __init__ with an address, the headers and the event to resume from
unfoldable pub init : String → Dict Atom → Option String → SseConnection
init url headers last_event_id = record {
  url = url;
  headers = headers;
  ja3 = none;
  user_agent = none;
  proxy = none;
  timeout = pos 30;
  last_event_id = last_event_id;
  handle = none;
  connected = false;
  retry_time = pos 3000;
  log = [];
}

-- A text that is there and not empty.
abbrev pub non_empty : Option String → Bool
non_empty none = false
non_empty (some s) = not (s == "")

-- if s: options[key] = s
unfoldable pub set_if : String → Option String → Dict Value → Dict Value
set_if key none d = d
set_if key (some s) d = if s == "" then d else set key (text s) d

-- headers_dict
unfoldable pub headers_dict : SseConnection → Dict Atom
headers_dict s =
    let d =
      update (("Accept", str "text/event-stream") ∷ ("Cache-Control", str "no-cache") ∷ [])
        s.headers in
    on s.last_event_id d (λ i. if i == "" then d else set "Last-Event-ID" (str i) d)

-- options
unfoldable pub options : SseConnection → Dict Value
unfolding headers_dict set_if
options s = set_if "proxy" s.proxy (
    set_if "userAgent" s.user_agent (
      set_if "ja3" s.ja3 (
        ("url", text s.url)
        ∷ ("headers", dict (headers_dict s))
        ∷ ("timeout", atom (int s.timeout))
        ∷ [])))

-- the event of a reply that is neither an end nor an error, and what is tracked of it
unfoldable pub event_of : EventReply → SseEvent
event_of r = record {
  data_text = or_default r.data_text "";
  event = or_default r.event "message";
  id = r.id;
  retry = r.retry;
}

unfoldable pub track : SseEvent → SseConnection → SseConnection
track e s = record s {
  last_event_id = if non_empty e.id then e.id else s.last_event_id;
  retry_time = elim e.retry [
    | none ↦ s.retry_time
    | some (pos n) ↦ if eqb n 0 then s.retry_time else pos n
    | some z ↦ z
  ];
}

module _ (go : Go) where
  -- connect(), past the test of `_connected`
  unfoldable pub open_stream : Exec SseConnection (Unit {0})
  unfolding options
  open_stream = do
    lift go.load
    guard (not (go.exports "sseConnect")) (
        error sse_module_error
          "SSE support requires rebuilding the Go library with SSE exports. The current library does not have sseConnect exported.")
    modify (λ s. record s { log = sse_connect (options s) ∷ s.log })
    handle ← gets (λ s. go.handle s.log)
    url ← gets (λ s. s.url)
    guard (eqb handle 0)
        (error sse_module_error (join ("Failed to connect to SSE endpoint: " ∷ url ∷ [])))
    modify (λ s. record s { handle = some handle; connected = true })

  -- connect()
  unfoldable pub connect : Exec SseConnection (Unit {0})
  unfolding open_stream
  connect s = if s.connected then (ok tt, s) else open_stream s

  -- close(), past its test
  unfoldable pub release : ℕ → Exec SseConnection (Unit {0})
  release handle = do
    lift go.load
    modify
        (λ s. record s { log = if go.exports "sseClose" then sse_close handle ∷ s.log else s.log })
    modify (λ s. record s { handle = none; connected = false })

  -- close()
  unfoldable pub close : Exec SseConnection (Unit {0})
  unfolding release
  close s = on s.handle (ok tt, s) (λ handle. if s.connected then release handle s else (ok tt, s))

  -- base64.b64decode and ormsgpack.unpackb
  module _ (unpack : List ℕ → Result EventReply) where
    abbrev inactive_error : Result (Option SseEvent)
    inactive_error = err (error sse_module_error "SSE connection is not active")

    -- next_event(), from the reply on
    unfoldable pub take_reply : EventReply → Exec SseConnection (Option SseEvent)
    unfolding event_of track
    take_reply r s =
        if or_default r.eof false
        then (ok none, record s { connected = false })
        else on r.error_text (ok (some (event_of r)), track (event_of r) s)
            (λ m. (err (error sse_module_error m), s))

    -- next_event(), from the pointer on
    unfoldable pub take_pointer : Option ℕ → Exec SseConnection (Option SseEvent)
    unfolding take_reply
    take_pointer none = do modify (λ s. record s { connected = false }); pure none
    take_pointer (some p) = do
      raw ← gets (λ s. go.bytes s.log p)
      modify (λ s. record s { log = free_string p ∷ s.log })
      reply ← lift (unpack raw)
      take_reply reply

    -- next_event(), past its test
    unfoldable pub read_event : ℕ → Exec SseConnection (Option SseEvent)
    unfolding take_pointer
    read_event handle = do
      lift go.load
      guard (not (go.exports "sseNextEvent"))
          (error sse_module_error "SSE next_event not supported in this library build")
      modify (λ s. record s { log = sse_next_event handle ∷ s.log })
      pointer ← gets (λ s. go.pointer s.log)
      take_pointer pointer

    -- next_event()
    unfoldable pub next_event : Exec SseConnection (Option SseEvent)
    unfolding read_event
    next_event s =
        on s.handle (inactive_error, s)
          (λ handle. if s.connected then read_event handle s else (inactive_error, s))

-- ===== src/Sse/Tests.antt =====
-- An event stream against a library that answers from a script.
use cycletls_python.Base.{
  ℕ, pos, String, true, List, [], ◌∷◌, none, some, ◌≡◌, refl, length, ltb, if◌then◌else◌,
}
use cycletls_python.Dict.{lookup}
use cycletls_python.Errors.{error, value_error, Result, ok, err}
use cycletls_python.Values.{str}
use cycletls_python.Library.{Go}
use cycletls_python.Sse.{SseConnection, EventReply, init, headers_dict, connect, close, next_event}
use cycletls_python.Sse.Streams.{IsValid, connecting, reading, closing, run, stream-IsValid}
use cycletls_python.Sse.Tracking.{iterate, iterate_resumes, ended_keeps_handle}

-- A library with every export; the first two strings are events, the third ends the stream. The
-- byte at a pointer says which string it is.
abbrev scripted : Go
scripted = record {
  load = ok tt;
  exports = λ name. true;
  handle = λ log. 7;
  code = λ log. pos 0;
  pointer = λ log. some (length log);
  bytes = λ log p. p ∷ [];
}

abbrev event_reply : String → EventReply
event_reply i = record {
  eof = none;
  error_text = none;
  data_text = some "x";
  event = none;
  id = some i;
  retry = some (pos 500);
}

abbrev unpack : List ℕ → Result EventReply
unpack [] = err (error value_error "empty")
unpack (n ∷ ns) =
    if ltb n 3
    then ok (event_reply "a")
    else if ltb n 5
    then ok (event_reply "b")
    else ok (record (event_reply "") { eof = some true })

abbrev connected : SseConnection
connected = (connect scripted (init "https://a.test/events" [] none)).1

iterate_test : (iterate scripted unpack 3 connected).2.last_event_id ≡ some "b"
unfolding iterate connect next_event init
iterate_test = refl

stream-IsValid_example : IsValid scripted (
    run scripted unpack
      (connecting ∷ reading ∷ reading ∷ closing ∷ reading ∷ [])
      (init "https://a.test/events" [] none))
stream-IsValid_example = stream-IsValid scripted unpack _ "https://a.test/events" [] none

iterate_resumes_example :
    ((iterate scripted unpack 3 connected).2.last_event_id ≡ some "b")
    × (lookup "Last-Event-ID" (headers_dict (iterate scripted unpack 3 connected).2)
        ≡ some (str "b"))
unfolding iterate connect next_event init
iterate_resumes_example = iterate_resumes scripted unpack 3 connected "b" refl refl

abbrev at_end : SseConnection
at_end = run scripted unpack (reading ∷ reading ∷ []) connected

ended_keeps_handle_example :
    ((next_event scripted unpack at_end).1.handle ≡ at_end.handle)
    × (close scripted (next_event scripted unpack at_end).1
        ≡ (ok tt, (next_event scripted unpack at_end).1))
unfolding run connect next_event init
ended_keeps_handle_example = ended_keeps_handle scripted unpack at_end refl

-- ===== src/Client/BatchTests.antt =====
-- A client that sends, over a library that is not there, and batches of it.
use cycletls_python.Base.{String, true, false, List, [], ◌∷◌, none, some, pos, ◌≡◌, refl}
use cycletls_python.Dict.{lookup}
use cycletls_python.Errors.{error, runtime_error, value_error, Result, ok, err, Raises}
use cycletls_python.Exec.{Exec}
use cycletls_python.Text.{ascii}
use cycletls_python.Text.Pattern.{ascii_digits}
use cycletls_python.Values.{str, int, atom, Payload, text}
use cycletls_python.Response.{Reply, Response}
use cycletls_python.Response.Decode.{Decoders, decode_body, decode_cookies}
use cycletls_python.Response.Failures.{raise_for_error_response}
use cycletls_python.Library.{Go}
use cycletls_python.Ffi.{Ffi, Codec}
use cycletls_python.Ffi
use cycletls_python.Arguments.{arguments}
use cycletls_python.Client.{init, request, arequest, parse_response, wrap_others}
use cycletls_python.Client.Prepare.{words}
use cycletls_python.Client.Batch.{
  Item, build_batch_payload, build_all, run_batch, batch, abatch, encode_item, send_payloads,
}
use cycletls_python.Client.BatchLaws.{Each, Numbered, batch_in_order, batch_drops_options}
use cycletls_python.Client.Laws.{IsCycletls, errors-IsCycletls}
use cycletls_python.Client.Closing.{Action, requesting, arequesting, batching, aclosing}
use cycletls_python.Client.Tests.{printing, python, call, own, sent, first, both_sent}

abbrev pub missing : Go
missing = record {
  load = err (error runtime_error "no library");
  exports = λ name. true;
  handle = λ log. 9;
  code = λ log. pos 0;
  pointer = λ log. none;
  bytes = λ log p. [];
}

abbrev pub codec : Codec
codec = record {
  b64decode = λ bs. ok bs;
  unpackb = λ bs. err (error value_error "Unpack failed: incomplete input");
  unpackb_batch = λ bs. ok none;
}

abbrev pub decoders : Decoders
decoders = record {
  fromisoformat = λ s. err (error value_error "Invalid isoformat string");
  b64decode = λ s. err (error value_error "Incorrect padding");
}

abbrev item : String → Item String
item url = record {
  url = some url;
  method = none;
  params = [];
  body = some (words (str "x"));
  json_data = none;
  headers = own;
  header_values = none;
  options = ("timeout", atom (int (pos 5))) ∷ ("cookies", text "dropped") ∷ [];
}

abbrev items : List (Item String)
items = item "http://a.test/1" ∷ item "http://a.test/2" ∷ []

payload_of : Result Payload → Payload
payload_of (ok payload) = payload
payload_of (err e) = record { request_id = ""; options = [] }

abbrev reply : String → Reply
reply body = record {
  request_id = none;
  status = some 200;
  headers = none;
  body = some body;
  body_bytes = none;
  cookies = none;
  final_url = none;
  proto = none;
}

-- It answers each payload with its identifier.
answer : List Payload → List Reply
answer [] = []
answer (q ∷ qs) = reply q.request_id ∷ answer qs

send_all : List Payload → Exec Ffi (List Reply)
send_all payloads s = (ok (answer payloads), s)

pub refuse : Payload → Exec Ffi Reply
refuse payload s = (err (error runtime_error "no library"), s)

responses_of : Result (List Response) → List Response
responses_of (ok rs) = rs
responses_of (err e) = []

payloads_of : Result (List Payload) → List Payload
payloads_of (ok ps) = ps
payloads_of (err e) = []

abbrev asked : List (Action String)
asked =
    requesting "r1" (call "get" none) (arguments [] (some own))
    ∷ batching items
    ∷ aclosing
    ∷ arequesting true "r2" (call "get" none) (arguments [] none)
    ∷ []

built :
    build_all ⦃p = printing⦄ python 0 items
    ≡ ok (payloads_of (build_all ⦃p = printing⦄ python 0 items))
unfolding build_all build_batch_payload encode_item payloads_of
built = refl

errors-IsCycletls_example :
    Raises IsCycletls
      (request ⦃c = ascii⦄ decoders ⦃d = ascii_digits⦄ ⦃p = printing⦄ python missing codec refuse
        (init false)
        "r1"
        (call "get" none)
        (arguments [] (some own))
        Ffi.init).0
    × Raises IsCycletls
        (arequest ⦃c = ascii⦄ decoders ⦃d = ascii_digits⦄ ⦃p = printing⦄ python missing codec refuse
          refuse refuse true
          (init false)
          "r1"
          (call "get" none)
          (arguments [] (some own))
          Ffi.init).0
    × Raises IsCycletls
        (batch ⦃p = printing⦄ python ⦃c = ascii⦄ decoders send_all (init false) items Ffi.init).0
    × Raises IsCycletls
        (abatch ⦃p = printing⦄ python ⦃c = ascii⦄ decoders send_all (init false) items Ffi.init).0
unfolding init
errors-IsCycletls_example =
    errors-IsCycletls ⦃c = ascii⦄ decoders ⦃d = ascii_digits⦄ ⦃p = printing⦄ python missing codec
      refuse refuse refuse send_all send_all (init false) "r1" (call "get" none)
      (arguments [] (some own)) true (item "http://a.test/1") (item "http://a.test/2" ∷ [])
      (sent first.0) (payloads_of (build_all ⦃p = printing⦄ python 0 items)) Ffi.init refl
      both_sent.0 built

abbrev ran : Result (List Response)
ran =
    (run_batch ⦃p = printing⦄ python ⦃c = ascii⦄ decoders "failed: " send_all (init false) items
      Ffi.init).0

ran_ok : ran ≡ ok (responses_of ran)
unfolding run_batch build_all build_batch_payload encode_item init responses_of send_all answer
    send_payloads wrap_others raise_for_error_response decode_body decode_cookies parse_response
ran_ok = refl

batch_in_order_example :
    ((init false).closed ≡ false)
    × ((payloads : List Payload) × (replies : List Reply) × Numbered ⦃p = printing⦄ python 0 items
          payloads
        × ((send_all payloads Ffi.init).0 ≡ ok replies)
        × Each
            (λ reply r. parse_response ⦃c = ascii⦄ decoders reply ≡ ok r)
            replies
            (responses_of ran))
batch_in_order_example =
    batch_in_order ⦃p = printing⦄ python ⦃c = ascii⦄ decoders "failed: " send_all (init false)
      (item "http://a.test/1") (item "http://a.test/2" ∷ []) (responses_of ran) Ffi.init ran_ok

abbrev alone : Result Payload
alone = build_batch_payload ⦃p = printing⦄ python (item "http://a.test/1") "batch_0"

batch_drops_options_example : lookup "cookies" (payload_of alone).options ≡ none
unfolding build_batch_payload encode_item payload_of
batch_drops_options_example =
    batch_drops_options ⦃p = printing⦄ python (item "http://a.test/1") "batch_0" "cookies"
      (payload_of alone) refl refl

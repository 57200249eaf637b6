-- ===== src/Client/Batch.antt =====
-- `batch`, `abatch` and `_build_batch_payload` of cycletls/api.py.
use cycletls_python.Base.{
  ℕ, suc, pos, String, false, List, [], ◌∷◌, Option, none, some, or_default, if◌then◌else◌,
}
use cycletls_python.Dict.{Dict, lookup, set, has}
use cycletls_python.Errors.{error, cycletls_error, value_error, Result, ok, err, ◌>>=◌}
use cycletls_python.Text.{Casing, join, decimal}
use cycletls_python.Values.{
  Atom, str, bytes, bool, int, Multi, Value, atom, dict, multi, text, Payload, is_nil,
}
use cycletls_python.Request.{normalize_all}
use cycletls_python.Request.Cookie.{put, opt}
use cycletls_python.Response.{Reply, Response}
use cycletls_python.Response.Decode.{Decoders}
use cycletls_python.Exec.{Exec}
use cycletls_python.Ffi.{Ffi}
use cycletls_python.Url.{Printing, show, Params, merge_url_params}
use cycletls_python.Client.{Client, parse_response, wrap_error}
use cycletls_python.Client.Prepare.{Body, fields, octets, words, Environment, encode_form}

-- A dictionary of a batch: the keys that are read by themselves, and all others.
pub record Item (J : Type 0) : Type 0 where
  pub url : Option String
  pub method : Option String
  pub params : Params
  pub body : Option Body
  pub json_data : Option J
  pub headers : Dict Atom
  pub header_values : Option (Dict Multi)
  pub options : Dict Value

-- the text and the bytes of a body, and the headers with its Content-Type
pub record Encoded : Type 0 where
  pub body : Option String
  pub body_bytes : Option (List ℕ)
  pub headers : Dict Atom

abbrev default_ja3 : String
default_ja3 =
    "771,4865-4866-4867-49195-49199-49196-49200-52393-52392-49171-49172-156-157-47-53,65037-5-65281-16-45-10-13-0-18-23-35-43-11-27-51-17613,4588-29-23-24,0"

abbrev default_user_agent : String
default_user_agent =
    "Mozilla/5.0 (X11; Linux x86_64) AppleWebKit/537.36 (KHTML, like Gecko) Chrome/149.0.0.0 Safari/537.36"

-- req.get(key, default)
abbrev get_option : String → Value → Dict Value → Value
get_option key default d = or_default (lookup key d) default

module _ {J : Type 0} ⦃p : Printing⦄ (py : Environment J) where
  -- the body of an item, over a copy of its headers
  unfoldable pub encode_item : Option J → Option Body → Dict Atom → Result Encoded
  unfolding encode_form has
  encode_item (some j) (some body) h =
      err (error value_error "Cannot specify both 'data' and 'json_data' in batch request")
  encode_item (some j) none h = ok (record {
    body = some (py.dumps j);
    body_bytes = none;
    headers = set "Content-Type" (str "application/json") h;
  })
  encode_item none none h = ok (record { body = none; body_bytes = none; headers = h })
  encode_item none (some (fields form)) h = ok (record {
    body = some (encode_form form);
    body_bytes = none;
    headers =
        if has "Content-Type" h
        then h
        else set "Content-Type" (str "application/x-www-form-urlencoded") h;
  })
  encode_item none (some (octets b)) h =
      ok (record { body = none; body_bytes = some b; headers = h })
  encode_item none (some (words a)) h =
      ok (record { body = some (show a); body_bytes = none; headers = h })

  -- the keys that are always there
  unfoldable pub fixed_options : Item J → Encoded → Dict Value
  unfolding merge_url_params
  fixed_options item e =
      ("url", text (merge_url_params py.urls (or_default item.url "") item.params))
      ∷ ("method", text (or_default item.method "GET"))
      ∷ ("headers", dict e.headers)
      ∷ ("body", text (or_default e.body ""))
      ∷ ("ja3", get_option "ja3" (text default_ja3) item.options)
      ∷ ("userAgent", get_option "user_agent" (text default_user_agent) item.options)
      ∷ ("timeout", get_option "timeout" (atom (int (pos 30))) item.options)
      ∷ ("proxy", get_option "proxy" (text "") item.options)
      ∷ ("disableRedirect", get_option "disable_redirect" (atom (bool false)) item.options)
      ∷ ("insecureSkipVerify", get_option "insecure_skip_verify" (atom (bool false)) item.options)
      ∷ []

  -- _build_batch_payload
  unfoldable pub build_batch_payload : Item J → String → Result Payload
  unfolding encode_item fixed_options put
  build_batch_payload item request_id = do
    e ← encode_item item.json_data item.body item.headers
    ok (record {
      request_id = request_id;
      options =
          put "headerValues" (opt (λ d. multi (normalize_all d)) item.header_values)
            (put "bodyBytes" (opt (λ b. atom (bytes b)) e.body_bytes) (fixed_options item e));
    })

  -- f"batch_{i}"
  unfoldable pub batch_id : ℕ → String
  unfolding join decimal
  batch_id i = join ("batch_" ∷ decimal i ∷ [])

  -- the payloads of the items, from the index `i` on
  unfoldable pub build_all : ℕ → List (Item J) → Result (List Payload)
  unfolding build_batch_payload batch_id
  build_all i [] = ok []
  build_all i (item ∷ items) = do
    payload ← build_batch_payload item (batch_id i)
    payloads ← build_all (suc i) items
    ok (payload ∷ payloads)

  module _ ⦃c : Casing⦄ (decoders : Decoders) where
    -- [self._parse_response(rd) for rd in response_data_list]
    unfoldable pub parse_all : List Reply → Result (List Response)
    unfolding parse_response
    parse_all [] = ok []
    parse_all (reply ∷ replies) = do
      response ← parse_response decoders reply
      responses ← parse_all replies
      ok (response ∷ responses)

    -- the replies of a batch that was sent
    unfoldable pub parse_replies : String → Result (List Reply) → Result (List Response)
    unfolding wrap_error parse_all
    parse_replies message replies = do found ← wrap_error message replies; parse_all found

    -- what is done with the payloads
    unfoldable pub send_payloads :
        String
        → (List Payload → Exec Ffi (List Reply))
        → Result (List Payload)
        → Exec Ffi (List Response)
    unfolding parse_replies
    send_payloads message send (err e) s = (err e, s)
    send_payloads message send (ok payloads) s =
        (parse_replies message (send payloads s).0, (send payloads s).1)

    -- the items of a batch, of which there are some
    unfoldable pub run_items :
        String → (List Payload → Exec Ffi (List Reply)) → List (Item J) → Exec Ffi (List Response)
    unfolding send_payloads build_all is_nil
    run_items message send items s =
        if is_nil items then (ok [], s) else send_payloads message send (build_all 0 items) s

    -- batch with send_batch_request, and abatch with send_requests_batch
    unfoldable pub run_batch :
        String
        → (List Payload → Exec Ffi (List Reply))
        → Client
        → List (Item J)
        → Exec Ffi (List Response)
    unfolding run_items
    run_batch message send client items s =
        if client.closed
        then (err (error cycletls_error "CycleTLS client is closed"), s)
        else run_items message send items s

    abbrev pub batch :
        (List Payload → Exec Ffi (List Reply)) → Client → List (Item J) → Exec Ffi (List Response)
    batch = run_batch "Failed to execute batch request: "

    abbrev pub abatch :
        (List Payload → Exec Ffi (List Reply)) → Client → List (Item J) → Exec Ffi (List Response)
    abatch = run_batch "Failed to execute async batch request: "

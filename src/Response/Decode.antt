-- ===== src/Response/Decode.antt =====
-- `_dict_to_cookie` and `_dict_to_response` of cycletls/schema.py. `datetime.fromisoformat` and
-- `base64.b64decode` are the interpreter's, and parameters here.
use cycletls_python.Base.{
  ℕ, String, Bool, false, List, [], ◌∷◌, Option, none, some, if◌then◌else◌, or_default, ◌==◌,
}
use cycletls_python.Errors.{error, cycletls_error, key_error, Result, ok, err, ◌>>=◌, ◌>>◌}
use cycletls_python.Text.{Casing, endswith, join, without_last}
use cycletls_python.Cookies.{DateTime, Cookie}
use cycletls_python.Values.{is_nil}
use cycletls_python.Response.{
  RawBody, raw, base64, CookieReply, Reply, Response, status_of, body_of,
}
use cycletls_python.Response.Failures.{raise_for_error_response}

-- `datetime.fromisoformat(s)` and `base64.b64decode(s)`, with the error that each raises.
pub record Decoders : Type 0 where
  pub fromisoformat : String → Result DateTime
  pub b64decode : String → Result (List ℕ)

-- data[key]
abbrev required {ℓ} : {A : Type ℓ} → String → Option A → Result A
required key none = err (error key_error key)
required key (some a) = ok a

-- the text that `fromisoformat` is given: "Z" becomes "+00:00"
unfoldable pub iso_text : String → String
iso_text s = if endswith s "Z" then join (without_last s ∷ "+00:00" ∷ []) else s

-- `expires`: None unless the key is there and its text is not empty
unfoldable pub parse_expires : Decoders → Option String → Result (Option DateTime)
unfolding iso_text
parse_expires py none = ok none
parse_expires py (some s) =
    if s == ""
    then ok none
    else elim (py.fromisoformat (iso_text s)) [ ok d ↦ ok (some d) | err e ↦ err e ]

-- _dict_to_cookie
unfoldable pub dict_to_cookie : Decoders → CookieReply → Result Cookie
unfolding parse_expires
dict_to_cookie py entry = do
  expires ← parse_expires py entry.expires
  name ← required "name" entry.name
  value ← required "value" entry.value
  ok (record {
    name = name;
    value = value;
    attributes = record {
      path = entry.path;
      domain = entry.domain;
      expires = expires;
      max_age = entry.max_age;
      secure = or_default entry.secure false;
      http_only = or_default entry.http_only false;
      same_site = entry.same_site;
    };
  })

-- [_dict_to_cookie(c) for c in data["Cookies"]]
unfoldable pub dicts_to_cookies : Decoders → List CookieReply → Result (List Cookie)
unfolding dict_to_cookie
dicts_to_cookies py [] = ok []
dicts_to_cookies py (c ∷ cs) = do
  first ← dict_to_cookie py c
  rest ← dicts_to_cookies py cs
  ok (first ∷ rest)

-- raw_cookies: None unless the key is there and its list is not empty
unfoldable pub decode_cookies : Decoders → Option (List CookieReply) → Result (Option (List Cookie))
unfolding dicts_to_cookies
decode_cookies py none = ok none
decode_cookies py (some []) = ok none
decode_cookies py (some (c ∷ cs)) = do
  all_of_them ← dicts_to_cookies py (c ∷ cs)
  ok (some all_of_them)

-- body_bytes: None unless the key is there and its value is not empty
unfoldable pub decode_body : Decoders → Option RawBody → Result (Option (List ℕ))
unfolding is_nil
decode_body py none = ok none
decode_body py (some (raw bs)) = if is_nil bs then ok none else ok (some bs)
decode_body py (some (base64 s)) = if s == "" then ok none else elim (py.b64decode s) [
  | ok bs ↦ ok (some bs)
  | err e ↦
      err
        (error cycletls_error (join ("Failed to decode BodyBytes from base64: " ∷ e.message ∷ [])))
]

-- _dict_to_response(data, raise_on_error)
unfoldable pub dict_to_response : ⦃c : Casing⦄ → Decoders → Reply → Bool → Result Response
unfolding decode_cookies decode_body
dict_to_response py reply raise_on_error = do
  if raise_on_error then raise_for_error_response reply else ok tt
  body_bytes ← decode_body py reply.body_bytes
  raw_cookies ← decode_cookies py reply.cookies
  ok (record {
    request_id = or_default reply.request_id "";
    status_code = status_of reply;
    raw_headers = or_default reply.headers [];
    body = body_of reply;
    body_bytes = body_bytes;
    raw_cookies = raw_cookies;
    final_url = reply.final_url;
    proto = reply.proto;
    headers_dict = none;
    cookie_jar = none;
  })

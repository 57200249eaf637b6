-- ===== src/Request.antt =====
-- `Request` of cycletls/schema.py and its dictionary for the Go side.
pub mod Cookie
pub mod Laws
pub mod Wire
pub mod Forms
pub mod Tests
use cycletls_python.Base.{
  ℕ, ◌+◌, ◌-◌, ◌/◌, ◌^◌, max, ℤ, pos, negsuc, String, Bool, true, false, List, [], ◌∷◌, Option,
  none, some, map, if◌then◌else◌, ltb,
}
use cycletls_python.Dict.{Dict}
use cycletls_python.Errors.{Error, error, overflow_error, value_error, Result, ok, err, ◌>>=◌}
use cycletls_python.Text.{Casing}
use cycletls_python.Values.{
  Float, dyadic, infinity, minus_infinity, nan, Atom, str, bool, bytes, Multi, scalar, many, Value,
  atom, list, dict, multi, cookie_dicts, text, int_positive,
}
use cycletls_python.Request.Cookie.{CookieArg, cookie_to_dict, put, opt}

pub data Protocol : Type 0 where
  http1 http2 http3 websocket sse : Protocol

-- protocol.value
unfoldable pub protocol_value : Protocol → String
protocol_value http1 = "http1"
protocol_value http2 = "http2"
protocol_value http3 = "http3"
protocol_value websocket = "websocket"
protocol_value sse = "sse"

pub data Number : Type 0 where
  int : ℤ → Number
  float : Float → Number

pub record Request : Type 0 where
  pub url : String
  pub method : String
  pub body : String
  pub body_bytes : Option (List ℕ)
  pub headers : Dict Atom
  pub ja3 : Option String
  pub ja4r : Option String
  pub http2_fingerprint : Option String
  pub quic_fingerprint : Option String
  pub disable_grease : Bool
  pub server_name : Option String
  pub insecure_skip_verify : Bool
  pub tls13_auto_retry : Bool
  pub force_http1 : Bool
  pub force_http3 : Bool
  pub protocol : Option Protocol
  pub user_agent : String
  pub proxy : String
  pub local_address : Option String
  pub cookies : Option (List CookieArg)
  pub timeout : Number
  pub disable_redirect : Bool
  pub enable_connection_reuse : Bool
  pub header_order : Option (List Atom)
  pub order_headers_as_provided : Option Bool
  pub header_values : Option (Dict Multi)

-- The defaults of the fields behind `url` and `method`.
abbrev pub request : String → String → Request
request url method = record {
  url = url;
  method = method;
  body = "";
  body_bytes = none;
  headers = [];
  ja3 = none;
  ja4r = none;
  http2_fingerprint = none;
  quic_fingerprint = none;
  disable_grease = false;
  server_name = none;
  insecure_skip_verify = false;
  tls13_auto_retry = true;
  force_http1 = false;
  force_http3 = false;
  protocol = none;
  user_agent =
      "Mozilla/5.0 (X11; Linux x86_64) AppleWebKit/537.36 (KHTML, like Gecko) Chrome/149.0.0.0 Safari/537.36";
  proxy = "";
  local_address = none;
  cookies = none;
  timeout = int (pos 6);
  disable_redirect = false;
  enable_connection_reuse = true;
  header_order = none;
  order_headers_as_provided = none;
  header_values = none;
}

-- max(1, math.ceil(t)) of a positive `t`
unfoldable pub ceil_dyadic : ℕ → ℕ → ℕ
ceil_dyadic m k = max 1 ((m + (2 ^ k - 1)) / 2 ^ k)

-- timeout_int: max(1, ceil(t)) if t > 0, else 0; `math.ceil(inf)` raises
unfoldable pub timeout_int : Number → Result ℕ
unfolding ceil_dyadic int_positive
timeout_int (int (pos n)) = if ltb 0 n then ok (max 1 n) else ok 0
timeout_int (int (negsuc n)) = ok 0
timeout_int (float (dyadic (pos m) k)) = if ltb 0 m then ok (ceil_dyadic m k) else ok 0
timeout_int (float (dyadic (negsuc m) k)) = ok 0
timeout_int (float infinity) = err (error overflow_error "cannot convert float infinity to integer")
timeout_int (float minus_infinity) = ok 0
timeout_int (float nan) = ok 0

-- list(v) if isinstance(v, (list, tuple)) else [v]
unfoldable pub normalize : Multi → Multi
normalize (scalar a) = many (a ∷ [])
normalize (many xs) = many xs

abbrev pub normalize_all : Dict Multi → Dict Multi
normalize_all = map (λ e. (e.0, normalize e.1))

-- the keys that are always there
unfoldable pub required_fields : Request → ℕ → Dict Value
required_fields r timeout =
    ("url", text r.url)
    ∷ ("method", text r.method)
    ∷ ("body", text r.body)
    ∷ ("headers", dict r.headers)
    ∷ ("disableGrease", atom (bool r.disable_grease))
    ∷ ("insecureSkipVerify", atom (bool r.insecure_skip_verify))
    ∷ ("tls13AutoRetry", atom (bool r.tls13_auto_retry))
    ∷ ("forceHTTP1", atom (bool r.force_http1))
    ∷ ("forceHTTP3", atom (bool r.force_http3))
    ∷ ("userAgent", text r.user_agent)
    ∷ ("proxy", text r.proxy)
    ∷ ("timeout", atom (Atom.int (pos timeout)))
    ∷ ("disableRedirect", atom (bool r.disable_redirect))
    ∷ ("enableConnectionReuse", atom (bool r.enable_connection_reuse))
    ∷ []

-- the keys that are there when their field is not None, in the order of the code
unfoldable pub optional_fields : ⦃c : Casing⦄ → Request → List (String × Option Value)
unfolding cookie_to_dict normalize protocol_value
optional_fields r =
    ("ja3", opt text r.ja3)
    ∷ ("bodyBytes", opt (λ b. atom (bytes b)) r.body_bytes)
    ∷ ("ja4r", opt text r.ja4r)
    ∷ ("http2Fingerprint", opt text r.http2_fingerprint)
    ∷ ("quicFingerprint", opt text r.quic_fingerprint)
    ∷ ("serverName", opt text r.server_name)
    ∷ ("localAddress", opt text r.local_address)
    ∷ ("protocol", opt (λ p. text (protocol_value p)) r.protocol)
    ∷ ("cookies", opt (λ cs. cookie_dicts (map cookie_to_dict cs)) r.cookies)
    ∷ ("headerOrder", opt list r.header_order)
    ∷ ("orderHeadersAsProvided", opt (λ b. atom (bool b)) r.order_headers_as_provided)
    ∷ ("headerValues", opt (λ d. multi (normalize_all d)) r.header_values)
    ∷ []

-- if x is not None: result[key] = x, one after the other
unfoldable pub put_all {ℓ} : {V : Type ℓ} → List (String × Option V) → Dict V → Dict V
unfolding put
put_all [] d = d
put_all ((key, v) ∷ rest) d = put_all rest (put key v d)

-- to_dict()
unfoldable pub to_dict : ⦃c : Casing⦄ → Request → Result (Dict Value)
unfolding put_all timeout_int
to_dict r = do
  timeout ← timeout_int r.timeout
  ok (put_all (optional_fields r) (required_fields r timeout))

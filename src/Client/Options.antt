-- ===== src/Client/Options.antt =====
-- `Request(method=..., url=..., **kwargs)` of cycletls/schema.py: the request that keyword arguments
-- make. A member of `Protocol` stands as the text of its value.
use cycletls_python.Base.{
  ℕ, String, Bool, List, [], ◌∷◌, Option, none, some, or_default, ◌==◌, any, if◌then◌else◌,
}
use cycletls_python.Dict.{Dict, lookup, keys}
use cycletls_python.Errors.{error, type_error, Result, ok, err, ◌>>=◌}
use cycletls_python.Exec.{on}
use cycletls_python.Text.{Casing, join}
use cycletls_python.Values.{Atom, bool, str, bytes, Multi, Value, atom, list, multi}
use cycletls_python.Request.{
  Protocol, http1, http2, http3, websocket, sse, Number, Request, to_dict,
}
use cycletls_python.Request
use cycletls_python.Request.Cookie.{CookieArg}

-- the fields of Request that a keyword may give, besides url, method, headers and cookies
unfoldable pub option_names : List String
option_names =
    "body" ∷ "body_bytes" ∷ "ja3" ∷ "ja4r" ∷ "http2_fingerprint" ∷ "quic_fingerprint"
    ∷ "disable_grease" ∷ "server_name" ∷ "insecure_skip_verify" ∷ "tls13_auto_retry" ∷ "force_http1"
    ∷ "force_http3" ∷ "protocol" ∷ "user_agent" ∷ "proxy" ∷ "local_address" ∷ "timeout"
    ∷ "disable_redirect" ∷ "enable_connection_reuse" ∷ "header_order" ∷ "order_headers_as_provided"
    ∷ "header_values" ∷ []

-- The value of a field of a type; None where the field may be None.
unfoldable pub as_text : Value → Option String
as_text (atom (str s)) = some s
as_text _ = none

unfoldable pub as_bytes : Value → Option (List ℕ)
as_bytes (atom (bytes b)) = some b
as_bytes _ = none

unfoldable pub as_bool : Value → Option Bool
as_bool (atom (bool b)) = some b
as_bool _ = none

unfoldable pub as_number : Value → Option Number
as_number (atom (Atom.int n)) = some (Number.int n)
as_number (atom (Atom.float x)) = some (Number.float x)
as_number _ = none

unfoldable pub as_list : Value → Option (List Atom)
as_list (list l) = some l
as_list _ = none

unfoldable pub as_multi : Value → Option (Dict Multi)
as_multi (multi d) = some d
as_multi _ = none

unfoldable pub protocol_of : String → Option Protocol
protocol_of s =
    if s == "http1"
    then some http1
    else if s == "http2"
    then some http2
    else if s == "http3"
    then some http3
    else if s == "websocket"
    then some websocket
    else if s == "sse"
    then some sse
    else none

unfoldable pub as_protocol : Value → Option Protocol
unfolding protocol_of
as_protocol (atom (str s)) = protocol_of s
as_protocol _ = none

-- the option, where None is a value of its field
unfoldable pub optional {ℓ} : {A : Type ℓ} → (Value → Option A) → String → Dict Value → Option A
optional read key options = on (lookup key options) none read

-- the option, or the default of its field
unfoldable pub given {ℓ} : {A : Type ℓ} → (Value → Option A) → A → String → Dict Value → A
unfolding optional
given read default key options = or_default (optional read key options) default

-- the first keyword that is no field
unfoldable pub unknown : List String → Option String
unfolding option_names
unknown [] = none
unknown (k ∷ ks) = let rest = unknown ks in if any (λ n. n == k) option_names then rest else some k

unfoldable pub raise_unknown : Option String → Result (Unit {0})
raise_unknown none = ok tt
raise_unknown (some k) = err (
    error type_error
      (join ("Request.__init__() got an unexpected keyword argument '" ∷ k ∷ "'" ∷ [])))

module _ (url method : String) (headers : Dict Atom) (cookies : Option (List CookieArg)) where
  -- Request(**kwargs), of options with values of the documented types; one of another type counts
  -- here as if it was not given
  unfoldable pub request_of : Dict Value → Request
  unfolding given optional as_text as_bytes as_bool as_number as_list as_multi as_protocol
  request_of d =
      let default = Request.request url method in
      record {
        url = url;
        method = method;
        body = given as_text default.body "body" d;
        body_bytes = optional as_bytes "body_bytes" d;
        headers = headers;
        ja3 = optional as_text "ja3" d;
        ja4r = optional as_text "ja4r" d;
        http2_fingerprint = optional as_text "http2_fingerprint" d;
        quic_fingerprint = optional as_text "quic_fingerprint" d;
        disable_grease = given as_bool default.disable_grease "disable_grease" d;
        server_name = optional as_text "server_name" d;
        insecure_skip_verify = given as_bool default.insecure_skip_verify "insecure_skip_verify" d;
        tls13_auto_retry = given as_bool default.tls13_auto_retry "tls13_auto_retry" d;
        force_http1 = given as_bool default.force_http1 "force_http1" d;
        force_http3 = given as_bool default.force_http3 "force_http3" d;
        protocol = optional as_protocol "protocol" d;
        user_agent = given as_text default.user_agent "user_agent" d;
        proxy = given as_text default.proxy "proxy" d;
        local_address = optional as_text "local_address" d;
        cookies = cookies;
        timeout = given as_number default.timeout "timeout" d;
        disable_redirect = given as_bool default.disable_redirect "disable_redirect" d;
        enable_connection_reuse =
            given as_bool default.enable_connection_reuse "enable_connection_reuse" d;
        header_order = optional as_list "header_order" d;
        order_headers_as_provided = optional as_bool "order_headers_as_provided" d;
        header_values = optional as_multi "header_values" d;
      }

  -- Request(...): an unknown keyword is refused
  unfoldable pub new_request : Dict Value → Result Request
  unfolding unknown request_of raise_unknown
  new_request d = raise_unknown (unknown (keys d)) >>= λ _. ok (request_of d)

  -- Request(...).to_dict()
  unfoldable pub request_dict : ⦃c : Casing⦄ → Dict Value → Result (Dict Value)
  unfolding new_request to_dict
  request_dict d = do r ← new_request d; to_dict r

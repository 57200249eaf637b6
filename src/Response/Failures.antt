-- ===== src/Response/Failures.antt =====
-- `_raise_for_error_response` of cycletls/schema.py: which answers of the Go side are errors of
-- the transport, and the exception each one raises.
pub mod Laws
use cycletls_python.Base.{
  ℕ, String, Bool, ◌&&◌, ◌||◌, List, [], ◌∷◌, any, ltb, leb, eqb, if◌then◌else◌,
}
use cycletls_python.Errors.{
  Class, error, cycletls_error, connection_error, timeout, tls_error, invalid_url, Result, ok,
  raise_if, ◌>>◌,
}
use cycletls_python.Text.{Casing, lower, contains, join}
use cycletls_python.Response.{Reply, status_of, body_of}

-- _matches_any
unfoldable pub matches_any : String → List String → Bool
matches_any text = any (contains text)

abbrev pub dns_patterns : List String
dns_patterns =
    "no such host" ∷ "lookup" ∷ "dnserror" ∷ "getaddrinfo" ∷ "could not resolve" ∷ "dns" ∷ []

abbrev pub timeout_patterns : List String
timeout_patterns =
    "timeout" ∷ "deadline exceeded" ∷ "request canceled" ∷ "context canceled" ∷ "context done"
    ∷ "i/o timeout" ∷ []

abbrev pub connection_patterns : List String
connection_patterns =
    "connection reset" ∷ "connection closed" ∷ "closed network connection" ∷ "eof" ∷ "broken pipe"
    ∷ "network is unreachable" ∷ []

abbrev pub handshake_patterns : List String
handshake_patterns = "certificate" ∷ "x509:" ∷ "tls: failed to verify" ∷ "handshake" ∷ []

abbrev pub tls_patterns : List String
tls_patterns = "certificate" ∷ "x509:" ∷ "tls: failed to verify" ∷ "ssl" ∷ []

abbrev pub refused_patterns : List String
refused_patterns = "connection refused" ∷ "refused" ∷ "no connection could be made" ∷ []

abbrev pub url_patterns : List String
url_patterns =
    "invalid url" ∷ "unsupported protocol" ∷ "missing protocol scheme" ∷ "invalid character"
    ∷ "parse" ∷ "first path segment in url cannot contain colon" ∷ "unsupported scheme" ∷ []

-- `raise C(f"{prefix}{error_msg}")` when a test holds
unfoldable pub fails : Bool → Class → String → String → Result (Unit {0})
fails test class prefix msg = raise_if test (error class (join (prefix ∷ msg ∷ [])))

-- 200 <= status < 400
abbrev pub is_success : ℕ → Bool
is_success status = leb 200 status && ltb status 400

-- status in (401, 405, 408, 421, 495, 502)
abbrev pub is_go_status : ℕ → Bool
is_go_status status = any (eqb status) (401 ∷ 405 ∷ 408 ∷ 421 ∷ 495 ∷ 502 ∷ [])

-- is_error_response, of the status, the message and the message in lower case
unfoldable pub is_error_response : ℕ → String → String → Bool
is_error_response status msg low =
    eqb status 0 || contains low "syscall error:" || (is_go_status status && contains msg "->")

-- the checks on an error response, in their order
unfoldable pub raise_error : ℕ → String → String → Result (Unit {0})
unfolding matches_any fails
raise_error status msg low = do
  fails (eqb status 421 || matches_any low dns_patterns) connection_error "DNS lookup failed: " msg
  fails (eqb status 408 || matches_any low timeout_patterns) timeout "Request timed out: " msg
  fails (matches_any low connection_patterns) connection_error "Connection error: " msg
  fails (eqb status 495 && matches_any low handshake_patterns) tls_error "TLS error: " msg
  fails (matches_any low tls_patterns) tls_error "TLS error: " msg
  fails (eqb status 502 || matches_any low refused_patterns) connection_error "Connection refused: "
      msg
  fails (eqb status 405 && contains low "addr") connection_error "Address error: " msg
  fails (matches_any low url_patterns) invalid_url "Invalid URL: " msg
  fails (eqb status 401 && contains low "syscall") connection_error "Syscall error: " msg
  fails (eqb status 0) cycletls_error "Request failed: " msg

-- _raise_for_error_response
unfoldable pub raise_for_error_response : ⦃c : Casing⦄ → Reply → Result (Unit {0})
unfolding is_error_response raise_error
raise_for_error_response reply =
    if is_success (status_of reply)
    then ok tt
    else if is_error_response (status_of reply) (body_of reply) (lower (body_of reply))
    then raise_error (status_of reply) (body_of reply) (lower (body_of reply))
    else ok tt

-- ===== src/Response/Laws.antt =====
-- What the client may rely on of a `Response` of cycletls/schema.py.
use cycletls_python.Base.{
  ℕ, String, Bool, List, [], ◌∷◌, any, eqb, false, not, ◌&&◌, ◌||◌, ◌≡◌, ◌↔◌, ◌<◌, ◌≤◌, arith, leb,
}
use cycletls_python.Errors.{Result, ok, raise_if-ok}
use cycletls_python.Text.{contains}
use cycletls_python.Response.{Response}
use cycletls_python.Response.Status.{
  is_ok, is_redirect, is_client_error, is_server_error, is_error, raise_for_status,
}

raise_for_status-ok : (r : Response) → (raise_for_status r ≡ ok tt) ↔ (r.status_code < 400)
unfolding raise_for_status is_error
raise_for_status-ok r = (
  λ p. ground (arith, (raise_if-ok (leb 400 r.status_code) _).0 p),
  λ p. (raise_if-ok (leb 400 r.status_code) _).1 (ground arith),
)

-- A status from 200 up is in exactly one of the two classes `ok` and `is_error`; `is_redirect`
-- lies in `ok`, `is_client_error` and `is_server_error` lie in `is_error` and exclude each other,
-- and `raise_for_status` returns exactly below 400.
pub status_classes :
    (r : Response)
    → 200 ≤ r.status_code
    → (is_ok r ≡ not (is_error r))
      × ((is_redirect r && not (is_ok r)) ≡ false)
      × (((is_client_error r || is_server_error r) && not (is_error r)) ≡ false)
      × ((is_client_error r && is_server_error r) ≡ false)
      × ((raise_for_status r ≡ ok tt) ↔ (r.status_code < 400))
unfolding is_ok is_redirect is_client_error is_server_error is_error
status_classes r h = (ground arith, ground arith, ground arith, ground arith, raise_for_status-ok r)

abbrev shows : String → List String → Bool
shows body = any (contains body)

-- A reply that the Go side marks as its own failure: no status, the words "syscall error:", or one
-- of its statuses with "->" in the body.
unfoldable pub marked : ℕ → String → String → Bool
marked status body low =
    eqb status 0
    || contains low "syscall error:"
    || (any (eqb status) (401 ∷ 405 ∷ 408 ∷ 421 ∷ 495 ∷ 502 ∷ []) && contains body "->")

-- A reply whose status or words name a kind of failure: the name lookup, the time limit, the
-- connection, TLS, a refusal, an address, the URL, a system call, or no answer at all.
unfoldable pub named_failure : ℕ → String → Bool
named_failure status low =
    any (λ test. test)
      ((eqb status 421
          || shows low (
              "no such host" ∷ "lookup" ∷ "dnserror" ∷ "getaddrinfo" ∷ "could not resolve" ∷ "dns"
              ∷ []))
        ∷ (eqb status 408
            || shows low (
                "timeout" ∷ "deadline exceeded" ∷ "request canceled" ∷ "context canceled"
                ∷ "context done" ∷ "i/o timeout" ∷ []))
        ∷ shows low (
            "connection reset" ∷ "connection closed" ∷ "closed network connection" ∷ "eof"
            ∷ "broken pipe" ∷ "network is unreachable" ∷ [])
        ∷ (eqb status 495
            && shows low ("certificate" ∷ "x509:" ∷ "tls: failed to verify" ∷ "handshake" ∷ []))
        ∷ shows low ("certificate" ∷ "x509:" ∷ "tls: failed to verify" ∷ "ssl" ∷ [])
        ∷ (eqb status 502
            || shows low ("connection refused" ∷ "refused" ∷ "no connection could be made" ∷ []))
        ∷ (eqb status 405 && contains low "addr")
        ∷ shows low (
            "invalid url" ∷ "unsupported protocol" ∷ "missing protocol scheme" ∷ "invalid character"
            ∷ "parse" ∷ "first path segment in url cannot contain colon" ∷ "unsupported scheme"
            ∷ [])
        ∷ (eqb status 401 && contains low "syscall")
        ∷ eqb status 0
        ∷ [])

-- No test of `f` holds when `r` returned.
unfoldable Excludes : Result (Unit {0}) → Bool → Type 0
Excludes r f = r ≡ ok tt → f ≡ false

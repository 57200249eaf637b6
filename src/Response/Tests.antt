-- ===== src/Response/Tests.antt =====
-- Answers of the Go side, decoded.
use cycletls_python.Base.{
  ℕ, String, true, false, ◌≡◌, refl, ◌↔◌, inr, none, some, [], ◌∷◌, ◌<◌, arith, not, ◌&&◌, ◌||◌,
  eqb,
}
use cycletls_python.Errors.{error, connection_error, timeout, ok, err, IsErr, value_error}
use cycletls_python.Text.{ascii, join, contains, lower}
use cycletls_python.Response.{Reply, Response, body_of}
use cycletls_python.Response.Status.{
  is_ok, is_redirect, is_client_error, is_server_error, is_error, raise_for_status, reason,
}
use cycletls_python.Response.Failures.{
  is_success, is_error_response, matches_any, dns_patterns, timeout_patterns,
  raise_for_error_response,
}
use cycletls_python.Response.Failures.Laws.{
  timeout_iff, raised-IsTransport, transport_raises, IsTransport,
}
use cycletls_python.Response.Decode.{Decoders}
use cycletls_python.Response.Views.{headers, cookies, read_twice}
use cycletls_python.Response.Laws.{status_classes}

abbrev reply : ℕ → String → Reply
reply status body = record {
  request_id = some "r1";
  status = some status;
  headers = some (("Server", "nginx") ∷ []);
  body = some body;
  body_bytes = none;
  cookies = none;
  final_url = none;
  proto = some "HTTP/1.1";
}

-- Decoders that refuse every text.
abbrev no_decoders : Decoders
no_decoders = record {
  fromisoformat = λ s. err (error value_error "Invalid isoformat string");
  b64decode = λ s. err (error value_error "Incorrect padding");
}

abbrev deadline : Reply
deadline = reply 408 "Request returned a Syscall Error: context deadline exceeded"

abbrev page : Reply
page = reply 502 "<h1>502</h1><!-- padding -->"

deadline_test :
    raise_for_error_response ⦃c = ascii⦄ deadline
    ≡ err (
        error timeout
          "Request timed out: Request returned a Syscall Error: context deadline exceeded")
unfolding raise_for_error_response is_error_response matches_any contains ascii join
deadline_test = refl

lookup_test :
    raise_for_error_response ⦃c = ascii⦄ (reply 0 "lookup a.test: i/o timeout")
    ≡ err (error connection_error "DNS lookup failed: lookup a.test: i/o timeout")
unfolding raise_for_error_response is_error_response matches_any contains ascii join
lookup_test = refl

abbrev decoded : Response
decoded = record {
  request_id = "r1";
  status_code = 200;
  raw_headers = ("Server", "nginx") ∷ [];
  body = "hello";
  body_bytes = none;
  raw_cookies = none;
  final_url = none;
  proto = some "HTTP/1.1";
  headers_dict = none;
  cookie_jar = none;
}

reason_test : reason decoded ≡ "OK"
unfolding reason
reason_test = refl

timeout_iff_test :
    (raise_for_error_response ⦃c = ascii⦄ deadline
      ≡ err (error timeout (join ("Request timed out: " ∷ body_of deadline ∷ []))))
    ↔ (((eqb 408 421 || matches_any (lower ⦃c = ascii⦄ (body_of deadline)) dns_patterns) ≡ false)
        × ((eqb 408 408 || matches_any (lower ⦃c = ascii⦄ (body_of deadline)) timeout_patterns)
            ≡ true))
unfolding is_error_response contains ascii
timeout_iff_test = timeout_iff ⦃c = ascii⦄ deadline refl refl

raised-IsTransport_test :
    (is_success 408 ≡ false)
    × (is_error_response 408 (body_of deadline) (lower ⦃c = ascii⦄ (body_of deadline)) ≡ true)
    × IsTransport (body_of deadline) (
        error timeout
          "Request timed out: Request returned a Syscall Error: context deadline exceeded")
raised-IsTransport_test = raised-IsTransport ⦃c = ascii⦄ deadline _ deadline_test

transport_raises_example : IsErr (raise_for_error_response ⦃c = ascii⦄ page)
unfolding contains
transport_raises_example = transport_raises ⦃c = ascii⦄ page (inr (refl, refl))

status_classes_test :
    (is_ok decoded ≡ not (is_error decoded))
    × ((is_redirect decoded && not (is_ok decoded)) ≡ false)
    × (((is_client_error decoded || is_server_error decoded) && not (is_error decoded)) ≡ false)
    × ((is_client_error decoded && is_server_error decoded) ≡ false)
    × ((raise_for_status decoded ≡ ok tt) ↔ (200 < 400))
status_classes_test = status_classes decoded (omega arith)

read_twice_test :
    (headers ⦃c = ascii⦄ (headers ⦃c = ascii⦄ decoded).1 ≡ headers ⦃c = ascii⦄ decoded)
    × (cookies (cookies decoded).1 ≡ cookies decoded)
    × ((cookies (headers ⦃c = ascii⦄ decoded).1).0 ≡ (cookies decoded).0)
    × ((headers ⦃c = ascii⦄ (cookies decoded).1).0 ≡ (headers ⦃c = ascii⦄ decoded).0)
read_twice_test = read_twice ⦃c = ascii⦄ decoded

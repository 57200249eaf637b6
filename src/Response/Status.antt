-- ===== src/Response/Status.antt =====
-- The status of a `Response` of cycletls/schema.py: its class, its phrase, `raise_for_status`.
use cycletls_python.Base.{
  ℕ, String, Bool, ◌&&◌, Option, none, some, List, [], ◌∷◌, ltb, leb, eqb, if◌then◌else◌,
  or_default, ◌==◌,
}
use cycletls_python.Errors.{error, http_error, Result, raise_if}
use cycletls_python.Text.{join, decimal}
use cycletls_python.Response.{Response}

-- _STATUS_PHRASES
unfoldable pub status_phrases : List (ℕ × String)
status_phrases =
    (100, "Continue")
    ∷ (101, "Switching Protocols")
    ∷ (102, "Processing")
    ∷ (103, "Early Hints")
    ∷ (200, "OK")
    ∷ (201, "Created")
    ∷ (202, "Accepted")
    ∷ (203, "Non-Authoritative Information")
    ∷ (204, "No Content")
    ∷ (205, "Reset Content")
    ∷ (206, "Partial Content")
    ∷ (207, "Multi-Status")
    ∷ (208, "Already Reported")
    ∷ (226, "IM Used")
    ∷ (300, "Multiple Choices")
    ∷ (301, "Moved Permanently")
    ∷ (302, "Found")
    ∷ (303, "See Other")
    ∷ (304, "Not Modified")
    ∷ (305, "Use Proxy")
    ∷ (307, "Temporary Redirect")
    ∷ (308, "Permanent Redirect")
    ∷ (400, "Bad Request")
    ∷ (401, "Unauthorized")
    ∷ (402, "Payment Required")
    ∷ (403, "Forbidden")
    ∷ (404, "Not Found")
    ∷ (405, "Method Not Allowed")
    ∷ (406, "Not Acceptable")
    ∷ (407, "Proxy Authentication Required")
    ∷ (408, "Request Timeout")
    ∷ (409, "Conflict")
    ∷ (410, "Gone")
    ∷ (411, "Length Required")
    ∷ (412, "Precondition Failed")
    ∷ (413, "Payload Too Large")
    ∷ (414, "URI Too Long")
    ∷ (415, "Unsupported Media Type")
    ∷ (416, "Range Not Satisfiable")
    ∷ (417, "Expectation Failed")
    ∷ (418, "I'm a teapot")
    ∷ (421, "Misdirected Request")
    ∷ (422, "Unprocessable Entity")
    ∷ (423, "Locked")
    ∷ (424, "Failed Dependency")
    ∷ (425, "Too Early")
    ∷ (426, "Upgrade Required")
    ∷ (428, "Precondition Required")
    ∷ (429, "Too Many Requests")
    ∷ (431, "Request Header Fields Too Large")
    ∷ (451, "Unavailable For Legal Reasons")
    ∷ (500, "Internal Server Error")
    ∷ (501, "Not Implemented")
    ∷ (502, "Bad Gateway")
    ∷ (503, "Service Unavailable")
    ∷ (504, "Gateway Timeout")
    ∷ (505, "HTTP Version Not Supported")
    ∷ (506, "Variant Also Negotiates")
    ∷ (507, "Insufficient Storage")
    ∷ (508, "Loop Detected")
    ∷ (510, "Not Extended")
    ∷ (511, "Network Authentication Required")
    ∷ []

-- phrases.get(code)
unfoldable pub phrase_of : ℕ → List (ℕ × String) → Option String
phrase_of code [] = none
phrase_of code ((c, p) ∷ rest) = if eqb c code then some p else phrase_of code rest

-- reason
unfoldable pub reason : Response → String
unfolding phrase_of status_phrases
reason r = or_default (phrase_of r.status_code status_phrases) "Unknown"

-- ok
unfoldable pub is_ok : Response → Bool
is_ok r = leb 200 r.status_code && ltb r.status_code 400

unfoldable pub is_redirect : Response → Bool
is_redirect r = leb 300 r.status_code && ltb r.status_code 400

unfoldable pub is_client_error : Response → Bool
is_client_error r = leb 400 r.status_code && ltb r.status_code 500

unfoldable pub is_server_error : Response → Bool
is_server_error r = leb 500 r.status_code && ltb r.status_code 600

unfoldable pub is_error : Response → Bool
is_error r = leb 400 r.status_code

-- the text of `error_msg`: the URL is added when there is one that is not empty
abbrev pub with_url : Option String → String → String
with_url none m = m
with_url (some u) m = if u == "" then m else join (m ∷ " for url: " ∷ u ∷ [])

-- raise_for_status()
unfoldable pub raise_for_status : Response → Result (Unit {0})
unfolding is_error reason
raise_for_status r =
    raise_if (is_error r)
      (error http_error (with_url r.final_url (join (decimal r.status_code ∷ " " ∷ reason r ∷ []))))

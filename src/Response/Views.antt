-- ===== src/Response/Views.antt =====
-- The properties of `Response` of cycletls/schema.py that read the body, and the two that are
-- computed once: they come with the response they leave, which keeps what was computed.
use cycletls_python.Base.{◌≡◌, arith, ℕ, String, List, Option, none, some, or_default, ◌≡◌, []}
use cycletls_python.Text.{Casing}
use cycletls_python.Text.Utf8.{encode}
use cycletls_python.Headers.{CaseInsensitiveDict, of_pairs}
use cycletls_python.Cookies.{CookieJar, of_cookies}
use cycletls_python.Response.{Response}

-- text
unfoldable pub text : Response → String
text r = r.body

-- content
unfoldable pub content : Response → List ℕ
content r = elim r.body_bytes [ some bs ↦ bs | none ↦ encode r.body ]

-- headers
unfoldable pub headers : ⦃c : Casing⦄ → Response → CaseInsensitiveDict String × Response
headers r = elim r.headers_dict [
  | some d ↦ (d, r)
  | none ↦ let d = of_pairs r.raw_headers in (d, record r { headers_dict = some d })
]

-- cookies
unfoldable pub cookies : Response → CookieJar × Response
cookies r = elim r.cookie_jar [
  | some j ↦ (j, r)
  | none ↦ let j = of_cookies (or_default r.raw_cookies []) in (j, record r { cookie_jar = some j })
]

-- url
unfoldable pub url : Response → Option String
url r = r.final_url

-- Read a second time, the headers and the cookies are those of the first time and the response
-- does not change; what is not read is kept.
pub read_twice :
    ⦃c : Casing⦄ (r : Response)
    → (headers (headers r).1 ≡ headers r)
      × (cookies (cookies r).1 ≡ cookies r)
      × ((cookies (headers r).1).0 ≡ (cookies r).0)
      × ((headers (cookies r).1).0 ≡ (headers r).0)
unfolding headers cookies
read_twice r = ground arith

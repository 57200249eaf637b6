-- ===== src/Response.antt =====
-- `Response` of cycletls/schema.py, and the answer of the Go side that it is built from.
pub mod Status
pub mod Failures
pub mod Decode
pub mod Views
pub mod Laws
pub mod Tests
use cycletls_python.Base.{ℕ, ℤ, String, Bool, Option, List, or_default}
use cycletls_python.Dict.{Dict}
use cycletls_python.Cookies.{Cookie, CookieJar}
use cycletls_python.Headers.{CaseInsensitiveDict}

-- `BodyBytes`: raw bytes, or a base64 text in the legacy mode.
pub data RawBody : Type 0 where
  raw : List ℕ → RawBody
  base64 : String → RawBody

-- An entry of `Cookies`; `none` is a key that is not there.
pub record CookieReply : Type 0 where
  pub name : Option String
  pub value : Option String
  pub path : Option String
  pub domain : Option String
  pub expires : Option String
  pub max_age : Option ℤ
  pub secure : Option Bool
  pub http_only : Option Bool
  pub same_site : Option String

-- The dictionary that the Go side answers with; `none` is a key that is not there.
pub record Reply : Type 0 where
  pub request_id : Option String
  pub status : Option ℕ
  pub headers : Option (Dict String)
  pub body : Option String
  pub body_bytes : Option RawBody
  pub cookies : Option (List CookieReply)
  pub final_url : Option String
  pub proto : Option String

pub record Response : Type 0 where
  pub request_id : String
  pub status_code : ℕ
  pub raw_headers : Dict String
  pub body : String
  pub body_bytes : Option (List ℕ)
  pub raw_cookies : Option (List Cookie)
  pub final_url : Option String
  pub proto : Option String
  pub headers_dict : Option (CaseInsensitiveDict String)
  pub cookie_jar : Option CookieJar

-- data.get("Status", 0), data.get("Body", "")
abbrev pub status_of : Reply → ℕ
status_of reply = or_default reply.status 0

abbrev pub body_of : Reply → String
body_of reply = or_default reply.body ""

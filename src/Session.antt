-- ===== src/Session.antt =====
-- `Session` of cycletls/sessions.py. The request of the client below it is a parameter.
pub mod Laws
pub mod Tests
use cycletls_python.Base.{
  String, Bool, true, false, not, ◌&&◌, ◌||◌, List, [], ◌∷◌, Option, none, some, map, ◌==◌,
  if◌then◌else◌,
}
use cycletls_python.Dict.{Dict}
use cycletls_python.Dict
use cycletls_python.Errors.{Error, error, attribute_error, Result, ok, err, ◌>>=◌}
use cycletls_python.Text.{Casing, startswith, lstrip, rstrip, join}
use cycletls_python.Cookies.{
  Cookie, cookie, CookieJar, of_cookies, get_cookies, get_dict, set_cookie, no_attributes,
}
use cycletls_python.Headers.{CaseInsensitiveDict, update, of_pairs, items}
use cycletls_python.Values.{Atom, Value, is_nil}
use cycletls_python.Request.Cookie.{CookieArg, object, dictionary}
use cycletls_python.Response.{Response}
use cycletls_python.Response.Views.{cookies}

pub record Session : Type 0 where
  pub cookies : CookieJar
  pub headers : CaseInsensitiveDict Atom
  pub base_url : Option String
  pub auth : Option (String × String)

-- base_url.rstrip("/") if base_url else None
unfoldable pub base_of : Option String → Option String
base_of none = none
base_of (some u) = if u == "" then none else some (rstrip b'/' u)

-- __init__
unfoldable pub init : Option String → Option (String × String) → Session
unfolding base_of
init base_url auth = record {
  cookies = of_cookies [];
  headers = record { store = [] };
  base_url = base_of base_url;
  auth = auth;
}

-- _prepare_url
unfoldable pub prepare_url : Option String → String → String
prepare_url none url = url
prepare_url (some base) url =
    if not (base == "") && not (startswith url "http://" || startswith url "https://")
    then join (base ∷ "/" ∷ lstrip b'/' url ∷ [])
    else url

-- the `cookies` argument of a request
pub data CookiesArg : Type 0 where
  absent : CookiesArg
  pairs : Dict String → CookiesArg
  a_jar : CookieJar → CookiesArg
  several : List CookieArg → CookiesArg

-- cookie.name, which a dictionary does not have
unfoldable pub name_of : CookieArg → Result String
name_of (object c) = ok c.name
name_of (dictionary d) = err (error attribute_error "'dict' object has no attribute 'name'")

-- _merge_cookie
unfoldable pub merge_cookie : List CookieArg → CookieArg → Result (List CookieArg)
unfolding name_of
merge_cookie [] new = ok (new ∷ [])
merge_cookie (existing ∷ es) new =
    let rest = merge_cookie es new in
    do
      existing_name ← name_of existing
      new_name ← name_of new
      if existing_name == new_name then ok (new ∷ es) else rest >>= λ others. ok (existing ∷ others)

-- the loops over the cookies of the request
unfoldable pub merge_all : List CookieArg → List CookieArg → Result (List CookieArg)
unfolding merge_cookie
merge_all merged [] = ok merged
merge_all merged (c ∷ cs) = do next ← merge_cookie merged c; merge_all next cs

-- the cookies that a request brings; an empty dict, jar or list counts as none
unfoldable pub cookies_of_arg : CookiesArg → List CookieArg
cookies_of_arg absent = []
cookies_of_arg (pairs d) = map (λ e. object (cookie e.0 e.1)) d
cookies_of_arg (a_jar j) = map object (get_cookies j)
cookies_of_arg (several cs) = cs

-- kwargs["cookies"]: the merged cookies, or None when there are none
unfoldable pub merged_cookies : Session → CookiesArg → Result (List CookieArg)
unfolding merge_all cookies_of_arg
merged_cookies s arg = merge_all (map object (get_cookies s.cookies)) (cookies_of_arg arg)

-- kwargs["headers"]: the session's headers, then those of the request
unfoldable pub merged_headers : ⦃c : Casing⦄ → Session → Option (Dict Atom) → Dict Atom
merged_headers s none = Dict.of_pairs (items (of_pairs (items s.headers)))
merged_headers s (some own) = Dict.of_pairs (items (update (of_pairs (items s.headers)) own))

-- the effective auth
abbrev pub merged_auth : Session → Option (String × String) → Option (String × String)
merged_auth s none = s.auth
merged_auth s (some a) = some a

-- `for name in response.cookies: self.cookies.set(name, response.cookies[name])`
unfoldable pub set_each : CookieJar → List (String × String) → CookieJar
set_each jar [] = jar
set_each jar ((name, value) ∷ rest) = set_each (set_cookie jar name value no_attributes) rest

-- _update_cookies_from_response
unfoldable pub update_cookies : Session → Response → Session
unfolding set_each
update_cookies s response = record s {
  cookies = set_each s.cookies (get_dict (cookies response).0);
}

-- What the session hands to the client below it.
pub record Prepared : Type 0 where
  pub method : String
  pub url : String
  pub headers : Dict Atom
  pub cookies : List CookieArg
  pub auth : Option (String × String)

module _ ⦃c : Casing⦄ (send : Prepared → Result Response) where
  -- request(), for its method, address, headers, cookies and auth
  unfoldable pub request :
      String
      → String
      → Option (Dict Atom)
      → CookiesArg
      → Option (String × String)
      → Session
      → Result Response × Session
  unfolding merged_cookies merged_headers update_cookies prepare_url
  request method url headers arg auth s = elim (merged_cookies s arg) [
    | err e ↦ (err e, s)
    | ok sent ↦
        elim (send (record {
          method = method;
          url = prepare_url s.base_url url;
          headers = merged_headers s headers;
          cookies = sent;
          auth = merged_auth s auth;
        })) [ err e ↦ (err e, s) | ok response ↦ (ok response, update_cookies s response) ]
  ]

-- close(), of the session's own state
unfoldable pub close : Session → Session
close s = record s { cookies = of_cookies []; headers = record { store = [] } }

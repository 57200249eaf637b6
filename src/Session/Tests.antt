-- ===== src/Session/Tests.antt =====
-- A session with a cookie.
use cycletls_python.Base.{true, [], ◌∷◌, none, some, map, ◌≡◌, refl}
use cycletls_python.Dict.{lookup, set}
use cycletls_python.Errors.{ok, err, error, attribute_error}
use cycletls_python.Exec.{on}
use cycletls_python.Text.{join, lstrip}
use cycletls_python.Cookies.{cookie, no_attributes, of_cookies, add_cookies, get_cookies, get_dict}
use cycletls_python.Cookies.Laws.{of_cookies-IsValid}
use cycletls_python.Request.Cookie.{object, dictionary}
use cycletls_python.Request.Forms.{as_camel}
use cycletls_python.Response.{Response}
use cycletls_python.Response.Views.{cookies}
use cycletls_python.Session.{
  Session, prepare_url, merged_cookies, update_cookies, pairs, several, cookies_of_arg,
}
use cycletls_python.Session.Laws.{merged_cookies-add, dictionary_refused, update_cookies_lem}

abbrev session : Session
session = record {
  cookies = of_cookies (cookie "sid" "1" ∷ cookie "lang" "en" ∷ []);
  headers = record { store = [] };
  base_url = some "https://a.test";
  auth = none;
}

url_test : prepare_url session.base_url "/profile" ≡ "https://a.test/profile"
unfolding prepare_url join lstrip
url_test = refl

merged_cookies-add_example :
    merged_cookies session (pairs (("lang", "de") ∷ []))
    ≡ ok (map object (get_cookies (add_cookies session.cookies (cookie "lang" "de" ∷ []))))
unfolding cookies_of_arg
merged_cookies-add_example =
    merged_cookies-add session (pairs (("lang", "de") ∷ [])) (cookie "lang" "de" ∷ [])
      (of_cookies-IsValid _) refl

dictionary_refused_test :
    merged_cookies session (several (dictionary (as_camel (cookie "lang" "de")) ∷ []))
    ≡ err (error attribute_error "'dict' object has no attribute 'name'")
unfolding get_cookies of_cookies set
dictionary_refused_test =
    dictionary_refused session (cookie "sid" "1") (cookie "lang" "en" ∷ [])
      (as_camel (cookie "lang" "de")) [] refl

abbrev response : Response
response = record {
  request_id = "r1";
  status_code = 200;
  raw_headers = [];
  body = "";
  body_bytes = none;
  raw_cookies = some (
      record {
        name = "sid";
        value = "2";
        attributes = record no_attributes { domain = some "a.test"; secure = true };
      }
      ∷ []);
  final_url = none;
  proto = none;
  headers_dict = none;
  cookie_jar = none;
}

update_cookies_lem_example :
    lookup "sid" (update_cookies session response).cookies.cookies
    ≡ on
        (lookup "sid" (get_dict (cookies response).0))
        (lookup "sid" session.cookies.cookies)
        (λ v. some (record { name = "sid"; value = v; attributes = no_attributes }))
unfolding cookies of_cookies get_dict set lookup
update_cookies_lem_example = update_cookies_lem session response "sid" (refl, tt)

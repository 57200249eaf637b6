-- ===== src/Session/Laws.antt =====
-- What `Session` of cycletls/sessions.py sends of its cookies, and what it keeps of a response's.
use cycletls_python.Base.{
  String, Bool, true, false, List, [], ◌∷◌, Option, some, map, ◌≡◌, refl, sym, ap, ◌∙◌, ◌==◌,
  eq_iff, arith, if◌then◌else◌,
}
use cycletls_python.Dict.{Dict, lookup, set, IsDict, values}
use cycletls_python.Dict.Laws.{lookup-set}
use cycletls_python.Errors.{error, attribute_error, ok, err, ◌>>=◌}
use cycletls_python.Cookies.{
  Cookie, CookieJar, add_cookies, get_cookies, set_cookie, no_attributes, get_dict,
}
use cycletls_python.Cookies.Laws.{IsValid, Named, set-Named}
use cycletls_python.Exec.{on}
use cycletls_python.Response.{Response}
use cycletls_python.Response.Views.{cookies}
use cycletls_python.Request.Cookie.{CookieArg, object, dictionary, CookieDict}
use cycletls_python.Session.{
  Session, CookiesArg, merge_cookie, merge_all, name_of, set_each, update_cookies, several,
  merged_cookies, cookies_of_arg,
}

abbrev objects : Dict Cookie → List CookieArg
objects d = map object (values d)

-- Merging one cookie into those of a jar is setting it in the jar.
merge_cookie-set :
    (c : Cookie) (d : Dict Cookie)
    → Named d
    → merge_cookie (objects d) (object c) ≡ ok (objects (set c.name c d))
unfolding merge_cookie name_of set
merge_cookie-set c [] h = refl
merge_cookie-set c ((k, e) ∷ d) h = ground (arith, h.0, merge_cookie-set c d h.1)

merge_all-add :
    (jar : CookieJar) (cs : List Cookie)
    → Named jar.cookies
    → merge_all (objects jar.cookies) (map object cs) ≡ ok (objects (add_cookies jar cs).cookies)
unfolding merge_all add_cookies
merge_all-add jar [] h = refl
merge_all-add jar (c ∷ cs) h =
    ap (λ r. r >>= λ next. merge_all next (map object cs)) (merge_cookie-set c jar.cookies h)
    ∙ merge_all-add (record { cookies = set c.name c jar.cookies }) cs (set-Named c jar.cookies h)

-- The cookies that a session sends with a request that brings cookie objects, as a dict, a jar or
-- a list, are those of the session's jar with the request's added to it: one for each name, the
-- request's before the session's, in the order in which the names were first seen.
pub merged_cookies-add :
    (s : Session) (arg : CookiesArg) (cs : List Cookie)
    → IsValid s.cookies
    → cookies_of_arg arg ≡ map object cs
    → merged_cookies s arg ≡ ok (map object (get_cookies (add_cookies s.cookies cs)))
unfolding merged_cookies get_cookies
merged_cookies-add s arg cs h e =
    ap (merge_all (objects s.cookies.cookies)) e ∙ merge_all-add s.cookies cs h.1

-- A session that has a cookie fails on a request whose list of cookies starts with a dictionary,
-- which the client without a session takes.
pub dictionary_refused :
    (s : Session) (c : Cookie) (cs : List Cookie) (d : CookieDict) (rest : List CookieArg)
    → get_cookies s.cookies ≡ c ∷ cs
    → merged_cookies s (several (dictionary d ∷ rest))
      ≡ err (error attribute_error "'dict' object has no attribute 'name'")
unfolding merged_cookies merge_all merge_cookie name_of cookies_of_arg
dictionary_refused s c cs d rest e =
    ap (λ own. merge_cookie (map object own) (dictionary d) >>= λ next. merge_all next rest) e

set_each_lem :
    (n : String) (jar : CookieJar) (ps : Dict String)
    → IsDict ps
    → lookup n (set_each jar ps).cookies
      ≡ on
          (lookup n ps)
          (lookup n jar.cookies)
          (λ v. some (record { name = n; value = v; attributes = no_attributes }))
unfolding set_each lookup set_cookie
set_each_lem n jar [] h = refl
set_each_lem n jar ((k, v) ∷ ps) h =
    set_each_lem n (set_cookie jar k v no_attributes) ps h.1
    ∙ ap (λ o. on (lookup n ps) o kept) (lookup-set k n _ jar.cookies)
    ∙ first_pair (k == n) refl
  where
    kept : String → Option Cookie
    kept w = some (record { name = n; value = w; attributes = no_attributes })

    first_pair :
        (b : Bool)
        → (k == n) ≡ b
        → on
            (lookup n ps)
            (if b
              then some (record { name = k; value = v; attributes = no_attributes })
              else lookup n jar.cookies)
            kept
          ≡ on (if b then some v else lookup n ps) (lookup n jar.cookies) kept
    first_pair true e = rw (sym ((eq_iff k n).0 e), h.0) refl
    first_pair false e = refl

-- After a response the session holds, for each name in the response's jar, a cookie with that
-- value and with none of the attributes it came with; the other cookies of the session stay.
pub update_cookies_lem :
    (s : Session) (r : Response) (n : String)
    → IsDict (get_dict (cookies r).0)
    → lookup n (update_cookies s r).cookies.cookies
      ≡ on
          (lookup n (get_dict (cookies r).0))
          (lookup n s.cookies.cookies)
          (λ v. some (record { name = n; value = v; attributes = no_attributes }))
unfolding update_cookies
update_cookies_lem s r n h = set_each_lem n s.cookies (get_dict (cookies r).0) h

-- ===== src/Client/Prepare.antt =====
-- `_prepare_request` of cycletls/api.py. Its state is the keyword arguments, with the caller's own
-- headers in them. `json.dumps`, `base64.b64encode` and the random boundary are parameters.
use cycletls_python.Base.{
  ℕ, String, Bool, true, false, List, [], ◌∷◌, ◌++◌, Option, none, some, or_default, map, ◌==◌,
  if◌then◌else◌,
}
use cycletls_python.Dict.{Dict, lookup, set, has, remove}
use cycletls_python.Errors.{error, cycletls_error, value_error, Result, ok, err}
use cycletls_python.Exec.{Exec, pure, raise, lift, gets, modify, guard, on, ◌>>=◌, ◌>>◌}
use cycletls_python.Text.{Casing, lower, codes, join}
use cycletls_python.Text.Utf8.{encode}
use cycletls_python.Text.Pattern.{Digits}
use cycletls_python.Cookies.{cookie, get_cookies}
use cycletls_python.Values.{Atom, null, str, bytes, Value, atom, dict, Payload, text}
use cycletls_python.Request.Cookie.{CookieArg, object, dictionary, or_age, or_site, put, opt}
use cycletls_python.Session.{CookiesArg, absent, pairs, a_jar, several}
use cycletls_python.Fingerprint.{TlsFingerprint}
use cycletls_python.Fingerprint.Apply.{apply_to_kwargs}
use cycletls_python.Registry.{Profiles}
use cycletls_python.Registry
use cycletls_python.Arguments.{
  Arguments, headers_or_empty, write_headers, take_headers, assign_headers,
}
use cycletls_python.Url.Quote.{Codes, quote_bytes, quote_plus, join_with}
use cycletls_python.Url.{Urls, Printing, show, Params, merge_url_params, ascii_text}
use cycletls_python.Client.Options.{request_dict}
use cycletls_python.Client.Multipart.{FileInfo, encode_multipart}

-- `data`: form fields, bytes, or what is sent as its text
pub data Body : Type 0 where
  fields : Dict Atom → Body
  octets : List ℕ → Body
  words : Atom → Body

-- `fingerprint`: the name of a profile, or a profile
pub data FingerprintArg : Type 0 where
  by_name : String → FingerprintArg
  profile : TlsFingerprint → FingerprintArg

-- What a request is given besides the keyword arguments; `J` is what json.dumps takes.
pub record Call (J : Type 0) : Type 0 where
  pub method : String
  pub url : String
  pub params : Params
  pub body : Option Body
  pub json_data : Option J
  pub json : Option J
  pub files : Option (Dict FileInfo)
  pub fingerprint : Option FingerprintArg
  pub auth : Option (String × String)
  pub cookies : CookiesArg

-- What the preparation uses of Python's libraries and of the process.
pub record Environment (J : Type 0) : Type 1 where
  pub urls : Urls
  pub dumps : J → String
  pub b64encode : List ℕ → String
  pub guess_type : String → Option String
  pub boundary : String
  pub list_repr : List String → String
  pub profiles : Profiles

-- json_data, which `json` stands for
unfoldable pub json_of {ℓ} : {J : Type ℓ} → Option J → Option J → Result (Option J)
json_of json_data none = ok json_data
json_of none (some j) = ok (some j)
json_of (some i) (some j) =
    err (error value_error "Cannot specify both 'json' and 'json_data' parameters")

-- the first entry whose key is the user agent's in any case
unfoldable pub find_user_agent : ⦃c : Casing⦄ → Dict Atom → Option (String × Atom)
find_user_agent [] = none
find_user_agent ((k, v) ∷ h) =
    let rest = find_user_agent h in if lower k == "user-agent" then some (k, v) else rest

-- what `data` becomes of a deprecated argument
unfoldable pub body_of_value : Value → Option Body
body_of_value (atom null) = none
body_of_value (atom (bytes b)) = some (octets b)
body_of_value (atom a) = some (words a)
body_of_value (dict d) = some (fields d)
body_of_value _ = none

-- `if key in kwargs: if data is None: data = kwargs.pop(key)`
unfoldable pub pop_body : String → Option Body → Exec Arguments (Option Body)
unfolding body_of_value
pop_body key (some body) a = (ok (some body), a)
pop_body key none a =
    on (lookup key a.options) (ok none, a)
      λ v. (ok (body_of_value v), record a { options = remove key a.options })

-- kwargs[key] = value, where there is a value
unfoldable pub put_option : String → Option Value → Exec Arguments (Unit {0})
unfolding put
put_option key value = modify (λ a. record a { options = put key value a.options })

-- quote_via(v) or quote_via(str(v))
unfoldable pub quote_value : ⦃p : Printing⦄ → Atom → Codes
quote_value (bytes b) = quote_bytes b
quote_value v = quote_plus (codes (show v))

abbrev pub quote_field : ⦃p : Printing⦄ → String × Atom → Codes
quote_field e = quote_plus (codes e.0) ++ b'=' ∷ quote_value e.1

-- urlencode(data)
unfoldable pub encode_form : ⦃p : Printing⦄ → Dict Atom → String
unfolding quote_value quote_plus quote_bytes join_with ascii_text codes
encode_form d = ascii_text (join_with b'&' (map quote_field d))

-- Cookie(...) of a dictionary: it takes no expiry, and its SameSite may be a number, so that it
-- stands as a dictionary with one spelling of each key
unfoldable pub convert_cookie : CookieArg → CookieArg
unfolding or_age or_site
convert_cookie (object c) = object c
convert_cookie (dictionary d) = dictionary (record d {
  expires = none;
  max_age_camel = none;
  max_age = or_age d.max_age d.max_age_camel;
  http_only_camel = none;
  http_only =
      some (if or_default d.http_only false then true else or_default d.http_only_camel false);
  same_site_camel = none;
  same_site = or_site d.same_site d.same_site_camel;
})

-- kwargs["cookies"] as a list of cookies
unfoldable pub convert_cookies : CookiesArg → Option (List CookieArg)
unfolding convert_cookie
convert_cookies absent = none
convert_cookies (pairs d) = some (map (λ e. object (cookie e.0 e.1)) d)
convert_cookies (a_jar j) = some (map object (get_cookies j))
convert_cookies (several cs) = some (map convert_cookie cs)

module _ {J : Type 0} ⦃c : Casing⦄ ⦃d : Digits⦄ ⦃p : Printing⦄ (py : Environment J) where
  -- headers["Authorization"] of `auth`
  unfoldable pub add_auth : Option (String × String) → Exec Arguments (Unit {0})
  unfolding write_headers headers_or_empty encode join
  add_auth none = pure tt
  add_auth (some (user, password)) = modify λ a.
      write_headers
        (set "Authorization"
          (str (join ("Basic " ∷ py.b64encode (encode (join (user ∷ ":" ∷ password ∷ []))) ∷ [])))
          (headers_or_empty a))
        a

  -- the profile that a fingerprint stands for
  unfoldable pub profile_of : FingerprintArg → Result TlsFingerprint
  profile_of (by_name name) = Registry.get py.list_repr name py.profiles
  profile_of (profile f) = ok f

  unfoldable pub add_fingerprint : Option FingerprintArg → Exec Arguments (Unit {0})
  unfolding profile_of apply_to_kwargs
  add_fingerprint none = pure tt
  add_fingerprint (some arg) = do f ← lift (profile_of arg); modify (apply_to_kwargs f)

  -- the user agent of the headers, which goes before the argument
  unfoldable pub move_user_agent : Exec Arguments (Unit {0})
  unfolding find_user_agent assign_headers headers_or_empty
  move_user_agent a =
      on (find_user_agent (headers_or_empty a)) (ok tt, a)
        λ e. (
          ok tt,
          assign_headers (remove e.0 (headers_or_empty a))
              (record a { options = set "user_agent" (atom e.1) a.options }),
        )

  -- headers[key] = value
  unfoldable pub set_header : String → String → Exec Arguments (Unit {0})
  unfolding assign_headers headers_or_empty
  set_header key value = modify λ a. assign_headers (set key (str value) (headers_or_empty a)) a

  -- the body's text and bytes of `data` and `json_data`, and their Content-Type
  unfoldable pub encode_body :
      Option J → Option Body → Exec Arguments (Option String × Option (List ℕ))
  unfolding set_header encode_form has headers_or_empty
  encode_body (some j) (some body) =
      raise (error value_error "Cannot specify both 'data' and 'json_data' parameters")
  encode_body (some j) none = do
    set_header "Content-Type" "application/json"
    pure (some (py.dumps j), none)
  encode_body none none = pure (none, none)
  encode_body none (some (fields form)) = do
    h ← gets headers_or_empty
    if has "Content-Type" h
        then pure tt
        else set_header "Content-Type" "application/x-www-form-urlencoded"
    pure (some (encode_form form), none)
  encode_body none (some (octets b)) = pure (none, some b)
  encode_body none (some (words a)) = pure (some (show a), none)

  -- the fields of a form among `data`
  unfoldable pub form_fields : Option Body → Dict Atom
  form_fields (some (fields form)) = form
  form_fields _ = []

  -- the multipart body of `files`, in place of the bytes so far
  unfoldable pub encode_files :
      Option (Dict FileInfo) → Option Body → Option (List ℕ) → Exec Arguments (Option (List ℕ))
  unfolding encode_multipart form_fields set_header
  encode_files none body so_far = pure so_far
  encode_files (some files) body so_far = do
    multipart ← lift (encode_multipart py.guess_type py.boundary (form_fields body) files)
    set_header "Content-Type" multipart.1
    pure (some multipart.0)

  -- auth and fingerprint
  unfoldable pub dress : Call J → Exec Arguments (Unit {0})
  unfolding add_auth add_fingerprint
  dress call = add_auth call.auth >> add_fingerprint call.fingerprint

  -- the deprecated arguments and the user agent
  unfoldable pub look : Option Body → Exec Arguments (Option Body)
  unfolding pop_body take_headers move_user_agent
  look body = do
    popped ← pop_body "body" body
    found ← pop_body "body_bytes" popped
    modify take_headers
    move_user_agent
    pure found

  -- the first half: up to the user agent
  unfoldable pub collect : Call J → Exec Arguments (Option J × Option Body)
  unfolding json_of dress look
  collect call = do
    json_data ← lift (json_of call.json_data call.json)
    dress call
    body ← look call.body
    pure (json_data, body)

  -- the second half: the body, and the request that is made of it all
  unfoldable pub encode_all : Call J → Option J × Option Body → Exec Arguments (Unit {0})
  unfolding encode_body encode_files put_option
  encode_all call input = do
    encoded ← encode_body input.0 input.1
    body_bytes ← encode_files call.files input.1 encoded.1
    put_option "body" (opt text encoded.0)
    put_option "body_bytes" (opt (λ b. atom (bytes b)) body_bytes)

  -- Request(method=method, url=url, **kwargs).to_dict()
  unfoldable pub request_payload : Call J → Arguments → Result (Dict Value)
  unfolding merge_url_params headers_or_empty convert_cookies request_dict
  request_payload call a =
      request_dict (merge_url_params py.urls call.url call.params) call.method (headers_or_empty a)
        (convert_cookies call.cookies) a.options

  -- _prepare_request, of a client that is closed or not; `request_id` is the next identifier
  unfoldable pub prepare : Bool → String → Call J → Exec Arguments Payload
  unfolding collect encode_all request_payload
  prepare closed request_id call = do
    guard closed (error cycletls_error "CycleTLS client is closed")
    input ← collect call
    encode_all call input
    a ← gets (λ a. a)
    options ← lift (request_payload call a)
    pure (record { request_id = request_id; options = options })

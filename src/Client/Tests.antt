-- ===== src/Client/Tests.antt =====
-- Requests of a client at concrete arguments.
use cycletls_python.Base.{String, false, [], ◌∷◌, Option, none, some, pos, ◌≡◌, refl}
use cycletls_python.Dict.{Dict, lookup, set, remove}
use cycletls_python.Errors.{Result, ok, err}
use cycletls_python.Exec.{on}
use cycletls_python.Text.{ascii, join}
use cycletls_python.Text.Pattern.{ascii_digits}
use cycletls_python.Values.{Atom, str, int, atom, Payload, text}
use cycletls_python.Session.{absent}
use cycletls_python.Arguments.{
  Arguments, arguments, headers_or_empty, take_headers, still_shared, assign_headers,
}
use cycletls_python.Client.Options.{
  request_dict, new_request, request_of, raise_unknown, given, as_text,
}
use cycletls_python.Request.{to_dict, timeout_int}
use cycletls_python.Url.{Urls, Printing, merge_url_params}
use cycletls_python.Client.Prepare.{
  Body, fields, Call, Environment, prepare, find_user_agent, dress, collect, encode_all,
  request_payload, json_of, look, add_auth, add_fingerprint, pop_body, move_user_agent, encode_body,
  encode_files, put_option, convert_cookies, body_of_value,
}
use cycletls_python.Client.PrepareLaws.{agent, prepare_lem}
use cycletls_python.Client.Headers.{user_agent_forgotten}

pub show_text : Atom → String
show_text (str s) = s
show_text _ = "0"

abbrev pub printing : Printing
printing = record { show = show_text }

-- Addresses without a query.
abbrev pub urls : Urls
urls = record {
  Parts = String × String;
  urlsplit = λ url. (url, "");
  query = λ p. p.1;
  with_query = λ q p. (p.0, q);
  urlunsplit = λ p. join (p.0 ∷ "?" ∷ p.1 ∷ []);
}

abbrev pub python : Environment String
python = record {
  urls = urls;
  dumps = λ j. j;
  b64encode = λ bs. "dTpw";
  guess_type = λ name. none;
  boundary = "b";
  list_repr = λ names. "[]";
  profiles = [];
}

abbrev pub call : String → Option Body → Call String
call method body = record {
  method = method;
  url = "http://a.test/";
  params = [];
  body = body;
  json_data = none;
  json = none;
  files = none;
  fingerprint = none;
  auth = none;
  cookies = absent;
}

abbrev pub own : Dict Atom
own = ("User-Agent", str "me") ∷ ("accept", str "*/*") ∷ []

unfoldable pub sent : Result Payload → Payload
sent (ok payload) = payload
sent (err e) = record { request_id = ""; options = [] }

abbrev pub first : Result Payload × Arguments
first =
    prepare ⦃c = ascii⦄ ⦃d = ascii_digits⦄ ⦃p = printing⦄ python false "r1" (call "get" none)
      (arguments [] (some own))

-- the dict of the caller as the first request left it
abbrev second : Result Payload × Arguments
second =
    prepare ⦃c = ascii⦄ ⦃d = ascii_digits⦄ ⦃p = printing⦄ python false "r2"
      (call "post" (some (fields (("a", int (pos 1)) ∷ []))))
      (arguments (("ja3", text "771") ∷ []) (some first.1.caller))

pub both_sent : (first.0 ≡ ok (sent first.0)) × (second.0 ≡ ok (sent second.0))
unfolding prepare sent collect encode_all request_payload json_of dress look add_auth
    add_fingerprint pop_body move_user_agent encode_body encode_files put_option convert_cookies
    body_of_value arguments headers_or_empty take_headers still_shared assign_headers
    merge_url_params request_dict new_request request_of raise_unknown to_dict ascii lookup
    find_user_agent timeout_int given set remove
both_sent = (refl, refl)

prepare_lem_example :
    let a = arguments [] (some own) in
    let b = (dress ⦃c = ascii⦄ ⦃d = ascii_digits⦄ ⦃p = printing⦄ python (call "get" none) a).1 in
    let found = find_user_agent ⦃c = ascii⦄ (headers_or_empty b) in
    (false ≡ false)
    × ((sent first.0).request_id ≡ "r1")
    × (lookup "url" (sent first.0).options
        ≡ some (text (merge_url_params ⦃p = printing⦄ urls "http://a.test/" [])))
    × (lookup "method" (sent first.0).options ≡ some (text "get"))
    × (lookup "userAgent" (sent first.0).options
        ≡ some (text (agent (on found (lookup "user_agent" b.options) (λ e. some (atom e.1))))))
prepare_lem_example =
    prepare_lem ⦃c = ascii⦄ ⦃d = ascii_digits⦄ ⦃p = printing⦄ python (call "get" none) false "r1"
      (arguments [] (some own)) (sent first.0) both_sent.0

user_agent_forgotten_example :
    (lookup "userAgent" (sent first.0).options ≡ some (text "me"))
    × (lookup "userAgent" (sent second.0).options ≡ some (text (agent none)))
unfolding find_user_agent ascii arguments lookup remove as_text
user_agent_forgotten_example =
    user_agent_forgotten ⦃c = ascii⦄ ⦃d = ascii_digits⦄ ⦃p = printing⦄ python refl (call "get" none)
      (call "post" (some (fields (("a", int (pos 1)) ∷ [])))) false false "r1" "r2" []
      (("ja3", text "771") ∷ []) own ("User-Agent", str "me") (sent first.0) (sent second.0)
      ((refl, refl), (refl, refl)) refl refl refl both_sent.0 both_sent.1

-- ===== src/Functions/Tests.antt =====
-- Module-level requests at concrete defaults.
use cycletls_python.Base.{String, [], ◌∷◌, none, some, ◌≡◌, refl}
use cycletls_python.Dict.{Dict, lookup, set, has, remove}
use cycletls_python.Errors.{Result, ok}
use cycletls_python.Text.{ascii, join}
use cycletls_python.Text.Pattern.{ascii_digits}
use cycletls_python.Values.{Atom, str, Value, dict, Payload, text, is_nil}
use cycletls_python.Request.Cookie.{put}
use cycletls_python.Ffi
use cycletls_python.Global
use cycletls_python.Config.{
  set_default, set_each, set_one, validate_config, accepted, validators, configurable,
  config_to_param, merge_defaults, cached_defaults, defaults_loop, merge_loop,
}
use cycletls_python.Arguments.{
  arguments, headers_or_empty, take_headers, still_shared, assign_headers, write_headers,
}
use cycletls_python.Url.{merge_url_params}
use cycletls_python.Request.{to_dict, timeout_int}
use cycletls_python.Client.Options.{request_dict, new_request, request_of, raise_unknown, given}
use cycletls_python.Client.Prepare.{
  Call, prepare, collect, encode_all, request_payload, json_of, dress, look, add_auth,
  add_fingerprint, pop_body, move_user_agent, find_user_agent, encode_body, encode_files,
  put_option, convert_cookies,
}
use cycletls_python.Client.PrepareLaws.{agent}
use cycletls_python.Client.Tests.{printing, python, call, sent}
use cycletls_python.Client.BatchTests.{missing, codec, decoders, refuse}
use cycletls_python.Functions.{
  Keywords, Process, kwargs, remove_all, headers_of, merged_arguments, prepare_call, request,
  write_back,
}
use cycletls_python.Functions.Laws.{here, requested, default_user_agent_sent}
use cycletls_python.Functions.Leak.{basic, credentials_leak}

abbrev no_keywords : Keywords
no_keywords = record { headers = none; options = []; named = [] }

abbrev with_auth : Keywords
with_auth = record { headers = none; options = []; named = "auth" ∷ [] }

abbrev secret : Call String
secret = record (call "get" none) { auth = some ("u", "p") }

abbrev process : Process
process = record {
  global = Global.init 1;
  defaults = record {
    config = ("default_headers", dict (("accept", str "*/*") ∷ [])) ∷ [];
    merged_cache = none;
  };
  ffi = Ffi.init;
}

abbrev after : Process
after =
    (request ⦃c = ascii⦄ ⦃d = ascii_digits⦄ ⦃p = printing⦄ python decoders missing codec refuse 1
      "r1" secret with_auth process).1

abbrev first : Result Payload
first =
    (prepare_call ⦃c = ascii⦄ ⦃d = ascii_digits⦄ ⦃p = printing⦄ python "r1" secret with_auth
      process.defaults).0

abbrev second : Result Payload
second =
    (prepare_call ⦃c = ascii⦄ ⦃d = ascii_digits⦄ ⦃p = printing⦄ python "r2" (call "get" none)
      no_keywords after.defaults).0

both_sent : (first ≡ ok (sent first)) × (second ≡ ok (sent second))
unfolding request prepare_call prepare sent collect encode_all request_payload json_of dress look
    add_auth add_fingerprint pop_body move_user_agent encode_body encode_files put_option
    convert_cookies arguments headers_or_empty take_headers still_shared assign_headers
    write_headers merge_url_params request_dict new_request request_of raise_unknown to_dict ascii
    lookup find_user_agent timeout_int given set remove merged_arguments kwargs remove_all
    headers_of merge_defaults put is_nil merge_loop config_to_param cached_defaults defaults_loop
both_sent = (refl, refl)

credentials_leak_example :
    (headers : Dict Atom) × (lookup "headers" (sent second).options ≡ some (dict headers))
    × (lookup "Authorization" headers ≡ some (basic python "u" "p"))
unfolding ascii kwargs put lookup has
credentials_leak_example =
    credentials_leak ⦃c = ascii⦄ ⦃d = ascii_digits⦄ ⦃p = printing⦄ python decoders missing codec
      refuse refl 1 "r1" "r2" "u" "p" secret (call "get" none) with_auth no_keywords
      ("accept", str "*/*") [] process (sent first) (sent second) refl refl (refl, refl)
      (refl, refl) ((refl, tt), tt) (refl, refl) tt refl both_sent.0 both_sent.1

abbrev settings : Dict Value
settings = ("user_agent", text "mine") ∷ []

abbrev unset : Process
unset = record {
  global = Global.init 1;
  defaults = record { config = []; merged_cache = none };
  ffi = Ffi.init;
}

-- A request after the call of set_default, which fills the cache of the defaults.
abbrev served : Process
served =
    (request ⦃c = ascii⦄ ⦃d = ascii_digits⦄ ⦃p = printing⦄ python decoders missing codec refuse 1
      "r2" (call "get" none) no_keywords
      (record unset { defaults = (set_default settings unset.defaults).1 })).1

abbrev third : Result Payload
third =
    (prepare_call ⦃c = ascii⦄ ⦃d = ascii_digits⦄ ⦃p = printing⦄ python "r3" (call "get" none)
      no_keywords served.defaults).0

third_ready : third ≡ ok (sent third)
unfolding request write_back set_default set_each set_one validate_config accepted validators
    configurable join prepare_call prepare sent collect encode_all request_payload json_of dress
    look add_auth add_fingerprint pop_body move_user_agent encode_body encode_files put_option
    convert_cookies arguments headers_or_empty take_headers still_shared assign_headers
    write_headers merge_url_params request_dict new_request request_of raise_unknown to_dict ascii
    lookup find_user_agent timeout_int given set remove merged_arguments kwargs remove_all
    headers_of merge_defaults put is_nil merge_loop config_to_param cached_defaults defaults_loop
third_ready = refl

default_user_agent_sent_example :
    lookup "userAgent" (sent third).options ≡ some (text (agent (some (text "mine"))))
unfolding request prepare_call write_back set_default set_each set_one validate_config accepted
    validators configurable join lookup set config_to_param kwargs put has merged_arguments
    headers_of arguments headers_or_empty find_user_agent merge_defaults is_nil cached_defaults
    defaults_loop remove_all remove
default_user_agent_sent_example =
    default_user_agent_sent ⦃c = ascii⦄ ⦃d = ascii_digits⦄ ⦃p = printing⦄ python settings unset
      (text "mine") "r3" (call "get" none) no_keywords (sent third) (refl, tt) refl refl
      (requested decoders missing codec refuse 1 "r2" (call "get" none) no_keywords here)
      (refl, refl) tt refl refl refl third_ready

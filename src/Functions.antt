-- ===== src/Functions.antt =====
-- The module-level functions of cycletls/__init__.py: each merges the module's defaults into the
-- keywords and calls the client, the synchronous ones that of the process, the asynchronous ones a
-- client of their own. A headers dict among the defaults is the one that the request writes into.
pub mod Laws
pub mod Asynchronous
pub mod Stored
pub mod Current
pub mod Leak
pub mod Tests
use cycletls_python.Base.{
  ℕ, String, Bool, true, false, List, [], ◌∷◌, ◌++◌, Option, none, some, map, if◌then◌else◌,
}
use cycletls_python.Dict.{Dict, lookup, set, has, remove}
use cycletls_python.Errors.{error, attribute_error, Result, ok, err}
use cycletls_python.Exec.{Exec}
use cycletls_python.Text.{Casing, join}
use cycletls_python.Text.Pattern.{Digits}
use cycletls_python.Values.{Atom, null, Value, atom, dict, Payload}
use cycletls_python.Request.Cookie.{put, opt}
use cycletls_python.Response.{Reply, Response}
use cycletls_python.Response.Decode.{Decoders}
use cycletls_python.Library.{Go}
use cycletls_python.Ffi.{Ffi, Codec}
use cycletls_python.Config.{Config, configurable, merge_defaults}
use cycletls_python.Global.{Global, get_global_session}
use cycletls_python.Arguments.{Arguments, arguments}
use cycletls_python.Url.{Printing}
use cycletls_python.Client.{init}
use cycletls_python.Client
use cycletls_python.Client.Prepare.{Body, Call, Environment, prepare}

-- What a call is given by keyword: headers, the options of a request, and the names of the others,
-- such as params, which no default has.
pub record Keywords : Type 0 where
  pub headers : Option (Dict Atom)
  pub options : Dict Value
  pub named : List String

-- The globals of the package's modules.
pub record Process : Type 0 where
  pub global : Global
  pub defaults : Config
  pub ffi : Ffi

-- kwargs; of the other keywords only the names matter to the merge
unfoldable pub kwargs : Keywords → Dict Value
unfolding put
kwargs k = map (λ n. (n, atom null)) k.named ++ put "headers" (opt dict k.headers) k.options

unfoldable pub remove_all : List String → Dict Value → Dict Value
remove_all [] d = d
remove_all (n ∷ ns) d = remove n (remove_all ns d)

-- the headers of the merged keywords
unfoldable pub headers_of : Option Value → Option (Dict Atom)
headers_of (some (dict h)) = some h
headers_of _ = none

-- `**merged_kwargs`, as the client takes them
unfoldable pub merged_arguments : List String → Dict Value → Arguments
unfolding remove_all headers_of arguments
merged_arguments named merged =
    arguments (remove_all ("headers" ∷ named) merged) (headers_of (lookup "headers" merged))

-- What writes into the dict of the default headers leave. The cache of the defaults holds the same
-- dict (a failed set_default, which leaves an older cache, is left out).
unfoldable pub store_headers : Dict Atom → Config → Config
unfolding has
store_headers h s = record {
  config = set "default_headers" (dict h) s.config;
  merged_cache = opt (λ m. if has "headers" m then set "headers" (dict h) m else m) s.merged_cache;
}

-- the default headers after a request, which wrote into them if it had none of its own
unfoldable pub write_back : Option (Dict Atom) → Dict Atom → Config → Config
unfolding headers_of store_headers
write_back (some own) left s = s
write_back none left s = elim (headers_of (lookup "default_headers" s.config)) [
  | none ↦ s
  | some h ↦ store_headers left s
]

-- __getattr__: the value of a default, None where it is not set
unfoldable pub attribute : String → Config → Result (Option Value)
unfolding configurable
attribute name s =
    if configurable name
    then ok (lookup name s.config)
    else err
        (error attribute_error (join ("module 'cycletls' has no attribute '" ∷ name ∷ "'" ∷ [])))

module _ {J : Type 0} ⦃c : Casing⦄ ⦃d : Digits⦄ ⦃p : Printing⦄ (py : Environment J) where
  -- the payload of a call, and the defaults that it leaves
  unfoldable pub prepare_call : String → Call J → Keywords → Config → Result Payload × Config
  unfolding kwargs merged_arguments write_back
  prepare_call request_id call k s =
      let merged = merge_defaults (kwargs k) s in
      let prepared = prepare py false request_id call (merged_arguments k.named merged.0) in
      (prepared.0, write_back k.headers prepared.1.caller merged.1)

  module _ (decoders : Decoders) (go : Go) (codec : Codec) (submit : Payload → Exec Ffi Reply) where
    -- request, of the process `pid`
    unfoldable pub request : ℕ → String → Call J → Keywords → Exec Process Response
    unfolding prepare_call
    request pid request_id call k s =
        let merged = merge_defaults (kwargs k) s.defaults in
        let sent =
          Client.request decoders py go codec submit (init false) request_id call
            (merged_arguments k.named merged.0) s.ffi in
        (
          sent.0,
          record {
            global = (get_global_session pid s.global).1;
            defaults = (prepare_call request_id call k s.defaults).1;
            ffi = sent.1;
          },
        )

    unfoldable pub get : ℕ → String → Call J → Keywords → Exec Process Response
    unfolding request
    get pid request_id call = request pid request_id (record call { method = "get" })

    unfoldable pub delete : ℕ → String → Call J → Keywords → Exec Process Response
    unfolding request
    delete pid request_id call = request pid request_id (record call { method = "delete" })

    unfoldable pub head : ℕ → String → Call J → Keywords → Exec Process Response
    unfolding request
    head pid request_id call = request pid request_id (record call { method = "head" })

    unfoldable pub options : ℕ → String → Call J → Keywords → Exec Process Response
    unfolding request
    options pid request_id call = request pid request_id (record call { method = "options" })

    -- the body and the JSON value are arguments of these
    unfoldable pub post :
        ℕ → String → Option Body → Option J → Call J → Keywords → Exec Process Response
    unfolding request
    post pid request_id body json_data call =
        request pid request_id (record call { method = "post"; body = body; json_data = json_data })

    unfoldable pub put_request :
        ℕ → String → Option Body → Option J → Call J → Keywords → Exec Process Response
    unfolding request
    put_request pid request_id body json_data call =
        request pid request_id (record call { method = "put"; body = body; json_data = json_data })

    unfoldable pub patch :
        ℕ → String → Option Body → Option J → Call J → Keywords → Exec Process Response
    unfolding request
    patch pid request_id body json_data call =
        request pid request_id
          (record call { method = "patch"; body = body; json_data = json_data })

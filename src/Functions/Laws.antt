-- ===== src/Functions/Laws.antt =====
-- What the defaults of cycletls/_config.py become in the requests of cycletls/__init__.py.
use cycletls_python.Base.{
  ℕ, Bool, Option, String, false, List, [], ◌∷◌, none, some, ◌≡◌, refl, ap, ◌∙◌, ◌==◌, any,
  Option-cases, inl, inr,
}
use cycletls_python.Dict.{Dict, lookup, has, IsDict}
use cycletls_python.Dict.Laws.{lookup-remove}
use cycletls_python.Errors.{ok}
use cycletls_python.Exec.{Exec, on}
use cycletls_python.Text.{Casing, join}
use cycletls_python.Text.Pattern.{Digits}
use cycletls_python.Values.{Atom, Value, atom, Payload, text}
use cycletls_python.Request.Laws.{neither}
use cycletls_python.Config.{Config, configurable, config_to_param, set_default, merge_defaults}
use cycletls_python.Config.History.{set_default-Holds, set_default-others}
use cycletls_python.Functions.Current.{
  IsCurrent, merge_defaults-IsCurrent, current-merge_defaults, set_default-IsCurrent,
  write_back-IsCurrent,
}
use cycletls_python.Functions.Asynchronous.{async_request}
use cycletls_python.Response.{Reply}
use cycletls_python.Response.Decode.{Decoders}
use cycletls_python.Library.{Go}
use cycletls_python.Ffi.{Ffi, Codec}
use cycletls_python.Arguments.{arguments, headers_or_empty}
use cycletls_python.Url.{Printing}
use cycletls_python.Client.Prepare.{Call, Environment, find_user_agent}
use cycletls_python.Client.PrepareLaws.{agent, prepare_lem}
use cycletls_python.Client.Kept.{IsPlain, dress_plain}
use cycletls_python.Functions.{
  Keywords, Process, request, write_back, kwargs, remove_all, headers_of, merged_arguments,
  prepare_call,
}

lookup-remove_all :
    (q : String) (names : List String) (d : Dict Value)
    → any (λ n. n == q) names ≡ false
    → lookup q (remove_all names d) ≡ lookup q d
unfolding remove_all
lookup-remove_all q [] d h = refl
lookup-remove_all q (n ∷ names) d h =
    let (here, others) = neither (n == q) _ h in
    lookup-remove n q (remove_all names d) ∙ rw here (lookup-remove_all q names d others)

-- An option of the merged keywords is an option of the request.
pub lookup-merged_arguments :
    (q : String) (named : List String) (merged : Dict Value)
    → any (λ n. n == q) ("headers" ∷ named) ≡ false
    → lookup q (merged_arguments named merged).options ≡ lookup q merged
unfolding merged_arguments arguments
lookup-merged_arguments q named merged h =
    elim (Option-cases (headers_of (lookup "headers" merged))) [
      | inl e ↦ rw e (lookup-remove_all q ("headers" ∷ named) merged h)
      | inr (own, e) ↦ rw e (lookup-remove_all q ("headers" ∷ named) merged h)
    ]

module _ {J : Type 0} ⦃c : Casing⦄ ⦃d : Digits⦄ ⦃p : Printing⦄ (py : Environment J) where
  -- The process after requests of the module-level functions, and after calls of set_default that
  -- returned and did not set the user agent.
  pub data Served (s : Process) : Process → Type 0 where
    here : Served s s
    requested :
        {t : Process} (decoders : Decoders) (go : Go) (codec : Codec)
        (submit : Payload → Exec Ffi Reply) (pid : ℕ) (request_id : String) (call : Call J)
        (k : Keywords)
        → Served s t
        → Served s (request py decoders go codec submit pid request_id call k t).1
    arequested :
        {t : Process} (decoders : Decoders) (go : Go) (codec : Codec)
        (submit : Payload → Exec Ffi Reply)
        (callback polling : Option Value → Payload → Exec Ffi Reply) (use_callback : Bool)
        (request_id : String) (call : Call J) (k : Keywords)
        → Served s t
        → Served s
            (async_request py decoders go codec submit callback polling use_callback request_id call
              k t).1
    setting :
        {t : Process} (options : Dict Value)
        → IsDict options
        → has "user_agent" options ≡ false
        → (set_default options t.defaults).0 ≡ ok tt
        → Served s t
        → Served s (record t { defaults = (set_default options t.defaults).1 })

  -- The cache is current, and the user agent is among the defaults.
  abbrev Holds : Value → Config → Type 0
  Holds v t = IsCurrent t × (lookup "default_user_agent" t.config ≡ some v)

  written-Holds :
      (v : Value) (kwargs : Dict Value) (given : Option (Dict Atom)) (left : Dict Atom) (t : Config)
      → Holds v t
      → Holds v (write_back given left (merge_defaults kwargs t).1)
  written-Holds v kwargs given left t h =
      let (current, same) = merge_defaults-IsCurrent kwargs t h.0 in
      let (current', kept) = write_back-IsCurrent given left (merge_defaults kwargs t).1 current in
      (current', kept ∙ ap (lookup "default_user_agent") same ∙ h.1)

  Served-Holds : {s t : Process} (v : Value) → Served s t → Holds v s.defaults → Holds v t.defaults
  unfolding request prepare_call async_request join
  Served-Holds v here h = h
  Served-Holds v (requested decoders go codec submit pid request_id call k r) h =
      written-Holds v (kwargs k) k.headers _ _ (Served-Holds v r h)
  Served-Holds v
        (arequested decoders go codec submit callback polling use_callback request_id call k r) h =
      written-Holds v (kwargs k) k.headers _ _ (Served-Holds v r h)
  Served-Holds v (setting {t} options i n returned r) h = (
    set_default-IsCurrent options t.defaults returned,
    set_default-others options t.defaults "user_agent" i n returned ∙ (Served-Holds v r h).1,
  )

  -- The user agent that a call of set_default sets, and that call returned, goes out with a request
  -- of a synchronous module-level function, however many requests have been made since, synchronous
  -- or not, and whatever other defaults have been set since, as long as the defaults were not reset
  -- and no call of set_default raised or set the user agent again. The request is one whose payload is made and that names no other user agent: neither as an option nor among
  -- its headers or the default headers; it has no auth and no fingerprint.
  pub default_user_agent_sent :
      {t : Process} (settings : Dict Value) (s : Process) (v : Value) (request_id : String)
      (call : Call J) (k : Keywords) (payload : Payload)
      → IsDict settings
      → (set_default settings s.defaults).0 ≡ ok tt
      → lookup "user_agent" settings ≡ some v
      → Served (record s { defaults = (set_default settings s.defaults).1 }) t
      → IsPlain py call
      → IsDict (kwargs k)
      → has "user_agent" (kwargs k) ≡ false
      → any (λ n. n == "user_agent") k.named ≡ false
      → find_user_agent
          (headers_or_empty (merged_arguments k.named (merge_defaults (kwargs k) t.defaults).0))
        ≡ none
      → (prepare_call py request_id call k t.defaults).0 ≡ ok payload
      → lookup "userAgent" payload.options ≡ some (text (agent (some v)))
  unfolding prepare_call configurable config_to_param join
  default_user_agent_sent {t} settings s v request_id call k payload i returned given served plain j
        unnamed others no_header h =
      let (_, stored, _) = set_default-Holds settings s.defaults "user_agent" v i returned given in
      let (current, kept) =
        Served-Holds v served (set_default-IsCurrent settings s.defaults returned, stored) in
      let a = merged_arguments k.named (merge_defaults (kwargs k) t.defaults).0 in
      let (_, _, _, _, ua) = prepare_lem py call false request_id a payload h in
      let found : lookup "user_agent" a.options ≡ some v =
        lookup-merged_arguments "user_agent" k.named (merge_defaults (kwargs k) t.defaults).0
          (rw others refl)
        ∙ current-merge_defaults (kwargs k) t.defaults "user_agent" j current
        ∙ rw unnamed kept in
      ua
      ∙ ap
          (λ b. some (
            text (
              agent (
                on (find_user_agent (headers_or_empty b)) (lookup "user_agent" b.options)
                  (λ e. some (atom e.1))))))
          (dress_plain py call a plain)
      ∙ rw no_header (ap (λ o. some (text (agent o))) found)

-- ===== src/Functions/Leak.antt =====
-- What one request of cycletls/__init__.py leaves in the default headers for the next.
use cycletls_python.Base.{
  ℕ, String, false, List, [], ◌∷◌, none, some, ◌≡◌, refl, sym, ap, ◌∙◌, ◌==◌, subst,
}
use cycletls_python.Dict.{Dict, lookup, set, has, IsDict}
use cycletls_python.Dict.Laws.{lookup-set, lookup-set_self}
use cycletls_python.Errors.{ok}
use cycletls_python.Exec.{Exec}
use cycletls_python.Text.{Casing, lower, join}
use cycletls_python.Text.Utf8.{encode}
use cycletls_python.Text.Pattern.{Digits}
use cycletls_python.Values.{Atom, str, Value, dict, Payload, is_nil}
use cycletls_python.Response.{Reply}
use cycletls_python.Response.Decode.{Decoders}
use cycletls_python.Library.{Go}
use cycletls_python.Ffi.{Ffi, Codec}
use cycletls_python.Config.{Config, merge_defaults}
use cycletls_python.Config.Merge.{IsFresh, lookup-merge_defaults}
use cycletls_python.Config.Cache.{merge_defaults-IsFresh}
use cycletls_python.Arguments.{Arguments, arguments, headers_or_empty, still_shared, write_headers}
use cycletls_python.Url.{Printing}
use cycletls_python.Client.Prepare.{Call, Environment, prepare, dress, add_auth, add_fingerprint}
use cycletls_python.Client.Kept.{IsPlain, dress_plain, prepare-Both, payload-headers}
use cycletls_python.Functions.{
  Keywords, Process, kwargs, remove_all, headers_of, merged_arguments, store_headers, prepare_call,
  request,
}
use cycletls_python.Client.Cut.{Has, cut-Has}
use cycletls_python.Functions.Stored.{headers_in-effective, merged-store_headers, write_back-stored}

-- the header of `auth`
abbrev pub basic : {J : Type 0} → Environment J → String → String → Atom
basic py user password =
    str (join ("Basic " ∷ py.b64encode (encode (join (user ∷ ":" ∷ password ∷ []))) ∷ []))

module _ {J : Type 0} ⦃c : Casing⦄ ⦃d : Digits⦄ ⦃p : Printing⦄ (py : Environment J)
    (decoders : Decoders) (go : Go) (codec : Codec) (submit : Payload → Exec Ffi Reply)
    (other : (lower "Authorization" == "user-agent") ≡ false) where
  abbrev Authorized : String → String → Dict Atom → Type 0
  Authorized user password = Has "Authorization" (basic py user password) other

  typed-Authorized :
      (user password value : String) (h : Dict Atom)
      → Authorized user password h
      → Authorized user password (set "Content-Type" (str value) h)
  typed-Authorized user password value h e =
      lookup-set "Content-Type" "Authorization" (str value) h ∙ e

  -- The dict of the default headers after a request with credentials.
  dress_auth :
      (call : Call J) (user password : String) (a : Arguments)
      → call.auth ≡ some (user, password)
      → call.fingerprint ≡ none
      → (dress py call a).1
        ≡ write_headers (set "Authorization" (basic py user password) (headers_or_empty a)) a
  unfolding dress add_auth add_fingerprint
  dress_auth call user password a e n = rw (e, n) refl

  left-Authorized :
      (call : Call J) (user password request_id : String) (o : Dict Value) (e : String × Atom)
      (own : Dict Atom) (payload : Payload)
      → call.auth ≡ some (user, password)
      → call.fingerprint ≡ none
      → let a = arguments o (some (e ∷ own)) in
        (prepare py false request_id call a).0 ≡ ok payload
        → Authorized user password (prepare py false request_id call a).1.caller
  unfolding arguments headers_or_empty still_shared write_headers is_nil
  left-Authorized call user password request_id o e own payload auth plain h =
      let cred = basic py user password in
      let headers = set "Authorization" cred (e ∷ own) in
      let has_it = lookup-set_self "Authorization" cred (e ∷ own) in
      let (at_hand, owned) =
        cut-Has "Authorization" cred other headers headers
          (still_shared (write_headers headers (arguments o (some (e ∷ own))))) has_it has_it in
      (prepare-Both py (Authorized user password) (typed-Authorized user password) call false
        request_id (arguments o (some (e ∷ own))) payload
        (rw (dress_auth call user password (arguments o (some (e ∷ own))) auth plain) at_hand)
        (rw (dress_auth call user password (arguments o (some (e ∷ own))) auth plain) owned) h).1

  default-headers :
      (k : Keywords) (s : Config) (own : Dict Atom)
      → IsDict (kwargs k)
      → has "headers" (kwargs k) ≡ false
      → IsFresh s
      → lookup "default_headers" s.config ≡ some (dict own)
      → lookup "headers" (merge_defaults (kwargs k) s).0 ≡ some (dict own)
  default-headers k s own i n f stored =
      lookup-merge_defaults (kwargs k) s "headers" i f
      ∙ headers_in-effective s.config (kwargs k) n
      ∙ stored

  merged_arguments-headers :
      (named : List String) (merged : Dict Value) (own : Dict Atom)
      → lookup "headers" merged ≡ some (dict own)
      → merged_arguments named merged ≡ arguments (remove_all ("headers" ∷ named) merged) (some own)
  unfolding merged_arguments headers_of
  merged_arguments-headers named merged own h = rw h refl

  -- What the first request leaves of the defaults.
  written :
      (call : Call J) (user password request_id : String) (k : Keywords) (s : Config)
      (e : String × Atom) (own : Dict Atom) (payload : Payload)
      → call.auth ≡ some (user, password)
      → call.fingerprint ≡ none
      → k.headers ≡ none
      → lookup "headers" (merge_defaults (kwargs k) s).0 ≡ some (dict (e ∷ own))
      → lookup "default_headers" (merge_defaults (kwargs k) s).1.config ≡ some (dict (e ∷ own))
      → (prepare_call py request_id call k s).0 ≡ ok payload
      → (left : Dict Atom) × ((prepare_call py request_id call k s).1
          ≡ store_headers left (merge_defaults (kwargs k) s).1)
        × Authorized user password left
  unfolding prepare_call
  written call user password request_id k s e own payload auth plain unset found stored h =
      let merged = merge_defaults (kwargs k) s in
      let same = merged_arguments-headers k.named merged.0 (e ∷ own) found in
      let o = remove_all ("headers" ∷ k.named) merged.0 in
      (
        (prepare py false request_id call (merged_arguments k.named merged.0)).1.caller,
        write_back-stored k.headers _ (e ∷ own) merged.1 unset stored,
        subst (λ a. Authorized user password (prepare py false request_id call a).1.caller)
            (sym same)
            (left-Authorized call user password request_id o e own payload auth plain
              (subst (λ a. (prepare py false request_id call a).0 ≡ ok payload) same h)),
      )

  -- What the second request sends.
  sent-Authorized :
      (call : Call J) (user password request_id : String) (a : Arguments) (o : Dict Value)
      (left : Dict Atom) (payload : Payload)
      → IsPlain py call
      → a ≡ arguments o (some left)
      → Authorized user password left
      → (prepare py false request_id call a).0 ≡ ok payload
      → (sent : Dict Atom) × (lookup "headers" payload.options ≡ some (dict sent))
        × Authorized user password sent
  unfolding arguments headers_or_empty
  sent-Authorized call user password request_id a o left payload plain same has_it h =
      let b = arguments o (some left) in
      let h' = subst (λ x. (prepare py false request_id call x).0 ≡ ok payload) same h in
      let (at_hand, owned) =
        cut-Has "Authorization" (basic py user password) other left left (still_shared b) has_it
          has_it in
      (
        headers_or_empty (prepare py false request_id call b).1,
        payload-headers py call false request_id b payload h',
        (prepare-Both py (Authorized user password) (typed-Authorized user password) call false
            request_id b payload (rw (dress_plain py call b plain) at_hand)
            (rw (dress_plain py call b plain) owned) h').0,
      )

  -- Credentials of one request are sent with the next one to any address: when headers are set by
  -- set_default, a request of a module-level function that has none of its own writes its
  -- Authorization into the dict of the defaults, and a later request without auth and headers sends
  -- it. Neither request has a fingerprint, the payloads of both are made, the cache of the defaults
  -- is up to date, and "Authorization" in lower case is not "user-agent".
  pub credentials_leak :
      (pid : ℕ) (request_id request_id' user password : String) (first second : Call J)
      (k k' : Keywords) (e : String × Atom) (own : Dict Atom) (s : Process)
      (payload payload' : Payload)
      → first.auth ≡ some (user, password)
      → first.fingerprint ≡ none
      → IsPlain py second
      → (k.headers ≡ none) × (k'.headers ≡ none)
      → IsDict (kwargs k) × IsDict (kwargs k')
      → (has "headers" (kwargs k) ≡ false) × (has "headers" (kwargs k') ≡ false)
      → IsFresh s.defaults
      → lookup "default_headers" s.defaults.config ≡ some (dict (e ∷ own))
      → (prepare_call py request_id first k s.defaults).0 ≡ ok payload
      → let after = (request py decoders go codec submit pid request_id first k s).1 in
        (prepare_call py request_id' second k' after.defaults).0 ≡ ok payload'
        → (sent : Dict Atom) × (lookup "headers" payload'.options ≡ some (dict sent))
          × (lookup "Authorization" sent ≡ some (basic py user password))
  unfolding request prepare_call
  credentials_leak pid request_id request_id' user password first second k k' e own s payload
        payload' auth plain plain' unset dicts absent fresh stored h h' =
      let merged = (merge_defaults (kwargs k) s.defaults).1 in
      let (fresh', kept) = merge_defaults-IsFresh (kwargs k) s.defaults fresh in
      let stored' = ap (λ d. lookup "default_headers" d) kept ∙ stored in
      let (left, stale, has_it) =
        written first user password request_id k s.defaults e own payload auth plain unset.0
          (default-headers k s.defaults (e ∷ own) dicts.0 absent.0 fresh stored) stored' h in
      let found =
        ap (λ t. lookup "headers" (merge_defaults (kwargs k') t).0) stale
        ∙ merged-store_headers left (e ∷ own) merged.config merged.merged_cache (kwargs k') dicts.1
            absent.1 fresh' stored' in
      sent-Authorized second user password request_id' _ _ left payload' plain'
        (merged_arguments-headers k'.named
          (merge_defaults (kwargs k') (prepare_call py request_id first k s.defaults).1).0 left
          found)
        has_it h'

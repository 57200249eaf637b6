-- ===== src/Request/Wire.antt =====
-- The dictionary that `Request.to_dict` of cycletls/schema.py makes for the Go side, key by key.
use cycletls_python.Base.{
  Bool, ℕ, pos, String, false, List, [], ◌∷◌, Option, none, some, map, ◌≡◌, refl, ◌∙◌, ◌==◌, any,
  All,
}
use cycletls_python.Dict.{Dict, lookup}
use cycletls_python.Errors.{ok}
use cycletls_python.Text.{Casing}
use cycletls_python.Values.{int, bool, bytes, Value, atom, list, dict, cookie_dicts, multi, text}
use cycletls_python.Request.Cookie.{opt, cookie_to_dict}
use cycletls_python.Request.{
  Request, normalize, protocol_value, timeout_int, required_fields, optional_fields, to_dict,
}
use cycletls_python.Request.Laws.{to_dict_lem, neither}

none_is {ℓ} : {A : Type ℓ} (f : A → Bool) (l : List A) → any f l ≡ false → All (λ x. f x ≡ false) l
none_is f [] h = tt
none_is f (x ∷ l) h = let (here, others) = neither (f x) (any f l) h in (here, none_is f l others)

module _ ⦃c : Casing⦄ where
  -- Each key with what stands under it; `none` where the key is not there.
  unfoldable pub wire : Request → ℕ → List (String × Option Value)
  wire r seconds =
      ("url", some (text r.url))
      ∷ ("method", some (text r.method))
      ∷ ("headers", some (dict r.headers))
      ∷ ("headerValues", opt (λ d. multi (map (λ e. (e.0, normalize e.1)) d)) r.header_values)
      ∷ ("headerOrder", opt list r.header_order)
      ∷ ("orderHeadersAsProvided", opt (λ b. atom (bool b)) r.order_headers_as_provided)
      ∷ ("userAgent", some (text r.user_agent))
      ∷ ("cookies", opt (λ cs. cookie_dicts (map cookie_to_dict cs)) r.cookies)
      ∷ ("body", some (text r.body))
      ∷ ("bodyBytes", opt (λ b. atom (bytes b)) r.body_bytes)
      ∷ ("ja3", opt text r.ja3)
      ∷ ("ja4r", opt text r.ja4r)
      ∷ ("http2Fingerprint", opt text r.http2_fingerprint)
      ∷ ("quicFingerprint", opt text r.quic_fingerprint)
      ∷ ("disableGrease", some (atom (bool r.disable_grease)))
      ∷ ("serverName", opt text r.server_name)
      ∷ ("insecureSkipVerify", some (atom (bool r.insecure_skip_verify)))
      ∷ ("tls13AutoRetry", some (atom (bool r.tls13_auto_retry)))
      ∷ ("forceHTTP1", some (atom (bool r.force_http1)))
      ∷ ("forceHTTP3", some (atom (bool r.force_http3)))
      ∷ ("protocol", opt (λ p. text (protocol_value p)) r.protocol)
      ∷ ("proxy", some (text r.proxy))
      ∷ ("localAddress", opt text r.local_address)
      ∷ ("timeout", some (atom (int (pos seconds))))
      ∷ ("disableRedirect", some (atom (bool r.disable_redirect)))
      ∷ ("enableConnectionReuse", some (atom (bool r.enable_connection_reuse)))
      ∷ []

  wire_others :
      (r : Request) (t : ℕ) (j : String)
      → any (λ e. e.0 == j) (wire r t) ≡ false
      → (any (λ e. e.0 == j) (optional_fields r) ≡ false) × (lookup j (required_fields r t) ≡ none)
  unfolding wire optional_fields required_fields lookup
  wire_others r t j h = let absent = none_is (λ e. e.0 == j) (wire r t) h in (cc, cc)

  -- The dictionary of a request whose time limit is `t` in whole seconds, where it is made, has each
  -- field of the request under its own one of the 26 keys that `wire` lists; an optional field that is
  -- None has no key, and there is no other key.
  pub to_dict_sends :
      (r : Request) (t : ℕ) (d : Dict Value)
      → timeout_int r.timeout ≡ ok t
      → to_dict r ≡ ok d
      → All (λ e. lookup e.0 d ≡ e.1) (wire r t)
        × ((j : String) → any (λ e. e.0 == j) (wire r t) ≡ false → lookup j d ≡ none)
  unfolding wire optional_fields required_fields lookup
  to_dict_sends r t d h k =
      let (found, same) = to_dict_lem r t d h k in
      (
        search
            (
              same "url" refl,
              same "method" refl,
              same "body" refl,
              same "headers" refl,
              same "disableGrease" refl,
              same "insecureSkipVerify" refl,
              same "tls13AutoRetry" refl,
              same "forceHTTP1" refl,
              same "forceHTTP3" refl,
              same "userAgent" refl,
              same "proxy" refl,
              same "timeout" refl,
              same "disableRedirect" refl,
              same "enableConnectionReuse" refl,
            )
            depth 60,
        λ j n. let (absent, missing) = wire_others r t j n in same j absent ∙ missing,
      )

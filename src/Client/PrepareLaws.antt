-- ===== src/Client/PrepareLaws.antt =====
-- What `_prepare_request` of cycletls/api.py puts into a request.
use cycletls_python.Base.{
  String, Bool, true, false, Option, none, some, or_default, ◌≡◌, refl, sym, ap, ◌∙◌, subst,
}
use cycletls_python.Dict.{lookup}
use cycletls_python.Errors.{Error, ok, ok_inj}
use cycletls_python.Exec.{lift, guard, on}
use cycletls_python.Text.{Casing}
use cycletls_python.Text.Pattern.{Digits}
use cycletls_python.Values.{Value, atom, Payload, text}
use cycletls_python.Request.{
  Request, to_dict, required_fields, optional_fields, timeout_int, put_all,
}
use cycletls_python.Request
use cycletls_python.Arguments.{Arguments, headers_or_empty}
use cycletls_python.Url.{Printing, merge_url_params}
use cycletls_python.Client.Options.{request_of, given, as_text, optional}
use cycletls_python.Client.Prepare.{
  Call, Environment, Body, prepare, collect, encode_all, request_payload, json_of, find_user_agent,
  look, dress,
}
use cycletls_python.Client.Steps.{
  bind_ok, fixed_fields, Looked, look-Looked, request_payload-ok, encode_all-Keeps,
}

module _ {J : Type 0} ⦃c : Casing⦄ ⦃d : Digits⦄ ⦃p : Printing⦄ (py : Environment J)
    (call : Call J) where
  -- What a preparation that returned has gone through.
  abbrev pub Prepared : Bool → String → Arguments → Payload → Type 0
  Prepared closed request_id a payload =
      (s : Arguments) × ((prepare py closed request_id call a).1 ≡ s)
      × ((input : Option J × Option Body) × ((collect py call a).0 ≡ ok input)
          × (s ≡ (encode_all py call input (collect py call a).1).1))
      × (closed ≡ false)
      × (payload.request_id ≡ request_id)
      × (request_payload py call s ≡ ok payload.options)
      × (lookup "user_agent" s.options
          ≡ on (find_user_agent (headers_or_empty (dress py call a).1))
              (lookup "user_agent" (dress py call a).1.options) (λ e. some (atom e.1)))

  guard-false :
      (b : Bool) (e : Error) (s : Arguments)
      → (guard b e s).0 ≡ ok tt
      → (b ≡ false) × ((guard b e s).1 ≡ s)
  guard-false true e s h = cc
  guard-false false e s h = (refl, refl)

  pub collect-Looked :
      (a : Arguments) (input : Option J × Option Body)
      → (collect py call a).0 ≡ ok input
      → Looked (dress py call a).1 (collect py call a).1
  unfolding collect
  collect-Looked a input h =
      let (json, _, first, next) = bind_ok (lift (json_of call.json_data call.json)) _ a h in
      let (_, _, second, next') = bind_ok (dress py call) _ a next in
      let b = (dress py call a).1 in
      let (_, _, looked) = look-Looked py call call.body b in
      let (_, _, third, _) = bind_ok (look py call.body) _ b next' in
      subst (λ r. Looked b r.1) (sym (first ∙ second ∙ third)) looked

  pub prepare-Prepared :
      (closed : Bool) (request_id : String) (a : Arguments) (payload : Payload)
      → (prepare py closed request_id call a).0 ≡ ok payload
      → Prepared closed request_id a payload
  unfolding prepare
  prepare-Prepared true request_id a payload h = cc
  prepare-Prepared false request_id a payload h =
      let (input, collected, first, rest) = bind_ok (collect py call) _ a h in
      let b = (collect py call a).1 in
      let (_, _, second, rest') = bind_ok (encode_all py call input) _ b rest in
      let s = (encode_all py call input b).1 in
      let (o, made, third, last) = bind_ok (lift (request_payload py call s)) _ s rest' in
      (
        s,
        ap (λ r. r.1) (first ∙ second ∙ third),
        (input, collected, refl),
        refl,
        ap (λ q. q.request_id) (sym (ok_inj last)),
        made ∙ ap (λ q. ok q.options) (ok_inj last),
        encode_all-Keeps py call "user_agent" _ input b refl refl
            (collect-Looked a input collected).0,
      )

-- A user agent among the options, as the request has it.
abbrev pub agent : Option Value → String
agent o = or_default (on o none as_text) (Request.request "" "").user_agent

module _ {J : Type 0} ⦃c : Casing⦄ ⦃d : Digits⦄ ⦃p : Printing⦄ (py : Environment J) (call : Call J)
    (closed : Bool) (request_id : String) (a : Arguments) (payload : Payload)
    (returned : (prepare py closed request_id call a).0 ≡ ok payload) where
  -- What a payload says of a request that was prepared: the identifier and the method that were
  -- given, the address with the parameters in its query, and as user agent the first one among the
  -- headers after auth and fingerprint, in whatever case its key is, else the option, else the
  -- default. A closed client prepares nothing.
  pub prepare_lem :
      let b = (dress py call a).1 in
      (closed ≡ false)
      × (payload.request_id ≡ request_id)
      × (lookup "url" payload.options ≡ some (text (merge_url_params py.urls call.url call.params)))
      × (lookup "method" payload.options ≡ some (text call.method))
      × (lookup "userAgent" payload.options
          ≡ some (
              text (
                agent (
                  on
                    (find_user_agent (headers_or_empty b))
                    (lookup "user_agent" b.options)
                    (λ e. some (atom e.1))))))
  unfolding given request_of optional
  prepare_lem =
      let (s, _, _, open_client, id, made, found) =
        prepare-Prepared py call closed request_id a payload returned in
      let (url, method, user_agent, _, _) =
        fixed_fields _ _ (request_payload-ok py call s _ made) in
      (open_client, id, url, method, user_agent ∙ ap (λ o. some (text (agent o))) found)

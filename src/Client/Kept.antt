-- ===== src/Client/Kept.antt =====
-- What `_prepare_request` of cycletls/api.py keeps of the headers at hand and of its caller's headers.
use cycletls_python.Base.{
  ℕ, String, Bool, List, Option, none, some, ◌≡◌, refl, sym, ap, ◌∙◌, Bool-cases, inl, inr, subst,
}
use cycletls_python.Dict.{Dict, lookup, set, has, remove}
use cycletls_python.Errors.{ok}
use cycletls_python.Exec.{lift, on, bind_keeps, if_case}
use cycletls_python.Text.{Casing}
use cycletls_python.Text.Pattern.{Digits}
use cycletls_python.Values.{Atom, str, Payload}
use cycletls_python.Arguments.{Arguments, headers_or_empty, still_shared, assign_headers}
use cycletls_python.Url.{Printing}
use cycletls_python.Client.Multipart.{FileInfo, encode_multipart}
use cycletls_python.Client.Prepare.{
  Call, Environment, Body, prepare, collect, encode_all, find_user_agent, dress, encode_body,
  encode_files, put_option, set_header, form_fields, fields, octets, words, add_auth,
  add_fingerprint,
}
use cycletls_python.Client.Options.{request_of}
use cycletls_python.Client.PrepareLaws.{prepare-Prepared, collect-Looked}
use cycletls_python.Client.Steps.{fixed_fields, request_payload-ok}
use cycletls_python.Values.{dict}
use cycletls_python.Base.{if◌then◌else◌}

module _ {J : Type 0} ⦃c : Casing⦄ ⦃d : Digits⦄ ⦃p : Printing⦄ (py : Environment J) where
  -- A property of a headers dict that a write of the Content-Type keeps.
  module _ (P : Dict Atom → Type 0)
      (typed : (value : String) (h : Dict Atom) → P h → P (set "Content-Type" (str value) h)) where
    -- It holds of the headers at hand and of those of the caller.
    abbrev pub Both : Arguments → Type 0
    Both a = P (headers_or_empty a) × P a.caller

    set_header-Both :
        (value : String) (a : Arguments) → Both a → Both (set_header py "Content-Type" value a).1
    unfolding set_header assign_headers headers_or_empty
    set_header-Both value a h =
        let found = typed value (headers_or_empty a) h.0 in
        (
          found,
          if_case P a.shared (set "Content-Type" (str value) (headers_or_empty a)) a.caller found
              h.1,
        )

    encode_body-Both :
        (json : Option J) (body : Option Body) (a : Arguments)
        → Both a
        → Both (encode_body py json body a).1
    unfolding encode_body
    encode_body-Both (some i) (some body) a h = h
    encode_body-Both (some i) none a h = set_header-Both "application/json" a h
    encode_body-Both none none a h = h
    encode_body-Both none (some (fields form)) a h =
        elim (Bool-cases (has "Content-Type" (headers_or_empty a))) [
          | inl e ↦ rw e h
          | inr e ↦ rw e (set_header-Both "application/x-www-form-urlencoded" a h)
        ]
    encode_body-Both none (some (octets b)) a h = h
    encode_body-Both none (some (words x)) a h = h

    encode_files-Both :
        (files : Option (Dict FileInfo)) (body : Option Body) (so_far : Option (List ℕ))
        (a : Arguments)
        → Both a
        → Both (encode_files py files body so_far a).1
    unfolding encode_files
    encode_files-Both none body so_far a h = h
    encode_files-Both (some files) body so_far a h =
        bind_keeps Both
          (lift (encode_multipart py.guess_type py.boundary (form_fields py body) files)) _ a h
          (λ m s k. set_header-Both m.1 s k)

    encode_all-Both :
        (call : Call J) (input : Option J × Option Body) (a : Arguments)
        → Both a
        → Both (encode_all py call input a).1
    unfolding encode_all put_option headers_or_empty
    encode_all-Both call input a h =
        bind_keeps Both (encode_body py input.0 input.1) _ a (encode_body-Both input.0 input.1 a h)
          (λ encoded s k.
            bind_keeps Both (encode_files py call.files input.1 encoded.1) _ s
              (encode_files-Both call.files input.1 encoded.1 s k) (λ bs s' k'. k'))

    -- What holds of the headers after the user agent is taken out of them, at hand and in the dict
    -- of the caller, holds of what a preparation that returned leaves.
    pub prepare-Both :
        (call : Call J) (closed : Bool) (request_id : String) (a : Arguments) (payload : Payload)
        → let b = (dress py call a).1 in
          let h = headers_or_empty b in
          P (on (find_user_agent h) h (λ e. remove e.0 h))
          → P (
              on
                (find_user_agent h)
                b.caller
                (λ e. if still_shared b then remove e.0 h else b.caller))
          → (prepare py closed request_id call a).0 ≡ ok payload
          → Both (prepare py closed request_id call a).1
    prepare-Both call closed request_id a payload at_hand owned h =
        let (s, after, (input, collected, encoded), _, _, _, _) =
          prepare-Prepared py call closed request_id a payload h in
        let (_, caller, headers) = collect-Looked py call a input collected in
        subst Both (sym (after ∙ encoded)) (
          encode_all-Both call input (collect py call a).1
            (subst P (sym headers) at_hand, subst P (sym caller) owned))

  -- The headers of a payload are those that the preparation leaves at hand.
  pub payload-headers :
      (call : Call J) (closed : Bool) (request_id : String) (a : Arguments) (payload : Payload)
      → (prepare py closed request_id call a).0 ≡ ok payload
      → lookup "headers" payload.options
        ≡ some (dict (headers_or_empty (prepare py closed request_id call a).1))
  unfolding request_of
  payload-headers call closed request_id a payload h =
      let (s, after, _, _, _, made, _) = prepare-Prepared py call closed request_id a payload h in
      let (_, _, _, headers, _) = fixed_fields _ _ (request_payload-ok py call s _ made) in
      headers ∙ ap (λ t. some (dict (headers_or_empty t))) (sym after)

  -- no auth and no fingerprint
  abbrev pub IsPlain : Call J → Type 0
  IsPlain call = (call.auth ≡ none) × (call.fingerprint ≡ none)

  pub dress_plain : (call : Call J) (a : Arguments) → IsPlain call → (dress py call a).1 ≡ a
  unfolding dress add_auth add_fingerprint
  dress_plain call a h = rw (h.0, h.1) refl

-- ===== src/Client/Steps.antt =====
-- The steps of `_prepare_request` of cycletls/api.py one by one: what each keeps of the options, and
-- where the user agent of the request comes from.
use cycletls_python.Base.{
  ℕ, String, false, List, Option, none, some, ◌≡◌, refl, sym, ap, ◌∙◌, ◌==◌, if◌then◌else◌,
  Bool-cases, inl, inr, Option-cases, subst,
}
use cycletls_python.Dict.{Dict, lookup, has, remove, keys}
use cycletls_python.Dict.Laws.{lookup-set_self, lookup-remove}
use cycletls_python.Errors.{Result, ok, err, bind-ok, ok_inj}
use cycletls_python.Exec.{Exec, pure, lift, on, and_then, bind_keeps, ◌>>=◌, ◌>>◌}
use cycletls_python.Text.{Casing}
use cycletls_python.Text.Pattern.{Digits}
use cycletls_python.Values.{bytes, Value, atom, dict, text}
use cycletls_python.Request.{Request, to_dict, required_fields, optional_fields, timeout_int}
use cycletls_python.Request.Cookie.{opt}
use cycletls_python.Request.Laws.{to_dict_lem, lookup-put}
use cycletls_python.Arguments.{
  Arguments, headers_or_empty, still_shared, take_headers, assign_headers,
}
use cycletls_python.Url.{Printing, merge_url_params}
use cycletls_python.Client.Multipart.{FileInfo, encode_multipart}
use cycletls_python.Client.Options.{raise_unknown, request_dict, new_request, request_of, unknown}
use cycletls_python.Client.Prepare.{
  body_of_value, Call, Environment, Body, encode_all, request_payload, find_user_agent, pop_body,
  look, form_fields, move_user_agent, encode_body, encode_files, put_option, set_header,
  convert_cookies, fields, octets, words,
}

-- A block that returned has gone through its first action, and went on from there.
pub bind_ok {ℓ κ μ} :
    {S : Type ℓ} {A : Type κ} {B : Type μ} (m : Exec S A) (f : A → Exec S B) (s : S) {b : B}
    → ((m >>= f) s).0 ≡ ok b
    → (a : A) × ((m s).0 ≡ ok a) × ((m >>= f) s ≡ f a (m s).1) × ((f a (m s).1).0 ≡ ok b)
bind_ok m f s = split (m s).0 (m s).1
  where
    split :
        (r : Result _) (t : _) {b : _}
        → (and_then r f t).0 ≡ ok b
        → (a : _) × (r ≡ ok a) × (and_then r f t ≡ f a t) × ((f a t).0 ≡ ok b)
    split (ok a) t h = (a, refl, refl, h)
    split (err e) t h = cc

tail_ok {ℓ κ} :
    {S : Type ℓ} {A : Type κ} (m : Exec S (Unit {0})) (s : S) (x : A)
    → (m s).0 ≡ ok tt
    → (m >> pure x) s ≡ (ok x, (m s).1)
tail_ok m s x h = rw h refl

-- The fields of a request that a payload always has.
pub fixed_fields :
    ⦃c : Casing⦄ (r : Request) (d : Dict Value)
    → to_dict r ≡ ok d
    → (lookup "url" d ≡ some (text r.url))
      × (lookup "method" d ≡ some (text r.method))
      × (lookup "userAgent" d ≡ some (text r.user_agent))
      × (lookup "headers" d ≡ some (dict r.headers))
      × (lookup "proxy" d ≡ some (text r.proxy))
unfolding optional_fields required_fields lookup to_dict
fixed_fields r d h =
    let (t, whole, _) = bind-ok (timeout_int r.timeout) _ h in
    let rest = (to_dict_lem r t d whole h).1 in
    (
      rest "url" refl,
      rest "method" refl,
      rest "userAgent" refl,
      rest "headers" refl,
      rest "proxy" refl,
    )

-- The deprecated arguments take nothing else away.
pop_body_lem :
    (key : String) (body : Option Body) (a : Arguments)
    → (popped : Option Body) × (left : Dict Value) × (pop_body key body a
        ≡ (ok popped, record a { options = left }))
      × ((j : String) → (key == j) ≡ false → lookup j left ≡ lookup j a.options)
unfolding pop_body
pop_body_lem key (some body) a = (some body, a.options, refl, λ j h. refl)
pop_body_lem key none a = by_case (lookup key a.options) refl
  where
    by_case :
        (o : Option Value)
        → lookup key a.options ≡ o
        → (popped : Option Body) × (left : Dict Value) × (pop_body key none a
            ≡ (ok popped, record a { options = left }))
          × ((j : String) → (key == j) ≡ false → lookup j left ≡ lookup j a.options)
    by_case none e = (none, a.options, rw e refl, λ j h. refl)
    by_case (some v) e = (
      body_of_value v,
      remove key a.options,
      rw e refl,
      λ j h. lookup-remove key j a.options ∙ rw h refl,
    )

-- The option that the user agent is taken from, and the caller's headers, once the headers have
-- been looked through.
abbrev pub Looked : ⦃c : Casing⦄ → Arguments → Arguments → Type 0
Looked a b =
    (lookup "user_agent" b.options
      ≡ on (find_user_agent (headers_or_empty a)) (lookup "user_agent" a.options)
          (λ e. some (atom e.1)))
    × (b.caller
        ≡ on (find_user_agent (headers_or_empty a)) a.caller
            (λ e. if still_shared a then remove e.0 (headers_or_empty a) else a.caller))
    × (headers_or_empty b
        ≡ on (find_user_agent (headers_or_empty a)) (headers_or_empty a)
            (λ e. remove e.0 (headers_or_empty a)))

move_user_agent-Looked :
    ⦃c : Casing⦄ {J : Type 0} ⦃d : Digits⦄ ⦃p : Printing⦄ (py : Environment J) (a : Arguments)
    (left : Dict Value)
    → lookup "user_agent" left ≡ lookup "user_agent" a.options
    → let m = move_user_agent py (take_headers (record a { options = left })) in
      (m.0 ≡ ok tt) × Looked a m.1
unfolding move_user_agent take_headers headers_or_empty still_shared assign_headers
move_user_agent-Looked py a left h = elim (Option-cases (find_user_agent (headers_or_empty a))) [
  | inl e ↦ rw e (refl, (h, refl, refl))
  | inr (found, e) ↦ rw e (refl, (lookup-set_self "user_agent" (atom found.1) left, refl, refl))
]

module _ {J : Type 0} ⦃c : Casing⦄ ⦃d : Digits⦄ ⦃p : Printing⦄ (py : Environment J)
    (call : Call J) where
  pub request_payload-ok :
      (a : Arguments) (o : Dict Value)
      → request_payload py call a ≡ ok o
      → to_dict (
          request_of
            (merge_url_params py.urls call.url call.params)
            call.method
            (headers_or_empty a)
            (convert_cookies call.cookies)
            a.options)
        ≡ ok o
  unfolding request_payload request_dict new_request
  request_payload-ok a o h =
      let (r, made, sent) = bind-ok _ to_dict h in
      let (_, _, same) = bind-ok (raise_unknown (unknown (keys a.options))) _ made in
      ap to_dict (ok_inj same) ∙ sent

  -- Looking for the user agent always comes to an end.
  pub look-Looked :
      (body : Option Body) (a : Arguments)
      → (found : Option Body) × ((look py body a).0 ≡ ok found) × Looked a (look py body a).1
  unfolding look
  look-Looked body a =
      let (popped, left, first, kept) = pop_body_lem "body" body a in
      let (found, rest, second, kept') =
        pop_body_lem "body_bytes" popped (record a { options = left }) in
      let (moved, looked) =
        move_user_agent-Looked py a rest (kept' "user_agent" refl ∙ kept "user_agent" refl) in
      (
        found,
        rw first (
            rw second (
              ap (λ r. r.0)
                (tail_ok (move_user_agent py) (take_headers (record a { options = rest })) found
                  moved))),
        rw first (
            rw second (
              subst (Looked a)
                (sym (
                  ap (λ r. r.1)
                    (tail_ok (move_user_agent py) (take_headers (record a { options = rest })) found
                      moved)))
                looked)),
      )

  module _ (j : String) (v : Option Value) where
    abbrev Keeps : Arguments → Type 0
    Keeps a = lookup j a.options ≡ v

    encode_body-Keeps :
        (json : Option J) (body : Option Body) (a : Arguments)
        → Keeps a
        → Keeps (encode_body py json body a).1
    unfolding encode_body set_header assign_headers
    encode_body-Keeps (some i) (some body) a h = h
    encode_body-Keeps (some i) none a h = h
    encode_body-Keeps none none a h = h
    encode_body-Keeps none (some (fields form)) a h =
        elim (Bool-cases (has "Content-Type" (headers_or_empty a))) [
          | inl e ↦ rw e h
          | inr e ↦ rw e h
        ]
    encode_body-Keeps none (some (octets b)) a h = h
    encode_body-Keeps none (some (words x)) a h = h

    encode_files-Keeps :
        (files : Option (Dict FileInfo)) (body : Option Body) (so_far : Option (List ℕ))
        (a : Arguments)
        → Keeps a
        → Keeps (encode_files py files body so_far a).1
    unfolding encode_files set_header assign_headers
    encode_files-Keeps none body so_far a h = h
    encode_files-Keeps (some files) body so_far a h =
        bind_keeps Keeps
          (lift (encode_multipart py.guess_type py.boundary (form_fields py body) files)) _ a h
          (λ m s k. k)

    put_option-Keeps :
        (key : String) (o : Option Value) (a : Arguments)
        → (key == j) ≡ false
        → Keeps a
        → Keeps (put_option key o a).1
    unfolding put_option
    put_option-Keeps key o a n h = lookup-put key j o a.options n ∙ h

    pub encode_all-Keeps :
        (input : Option J × Option Body) (a : Arguments)
        → ("body" == j) ≡ false
        → ("body_bytes" == j) ≡ false
        → Keeps a
        → Keeps (encode_all py call input a).1
    unfolding encode_all
    encode_all-Keeps input a n m h =
        bind_keeps Keeps (encode_body py input.0 input.1) _ a
          (encode_body-Keeps input.0 input.1 a h)
          (λ encoded s k.
            bind_keeps Keeps (encode_files py call.files input.1 encoded.1) _ s
              (encode_files-Keeps call.files input.1 encoded.1 s k)
              (λ bs s' k'.
                put_option-Keeps "body_bytes" (opt (λ b. atom (bytes b)) bs)
                  (put_option "body" (opt text encoded.0) s').1 m
                  (put_option-Keeps "body" (opt text encoded.0) s' n k')))

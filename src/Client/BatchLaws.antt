-- ===== src/Client/BatchLaws.antt =====
-- What belongs to what in a batch of cycletls/api.py, and what an item of it can ask for.
use cycletls_python.Base.{
  ℕ, suc, String, false, List, [], ◌∷◌, none, ◌≡◌, refl, sym, ap, ◌∙◌, ◌==◌, arith, any, subst,
  Bool-cases, inl, inr,
}
use cycletls_python.Dict.{Dict, lookup}
use cycletls_python.Errors.{Error, Result, ok, err, bind-ok, ok_inj}
use cycletls_python.Exec.{Exec}
use cycletls_python.Text.{Casing}
use cycletls_python.Values.{Value, Payload, bytes, atom, is_nil}
use cycletls_python.Request.Cookie.{put, opt}
use cycletls_python.Request.Laws.{lookup-put, neither}
use cycletls_python.Response.{Reply, Response}
use cycletls_python.Response.Decode.{Decoders}
use cycletls_python.Ffi.{Ffi}
use cycletls_python.Url.{Printing}
use cycletls_python.Client.{Client, parse_response, wrap_error}
use cycletls_python.Client.Prepare.{Environment}
use cycletls_python.Client.Batch.{
  Item, Encoded, build_batch_payload, batch_id, build_all, encode_item, fixed_options, parse_all,
  parse_replies, send_payloads, run_items, run_batch,
}

-- The lists agree entry by entry.
abbrev pub Each {ℓ κ} : {A : Type ℓ} {B : Type κ} → (A → B → Type 0) → List A → List B → Type 0
Each P [] [] = Unit
Each P [] (b ∷ bs) = ⊥
Each P (a ∷ as') [] = ⊥
Each P (a ∷ as') (b ∷ bs) = P a b × Each P as' bs

-- A payload is the one of an item, under the number of its place.
abbrev pub Numbered :
    {J : Type 0} ⦃p : Printing⦄ → Environment J → ℕ → List (Item J) → List Payload → Type 0
Numbered py i [] [] = Unit
Numbered py i [] (q ∷ qs) = ⊥
Numbered py i (item ∷ items) [] = ⊥
Numbered py i (item ∷ items) (q ∷ qs) =
    (build_batch_payload py item (batch_id py i) ≡ ok q) × Numbered py (suc i) items qs

module _ {J : Type 0} ⦃p : Printing⦄ (py : Environment J) where
  build_all-Numbered :
      (i : ℕ) (items : List (Item J)) (payloads : List Payload)
      → build_all py i items ≡ ok payloads
      → Numbered py i items payloads
  unfolding build_all
  build_all-Numbered i [] payloads h = subst (Numbered py i []) (ok_inj h) tt
  build_all-Numbered i (item ∷ items) payloads h =
      let (q, first, rest) = bind-ok (build_batch_payload py item (batch_id py i)) _ h in
      let (qs, others, last) = bind-ok (build_all py (suc i) items) _ rest in
      subst (Numbered py i (item ∷ items)) (ok_inj last)
        (first, build_all-Numbered (suc i) items qs others)

  module _ ⦃c : Casing⦄ (decoders : Decoders) where
    parse_all-Each :
        (replies : List Reply) (responses : List Response)
        → parse_all py decoders replies ≡ ok responses
        → Each (λ reply r. parse_response decoders reply ≡ ok r) replies responses
    unfolding parse_all
    parse_all-Each [] responses h =
        subst (Each (λ reply r. parse_response decoders reply ≡ ok r) []) (ok_inj h) tt
    parse_all-Each (reply ∷ replies) responses h =
        let (r, first, rest) = bind-ok (parse_response decoders reply) _ h in
        let (rs, others, last) = bind-ok (parse_all py decoders replies) _ rest in
        subst (Each (λ q r. parse_response decoders q ≡ ok r) (reply ∷ replies)) (ok_inj last)
          (first, parse_all-Each replies rs others)

    unwrapped {ℓ} :
        {A : Type ℓ} (message : String) (r : Result A) {a : A}
        → wrap_error message r ≡ ok a
        → r ≡ ok a
    unfolding wrap_error
    unwrapped message (ok a) h = h
    unwrapped message (err e) h = cc

    sent_in_order :
        (message : String) (send : List Payload → Exec Ffi (List Reply)) (items : List (Item J))
        (built : Result (List Payload)) (responses : List Response) (s : Ffi)
        → build_all py 0 items ≡ built
        → (send_payloads py decoders message send built s).0 ≡ ok responses
        → (payloads : List Payload) × (replies : List Reply) × Numbered py 0 items payloads
          × ((send payloads s).0 ≡ ok replies)
          × Each (λ reply r. parse_response decoders reply ≡ ok r) replies responses
    unfolding send_payloads parse_replies
    sent_in_order message send items (err e) responses s b h = cc
    sent_in_order message send items (ok payloads) responses s b h =
        let (replies, wrapped, parsed) = bind-ok (wrap_error message (send payloads s).0) _ h in
        (
          payloads,
          replies,
          build_all-Numbered 0 items payloads b,
          unwrapped message (send payloads s).0 wrapped,
          parse_all-Each replies responses parsed,
        )

    -- The responses of a batch that returned: each item has made the payload at its place, with its
    -- number as identifier; they were sent together in that order; and the response at each place
    -- is read from the reply at that place, so that none of the replies is a failure. A closed
    -- client returns no responses.
    pub batch_in_order :
        (message : String) (send : List Payload → Exec Ffi (List Reply)) (client : Client)
        (item : Item J) (items : List (Item J)) (responses : List Response) (s : Ffi)
        → (run_batch py decoders message send client (item ∷ items) s).0 ≡ ok responses
        → (client.closed ≡ false)
          × ((payloads : List Payload) × (replies : List Reply) × Numbered py 0
                (item ∷ items)
                payloads
              × ((send payloads s).0 ≡ ok replies)
              × Each (λ reply r. parse_response decoders reply ≡ ok r) replies responses)
    unfolding run_batch run_items is_nil
    batch_in_order message send client item items responses s h = elim (Bool-cases client.closed) [
      | inl shut ↦ absurd (closed_err (rw shut at h))
      | inr open_client ↦ (
        open_client,
        sent_in_order message send (item ∷ items) (build_all py 0 (item ∷ items)) responses s refl
            (rw open_client at h),
      )
    ]
      where
        closed_err : {e : Error} → ◌≡◌ {A = Result (List Response)} (err e) (ok responses) → ⊥
        closed_err k = cc

  -- the keys that a payload of a batch may have
  abbrev pub batch_keys : List String
  batch_keys =
      "url" ∷ "method" ∷ "headers" ∷ "body" ∷ "ja3" ∷ "userAgent" ∷ "timeout" ∷ "proxy"
      ∷ "disableRedirect" ∷ "insecureSkipVerify" ∷ "bodyBytes" ∷ "headerValues" ∷ []

  unnamed : (k : String) (d : Dict Value) → any (λ e. e.0 == k) d ≡ false → lookup k d ≡ none
  unfolding lookup
  unnamed k [] h = refl
  unnamed k ((j, v) ∷ d) h =
      let (here, rest) = neither (j == k) (any (λ e. e.0 == k) d) h in rw here (unnamed k d rest)

  fixed-unnamed :
      (item : Item J) (e : Encoded) (k : String)
      → any (λ n. n == k) batch_keys ≡ false
      → (any (λ o. o.0 == k) (fixed_options py item e) ≡ false)
        × (("bodyBytes" == k) ≡ false)
        × (("headerValues" == k) ≡ false)
  unfolding fixed_options
  fixed-unnamed item e k h = ground arith

  -- Whatever an item of a batch asks for, twelve options are all that is sent: the others, such as
  -- cookies, ja4r, force_http1 or server_name, are dropped without an error.
  pub batch_drops_options :
      (item : Item J) (request_id k : String) (payload : Payload)
      → build_batch_payload py item request_id ≡ ok payload
      → any (λ n. n == k) batch_keys ≡ false
      → lookup k payload.options ≡ none
  unfolding build_batch_payload
  batch_drops_options item request_id k payload h n =
      let (e, _, made) = bind-ok (encode_item py item.json_data item.body item.headers) _ h in
      let (fixed, b, v) = fixed-unnamed item e k n in
      let bytes_option = opt (λ x. atom (bytes x)) e.body_bytes in
      ap (λ q. lookup k q.options) (sym (ok_inj made))
      ∙ lookup-put "headerValues" k _ (put "bodyBytes" bytes_option (fixed_options py item e)) v
      ∙ lookup-put "bodyBytes" k bytes_option (fixed_options py item e) b
      ∙ unnamed k (fixed_options py item e) fixed

-- ===== src/Client/Laws.antt =====
-- How the requests of cycletls/api.py end: which exceptions come out.
use cycletls_python.Base.{String, Bool, true, false, List, [], ◌∷◌, ◌≡◌, refl, Bool-cases, inl, inr}
use cycletls_python.Errors.{
  Class, Error, cycletls_error, request_exception, http_error, connection_error, timeout,
  too_many_redirects, invalid_url, tls_error, proxy_error, invalid_header, websocket_error,
  sse_error, websocket_module_error, sse_module_error, exception, key_error, value_error,
  attribute_error, runtime_error, asyncio_timeout, os_error, overflow_error, type_error, base,
  IsSubclass, self, step, Result, ok, err, Raises, ◌>>=◌,
}
use cycletls_python.Exec.{Exec, if_case}
use cycletls_python.Text.{Casing}
use cycletls_python.Text.Pattern.{Digits}
use cycletls_python.Values.{Payload, is_nil}
use cycletls_python.Response.{Reply, Response}
use cycletls_python.Response.Decode.{Decoders, dict_to_response}
use cycletls_python.Library.{Go}
use cycletls_python.Ffi.{Ffi, Codec, send_request}
use cycletls_python.Arguments.{Arguments}
use cycletls_python.Url.{Printing}
use cycletls_python.Client.{
  Client, is_cycletls, wrap_error, wrap_others, parse_response, parse_result, deliver,
  after_preparation, request, arequest, send_async,
}
use cycletls_python.Client.Prepare.{Call, Environment, prepare}
use cycletls_python.Client.Batch.{
  Item, build_all, parse_all, parse_replies, send_payloads, run_items, run_batch, batch, abatch,
}

abbrev pub IsCycletls : Error → Type 0
IsCycletls e = IsSubclass e.class cycletls_error

is_cycletls-IsSubclass : (c : Class) → is_cycletls c ≡ true → IsSubclass c cycletls_error
unfolding is_cycletls base
is_cycletls-IsSubclass cycletls_error h = self
is_cycletls-IsSubclass request_exception h = step refl self
is_cycletls-IsSubclass http_error h = step refl (step refl self)
is_cycletls-IsSubclass connection_error h = step refl (step refl self)
is_cycletls-IsSubclass timeout h = step refl (step refl self)
is_cycletls-IsSubclass too_many_redirects h = step refl (step refl self)
is_cycletls-IsSubclass invalid_url h = step refl (step refl self)
is_cycletls-IsSubclass tls_error h = step refl (step refl self)
is_cycletls-IsSubclass proxy_error h = step refl (step refl self)
is_cycletls-IsSubclass invalid_header h = step refl (step refl self)
is_cycletls-IsSubclass websocket_error h = step refl self
is_cycletls-IsSubclass sse_error h = step refl self
is_cycletls-IsSubclass websocket_module_error h = step refl self
is_cycletls-IsSubclass sse_module_error h = step refl self
is_cycletls-IsSubclass exception h = cc
is_cycletls-IsSubclass key_error h = cc
is_cycletls-IsSubclass value_error h = cc
is_cycletls-IsSubclass attribute_error h = cc
is_cycletls-IsSubclass runtime_error h = cc
is_cycletls-IsSubclass asyncio_timeout h = cc
is_cycletls-IsSubclass os_error h = cc
is_cycletls-IsSubclass overflow_error h = cc
is_cycletls-IsSubclass type_error h = cc

wrap_error-Raises {ℓ} :
    {A : Type ℓ} (words : String) (r : Result A) → Raises IsCycletls (wrap_error words r)
unfolding wrap_error
wrap_error-Raises words (ok a) = tt
wrap_error-Raises words (err e) = self

wrap_others-Raises {ℓ} :
    {A : Type ℓ} (words : String) (r : Result A) → Raises IsCycletls (wrap_others words r)
unfolding wrap_others
wrap_others-Raises words (ok a) = tt
wrap_others-Raises words (err e) = elim (Bool-cases (is_cycletls e.class)) [
  | inl own ↦ rw own (is_cycletls-IsSubclass e.class own)
  | inr other ↦ rw other self
]

bind-Raises {ℓ κ} :
    {A : Type ℓ} {B : Type κ} (r : Result A) (f : A → Result B)
    → Raises IsCycletls r
    → ((a : A) → Raises IsCycletls (f a))
    → Raises IsCycletls (r >>= f)
bind-Raises (ok a) f h k = k a
bind-Raises (err e) f h k = h

module _ ⦃c : Casing⦄ (decoders : Decoders) where
  parse_response-Raises : (reply : Reply) → Raises IsCycletls (parse_response decoders reply)
  unfolding parse_response
  parse_response-Raises reply = wrap_others-Raises _ (dict_to_response decoders reply true)

  parse_result-Raises :
      (r : Result Reply) → Raises IsCycletls r → Raises IsCycletls (parse_result decoders r)
  unfolding parse_result
  parse_result-Raises (ok reply) h = parse_response-Raises reply
  parse_result-Raises (err e) h = h

  parse_all-Raises :
      {J : Type 0} ⦃p : Printing⦄ (py : Environment J) (replies : List Reply)
      → Raises IsCycletls (parse_all py decoders replies)
  unfolding parse_all
  parse_all-Raises py [] = tt
  parse_all-Raises py (reply ∷ replies) =
      bind-Raises (parse_response decoders reply) _ (parse_response-Raises reply) λ response.
        bind-Raises (parse_all py decoders replies) _ (parse_all-Raises py replies) (λ _. tt)

  deliver-Raises :
      (words : String) (submit send : Exec Ffi Reply) (s : Ffi)
      → Raises IsCycletls (deliver decoders false words submit send s).0
  unfolding deliver
  deliver-Raises words submit send s =
      parse_result-Raises (wrap_error words (send s).0) (wrap_error-Raises words (send s).0)

  send_payloads-Raises :
      {J : Type 0} ⦃p : Printing⦄ (py : Environment J) (words : String)
      (send : List Payload → Exec Ffi (List Reply)) (payloads : List Payload) (s : Ffi)
      → Raises IsCycletls (send_payloads py decoders words send (ok payloads) s).0
  unfolding send_payloads parse_replies
  send_payloads-Raises py words send payloads s =
      bind-Raises (wrap_error words (send payloads s).0) _
        (wrap_error-Raises words (send payloads s).0) (λ found. parse_all-Raises py found)

  run_batch-Raises :
      {J : Type 0} ⦃p : Printing⦄ (py : Environment J) (words : String)
      (send : List Payload → Exec Ffi (List Reply)) (client : Client) (item : Item J)
      (items : List (Item J)) (payloads : List Payload) (s : Ffi)
      → build_all py 0 (item ∷ items) ≡ ok payloads
      → Raises IsCycletls (run_batch py decoders words send client (item ∷ items) s).0
  unfolding run_batch run_items is_nil
  run_batch-Raises py words send client item items payloads s h =
      if_case (λ (r : Result (List Response) × Ffi). Raises IsCycletls r.0) client.closed _ _ self
        (rw h (send_payloads-Raises py words send payloads s))

  module _ {J : Type 0} ⦃d : Digits⦄ ⦃p : Printing⦄ (py : Environment J) (go : Go) (codec : Codec)
      (submit callback polling : Payload → Exec Ffi Reply)
      (send send_all : List Payload → Exec Ffi (List Reply)) where
    -- Once a request is prepared, every exception of a client without a batcher is a CycleTLSError,
    -- whatever the library does, synchronously and asynchronously; and so is every exception of a
    -- batch whose payloads are built.
    pub errors-IsCycletls :
        (client : Client) (request_id : String) (call : Call J) (a : Arguments)
        (use_callback : Bool) (item : Item J) (items : List (Item J)) (payload : Payload)
        (payloads : List Payload) (s : Ffi)
        → client.batcher ≡ false
        → (prepare py client.closed request_id call a).0 ≡ ok payload
        → build_all py 0 (item ∷ items) ≡ ok payloads
        → Raises IsCycletls (request decoders py go codec submit client request_id call a s).0
          × Raises IsCycletls
              (arequest decoders py go codec submit callback polling use_callback client request_id
                call a s).0
          × Raises IsCycletls (batch py decoders send client (item ∷ items) s).0
          × Raises IsCycletls (abatch py decoders send_all client (item ∷ items) s).0
    unfolding request arequest after_preparation
    errors-IsCycletls client request_id call a use_callback item items payload payloads s n h k = (
      rw h (rw n (deliver-Raises _ (submit payload) (send_request go codec payload) s)),
      rw h (
          rw n (
            deliver-Raises "Failed to execute async CycleTLS request: " (submit payload)
              (send_async decoders py go codec submit use_callback (callback payload)
                (polling payload))
              s)),
      run_batch-Raises py _ send client item items payloads s k,
      run_batch-Raises py _ send_all client item items payloads s k,
    )

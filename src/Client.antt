-- ===== src/Client.antt =====
-- `CycleTLS` of cycletls/api.py behind the preparation of a request: sending it through the Go
-- library or the batcher, batches, and the errors that come back. `AsyncCycleTLS` of
-- cycletls/async_api.py forwards to it.
pub mod Options
pub mod Multipart
pub mod Prepare
pub mod Steps
pub mod PrepareLaws
pub mod Kept
pub mod Cut
pub mod Headers
pub mod Verbs
pub mod Batch
pub mod BatchLaws
pub mod Laws
pub mod Closing
pub mod Tests
pub mod BatchTests
use cycletls_python.Base.{
  String, Bool, true, false, List, [], ◌∷◌, Option, none, some, if◌then◌else◌,
}
use cycletls_python.Dict.{Dict}
use cycletls_python.Errors.{
  Class, Error, error, cycletls_error, request_exception, http_error, connection_error, timeout,
  too_many_redirects, invalid_url, tls_error, proxy_error, invalid_header, websocket_error,
  sse_error, websocket_module_error, sse_module_error, runtime_error, Result, ok, err,
}
use cycletls_python.Exec.{Exec, pure, raise, lift, guard, ◌>>=◌, ◌>>◌}
use cycletls_python.Text.{Casing, join}
use cycletls_python.Text.Pattern.{Digits}
use cycletls_python.Values.{Atom, Value, Payload}
use cycletls_python.Response.{Reply, Response}
use cycletls_python.Response.Decode.{Decoders, dict_to_response}
use cycletls_python.Library.{Go}
use cycletls_python.Ffi.{Ffi, Codec, send_request, has_callback_support}
use cycletls_python.Arguments.{Arguments, arguments}
use cycletls_python.Url.{Printing}
use cycletls_python.Client.Prepare.{Call, Environment, prepare}

-- `_closed`, and whether `_batcher` is there
pub record Client : Type 0 where
  pub closed : Bool
  pub batcher : Bool

-- __init__
unfoldable pub init : Bool → Client
init use_batching = record { closed = false; batcher = use_batching }

-- close(), and what it does to the shared batcher: whether it is shut down
unfoldable pub close : Client → Client × Bool
close c = (record { closed = true; batcher = false }, c.batcher)

-- aclose(): the batcher stays
unfoldable pub aclose : Client → Client
aclose c = record c { closed = true }

-- isinstance(exc, CycleTLSError)
unfoldable pub is_cycletls : Class → Bool
is_cycletls cycletls_error = true
is_cycletls request_exception = true
is_cycletls http_error = true
is_cycletls connection_error = true
is_cycletls timeout = true
is_cycletls too_many_redirects = true
is_cycletls invalid_url = true
is_cycletls tls_error = true
is_cycletls proxy_error = true
is_cycletls invalid_header = true
is_cycletls websocket_error = true
is_cycletls sse_error = true
is_cycletls websocket_module_error = true
is_cycletls sse_module_error = true
is_cycletls _ = false

-- raise CycleTLSError(f"{words}{exc}") from exc
unfoldable pub wrap_error {ℓ} : {A : Type ℓ} → String → Result A → Result A
wrap_error words (ok a) = ok a
wrap_error words (err e) = err (error cycletls_error (join (words ∷ e.message ∷ [])))

-- `except CycleTLSError: raise`, and every other exception wrapped
unfoldable pub wrap_others {ℓ} : {A : Type ℓ} → String → Result A → Result A
wrap_others words (ok a) = ok a
wrap_others words (err e) =
    if is_cycletls e.class
    then err e
    else err (error cycletls_error (join (words ∷ e.message ∷ [])))

-- isinstance(exc, RuntimeError)
unfoldable pub is_runtime : Class → Bool
is_runtime runtime_error = true
is_runtime _ = false

-- `except RuntimeError`: the second attempt
unfoldable pub retry : Exec Ffi Reply → Result Reply → Exec Ffi Reply
unfolding is_runtime
retry second (ok r) s = (ok r, s)
retry second (err e) s = if is_runtime e.class then second s else (err e, s)

unfoldable pub or_retry : Exec Ffi Reply → Exec Ffi Reply → Exec Ffi Reply
unfolding retry
or_retry first second s = retry second (first s).0 (first s).1

module _ ⦃c : Casing⦄ (decoders : Decoders) where
  -- _parse_response; a reply is a dict by its type, so the test of that is left out
  unfoldable pub parse_response : Reply → Result Response
  unfolding wrap_others dict_to_response
  parse_response reply =
      wrap_others "Failed to parse CycleTLS response: " (dict_to_response decoders reply true)

  unfoldable pub parse_result : Result Reply → Result Response
  unfolding parse_response
  parse_result (ok reply) = parse_response reply
  parse_result (err e) = err e

  -- a payload that was sent, directly or by the batcher, whose errors are not wrapped
  unfoldable pub deliver : Bool → String → Exec Ffi Reply → Exec Ffi Reply → Exec Ffi Response
  unfolding parse_result wrap_error
  deliver true words submit send s = (parse_result (submit s).0, (submit s).1)
  deliver false words submit send s = (parse_result (wrap_error words (send s).0), (send s).1)

  module _ {J : Type 0} ⦃d : Digits⦄ ⦃p : Printing⦄ (py : Environment J) (go : Go) (codec : Codec)
      (submit : Payload → Exec Ffi Reply) where
    -- what follows the preparation
    unfoldable pub after_preparation :
        (Payload → Exec Ffi Response) → Result Payload → Exec Ffi Response
    after_preparation send (ok payload) s = send payload s
    after_preparation send (err e) s = (err e, s)

    -- request; `submit` is submit_sync of the batcher
    unfoldable pub request : Client → String → Call J → Arguments → Exec Ffi Response
    unfolding after_preparation deliver prepare send_request
    request client request_id call a =
        after_preparation
          (λ payload.
            deliver client.batcher "Failed to execute CycleTLS request: " (submit payload)
              (send_request go codec payload))
          (prepare py client.closed request_id call a).0

    -- the choice of arequest between the notification and polling
    unfoldable pub send_async : Bool → Exec Ffi Reply → Exec Ffi Reply → Exec Ffi Reply
    unfolding or_retry has_callback_support
    send_async use_callback callback polling =
        if use_callback
        then (do
          supported ← has_callback_support go
          if supported then or_retry callback polling else polling)
        else polling

    -- arequest; `callback` and `polling` are send_request_async_callback and send_request_async
    unfoldable pub arequest :
        (Payload → Exec Ffi Reply)
        → (Payload → Exec Ffi Reply)
        → Bool
        → Client
        → String
        → Call J
        → Arguments
        → Exec Ffi Response
    unfolding after_preparation deliver prepare send_async
    arequest callback polling use_callback client request_id call a =
        after_preparation
          (λ payload.
            deliver client.batcher "Failed to execute async CycleTLS request: " (submit payload)
              (send_async use_callback (callback payload) (polling payload)))
          (prepare py client.closed request_id call a).0

    -- AsyncCycleTLS.request: `auth` and `json` are accepted and not passed on
    unfoldable pub async_request :
        (Payload → Exec Ffi Reply)
        → (Payload → Exec Ffi Reply)
        → Bool
        → Client
        → String
        → Call J
        → Arguments
        → Exec Ffi Response
    unfolding arequest
    async_request callback polling use_callback client request_id call a =
        arequest callback polling use_callback client request_id
          (record call { json = none; auth = none }) a

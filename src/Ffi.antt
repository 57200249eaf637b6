-- ===== src/Ffi.antt =====
-- cycletls/_ffi.py: requests through the Go library, one at a time, in batches, by polling and by
-- notification. The messages of msgpack and base64 are parameters.
pub mod Loading
pub mod Laws
pub mod Asynchronous
pub mod AsyncLaws
pub mod Polling
pub mod Pipes
pub mod Tests
use cycletls_python.Base.{
  ℕ, zero, suc, String, Bool, true, false, not, List, [], ◌∷◌, Option, none, some, if◌then◌else◌,
  eqb, or_default,
}
use cycletls_python.Errors.{
  Error, error, cycletls_error, asyncio_timeout, runtime_error, Result, ok, err,
}
use cycletls_python.Exec.{Exec, pure, raise, lift, gets, modify, guard, on, ◌>>=◌, ◌>>◌}
use cycletls_python.Text.{join}
use cycletls_python.Values.{Payload}
use cycletls_python.Response.{Reply}
use cycletls_python.Library.{
  Log, Go, Call, get_request, send_batch, submit, check, submit_notify, async_result, free_string,
  open_pipe, close_fd,
}

-- base64.b64decode, and ormsgpack.unpackb of an answer and of the answer to a batch
pub record Codec : Type 0 where
  pub b64decode : List ℕ → Result (List ℕ)
  pub unpackb : List ℕ → Result Reply
  pub unpackb_batch : List ℕ → Result (Option (List Reply))

-- The module's variables, and the calls that have been made.
pub record Ffi : Type 0 where
  pub use_zerocopy : Option Bool
  pub use_callback : Option Bool
  pub use_async_zerocopy : Option Bool
  pub log : Log

abbrev pub init : Ffi
init = record { use_zerocopy = none; use_callback = none; use_async_zerocopy = none; log = [] }

-- except Exception as exc: raise CycleTLSError(f"Failed to decode response data: {exc}")
unfoldable pub wrap {ℓ} : {A : Type ℓ} → Result A → Result A
wrap (ok a) = ok a
wrap (err e) =
    err (error cycletls_error (join ("Failed to decode response data: " ∷ e.message ∷ [])))

-- result.get("responses", [])
unfoldable pub responses_of : Result (Option (List Reply)) → Result (List Reply)
responses_of (ok found) = ok (or_default found [])
responses_of (err e) = err e

-- the bytes that msgpack is given: those of the answer, or of its base64 text
unfoldable pub raw_bytes : Codec → Bool → List ℕ → Result (List ℕ)
raw_bytes codec true bs = ok bs
raw_bytes codec false bs = codec.b64decode bs

module _ (go : Go) where
  -- lib.f(...): one call of the library
  abbrev pub invoke : Call → Exec Ffi (Unit {0})
  invoke c = modify (λ s. record s { log = c ∷ s.log })

  -- _has_symbol
  unfoldable pub has_symbol : String → Exec Ffi Bool
  has_symbol name = do lift go.load; pure (go.exports name)

  -- _has_zerocopy_support
  unfoldable pub probe_zerocopy : Exec Ffi Bool
  unfolding has_symbol
  probe_zerocopy = do
    found ← has_symbol "getRequestZeroCopy"
    modify (λ s. record s { use_zerocopy = some found })
    pure found

  unfoldable pub has_zerocopy_support : Exec Ffi Bool
  unfolding probe_zerocopy
  has_zerocopy_support s = on s.use_zerocopy (probe_zerocopy s) (λ b. (ok b, s))

  -- _has_symbol(first) and _has_symbol(second)
  unfoldable pub has_both : String → String → Exec Ffi Bool
  unfolding has_symbol
  has_both first second = do
    found ← has_symbol first
    if found then has_symbol second else pure false

  -- _has_callback_support
  unfoldable pub probe_callback : Exec Ffi Bool
  unfolding has_both
  probe_callback = do
    found ← has_both "submitRequestAsyncWithNotify" "getAsyncResult"
    modify (λ s. record s { use_callback = some found })
    pure found

  unfoldable pub has_callback_support : Exec Ffi Bool
  unfolding probe_callback
  has_callback_support s = on s.use_callback (probe_callback s) (λ b. (ok b, s))

  -- _has_async_zerocopy_support
  unfoldable pub probe_async : Exec Ffi Bool
  unfolding has_both
  probe_async = do
    found ← has_both "submitRequestAsyncZeroCopy" "getAsyncResultZeroCopy"
    modify (λ s. record s { use_async_zerocopy = some found })
    pure found

  unfoldable pub has_async_zerocopy_support : Exec Ffi Bool
  unfolding probe_async
  has_async_zerocopy_support s = on s.use_async_zerocopy (probe_async s) (λ b. (ok b, s))

  -- `try: read the bytes at the pointer; finally: lib.freeString(pointer)`
  unfoldable pub take_bytes : ℕ → Exec Ffi (List ℕ)
  take_bytes p = do bs ← gets (λ s. go.bytes s.log p); invoke (free_string p); pure bs

  module _ (codec : Codec) where
    -- the answer at a pointer
    unfoldable pub take_reply : Bool → Option ℕ → Exec Ffi Reply
    unfolding take_bytes raw_bytes wrap
    take_reply zero_copy none =
        raise (error cycletls_error "CycleTLS shared library returned NULL response")
    take_reply zero_copy (some p) = do
      bs ← take_bytes p
      raw ← lift (raw_bytes codec zero_copy bs)
      lift (wrap (codec.unpackb raw))

    -- _send_request_zerocopy and _send_request_base64
    unfoldable pub send_request_by : Bool → Payload → Exec Ffi Reply
    unfolding take_reply
    send_request_by zero_copy payload = do
      lift go.load
      invoke (get_request zero_copy payload)
      pointer ← gets (λ s. go.pointer s.log)
      take_reply zero_copy pointer

    -- send_request
    unfoldable pub send_request : Payload → Exec Ffi Reply
    unfolding send_request_by has_zerocopy_support
    send_request payload = do zero_copy ← has_zerocopy_support; send_request_by zero_copy payload

    -- the answers at a pointer
    unfoldable pub take_replies : Bool → Option ℕ → Exec Ffi (List Reply)
    unfolding take_bytes raw_bytes wrap responses_of
    take_replies zero_copy none =
        raise (error cycletls_error "CycleTLS batch request returned NULL response")
    take_replies zero_copy (some p) = do
      bs ← take_bytes p
      raw ← lift (raw_bytes codec zero_copy bs)
      lift (responses_of (wrap (codec.unpackb_batch raw)))

    -- _send_batch_request_zerocopy and _send_batch_request_base64
    unfoldable pub send_batch_by : Bool → List Payload → Exec Ffi (List Reply)
    unfolding take_replies
    send_batch_by zero_copy payloads = do
      lift go.load
      invoke (send_batch zero_copy payloads)
      pointer ← gets (λ s. go.pointer s.log)
      take_replies zero_copy pointer

    -- send_batch_request
    unfoldable pub send_batch_request : List Payload → Exec Ffi (List Reply)
    unfolding send_batch_by has_zerocopy_support
    send_batch_request [] = pure []
    send_batch_request (p ∷ ps) = do
      zero_copy ← has_zerocopy_support
      send_batch_by zero_copy (p ∷ ps)

-- ===== src/Ffi/Asynchronous.antt =====
-- The asynchronous half of cycletls/_ffi.py: submitting, checking, polling and the notification
-- through a pipe.
use cycletls_python.Base.{
  ℕ, zero, suc, String, Bool, true, false, not, ◌&&◌, List, [], ◌∷◌, Option, none, some, eqb,
}
use cycletls_python.Errors.{Error, error, cycletls_error, asyncio_timeout, Result, ok, err}
use cycletls_python.Exec.{Exec, pure, raise, lift, gets, guard, on, ◌>>=◌, ◌>>◌}
use cycletls_python.Text.{join}
use cycletls_python.Values.{Payload}
use cycletls_python.Response.{Reply}
use cycletls_python.Library.{
  Log, Go, submit, check, submit_notify, async_result, open_pipe, close_fd,
}
use cycletls_python.Ffi.{
  Ffi, Codec, wrap, raw_bytes, invoke, take_bytes, has_async_zerocopy_support,
}

-- What the event loop and the operating system contribute to one request: whether the time is
-- over at the n-th look at the clock, the two ends of the pipe, and whether the notification
-- comes in time.
pub record System : Type 0 where
  pub late : ℕ → Bool
  pub timeout_text : String
  pub pipe : Log → ℕ × ℕ
  pub notified : Log → Bool

module _ (go : Go) (codec : Codec) where
  -- submit_request_async_zerocopy and submit_request_async: only the second looks for a null
  -- handle
  unfoldable pub submit_by : Bool → Payload → Exec Ffi ℕ
  submit_by zero_copy payload = do
    lift go.load
    invoke go (submit zero_copy payload)
    handle ← gets (λ s. go.handle s.log)
    guard (not zero_copy && eqb handle 0)
        (error cycletls_error "Failed to submit async request (invalid payload)")
    pure handle

  -- the answer of a check; the error of msgpack is wrapped in the base64 form only
  unfoldable pub decode_check : Bool → List ℕ → Result Reply
  decode_check true raw = codec.unpackb raw
  decode_check false raw = wrap (codec.unpackb raw)

  -- `some` of a result
  unfoldable pub found : Result Reply → Result (Option Reply)
  found (ok r) = ok (some r)
  found (err e) = err e

  unfoldable pub take_check : Bool → Option ℕ → Exec Ffi (Option Reply)
  unfolding take_bytes raw_bytes decode_check found
  take_check zero_copy none = pure none
  take_check zero_copy (some p) = do
    bs ← take_bytes go p
    raw ← lift (raw_bytes codec zero_copy bs)
    lift (found (decode_check zero_copy raw))

  -- check_request_async_zerocopy and check_request_async
  unfoldable pub check_by : Bool → ℕ → Exec Ffi (Option Reply)
  unfolding take_check
  check_by zero_copy handle = do
    lift go.load
    invoke go (check zero_copy handle)
    pointer ← gets (λ s. go.pointer s.log)
    take_check zero_copy pointer

  module _ (system : System) where
    abbrev pub timed_out : Error
    timed_out =
        error asyncio_timeout
          (join ("Request timed out after " ∷ system.timeout_text ∷ " seconds" ∷ []))

    -- The loop of send_request_async from its `k`-th round on, for `n` rounds; `none` when it is
    -- still waiting after them. The sleeps of a round change nothing.
    unfoldable pub poll : ℕ → ℕ → Bool → ℕ → Exec Ffi (Option Reply)
    unfolding check_by
    poll zero k zero_copy handle = pure none
    poll (suc n) k zero_copy handle = do
      reply ← check_by zero_copy handle
      on reply (do guard (system.late k) timed_out; poll n (suc k) zero_copy handle)
          (λ r. pure (some r))

    -- send_request_async, for `n` rounds of its loop
    unfoldable pub send_request_async : ℕ → Payload → Exec Ffi (Option Reply)
    unfolding poll submit_by has_async_zerocopy_support
    send_request_async n payload = do
      zero_copy ← has_async_zerocopy_support go
      handle ← submit_by zero_copy payload
      poll n 0 zero_copy handle

    -- the answer to a notification
    unfoldable pub take_result : Option ℕ → Exec Ffi Reply
    unfolding take_bytes wrap
    take_result none =
        raise (error cycletls_error "Failed to get async result (null pointer returned)")
    take_result (some p) = do raw ← take_bytes go p; lift (wrap (codec.unpackb raw))

    -- the body of the outer `try` of send_request_async_callback
    unfoldable pub wait_for_result : ℕ → Payload → Exec Ffi Reply
    unfolding take_result
    wait_for_result write_fd payload = do
      invoke go (submit_notify payload write_fd)
      handle ← gets (λ s. go.handle s.log)
      guard (eqb handle 0)
          (error cycletls_error "Failed to submit async request (invalid payload or null handle)")
      notified ← gets (λ s. system.notified s.log)
      guard (not notified) timed_out
      invoke go (async_result handle)
      pointer ← gets (λ s. go.pointer s.log)
      take_result pointer

    -- `try: m; finally: close both ends`
    unfoldable pub closing : ℕ → ℕ → Exec Ffi Reply → Exec Ffi Reply
    closing read_fd write_fd m s =
        ((m s).0, record (m s).1 { log = close_fd write_fd ∷ close_fd read_fd ∷ (m s).1.log })

    -- send_request_async_callback
    unfoldable pub send_request_async_callback : Payload → Exec Ffi Reply
    unfolding wait_for_result closing
    send_request_async_callback payload = do
      lift go.load
      fds ← gets (λ s. system.pipe s.log)
      invoke go (open_pipe fds.0 fds.1)
      closing fds.0 fds.1 (wait_for_result fds.1 payload)

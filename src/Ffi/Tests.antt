-- ===== src/Ffi/Tests.antt =====
-- Requests through a library that answers from a script.
use cycletls_python.Base.{
  true, false, [], ◌∷◌, none, some, ◌≡◌, refl, ◌≢◌, length, ltb, pos, ◌==◌, if◌then◌else◌, eqb,
}
use cycletls_python.Errors.{error, asyncio_timeout, ok, err}
use cycletls_python.Text.{ascii, join}
use cycletls_python.Values.{Payload}
use cycletls_python.Response.{Reply}
use cycletls_python.Library.{Go, IsClean, submit_notify, open_pipe, close_fd}
use cycletls_python.Ffi.{Codec, init}
use cycletls_python.Ffi.Asynchronous.{
  System, timed_out, poll, send_request_async, send_request_async_callback,
}
use cycletls_python.Ffi.Polling.{
  sending, batching, polling, notifying, run, requests-IsClean, poll_ends, timeout_closes_pipe,
}
use cycletls_python.Ffi.Pipes.{open_ends, pipes_closed}
use cycletls_python.Ffi.Loading.{
  Platform, library_candidates, load_library, IsFirst, loaded-IsFirst,
}

abbrev payload : Payload
payload = record { request_id = "r1"; options = [] }

abbrev reply : Reply
reply = record {
  request_id = some "r1";
  status = some 200;
  headers = none;
  body = some "ok";
  body_bytes = none;
  cookies = none;
  final_url = none;
  proto = none;
}

-- A library with every export that hands out a string from its fifth call on.
abbrev scripted : Go
scripted = record {
  load = ok tt;
  exports = λ name. true;
  handle = λ log. 9;
  code = λ log. pos 0;
  pointer = λ log. if ltb (length log) 5 then none else some (length log);
  bytes = λ log p. p ∷ [];
}

abbrev codec : Codec
codec = record {
  b64decode = λ bs. ok bs;
  unpackb = λ bs. ok reply;
  unpackb_batch = λ bs. ok (some (reply ∷ []));
}

-- A system whose clock runs out at its third look and whose notification does not come.
abbrev system : System
system = record {
  late = λ n. eqb n 2;
  timeout_text = "30.0";
  pipe = λ log. (11, 12);
  notified = λ log. false;
}

poll_test :
    (send_request_async scripted codec system 9 payload init).0
    ≡ err (error asyncio_timeout "Request timed out after 30.0 seconds")
unfolding send_request_async join
poll_test = refl

requests-IsClean_example :
    IsClean scripted
      (run scripted codec
        (sending payload
          ∷ batching (payload ∷ [])
          ∷ polling system 4 payload
          ∷ notifying system payload
          ∷ [])
        init).log
requests-IsClean_example = requests-IsClean scripted codec _

pipes_closed_example :
    open_ends
      (run scripted codec
        (notifying system payload ∷ sending payload ∷ notifying system payload ∷ [])
        init).log
    ≡ some []
pipes_closed_example = pipes_closed scripted codec _

poll_ends_example : (poll scripted codec system 3 0 true 9 init).0 ≢ ok none
poll_ends_example = poll_ends scripted codec system 2 0 true 9 init refl

timeout_closes_pipe_test : send_request_async_callback scripted codec system payload init ≡ (
  err (timed_out scripted codec system),
  record init { log = close_fd 12 ∷ close_fd 11 ∷ submit_notify payload 12 ∷ open_pipe 11 12 ∷ [] },
)
timeout_closes_pipe_test =
    timeout_closes_pipe scripted codec system payload init 11 12 refl refl refl refl

abbrev linux : Platform
linux = record {
  system = "Linux";
  machine = "AMD64";
  environment = some "";
  package_dir = "/p";
  project_root = "/r";
  exists = λ path. path == "/p/libcycletls-linux-x64.so";
  dlopen = λ path. ok tt;
}

load_test : load_library ⦃c = ascii⦄ linux none ≡ ok "/p/libcycletls-linux-x64.so"
unfolding load_library ascii join
load_test = refl

loaded-IsFirst_test :
    IsFirst linux "/p/libcycletls-linux-x64.so" (library_candidates ⦃c = ascii⦄ linux)
    × (linux.dlopen "/p/libcycletls-linux-x64.so" ≡ ok tt)
loaded-IsFirst_test = loaded-IsFirst ⦃c = ascii⦄ linux "/p/libcycletls-linux-x64.so" load_test

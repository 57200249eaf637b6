-- ===== src/Lib.antt =====
-- cycletls_python: a model of the Python client of CycleTLS, and what holds of it.
--
-- The program sends HTTP requests, WebSocket messages and event streams through a shared library
-- written in Go. Python code prepares a request (module defaults, cookies, headers, time limit),
-- packs it, calls the library, and turns the answer into a response or an exception; a batcher
-- thread may gather requests into one call.
--
-- The parts and their files:
--   * Base, Base/*: numbers, lists, tests and case splits that all parts share. Python's int is ℤ
--     where it may be negative and ℕ where the program only meets natural numbers (a status code).
--   * Text, Text/Utf8: what is used of `str`. `str.lower` follows the Unicode tables of the
--     interpreter and is a parameter, `Casing`; `ascii` is one instance.
--   * Dict, Dict/*: Python's dict with text keys, in insertion order.
--   * Errors, Exec: the exceptions of cycletls/exceptions.py, results, and methods that change an
--     object and may raise: `Exec S A` gives the object back beside the result or the error.
--   * Headers: CaseInsensitiveDict of cycletls/structures.py. Cookies: Cookie of
--     cycletls/schema.py and CookieJar of cycletls/structures.py.
--   * Values: the values that a request carries without looking at their types.
--   * Config: cycletls/_config.py, the module-level defaults with their cache. The lock is left out:
--     each function of the module is one step.
--   * Batcher: cycletls/_batcher.py, RequestBatcher. Its state is the queue, the futures, the
--     shutdown flag and where the thread is; an event is a submission, a cancellation, a shutdown or
--     one step of the thread, so a list of events is any interleaving of callers and thread. A step
--     is one `get` of the queue or one flush; its Boolean says whether the deadline has passed.
--     Batcher/Singleton is the batcher that the clients of a process share.
--   * Request: Request.to_dict of cycletls/schema.py with the cookies in it (Request/Cookie). A
--     float is m / 2 ^ k, an infinity or NaN.
--   * Response: Response and the decoding of an answer in cycletls/schema.py. Response/Failures is
--     `_raise_for_error_response`. `datetime.fromisoformat` and `base64.b64decode` are parameters.
--   * Library: the calls of the Go library. The library is a parameter, `Go`: what a call gives back
--     is any function of the calls so far, and a log keeps the calls.
--   * Sse: SSEConnection of cycletls/sse.py. WebSocket: WebSocketConnection of
--     cycletls/websocket.py. Packing and unpacking a message are parameters; the iterations take
--     the number of reads that the consumer makes.
--   * Session: cycletls/sessions.py, over the request of the client as a parameter. Global:
--     cycletls/_global.py; a session is a number, and each function is one step.
--   * Ffi: cycletls/_ffi.py. Ffi/Loading looks for the library, Ffi sends requests and batches,
--     Ffi/Asynchronous polls and waits for notifications. The zero-copy and the base64 form of a
--     call are one definition with a Boolean; `poll` takes the number of rounds, and enough of them
--     are as many as the clock allows (Ffi/Polling).
--   * Fingerprint: cycletls/fingerprints.py, a profile and its dict.
--   * Text/Pattern, Text/Strip: what is used of `re` and of `str.strip`; which characters are
--     digits is a parameter, `Digits`.
--   * Registry: FingerprintRegistry of cycletls/fingerprints.py. Registry/Trackme imports captures,
--     Registry/Plugins is cycletls/plugins.py.
--   * Url: `_merge_url_params` of cycletls/api.py. Url/Quote and Url/Unicode are the parts of
--     urllib.parse that it uses; `urlsplit`, `urlunsplit` and `str` of a number are parameters.
--   * Arguments: the keyword arguments of a request on their way, with the headers dict that they
--     share with the caller. Fingerprint/Apply: `apply_to_kwargs` on them.
--   * Client: CycleTLS of cycletls/api.py. Client/Options makes a Request of arguments,
--     Client/Multipart is the body of files, Client/Prepare is `_prepare_request` as a block of
--     actions on the arguments, Client/Batch the batches. `json.dumps`, `base64`, `mimetypes` and
--     the random boundary are parameters, `Environment`.
--   * Functions: the functions of cycletls/__init__.py, which compose Global, Config and Client, and
--     write into the default headers.
--
-- Each part has its definitions in its own file and its proofs in the files below it; Tests holds
-- runs at concrete inputs.
--
-- Bounds: no recursion of the model runs on fuel but `decimal`, whose fuel is one more than the
-- number, which has no more digits than that; `iterate`, whose bound is how often the consumer asks;
-- and `poll`. Keys that are present are taken to carry values of the documented
-- types, so the TypeError and the AttributeError of other values are left out; a definition says so
-- where that is so.
--
-- Not modelled: what importing cycletls/fingerprints.py runs; the Go library (golang), which is
-- another language; logging and reprs; the asynchronous twins of methods that run the same
-- operation in an executor; json decoding; the command line scripts, benchmarks, tests,
-- examples and build hooks.
pub mod Base
pub mod Dict
pub mod Text
pub mod Errors
pub mod Exec
pub mod Headers
pub mod Cookies
pub mod Values
pub mod Config
pub mod Batcher
pub mod Response
pub mod Request
pub mod Library
pub mod Sse
pub mod WebSocket
pub mod Ffi
pub mod Session
pub mod Functions
pub mod Global
pub mod Fingerprint
pub mod Registry
pub mod Arguments
pub mod Url
pub mod Client

-- ===== src/Functions/Asynchronous.antt =====
-- The asynchronous functions of cycletls/__init__.py, which take a client of their own.
use cycletls_python.Base.{String, Bool, false, ◌∷◌, Option}
use cycletls_python.Dict.{lookup}
use cycletls_python.Exec.{Exec}
use cycletls_python.Text.{Casing}
use cycletls_python.Text.Pattern.{Digits}
use cycletls_python.Values.{Value, Payload}
use cycletls_python.Response.{Reply, Response}
use cycletls_python.Response.Decode.{Decoders}
use cycletls_python.Library.{Go}
use cycletls_python.Ffi.{Ffi, Codec}
use cycletls_python.Config.{merge_defaults}
use cycletls_python.Url.{Printing}
use cycletls_python.Client.{init}
use cycletls_python.Client
use cycletls_python.Client.Prepare.{Body, Call, Environment, prepare}
use cycletls_python.Functions.{Keywords, Process, kwargs, merged_arguments, write_back}

module _ {J : Type 0} ⦃c : Casing⦄ ⦃d : Digits⦄ ⦃p : Printing⦄ (py : Environment J)
    (decoders : Decoders) (go : Go) (codec : Codec) (submit : Payload → Exec Ffi Reply) where
  -- async_request: a client that is closed afterwards, so that only the defaults stay. arequest
  -- takes `timeout` for its own wait, and it is not among the options that are sent.
  unfoldable pub async_request :
      (Option Value → Payload → Exec Ffi Reply)
      → (Option Value → Payload → Exec Ffi Reply)
      → Bool
      → String
      → Call J
      → Keywords
      → Exec Process Response
  unfolding write_back merged_arguments
  async_request callback polling use_callback request_id call k s =
      let merged = merge_defaults (kwargs k) s.defaults in
      let wait = lookup "timeout" merged.0 in
      let a = merged_arguments ("timeout" ∷ k.named) merged.0 in
      let sent =
        Client.arequest decoders py go codec submit (callback wait) (polling wait) use_callback
          (init false) request_id call a s.ffi in
      (
        sent.0,
        record s {
          defaults = write_back k.headers (prepare py false request_id call a).1.caller merged.1;
          ffi = sent.1;
        },
      )

  unfoldable pub aget :
      (Option Value → Payload → Exec Ffi Reply)
      → (Option Value → Payload → Exec Ffi Reply)
      → Bool
      → String
      → Call J
      → Keywords
      → Exec Process Response
  unfolding async_request
  aget callback polling use_callback request_id call =
      async_request callback polling use_callback request_id (record call { method = "get" })

  unfoldable pub adelete :
      (Option Value → Payload → Exec Ffi Reply)
      → (Option Value → Payload → Exec Ffi Reply)
      → Bool
      → String
      → Call J
      → Keywords
      → Exec Process Response
  unfolding async_request
  adelete callback polling use_callback request_id call =
      async_request callback polling use_callback request_id (record call { method = "delete" })

  unfoldable pub ahead :
      (Option Value → Payload → Exec Ffi Reply)
      → (Option Value → Payload → Exec Ffi Reply)
      → Bool
      → String
      → Call J
      → Keywords
      → Exec Process Response
  unfolding async_request
  ahead callback polling use_callback request_id call =
      async_request callback polling use_callback request_id (record call { method = "head" })

  unfoldable pub aoptions :
      (Option Value → Payload → Exec Ffi Reply)
      → (Option Value → Payload → Exec Ffi Reply)
      → Bool
      → String
      → Call J
      → Keywords
      → Exec Process Response
  unfolding async_request
  aoptions callback polling use_callback request_id call =
      async_request callback polling use_callback request_id (record call { method = "options" })

  unfoldable pub apost :
      (Option Value → Payload → Exec Ffi Reply)
      → (Option Value → Payload → Exec Ffi Reply)
      → Bool
      → String
      → Option Body
      → Option J
      → Call J
      → Keywords
      → Exec Process Response
  unfolding async_request
  apost callback polling use_callback request_id body json_data call =
      async_request callback polling use_callback request_id
        (record call { method = "post"; body = body; json_data = json_data })

  unfoldable pub aput :
      (Option Value → Payload → Exec Ffi Reply)
      → (Option Value → Payload → Exec Ffi Reply)
      → Bool
      → String
      → Option Body
      → Option J
      → Call J
      → Keywords
      → Exec Process Response
  unfolding async_request
  aput callback polling use_callback request_id body json_data call =
      async_request callback polling use_callback request_id
        (record call { method = "put"; body = body; json_data = json_data })

  unfoldable pub apatch :
      (Option Value → Payload → Exec Ffi Reply)
      → (Option Value → Payload → Exec Ffi Reply)
      → Bool
      → String
      → Option Body
      → Option J
      → Call J
      → Keywords
      → Exec Process Response
  unfolding async_request
  apatch callback polling use_callback request_id body json_data call =
      async_request callback polling use_callback request_id
        (record call { method = "patch"; body = body; json_data = json_data })

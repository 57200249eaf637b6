-- ===== src/Client/Verbs.antt =====
-- The methods of CycleTLS in cycletls/api.py that name the HTTP method themselves, their asynchronous
-- forms, those of AsyncCycleTLS, which pass on neither auth nor json, and the functions of
-- cycletls/async_api.py, each of which takes a client of its own.
use cycletls_python.Base.{String, Bool, false, none}
use cycletls_python.Exec.{Exec}
use cycletls_python.Text.{Casing}
use cycletls_python.Text.Pattern.{Digits}
use cycletls_python.Values.{Payload}
use cycletls_python.Response.{Reply, Response}
use cycletls_python.Response.Decode.{Decoders}
use cycletls_python.Library.{Go}
use cycletls_python.Ffi.{Ffi, Codec}
use cycletls_python.Arguments.{Arguments}
use cycletls_python.Url.{Printing}
use cycletls_python.Client.{Client, init, request, arequest}
use cycletls_python.Client.Prepare.{Call, Environment}

module _ {J : Type 0} ⦃c : Casing⦄ ⦃d : Digits⦄ ⦃p : Printing⦄ (decoders : Decoders)
    (py : Environment J) (go : Go) (codec : Codec) (submit : Payload → Exec Ffi Reply) where
  unfoldable pub get : Client → String → Call J → Arguments → Exec Ffi Response
  unfolding request
  get client request_id call =
      request decoders py go codec submit client request_id (record call { method = "get" })

  unfoldable pub options : Client → String → Call J → Arguments → Exec Ffi Response
  unfolding request
  options client request_id call =
      request decoders py go codec submit client request_id (record call { method = "options" })

  unfoldable pub head : Client → String → Call J → Arguments → Exec Ffi Response
  unfolding request
  head client request_id call =
      request decoders py go codec submit client request_id (record call { method = "head" })

  unfoldable pub post : Client → String → Call J → Arguments → Exec Ffi Response
  unfolding request
  post client request_id call =
      request decoders py go codec submit client request_id (record call { method = "post" })

  unfoldable pub put_request : Client → String → Call J → Arguments → Exec Ffi Response
  unfolding request
  put_request client request_id call =
      request decoders py go codec submit client request_id (record call { method = "put" })

  unfoldable pub patch : Client → String → Call J → Arguments → Exec Ffi Response
  unfolding request
  patch client request_id call =
      request decoders py go codec submit client request_id (record call { method = "patch" })

  unfoldable pub delete : Client → String → Call J → Arguments → Exec Ffi Response
  unfolding request
  delete client request_id call =
      request decoders py go codec submit client request_id (record call { method = "delete" })

  module _ (callback polling : Payload → Exec Ffi Reply) (use_callback : Bool) where
    unfoldable pub aget : Client → String → Call J → Arguments → Exec Ffi Response
    unfolding arequest
    aget client request_id call =
        arequest decoders py go codec submit callback polling use_callback client request_id
          (record call { method = "get" })

    unfoldable pub aoptions : Client → String → Call J → Arguments → Exec Ffi Response
    unfolding arequest
    aoptions client request_id call =
        arequest decoders py go codec submit callback polling use_callback client request_id
          (record call { method = "options" })

    unfoldable pub ahead : Client → String → Call J → Arguments → Exec Ffi Response
    unfolding arequest
    ahead client request_id call =
        arequest decoders py go codec submit callback polling use_callback client request_id
          (record call { method = "head" })

    unfoldable pub apost : Client → String → Call J → Arguments → Exec Ffi Response
    unfolding arequest
    apost client request_id call =
        arequest decoders py go codec submit callback polling use_callback client request_id
          (record call { method = "post" })

    unfoldable pub aput : Client → String → Call J → Arguments → Exec Ffi Response
    unfolding arequest
    aput client request_id call =
        arequest decoders py go codec submit callback polling use_callback client request_id
          (record call { method = "put" })

    unfoldable pub apatch : Client → String → Call J → Arguments → Exec Ffi Response
    unfolding arequest
    apatch client request_id call =
        arequest decoders py go codec submit callback polling use_callback client request_id
          (record call { method = "patch" })

    unfoldable pub adelete : Client → String → Call J → Arguments → Exec Ffi Response
    unfolding arequest
    adelete client request_id call =
        arequest decoders py go codec submit callback polling use_callback client request_id
          (record call { method = "delete" })

    -- AsyncCycleTLS.get
    unfoldable pub client_get : Client → String → Call J → Arguments → Exec Ffi Response
    unfolding aget
    client_get client request_id call =
        aget client request_id (record call { json = none; auth = none })

    -- AsyncCycleTLS.options
    unfoldable pub client_options : Client → String → Call J → Arguments → Exec Ffi Response
    unfolding aoptions
    client_options client request_id call =
        aoptions client request_id (record call { json = none; auth = none })

    -- AsyncCycleTLS.head
    unfoldable pub client_head : Client → String → Call J → Arguments → Exec Ffi Response
    unfolding ahead
    client_head client request_id call =
        ahead client request_id (record call { json = none; auth = none })

    -- AsyncCycleTLS.post
    unfoldable pub client_post : Client → String → Call J → Arguments → Exec Ffi Response
    unfolding apost
    client_post client request_id call =
        apost client request_id (record call { json = none; auth = none })

    -- AsyncCycleTLS.put
    unfoldable pub client_put : Client → String → Call J → Arguments → Exec Ffi Response
    unfolding aput
    client_put client request_id call =
        aput client request_id (record call { json = none; auth = none })

    -- AsyncCycleTLS.patch
    unfoldable pub client_patch : Client → String → Call J → Arguments → Exec Ffi Response
    unfolding apatch
    client_patch client request_id call =
        apatch client request_id (record call { json = none; auth = none })

    -- AsyncCycleTLS.delete
    unfoldable pub client_delete : Client → String → Call J → Arguments → Exec Ffi Response
    unfolding adelete
    client_delete client request_id call =
        adelete client request_id (record call { json = none; auth = none })

    -- the function async_get
    unfoldable pub async_get : String → Call J → Arguments → Exec Ffi Response
    unfolding aget init
    async_get = aget (init false)

    -- the function async_post
    unfoldable pub async_post : String → Call J → Arguments → Exec Ffi Response
    unfolding apost init
    async_post = apost (init false)

    -- the function async_put
    unfoldable pub async_put : String → Call J → Arguments → Exec Ffi Response
    unfolding aput init
    async_put = aput (init false)

    -- the function async_delete
    unfoldable pub async_delete : String → Call J → Arguments → Exec Ffi Response
    unfolding adelete init
    async_delete = adelete (init false)

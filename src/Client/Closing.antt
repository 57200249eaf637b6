-- ===== src/Client/Closing.antt =====
-- A client of cycletls/api.py after close() or aclose(), over whatever is asked of it then.
use cycletls_python.Base.{String, Bool, List, [], ◌∷◌}
use cycletls_python.Errors.{error, cycletls_error, Result, err}
use cycletls_python.Exec.{Exec}
use cycletls_python.Text.{Casing}
use cycletls_python.Text.Pattern.{Digits}
use cycletls_python.Values.{Payload}
use cycletls_python.Response.{Reply, Response}
use cycletls_python.Response.Decode.{Decoders}
use cycletls_python.Library.{Go}
use cycletls_python.Ffi.{Ffi, Codec}
use cycletls_python.Arguments.{Arguments}
use cycletls_python.Url.{Printing}
use cycletls_python.Client.{Client, close, aclose, request, arequest}
use cycletls_python.Client.Prepare.{Call, Environment, prepare}
use cycletls_python.Client.Batch.{Item, batch, abatch}

-- What a program may ask of a client.
pub data Action (J : Type 0) : Type 0 where
  requesting : String → Call J → Arguments → Action J
  arequesting : Bool → String → Call J → Arguments → Action J
  batching : List (Item J) → Action J
  abatching : List (Item J) → Action J
  closing : Action J
  aclosing : Action J

-- What it gets: the result of one request, with the caller's arguments as the request leaves them,
-- the result of a batch, or nothing.
pub data Outcome : Type 0 where
  one : Result Response → Arguments → Outcome
  several : Result (List Response) → Outcome
  nothing : Outcome

module _ ⦃c : Casing⦄ (decoders : Decoders) {J : Type 0} ⦃d : Digits⦄ ⦃p : Printing⦄
    (py : Environment J) (go : Go) (codec : Codec)
    (submit callback polling : Payload → Exec Ffi Reply)
    (send send_all : List Payload → Exec Ffi (List Reply)) where
  unfoldable act : Action J → Client → Ffi → Outcome × Client × Ffi
  act (requesting request_id call a) client s =
      let (r, t) = request decoders py go codec submit client request_id call a s in
      (one r (prepare py client.closed request_id call a).1, client, t)
  act (arequesting use_callback request_id call a) client s =
      let (r, t) =
        arequest decoders py go codec submit callback polling use_callback client request_id call a
          s in
      (one r (prepare py client.closed request_id call a).1, client, t)
  act (batching items) client s =
      let (r, t) = batch py decoders send client items s in (several r, client, t)
  act (abatching items) client s =
      let (r, t) = abatch py decoders send_all client items s in (several r, client, t)
  act closing client s = (nothing, (close client).0, s)
  act aclosing client s = (nothing, aclose client, s)

  unfoldable pub run : List (Action J) → Client → Ffi → List Outcome × Client × Ffi
  unfolding act
  run [] client s = ([], client, s)
  run (x ∷ xs) client s =
      let (outcome, client', s') = act x client s in
      let (outcomes, client'', s'') = run xs client' s' in (outcome ∷ outcomes, client'', s'')

  -- The refusal of each action, and the arguments as the caller gave them.
  unfoldable pub refusal : Action J → Outcome
  refusal (requesting request_id call a) =
      one (err (error cycletls_error "CycleTLS client is closed")) a
  refusal (arequesting use_callback request_id call a) =
      one (err (error cycletls_error "CycleTLS client is closed")) a
  refusal (batching items) = several (err (error cycletls_error "CycleTLS client is closed"))
  refusal (abatching items) = several (err (error cycletls_error "CycleTLS client is closed"))
  refusal closing = nothing
  refusal aclosing = nothing

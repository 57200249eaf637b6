-- ===== src/Sse/Streams.antt =====
-- Runs of `SSEConnection` of cycletls/sse.py: connecting, reading and closing in any order, and
-- the iteration over a stream.
use cycletls_python.Base.{
  ℕ, zero, suc, String, true, false, List, [], ◌∷◌, Option, some, ◌≡◌, refl, ◌≢◌, eqb,
}
use cycletls_python.Dict.{Dict}
use cycletls_python.Errors.{Result}
use cycletls_python.Values.{Atom}
use cycletls_python.Library.{Go, IsClean, start, plain, null, freed, allocates, is_free}
use cycletls_python.Sse.{SseConnection, EventReply, init, connect, close, next_event, track}
use cycletls_python.Sse.Laws.{connect_keeps, close_keeps, next_event_keeps}

-- A connection that counts as connected has a handle that is not 0, and every string that the
-- library handed out has been freed once.
pub record IsValid (go : Go) (s : SseConnection) : Type 0 where
  pub active : s.connected ≡ true → (h : ℕ) × (s.handle ≡ some h) × (h ≢ 0)
  pub clean : IsClean go s.log

nonzero : (h : ℕ) → eqb h 0 ≡ false → h ≢ 0
nonzero zero e z = cc
nonzero (suc h) e z = cc

pub data Operation : Type 0 where
  connecting reading closing : Operation

module _ (go : Go) (unpack : List ℕ → Result EventReply) where
  -- The connection after one call, whether it returned or raised.
  unfoldable pub step : Operation → SseConnection → SseConnection
  step connecting s = (connect go s).1
  step reading s = (next_event go unpack s).1
  step closing s = (close go s).1

  unfoldable pub run : List Operation → SseConnection → SseConnection
  unfolding step
  run [] s = s
  run (o ∷ os) s = run os (step o s)

  step-IsValid : (o : Operation) (s : SseConnection) → IsValid go s → IsValid go (step o s)
  unfolding step allocates is_free track
  step-IsValid connecting s v =
      connect_keeps go (IsValid go) s v
        (record { active = v.active; clean = plain refl refl v.clean })
        (λ h e. record { active = λ c. (h, refl, nonzero h e); clean = plain refl refl v.clean })
  step-IsValid closing s v =
      close_keeps go (IsValid go) s v
        (λ h e. record { active = λ c. cc; clean = plain refl refl v.clean })
        (record { active = λ c. cc; clean = v.clean })
  step-IsValid reading s v =
      next_event_keeps go unpack (IsValid go) (λ x w. record { active = λ c. cc; clean = w.clean })
        (λ e x w. record { active = w.active; clean = w.clean }) s v
        (λ h e n. record { active = v.active; clean = null n refl v.clean })
        (λ h p e n. record { active = v.active; clean = freed n refl v.clean })

  -- Whatever is called in whatever order on a new connection, and whatever raises on the way: a
  -- connection that counts as connected has a handle that is not 0, and each string that the
  -- library handed out was freed once, before the next call.
  pub stream-IsValid :
      (os : List Operation) (url : String) (headers : Dict Atom) (last : Option String)
      → IsValid go (run os (init url headers last))
  unfolding run init
  stream-IsValid os url headers last = run-IsValid os _ (record { active = λ c. cc; clean = start })
    where
      run-IsValid : (os : List Operation) (s : SseConnection) → IsValid go s → IsValid go (run os s)
      run-IsValid [] s v = v
      run-IsValid (o ∷ os) s v = run-IsValid os (step o s) (step-IsValid o s v)

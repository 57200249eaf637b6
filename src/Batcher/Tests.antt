-- ===== src/Batcher/Tests.antt =====
-- The batcher on concrete schedules.
use cycletls_python.Base.{
  ℕ, ◌<◌, String, ◌≡◌, refl, Bool, true, false, List, [], ◌∷◌, ◌++◌, map, arith,
}
use cycletls_python.Errors.{Result, ok}
use cycletls_python.Values.{Payload}
use cycletls_python.Batcher.{
  PendingRequest, pending, result, done, stopped, State, init, Event, submit, shutdown, tick,
  answer, flush, step, run, advance, do_submit, do_shutdown,
}
use cycletls_python.Batcher.Flush.{Answered, waits, flush-Answered}
use cycletls_python.Batcher.Invariant.{IsValid, run-init-IsValid}
use cycletls_python.Batcher.Shutdown.{ticks}
use cycletls_python.Batcher.Liveness.{shutdown_answers_all}
use cycletls_python.Batcher.Stopped.{submit_after_stop}

-- A backend that echoes the ids of the requests.
abbrev echo : List Payload → Result (List String)
echo ps = ok (map (λ p. p.request_id) ps)

abbrev payload : String → Payload
payload id = record { request_id = id; options = [] }

abbrev request : String → ℕ → PendingRequest
request id i = record { payload = payload id; future = i; request_id = id }

abbrev two_calls : List Event
two_calls = tick false ∷ submit (payload "a") ∷ submit (payload "b") ∷ tick false ∷ []

abbrev ten : List Bool
ten = false ∷ false ∷ true ∷ false ∷ false ∷ false ∷ false ∷ false ∷ false ∷ false ∷ []

-- Both callers of a batch of two get their own answers.
batch_test :
    (run echo 2 init (two_calls ++ ticks (false ∷ false ∷ false ∷ []))).futures 1 ≡ result "b"
unfolding run advance do_submit flush answer done
batch_test = refl

flush-Answered_example :
    Answered
      (λ i. pending)
      (flush echo (request "a" 0 ∷ request "b" 1 ∷ []) (λ i. pending))
      (request "a" 0 ∷ request "b" 1 ∷ [])
      (echo (payload "a" ∷ payload "b" ∷ []))
    × ((j : ℕ)
        → waits j (request "a" 0 ∷ request "b" 1 ∷ []) ≡ false
        → flush echo (request "a" 0 ∷ request "b" 1 ∷ []) (λ i. pending) j ≡ pending)
flush-Answered_example =
    flush-Answered echo 0 (request "a" 0 ∷ request "b" 1 ∷ []) (λ i. pending) (omega arith)

run-init-IsValid_example : IsValid (run echo 2 init two_calls)
run-init-IsValid_example = run-init-IsValid echo 2 two_calls

shutdown_answers_all_example :
    ((run echo 2 (step echo 2 (run echo 2 init two_calls) shutdown) (ticks ten)).phase ≡ stopped)
    × ((i : ℕ)
        → i < (run echo 2 init two_calls).next
        → done
            ((run echo 2 (step echo 2 (run echo 2 init two_calls) shutdown) (ticks ten)).futures i)
          ≡ true)
unfolding run advance do_submit flush
shutdown_answers_all_example = shutdown_answers_all echo 2 two_calls ten refl (omega arith)

abbrev over : State String
over = run echo 2 init (shutdown ∷ ticks ten)

submit_after_stop_example :
    (run echo 2 over (submit (payload "c") ∷ ticks ten)).futures over.next ≡ pending
unfolding run advance do_shutdown
submit_after_stop_example =
    submit_after_stop echo 2 over (payload "c") (ticks ten) refl (omega arith)

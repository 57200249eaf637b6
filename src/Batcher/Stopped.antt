-- ===== src/Batcher/Stopped.antt =====
-- What becomes of a request that is submitted after the thread has stopped.
use cycletls_python.Base.{ℕ, ◌<◌, ◌≡◌, ◌≢◌, List, [], ◌∷◌, arith, All}
use cycletls_python.Errors.{Result}
use cycletls_python.Values.{Payload}
use cycletls_python.Batcher.{
  pending, complete, stopped, State, Event, submit, cancel, shutdown, tick, do_submit, do_shutdown,
  step, run,
}
use cycletls_python.Batcher.Shutdown.{advance_stopped}

-- What may happen but for a cancellation of `i`.
abbrev pub Spares : ℕ → Event → Type 0
Spares i (cancel j) = j ≢ i
Spares i _ = Unit {0}

-- A future that is pending while the thread has stopped.
pub record IsStuck {R : Type 0} (i : ℕ) (s : State R) : Type 0 where
  pub halted : s.phase ≡ stopped
  pub issued : i < s.next
  pub unanswered : s.futures i ≡ pending

submitted :
    {R : Type 0} (payload : Payload) (s : State R)
    → s.phase ≡ stopped
    → IsStuck s.next (do_submit payload s)
unfolding do_submit
submitted payload s e = ground arith

module _ {R : Type 0} (batch_fn : List Payload → Result (List R)) (batch_size : ℕ) where
  step-IsStuck :
      (e : Event) (s : State R) (i : ℕ)
      → Spares i e
      → IsStuck i s
      → IsStuck i (step batch_fn batch_size s e)
  unfolding step do_submit do_shutdown complete
  step-IsStuck (submit payload) s i n h = ground arith
  step-IsStuck (cancel j) s i n h = ground arith
  step-IsStuck shutdown s i n h = ground arith
  step-IsStuck (tick late) s i n h =
      rw (advance_stopped batch_fn batch_size late s.phase s h.halted) h

  run-IsStuck :
      (es : List Event) (s : State R) (i : ℕ)
      → All (Spares i) es
      → IsStuck i s
      → IsStuck i (run batch_fn batch_size s es)
  unfolding run
  run-IsStuck [] s i n h = h
  run-IsStuck (e ∷ es) s i n h =
      run-IsStuck es (step batch_fn batch_size s e) i n.1 (step-IsStuck e s i n.0 h)

  -- A request that is submitted after the thread has stopped is never answered: its future is
  -- pending after any further events, so the call that waits for it does not return.
  pub submit_after_stop :
      (s : State R) (payload : Payload) (es : List Event)
      → s.phase ≡ stopped
      → All (Spares s.next) es
      → (run batch_fn batch_size s (submit payload ∷ es)).futures s.next ≡ pending
  unfolding run
  submit_after_stop s payload es e n =
      (run-IsStuck es (do_submit payload s) s.next n (submitted payload s e)).unanswered

-- ===== src/Batcher/Liveness.antt =====
-- Every request that is submitted before shutdown() is answered in a bounded number of steps.
use cycletls_python.Base.{
  ℕ, ◌+◌, ◌<◌, ◌≤◌, Bool, ◌≡◌, refl, true, false, Option, none, some, List, [], ◌∷◌, ◌++◌, length,
  length-append, leb, if◌then◌else◌, arith, Bool-cases, inl, inr,
}
use cycletls_python.Errors.{Result}
use cycletls_python.Values.{Payload}
use cycletls_python.Batcher.{
  PendingRequest, done, Phase, checking, waiting, collecting, flushing, draining, closing, stopped,
  State, init, Event, submit, cancel, shutdown, tick, do_submit, do_shutdown, take_first, take_more,
  drain, advance, step, run,
}
use cycletls_python.Batcher.Invariant.{step-IsValid, run-init-IsValid}
use cycletls_python.Batcher.Shutdown.{cost, Settled, measure, IsEnding, ticks, ticks_end}

-- Before the signal the thread is in its main loop.
abbrev Looping : Phase → Type 0
Looping (draining items) = ⊥
Looping (closing items) = ⊥
Looping stopped = ⊥
Looping _ = Unit

module _ {R : Type 0} where
  abbrev IsListening : State R → Type 0
  IsListening s = s.shutdown_event ≡ false → Looping s.phase

  take_first-IsListening :
      (q : List (Option PendingRequest)) (s : State R) → IsListening (take_first q s)
  take_first-IsListening [] s o = tt
  take_first-IsListening (none ∷ q) s o = tt
  take_first-IsListening (some p ∷ q) s o = tt

  take_more-IsListening :
      (batch : List PendingRequest) (q : List (Option PendingRequest)) (s : State R)
      → IsListening (take_more batch q s)
  take_more-IsListening batch [] s o = tt
  take_more-IsListening batch (none ∷ q) s o = tt
  take_more-IsListening batch (some p ∷ q) s o = tt

  signalled :
      (s : State R) {p : Phase}
      → s.phase ≡ p
      → Settled p (s.queue ++ none ∷ [])
      → cost p ≤ 5
      → IsEnding (record s { shutdown_event = true; queue = s.queue ++ none ∷ [] })
        × (cost s.phase + length (s.queue ++ none ∷ []) ≤ 6 + length s.queue)
  signalled s e settled le = (
    record { signalled = refl; settled = rw e settled },
    rw e (omega (arith, le, length-append s.queue (none ∷ []))),
  )

  Looping-end :
      (p : Phase) (s : State R)
      → s.phase ≡ p
      → Looping p
      → s.shutdown_event ≡ false
      → IsEnding (record s { shutdown_event = true; queue = s.queue ++ none ∷ [] })
        × (cost s.phase + length (s.queue ++ none ∷ []) ≤ 6 + length s.queue)
  Looping-end checking s e l o = signalled s e tt (omega arith)
  Looping-end waiting s e l o = signalled s e tt (omega arith)
  Looping-end (collecting batch) s e l o = signalled s e tt (omega arith)
  Looping-end (flushing batch) s e l o = signalled s e tt (omega arith)
  Looping-end (draining items) s e l o = absurd l
  Looping-end (closing items) s e l o = absurd l
  Looping-end stopped s e l o = absurd l

  -- A looping thread of length `q` is at most six steps and the queue away from its end.
  signalled-IsEnding :
      (p : Phase) (s : State R)
      → s.phase ≡ p
      → Looping p
      → s.shutdown_event ≡ false
      → IsEnding (do_shutdown s) × (measure (do_shutdown s) ≤ 6 + length s.queue)
  unfolding do_shutdown
  signalled-IsEnding p s e l o = rw o (Looping-end p s e l o)

  next-do_shutdown : (s : State R) → (do_shutdown s).next ≡ s.next
  unfolding do_shutdown
  next-do_shutdown s = ground arith

  drain-IsListening :
      (items : List PendingRequest) (q : List (Option PendingRequest)) (s : State R)
      → s.phase ≡ draining items
      → IsListening s
      → IsListening (drain items q s)
  drain-IsListening items [] s e h o = absurd (rw e at (h o))
  drain-IsListening items (none ∷ q) s e h o = absurd (rw e at (h o))
  drain-IsListening items (some p ∷ q) s e h o = absurd (rw e at (h o))

module _ {R : Type 0} (batch_fn : List Payload → Result (List R)) (batch_size : ℕ) where
  advance-IsListening :
      (late : Bool) (p : Phase) (s : State R)
      → s.phase ≡ p
      → IsListening s
      → IsListening (advance batch_fn batch_size late p s)
  unfolding advance
  advance-IsListening late checking s e h = elim (Bool-cases s.shutdown_event) [
    | inl b ↦ rw b (λ o. cc)
    | inr b ↦ rw b (λ o. tt)
  ]
  advance-IsListening late waiting s e h = take_first-IsListening s.queue s
  advance-IsListening late (collecting batch) s e h =
      elim (Bool-cases (leb batch_size (length batch))) [
        | inl b ↦ rw b (λ o. tt)
        | inr b ↦ rw b (go late)
      ]
    where
      go :
          (l : Bool)
          → IsListening
              (if l then record s { phase = flushing batch } else take_more batch s.queue s)
      go true o = tt
      go false o = take_more-IsListening batch s.queue s o
  advance-IsListening late (flushing batch) s e h = λ o. tt
  advance-IsListening late (draining items) s e h = drain-IsListening items s.queue s e h
  advance-IsListening late (closing items) s e h = λ o. absurd (rw e at (h o))
  advance-IsListening late stopped s e h = h

  step-IsListening :
      (e : Event) (s : State R) → IsListening s → IsListening (step batch_fn batch_size s e)
  unfolding step do_submit do_shutdown
  step-IsListening (submit payload) s h = h
  step-IsListening (cancel i) s h = h
  step-IsListening shutdown s h = elim (Bool-cases s.shutdown_event) [
    | inl b ↦ rw b (λ o. cc)
    | inr b ↦ rw b (λ o. cc)
  ]
  step-IsListening (tick late) s h = advance-IsListening late s.phase s refl h

  run-IsListening :
      (es : List Event) (s : State R) → IsListening s → IsListening (run batch_fn batch_size s es)
  unfolding run
  run-IsListening [] s h = h
  run-IsListening (e ∷ es) s h =
      run-IsListening es (step batch_fn batch_size s e) (step-IsListening e s h)

  -- After any events before the shutdown, `shutdown()` and as many steps of the thread as there
  -- are entries in the queue, and six more, end the thread, whatever the clock says; and then
  -- every request that was submitted is answered or cancelled.
  pub shutdown_answers_all :
      (es : List Event) (lates : List Bool)
      → (run batch_fn batch_size init es).shutdown_event ≡ false
      → 6 + length (run batch_fn batch_size init es).queue ≤ length lates
      → let s = run batch_fn batch_size init es in
        let t = run batch_fn batch_size (step batch_fn batch_size s shutdown) (ticks lates) in
        (t.phase ≡ stopped) × ((i : ℕ) → i < s.next → done (t.futures i) ≡ true)
  unfolding step
  shutdown_answers_all es lates o enough =
      let s : State R = run batch_fn batch_size init es in
      let looping = run-IsListening es init (λ _. tt) o in
      let (ending, near) = signalled-IsEnding s.phase s refl looping o in
      let valid =
        step-IsValid batch_fn batch_size s shutdown (run-init-IsValid batch_fn batch_size es) in
      let (ends, answered) =
        ticks_end batch_fn batch_size lates (do_shutdown s) ending valid (omega (arith, near)) in
      (ends, λ i lt. answered i (rw (next-do_shutdown s) lt))

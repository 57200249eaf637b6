-- ===== src/Batcher/Shutdown.antt =====
-- How the thread ends: after the shutdown signal it stops in a bounded number of steps with every
-- request answered, and what is submitted later is never answered.
use cycletls_python.Base.{
  ℕ, ◌+◌, ◌<◌, ◌≤◌, Bool, ◌≡◌, ◌≢◌, ◌∙◌, refl, ap, true, false, Option, none, some, List, [], ◌∷◌,
  ◌++◌, map, length, leb, if◌then◌else◌, arith, Bool-cases, inl, inr, ◌⊎◌,
}
use cycletls_python.Errors.{Result}
use cycletls_python.Values.{Payload}
use cycletls_python.Batcher.{
  PendingRequest, Future, done, Phase, checking, waiting, collecting, flushing, draining, closing,
  stopped, State, Event, tick, take_first, take_more, drain, advance, run,
}
use cycletls_python.Batcher.Invariant.{in_flight, IsValid, advance-IsValid}
use cycletls_python.Batcher.Flush.{waits}

-- How many steps of the thread are left behind a phase, the queue apart.
abbrev pub cost : Phase → ℕ
cost stopped = 0
cost (closing items) = 1
cost (draining items) = 2
cost checking = 3
cost (flushing batch) = 4
cost (collecting batch) = 5
cost waiting = 5

-- Once the drain is over nothing is left in the queue.
abbrev pub Settled : Phase → List (Option PendingRequest) → Type 0
Settled (closing items) q = q ≡ []
Settled stopped q = q ≡ []
Settled _ q = Unit

-- The steps of the thread, by whether the deadline of its batch has passed.
abbrev pub ticks : List Bool → List Event
ticks = map tick

stopped_cases : (p : Phase) → (p ≡ stopped) ⊎ ((p ≢ stopped) × (0 < cost p))
stopped_cases stopped = inl refl
stopped_cases (closing items) = inr (λ e. cc, omega arith)
stopped_cases (draining items) = inr (λ e. cc, omega arith)
stopped_cases checking = inr (λ e. cc, omega arith)
stopped_cases (flushing batch) = inr (λ e. cc, omega arith)
stopped_cases (collecting batch) = inr (λ e. cc, omega arith)
stopped_cases waiting = inr (λ e. cc, omega arith)

module _ {R : Type 0} where
  abbrev pub measure : State R → ℕ
  measure s = cost s.phase + length s.queue

  -- Shut down, and the drain not yet over, or over with an empty queue.
  pub record IsEnding (s : State R) : Type 0 where
    pub signalled : s.shutdown_event ≡ true
    pub settled : Settled s.phase s.queue

  record Progress (s t : State R) : Type 0 where
    ending : IsEnding t
    same : t.next ≡ s.next
    falls : measure t < measure s

  progress :
      (s : State R) {p : Phase} (p' : Phase) (q : List (Option PendingRequest)) (f : ℕ → Future R)
      → s.phase ≡ p
      → s.shutdown_event ≡ true
      → Settled p' q
      → cost p' + length q < cost p + length s.queue
      → Progress s (record s { phase = p'; queue = q; futures = f })
  progress s p' q f e h settled lt = record {
    ending = record { signalled = h; settled = settled };
    same = refl;
    falls = rw e lt;
  }

  take_first-Progress :
      (q : List (Option PendingRequest)) (s : State R)
      → s.phase ≡ waiting
      → s.queue ≡ q
      → s.shutdown_event ≡ true
      → Progress s (take_first q s)
  take_first-Progress [] s e d h = progress s checking s.queue s.futures e h tt (omega arith)
  take_first-Progress (none ∷ rest) s e d h =
      progress s checking rest s.futures e h tt (rw d (omega arith))
  take_first-Progress (some p ∷ rest) s e d h =
      progress s (collecting (p ∷ [])) rest s.futures e h tt (rw d (omega arith))

  take_more-Progress :
      (batch : List PendingRequest) (q : List (Option PendingRequest)) (s : State R)
      → s.phase ≡ collecting batch
      → s.queue ≡ q
      → s.shutdown_event ≡ true
      → Progress s (take_more batch q s)
  take_more-Progress batch [] s e d h =
      progress s (flushing batch) s.queue s.futures e h tt (omega arith)
  take_more-Progress batch (none ∷ rest) s e d h =
      progress s (flushing batch) rest s.futures e h tt (rw d (omega arith))
  take_more-Progress batch (some p ∷ rest) s e d h =
      progress s (collecting (batch ++ p ∷ [])) rest s.futures e h tt (rw d (omega arith))

  drain-Progress :
      (items : List PendingRequest) (q : List (Option PendingRequest)) (s : State R)
      → s.phase ≡ draining items
      → s.queue ≡ q
      → s.shutdown_event ≡ true
      → Progress s (drain items q s)
  drain-Progress items [] s e d h = progress s (closing items) s.queue s.futures e h d (omega arith)
  drain-Progress items (none ∷ rest) s e d h =
      progress s (draining items) rest s.futures e h tt (rw d (omega arith))
  drain-Progress items (some p ∷ rest) s e d h =
      progress s (draining (items ++ p ∷ [])) rest s.futures e h tt (rw d (omega arith))

  -- A stopped thread with nothing in the queue has answered every request.
  all_done :
      (s : State R)
      → s.phase ≡ stopped
      → Settled s.phase s.queue
      → IsValid s
      → (i : ℕ) → i < s.next
      → done (s.futures i) ≡ true
  all_done s e settled v i lt =
      let empty : s.queue ≡ [] = rw e at settled in
      let none_waits : waits i (in_flight s) ≡ false = rw (e, empty) refl in
      elim (Bool-cases (done (s.futures i))) [ inl d ↦ d | inr d ↦ cc (v.tracked i lt d) ]

module _ {R : Type 0} (batch_fn : List Payload → Result (List R)) (batch_size : ℕ) where
  -- Every step of a thread that has to end brings it nearer to its end.
  advance-Progress :
      (late : Bool) (p : Phase) (s : State R)
      → s.phase ≡ p
      → p ≢ stopped
      → IsEnding s
      → Progress s (advance batch_fn batch_size late p s)
  unfolding advance
  advance-Progress late checking s e n h = go s.shutdown_event h.signalled
    where
      go :
          (b : Bool)
          → b ≡ true
          → Progress s
              (if b then record s { phase = draining [] } else record s { phase = waiting })
      go true q = progress s (draining []) s.queue s.futures e h.signalled tt (omega arith)
      go false q = cc
  advance-Progress late waiting s e n h = take_first-Progress s.queue s e refl h.signalled
  advance-Progress late (collecting batch) s e n h =
      elim (Bool-cases (leb batch_size (length batch))) [
        | inl b ↦
            rw b (progress s (flushing batch) s.queue s.futures e h.signalled tt (omega arith))
        | inr b ↦ rw b (go late)
      ]
    where
      go :
          (l : Bool)
          → Progress s
              (if l then record s { phase = flushing batch } else take_more batch s.queue s)
      go true = progress s (flushing batch) s.queue s.futures e h.signalled tt (omega arith)
      go false = take_more-Progress batch s.queue s e refl h.signalled
  advance-Progress late (flushing batch) s e n h =
      progress s checking s.queue _ e h.signalled tt (omega arith)
  advance-Progress late (draining items) s e n h = drain-Progress items s.queue s e refl h.signalled
  advance-Progress late (closing items) s e n h =
      progress s stopped s.queue _ e h.signalled (rw e at h.settled) (omega arith)
  advance-Progress late stopped s e n h = absurd (n refl)

  pub advance_stopped :
      (late : Bool) (p : Phase) (s : State R)
      → p ≡ stopped
      → advance batch_fn batch_size late p s ≡ s
  unfolding advance
  advance_stopped late p s e = rw (e, advance)

  ticks_stopped :
      (lates : List Bool) (s : State R)
      → s.phase ≡ stopped
      → run batch_fn batch_size s (ticks lates) ≡ s
  unfolding run
  ticks_stopped [] s e = refl
  ticks_stopped (late ∷ lates) s e =
      ap (λ t. run batch_fn batch_size t (ticks lates)) (advance_stopped late s.phase s e)
      ∙ ticks_stopped lates s e

  -- As many steps as the measure says are enough to stop, with every request answered.
  pub ticks_end :
      (lates : List Bool) (s : State R)
      → IsEnding s
      → IsValid s
      → measure s ≤ length lates
      → let t = run batch_fn batch_size s (ticks lates) in
        (t.phase ≡ stopped) × ((i : ℕ) → i < s.next → done (t.futures i) ≡ true)
  unfolding run
  ticks_end [] s h v m = elim (stopped_cases s.phase) [
    | inl e ↦ (e, all_done s e h.settled v)
    | inr n ↦ absurd (omega (arith, n.1))
  ]
  ticks_end (late ∷ lates) s h v m = elim (stopped_cases s.phase) [
    | inl e ↦ (
      rw (ticks_stopped (late ∷ lates) s e) e,
      rw (ticks_stopped (late ∷ lates) s e) (all_done s e h.settled v),
    )
    | inr n ↦
        let p = advance-Progress late s.phase s refl n.0 h in
        let (ends, answered) =
          ticks_end lates (advance batch_fn batch_size late s.phase s) p.ending
            (advance-IsValid batch_fn batch_size late s.phase s refl v) (omega (arith, p.falls)) in
        (ends, λ i lt. answered i (rw p.same lt))
  ]

-- ===== src/Batcher/Invariant.antt =====
-- No request is lost: whatever the order of calls and thread steps, a request whose future is not
-- done stands in the thread's batch or in the queue, in the order of submission.
use cycletls_python.Base.{
  ℕ, suc, ◌+◌, ◌<◌, ◌≤◌, Bool, ◌≡◌, ◌∙◌, refl, sym, ap, true, false, Option, none, some, List, [],
  ◌∷◌, ◌++◌, map, length, leb, eqb, if◌then◌else◌, arith, Bool-cases, inl, inr, All, ◌||◌,
  append_assoc, append-nil,
}
use cycletls_python.Errors.{Result}
use cycletls_python.Values.{Payload}
use cycletls_python.Batcher.{
  PendingRequest, pending, cancelled, Futures, done, complete, Phase, checking, waiting, collecting,
  flushing, draining, closing, stopped, State, init, Event, submit, cancel, shutdown, tick,
  new_request, do_submit, do_shutdown, answer, flush, flush_remaining, take_first, take_more, drain,
  advance, step, run,
}
use cycletls_python.Batcher.Flush.{waits, Increasing, done-answer, done-complete}

-- The requests that the thread has taken from the queue.
abbrev pub held : Phase → List PendingRequest
held checking = []
held waiting = []
held (collecting batch) = batch
held (flushing batch) = batch
held (draining items) = items
held (closing items) = items
held stopped = []

-- The requests of the queue, without the sentinels.
abbrev pub requests : List (Option PendingRequest) → List PendingRequest
requests [] = []
requests (none ∷ q) = requests q
requests (some p ∷ q) = p ∷ requests q

requests-append :
    (q r : List (Option PendingRequest)) → requests (q ++ r) ≡ requests q ++ requests r
requests-append [] r = refl
requests-append (none ∷ q) r = requests-append q r
requests-append (some p ∷ q) r = ap (◌∷◌ p) (requests-append q r)

module _ {R : Type 0} where
  abbrev pub in_flight : State R → List PendingRequest
  in_flight s = held s.phase ++ requests s.queue

-- `l` is in flight: in order, known, and with every future that is not done.
pub record IsTracked {R : Type 0} (l : List PendingRequest) (next : ℕ) (futures : Futures R)
    : Type 0 where
  pub ordered : Increasing 0 l
  pub known : All (λ p. p.future < next) l
  pub tracked : (i : ℕ) → i < next → done (futures i) ≡ false → waits i l ≡ true

abbrev pub IsValid : {R : Type 0} → State R → Type 0
IsValid s = IsTracked (in_flight s) s.next s.futures

Increasing-drop :
    (lo : ℕ) (xs ys : List PendingRequest) → Increasing lo (xs ++ ys) → Increasing 0 ys
Increasing-drop lo [] [] h = tt
Increasing-drop lo [] (y ∷ ys) h = (omega arith, h.1)
Increasing-drop lo (x ∷ xs) ys h = Increasing-drop (suc x.future) xs ys h.1

pub Increasing-take :
    (lo : ℕ) (xs ys : List PendingRequest) → Increasing lo (xs ++ ys) → Increasing lo xs
Increasing-take lo [] ys h = tt
Increasing-take lo (x ∷ xs) ys h = (h.0, Increasing-take (suc x.future) xs ys h.1)

All-drop :
    (n : ℕ) (xs ys : List PendingRequest)
    → All (λ p. p.future < n) (xs ++ ys)
    → All (λ p. p.future < n) ys
All-drop n [] ys h = h
All-drop n (x ∷ xs) ys h = All-drop n xs ys h.1

pub waits-append :
    (i : ℕ) (xs ys : List PendingRequest) → waits i (xs ++ ys) ≡ (waits i xs || waits i ys)
waits-append i [] ys = refl
waits-append i (x ∷ xs) ys = ground (arith, waits-append i xs ys)

Increasing-snoc :
    (lo : ℕ) (l : List PendingRequest) (p : PendingRequest)
    → Increasing lo l
    → All (λ q. q.future < p.future) l
    → lo ≤ p.future
    → Increasing lo (l ++ p ∷ [])
Increasing-snoc lo [] p h a le = (le, tt)
Increasing-snoc lo (x ∷ l) p h a le =
    (h.0, Increasing-snoc (suc x.future) l p h.1 a.1 (omega (arith, a.0)))

All-snoc :
    (n : ℕ) (l : List PendingRequest) (p : PendingRequest)
    → All (λ q. q.future < n) l
    → p.future ≡ n
    → All (λ q. q.future < n + 1) (l ++ p ∷ [])
All-snoc n [] p h e = (omega arith, tt)
All-snoc n (x ∷ l) p h e = (omega (arith, h.0), All-snoc n l p h.1 e)

module _ {R : Type 0} where
  -- An answered batch leaves the front of what is in flight.
  IsTracked-answer :
      (batch rest : List PendingRequest) (r : Result (List R)) (n : ℕ) (f : Futures R)
      → IsTracked (batch ++ rest) n f
      → IsTracked rest n (answer batch r f)
  IsTracked-answer batch rest r n f h = record {
    ordered = Increasing-drop 0 batch rest h.ordered;
    known = All-drop n batch rest h.known;
    tracked = λ i lt d.
        ground (arith, done-answer batch r f i, waits-append i batch rest, h.tracked i lt);
  }

  IsTracked-cancel :
      (l : List PendingRequest) (n i : ℕ) (f : Futures R)
      → IsTracked l n f
      → IsTracked l n (complete i cancelled f)
  unfolding done
  IsTracked-cancel l n i f h = record {
    ordered = h.ordered;
    known = h.known;
    tracked = λ j lt d. ground (arith, done-complete i j cancelled f refl, h.tracked j lt);
  }

  IsTracked-submit :
      (l : List PendingRequest) (n : ℕ) (p : PendingRequest) (f : Futures R)
      → p.future ≡ n
      → IsTracked l n f
      → IsTracked (l ++ p ∷ []) (n + 1) (λ j. if eqb n j then pending else f j)
  IsTracked-submit l n p f e h = record {
    ordered = Increasing-snoc 0 l p h.ordered (rw e h.known) (omega arith);
    known = All-snoc n l p h.known e;
    tracked = λ i lt d. ground (arith, waits-append i l (p ∷ []), h.tracked i);
  }

  in_flight-submit :
      (payload : Payload) (s : State R)
      → in_flight (do_submit payload s) ≡ in_flight s ++ new_request payload s ∷ []
  unfolding do_submit
  in_flight-submit payload s =
      ap (◌++◌ (held s.phase)) (requests-append s.queue (some (new_request payload s) ∷ []))
      ∙ sym (append_assoc (held s.phase) (requests s.queue) _)

  -- The thread moves requests from the queue to its batch.
  IsValid-moved :
      (s : State R) (p : Phase) (q : List (Option PendingRequest))
      → held p ++ requests q ≡ in_flight s
      → IsValid s
      → IsValid (record s { phase = p; queue = q })
  IsValid-moved s p q e h = rw e h

  flight :
      (s : State R) {p : Phase} {q : List (Option PendingRequest)}
      → s.phase ≡ p
      → s.queue ≡ q
      → held p ++ requests q ≡ in_flight s
  flight s e d = rw (e, d)

  take_first-IsValid :
      (q : List (Option PendingRequest)) (s : State R)
      → s.phase ≡ waiting
      → s.queue ≡ q
      → IsValid s
      → IsValid (take_first q s)
  take_first-IsValid [] s e d h = IsValid-moved s checking s.queue (flight s e refl) h
  take_first-IsValid (none ∷ rest) s e d h = IsValid-moved s checking rest (flight s e d) h
  take_first-IsValid (some p ∷ rest) s e d h =
      IsValid-moved s (collecting (p ∷ [])) rest (flight s e d) h

  take_more-IsValid :
      (batch : List PendingRequest) (q : List (Option PendingRequest)) (s : State R)
      → s.phase ≡ collecting batch
      → s.queue ≡ q
      → IsValid s
      → IsValid (take_more batch q s)
  take_more-IsValid batch [] s e d h = IsValid-moved s (flushing batch) s.queue (flight s e refl) h
  take_more-IsValid batch (none ∷ rest) s e d h =
      IsValid-moved s (flushing batch) rest (flight s e d) h
  take_more-IsValid batch (some p ∷ rest) s e d h =
      IsValid-moved s (collecting (batch ++ p ∷ [])) rest
        (append_assoc batch (p ∷ []) (requests rest) ∙ flight s e d) h

  drain-IsValid :
      (items : List PendingRequest) (q : List (Option PendingRequest)) (s : State R)
      → s.phase ≡ draining items
      → s.queue ≡ q
      → IsValid s
      → IsValid (drain items q s)
  drain-IsValid items [] s e d h = IsValid-moved s (closing items) s.queue (flight s e refl) h
  drain-IsValid items (none ∷ rest) s e d h = IsValid-moved s (draining items) rest (flight s e d) h
  drain-IsValid items (some p ∷ rest) s e d h =
      IsValid-moved s (draining (items ++ p ∷ [])) rest
        (append_assoc items (p ∷ []) (requests rest) ∙ flight s e d) h

module _ {R : Type 0} (batch_fn : List Payload → Result (List R)) (batch_size : ℕ) where
  flush-IsTracked :
      (batch rest : List PendingRequest) (n : ℕ) (f : Futures R)
      → IsTracked (batch ++ rest) n f
      → IsTracked rest n (flush batch_fn batch f)
  unfolding flush
  flush-IsTracked batch rest n f h =
      IsTracked-answer batch rest (batch_fn (map (λ p. p.payload) batch)) n f h

  flush_remaining-IsTracked :
      (items rest : List PendingRequest) (n : ℕ) (f : Futures R)
      → IsTracked (items ++ rest) n f
      → IsTracked rest n (flush_remaining batch_fn items f)
  flush_remaining-IsTracked [] rest n f h = h
  flush_remaining-IsTracked (p ∷ ps) rest n f h = flush-IsTracked (p ∷ ps) rest n f h

  pub advance-IsValid :
      (late : Bool) (p : Phase) (s : State R)
      → s.phase ≡ p
      → IsValid s
      → IsValid (advance batch_fn batch_size late p s)
  unfolding advance
  advance-IsValid late checking s e h = elim (Bool-cases s.shutdown_event) [
    | inl b ↦ rw b (IsValid-moved s (draining []) s.queue (flight s e refl) h)
    | inr b ↦ rw b (IsValid-moved s waiting s.queue (flight s e refl) h)
  ]
  advance-IsValid late waiting s e h = take_first-IsValid s.queue s e refl h
  advance-IsValid late (collecting batch) s e h =
      elim (Bool-cases (leb batch_size (length batch))) [
        | inl b ↦ rw b (IsValid-moved s (flushing batch) s.queue (flight s e refl) h)
        | inr b ↦ rw b (go late)
      ]
    where
      go :
          (l : Bool)
          → IsValid (if l then record s { phase = flushing batch } else take_more batch s.queue s)
      go true = IsValid-moved s (flushing batch) s.queue (flight s e refl) h
      go false = take_more-IsValid batch s.queue s e refl h
  advance-IsValid late (flushing batch) s e h =
      flush-IsTracked batch (requests s.queue) s.next s.futures (rw (flight s e refl) h)
  advance-IsValid late (draining items) s e h = drain-IsValid items s.queue s e refl h
  advance-IsValid late (closing items) s e h =
      flush_remaining-IsTracked items (requests s.queue) s.next s.futures (rw (flight s e refl) h)
  advance-IsValid late stopped s e h = h

  pub step-IsValid : (s : State R) (e : Event) → IsValid s → IsValid (step batch_fn batch_size s e)
  unfolding step do_submit do_shutdown
  step-IsValid s (submit payload) h =
      rw (in_flight-submit payload s)
        (IsTracked-submit (in_flight s) s.next (new_request payload s) s.futures refl h)
  step-IsValid s (cancel i) h = IsTracked-cancel (in_flight s) s.next i s.futures h
  step-IsValid s shutdown h = elim (Bool-cases s.shutdown_event) [
    | inl b ↦ rw b h
    | inr b ↦ rw (b, requests-append s.queue (none ∷ []), append-nil) h
  ]
  step-IsValid s (tick late) h = advance-IsValid late s.phase s refl h

  -- Whatever happens, in any order, from the start of the thread.
  pub run-IsValid :
      (s : State R) (es : List Event) → IsValid s → IsValid (run batch_fn batch_size s es)
  unfolding run
  run-IsValid s [] h = h
  run-IsValid s (e ∷ es) h = run-IsValid (step batch_fn batch_size s e) es (step-IsValid s e h)

pub init-IsValid : {R : Type 0} → IsValid (init {R = R})
init-IsValid = record { ordered = tt; known = tt; tracked = λ i lt d. absurd (omega arith) }

-- From the start of the thread, after any interleaving of submits, cancellations, a shutdown and
-- steps of the thread: a request whose future is not done is in the thread's batch or in the
-- queue, and what is in flight stands in the order of submission, each request once.
pub run-init-IsValid :
    {R : Type 0} (batch_fn : List Payload → Result (List R)) (batch_size : ℕ) (es : List Event)
    → IsValid (run batch_fn batch_size init es)
run-init-IsValid batch_fn batch_size es = run-IsValid batch_fn batch_size init es init-IsValid

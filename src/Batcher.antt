-- ===== src/Batcher.antt =====
-- `RequestBatcher` of cycletls/_batcher.py: callers, the queue, and the background thread as
-- interleaved steps. One step of the thread is one call of `queue.get`, one test or one `_flush`.
pub mod Flush
pub mod Invariant
pub mod Shutdown
pub mod Liveness
pub mod Stopped
pub mod Singleton
pub mod Tests
use cycletls_python.Base.{
  ℕ, zero, suc, ◌+◌, String, Bool, true, false, not, Option, none, some, List, [], ◌∷◌, ◌++◌, map,
  length, leb, eqb, if◌then◌else◌,
}
use cycletls_python.Errors.{Error, error, runtime_error, Result, ok, err}
use cycletls_python.Text.{join, decimal}
use cycletls_python.Values.{Payload}

-- `_PendingRequest`; the future is an address.
pub record PendingRequest : Type 0 where
  pub payload : Payload
  pub future : ℕ
  pub request_id : String

-- A `concurrent.futures.Future`; the caller of submit_async may cancel it.
pub data Future (R : Type 0) : Type 0 where
  pending : Future R
  result : R → Future R
  failed : Error → Future R
  cancelled : Future R

-- future.done()
unfoldable pub done : {R : Type 0} → Future R → Bool
done pending = false
done (result r) = true
done (failed e) = true
done cancelled = true

abbrev pub Futures : Type 0 → Type 0
Futures R = ℕ → Future R

-- `if not future.done(): future.set_...(v)`
unfoldable pub complete : {R : Type 0} → ℕ → Future R → Futures R → Futures R
complete i v f j = if eqb i j then (if done (f j) then f j else v) else f j

-- Where the background thread is.
pub data Phase : Type 0 where
  -- the test of `while` in _run
  checking : Phase
  -- the first `get` of _collect_batch
  waiting : Phase
  -- the loop of _collect_batch, with its batch
  collecting : List PendingRequest → Phase
  -- before `_flush(batch)`
  flushing : List PendingRequest → Phase
  -- the loop of _drain_remaining, with its items
  draining : List PendingRequest → Phase
  -- before the last `if remaining`
  closing : List PendingRequest → Phase
  stopped : Phase

pub record State (R : Type 0) : Type 0 where
  -- `_queue`; `none` is the sentinel
  pub queue : List (Option PendingRequest)
  pub shutdown_event : Bool
  pub phase : Phase
  pub futures : Futures R
  -- the next address of a future
  pub next : ℕ

-- __init__: the thread has been started.
abbrev pub init : {R : Type 0} → State R
init = record {
  queue = [];
  shutdown_event = false;
  phase = checking;
  futures = λ i. pending;
  next = 0;
}

-- What may happen next. `tick late` is a step of the thread; `late` says that the deadline of the
-- batch has passed. A step at an empty queue is a `get` that ran into its timeout.
pub data Event : Type 0 where
  submit : Payload → Event
  cancel : ℕ → Event
  shutdown : Event
  tick : Bool → Event

abbrev pub count_error : ℕ → ℕ → Error
count_error m n =
    error runtime_error
      (join ("Batch FFI returned " ∷ decimal m ∷ " results for " ∷ decimal n ∷ " requests" ∷ []))

module _ {R : Type 0} where
  -- `_PendingRequest(payload=payload, future=Future(), request_id=payload.get("requestId", ""))`
  abbrev pub new_request : Payload → State R → PendingRequest
  new_request payload s = record {
    payload = payload;
    future = s.next;
    request_id = payload.request_id;
  }

  -- submit_sync and submit_async, up to the wait for the future
  unfoldable pub do_submit : Payload → State R → State R
  do_submit payload s = record s {
    queue = s.queue ++ some (new_request payload s) ∷ [];
    futures = λ j. if eqb s.next j then pending else s.futures j;
    next = s.next + 1;
  }

  -- shutdown(); `join` waits two seconds at most and changes nothing
  unfoldable pub do_shutdown : State R → State R
  do_shutdown s =
      if s.shutdown_event
      then s
      else record s { shutdown_event = true; queue = s.queue ++ none ∷ [] }

  -- the `set_exception` loops of _flush
  unfoldable pub fail_all : Error → List PendingRequest → Futures R → Futures R
  unfolding complete
  fail_all e [] f = f
  fail_all e (p ∷ ps) f = fail_all e ps (complete p.future (failed e) f)

  -- for pending, result in zip(batch, results)
  unfoldable pub distribute : List PendingRequest → List R → Futures R → Futures R
  unfolding complete
  distribute (p ∷ ps) (r ∷ rs) f = distribute ps rs (complete p.future (result r) f)
  distribute _ _ f = f

  -- _flush, after the call of batch_fn
  unfoldable pub answer : List PendingRequest → Result (List R) → Futures R → Futures R
  unfolding fail_all distribute
  answer batch (err e) f = fail_all e batch f
  answer batch (ok results) f =
      if not (eqb (length results) (length batch))
      then fail_all (count_error (length results) (length batch)) batch f
      else distribute batch results f

module _ {R : Type 0} (batch_fn : List Payload → Result (List R)) where
  -- _flush; as one step, so no cancellation comes between `done()` and the answer to a future
  unfoldable pub flush : List PendingRequest → Futures R → Futures R
  flush batch f = answer batch (batch_fn (map (λ p. p.payload) batch)) f

  -- `if remaining: self._flush(remaining)`
  abbrev pub flush_remaining : List PendingRequest → Futures R → Futures R
  flush_remaining [] f = f
  flush_remaining (p ∷ ps) f = flush (p ∷ ps) f

module _ {R : Type 0} where
  -- one step of _collect_batch's first `get`
  abbrev pub take_first : List (Option PendingRequest) → State R → State R
  take_first [] s = record s { phase = checking }
  take_first (none ∷ rest) s = record s { queue = rest; phase = checking }
  take_first (some p ∷ rest) s = record s { queue = rest; phase = collecting (p ∷ []) }

  -- one `get` in the loop of _collect_batch
  abbrev pub take_more : List PendingRequest → List (Option PendingRequest) → State R → State R
  take_more batch [] s = record s { phase = flushing batch }
  take_more batch (none ∷ rest) s = record s { queue = rest; phase = flushing batch }
  take_more batch (some p ∷ rest) s = record s {
    queue = rest;
    phase = collecting (batch ++ p ∷ []);
  }

  -- one `get_nowait` of _drain_remaining
  abbrev pub drain : List PendingRequest → List (Option PendingRequest) → State R → State R
  drain items [] s = record s { phase = closing items }
  drain items (none ∷ rest) s = record s { queue = rest; phase = draining items }
  drain items (some p ∷ rest) s = record s { queue = rest; phase = draining (items ++ p ∷ []) }

module _ {R : Type 0} (batch_fn : List Payload → Result (List R)) (batch_size : ℕ) where
  -- A step of _run, by where the thread is.
  unfoldable pub advance : Bool → Phase → State R → State R
  advance late checking s =
      if s.shutdown_event then record s { phase = draining [] } else record s { phase = waiting }
  advance late waiting s = take_first s.queue s
  advance late (collecting batch) s =
      if leb batch_size (length batch)
      then record s { phase = flushing batch }
      else if late
      then record s { phase = flushing batch }
      else take_more batch s.queue s
  advance late (flushing batch) s = record s {
    phase = checking;
    futures = flush batch_fn batch s.futures;
  }
  advance late (draining items) s = drain items s.queue s
  advance late (closing items) s = record s {
    phase = stopped;
    futures = flush_remaining batch_fn items s.futures;
  }
  advance late stopped s = s

  unfoldable pub step : State R → Event → State R
  step s (submit payload) = do_submit payload s
  step s (cancel i) = record s { futures = complete i cancelled s.futures }
  step s shutdown = do_shutdown s
  step s (tick late) = advance late s.phase s

  unfoldable pub run : State R → List Event → State R
  unfolding step
  run s [] = s
  run s (e ∷ es) = run (step s e) es

-- ===== src/Ffi/Pipes.antt =====
-- The pipes of send_request_async_callback in cycletls/_ffi.py.
use cycletls_python.Base.{
  ℕ, true, false, List, [], ◌∷◌, Option, none, some, ◌≡◌, refl, ap, ◌∙◌, eqb, eq→eqb, if◌then◌else◌,
  inl, inr,
}
use cycletls_python.Errors.{Result-cases}
use cycletls_python.Exec.{on}
use cycletls_python.Values.{Payload}
use cycletls_python.Request.Cookie.{opt}
use cycletls_python.Library.{
  Log, Call, Go, get_request, send_batch, submit, check, submit_notify, async_result, ws_connect,
  sse_connect, ws_send, ws_receive, ws_close, sse_next_event, sse_close, free_string, open_pipe,
  close_fd, allocates,
}
use cycletls_python.Ffi.{Ffi, Codec, init}
use cycletls_python.Ffi.Laws.{
  called, is_descriptor, IsKept, send_request_keeps, send_batch_request_keeps,
}
use cycletls_python.Ffi.AsyncLaws.{send_request_async_keeps, wait_for_result_keeps}
use cycletls_python.Ffi.Asynchronous.{System, closing, wait_for_result, send_request_async_callback}
use cycletls_python.Ffi.Polling.{Operation, sending, batching, polling, notifying, step, run}

-- The list without the first `f`, if it has one.
unfoldable taken : ℕ → List ℕ → Option (List ℕ)
taken f [] = none
taken f (x ∷ l) = let rest = taken f l in if eqb f x then some l else opt (λ r. x ∷ r) rest

-- The ends of pipes that a log leaves open; none when it closes an end that is not open.
unfoldable pub open_ends : Log → Option (List ℕ)
unfolding taken
open_ends [] = some []
open_ends (open_pipe r w ∷ log) = opt (λ l. r ∷ w ∷ l) (open_ends log)
open_ends (close_fd f ∷ log) = on (open_ends log) none (taken f)
open_ends (c ∷ log) = open_ends log

abbrev Leaves : List ℕ → Ffi → Type 0
Leaves l s = open_ends s.log ≡ some l

other_call : (c : Call) (log : Log) → is_descriptor c ≡ false → open_ends (c ∷ log) ≡ open_ends log
unfolding open_ends is_descriptor
other_call (get_request z p) log h = refl
other_call (send_batch z ps) log h = refl
other_call (submit z p) log h = refl
other_call (check z n) log h = refl
other_call (submit_notify p n) log h = refl
other_call (async_result n) log h = refl
other_call (ws_connect d) log h = refl
other_call (sse_connect d) log h = refl
other_call (ws_send n k bs m) log h = refl
other_call (ws_receive n) log h = refl
other_call (ws_close n) log h = refl
other_call (sse_next_event n) log h = refl
other_call (sse_close n) log h = refl
other_call (free_string n) log h = refl
other_call (open_pipe r w) log h = cc
other_call (close_fd f) log h = cc

allocates-other : (c : Call) → allocates c ≡ true → is_descriptor c ≡ false
unfolding allocates is_descriptor
allocates-other (open_pipe r w) h = cc
allocates-other (close_fd f) h = cc
allocates-other (get_request z p) h = refl
allocates-other (send_batch z ps) h = refl
allocates-other (submit z p) h = refl
allocates-other (check z n) h = refl
allocates-other (submit_notify p n) h = refl
allocates-other (async_result n) h = refl
allocates-other (ws_connect d) h = refl
allocates-other (sse_connect d) h = refl
allocates-other (ws_send n k bs m) h = refl
allocates-other (ws_receive n) h = refl
allocates-other (ws_close n) h = refl
allocates-other (sse_next_event n) h = refl
allocates-other (sse_close n) h = refl
allocates-other (free_string n) h = refl

module _ (go : Go) (codec : Codec) where
  Leaves-IsKept : (l : List ℕ) → IsKept go (Leaves l)
  unfolding open_ends is_descriptor
  Leaves-IsKept l = record {
    at_plain = λ c s a f d p. other_call c s.log d ∙ p;
    at_null = λ c s a f e p. other_call c s.log (allocates-other c a) ∙ p;
    at_string = λ c s q a e p. other_call c s.log (allocates-other c a) ∙ p;
    at_zerocopy = λ s b p. p;
    at_async = λ s b p. p;
  }

  -- Both ends are taken off again.
  both_taken : (r w : ℕ) (l : List ℕ) → on (taken r (r ∷ w ∷ l)) none (taken w) ≡ some l
  unfolding taken
  both_taken r w l = rw (eq→eqb r r refl, taken) (rw (eq→eqb w w refl) refl)

  callback_closes :
      (system : System) (l : List ℕ) (payload : Payload) (s : Ffi)
      → Leaves l s
      → Leaves l (send_request_async_callback go codec system payload s).1
  unfolding send_request_async_callback closing open_ends
  callback_closes system l payload s p = elim (Result-cases go.load) [
    | inr (e, q) ↦ rw q p
    | inl (a, q) ↦
        let r = (system.pipe s.log).0 in
        let w = (system.pipe s.log).1 in
        let waited : Leaves (r ∷ w ∷ l)
            (wait_for_result go codec system w payload (called (open_pipe r w) s)).1 =
          wait_for_result_keeps go _ (Leaves-IsKept (r ∷ w ∷ l)) codec system w payload
            (called (open_pipe r w) s) (ap (opt (λ l. r ∷ w ∷ l)) p) in
        rw q (rw waited (both_taken r w l))
  ]

  step-Leaves : (o : Operation) (s : Ffi) → Leaves [] s → Leaves [] (step go codec o s)
  unfolding step
  step-Leaves (sending payload) s p = send_request_keeps go _ (Leaves-IsKept []) codec payload s p
  step-Leaves (batching payloads) s p =
      send_batch_request_keeps go _ (Leaves-IsKept []) codec payloads s p
  step-Leaves (polling system n payload) s p =
      send_request_async_keeps go _ (Leaves-IsKept []) codec system n payload s p
  step-Leaves (notifying system payload) s p = callback_closes system [] payload s p

  -- Whatever requests are sent, alone, in batches, by polling or by notification, and however each
  -- of them ends: both ends of every pipe that was opened have been closed once, and nothing else
  -- was closed.
  pub pipes_closed : (os : List Operation) → open_ends (run go codec os init).log ≡ some []
  unfolding run open_ends
  pipes_closed os = run-Leaves os init refl
    where
      run-Leaves : (os : List Operation) (s : Ffi) → Leaves [] s → Leaves [] (run go codec os s)
      run-Leaves [] s p = p
      run-Leaves (o ∷ os) s p = run-Leaves os (step go codec o s) (step-Leaves o s p)

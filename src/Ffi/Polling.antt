-- ===== src/Ffi/Polling.antt =====
-- Runs of cycletls/_ffi.py: strings and pipes are released whichever way a request ends, and the
-- loop of send_request_async ends.
use cycletls_python.Base.{
  ℕ, zero, suc, ◌+◌, Bool, true, false, List, [], ◌∷◌, Option, none, some, ◌≡◌, refl, ◌≢◌, ◌⊎◌, inl,
  inr, ap, ◌∙◌, arith, eqb,
}
use cycletls_python.Errors.{Result, ok, err}
use cycletls_python.Exec.{Exec, on, ◌>>◌, and_then, guard, pure}
use cycletls_python.Values.{Payload}
use cycletls_python.Response.{Reply}
use cycletls_python.Library.{
  Call, Go, submit_notify, open_pipe, close_fd, IsClean, start, plain, null, freed,
}
use cycletls_python.Ffi.{Ffi, Codec, init, send_request, send_batch_request}
use cycletls_python.Ffi.Laws.{
  is_descriptor, descriptor-plain, IsKept, send_request_keeps, send_batch_request_keeps,
}
use cycletls_python.Ffi.AsyncLaws.{send_request_async_keeps, send_request_async_callback_keeps}
use cycletls_python.Ffi.Asynchronous.{
  System, timed_out, check_by, poll, send_request_async, wait_for_result, closing,
  send_request_async_callback,
}

-- One request, in one of the four ways, with the answers of the system to it.
pub data Operation : Type 0 where
  sending : Payload → Operation
  batching : List Payload → Operation
  polling : System → ℕ → Payload → Operation
  notifying : System → Payload → Operation

module _ (go : Go) (codec : Codec) where
  IsClean-IsKept : IsKept go (λ s. IsClean go s.log)
  IsClean-IsKept = record {
    at_plain = λ c s a f d p. plain a f p;
    at_null = λ c s a f e p. null e f p;
    at_string = λ c s q a e p. freed e a p;
    at_zerocopy = λ s b p. p;
    at_async = λ s b p. p;
  }

  descriptor-IsClean :
      (c : Call) (s : Ffi) → is_descriptor c ≡ true → IsClean go s.log → IsClean go (c ∷ s.log)
  descriptor-IsClean c s d p = let (f, e) = descriptor-plain c d in plain f e p

  -- The module after a request, whether it returned or raised.
  unfoldable pub step : Operation → Ffi → Ffi
  step (sending payload) s = (send_request go codec payload s).1
  step (batching payloads) s = (send_batch_request go codec payloads s).1
  step (polling system n payload) s = (send_request_async go codec system n payload s).1
  step (notifying system payload) s = (send_request_async_callback go codec system payload s).1

  unfoldable pub run : List Operation → Ffi → Ffi
  unfolding step
  run [] s = s
  run (o ∷ os) s = run os (step o s)

  step-IsClean : (o : Operation) (s : Ffi) → IsClean go s.log → IsClean go (step o s).log
  unfolding step
  step-IsClean (sending payload) s p = send_request_keeps go _ IsClean-IsKept codec payload s p
  step-IsClean (batching payloads) s p =
      send_batch_request_keeps go _ IsClean-IsKept codec payloads s p
  step-IsClean (polling system n payload) s p =
      send_request_async_keeps go _ IsClean-IsKept codec system n payload s p
  step-IsClean (notifying system payload) s p =
      send_request_async_callback_keeps go _ IsClean-IsKept codec system payload s
        descriptor-IsClean p

  -- Whatever requests are sent, alone, in batches, by polling or by notification, and however
  -- each of them ends: every string that the library handed out was freed once, before the next
  -- call, and nothing else was freed.
  pub requests-IsClean : (os : List Operation) → IsClean go (run os init).log
  unfolding run
  requests-IsClean os = run-IsClean os init start
    where
      run-IsClean : (os : List Operation) (s : Ffi) → IsClean go s.log → IsClean go (run os s).log
      run-IsClean [] s p = p
      run-IsClean (o ∷ os) s p = run-IsClean os (step o s) (step-IsClean o s p)

  module _ (system : System) where
    guarded :
        (b : Bool) (rest : Exec Ffi (Option Reply)) (t : Ffi)
        → (b ≡ true) ⊎ ((rest t).0 ≢ ok none)
        → ((guard b (timed_out go codec system) >> rest) t).0 ≢ ok none
    guarded true rest t h e = cc
    guarded false rest t (inl h) e = cc
    guarded false rest t (inr h) e = h e

    round :
        (k : ℕ) (r : Result (Option Reply)) (rest : Exec Ffi (Option Reply)) (t : Ffi)
        → (system.late k ≡ true) ⊎ ((rest t).0 ≢ ok none)
        → (and_then r
            (λ reply.
              on reply
                (guard (system.late k) (timed_out go codec system) >> rest)
                (λ r. pure (some r)))
            t).0
          ≢ ok none
    round k (err x) rest t h e = cc
    round k (ok (some r)) rest t h e = cc
    round k (ok none) rest t h e = guarded (system.late k) rest t h e

    -- The rounds of send_request_async end at the latest with the look at the clock that finds
    -- the time to be over: the loop has then returned an answer or raised.
    pub poll_ends :
        (n k : ℕ) (z : Bool) (h : ℕ) (s : Ffi)
        → system.late (k + n) ≡ true
        → (poll go codec system (suc n) k z h s).0 ≢ ok none
    unfolding poll
    poll_ends zero k z h s l =
        round k (check_by go codec z h s).0 (poll go codec system 0 (suc k) z h) _
          (inl (ap system.late (omega arith) ∙ l))
    poll_ends (suc n) k z h s l =
        round k (check_by go codec z h s).0 (poll go codec system (suc n) (suc k) z h) _
          (inr (poll_ends n (suc k) z h _ (ap system.late (omega arith) ∙ l)))

    -- When the notification does not come in time, send_request_async_callback closes both ends of
    -- its pipe although the library has been given one of them to write to, and never asks for
    -- the answer.
    pub timeout_closes_pipe :
        (payload : Payload) (s : Ffi) (r w : ℕ)
        → go.load ≡ ok tt
        → system.pipe s.log ≡ (r, w)
        → eqb (go.handle (submit_notify payload w ∷ open_pipe r w ∷ s.log)) 0 ≡ false
        → system.notified (submit_notify payload w ∷ open_pipe r w ∷ s.log) ≡ false
        → send_request_async_callback go codec system payload s ≡ (
          err (timed_out go codec system),
          record s {
            log = close_fd w ∷ close_fd r ∷ submit_notify payload w ∷ open_pipe r w ∷ s.log;
          },
        )
    unfolding send_request_async_callback closing wait_for_result
    timeout_closes_pipe payload s r w l q h f = rw (l, q, h, f) refl

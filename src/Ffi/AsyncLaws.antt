-- ===== src/Ffi/AsyncLaws.antt =====
-- What holds of the calls of the asynchronous half of cycletls/_ffi.py.
use cycletls_python.Base.{
  ℕ, zero, suc, Bool, true, false, not, ◌&&◌, ◌∷◌, Option, none, some, ◌≡◌, refl, inl, inr, eqb,
  Bool-cases,
}
use cycletls_python.Errors.{Result-cases}
use cycletls_python.Exec.{
  on, on_keeps, on_case, guard_keeps, lifts_keep, bind_keeps, pure, guard, ◌>>=◌, ◌>>◌,
}
use cycletls_python.Values.{Payload}
use cycletls_python.Library.{
  Go, Call, submit, check, submit_notify, async_result, open_pipe, close_fd, allocates, is_free,
}
use cycletls_python.Ffi.{
  Ffi, Codec, raw_bytes, has_symbol, has_both, probe_async, has_async_zerocopy_support, take_bytes,
}
use cycletls_python.Ffi.Asynchronous.{
  System, timed_out, submit_by, decode_check, found, take_check, check_by, poll, send_request_async,
  take_result, wait_for_result, closing, send_request_async_callback,
}
use cycletls_python.Ffi.Laws.{called, is_descriptor, IsKept}

module _ {ℓ} (go : Go) (P : Ffi → Type ℓ) (k : IsKept go P) where
  probe_async_keeps : (s : Ffi) → P s → P (probe_async go s).1
  unfolding probe_async has_both has_symbol
  probe_async_keeps s p = elim (Result-cases go.load) [
    | inr (e, q) ↦ rw q p
    | inl (a, q) ↦ elim (Bool-cases (go.exports "submitRequestAsyncZeroCopy")) [
      | inl x ↦ rw (q, x) (k.at_async s (go.exports "getAsyncResultZeroCopy") p)
      | inr x ↦ rw (q, x) (k.at_async s false p)
    ]
  ]

  async_keeps : (s : Ffi) → P s → P (has_async_zerocopy_support go s).1
  unfolding has_async_zerocopy_support
  async_keeps s p =
      on_keeps P s.use_async_zerocopy (probe_async go s) _ (probe_async_keeps s p) (λ b e. p)

  module _ (codec : Codec) where
    submit_by_keeps :
        (z : Bool) (payload : Payload) (s : Ffi) → P s → P (submit_by go codec z payload s).1
    unfolding submit_by allocates is_free is_descriptor
    submit_by_keeps z payload s p = elim (Result-cases go.load) [
      | inr (e, q) ↦ rw q p
      | inl (a, q) ↦ elim (Bool-cases (not z && eqb (go.handle (submit z payload ∷ s.log)) 0)) [
        | inl x ↦ rw (q, x) (k.at_plain (submit z payload) s refl refl refl p)
        | inr x ↦ rw (q, x) (k.at_plain (submit z payload) s refl refl refl p)
      ]
    ]

    take_check_keeps :
        (z : Bool) (c : Call) (s : Ffi) (o : Option ℕ)
        → allocates c ≡ true
        → is_free c ≡ false
        → P s
        → go.pointer (c ∷ s.log) ≡ o
        → P (take_check go codec z o (called c s)).1
    unfolding take_check take_bytes
    take_check_keeps z c s none a f p e = k.at_null c s a f e p
    take_check_keeps z c s (some q) a f p e =
        lifts_keep P (raw_bytes codec z (go.bytes (c ∷ s.log) q))
          (λ raw. found go codec (decode_check go codec z raw)) _ (k.at_string c s q a e p)

    check_by_keeps : (z : Bool) (h : ℕ) (s : Ffi) → P s → P (check_by go codec z h s).1
    unfolding check_by allocates is_free
    check_by_keeps z h s p = elim (Result-cases go.load) [
      | inr (e, q) ↦ rw q p
      | inl (a, q) ↦ rw q (take_check_keeps z (check z h) s _ refl refl p refl)
    ]

    module _ (system : System) where
      poll_keeps :
          (n k' : ℕ) (z : Bool) (h : ℕ) (s : Ffi) → P s → P (poll go codec system n k' z h s).1
      unfolding poll
      poll_keeps zero j z h s p = p
      poll_keeps (suc n) j z h s p =
          bind_keeps P (check_by go codec z h)
            (λ reply.
              on reply
                (guard (system.late j) (timed_out go codec system)
                  >> poll go codec system n (suc j) z h)
                (λ r. pure (some r)))
            s (check_by_keeps z h s p)
            (λ reply t q.
              on_case (λ m. P (m t).1) reply
                (guard (system.late j) (timed_out go codec system)
                  >> poll go codec system n (suc j) z h)
                (λ r. pure (some r))
                (guard_keeps P (system.late j) (timed_out go codec system)
                  (poll go codec system n (suc j) z h) t q (poll_keeps n (suc j) z h t q))
                (λ r e. q))

      pub send_request_async_keeps :
          (n : ℕ) (payload : Payload) (s : Ffi)
          → P s
          → P (send_request_async go codec system n payload s).1
      unfolding send_request_async
      send_request_async_keeps n payload s p =
          bind_keeps P (has_async_zerocopy_support go)
            (λ z. submit_by go codec z payload >>= λ h. poll go codec system n 0 z h) s
            (async_keeps s p)
            (λ z t q.
              bind_keeps P (submit_by go codec z payload) (λ h. poll go codec system n 0 z h) t
                (submit_by_keeps z payload t q) (λ h. poll_keeps n 0 z h))

      take_result_keeps :
          (c : Call) (s : Ffi) (o : Option ℕ)
          → allocates c ≡ true
          → is_free c ≡ false
          → P s
          → go.pointer (c ∷ s.log) ≡ o
          → P (take_result go codec system o (called c s)).1
      unfolding take_result take_bytes
      take_result_keeps c s none a f p e = k.at_null c s a f e p
      take_result_keeps c s (some q) a f p e = k.at_string c s q a e p

      pub wait_for_result_keeps :
          (fd : ℕ) (payload : Payload) (s : Ffi)
          → P s
          → P (wait_for_result go codec system fd payload s).1
      unfolding wait_for_result allocates is_free is_descriptor
      wait_for_result_keeps fd payload s p =
          let sent = k.at_plain (submit_notify payload fd) s refl refl refl p in
          elim (Bool-cases (eqb (go.handle (submit_notify payload fd ∷ s.log)) 0)) [
            | inl x ↦ rw x sent
            | inr x ↦ elim (Bool-cases (system.notified (submit_notify payload fd ∷ s.log))) [
              | inr y ↦ rw (x, y) sent
              | inl y ↦
                  rw (x, y)
                    (take_result_keeps (async_result (go.handle (submit_notify payload fd ∷ s.log)))
                      (called (submit_notify payload fd) s) _ refl refl sent refl)
            ]
          ]

      -- What the calls on pipes keep too is kept by send_request_async_callback.
      pub send_request_async_callback_keeps :
          (payload : Payload) (s : Ffi)
          → ((c : Call) (t : Ffi) → is_descriptor c ≡ true → P t → P (called c t))
          → P s
          → P (send_request_async_callback go codec system payload s).1
      unfolding send_request_async_callback closing is_descriptor
      send_request_async_callback_keeps payload s at_descriptor p = elim (Result-cases go.load) [
        | inr (e, q) ↦ rw q p
        | inl (a, q) ↦
            let waited =
              wait_for_result_keeps (system.pipe s.log).1 payload
                (called (open_pipe (system.pipe s.log).0 (system.pipe s.log).1) s)
                (at_descriptor (open_pipe (system.pipe s.log).0 (system.pipe s.log).1) s refl p) in
            rw q (at_descriptor (close_fd _) _ refl (at_descriptor (close_fd _) _ refl waited))
      ]

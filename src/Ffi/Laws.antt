-- ===== src/Ffi/Laws.antt =====
-- What holds of the calls of cycletls/_ffi.py whichever way a request ends.
use cycletls_python.Base.{
  ℕ, Bool, true, false, List, [], ◌∷◌, Option, none, some, ◌≡◌, refl, inl, inr,
}
use cycletls_python.Errors.{Result-cases}
use cycletls_python.Exec.{on_keeps, lifts_keep, bind_keeps}
use cycletls_python.Values.{Payload}
use cycletls_python.Library.{
  submit, check, submit_notify, async_result, ws_connect, sse_connect, ws_send, ws_receive,
  ws_close, sse_next_event, sse_close, open_pipe, close_fd, Go, Call, get_request, send_batch,
  free_string, allocates, is_free,
}
use cycletls_python.Ffi.{
  Ffi, Codec, wrap, responses_of, raw_bytes, has_symbol, probe_zerocopy, has_zerocopy_support,
  take_bytes, take_reply, send_request_by, send_request, take_replies, send_batch_by,
  send_batch_request,
}

abbrev pub called : Call → Ffi → Ffi
called c s = record s { log = c ∷ s.log }

-- The calls on the ends of a pipe.
unfoldable pub is_descriptor : Call → Bool
is_descriptor (open_pipe r w) = true
is_descriptor (close_fd f) = true
is_descriptor c = false

pub descriptor-plain :
    (c : Call) → is_descriptor c ≡ true → (allocates c ≡ false) × (is_free c ≡ false)
unfolding is_descriptor allocates is_free
descriptor-plain (open_pipe r w) h = (refl, refl)
descriptor-plain (close_fd f) h = (refl, refl)
descriptor-plain (get_request z p) h = cc
descriptor-plain (send_batch z ps) h = cc
descriptor-plain (submit z p) h = cc
descriptor-plain (check z n) h = cc
descriptor-plain (submit_notify p n) h = cc
descriptor-plain (async_result n) h = cc
descriptor-plain (ws_connect d) h = cc
descriptor-plain (sse_connect d) h = cc
descriptor-plain (ws_send n k bs m) h = cc
descriptor-plain (ws_receive n) h = cc
descriptor-plain (ws_close n) h = cc
descriptor-plain (sse_next_event n) h = cc
descriptor-plain (sse_close n) h = cc
descriptor-plain (free_string n) h = cc

-- A property of the module that each call keeps: one that hands out no string, one that hands out
-- NULL, and one that hands out a string which is freed at once.
pub record IsKept {ℓ} (go : Go) (P : Ffi → Type ℓ) : Type ℓ where
  pub at_plain :
      (c : Call) (s : Ffi)
      → allocates c ≡ false
      → is_free c ≡ false
      → is_descriptor c ≡ false
      → P s
      → P (called c s)
  pub at_null :
      (c : Call) (s : Ffi)
      → allocates c ≡ true
      → is_free c ≡ false
      → go.pointer (c ∷ s.log) ≡ none
      → P s
      → P (called c s)
  pub at_string :
      (c : Call) (s : Ffi) (p : ℕ)
      → allocates c ≡ true
      → go.pointer (c ∷ s.log) ≡ some p
      → P s
      → P (called (free_string p) (called c s))
  pub at_zerocopy : (s : Ffi) (b : Bool) → P s → P (record s { use_zerocopy = some b })
  pub at_async : (s : Ffi) (b : Bool) → P s → P (record s { use_async_zerocopy = some b })

module _ {ℓ} (go : Go) (P : Ffi → Type ℓ) (k : IsKept go P) where
  probe_zerocopy_keeps : (s : Ffi) → P s → P (probe_zerocopy go s).1
  unfolding probe_zerocopy has_symbol
  probe_zerocopy_keeps s p = elim (Result-cases go.load) [
    | inr (e, q) ↦ rw q p
    | inl (a, q) ↦ rw q (k.at_zerocopy s (go.exports "getRequestZeroCopy") p)
  ]

  zerocopy_keeps : (s : Ffi) → P s → P (has_zerocopy_support go s).1
  unfolding has_zerocopy_support
  zerocopy_keeps s p =
      on_keeps P s.use_zerocopy (probe_zerocopy go s) _ (probe_zerocopy_keeps s p) (λ b e. p)

  module _ (codec : Codec) where
    take_reply_keeps :
        (z : Bool) (c : Call) (s : Ffi) (o : Option ℕ)
        → allocates c ≡ true
        → is_free c ≡ false
        → P s
        → go.pointer (c ∷ s.log) ≡ o
        → P (take_reply go codec z o (called c s)).1
    unfolding take_reply take_bytes
    take_reply_keeps z c s none a f p e = k.at_null c s a f e p
    take_reply_keeps z c s (some q) a f p e =
        lifts_keep P (raw_bytes codec z (go.bytes (c ∷ s.log) q)) (λ raw. wrap (codec.unpackb raw))
          _ (k.at_string c s q a e p)

    take_replies_keeps :
        (z : Bool) (c : Call) (s : Ffi) (o : Option ℕ)
        → allocates c ≡ true
        → is_free c ≡ false
        → P s
        → go.pointer (c ∷ s.log) ≡ o
        → P (take_replies go codec z o (called c s)).1
    unfolding take_replies take_bytes
    take_replies_keeps z c s none a f p e = k.at_null c s a f e p
    take_replies_keeps z c s (some q) a f p e =
        lifts_keep P (raw_bytes codec z (go.bytes (c ∷ s.log) q))
          (λ raw. responses_of (wrap (codec.unpackb_batch raw))) _ (k.at_string c s q a e p)

    send_request_by_keeps :
        (z : Bool) (payload : Payload) (s : Ffi) → P s → P (send_request_by go codec z payload s).1
    unfolding send_request_by allocates is_free
    send_request_by_keeps z payload s p = elim (Result-cases go.load) [
      | inr (e, q) ↦ rw q p
      | inl (a, q) ↦ rw q (take_reply_keeps z (get_request z payload) s _ refl refl p refl)
    ]

    pub send_request_keeps :
        (payload : Payload) (s : Ffi) → P s → P (send_request go codec payload s).1
    unfolding send_request
    send_request_keeps payload s p =
        bind_keeps P (has_zerocopy_support go) (λ z. send_request_by go codec z payload) s
          (zerocopy_keeps s p) (λ z t. send_request_by_keeps z payload t)

    send_batch_by_keeps :
        (z : Bool) (ps : List Payload) (s : Ffi) → P s → P (send_batch_by go codec z ps s).1
    unfolding send_batch_by allocates is_free
    send_batch_by_keeps z ps s p = elim (Result-cases go.load) [
      | inr (e, q) ↦ rw q p
      | inl (a, q) ↦ rw q (take_replies_keeps z (send_batch z ps) s _ refl refl p refl)
    ]

    pub send_batch_request_keeps :
        (ps : List Payload) (s : Ffi) → P s → P (send_batch_request go codec ps s).1
    unfolding send_batch_request
    send_batch_request_keeps [] s p = p
    send_batch_request_keeps (x ∷ xs) s p =
        bind_keeps P (has_zerocopy_support go) (λ z. send_batch_by go codec z (x ∷ xs)) s
          (zerocopy_keeps s p) (λ z t. send_batch_by_keeps z (x ∷ xs) t)

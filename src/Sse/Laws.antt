-- ===== src/Sse/Laws.antt =====
-- What every operation of `SSEConnection` of cycletls/sse.py keeps.
use cycletls_python.Base.{
  ℕ, true, false, List, ◌∷◌, Option, none, some, ◌≡◌, refl, eqb, Bool-cases, or_default, inl, inr,
  inl, inr,
}
use cycletls_python.Errors.{Result, Result-cases, Result-cases, ok}
use cycletls_python.Exec.{if_keeps, on_keeps}
use cycletls_python.Library.{Go, Call, sse_connect, sse_next_event, sse_close, free_string}
use cycletls_python.Sse.{
  SseConnection, SseEvent, EventReply, options, connect, open_stream, close, release, next_event,
  read_event, take_pointer, take_reply, track, event_of,
}

-- The states that the operations leave.
abbrev pub called : Call → SseConnection → SseConnection
called c s = record s { log = c ∷ s.log }

abbrev pub opened : ℕ → SseConnection → SseConnection
opened h s = record s { handle = some h; connected = true }

abbrev pub ended : SseConnection → SseConnection
ended s = record s { connected = false }

module _ {ℓ} (go : Go) (P : SseConnection → Type ℓ) (s : SseConnection) where
  open_stream_keeps :
      P s
      → P (called (sse_connect (options s)) s)
      → ((h : ℕ) → eqb h 0 ≡ false → P (opened h (called (sse_connect (options s)) s)))
      → P (open_stream go s).1
  unfolding open_stream
  open_stream_keeps kept failed done = elim (Result-cases go.load) [
    | inr (e, p) ↦ rw p kept
    | inl (a, p) ↦ elim (Bool-cases (go.exports "sseConnect")) [
      | inr q ↦ rw (p, q) kept
      | inl q ↦ elim (Bool-cases (eqb (go.handle (sse_connect (options s) ∷ s.log)) 0)) [
        | inl t ↦ rw (p, q, t) failed
        | inr t ↦ rw (p, q, t) (done _ t)
      ]
    ]
  ]

  pub connect_keeps :
      P s
      → P (called (sse_connect (options s)) s)
      → ((h : ℕ) → eqb h 0 ≡ false → P (opened h (called (sse_connect (options s)) s)))
      → P (connect go s).1
  unfolding connect
  connect_keeps kept failed done =
      if_keeps P s.connected (ok tt, s) (open_stream go s) kept (open_stream_keeps kept failed done)

  release_keeps :
      (h : ℕ)
      → P s
      → P (record s { handle = none; connected = false; log = sse_close h ∷ s.log })
      → P (record s { handle = none; connected = false })
      → P (release go h s).1
  unfolding release
  release_keeps h kept closed dropped = elim (Result-cases go.load) [
    | inr (e, p) ↦ rw p kept
    | inl (a, p) ↦ elim (Bool-cases (go.exports "sseClose")) [
      | inr q ↦ rw (p, q) dropped
      | inl q ↦ rw (p, q) closed
    ]
  ]

  pub close_keeps :
      P s
      → ((h : ℕ)
          → s.handle ≡ some h
          → P (record s { handle = none; connected = false; log = sse_close h ∷ s.log }))
      → P (record s { handle = none; connected = false })
      → P (close go s).1
  unfolding close
  close_keeps kept closed dropped =
      on_keeps P s.handle (ok tt, s) _ kept
        (λ h e. if_keeps P s.connected _ _ (release_keeps h kept (closed h e) dropped) kept)

-- A property that the end of the stream and the tracking of an event keep.
module _ {ℓ} (go : Go) (unpack : List ℕ → Result EventReply) (P : SseConnection → Type ℓ)
    (at_end : (x : SseConnection) → P x → P (ended x))
    (at_event : (e : SseEvent) (x : SseConnection) → P x → P (track e x)) where
  take_reply_keeps : (r : EventReply) (s : SseConnection) → P s → P (take_reply go unpack r s).1
  unfolding take_reply
  take_reply_keeps r s p =
      if_keeps P (or_default r.eof false) _ _ (at_end s p)
        (on_keeps P r.error_text _ _ (at_event (event_of r) s p) (λ m e. p))

  -- A pointer that is not NULL is freed before anything else.
  take_pointer_keeps :
      (o : Option ℕ) (s : SseConnection)
      → (o ≡ none → P s)
      → ((p : ℕ) → o ≡ some p → P (called (free_string p) s))
      → P (take_pointer go unpack o s).1
  unfolding take_pointer
  take_pointer_keeps none s n f = at_end s (n refl)
  take_pointer_keeps (some p) s n f = elim (Result-cases (unpack (go.bytes s.log p))) [
    | inl (r, e) ↦ rw e (take_reply_keeps r _ (f p refl))
    | inr (x, e) ↦ rw e (f p refl)
  ]

  read_event_keeps :
      (h : ℕ) (s : SseConnection)
      → P s
      → (go.pointer (sse_next_event h ∷ s.log) ≡ none → P (called (sse_next_event h) s))
      → ((p : ℕ)
          → go.pointer (sse_next_event h ∷ s.log) ≡ some p
          → P (called (free_string p) (called (sse_next_event h) s)))
      → P (read_event go unpack h s).1
  unfolding read_event
  read_event_keeps h s kept n f = elim (Result-cases go.load) [
    | inr (e, p) ↦ rw p kept
    | inl (a, p) ↦ elim (Bool-cases (go.exports "sseNextEvent")) [
      | inr q ↦ rw (p, q) kept
      | inl q ↦ rw (p, q) (take_pointer_keeps _ (called (sse_next_event h) s) n f)
    ]
  ]

  pub next_event_keeps :
      (s : SseConnection)
      → P s
      → ((h : ℕ)
          → s.handle ≡ some h
          → go.pointer (sse_next_event h ∷ s.log) ≡ none
          → P (called (sse_next_event h) s))
      → ((h p : ℕ)
          → s.handle ≡ some h
          → go.pointer (sse_next_event h ∷ s.log) ≡ some p
          → P (called (free_string p) (called (sse_next_event h) s)))
      → P (next_event go unpack s).1
  unfolding next_event
  next_event_keeps s kept n f =
      on_keeps P s.handle _ _ kept
        (λ h e. if_keeps P s.connected _ _ (read_event_keeps h s kept (n h e) (λ p. f h p e)) kept)

-- ===== src/Sse/Tracking.antt =====
-- What `SSEConnection` of cycletls/sse.py keeps of the events of a stream, and what is left when
-- the stream has ended.
use cycletls_python.Base.{
  if_false, ℕ, zero, suc, String, false, List, [], ◌∷◌, Option, none, some, ◌≡◌, refl, ap, ◌∙◌,
  if◌then◌else◌, Bool-cases, or_default, inl, inr, ◌==◌,
}
use cycletls_python.Dict.{lookup}
use cycletls_python.Dict.Laws.{lookup-set_self}
use cycletls_python.Errors.{Result, ok, err, Result-cases}
use cycletls_python.Exec.{if_case, on_case}
use cycletls_python.Values.{str}
use cycletls_python.Library.{Go, sse_next_event, free_string}
use cycletls_python.Sse.{
  SseConnection, SseEvent, EventReply, headers_dict, close, next_event, read_event, take_pointer,
  take_reply, track, non_empty,
}
use cycletls_python.Sse.Laws.{called, next_event_keeps}

-- The last identifier of a list of events that is not empty, else the one before them.
abbrev pub last_id : List SseEvent → Option String → Option String
last_id [] before = before
last_id (e ∷ es) before = last_id es (if non_empty e.id then e.id else before)

-- What one call to next_event() does to the identifier.
abbrev id_after : Result (Option SseEvent) → Option String → Option String
id_after (ok (some e)) before = last_id (e ∷ []) before
id_after (ok none) before = before
id_after (err e) before = before

-- The outcome of a call: its identifier, and that a stream without an event has ended.
abbrev Tracks : SseConnection → Result (Option SseEvent) × SseConnection → Type 0
Tracks s r =
    (r.1.last_event_id ≡ id_after r.0 s.last_event_id) × (r.0 ≡ ok none → r.1.connected ≡ false)

header_id :
    (t : SseConnection) (i : String)
    → t.last_event_id ≡ some i
    → (i == "") ≡ false
    → lookup "Last-Event-ID" (headers_dict t) ≡ some (str i)
unfolding headers_dict
header_id t i e f = rw (e, f) (lookup-set_self "Last-Event-ID" (str i) _)

module _ (go : Go) (unpack : List ℕ → Result EventReply) where
  take_reply_lem : (r : EventReply) (s : SseConnection) → Tracks s (take_reply go unpack r s)
  unfolding take_reply track
  take_reply_lem r s =
      if_case (Tracks s) (or_default r.eof false) _ _ (refl, λ e. refl)
        (on_case (Tracks s) r.error_text _ _ (refl, λ e. cc) (λ m e. (refl, λ e'. cc)))

  take_pointer_lem : (o : Option ℕ) (s : SseConnection) → Tracks s (take_pointer go unpack o s)
  unfolding take_pointer
  take_pointer_lem none s = (refl, λ e. refl)
  take_pointer_lem (some p) s = elim (Result-cases (unpack (go.bytes s.log p))) [
    | inl (r, e) ↦ rw e (take_reply_lem r (called (free_string p) s))
    | inr (x, e) ↦ rw e (refl, λ e. cc)
  ]

  read_event_lem : (h : ℕ) (s : SseConnection) → Tracks s (read_event go unpack h s)
  unfolding read_event
  read_event_lem h s = elim (Result-cases go.load) [
    | inr (e, p) ↦ rw p (refl, λ e. cc)
    | inl (a, p) ↦ elim (Bool-cases (go.exports "sseNextEvent")) [
      | inr q ↦ rw (p, q) (refl, λ e. cc)
      | inl q ↦ rw (p, q) (take_pointer_lem _ (called (sse_next_event h) s))
    ]
  ]

  next_event_lem : (s : SseConnection) → Tracks s (next_event go unpack s)
  unfolding next_event
  next_event_lem s =
      on_case (Tracks s) s.handle _ _ (refl, λ e. cc)
        (λ h e. if_case (Tracks s) s.connected _ _ (read_event_lem h s) (refl, λ e. cc))

  -- what the loop makes of one call, with what the rest of it yields
  abbrev yielded :
      Result (Option SseEvent)
      → SseConnection
      → List SseEvent × Result (Unit {0}) × SseConnection
      → List SseEvent × Result (Unit {0}) × SseConnection
  yielded (err e) t rest = ([], err e, t)
  yielded (ok none) t rest = ([], ok tt, t)
  yielded (ok (some e)) t rest = (e ∷ rest.0, rest.1, rest.2)

  -- __iter__, up to `n` reads: the events that it yields, how it stops, and the connection
  unfoldable pub iterate : ℕ → SseConnection → List SseEvent × Result (Unit {0}) × SseConnection
  iterate zero s = ([], ok tt, s)
  iterate (suc n) s =
      let rest = iterate n (next_event go unpack s).1 in
      if s.connected
      then yielded (next_event go unpack s).0 (next_event go unpack s).1 rest
      else ([], ok tt, s)

  yielded_id :
      (r : Result (Option SseEvent)) (s t : SseConnection)
      (rest : List SseEvent × Result (Unit {0}) × SseConnection)
      → t.last_event_id ≡ id_after r s.last_event_id
      → rest.2.last_event_id ≡ last_id rest.0 t.last_event_id
      → (yielded r t rest).2.last_event_id ≡ last_id (yielded r t rest).0 s.last_event_id
  yielded_id (err e) s t rest p q = p
  yielded_id (ok none) s t rest p q = p
  yielded_id (ok (some e)) s t rest p q = q ∙ ap (last_id rest.0) p

  iterate_id :
      (n : ℕ) (s : SseConnection)
      → (iterate n s).2.last_event_id ≡ last_id (iterate n s).0 s.last_event_id
  unfolding iterate
  iterate_id zero s = refl
  iterate_id (suc n) s =
      if_case {A = List SseEvent × Result (Unit {0}) × SseConnection}
        (λ r. r.2.last_event_id ≡ last_id r.0 s.last_event_id) s.connected _ _
        (yielded_id _ s _ _ (next_event_lem s).0 (iterate_id n _)) refl

  -- After an iteration the connection names the last event that had an identifier, and when it
  -- is not empty the next request carries it in its Last-Event-ID header.
  pub iterate_resumes :
      (n : ℕ) (s : SseConnection) (i : String)
      → last_id (iterate n s).0 s.last_event_id ≡ some i
      → (i == "") ≡ false
      → ((iterate n s).2.last_event_id ≡ some i)
        × (lookup "Last-Event-ID" (headers_dict (iterate n s).2) ≡ some (str i))
  iterate_resumes n s i e f =
      (iterate_id n s ∙ e, header_id (iterate n s).2 i (iterate_id n s ∙ e) f)

  -- A stream that has ended keeps its handle, and from then on close() makes no call: the handle
  -- of the Go side is not closed.
  pub ended_keeps_handle :
      (s : SseConnection)
      → (next_event go unpack s).0 ≡ ok none
      → let t = (next_event go unpack s).1 in (t.handle ≡ s.handle) × (close go t ≡ (ok tt, t))
  unfolding close track
  ended_keeps_handle s e = (
    next_event_keeps go unpack (λ t. t.handle ≡ s.handle) (λ x p. p) (λ ev x p. p) s refl
        (λ h e n. refl) (λ h p e n. refl),
    not_connected (next_event go unpack s).1 ((next_event_lem s).1 e),
  )
    where
      not_connected : (t : SseConnection) → t.connected ≡ false → close go t ≡ (ok tt, t)
      not_connected t c =
          on_case (λ r. r ≡ (ok tt, t)) t.handle _ _ refl
            (λ h e. if_false t.connected _ (ok tt, t) c)

-- ===== src/Batcher/Flush.antt =====
-- _flush: every caller of a batch is answered, each with the result at its own place.
use cycletls_python.Base.{
  ℕ, suc, ◌<◌, ◌≤◌, Bool, ◌≡◌, ◌∙◌, ◌≢◌, refl, ap, true, false, List, [], ◌∷◌, map, length, eqb,
  if◌then◌else◌, arith, Bool-cases, inl, inr, any, ◌||◌, ◌⊎◌,
}
use cycletls_python.Errors.{Error, Result, ok, err}
use cycletls_python.Values.{Payload}
use cycletls_python.Batcher.{
  PendingRequest, Future, result, failed, Futures, done, complete, fail_all, distribute, answer,
  flush, count_error,
}

-- A pending request in `l` has the future `i`.
abbrev pub waits : ℕ → List PendingRequest → Bool
waits i l = any (λ p. eqb p.future i) l

-- The futures of `l` are new in this order, from `lo` on.
abbrev pub Increasing : ℕ → List PendingRequest → Type 0
Increasing lo [] = Unit {0}
Increasing lo (p ∷ l) = (lo ≤ p.future) × Increasing (suc p.future) l

pub not-waits_below :
    (lo j : ℕ) (l : List PendingRequest) → Increasing lo l → j < lo → waits j l ≡ false
not-waits_below lo j [] h lt = refl
not-waits_below lo j (p ∷ l) h lt =
    ground (arith, not-waits_below (suc p.future) j l h.1 (omega (arith, h.0)))

module _ {R : Type 0} where
  pub done-complete :
      (i j : ℕ) (v : Future R) (f : Futures R)
      → done v ≡ true
      → done (complete i v f j) ≡ (eqb i j || done (f j))
  unfolding complete
  done-complete i j v f h = ground arith

  done-fail_all :
      (e : Error) (l : List PendingRequest) (f : Futures R) (j : ℕ)
      → done (fail_all e l f j) ≡ (waits j l || done (f j))
  unfolding fail_all
  done-fail_all e [] f j = refl
  done-fail_all e (p ∷ l) f j = ground (
    arith,
    done-fail_all e l (complete p.future (failed e) f) j,
    done-complete p.future j (failed e) f failed_done,
  )
    where
      failed_done : done {R = R} (failed e) ≡ true
      failed_done = unfold done in refl

  done-distribute :
      (l : List PendingRequest) (rs : List R) (f : Futures R) (j : ℕ)
      → length rs ≡ length l
      → done (distribute l rs f j) ≡ (waits j l || done (f j))
  unfolding distribute
  done-distribute [] rs f j h = refl
  done-distribute (p ∷ l) [] f j h = absurd (omega arith)
  done-distribute (p ∷ l) (r ∷ rs) f j h = ground (
    arith,
    done-distribute l rs (complete p.future (result r) f) j (omega arith),
    done-complete p.future j (result r) f result_done,
  )
    where
      result_done : done {R = R} (result r) ≡ true
      result_done = unfold done in refl

  -- After the answer the futures of the batch are done, and no other one has changed its state.
  pub done-answer :
      (batch : List PendingRequest) (r : Result (List R)) (f : Futures R) (j : ℕ)
      → done (answer batch r f j) ≡ (waits j batch || done (f j))
  unfolding answer
  done-answer batch (err e) f j = done-fail_all e batch f j
  done-answer batch (ok rs) f j = elim (Bool-cases (eqb (length rs) (length batch))) [
    | inl e ↦ rw e (done-distribute batch rs f j (ground arith))
    | inr e ↦ rw e (done-fail_all (count_error (length rs) (length batch)) batch f j)
  ]

  -- A future that was done keeps what it had; any other one gets `v`.
  abbrev pub given : Future R → Future R → Future R
  given old v = if done old then old else v

  complete_self : (i : ℕ) (v : Future R) (f : Futures R) → complete i v f i ≡ given (f i) v
  unfolding complete
  complete_self i v f = ground arith

  complete_other : (i j : ℕ) (v : Future R) (f : Futures R) → suc i ≤ j → complete i v f j ≡ f j
  unfolding complete
  complete_other i j v f h = ground arith

  fail_all-other :
      (e : Error) (l : List PendingRequest) (f : Futures R) (j : ℕ)
      → waits j l ≡ false
      → fail_all e l f j ≡ f j
  unfolding fail_all complete
  fail_all-other e [] f j h = refl
  fail_all-other e (p ∷ l) f j h =
      ground (arith, fail_all-other e l (complete p.future (failed e) f) j)

  distribute-other :
      (l : List PendingRequest) (rs : List R) (f : Futures R) (j : ℕ)
      → waits j l ≡ false
      → distribute l rs f j ≡ f j
  unfolding distribute complete
  distribute-other [] rs f j h = refl
  distribute-other (p ∷ l) [] f j h = refl
  distribute-other (p ∷ l) (r ∷ rs) f j h =
      ground (arith, distribute-other l rs (complete p.future (result r) f) j)

  -- Each request of a batch has the result at its own place.
  abbrev pub Placed : Futures R → Futures R → List PendingRequest → List R → Type 0
  Placed before after [] rs = Unit {0}
  Placed before after (p ∷ l) [] = ⊥
  Placed before after (p ∷ l) (r ∷ rs) =
      (after p.future ≡ given (before p.future) (result r)) × Placed before after l rs

  -- Every request of a batch has the same exception.
  abbrev pub Failed : Futures R → Futures R → Error → List PendingRequest → Type 0
  Failed before after e [] = Unit {0}
  Failed before after e (p ∷ l) =
      (after p.future ≡ given (before p.future) (failed e)) × Failed before after e l

  Placed-before :
      (f g after : Futures R) (lo : ℕ) (l : List PendingRequest) (rs : List R)
      → Increasing lo l
      → ((j : ℕ) → lo ≤ j → f j ≡ g j)
      → Placed f after l rs
      → Placed g after l rs
  Placed-before f g after lo [] rs i same h = tt
  Placed-before f g after lo (p ∷ l) [] i same h = h
  Placed-before f g after lo (p ∷ l) (r ∷ rs) i same h = (
    h.0 ∙ ap (λ o. given o (result r)) (same p.future i.0),
    Placed-before f g after (suc p.future) l rs i.1 (λ j le. same j (omega (arith, i.0))) h.1,
  )

  distribute-Placed :
      (lo : ℕ) (l : List PendingRequest) (rs : List R) (f : Futures R)
      → Increasing lo l
      → length rs ≡ length l
      → Placed f (distribute l rs f) l rs
  unfolding distribute
  distribute-Placed lo [] rs f i n = tt
  distribute-Placed lo (p ∷ l) [] f i n = absurd (omega arith)
  distribute-Placed lo (p ∷ l) (r ∷ rs) f i n =
      let g = complete p.future (result r) f in
      (
        distribute-other l rs g p.future
              (not-waits_below (suc p.future) p.future l i.1 (omega arith))
            ∙ complete_self p.future (result r) f,
        Placed-before g f (distribute l rs g) (suc p.future) l rs i.1
            (λ j le. complete_other p.future j (result r) f le)
            (distribute-Placed (suc p.future) l rs g i.1 (omega arith)),
      )

  Failed-before :
      (f g after : Futures R) (e : Error) (lo : ℕ) (l : List PendingRequest)
      → Increasing lo l
      → ((j : ℕ) → lo ≤ j → f j ≡ g j)
      → Failed f after e l
      → Failed g after e l
  Failed-before f g after e lo [] i same h = tt
  Failed-before f g after e lo (p ∷ l) i same h = (
    h.0 ∙ ap (λ o. given o (failed e)) (same p.future i.0),
    Failed-before f g after e (suc p.future) l i.1 (λ j le. same j (omega (arith, i.0))) h.1,
  )

  fail_all-Failed :
      (e : Error) (lo : ℕ) (l : List PendingRequest) (f : Futures R)
      → Increasing lo l
      → Failed f (fail_all e l f) e l
  unfolding fail_all
  fail_all-Failed e lo [] f i = tt
  fail_all-Failed e lo (p ∷ l) f i =
      let g = complete p.future (failed e) f in
      (
        fail_all-other e l g p.future (not-waits_below (suc p.future) p.future l i.1 (omega arith))
            ∙ complete_self p.future (failed e) f,
        Failed-before g f (fail_all e l g) e (suc p.future) l i.1
            (λ j le. complete_other p.future j (failed e) f le)
            (fail_all-Failed e (suc p.future) l g i.1),
      )

  answer-other :
      (batch : List PendingRequest) (r : Result (List R)) (f : Futures R) (j : ℕ)
      → waits j batch ≡ false
      → answer batch r f j ≡ f j
  unfolding answer
  answer-other batch (err e) f j h = fail_all-other e batch f j h
  answer-other batch (ok rs) f j h = elim (Bool-cases (eqb (length rs) (length batch))) [
    | inl e ↦ rw e (distribute-other batch rs f j h)
    | inr e ↦ rw e (fail_all-other (count_error (length rs) (length batch)) batch f j h)
  ]

  -- What a batch promises its callers, by what batch_fn gave.
  abbrev pub Answered : Futures R → Futures R → List PendingRequest → Result (List R) → Type 0
  Answered before after batch (err e) = Failed before after e batch
  Answered before after batch (ok rs) =
      ((length rs ≡ length batch) × Placed before after batch rs)
      ⊎ ((length rs ≢ length batch)
          × Failed before after (count_error (length rs) (length batch)) batch)

  answer-Answered :
      (lo : ℕ) (batch : List PendingRequest) (r : Result (List R)) (f : Futures R)
      → Increasing lo batch
      → Answered f (answer batch r f) batch r
  unfolding answer
  answer-Answered lo batch (err e) f i = fail_all-Failed e lo batch f i
  answer-Answered lo batch (ok rs) f i = elim (Bool-cases (eqb (length rs) (length batch))) [
    | inl e ↦ inl (ground arith, rw e (distribute-Placed lo batch rs f i (ground arith)))
    | inr e ↦ inr (
      λ h. ground arith,
      rw e (fail_all-Failed (count_error (length rs) (length batch)) lo batch f i),
    )
  ]

module _ {R : Type 0} (batch_fn : List Payload → Result (List R)) where
  -- A flush gives each request the result at its own place, or every request the error of
  -- batch_fn, or that the number of results is wrong. No other future changes.
  pub flush-Answered :
      (lo : ℕ) (batch : List PendingRequest) (f : Futures R)
      → Increasing lo batch
      → Answered f (flush batch_fn batch f) batch (batch_fn (map (λ p. p.payload) batch))
        × ((j : ℕ) → waits j batch ≡ false → flush batch_fn batch f j ≡ f j)
  unfolding flush
  flush-Answered lo batch f i = (
    answer-Answered lo batch (batch_fn (map (λ p. p.payload) batch)) f i,
    λ j h. answer-other batch (batch_fn (map (λ p. p.payload) batch)) f j h,
  )

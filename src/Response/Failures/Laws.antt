-- ===== src/Response/Failures/Laws.antt =====
-- What `_raise_for_error_response` of cycletls/schema.py raises, over every branch of it.
use cycletls_python.Base.{
  ℕ, String, Bool, true, false, ◌||◌, ◌≡◌, refl, sym, some, ◌⊎◌, inl, inr, ◌↔◌, any, eqb, [], ◌∷◌,
  if◌then◌else◌, arith,
}
use cycletls_python.Errors.{
  Class, Error, error, base, cycletls_error, request_exception, connection_error, timeout, Result,
  ok, err, ◌>>◌, IsSubclass, self, step, Raises, IsErr,
}
use cycletls_python.Text.{Casing, lower, contains, join}
use cycletls_python.Response.{Reply, status_of, body_of}
use cycletls_python.Response.Failures.{
  matches_any, dns_patterns, timeout_patterns, fails, is_success, is_go_status, is_error_response,
  raise_error, raise_for_error_response,
}

fails-Raises {ℓ} :
    (P : Error → Type ℓ) (test : Bool) (class : Class) (prefix msg : String)
    (rest : Result (Unit {0}))
    → P (error class (join (prefix ∷ msg ∷ [])))
    → Raises P rest
    → Raises P (fails test class prefix msg >> rest)
unfolding fails
fails-Raises P true class prefix msg rest p q = p
fails-Raises P false class prefix msg rest p q = q

fails-IsErr :
    (test : Bool) (class : Class) (prefix msg : String) (rest : Result (Unit {0}))
    → IsErr rest
    → IsErr (fails test class prefix msg >> rest)
unfolding fails
fails-IsErr true class prefix msg rest e = (_, refl)
fails-IsErr false class prefix msg rest e = e

true_check :
    (class : Class) (prefix msg : String) (rest : Result (Unit {0}))
    → IsErr (fails true class prefix msg >> rest)
unfolding fails
true_check class prefix msg rest = (_, refl)

last_IsErr : (class : Class) (prefix msg : String) → IsErr (fails true class prefix msg)
unfolding fails
last_IsErr class prefix msg = (_, refl)

-- A CycleTLSError of some kind, whose message ends with `msg`.
abbrev pub IsTransport : String → Error → Type 0
IsTransport msg e =
    IsSubclass e.class cycletls_error × ((prefix : String) × (e.message ≡ join (prefix ∷ msg ∷ [])))

-- One check that raises a subclass of RequestException.
check :
    (test : Bool) (class : Class) (prefix msg : String) (rest : Result (Unit {0}))
    → base class ≡ some request_exception
    → Raises (IsTransport msg) rest
    → Raises (IsTransport msg) (fails test class prefix msg >> rest)
unfolding base
check test class prefix msg rest b q =
    fails-Raises (IsTransport msg) test class prefix msg rest
      (step b (step refl self), (prefix, refl)) q

last_check :
    (test : Bool) (msg : String)
    → Raises (IsTransport msg) (fails test cycletls_error "Request failed: " msg)
unfolding fails
last_check true msg = (self, (_, refl))
last_check false msg = tt

raise_error-IsTransport :
    (status : ℕ) (msg low : String) → Raises (IsTransport msg) (raise_error status msg low)
unfolding raise_error base
raise_error-IsTransport status msg low = search (check, last_check) depth 30

unfoldable is_timeout : Class → Bool
is_timeout timeout = true
is_timeout c = false

abbrev NotTimeout : Error → Type 0
NotTimeout e = is_timeout e.class ≡ false

check_other :
    (test : Bool) (class : Class) (prefix msg : String) (rest : Result (Unit {0}))
    → is_timeout class ≡ false
    → Raises NotTimeout rest
    → Raises NotTimeout (fails test class prefix msg >> rest)
check_other test class prefix msg rest b q = fails-Raises NotTimeout test class prefix msg rest b q

last_other :
    (test : Bool) (msg : String)
    → Raises NotTimeout (fails test cycletls_error "Request failed: " msg)
unfolding fails is_timeout
last_other true msg = refl
last_other false msg = tt

-- An error response past the first check.
abbrev timed : Bool → Result (Unit {0}) → String → Result (Unit {0})
timed t rest msg = fails t timeout "Request timed out: " msg >> rest

clash :
    (rest : Result (Unit {0})) (e : Error)
    → Raises NotTimeout rest
    → rest ≡ err e
    → is_timeout e.class ≡ true
    → ⊥
clash (ok x) e r p t = cc
clash (err f) e r p t = cc

timed_iff :
    (d t : Bool) (msg : String) (rest : Result (Unit {0}))
    → Raises NotTimeout rest
    → ((fails d connection_error "DNS lookup failed: " msg >> timed t rest msg)
        ≡ err (error timeout (join ("Request timed out: " ∷ msg ∷ []))))
      ↔ ((d ≡ false) × (t ≡ true))
unfolding fails is_timeout
timed_iff true t msg rest r = (λ p. cc, λ h. cc)
timed_iff false true msg rest r = (λ p. (refl, refl), λ h. refl)
timed_iff false false msg rest r = (λ p. absurd (clash rest _ r p refl), λ h. cc)

raise_error-timeout_iff :
    (status : ℕ) (msg low : String)
    → (raise_error status msg low ≡ err (error timeout (join ("Request timed out: " ∷ msg ∷ []))))
      ↔ (((eqb status 421 || matches_any low dns_patterns) ≡ false)
          × ((eqb status 408 || matches_any low timeout_patterns) ≡ true))
unfolding raise_error is_timeout
raise_error-timeout_iff status msg low =
    timed_iff _ _ msg _ (search (check_other, last_other) depth 30)

-- A time-out is raised exactly for a marked reply outside 200 to 399 that shows no sign of a DNS
-- failure and has the status 408 or a time-out pattern.
pub timeout_iff :
    ⦃c : Casing⦄ (reply : Reply)
    → is_success (status_of reply) ≡ false
    → is_error_response (status_of reply) (body_of reply) (lower (body_of reply)) ≡ true
    → (raise_for_error_response reply
        ≡ err (error timeout (join ("Request timed out: " ∷ body_of reply ∷ []))))
      ↔ (((eqb (status_of reply) 421 || matches_any (lower (body_of reply)) dns_patterns) ≡ false)
          × ((eqb (status_of reply) 408 || matches_any (lower (body_of reply)) timeout_patterns)
              ≡ true))
unfolding raise_for_error_response
timeout_iff reply s m =
    rw (s, m) (raise_error-timeout_iff (status_of reply) (body_of reply) (lower (body_of reply)))

err_inj : {f e : Error} → ◌≡◌ {A = Result (Unit {0})} (err f) (err e) → f ≡ e
err_inj h = cc

past_guards :
    (s m : Bool) (r : Result (Unit {0})) (msg : String) (e : Error)
    → Raises (IsTransport msg) r
    → (if s then ok tt else if m then r else ok tt) ≡ err e
    → (s ≡ false) × (m ≡ true) × IsTransport msg e
past_guards true m r msg e t h = cc
past_guards false true (ok x) msg e t h = cc
past_guards false true (err f) msg e t h = (refl, refl, rw (sym (err_inj h)) t)
past_guards false false r msg e t h = cc

-- Every exception is raised for a marked reply outside 200 to 399, is a CycleTLSError, and ends
-- with the text of the Go side.
pub raised-IsTransport :
    ⦃c : Casing⦄ (reply : Reply) (e : Error)
    → raise_for_error_response reply ≡ err e
    → (is_success (status_of reply) ≡ false)
      × (is_error_response (status_of reply) (body_of reply) (lower (body_of reply)) ≡ true)
      × IsTransport (body_of reply) e
unfolding raise_for_error_response
raised-IsTransport reply e h =
    past_guards _ _ _ _ _ (raise_error-IsTransport (status_of reply) (body_of reply) _) h

raise_error_zero : (msg low : String) → IsErr (raise_error 0 msg low)
unfolding raise_error
raise_error_zero msg low = search (fails-IsErr, last_IsErr) depth 30

raise_error_408 : (msg low : String) → IsErr (raise_error 408 msg low)
unfolding raise_error
raise_error_408 msg low = search (fails-IsErr, true_check) depth 30

raise_error_502 : (msg low : String) → IsErr (raise_error 502 msg low)
unfolding raise_error
raise_error_502 msg low = search (fails-IsErr, true_check) depth 30

raise_error_421 : (msg low : String) → IsErr (raise_error 421 msg low)
unfolding raise_error
raise_error_421 msg low = search (fails-IsErr, true_check) depth 30

gateway_cases :
    (s : ℕ) → any (eqb s) (408 ∷ 421 ∷ 502 ∷ []) ≡ true → (s ≡ 408) ⊎ (s ≡ 421) ⊎ (s ≡ 502)
gateway_cases s h = ground arith

go_marked :
    (s : ℕ) (msg low : String)
    → is_go_status s ≡ true
    → contains msg "->" ≡ true
    → is_error_response s msg low ≡ true
unfolding is_error_response
go_marked s msg low g h = ground arith

marked_raises :
    ⦃c : Casing⦄ (reply : Reply) (s : ℕ)
    → status_of reply ≡ s
    → is_success s ≡ false
    → is_error_response s (body_of reply) (lower (body_of reply)) ≡ true
    → IsErr (raise_error s (body_of reply) (lower (body_of reply)))
    → IsErr (raise_for_error_response reply)
unfolding raise_for_error_response
marked_raises reply s p n m e = rw (p, n, m) e

-- A reply without a status, or with the status 0, always raises; so does one with the status
-- 408, 421 or 502 whose body has "->" in it, whatever wrote that body.
pub transport_raises :
    ⦃c : Casing⦄ (reply : Reply)
    → (status_of reply ≡ 0)
      ⊎ ((any (eqb (status_of reply)) (408 ∷ 421 ∷ 502 ∷ []) ≡ true)
          × (contains (body_of reply) "->" ≡ true))
    → IsErr (raise_for_error_response reply)
unfolding is_error_response
transport_raises reply (inl z) =
    marked_raises reply 0 z refl refl (raise_error_zero (body_of reply) _)
transport_raises reply (inr h) = elim (gateway_cases (status_of reply) h.0) [
  | inl p ↦
      marked_raises reply 408 p refl (go_marked 408 _ _ refl h.1)
        (raise_error_408 (body_of reply) _)
  | inr (inl p) ↦
      marked_raises reply 421 p refl (go_marked 421 _ _ refl h.1)
        (raise_error_421 (body_of reply) _)
  | inr (inr p) ↦
      marked_raises reply 502 p refl (go_marked 502 _ _ refl h.1)
        (raise_error_502 (body_of reply) _)
]

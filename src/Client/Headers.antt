-- ===== src/Client/Headers.antt =====
-- What `_prepare_request` of cycletls/api.py leaves of the headers dict of its caller.
use cycletls_python.Base.{
  String, Bool, false, [], ◌∷◌, Option, none, some, ◌≡◌, refl, sym, ap, ◌∙◌, ◌==◌, Bool-cases, inl,
  inr,
}
use cycletls_python.Dict.{Dict, lookup, set, remove}
use cycletls_python.Errors.{ok}
use cycletls_python.Exec.{on, if_case}
use cycletls_python.Text.{Casing, lower}
use cycletls_python.Text.Pattern.{Digits}
use cycletls_python.Values.{Atom, str, Value, atom, Payload, text, is_nil}
use cycletls_python.Arguments.{Arguments, arguments, headers_or_empty, still_shared}
use cycletls_python.Url.{Printing}
use cycletls_python.Client.Prepare.{Call, Environment, prepare, find_user_agent}
use cycletls_python.Client.Kept.{IsPlain, dress_plain, prepare-Both}
use cycletls_python.Client.PrepareLaws.{prepare_lem, agent}

some-none {ℓ} : {A : Type ℓ} {x : A} → none ≡ some x → ⊥
some-none e = cc

module _ ⦃c : Casing⦄ where
  find-set :
      (k : String) (v : Atom) (h : Dict Atom)
      → (lower k == "user-agent") ≡ false
      → find_user_agent h ≡ none
      → find_user_agent (set k v h) ≡ none
  unfolding find_user_agent set
  find-set k v [] n e = rw n refl
  find-set k v ((j, w) ∷ h) n e = elim (Bool-cases (lower j == "user-agent")) [
    | inl hit ↦ absurd (some-none (sym (rw hit at e)))
    | inr miss ↦
        let rest : find_user_agent h ≡ none = rw miss at e in
        if_case (λ x. find_user_agent x ≡ none) (j == k) ((j, v) ∷ h) ((j, w) ∷ set k v h)
          (rw miss rest) (rw miss (find-set k v h n rest))
  ]

module _ {J : Type 0} ⦃c : Casing⦄ ⦃d : Digits⦄ ⦃p : Printing⦄ (py : Environment J)
    (other : (lower "Content-Type" == "user-agent") ≡ false) where
  forgets :
      (value : String) (h : Dict Atom)
      → find_user_agent h ≡ none
      → find_user_agent (set "Content-Type" (str value) h) ≡ none
  forgets value h e = find-set "Content-Type" (str value) h other e

  -- After a preparation that returned the headers of the caller name no user agent, where there was
  -- one under one key.
  left-Forgotten :
      (call : Call J) (closed : Bool) (request_id : String) (options : Dict Value) (own : Dict Atom)
      (found : String × Atom) (payload : Payload)
      → IsPlain py call
      → find_user_agent own ≡ some found
      → find_user_agent (remove found.0 own) ≡ none
      → (prepare py closed request_id call (arguments options (some own))).0 ≡ ok payload
      → find_user_agent (prepare py closed request_id call (arguments options (some own))).1.caller
        ≡ none
  unfolding arguments headers_or_empty still_shared is_nil find_user_agent
  left-Forgotten call closed request_id options [] found payload plain hit miss h =
      absurd (some-none hit)
  left-Forgotten call closed request_id options (e ∷ own) found payload plain hit miss h =
      let a = arguments options (some (e ∷ own)) in
      (prepare-Both py (λ x. find_user_agent x ≡ none) forgets call closed request_id a payload
        (rw (dress_plain py call a plain) (rw hit miss))
        (rw (dress_plain py call a plain) (rw hit miss)) h).1

  abbrev taken : String × Atom → Option Value
  taken e = some (atom e.1)

  abbrev from : Dict Atom → Dict Value → Option Value
  from h options = on (find_user_agent h) (lookup "user_agent" options) taken

  -- A headers dict that names a user agent serves for one request only: the preparation takes the
  -- entry out of the caller's dict, and when the caller sends the same dict with a second request,
  -- that one goes out with the default user agent. Both requests come without auth and fingerprint,
  -- the second without the option user_agent, and their payloads are made; the dict has the user
  -- agent under one key, and "Content-Type" in lower case is not "user-agent".
  pub user_agent_forgotten :
      (first second : Call J) (closed closed' : Bool) (request_id request_id' : String)
      (options later : Dict Value) (own : Dict Atom) (found : String × Atom)
      (payload payload' : Payload)
      → IsPlain py first × IsPlain py second
      → lookup "user_agent" later ≡ none
      → find_user_agent own ≡ some found
      → find_user_agent (remove found.0 own) ≡ none
      → (prepare py closed request_id first (arguments options (some own))).0 ≡ ok payload
      → let left = (prepare py closed request_id first (arguments options (some own))).1.caller in
        (prepare py closed' request_id' second (arguments later (some left))).0 ≡ ok payload'
        → (lookup "userAgent" payload.options ≡ some (text (agent (some (atom found.1)))))
          × (lookup "userAgent" payload'.options ≡ some (text (agent none)))
  unfolding arguments headers_or_empty
  user_agent_forgotten first second closed closed' request_id request_id' options later own found
        payload payload' plain unset hit miss h h' =
      let sent = λ (b : Arguments). some (text (agent (from (headers_or_empty b) b.options))) in
      let a = arguments options (some own) in
      let b = arguments later (some (prepare py closed request_id first a).1.caller) in
      let gone =
        left-Forgotten first closed request_id options own found payload plain.0 hit miss h in
      let (_, _, _, _, ua) = prepare_lem py first closed request_id a payload h in
      let (_, _, _, _, ua') = prepare_lem py second closed' request_id' b payload' h' in
      (
        ua
            ∙ ap sent (dress_plain py first a plain.0)
            ∙ ap (λ o. some (text (agent (on o (lookup "user_agent" options) taken)))) hit,
        ua'
            ∙ ap sent (dress_plain py second b plain.1)
            ∙ ap (λ o. some (text (agent (on o (lookup "user_agent" later) taken)))) gone
            ∙ ap (λ o. some (text (agent o))) unset,
      )

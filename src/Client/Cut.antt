-- ===== src/Client/Cut.antt =====
-- What `_prepare_request` of cycletls/api.py leaves of a header when it takes out the user agent.
use cycletls_python.Base.{
  String, Bool, true, false, [], ◌∷◌, Option, some, ◌≡◌, ◌∙◌, ◌==◌, eq_iff, if◌then◌else◌,
  Bool-cases, inl, inr, subst,
}
use cycletls_python.Dict.{Dict, lookup, remove}
use cycletls_python.Dict.Laws.{lookup-remove}
use cycletls_python.Exec.{on, on_case, if_case}
use cycletls_python.Text.{Casing, lower}
use cycletls_python.Values.{Atom}
use cycletls_python.Client.Prepare.{find_user_agent}

module _ ⦃c : Casing⦄ (k : String) (v : Atom) (own : (lower k == "user-agent") ≡ false) where
  abbrev pub Has : Dict Atom → Type 0
  Has h = lookup k h ≡ some v

  is_agent :
      (h : Dict Atom) (found : String × Atom)
      → find_user_agent h ≡ some found
      → (lower found.0 == "user-agent") ≡ true
  unfolding find_user_agent
  is_agent [] found e = cc
  is_agent ((j, w) ∷ h) found e = elim (Bool-cases (lower j == "user-agent")) [
    | inl hit ↦ subst (λ r. (lower r.0 == "user-agent") ≡ true) (some_inj (rw hit at e)) hit
    | inr miss ↦ is_agent h found (rw miss at e)
  ]
    where
      some_inj : {a b : String × Atom} → ◌≡◌ {A = Option (String × Atom)} (some a) (some b) → a ≡ b
      some_inj e = cc

  other_key : (j : String) → (lower j == "user-agent") ≡ true → (j == k) ≡ false
  other_key j h = elim (Bool-cases (j == k)) [
    | inl same ↦ absurd (differ (rw ((eq_iff j k).0 same) at h))
    | inr e ↦ e
  ]
    where
      differ : (lower k == "user-agent") ≡ true → ⊥
      differ e = cc

  -- Taking out the user agent leaves the header.
  pub cut-Has :
      (h caller : Dict Atom) (b : Bool)
      → Has h
      → Has caller
      → Has (on (find_user_agent h) h (λ e. remove e.0 h))
        × Has (on (find_user_agent h) caller (λ e. if b then remove e.0 h else caller))
  cut-Has h caller b p q =
      let kept : (e : String × Atom) → find_user_agent h ≡ some e → Has (remove e.0 h) =
        λ e found. lookup-remove e.0 k h ∙ rw (other_key e.0 (is_agent h e found)) p in
      (
        on_case Has (find_user_agent h) h _ p kept,
        on_case Has (find_user_agent h) caller _ q
            (λ e found. if_case Has b (remove e.0 h) caller (kept e found) q),
      )

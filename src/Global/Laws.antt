-- ===== src/Global/Laws.antt =====
-- What the module-level functions may rely on of cycletls/_global.py.
use cycletls_python.Base.{
  ℕ, suc, ◌<◌, Bool, true, false, List, [], ◌∷◌, Option, none, some, ◌≡◌, refl, sym, ◌≢◌, ap, ◌∙◌,
  arith, if◌then◌else◌, eqb, eq→eqb, eqb→eq, All, Bool-cases, inl, inr, if_true, if_false, ltb,
}
use cycletls_python.Global.{
  Global, init, after_fork, create, ensure, get_global_session, close_global_session,
}

pub data Operation : Type 0 where
  getting : ℕ → Operation
  closing : Operation

unfoldable pub step : Operation → Global → Global
step (getting pid) g = (get_global_session pid g).1
step closing g = close_global_session g

unfoldable pub run : List Operation → Global → Global
unfolding step
run [] g = g
run (o ∷ os) g = run os (step o g)

-- The session in use was made and is not closed; what is closed was made; the cleanup is
-- registered exactly when a session was made, and once.
pub record IsValid (g : Global) : Type 0 where
  pub fresh : (id : ℕ) → g.session ≡ some id → (id < g.made) × All (λ c. c ≢ id) g.closed
  pub old : All (λ c. c < g.made) g.closed
  pub once : (g.registered ≡ (if g.cleanup_registered then 1 else 0))
  pub covered : g.cleanup_registered ≡ ltb 0 g.made

below_suc : (n : ℕ) (l : List ℕ) → All (λ c. c < n) l → All (λ c. c < suc n) l
below_suc n [] h = tt
below_suc n (c ∷ l) h = (omega (arith, h.0), below_suc n l h.1)

below_other : (n : ℕ) (l : List ℕ) → All (λ c. c < n) l → All (λ c. c ≢ n) l
below_other n [] h = tt
below_other n (c ∷ l) h = ((λ e. absurd (omega (arith, h.0, e))), below_other n l h.1)

create-IsValid : (g : Global) → IsValid g → IsValid (create g)
unfolding create
create-IsValid g v = record {
  fresh = λ id e. newest id (some_inj e);
  old = below_suc g.made g.closed v.old;
  once = one g.cleanup_registered v.once;
  covered = ground arith;
}
  where
    some_inj : {a b : ℕ} → ◌≡◌ {A = Option ℕ} (some a) (some b) → a ≡ b
    some_inj e = cc

    newest : (id : ℕ) → g.made ≡ id → (id < suc g.made) × All (λ c. c ≢ id) g.closed
    newest id e = rw (sym e) (omega arith, below_other g.made g.closed v.old)

    one :
        (b : Bool)
        → g.registered ≡ (if b then 1 else 0)
        → (if b then g.registered else suc g.registered) ≡ 1
    one true e = e
    one false e = ap suc e

after_fork-IsValid : (pid : ℕ) (g : Global) → IsValid g → IsValid (after_fork pid g)
unfolding after_fork
after_fork-IsValid pid g v = go (eqb pid g.parent_pid)
  where
    go : (b : Bool) → IsValid (if b then g else record g { session = none; parent_pid = pid })
    go true = v
    go false = record { fresh = λ id e. cc; old = v.old; once = v.once; covered = v.covered }

ensure-IsValid : (g : Global) → IsValid g → IsValid (ensure g).1
unfolding ensure
ensure-IsValid g v = go g.session
  where
    go :
        (o : Option ℕ)
        → IsValid (elim o as (λ o. ℕ × Global) [ some id ↦ (id, g) | none ↦ (g.made, create g) ]).1
    go none = create-IsValid g v
    go (some id) = v

close-IsValid : (g : Global) → IsValid g → IsValid (close_global_session g)
unfolding close_global_session
close-IsValid g v = go g.session refl
  where
    go :
        (o : Option ℕ)
        → g.session ≡ o
        → IsValid (elim o as (λ o. Global) [
          | none ↦ g
          | some id ↦ record g { session = none; closed = id ∷ g.closed }
        ])
    go none e = v
    go (some id) e = record {
      fresh = λ i e'. cc;
      old = ((v.fresh id e).0, v.old);
      once = v.once;
      covered = v.covered;
    }

-- Whatever processes ask for the session and close it in whatever order: the session in use has
-- been made and was never closed, and the cleanup has been registered exactly once if a session
-- was ever made, and not before.
pub global-IsValid : (pid : ℕ) (os : List Operation) → IsValid (run os (init pid))
unfolding run step init get_global_session
global-IsValid pid os =
    run-IsValid os (init pid) (record { fresh = λ id e. cc; old = tt; once = refl; covered = refl })
  where
    run-IsValid : (os : List Operation) (g : Global) → IsValid g → IsValid (run os g)
    run-IsValid [] g v = v
    run-IsValid (getting p ∷ os) g v =
        run-IsValid os _ (ensure-IsValid (after_fork p g) (after_fork-IsValid p g v))
    run-IsValid (closing ∷ os) g v = run-IsValid os _ (close-IsValid g v)

ensure_session : (g : Global) → (ensure g).1.session ≡ some (ensure g).0
unfolding ensure create
ensure_session g = go g.session refl
  where
    go :
        (o : Option ℕ)
        → g.session ≡ o
        → (elim o as (λ o. ℕ × Global) [ some id ↦ (id, g) | none ↦ (g.made, create g) ]).1.session
          ≡ some (elim o as (λ o. ℕ × Global) [ some id ↦ (id, g) | none ↦ (g.made, create g) ]).0
    go none e = refl
    go (some id) e = e

ensure_pid : (g : Global) → (ensure g).1.parent_pid ≡ g.parent_pid
unfolding ensure create
ensure_pid g = go g.session
  where
    go :
        (o : Option ℕ)
        → (elim o as (λ o. ℕ × Global) [
          | some id ↦ (id, g)
          | none ↦ (g.made, create g)
        ]).1.parent_pid
          ≡ g.parent_pid
    go none = refl
    go (some id) = refl

ensure_again : (g : Global) (id : ℕ) → g.session ≡ some id → (ensure g).0 ≡ id
unfolding ensure
ensure_again g id e =
    ap (λ o. (elim o as (λ o. ℕ × Global) [ some id ↦ (id, g) | none ↦ (g.made, create g) ]).0) e

after_fork_pid : (pid : ℕ) (g : Global) → (after_fork pid g).parent_pid ≡ pid
unfolding after_fork
after_fork_pid pid g = elim (Bool-cases (eqb pid g.parent_pid)) [
  | inl e ↦
      ap (λ x. x.parent_pid) (if_true (eqb pid g.parent_pid) g _ e)
      ∙ sym (eqb→eq pid g.parent_pid e)
  | inr e ↦ ap (λ x. x.parent_pid) (if_false (eqb pid g.parent_pid) g _ e)
]

after_fork_same : (pid : ℕ) (g : Global) → g.parent_pid ≡ pid → after_fork pid g ≡ g
unfolding after_fork
after_fork_same pid g e = if_true (eqb pid g.parent_pid) g _ (eq→eqb pid g.parent_pid (sym e))

-- A child that asks gets the next number.
child_session :
    (child : ℕ) (g : Global)
    → eqb child g.parent_pid ≡ false
    → (ensure (after_fork child g)).0 ≡ g.made
unfolding after_fork ensure
child_session child g e = ap (λ x. (ensure x).0) (if_false (eqb child g.parent_pid) g _ e)

-- A process that asks twice gets the same session, and a child that was forked in between gets
-- another one.
pub session_of_process :
    (g : Global) (pid child : ℕ)
    → IsValid g
    → pid ≢ child
    → let first = get_global_session pid g in
      ((get_global_session pid first.1).0 ≡ first.0)
      × ((get_global_session child first.1).0 ≢ first.0)
unfolding get_global_session
session_of_process g pid child v n = (
  ap (λ x. (ensure x).0) (after_fork_same pid first here)
      ∙ ensure_again first _ (ensure_session start),
  λ e. absurd (omega (arith, made_before, sym (child_session child first other) ∙ e)),
)
  where
    start : Global
    start = after_fork pid g

    first : Global
    first = (ensure start).1

    here : first.parent_pid ≡ pid
    here = ensure_pid start ∙ after_fork_pid pid g

    made_before : (ensure start).0 < first.made
    made_before =
        ((ensure-IsValid start (after_fork-IsValid pid g v)).fresh _ (ensure_session start)).0

    other : eqb child first.parent_pid ≡ false
    other = elim (Bool-cases (eqb child first.parent_pid)) [
      | inl e ↦ absurd (n (sym (eqb→eq child first.parent_pid e ∙ here)))
      | inr e ↦ e
    ]

-- ===== src/Global/Tests.antt =====
-- The global session in a process and a child of it.
use cycletls_python.Base.{[], ◌∷◌, ◌≡◌, ◌≢◌, refl, arith}
use cycletls_python.Global.{init, get_global_session}
use cycletls_python.Global.Laws.{IsValid, getting, closing, run, global-IsValid, session_of_process}

get_test : (get_global_session 5 (init 5)).0 ≡ 0
unfolding get_global_session init
get_test = refl

global-IsValid_example : IsValid (run (getting 5 ∷ getting 6 ∷ closing ∷ getting 6 ∷ []) (init 5))
global-IsValid_example = global-IsValid 5 (getting 5 ∷ getting 6 ∷ closing ∷ getting 6 ∷ [])

session_of_process_test :
    ((get_global_session 5 (get_global_session 5 (init 5)).1).0 ≡ (get_global_session 5 (init 5)).0)
    × ((get_global_session 6 (get_global_session 5 (init 5)).1).0
        ≢ (get_global_session 5 (init 5)).0)
unfolding run
session_of_process_test =
    session_of_process (init 5) 5 6 (global-IsValid 5 []) (λ e. absurd (omega (arith, e)))

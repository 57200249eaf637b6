-- ===== src/Global.antt =====
-- cycletls/_global.py: the session of the module-level functions. A session is named by a number;
-- its lock makes each function one step.
pub mod Laws
pub mod Tests
use cycletls_python.Base.{
  ℕ, suc, Bool, true, false, List, [], ◌∷◌, Option, none, some, if◌then◌else◌, eqb,
}

pub record Global : Type 0 where
  pub session : Option ℕ
  pub cleanup_registered : Bool
  pub parent_pid : ℕ
  -- how many sessions were made, how often the cleanup was registered, what was closed
  pub made : ℕ
  pub registered : ℕ
  pub closed : List ℕ

unfoldable pub init : ℕ → Global
init pid = record {
  session = none;
  cleanup_registered = false;
  parent_pid = pid;
  made = 0;
  registered = 0;
  closed = [];
}

-- `if current_pid != _parent_pid`: a forked child does not share the session
unfoldable pub after_fork : ℕ → Global → Global
after_fork pid g = if eqb pid g.parent_pid then g else record g { session = none; parent_pid = pid }

-- `_global_session = _CycleTLS()`, and the registration of the cleanup
unfoldable pub create : Global → Global
create g = record g {
  session = some g.made;
  made = suc g.made;
  registered = if g.cleanup_registered then g.registered else suc g.registered;
  cleanup_registered = true;
}

-- the session that is there, or a new one
unfoldable pub ensure : Global → ℕ × Global
unfolding create
ensure g = elim g.session [ some id ↦ (id, g) | none ↦ (g.made, create g) ]

-- get_global_session, called by the process `pid`
unfoldable pub get_global_session : ℕ → Global → ℕ × Global
unfolding after_fork ensure
get_global_session pid g = ensure (after_fork pid g)

-- _cleanup_global_session and close_global_session: an error of close() is ignored
unfoldable pub close_global_session : Global → Global
close_global_session g = elim g.session [
  | none ↦ g
  | some id ↦ record g { session = none; closed = id ∷ g.closed }
]

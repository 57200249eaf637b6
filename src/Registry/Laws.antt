-- ===== src/Registry/Laws.antt =====
-- The profiles of cycletls/fingerprints.py stand under their own names, whatever is registered,
-- removed and loaded.
use cycletls_python.Base.{
  ℕ, String, Bool, true, false, List, [], ◌∷◌, some, ◌≡◌, refl, arith, ◌==◌, eq_iff, subst, sym,
  if◌then◌else◌, All,
}
use cycletls_python.Dict.{Dict, lookup, set, remove, IsDict}
use cycletls_python.Dict.Laws.{set-IsDict, remove-IsDict}
use cycletls_python.Errors.{Result, ok, err, ◌>>=◌}
use cycletls_python.Exec.{if_case}
use cycletls_python.Fingerprint.{Field, TlsFingerprint, from_dict}
use cycletls_python.Text.{Casing}
use cycletls_python.Registry.Plugins.{load_one, load_dir}
use cycletls_python.Registry.Trackme.{TrackmePayload, load_trackme}
use cycletls_python.Registry.Imports.{import_registers}
use cycletls_python.Registry.{
  Profiles, Document, name_of, register, register_many, unregister, get_or_none, load_from_file,
  finish_load, raw_items, load_items,
}

abbrev Named : Profiles → Type 0
Named profiles = All (λ e. name_of e.1 ≡ e.0) profiles

-- Each name once, and each profile under its own name.
abbrev pub IsValid : Profiles → Type 0
IsValid profiles = IsDict profiles × Named profiles

set-Named : (f : TlsFingerprint) (d : Profiles) → Named d → Named (set (name_of f) f d)
unfolding set
set-Named f [] h = (refl, tt)
set-Named f ((j, g) ∷ d) h = ground (arith, h.0, eq_iff j (name_of f), set-Named f d h.1)

remove-Named : (k : String) (d : Profiles) → Named d → Named (remove k d)
unfolding remove
remove-Named k [] h = tt
remove-Named k ((j, g) ∷ d) h =
    if_case Named (j == k) (remove k d) ((j, g) ∷ remove k d) (remove-Named k d h.1)
      (h.0, remove-Named k d h.1)

register-IsValid : (f : TlsFingerprint) (d : Profiles) → IsValid d → IsValid (register f d)
unfolding register
register-IsValid f d h = (set-IsDict (name_of f) f d h.0, set-Named f d h.1)

pub register_many-IsValid :
    (fs : List TlsFingerprint) (d : Profiles) → IsValid d → IsValid (register_many fs d)
unfolding register_many
register_many-IsValid [] d h = h
register_many-IsValid (f ∷ fs) d h =
    register_many-IsValid fs (register f d) (register-IsValid f d h)

unregister-IsValid : (k : String) (d : Profiles) → IsValid d → IsValid (unregister k d).1
unfolding unregister
unregister-IsValid k d h =
    if_case (λ (r : Bool × Profiles). IsValid r.1) _ (true, remove k d) (false, d)
      (remove-IsDict k d h.0, remove-Named k d h.1) h

finish_load-IsValid :
    (clear : Bool) (d : Profiles) (r : Result (List TlsFingerprint))
    → IsValid d
    → IsValid (finish_load clear d r).1
unfolding finish_load
finish_load-IsValid clear d (err e) h = h
finish_load-IsValid clear d (ok fs) h =
    register_many-IsValid fs (if clear then [] else d) (if_case IsValid clear [] d (tt, tt) h)

load-IsValid :
    (path : String) (document : Document) (clear : Bool) (d : Profiles)
    → IsValid d
    → IsValid (load_from_file path document clear d).1
unfolding load_from_file
load-IsValid path document clear d h =
    finish_load-IsValid clear d (raw_items path document >>= load_items) h

load_one-IsValid :
    (r : Result TlsFingerprint) (s : ℕ × Profiles) → IsValid s.1 → IsValid (load_one r s).1
unfolding load_one
load_one-IsValid (err e) s h = h
load_one-IsValid (ok f) s h = register-IsValid f s.1 h

load_dir-IsValid :
    (files : List (Result (Dict Field))) (s : ℕ × Profiles)
    → IsValid s.1
    → IsValid (load_dir files s).1
unfolding load_dir
load_dir-IsValid [] s h = h
load_dir-IsValid (file ∷ files) s h =
    load_dir-IsValid files (load_one (file >>= from_dict) s)
      (load_one-IsValid (file >>= from_dict) s h)

-- A change of the registry.
pub data Change : Type 0 where
  register_one : TlsFingerprint → Change
  register_several : List TlsFingerprint → Change
  unregister_one : String → Change
  load_file : String → Document → Bool → Change
  load_directory : List (Result (Dict Field)) → Change
  load_captures : TrackmePayload → Change
  clear_all : Change

unfoldable pub change : ⦃casing : Casing⦄ → Profiles → Change → Profiles
unfolding register register_many unregister load_from_file load_dir load_trackme
change d (register_one f) = register f d
change d (register_several fs) = register_many fs d
change d (unregister_one k) = (unregister k d).1
change d (load_file path document clear) = (load_from_file path document clear d).1
change d (load_directory files) = (load_dir files (0, d)).1
change d (load_captures payload) = (load_trackme payload d).1
change d clear_all = []

unfoldable pub changes : ⦃casing : Casing⦄ → Profiles → List Change → Profiles
unfolding change
changes d [] = d
changes d (c ∷ cs) = changes (change d c) cs

change-IsValid : ⦃casing : Casing⦄ (d : Profiles) (c : Change) → IsValid d → IsValid (change d c)
unfolding change
change-IsValid d (register_one f) h = register-IsValid f d h
change-IsValid d (register_several fs) h = register_many-IsValid fs d h
change-IsValid d (unregister_one k) h = unregister-IsValid k d h
change-IsValid d (load_file path document clear) h = load-IsValid path document clear d h
change-IsValid d (load_directory files) h = load_dir-IsValid files (0, d) h
change-IsValid d (load_captures payload) h =
    let (loaded, same, _) = import_registers payload d in
    subst (λ (r : Result (List TlsFingerprint) × Profiles). IsValid r.1) (sym same)
      (register_many-IsValid loaded d h)
change-IsValid d clear_all h = (tt, tt)

pub changes-IsValid :
    ⦃casing : Casing⦄ (d : Profiles) (cs : List Change) → IsValid d → IsValid (changes d cs)
unfolding changes
changes-IsValid d [] h = h
changes-IsValid d (c ∷ cs) h = changes-IsValid (change d c) cs (change-IsValid d c h)

found-Named :
    (k : String) (f : TlsFingerprint) (d : Profiles) → Named d → lookup k d ≡ some f → name_of f ≡ k
unfolding lookup
found-Named k f [] h e = cc
found-Named k f ((j, g) ∷ d) h e = ground (arith, h.0, eq_iff j k, found-Named k f d h.1)

-- Whatever is registered, removed and loaded, in whatever order, from the empty registry on: each
-- name stands once, and the profile that is found under a name has that name.
pub registry-IsValid :
    ⦃casing : Casing⦄ (cs : List Change)
    → IsDict (changes [] cs)
      × ((k : String) (f : TlsFingerprint) → get_or_none k (changes [] cs) ≡ some f → name_of f ≡ k)
unfolding get_or_none
registry-IsValid cs =
    let valid = changes-IsValid [] cs (tt, tt) in
    (valid.0, λ k f e. found-Named k f (changes [] cs) valid.1 e)

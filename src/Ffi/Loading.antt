-- ===== src/Ffi/Loading.antt =====
-- Where cycletls/_ffi.py looks for the Go library.
use cycletls_python.Base.{
  String, Bool, true, false, not, ◌&&◌, ◌||◌, List, [], ◌∷◌, ◌++◌, Option, none, some, ◌==◌, ◌≡◌,
  refl, if◌then◌else◌, All, sym, ap, ◌∙◌, if_true, if_false, Bool-cases, inl, inr,
}
use cycletls_python.Errors.{Error, error, cycletls_error, Result, ok, err, ok_inj}
use cycletls_python.Text.{Casing, lower, join}

-- what `platform`, `os` and cffi say of the machine
pub record Platform : Type 0 where
  pub system : String
  pub machine : String
  pub environment : Option String
  pub package_dir : String
  pub project_root : String
  pub exists : String → Bool
  pub dlopen : String → Result (Unit {0})

-- the normalized architecture
unfoldable pub arch : ⦃c : Casing⦄ → Platform → String
arch p =
    let machine = lower p.machine in
    if machine == "x86_64" || machine == "amd64"
    then "x64"
    else if machine == "aarch64" || machine == "arm64"
    then "arm64"
    else machine

-- _get_library_filenames
unfoldable pub library_filenames : ⦃c : Casing⦄ → Platform → List String
unfolding arch
library_filenames p =
    if p.system == "Windows"
    then join ("cycletls-win-" ∷ arch p ∷ ".dll" ∷ []) ∷ "cycletls.dll" ∷ []
    else if p.system == "Darwin"
    then join ("libcycletls-darwin-" ∷ arch p ∷ ".dylib" ∷ []) ∷ "libcycletls.dylib" ∷ []
    else join ("libcycletls-linux-" ∷ arch p ∷ ".so" ∷ []) ∷ "libcycletls.so" ∷ []

-- os.path.join of two or three parts, on a system whose separator is "/"
abbrev pub in_dir : String → String → String
in_dir dir name = join (dir ∷ "/" ∷ name ∷ [])

-- the locations of each file name
unfoldable pub locations : Platform → List String → List String
locations p [] = []
locations p (f ∷ fs) =
    in_dir p.package_dir (in_dir "dist" f)
    ∷ in_dir p.package_dir f
    ∷ in_dir p.project_root (in_dir "dist" f)
    ∷ locations p fs

-- `if env_override: yield env_override`
abbrev pub override : Option String → List String → List String
override none rest = rest
override (some e) rest = if e == "" then rest else e ∷ rest

-- _iter_library_candidates
unfoldable pub library_candidates : ⦃c : Casing⦄ → Platform → List String
unfolding library_filenames locations
library_candidates p = override p.environment (locations p (library_filenames p))

-- `if candidate and os.path.exists(candidate)`
abbrev pub usable : Platform → String → Bool
usable p path = not (path == "") && p.exists path

abbrev pub not_found : Error
not_found =
    error cycletls_error
      "CycleTLS shared library not found. Set CYCLETLS_LIB_PATH or build the Go library using 'go build -buildmode=c-shared'."

-- `_lib = _ffi.dlopen(candidate)`
abbrev pub opening : Result (Unit {0}) → String → Result String
opening (ok u) path = ok path
opening (err e) path = err e

-- the loop of _load_library: the path that it opens
unfoldable pub first_usable : Platform → List String → Result String
first_usable p [] = err not_found
first_usable p (c ∷ cs) =
    let rest = first_usable p cs in if usable p c then opening (p.dlopen c) c else rest

-- _load_library, with `_lib` as the path that is open
unfoldable pub load_library : ⦃c : Casing⦄ → Platform → Option String → Result String
unfolding library_candidates first_usable
load_library p (some path) = ok path
load_library p none = first_usable p (library_candidates p)

-- `path` is the first usable one of a list of paths.
abbrev pub IsFirst : Platform → String → List String → Type 0
IsFirst p path paths =
    (before : List String) × (after : List String) × (paths ≡ before ++ path ∷ after)
    × All (λ c. usable p c ≡ false) before
    × (usable p path ≡ true)

opening-ok :
    (r : Result (Unit {0})) (c path : String) → opening r c ≡ ok path → (c ≡ path) × (r ≡ ok tt)
opening-ok (ok u) c path e = (ok_inj e, refl)
opening-ok (err x) c path e = cc

first_usable-IsFirst :
    (p : Platform) (paths : List String) (path : String)
    → first_usable p paths ≡ ok path
    → IsFirst p path paths × (p.dlopen path ≡ ok tt)
unfolding first_usable
first_usable-IsFirst p [] path e = cc
first_usable-IsFirst p (c ∷ cs) path e = elim (Bool-cases (usable p c)) [
  | inl u ↦
      let (q, d) =
        opening-ok (p.dlopen c) c path (sym (if_true (usable p c) _ (first_usable p cs) u) ∙ e) in
      (([], cs, ap (λ x. x ∷ cs) q, tt, ap (usable p) (sym q) ∙ u), ap p.dlopen (sym q) ∙ d)
  | inr u ↦
      let (found, d) =
        first_usable-IsFirst p cs path
          (sym (if_false (usable p c) (opening (p.dlopen c) c) _ u) ∙ e) in
      let (before, after, q, unusable, u') = found in
      ((c ∷ before, after, ap (λ x. c ∷ x) q, (u, unusable), u'), d)
]

-- The library that is opened first is the first of the candidates that is not empty and exists,
-- and it was opened without an error.
pub loaded-IsFirst :
    ⦃c : Casing⦄ (p : Platform) (path : String)
    → load_library p none ≡ ok path
    → IsFirst p path (library_candidates p) × (p.dlopen path ≡ ok tt)
unfolding load_library
loaded-IsFirst p path e = first_usable-IsFirst p (library_candidates p) path e

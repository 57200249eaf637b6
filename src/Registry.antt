-- ===== src/Registry.antt =====
-- `FingerprintRegistry` of cycletls/fingerprints.py and the loading of cycletls/plugins.py. The name
-- of a profile is a text. The text of a list in an error message is a parameter, and so is the
-- choice of `random.choice`.
pub mod Plugins
pub mod Trackme
pub mod Imports
pub mod Laws
pub mod Latest
pub mod Files
pub mod Tests
use Prim.Native.Nat.{Ordering}
use Prim.Native.String.{compare}
use cycletls_python.Base.{
  ℕ, zero, suc, String, Bool, true, false, ◌&&◌, List, [], ◌∷◌, ◌++◌, Option, none, some, map, any,
  keep, ltb, eqb, if◌then◌else◌,
}
use cycletls_python.Dict.{Dict, lookup, set, remove, has, keys, values}
use cycletls_python.Errors.{Error, error, key_error, value_error, Result, ok, err, ◌>>=◌}
use cycletls_python.Text.{startswith, endswith, join}
use cycletls_python.Text.Pattern.{Digits, find_numbers}
use cycletls_python.Values.{is_nil}
use cycletls_python.Fingerprint.{Field, TlsFingerprint, from_dict, to_dict}
use cycletls_python.Fingerprint.Apply.{text_of}

pub data BrowserFamily : Type 0 where
  brave chrome chromium edge firefox opera safari samsung : BrowserFamily

pub data Platform : Type 0 where
  android ios linux macos windows : Platform

-- platform.value
unfoldable pub platform_value : Platform → String
platform_value android = "android"
platform_value ios = "ios"
platform_value linux = "linux"
platform_value macos = "mac"
platform_value windows = "win"

-- _FAMILY_PREFIXES
unfoldable pub family_prefixes : BrowserFamily → List String
family_prefixes brave = "brave" ∷ []
family_prefixes chrome = "chrome" ∷ []
family_prefixes chromium = "chromium" ∷ []
family_prefixes edge = "edge" ∷ "msedge" ∷ []
family_prefixes firefox = "firefox" ∷ []
family_prefixes opera = "opera" ∷ []
family_prefixes safari = "safari" ∷ []
family_prefixes samsung = "samsung" ∷ []

-- profile.name, which is a text; a name that is none, which register refuses when it cannot be
-- hashed, is left out
unfoldable pub name_of : TlsFingerprint → String
unfolding text_of
name_of f = text_of f.name

-- _profiles
abbrev pub Profiles : Type 0
Profiles = Dict TlsFingerprint

-- register
unfoldable pub register : TlsFingerprint → Profiles → Profiles
unfolding name_of
register profile profiles = set (name_of profile) profile profiles

-- register_many
unfoldable pub register_many : List TlsFingerprint → Profiles → Profiles
unfolding register
register_many [] profiles = profiles
register_many (p ∷ ps) profiles = register_many ps (register p profiles)

-- unregister
unfoldable pub unregister : String → Profiles → Bool × Profiles
unregister name profiles =
    if has name profiles then (true, remove name profiles) else (false, profiles)

-- get_or_none
unfoldable pub get_or_none : String → Profiles → Option TlsFingerprint
get_or_none name profiles = lookup name profiles

-- the test of the name's end
unfoldable pub on_platform : Platform → TlsFingerprint → Bool
unfolding name_of platform_value
on_platform platform f = endswith (name_of f) (join ("_" ∷ platform_value platform ∷ []))

-- the test of the name's start
unfoldable pub in_family : BrowserFamily → TlsFingerprint → Bool
unfolding name_of family_prefixes
in_family family f = any (startswith (name_of f)) (family_prefixes family)

-- by_family
unfoldable pub by_family : BrowserFamily → Option Platform → Profiles → List TlsFingerprint
unfolding in_family on_platform
by_family family none profiles = keep (in_family family) (values profiles)
by_family family (some platform) profiles =
    keep (on_platform platform) (keep (in_family family) (values profiles))

-- _candidates
unfoldable pub candidates : Option BrowserFamily → Option Platform → Profiles → List TlsFingerprint
unfolding by_family on_platform
candidates (some family) platform profiles = by_family family platform profiles
candidates none (some platform) profiles = keep (on_platform platform) (values profiles)
candidates none none profiles = values profiles

-- `a < b` of two tuples of numbers
unfoldable pub tuple_lt : List ℕ → List ℕ → Bool
tuple_lt [] [] = false
tuple_lt [] (y ∷ ys) = true
tuple_lt (x ∷ xs) [] = false
tuple_lt (x ∷ xs) (y ∷ ys) =
    let rest = tuple_lt xs ys in if ltb x y then true else if ltb y x then false else rest

module _ ⦃d : Digits⦄ where
  -- _version_tuple
  unfoldable pub version_tuple : String → List ℕ
  unfolding find_numbers
  version_tuple name = elim (find_numbers none name) [ [] ↦ 0 ∷ [] | n ∷ ns ↦ n ∷ ns ]

  abbrev pub version_of : TlsFingerprint → List ℕ
  version_of f = version_tuple (name_of f)

  -- max(..., key=...): the first of the greatest
  unfoldable pub greatest : TlsFingerprint → List TlsFingerprint → TlsFingerprint
  unfolding tuple_lt
  greatest best [] = best
  greatest best (f ∷ fs) =
      greatest (if tuple_lt (version_of best) (version_of f) then f else best) fs

  -- `if not candidates: raise`, and the greatest otherwise
  unfoldable pub max_or_raise : Error → List TlsFingerprint → Result TlsFingerprint
  unfolding greatest
  max_or_raise e [] = err e
  max_or_raise e (f ∷ fs) = ok (greatest f fs)

-- the name of the member in its repr
unfoldable pub family_repr : BrowserFamily → String
family_repr brave = "<BrowserFamily.BRAVE: 'brave'>"
family_repr chrome = "<BrowserFamily.CHROME: 'chrome'>"
family_repr chromium = "<BrowserFamily.CHROMIUM: 'chromium'>"
family_repr edge = "<BrowserFamily.EDGE: 'edge'>"
family_repr firefox = "<BrowserFamily.FIREFOX: 'firefox'>"
family_repr opera = "<BrowserFamily.OPERA: 'opera'>"
family_repr safari = "<BrowserFamily.SAFARI: 'safari'>"
family_repr samsung = "<BrowserFamily.SAMSUNG: 'samsung'>"

unfoldable pub platform_repr : Platform → String
platform_repr android = "<Platform.ANDROID: 'android'>"
platform_repr ios = "<Platform.IOS: 'ios'>"
platform_repr linux = "<Platform.LINUX: 'linux'>"
platform_repr macos = "<Platform.MACOS: 'mac'>"
platform_repr windows = "<Platform.WINDOWS: 'win'>"

-- a part of the message that is there when the filter is
abbrev part {ℓ} : {A : Type ℓ} → String → (A → String) → Option A → String
part words repr none = ""
part words repr (some a) = join (words ∷ repr a ∷ [])

-- The element at an index, the last one past the end.
unfoldable pub pick {ℓ} : {A : Type ℓ} → ℕ → A → List A → A
pick n x [] = x
pick zero x (y ∷ ys) = x
pick (suc n) x (y ∷ ys) = pick n y ys

module _ (list_repr : List String → String) where
  -- get
  unfoldable pub get : String → Profiles → Result TlsFingerprint
  get name profiles = elim (lookup name profiles) [
    | none ↦ err (
        error key_error (
          join (
            "Fingerprint profile '"
            ∷ name
            ∷ "' not found. Available: "
            ∷ list_repr (keys profiles)
            ∷ [])))
    | some f ↦ ok f
  ]

  no_profiles : Option BrowserFamily → Option Platform → Profiles → Error
  unfolding family_repr platform_repr
  no_profiles family platform profiles = error key_error (
      join (
        "No profiles found"
        ∷ part " for family " family_repr family
        ∷ part " on platform " platform_repr platform
        ∷ ". Available: "
        ∷ list_repr (keys profiles)
        ∷ []))

  -- latest
  unfoldable pub latest :
      ⦃d : Digits⦄ → Option BrowserFamily → Option Platform → Profiles → Result TlsFingerprint
  unfolding candidates max_or_raise no_profiles
  latest family platform profiles =
      max_or_raise (no_profiles family platform profiles) (candidates family platform profiles)

  -- random, where random.choice takes the index `chosen`
  unfoldable pub random :
      ℕ → Option BrowserFamily → Option Platform → Profiles → Result TlsFingerprint
  unfolding candidates pick no_profiles
  random chosen family platform profiles = elim (candidates family platform profiles) [
    | [] ↦ err (no_profiles family platform profiles)
    | f ∷ fs ↦ ok (pick chosen f fs)
  ]

-- What a JSON file holds: an object with or without a list under "fingerprints", a list, or
-- something else; an entry of a list is an object or something else.
pub data Entry : Type 0 where
  object : Dict Field → Entry
  other : Entry

pub data Document : Type 0 where
  object : Option (List Entry) → Document
  items : List Entry → Document
  other : Document

-- the objects among the entries
unfoldable pub objects : List Entry → List (Dict Field)
objects [] = []
objects (Entry.object d ∷ es) = d ∷ objects es
objects (Entry.other ∷ es) = objects es

-- raw_items
unfoldable pub raw_items : String → Document → Result (List (Dict Field))
unfolding objects
raw_items path (object (some es)) = ok (objects es)
raw_items path (items es) = ok (objects es)
raw_items path _ =
    err (error value_error (join ("Unsupported fingerprint registry format in " ∷ path ∷ [])))

-- [from_dict(item) for item in raw_items if "name" in item and "ja3" in item]
unfoldable pub load_items : List (Dict Field) → Result (List TlsFingerprint)
unfolding from_dict has
load_items [] = ok []
load_items (item ∷ rest) =
    let others = load_items rest in
    if has "name" item && has "ja3" item
    then (do f ← from_dict item; fs ← others; ok (f ∷ fs))
    else others

-- what is registered of a file that was read
unfoldable pub finish_load :
    Bool → Profiles → Result (List TlsFingerprint) → Result (List TlsFingerprint) × Profiles
unfolding register_many
finish_load clear profiles (err e) = (err e, profiles)
finish_load clear profiles (ok loaded) =
    (ok loaded, register_many loaded (if clear then [] else profiles))

-- load_from_file, of the document that stands at a path
unfoldable pub load_from_file :
    String → Document → Bool → Profiles → Result (List TlsFingerprint) × Profiles
unfolding raw_items load_items finish_load
load_from_file path document clear profiles =
    finish_load clear profiles (raw_items path document >>= load_items)

-- s < t, or s = t
pub before_or_equal : String → String → Bool
before_or_equal s t = elim (compare s t) [ Ordering.gt ↦ false | _ ↦ true ]

-- sorted(_profiles.items()): the names differ, so only they are compared
unfoldable pub insert_sorted {ℓ} : {V : Type ℓ} → String → V → Dict V → Dict V
unfolding before_or_equal
insert_sorted k v [] = (k, v) ∷ []
insert_sorted k v ((j, w) ∷ d) =
    let rest = insert_sorted k v d in
    if before_or_equal k j then (k, v) ∷ (j, w) ∷ d else (j, w) ∷ rest

unfoldable pub sorted_items {ℓ} : {V : Type ℓ} → Dict V → Dict V
unfolding insert_sorted
sorted_items [] = []
sorted_items ((k, v) ∷ d) = insert_sorted k v (sorted_items d)

-- save_to_file: the document that is written
unfoldable pub saved_document : Profiles → Document
unfolding sorted_items to_dict
saved_document profiles =
    object (some (map (λ f. Entry.object (to_dict f)) (values (sorted_items profiles))))

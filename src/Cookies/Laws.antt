-- ===== src/Cookies/Laws.antt =====
-- What a CookieJar promises: one cookie for each name, under its own name, the last one set.
use cycletls_python.Base.{
  String, ◌≡◌, ◌∙◌, sym, refl, true, Option, none, some, List, [], ◌∷◌, map, arith, ◌==◌, eq_iff,
  if◌then◌else◌, ◌↔◌,
}
use cycletls_python.Dict.{Dict, lookup, set, IsDict, values}
use cycletls_python.Dict.Laws.{lookup-set, set-IsDict}
use cycletls_python.Dict.Equality.{dict_eq_iff}
use cycletls_python.Cookies.{
  Cookie, CookieJar, Attributes, add_cookies, of_cookies, set_item, get, set_cookie, items,
  get_dict, eq_jar,
}

-- Every cookie stands under its own name.
abbrev pub Named : Dict Cookie → Type 0
Named [] = Unit
Named ((k, c) ∷ d) = (k ≡ c.name) × Named d

abbrev pub IsValid : CookieJar → Type 0
IsValid jar = IsDict jar.cookies × Named jar.cookies

pub set-Named : (c : Cookie) (d : Dict Cookie) → Named d → Named (set c.name c d)
unfolding set
set-Named c [] h = (refl, tt)
set-Named c ((k, e) ∷ d) h = ground (arith, eq_iff k c.name, set-Named c d h.1)

pub set_cookie-IsValid :
    (jar : CookieJar) (name value : String) (a : Attributes)
    → IsValid jar
    → IsValid (set_cookie jar name value a)
unfolding set_cookie
set_cookie-IsValid jar name value a h =
    (set-IsDict name _ jar.cookies h.0, set-Named _ jar.cookies h.1)

pub set_item-IsValid :
    (jar : CookieJar) (name value : String) → IsValid jar → IsValid (set_item jar name value)
unfolding set_item
set_item-IsValid jar name value h = (set-IsDict name _ jar.cookies h.0, set-Named _ jar.cookies h.1)

pub add_cookies-IsValid :
    (jar : CookieJar) (cs : List Cookie) → IsValid jar → IsValid (add_cookies jar cs)
unfolding add_cookies
add_cookies-IsValid jar [] h = h
add_cookies-IsValid jar (c ∷ cs) h =
    add_cookies-IsValid (record { cookies = set c.name c jar.cookies }) cs
      (set-IsDict c.name c jar.cookies h.0, set-Named c jar.cookies h.1)

pub of_cookies-IsValid : (cs : List Cookie) → IsValid (of_cookies cs)
unfolding of_cookies
of_cookies-IsValid cs = add_cookies-IsValid (record { cookies = [] }) cs (tt, tt)

pub get-set_cookie :
    (jar : CookieJar) (name other value : String) (a : Attributes) (default : Option String)
    → get (set_cookie jar name value a) other default
      ≡ (if name == other then some value else get jar other default)
unfolding get set_cookie
get-set_cookie jar name other value a default = ground (
  arith,
  lookup-set name other (record { name = name; value = value; attributes = a }) jar.cookies,
)

-- The two views of the pairs agree: under their own names, the cookies are the dict.
pub items-eq-get_dict : (jar : CookieJar) → IsValid jar → items jar ≡ get_dict jar
unfolding items get_dict
items-eq-get_dict jar h = go jar.cookies h.1
  where
    go :
        (d : Dict Cookie)
        → Named d
        → map {B = String × String} (λ c. (c.name, c.value)) (values d)
          ≡ map (λ e. (e.0, e.1.value)) d
    go [] h = refl
    go ((k, c) ∷ d) h = cc (h.0, go d h.1)

module _ (name : String) where
  -- the values of a dict of cookies
  lookup-values :
      (d : Dict Cookie)
      → lookup name (map {B = String × String} (λ e. (e.0, e.1.value)) d)
        ≡ elim (lookup name d) [ none ↦ none | some c ↦ some c.value ]
  unfolding lookup
  lookup-values [] = refl
  lookup-values ((k, c) ∷ d) = ground (arith, lookup-values d)

  pub lookup-get_dict : (jar : CookieJar) → lookup name (get_dict jar) ≡ get jar name none
  unfolding get_dict get
  lookup-get_dict jar = lookup-values jar.cookies

get_dict-IsDict : (jar : CookieJar) → IsDict jar.cookies → IsDict (get_dict jar)
unfolding get_dict
get_dict-IsDict jar h = go jar.cookies h
  where
    go : (d : Dict Cookie) → IsDict d → IsDict (map {B = String × String} (λ e. (e.0, e.1.value)) d)
    go [] h = tt
    go ((k, c) ∷ d) h = (lookup-values k d ∙ rw h.0, go d h.1)

-- Two jars are equal exactly when `get` finds the same values in both.
pub eq_jar_iff :
    (a b : CookieJar)
    → IsValid a
    → IsValid b
    → (eq_jar a b ≡ true) ↔ ((name : String) → get a name none ≡ get b name none)
unfolding eq_jar
eq_jar_iff a b i j =
    let agree =
      dict_eq_iff ◌==◌ eq_iff (get_dict a) (get_dict b) (get_dict-IsDict a i.0)
        (get_dict-IsDict b j.0) in
    (
      λ h k. sym (lookup-get_dict k a) ∙ agree.0 h k ∙ lookup-get_dict k b,
      λ h. agree.1 (λ k. lookup-get_dict k a ∙ h k ∙ sym (lookup-get_dict k b)),
    )

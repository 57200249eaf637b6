-- ===== src/Cookies.antt =====
-- `Cookie` of cycletls/schema.py and `CookieJar` of cycletls/structures.py.
pub mod Laws
pub mod Tests
use cycletls_python.Base.{
  ℕ, ℤ, String, Bool, false, Option, none, some, List, [], ◌∷◌, map, ◌==◌, length,
}
use cycletls_python.Dict.{Dict, lookup, set, has, keys, values, dict_eq}
use cycletls_python.Errors.{error, key_error, Result, ok, err}

-- A `datetime`, to the second; the time zone is not read by the program.
pub record DateTime : Type 0 where
  pub year : ℕ
  pub month : ℕ
  pub day : ℕ
  pub hour : ℕ
  pub minute : ℕ
  pub second : ℕ

-- The attributes of a cookie behind its name and value.
pub record Attributes : Type 0 where
  pub path : Option String
  pub domain : Option String
  pub expires : Option DateTime
  pub max_age : Option ℤ
  pub secure : Bool
  pub http_only : Bool
  pub same_site : Option String

pub record Cookie : Type 0 where
  pub name : String
  pub value : String
  pub attributes : Attributes
  pub open attributes use *

abbrev pub no_attributes : Attributes
no_attributes = record {
  path = none;
  domain = none;
  expires = none;
  max_age = none;
  secure = false;
  http_only = false;
  same_site = none;
}

-- Cookie(name=name, value=value)
abbrev pub cookie : String → String → Cookie
cookie name value = record { name = name; value = value; attributes = no_attributes }

pub record CookieJar : Type 0 where
  pub cookies : Dict Cookie

-- the loop of __init__
unfoldable pub add_cookies : CookieJar → List Cookie → CookieJar
add_cookies jar [] = jar
add_cookies jar (c ∷ cs) = add_cookies (record { cookies = set c.name c jar.cookies }) cs

-- __init__
unfoldable pub of_cookies : List Cookie → CookieJar
unfolding add_cookies
of_cookies = add_cookies (record { cookies = [] })

-- __getitem__
unfoldable pub get_item : CookieJar → String → Result String
get_item jar name = elim (lookup name jar.cookies) [
  | none ↦ err (error key_error name)
  | some c ↦ ok c.value
]

-- __setitem__
unfoldable pub set_item : CookieJar → String → String → CookieJar
set_item jar name value = record { cookies = set name (cookie name value) jar.cookies }

-- get(name, default)
unfoldable pub get : CookieJar → String → Option String → Option String
get jar name default = elim (lookup name jar.cookies) [ none ↦ default | some c ↦ some c.value ]

-- set(name, value, **kwargs)
unfoldable pub set_cookie : CookieJar → String → String → Attributes → CookieJar
set_cookie jar name value attributes = record {
  cookies = set name (record { name = name; value = value; attributes = attributes }) jar.cookies;
}

-- items()
unfoldable pub items : CookieJar → List (String × String)
items jar = map (λ c. (c.name, c.value)) (values jar.cookies)

-- get_dict()
unfoldable pub get_dict : CookieJar → Dict String
get_dict jar = map (λ e. (e.0, e.1.value)) jar.cookies

-- get_cookies()
unfoldable pub get_cookies : CookieJar → List Cookie
get_cookies jar = values jar.cookies

-- __iter__
unfoldable pub iter : CookieJar → List String
iter jar = keys jar.cookies

-- __len__
unfoldable pub len : CookieJar → ℕ
len jar = length jar.cookies

-- __contains__
unfoldable pub contains : CookieJar → String → Bool
unfolding has
contains jar name = has name jar.cookies

-- __eq__ with another jar, and with a dict
unfoldable pub eq_jar : CookieJar → CookieJar → Bool
unfolding get_dict dict_eq
eq_jar jar other = dict_eq ◌==◌ (get_dict jar) (get_dict other)

unfoldable pub eq_dict : CookieJar → Dict String → Bool
unfolding get_dict dict_eq
eq_dict jar other = dict_eq ◌==◌ (get_dict jar) other

-- ===== src/Request/Cookie.antt =====
-- `_cookie_to_dict` and `_convert_same_site` of cycletls/schema.py: a cookie, as an object or as
-- a dictionary, in the form that the Go side reads.
use cycletls_python.Base.{
  ℕ, ℤ, pos, negsuc, String, Bool, false, List, [], ◌∷◌, Option, none, some, ◌==◌, if◌then◌else◌,
  or_default, ltb, eqb, ◌+◌, ◌-◌, ◌*◌, ◌/◌, ◌%◌, ◌≡◌, refl,
}
use cycletls_python.Dict.{Dict, lookup, set}
use cycletls_python.Text.{Casing, lower, join, decimal}
use cycletls_python.Cookies.{DateTime, Cookie}
use cycletls_python.Values.{Atom, str, int, bool}

-- `expires`: a datetime, or a text that is sent as it is
pub data Expiry : Type 0 where
  moment : DateTime → Expiry
  words : String → Expiry

-- `sameSite`: a name, or Go's number for it
pub data SameSite : Type 0 where
  named : String → SameSite
  number : ℤ → SameSite

-- A cookie given as a dictionary, with the two spellings of three of its keys; `none` is a key
-- that is not there, or None.
pub record CookieDict : Type 0 where
  pub name : Option String
  pub value : Option String
  pub path : Option String
  pub domain : Option String
  pub expires : Option Expiry
  pub max_age_camel : Option ℤ
  pub max_age : Option ℤ
  pub secure : Option Bool
  pub http_only_camel : Option Bool
  pub http_only : Option Bool
  pub same_site_camel : Option SameSite
  pub same_site : Option SameSite

pub data CookieArg : Type 0 where
  object : Cookie → CookieArg
  dictionary : CookieDict → CookieArg

-- `a or b`, where 0 and the empty text are false
unfoldable pub or_age : Option ℤ → Option ℤ → Option ℤ
or_age none b = b
or_age (some (pos n)) b = if eqb n 0 then b else some (pos n)
or_age (some (negsuc n)) b = some (negsuc n)

unfoldable pub or_site : Option SameSite → Option SameSite → Option SameSite
or_site none b = b
or_site (some (named s)) b = if s == "" then b else some (named s)
or_site (some (number (pos n))) b = if eqb n 0 then b else some (number (pos n))
or_site (some (number (negsuc n))) b = some (number (negsuc n))

-- The entry of a table, or the last text past its end.
unfoldable pub nth : ℕ → List String → String
nth n [] = ""
nth n (s ∷ ss) = if eqb n 0 then s else nth (n - 1) ss

abbrev pub days : List String
days = "Sun" ∷ "Mon" ∷ "Tue" ∷ "Wed" ∷ "Thu" ∷ "Fri" ∷ "Sat" ∷ []

abbrev pub months : List String
months =
    "Jan" ∷ "Feb" ∷ "Mar" ∷ "Apr" ∷ "May" ∷ "Jun" ∷ "Jul" ∷ "Aug" ∷ "Sep" ∷ "Oct" ∷ "Nov" ∷ "Dec"
    ∷ []

-- The days from the start of the year to a month's first, modulo 7, leap days not counted.
month_offset : ℕ → ℕ
month_offset m = if ltb m 2 then 0 else if ltb m 3 then 3 else (2 + (153 * (m - 3) + 2) / 5)

-- The day of the week of a Gregorian date, 0 for Sunday; January and February belong to the
-- year before.
unfoldable pub weekday : DateTime → ℕ
unfolding month_offset
weekday d =
    let y = if ltb d.month 3 then d.year - 1 else d.year in
    (y + y / 4 - y / 100 + y / 400 + month_offset d.month + d.day) % 7

-- a number in two digits
unfoldable pub two : ℕ → String
two n = if ltb n 10 then join ("0" ∷ decimal n ∷ []) else decimal n

-- expires.strftime("%a, %d %b %Y %H:%M:%S GMT")
unfoldable pub strftime : DateTime → String
unfolding weekday two nth
strftime d = join (
    nth (weekday d) days
    ∷ ", "
    ∷ two d.day
    ∷ " "
    ∷ nth (d.month - 1) months
    ∷ " "
    ∷ decimal d.year
    ∷ " "
    ∷ two d.hour
    ∷ ":"
    ∷ two d.minute
    ∷ ":"
    ∷ two d.second
    ∷ " GMT"
    ∷ [])

-- rawExpires
unfoldable pub raw_expires : Expiry → String
unfolding strftime
raw_expires (moment d) = strftime d
raw_expires (words s) = s

-- _SAME_SITE_MAP
abbrev pub same_site_map : Dict ℕ
same_site_map = ("default", 1) ∷ ("lax", 2) ∷ ("strict", 3) ∷ ("none", 4) ∷ []

-- _convert_same_site
unfoldable pub convert_same_site : ⦃c : Casing⦄ → Option SameSite → ℤ
convert_same_site none = pos 0
convert_same_site (some (number n)) = n
convert_same_site (some (named s)) = pos (or_default (lookup (lower s) same_site_map) 0)

-- if x is not None: result[key] = x
unfoldable pub put {ℓ} : {V : Type ℓ} → String → Option V → Dict V → Dict V
put key none d = d
put key (some v) d = set key v d

abbrev pub opt {ℓ κ} : {A : Type ℓ} {B : Type κ} → (A → B) → Option A → Option B
opt f none = none
opt f (some a) = some (f a)

-- the fields of a cookie, however it was given
pub record Fields : Type 0 where
  pub name : String
  pub value : String
  pub path : Option String
  pub domain : Option String
  pub expires : Option Expiry
  pub max_age : Option ℤ
  pub secure : Bool
  pub http_only : Bool
  pub same_site : Option SameSite

unfoldable pub fields : CookieArg → Fields
unfolding or_age or_site
fields (dictionary d) = record {
  name = or_default d.name "";
  value = or_default d.value "";
  path = d.path;
  domain = d.domain;
  expires = d.expires;
  max_age = or_age d.max_age_camel d.max_age;
  secure = or_default d.secure false;
  http_only = or_default d.http_only_camel (or_default d.http_only false);
  same_site = or_site d.same_site_camel d.same_site;
}
fields (object c) = record {
  name = c.name;
  value = c.value;
  path = c.path;
  domain = c.domain;
  expires = opt moment c.expires;
  max_age = c.max_age;
  secure = c.secure;
  http_only = c.http_only;
  same_site = opt named c.same_site;
}

-- the dictionary of the fields
unfoldable pub fields_to_dict : ⦃c : Casing⦄ → Fields → Dict Atom
unfolding put
fields_to_dict f = put "sameSite" (opt (λ s. int (convert_same_site (some s))) f.same_site) (
    put "maxAge" (opt int f.max_age) (
      put "rawExpires" (opt (λ e. str (raw_expires e)) f.expires) (
        put "domain" (opt str f.domain) (
          put "path" (opt str f.path) (
            ("name", str f.name)
            ∷ ("value", str f.value)
            ∷ ("secure", bool f.secure)
            ∷ ("httpOnly", bool f.http_only)
            ∷ [])))))

-- _cookie_to_dict
unfoldable pub cookie_to_dict : ⦃c : Casing⦄ → CookieArg → Dict Atom
unfolding fields fields_to_dict
cookie_to_dict cookie = fields_to_dict (fields cookie)

abbrev new_year : DateTime
new_year = record { year = 2026; month = 1; day = 1; hour = 0; minute = 5; second = 9 }

strftime_test : strftime new_year ≡ "Thu, 01 Jan 2026 00:05:09 GMT"
unfolding strftime join decimal
strftime_test = refl

leap_test :
    strftime (record { year = 2024; month = 2; day = 29; hour = 23; minute = 59; second = 59 })
    ≡ "Thu, 29 Feb 2024 23:59:59 GMT"
unfolding strftime join decimal
leap_test = refl

march_test :
    strftime (record { year = 2000; month = 12; day = 31; hour = 12; minute = 0; second = 0 })
    ≡ "Sun, 31 Dec 2000 12:00:00 GMT"
unfolding strftime join decimal
march_test = refl

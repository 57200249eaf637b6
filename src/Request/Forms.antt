-- ===== src/Request/Forms.antt =====
-- The two forms of a cookie in cycletls/schema.py: an object, and a dictionary with the same
-- fields.
use cycletls_python.Base.{
  ℤ, pos, negsuc, String, Bool, true, false, Option, none, some, ◌≡◌, refl, ◌≢◌, ap, ◌==◌, eq_iff,
  arith, if◌then◌else◌, zero, suc, ◌∙◌,
}
use cycletls_python.Dict.{lookup}
use cycletls_python.Request.Laws.{lookup-put, lookup-put_self}
use cycletls_python.Text.{Casing}
use cycletls_python.Cookies.{Cookie}
use cycletls_python.Values.{int}
use cycletls_python.Request.Cookie.{
  CookieDict, object, dictionary, named, moment, or_age, or_site, fields, Fields, fields_to_dict,
  cookie_to_dict, opt,
}

-- The dictionary with the fields of a cookie, in the spelling of the Go side.
abbrev pub as_camel : Cookie → CookieDict
as_camel c = record {
  name = some c.name;
  value = some c.value;
  path = c.path;
  domain = c.domain;
  expires = opt moment c.expires;
  max_age_camel = c.max_age;
  max_age = none;
  secure = some c.secure;
  http_only_camel = some c.http_only;
  http_only = none;
  same_site_camel = opt named c.same_site;
  same_site = none;
}

-- The same in the spelling of the class.
abbrev pub as_snake : Cookie → CookieDict
as_snake c = record {
  name = some c.name;
  value = some c.value;
  path = c.path;
  domain = c.domain;
  expires = opt moment c.expires;
  max_age_camel = none;
  max_age = c.max_age;
  secure = some c.secure;
  http_only_camel = none;
  http_only = some c.http_only;
  same_site_camel = none;
  same_site = opt named c.same_site;
}

or_age-none : (a : Option ℤ) → a ≢ some (pos 0) → or_age a none ≡ a
unfolding or_age
or_age-none none h = refl
or_age-none (some (pos zero)) h = absurd (h refl)
or_age-none (some (pos (suc n))) h = ground arith
or_age-none (some (negsuc n)) h = refl

or_site-none : (s : Option String) → s ≢ some "" → or_site (opt named s) none ≡ opt named s
unfolding or_site
or_site-none none h = refl
or_site-none (some s) h = go (s == "") refl
  where
    go : (b : Bool) → s == "" ≡ b → (if b then none else some (named s)) ≡ some (named s)
    go true e = absurd (h (ap some ((eq_iff s "").0 e)))
    go false e = refl

-- A cookie with a Max-Age other than 0 and a SameSite other than the empty text is sent alike as
-- an object and as a dictionary, in either spelling of the keys.
pub forms_agree :
    ⦃c : Casing⦄ (k : Cookie)
    → k.max_age ≢ some (pos 0)
    → k.same_site ≢ some ""
    → (cookie_to_dict (dictionary (as_camel k)) ≡ cookie_to_dict (object k))
      × (cookie_to_dict (dictionary (as_snake k)) ≡ cookie_to_dict (object k))
unfolding cookie_to_dict fields
forms_agree k h g = rw (or_age-none k.max_age h, or_site-none k.same_site g) (refl, refl)

max_age_of : ⦃c : Casing⦄ (f : Fields) → lookup "maxAge" (fields_to_dict f) ≡ opt int f.max_age
unfolding fields_to_dict lookup
max_age_of f = search (lookup-put, lookup-put_self) depth 12

-- A Max-Age of 0, which deletes a cookie, is sent for an object and left out for a dictionary
-- with the same field.
pub zero_age_dropped :
    ⦃c : Casing⦄ (k : Cookie)
    → k.max_age ≡ some (pos 0)
    → (lookup "maxAge" (cookie_to_dict (object k)) ≡ some (int (pos 0)))
      × (lookup "maxAge" (cookie_to_dict (dictionary (as_camel k))) ≡ none)
unfolding cookie_to_dict fields or_age
zero_age_dropped k h = (max_age_of _ ∙ ap (opt int) h, max_age_of _ ∙ rw h refl)

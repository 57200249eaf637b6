-- ===== src/Cookies/Tests.antt =====
-- CookieJar on concrete cookies.
use cycletls_python.Base.{String, ◌≡◌, refl, true, none, [], ◌∷◌, ◌↔◌}
use cycletls_python.Dict.{set}
use cycletls_python.Cookies.{CookieJar, cookie, of_cookies, set_item, get, items, get_dict, eq_jar}
use cycletls_python.Cookies.Laws.{
  of_cookies-IsValid, set_item-IsValid, items-eq-get_dict, eq_jar_iff,
}

abbrev session : CookieJar
session = of_cookies (cookie "id" "1" ∷ cookie "user" "john" ∷ cookie "id" "2" ∷ [])

last_wins_test : items session ≡ ("id", "2") ∷ ("user", "john") ∷ []
unfolding items of_cookies set
last_wins_test = refl

items-eq-get_dict_test : items session ≡ get_dict session
items-eq-get_dict_test = items-eq-get_dict session (of_cookies-IsValid _)

eq_jar_iff_example :
    (eq_jar session (set_item session "id" "3") ≡ true)
    ↔ ((name : String) → get session name none ≡ get (set_item session "id" "3") name none)
eq_jar_iff_example =
    eq_jar_iff session (set_item session "id" "3") (of_cookies-IsValid _)
      (set_item-IsValid session "id" "3" (of_cookies-IsValid _))

-- ===== src/Request/Tests.antt =====
-- A request and its cookies as they are sent.
use cycletls_python.Base.{
  ◌-◌, ◌*◌, ◌^◌, ◌≤◌, ◌<◌, ◌≡◌, refl, pos, negsuc, String, false, none, some, [], ◌∷◌, arith, All,
  any, ◌==◌,
}
use cycletls_python.Dict.{Dict, lookup}
use cycletls_python.Errors.{ok}
use cycletls_python.Text.{ascii}
use cycletls_python.Cookies.{Cookie, no_attributes}
use cycletls_python.Values.{dyadic, Value, int}
use cycletls_python.Request.Cookie.{object, dictionary, cookie_to_dict}
use cycletls_python.Request.{
  Request, request, Number, float, ceil_dyadic, timeout_int, required_fields, optional_fields,
  put_all, to_dict,
}
use cycletls_python.Request.Laws.{timeout_int_lem}
use cycletls_python.Request.Wire.{wire, to_dict_sends}
use cycletls_python.Request.Forms.{as_camel, as_snake, forms_agree, zero_age_dropped}

-- A limit of 2.25 seconds.
timeout_test : timeout_int (float (dyadic (pos 9) 2)) ≡ ok 3
unfolding timeout_int ceil_dyadic
timeout_test = refl

abbrev sent : Request
sent = record (request "https://a.test" "get") {
  ja3 = some "771,4865,0,29,0";
  cookies = some (object cookie_of_session ∷ []);
}
  where
    cookie_of_session : Cookie
    cookie_of_session = record { name = "sid"; value = "1"; attributes = no_attributes }

abbrev sent_dict : Dict Value
sent_dict = put_all (optional_fields ⦃c = ascii⦄ sent) (required_fields sent 6)

abbrev deleted : Cookie
deleted = record {
  name = "sid";
  value = "";
  attributes = record no_attributes { max_age = some (pos 0) };
}

abbrev kept : Cookie
kept = record {
  name = "sid";
  value = "7";
  attributes = record no_attributes { max_age = some (pos 60); same_site = some "Lax" };
}

timeout_int_lem_example :
    (timeout_int (float (dyadic (pos 9) 2)) ≡ ok (ceil_dyadic 9 2))
    × (1 ≤ ceil_dyadic 9 2)
    × (9 ≤ ceil_dyadic 9 2 * 2 ^ 2)
    × ((ceil_dyadic 9 2 - 1) * 2 ^ 2 < 9)
    × (timeout_int (Number.int (pos 5)) ≡ ok 5)
    × (timeout_int (float (dyadic (pos 0) 2)) ≡ ok 0)
    × (timeout_int (float (dyadic (negsuc 5) 2)) ≡ ok 0)
    × (timeout_int (Number.int (negsuc 5)) ≡ ok 0)
timeout_int_lem_example = timeout_int_lem 9 2 5 (omega arith)

to_dict_sends_example :
    All (λ e. lookup e.0 sent_dict ≡ e.1) (wire ⦃c = ascii⦄ sent 6)
    × ((j : String)
        → any (λ e. e.0 == j) (wire ⦃c = ascii⦄ sent 6) ≡ false
        → lookup j sent_dict ≡ none)
unfolding to_dict timeout_int
to_dict_sends_example = to_dict_sends ⦃c = ascii⦄ sent 6 sent_dict refl refl

forms_agree_test :
    (cookie_to_dict ⦃c = ascii⦄ (dictionary (as_camel kept))
      ≡ cookie_to_dict ⦃c = ascii⦄ (object kept))
    × (cookie_to_dict ⦃c = ascii⦄ (dictionary (as_snake kept))
        ≡ cookie_to_dict ⦃c = ascii⦄ (object kept))
forms_agree_test = forms_agree ⦃c = ascii⦄ kept (λ e. cc) (λ e. cc)

zero_age_dropped_test :
    (lookup "maxAge" (cookie_to_dict ⦃c = ascii⦄ (object deleted)) ≡ some (int (pos 0)))
    × (lookup "maxAge" (cookie_to_dict ⦃c = ascii⦄ (dictionary (as_camel deleted))) ≡ none)
zero_age_dropped_test = zero_age_dropped ⦃c = ascii⦄ deleted refl

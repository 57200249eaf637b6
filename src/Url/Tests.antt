-- ===== src/Url/Tests.antt =====
-- Runs of Url at concrete addresses, with a splitter that looks for the first "?".
use Prim.Native.Char.{code}
use Prim.Native.String
use cycletls_python.Base.{
  ℕ, String, [], ◌∷◌, ◌++◌, eqb, if◌then◌else◌, ◌≡◌, refl, ap, ◌∙◌, Bool-cases, inl, inr,
}
use cycletls_python.Text.{codes}
use cycletls_python.Values.{Atom, null, str, scalar, many}
use cycletls_python.Url.RoundTrip.{IsQuery}
use cycletls_python.Url.{Urls, Printing, Params, iter_params, query_pairs, merge_url_params}
use cycletls_python.Url.Laws.{query_pairs-merge_url_params}

glue : String → String → String
glue Prim.Native.String.[] t = t
glue (Prim.Native.String.◌∷◌ c s) t = Prim.Native.String.◌∷◌ c (glue s t)

before : ℕ → String → String
before sep Prim.Native.String.[] = ""
before sep (Prim.Native.String.◌∷◌ c s) =
    let rest = before sep s in if eqb (code c) sep then "" else Prim.Native.String.◌∷◌ c rest

behind : ℕ → String → String
behind sep Prim.Native.String.[] = ""
behind sep (Prim.Native.String.◌∷◌ c s) = if eqb (code c) sep then s else behind sep s

abbrev plain_urls : Urls
unfolding glue before behind
plain_urls = record {
  Parts = String × String;
  urlsplit = λ url. (before b'?' url, before b'#' (behind b'?' url));
  query = λ p. p.1;
  with_query = λ q p. (p.0, q);
  urlunsplit = λ p. glue p.0 (glue "?" p.1);
}

behind-glue : (url q : String) → behind b'?' (glue (before b'?' url) (glue "?" q)) ≡ q
unfolding behind glue before
behind-glue Prim.Native.String.[] q = refl
behind-glue (Prim.Native.String.◌∷◌ c s) q = elim (Bool-cases (eqb (code c) b'?')) [
  | inl e ↦ rw e refl
  | inr e ↦ rw e (rw e (behind-glue s q))
]

before-IsQuery : (q : String) → IsQuery (codes q) → before b'#' q ≡ q
unfolding before codes
before-IsQuery Prim.Native.String.[] h = refl
before-IsQuery (Prim.Native.String.◌∷◌ c s) h =
    rw h.0.0 (ap (Prim.Native.String.◌∷◌ c) (before-IsQuery s h.1))

plain_resplit :
    (url q : String)
    → IsQuery (codes q)
    → before b'#' (behind b'?' (glue (before b'?' url) (glue "?" q))) ≡ q
plain_resplit url q h = ap (before b'#') (behind-glue url q) ∙ before-IsQuery q h

-- The text of a text is itself; numbers are not used.
show_text : Atom → String
show_text (str s) = s
show_text _ = "0"

abbrev printing : Printing
unfolding show_text
printing = record { show = show_text }

abbrev params : Params
params =
    ("q", scalar (str "a b&c"))
    ∷ ("none", scalar null)
    ∷ ("é", many (str "=" ∷ null ∷ str "x" ∷ []))
    ∷ []

merged :
    merge_url_params ⦃p = printing⦄ plain_urls "http://a.test/p?k=%C3%A9&+" params
    ≡ "http://a.test/p?k=%C3%A9&+=&q=a+b%26c&%C3%A9=%3D&%C3%A9=x"
unfolding merge_url_params printing plain_urls
merged = refl

query_pairs-merge_url_params_example :
    query_pairs ⦃p = printing⦄ plain_urls
      (merge_url_params ⦃p = printing⦄ plain_urls "http://a.test/p?k=1" params)
    ≡ query_pairs ⦃p = printing⦄ plain_urls "http://a.test/p?k=1"
      ++ iter_params ⦃p = printing⦄ params
unfolding plain_urls
query_pairs-merge_url_params_example =
    query_pairs-merge_url_params ⦃p = printing⦄ plain_urls plain_resplit "http://a.test/p?k=1"
      params

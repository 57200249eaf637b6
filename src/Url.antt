-- ===== src/Url.antt =====
-- `_merge_url_params` of cycletls/api.py. `urlsplit` and `urlunsplit` of `urllib.parse` are
-- parameters, and so is the text that `str` makes of a number; queries are written and read as
-- `urllib.parse` does it.
pub mod Unicode
pub mod Quote
pub mod RoundTrip
pub mod Scalars
pub mod Laws
pub mod Tests
use Prim.Native.Char.{Char}
use Prim.Native.String
use Prim.Native.String.{char_at}
use cycletls_python.Base.{
  ℕ, ◌-◌, String, Bool, List, [], ◌∷◌, ◌++◌, Option, none, some, map, if◌then◌else◌,
}
use cycletls_python.Dict.{Dict}
use cycletls_python.Text.{codes}
use cycletls_python.Values.{Atom, null, Multi, scalar, many, is_nil}
use cycletls_python.Url.Quote.{Codes, urlencode, parse_qsl}

-- The parts of a URL, and what is read and replaced of them.
pub record Urls : Type 1 where
  pub Parts : Type 0
  pub urlsplit : String → Parts
  pub query : Parts → String
  pub with_query : String → Parts → Parts
  pub urlunsplit : Parts → String

-- str(value) of a value that is not None
pub record Printing : Type 0 where
  pub show : Atom → String

abbrev pub show : ⦃p : Printing⦄ → Atom → String
show ⦃p⦄ = p.show

-- the visible characters of ASCII, the first of them with the code 32
abbrev pub visible : String
visible =
    " !\"#$%&'()*+,-./0123456789:;<=>?@ABCDEFGHIJKLMNOPQRSTUVWXYZ[\\]^_`abcdefghijklmnopqrstuvwxyz{|}~"

-- The text of visible ASCII characters.
unfoldable pub ascii_text : Codes → String
ascii_text [] = ""
ascii_text (c ∷ cs) = Prim.Native.String.◌∷◌ (char_at visible (c - 32)) (ascii_text cs)

-- The parameters of a request, from a mapping or from pairs.
abbrev pub Params : Type 0
Params = List (String × Multi)

module _ ⦃p : Printing⦄ where
  -- one value, unless it is None
  unfoldable pub pair_of : String → Atom → List (Codes × Codes)
  pair_of key null = []
  pair_of key value = (codes key, codes (show value)) ∷ []

  unfoldable pub pairs_of : String → List Atom → List (Codes × Codes)
  unfolding pair_of
  pairs_of key [] = []
  pairs_of key (v ∷ vs) = pair_of key v ++ pairs_of key vs

  -- iter_params()
  unfoldable pub iter_params : Params → List (Codes × Codes)
  unfolding pairs_of
  iter_params [] = []
  iter_params ((key, scalar v) ∷ rest) = pair_of key v ++ iter_params rest
  iter_params ((key, many vs) ∷ rest) = pairs_of key vs ++ iter_params rest

  module _ (u : Urls) where
    open u use {urlsplit, query, with_query, urlunsplit}

    -- the pairs in the query of a URL
    unfoldable pub query_pairs : String → List (Codes × Codes)
    unfolding codes parse_qsl
    query_pairs url = parse_qsl (codes (query (urlsplit url)))

    -- _merge_url_params, of a URL that urlsplit accepts: its ValueError is left out
    unfoldable pub merge_url_params : String → Params → String
    unfolding query_pairs iter_params urlencode ascii_text is_nil
    merge_url_params url params =
        if is_nil params
        then url
        else (let parsed = urlsplit url in
            let combined = query_pairs url ++ iter_params params in
            urlunsplit (with_query (ascii_text (urlencode combined)) parsed))

-- ===== src/Values.antt =====
-- The values that the client passes on without looking at their types.
use cycletls_python.Base.{
  ℕ, ℤ, pos, negsuc, String, Bool, true, false, not, List, [], ◌∷◌, ◌==◌, ◌≡◌, refl, ltb, eqb,
}
use cycletls_python.Dict.{Dict}
use cycletls_python.Cookies.{Cookie, CookieJar}

-- A Python float: `dyadic m k` is m / 2 ^ k, the form of every finite one.
pub data Float : Type 0 where
  dyadic : ℤ → ℕ → Float
  infinity minus_infinity nan : Float

pub data Atom : Type 0 where
  null : Atom
  bool : Bool → Atom
  int : ℤ → Atom
  float : Float → Atom
  str : String → Atom
  bytes : List ℕ → Atom

-- a value of `header_values`: a scalar, or a list or tuple
pub data Multi : Type 0 where
  scalar : Atom → Multi
  many : List Atom → Multi

-- A keyword argument of a request.
pub data Value : Type 0 where
  atom : Atom → Value
  list : List Atom → Value
  dict : Dict Atom → Value
  multi : Dict Multi → Value
  cookies : List Cookie → Value
  cookie_dicts : List (Dict Atom) → Value
  jar : CookieJar → Value

abbrev pub none_value : Value
none_value = atom null

abbrev pub text : String → Value
text s = atom (str s)

-- v > 0
unfoldable pub int_positive : ℤ → Bool
int_positive (pos n) = ltb 0 n
int_positive (negsuc n) = false

unfoldable pub float_positive : Float → Bool
unfolding int_positive
float_positive (dyadic m k) = int_positive m
float_positive infinity = true
float_positive minus_infinity = false
float_positive nan = false

int_zero : ℤ → Bool
int_zero (pos n) = eqb n 0
int_zero (negsuc n) = false

unfoldable pub is_nil {ℓ} : {A : Type ℓ} → List A → Bool
is_nil [] = true
is_nil (x ∷ xs) = false

pub eq_nil_of_is_nil {ℓ} : {A : Type ℓ} (l : List A) → is_nil l ≡ true → l ≡ []
unfolding is_nil
eq_nil_of_is_nil [] h = refl
eq_nil_of_is_nil (x ∷ xs) h = cc

-- bool(v)
unfoldable pub atom_truthy : Atom → Bool
unfolding int_zero is_nil
atom_truthy null = false
atom_truthy (bool b) = b
atom_truthy (int n) = not (int_zero n)
atom_truthy (float (dyadic m k)) = not (int_zero m)
atom_truthy (float infinity) = true
atom_truthy (float minus_infinity) = true
atom_truthy (float nan) = true
atom_truthy (str s) = not (s == "")
atom_truthy (bytes b) = not (is_nil b)

unfoldable pub truthy : Value → Bool
unfolding atom_truthy
truthy (atom a) = atom_truthy a
truthy (list l) = not (is_nil l)
truthy (dict d) = not (is_nil d)
truthy (multi d) = not (is_nil d)
truthy (cookies l) = not (is_nil l)
truthy (cookie_dicts l) = not (is_nil l)
truthy (jar j) = not (is_nil j.cookies)

-- The payload of a request: `{"requestId": ..., "options": ...}`.
pub record Payload : Type 0 where
  pub request_id : String
  pub options : Dict Value
